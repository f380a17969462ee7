-- ===== src/Source/Transmit.antt =====
-- transmit_levels_and_pap_when_needed and reset_transmission_suppression of src/sacn/source_state.c.
pub mod Sent
pub mod Levels
pub mod Paps
pub mod Numbers
use s_acn.Prelude.{
  ℕ, ◌+◌, ◌%◌, Array, Bool, true, false, ◌&&◌, ◌||◌, ltb, if◌then◌else◌, List, [], ◌++◌,
}
use s_acn.EtcPal.Timers.{Timers}
use s_acn.Source.State.{SourceUniverse, Network}
use s_acn.Source.Send.{Packet, pack_sequence_number, send_universe_multicast, send_universe_unicast}

-- NUM_PRE_SUPPRESSION_PACKETS
abbrev pub num_pre_suppression_packets : ℕ
num_pre_suppression_packets = 4

-- sacn_source_tick_mode_t
pub data TickMode : Type 0 where
  process_levels_only process_pap_only process_levels_and_pap : TickMode

abbrev pub can_process_levels : TickMode → Bool
can_process_levels process_pap_only = false
can_process_levels _ = true

abbrev pub can_process_pap : TickMode → Bool
can_process_pap process_levels_only = false
can_process_pap _ = true

-- sacn_reset_transmission_suppression_behavior_t
pub data ResetBehavior : Type 0 where
  reset_level reset_pap reset_level_and_pap : ResetBehavior

abbrev pub resets_level : ResetBehavior → Bool
resets_level reset_pap = false
resets_level _ = true

abbrev pub resets_pap : ResetBehavior → Bool
resets_pap reset_level = false
resets_pap _ = true

module _ (T : Timers) (now : ℕ) where
  -- The multicast packets, and then, if all of them were sent, the unicast packets.
  unfoldable pub send_both :
      Network → SourceUniverse T.Timer → Array → Bool × SourceUniverse T.Timer × List Packet
  unfolding send_universe_multicast send_universe_unicast
  send_both net u buf =
      let (all, sent, packets) = send_universe_multicast net u buf in
      let (all', sent', packets') = send_universe_unicast net sent buf in
      if all then (all', sent', packets ++ packets') else (false, sent, packets)

  unfoldable pub transmit_levels :
      Network → TickMode → SourceUniverse T.Timer → Bool × SourceUniverse T.Timer × List Packet
  unfolding send_both
  transmit_levels net mode u =
      let ready =
        can_process_levels mode
        && u.has_level_data
        && (ltb u.level_packets_sent_before_suppression num_pre_suppression_packets
            || T.is_expired now u.level_keep_alive_timer) in
      let (all, sent, packets) = send_both net u u.level_send_buf in
      let count = sent.level_packets_sent_before_suppression in
      if ready
      then (
        all,
        record sent {
          level_packets_sent_before_suppression =
              if ltb count num_pre_suppression_packets then count + 1 else count;
          level_keep_alive_timer = T.reset now sent.level_keep_alive_timer;
        },
        packets,
      )
      else (true, u, [])

  -- The priorities, which are sent after the levels and then have the number after theirs. `before`
  -- says that every send before was successful.
  unfoldable pub transmit_pap :
      Network
      → TickMode
      → Bool
      → SourceUniverse T.Timer
      → Bool × SourceUniverse T.Timer × List Packet
  unfolding send_both
  transmit_pap net mode before u =
      let ready =
        can_process_pap mode
        && u.has_pap_data
        && (ltb u.pap_packets_sent_before_suppression num_pre_suppression_packets
            || T.is_expired now u.pap_keep_alive_timer) in
      let packed =
        if u.levels_sent_this_tick
        then record u {
          pap_send_buf = pack_sequence_number u.pap_send_buf ((u.next_seq_num + 1) % 256);
        }
        else u in
      let (all, sent, packets) =
        if before then send_both net packed packed.pap_send_buf else (false, packed, []) in
      let count = sent.pap_packets_sent_before_suppression in
      if ready
      then (
        all,
        record sent {
          pap_packets_sent_before_suppression =
              if ltb count num_pre_suppression_packets then count + 1 else count;
          pap_keep_alive_timer = T.reset now sent.pap_keep_alive_timer;
        },
        packets,
      )
      else (before, u, [])

  unfoldable pub transmit_levels_and_pap_when_needed :
      Network → TickMode → SourceUniverse T.Timer → Bool × SourceUniverse T.Timer × List Packet
  unfolding transmit_levels transmit_pap
  transmit_levels_and_pap_when_needed net mode u =
      let (all, sent, levels) = transmit_levels net mode u in
      let (all', sent', paps) = transmit_pap net mode all sent in (all', sent', levels ++ paps)

  unfoldable pub reset_transmission_suppression :
      ℕ → ℕ → ResetBehavior → SourceUniverse T.Timer → SourceUniverse T.Timer
  reset_transmission_suppression keep_alive_interval pap_keep_alive_interval behavior u =
      let level : SourceUniverse T.Timer = record u {
        level_packets_sent_before_suppression = 0;
        level_keep_alive_timer =
            if u.has_level_data then T.start now keep_alive_interval else u.level_keep_alive_timer;
      } in
      let u1 = if resets_level behavior then level else u in
      let pap : SourceUniverse T.Timer = record u1 {
        pap_packets_sent_before_suppression = 0;
        pap_keep_alive_timer =
            if u1.has_pap_data
            then T.start now pap_keep_alive_interval
            else u1.pap_keep_alive_timer;
      } in
      if resets_pap behavior then pap else u1
