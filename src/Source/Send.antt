-- ===== src/Source/Send.antt =====
-- The packets of one universe on their way out: the functions of src/sacn/source_state.c that send a
-- buffer, and the sequence numbers. The packets handed to the sockets are given back, in order, each
-- with what the socket answers.
use s_acn.Prelude.{
  ℕ, ◌+◌, ◌%◌, Array, set, Bool, true, false, ◌&&◌, ◌==◌, if◌then◌else◌, List, [], ◌∷◌,
}
use s_acn.EtcPal.{EtcPalError, is_ok}
use s_acn.Receiver.State.{NetintId, startcode_dmx, startcode_priority}
use s_acn.Source.State.{UnicastDestination, SourceUniverse, is_not_terminating, Network}

-- buf[SACN_SEQ_OFFSET] = seq_num
abbrev pub pack_sequence_number : Array → ℕ → Array
pack_sequence_number buf seq_num = set buf 111 seq_num

-- Where a packet goes: the universe's multicast group on an interface, or an address.
pub data Target : Type 0 where
  to_netint : NetintId → Target
  to_address : ℕ → Target

-- A packet that is handed to a socket, which answers `result`.
pub record Packet : Type 0 where
  pub target : Target
  pub content : Array
  pub result : EtcPalError

-- The sends of a buffer to a list of destinations: whether all were sent, the last error, whether any
-- was sent, and the packets.
unfoldable pub attempt {ℓ} :
    {D : Type ℓ}
    → (D → Target)
    → (D → EtcPalError)
    → Array
    → List D
    → EtcPalError
    → Bool × EtcPalError × Bool × List Packet
attempt target send buf [] last = (true, last, false, [])
attempt target send buf (d ∷ ds) last =
    let sent = is_ok (send d) in
    let (all, error, any, packets) = attempt target send buf ds (if sent then last else send d) in
    (
      sent && all,
      error,
      (if sent then true else any),
      record { target = target d; content = buf; result = send d } ∷ packets,
    )

-- The destinations that are sent to: those that are not terminating.
unfoldable pub active_dests : List UnicastDestination → List UnicastDestination
active_dests [] = []
active_dests (d ∷ ds) =
    let rest = active_dests ds in if is_not_terminating d.termination_state then d ∷ rest else rest

unfoldable pub note_errors : Network → List UnicastDestination → List UnicastDestination
note_errors net [] = []
note_errors net (d ∷ ds) =
    (if is_not_terminating d.termination_state
      then record d { last_send_error = net.unicast_error d.dest_addr d.last_send_error }
      else d)
    ∷ note_errors net ds

-- ++universe->next_seq_num, a uint8_t, where the flag is set
abbrev pub count_sent : Bool → ℕ → ℕ
count_sent sent n = if sent then (n + 1) % 256 else n

module _ {Timer : Type 0} where
  unfoldable pub handle_data_packet_sent : Array → SourceUniverse Timer → SourceUniverse Timer
  handle_data_packet_sent buf u =
      if buf 125 == startcode_dmx
      then record u { levels_sent_this_tick = true; anything_sent_this_tick = true }
      else if buf 125 == startcode_priority
      then record u { pap_sent_this_tick = true; anything_sent_this_tick = true }
      else record u { other_sent_this_tick = true; anything_sent_this_tick = true }

  unfoldable pub send_universe_multicast :
      Network → SourceUniverse Timer → Array → Bool × SourceUniverse Timer × List Packet
  unfolding attempt handle_data_packet_sent
  send_universe_multicast net u buf =
      let (all, error, any, packets) =
        attempt to_netint net.multicast buf (if u.send_unicast_only then [] else u.netints)
          u.last_send_error in
      let noted = record u { last_send_error = error } in
      (all, if any then handle_data_packet_sent buf noted else noted, packets)

  unfoldable pub send_universe_unicast :
      Network → SourceUniverse Timer → Array → Bool × SourceUniverse Timer × List Packet
  unfolding attempt active_dests note_errors handle_data_packet_sent
  send_universe_unicast net u buf =
      let (all, error, any, packets) =
        attempt (λ (d : UnicastDestination). to_address d.dest_addr)
          (λ (d : UnicastDestination). net.unicast d.dest_addr) buf (active_dests u.unicast_dests)
          u.last_send_error in
      let noted = record u {
        last_send_error = error;
        unicast_dests = note_errors net u.unicast_dests;
      } in
      (all, if any then handle_data_packet_sent buf noted else noted, packets)

  unfoldable pub increment_sequence_number : SourceUniverse Timer → SourceUniverse Timer
  increment_sequence_number u =
      let n =
        count_sent u.other_sent_this_tick
          (count_sent u.pap_sent_this_tick (count_sent u.levels_sent_this_tick u.next_seq_num)) in
      record u {
        next_seq_num = n;
        levels_sent_this_tick = false;
        pap_sent_this_tick = false;
        other_sent_this_tick = false;
        anything_sent_this_tick = false;
        level_send_buf = pack_sequence_number u.level_send_buf n;
        pap_send_buf = pack_sequence_number u.pap_send_buf n;
      }
