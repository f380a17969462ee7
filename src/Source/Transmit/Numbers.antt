-- ===== src/Source/Transmit/Numbers.antt =====
-- The packets of a universe in a tick, and their sequence numbers.
use s_acn.Prelude.{ℕ, ◌≡◌, ◌<◌, Bool, true, false, ◌==◌, if◌then◌else◌, List, ◌++◌, Member}
use s_acn.EtcPal.Timers.{Timers}
use s_acn.Receiver.State.{NetintId, startcode_dmx, startcode_priority}
use s_acn.Source.State.{SourceUniverse}
use s_acn.Source.Send.{to_netint, Packet, count_sent}
use s_acn.Source.Transmit.{TickMode}
use s_acn.Source.Transmit.Sent.{any_sent, AllHold}
use s_acn.Source.Transmit.Levels.{levels_due}
use s_acn.Source.Transmit.Paps.{pap_due}

module _ (T : Timers) (now : ℕ) where
  -- The universe between two ticks: the buffers have their start codes and the next number, and no
  -- flag is set.
  pub record IsNumbered (u : SourceUniverse T.Timer) : Type 0 where
    pub byte : u.next_seq_num < 256
    pub level_number : u.level_send_buf 111 ≡ u.next_seq_num
    pub pap_number : u.pap_send_buf 111 ≡ u.next_seq_num
    pub level_code : u.level_send_buf 125 ≡ startcode_dmx
    pub pap_code : u.pap_send_buf 125 ≡ startcode_priority
    pub no_levels : u.levels_sent_this_tick ≡ false
    pub no_pap : u.pap_sent_this_tick ≡ false
    pub no_other : u.other_sent_this_tick ≡ false

  -- The packets of a tick are the packets with the levels, as they stand in the buffer, and then the
  -- packets with the priorities, with the number after the levels if any of these went out and the
  -- same number otherwise. The next number, of `v`, is the one after the last that went out.
  pub record IsTransmitted (mode : TickMode) (u v : SourceUniverse T.Timer) (all : Bool)
      (ps : List Packet) : Type 0 where
    pub levels : List Packet
    pub paps : List Packet
    pub order : ps ≡ levels ++ paps
    pub level_content : AllHold u.level_send_buf levels
    pub pap_content :
        (p : Packet)
        → Member p paps
        → (j : ℕ)
        → p.content j
          ≡ (if j == 111 then count_sent (any_sent levels) u.next_seq_num else u.pap_send_buf j)
    pub next :
        v.next_seq_num ≡ count_sent (any_sent paps) (count_sent (any_sent levels) u.next_seq_num)
    pub reached :
        levels_due T now mode u ≡ true
        → u.send_unicast_only ≡ false
        → (n : NetintId) → Member n u.netints
        → (p : Packet) × Member p levels × (p.target ≡ to_netint n)
    pub pap_reached :
        all ≡ true
        → pap_due T now mode u ≡ true
        → u.send_unicast_only ≡ false
        → (n : NetintId) → Member n u.netints
        → (p : Packet) × Member p paps × (p.target ≡ to_netint n)
