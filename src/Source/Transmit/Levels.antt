-- ===== src/Source/Transmit/Levels.antt =====
-- The packets with the levels in a tick.
use s_acn.Prelude.{
  ℕ, ◌≡◌, refl, Bool, true, false, ◌&&◌, ◌||◌, ltb, Bool-cases, inl, inr, Member, arith,
}
use s_acn.EtcPal.Timers.{Timers}
use s_acn.Receiver.State.{NetintId}
use s_acn.Source.State.{SourceUniverse, Network}
use s_acn.Source.Send.{to_netint, Packet}
use s_acn.Source.Transmit.{
  num_pre_suppression_packets, TickMode, can_process_levels, transmit_levels,
}
use s_acn.Source.Transmit.Sent.{any_sent, IsSent, send_both-IsSent, send_both-netint}

module _ (T : Timers) (now : ℕ) where
  -- The levels are to be sent in this tick.
  abbrev pub levels_due : TickMode → SourceUniverse T.Timer → Bool
  levels_due mode u =
      can_process_levels mode
      && u.has_level_data
      && (ltb u.level_packets_sent_before_suppression num_pre_suppression_packets
          || T.is_expired now u.level_keep_alive_timer)

  pub levels-IsSent :
      (net : Network) (mode : TickMode) (u : SourceUniverse T.Timer)
      → (let r = transmit_levels T now net mode u in IsSent u r.1 u.level_send_buf r.2)
  unfolding transmit_levels any_sent
  levels-IsSent net mode u =
      let sent = send_both-IsSent T now net u u.level_send_buf in
      elim (Bool-cases (levels_due mode u)) [
        | inl e ↦
            rw (e, transmit_levels)
              (record {
                number = sent.number;
                levels = sent.levels;
                paps = sent.paps;
                content = sent.content;
                same_pap = sent.same_pap;
                dmx = sent.dmx;
                priority = sent.priority;
              })
        | inr e ↦
            rw (e, transmit_levels)
              (record {
                number = refl;
                levels = refl;
                paps = refl;
                content = λ p m. elim m [ ];
                same_pap = (refl, refl, refl, refl, refl);
                dmx = λ c. (ground arith, refl, refl);
                priority = λ c. (ground arith, refl, refl);
              })
      ]

  pub levels-reached :
      (net : Network) (mode : TickMode) (u : SourceUniverse T.Timer) (n : NetintId)
      → levels_due mode u ≡ true
      → u.send_unicast_only ≡ false
      → Member n u.netints
      → (p : Packet) × Member p (transmit_levels T now net mode u).2 × (p.target ≡ to_netint n)
  unfolding transmit_levels
  levels-reached net mode u n due only m =
      rw (due, transmit_levels) (send_both-netint T now net u u.level_send_buf n only m)
