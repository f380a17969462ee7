-- ===== src/Source/Transmit/Paps.antt =====
-- The packets with the priorities in a tick, and the buffer they are sent from.
use s_acn.Prelude.{
  ℕ, ◌+◌, ◌%◌, ◌≡◌, ◌≢◌, refl, sym, ◌∙◌, ap, subst, Array, Bool, true, false, ◌&&◌, ◌||◌, ltb, ◌==◌,
  if◌then◌else◌, Bool-cases, eq-cases, inl, inr, List, Member, arith,
}
use s_acn.EtcPal.Timers.{Timers}
use s_acn.Receiver.State.{NetintId, startcode_priority}
use s_acn.Source.State.{SourceUniverse, Network}
use s_acn.Source.Send.{to_netint, Packet, pack_sequence_number, count_sent}
use s_acn.Source.Transmit.{
  num_pre_suppression_packets, TickMode, can_process_pap, send_both, transmit_pap,
}
use s_acn.Source.Transmit.Sent.{any_sent, AllHold, send_both-IsSent, send_both-netint}

module _ (T : Timers) (now : ℕ) where
  -- The priorities are to be sent in this tick.
  abbrev pub pap_due : TickMode → SourceUniverse T.Timer → Bool
  pap_due mode u =
      can_process_pap mode
      && u.has_pap_data
      && (ltb u.pap_packets_sent_before_suppression num_pre_suppression_packets
          || T.is_expired now u.pap_keep_alive_timer)

  -- The buffer of the priorities, with the number that it is sent with after the levels.
  abbrev pub numbered : SourceUniverse T.Timer → SourceUniverse T.Timer
  numbered u =
      if u.levels_sent_this_tick
      then record u {
        pap_send_buf = pack_sequence_number u.pap_send_buf ((u.next_seq_num + 1) % 256);
      }
      else u

  numbered-same :
      (u : SourceUniverse T.Timer)
      → ((numbered u).next_seq_num ≡ u.next_seq_num)
        × ((numbered u).level_send_buf ≡ u.level_send_buf)
        × ((numbered u).levels_sent_this_tick ≡ u.levels_sent_this_tick)
        × ((numbered u).pap_sent_this_tick ≡ u.pap_sent_this_tick)
        × ((numbered u).other_sent_this_tick ≡ u.other_sent_this_tick)
        × ((numbered u).pap_send_buf 125 ≡ u.pap_send_buf 125)
  numbered-same u = elim (Bool-cases u.levels_sent_this_tick) [
    | inl e ↦ rw e (refl, refl, refl, refl, refl, refl)
    | inr e ↦ rw e (refl, refl, refl, refl, refl, refl)
  ]

  numbered-netints :
      (u : SourceUniverse T.Timer)
      → ((numbered u).netints ≡ u.netints) × ((numbered u).send_unicast_only ≡ u.send_unicast_only)
  numbered-netints u = elim (Bool-cases u.levels_sent_this_tick) [
    | inl e ↦ rw e (refl, refl)
    | inr e ↦ rw e (refl, refl)
  ]

  pap-stopped :
      (net : Network) (mode : TickMode) (before : Bool) (u : SourceUniverse T.Timer)
      → before ≡ false
      → pap_due mode u ≡ true
      → (transmit_pap T now net mode before u).0 ≢ true
  unfolding transmit_pap
  pap-stopped net mode before u f due = rw (due, f, transmit_pap) (λ e. ground arith)

  pub pap-IsSent :
      (net : Network) (mode : TickMode) (before : Bool) (u : SourceUniverse T.Timer)
      → u.pap_send_buf 125 ≡ startcode_priority
      → u.pap_sent_this_tick ≡ false
      → (let r = transmit_pap T now net mode before u in
          let t = r.1 in
          (t.next_seq_num ≡ u.next_seq_num)
          × (t.level_send_buf ≡ u.level_send_buf)
          × (t.levels_sent_this_tick ≡ u.levels_sent_this_tick)
          × (t.other_sent_this_tick ≡ u.other_sent_this_tick)
          × (t.pap_send_buf 125 ≡ startcode_priority)
          × (t.pap_sent_this_tick ≡ any_sent r.2)
          × AllHold (numbered u).pap_send_buf r.2)
  unfolding transmit_pap any_sent
  pap-IsSent net mode before u code unsent =
      let packed = numbered u in
      let (number, level, levels, paps, other, at) = numbered-same u in
      let sent = send_both-IsSent T now net packed packed.pap_send_buf in
      let (a, b, c) = sent.priority (at ∙ code) in
      let after = ap (λ (f : Array). f 125) sent.paps in
      let none_before = paps ∙ unsent in
      let ready =
        can_process_pap mode
        && u.has_pap_data
        && (ltb u.pap_packets_sent_before_suppression num_pre_suppression_packets
            || T.is_expired now u.pap_keep_alive_timer) in
      elim (Bool-cases ready) [
        | inr e ↦ rw (e, transmit_pap) (refl, refl, refl, refl, code, unsent, λ p m. elim m [ ])
        | inl e ↦ elim (Bool-cases before) [
          | inl f ↦
              rw (e, f, transmit_pap)
                (
                  sent.number ∙ number,
                  sent.levels ∙ level,
                  b ∙ levels,
                  c ∙ other,
                  after ∙ at ∙ code,
                  a
                      ∙ ap (λ x. x || any_sent (send_both T now net packed packed.pap_send_buf).2)
                          none_before,
                  sent.content,
                )
          | inr f ↦
              rw (e, f, transmit_pap)
                (number, level, levels, other, at ∙ code, none_before, λ p m. elim m [ ])
        ]
      ]

  pub pap-reached :
      (net : Network) (mode : TickMode) (before : Bool) (u : SourceUniverse T.Timer) (n : NetintId)
      → (transmit_pap T now net mode before u).0 ≡ true
      → pap_due mode u ≡ true
      → u.send_unicast_only ≡ false
      → Member n u.netints
      → (p : Packet) × Member p (transmit_pap T now net mode before u).2 × (p.target ≡ to_netint n)
  unfolding transmit_pap
  pap-reached net mode before u n all due only m =
      let packed = numbered u in
      let (same, alone) = numbered-netints u in
      elim (Bool-cases before) [
        | inl f ↦
            rw (due, f, transmit_pap)
              (send_both-netint T now net packed packed.pap_send_buf n (alone ∙ only)
                (subst (λ (x : List NetintId). Member n x) (sym same) m))
        | inr f ↦ absurd (pap-stopped net mode before u f due all)
      ]

  pub numbered-content :
      (u s : SourceUniverse T.Timer) (sent : Bool) (j : ℕ)
      → s.levels_sent_this_tick ≡ sent
      → s.next_seq_num ≡ u.next_seq_num
      → s.pap_send_buf ≡ u.pap_send_buf
      → u.pap_send_buf 111 ≡ u.next_seq_num
      → (numbered s).pap_send_buf j
        ≡ (if j == 111 then count_sent sent u.next_seq_num else u.pap_send_buf j)
  numbered-content u s sent j e n b h =
      let same = ap (λ (f : Array). f j) b in
      let at : u.pap_send_buf 111 ≡ u.next_seq_num = h in
      elim (Bool-cases s.levels_sent_this_tick) [
        | inl t ↦ rw t (ground arith)
        | inr t ↦ rw t (elim (eq-cases j 111) [
          | inl k ↦ let g = ap u.pap_send_buf k in ground arith
          | inr k ↦ ground arith
        ])
      ]
