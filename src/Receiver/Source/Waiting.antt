-- ===== src/Receiver/Source/Waiting.antt =====
-- A source that sends levels only: its data is held back while it may still send priorities.
use s_acn.Prelude.{
  ℕ, ◌+◌, ◌≡◌, ◌≤◌, ◌<◌, ◌↔◌, refl, ◌∙◌, ap, Bool, true, false, if◌then◌else◌, List, [], ◌∷◌,
  Member, here, there, arith,
}
use s_acn.Receiver.State.{waiting_for_pap, have_dmx_and_pap, Platform, Tracked, wait_for_priority}
use s_acn.Receiver.Source.{process_null_start_code}

module _ (P : Platform) where
  -- The NULL start code packets of a source at the times given, and what comes of each: the last
  -- state, and whether some data was passed on.
  unfoldable pub hear : List ℕ → Tracked P → Tracked P × Bool
  unfolding process_null_start_code
  hear [] s = (s, false)
  hear (t ∷ ts) s =
      let (s', _, notify) = process_null_start_code P t true s in
      let (last, later) = hear ts s' in (last, if notify then true else later)

  -- process_null_start_code holds data back exactly while the source is waited for to send
  -- priorities and its waiting time is not over; and it finds priorities lost exactly where they came
  -- before, have timed out, and the source is known.
  pub process_null_start_code-notify :
      (now : ℕ) (known : Bool) (s : Tracked P)
      → (((process_null_start_code P now known s).2 ≡ false)
          ↔ ((s.recv_state ≡ waiting_for_pap) × (P.tm.is_expired now s.pap_timer ≡ false)))
        × (((process_null_start_code P now known s).1 ≡ true) ↔ (
            (s.recv_state ≡ have_dmx_and_pap)
            × (P.tm.is_expired now s.pap_timer ≡ true)
            × (known ≡ true)))
  unfolding process_null_start_code
  process_null_start_code-notify now known s = ground arith

  -- The source waits since `t0`.
  abbrev Waits : ℕ → Tracked P → Type 0
  Waits t0 s = (s.recv_state ≡ waiting_for_pap) × (s.pap_timer ≡ P.tm.start t0 wait_for_priority)

  one-Waits :
      (t0 t : ℕ) (s : Tracked P)
      → Waits t0 s
      → t0 ≤ t
      → t < t0 + wait_for_priority
      → Waits t0 (process_null_start_code P t true s).0
        × ((process_null_start_code P t true s).2 ≡ false)
  unfolding process_null_start_code
  one-Waits t0 t s w a b =
      let (state, timer) = w in
      let off : P.tm.is_expired t s.pap_timer ≡ false =
        ap (P.tm.is_expired t) timer ∙ P.tm.fresh t t0 wait_for_priority a b in
      ground arith

  hear-Waits :
      (t0 : ℕ) (ts : List ℕ) (s : Tracked P)
      → Waits t0 s
      → ((t : ℕ) → Member t ts → (t0 ≤ t) × (t < t0 + wait_for_priority))
      → Waits t0 (hear ts s).0 × ((hear ts s).1 ≡ false)
  unfolding hear
  hear-Waits t0 [] s w all = (w, refl)
  hear-Waits t0 (t ∷ ts) s w all =
      let (a, b) = all t (here refl) in
      let (w', held) = one-Waits t0 t s w a b in
      let (last, none) =
        hear-Waits t0 ts (process_null_start_code P t true s).0 w' (λ u m. all u (there m)) in
      (last, rw (held, none) refl)

  -- The data of a source that waits for priorities since t0 is held back in all packets before the
  -- waiting time is over, however many they are; and is passed on in the first one after it.
  pub hear-held :
      (t0 now : ℕ) (ts : List ℕ) (s : Tracked P)
      → s.recv_state ≡ waiting_for_pap
      → s.pap_timer ≡ P.tm.start t0 wait_for_priority
      → ((t : ℕ) → Member t ts → (t0 ≤ t) × (t < t0 + wait_for_priority))
      → t0 + wait_for_priority < now
      → ((hear ts s).1 ≡ false) × ((hear (now ∷ []) (hear ts s).0).1 ≡ true)
  unfolding hear process_null_start_code
  hear-held t0 now ts s state timer all late =
      let (w, held) = hear-Waits t0 ts s (state, timer) all in
      let (state', timer') = w in
      let on : P.tm.is_expired now (hear ts s).0.pap_timer ≡ true =
        ap (P.tm.is_expired now) timer' ∙ P.tm.expired_later now t0 wait_for_priority late in
      (held, ground arith)
