-- ===== src/DmxMerger/Slots/Walk.antt =====
-- The walk of `merge_new_priorities` over the candidates for a slot.
use s_acn.Prelude.{
  ℕ, ◌≡◌, ◌≢◌, ◌⊎◌, inl, inr, refl, sym, subst, ◌∙◌, List, [], ◌∷◌, Member, here, there, arith, not,
  ◌&&◌, ◌==◌, if◌then◌else◌,
}
use s_acn.DmxMerger.State.{SourceState, Slot, calc_src_pap}
use s_acn.DmxMerger.Spec.{Beaten, Wins, HasWinner}
use s_acn.DmxMerger.Slots.{beats, take_over, next_owner}

-- One step of the walk of `merge_new_priorities`.
step : SourceState → ℕ → SourceState → Slot → Slot
step s slot c w =
    if not (c.handle == s.handle) && beats c slot w
    then take_over c slot (calc_src_pap c slot)
    else w

step-Beaten :
    (s : SourceState) (slot : ℕ) (c : SourceState) (w : Slot) (t : SourceState)
    → Beaten t slot w
    → Beaten t slot (step s slot c w)
unfolding step beats
step-Beaten s slot c w t b = ground arith

step-Beaten_self :
    (s : SourceState) (slot : ℕ) (c : SourceState) (w : Slot)
    → c.handle ≢ s.handle
    → Beaten c slot (step s slot c w)
unfolding step beats
step-Beaten_self s slot c w ne = ground arith

step-winner :
    (s : SourceState) (slot : ℕ) (c : SourceState) (w : Slot)
    → (step s slot c w ≡ w) ⊎ Wins c slot (step s slot c w)
unfolding step beats
step-winner s slot c w = ground arith

module _ (s : SourceState) (slot : ℕ) where
  -- What the outputs beat before the walk, they beat after it.
  pub next_owner-Beaten :
      (cs : List SourceState) (w : Slot) (t : SourceState)
      → Beaten t slot w
      → Beaten t slot (next_owner s slot cs w)
  unfolding next_owner step
  next_owner-Beaten [] w t b = b
  next_owner-Beaten (c ∷ cs) w t b =
      next_owner-Beaten cs (step s slot c w) t (step-Beaten s slot c w t b)

  -- After the walk they beat every candidate but the source itself.
  pub next_owner-Beaten_all :
      (cs : List SourceState) (w : Slot) (t : SourceState)
      → Member t cs
      → t.handle ≢ s.handle
      → Beaten t slot (next_owner s slot cs w)
  unfolding next_owner step
  next_owner-Beaten_all [] w t m ne = elim m [ ]
  next_owner-Beaten_all (c ∷ cs) w t (here e) ne =
      next_owner-Beaten cs (step s slot c w) t (rw e (step-Beaten_self s slot c w (rw (← e) ne)))
  next_owner-Beaten_all (c ∷ cs) w t (there m) ne =
      next_owner-Beaten_all cs (step s slot c w) t m ne

  -- The walk leaves the outputs as they were, or to a candidate.
  pub next_owner-winner :
      (cs : List SourceState) (w : Slot)
      → (next_owner s slot cs w ≡ w) ⊎ HasWinner cs slot (next_owner s slot cs w)
  unfolding next_owner step
  next_owner-winner [] w = inl refl
  next_owner-winner (c ∷ cs) w = elim (next_owner-winner cs (step s slot c w)) [
    | inl e ↦ elim (step-winner s slot c w) [
      | inl f ↦ inl (e ∙ f)
      | inr p ↦ inr (c, here refl, subst (Wins c slot) (sym e) p)
    ]
    | inr (t, m, p) ↦ inr (t, there m, p)
  ]
