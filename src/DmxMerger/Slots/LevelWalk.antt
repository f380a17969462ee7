-- ===== src/DmxMerger/Slots/LevelWalk.antt =====
-- The walk of `update_levels_multi_source` over the candidates for a slot.
use s_acn.Prelude.{
  ℕ, ◌≤◌, ◌<◌, ◌≡◌, ◌≢◌, ◌⊎◌, inl, inr, refl, sym, subst, ◌∙◌, List, [], ◌∷◌, Member, here, there,
  arith, not, ◌&&◌, ltb, ◌==◌, if◌then◌else◌,
}
use s_acn.DmxMerger.State.{SourceState, Slot, calc_src_pap}
use s_acn.DmxMerger.Spec.{Beaten, Wins, HasWinner}
use s_acn.DmxMerger.Slots.{take_over, next_level_owner}

-- Levels past the count of a source are 0, which the walk relies on.
abbrev pub IsPadded : SourceState → Type 0
IsPadded t = (i : ℕ) → t.source.valid_level_count ≤ i → t.source.levels i ≡ 0

step : SourceState → ℕ → SourceState → Slot → Slot
step s slot c w =
    if not (c.handle == s.handle)
      && (c.source.address_priority slot == w.pap && ltb w.level (c.source.levels slot))
    then take_over c slot w.pap
    else w

step-pap : (s : SourceState) (slot : ℕ) (c : SourceState) (w : Slot) → (step s slot c w).pap ≡ w.pap
unfolding step
step-pap s slot c w = ground arith

step-Beaten :
    (s : SourceState) (slot : ℕ) (c : SourceState) (w : Slot) (t : SourceState)
    → Beaten t slot w
    → Beaten t slot (step s slot c w)
unfolding step
step-Beaten s slot c w t b = ground arith

step-Beaten_self :
    (s : SourceState) (slot : ℕ) (c : SourceState) (w : Slot)
    → c.handle ≢ s.handle
    → calc_src_pap c slot ≤ w.pap
    → Beaten c slot (step s slot c w)
unfolding step calc_src_pap
step-Beaten_self s slot c w ne le = ground arith

step-winner :
    (s : SourceState) (slot : ℕ) (c : SourceState) (w : Slot)
    → 0 < w.pap
    → IsPadded c
    → (step s slot c w ≡ w) ⊎ Wins c slot (step s slot c w)
unfolding step calc_src_pap
step-winner s slot c w pos pad = ground (arith, pad slot)

module _ (s : SourceState) (slot : ℕ) where
  pub next_level_owner-pap :
      (cs : List SourceState) (w : Slot) → (next_level_owner s slot cs w).pap ≡ w.pap
  unfolding next_level_owner step
  next_level_owner-pap [] w = refl
  next_level_owner-pap (c ∷ cs) w = next_level_owner-pap cs (step s slot c w) ∙ step-pap s slot c w

  -- What the outputs beat before the walk, they beat after it.
  pub next_level_owner-Beaten :
      (cs : List SourceState) (w : Slot) (t : SourceState)
      → Beaten t slot w
      → Beaten t slot (next_level_owner s slot cs w)
  unfolding next_level_owner step
  next_level_owner-Beaten [] w t b = b
  next_level_owner-Beaten (c ∷ cs) w t b =
      next_level_owner-Beaten cs (step s slot c w) t (step-Beaten s slot c w t b)

  -- After the walk they beat every candidate of no higher priority but the source itself.
  pub next_level_owner-Beaten_all :
      (cs : List SourceState) (w : Slot) (t : SourceState)
      → Member t cs
      → t.handle ≢ s.handle
      → calc_src_pap t slot ≤ w.pap
      → Beaten t slot (next_level_owner s slot cs w)
  unfolding next_level_owner step
  next_level_owner-Beaten_all [] w t m ne le = elim m [ ]
  next_level_owner-Beaten_all (c ∷ cs) w t (here e) ne le =
      next_level_owner-Beaten cs (step s slot c w) t
        (rw e (step-Beaten_self s slot c w (rw (← e) ne) (rw (← e) le)))
  next_level_owner-Beaten_all (c ∷ cs) w t (there m) ne le =
      next_level_owner-Beaten_all cs (step s slot c w) t m ne (rw (step-pap s slot c w) le)

  -- The walk leaves the outputs as they were, or to a candidate.
  pub next_level_owner-winner :
      (cs : List SourceState) (w : Slot)
      → 0 < w.pap
      → ((t : SourceState) → Member t cs → IsPadded t)
      → (next_level_owner s slot cs w ≡ w) ⊎ HasWinner cs slot (next_level_owner s slot cs w)
  unfolding next_level_owner step
  next_level_owner-winner [] w pos pad = inl refl
  next_level_owner-winner (c ∷ cs) w pos pad =
      elim (next_level_owner-winner cs (step s slot c w) (rw (step-pap s slot c w) pos)
        (λ t m. pad t (there m))) [
          | inl e ↦ elim (step-winner s slot c w pos (pad c (here refl))) [
            | inl f ↦ inl (e ∙ f)
            | inr p ↦ inr (c, here refl, subst (Wins c slot) (sym e) p)
          ]
          | inr (t, m, p) ↦ inr (t, there m, p)
        ]
