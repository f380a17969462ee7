-- ===== src/DmxMerger/Slots/MergeLevels.antt =====
-- One round of the loop of `update_levels_multi_source`, for a slot that the source had and keeps.
use s_acn.Prelude.{
  ℕ, ◌≤◌, ◌<◌, ◌≡◌, ◌≢◌, inl, inr, sym, subst, ◌∙◌, List, Member, arith, ◌&&◌, ltb, ◌==◌,
  Bool-cases,
}
use s_acn.DmxMerger.State.{SourceState, Slot, calc_src_pap, source_invalid}
use s_acn.DmxMerger.Spec.{Wins, IsMerge, Replaced}
use s_acn.DmxMerger.Slots.{take_over, next_level_owner, merge_levels_slot}
use s_acn.DmxMerger.Slots.LevelWalk.{
  IsPadded, next_level_owner-Beaten, next_level_owner-Beaten_all, next_level_owner-winner,
}
use s_acn.DmxMerger.Slots.Merge.{others, still_won, owned}

module _ (s s' : SourceState) (ss ss' : List SourceState) (slot : ℕ) (w : Slot)
    (r : Replaced s s' ss ss') (m : IsMerge ss slot w) (valid : s'.handle ≢ source_invalid)
    (now : calc_src_pap s' slot ≡ s'.source.address_priority slot)
    (before : calc_src_pap s slot ≡ calc_src_pap s' slot)
    (padded : (t : SourceState) → Member t ss' → IsPadded t) where
  rises :
      0 < w.pap
      → calc_src_pap s' slot ≡ w.pap
      → w.level < s'.source.levels slot
      → IsMerge ss' slot (take_over s' slot w.pap)
  rises pos e h =
      others s s' ss ss' slot w r m valid _ (λ t k n. let b = m.beaten t k in ground arith)
        (ground arith) (inr (s', r.new, ground arith))

  falls :
      0 < w.pap
      → calc_src_pap s' slot ≡ w.pap
      → s'.handle ≡ w.owner
      → s'.source.levels slot < w.level
      → IsMerge ss' slot (next_level_owner s' slot ss' (record w { level = s'.source.levels slot }))
  falls pos e h lt =
      let w' : Slot = record w { level = s'.source.levels slot } in
      let win : Wins s' slot w' = ground arith in
      others s s' ss ss' slot w r m valid _
        (λ t k ne.
          next_level_owner-Beaten_all s' slot ss' w' t (r.kept t k ne) (λ f. ne (f ∙ r.same_handle))
            (m.beaten t k).pap_le)
        (next_level_owner-Beaten s' slot ss' w' s' (ground arith))
        (elim (next_level_owner-winner s' slot ss' w' pos padded) [
          | inl f ↦ inr (s', r.new, subst (Wins s' slot) (sym f) win)
          | inr p ↦ inr p
        ])

  -- No change of owner or level: the source wins still, or is beaten still.
  same :
      (0 < calc_src_pap s' slot → calc_src_pap s' slot ≡ w.pap → s'.source.levels slot ≤ w.level)
      → (s'.handle ≡ w.owner → s'.source.levels slot ≡ w.level)
      → IsMerge ss' slot w
  same le eq =
      others s s' ss ss' slot w r m valid _ (λ t k n. m.beaten t k)
        (let b = m.beaten s r.old in ground arith)
        (elim (Bool-cases (s'.handle == w.owner)) [
          | inl b ↦
              let e : s'.handle ≡ w.owner = ground arith in
              let p = owned s s' ss ss' slot w r m valid e in
              let q = eq e in inr (s', r.new, ground arith)
          | inr b ↦ still_won s s' ss ss' slot w r m valid (ground arith)
        ])

  -- One round of the loop of update_levels_multi_source turns the outputs of a slot that are the merge
  -- of the old sources into the merge of the new ones, where one source changed, at a slot that its
  -- levels reach, but not its priority there, and no source has a level past its level count.
  pub merge_levels_slot-IsMerge : IsMerge ss' slot (merge_levels_slot s' ss' slot w)
  unfolding merge_levels_slot
  merge_levels_slot-IsMerge =
      elim (Bool-cases
        (ltb 0 (s'.source.address_priority slot) && s'.source.address_priority slot == w.pap)) [
          | inr a ↦
              rw (a, merge_levels_slot)
                (same (λ pos e. absurd (ground arith))
                  (λ e. let p = owned s s' ss ss' slot w r m valid e in absurd (ground arith)))
          | inl a ↦ elim (Bool-cases (ltb w.level (s'.source.levels slot))) [
            | inl b ↦
                rw (a, b, merge_levels_slot) (rises (ground arith) (ground arith) (ground arith))
            | inr b ↦
                elim (Bool-cases (s'.handle == w.owner && ltb (s'.source.levels slot) w.level)) [
                  | inl c ↦
                      rw (a, b, c, merge_levels_slot)
                        (falls (ground arith) (ground arith) (ground arith) (ground arith))
                  | inr c ↦ rw (a, b, c, merge_levels_slot) (same (ground arith) (ground arith))
                ]
          ]
        ]
