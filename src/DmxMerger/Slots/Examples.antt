-- ===== src/DmxMerger/Slots/Examples.antt =====
-- The theorems on the merge loops for one source that gets a priority, and then a level.
use s_acn.Prelude.{
  ℕ, ◌≡◌, ◌≢◌, inl, inr, refl, ap, ltb, if◌then◌else◌, true, false, [], ◌∷◌, Member, Member_uncons,
  here, arith,
}
use s_acn.DmxMerger.State.{SourceState, calc_src_pap, released, source_invalid}
use s_acn.DmxMerger.Spec.{IsMerge, Replaced}
use s_acn.DmxMerger.Slots.{merge_new_priorities_slot, merge_levels_slot}
use s_acn.DmxMerger.Slots.LevelWalk.{IsPadded}
use s_acn.DmxMerger.Slots.Merge.{merge_new_priorities_slot-IsMerge}
use s_acn.DmxMerger.Slots.MergeLevels.{merge_levels_slot-IsMerge}

-- Source 7 with the level and the priority given at all of its 512 slots.
abbrev source_at : ℕ → ℕ → SourceState
source_at level pap = record {
  handle = 7;
  source = record {
    id = 7;
    levels = λ i. if ltb i 512 then level else 0;
    valid_level_count = 512;
    universe_priority = 0;
    address_priority = λ _. pap;
    using_universe_priority = false;
  };
  pap_count = 512;
  universe_priority_uninitialized = true;
}

alone : {t a : SourceState} → Member t (a ∷ []) → t ≡ a
alone m = elim (Member_uncons m) [ inl p ↦ p | inr n ↦ elim n [ ] ]

replaced :
    (a b c d : ℕ)
    → Replaced (source_at a b) (source_at c d) (source_at a b ∷ []) (source_at c d ∷ [])
replaced a b c d = record {
  same_handle = refl;
  old = here refl;
  new = here refl;
  kept = λ t m ne. absurd (ne (ap (λ (x : SourceState). x.handle) (alone m)));
  rest = λ t m. inl (alone m);
  unique = λ t m e. alone m;
}

silent : IsMerge (source_at 5 0 ∷ []) 0 released
unfolding calc_src_pap
silent = record { beaten = λ t m. rw (alone m) (ground arith); won = inl refl }

valid : 7 ≢ source_invalid
valid = omega arith

merge_new_priorities_slot-IsMerge_example :
    IsMerge
      (source_at 5 9 ∷ [])
      0
      (merge_new_priorities_slot (source_at 5 9) (source_at 5 9 ∷ []) 0 released)
merge_new_priorities_slot-IsMerge_example =
    merge_new_priorities_slot-IsMerge (source_at 5 0) (source_at 5 9) (source_at 5 0 ∷ [])
      (source_at 5 9 ∷ []) 0 released (replaced 5 0 5 9) silent valid (inl refl)

heard : IsMerge (source_at 5 9 ∷ []) 0 (record { level = 5; pap = 9; owner = 7 })
unfolding calc_src_pap
heard = record {
  beaten = λ t m. rw (alone m) (ground arith);
  won = inr (source_at 5 9, here refl, ground arith);
}

fits : calc_src_pap (source_at 6 9) 0 ≡ 9
unfolding calc_src_pap
fits = refl

before : calc_src_pap (source_at 5 9) 0 ≡ calc_src_pap (source_at 6 9) 0
unfolding calc_src_pap
before = refl

padded : (t : SourceState) → Member t (source_at 6 9 ∷ []) → IsPadded t
padded t m = rw (alone m) (λ i le. ground arith)

merge_levels_slot-IsMerge_example : IsMerge (source_at 6 9 ∷ []) 0 (
    merge_levels_slot
      (source_at 6 9)
      (source_at 6 9 ∷ [])
      0
      (record { level = 5; pap = 9; owner = 7 }))
merge_levels_slot-IsMerge_example =
    merge_levels_slot-IsMerge (source_at 5 9) (source_at 6 9) (source_at 5 9 ∷ [])
      (source_at 6 9 ∷ []) 0 (record { level = 5; pap = 9; owner = 7 }) (replaced 5 9 6 9) heard
      valid fits before padded
