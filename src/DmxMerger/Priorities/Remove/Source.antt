-- ===== src/DmxMerger/Priorities/Remove/Source.antt =====
-- remove_source: the source is merged out, the flags are set without it, and it leaves the tree.
use s_acn.Prelude.{
  ℕ, ◌<◌, ◌≡◌, ◌⊎◌, inl, inr, refl, memset, Bool, true, false, not, ◌&&◌, some, Member, arith,
  Bool-cases, Option-cases,
}
use s_acn.EtcPal.{IntHandleManager}
use s_acn.DmxMerger.State.{SourceTree, SourceState, MergerState, calc_src_pap, get_slot, max_slots}
use s_acn.DmxMerger.Spec.{Replaced}
use s_acn.DmxMerger.Outputs.Flags.{merge_slots-SameFlags}
use s_acn.DmxMerger.Update.{
  with_priorities, sources, put_source, put_config, merge_new_priorities, set_pap_active,
}
use s_acn.DmxMerger.Priority.{
  with_universe_priority, set_universe_priority, recalculate_pap_active,
  recalculate_universe_priority, max_universe_priority, retire_pap,
}
use s_acn.DmxMerger.Invariant.{IsSource, IsMerged}
use s_acn.DmxMerger.Replace.{
  store-Replaced, Replaced-trans, Replaced-IsPapActive, Replaced-IsMaxPriority, replace-IsMerged,
  flags-IsMerged, unchanged-IsMerge,
}
use s_acn.DmxMerger.Recalculate.{max_universe_priority-IsMaxPriority}
use s_acn.DmxMerger.Priorities.{SameLevels, reprioritised-IsMerge}
use s_acn.DmxMerger.Priorities.Remove.{recalculate_pap_active-IsMerged}

-- The source without priorities.
unfoldable pub cleared : SourceState → SourceState
unfolding with_priorities
cleared s = with_priorities s (memset s.source.address_priority 0 0 max_slots)

cleared-IsSource : (s : SourceState) → IsSource s → IsSource (cleared s)
unfolding cleared with_priorities
cleared-IsSource s h = record {
  has_handle = h.has_handle;
  levels_fit = h.levels_fit;
  priorities_fit = h.priorities_fit;
  levels_padded = h.levels_padded;
  priorities_padded = λ i k. ground (arith, h.priorities_padded i);
}

-- The source claims no slot.
abbrev pub Unsourced : SourceState → Type 0
Unsourced s = (j : ℕ) → j < max_slots → calc_src_pap s j ≡ 0

cleared-Unsourced : (s : SourceState) → Unsourced (cleared s)
unfolding cleared with_priorities calc_src_pap
cleared-Unsourced s j lt = ground arith

abbrev pub lowest : SourceState → SourceState
lowest s = with_universe_priority s 0

module _ (T : SourceTree) (H : IntHandleManager) where
  -- A merger in which the source that goes is `s'` and claims no slot.
  pub record Leaving (m m' : MergerState T H) (s s' : SourceState) : Type 0 where
    pub merged : IsMerged T H m'
    pub replaced : Replaced s s' (sources T H m) (sources T H m')
    pub unsourced : Unsourced s'

  unfoldable pub merged_out : MergerState T H → SourceState → MergerState T H
  unfolding merge_new_priorities put_source put_config cleared
  merged_out m s = merge_new_priorities T H (put_source T H m (cleared s)) (cleared s) 0 max_slots

  pub merged_out-Leaving :
      (m : MergerState T H) (s : SourceState)
      → IsMerged T H m
      → Member s (sources T H m)
      → Leaving m (merged_out m s) s (cleared s)
  unfolding merged_out merge_new_priorities put_source put_config cleared with_priorities
  merged_out-Leaving m s inv mem =
      let r = store-Replaced T m.source_state_lookup s (cleared s) mem refl in
      let same : SameLevels s (cleared s) = record { handle = refl; levels = refl; count = refl } in
      let old = inv.wellformed s mem in
      record {
        merged =
            flags-IsMerged T H m (merged_out m s) s (cleared s) inv r (cleared-IsSource s old) refl
              refl (merge_slots-SameFlags 0 max_slots _ m.config)
              (λ j lt.
                reprioritised-IsMerge s (cleared s) _ _ max_slots m.config j r same old.has_handle
                  old.levels_fit (inv.slots j lt));
        replaced = r;
        unsourced = cleared-Unsourced s;
      }

  quiet : SourceState → SourceState
  quiet s = record s { source = record s.source { using_universe_priority = true } }

  quiet-Leaving :
      (m m' : MergerState T H) (s s' : SourceState)
      → Leaving m m' s s'
      → Leaving m (recalculate_pap_active T H (put_source T H m' (quiet s'))) s (quiet s')
  unfolding quiet put_source put_config recalculate_pap_active set_pap_active calc_src_pap
  quiet-Leaving m m' s s' h =
      let r = store-Replaced T m'.source_state_lookup s' (quiet s') h.replaced.new refl in
      let ok = h.merged.wellformed s' h.replaced.new in
      record {
        merged =
            recalculate_pap_active-IsMerged T H m' (put_source T H m' (quiet s')) s' (quiet s')
              h.merged r
              (record {
                has_handle = ok.has_handle;
                levels_fit = ok.levels_fit;
                priorities_fit = ok.priorities_fit;
                levels_padded = ok.levels_padded;
                priorities_padded = ok.priorities_padded;
              })
              (λ p e. Replaced-IsMaxPriority s' (quiet s') _ _ r p refl (h.merged.max_priority p e))
              (λ j lt.
                unchanged-IsMerge s' (quiet s') _ _ r j _ (h.merged.slots j lt) ok.has_handle refl
                  (inl refl));
        replaced = Replaced-trans s s' (quiet s') _ _ _ h.replaced r;
        unsourced = h.unsourced;
      }

  -- Once the pap-active output no longer counts the source.
  pub retire_pap-Leaving :
      (m m' : MergerState T H) (s s' : SourceState)
      → Leaving m m' s s'
      → Leaving m (retire_pap T H m' s').0 s (retire_pap T H m' s').1
        × ((b : Bool)
            → (retire_pap T H m' s').0.config.per_address_priorities_active ≡ some b
            → ((retire_pap T H m' s').1.source.using_universe_priority ≡ true) ⊎ (b ≡ false))
  unfolding retire_pap quiet put_source
  retire_pap-Leaving m m' s s' h = elim (Option-cases m'.config.per_address_priorities_active) [
    | inl e ↦ rw (e, retire_pap) (h, λ b f. absurd (ground arith))
    | inr (a, e) ↦ elim (Bool-cases (a && not s'.source.using_universe_priority)) [
      | inr f ↦
          rw (e, f, retire_pap)
            (
              h,
              λ b g. elim (Bool-cases s'.source.using_universe_priority) [
                | inl u ↦ inl u
                | inr u ↦ inr (ground arith)
              ],
            )
      | inl f ↦ rw (e, f, retire_pap) (quiet-Leaving m m' s s' h, λ b g. inl refl)
    ]
  ]

  pub lowest-Leaving :
      (m m' : MergerState T H) (s s' : SourceState)
      → Leaving m m' s s'
      → Leaving m (recalculate_universe_priority T H (put_source T H m' (lowest s'))) s (lowest s')
  unfolding put_source put_config recalculate_universe_priority set_universe_priority calc_src_pap
      with_universe_priority get_slot
  lowest-Leaving m m' s s' h =
      let r = store-Replaced T m'.source_state_lookup s' (lowest s') h.replaced.new refl in
      let ok = h.merged.wellformed s' h.replaced.new in
      record {
        merged =
            replace-IsMerged T H m' _ s' (lowest s') h.merged r
              (record {
                has_handle = ok.has_handle;
                levels_fit = ok.levels_fit;
                priorities_fit = ok.priorities_fit;
                levels_padded = ok.levels_padded;
                priorities_padded = ok.priorities_padded;
              })
              (λ b e. Replaced-IsPapActive s' (lowest s') _ _ r b refl (h.merged.pap_active b e))
              (λ p e.
                let q : max_universe_priority 0 (sources T H (put_source T H m' (lowest s'))) ≡ p =
                  ground arith in
                rw (← q) (max_universe_priority-IsMaxPriority _))
              (λ j lt.
                unchanged-IsMerge s' (lowest s') _ _ r j _ (h.merged.slots j lt) ok.has_handle refl
                  (inl refl));
        replaced = Replaced-trans s s' (lowest s') _ _ _ h.replaced r;
        unsourced = h.unsourced;
      }
