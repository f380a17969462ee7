-- ===== src/DmxMerger/Priorities/Remove.antt =====
-- remove_pap, and what is left of a merge when a source with no priority goes.
pub mod Source
pub mod Gone
use s_acn.Prelude.{
  ℕ, ◌≤◌, ◌<◌, ◌≡◌, ◌≢◌, ◌⊎◌, ◌↔◌, inl, inr, refl, sym, ◌∙◌, ap, subst, memset, Bool, true, false,
  not, ltb, some, if◌then◌else◌, List, Member, arith, Bool-cases,
}
use s_acn.EtcPal.{IntHandleManager}
use s_acn.DmxMerger.State.{
  SourceTree, SourceState, MergerState, Config, Slot, calc_src_pap, get_slot, max_slots,
}
use s_acn.DmxMerger.Spec.{Replaced, IsMerge}
use s_acn.DmxMerger.Slots.{merge_new_priorities_slot}
use s_acn.DmxMerger.Outputs.{merge_slots}
use s_acn.DmxMerger.Outputs.Flags.{merge_slots-SameFlags}
use s_acn.DmxMerger.Update.{sources, put_source, put_config, set_pap_active, merge_new_priorities}
use s_acn.DmxMerger.Priority.{to_pap, recalculate_pap_active, remove_pap, any_pap_active}
use s_acn.DmxMerger.Invariant.{IsSource, IsMerged, IsPapActive, active, inactive, IsMaxPriority}
use s_acn.DmxMerger.Replace.{
  store-Replaced, Replaced-IsPapActive, Replaced-IsMaxPriority, replace-IsMerged,
}
use s_acn.DmxMerger.Recalculate.{any_pap_active-IsPapActive}
use s_acn.DmxMerger.Priorities.{SameLevels, reprioritised-IsMerge}

-- The source once it is back to its universe priority.
pub reverted : SourceState → SourceState
reverted s = record s {
  source = record s.source {
    using_universe_priority = true;
    address_priority =
        memset s.source.address_priority 0 (to_pap s.source.universe_priority) max_slots;
  };
  pap_count = max_slots;
}

reverted-IsSource : (s : SourceState) → IsSource s → IsSource (reverted s)
unfolding reverted
reverted-IsSource s h = record {
  has_handle = h.has_handle;
  levels_fit = h.levels_fit;
  priorities_fit = omega arith;
  levels_padded = h.levels_padded;
  priorities_padded = λ i k. let fit = h.priorities_fit in ground (arith, h.priorities_padded i);
}

set_pap_active-eq :
    (c : Config) (x b : Bool) → (set_pap_active c x).per_address_priorities_active ≡ some b → x ≡ b
unfolding set_pap_active
set_pap_active-eq c x b e = ground arith

module _ (T : SourceTree) (H : IntHandleManager) where
  -- A recalculation of the pap-active output is right, and changes nothing else.
  pub recalculate_pap_active-IsMerged :
      (m m' : MergerState T H) (s s' : SourceState)
      → IsMerged T H m
      → Replaced s s' (sources T H m) (sources T H m')
      → IsSource s'
      → ((p : ℕ) → m'.config.universe_priority ≡ some p → IsMaxPriority (sources T H m') p)
      → ((slot : ℕ) → slot < max_slots → IsMerge (sources T H m') slot (get_slot m'.config slot))
      → IsMerged T H (recalculate_pap_active T H m')
  unfolding recalculate_pap_active put_config set_pap_active get_slot
  recalculate_pap_active-IsMerged m m' s s' inv r ok max slots =
      replace-IsMerged T H m (recalculate_pap_active T H m') s s' inv r ok
        (λ b e.
          rw (← set_pap_active-eq m'.config (any_pap_active (sources T H m')) b e)
            (any_pap_active-IsPapActive (sources T H m')))
        max slots

  module _ (m : MergerState T H) (s : SourceState) (inv : IsMerged T H m)
      (mem : Member s (sources T H m)) where
    result : MergerState T H
    unfolding merge_new_priorities put_source put_config reverted
    result =
        merge_new_priorities T H (put_source T H m (reverted s)) (reverted s) 0
          s.source.valid_level_count

    result-Replaced : Replaced s (reverted s) (sources T H m) (sources T H result)
    unfolding result merge_new_priorities put_source put_config reverted
    result-Replaced = store-Replaced T m.source_state_lookup s (reverted s) mem refl

    same_levels : SameLevels s (reverted s)
    unfolding reverted
    same_levels = record { handle = refl; levels = refl; count = refl }

    ok : IsSource (reverted s)
    ok = reverted-IsSource s (inv.wellformed s mem)

    result-slots :
        (j : ℕ) → j < max_slots → IsMerge (sources T H result) j (get_slot result.config j)
    unfolding result merge_new_priorities put_source put_config reverted
    result-slots j lt =
        reprioritised-IsMerge s (reverted s) _ _ s.source.valid_level_count m.config j
          result-Replaced same_levels ok.has_handle (omega arith) (inv.slots j lt)

    result-max :
        (p : ℕ) → result.config.universe_priority ≡ some p → IsMaxPriority (sources T H result) p
    unfolding result merge_new_priorities put_source put_config reverted
    result-max p e = Replaced-IsMaxPriority s (reverted s) _ _ result-Replaced p refl (
        inv.max_priority p (
          sym
            (merge_slots-SameFlags 0 s.source.valid_level_count
              (merge_new_priorities_slot (reverted s) (sources T H result)) m.config).1
          ∙ e))

    result-pap :
        s.source.using_universe_priority ≡ true
        → (b : Bool) → result.config.per_address_priorities_active ≡ some b
        → IsPapActive (sources T H result) b
    unfolding result merge_new_priorities put_source put_config reverted
    result-pap u b e = Replaced-IsPapActive s (reverted s) _ _ result-Replaced b (sym u) (
        inv.pap_active b (
          sym
            (merge_slots-SameFlags 0 s.source.valid_level_count
              (merge_new_priorities_slot (reverted s) (sources T H result)) m.config).0
          ∙ e))

  -- remove_pap leaves a merger whose outputs are the merge of its sources, and in which the source
  -- has its universe priority at every one of the 512 slots, as 1 where it is 0. (The header says that
  -- the priorities past valid_level_count are zeroed; they are not, but the merge does not use them.)
  pub remove_pap-IsMerged :
      (m : MergerState T H) (s : SourceState)
      → IsMerged T H m
      → Member s (sources T H m)
      → IsMerged T H (remove_pap T H m s)
        × Replaced s (reverted s) (sources T H m) (sources T H (remove_pap T H m s))
  unfolding remove_pap result reverted recalculate_pap_active put_config set_pap_active
  remove_pap-IsMerged m s inv mem = elim (Bool-cases s.source.using_universe_priority) [
    | inl u ↦
        subst
          (λ (b : Bool).
            Done (
              if not b
              then recalculate_pap_active T H (result m s inv mem)
              else result m s inv mem))
          (sym u)
          (
            replace-IsMerged T H m (result m s inv mem) s (reverted s) inv
                (result-Replaced m s inv mem) (ok m s inv mem) (result-pap m s inv mem u)
                (result-max m s inv mem) (result-slots m s inv mem),
            result-Replaced m s inv mem,
          )
    | inr u ↦
        subst
          (λ (b : Bool).
            Done (
              if not b
              then recalculate_pap_active T H (result m s inv mem)
              else result m s inv mem))
          (sym u)
          (
            recalculate_pap_active-IsMerged m (result m s inv mem) s (reverted s) inv
                (result-Replaced m s inv mem) (ok m s inv mem) (result-max m s inv mem)
                (result-slots m s inv mem),
            result-Replaced m s inv mem,
          )
  ]
    where
      Done : MergerState T H → Type 0
      Done m' = IsMerged T H m' × Replaced s (reverted s) (sources T H m) (sources T H m')
