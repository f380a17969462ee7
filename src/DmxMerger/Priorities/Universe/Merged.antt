-- ===== src/DmxMerger/Priorities/Universe/Merged.antt =====
-- update_universe_priority, on a whole merger.
use s_acn.Prelude.{
  ℕ, ◌≡◌, refl, sym, ap, subst, inl, inr, Bool, true, false, ◌||◌, not, ◌==◌, if◌then◌else◌, Member,
  arith, Bool-cases,
}
use s_acn.EtcPal.{IntHandleManager}
use s_acn.DmxMerger.State.{SourceTree, SourceState, MergerState}
use s_acn.DmxMerger.Spec.{Replaced}
use s_acn.DmxMerger.Outputs.{copy_priority}
use s_acn.DmxMerger.Update.{
  with_priorities, sources, single_source, put_source, put_config, merge_new_priorities,
}
use s_acn.DmxMerger.Priority.{
  to_pap, with_universe_priority, is_max, update_universe_priority_single_source,
  update_universe_priority_multi_source, update_universe_priority_output, update_universe_priority,
}
use s_acn.DmxMerger.Invariant.{IsSource, IsMerged}
use s_acn.DmxMerger.Priorities.Universe.{
  prioritised, spread, universe_updated, spread-IsSource, prioritised-IsSource, output-sources,
}
use s_acn.DmxMerger.Priorities.Universe.Stages.{
  Stage, Stage-IsMerged, counted, begun, ready, merged_slots, begun-Stage, multi-Stage,
  single-Stage, result,
}

-- The priority differs from the last one, or is the first.
abbrev pub is_news : SourceState → ℕ → Bool
is_news s priority =
    not (priority == s.source.universe_priority) || s.universe_priority_uninitialized

module _ (T : SourceTree) (H : IntHandleManager) where
  module _ (m : MergerState T H) (s : SourceState) (p : ℕ) (inv : IsMerged T H m)
      (mem : Member s (sources T H m)) (news : is_news s p ≡ true) where
    abbrev after : MergerState T H → MergerState T H
    after m' = update_universe_priority_output T H m' p (is_max T H m s) (single_source T H m)

    abbrev Done : MergerState T H → Type 0
    Done m' = IsMerged T H m' × Replaced s (universe_updated s p) (sources T H m) (sources T H m')

    done :
        (m' : MergerState T H) (s' : SourceState)
        → Stage T H m m' s s'
        → universe_updated s p ≡ s'
        → IsSource s'
        → s'.source.using_universe_priority ≡ s.source.using_universe_priority
        → s'.source.universe_priority ≡ p
        → Done (after m')
    done m' s' st e ok u q =
        let h = Stage-IsMerged T H m m' s s' (single_source T H m) inv st ok u refl in
        (
          subst
              (λ (x : ℕ).
                IsMerged T H
                  (update_universe_priority_output T H m' x (is_max T H m s) (single_source T H m)))
              q h,
          rw (e, output-sources T H m' p (is_max T H m s) (single_source T H m)) st.replaced,
        )

    old : IsSource s
    old = inv.wellformed s mem

    -- The branches of update_universe_priority, by the two tests.
    abbrev branches : Bool → Bool → MergerState T H
    branches using single =
        if using
        then (if single
            then update_universe_priority_single_source T H (ready T H m s p) (counted T H s p)
                (to_pap p)
            else update_universe_priority_multi_source T H (ready T H m s p) (counted T H s p)
                (to_pap p))
        else begun T H m s p

    branches-Done :
        (using single : Bool)
        → s.source.using_universe_priority ≡ using
        → single_source T H m ≡ single
        → Done (after (branches using single))
    unfolding update_universe_priority_single_source update_universe_priority_multi_source
        merge_new_priorities counted prioritised spread universe_updated result put_source
        put_config with_priorities with_universe_priority
    branches-Done false single e one =
        done (begun T H m s p) (prioritised s p) (begun-Stage T H m s p inv mem)
          (ap (λ (b : Bool). if b then spread (prioritised s p) (to_pap p) else prioritised s p) e)
          (prioritised-IsSource s p old) refl refl
    branches-Done true true e one =
        done
          (result T H m s p inv mem (
            copy_priority (spread (prioritised s p) (to_pap p)) (to_pap p)
              s.source.valid_level_count m.config))
          (spread (prioritised s p) (to_pap p)) (single-Stage T H m s p inv mem (ground arith))
          (ap (λ (b : Bool). if b then spread (prioritised s p) (to_pap p) else prioritised s p) e)
          (spread-IsSource (prioritised s p) (to_pap p) (prioritised-IsSource s p old)) refl refl
    branches-Done true false e one =
        done (result T H m s p inv mem (merged_slots T H m s p inv mem))
          (spread (prioritised s p) (to_pap p)) (multi-Stage T H m s p inv mem)
          (ap (λ (b : Bool). if b then spread (prioritised s p) (to_pap p) else prioritised s p) e)
          (spread-IsSource (prioritised s p) (to_pap p) (prioritised-IsSource s p old)) refl refl

    -- update_universe_priority, of a priority that differs from the source's last or is its first,
    -- leaves a merger whose outputs are the merge of its sources, and in which the source has the
    -- new priority, and unless it has per-address priorities also at each of the 512 slots, as 1 where
    -- it is 0. (The header says that the priorities past valid_level_count are zeroed; they are not,
    -- but the merge does not use them.)
    pub update_universe_priority-news : Done (update_universe_priority T H m s p)
    unfolding update_universe_priority begun ready counted prioritised put_source
        with_universe_priority
    update_universe_priority-news =
        subst
          (λ (b : Bool). Done (
            if b
            then after (branches s.source.using_universe_priority (single_source T H m))
            else m))
          (sym news)
          (branches-Done s.source.using_universe_priority (single_source T H m) refl refl)

  -- update_universe_priority keeps the outputs of a merger the merge of its sources, whatever the
  -- priority.
  pub update_universe_priority-IsMerged :
      (m : MergerState T H) (s : SourceState) (p : ℕ)
      → IsMerged T H m
      → Member s (sources T H m)
      → IsMerged T H (update_universe_priority T H m s p)
  unfolding update_universe_priority
  update_universe_priority-IsMerged m s p inv mem = elim (Bool-cases (is_news s p)) [
    | inl e ↦ (update_universe_priority-news m s p inv mem e).0
    | inr e ↦ rw (e, update_universe_priority) inv
  ]
