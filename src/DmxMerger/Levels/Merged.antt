-- ===== src/DmxMerger/Levels/Merged.antt =====
-- update_levels, on a whole merger.
use mathlib.Core.Path.{fun_ext}
use s_acn.Prelude.{
  ℕ, ◌≤◌, ◌<◌, ◌≡◌, inl, inr, refl, sym, ◌∙◌, ap, subst, Array, differs, differs-false, false, ◌||◌,
  not, ltb, ◌==◌, Member, Member_single, length, arith, Bool-cases,
}
use s_acn.EtcPal.{IntHandleManager}
use s_acn.DmxMerger.State.{
  SourceTree, SourceState, MergerState, Config, calc_src_pap, get_slot, max_slots,
}
use s_acn.DmxMerger.Spec.{Replaced, IsMerge}
use s_acn.DmxMerger.Outputs.Flags.{SameFlags}
use s_acn.DmxMerger.Update.{
  replace_data, with_levels, sources, single_source, put_source, put_config, merge_new_priorities,
  update_levels_single_source, update_levels_multi_source, update_levels,
}
use s_acn.DmxMerger.Invariant.{IsSource, IsMerged}
use s_acn.DmxMerger.Replace.{
  store-Replaced, Replaced-trans, Replaced-IsSource, unchanged-IsMerge, flags-IsMerged,
}
use s_acn.DmxMerger.Sole.{sole-IsMerge, IsMerge-sole}
use s_acn.DmxMerger.Levels.{
  replace_data-padded, levels_updated, levels_updated-IsSource, multi, single, multi-SameFlags,
  single-SameFlags, get_slot-single, multi-IsMerge,
}

module _ (T : SourceTree) (H : IntHandleManager) where
  -- The source once its level count is set, and the merger in which it stands.
  counted : SourceState → ℕ → SourceState
  counted s count = record s { source = record s.source { valid_level_count = count } }

  begun : MergerState T H → SourceState → ℕ → MergerState T H
  unfolding put_source counted
  begun m s count = put_source T H m (counted s count)

  -- Where the new data is as before, nothing else has to be written.
  counted-same :
      (s : SourceState) (a : Array) (count : ℕ)
      → IsSource s
      → count ≡ s.source.valid_level_count
      → differs a s.source.levels count ≡ false
      → counted s count ≡ levels_updated s a count
  unfolding counted levels_updated
  counted-same s a count ok e d =
      ap
        (λ (f : Array). record s {
          source = record s.source { levels = f; valid_level_count = count };
        })
        (fun_ext λ i. ground (arith, differs-false a s.source.levels count i d, ok.levels_padded i))

  with_levels-counted :
      (s : SourceState) (a : Array) (count : ℕ)
      → IsSource s
      → with_levels
          (counted s count)
          (replace_data s.source.levels a s.source.valid_level_count count)
        ≡ levels_updated s a count
  unfolding counted levels_updated with_levels
  with_levels-counted s a count ok =
      rw (replace_data-padded s.source.levels a s.source.valid_level_count count ok.levels_padded)
        refl

  module _ (m : MergerState T H) (s : SourceState) (a : Array) (count : ℕ) (inv : IsMerged T H m)
      (mem : Member s (sources T H m)) (fits : count ≤ max_slots) where
    -- The merger that the update leads to, with the source and the outputs given.
    result : SourceState → Config → MergerState T H
    unfolding put_source put_config begun
    result s' c = put_config T H (put_source T H (begun m s count) s') c

    result-Replaced :
        (c : Config)
        → Replaced s
            (levels_updated s a count)
            (sources T H m)
            (sources T H (result (levels_updated s a count) c))
    unfolding result counted levels_updated begun put_source put_config
    result-Replaced c =
        let first = store-Replaced T m.source_state_lookup s (counted s count) mem refl in
        Replaced-trans s (counted s count) (levels_updated s a count) _ _ _ first
          (store-Replaced T _ (counted s count) (levels_updated s a count) first.new refl)

    ok : IsSource (levels_updated s a count)
    ok = levels_updated-IsSource s a count (inv.wellformed s mem) fits

    result-IsMerged :
        (c : Config)
        → SameFlags m.config c
        → ((slot : ℕ)
            → slot < max_slots
            → IsMerge (sources T H (result (levels_updated s a count) c)) slot (get_slot c slot))
        → IsMerged T H (result (levels_updated s a count) c)
    unfolding result levels_updated put_config
    result-IsMerged c f h =
        flags-IsMerged T H m (result (levels_updated s a count) c) s (levels_updated s a count) inv
          (result-Replaced c) ok refl refl f h

    in_bounds : (ltb max_slots s.source.valid_level_count || ltb max_slots count) ≡ false
    in_bounds = let e = (inv.wellformed s mem).levels_fit in ground arith

    abbrev updated : SourceState
    updated = levels_updated s a count

    single-result :
        update_levels_single_source T H
          (begun m s count)
          (counted s count)
          a
          s.source.valid_level_count
          count
        ≡ result updated (single updated a s.source.valid_level_count count m.config)
    unfolding update_levels_single_source result begun single put_source put_config
    single-result =
        rw (in_bounds, update_levels_single_source)
          (ap (λ (u : SourceState). result u (single u a s.source.valid_level_count count m.config))
            (with_levels-counted s a count (inv.wellformed s mem)))

    multi-result :
        update_levels_multi_source T H
          (begun m s count)
          (counted s count)
          a
          s.source.valid_level_count
          count
        ≡ result updated (
            multi updated
              (sources T H (result updated m.config))
              s.source.valid_level_count
              count
              m.config)
    unfolding update_levels_multi_source merge_new_priorities result begun multi put_source
        put_config
    multi-result =
        rw (in_bounds, update_levels_multi_source)
          (ap
            (λ (u : SourceState).
              result u (
                multi u (sources T H (result u m.config)) s.source.valid_level_count count
                  m.config))
            (with_levels-counted s a count (inv.wellformed s mem)))

    multi-IsMerged : IsMerged T H (
        result updated (
          multi updated
            (sources T H (result updated m.config))
            s.source.valid_level_count
            count
            m.config))
    unfolding result put_config
    multi-IsMerged =
        let all = Replaced-IsSource s updated _ _ (result-Replaced m.config) inv.wellformed ok in
        result-IsMerged _ (multi-SameFlags updated _ _ _ m.config) (λ j lt.
          multi-IsMerge s a count _ _ m.config j (result-Replaced m.config) all (inv.slots j lt))

    single-IsMerged :
        T.size (begun m s count).source_state_lookup ≡ 1
        → IsMerged T H (result updated (single updated a s.source.valid_level_count count m.config))
    unfolding result begun put_source put_config counted levels_updated
    single-IsMerged one =
        let r = result-Replaced m.config in
        let before : length (sources T H m) ≡ 1 =
          sym (T.size-length m.source_state_lookup)
          ∙ sym (T.store-size m.source_state_lookup (counted s count))
          ∙ one in
        let after : length (sources T H (result updated m.config)) ≡ 1 =
          sym (T.size-length _) ∙ T.store-size _ updated ∙ one in
        result-IsMerged _ (single-SameFlags updated a _ _ m.config) (λ j lt.
          rw
            (get_slot-single updated a s.source.valid_level_count count m.config s j refl
              (IsMerge-sole s _ j mem (λ t k. Member_single _ before k mem) _ (inv.slots j lt)) refl
              refl refl refl)
            (sole-IsMerge updated _ j r.new (λ t k. Member_single _ after k r.new)))

    -- Nothing has changed but what stays the same: no output is written.
    same-IsMerged :
        counted s count ≡ updated
        → count ≡ s.source.valid_level_count
        → differs a s.source.levels count ≡ false
        → IsMerged T H (begun m s count)
    unfolding begun put_source counted levels_updated calc_src_pap
    same-IsMerged e n d =
        let r = store-Replaced T m.source_state_lookup s (counted s count) mem refl in
        flags-IsMerged T H m (begun m s count) s (counted s count) inv r (rw e ok) refl refl
          (refl, refl)
          (λ j lt.
            unchanged-IsMerge s (counted s count) _ _ r j _ (inv.slots j lt)
              (inv.wellformed s mem).has_handle (ground arith) (inl refl))

  -- update_levels, with a count that fits, leaves a merger whose outputs are the merge of its
  -- sources, and in which the source has exactly the new levels, and 0 past them.
  pub update_levels-IsMerged :
      (m : MergerState T H) (s : SourceState) (a : Array) (count : ℕ)
      → IsMerged T H m
      → Member s (sources T H m)
      → count ≤ max_slots
      → IsMerged T H (update_levels T H m s a count)
        × Replaced s
            (levels_updated s a count)
            (sources T H m)
            (sources T H (update_levels T H m s a count))
  unfolding update_levels begun result counted put_source put_config
  update_levels-IsMerged m s a count inv mem fits =
      let open_guard : ltb max_slots count ≡ false = ground arith in
      elim (Bool-cases
        (not (count == s.source.valid_level_count) || differs a s.source.levels count)) [
          | inr e ↦
              let n : count ≡ s.source.valid_level_count = ground arith in
              let d : differs a s.source.levels count ≡ false = ground arith in
              let same = counted-same s a count (inv.wellformed s mem) n d in
              rw (open_guard, e, update_levels)
                (
                  same-IsMerged m s a count inv mem fits same n d,
                  subst (λ u. Replaced s u (sources T H m) (sources T H (begun m s count))) same
                      (store-Replaced T m.source_state_lookup s (counted s count) mem refl),
                )
          | inl e ↦ elim (Bool-cases (single_source T H (begun m s count))) [
            | inl one ↦
                rw (open_guard, e, one, update_levels, single-result m s a count inv mem fits)
                  (
                    single-IsMerged m s a count inv mem fits (ground arith),
                    result-Replaced m s a count inv mem fits m.config,
                  )
            | inr more ↦
                rw (open_guard, e, more, update_levels, multi-result m s a count inv mem fits)
                  (
                    multi-IsMerged m s a count inv mem fits,
                    result-Replaced m s a count inv mem fits m.config,
                  )
          ]
        ]
