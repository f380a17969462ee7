-- ===== src/DmxMerger/Priorities/Pap/Merged.antt =====
-- update_pap, on a whole merger.
use s_acn.Prelude.{
  ℕ, ◌≤◌, ◌<◌, ◌≡◌, refl, sym, ◌∙◌, ap, subst, Array, differs, true, false, ◌||◌, not, ltb, ◌==◌,
  inl, inr, Member, Member_single, length, arith, Bool-cases,
}
use s_acn.EtcPal.{IntHandleManager}
use s_acn.DmxMerger.State.{
  SourceTree, SourceState, MergerState, Config, calc_src_pap, get_slot, max_slots,
}
use s_acn.DmxMerger.Spec.{Replaced, IsMerge}
use s_acn.DmxMerger.Slots.{merge_new_priorities_slot}
use s_acn.DmxMerger.Outputs.{merge_slots, copy_source}
use s_acn.DmxMerger.Outputs.Flags.{SameFlags, merge_slots-SameFlags, copy_source-SameFlags}
use s_acn.DmxMerger.Update.{
  sources, single_source, put_source, put_config, set_pap_active, merge_new_priorities,
  update_pap_single_source, update_pap_multi_source, update_pap,
}
use s_acn.DmxMerger.Invariant.{IsSource, IsMerged, active}
use s_acn.DmxMerger.Replace.{
  store-Replaced, Replaced-trans, Replaced-IsMaxPriority, replace-IsMerged, unchanged-IsMerge,
}
use s_acn.DmxMerger.Sole.{sole-IsMerge, IsMerge-sole}
use s_acn.DmxMerger.Priorities.{SameLevels, reprioritised-IsMerge, get_slot-copy_source-sole}
use s_acn.DmxMerger.Priorities.Pap.{
  pap_updated, flagged, pap_updated-IsSource, flagged-same, with_priorities-flagged,
  set_pap_active-slot, set_pap_active-lem,
}

module _ (T : SourceTree) (H : IntHandleManager) where
  begun : MergerState T H → SourceState → ℕ → MergerState T H
  unfolding put_source put_config flagged set_pap_active
  begun m s count =
      put_config T H (put_source T H m (flagged s count)) (set_pap_active m.config true)

  module _ (m : MergerState T H) (s : SourceState) (a : Array) (count : ℕ) (inv : IsMerged T H m)
      (mem : Member s (sources T H m)) (fits : count ≤ max_slots) where
    abbrev updated : SourceState
    updated = pap_updated s a count

    n : ℕ
    n = s.source.valid_level_count

    result : SourceState → Config → MergerState T H
    unfolding put_source put_config begun
    result s' c = put_config T H (put_source T H (begun m s count) s') c

    result-Replaced :
        (c : Config) → Replaced s updated (sources T H m) (sources T H (result updated c))
    unfolding result flagged pap_updated begun put_source put_config
    result-Replaced c =
        let first = store-Replaced T m.source_state_lookup s (flagged s count) mem refl in
        Replaced-trans s (flagged s count) updated _ _ _ first
          (store-Replaced T _ (flagged s count) updated first.new refl)

    ok : IsSource updated
    ok = pap_updated-IsSource s a count (inv.wellformed s mem) fits

    same_levels : SameLevels s updated
    unfolding pap_updated
    same_levels = record { handle = refl; levels = refl; count = refl }

    -- Any merger that holds the updated source and the flags of `begun`.
    finish-IsMerged :
        (m' : MergerState T H)
        → Replaced s updated (sources T H m) (sources T H m')
        → SameFlags (set_pap_active m.config true) m'.config
        → ((slot : ℕ) → slot < max_slots → IsMerge (sources T H m') slot (get_slot m'.config slot))
        → IsMerged T H m'
    unfolding pap_updated set_pap_active
    finish-IsMerged m' r f slots =
        replace-IsMerged T H m m' s updated inv r ok
          (λ b e. active updated r.new refl (set_pap_active-lem m.config true b (sym f.0 ∙ e)))
          (λ p e. Replaced-IsMaxPriority s updated _ _ r p refl (inv.max_priority p (sym f.1 ∙ e)))
          slots

    in_bounds : (ltb max_slots s.pap_count || ltb max_slots count) ≡ false
    in_bounds = let e = (inv.wellformed s mem).priorities_fit in ground arith

    abbrev flags : Config
    flags = set_pap_active m.config true

    single-result :
        update_pap_single_source T H (begun m s count) (flagged s count) a s.pap_count count
        ≡ result updated (copy_source updated n flags)
    unfolding update_pap_single_source result begun put_source put_config flagged n
    single-result =
        rw (in_bounds, update_pap_single_source)
          (ap (λ (u : SourceState). result u (copy_source u n flags))
            (with_priorities-flagged s a count (inv.wellformed s mem)))

    multi-result :
        update_pap_multi_source T H (begun m s count) (flagged s count) a s.pap_count count
        ≡ result updated (
            merge_slots 0 n
              (merge_new_priorities_slot updated (sources T H (result updated flags)))
              flags)
    unfolding update_pap_multi_source merge_new_priorities result begun put_source put_config
        flagged n
    multi-result =
        rw (in_bounds, update_pap_multi_source)
          (ap
            (λ (u : SourceState).
              result u (
                merge_slots 0 n (merge_new_priorities_slot u (sources T H (result u flags))) flags))
            (with_priorities-flagged s a count (inv.wellformed s mem)))

    before : (j : ℕ) → j < max_slots → IsMerge (sources T H m) j (get_slot flags j)
    before j lt = rw (set_pap_active-slot m.config true j) (inv.slots j lt)

    multi-IsMerged : IsMerged T H (
        result updated (
          merge_slots 0 n
            (merge_new_priorities_slot updated (sources T H (result updated flags)))
            flags))
    unfolding result put_config n
    multi-IsMerged =
        finish-IsMerged _ (result-Replaced flags) (merge_slots-SameFlags 0 n _ flags) (λ j lt.
          reprioritised-IsMerge s updated _ _ n flags j (result-Replaced flags) same_levels
            ok.has_handle (omega arith) (before j lt))

    single-IsMerged :
        T.size (begun m s count).source_state_lookup ≡ 1
        → IsMerged T H (result updated (copy_source updated n flags))
    unfolding result begun put_source put_config flagged pap_updated n
    single-IsMerged one =
        let r = result-Replaced flags in
        let then_one : length (sources T H m) ≡ 1 =
          sym (T.size-length m.source_state_lookup)
          ∙ sym (T.store-size m.source_state_lookup (flagged s count))
          ∙ one in
        let now_one : length (sources T H (result updated flags)) ≡ 1 =
          sym (T.size-length _) ∙ T.store-size _ updated ∙ one in
        finish-IsMerged _ r (copy_source-SameFlags updated n flags) (λ j lt.
          rw
            (get_slot-copy_source-sole s updated n flags j same_levels refl
              (IsMerge-sole s _ j mem (λ t k. Member_single _ then_one k mem) _ (before j lt)))
            (sole-IsMerge updated _ j r.new (λ t k. Member_single _ now_one k r.new)))

    -- The priorities were there already: only the flags are written.
    same-IsMerged : flagged s count ≡ updated → IsMerged T H (begun m s count)
    unfolding begun put_source put_config flagged calc_src_pap pap_updated
    same-IsMerged e =
        let r = store-Replaced T m.source_state_lookup s (flagged s count) mem refl in
        finish-IsMerged (begun m s count)
          (subst (λ u. Replaced s u (sources T H m) (sources T H (begun m s count))) e r)
          (refl, refl)
          (λ j lt.
            unchanged-IsMerge s (flagged s count) _ _ r j _ (before j lt) ok.has_handle refl
              (inl refl))

  -- update_pap, with a count that fits, leaves a merger whose outputs are the merge of its sources,
  -- and in which the source has exactly the new priorities, those past its valid_level_count too, and 0
  -- past the new count. (The header says that those past valid_level_count are zeroed; they are not,
  -- but the merge does not use them.)
  pub update_pap-IsMerged :
      (m : MergerState T H) (s : SourceState) (a : Array) (count : ℕ)
      → IsMerged T H m
      → Member s (sources T H m)
      → count ≤ max_slots
      → IsMerged T H (update_pap T H m s a count)
        × Replaced s
            (pap_updated s a count)
            (sources T H m)
            (sources T H (update_pap T H m s a count))
  unfolding update_pap begun result flagged put_source put_config set_pap_active
  update_pap-IsMerged m s a count inv mem fits =
      let open_guard : ltb max_slots count ≡ false = ground arith in
      elim (Bool-cases (not (count == s.pap_count) || differs a s.source.address_priority count)) [
        | inr e ↦
            let same =
              flagged-same s a count (inv.wellformed s mem) (ground arith) (ground arith) in
            rw (open_guard, e, update_pap)
              (
                same-IsMerged m s a count inv mem fits same,
                subst (λ u. Replaced s u (sources T H m) (sources T H (begun m s count))) same
                    (store-Replaced T m.source_state_lookup s (flagged s count) mem refl),
              )
        | inl e ↦ elim (Bool-cases (single_source T H (begun m s count))) [
          | inl one ↦
              rw (open_guard, e, one, update_pap, single-result m s a count inv mem fits)
                (
                  single-IsMerged m s a count inv mem fits (ground arith),
                  result-Replaced m s a count inv mem fits m.config,
                )
          | inr more ↦
              rw (open_guard, e, more, update_pap, multi-result m s a count inv mem fits)
                (
                  multi-IsMerged m s a count inv mem fits,
                  result-Replaced m s a count inv mem fits m.config,
                )
        ]
      ]
