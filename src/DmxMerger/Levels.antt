-- ===== src/DmxMerger/Levels.antt =====
-- update_levels keeps the outputs of a merger the merge of its sources.
pub mod Merged
use mathlib.Core.Path.{fun_ext}
use s_acn.Prelude.{
  ℕ, ◌-◌, ◌≤◌, ◌<◌, ◌≡◌, ◌≢◌, ◌⊎◌, inl, inr, refl, sym, ◌∙◌, ap, Array, differs, differs-false,
  Bool, true, false, ◌||◌, ltb, ◌==◌, if◌then◌else◌, List, Member, Member_single, length, arith,
  Bool-cases,
}
use s_acn.EtcPal.{IntHandleManager}
use s_acn.DmxMerger.State.{
  SourceTree, SourceState, MergerState, Config, Slot, calc_src_pap, get_slot, max_slots,
}
use s_acn.DmxMerger.Spec.{Replaced, IsMerge}
use s_acn.DmxMerger.Slots.Merge.{merge_new_priorities_slot-IsMerge}
use s_acn.DmxMerger.Slots.MergeLevels.{merge_levels_slot-IsMerge}
use s_acn.DmxMerger.Slots.{merge_new_priorities_slot, merge_levels_slot}
use s_acn.DmxMerger.Outputs.{merge_slots, copy_levels, gain_slots, release_slots}
use s_acn.DmxMerger.Outputs.Pointwise.{
  get_slot-merge_slots, get_slot-copy_levels, get_slot-gain_slots, get_slot-release_slots,
}
use s_acn.DmxMerger.Outputs.Flags.{
  SameFlags, merge_slots-SameFlags, copy_levels-SameFlags, gain_slots-SameFlags,
  release_slots-SameFlags,
}
use s_acn.DmxMerger.Update.{
  replace_data, with_levels, sources, put_source, put_config, merge_new_priorities,
  update_levels_single_source, update_levels_multi_source, update_levels,
}
use s_acn.DmxMerger.Invariant.{IsSource, IsMerged}
use s_acn.DmxMerger.Replace.{store-Replaced, Replaced-trans, unchanged-IsMerge, flags-IsMerged}
use s_acn.DmxMerger.Sole.{sole, sole-IsMerge, IsMerge-sole}

-- The data of `count` entries, and 0 past them.
abbrev pub padded : Array → ℕ → Array
padded a count = λ i. if ltb i count then a i else 0

pub replace_data-padded :
    (a new_data : Array) (old_count new_count : ℕ)
    → ((i : ℕ) → old_count ≤ i → a i ≡ 0)
    → replace_data a new_data old_count new_count ≡ padded new_data new_count
unfolding replace_data
replace_data-padded a new_data old_count new_count h = fun_ext λ i. ground (arith, h i)

-- The source after its levels have come in.
pub levels_updated : SourceState → Array → ℕ → SourceState
levels_updated s new_levels count = record s {
  source = record s.source { levels = padded new_levels count; valid_level_count = count };
}

levels_updated-IsSource :
    (s : SourceState) (a : Array) (count : ℕ)
    → IsSource s
    → count ≤ max_slots
    → IsSource (levels_updated s a count)
unfolding levels_updated
levels_updated-IsSource s a count h le = record {
  has_handle = h.has_handle;
  levels_fit = le;
  priorities_fit = h.priorities_fit;
  levels_padded = λ i k. ground arith;
  priorities_padded = h.priorities_padded;
}

-- The loops of update_levels_multi_source and update_levels_single_source, on the outputs alone.
multi : SourceState → List SourceState → ℕ → ℕ → Config → Config
multi s cs old_count new_count c =
    merge_slots new_count old_count (merge_new_priorities_slot s cs) (
      merge_slots old_count new_count (merge_new_priorities_slot s cs) (
        merge_slots 0 (if ltb new_count old_count then new_count else old_count)
          (merge_levels_slot s cs) c))

single : SourceState → Array → ℕ → ℕ → Config → Config
single s a old_count new_count c =
    let copied = copy_levels s a new_count c in
    let gained =
      if ltb old_count new_count then gain_slots s old_count new_count copied else copied in
    if ltb new_count old_count then release_slots old_count new_count gained else gained

multi-SameFlags :
    (s : SourceState) (cs : List SourceState) (old_count new_count : ℕ) (c : Config)
    → SameFlags c (multi s cs old_count new_count c)
unfolding multi
multi-SameFlags s cs o n c =
    let a = merge_slots-SameFlags 0 (if ltb n o then n else o) (merge_levels_slot s cs) c in
    let b = merge_slots-SameFlags o n (merge_new_priorities_slot s cs) _ in
    let d = merge_slots-SameFlags n o (merge_new_priorities_slot s cs) _ in
    (d.0 ∙ b.0 ∙ a.0, d.1 ∙ b.1 ∙ a.1)

single-SameFlags :
    (s : SourceState) (a : Array) (old_count new_count : ℕ) (c : Config)
    → SameFlags c (single s a old_count new_count c)
unfolding single
single-SameFlags s a o n c = ground (
  arith,
  copy_levels-SameFlags s a n c,
  gain_slots-SameFlags s o n (copy_levels s a n c),
  release_slots-SameFlags o n (gain_slots s o n (copy_levels s a n c)),
  release_slots-SameFlags o n (copy_levels s a n c),
)

-- What the loops leave in a slot, by where the slot lies.
get_slot-multi :
    (s : SourceState) (cs : List SourceState) (o n : ℕ) (c : Config) (j : ℕ)
    → get_slot (multi s cs o n c) j ≡ (
        if ltb j o
        then (if ltb j n
            then merge_levels_slot s cs j (get_slot c j)
            else merge_new_priorities_slot s cs j (get_slot c j))
        else (if ltb j n then merge_new_priorities_slot s cs j (get_slot c j) else get_slot c j))
unfolding multi
get_slot-multi s cs o n c j =
    let low = if ltb n o then n else o in
    let c1 = merge_slots 0 low (merge_levels_slot s cs) c in
    let c2 = merge_slots o n (merge_new_priorities_slot s cs) c1 in
    ground (
      arith,
      get_slot-merge_slots 0 low (merge_levels_slot s cs) c j,
      get_slot-merge_slots o n (merge_new_priorities_slot s cs) c1 j,
      get_slot-merge_slots n o (merge_new_priorities_slot s cs) c2 j,
    )

get_slot-single :
    (s : SourceState) (a : Array) (o n : ℕ) (c : Config) (t : SourceState) (j : ℕ)
    → t.source.valid_level_count ≡ o
    → get_slot c j ≡ sole t j
    → s.source.levels ≡ padded a n
    → s.source.valid_level_count ≡ n
    → s.source.address_priority ≡ t.source.address_priority
    → s.handle ≡ t.handle
    → get_slot (single s a o n c) j ≡ sole s j
unfolding single sole calc_src_pap
get_slot-single s a o n c t j eo ec el en ea eh =
    let c1 = copy_levels s a n c in
    let c2 = gain_slots s o n c1 in
    let el' = ap (λ (f : Array). f j) el in
    let ea' = ap (λ (f : Array). f j) ea in
    ground (
      arith,
      get_slot-copy_levels s a n c j,
      get_slot-gain_slots s o n c1 j,
      get_slot-release_slots o n c1 j,
      get_slot-release_slots o n c2 j,
    )

multi-IsMerge :
    (s : SourceState) (a : Array) (n : ℕ) (ss ss' : List SourceState) (c : Config) (j : ℕ)
    → Replaced s (levels_updated s a n) ss ss'
    → ((t : SourceState) → Member t ss' → IsSource t)
    → IsMerge ss j (get_slot c j)
    → IsMerge ss' j (get_slot (multi (levels_updated s a n) ss' s.source.valid_level_count n c) j)
unfolding levels_updated calc_src_pap
multi-IsMerge s a n ss ss' c j r ok m =
    let s' = levels_updated s a n in
    let o = s.source.valid_level_count in
    let valid = (ok s' r.new).has_handle in
    rw (get_slot-multi s' ss' o n c j) (elim (Bool-cases (ltb j o)) [
      | inl p ↦ elim (Bool-cases (ltb j n)) [
        | inl q ↦
            rw (p, q)
              (merge_levels_slot-IsMerge s s' ss ss' j _ r m valid (ground arith) (ground arith)
                (λ t k. (ok t k).levels_padded))
        | inr q ↦
            rw (p, q)
              (merge_new_priorities_slot-IsMerge s s' ss ss' j _ r m valid
                (inr (inr (ground arith))))
      ]
      | inr p ↦ elim (Bool-cases (ltb j n)) [
        | inl q ↦
            rw (p, q)
              (merge_new_priorities_slot-IsMerge s s' ss ss' j _ r m valid
                (inr (inl (ground arith))))
        | inr q ↦
            rw (p, q)
              (unchanged-IsMerge s s' ss ss' r j _ m valid (ground arith) (inr (ground arith)))
      ]
    ])
