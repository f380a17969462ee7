-- ===== src/DmxMerger/Priorities/Pap.antt =====
-- The source after update_pap, and what update_pap writes before it merges.
pub mod Merged
use mathlib.Core.Path.{fun_ext}
use s_acn.Prelude.{
  ℕ, ◌≤◌, ◌<◌, ◌≡◌, refl, sym, ◌∙◌, ap, subst, Array, differs, differs-false, Bool, true, false,
  ◌||◌, not, ltb, ◌==◌, if◌then◌else◌, none, some, Option-cases, inl, inr, Member, Member_single,
  length, arith, Bool-cases,
}
use s_acn.EtcPal.{IntHandleManager}
use s_acn.DmxMerger.State.{SourceTree, SourceState, MergerState, Config, get_slot, max_slots}
use s_acn.DmxMerger.Spec.{Replaced, IsMerge}
use s_acn.DmxMerger.Slots.{merge_new_priorities_slot}
use s_acn.DmxMerger.Outputs.{merge_slots, copy_source}
use s_acn.DmxMerger.Outputs.Flags.{SameFlags, merge_slots-SameFlags, copy_source-SameFlags}
use s_acn.DmxMerger.Update.{
  replace_data, with_priorities, sources, single_source, put_source, put_config, set_pap_active,
  merge_new_priorities, update_pap_single_source, update_pap_multi_source, update_pap,
}
use s_acn.DmxMerger.Invariant.{IsSource, IsMerged, IsPapActive, active}
use s_acn.DmxMerger.Replace.{
  store-Replaced, Replaced-trans, Replaced-IsMaxPriority, replace-IsMerged, unchanged-IsMerge,
}
use s_acn.DmxMerger.Sole.{sole-IsMerge, IsMerge-sole}
use s_acn.DmxMerger.Levels.{padded, replace_data-padded}
use s_acn.DmxMerger.Priorities.{SameLevels, reprioritised-IsMerge, get_slot-copy_source-sole}

-- The source after its per-address priorities have come in.
pub pap_updated : SourceState → Array → ℕ → SourceState
pap_updated s pap count = record s {
  source = record s.source { address_priority = padded pap count; using_universe_priority = false };
  pap_count = count;
}

-- The source once its count and its flag are set.
flagged : SourceState → ℕ → SourceState
flagged s count = record s {
  source = record s.source { using_universe_priority = false };
  pap_count = count;
}

pap_updated-IsSource :
    (s : SourceState) (a : Array) (count : ℕ)
    → IsSource s
    → count ≤ max_slots
    → IsSource (pap_updated s a count)
unfolding pap_updated
pap_updated-IsSource s a count h le = record {
  has_handle = h.has_handle;
  levels_fit = h.levels_fit;
  priorities_fit = le;
  levels_padded = h.levels_padded;
  priorities_padded = λ i k. ground arith;
}

flagged-same :
    (s : SourceState) (a : Array) (count : ℕ)
    → IsSource s
    → count ≡ s.pap_count
    → differs a s.source.address_priority count ≡ false
    → flagged s count ≡ pap_updated s a count
unfolding flagged pap_updated
flagged-same s a count ok e d =
    ap
      (λ (f : Array). record s {
        source = record s.source { address_priority = f; using_universe_priority = false };
        pap_count = count;
      })
      (fun_ext λ i.
        ground (arith, differs-false a s.source.address_priority count i d, ok.priorities_padded i))

with_priorities-flagged :
    (s : SourceState) (a : Array) (count : ℕ)
    → IsSource s
    → with_priorities (flagged s count) (replace_data s.source.address_priority a s.pap_count count)
      ≡ pap_updated s a count
unfolding flagged pap_updated with_priorities
with_priorities-flagged s a count ok =
    rw (replace_data-padded s.source.address_priority a s.pap_count count ok.priorities_padded) refl

set_pap_active-slot :
    (c : Config) (b : Bool) (j : ℕ) → get_slot (set_pap_active c b) j ≡ get_slot c j
unfolding set_pap_active get_slot
set_pap_active-slot c b j = refl

set_pap_active-lem :
    (c : Config) (x b : Bool) → (set_pap_active c x).per_address_priorities_active ≡ some b → b ≡ x
unfolding set_pap_active
set_pap_active-lem c x b e = ground arith
