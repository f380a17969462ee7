-- ===== src/DmxMerger/Priorities.antt =====
-- What the operations on priorities share: the loops that merge a source's new priorities in, its
-- levels being the same.
pub mod Pap
pub mod Universe
pub mod Remove
use s_acn.Prelude.{
  ℕ, ◌≤◌, ◌<◌, ◌≡◌, ◌≢◌, inl, inr, sym, ◌∙◌, ap, Array, ltb, List, Member, arith, Bool-cases,
}
use s_acn.EtcPal.{IntHandleManager}
use s_acn.DmxMerger.State.{
  SourceTree, SourceState, MergerState, Config, calc_src_pap, get_slot, source_invalid,
}
use s_acn.DmxMerger.Spec.{Replaced, IsMerge}
use s_acn.DmxMerger.Slots.Merge.{merge_new_priorities_slot-IsMerge}
use s_acn.DmxMerger.Slots.{merge_new_priorities_slot}
use s_acn.DmxMerger.Outputs.{merge_slots, copy_source, copy_priority}
use s_acn.DmxMerger.Outputs.Pointwise.{
  within, get_slot-merge_slots, get_slot-copy_source, get_slot-copy_priority,
}
use s_acn.DmxMerger.Replace.{unchanged-IsMerge}
use s_acn.DmxMerger.Sole.{sole}

-- The two sources are the same but for their priorities.
pub record SameLevels (s s' : SourceState) : Type 0 where
  pub handle : s'.handle ≡ s.handle
  pub levels : s'.source.levels ≡ s.source.levels
  pub count : s'.source.valid_level_count ≡ s.source.valid_level_count

pub reprioritised-IsMerge :
    (s s' : SourceState) (ss ss' : List SourceState) (n : ℕ) (c : Config) (j : ℕ)
    → Replaced s s' ss ss'
    → SameLevels s s'
    → s'.handle ≢ source_invalid
    → s.source.valid_level_count ≤ n
    → IsMerge ss j (get_slot c j)
    → IsMerge ss' j (get_slot (merge_slots 0 n (merge_new_priorities_slot s' ss') c) j)
unfolding calc_src_pap
reprioritised-IsMerge s s' ss ss' n c j r same valid le m =
    let f = merge_new_priorities_slot s' ss' in
    let level = ap (λ (a : Array). a j) same.levels in
    let count = same.count in
    rw (get_slot-merge_slots 0 n f c j) (elim (Bool-cases (within 0 n j)) [
      | inl e ↦ rw e (merge_new_priorities_slot-IsMerge s s' ss ss' j _ r m valid (inl level))
      | inr e ↦ rw e (unchanged-IsMerge s s' ss ss' r j _ m valid (ground arith) (inl level))
    ])

pub get_slot-copy_source-sole :
    (s s' : SourceState) (n : ℕ) (c : Config) (j : ℕ)
    → SameLevels s s'
    → n ≡ s.source.valid_level_count
    → get_slot c j ≡ sole s j
    → get_slot (copy_source s' n c) j ≡ sole s' j
unfolding sole calc_src_pap
get_slot-copy_source-sole s s' n c j same en ec =
    let level = ap (λ (a : Array). a j) same.levels in
    ground (arith, get_slot-copy_source s' n c j, same.count)

pub get_slot-copy_priority-sole :
    (s s' : SourceState) (pap n : ℕ) (c : Config) (j : ℕ)
    → SameLevels s s'
    → n ≡ s.source.valid_level_count
    → 0 < pap
    → (j < n → s'.source.address_priority j ≡ pap)
    → get_slot c j ≡ sole s j
    → get_slot (copy_priority s' pap n c) j ≡ sole s' j
unfolding sole calc_src_pap
get_slot-copy_priority-sole s s' pap n c j same en pos ep ec =
    let level = ap (λ (a : Array). a j) same.levels in
    ground (arith, get_slot-copy_priority s' pap n c j, same.count)
