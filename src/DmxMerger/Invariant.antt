-- ===== src/DmxMerger/Invariant.antt =====
-- The invariant of a merger: its outputs are the merge of its sources.
use s_acn.Prelude.{ℕ, ◌≤◌, ◌<◌, ◌≡◌, ◌≢◌, ◌⊎◌, Bool, true, false, some, List, Member}
use s_acn.EtcPal.{IntHandleManager}
use s_acn.DmxMerger.State.{
  SourceTree, SourceState, MergerState, get_slot, max_slots, source_invalid,
}
use s_acn.DmxMerger.Spec.{IsMerge}
use s_acn.DmxMerger.Update.{sources}

-- A source is well formed: data past its counts is 0, and no count is past the buffers.
pub record IsSource (s : SourceState) : Type 0 where
  pub has_handle : s.handle ≢ source_invalid
  pub levels_fit : s.source.valid_level_count ≤ max_slots
  pub priorities_fit : s.pap_count ≤ max_slots
  pub levels_padded : (i : ℕ) → s.source.valid_level_count ≤ i → s.source.levels i ≡ 0
  pub priorities_padded : (i : ℕ) → s.pap_count ≤ i → s.source.address_priority i ≡ 0

-- `b` says whether some source has priorities of its own.
pub data IsPapActive (ss : List SourceState) (b : Bool) : Type 0 where
  active :
      (s : SourceState)
      → Member s ss
      → s.source.using_universe_priority ≡ false
      → b ≡ true
      → IsPapActive ss b
  inactive :
      ((s : SourceState) → Member s ss → s.source.using_universe_priority ≡ true)
      → b ≡ false
      → IsPapActive ss b

-- `p` is the highest universe priority, or 0 where there is no source.
pub record IsMaxPriority (ss : List SourceState) (p : ℕ) : Type 0 where
  pub bound : (s : SourceState) → Member s ss → s.source.universe_priority ≤ p
  pub attained : (p ≡ 0) ⊎ ((s : SourceState) × Member s ss × (s.source.universe_priority ≡ p))

module _ (T : SourceTree) (H : IntHandleManager) where
  pub record IsMerged (m : MergerState T H) : Type 0 where
    pub wellformed : (s : SourceState) → Member s (sources T H m) → IsSource s
    pub slots :
        (slot : ℕ) → slot < max_slots → IsMerge (sources T H m) slot (get_slot m.config slot)
    pub pap_active :
        (b : Bool) → m.config.per_address_priorities_active ≡ some b → IsPapActive (sources T H m) b
    pub max_priority :
        (p : ℕ) → m.config.universe_priority ≡ some p → IsMaxPriority (sources T H m) p
