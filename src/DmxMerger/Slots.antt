-- ===== src/DmxMerger/Slots.antt =====
-- The bodies of the merge loops of src/sacn/dmx_merger.c: what a round does to its one slot.
mod Walk
mod LevelWalk
pub mod Merge
pub mod MergeLevels
mod Examples
use s_acn.Prelude.{ℕ, List, [], ◌∷◌, Bool, ◌&&◌, ◌||◌, not, ltb, ◌==◌, if◌then◌else◌}
use s_acn.DmxMerger.State.{SourceState, Slot, calc_src_pap, source_invalid}

-- The outputs when a source takes the slot over with the priority `pap`.
abbrev pub take_over : SourceState → ℕ → ℕ → Slot
take_over s slot pap = record { level = s.source.levels slot; pap = pap; owner = s.handle }

-- The test of the walk over the candidates in `merge_new_priorities`.
pub beats : SourceState → ℕ → Slot → Bool
unfolding calc_src_pap
beats c slot w =
    ltb w.pap (calc_src_pap c slot)
    || (ltb 0 (calc_src_pap c slot)
        && calc_src_pap c slot == w.pap
        && ltb w.level (c.source.levels slot))

-- That walk, over the sources in the order of the tree.
pub next_owner : SourceState → ℕ → List SourceState → Slot → Slot
next_owner s slot [] w = w
next_owner s slot (c ∷ cs) w = next_owner s slot cs (
    if not (c.handle == s.handle) && beats c slot w
    then take_over c slot (calc_src_pap c slot)
    else w)

-- Start with the source as the owner; when unsourced, set the level to 0 and the owner to invalid.
pub lower_pap : SourceState → ℕ → Slot → Slot
lower_pap s slot w =
    if calc_src_pap s slot == 0
    then record { level = 0; pap = 0; owner = source_invalid }
    else record w { pap = calc_src_pap s slot }

-- One round of `merge_new_priorities`.
pub merge_new_priorities_slot : SourceState → List SourceState → ℕ → Slot → Slot
unfolding lower_pap
merge_new_priorities_slot s cs slot w =
    if ltb w.pap (calc_src_pap s slot)
    then take_over s slot (calc_src_pap s slot)
    else if not (s.handle == w.owner)
    then (if ltb 0 (calc_src_pap s slot)
          && calc_src_pap s slot == w.pap
          && ltb w.level (s.source.levels slot)
        then take_over s slot w.pap
        else w)
    else if ltb (calc_src_pap s slot) w.pap
    then next_owner s slot cs (lower_pap s slot w)
    else w

-- The walk over the candidates in `update_levels_multi_source`.
pub next_level_owner : SourceState → ℕ → List SourceState → Slot → Slot
next_level_owner s slot [] w = w
next_level_owner s slot (c ∷ cs) w = next_level_owner s slot cs (
    if not (c.handle == s.handle)
      && (c.source.address_priority slot == w.pap && ltb w.level (c.source.levels slot))
    then take_over c slot w.pap
    else w)

-- One round of the loop of `update_levels_multi_source`.
pub merge_levels_slot : SourceState → List SourceState → ℕ → Slot → Slot
merge_levels_slot s cs slot w =
    if ltb 0 (s.source.address_priority slot) && s.source.address_priority slot == w.pap
    then (if ltb w.level (s.source.levels slot)
        then take_over s slot w.pap
        else if s.handle == w.owner && ltb (s.source.levels slot) w.level
        then next_level_owner s slot cs (record w { level = s.source.levels slot })
        else w)
    else w
