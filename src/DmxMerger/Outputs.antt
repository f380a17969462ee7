-- ===== src/DmxMerger/Outputs.antt =====
-- The loops of src/sacn/dmx_merger.c over the output buffers of a merger.
pub mod Pointwise
pub mod Flags
use s_acn.Prelude.{ℕ, ◌-◌, Array, set, memset, memcpy, for_range, Bool, ltb, ◌==◌, if◌then◌else◌}
use s_acn.DmxMerger.State.{SourceState, Config, Slot, get_slot, put_slot, source_invalid}

-- for (slot = first; slot < end; ++slot), with what a round does to its slot
unfoldable pub merge_slots : ℕ → ℕ → (ℕ → Slot → Slot) → Config → Config
unfolding for_range
merge_slots first end f c =
    for_range first end (λ slot d. put_slot d slot (f slot (get_slot d slot))) c

-- The levels that come in, where the source has a priority (update_levels_single_source).
copy_level : SourceState → Array → ℕ → Config → Config
copy_level s new_levels i d =
    if ltb 0 (s.source.address_priority i)
    then record d { levels = set d.levels i (new_levels i) }
    else d

unfoldable pub copy_levels : SourceState → Array → ℕ → Config → Config
unfolding for_range copy_level
copy_levels s new_levels count c = for_range 0 count (copy_level s new_levels) c

-- The priorities and the owner of the slots that the source gains (update_levels_single_source).
gain_slot : SourceState → ℕ → Config → Config
gain_slot s i d =
    if ltb 0 (s.source.address_priority i)
    then record d {
      per_address_priorities = set d.per_address_priorities i (s.source.address_priority i);
      owners = set d.owners i s.handle;
    }
    else d

unfoldable pub gain_slots : SourceState → ℕ → ℕ → Config → Config
unfolding for_range gain_slot
gain_slots s old_count new_count c = for_range old_count new_count (gain_slot s) c

-- for (i = first; i < end; ++i) owners[i] = owner
set_owner : ℕ → ℕ → Config → Config
set_owner owner i d = record d { owners = set d.owners i owner }

unfoldable pub set_owners : ℕ → ℕ → ℕ → Config → Config
unfolding for_range set_owner
set_owners owner first end c = for_range first end (set_owner owner) c

-- The slots that the source loses (update_levels_single_source).
unfoldable pub release_slots : ℕ → ℕ → Config → Config
unfolding set_owners
release_slots old_count new_count c = set_owners source_invalid new_count old_count (record c {
  levels = memset c.levels new_count 0 (old_count - new_count);
  per_address_priorities = memset c.per_address_priorities new_count 0 (old_count - new_count);
})

-- The outputs of the only source at all its slots (update_pap_single_source).
copy_slot : SourceState → ℕ → Config → Config
copy_slot s i d =
    if s.source.address_priority i == 0
    then record d { levels = set d.levels i 0; owners = set d.owners i source_invalid }
    else record d { levels = set d.levels i (s.source.levels i); owners = set d.owners i s.handle }

unfoldable pub copy_source : SourceState → ℕ → Config → Config
unfolding for_range copy_slot
copy_source s count c = for_range 0 count (copy_slot s) (record c {
  per_address_priorities = memcpy c.per_address_priorities s.source.address_priority count;
})

-- One priority at all the slots of the only source (update_universe_priority_single_source).
unfoldable pub copy_priority : SourceState → ℕ → ℕ → Config → Config
unfolding set_owners
copy_priority s pap count c =
    let d =
      set_owners s.handle 0 count
        (record c { per_address_priorities = memset c.per_address_priorities 0 pap count }) in
    record d { levels = memcpy d.levels s.source.levels count }
