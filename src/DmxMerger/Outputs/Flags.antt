-- ===== src/DmxMerger/Outputs/Flags.antt =====
-- The loops over the output buffers leave the pap-active and the universe priority output alone.
use s_acn.Prelude.{ℕ, ◌-◌, ◌≡◌, refl, arith, Array, memset, rounds-keeps}
use s_acn.DmxMerger.State.{SourceState, Config, Slot, put_slot, source_invalid}
use s_acn.DmxMerger.Outputs.{
  merge_slots, copy_levels, gain_slots, set_owners, release_slots, copy_source, copy_priority,
  copy_level, gain_slot, set_owner, copy_slot,
}

abbrev pub SameFlags : Config → Config → Type 0
SameFlags c d =
    (d.per_address_priorities_active ≡ c.per_address_priorities_active)
    × (d.universe_priority ≡ c.universe_priority)

pub merge_slots-SameFlags :
    (first end : ℕ) (f : ℕ → Slot → Slot) (c : Config) → SameFlags c (merge_slots first end f c)
unfolding merge_slots put_slot
merge_slots-SameFlags first end f c =
    rounds-keeps (SameFlags c) _ (λ i d h. (h.0, h.1)) (end - first) first c (refl, refl)

pub copy_levels-SameFlags :
    (s : SourceState) (a : Array) (count : ℕ) (c : Config) → SameFlags c (copy_levels s a count c)
unfolding copy_levels copy_level
copy_levels-SameFlags s a count c =
    rounds-keeps (SameFlags c) (copy_level s a) (λ i d h. ground arith) (count - 0) 0 c (refl, refl)

pub gain_slots-SameFlags :
    (s : SourceState) (old_count new_count : ℕ) (c : Config)
    → SameFlags c (gain_slots s old_count new_count c)
unfolding gain_slots gain_slot
gain_slots-SameFlags s old_count new_count c =
    rounds-keeps (SameFlags c) (gain_slot s) (λ i d h. ground arith) (new_count - old_count)
      old_count c (refl, refl)

pub set_owners-SameFlags :
    (h first end : ℕ) (b c : Config) → SameFlags b c → SameFlags b (set_owners h first end c)
unfolding set_owners set_owner
set_owners-SameFlags h first end b c same =
    rounds-keeps (SameFlags b) (set_owner h) (λ i d e. (e.0, e.1)) (end - first) first c same

pub release_slots-SameFlags :
    (old_count new_count : ℕ) (c : Config) → SameFlags c (release_slots old_count new_count c)
unfolding release_slots
release_slots-SameFlags old_count new_count c =
    set_owners-SameFlags source_invalid new_count old_count c _ (refl, refl)

pub copy_source-SameFlags :
    (s : SourceState) (count : ℕ) (c : Config) → SameFlags c (copy_source s count c)
unfolding copy_source copy_slot
copy_source-SameFlags s count c =
    rounds-keeps (SameFlags c) (copy_slot s) (λ i d h. ground arith) (count - 0) 0 _ (refl, refl)

pub copy_priority-SameFlags :
    (s : SourceState) (pap count : ℕ) (c : Config) → SameFlags c (copy_priority s pap count c)
unfolding copy_priority
copy_priority-SameFlags s pap count c =
    let d =
      set_owners-SameFlags s.handle 0 count c
        (record c { per_address_priorities = memset c.per_address_priorities 0 pap count })
        (refl, refl) in
    (d.0, d.1)
