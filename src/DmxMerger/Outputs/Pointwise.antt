-- ===== src/DmxMerger/Outputs/Pointwise.antt =====
-- What each loop over the output buffers leaves in a slot, and that it leaves the other outputs alone.
use s_acn.Prelude.{
  ℕ, ◌+◌, ◌-◌, ◌≡◌, arith, Array, memset, memcpy, rounds-local, ◌&&◌, Bool, ltb, leb, ◌==◌,
  if◌then◌else◌,
}
use s_acn.DmxMerger.State.{SourceState, Config, Slot, get_slot, put_slot, source_invalid, released}
use s_acn.DmxMerger.Outputs.{
  merge_slots, copy_levels, gain_slots, set_owners, release_slots, copy_source, copy_priority,
  copy_level, gain_slot, set_owner, copy_slot,
}

-- The slot is one of `first` up to `end`.
abbrev pub within : ℕ → ℕ → ℕ → Bool
within first end j = leb first j && ltb j (first + (end - first))

get_slot-put_slot :
    (i j : ℕ) (c : Config) (w : Slot)
    → get_slot (put_slot c i w) j ≡ (if j == i then w else get_slot c j)
unfolding get_slot put_slot
get_slot-put_slot i j c w = ground arith

pub get_slot-merge_slots :
    (first end : ℕ) (f : ℕ → Slot → Slot) (c : Config) (j : ℕ)
    → get_slot (merge_slots first end f c) j
      ≡ (if within first end j then f j (get_slot c j) else get_slot c j)
unfolding merge_slots
get_slot-merge_slots first end f c j =
    rounds-local get_slot (λ i d. put_slot d i (f i (get_slot d i))) f
      (λ i k d. get_slot-put_slot i k d (f i (get_slot d i))) (end - first) first j c

pub get_slot-copy_levels :
    (s : SourceState) (a : Array) (count : ℕ) (c : Config) (j : ℕ)
    → get_slot (copy_levels s a count c) j ≡ (
        if within 0 count j && ltb 0 (s.source.address_priority j)
        then record (get_slot c j) { level = a j }
        else get_slot c j)
unfolding copy_levels copy_level get_slot
get_slot-copy_levels s a count c j = ground (
  arith,
  rounds-local get_slot (copy_level s a)
      (λ i w. if ltb 0 (s.source.address_priority i) then record w { level = a i } else w)
      (λ i k d. ground arith) (count - 0) 0 j c,
)

pub get_slot-gain_slots :
    (s : SourceState) (old_count new_count : ℕ) (c : Config) (j : ℕ)
    → get_slot (gain_slots s old_count new_count c) j ≡ (
        if within old_count new_count j && ltb 0 (s.source.address_priority j)
        then record (get_slot c j) { pap = s.source.address_priority j; owner = s.handle }
        else get_slot c j)
unfolding gain_slots gain_slot get_slot
get_slot-gain_slots s old_count new_count c j = ground (
  arith,
  rounds-local get_slot (gain_slot s)
      (λ i w.
        if ltb 0 (s.source.address_priority i)
        then record w { pap = s.source.address_priority i; owner = s.handle }
        else w)
      (λ i k d. ground arith) (new_count - old_count) old_count j c,
)

pub get_slot-set_owners :
    (h first end : ℕ) (c : Config) (j : ℕ)
    → get_slot (set_owners h first end c) j
      ≡ (if within first end j then record (get_slot c j) { owner = h } else get_slot c j)
unfolding set_owners get_slot
get_slot-set_owners h first end c j =
    rounds-local get_slot (set_owner h) (λ i w. record w { owner = h }) (λ i k d. ground arith)
      (end - first) first j c

pub get_slot-release_slots :
    (old_count new_count : ℕ) (c : Config) (j : ℕ)
    → get_slot (release_slots old_count new_count c) j
      ≡ (if within new_count old_count j then released else get_slot c j)
unfolding release_slots get_slot
get_slot-release_slots old_count new_count c j =
    ground (arith, get_slot-set_owners source_invalid new_count old_count cleared j)
  where
    cleared : Config
    cleared = record c {
      levels = memset c.levels new_count 0 (old_count - new_count);
      per_address_priorities = memset c.per_address_priorities new_count 0 (old_count - new_count);
    }

pub get_slot-copy_source :
    (s : SourceState) (count : ℕ) (c : Config) (j : ℕ)
    → get_slot (copy_source s count c) j ≡ (
        if within 0 count j
        then (if s.source.address_priority j == 0 then released else record {
          level = s.source.levels j;
          pap = s.source.address_priority j;
          owner = s.handle;
        })
        else get_slot c j)
unfolding copy_source copy_slot get_slot
get_slot-copy_source s count c j = ground (
  arith,
  rounds-local get_slot (copy_slot s)
      (λ i w.
        if s.source.address_priority i == 0
        then record w { level = 0; owner = source_invalid }
        else record w { level = s.source.levels i; owner = s.handle })
      (λ i k d. ground arith) (count - 0) 0 j
      (record c {
        per_address_priorities = memcpy c.per_address_priorities s.source.address_priority count;
      }),
)

pub get_slot-copy_priority :
    (s : SourceState) (pap count : ℕ) (c : Config) (j : ℕ)
    → get_slot (copy_priority s pap count c) j ≡ (
        if within 0 count j
        then record { level = s.source.levels j; pap = pap; owner = s.handle }
        else get_slot c j)
unfolding copy_priority get_slot
get_slot-copy_priority s pap count c j =
    ground (arith, get_slot-set_owners s.handle 0 count filled j)
  where
    filled : Config
    filled = record c { per_address_priorities = memset c.per_address_priorities 0 pap count }
