-- ===== src/DmxMerger/Update.antt =====
-- The functions of src/sacn/dmx_merger.c that bring new levels and priorities of a source into a
-- merger. A source that they change is written back to the tree, which holds a pointer to it.
use s_acn.Prelude.{
  ℕ, ◌-◌, Array, memset, memcpy, differs, Bool, true, false, ◌||◌, not, ltb, ◌==◌, if◌then◌else◌,
  none, some, List,
}
use s_acn.EtcPal.{IntHandleManager}
use s_acn.DmxMerger.State.{SourceTree, SourceState, MergerState, Config, max_slots}
use s_acn.DmxMerger.Slots.{merge_new_priorities_slot, merge_levels_slot}
use s_acn.DmxMerger.Outputs.{merge_slots, copy_levels, gain_slots, release_slots, copy_source}

-- memcpy of what comes in, and memset of what the shorter data no longer covers
unfoldable pub replace_data : Array → Array → ℕ → ℕ → Array
replace_data a new_data old_count new_count =
    if ltb new_count old_count
    then memset (memcpy a new_data new_count) new_count 0 (old_count - new_count)
    else memcpy a new_data new_count

unfoldable pub with_levels : SourceState → Array → SourceState
with_levels s a = record s { source = record s.source { levels = a } }

unfoldable pub with_priorities : SourceState → Array → SourceState
with_priorities s a = record s { source = record s.source { address_priority = a } }

-- *(merger->config.per_address_priorities_active) = active, unless it is NULL
unfoldable pub set_pap_active : Config → Bool → Config
set_pap_active c active = record c {
  per_address_priorities_active = elim c.per_address_priorities_active [
    | none ↦ none
    | some _ ↦ some active
  ];
}

module _ (T : SourceTree) (H : IntHandleManager) where
  abbrev pub Merger : Type 0
  Merger = MergerState T H

  abbrev pub sources : Merger → List SourceState
  sources m = T.items m.source_state_lookup

  abbrev pub single_source : Merger → Bool
  single_source m = T.size m.source_state_lookup == 1

  unfoldable pub put_source : Merger → SourceState → Merger
  put_source m s = record m { source_state_lookup = T.store s m.source_state_lookup }

  unfoldable pub put_config : Merger → Config → Merger
  put_config m c = record m { config = c }

  unfoldable pub merge_new_priorities : Merger → SourceState → ℕ → ℕ → Merger
  unfolding put_config
  merge_new_priorities m s first end =
      put_config m (merge_slots first end (merge_new_priorities_slot s (sources m)) m.config)

  unfoldable pub update_levels_single_source : Merger → SourceState → Array → ℕ → ℕ → Merger
  unfolding put_source put_config with_levels
  update_levels_single_source m s new_levels old_count new_count =
      if ltb max_slots old_count || ltb max_slots new_count
      then m
      else let s' = with_levels s (replace_data s.source.levels new_levels old_count new_count) in
        let copied = copy_levels s' new_levels new_count m.config in
        let gained =
          if ltb old_count new_count then gain_slots s' old_count new_count copied else copied in
        let lost =
          if ltb new_count old_count then release_slots old_count new_count gained else gained in
        put_config (put_source m s') lost

  unfoldable pub update_levels_multi_source : Merger → SourceState → Array → ℕ → ℕ → Merger
  unfolding put_source put_config with_levels
  update_levels_multi_source m s new_levels old_count new_count =
      if ltb max_slots old_count || ltb max_slots new_count
      then m
      else let s' = with_levels s (replace_data s.source.levels new_levels old_count new_count) in
        let stored = put_source m s' in
        let min_count = if ltb new_count old_count then new_count else old_count in
        let merged =
          put_config stored
            (merge_slots 0 min_count (merge_levels_slot s' (sources stored)) stored.config) in
        let gained = merge_new_priorities merged s' old_count new_count in
        merge_new_priorities gained s' new_count old_count

  unfoldable pub update_levels : Merger → SourceState → Array → ℕ → Merger
  unfolding put_source
  update_levels m s new_levels count =
      if ltb max_slots count
      then m
      else let old_count = s.source.valid_level_count in
        let s' = record s { source = record s.source { valid_level_count = count } } in
        let m' = put_source m s' in
        if not (count == old_count) || differs new_levels s.source.levels count
        then (if single_source m'
            then update_levels_single_source m' s' new_levels old_count count
            else update_levels_multi_source m' s' new_levels old_count count)
        else m'

  unfoldable pub update_pap_single_source : Merger → SourceState → Array → ℕ → ℕ → Merger
  unfolding put_source put_config with_priorities
  update_pap_single_source m s pap old_count new_count =
      if ltb max_slots old_count || ltb max_slots new_count
      then m
      else let s' =
          with_priorities s (replace_data s.source.address_priority pap old_count new_count) in
        put_config (put_source m s') (copy_source s' s.source.valid_level_count m.config)

  unfoldable pub update_pap_multi_source : Merger → SourceState → Array → ℕ → ℕ → Merger
  unfolding put_source with_priorities
  update_pap_multi_source m s pap old_count new_count =
      if ltb max_slots old_count || ltb max_slots new_count
      then m
      else let s' =
          with_priorities s (replace_data s.source.address_priority pap old_count new_count) in
        merge_new_priorities (put_source m s') s' 0 s.source.valid_level_count

  unfoldable pub update_pap : Merger → SourceState → Array → ℕ → Merger
  unfolding put_source put_config set_pap_active
  update_pap m s pap count =
      if ltb max_slots count
      then m
      else let old_count = s.pap_count in
        let s' = record s {
          source = record s.source { using_universe_priority = false };
          pap_count = count;
        } in
        let m' = put_config (put_source m s') (set_pap_active m.config true) in
        if not (count == old_count) || differs pap s.source.address_priority count
        then (if single_source m'
            then update_pap_single_source m' s' pap old_count count
            else update_pap_multi_source m' s' pap old_count count)
        else m'
