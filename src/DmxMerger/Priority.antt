-- ===== src/DmxMerger/Priority.antt =====
-- The functions of src/sacn/dmx_merger.c for the universe priority of a source, for the end of its
-- per-address priorities, and for its removal from a merger.
use s_acn.Prelude.{
  ℕ, memset, Bool, true, false, ◌&&◌, ◌||◌, not, ltb, leb, ◌==◌, if◌then◌else◌, none, some, List,
  [], ◌∷◌,
}
use s_acn.EtcPal.{EtcPalError, ok, sys, is_ok, IntHandleManager}
use s_acn.DmxMerger.State.{SourceTree, SourceState, MergerState, Config, max_slots}
use s_acn.DmxMerger.Outputs.{copy_priority}
use s_acn.DmxMerger.Update.{
  with_priorities, sources, single_source, put_source, put_config, merge_new_priorities,
  set_pap_active,
}

-- The loop of recalculate_pap_active: it ends at the first source with priorities of its own.
unfoldable pub any_pap_active : List SourceState → Bool
any_pap_active [] = false
any_pap_active (s ∷ ss) = not s.source.using_universe_priority || any_pap_active ss

-- The loop of recalculate_universe_priority.
unfoldable pub max_universe_priority : ℕ → List SourceState → ℕ
max_universe_priority best [] = best
max_universe_priority best (s ∷ ss) =
    max_universe_priority
      (if ltb best s.source.universe_priority then s.source.universe_priority else best) ss

-- *(merger->config.universe_priority) = priority, where it is not NULL
unfoldable pub set_universe_priority : Config → ℕ → Config
set_universe_priority c priority = record c { universe_priority = some priority }

-- The universe priority as a per-address priority: 0 becomes 1.
unfoldable pub to_pap : ℕ → ℕ
to_pap priority = if priority == 0 then 1 else priority

unfoldable pub with_universe_priority : SourceState → ℕ → SourceState
with_universe_priority s priority = record s {
  source = record s.source { universe_priority = priority };
}

module _ (T : SourceTree) (H : IntHandleManager) where
  abbrev Merger : Type 0
  Merger = MergerState T H

  unfoldable pub recalculate_pap_active : Merger → Merger
  unfolding put_config set_pap_active any_pap_active
  recalculate_pap_active m =
      put_config T H m (set_pap_active m.config (any_pap_active (sources T H m)))

  unfoldable pub recalculate_universe_priority : Merger → Merger
  unfolding put_config set_universe_priority max_universe_priority
  recalculate_universe_priority m =
      put_config T H m (set_universe_priority m.config (max_universe_priority 0 (sources T H m)))

  unfoldable pub update_universe_priority_single_source : Merger → SourceState → ℕ → Merger
  unfolding put_source put_config with_priorities
  update_universe_priority_single_source m s pap =
      let s' = with_priorities s (memset s.source.address_priority 0 pap max_slots) in
      put_config T H (put_source T H m s')
        (copy_priority s' pap s.source.valid_level_count m.config)

  unfoldable pub update_universe_priority_multi_source : Merger → SourceState → ℕ → Merger
  unfolding put_source with_priorities
  update_universe_priority_multi_source m s pap =
      let s' = with_priorities s (memset s.source.address_priority 0 pap max_slots) in
      merge_new_priorities T H (put_source T H m s') s' 0 s.source.valid_level_count

  -- The end of update_universe_priority: the universe priority output.
  unfoldable pub update_universe_priority_output : Merger → ℕ → Bool → Bool → Merger
  unfolding put_config set_universe_priority
  update_universe_priority_output m priority was_max single = elim m.config.universe_priority [
    | none ↦ m
    | some out ↦
        if single || leb out priority
        then put_config T H m (set_universe_priority m.config priority)
        else if was_max
        then recalculate_universe_priority m
        else m
  ]

  -- `*(merger->config.universe_priority)` is at most the universe priority of the source.
  unfoldable pub is_max : Merger → SourceState → Bool
  is_max m s = elim m.config.universe_priority [
    | none ↦ false
    | some out ↦ leb out s.source.universe_priority
  ]

  unfoldable pub update_universe_priority : Merger → SourceState → ℕ → Merger
  unfolding put_source with_universe_priority to_pap is_max
  update_universe_priority m s priority =
      if not (priority == s.source.universe_priority) || s.universe_priority_uninitialized
      then (let was_max = is_max m s in
          let single = single_source T H m in
          let s' = record (with_universe_priority s priority) {
            universe_priority_uninitialized = false;
          } in
          let m' = put_source T H m s' in
          let merged =
            if s.source.using_universe_priority
            then (let s'' = record s' { pap_count = max_slots } in
                if single
                then update_universe_priority_single_source (put_source T H m' s'') s''
                    (to_pap priority)
                else update_universe_priority_multi_source (put_source T H m' s'') s''
                    (to_pap priority))
            else m' in
          update_universe_priority_output merged priority was_max single)
      else m

  -- remove_sacn_dmx_merger_pap, once its source is found
  unfoldable pub remove_pap : Merger → SourceState → Merger
  unfolding put_source with_priorities to_pap
  remove_pap m s =
      let pap_was_active = not s.source.using_universe_priority in
      let s' = record s {
        source = record s.source {
          using_universe_priority = true;
          address_priority =
              memset s.source.address_priority 0 (to_pap s.source.universe_priority) max_slots;
        };
        pap_count = max_slots;
      } in
      let merged = merge_new_priorities T H (put_source T H m s') s' 0 s.source.valid_level_count in
      if pap_was_active then recalculate_pap_active merged else merged

  -- The pap-active output of remove_sacn_dmx_merger_source.
  unfoldable pub retire_pap : Merger → SourceState → Merger × SourceState
  unfolding put_source
  retire_pap m s = elim m.config.per_address_priorities_active [
    | none ↦ (m, s)
    | some active ↦
        if active && not s.source.using_universe_priority
        then (let s' = record s { source = record s.source { using_universe_priority = true } } in
            (recalculate_pap_active (put_source T H m s'), s'))
        else (m, s)
  ]

  -- The universe priority output of remove_sacn_dmx_merger_source.
  unfoldable pub retire_universe_priority : Merger → SourceState → Merger
  unfolding put_source with_universe_priority is_max
  retire_universe_priority m s =
      if is_max m s
      then recalculate_universe_priority (put_source T H m (with_universe_priority s 0))
      else m

  -- remove_sacn_dmx_merger_source, once its source is found
  unfoldable pub remove_source : Merger → SourceState → EtcPalError × Merger
  unfolding put_source with_priorities retire_pap retire_universe_priority
  remove_source m s =
      let s' = with_priorities s (memset s.source.address_priority 0 0 max_slots) in
      let merged = merge_new_priorities T H (put_source T H m s') s' 0 max_slots in
      let (m', s'') = retire_pap merged s' in
      let last = retire_universe_priority m' s'' in
      let (e, tree) = T.remove s.handle last.source_state_lookup in
      ((if is_ok e then ok else sys), record last { source_state_lookup = tree })
