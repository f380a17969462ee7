-- ===== src/DmxMerger/Examples.antt =====
-- The theorems on the DMX merger at concrete calls: a merger 1 with the sources 7 and 8.
use s_acn.Prelude.{
  ◌≤◌, ◌<◌, ◌≡◌, ◌≢◌, ◌⊎◌, ◌↔◌, inl, refl, Array, true, false, none, some, List, [], ◌∷◌, Member,
  arith, Option-cases,
}
use s_acn.EtcPal.{IntHandleManager, ok}
use s_acn.EtcPal.ListTree.{list_tree}
use s_acn.EtcPal.LeastHandle.{least_manager}
use s_acn.DmxMerger.State.{
  SourceTree, SourceState, MergerState, Config, max_slots, source_invalid, merger_invalid,
}
use s_acn.DmxMerger.Spec.{Replaced}
use s_acn.DmxMerger.Update.{sources, update_levels, update_pap}
use s_acn.DmxMerger.Priority.{
  update_universe_priority, remove_pap, remove_source, max_universe_priority, any_pap_active,
}
use s_acn.DmxMerger.Invariant.{IsMerged, IsMaxPriority, IsPapActive}
use s_acn.DmxMerger.Recalculate.{any_pap_active-IsPapActive, max_universe_priority-IsMaxPriority}
use s_acn.DmxMerger.Levels.{levels_updated}
use s_acn.DmxMerger.Levels.Merged.{update_levels-IsMerged}
use s_acn.DmxMerger.Priorities.Pap.{pap_updated}
use s_acn.DmxMerger.Priorities.Pap.Merged.{update_pap-IsMerged}
use s_acn.DmxMerger.Priorities.Universe.{universe_updated}
use s_acn.DmxMerger.Priorities.Universe.Merged.{
  update_universe_priority-news, update_universe_priority-IsMerged,
}
use s_acn.DmxMerger.Priorities.Remove.{reverted, remove_pap-IsMerged}
use s_acn.DmxMerger.Priorities.Remove.Gone.{Without, remove_source-IsMerged}
use s_acn.DmxMerger.Table.{
  MergerTree, Table, init_table, lookup_state, new_source, initial_config, construct_merger_state,
}
use s_acn.DmxMerger.Table.Adding.{construct_merger_state-IsMerged, added-IsMerged}
use s_acn.DmxMerger.Api.{Env, sacn_dmx_merger_update_levels}
use s_acn.DmxMerger.Api.Answers.{
  sacn_dmx_merger_update_levels-answers, sacn_dmx_merger_update_levels-refused,
}
use s_acn.DmxMerger.Table.Merged.{IsTable}
use s_acn.DmxMerger.Table.History.{
  creates, adds, levels, priorities, universe_priority, removes_pap, removes, destroys, Call, run,
  run-init-IsTable,
}

abbrev source_tree : SourceTree
source_tree = list_tree (λ (s : SourceState). s.handle)

abbrev manager : IntHandleManager
manager = least_manager

abbrev merger_tree : MergerTree source_tree manager
merger_tree = list_tree (λ (m : MergerState source_tree manager). m.handle)

abbrev zeros : Array
zeros = λ _. 0

abbrev config : Config
config = record {
  levels = zeros;
  per_address_priorities = zeros;
  per_address_priorities_active = some false;
  universe_priority = some 0;
  owners = zeros;
  source_count_max = 4;
}

abbrev calls : List Call
calls =
    creates true config
    ∷ adds true 0 7
    ∷ adds true 0 8
    ∷ universe_priority 0 7 100
    ∷ levels 0 7 (some (λ _. 9)) 3
    ∷ priorities 0 8 (some (λ _. 120)) 512
    ∷ removes_pap 0 8
    ∷ removes 0 7
    ∷ destroys 0
    ∷ []

run-init-IsTable_example :
    IsTable source_tree manager merger_tree
      (run source_tree manager merger_tree (init_table source_tree manager merger_tree) calls)
run-init-IsTable_example = run-init-IsTable source_tree manager merger_tree calls

abbrev empty_merger : MergerState source_tree manager
empty_merger = record {
  handle = 1;
  source_handle_mgr = manager.init_manager 0xfffe;
  source_state_lookup = source_tree.init;
  config = initial_config config;
}

constructed : construct_merger_state source_tree manager true 1 config ≡ some empty_merger
unfolding construct_merger_state
constructed = refl

construct_merger_state-IsMerged_example : IsMerged source_tree manager empty_merger
construct_merger_state-IsMerged_example =
    construct_merger_state-IsMerged source_tree manager true 1 config empty_merger constructed

abbrev one_source : source_tree.Tree
one_source = (source_tree.insert (new_source 7) source_tree.init).1

one_source-members :
    (t : SourceState)
    → Member t (source_tree.items one_source)
      ↔ ((t ≡ new_source 7) ⊎ Member t (sources source_tree manager empty_merger))
unfolding list_tree Option-cases
one_source-members t = source_tree.insert-ok source_tree.init (new_source 7) t refl

abbrev merger : MergerState source_tree manager
merger = record empty_merger { source_state_lookup = one_source }

valid : 7 ≢ source_invalid
valid = omega arith

empty_merger-IsMerged : IsMerged source_tree manager empty_merger
empty_merger-IsMerged =
    construct_merger_state-IsMerged source_tree manager true 1 config empty_merger constructed

merger-IsMerged : IsMerged source_tree manager merger
merger-IsMerged =
    added-IsMerged source_tree manager empty_merger 7 one_source empty_merger-IsMerged valid
      one_source-members

member : Member (new_source 7) (sources source_tree manager merger)
member = (one_source-members (new_source 7)).1 (inl refl)

three : 3 ≤ max_slots
three = omega arith

update_levels-IsMerged_example :
    IsMerged source_tree manager
      (update_levels source_tree manager merger (new_source 7) (λ _. 9) 3)
    × Replaced
        (new_source 7)
        (levels_updated (new_source 7) (λ _. 9) 3)
        (sources source_tree manager merger)
        (sources source_tree manager
          (update_levels source_tree manager merger (new_source 7) (λ _. 9) 3))
update_levels-IsMerged_example =
    update_levels-IsMerged source_tree manager merger (new_source 7) (λ _. 9) 3 merger-IsMerged
      member three

update_pap-IsMerged_example :
    IsMerged source_tree manager (update_pap source_tree manager merger (new_source 7) (λ _. 120) 3)
    × Replaced
        (new_source 7)
        (pap_updated (new_source 7) (λ _. 120) 3)
        (sources source_tree manager merger)
        (sources source_tree manager
          (update_pap source_tree manager merger (new_source 7) (λ _. 120) 3))
update_pap-IsMerged_example =
    update_pap-IsMerged source_tree manager merger (new_source 7) (λ _. 120) 3 merger-IsMerged
      member three

update_universe_priority-IsMerged_example :
    IsMerged source_tree manager
      (update_universe_priority source_tree manager merger (new_source 7) 100)
update_universe_priority-IsMerged_example =
    update_universe_priority-IsMerged source_tree manager merger (new_source 7) 100 merger-IsMerged
      member

update_universe_priority-news_example :
    IsMerged source_tree manager
      (update_universe_priority source_tree manager merger (new_source 7) 100)
    × Replaced
        (new_source 7)
        (universe_updated (new_source 7) 100)
        (sources source_tree manager merger)
        (sources source_tree manager
          (update_universe_priority source_tree manager merger (new_source 7) 100))
update_universe_priority-news_example =
    update_universe_priority-news source_tree manager merger (new_source 7) 100 merger-IsMerged
      member refl

remove_pap-IsMerged_example :
    IsMerged source_tree manager (remove_pap source_tree manager merger (new_source 7))
    × Replaced
        (new_source 7)
        (reverted (new_source 7))
        (sources source_tree manager merger)
        (sources source_tree manager (remove_pap source_tree manager merger (new_source 7)))
remove_pap-IsMerged_example =
    remove_pap-IsMerged source_tree manager merger (new_source 7) merger-IsMerged member

remove_source-IsMerged_example :
    ((remove_source source_tree manager merger (new_source 7)).0 ≡ ok)
    × IsMerged source_tree manager (remove_source source_tree manager merger (new_source 7)).1
    × Without
        (new_source 7)
        (sources source_tree manager merger)
        (sources source_tree manager (remove_source source_tree manager merger (new_source 7)).1)
remove_source-IsMerged_example =
    remove_source-IsMerged source_tree manager merger (new_source 7) merger-IsMerged member

max_universe_priority-IsMaxPriority_example :
    IsMaxPriority
      (new_source 7 ∷ new_source 8 ∷ [])
      (max_universe_priority 0 (new_source 7 ∷ new_source 8 ∷ []))
max_universe_priority-IsMaxPriority_example =
    max_universe_priority-IsMaxPriority (new_source 7 ∷ new_source 8 ∷ [])

any_pap_active-IsPapActive_example :
    IsPapActive
      (new_source 7 ∷ new_source 8 ∷ [])
      (any_pap_active (new_source 7 ∷ new_source 8 ∷ []))
any_pap_active-IsPapActive_example = any_pap_active-IsPapActive (new_source 7 ∷ new_source 8 ∷ [])

abbrev env : Env
env = record { initialized = true; lock = true; memory = true }

abbrev table : Table source_tree manager merger_tree
table = run source_tree manager merger_tree (init_table source_tree manager merger_tree) calls

sacn_dmx_merger_update_levels-answers_example :
    ((sacn_dmx_merger_update_levels source_tree manager merger_tree env 0 8 (some zeros) 3 table).0
      ≡ ok)
    ↔ ((true ≡ true)
        × (true ≡ true)
        × (0 ≢ merger_invalid)
        × (8 ≢ source_invalid)
        × (some zeros ≢ none)
        × (0 < 3)
        × (3 ≤ max_slots)
        × (lookup_state source_tree manager merger_tree table 0 8 ≢ none))
sacn_dmx_merger_update_levels-answers_example =
    sacn_dmx_merger_update_levels-answers source_tree manager merger_tree env 0 8 (some zeros) 3
      table

abbrev start : Table source_tree manager merger_tree
start = init_table source_tree manager merger_tree

refused :
    (sacn_dmx_merger_update_levels source_tree manager merger_tree env 0 8 (some zeros) 0 start).0
    ≢ ok
unfolding sacn_dmx_merger_update_levels
refused = ground arith

sacn_dmx_merger_update_levels-refused_example :
    (sacn_dmx_merger_update_levels source_tree manager merger_tree env 0 8 (some zeros) 0 start).1
    ≡ start
sacn_dmx_merger_update_levels-refused_example =
    sacn_dmx_merger_update_levels-refused source_tree manager merger_tree env 0 8 (some zeros) 0
      start refused
