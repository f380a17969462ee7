-- ===== src/DmxMerger/Table/History.antt =====
-- Any history of calls of the functions under the lock, from the initialised module on.
use s_acn.Prelude.{ℕ, Array, Bool, Option, List, [], ◌∷◌}
use s_acn.EtcPal.{IntHandleManager}
use s_acn.DmxMerger.State.{SourceTree, Config}
use s_acn.DmxMerger.Table.{
  MergerTree, Table, init_table, create_sacn_dmx_merger, destroy_sacn_dmx_merger, add_source,
  update_sacn_dmx_merger_levels, update_sacn_dmx_merger_pap,
  update_sacn_dmx_merger_universe_priority, remove_sacn_dmx_merger_pap,
  remove_sacn_dmx_merger_source,
}
use s_acn.DmxMerger.Table.Merged.{
  IsTable, init_table-IsTable, update_sacn_dmx_merger_levels-IsTable,
  update_sacn_dmx_merger_pap-IsTable, update_sacn_dmx_merger_universe_priority-IsTable,
  remove_sacn_dmx_merger_pap-IsTable, remove_sacn_dmx_merger_source-IsTable,
}
use s_acn.DmxMerger.Table.Create.{create_sacn_dmx_merger-IsTable, destroy_sacn_dmx_merger-IsTable}
use s_acn.DmxMerger.Table.Insert.{add_source-IsTable}

-- A call, with the outcome of the allocation where it makes one.
pub data Call : Type 0 where
  creates : Bool → Config → Call
  destroys : ℕ → Call
  adds : Bool → ℕ → ℕ → Call
  removes : ℕ → ℕ → Call
  levels : ℕ → ℕ → Option Array → ℕ → Call
  priorities : ℕ → ℕ → Option Array → ℕ → Call
  universe_priority : ℕ → ℕ → ℕ → Call
  removes_pap : ℕ → ℕ → Call

module _ (T : SourceTree) (H : IntHandleManager) (M : MergerTree T H) where
  unfoldable pub step : Table T H M → Call → Table T H M
  step t (creates memory c) = (create_sacn_dmx_merger T H M memory c t).2
  step t (destroys i) = (destroy_sacn_dmx_merger T H M i t).1
  step t (adds memory i s) = (add_source T H M memory i s t).2
  step t (removes i s) = (remove_sacn_dmx_merger_source T H M i s t).1
  step t (levels i s a n) = (update_sacn_dmx_merger_levels T H M i s a n t).1
  step t (priorities i s a n) = (update_sacn_dmx_merger_pap T H M i s a n t).1
  step t (universe_priority i s p) = (update_sacn_dmx_merger_universe_priority T H M i s p t).1
  step t (removes_pap i s) = (remove_sacn_dmx_merger_pap T H M i s t).1

  unfoldable pub run : Table T H M → List Call → Table T H M
  unfolding step
  run t [] = t
  run t (c ∷ cs) = run (step t c) cs

  step-IsTable : (t : Table T H M) (c : Call) → IsTable T H M t → IsTable T H M (step t c)
  unfolding step
  step-IsTable t (creates memory c) h = create_sacn_dmx_merger-IsTable T H M memory c t h
  step-IsTable t (destroys i) h = destroy_sacn_dmx_merger-IsTable T H M i t h
  step-IsTable t (adds memory i s) h = add_source-IsTable T H M memory i s t h
  step-IsTable t (removes i s) h = remove_sacn_dmx_merger_source-IsTable T H M i s t h
  step-IsTable t (levels i s a n) h = update_sacn_dmx_merger_levels-IsTable T H M i s a n t h
  step-IsTable t (priorities i s a n) h = update_sacn_dmx_merger_pap-IsTable T H M i s a n t h
  step-IsTable t (universe_priority i s p) h =
      update_sacn_dmx_merger_universe_priority-IsTable T H M i s p t h
  step-IsTable t (removes_pap i s) h = remove_sacn_dmx_merger_pap-IsTable T H M i s t h

  run-IsTable : (t : Table T H M) (cs : List Call) → IsTable T H M t → IsTable T H M (run t cs)
  unfolding run
  run-IsTable t [] h = h
  run-IsTable t (c ∷ cs) h = run-IsTable (step t c) cs (step-IsTable t c h)

  -- After any history of calls since sacn_dmx_merger_init, those that fail and those for which there
  -- is no memory included, the outputs of each merger are the merge of its sources.
  pub run-init-IsTable : (cs : List Call) → IsTable T H M (run (init_table T H M) cs)
  run-init-IsTable cs = run-IsTable (init_table T H M) cs (init_table-IsTable T H M)
