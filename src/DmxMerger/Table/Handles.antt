-- ===== src/DmxMerger/Table/Handles.antt =====
-- No operation on a merger changes its handle.
use s_acn.Prelude.{ℕ, ◌≡◌, Array, Bool, arith}
use s_acn.EtcPal.{IntHandleManager}
use s_acn.DmxMerger.State.{SourceTree, SourceState, MergerState}
use s_acn.DmxMerger.Update.{
  put_source, put_config, merge_new_priorities, update_levels_single_source,
  update_levels_multi_source, update_levels, update_pap_single_source, update_pap_multi_source,
  update_pap,
}
use s_acn.DmxMerger.Priority.{
  recalculate_pap_active, recalculate_universe_priority, update_universe_priority_single_source,
  update_universe_priority_multi_source, update_universe_priority_output, update_universe_priority,
  remove_pap, retire_pap, retire_universe_priority, remove_source,
}

module _ (T : SourceTree) (H : IntHandleManager) where
  pub handle-update_levels :
      (m : MergerState T H) (s : SourceState) (a : Array) (n : ℕ)
      → (update_levels T H m s a n).handle ≡ m.handle
  unfolding update_levels update_levels_single_source update_levels_multi_source
      merge_new_priorities put_source put_config
  handle-update_levels m s a n = ground arith

  pub handle-update_pap :
      (m : MergerState T H) (s : SourceState) (a : Array) (n : ℕ)
      → (update_pap T H m s a n).handle ≡ m.handle
  unfolding update_pap update_pap_single_source update_pap_multi_source merge_new_priorities
      put_source put_config
  handle-update_pap m s a n = ground arith

  handle-output :
      (m : MergerState T H) (p : ℕ) (a b : Bool)
      → (update_universe_priority_output T H m p a b).handle ≡ m.handle
  unfolding update_universe_priority_output recalculate_universe_priority put_config
  handle-output m p a b = ground arith

  pub handle-update_universe_priority :
      (m : MergerState T H) (s : SourceState) (p : ℕ)
      → (update_universe_priority T H m s p).handle ≡ m.handle
  unfolding update_universe_priority update_universe_priority_single_source
      update_universe_priority_multi_source update_universe_priority_output
      recalculate_universe_priority merge_new_priorities put_source put_config
  handle-update_universe_priority m s p = ground arith

  pub handle-remove_pap :
      (m : MergerState T H) (s : SourceState) → (remove_pap T H m s).handle ≡ m.handle
  unfolding remove_pap recalculate_pap_active merge_new_priorities put_source put_config
  handle-remove_pap m s = ground arith

  pub handle-remove_source :
      (m : MergerState T H) (s : SourceState) → (remove_source T H m s).1.handle ≡ m.handle
  unfolding remove_source retire_pap retire_universe_priority recalculate_pap_active
      recalculate_universe_priority merge_new_priorities put_source put_config
  handle-remove_source m s = ground arith
