-- ===== src/DmxMerger/Api/Answers.antt =====
-- What a call of the public update functions answers, by the state in which it is made.
use s_acn.Prelude.{ℕ, ◌≤◌, ◌<◌, ◌≡◌, ◌≢◌, ◌↔◌, Array, true, Option, none, arith}
use s_acn.EtcPal.{IntHandleManager, ok}
use s_acn.DmxMerger.State.{SourceTree, max_slots, source_invalid, merger_invalid}
use s_acn.DmxMerger.Table.{
  MergerTree, Table, lookup_state, on_source, update_sacn_dmx_merger_levels,
}
use s_acn.DmxMerger.Api.{Env, sacn_dmx_merger_update_levels}

module _ (T : SourceTree) (H : IntHandleManager) (M : MergerTree T H) where
  -- sacn_dmx_merger_update_levels answers ok exactly when the module is initialised, the arguments
  -- are valid, the lock is there and the source is found.
  pub sacn_dmx_merger_update_levels-answers :
      (env : Env) (merger source : ℕ) (levels : Option Array) (n : ℕ) (t : Table T H M)
      → ((sacn_dmx_merger_update_levels T H M env merger source levels n t).0 ≡ ok) ↔ (
          (env.initialized ≡ true)
          × (env.lock ≡ true)
          × (merger ≢ merger_invalid)
          × (source ≢ source_invalid)
          × (levels ≢ none)
          × (0 < n)
          × (n ≤ max_slots)
          × (lookup_state T H M t merger source ≢ none))
  unfolding sacn_dmx_merger_update_levels update_sacn_dmx_merger_levels on_source
  sacn_dmx_merger_update_levels-answers env merger source levels n t = ground arith

  -- Where sacn_dmx_merger_update_levels answers anything but ok, nothing changes.
  pub sacn_dmx_merger_update_levels-refused :
      (env : Env) (merger source : ℕ) (levels : Option Array) (n : ℕ) (t : Table T H M)
      → (sacn_dmx_merger_update_levels T H M env merger source levels n t).0 ≢ ok
      → (sacn_dmx_merger_update_levels T H M env merger source levels n t).1 ≡ t
  unfolding sacn_dmx_merger_update_levels update_sacn_dmx_merger_levels on_source
  sacn_dmx_merger_update_levels-refused env merger source levels n t h = ground arith
