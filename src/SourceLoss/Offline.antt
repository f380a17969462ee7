-- ===== src/SourceLoss/Offline.antt =====
-- mark_sources_offline of src/sacn/source_loss.c.
use s_acn.Prelude.{ℕ, Bool, true, false, List, [], ◌∷◌, ◌++◌, none, some, if◌then◌else◌}
use s_acn.EtcPal.{EtcPalError, ok, no_mem, is_ok}
use s_acn.SourceLoss.State.{
  SourceTree, KeyTree, RemoteSource, OfflineSource, TermSetSource, Loss, find_existing_ts_src,
  insert_new_ts_src,
}

-- Which allocations of a call succeed: of a set for an offline source, and of a source, by its handle.
pub record Memory : Type 0 where
  pub term_set : ℕ → Bool
  pub term_set_source : ℕ → Bool

module _ (G : SourceTree) (S : KeyTree) (Timer : Type 0) (start : ℕ → Timer) (memory : Memory)
    (universe : ℕ) where
  -- The other sources of the universe, into the new set.
  unfoldable pub add_unknown : List RemoteSource → S.Tree → G.Tree → EtcPalError × S.Tree × G.Tree
  add_unknown [] sources all = (ok, sources, all)
  add_unknown (u ∷ us) sources all =
      let s : TermSetSource = record {
        handle = u.handle;
        universe = universe;
        name = u.name;
        offline = false;
        terminated = false;
      } in
      let (e, sources', all') = insert_new_ts_src G S Timer s sources all in
      let skipped = add_unknown us sources all in
      let added = add_unknown us sources' all' in
      elim (find_existing_ts_src G S Timer universe u.handle all) [
        | some _ ↦ skipped
        | none ↦
            if memory.term_set_source u.handle
            then (if is_ok e then added else (e, sources', all'))
            else (no_mem, sources, all)
      ]

  -- A new set for an offline source that no set has.
  unfoldable pub create_term_set :
      OfflineSource → List RemoteSource → ℕ → Loss G S Timer → EtcPalError × Loss G S Timer
  unfolding add_unknown
  create_term_set o unknown expired_wait l =
      let s : TermSetSource = record {
        handle = o.handle;
        universe = universe;
        name = o.name;
        offline = true;
        terminated = o.terminated;
      } in
      let (e, sources, all) = insert_new_ts_src G S Timer s S.init l.all in
      let (f, sources', all') = add_unknown unknown sources all in
      if memory.term_set o.handle
      then (if memory.term_set_source o.handle
          then (if is_ok e
              then (
                f,
                record {
                  all = all';
                  sets =
                      l.sets
                      ++ (record { wait_period = start expired_wait; sources = sources' } ∷ []);
                },
              )
              else (e, record l { all = all }))
          else (no_mem, l))
      else (no_mem, l)

  unfoldable pub mark_offline :
      OfflineSource
      → List RemoteSource
      → ℕ
      → EtcPalError × Loss G S Timer
      → EtcPalError × Loss G S Timer
  unfolding create_term_set
  mark_offline o unknown expired_wait (res, l) =
      elim (find_existing_ts_src G S Timer universe o.handle l.all) [
        | some s ↦ if s.offline then (res, l) else (
          res,
          record l { all = G.store (record s { offline = true; terminated = o.terminated }) l.all },
        )
        | none ↦ if is_ok res then create_term_set o unknown expired_wait l else (res, l)
      ]

  unfoldable pub mark_each :
      List OfflineSource
      → List RemoteSource
      → ℕ
      → EtcPalError × Loss G S Timer
      → EtcPalError × Loss G S Timer
  unfolding mark_offline
  mark_each [] unknown expired_wait r = r
  mark_each (o ∷ os) unknown expired_wait r =
      mark_each os unknown expired_wait (mark_offline o unknown expired_wait r)

  unfoldable pub mark_sources_offline :
      List OfflineSource → List RemoteSource → ℕ → Loss G S Timer → EtcPalError × Loss G S Timer
  unfolding mark_each
  mark_sources_offline offline unknown expired_wait l =
      mark_each offline unknown expired_wait (ok, l)
