-- ===== src/SourceLoss/Online.antt =====
-- mark_sources_online of src/sacn/source_loss.c.
use s_acn.Prelude.{ℕ, List, [], ◌∷◌, ◌==◌, if◌then◌else◌}
use s_acn.EtcPal.{is_ok}
use s_acn.SourceLoss.State.{
  SourceTree, KeyTree, RemoteSource, source_key, TerminationSet, Loss, forget,
}

module _ (G : SourceTree) (S : KeyTree) (Timer : Type 0) where
  -- One source, in the sets of a list, of which those that become empty go.
  unfoldable pub mark_online : ℕ → List (TerminationSet G S Timer) → G.Tree → Loss G S Timer
  mark_online k [] all = record { all = all; sets = [] }
  mark_online k (set ∷ sets) all =
      let (e, sources) = S.remove k set.sources in
      let all' = if is_ok e then (G.remove k all).1 else all in
      let empty = forget G S Timer (S.items sources) all' in
      let dropped = mark_online k sets empty in
      let rest = mark_online k sets all' in
      if S.size sources == 0
      then dropped
      else record rest { sets = record set { sources = sources } ∷ rest.sets }

  unfoldable pub mark_sources_online : ℕ → List RemoteSource → Loss G S Timer → Loss G S Timer
  unfolding mark_online
  mark_sources_online universe [] l = l
  mark_sources_online universe (s ∷ ss) l =
      mark_sources_online universe ss (mark_online (source_key s.handle universe) l.sets l.all)
