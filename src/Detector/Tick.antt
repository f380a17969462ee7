-- ===== src/Detector/Tick.antt =====
-- The periodic work of a detector, process_source_detector of src/sacn/source_detector_state.c; and
-- src/sacn/mem/source_detector/source_detector_expired_source.c.
pub mod Expired
use s_acn.Prelude.{
  ℕ, ◌≡◌, ◌≢◌, Bool, true, false, if◌then◌else◌, Bool-cases, Option, none, some, Option-cases, List,
  [], ◌∷◌, Member, here, there, inl, inr, refl, sym, ◌∙◌, ap, subst, arith,
}
use s_acn.EtcPal.{ok, is_ok}
use s_acn.Receiver.Remote.{Remotes, get_remote_source_cid}
use s_acn.Detector.State.{ExpiredSource, Services, Discovered, Detection}
use s_acn.Detector.Sources.{remove_sacn_universe_discovery_source}

module _ (S : Services) (now : ℕ) (room : ℕ → Bool) where
  -- add_sacn_source_detector_expired_source, in front of those of the later sources; `room` says
  -- whether there is room in the list for the source of the handle.
  unfoldable pub add_sacn_source_detector_expired_source :
      Remotes S.handle_tree S.cid_tree S.handle_manager
      → Discovered S
      → List ExpiredSource
      → List ExpiredSource
  unfolding get_remote_source_cid
  add_sacn_source_detector_expired_source remotes s rest =
      elim (get_remote_source_cid S.handle_tree S.cid_tree S.handle_manager s.handle remotes) [
        | none ↦ rest
        | some cid ↦
            if room s.handle
            then record { handle = s.handle; cid = cid; name = s.name } ∷ rest
            else rest
      ]

  -- The walk over the sources: the list of those that are expired.
  unfoldable pub collect_expired :
      Remotes S.handle_tree S.cid_tree S.handle_manager → List (Discovered S) → List ExpiredSource
  unfolding add_sacn_source_detector_expired_source
  collect_expired remotes [] = []
  collect_expired remotes (s ∷ ss) =
      let rest = collect_expired remotes ss in
      if S.tm.is_expired now s.expiration_timer
      then add_sacn_source_detector_expired_source remotes s rest
      else rest

  unfoldable pub any_expired : List (Discovered S) → Bool
  any_expired [] = false
  any_expired (s ∷ ss) = if S.tm.is_expired now s.expiration_timer then true else any_expired ss

  unfoldable pub remove_expired : List ExpiredSource → Detection S → Detection S
  unfolding remove_sacn_universe_discovery_source
  remove_expired [] w = w
  remove_expired (e ∷ es) w =
      remove_expired es (remove_sacn_universe_discovery_source S e.handle w).1

  -- The list is what source_expired is called with, one call for each.
  unfoldable pub process_source_detector : Detection S → List ExpiredSource × Detection S
  unfolding collect_expired any_expired remove_expired
  process_source_detector w =
      let sources = S.discovered.items w.sources in
      let expired = collect_expired w.remotes sources in
      let noted : Detection S =
        if any_expired sources
        then record w {
          detector = record w.detector { suppress_source_limit_exceeded_notification = false };
        }
        else w in
      (expired, remove_expired expired noted)
