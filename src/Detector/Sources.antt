-- ===== src/Detector/Sources.antt =====
-- src/sacn/mem/source_detector/universe_discovery_source.c: the sources that a detector has found; and
-- find_or_add_source of src/sacn/source_detector_state.c.
use s_acn.Prelude.{
  ℕ, ◌+◌, ◌-◌, Array, Bool, true, false, ◌&&◌, not, ltb, leb, ◌==◌, if◌then◌else◌, Option, none,
  some,
}
use s_acn.EtcPal.{EtcPalError, ok, no_mem, exists, sys, is_ok}
use s_acn.SourceLoss.State.{remote_source_invalid}
use s_acn.Receiver.Remote
use s_acn.Detector.State.{
  infinite, universe_discovery_interval, sub_size, DiscoverySource, UniverseDiscoveryPage, Services,
  Discovered, Detection,
}

-- The outcomes of the allocations: of a source, of its universes, and those of
-- add_remote_source_handle.
pub record Memory : Type 0 where
  pub source : Bool
  pub universes : Bool
  pub remote : Remote.Memory

-- memcpy(&a[start], src, n)
abbrev pub place : Array → ℕ → Array → ℕ → Array
place a start src n = λ i. if leb start i && ltb i (start + n) then src (i - start) else a i

-- `room n` says that the buffer of the source holds n universes, or can be made to.
unfoldable pub replace_universe_discovery_universes :
    {Timer : Type 0}
    → (ℕ → Bool)
    → DiscoverySource Timer
    → ℕ
    → Array
    → ℕ
    → ℕ
    → ℕ × DiscoverySource Timer
replace_universe_discovery_universes room source start replacement n limit =
    if not (limit == infinite) && ltb limit (start + n)
    then (sub_size limit start, source)
    else if not (room (start + n))
    then (0, source)
    else (
      n,
      record source {
        universes = place source.universes start replacement n;
        num_universes = start + n;
      },
    )

abbrev pub is_no_mem : EtcPalError → Bool
is_no_mem no_mem = true
is_no_mem _ = false

module _ (S : Services) where
  unfoldable pub new_discovered : ℕ → ℕ → Array → Discovered S
  new_discovered now handle name = record {
    handle = handle;
    name = name;
    universes = λ _. 0;
    num_universes = 0;
    universes_dirty = true;
    last_notified_universe_count = 0;
    suppress_universe_limit_exceeded_notification = false;
    expiration_timer = S.tm.start now (universe_discovery_interval + universe_discovery_interval);
    next_universe_index = 0;
    next_page = 0;
  }

  -- etcpal_rbtree_find by the handle of a CID
  unfoldable pub find_source : ℕ → Detection S → Option (Discovered S)
  unfolding Remote.get_remote_source_handle
  find_source cid w =
      let handle =
        Remote.get_remote_source_handle S.handle_tree S.cid_tree S.handle_manager cid w.remotes in
      if handle == remote_source_invalid then none else S.discovered.find handle w.sources

  -- add_sacn_universe_discovery_source for a CID that has no source yet.
  unfoldable pub add_discovered :
      ℕ → Memory → Detection S → ℕ → Array → EtcPalError × Option (Discovered S) × Detection S
  unfolding new_discovered Remote.add_remote_source_handle Remote.remove_remote_source_handle
  add_discovered now memory w cid name =
      let (e, handle, remotes) =
        Remote.add_remote_source_handle S.handle_tree S.cid_tree S.handle_manager memory.remote cid
          w.remotes in
      elim handle [
        | none ↦ (e, none, record w { remotes = remotes })
        | some h ↦
            let back : Detection S = record w {
              remotes =
                  (Remote.remove_remote_source_handle S.handle_tree S.cid_tree S.handle_manager h
                    remotes).1;
            } in
            let s = new_discovered now h name in
            let (f, sources) = S.discovered.insert s w.sources in
            if not (is_ok e)
            then (e, none, back)
            else if not (memory.source && memory.universes)
            then (no_mem, none, back)
            else if is_ok f
            then (ok, some s, record w { remotes = remotes; sources = sources })
            else (f, none, record back { sources = sources })
      ]

  unfoldable pub add_sacn_universe_discovery_source :
      ℕ → Memory → Detection S → ℕ → Array → EtcPalError × Option (Discovered S) × Detection S
  unfolding find_source add_discovered
  add_sacn_universe_discovery_source now memory w cid name = elim (find_source cid w) [
    | none ↦ add_discovered now memory w cid name
    | some _ ↦ (exists, none, w)
  ]

  unfoldable pub remove_sacn_universe_discovery_source : ℕ → Detection S → EtcPalError × Detection S
  unfolding Remote.remove_remote_source_handle
  remove_sacn_universe_discovery_source handle w =
      let (e, sources) = S.discovered.remove handle w.sources in
      let remotes =
        (Remote.remove_remote_source_handle S.handle_tree S.cid_tree S.handle_manager handle
          w.remotes).1 in
      if handle == remote_source_invalid
      then (sys, w)
      else if is_ok e
      then (ok, record w { sources = sources; remotes = remotes })
      else (e, record w { sources = sources })

  unfoldable pub is_full : Detection S → Bool
  is_full w =
      not (w.detector.source_count_max == infinite)
      && leb w.detector.source_count_max (S.discovered.size w.sources)

  -- A source is added where the detector has room for one more.
  unfoldable pub add_within_limit :
      ℕ
      → Memory
      → Detection S
      → UniverseDiscoveryPage
      → EtcPalError × Option (Discovered S) × Detection S
  unfolding add_sacn_universe_discovery_source is_full
  add_within_limit now memory w page =
      if is_full w
      then (no_mem, none, w)
      else add_sacn_universe_discovery_source now memory w page.sender_cid page.source_name

  -- The limit is noted once; the last component says that the application is told of it.
  unfoldable pub note_limit :
      Detection S
      → EtcPalError × Option (Discovered S) × Detection S
      → EtcPalError × Option (Discovered S) × Detection S × Bool
  note_limit w (e, s, w') =
      let limited = is_no_mem e && not w.detector.suppress_source_limit_exceeded_notification in
      let noted : Detection S = record w' {
        detector = record w.detector { suppress_source_limit_exceeded_notification = true };
      } in
      (e, s, (if limited then noted else w'), limited)

  unfoldable pub find_or_add_source :
      ℕ
      → Memory
      → Detection S
      → UniverseDiscoveryPage
      → EtcPalError × Option (Discovered S) × Detection S × Bool
  unfolding find_source add_within_limit note_limit
  find_or_add_source now memory w page = elim (find_source page.sender_cid w) [
    | some s ↦ (ok, some s, w, false)
    | none ↦ note_limit w (add_within_limit now memory w page)
  ]
