-- ===== src/Detector/Page.antt =====
-- One page of a universe discovery list: process_universe_discovery_page of
-- src/sacn/source_detector_state.c.
use s_acn.Prelude.{
  ℕ, ◌+◌, ◌-◌, Bool, true, false, ◌&&◌, not, ltb, ◌==◌, if◌then◌else◌, Option, none, some,
  for_range, differs,
}
use s_acn.SourceLoss.State.{remote_source_invalid}
use s_acn.Detector.State.{
  sub_size, DiscoverySource, UniverseDiscoveryPage, SourceUpdated, PageNotices, Services,
  Discovered, Detection,
}
use s_acn.Detector.Sources.{Memory, replace_universe_discovery_universes, find_or_add_source}

-- `memcmp` reads what the buffer holds, past the universes too.
unfoldable pub page_modifies_universe_list :
    {Timer : Type 0} → DiscoverySource Timer → UniverseDiscoveryPage → Bool
page_modifies_universe_list source page =
    let remaining = sub_size source.num_universes source.next_universe_index in
    if not page.has_universes && not (page.num_universes == 0)
    then false
    else if ltb remaining page.num_universes
    then true
    else if page.page == page.last_page && ltb page.num_universes remaining
    then true
    else ltb 0 page.num_universes
      && differs (λ i. source.universes (source.next_universe_index + i)) page.universes
          page.num_universes

unfoldable pub restart : {Timer : Type 0} → DiscoverySource Timer → DiscoverySource Timer
restart s = record s { next_universe_index = 0; next_page = 0 }

-- A page that changes the list, and whether the application is told of the limit.
unfoldable pub append_page :
    {Timer : Type 0}
    → (ℕ → Bool)
    → ℕ
    → DiscoverySource Timer
    → UniverseDiscoveryPage
    → Bool × DiscoverySource Timer
unfolding replace_universe_discovery_universes
append_page room limit s page =
    let dirty = record s { universes_dirty = true } in
    let (fits, replaced) =
      replace_universe_discovery_universes room dirty s.next_universe_index page.universes
        page.num_universes limit in
    let partial =
      (replace_universe_discovery_universes room replaced s.next_universe_index page.universes fits
        limit).1 in
    if ltb fits page.num_universes
    then (
      not s.suppress_universe_limit_exceeded_notification,
      record (if ltb 0 fits then partial else replaced) {
        suppress_universe_limit_exceeded_notification = true;
      },
    )
    else (false, replaced)

-- The page is appended where it changes the list.
unfoldable pub receive_page :
    {Timer : Type 0}
    → (ℕ → Bool)
    → ℕ
    → DiscoverySource Timer
    → UniverseDiscoveryPage
    → Bool × DiscoverySource Timer
unfolding page_modifies_universe_list append_page
receive_page room limit s page =
    if page_modifies_universe_list s page then append_page room limit s page else (false, s)

-- The loop that verifies that the list is in ascending order.
unfoldable pub stays_dirty : {Timer : Type 0} → DiscoverySource Timer → Bool
unfolding for_range
stays_dirty s =
    for_range 1 s.num_universes
      (λ i dirty. if dirty then ltb (s.universes (i - 1)) (s.universes i) else dirty)
      s.universes_dirty

-- What the application is told of a new list; `copy` is the outcome of the allocation of its copy.
unfoldable pub updated_list :
    {Timer : Type 0} → Bool → DiscoverySource Timer → UniverseDiscoveryPage → SourceUpdated
updated_list copy s page = record {
  handle = remote_source_invalid;
  cid = page.sender_cid;
  name = page.source_name;
  sourced_universes = if not (s.num_universes == 0) && copy then some s.universes else none;
  num_sourced_universes = s.num_universes;
}

-- The work after the last page.
unfoldable pub finish_list :
    {Timer : Type 0}
    → Bool
    → DiscoverySource Timer
    → UniverseDiscoveryPage
    → Option SourceUpdated × DiscoverySource Timer
unfolding restart stays_dirty updated_list
finish_list copy s page =
    let ended = record (restart s) { universes_dirty = stays_dirty s } in
    if stays_dirty s
    then (
      some (updated_list copy s page),
      record ended {
        suppress_universe_limit_exceeded_notification =
            if ltb s.num_universes s.last_notified_universe_count
            then false
            else s.suppress_universe_limit_exceeded_notification;
        universes_dirty = false;
        last_notified_universe_count = s.num_universes;
      },
    )
    else (none, ended)

-- A page that begins or continues a sequence of consecutive pages.
unfoldable pub continue_list :
    {Timer : Type 0}
    → (ℕ → Bool)
    → Bool
    → ℕ
    → DiscoverySource Timer
    → UniverseDiscoveryPage
    → PageNotices × DiscoverySource Timer
unfolding restart receive_page finish_list
continue_list room copy limit s page =
    let begun = if page.page == 0 then restart s else s in
    let (limited, changed) = receive_page room limit begun page in
    let (updated, finished) = finish_list copy changed page in
    if ltb page.page page.last_page
    then (
      record { source_updated = none; limit_exceeded = limited },
      record changed {
        next_universe_index = changed.next_universe_index + page.num_universes;
        next_page = changed.next_page + 1;
      },
    )
    else (record { source_updated = updated; limit_exceeded = limited }, finished)

abbrev pub quiet : PageNotices
quiet = record { source_updated = none; limit_exceeded = false }

module _ (S : Services) (now : ℕ) where
  -- A page of a source that the detector has.
  unfoldable pub take_page :
      (ℕ → Bool) → Bool → ℕ → Discovered S → UniverseDiscoveryPage → PageNotices × Discovered S
  unfolding restart continue_list
  take_page room copy limit source page =
      let s : Discovered S = record source {
        expiration_timer = S.tm.reset now source.expiration_timer;
      } in
      if not (page.page == 0) && not (page.page == source.next_page)
      then (quiet, restart s)
      else continue_list room copy limit s page

  unfoldable pub process_universe_discovery_page :
      Memory → (ℕ → Bool) → Bool → Detection S → UniverseDiscoveryPage → PageNotices × Detection S
  unfolding find_or_add_source take_page
  process_universe_discovery_page memory room copy w page =
      let (e, found, w', limited) = find_or_add_source S now memory w page in
      elim found [
        | none ↦ (record { source_updated = none; limit_exceeded = limited }, w')
        | some source ↦
            let (notices, s) =
              take_page room copy w.detector.universes_per_source_max source page in
            (notices, record w' { sources = S.discovered.store s w'.sources })
      ]
