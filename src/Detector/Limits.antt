-- ===== src/Detector/Limits.antt =====
-- The limits of a detector, on its sources and on the universes of each; and the order of a list that
-- is told to the application.
mod Added
pub mod Kept
use s_acn.Prelude.{
  ℕ, zero, suc, ◌+◌, ◌-◌, ◌≡◌, ◌≢◌, ◌<◌, ◌≤◌, ◌⊎◌, inl, inr, refl, sym, ◌∙◌, ap, subst, Array, Bool,
  true, false, Bool-cases, ◌==◌, not, ltb, leb, ◌&&◌, if◌then◌else◌, Option, none, some,
  Option-cases, Member, List, arith,
}
use s_acn.EtcPal.{EtcPalError, ok, is_ok}
use s_acn.SourceLoss.Confirmed.{is_ok-true}
use s_acn.SourceLoss.State.{remote_source_invalid}
use s_acn.Receiver.Remote.{add_remote_source_handle, get_remote_source_handle}
use s_acn.Detector.State.{
  sub_size, DiscoverySource, UniverseDiscoveryPage, SourceUpdated, Services, Discovered, Detection,
}
use s_acn.Detector.Sources.{
  Memory, replace_universe_discovery_universes, find_source, add_discovered, new_discovered,
  add_sacn_universe_discovery_source, is_full, find_or_add_source,
}
use s_acn.Detector.Page.{
  append_page, receive_page, restart, stays_dirty, finish_list, updated_list, continue_list,
  take_page, process_universe_discovery_page,
}
use s_acn.Detector.Pages.Ascending.{IsAscending, stays_dirty-IsAscending}

module _ {Timer : Type 0} where
  -- There is no limit, or the source has no more universes than it.
  abbrev pub IsShort : ℕ → DiscoverySource Timer → Type 0
  IsShort limit s = (limit ≡ 0) ⊎ (s.num_universes ≤ limit)

  replace-IsShort :
      (room : ℕ → Bool) (s : DiscoverySource Timer) (start : ℕ) (us : Array) (n limit : ℕ)
      → IsShort limit s
      → IsShort limit (replace_universe_discovery_universes room s start us n limit).1
  unfolding replace_universe_discovery_universes
  replace-IsShort room s start us n limit h = ground arith

  append-IsShort :
      (room : ℕ → Bool) (limit : ℕ) (s : DiscoverySource Timer) (page : UniverseDiscoveryPage)
      → IsShort limit s
      → IsShort limit (append_page room limit s page).1
  unfolding append_page
  append-IsShort room limit s page h =
      let dirty = record s { universes_dirty = true } in
      let r =
        replace_universe_discovery_universes room dirty s.next_universe_index page.universes
          page.num_universes limit in
      let once =
        replace-IsShort room dirty s.next_universe_index page.universes page.num_universes limit
          h in
      let twice = replace-IsShort room r.1 s.next_universe_index page.universes r.0 limit once in
      ground arith

  receive-IsShort :
      (room : ℕ → Bool) (limit : ℕ) (s : DiscoverySource Timer) (page : UniverseDiscoveryPage)
      → IsShort limit s
      → IsShort limit (receive_page room limit s page).1
  unfolding receive_page
  receive-IsShort room limit s page h =
      let appended = append-IsShort room limit s page h in ground arith

  continue-IsShort :
      (room : ℕ → Bool) (copy : Bool) (limit : ℕ) (s : DiscoverySource Timer)
      (page : UniverseDiscoveryPage)
      → IsShort limit s
      → IsShort limit (continue_list room copy limit s page).1
  unfolding continue_list restart finish_list
  continue-IsShort room copy limit s page h =
      let begun = if page.page == 0 then restart s else s in
      let received = receive-IsShort room limit begun page (ground arith) in ground arith

  finish-IsAscending :
      (copy : Bool) (s : DiscoverySource Timer) (page : UniverseDiscoveryPage) (u : SourceUpdated)
      (us : Array)
      → (finish_list copy s page).0 ≡ some u
      → u.sourced_universes ≡ some us
      → IsAscending us u.num_sourced_universes
  unfolding finish_list updated_list
  finish-IsAscending copy s page u us h g = elim (Bool-cases (stays_dirty s)) [
    | inr e ↦ absurd (ground arith)
    | inl e ↦
        let (_, up) = (stays_dirty-IsAscending s).0 e in
        let number : u.num_sourced_universes ≡ s.num_universes = ground arith in
        let listed : us ≡ s.universes = ground arith in
        λ i lt.
          let a = up i (omega arith) in
          let b = ap (λ (f : Array). f i) listed in
          let c = ap (λ (f : Array). f (i + 1)) listed in omega arith
  ]

module _ (S : Services) (now : ℕ) where
  pub take_page-IsShort :
      (room : ℕ → Bool) (copy : Bool) (limit : ℕ) (s : Discovered S) (page : UniverseDiscoveryPage)
      → IsShort limit s
      → IsShort limit (take_page S now room copy limit s page).1
  unfolding take_page restart
  take_page-IsShort room copy limit s page h =
      let reset : Discovered S = record s {
        expiration_timer = S.tm.reset now s.expiration_timer;
      } in
      let continued = continue-IsShort room copy limit reset page h in ground arith

  take_page-IsAscending :
      (room : ℕ → Bool) (copy : Bool) (limit : ℕ) (s : Discovered S) (page : UniverseDiscoveryPage)
      (u : SourceUpdated) (us : Array)
      → (take_page S now room copy limit s page).0.source_updated ≡ some u
      → u.sourced_universes ≡ some us
      → IsAscending us u.num_sourced_universes
  unfolding take_page continue_list
  take_page-IsAscending room copy limit s page u us h g =
      let reset : Discovered S = record s {
        expiration_timer = S.tm.reset now s.expiration_timer;
      } in
      let begun = if page.page == 0 then restart reset else reset in
      finish-IsAscending copy (receive_page room limit begun page).1 page u us (ground arith) g

  -- Every list of universes that process_universe_discovery_page passes on to the application is in
  -- strictly ascending order, whatever pages came in whichever order.
  pub process_universe_discovery_page-IsAscending :
      (memory : Memory) (room : ℕ → Bool) (copy : Bool) (w : Detection S)
      (page : UniverseDiscoveryPage) (u : SourceUpdated) (us : Array)
      → (process_universe_discovery_page S now memory room copy w page).0.source_updated ≡ some u
      → u.sourced_universes ≡ some us
      → IsAscending us u.num_sourced_universes
  unfolding process_universe_discovery_page
  process_universe_discovery_page-IsAscending memory room copy w page u us h g =
      elim (Option-cases (find_or_add_source S now memory w page).1) [
        | inl e ↦ absurd (ground arith)
        | inr (s, e) ↦
            take_page-IsAscending room copy w.detector.universes_per_source_max s page u us
              (ground arith) g
      ]

  -- No more sources than their maximum, and no source with more universes than theirs.
  abbrev pub IsWithinLimits : Detection S → Type 0
  IsWithinLimits w =
      ((w.detector.source_count_max ≡ 0)
        ⊎ (S.discovered.size w.sources ≤ w.detector.source_count_max))
      × ((s : Discovered S)
          → Member s (S.discovered.items w.sources)
          → IsShort w.detector.universes_per_source_max s)
