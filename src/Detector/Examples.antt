-- ===== src/Detector/Examples.antt =====
-- The theorems on detectors for a detector of two sources with three universes each, which knows the
-- source 3, of the CID 5.
use s_acn.Prelude.{
  ℕ, ◌≡◌, ◌<◌, ◌⊎◌, inl, inr, refl, ap, Array, true, false, Bool, ◌+◌, Option, none, some,
  Option-cases, [], ◌∷◌, Member, Member_uncons, here, rounds, arith,
}
use s_acn.EtcPal.ListTree.{list_tree}
use s_acn.EtcPal.LeastHandle.{least_manager}
use s_acn.EtcPal.Clock.{clock}
use s_acn.Pdu.BigEndian.{zeros}
use s_acn.Receiver.Remote
use s_acn.Detector.State.{
  DiscoverySource, UniverseDiscoveryPage, SourceUpdated, Services, Discovered, Detection,
}
use s_acn.Detector.Sources.{Memory}
use s_acn.Detector.Page.{process_universe_discovery_page}
use s_acn.Detector.Pages.{page_of, receive_pages}
use s_acn.Detector.Pages.Ascending.{IsAscending}
use s_acn.Detector.Pages.Listed.{IsTold, receive_pages-recorded, receive_pages-notified}
use s_acn.Detector.Pages.Repeated.{receive_pages-repeated}
use s_acn.Detector.Limits.{IsWithinLimits, process_universe_discovery_page-IsAscending}
use s_acn.Detector.Limits.Kept.{process_universe_discovery_page-IsWithinLimits}
use s_acn.Detector.Tick.{process_source_detector}
use s_acn.Detector.Tick.Expired.{process_source_detector-expired}

abbrev services : Services
services = record {
  tm = clock;
  handle_manager = least_manager;
  handle_tree = list_tree (λ (r : Remote.RemoteHandle). r.cid);
  cid_tree = list_tree (λ (r : Remote.RemoteCid). r.handle);
  discovered = list_tree (λ (s : DiscoverySource clock.Timer). s.handle);
}

-- The universes 1, 2 and so on.
abbrev universes : Array
universes = λ i. i + 1

abbrev source : Discovered services
source = record {
  handle = 3;
  name = zeros;
  universes = universes;
  num_universes = 3;
  universes_dirty = false;
  last_notified_universe_count = 3;
  suppress_universe_limit_exceeded_notification = false;
  expiration_timer = (0, 20000);
  next_universe_index = 2;
  next_page = 1;
}

abbrev detection : Detection services
detection = record {
  detector = record {
    suppress_source_limit_exceeded_notification = false;
    source_count_max = 2;
    universes_per_source_max = 3;
  };
  remotes = record {
    handles =
        (services.handle_tree.insert (record { cid = 5; handle = 3 }) services.handle_tree.init).1;
    cids =
        (services.cid_tree.insert (record { handle = 3; cid = 5; refcount = 1 })
          services.cid_tree.init).1;
    manager = least_manager.init_manager 0xfffe;
  };
  sources = (services.discovered.insert source services.discovered.init).1;
}

abbrev always : ℕ → Bool
always = λ _. true

abbrev times : ℕ → ℕ
times = λ k. 100 + k

-- Two pages, of two universes and of one.
receive_pages-recorded_example :
    (let s' =
        (receive_pages services always true times 5 zeros universes 0 0 2 (1 ∷ []) source).1 in
      (s'.num_universes ≡ 3)
      × ((i : ℕ) → i < 3 → s'.universes i ≡ i + 1)
      × (s'.next_page ≡ 0)
      × (s'.next_universe_index ≡ 0)
      × (s'.universes_dirty ≡ false))
receive_pages-recorded_example =
    receive_pages-recorded services always true times 5 zeros universes 2 (1 ∷ []) source
      (λ m le. refl) (omega arith) (omega arith)

universes-IsAscending : IsAscending universes 3
universes-IsAscending = λ i lt. omega arith

receive_pages-notified_example :
    (let r = receive_pages services always true times 5 zeros universes 0 0 2 (1 ∷ []) source in
      ((u : SourceUpdated) × (r.0.source_updated ≡ some u)
        × IsTold services always true times 5 zeros universes u 3)
      ⊎ ((r.0.source_updated ≡ none)
          × (source.universes_dirty ≡ false)
          × (source.num_universes ≡ 3)
          × ((i : ℕ) → i < 3 → source.universes i ≡ i + 1)))
receive_pages-notified_example =
    receive_pages-notified services always true times 5 zeros universes 2 (1 ∷ []) source
      (λ m le. refl) (omega arith) (omega arith) universes-IsAscending

receive_pages-repeated_example :
    (receive_pages services always true times 5 zeros universes 0 0 2
      (1 ∷ [])
      source).0.source_updated
    ≡ none
receive_pages-repeated_example =
    receive_pages-repeated services always true times 5 zeros universes 2 (1 ∷ []) source
      (omega arith) refl refl (λ i lt. refl)

abbrev memory : Memory
memory = record {
  source = true;
  universes = true;
  remote = record { new_handle = true; new_cid = true; junk = 0 };
}

-- A page that ends a list of two universes.
abbrev page : UniverseDiscoveryPage
page = page_of 5 zeros universes 0 0 0 2

abbrev outcome : Option SourceUpdated
outcome =
    (process_universe_discovery_page services 100 memory always true detection
      page).0.source_updated

update_in : Option SourceUpdated → SourceUpdated
update_in none = record {
  handle = 0;
  cid = 0;
  name = zeros;
  sourced_universes = none;
  num_sourced_universes = 0;
}
update_in (some u) = u

list_in : Option Array → Array
list_in none = zeros
list_in (some us) = us

outcome-some : outcome ≡ some (update_in outcome)
unfolding update_in process_universe_discovery_page list_tree Option-cases rounds
outcome-some = refl

outcome-list :
    (update_in outcome).sourced_universes ≡ some (list_in (update_in outcome).sourced_universes)
unfolding update_in list_in process_universe_discovery_page list_tree Option-cases rounds
outcome-list = refl

process_universe_discovery_page-IsAscending_example :
    IsAscending
      (list_in (update_in outcome).sourced_universes)
      (update_in outcome).num_sourced_universes
process_universe_discovery_page-IsAscending_example =
    process_universe_discovery_page-IsAscending services 100 memory always true detection page
      (update_in outcome) (list_in (update_in outcome).sourced_universes) outcome-some outcome-list

detection-IsWithinLimits : IsWithinLimits services 100 detection
unfolding list_tree Option-cases
detection-IsWithinLimits = (
  inr (omega arith),
  λ s m. elim (Member_uncons m) [
    | inl p ↦ inr (let q = ap (λ (x : Discovered services). x.num_universes) p in omega arith)
    | inr n ↦ elim n [ ]
  ],
)

process_universe_discovery_page-IsWithinLimits_example :
    IsWithinLimits services 100
      (process_universe_discovery_page services 100 memory always true detection page).1
process_universe_discovery_page-IsWithinLimits_example =
    process_universe_discovery_page-IsWithinLimits services 100 memory always true detection page
      detection-IsWithinLimits

source-found : Member source (services.discovered.items detection.sources)
unfolding list_tree Option-cases
source-found = here refl

process_source_detector-expired_example :
    (let r = process_source_detector services 30000 always detection in
      (clock.is_expired 30000 (0, 20000) ≡ false
        → Member source (services.discovered.items r.1.sources))
      × ((cid : ℕ)
          → clock.is_expired 30000 (0, 20000) ≡ true
          → true ≡ true
          → Remote.get_remote_source_cid services.handle_tree services.cid_tree
              services.handle_manager 3 detection.remotes
            ≡ some cid
          → Member (record { handle = 3; cid = cid; name = zeros }) r.0
            × ¬ Member source (services.discovered.items r.1.sources)))
process_source_detector-expired_example =
    process_source_detector-expired services 30000 always detection source source-found
