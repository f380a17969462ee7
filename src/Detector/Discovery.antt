-- ===== src/Detector/Discovery.antt =====
-- handle_sacn_universe_discovery_packet of src/sacn/source_detector_state.c, on the universe discovery
-- layer of a packet.
use s_acn.Prelude.{ℕ, Array, Bool, ◌&&◌, not, ◌==◌, if◌then◌else◌, none, some}
use s_acn.Pdu.Wire.{Wire, from}
use s_acn.Pdu.Parse.{DiscoveryPage, parse_sacn_universe_discovery_layer, parse_sacn_universe_list}
use s_acn.Detector.State.{UniverseDiscoveryPage, PageNotices, Services, Detection}
use s_acn.Detector.Sources.{Memory}
use s_acn.Detector.Page.{quiet, process_universe_discovery_page}

module _ (S : Services) (now : ℕ) (W : Wire) where
  -- The page that the layer holds; its list of universes starts where the parser says. `allocated` is
  -- the outcome of the allocation of the list, without which nothing is unpacked.
  unfoldable pub read_page : Bool → Array → ℕ → Array → DiscoveryPage → UniverseDiscoveryPage
  unfolding parse_sacn_universe_list
  read_page allocated payload sender_cid source_name p = record {
    sender_cid = sender_cid;
    source_name = source_name;
    page = p.page;
    last_page = p.last_page;
    has_universes = not (p.num_universes == 0) && allocated;
    universes = elim p.universes [
      | none ↦ λ _. 0
      | some at ↦
          if allocated
          then parse_sacn_universe_list W (from payload at) p.num_universes (λ _. 0)
          else λ _. 0
    ];
    num_universes = p.num_universes;
  }

  unfoldable pub handle_sacn_universe_discovery_packet :
      Memory
      → (ℕ → Bool)
      → Bool
      → Bool
      → Detection S
      → Array
      → ℕ
      → ℕ
      → Array
      → DiscoveryPage
      → PageNotices × Detection S
  unfolding read_page parse_sacn_universe_discovery_layer process_universe_discovery_page
  handle_sacn_universe_discovery_packet memory room copy allocated w payload length sender_cid
        source_name empty =
      let (parsed, p) = parse_sacn_universe_discovery_layer W payload length empty in
      if parsed
      then process_universe_discovery_page S now memory room copy w
          (read_page allocated payload sender_cid source_name p)
      else (quiet, w)
