-- ===== src/Detector/State.antt =====
-- The data of a source detector: of src/sacn/private/common.h the types of the sACN Source Detector
-- module.
use s_acn.Prelude.{ℕ, ◌+◌, ◌-◌, ◌%◌, ◌^◌, Array, Bool, Option}
use s_acn.EtcPal.{RbTree, IntHandleManager}
use s_acn.EtcPal.Timers.{Timers}
use s_acn.Receiver.Remote.{HandleTree, CidTree, Remotes}

-- kSacnSourceDetectorInfinite
abbrev pub infinite : ℕ
infinite = 0

abbrev pub universe_discovery_interval : ℕ
universe_discovery_interval = 10000

-- a - b on size_t, which wraps around
abbrev pub sub_size : ℕ → ℕ → ℕ
sub_size a b = (a + 2 ^ 64 - b) % 2 ^ 64

-- SacnSourceDetector, less its sockets, its thread and its callbacks; the maxima are as size_t.
pub record SourceDetector : Type 0 where
  pub suppress_source_limit_exceeded_notification : Bool
  pub source_count_max : ℕ
  pub universes_per_source_max : ℕ

-- SacnUniverseDiscoverySource
pub record DiscoverySource (Timer : Type 0) : Type 0 where
  pub handle : ℕ
  pub name : Array
  pub universes : Array
  pub num_universes : ℕ
  pub universes_dirty : Bool
  pub last_notified_universe_count : ℕ
  pub suppress_universe_limit_exceeded_notification : Bool
  pub expiration_timer : Timer
  pub next_universe_index : ℕ
  pub next_page : ℕ

-- SacnUniverseDiscoveryPage; `has_universes` says that the pointer to the universes is not null.
pub record UniverseDiscoveryPage : Type 0 where
  pub sender_cid : ℕ
  pub source_name : Array
  pub page : ℕ
  pub last_page : ℕ
  pub has_universes : Bool
  pub universes : Array
  pub num_universes : ℕ

-- SourceDetectorSourceUpdatedNotification; `none` is the null pointer.
pub record SourceUpdated : Type 0 where
  pub handle : ℕ
  pub cid : ℕ
  pub name : Array
  pub sourced_universes : Option Array
  pub num_sourced_universes : ℕ

-- What a page makes the library tell the application.
pub record PageNotices : Type 0 where
  pub source_updated : Option SourceUpdated
  pub limit_exceeded : Bool

-- SourceDetectorExpiredSource
pub record ExpiredSource : Type 0 where
  pub handle : ℕ
  pub cid : ℕ
  pub name : Array

-- The parts of EtcPal that the detector rests on.
pub record Services : Type 1 where
  pub tm : Timers
  pub handle_manager : IntHandleManager
  pub handle_tree : HandleTree
  pub cid_tree : CidTree
  pub discovered : RbTree (DiscoverySource tm.Timer) (λ s. s.handle)

module _ (S : Services) where
  abbrev pub Discovered : Type 0
  Discovered = DiscoverySource S.tm.Timer

  -- The detector with the tables of src/sacn/mem: the static variables universe_discovery_sources and
  -- those of the remote sources.
  pub record Detection : Type 0 where
    pub detector : SourceDetector
    pub remotes : Remotes S.handle_tree S.cid_tree S.handle_manager
    pub sources : S.discovered.Tree
