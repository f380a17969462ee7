-- ===== src/Receiver/State.antt =====
-- The data of a receiver: of src/sacn/private/common.h the types of the sACN Receive module.
use s_acn.Prelude.{ℕ, Array, Bool, Option, List, ◌*◌, ◌+◌}
use s_acn.EtcPal.{RbTree, IntHandleManager}
use s_acn.EtcPal.Timers.{Timers}
use s_acn.Pdu.Parse.{UniverseData, RemoteSource}
use s_acn.SourceLoss.State.{SourceTree, KeyTree, TerminationSet}
use s_acn.Receiver.Remote.{HandleTree, CidTree, Remotes}

abbrev pub source_loss_timeout : ℕ
source_loss_timeout = 2500

abbrev pub wait_for_priority : ℕ
wait_for_priority = 1500

abbrev pub sample_time : ℕ
sample_time = 1500

-- kSacnStartcodeDmx, kSacnStartcodePriority
abbrev pub startcode_dmx : ℕ
startcode_dmx = 0

abbrev pub startcode_priority : ℕ
startcode_priority = 0xdd

-- sacn_recv_state_t
pub data RecvState : Type 0 where
  waiting_for_pap have_dmx_only have_pap_only have_dmx_and_pap : RecvState

-- EtcPalMcastNetintId: the IP version and the index of an interface.
pub record NetintId : Type 0 where
  pub ip_type : ℕ
  pub index : ℕ

-- The order of sampling_period_netint_compare: by the IP version, then by the index, an unsigned int.
abbrev pub netint_key : NetintId → ℕ
netint_key n = n.ip_type * 4294967296 + n.index

-- SacnSamplingPeriodNetint
pub record SamplingNetint : Type 0 where
  pub id : NetintId
  pub in_future_sampling_period : Bool

-- SacnTrackedSource
pub record TrackedSource (Timer : Type 0) : Type 0 where
  pub handle : ℕ
  pub name : Array
  pub netint : NetintId
  pub packet_timer : Timer
  pub seq : ℕ
  pub terminated : Bool
  pub dmx_received_since_last_tick : Bool
  pub recv_state : RecvState
  pub pap_timer : Timer

-- The parts of EtcPal that the receiver rests on: timers, trees and handles.
pub record Platform : Type 1 where
  pub tm : Timers
  pub handle_manager : IntHandleManager
  pub handle_tree : HandleTree
  pub cid_tree : CidTree
  pub tracked : RbTree (TrackedSource tm.Timer) (λ s. s.handle)
  pub netints : RbTree SamplingNetint (λ n. netint_key n.id)
  pub lost : SourceTree
  pub keys : KeyTree

module _ (P : Platform) where
  abbrev pub Tracked : Type 0
  Tracked = TrackedSource P.tm.Timer

  abbrev pub AllRemotes : Type 0
  AllRemotes = Remotes P.handle_tree P.cid_tree P.handle_manager

  -- SacnReceiver, less its sockets, its thread and its callbacks
  pub record Receiver : Type 0 where
    pub handle : ℕ
    pub universe : ℕ
    pub sampling : Bool
    pub notified_sampling_started : Bool
    pub sample_timer : P.tm.Timer
    pub sampling_period_netints : P.netints.Tree
    pub suppress_limit_exceeded_notification : Bool
    pub sources : P.tracked.Tree
    pub term_sets : List (TerminationSet P.lost P.keys P.tm.Timer)
    pub filter_preview_data : Bool
    pub source_count_max : ℕ
    pub footprint_count : ℕ

  -- A receiver with the tables that all the receivers share.
  pub record World : Type 0 where
    pub receiver : Receiver
    pub remotes : AllRemotes
    pub term_set_sources : P.lost.Tree

-- What a data packet makes the library tell the application.
pub record Notified : Type 0 where
  pub source_limit_exceeded : Bool
  pub source_pap_lost : Option ℕ
  pub universe_data : Option (RemoteSource × UniverseData)
