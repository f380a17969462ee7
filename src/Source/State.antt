-- ===== src/Source/State.antt =====
-- The data of a source: of src/sacn/private/common.h the types of the sACN Source module, for one
-- universe.
use s_acn.Prelude.{ℕ, Array, Bool, true, false, List}
use s_acn.EtcPal.{EtcPalError}
use s_acn.Receiver.State.{NetintId}

-- sacn_termination_state_t
pub data TerminationState : Type 0 where
  terminating_and_removing terminating_without_removing not_terminating : TerminationState

abbrev pub is_not_terminating : TerminationState → Bool
is_not_terminating not_terminating = true
is_not_terminating _ = false

-- SacnUnicastDestination; an address is a number.
pub record UnicastDestination : Type 0 where
  pub dest_addr : ℕ
  pub termination_state : TerminationState
  pub num_terminations_sent : ℕ
  pub last_send_error : EtcPalError

-- SacnSourceUniverse
pub record SourceUniverse (Timer : Type 0) : Type 0 where
  pub universe_id : ℕ
  pub termination_state : TerminationState
  pub num_terminations_sent : ℕ
  pub priority : ℕ
  pub sync_universe : ℕ
  pub send_preview : Bool
  pub next_seq_num : ℕ
  pub level_packets_sent_before_suppression : ℕ
  pub level_keep_alive_timer : Timer
  pub level_send_buf : Array
  pub has_level_data : Bool
  pub levels_sent_this_tick : Bool
  pub pap_packets_sent_before_suppression : ℕ
  pub pap_keep_alive_timer : Timer
  pub pap_send_buf : Array
  pub has_pap_data : Bool
  pub pap_sent_this_tick : Bool
  pub other_sent_this_tick : Bool
  pub anything_sent_this_tick : Bool
  pub unicast_dests : List UnicastDestination
  pub send_unicast_only : Bool
  pub last_send_error : EtcPalError
  pub netints : List NetintId

-- What the calls of the socket functions answer: sacn_send_multicast on an interface, and
-- sacn_send_unicast to an address, with the error that it leaves in the destination.
pub record Network : Type 0 where
  pub multicast : NetintId → EtcPalError
  pub unicast : ℕ → EtcPalError
  pub unicast_error : ℕ → EtcPalError → EtcPalError
