-- ===== src/Source/Terminate.antt =====
-- The end of the unicast destinations of a universe, in src/sacn/source_state.c.
pub mod Settled
use s_acn.Prelude.{
  ℕ, ◌+◌, ◌≡◌, ◌<◌, ◌⊎◌, inl, inr, refl, Bool, true, false, ◌&&◌, ◌||◌, not, ltb, leb,
  if◌then◌else◌, Bool-cases, List, [], ◌∷◌, Member, Member_uncons, here, there, arith,
}
use s_acn.EtcPal.{is_ok}
use s_acn.Pdu.Pack.{set_terminated_opt, terminated_opt_set}
use s_acn.Source.State.{
  TerminationState, terminating_and_removing, terminating_without_removing, not_terminating,
  is_not_terminating, UnicastDestination, SourceUniverse, Network,
}
use s_acn.Source.Send.{handle_data_packet_sent}

-- sacn_set_terminating_behavior_t
pub data TerminatingBehavior : Type 0 where
  terminate_and_remove terminate_without_removing : TerminatingBehavior

-- The state that a behaviour leads to. A removal in progress goes on.
unfoldable pub next_state : TerminatingBehavior → TerminationState → TerminationState
next_state terminate_and_remove s = terminating_and_removing
next_state terminate_without_removing terminating_and_removing = terminating_and_removing
next_state terminate_without_removing _ = terminating_without_removing

unfoldable pub set_unicast_dest_terminating :
    TerminatingBehavior → UnicastDestination → UnicastDestination
unfolding next_state
set_unicast_dest_terminating behavior d = record d {
  num_terminations_sent =
      if is_not_terminating d.termination_state then 0 else d.num_terminations_sent;
  termination_state = next_state behavior d.termination_state;
}

unfoldable pub set_dests_terminating :
    TerminatingBehavior → List UnicastDestination → List UnicastDestination
unfolding set_unicast_dest_terminating
set_dests_terminating behavior [] = []
set_dests_terminating behavior (d ∷ ds) =
    set_unicast_dest_terminating behavior d ∷ set_dests_terminating behavior ds

unfoldable pub reset_unicast_dest : UnicastDestination → UnicastDestination
reset_unicast_dest d = record d { termination_state = not_terminating; num_terminations_sent = 0 }

-- finish_unicast_dest_termination, of a destination in front of others.
unfoldable pub finish_unicast_dest_termination :
    UnicastDestination → List UnicastDestination → List UnicastDestination
unfolding reset_unicast_dest
finish_unicast_dest_termination d rest = elim d.termination_state [
  | terminating_and_removing ↦ rest
  | other ↦ reset_unicast_dest d ∷ rest
]

unfoldable pub cancel_dests : List UnicastDestination → List UnicastDestination
unfolding reset_unicast_dest
cancel_dests [] = []
cancel_dests (d ∷ ds) =
    (elim d.termination_state [ terminating_without_removing ↦ reset_unicast_dest d | other ↦ d ])
    ∷ cancel_dests ds

module _ {Timer : Type 0} where
  unfoldable pub set_universe_terminating :
      TerminatingBehavior → SourceUniverse Timer → SourceUniverse Timer
  unfolding next_state set_dests_terminating
  set_universe_terminating behavior u = record u {
    num_terminations_sent =
        if is_not_terminating u.termination_state then 0 else u.num_terminations_sent;
    termination_state = next_state behavior u.termination_state;
    unicast_dests = set_dests_terminating behavior u.unicast_dests;
  }

  unfoldable pub reset_universe : SourceUniverse Timer → SourceUniverse Timer
  reset_universe u = record u {
    termination_state = not_terminating;
    num_terminations_sent = 0;
    has_level_data = false;
    has_pap_data = false;
  }

  unfoldable pub cancel_termination_if_not_removing : SourceUniverse Timer → SourceUniverse Timer
  unfolding cancel_dests
  cancel_termination_if_not_removing u =
      let cancelled : SourceUniverse Timer = record u {
        termination_state = not_terminating;
        num_terminations_sent = 0;
        unicast_dests = cancel_dests u.unicast_dests;
      } in
      elim u.termination_state [ terminating_without_removing ↦ cancelled | other ↦ u ]

  -- The level buffer is sent with the flag of the end of the stream, which is put back after that.
  unfoldable pub send_termination_unicast :
      Network
      → SourceUniverse Timer
      → UnicastDestination
      → Bool × SourceUniverse Timer × UnicastDestination
  unfolding handle_data_packet_sent
  send_termination_unicast net u d =
      let old = terminated_opt_set u.level_send_buf in
      let buf = set_terminated_opt u.level_send_buf true in
      let flagged = record u { level_send_buf = buf } in
      let sent = is_ok (net.unicast d.dest_addr) in
      let after = if sent then handle_data_packet_sent buf flagged else flagged in
      (
        sent,
        record after { level_send_buf = set_terminated_opt after.level_send_buf old },
        record d {
          num_terminations_sent = d.num_terminations_sent + 1;
          last_send_error = net.unicast_error d.dest_addr d.last_send_error;
        },
      )

  -- A destination that is terminating, on its turn: it is sent to if every send before was successful.
  unfoldable pub terminate_dest :
      Network
      → Bool
      → SourceUniverse Timer
      → UnicastDestination
      → Bool × SourceUniverse Timer × UnicastDestination
  unfolding send_termination_unicast
  terminate_dest net all u d =
      if ltb d.num_terminations_sent 3 && u.has_level_data
      then (if all then send_termination_unicast net u d else (false, u, d))
      else (all, u, d)

  -- The walk over the destinations, from the last to the first: whether all sends were successful,
  -- whether some destination is still terminating, the universe, and its destinations.
  unfoldable pub terminate_dests :
      Network
      → SourceUniverse Timer
      → List UnicastDestination
      → Bool × Bool × SourceUniverse Timer × List UnicastDestination
  unfolding terminate_dest finish_unicast_dest_termination
  terminate_dests net u [] = (true, false, u, [])
  terminate_dests net u (d ∷ ds) =
      let (all, terminating, u1, rest) = terminate_dests net u ds in
      let (all', u2, d') = terminate_dest net all u1 d in
      if is_not_terminating d.termination_state
      then (all, terminating, u1, d ∷ rest)
      else if leb 3 d'.num_terminations_sent || not u2.has_level_data
      then (all', terminating, u2, finish_unicast_dest_termination d' rest)
      else (all', true, u2, d' ∷ rest)

  -- The second component is *terminating.
  unfoldable pub process_unicast_termination :
      Network → SourceUniverse Timer → Bool × Bool × SourceUniverse Timer
  unfolding terminate_dests
  process_unicast_termination net u =
      let (all, terminating, u', dests) = terminate_dests net u u.unicast_dests in
      (all, terminating, record u' { unicast_dests = dests })
