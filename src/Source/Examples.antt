-- ===== src/Source/Examples.antt =====
-- The theorems on sources for a universe of one interface and one unicast destination, whose next
-- sequence number is 255.
use s_acn.Prelude.{ℕ, ◌==◌, Array, true, false, if◌then◌else◌, [], ◌∷◌, Member, here, refl}
use s_acn.EtcPal.{ok}
use s_acn.EtcPal.Clock.{clock}
use s_acn.Source.State.{
  not_terminating, terminating_without_removing, UnicastDestination, SourceUniverse, Network,
}
use s_acn.Source.Terminate.{reset_unicast_dest, process_unicast_termination}
use s_acn.Source.Terminate.Settled.{IsSettled, process_unicast_termination-IsSettled}

abbrev destination : UnicastDestination
destination = record {
  dest_addr = 7;
  termination_state = not_terminating;
  num_terminations_sent = 0;
  last_send_error = ok;
}

-- The bytes at 111, the sequence number, and at 125, the start code.
abbrev buffer : ℕ → Array
buffer start_code = λ j. if j == 111 then 255 else if j == 125 then start_code else 0

abbrev universe : SourceUniverse clock.Timer
universe = record {
  universe_id = 1;
  termination_state = not_terminating;
  num_terminations_sent = 0;
  priority = 100;
  sync_universe = 0;
  send_preview = false;
  next_seq_num = 255;
  level_packets_sent_before_suppression = 0;
  level_keep_alive_timer = (0, 800);
  level_send_buf = buffer 0;
  has_level_data = true;
  levels_sent_this_tick = false;
  pap_packets_sent_before_suppression = 0;
  pap_keep_alive_timer = (0, 800);
  pap_send_buf = buffer 0xdd;
  has_pap_data = true;
  pap_sent_this_tick = false;
  other_sent_this_tick = false;
  anything_sent_this_tick = false;
  unicast_dests = destination ∷ [];
  send_unicast_only = false;
  last_send_error = ok;
  netints = record { ip_type = 0; index = 2 } ∷ [];
}

abbrev network : Network
network = record { multicast = λ n. ok; unicast = λ a. ok; unicast_error = λ a e. e }

abbrev ending : UnicastDestination
ending = record destination {
  termination_state = terminating_without_removing;
  num_terminations_sent = 2;
}

abbrev ending_universe : SourceUniverse clock.Timer
ending_universe = record universe { unicast_dests = ending ∷ [] }

ended :
    Member
      (reset_unicast_dest ending)
      (process_unicast_termination network ending_universe).2.unicast_dests
unfolding reset_unicast_dest process_unicast_termination
ended = here refl

process_unicast_termination-IsSettled_example :
    IsSettled (process_unicast_termination network ending_universe).1 (reset_unicast_dest ending)
process_unicast_termination-IsSettled_example =
    process_unicast_termination-IsSettled network ending_universe (reset_unicast_dest ending) ended
