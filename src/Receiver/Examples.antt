-- ===== src/Receiver/Examples.antt =====
-- The theorems on receivers for one receiver of universe 1 that tracks at most one source: source 3,
-- with the CID 5.
use s_acn.Prelude.{
  ℕ, ◌≡◌, ◌<◌, ◌≤◌, ◌↔◌, ◌⊎◌, inl, inr, refl, Array, true, false, ◌==◌, ◌+◌, if◌then◌else◌, Option,
  none, some, Option-cases, List, [], ◌∷◌, Member, Member_uncons, arith,
}
use s_acn.EtcPal.ListTree.{list_tree}
use s_acn.EtcPal.LeastHandle.{least_manager}
use s_acn.EtcPal.Clock.{clock}
use s_acn.Pdu.Parse.{UniverseData, RemoteSource}
use s_acn.Pdu.BigEndian.{big_endian, zeros, no_packet}
use s_acn.SourceLoss.State.{key_of}
use s_acn.Receiver.Remote
use s_acn.Receiver.State.{
  waiting_for_pap, have_dmx_only, have_dmx_and_pap, NetintId, SamplingNetint, netint_key, Platform,
  TrackedSource, Tracked, World,
}
use s_acn.Receiver.Track.{Memory, remove_current_sampling_period_netints}
use s_acn.Receiver.Track.Current.{remove_current_sampling_period_netints-future}
use s_acn.Receiver.Source.{check_sequence, process_null_start_code}
use s_acn.Receiver.Source.Sequence.{in_order, check_sequence-in_order}
use s_acn.Receiver.Source.Waiting.{hear, process_null_start_code-notify, hear-held}
use s_acn.Receiver.Packet.{process_tracked, handle_sacn_data_packet}
use s_acn.Receiver.Packet.Passed.{process_tracked-notify}
use s_acn.Receiver.Packet.Handled.{IsPassed, read, handle_sacn_data_packet-IsPassed}
use s_acn.Receiver.Tick.{Room}
use s_acn.Receiver.Limit.{IsWithinLimit}
use s_acn.Receiver.History.{Event, heard, ticked, run, run-IsWithinLimit}

abbrev platform : Platform
platform = record {
  tm = clock;
  handle_manager = least_manager;
  handle_tree = list_tree (λ (r : Remote.RemoteHandle). r.cid);
  cid_tree = list_tree (λ (r : Remote.RemoteCid). r.handle);
  tracked = list_tree (λ (s : TrackedSource (ℕ × ℕ)). s.handle);
  netints = list_tree (λ (n : SamplingNetint). netint_key n.id);
  lost = list_tree key_of;
  keys = list_tree (λ (k : ℕ). k);
}

abbrev netint : NetintId
netint = record { ip_type = 0; index = 2 }

abbrev source : Tracked platform
source = record {
  handle = 3;
  name = zeros;
  netint = netint;
  packet_timer = (0, 2500);
  seq = 4;
  terminated = false;
  dmx_received_since_last_tick = false;
  recv_state = have_dmx_only;
  pap_timer = (0, 2500);
}

abbrev world : World platform
world = record {
  receiver = record {
    handle = 0;
    universe = 1;
    sampling = false;
    notified_sampling_started = true;
    sample_timer = (0, 1500);
    sampling_period_netints = platform.netints.init;
    suppress_limit_exceeded_notification = false;
    sources = (platform.tracked.insert source platform.tracked.init).1;
    term_sets = [];
    filter_preview_data = true;
    source_count_max = 1;
    footprint_count = 512;
  };
  remotes = record {
    handles =
        (platform.handle_tree.insert (record { cid = 5; handle = 3 }) platform.handle_tree.init).1;
    cids =
        (platform.cid_tree.insert (record { handle = 3; cid = 5; refcount = 1 })
          platform.cid_tree.init).1;
    manager = least_manager.init_manager 0xfffe;
  };
  term_set_sources = platform.lost.init;
}

-- A packet of one slot for universe 1, with the sequence number 5.
abbrev packet : Array
packet = λ j.
    if j == 5
    then 2
    else if j == 70
    then 100
    else if j == 73
    then 5
    else if j == 76
    then 1
    else if j == 79
    then 2
    else if j == 80
    then 0xa1
    else if j == 84
    then 1
    else if j == 86
    then 2
    else 0

abbrev memory : Memory (ℕ × ℕ)
memory = record {
  source = true;
  junk_timer = (0, 0);
  remote = record { new_handle = true; new_cid = true; junk = 0 };
}

abbrev room : Room
room = record {
  to_erase = true;
  status = λ _. true;
  offline = record { term_set = λ _. true; term_set_source = λ _. true };
  lost = λ _. true;
}

abbrev history : List (Event platform)
history =
    heard 10 memory netint 5 packet 89 no_packet
    ∷ heard 20 memory netint 6 packet 89 no_packet
    ∷ ticked 9000 room 1000
    ∷ []

one_source : IsWithinLimit platform world.receiver
unfolding list_tree Option-cases
one_source = inr (omega arith)

run-IsWithinLimit_example : IsWithinLimit platform (run platform big_endian world history).receiver
run-IsWithinLimit_example = run-IsWithinLimit platform big_endian world history one_source

check_sequence-in_order_example :
    ((check_sequence 250 3 ≡ in_order 250 3) ↔ (250 < 3 + 237))
    × (3 + 237 ≤ 250 → check_sequence 250 3 ≡ true)
check_sequence-in_order_example = check_sequence-in_order 250 3 (omega arith) (omega arith)

process_null_start_code-notify_example :
    (((process_null_start_code platform 10 true source).2 ≡ false)
      ↔ ((have_dmx_only ≡ waiting_for_pap) × (clock.is_expired 10 (0, 2500) ≡ false)))
    × (((process_null_start_code platform 10 true source).1 ≡ true) ↔ (
        (have_dmx_only ≡ have_dmx_and_pap)
        × (clock.is_expired 10 (0, 2500) ≡ true)
        × (true ≡ true)))
process_null_start_code-notify_example = process_null_start_code-notify platform 10 true source

abbrev waiting : Tracked platform
waiting = record source { recv_state = waiting_for_pap; pap_timer = (0, 1500) }

abbrev times : List ℕ
times = 10 ∷ 1400 ∷ []

times-early : (t : ℕ) → Member t times → (0 ≤ t) × (t < 0 + 1500)
times-early t m = elim (Member_uncons m) [
  | inl p ↦ (omega arith, omega arith)
  | inr n ↦ elim (Member_uncons n) [ inl q ↦ (omega arith, omega arith) | inr k ↦ elim k [ ] ]
]

waiting-start : waiting.pap_timer ≡ platform.tm.start 0 1500
waiting-start = refl

hear-held_example :
    ((hear platform times waiting).1 ≡ false)
    × ((hear platform (1600 ∷ []) (hear platform times waiting).0).1 ≡ true)
hear-held_example =
    hear-held platform 0 1600 times waiting refl waiting-start times-early (omega arith)

abbrev payload : UniverseData
payload = record no_packet.universe_data { universe_id = 1; sequence = 5 }

notified : (process_tracked platform 10 world source netint false payload).notify ≡ true
unfolding process_tracked
notified = refl

process_tracked-notify_example :
    (false ≡ false)
    × (false ≡ false)
    × (check_sequence 5 4 ≡ true)
    × (((netint.ip_type ≡ netint.ip_type) × (netint.index ≡ netint.index)) ⊎ (false ≡ true))
process_tracked-notify_example =
    process_tracked-notify platform 10 world source netint false payload notified

abbrev told : Option (RemoteSource × UniverseData)
told =
    (handle_sacn_data_packet platform 10 big_endian memory world netint 5 packet 89
      no_packet).1.universe_data

first_told : Option (RemoteSource × UniverseData) → RemoteSource × UniverseData
first_told none = (no_packet.source_info, no_packet.universe_data)
first_told (some t) = t

told-some : told ≡ some (first_told told)
unfolding first_told handle_sacn_data_packet list_tree Option-cases
told-some = refl

handle_sacn_data_packet-IsPassed_example :
    ((read platform 10 big_endian 5 packet 89 no_packet).0 ≡ true)
    × ((read platform 10 big_endian 5 packet 89 no_packet).1.universe_data.universe_id ≡ 1)
    × IsPassed platform 10 world.receiver
        (read platform 10 big_endian 5 packet 89 no_packet).1.universe_data
        (first_told told)
handle_sacn_data_packet-IsPassed_example =
    handle_sacn_data_packet-IsPassed platform 10 big_endian memory world netint 5 packet 89
      no_packet (first_told told) told-some

abbrev current : SamplingNetint
current = record { id = netint; in_future_sampling_period = false }

abbrev future : SamplingNetint
future = record { id = record { ip_type = 1; index = 2 }; in_future_sampling_period = true }

abbrev netints : platform.netints.Tree
netints =
    (platform.netints.insert future (platform.netints.insert current platform.netints.init).1).1

remove_current_sampling_period_netints-future_example :
    Member future (platform.netints.items (remove_current_sampling_period_netints platform netints))
    ↔ (Member future (platform.netints.items netints) × (true ≡ true))
remove_current_sampling_period_netints-future_example =
    remove_current_sampling_period_netints-future platform netints future
