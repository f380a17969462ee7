-- ===== src/Receiver/Packet.antt =====
-- handle_sacn_data_packet of src/sacn/receiver_state.c, for a packet of a universe that has a
-- receiver, while the locks are held: what it changes, and what the application is told.
pub mod Passed
pub mod Handled
use s_acn.Prelude.{
  ℕ, Array, Bool, true, false, ◌&&◌, ◌||◌, not, ltb, ◌==◌, if◌then◌else◌, Option, none, some,
}
use s_acn.EtcPal.{is_ok}
use s_acn.Pdu.Parse.{DataPacket, UniverseData, RemoteSource, parse_sacn_data_packet}
use s_acn.Pdu.Wire.{Wire}
use s_acn.Receiver.Remote
use s_acn.Receiver.State.{
  NetintId, netint_key, Platform, Tracked, Receiver, World, Notified, startcode_dmx,
  startcode_priority,
}
use s_acn.Receiver.Track.{Memory, add_sacn_tracked_source}
use s_acn.Receiver.Source.{
  check_sequence, mark_source_terminated, process_null_start_code, process_pap,
}

abbrev pub silent : Notified
silent = record { source_limit_exceeded = false; source_pap_lost = none; universe_data = none }

-- What a packet does, before the data is passed on: the state, the source it comes from where it is
-- tracked, what is to be notified, and `notify`.
pub record Outcome (P : Platform) : Type 0 where
  pub world : World P
  pub source : Option (Tracked P)
  pub source_limit_exceeded : Bool
  pub source_pap_lost : Option ℕ
  pub notify : Bool

module _ (P : Platform) (now : ℕ) where
  unfoldable pub put_tracked : World P → Tracked P → World P
  put_tracked w s = record w {
    receiver = record w.receiver { sources = P.tracked.store s w.receiver.sources };
  }

  abbrev pub dropped : World P → Outcome P
  dropped w = record {
    world = w;
    source = none;
    source_limit_exceeded = false;
    source_pap_lost = none;
    notify = false;
  }

  -- The packets of a tracked source by their start code, once they are in sequence.
  unfoldable pub process_start_code : World P → Tracked P → ℕ → Outcome P
  unfolding process_null_start_code process_pap put_tracked Remote.get_remote_source_cid
  process_start_code w s start_code =
      let known : Bool =
        elim (Remote.get_remote_source_cid P.handle_tree P.cid_tree P.handle_manager s.handle
          w.remotes) [ none ↦ false | some _ ↦ true ] in
      let (dmx, lost, notify) = process_null_start_code P now known s in
      if start_code == startcode_dmx
      then record {
        world = put_tracked w dmx;
        source = some dmx;
        source_limit_exceeded = false;
        source_pap_lost = if lost then some s.handle else none;
        notify = notify;
      }
      else if start_code == startcode_priority
      then record {
        world = put_tracked w (process_pap P now s);
        source = some (process_pap P now s);
        source_limit_exceeded = false;
        source_pap_lost = none;
        notify = true;
      }
      else record {
        world = put_tracked w s;
        source = some s;
        source_limit_exceeded = false;
        source_pap_lost = none;
        notify = true;
      }

  -- The packets of a tracked source by its interface. Those of a terminated source are dropped, and
  -- those out of sequence.
  unfoldable pub process_in_order : World P → Tracked P → UniverseData → Outcome P
  unfolding put_tracked check_sequence process_start_code
  process_in_order w s payload =
      let next : Tracked P = record s { seq = payload.sequence } in
      if s.terminated
      then dropped (put_tracked w s)
      else if not (check_sequence payload.sequence s.seq)
      then dropped (put_tracked w s)
      else process_start_code w next payload.start_code

  -- The packets of a tracked source. Those that come by another interface are dropped after the
  -- sampling period.
  unfoldable pub process_tracked : World P → Tracked P → NetintId → Bool → UniverseData → Outcome P
  unfolding mark_source_terminated process_in_order
  process_tracked w s netint terminates payload =
      let other =
        not (s.netint.ip_type == netint.ip_type) || not (s.netint.index == netint.index) in
      let s1 : Tracked P = if other then record s { netint = netint } else s in
      let s2 = if terminates then mark_source_terminated P now s1 else s1 in
      if other && not w.receiver.sampling then dropped w else process_in_order w s2 payload

  -- process_new_source_data
  unfoldable pub process_new_source_data :
      Memory P.tm.Timer → World P → RemoteSource → NetintId → UniverseData → Outcome P
  unfolding add_sacn_tracked_source
  process_new_source_data memory w info netint payload =
      let (e, added, w') =
        add_sacn_tracked_source P now memory w info.cid info.name netint payload.sequence
          payload.start_code in
      let suppressed = w.receiver.suppress_limit_exceeded_notification in
      if not (payload.start_code == startcode_dmx) && not (payload.start_code == startcode_priority)
      then dropped w
      else if is_ok e
      then record {
        world = w';
        source = added;
        source_limit_exceeded = false;
        source_pap_lost = none;
        notify = not (payload.start_code == startcode_dmx && not w.receiver.sampling);
      }
      else record {
        world = record w' {
          receiver = record w'.receiver { suppress_limit_exceeded_notification = true };
        };
        source = none;
        source_limit_exceeded = not suppressed;
        source_pap_lost = none;
        notify = true;
      }

  -- The data as it is passed on: the universe of the receiver, whether the interface is in the
  -- sampling period, and no more slots than the footprint. The slot count is the bit pattern of an
  -- `int`, so that a count from 2 ^ 31 on is negative and stays.
  unfoldable pub passed_on : Receiver P → Bool → UniverseData → UniverseData
  passed_on r is_sampling payload =
      let count = payload.slot_range.address_count in
      record payload {
        universe_id = r.universe;
        is_sampling = is_sampling;
        slot_range = record payload.slot_range {
          address_count =
              if ltb r.footprint_count count && ltb count 2147483648
              then r.footprint_count
              else count;
        };
      }

  unfoldable pub deliver : Bool → RemoteSource → UniverseData → Outcome P → Notified
  unfolding passed_on
  deliver is_sampling info payload o = record {
    source_limit_exceeded = o.source_limit_exceeded;
    source_pap_lost = o.source_pap_lost;
    universe_data = elim o.source [
      | none ↦ none
      | some s ↦
          if o.notify && not (payload.preview && o.world.receiver.filter_preview_data)
          then some
              (record info { handle = s.handle }, passed_on o.world.receiver is_sampling payload)
          else none
    ];
  }

  -- A packet that no future sampling period drops; `sampling` says whether its interface is in the
  -- current one.
  unfoldable pub process_heard :
      Memory P.tm.Timer → World P → NetintId → DataPacket → Bool → World P × Notified
  unfolding process_tracked process_new_source_data deliver Remote.get_remote_source_handle
  process_heard memory w netint packet sampling =
      let info = packet.source_info in
      let payload = packet.universe_data in
      let handle =
        Remote.get_remote_source_handle P.handle_tree P.cid_tree P.handle_manager info.cid
          w.remotes in
      let fresh = process_new_source_data memory w info netint payload in
      elim (P.tracked.find handle w.receiver.sources) [
        | some s ↦
            let o = process_tracked w s netint packet.terminated payload in
            (o.world, deliver sampling info payload o)
        | none ↦
            if packet.terminated
            then (w, silent)
            else (fresh.world, deliver sampling info payload fresh)
      ]

  -- handle_sacn_data_packet, once its packet is parsed and its receiver found
  unfoldable pub process_data_packet :
      Memory P.tm.Timer → World P → NetintId → DataPacket → World P × Notified
  unfolding process_heard
  process_data_packet memory w netint packet =
      elim (P.netints.find (netint_key netint) w.receiver.sampling_period_netints) [
        | none ↦ process_heard memory w netint packet false
        | some n ↦
            if n.in_future_sampling_period
            then (w, silent)
            else process_heard memory w netint packet true
      ]

  -- The packet as it comes: a malformed one, or one of a universe that the receiver does not listen
  -- to, changes nothing. `cid` is the one of the root layer.
  unfoldable pub handle_sacn_data_packet :
      Wire
      → Memory P.tm.Timer
      → World P
      → NetintId
      → ℕ
      → Array
      → ℕ
      → DataPacket
      → World P × Notified
  unfolding parse_sacn_data_packet process_data_packet
  handle_sacn_data_packet W memory w netint cid pdata data_len empty =
      let (parsed, packet) =
        parse_sacn_data_packet W pdata data_len
          (record empty { source_info = record empty.source_info { cid = cid } }) in
      if not parsed
      then (w, silent)
      else if not (packet.universe_data.universe_id == w.receiver.universe)
      then (w, silent)
      else process_data_packet memory w netint packet
