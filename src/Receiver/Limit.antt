-- ===== src/Receiver/Limit.antt =====
-- A receiver never tracks more sources than its maximum.
use s_acn.Prelude.{
  ℕ, ◌≡◌, ◌≤◌, ◌⊎◌, refl, ap, inl, inr, Array, Bool, true, false, Option-cases, Bool-cases, arith,
}
use s_acn.EtcPal.{is_ok}
use s_acn.Pdu.Wire.{Wire}
use s_acn.Pdu.Parse.{DataPacket, UniverseData, RemoteSource}
use s_acn.SourceLoss.Confirmed.{is_ok-true}
use s_acn.Receiver.Remote.{add_remote_source_handle, get_remote_source_handle}
use s_acn.Receiver.State.{NetintId, netint_key, Platform, Tracked, Receiver, World}
use s_acn.Receiver.Track.{Memory, has_room, new_tracked, add_sacn_tracked_source}
use s_acn.Receiver.Packet.{
  process_tracked, put_tracked, process_new_source_data, process_heard, process_data_packet,
  handle_sacn_data_packet,
}
use s_acn.Receiver.Packet.Passed.{process_tracked-IsPut}
use s_acn.Receiver.Packet.Handled.{read}

module _ (P : Platform) where
  -- The receiver has no maximum, or tracks no more sources than it.
  abbrev pub IsWithinLimit : Receiver P → Type 0
  IsWithinLimit r = (r.source_count_max ≡ 0) ⊎ (P.tracked.size r.sources ≤ r.source_count_max)

  pub remove-le :
      (k : ℕ) (t : P.tracked.Tree) → P.tracked.size (P.tracked.remove k t).1 ≤ P.tracked.size t
  remove-le k t = elim (Bool-cases (is_ok (P.tracked.remove k t).0)) [
    | inl e ↦
        let lt = P.tracked.remove-smaller t k (is_ok-true (P.tracked.remove k t).0 e) in omega arith
    | inr e ↦
        let same = P.tracked.remove-refused t k (λ h. let z = ap is_ok h in ground arith) in
        let size = ap P.tracked.size same in omega arith
  ]

  module _ (now : ℕ) where
    add-IsWithinLimit :
        (memory : Memory P.tm.Timer) (w : World P) (cid : ℕ) (name : Array) (netint : NetintId)
        (seq start_code : ℕ)
        → IsWithinLimit w.receiver
        → IsWithinLimit
            (add_sacn_tracked_source P now memory w cid name netint seq start_code).2.receiver
    unfolding add_sacn_tracked_source has_room
    add-IsWithinLimit memory w cid name netint seq start_code h =
        let added =
          add_remote_source_handle P.handle_tree P.cid_tree P.handle_manager memory.remote cid
            w.remotes in
        elim (Option-cases added.1) [
          | inl e ↦ ground arith
          | inr (k, e) ↦
              let s = new_tracked P now memory w.receiver k name netint seq start_code in
              let grown = P.tracked.insert-size w.receiver.sources s in
              let same = P.tracked.insert-refused w.receiver.sources s in
              let f = (P.tracked.insert s w.receiver.sources).0 in
              elim (Bool-cases (is_ok f)) [
                | inl g ↦ let size = grown (is_ok-true f g) in ground arith
                | inr g ↦
                    let size = ap P.tracked.size (same (λ z. let y = ap is_ok z in ground arith)) in
                    ground arith
              ]
        ]

    -- The same number of sources, and the same maximum.
    abbrev SameSize : World P → World P → Type 0
    SameSize w w' =
        (P.tracked.size w'.receiver.sources ≡ P.tracked.size w.receiver.sources)
        × (w'.receiver.source_count_max ≡ w.receiver.source_count_max)

    put_tracked-size : (w : World P) (s : Tracked P) → SameSize w (put_tracked P now w s)
    unfolding put_tracked
    put_tracked-size w s = (P.tracked.store-size w.receiver.sources s, refl)

    process_tracked-size :
        (w : World P) (s : Tracked P) (netint : NetintId) (terminates : Bool)
        (payload : UniverseData)
        → SameSize w (process_tracked P now w s netint terminates payload).world
    process_tracked-size w s netint terminates payload =
        elim (process_tracked-IsPut P now w s netint terminates payload) [
          | inl e ↦ rw e (refl, refl)
          | inr (x, e) ↦ rw e (put_tracked-size w x)
        ]

    new-IsWithinLimit :
        (memory : Memory P.tm.Timer) (w : World P) (info : RemoteSource) (netint : NetintId)
        (payload : UniverseData)
        → IsWithinLimit w.receiver
        → IsWithinLimit (process_new_source_data P now memory w info netint payload).world.receiver
    unfolding process_new_source_data
    new-IsWithinLimit memory w info netint payload h =
        let added =
          add-IsWithinLimit memory w info.cid info.name netint payload.sequence payload.start_code
            h in
        ground arith

    heard-IsWithinLimit :
        (memory : Memory P.tm.Timer) (w : World P) (netint : NetintId) (packet : DataPacket)
        (sampling : Bool)
        → IsWithinLimit w.receiver
        → IsWithinLimit (process_heard P now memory w netint packet sampling).0.receiver
    unfolding process_heard
    heard-IsWithinLimit memory w netint packet sampling h =
        let handle =
          get_remote_source_handle P.handle_tree P.cid_tree P.handle_manager packet.source_info.cid
            w.remotes in
        let new = new-IsWithinLimit memory w packet.source_info netint packet.universe_data h in
        elim (Option-cases (P.tracked.find handle w.receiver.sources)) [
          | inl e ↦ ground arith
          | inr (s, e) ↦
              let size = process_tracked-size w s netint packet.terminated packet.universe_data in
              ground arith
        ]

    -- However a packet is answered, the receiver tracks no more sources than its maximum after
    -- handle_sacn_data_packet if it did not before.
    pub handle_sacn_data_packet-IsWithinLimit :
        (W : Wire) (memory : Memory P.tm.Timer) (w : World P) (netint : NetintId) (cid : ℕ)
        (pdata : Array) (data_len : ℕ) (empty : DataPacket)
        → IsWithinLimit w.receiver
        → IsWithinLimit
            (handle_sacn_data_packet P now W memory w netint cid pdata data_len empty).0.receiver
    unfolding handle_sacn_data_packet process_data_packet
    handle_sacn_data_packet-IsWithinLimit W memory w netint cid pdata data_len empty h =
        let r = read P now W cid pdata data_len empty in
        let heard = λ (sampling : Bool). heard-IsWithinLimit memory w netint r.1 sampling h in
        elim (Option-cases
          (P.netints.find (netint_key netint) w.receiver.sampling_period_netints)) [
            | inl c ↦ let k = heard false in ground arith
            | inr (n, c) ↦ let k = heard true in ground arith
          ]
