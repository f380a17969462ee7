-- ===== src/Receiver/Packet/Handled.antt =====
-- What handle_sacn_data_packet passes on, from the bytes of the packet on.
use s_acn.Prelude.{
  ℕ, ◌≡◌, ◌≤◌, ◌<◌, ◌⊎◌, inl, inr, Array, Bool, true, false, ◌&&◌, ◌==◌, some, Option-cases,
  Bool-cases, arith,
}
use s_acn.Pdu.Wire.{Wire}
use s_acn.Pdu.Parse.{DataPacket, UniverseData, RemoteSource, parse_sacn_data_packet}
use s_acn.Receiver.Remote.{get_remote_source_handle}
use s_acn.Receiver.State.{NetintId, netint_key, Platform, Receiver, World}
use s_acn.Receiver.Track.{Memory}
use s_acn.Receiver.Packet.{
  Outcome, process_tracked, process_heard, process_data_packet, handle_sacn_data_packet, deliver,
  passed_on, process_new_source_data,
}
use s_acn.Receiver.Packet.Passed.{SameSettings, process_tracked-SameSettings, new-SameSettings}

module _ (P : Platform) (now : ℕ) where
  -- What is passed on of a packet with the data given.
  pub record IsPassed (r : Receiver P) (payload : UniverseData) (out : RemoteSource × UniverseData)
      : Type 0 where
    pub universe_id : out.1.universe_id ≡ r.universe
    pub start_code : out.1.start_code ≡ payload.start_code
    pub values : out.1.values ≡ payload.values
    pub not_preview : (payload.preview && r.filter_preview_data) ≡ false
    pub footprint :
        (out.1.slot_range.address_count ≡ payload.slot_range.address_count)
        ⊎ (out.1.slot_range.address_count ≡ r.footprint_count)
    pub limit :
        out.1.slot_range.address_count < 2147483648
        → out.1.slot_range.address_count ≤ r.footprint_count

  deliver-IsPassed :
      (r : Receiver P) (sampling : Bool) (info : RemoteSource) (payload : UniverseData)
      (o : Outcome P) (out : RemoteSource × UniverseData)
      → SameSettings P now r o.world.receiver
      → (deliver P now sampling info payload o).universe_data ≡ some out
      → IsPassed r payload out
  unfolding deliver passed_on
  deliver-IsPassed r sampling info payload o out same h = elim (Option-cases o.source) [
    | inl e ↦ absurd (ground arith)
    | inr (s, e) ↦ ground arith
  ]

  heard-IsPassed :
      (memory : Memory P.tm.Timer) (w : World P) (netint : NetintId) (packet : DataPacket)
      (sampling : Bool) (out : RemoteSource × UniverseData)
      → (process_heard P now memory w netint packet sampling).1.universe_data ≡ some out
      → IsPassed w.receiver packet.universe_data out
  unfolding process_heard
  heard-IsPassed memory w netint packet sampling out h =
      let handle =
        get_remote_source_handle P.handle_tree P.cid_tree P.handle_manager packet.source_info.cid
          w.remotes in
      elim (Option-cases (P.tracked.find handle w.receiver.sources)) [
        | inr (s, e) ↦
            deliver-IsPassed w.receiver sampling packet.source_info packet.universe_data
              (process_tracked P now w s netint packet.terminated packet.universe_data) out
              (process_tracked-SameSettings P now w s netint packet.terminated packet.universe_data)
              (ground arith)
        | inl e ↦
            deliver-IsPassed w.receiver sampling packet.source_info packet.universe_data
              (process_new_source_data P now memory w packet.source_info netint
                packet.universe_data)
              out (new-SameSettings P now memory w packet.source_info netint packet.universe_data)
              (ground arith)
      ]

  -- What the parser makes of the packet.
  abbrev pub read : Wire → ℕ → Array → ℕ → DataPacket → Bool × DataPacket
  read W cid pdata data_len empty =
      parse_sacn_data_packet W pdata data_len
        (record empty { source_info = record empty.source_info { cid = cid } })

  -- What handle_sacn_data_packet passes on comes from a packet that parse_sacn_data_packet accepts,
  -- for the universe of the receiver; it is not preview data where those are filtered, and has no
  -- more slots than the footprint, unless their count is negative.
  pub handle_sacn_data_packet-IsPassed :
      (W : Wire) (memory : Memory P.tm.Timer) (w : World P) (netint : NetintId) (cid : ℕ)
      (pdata : Array) (data_len : ℕ) (empty : DataPacket) (out : RemoteSource × UniverseData)
      → (handle_sacn_data_packet P now W memory w netint cid pdata data_len empty).1.universe_data
        ≡ some out
      → ((read W cid pdata data_len empty).0 ≡ true)
        × ((read W cid pdata data_len empty).1.universe_data.universe_id ≡ w.receiver.universe)
        × IsPassed w.receiver (read W cid pdata data_len empty).1.universe_data out
  unfolding handle_sacn_data_packet process_data_packet
  handle_sacn_data_packet-IsPassed W memory w netint cid pdata data_len empty out h =
      let r = read W cid pdata data_len empty in
      let heard = λ (sampling : Bool). heard-IsPassed memory w netint r.1 sampling out in
      elim (Bool-cases r.0) [
        | inr a ↦ absurd (ground arith)
        | inl a ↦ elim (Bool-cases (r.1.universe_data.universe_id == w.receiver.universe)) [
          | inr b ↦ absurd (ground arith)
          | inl b ↦ (
            a,
            ground arith,
            elim (Option-cases
                (P.netints.find (netint_key netint) w.receiver.sampling_period_netints)) [
                  | inl c ↦ heard false (ground arith)
                  | inr (n, c) ↦ heard true (ground arith)
                ],
          )
        ]
      ]
