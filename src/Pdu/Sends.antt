-- ===== src/Pdu/Sends.antt =====
-- A packet that init_sacn_data_send_buf and update_send_buf_data made is parsed back by
-- parse_sacn_data_packet.
use s_acn.Prelude.{
  ℕ, ◌+◌, ◌-◌, ◌*◌, ◌/◌, ◌%◌, ◌^◌, ◌≡◌, ◌≢◌, ◌≤◌, ◌<◌, refl, ap, ap₂, ◌∙◌, Array, memset, Bool,
  true, false, ltb, ◌==◌, if◌then◌else◌, arith,
}
use s_acn.Pdu.Wire.{Wire, from, bit, c_string}
use s_acn.Pdu.Parse.{DataPacket, value_count, not_data, parse_sacn_data_packet}
use s_acn.Pdu.Pack.{
  data_packet_mtu, pack_flags, pack_sacn_root_layer, pack_sacn_data_framing_layer,
  pack_sacn_dmp_layer_header, init_sacn_data_send_buf, update_send_buf_data,
}
use s_acn.Pdu.Strings.{c_string_again}
use s_acn.Pdu.Sent.{
  dmp_bytes, dmp_before, framing_bytes, framing_vector, framing_name, counted_bytes,
}

module _ (W : Wire) where
  pub root_size :
      (a : Array) (p length : ℕ) (extended : Bool) (cid : Array)
      → (pack_sacn_root_layer W a p length extended cid).0 ≡ 38
  unfolding pack_sacn_root_layer
  root_size a p length extended cid = ap (λ n. n + 22) (W.pack_udp_preamble-size a p)

  module _ (buf : Array) (start_code : ℕ) (cid name : Array) (priority universe : ℕ)
      (preview : Bool) (values : Array) (n : ℕ) where
    root : Array
    root = (pack_sacn_root_layer W (memset buf 0 0 data_packet_mtu) 0 126 false cid).1

    framed : Array
    unfolding root
    framed = (pack_sacn_data_framing_layer W root 38 0 2 name priority 0 preview false universe).1

    headed : Array
    unfolding framed
    headed = (pack_sacn_dmp_layer_header W framed 115 start_code 0).1

    abbrev initial : Array
    initial = init_sacn_data_send_buf W buf start_code cid name priority universe preview

    initial-headed : initial ≡ headed
    unfolding init_sacn_data_send_buf headed framed root pack_sacn_data_framing_layer
    initial-headed =
        ap
          (λ k.
            (pack_sacn_dmp_layer_header W
              (pack_sacn_data_framing_layer W root k 0 2 name priority 0 preview false universe).1
              (k + 77) start_code 0).1)
          (root_size (memset buf 0 0 data_packet_mtu) 0 126 false cid)

    abbrev sent : Array
    sent = update_send_buf_data W initial values n

    sent-data : (i : ℕ) → i < n → sent (126 + i) ≡ values i
    unfolding update_send_buf_data
    sent-data i lt = (let e : 126 + i - 126 ≡ i = omega arith in ground (arith, ap values e))

    -- The bytes that the parser reads, where update_send_buf_data does not write.
    kept : (j : ℕ) → 40 ≤ j → j < 126 → j ≢ 115 → j ≢ 116 → j ≢ 123 → j ≢ 124 → sent j ≡ headed j
    unfolding update_send_buf_data
    kept j a b c d e f =
        ground (arith, counted_bytes W initial n j, ap (λ (x : Array). x j) initial-headed)

    count_hi : sent 123 ≡ ((1 + n) % 2 ^ 16 / 256) % 256
    unfolding update_send_buf_data
    count_hi = ground (arith, counted_bytes W initial n 123)

    count_lo : sent 124 ≡ (1 + n) % 2 ^ 16 % 256
    unfolding update_send_buf_data
    count_lo = ground (arith, counted_bytes W initial n 124)

    dmp_byte : (j : ℕ) → 117 ≤ j → j < 126 → j ≢ 123 → j ≢ 124 → sent j ≡ headed j
    dmp_byte j a b c d = kept j (omega arith) b (omega arith) (omega arith) c d

    from_dmp :
        (j : ℕ)
        → 117 ≤ j
        → j < 123
        → sent j ≡ (if j == 117 then 2 else if j == 118 then 0xa1 else if j == 122 then 1 else 0)
    unfolding headed
    from_dmp j a b = ground (
      arith,
      dmp_byte j a (omega arith) (omega arith) (omega arith),
      dmp_bytes W framed 115 start_code 0 j a,
    )

    from_start : sent 125 ≡ start_code
    unfolding headed
    from_start = ground (arith, dmp_byte 125, dmp_bytes W framed 115 start_code 0 125)

    from_framing :
        (j : ℕ)
        → 108 ≤ j
        → j < 115
        → sent j ≡ (
            if j == 108
            then priority
            else if j == 112
            then (if preview then 128 else 0)
            else if j == 113
            then (universe / 256) % 256
            else if j == 114
            then universe % 256
            else 0)
    unfolding headed framed
    from_framing j a b =
        let p =
          kept j (omega arith) (omega arith) (omega arith) (omega arith) (omega arith)
            (omega arith) in
        let q = dmp_before W framed 115 start_code 0 j (omega arith) in
        let r =
          framing_bytes W root 38 0 2 name priority 0 preview false universe j (omega arith) in
        ground arith

    from_vector : (j : ℕ) → 40 ≤ j → j < 44 → sent j ≡ (if j == 43 then 2 else 0)
    unfolding headed framed
    from_vector j a b =
        let p =
          kept j (omega arith) (omega arith) (omega arith) (omega arith) (omega arith)
            (omega arith) in
        let q = dmp_before W framed 115 start_code 0 j (omega arith) in
        let r = framing_vector W root 38 0 2 name priority 0 preview false universe j a b in
        let s = W.pack_u32b-bytes (pack_flags W root 38 (126 - 38 + 0)) 40 2 j in ground arith

    from_name :
        (i : ℕ) → i < 64 → from (from sent 38) 6 i ≡ (if i == 63 then 0 else c_string name 64 i)
    unfolding headed framed
    from_name i lt =
        let j = 44 + i in
        let e : 38 + (6 + i) ≡ j = omega arith in
        let p =
          kept j (omega arith) (omega arith) (omega arith) (omega arith) (omega arith)
            (omega arith) in
        let q = dmp_before W framed 115 start_code 0 j (omega arith) in
        let r =
          framing_name W root 38 0 2 name priority 0 preview false universe j (omega arith)
            (omega arith) in
        let f : j - (38 + 6) ≡ i = omega arith in
        let g = ap (c_string name 64) f in ap sent e ∙ p ∙ q ∙ r ∙ ground arith

    -- The parsed data of a packet is the name, priority, universe, start code, preview flag and values
    -- that it was made from, of the name at most 63 characters; and a new packet has no number, no
    -- synchronization universe and no termination.
    pub record IsSent (out : Bool × DataPacket) : Type 0 where
      pub accepted : out.0 ≡ true
      pub source_name : (i : ℕ) → i < 63 → out.1.source_info.name i ≡ c_string name 64 i
      pub name_ends : out.1.source_info.name 63 ≡ 0
      pub universe_id : out.1.universe_data.universe_id ≡ universe
      pub priority_sent : out.1.universe_data.priority ≡ priority
      pub not_synchronized : out.1.universe_data.sync_universe ≡ 0
      pub sequence : out.1.universe_data.sequence ≡ 0
      pub start_code_sent : out.1.universe_data.start_code ≡ start_code
      pub preview_sent : out.1.universe_data.preview ≡ preview
      pub not_terminated : out.1.terminated ≡ false
      pub first_slot : out.1.universe_data.slot_range.start_address ≡ 1
      pub slots : out.1.universe_data.slot_range.address_count ≡ n
      pub level : (i : ℕ) → i < n → from sent 38 (out.1.universe_data.values + i) ≡ values i

    bits : (b : Bool) → (bit (if b then 128 else 0) 7 ≡ b) × (bit (if b then 128 else 0) 6 ≡ false)
    bits true = (refl, refl)
    bits false = (refl, refl)

    sent_count : n < 65535 → W.unpack_u16b (from sent 38) 85 ≡ n + 1
    sent_count lt =
        let e = W.unpack_u16b-bytes (from sent 38) 85 in
        let hi = count_hi in
        let lo = count_lo in e ∙ ap₂ (λ x y. x * 256 + y) count_hi count_lo ∙ omega arith

    sent_universe : universe < 65536 → W.unpack_u16b (from sent 38) 75 ≡ universe
    sent_universe lt =
        W.unpack_u16b-bytes (from sent 38) 75
        ∙ ap₂ (λ x y. x * 256 + y) (from_framing 113 (omega arith) (omega arith))
            (from_framing 114 (omega arith) (omega arith))
        ∙ omega arith

    sent_vectors : not_data W (from sent 38) 0 ≡ false
    sent_vectors =
        let a = W.unpack_u32b-bytes (from sent 38) 2 in
        let b = from_vector 40 (omega arith) (omega arith) in
        let c = from_vector 41 (omega arith) (omega arith) in
        let d = from_vector 42 (omega arith) (omega arith) in
        let e = from_vector 43 (omega arith) (omega arith) in
        let f = from_dmp 117 (omega arith) (omega arith) in
        let g = from_dmp 118 (omega arith) (omega arith) in
        let h = from_dmp 119 (omega arith) (omega arith) in
        let i = from_dmp 120 (omega arith) (omega arith) in
        let j = from_dmp 121 (omega arith) (omega arith) in
        let k = from_dmp 122 (omega arith) (omega arith) in
        let l = W.unpack_u16b-bytes (from sent 38) 81 in
        let m = W.unpack_u16b-bytes (from sent 38) 83 in ground arith

    -- parse_sacn_data_packet accepts the packet that init_sacn_data_send_buf and then
    -- update_send_buf_data with at most 512 values made, and reads from it the source name (of which
    -- at most 63 characters, then a terminator), universe, priority, start code and preview flag it was
    -- made with, sequence number 0, synchronization universe 0, no termination, and the values, from
    -- slot 1 on.
    pub parse_sacn_data_packet-sent :
        (out : DataPacket)
        → n ≤ 512
        → universe < 65536
        → IsSent (parse_sacn_data_packet W (from sent 38) (88 + n) out)
    unfolding parse_sacn_data_packet
    parse_sacn_data_packet-sent out le lt =
        let count = sent_count (omega arith) in
        let fixed = sent_vectors in
        let short : ltb (88 + n) 88 ≡ false = ground arith in
        let fits : ltb (88 + n) (87 + value_count W (from sent 38) 0) ≡ false = ground arith in
        let prio = from_framing 108 (omega arith) (omega arith) in
        let seq = from_framing 111 (omega arith) (omega arith) in
        let sync =
          W.unpack_u16b-bytes (from sent 38) 71
          ∙ ap₂ (λ x y. x * 256 + y) (from_framing 109 (omega arith) (omega arith))
              (from_framing 110 (omega arith) (omega arith)) in
        let packed_name =
          c_string_again (from (from sent 38) 6) name
            (λ i b. let e = from_name i (omega arith) in ground arith)
            (from_name 63 (omega arith)) in
        let options = from_framing 112 (omega arith) (omega arith) in
        rw (short, fixed, fits, parse_sacn_data_packet)
          (record {
            accepted = refl;
            source_name = λ i b. ground (arith, packed_name i b);
            name_ends = refl;
            universe_id = sent_universe lt;
            priority_sent = prio;
            not_synchronized = sync;
            sequence = seq;
            start_code_sent = from_start;
            preview_sent = ap (λ o. bit o 7) options ∙ (bits preview).0;
            not_terminated = ap (λ o. bit o 6) options ∙ (bits preview).1;
            first_slot = refl;
            slots = ap (λ x. (x + (2 ^ 32 - 1)) % 2 ^ 32) count ∙ omega arith;
            level =
                λ i b. let e : 38 + (88 + i) ≡ 126 + i = omega arith in ap sent e ∙ sent-data i b;
          })
