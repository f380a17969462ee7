-- ===== src/Pdu/Pack.antt =====
-- The packing functions of src/sacn/pdu.c and the macros of src/sacn/private/pdu.h that change a send
-- buffer. A function that packs at `buf` takes the position `p` of `buf` in its buffer, and gives
-- the number of bytes it wrote with the buffer.
use s_acn.Prelude.{ℕ, ◌+◌, ◌-◌, ◌*◌, ◌%◌, ◌^◌, Array, set, memset, Bool, true, false, if◌then◌else◌}
use s_acn.Pdu.Wire.{Wire, write, put_bit, bit, c_string}
use s_acn.Pdu.Parse.{source_name_max_len}

-- kSacnDataPacketMtu
abbrev pub data_packet_mtu : ℕ
data_packet_mtu = 638

module _ (W : Wire) where
  -- The flags and the length at the start of a layer, `length` as the macro takes it.
  unfoldable pub pack_flags : Array → ℕ → ℕ → Array
  pack_flags a p length =
      W.pack_normal_len (set a p (W.set_d_flag (W.set_h_flag (W.set_v_flag 0)))) p length

  -- strncpy of a name, with a 0 as its last character.
  unfoldable pub pack_name : Array → ℕ → Array → Array
  pack_name a p source_name =
      set (write a p (c_string source_name source_name_max_len) source_name_max_len) (p + 63) 0

  unfoldable pub pack_sacn_root_layer : Array → ℕ → ℕ → Bool → Array → ℕ × Array
  unfolding pack_flags
  pack_sacn_root_layer a p pdu_length extended source_cid =
      let (n, a1) = W.pack_udp_preamble a p in
      let q = p + n in
      let a2 = pack_flags a1 q ((pdu_length + (2 ^ 32 - 16)) % 2 ^ 32) in
      let vector = if extended then W.vector_root_extended else W.vector_root_data in
      let a3 = W.pack_u32b a2 (q + 2) vector in (n + 22, write a3 (q + 6) source_cid 16)

  unfoldable pub pack_sacn_data_framing_layer :
      Array → ℕ → ℕ → ℕ → Array → ℕ → ℕ → Bool → Bool → ℕ → ℕ × Array
  unfolding pack_flags pack_name
  pack_sacn_data_framing_layer a p slot_count vector source_name priority seq_num preview terminated
        universe_id =
      let a1 = pack_flags a p (126 - 38 + slot_count) in
      let a2 = pack_name (W.pack_u32b a1 (p + 2) vector) (p + 6) source_name in
      let a3 = W.pack_u16b (set a2 (p + 70) priority) (p + 71) 0 in
      let options0 = if preview then put_bit 0 7 true else 0 in
      let options = if terminated then put_bit options0 6 true else options0 in
      (77, W.pack_u16b (set (set a3 (p + 73) seq_num) (p + 74) options) (p + 75) universe_id)

  unfoldable pub pack_sacn_dmp_layer_header : Array → ℕ → ℕ → ℕ → ℕ × Array
  unfolding pack_flags
  pack_sacn_dmp_layer_header a p start_code slot_count =
      let a1 = pack_flags a p (126 - 115 + slot_count) in
      let a2 = set (set a1 (p + 2) 2) (p + 3) 0xa1 in
      let a3 = W.pack_u16b (W.pack_u16b a2 (p + 4) 0) (p + 6) 1 in
      (11, set (W.pack_u16b a3 (p + 8) ((slot_count + 1) % 2 ^ 16)) (p + 10) start_code)

  unfoldable pub pack_sacn_sync_framing_layer : Array → ℕ → ℕ → ℕ → ℕ × Array
  unfolding pack_flags
  pack_sacn_sync_framing_layer a p seq_num sync_address =
      let a1 = W.pack_u32b (pack_flags a p (49 - 38)) (p + 2) 1 in
      (11, W.pack_u16b (W.pack_u16b (set a1 (p + 6) seq_num) (p + 7) sync_address) (p + 9) 0)

  unfoldable pub pack_sacn_universe_discovery_framing_layer : Array → ℕ → ℕ → Array → ℕ × Array
  unfolding pack_flags pack_name
  pack_sacn_universe_discovery_framing_layer a p universe_count source_name =
      let a1 = W.pack_u32b (pack_flags a p (120 - 38 + universe_count * 2)) (p + 2) 2 in
      (74, W.pack_u32b (pack_name a1 (p + 6) source_name) (p + 70) 0)

  unfoldable pub pack_sacn_universe_discovery_layer_header : Array → ℕ → ℕ → ℕ → ℕ → ℕ × Array
  unfolding pack_flags
  pack_sacn_universe_discovery_layer_header a p universe_count page last_page =
      let a1 = W.pack_u32b (pack_flags a p (120 - 112 + universe_count * 2)) (p + 2) 1 in
      (8, set (set a1 (p + 6) page) (p + 7) last_page)

  unfoldable pub init_sacn_data_send_buf : Array → ℕ → Array → Array → ℕ → ℕ → Bool → Array
  unfolding pack_sacn_root_layer pack_sacn_data_framing_layer pack_sacn_dmp_layer_header
  init_sacn_data_send_buf send_buf start_code source_cid source_name priority universe
        send_preview =
      let cleared = memset send_buf 0 0 data_packet_mtu in
      let (n, a1) = pack_sacn_root_layer cleared 0 126 false source_cid in
      let (k, a2) =
        pack_sacn_data_framing_layer a1 n 0 2 source_name priority 0 send_preview false universe in
      (pack_sacn_dmp_layer_header a2 (n + k) start_code 0).1

  unfoldable pub set_data_slot_count : Array → ℕ → Array
  set_data_slot_count a n =
      let a1 = W.pack_normal_len a 16 (126 + n - 16) in
      let a2 = W.pack_normal_len a1 38 (126 + n - 38) in
      let a3 = W.pack_normal_len a2 115 (126 + n - 115) in W.pack_u16b a3 123 ((1 + n) % 2 ^ 16)

  unfoldable pub set_universe_count : Array → ℕ → Array
  set_universe_count a n =
      let a1 = W.pack_normal_len a 16 (120 + n * 2 - 16) in
      let a2 = W.pack_normal_len a1 38 (120 + n * 2 - 38) in
      W.pack_normal_len a2 112 (120 + n * 2 - 112)

  unfoldable pub update_send_buf_data : Array → Array → ℕ → Array
  unfolding set_data_slot_count
  update_send_buf_data send_buf new_data new_data_size =
      write (set_data_slot_count send_buf new_data_size) 126 new_data new_data_size

abbrev pub set_sequence : Array → ℕ → Array
set_sequence a seq = set a 111 seq

abbrev pub set_terminated_opt : Array → Bool → Array
set_terminated_opt a terminated = set a 112 (put_bit (a 112) 6 terminated)

abbrev pub terminated_opt_set : Array → Bool
terminated_opt_set a = bit (a 112) 6

abbrev pub set_preview_opt : Array → Bool → Array
set_preview_opt a preview = set a 112 (put_bit (a 112) 7 preview)

abbrev pub set_priority : Array → ℕ → Array
set_priority a priority = set a 108 priority

abbrev pub set_page : Array → ℕ → Array
set_page a page = set a 118 page

abbrev pub set_last_page : Array → ℕ → Array
set_last_page a last_page = set a 119 last_page
