-- ===== src/Pdu/Sent.antt =====
-- What init_sacn_data_send_buf and update_send_buf_data put into a send buffer, byte by byte.
use s_acn.Prelude.{
  ℕ, ◌+◌, ◌-◌, ◌*◌, ◌/◌, ◌%◌, ◌^◌, ◌≡◌, ◌≤◌, ◌<◌, Array, set, Bool, true, ◌==◌, if◌then◌else◌,
  arith,
}
use s_acn.Pdu.Wire.{Wire, put_bit, c_string}
use s_acn.Pdu.Pack.{
  pack_flags, pack_name, pack_sacn_data_framing_layer, pack_sacn_dmp_layer_header,
  set_data_slot_count,
}

module _ (W : Wire) where
  -- The DMP layer from byte 2 on.
  pub dmp_bytes :
      (a : Array) (p start_code n j : ℕ)
      → p + 2 ≤ j
      → (pack_sacn_dmp_layer_header W a p start_code n).1 j ≡ (
          if j == p + 2
          then 2
          else if j == p + 3
          then 0xa1
          else if j == p + 4
          then 0
          else if j == p + 5
          then 0
          else if j == p + 6
          then 0
          else if j == p + 7
          then 1
          else if j == p + 8
          then ((n + 1) % 2 ^ 16 / 256) % 256
          else if j == p + 9
          then (n + 1) % 2 ^ 16 % 256
          else if j == p + 10
          then start_code
          else a j)
  unfolding pack_sacn_dmp_layer_header pack_flags
  dmp_bytes a p start_code n j le =
      let a0 = set a p (W.set_d_flag (W.set_h_flag (W.set_v_flag 0))) in
      let a1 = pack_flags W a p (126 - 115 + n) in
      let a2 = set (set a1 (p + 2) 2) (p + 3) 0xa1 in
      let a3 = W.pack_u16b a2 (p + 4) 0 in
      let a4 = W.pack_u16b a3 (p + 6) 1 in
      ground (
        arith,
        W.pack_normal_len-bytes a0 p (126 - 115 + n) j,
        W.pack_u16b-bytes a2 (p + 4) 0 j,
        W.pack_u16b-bytes a3 (p + 6) 1 j,
        W.pack_u16b-bytes a4 (p + 8) ((n + 1) % 2 ^ 16) j,
      )

  pub dmp_before :
      (a : Array) (p start_code n j : ℕ)
      → j < p
      → (pack_sacn_dmp_layer_header W a p start_code n).1 j ≡ a j
  unfolding pack_sacn_dmp_layer_header pack_flags
  dmp_before a p start_code n j lt =
      let a0 = set a p (W.set_d_flag (W.set_h_flag (W.set_v_flag 0))) in
      let a1 = pack_flags W a p (126 - 115 + n) in
      let a2 = set (set a1 (p + 2) 2) (p + 3) 0xa1 in
      let a3 = W.pack_u16b a2 (p + 4) 0 in
      let a4 = W.pack_u16b a3 (p + 6) 1 in
      ground (
        arith,
        W.pack_normal_len-bytes a0 p (126 - 115 + n) j,
        W.pack_u16b-bytes a2 (p + 4) 0 j,
        W.pack_u16b-bytes a3 (p + 6) 1 j,
        W.pack_u16b-bytes a4 (p + 8) ((n + 1) % 2 ^ 16) j,
      )

  -- The framing layer from byte 2 on, but for the name.
  pub framing_bytes :
      (a : Array) (p n vector : ℕ) (name : Array) (priority seq : ℕ) (preview terminated : Bool)
      (universe j : ℕ)
      → p + 70 ≤ j
      → (pack_sacn_data_framing_layer W a p n vector name priority seq preview terminated
            universe).1
          j
        ≡ (if j == p + 70
            then priority
            else if j == p + 71
            then 0
            else if j == p + 72
            then 0
            else if j == p + 73
            then seq
            else if j == p + 74
            then (if preview
                then (if terminated then 192 else 128)
                else if terminated
                then 64
                else 0)
            else if j == p + 75
            then (universe / 256) % 256
            else if j == p + 76
            then universe % 256
            else a j)
  unfolding pack_sacn_data_framing_layer pack_flags pack_name
  framing_bytes a p n vector name priority seq preview terminated universe j le =
      let a0 = set a p (W.set_d_flag (W.set_h_flag (W.set_v_flag 0))) in
      let a1 = pack_flags W a p (126 - 38 + n) in
      let a2 = pack_name W (W.pack_u32b a1 (p + 2) vector) (p + 6) name in
      let a3 = W.pack_u16b (set a2 (p + 70) priority) (p + 71) 0 in
      let options0 = if preview then put_bit 0 7 true else 0 in
      let options = if terminated then put_bit options0 6 true else options0 in
      ground (
        arith,
        W.pack_normal_len-bytes a0 p (126 - 38 + n) j,
        W.pack_u32b-bytes a1 (p + 2) vector j,
        W.pack_u16b-bytes (set a2 (p + 70) priority) (p + 71) 0 j,
        W.pack_u16b-bytes (set (set a3 (p + 73) seq) (p + 74) options) (p + 75) universe j,
      )

  pub framing_vector :
      (a : Array) (p n vector : ℕ) (name : Array) (priority seq : ℕ) (preview terminated : Bool)
      (universe j : ℕ)
      → p + 2 ≤ j
      → j < p + 6
      → (pack_sacn_data_framing_layer W a p n vector name priority seq preview terminated
            universe).1
          j
        ≡ W.pack_u32b (pack_flags W a p (126 - 38 + n)) (p + 2) vector j
  unfolding pack_sacn_data_framing_layer pack_flags pack_name
  framing_vector a p n vector name priority seq preview terminated universe j le lt =
      let a0 = set a p (W.set_d_flag (W.set_h_flag (W.set_v_flag 0))) in
      let a1 = pack_flags W a p (126 - 38 + n) in
      let a2 = pack_name W (W.pack_u32b a1 (p + 2) vector) (p + 6) name in
      let a3 = W.pack_u16b (set a2 (p + 70) priority) (p + 71) 0 in
      let options0 = if preview then put_bit 0 7 true else 0 in
      let options = if terminated then put_bit options0 6 true else options0 in
      ground (
        arith,
        W.pack_u16b-bytes (set a2 (p + 70) priority) (p + 71) 0 j,
        W.pack_u16b-bytes (set (set a3 (p + 73) seq) (p + 74) options) (p + 75) universe j,
      )

  -- The name, with its terminator.
  pub framing_name :
      (a : Array) (p n vector : ℕ) (name : Array) (priority seq : ℕ) (preview terminated : Bool)
      (universe j : ℕ)
      → p + 6 ≤ j
      → j < p + 70
      → (pack_sacn_data_framing_layer W a p n vector name priority seq preview terminated
            universe).1
          j
        ≡ (if j == p + 69 then 0 else c_string name 64 (j - (p + 6)))
  unfolding pack_sacn_data_framing_layer pack_name
  framing_name a p n vector name priority seq preview terminated universe j le lt =
      let a1 = pack_flags W a p (126 - 38 + n) in
      let a2 = pack_name W (W.pack_u32b a1 (p + 2) vector) (p + 6) name in
      let a3 = W.pack_u16b (set a2 (p + 70) priority) (p + 71) 0 in
      let options0 = if preview then put_bit 0 7 true else 0 in
      let options = if terminated then put_bit options0 6 true else options0 in
      let s = c_string name 64 in
      ground (
        arith,
        W.pack_u16b-bytes (set a2 (p + 70) priority) (p + 71) 0 j,
        W.pack_u16b-bytes (set (set a3 (p + 73) seq) (p + 74) options) (p + 75) universe j,
      )

  pub counted_bytes :
      (a : Array) (n j : ℕ)
      → set_data_slot_count W a n j ≡ (
          if j == 123
          then ((1 + n) % 2 ^ 16 / 256) % 256
          else if j == 124
          then (1 + n) % 2 ^ 16 % 256
          else if j == 115
          then a 115 / 16 % 16 * 16 + (126 + n - 115) / 256 % 16
          else if j == 116
          then (126 + n - 115) % 256
          else if j == 38
          then a 38 / 16 % 16 * 16 + (126 + n - 38) / 256 % 16
          else if j == 39
          then (126 + n - 38) % 256
          else if j == 16
          then a 16 / 16 % 16 * 16 + (126 + n - 16) / 256 % 16
          else if j == 17
          then (126 + n - 16) % 256
          else a j)
  unfolding set_data_slot_count
  counted_bytes a n j =
      let a1 = W.pack_normal_len a 16 (126 + n - 16) in
      let a2 = W.pack_normal_len a1 38 (126 + n - 38) in
      let a3 = W.pack_normal_len a2 115 (126 + n - 115) in
      ground (
        arith,
        W.pack_normal_len-bytes a 16 (126 + n - 16) j,
        W.pack_normal_len-bytes a1 38 (126 + n - 38) j,
        W.pack_normal_len-bytes a2 115 (126 + n - 115) j,
        W.pack_u16b-bytes a3 123 ((1 + n) % 2 ^ 16) j,
        W.pack_normal_len-bytes a 16 (126 + n - 16) 38,
        W.pack_normal_len-bytes a 16 (126 + n - 16) 115,
        W.pack_normal_len-bytes a1 38 (126 + n - 38) 115,
      )
