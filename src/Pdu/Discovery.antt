-- ===== src/Pdu/Discovery.antt =====
-- A page of universe discovery is parsed back by parse_sacn_universe_discovery_layer.
use s_acn.Prelude.{
  ℕ, ◌+◌, ◌-◌, ◌*◌, ◌/◌, ◌%◌, ◌≡◌, ◌≤◌, ◌<◌, Array, set, true, ◌==◌, if◌then◌else◌, some, arith,
}
use s_acn.Pdu.Wire.{Wire, from}
use s_acn.Pdu.Parse.{DiscoveryPage, parse_sacn_universe_discovery_layer}
use s_acn.Pdu.Pack.{pack_flags, pack_sacn_universe_discovery_layer_header}

module _ (W : Wire) (a : Array) (p n page last_page : ℕ) (out : DiscoveryPage) where
  packed : Array
  packed = (pack_sacn_universe_discovery_layer_header W a p n page last_page).1

  packed_bytes :
      (j : ℕ)
      → packed j ≡ (
          if j == p
          then (W.set_d_flag (W.set_h_flag (W.set_v_flag 0)) / 16) % 16 * 16
            + ((8 + n * 2) / 256) % 16
          else if j == p + 1
          then (8 + n * 2) % 256
          else if j == p + 2
          then 0
          else if j == p + 3
          then 0
          else if j == p + 4
          then 0
          else if j == p + 5
          then 1
          else if j == p + 6
          then page
          else if j == p + 7
          then last_page
          else a j)
  unfolding packed pack_sacn_universe_discovery_layer_header pack_flags
  packed_bytes j =
      let a0 = set a p (W.set_d_flag (W.set_h_flag (W.set_v_flag 0))) in
      ground (
        arith,
        W.pack_normal_len-bytes a0 p (120 - 112 + n * 2) j,
        W.pack_u32b-bytes (pack_flags W a p (120 - 112 + n * 2)) (p + 2) 1 j,
      )

  count_read : n ≤ 512 → W.pdu_length (from packed p) 0 ≡ 8 + n * 2
  count_read le =
      let a0 = packed_bytes (p + 0) in
      let a1 = packed_bytes (p + 1) in let e = W.pdu_length-bytes (from packed p) 0 in ground arith

  vector_read : W.unpack_u32b (from packed p) 2 ≡ 1
  vector_read =
      let a2 = packed_bytes (p + 2) in
      let a3 = packed_bytes (p + 3) in
      let a4 = packed_bytes (p + 4) in
      let a5 = packed_bytes (p + 5) in let e = W.unpack_u32b-bytes (from packed p) 2 in ground arith

  -- From the header that pack_sacn_universe_discovery_layer_header packed for 1 to 512 universes, in a
  -- buffer that the universes fill, parse_sacn_universe_discovery_layer reads the same page, last page
  -- and number of universes, and finds the list right after the header.
  pub parse_sacn_universe_discovery_layer-packed :
      n ≤ 512
      → 0 < n
      → parse_sacn_universe_discovery_layer W
          (from (pack_sacn_universe_discovery_layer_header W a p n page last_page).1 p)
          (8 + n * 2)
          out
        ≡ (
          true,
          record { page = page; last_page = last_page; universes = some 8; num_universes = n },
        )
  unfolding parse_sacn_universe_discovery_layer packed
  parse_sacn_universe_discovery_layer-packed le pos =
      let len = count_read le in
      let vec = vector_read in
      let a6 = packed_bytes (p + 6) in let a7 = packed_bytes (p + 7) in ground arith
