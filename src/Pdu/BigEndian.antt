-- ===== src/Pdu/BigEndian.antt =====
-- The packing functions of EtcPal and of the ACN headers, by clauses, as their documents describe them.
use s_acn.Prelude.{◌+◌, ◌*◌, ◌/◌, ◌%◌, Array, memset, true, false, ◌==◌, if◌then◌else◌, refl, arith}
use s_acn.Pdu.Wire.{Wire}
use s_acn.Pdu.Parse.{DataPacket}

abbrev pub big_endian : Wire
big_endian = record {
  unpack_u16b = λ a p. a p * 256 + a (p + 1);
  unpack_u32b = λ a p. ((a p * 256 + a (p + 1)) * 256 + a (p + 2)) * 256 + a (p + 3);
  pack_u16b = λ a p v j. if j == p then (v / 256) % 256 else if j == p + 1 then v % 256 else a j;
  pack_u32b = λ a p v j.
      if j == p
      then (v / 16777216) % 256
      else if j == p + 1
      then (v / 65536) % 256
      else if j == p + 2
      then (v / 256) % 256
      else if j == p + 3
      then v % 256
      else a j;
  set_v_flag = λ b. b + 64;
  set_h_flag = λ b. b + 32;
  set_d_flag = λ b. b + 16;
  pack_normal_len = λ a p n j.
      if j == p then (a p / 16) % 16 * 16 + (n / 256) % 16 else if j == p + 1 then n % 256 else a j;
  pdu_length = λ a p. a p % 16 * 256 + a (p + 1);
  pack_udp_preamble = λ a p. (16, memset a p 0 16);
  vector_root_data = 4;
  vector_root_extended = 8;
  unpack_u16b-bytes = λ a p. refl;
  unpack_u32b-bytes = λ a p. refl;
  pack_u16b-bytes = λ a p v j. refl;
  pack_u32b-bytes = λ a p v j. refl;
  pack_normal_len-bytes = λ a p n j. refl;
  pdu_length-bytes = λ a p. refl;
  pack_udp_preamble-size = λ a p. refl;
  pack_udp_preamble-local = λ a p j e. ground arith;
}

abbrev pub zeros : Array
zeros = λ _. 0

-- What a packet may hold before it is parsed.
abbrev pub no_packet : DataPacket
no_packet = record {
  source_info = record { handle = 0; cid = 0; name = zeros };
  terminated = true;
  universe_data = record {
    universe_id = 0;
    priority = 0;
    preview = false;
    is_sampling = false;
    sync_universe = 0;
    sequence = 0;
    options = 0;
    start_code = 0;
    slot_range = record { start_address = 0; address_count = 0 };
    values = 0;
  };
}
