-- ===== src/Pdu/Examples.antt =====
-- The theorems on packets at concrete packets, with packing functions by clauses.
use s_acn.Prelude.{
  ℕ, ◌+◌, ◌-◌, ◌^◌, ◌≡◌, ◌≤◌, ◌<◌, ◌↔◌, ◌⊎◌, refl, Array, true, ◌==◌, if◌then◌else◌, some, none,
  arith,
}
use s_acn.Pdu.Wire.{from, bit}
use s_acn.Pdu.BigEndian.{big_endian, zeros, no_packet}
use s_acn.Pdu.Parse.{parse_sacn_data_packet, parse_sacn_universe_discovery_layer}
use s_acn.Pdu.Pack.{
  pack_sacn_universe_discovery_layer_header, init_sacn_data_send_buf, update_send_buf_data,
  set_terminated_opt, terminated_opt_set, set_preview_opt,
}
use s_acn.Pdu.Sends.{IsSent, parse_sacn_data_packet-sent}
use s_acn.Pdu.Accepts.{
  parse_sacn_data_packet-accepts, parse_sacn_data_packet-bounds, set_terminated_opt-flag,
  set_preview_opt-flag,
}
use s_acn.Pdu.Discovery.{parse_sacn_universe_discovery_layer-packed}

abbrev data_packet : ℕ → Array
data_packet n =
    update_send_buf_data big_endian
      (init_sacn_data_send_buf big_endian zeros 0 zeros (λ _. 65) 100 7 true) (λ i. i + 1) n

parse_sacn_data_packet-sent_example :
    IsSent big_endian zeros 0 zeros
      (λ _. 65)
      100
      7
      true
      (λ i. i + 1)
      3
      (parse_sacn_data_packet big_endian (from (data_packet 3) 38) 91 no_packet)
parse_sacn_data_packet-sent_example =
    parse_sacn_data_packet-sent big_endian zeros 0 zeros (λ _. 65) 100 7 true (λ i. i + 1) 3
      no_packet (omega arith) (omega arith)

parse_sacn_data_packet-accepts_example :
    ((parse_sacn_data_packet big_endian zeros 91 no_packet).0 ≡ true) ↔ (
      (88 ≤ 91)
      × (big_endian.unpack_u32b zeros 2 ≡ 2)
      × (zeros 79 ≡ 2)
      × (zeros 80 ≡ 0xa1)
      × (big_endian.unpack_u16b zeros 81 ≡ 0)
      × (big_endian.unpack_u16b zeros 83 ≡ 1)
      × (87 + big_endian.unpack_u16b zeros 85 ≤ 91))
parse_sacn_data_packet-accepts_example =
    parse_sacn_data_packet-accepts big_endian zeros 91 no_packet

-- The packet above, but with a property value count of 0.
abbrev no_values : Array
no_values = λ j.
    if j == 85
    then 0
    else if j == 86
    then 0
    else if j == 5
    then 2
    else if j == 79
    then 2
    else if j == 80
    then 0xa1
    else if j == 84
    then 1
    else 0

abbrev one_value : Array
one_value = λ j. if j == 86 then 2 else no_values j

one_value-accepted : (parse_sacn_data_packet big_endian one_value 89 no_packet).0 ≡ true
unfolding parse_sacn_data_packet
one_value-accepted = refl

abbrev two : ℕ
two = 2

parse_sacn_data_packet-bounds_example :
    (let u = (parse_sacn_data_packet big_endian one_value 89 no_packet).1.universe_data in
      let n = u.slot_range.address_count in
      (u.slot_range.start_address ≡ 1)
      × (u.values ≡ 88)
      × ((1 ≤ two) × (1 + n ≡ two) × (u.values + n ≤ 89) ⊎ (two ≡ 0) × (n ≡ 2 ^ 32 - 1)))
parse_sacn_data_packet-bounds_example =
    parse_sacn_data_packet-bounds big_endian one_value 89 no_packet (omega arith) (omega arith)
      one_value-accepted

set_terminated_opt-flag_example :
    (terminated_opt_set (set_terminated_opt zeros true) ≡ true)
    × (bit (set_terminated_opt zeros true 112) 7 ≡ bit 0 7)
    × (set_terminated_opt zeros true 112 < 256)
set_terminated_opt-flag_example = set_terminated_opt-flag zeros true (omega arith)

set_preview_opt-flag_example :
    (bit (set_preview_opt zeros true 112) 7 ≡ true)
    × (terminated_opt_set (set_preview_opt zeros true) ≡ terminated_opt_set zeros)
    × (set_preview_opt zeros true 112 < 256)
set_preview_opt-flag_example = set_preview_opt-flag zeros true (omega arith)

parse_sacn_universe_discovery_layer-packed_example :
    parse_sacn_universe_discovery_layer big_endian
      (from (pack_sacn_universe_discovery_layer_header big_endian zeros 112 3 0 1).1 112)
      14
      (record { page = 9; last_page = 9; universes = none; num_universes = 9 })
    ≡ (true, record { page = 0; last_page = 1; universes = some 8; num_universes = 3 })
parse_sacn_universe_discovery_layer-packed_example =
    parse_sacn_universe_discovery_layer-packed big_endian zeros 112 3 0 1
      (record { page = 9; last_page = 9; universes = none; num_universes = 9 }) (omega arith)
      (omega arith)
