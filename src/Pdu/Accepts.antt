-- ===== src/Pdu/Accepts.antt =====
-- What the parsing functions of src/sacn/pdu.c accept, and the flags that the macros of
-- src/sacn/private/pdu.h change.
use s_acn.Prelude.{
  ℕ, ◌+◌, ◌-◌, ◌*◌, ◌^◌, ◌≡◌, ◌≤◌, ◌<◌, ◌↔◌, ◌⊎◌, inl, inr, Bool-cases, ◌==◌, refl, Array, set,
  for_range, rounds-local, Bool, true, false, ltb, if◌then◌else◌, arith,
}
use s_acn.Pdu.Wire.{Wire, bit}
use s_acn.Pdu.Parse.{DataPacket, parse_sacn_data_packet, parse_sacn_universe_list}
use s_acn.Pdu.Pack.{set_terminated_opt, terminated_opt_set, set_preview_opt}

module _ (W : Wire) (buf : Array) (buflen : ℕ) (out : DataPacket) where
  -- parse_sacn_data_packet accepts a packet exactly when it is long enough for the fixed part, has the
  -- vectors and fixed values of a data packet, and its values end within the buffer; the values it
  -- then gives end there.
  pub parse_sacn_data_packet-accepts : ((parse_sacn_data_packet W buf buflen out).0 ≡ true) ↔ (
      (88 ≤ buflen)
      × (W.unpack_u32b buf 2 ≡ 2)
      × (buf 79 ≡ 2)
      × (buf 80 ≡ 0xa1)
      × (W.unpack_u16b buf 81 ≡ 0)
      × (W.unpack_u16b buf 83 ≡ 1)
      × (87 + W.unpack_u16b buf 85 ≤ buflen))
  unfolding parse_sacn_data_packet
  parse_sacn_data_packet-accepts = ground arith

  -- What parse_sacn_data_packet accepts has all its values, from byte 88 on, within the buffer, and the
  -- slot count and the start code are together the property value count of the packet; but for a
  -- packet whose property value count is 0, which is accepted like others, and has the slot count -1,
  -- as a bit pattern.
  pub parse_sacn_data_packet-bounds :
      buf 85 < 256
      → buf 86 < 256
      → (parse_sacn_data_packet W buf buflen out).0 ≡ true
      → (let u = (parse_sacn_data_packet W buf buflen out).1.universe_data in
          let n = u.slot_range.address_count in
          let count = W.unpack_u16b buf 85 in
          (u.slot_range.start_address ≡ 1)
          × (u.values ≡ 88)
          × ((1 ≤ count) × (1 + n ≡ count) × (u.values + n ≤ buflen)
              ⊎ (count ≡ 0) × (n ≡ 2 ^ 32 - 1)))
  unfolding parse_sacn_data_packet
  parse_sacn_data_packet-bounds hi lo e =
      let count = W.unpack_u16b-bytes buf 85 in
      (
        ground arith,
        ground arith,
        elim (Bool-cases (W.unpack_u16b buf 85 == 0)) [
          | inl z ↦ inr (ground arith, ground arith)
          | inr z ↦ inl (ground arith, ground arith, ground arith)
        ],
      )

module _ (W : Wire) (buf list : Array) (num_universes : ℕ) where
  -- parse_sacn_universe_list unpacks exactly the first num_universes entries.
  pub parse_sacn_universe_list-entry :
      (i : ℕ)
      → parse_sacn_universe_list W buf num_universes list i
        ≡ (if ltb i num_universes then W.unpack_u16b buf (i * 2) else list i)
  unfolding parse_sacn_universe_list for_range
  parse_sacn_universe_list-entry i = ground (
    arith,
    rounds-local (λ (s : Array) j. s j) (λ k s. set s k (W.unpack_u16b buf (k * 2)))
        (λ k _. W.unpack_u16b buf (k * 2)) (λ k j s. refl) num_universes 0 i list,
  )

-- SET_TERMINATED_OPT sets the flag that TERMINATED_OPT_SET reads, keeps the preview flag, and leaves a
-- byte.
pub set_terminated_opt-flag :
    (a : Array) (terminated : Bool)
    → a 112 < 256
    → (terminated_opt_set (set_terminated_opt a terminated) ≡ terminated)
      × (bit (set_terminated_opt a terminated 112) 7 ≡ bit (a 112) 7)
      × (set_terminated_opt a terminated 112 < 256)
set_terminated_opt-flag a true lt = ground arith
set_terminated_opt-flag a false lt = ground arith

-- SET_PREVIEW_OPT sets the preview flag, keeps the termination flag, and leaves a byte.
pub set_preview_opt-flag :
    (a : Array) (preview : Bool)
    → a 112 < 256
    → (bit (set_preview_opt a preview 112) 7 ≡ preview)
      × (terminated_opt_set (set_preview_opt a preview) ≡ terminated_opt_set a)
      × (set_preview_opt a preview 112 < 256)
set_preview_opt-flag a true lt = ground arith
set_preview_opt-flag a false lt = ground arith
