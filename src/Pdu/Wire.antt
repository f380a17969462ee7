-- ===== src/Pdu/Wire.antt =====
-- Bytes in a buffer, the macros of src/sacn/private/pdu.h on single bytes, and the packing functions
-- of EtcPal, which is not part of this repository.
use s_acn.Prelude.{
  ℕ, zero, suc, ◌+◌, ◌-◌, ◌*◌, ◌/◌, ◌%◌, ◌^◌, ◌≡◌, Array, Bool, true, false, ◌&&◌, ltb, leb, ◌==◌,
  if◌then◌else◌,
}

-- &a[p]
abbrev pub from : Array → ℕ → Array
from a p = λ i. a (p + i)

-- memcpy(&a[p], src, n)
abbrev pub write : Array → ℕ → Array → ℕ → Array
write a p src n = λ j. if leb p j && ltb j (p + n) then src (j - p) else a j

-- (byte & (1 << k)) != 0
abbrev pub bit : ℕ → ℕ → Bool
bit byte k = (byte / 2 ^ k) % 2 == 1

-- byte |= 1 << k, and byte &= ~(1 << k)
abbrev pub put_bit : ℕ → ℕ → Bool → ℕ
put_bit byte k true = if bit byte k then byte else byte + 2 ^ k
put_bit byte k false = if bit byte k then byte - 2 ^ k else byte

-- The number of characters of a string before its terminator, at most `n`.
unfoldable pub str_len : Array → ℕ → ℕ
str_len s zero = zero
str_len s (suc n) = let rest = str_len (from s 1) n in if s 0 == 0 then 0 else suc rest

-- What strncpy writes for a string: its characters, then 0.
abbrev pub c_string : Array → ℕ → Array
c_string s n = λ i. if ltb i (str_len s n) then s i else 0

-- etcpal/pack.h and etcpal/acn_pdu.h: numbers are packed with the most significant byte first. The
-- flags and the length of a PDU share its first two bytes: 4 bits and 12.
pub record Wire : Type 0 where
  pub unpack_u16b : Array → ℕ → ℕ
  pub unpack_u32b : Array → ℕ → ℕ
  pub pack_u16b : Array → ℕ → ℕ → Array
  pub pack_u32b : Array → ℕ → ℕ → Array
  pub set_v_flag : ℕ → ℕ
  pub set_h_flag : ℕ → ℕ
  pub set_d_flag : ℕ → ℕ
  pub pack_normal_len : Array → ℕ → ℕ → Array
  pub pdu_length : Array → ℕ → ℕ
  pub pack_udp_preamble : Array → ℕ → ℕ × Array
  pub vector_root_data : ℕ
  pub vector_root_extended : ℕ
  pub unpack_u16b-bytes : (a : Array) (p : ℕ) → unpack_u16b a p ≡ a p * 256 + a (p + 1)
  pub unpack_u32b-bytes :
      (a : Array) (p : ℕ)
      → unpack_u32b a p ≡ ((a p * 256 + a (p + 1)) * 256 + a (p + 2)) * 256 + a (p + 3)
  pub pack_u16b-bytes :
      (a : Array) (p v j : ℕ)
      → pack_u16b a p v j
        ≡ (if j == p then (v / 256) % 256 else if j == p + 1 then v % 256 else a j)
  pub pack_u32b-bytes :
      (a : Array) (p v j : ℕ)
      → pack_u32b a p v j ≡ (
          if j == p
          then (v / 16777216) % 256
          else if j == p + 1
          then (v / 65536) % 256
          else if j == p + 2
          then (v / 256) % 256
          else if j == p + 3
          then v % 256
          else a j)
  pub pack_normal_len-bytes :
      (a : Array) (p n j : ℕ)
      → pack_normal_len a p n j ≡ (
          if j == p
          then (a p / 16) % 16 * 16 + (n / 256) % 16
          else if j == p + 1
          then n % 256
          else a j)
  pub pdu_length-bytes : (a : Array) (p : ℕ) → pdu_length a p ≡ a p % 16 * 256 + a (p + 1)
  pub pack_udp_preamble-size : (a : Array) (p : ℕ) → (pack_udp_preamble a p).0 ≡ 16
  pub pack_udp_preamble-local :
      (a : Array) (p j : ℕ)
      → (leb p j && ltb j (p + 16)) ≡ false
      → (pack_udp_preamble a p).1 j ≡ a j
