-- ===== src/Pdu/Strings.antt =====
-- Strings that go through a field of a packet: strncpy on both sides, and the terminator.
use s_acn.Prelude.{
  ℕ, zero, suc, ◌+◌, ◌≡◌, ◌≢◌, ◌≤◌, ◌<◌, ap, ◌∙◌, sym, Array, Bool-cases, inl, inr, ltb, ◌==◌,
  if◌then◌else◌, arith,
}
use s_acn.Pdu.Wire.{from, str_len, c_string}

pub str_len-le : (s : Array) (n : ℕ) → str_len s n ≤ n
unfolding str_len
str_len-le s zero = omega arith
str_len-le s (suc n) = let h = str_len-le (from s 1) n in ground arith

pub str_len-chars : (s : Array) (n i : ℕ) → i < str_len s n → s i ≢ 0
unfolding str_len
str_len-chars s zero i lt = absurd (omega arith)
str_len-chars s (suc n) zero lt = λ e. ground arith
str_len-chars s (suc n) (suc i) lt = λ e.
    let h = str_len-chars (from s 1) n i (ground arith) in
    h (ap s (let z : 1 + i ≡ suc i = omega arith in z) ∙ e)

pub str_len-end : (s : Array) (n : ℕ) → str_len s n < n → s (str_len s n) ≡ 0
unfolding str_len
str_len-end s zero lt = absurd (omega arith)
str_len-end s (suc n) lt = elim (Bool-cases (s 0 == 0)) [
  | inl e ↦ rw (e, str_len) (ground arith)
  | inr e ↦
      rw (e, str_len)
        (let h = str_len-end (from s 1) n (ground arith) in
          ap s (let z : suc (str_len (from s 1) n) ≡ 1 + str_len (from s 1) n = omega arith in z)
          ∙ h)
]

pub str_len_unique :
    (s : Array) (n k : ℕ)
    → k ≤ n
    → ((i : ℕ) → i < k → s i ≢ 0)
    → (k < n → s k ≡ 0)
    → str_len s n ≡ k
unfolding str_len
str_len_unique s zero k le chars end = omega arith
str_len_unique s (suc n) zero le chars end = let e = end (omega arith) in ground arith
str_len_unique s (suc n) (suc k) le chars end =
    let first = chars 0 (omega arith) in
    let at = λ (i : ℕ). let z : 1 + i ≡ suc i = omega arith in ap s z in
    let rest =
      str_len_unique (from s 1) n k (omega arith)
        (λ i lt e. chars (suc i) (omega arith) (sym (at i) ∙ e)) (λ lt. at k ∙ end (omega arith)) in
    ground arith

-- A string of at most 63 characters, or the first 63 of a longer one, is read from a field of 64
-- bytes that it was written to with a terminator.
pub c_string_again :
    (field name : Array)
    → ((i : ℕ) → i < 63 → field i ≡ c_string name 64 i)
    → field 63 ≡ 0
    → (i : ℕ) → i < 63
    → c_string field 64 i ≡ c_string name 64 i
c_string_again field name same last i lt =
    let l = str_len name 64 in
    let k = if ltb l 63 then l else 63 in
    let le = str_len-le name 64 in
    let stops = str_len-end name 64 in
    let len : str_len field 64 ≡ k =
      str_len_unique field 64 k (ground arith)
        (λ j b e.
          let z = same j (ground arith) in
          let c = str_len-chars name 64 j (ground arith) in ground arith)
        (λ b. elim (Bool-cases (ltb l 63)) [
          | inl e ↦ let z = same l (ground arith) in rw e (ground arith)
          | inr e ↦ rw e last
        ]) in
    let z = same i lt in ground arith
