-- ===== src/Receiver/Source/Sequence.antt =====
-- check_sequence against the sequence numbering of E1.31, which subtracts in signed 8-bit arithmetic.
use s_acn.Prelude.{ℕ, ◌+◌, ◌-◌, ◌%◌, ◌≡◌, ◌↔◌, ◌≤◌, ◌<◌, Bool, true, ◌&&◌, not, ltb, ◌==◌, arith}
use s_acn.Receiver.Source.{check_sequence}

-- The 8-bit difference is not 0, and not one of -1 to -19.
abbrev pub in_order : ℕ → ℕ → Bool
in_order new_seq old_seq =
    let difference = (new_seq + 256 - old_seq) % 256 in not (difference == 0) && ltb difference 237

-- On sequence numbers of a byte, check_sequence is the test of E1.31 exactly where the new number is
-- less than 237 above the old one; above that, up to 19 behind it in 8-bit arithmetic, it accepts the
-- packet, and the test of E1.31 does not.
pub check_sequence-in_order :
    (new_seq old_seq : ℕ)
    → new_seq < 256
    → old_seq < 256
    → ((check_sequence new_seq old_seq ≡ in_order new_seq old_seq) ↔ (new_seq < old_seq + 237))
      × (old_seq + 237 ≤ new_seq → check_sequence new_seq old_seq ≡ true)
unfolding check_sequence
check_sequence-in_order new_seq old_seq a b = ground arith
