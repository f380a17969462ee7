-- ===== src/Detector/Pages/Ascending.antt =====
-- The check that a list of universes is in ascending order.
use s_acn.Prelude.{
  ℕ, zero, suc, ◌+◌, ◌-◌, ◌≡◌, ◌<◌, ◌≤◌, ◌↔◌, inl, inr, ap, Array, Bool, true, ltb, if◌then◌else◌,
  Bool-cases, eq-cases, arith, rounds, for_range,
}
use s_acn.Detector.State.{DiscoverySource}
use s_acn.Detector.Page.{stays_dirty}

-- The first `n` universes are in strictly ascending order.
abbrev pub IsAscending : Array → ℕ → Type 0
IsAscending universes n = (i : ℕ) → i + 1 < n → universes i < universes (i + 1)

abbrev verify : Array → ℕ → Bool → Bool
verify us i dirty = if dirty then ltb (us (i - 1)) (us i) else dirty

rounds-dirty :
    (us : Array) (n i : ℕ) (d : Bool)
    → rounds n i (verify us) d ≡ true
    → (d ≡ true) × ((j : ℕ) → i ≤ j → j < i + n → us (j - 1) < us j)
unfolding rounds
rounds-dirty us zero i d h = (h, λ j a b. absurd (omega arith))
rounds-dirty us (suc n) i d h =
    let (e, f) = rounds-dirty us n (i + 1) (verify us i d) h in
    elim (Bool-cases d) [
      | inr g ↦ absurd (ground arith)
      | inl g ↦ (
        g,
        λ j a b. elim (eq-cases j i) [
          | inl p ↦ rw p (ground arith)
          | inr p ↦ f j (omega arith) (omega arith)
        ],
      )
    ]

dirty-rounds :
    (us : Array) (n i : ℕ) (d : Bool)
    → d ≡ true
    → ((j : ℕ) → i ≤ j → j < i + n → us (j - 1) < us j)
    → rounds n i (verify us) d ≡ true
unfolding rounds
dirty-rounds us zero i d h up = h
dirty-rounds us (suc n) i d h up =
    let first = up i (omega arith) (omega arith) in
    dirty-rounds us n (i + 1) (verify us i d) (ground arith)
      (λ j a b. up j (omega arith) (omega arith))

-- The list stays dirty if it is dirty and in ascending order.
pub stays_dirty-IsAscending :
    {Timer : Type 0} (s : DiscoverySource Timer)
    → (stays_dirty s ≡ true)
      ↔ ((s.universes_dirty ≡ true) × IsAscending s.universes s.num_universes)
unfolding stays_dirty for_range
stays_dirty-IsAscending s = (
  λ h.
      let (d, up) = rounds-dirty s.universes (s.num_universes - 1) 1 s.universes_dirty h in
      (
        d,
        λ i lt.
            let r = up (i + 1) (omega arith) (omega arith) in
            let p : i + 1 - 1 ≡ i = omega arith in let q = ap s.universes p in omega arith,
      ),
  λ (d, up). dirty-rounds s.universes (s.num_universes - 1) 1 s.universes_dirty d (λ j a b.
      let r = up (j - 1) (omega arith) in
      let p : j - 1 + 1 ≡ j = omega arith in let q = ap s.universes p in omega arith),
)
