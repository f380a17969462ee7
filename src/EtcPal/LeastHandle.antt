-- ===== src/EtcPal/LeastHandle.antt =====
-- A handle manager with the behaviour that the interface asks for: it gives the least handle that is
-- not in use.
use mathlib.Core.Bool.{false≢true}
use s_acn.Prelude.{
  ℕ, zero, suc, ◌+◌, ◌≤◌, ◌<◌, ◌≡◌, ◌≢◌, inl, inr, refl, sym, ◌∙◌, ap, Bool, false, if◌then◌else◌,
  arith, Bool-cases,
}
use s_acn.EtcPal.{IntHandleManager}

-- The first of the `n` numbers from `k` on that is not in use, or the number after them.
unfoldable pub least_unused : (ℕ → Bool) → ℕ → ℕ → ℕ
least_unused u zero k = k
least_unused u (suc n) k = let rest = least_unused u n (k + 1) in if u k then rest else k

least_unused-lem :
    (u : ℕ → Bool) (n k j : ℕ)
    → k ≤ j
    → j < k + n
    → u j ≡ false
    → (u (least_unused u n k) ≡ false) × (least_unused u n k < k + n)
unfolding least_unused
least_unused-lem u zero k j a b e = absurd (omega arith)
least_unused-lem u (suc n) k j a b e = elim (Bool-cases (u k)) [
  | inr f ↦ rw (f, least_unused) (f, omega arith)
  | inl f ↦
      let ne : k ≢ j = λ h. false≢true (sym e ∙ ap u (sym h) ∙ f) in
      let (p, q) = least_unused-lem u n (k + 1) j (omega arith) (omega arith) e in
      rw (f, least_unused) (p, omega arith)
]

unfoldable pub least_manager : IntHandleManager
unfolding least_unused least_unused-lem
least_manager = record {
  Manager = ℕ;
  init_manager = λ m. m;
  get_next = λ u m. (least_unused u (m + 1) 0, m);
  max_value = λ m. m;
  max_value-init = λ m. refl;
  max_value-get_next = λ u m. refl;
  get_next-unused = λ u m k le e.
      let (p, q) = least_unused-lem u (m + 1) 0 k (omega arith) (omega arith) e in (p, omega arith);
}
