-- ===== src/Prelude/Lists.antt =====
-- Lists measured by native numbers, and membership as a family that proofs take apart.
use Prim.Native.Nat.{ℕ, suc}
use mathlib.Core.Path.{◌≡◌, sym, ◌∙◌}
use mathlib.Core.Logic.{◌⊎◌, inl, inr}
use mathlib.Core.List.{List, [], ◌∷◌}
use native.Mathlib.Omega.{arith}

module _ {ℓ} {A : Type ℓ} where
  abbrev pub length : List A → ℕ
  length [] = 0
  length (x ∷ xs) = suc (length xs)

pub data Member {ℓ} {A : Type ℓ} (a : A) : List A → Type ℓ where
  here : {b : A} {xs : List A} → a ≡ b → Member a (b ∷ xs)
  there : {b : A} {xs : List A} → Member a xs → Member a (b ∷ xs)

-- A list of length one has one member.
pub Member_single {ℓ} :
    {A : Type ℓ} (xs : List A) {a b : A} → length xs ≡ 1 → Member a xs → Member b xs → a ≡ b
Member_single [] e m n = absurd (omega arith)
Member_single (x ∷ []) e (here p) (here q) = p ∙ sym q
Member_single (x ∷ []) e (here p) (there n) = elim n [ ]
Member_single (x ∷ []) e (there m) n = elim m [ ]
Member_single (x ∷ y ∷ xs) e m n = absurd (omega arith)

pub Member_uncons {ℓ} :
    {A : Type ℓ} {a x : A} {xs : List A} → Member a (x ∷ xs) → (a ≡ x) ⊎ Member a xs
Member_uncons (here p) = inl p
Member_uncons (there m) = inr m
