-- ===== src/Prelude/Arrays.antt =====
-- Fixed C arrays of bytes or handles as functions of the index, the calls of <string.h> on them, and
-- counted loops.
use Prim.Native.Nat.{ℕ, zero, suc, ◌+◌, ◌-◌, ◌<◌}
use mathlib.Core.Path.{◌≡◌}
use mathlib.Core.Bool.{Bool, false, ◌&&◌, ◌||◌, not}
use native.Mathlib.Omega.{arith}
use s_acn.Prelude.Tests.{ltb, leb, ◌==◌, if◌then◌else◌}

abbrev pub Array : Type 0
Array = ℕ → ℕ

-- a[i] = v
abbrev pub set : Array → ℕ → ℕ → Array
set a i v = λ j. if j == i then v else a j

-- memset(&a[from], v, n)
abbrev pub memset : Array → ℕ → ℕ → ℕ → Array
memset a from v n = λ j. if leb from j && ltb j (from + n) then v else a j

-- memcpy(a, src, n)
abbrev pub memcpy : Array → Array → ℕ → Array
memcpy a src n = λ j. if ltb j n then src j else a j

-- memcmp(a, b, n) != 0
pub differs : Array → Array → ℕ → Bool
differs a b zero = false
differs a b (suc n) = not (a n == b n) || differs a b n

pub differs-false : (a b : Array) (n i : ℕ) → differs a b n ≡ false → i < n → a i ≡ b i
unfolding differs
differs-false a b zero i h p = absurd (omega arith)
differs-false a b (suc n) i h p = ground (arith, differs-false a b n i)

pub differs-same : (a b : Array) (n : ℕ) → ((i : ℕ) → i < n → a i ≡ b i) → differs a b n ≡ false
unfolding differs
differs-same a b zero h = ground arith
differs-same a b (suc n) h =
    let rest = differs-same a b n (λ i lt. h i (omega arith)) in
    let last = h n (omega arith) in ground arith

-- The rounds of `for (i = first; rounds are left; ++i)`.
unfoldable pub rounds {ℓ} : {S : Type ℓ} → ℕ → ℕ → (ℕ → S → S) → S → S
rounds zero i body s = s
rounds (suc n) i body s = rounds n (i + 1) body (body i s)

-- for (i = first; i < end; ++i)
unfoldable pub for_range {ℓ} : {S : Type ℓ} → ℕ → ℕ → (ℕ → S → S) → S → S
for_range first end body s = rounds (end - first) first body s

-- What holds of a value that the body keeps.
pub rounds-keeps {ℓ κ} :
    {S : Type ℓ} (P : S → Type κ) (body : ℕ → S → S)
    → ((i : ℕ) (s : S) → P s → P (body i s))
    → (n i : ℕ) (s : S) → P s
    → P (rounds n i body s)
unfolding rounds
rounds-keeps P body keep zero i s h = h
rounds-keeps P body keep (suc n) i s h = rounds-keeps P body keep n (i + 1) (body i s) (keep i s h)

-- A loop whose body changes entry `i` of a table alone, by `f i`, changes the entries of its range so.
module _ {ℓ κ} {S : Type ℓ} {E : Type κ} (entry : S → ℕ → E) (body : ℕ → S → S) (f : ℕ → E → E)
    (local : (i j : ℕ) (s : S)
      → entry (body i s) j ≡ (if j == i then f i (entry s i) else entry s j)) where
  pub rounds-local :
      (n i j : ℕ) (s : S)
      → entry (rounds n i body s) j
        ≡ (if leb i j && ltb j (i + n) then f j (entry s j) else entry s j)
  unfolding rounds
  rounds-local zero i j s = ground arith
  rounds-local (suc n) i j s =
      ground (arith, rounds-local n (i + 1) j (body i s), local i j s, local i i s)
