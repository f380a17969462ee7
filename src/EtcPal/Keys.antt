-- ===== src/EtcPal/Keys.antt =====
-- Search, removal and replacement by key in a list of entries.
use s_acn.Prelude.{
  ℕ, suc, ◌≤◌, ◌<◌, ◌≡◌, ◌≢◌, ◌⊎◌, ◌↔◌, inl, inr, refl, sym, ◌∙◌, ap, true, false, ◌==◌,
  if◌then◌else◌, Option, none, some, List, [], ◌∷◌, length, Member, Member_uncons, here, there,
  arith, Bool-cases,
}

module _ {V : Type 0} (key : V → ℕ) where
  unfoldable pub find_key : ℕ → List V → Option V
  find_key k [] = none
  find_key k (v ∷ vs) = if key v == k then some v else find_key k vs

  pub find_key-some :
      (k : ℕ) (vs : List V) (v : V) → find_key k vs ≡ some v → Member v vs × (key v ≡ k)
  unfolding find_key
  find_key-some k [] v e = absurd (cc)
  find_key-some k (x ∷ xs) v e = elim (Bool-cases (key x == k)) [
    | inl f ↦ let g : x ≡ v = ground arith in (here (sym g), ap key (sym g) ∙ ground arith)
    | inr f ↦ let (m, h) = find_key-some k xs v (ground arith) in (there m, h)
  ]

  pub find_key-none : (k : ℕ) (vs : List V) (v : V) → find_key k vs ≡ none → Member v vs → key v ≢ k
  unfolding find_key
  find_key-none k [] v e m = elim m [ ]
  find_key-none k (x ∷ xs) v e (here p) =
      λ h. let f : key x ≡ k = ap key (sym p) ∙ h in absurd (ground arith)
  find_key-none k (x ∷ xs) v e (there m) = find_key-none k xs v (ground arith) m

  unfoldable pub drop_key : ℕ → List V → List V
  drop_key k [] = []
  drop_key k (v ∷ vs) = if key v == k then drop_key k vs else v ∷ drop_key k vs

  pub drop_key-member :
      (k : ℕ) (vs : List V) (w : V) → Member w (drop_key k vs) ↔ (Member w vs × (key w ≢ k))
  unfolding drop_key
  drop_key-member k [] w = (λ m. elim m [ ], λ (m, _). elim m [ ])
  drop_key-member k (v ∷ vs) w =
      let (to, from) = drop_key-member k vs w in
      elim (Bool-cases (key v == k)) [
        | inl e ↦
            let f : key v ≡ k = ground arith in
            rw (e, drop_key)
              (
                λ m. (there (to m).0, (to m).1),
                λ (m, ne). elim (Member_uncons m) [
                  | inl p ↦ absurd (ne (ap key p ∙ f))
                  | inr n ↦ from (n, ne)
                ],
              )
        | inr e ↦
            let f : key v ≢ k = ground arith in
            rw (e, drop_key)
              (
                λ m. elim (Member_uncons m) [
                  | inl p ↦ (here p, λ h. f (ap key (sym p) ∙ h))
                  | inr n ↦ (there (to n).0, (to n).1)
                ],
                λ (m, ne). elim (Member_uncons m) [ inl p ↦ here p | inr n ↦ there (from (n, ne)) ],
              )
      ]

  pub drop_key-le : (k : ℕ) (vs : List V) → length (drop_key k vs) ≤ length vs
  unfolding drop_key
  drop_key-le k [] = omega arith
  drop_key-le k (v ∷ vs) =
      let h = drop_key-le k vs in
      elim (Bool-cases (key v == k)) [
        | inl e ↦ rw (e, drop_key) (omega arith)
        | inr e ↦ rw (e, drop_key) (omega arith)
      ]

  pub drop_key-smaller :
      (k : ℕ) (vs : List V) (w : V) → find_key k vs ≡ some w → length (drop_key k vs) < length vs
  unfolding drop_key find_key
  drop_key-smaller k [] w h = absurd (cc)
  drop_key-smaller k (v ∷ vs) w h = elim (Bool-cases (key v == k)) [
    | inl e ↦ let le = drop_key-le k vs in rw (e, drop_key) (omega arith)
    | inr e ↦ let lt = drop_key-smaller k vs w (ground arith) in rw (e, drop_key) (omega arith)
  ]

  unfoldable pub replace_key : V → List V → List V
  replace_key v [] = []
  replace_key v (w ∷ ws) = (if key w == key v then v else w) ∷ replace_key v ws

  pub length-replace_key : (v : V) (ws : List V) → length (replace_key v ws) ≡ length ws
  unfolding replace_key
  length-replace_key v [] = refl
  length-replace_key v (w ∷ ws) = ap suc (length-replace_key v ws)

  -- Each entry of the new list is the new value, or an old entry of another key; and back.
  pub replace_key-old :
      (v : V) (ws : List V) (w : V)
      → Member w (replace_key v ws)
      → (w ≡ v) ⊎ (Member w ws × (key w ≢ key v))
  unfolding replace_key
  replace_key-old v [] w m = elim m [ ]
  replace_key-old v (x ∷ xs) w (here p) = elim (Bool-cases (key x == key v)) [
    | inl e ↦ inl (p ∙ rw e refl)
    | inr e ↦
        let q : w ≡ x = p ∙ rw e refl in
        let ne : key x ≢ key v = ground arith in inr (here q, λ h. ne (ap key (sym q) ∙ h))
  ]
  replace_key-old v (x ∷ xs) w (there m) = elim (replace_key-old v xs w m) [
    | inl e ↦ inl e
    | inr (n, ne) ↦ inr (there n, ne)
  ]

  pub replace_key-kept :
      (v : V) (ws : List V) (w : V) → Member w ws → key w ≢ key v → Member w (replace_key v ws)
  unfolding replace_key
  replace_key-kept v [] w m ne = elim m [ ]
  replace_key-kept v (x ∷ xs) w (here p) ne =
      let f : (key x == key v) ≡ false = let q = ap key p in ground arith in here (p ∙ rw f refl)
  replace_key-kept v (x ∷ xs) w (there m) ne = there (replace_key-kept v xs w m ne)

  pub replace_key-new :
      (v : V) (ws : List V) (u : V) → Member u ws → key u ≡ key v → Member v (replace_key v ws)
  unfolding replace_key
  replace_key-new v [] u m e = elim m [ ]
  replace_key-new v (x ∷ xs) u (here p) e =
      let f : (key x == key v) ≡ true = let q = ap key p in ground arith in here (rw f refl)
  replace_key-new v (x ∷ xs) u (there m) e = there (replace_key-new v xs u m e)
