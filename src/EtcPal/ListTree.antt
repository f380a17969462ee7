-- ===== src/EtcPal/ListTree.antt =====
-- A tree with the behaviour that the interface asks for: a list of entries of distinct keys. The
-- examples run on it.
use s_acn.Prelude.{
  ℕ, ◌<◌, ◌+◌, ◌≡◌, ◌≢◌, ◌⊎◌, ◌↔◌, inl, inr, refl, sym, ◌∙◌, ap, none, some, Option-cases, List, [],
  ◌∷◌, length, Member, Member_uncons, here, there, arith,
}
use s_acn.EtcPal.{RbTree, EtcPalError, ok, not_found, exists}
use s_acn.EtcPal.Keys.{
  find_key, find_key-some, find_key-none, drop_key, drop_key-member, drop_key-smaller, replace_key,
  length-replace_key, replace_key-old, replace_key-kept, replace_key-new,
}

module _ {V : Type 0} (key : V → ℕ) where
  pub record Entries : Type 0 where
    pub entries : List V
    pub distinct : (v w : V) → Member v entries → Member w entries → key v ≡ key w → v ≡ w

  apart :
      (t : Entries) (v : V)
      → find_key key (key v) t.entries ≡ none
      → (a b : V) → Member a (v ∷ t.entries)
      → Member b (v ∷ t.entries)
      → key a ≡ key b
      → a ≡ b
  apart t v e a b m n p = elim (Member_uncons m) [
    | inl f ↦ elim (Member_uncons n) [
      | inl g ↦ f ∙ sym g
      | inr n' ↦ absurd (find_key-none key (key v) t.entries b e n' (sym p ∙ ap key f))
    ]
    | inr m' ↦ elim (Member_uncons n) [
      | inl g ↦ absurd (find_key-none key (key v) t.entries a e m' (p ∙ ap key g))
      | inr n' ↦ t.distinct a b m' n' p
    ]
  ]

  abbrev Found : V → Entries → Type 0
  Found v t =
      (find_key key (key v) t.entries ≡ none)
      ⊎ ((w : V) × (find_key key (key v) t.entries ≡ some w))

  insert_by : (v : V) (t : Entries) → Found v t → EtcPalError × Entries
  insert_by v t (inl e) = (ok, record { entries = v ∷ t.entries; distinct = apart t v e })
  insert_by v t (inr _) = (exists, t)

  insert_entry : V → Entries → EtcPalError × Entries
  unfolding insert_by
  insert_entry v t = insert_by v t (Option-cases (find_key key (key v) t.entries))

  insert_by-ok :
      (v : V) (t : Entries) (f : Found v t) (w : V)
      → (insert_by v t f).0 ≡ ok
      → Member w (insert_by v t f).1.entries ↔ ((w ≡ v) ⊎ Member w t.entries)
  unfolding insert_by
  insert_by-ok v t (inl e) w h =
      (λ m. Member_uncons m, λ m. elim m [ inl p ↦ here p | inr n ↦ there n ])
  insert_by-ok v t (inr p) w h = absurd (cc)

  insert_by-refused :
      (v : V) (t : Entries) (f : Found v t) → (insert_by v t f).0 ≢ ok → (insert_by v t f).1 ≡ t
  unfolding insert_by
  insert_by-refused v t (inl e) h = absurd (h refl)
  insert_by-refused v t (inr p) h = refl

  remove_entry : ℕ → Entries → EtcPalError × Entries
  remove_entry k t = elim (find_key key k t.entries) [
    | none ↦ (not_found, t)
    | some _ ↦ (
      ok,
      record {
        entries = drop_key key k t.entries;
        distinct = λ v w m n.
            t.distinct v w ((drop_key-member key k t.entries v).0 m).0
              ((drop_key-member key k t.entries w).0 n).0;
      },
    )
  ]

  store_entry : V → Entries → Entries
  store_entry v t = record {
    entries = replace_key key v t.entries;
    distinct = λ a b m n p. elim (replace_key-old key v t.entries a m) [
      | inl f ↦ elim (replace_key-old key v t.entries b n) [
        | inl g ↦ f ∙ sym g
        | inr (_, ne) ↦ absurd (ne (sym p ∙ ap key f))
      ]
      | inr (m', ne) ↦ elim (replace_key-old key v t.entries b n) [
        | inl g ↦ absurd (ne (p ∙ ap key g))
        | inr (n', _) ↦ t.distinct a b m' n' p
      ]
    ];
  }

  remove-lemma :
      (t : Entries) (k : ℕ) (w : V)
      → (remove_entry k t).0 ≡ ok
      → Member w (remove_entry k t).1.entries ↔ (Member w t.entries × (key w ≢ k))
  unfolding remove_entry
  remove-lemma t k w h = elim (Option-cases (find_key key k t.entries)) [
    | inl e ↦ absurd (ground arith)
    | inr (v, e) ↦ rw (e, remove_entry) (drop_key-member key k t.entries w)
  ]

  insert_by-size :
      (v : V) (t : Entries) (f : Found v t)
      → (insert_by v t f).0 ≡ ok
      → length (insert_by v t f).1.entries ≡ length t.entries + 1
  unfolding insert_by
  insert_by-size v t (inl e) h = omega arith
  insert_by-size v t (inr p) h = absurd (cc)

  remove-smaller :
      (t : Entries) (k : ℕ)
      → (remove_entry k t).0 ≡ ok
      → length (remove_entry k t).1.entries < length t.entries
  unfolding remove_entry
  remove-smaller t k h = elim (Option-cases (find_key key k t.entries)) [
    | inl e ↦ absurd (ground arith)
    | inr (v, e) ↦ rw (e, remove_entry) (drop_key-smaller key k t.entries v e)
  ]

  remove-found : (t : Entries) (w : V) → Member w t.entries → (remove_entry (key w) t).0 ≡ ok
  unfolding remove_entry
  remove-found t w m = elim (Option-cases (find_key key (key w) t.entries)) [
    | inl e ↦ absurd (find_key-none key (key w) t.entries w e m refl)
    | inr (v, e) ↦ rw (e, remove_entry) refl
  ]

  remove-refused : (t : Entries) (k : ℕ) → (remove_entry k t).0 ≢ ok → (remove_entry k t).1 ≡ t
  unfolding remove_entry
  remove-refused t k h = elim (Option-cases (find_key key k t.entries)) [
    | inl e ↦ rw (e, remove_entry) refl
    | inr (v, e) ↦ absurd (h (rw (e, remove_entry) refl))
  ]

  unfoldable pub list_tree : RbTree V key
  unfolding find_key insert_entry remove_entry store_entry drop_key replace_key apart insert_by-ok
      insert_by-refused insert_by-size remove-smaller remove-lemma remove-found remove-refused
  list_tree = record {
    Tree = Entries;
    init = record { entries = []; distinct = λ v w m n e. elim m [ ] };
    items = λ t. t.entries;
    size = λ t. length t.entries;
    find = λ k t. find_key key k t.entries;
    insert = insert_entry;
    remove = remove_entry;
    store = store_entry;
    init-empty = refl;
    size-length = λ t. refl;
    key_unique = λ t. t.distinct;
    find-some = λ t k v e. find_key-some key k t.entries v e;
    find-none = λ t k v e m. find_key-none key k t.entries v e m;
    insert-ok = λ t v w h. insert_by-ok v t (Option-cases (find_key key (key v) t.entries)) w h;
    insert-refused =
        λ t v h. insert_by-refused v t (Option-cases (find_key key (key v) t.entries)) h;
    remove-ok = remove-lemma;
    remove-found = remove-found;
    remove-refused = remove-refused;
    store-member = λ t v u w m e. (
      λ n. replace_key-old key v t.entries w n,
      λ n. elim n [
        | inl f ↦ rw f (replace_key-new key v t.entries u m e)
        | inr (n', ne) ↦ replace_key-kept key v t.entries w n' ne
      ],
    );
    insert-size = λ t v h. insert_by-size v t (Option-cases (find_key key (key v) t.entries)) h;
    remove-smaller = remove-smaller;
    store-size = λ t v. length-replace_key key v t.entries;
  }
