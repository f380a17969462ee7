-- ===== src/SourceLoss/Known.antt =====
-- The sources known to be offline, in the tree term_set_sources, where src/sacn/source_loss.c takes in
-- other sources.
use s_acn.Prelude.{
  ℕ, ◌≡◌, ◌≢◌, refl, sym, ap, subst, inl, inr, true, false, Bool-cases, none, Option-cases, List,
  [], ◌∷◌, Member, here, there, arith,
}
use s_acn.EtcPal.{ok, is_ok}
use s_acn.SourceLoss.State.{
  SourceTree, KeyTree, RemoteSource, TermSetSource, key_of, source_key, remote_source_invalid,
  find_existing_ts_src, insert_new_ts_src,
}
use s_acn.SourceLoss.Offline.{Memory, add_unknown}
use s_acn.SourceLoss.Confirmed.{is_ok-true}

module _ (G : SourceTree) (S : KeyTree) (Timer : Type 0) where
  -- The source of the key is in term_set_sources, and known to be offline.
  abbrev pub Known : ℕ → G.Tree → Type 0
  Known k all = (s : TermSetSource) × Member s (G.items all) × (key_of s ≡ k) × (s.offline ≡ true)

  remove-kept :
      (k : ℕ) (a : G.Tree) (t : TermSetSource)
      → Member t (G.items a)
      → key_of t ≢ k
      → Member t (G.items (G.remove k a).1)
  remove-kept k a t m ne = elim (Bool-cases (is_ok (G.remove k a).0)) [
    | inl e ↦ (G.remove-ok a k t (is_ok-true (G.remove k a).0 e)).1 (m, ne)
    | inr e ↦
        let same = G.remove-refused a k (λ h. let z = ap is_ok h in ground arith) in
        subst (λ (x : G.Tree). Member t (G.items x)) (sym same) m
  ]

  pub insert-Known :
      (k : ℕ) (s : TermSetSource) (sources : S.Tree) (all : G.Tree)
      → G.find (key_of s) all ≡ none
      → Known k all
      → Known k (insert_new_ts_src G S Timer s sources all).2
  unfolding insert_new_ts_src
  insert-Known k s sources all fresh (t, m, e, o) =
      let ne = G.find-none all (key_of s) t fresh m in
      elim (Bool-cases (is_ok (G.insert s all).0)) [
        | inr a ↦
            let same = G.insert-refused all s (λ h. let z = ap is_ok h in ground arith) in
            rw (a, insert_new_ts_src)
              (t, subst (λ (x : G.Tree). Member t (G.items x)) (sym same) m, e, o)
        | inl a ↦
            let n = (G.insert-ok all s t (is_ok-true (G.insert s all).0 a)).1 (inr m) in
            elim (Bool-cases (is_ok (S.insert (key_of s) sources).0)) [
              | inl b ↦ rw (a, b, insert_new_ts_src) (t, n, e, o)
              | inr b ↦
                  rw (a, b, insert_new_ts_src)
                    (t, remove-kept (key_of s) (G.insert s all).1 t n ne, e, o)
            ]
      ]

  pub inserted-Known :
      (s : TermSetSource) (sources : S.Tree) (all : G.Tree)
      → s.offline ≡ true
      → (insert_new_ts_src G S Timer s sources all).0 ≡ ok
      → Known (key_of s) (insert_new_ts_src G S Timer s sources all).2
  unfolding insert_new_ts_src
  inserted-Known s sources all o h = elim (Bool-cases (is_ok (G.insert s all).0)) [
    | inr a ↦ absurd (ground arith)
    | inl a ↦
        let n = (G.insert-ok all s s (is_ok-true (G.insert s all).0 a)).1 (inl refl) in
        elim (Bool-cases (is_ok (S.insert (key_of s) sources).0)) [
          | inl b ↦ rw (a, b, insert_new_ts_src) (s, n, refl, o)
          | inr b ↦ absurd (ground arith)
        ]
  ]

  pub found-none :
      (universe handle : ℕ) (all : G.Tree)
      → handle ≢ remote_source_invalid
      → find_existing_ts_src G S Timer universe handle all ≡ none
      → G.find (source_key handle universe) all ≡ none
  unfolding find_existing_ts_src
  found-none universe handle all v e = ground arith

  module _ (start : ℕ → Timer) (memory : Memory) (universe : ℕ) where
    pub add_unknown-Known :
        (k : ℕ) (us : List RemoteSource) (sources : S.Tree) (all : G.Tree)
        → ((u : RemoteSource) → Member u us → u.handle ≢ remote_source_invalid)
        → Known k all
        → Known k (add_unknown G S Timer start memory universe us sources all).2
    unfolding add_unknown
    add_unknown-Known k [] sources all valid h = h
    add_unknown-Known k (u ∷ us) sources all valid h =
        let s : TermSetSource = record {
          handle = u.handle;
          universe = universe;
          name = u.name;
          offline = false;
          terminated = false;
        } in
        let later = λ (w : RemoteSource) (m : Member w us). valid w (there m) in
        elim (Option-cases (find_existing_ts_src G S Timer universe u.handle all)) [
          | inr (t, e) ↦ rw (e, add_unknown) (add_unknown-Known k us sources all later h)
          | inl e ↦
              let fresh = found-none universe u.handle all (valid u (here refl)) e in
              let h' = insert-Known k s sources all fresh h in
              let r = insert_new_ts_src G S Timer s sources all in
              let rest = add_unknown-Known k us r.1 r.2 later h' in
              elim (Bool-cases (memory.term_set_source u.handle)) [
                | inr f ↦ rw (e, f, add_unknown) h
                | inl f ↦ elim (Bool-cases (is_ok r.0)) [
                  | inl g ↦ rw (e, f, g, add_unknown) rest
                  | inr g ↦ rw (e, f, g, add_unknown) h'
                ]
              ]
        ]
