-- ===== src/SourceLoss/Covered.antt =====
-- The sources of the tree term_set_sources are in the termination sets of the list: what
-- mark_sources_offline of src/sacn/source_loss.c does to this.
use s_acn.Prelude.{
  ℕ, ◌≡◌, ◌⊎◌, inl, inr, refl, sym, ap, subst, true, false, Bool-cases, some, Option-cases, List,
  [], ◌∷◌, ◌++◌, Member, here, there, arith,
}
use s_acn.EtcPal.{EtcPalError, is_ok}
use s_acn.SourceLoss.State.{
  SourceTree, KeyTree, RemoteSource, OfflineSource, TermSetSource, key_of, source_key,
  TerminationSet, Loss, find_existing_ts_src, insert_new_ts_src,
}
use s_acn.SourceLoss.Offline.{Memory, add_unknown, create_term_set, mark_offline, mark_each}
use s_acn.SourceLoss.Confirmed.{is_ok-true}

Member-left : {A : Type 0} (a : A) (xs ys : List A) → Member a xs → Member a (xs ++ ys)
Member-left a [] ys m = elim m [ ]
Member-left a (x ∷ xs) ys (here p) = here p
Member-left a (x ∷ xs) ys (there m) = there (Member-left a xs ys m)

Member-last : {A : Type 0} (a : A) (xs : List A) → Member a (xs ++ (a ∷ []))
Member-last a [] = here refl
Member-last a (x ∷ xs) = there (Member-last a xs)

module _ (G : SourceTree) (S : KeyTree) (Timer : Type 0) where
  -- A termination set of the list has the key.
  pub record InSets (k : ℕ) (sets : List (TerminationSet G S Timer)) : Type 0 where
    pub term_set : TerminationSet G S Timer
    pub listed : Member term_set sets
    pub holds : Member k (S.items term_set.sources)

  -- Every source is in a termination set.
  abbrev pub IsCovered : Loss G S Timer → Type 0
  IsCovered l = (t : TermSetSource) → Member t (G.items l.all) → InSets (key_of t) l.sets

  InSets-left :
      (k : ℕ) (sets more : List (TerminationSet G S Timer))
      → InSets k sets
      → InSets k (sets ++ more)
  InSets-left k sets more h = record {
    term_set = h.term_set;
    listed = Member-left h.term_set sets more h.listed;
    holds = h.holds;
  }

  -- Every source is in a set of the list, or in the set that is being made.
  abbrev IsPartly : List (TerminationSet G S Timer) → S.Tree → G.Tree → Type 0
  IsPartly sets sources all =
      (t : TermSetSource)
      → Member t (G.items all)
      → InSets (key_of t) sets ⊎ Member (key_of t) (S.items sources)

  insert-key :
      (k j : ℕ) (sources : S.Tree)
      → Member j (S.items sources)
      → Member j (S.items (S.insert k sources).1)
  insert-key k j sources m = elim (Bool-cases (is_ok (S.insert k sources).0)) [
    | inl e ↦ (S.insert-ok sources k j (is_ok-true (S.insert k sources).0 e)).1 (inr m)
    | inr e ↦
        let same = S.insert-refused sources k (λ h. let z = ap is_ok h in ground arith) in
        subst (λ (x : S.Tree). Member j (S.items x)) (sym same) m
  ]

  insert-IsPartly :
      (sets : List (TerminationSet G S Timer)) (s : TermSetSource) (sources : S.Tree) (all : G.Tree)
      → IsPartly sets sources all
      → (let r = insert_new_ts_src G S Timer s sources all in IsPartly sets r.1 r.2)
  unfolding insert_new_ts_src
  insert-IsPartly sets s sources all h =
      let e = (G.insert s all).0 in
      let f = (S.insert (key_of s) sources).0 in
      let later : (t : TermSetSource)
          → Member t (G.items all)
          → InSets (key_of t) sets ⊎ Member (key_of t) (S.items (S.insert (key_of s) sources).1) =
        λ t m. elim (h t m) [
          | inl p ↦ inl p
          | inr n ↦ inr (insert-key (key_of s) (key_of t) sources n)
        ] in
      elim (Bool-cases (is_ok e)) [
        | inr a ↦
            let same = G.insert-refused all s (λ z. let y = ap is_ok z in ground arith) in
            rw (a, insert_new_ts_src)
              (λ t m. h t (subst (λ (x : G.Tree). Member t (G.items x)) same m))
        | inl a ↦
            let fine = is_ok-true e a in
            let members = λ (t : TermSetSource). G.insert-ok all s t fine in
            elim (Bool-cases (is_ok f)) [
              | inl b ↦
                  let new = S.insert-ok sources (key_of s) (key_of s) (is_ok-true f b) in
                  rw (a, b, insert_new_ts_src)
                    (λ t m. elim ((members t).0 m) [
                      | inl p ↦ inr (
                          subst
                            (λ (x : TermSetSource).
                              Member (key_of x) (S.items (S.insert (key_of s) sources).1))
                            (sym p) (new.1 (inl refl)))
                      | inr n ↦ later t n
                    ])
              | inr b ↦
                  let found = G.remove-found (G.insert s all).1 s ((members s).1 (inl refl)) in
                  rw (a, b, insert_new_ts_src)
                    (λ t m.
                      let (n, ne) = (G.remove-ok (G.insert s all).1 (key_of s) t found).0 m in
                      elim ((members t).0 n) [
                        | inl p ↦ absurd (ne (ap key_of p))
                        | inr k ↦ later t k
                      ])
            ]
      ]

  pub found-some :
      (universe handle : ℕ) (all : G.Tree) (s : TermSetSource)
      → find_existing_ts_src G S Timer universe handle all ≡ some s
      → Member s (G.items all) × (key_of s ≡ source_key handle universe)
  unfolding find_existing_ts_src
  found-some universe handle all s e = G.find-some all (source_key handle universe) s (ground arith)

  -- A source that is not taken in leaves the trees as they were.
  refused-IsCovered :
      (sets : List (TerminationSet G S Timer)) (s : TermSetSource) (sources : S.Tree) (all : G.Tree)
      → IsCovered (record { all = all; sets = sets })
      → (let r = insert_new_ts_src G S Timer s sources all in
          is_ok r.0 ≡ false → IsCovered (record { all = r.2; sets = sets }))
  unfolding insert_new_ts_src
  refused-IsCovered sets s sources all h no_room =
      let e = (G.insert s all).0 in
      let f = (S.insert (key_of s) sources).0 in
      elim (Bool-cases (is_ok e)) [
        | inr a ↦
            let same = G.insert-refused all s (λ z. let y = ap is_ok z in ground arith) in
            rw (a, insert_new_ts_src)
              (λ t m. h t (subst (λ (x : G.Tree). Member t (G.items x)) same m))
        | inl a ↦
            let members = λ (t : TermSetSource). G.insert-ok all s t (is_ok-true e a) in
            elim (Bool-cases (is_ok f)) [
              | inl b ↦ absurd (ground arith)
              | inr b ↦
                  let found = G.remove-found (G.insert s all).1 s ((members s).1 (inl refl)) in
                  rw (a, b, insert_new_ts_src)
                    (λ t m.
                      let (n, ne) = (G.remove-ok (G.insert s all).1 (key_of s) t found).0 m in
                      elim ((members t).0 n) [ inl p ↦ absurd (ne (ap key_of p)) | inr k ↦ h t k ])
            ]
      ]

  module _ (start : ℕ → Timer) (memory : Memory) (universe : ℕ) where
    add_unknown-IsPartly :
        (sets : List (TerminationSet G S Timer)) (us : List RemoteSource) (sources : S.Tree)
        (all : G.Tree)
        → IsPartly sets sources all
        → (let r = add_unknown G S Timer start memory universe us sources all in
            IsPartly sets r.1 r.2)
    unfolding add_unknown
    add_unknown-IsPartly sets [] sources all h = h
    add_unknown-IsPartly sets (u ∷ us) sources all h =
        let s : TermSetSource = record {
          handle = u.handle;
          universe = universe;
          name = u.name;
          offline = false;
          terminated = false;
        } in
        let r = insert_new_ts_src G S Timer s sources all in
        let h' = insert-IsPartly sets s sources all h in
        elim (Option-cases (find_existing_ts_src G S Timer universe u.handle all)) [
          | inr (t, e) ↦ rw (e, add_unknown) (add_unknown-IsPartly sets us sources all h)
          | inl e ↦ elim (Bool-cases (memory.term_set_source u.handle)) [
            | inr f ↦ rw (e, f, add_unknown) h
            | inl f ↦ elim (Bool-cases (is_ok r.0)) [
              | inl g ↦ rw (e, f, g, add_unknown) (add_unknown-IsPartly sets us r.1 r.2 h')
              | inr g ↦ rw (e, f, g, add_unknown) h'
            ]
          ]
        ]

    IsPartly-IsCovered :
        (sets : List (TerminationSet G S Timer)) (new : TerminationSet G S Timer) (all : G.Tree)
        → IsPartly sets new.sources all
        → IsCovered (record { all = all; sets = sets ++ (new ∷ []) })
    IsPartly-IsCovered sets new all h t m = elim (h t m) [
      | inl p ↦ InSets-left (key_of t) sets (new ∷ []) p
      | inr n ↦ record { term_set = new; listed = Member-last new sets; holds = n }
    ]

    module _ (us : List RemoteSource) (expired_wait : ℕ) where
      create_term_set-IsCovered :
          (o : OfflineSource) (l : Loss G S Timer)
          → IsCovered l
          → IsCovered (create_term_set G S Timer start memory universe o us expired_wait l).1
      unfolding create_term_set
      create_term_set-IsCovered o l h =
          let s : TermSetSource = record {
            handle = o.handle;
            universe = universe;
            name = o.name;
            offline = true;
            terminated = o.terminated;
          } in
          let r = insert_new_ts_src G S Timer s S.init l.all in
          let begun = insert-IsPartly l.sets s S.init l.all (λ t m. inl (h t m)) in
          let a = add_unknown G S Timer start memory universe us r.1 r.2 in
          let done = add_unknown-IsPartly l.sets us r.1 r.2 begun in
          let new : TerminationSet G S Timer = record {
            wait_period = start expired_wait;
            sources = a.1;
          } in
          elim (Bool-cases (memory.term_set o.handle)) [
            | inr b ↦ rw (b, create_term_set) h
            | inl b ↦ elim (Bool-cases (memory.term_set_source o.handle)) [
              | inr c ↦ rw (b, c, create_term_set) h
              | inl c ↦ elim (Bool-cases (is_ok r.0)) [
                | inr d ↦
                    rw (b, c, d, create_term_set) (refused-IsCovered l.sets s S.init l.all h d)
                | inl d ↦ rw (b, c, d, create_term_set) (IsPartly-IsCovered l.sets new a.2 done)
              ]
            ]
          ]

      mark_offline-IsCovered :
          (o : OfflineSource) (res : EtcPalError) (l : Loss G S Timer)
          → IsCovered l
          → IsCovered (mark_offline G S Timer start memory universe o us expired_wait (res, l)).1
      unfolding mark_offline
      mark_offline-IsCovered o res l h =
          elim (Option-cases (find_existing_ts_src G S Timer universe o.handle l.all)) [
            | inl f ↦ elim (Bool-cases (is_ok res)) [
              | inl g ↦ rw (f, g, mark_offline) (create_term_set-IsCovered o l h)
              | inr g ↦ rw (f, g, mark_offline) h
            ]
            | inr (s, f) ↦
                let (n, same) = found-some universe o.handle l.all s f in
                let v : TermSetSource = record s { offline = true; terminated = o.terminated } in
                elim (Bool-cases s.offline) [
                  | inl g ↦ rw (f, g, mark_offline) h
                  | inr g ↦
                      rw (f, g, mark_offline)
                        (λ t m. elim ((G.store-member l.all v s t n refl).0 m) [
                          | inl p ↦
                              subst (λ (x : TermSetSource). InSets (key_of x) l.sets) (sym p)
                                (h s n)
                          | inr p ↦ h t p.0
                        ])
                ]
          ]

      pub mark_each-IsCovered :
          (os : List OfflineSource) (res : EtcPalError) (l : Loss G S Timer)
          → IsCovered l
          → IsCovered (mark_each G S Timer start memory universe os us expired_wait (res, l)).1
      unfolding mark_each
      mark_each-IsCovered [] res l h = h
      mark_each-IsCovered (o ∷ os) res l h =
          let r = mark_offline G S Timer start memory universe o us expired_wait (res, l) in
          mark_each-IsCovered os r.0 r.1 (mark_offline-IsCovered o res l h)
