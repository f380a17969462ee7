-- ===== src/SourceLoss/Marked.antt =====
-- mark_sources_offline of src/sacn/source_loss.c: the sources that it is given.
use s_acn.Prelude.{
  ℕ, ◌≡◌, ◌≢◌, refl, sym, ◌∙◌, subst, inl, inr, true, Bool-cases, eq-cases, none, Option-cases,
  List, [], ◌∷◌, Member, Member_uncons, here, there, arith,
}
use s_acn.EtcPal.{EtcPalError, ok, is_ok}
use s_acn.SourceLoss.State.{
  SourceTree, KeyTree, RemoteSource, OfflineSource, TermSetSource, key_of, source_key, Loss,
  remote_source_invalid, find_existing_ts_src, insert_new_ts_src,
}
use s_acn.SourceLoss.Offline.{
  Memory, create_term_set, mark_offline, mark_each, mark_sources_offline,
}
use s_acn.SourceLoss.Confirmed.{is_ok-true}
use s_acn.SourceLoss.Covered.{InSets, IsCovered, found-some, mark_each-IsCovered}
use s_acn.SourceLoss.Known.{Known, insert-Known, inserted-Known, found-none, add_unknown-Known}

module _ (G : SourceTree) (S : KeyTree) (Timer : Type 0) where
  -- The source of the key is known to be offline, and is in a termination set of the list.
  pub record Marked (k : ℕ) (l : Loss G S Timer) : Type 0 where
    pub offline : Known G S Timer k l.all
    pub in_sets : InSets G S Timer k l.sets

  module _ (start : ℕ → Timer) (memory : Memory) (universe : ℕ) where
    module _ (us : List RemoteSource) (expired_wait : ℕ)
        (valid : (u : RemoteSource) → Member u us → u.handle ≢ remote_source_invalid) where
      abbrev source_of : OfflineSource → TermSetSource
      source_of o = record {
        handle = o.handle;
        universe = universe;
        name = o.name;
        offline = true;
        terminated = o.terminated;
      }

      create-kept :
          (o : OfflineSource) (l : Loss G S Timer) (k : ℕ)
          → G.find (key_of (source_of o)) l.all ≡ none
          → Known G S Timer k l.all
          → Known G S Timer k
              (create_term_set G S Timer start memory universe o us expired_wait l).1.all
      unfolding create_term_set
      create-kept o l k fresh h =
          let h' = insert-Known G S Timer k (source_of o) S.init l.all fresh h in
          let r = insert_new_ts_src G S Timer (source_of o) S.init l.all in
          let rest = add_unknown-Known G S Timer start memory universe k us r.1 r.2 valid h' in
          elim (Bool-cases (memory.term_set o.handle)) [
            | inr a ↦ rw (a, create_term_set) h
            | inl a ↦ elim (Bool-cases (memory.term_set_source o.handle)) [
              | inr b ↦ rw (a, b, create_term_set) h
              | inl b ↦ elim (Bool-cases (is_ok r.0)) [
                | inr c ↦ rw (a, b, c, create_term_set) h'
                | inl c ↦ rw (a, b, c, create_term_set) rest
              ]
            ]
          ]

      create-new :
          (o : OfflineSource) (l : Loss G S Timer)
          → (create_term_set G S Timer start memory universe o us expired_wait l).0 ≡ ok
          → Known G S Timer
              (key_of (source_of o))
              (create_term_set G S Timer start memory universe o us expired_wait l).1.all
      unfolding create_term_set
      create-new o l h =
          let r = insert_new_ts_src G S Timer (source_of o) S.init l.all in
          elim (Bool-cases (memory.term_set o.handle)) [
            | inr a ↦ absurd (ground arith)
            | inl a ↦ elim (Bool-cases (memory.term_set_source o.handle)) [
              | inr b ↦ absurd (ground arith)
              | inl b ↦ elim (Bool-cases (is_ok r.0)) [
                | inr c ↦ absurd (ground arith)
                | inl c ↦
                    let n =
                      inserted-Known G S Timer (source_of o) S.init l.all refl (is_ok-true r.0 c) in
                    rw (a, b, c, create_term_set)
                      (add_unknown-Known G S Timer start memory universe (key_of (source_of o)) us
                        r.1 r.2 valid n)
              ]
            ]
          ]

      -- What one offline source does, from a state in which no error has come up.
      mark-kept :
          (o : OfflineSource) (res : EtcPalError) (l : Loss G S Timer) (k : ℕ)
          → o.handle ≢ remote_source_invalid
          → Known G S Timer k l.all
          → Known G S Timer k
              (mark_offline G S Timer start memory universe o us expired_wait (res, l)).1.all
      unfolding mark_offline
      mark-kept o res l k v (t, m, e, off) =
          elim (Option-cases (find_existing_ts_src G S Timer universe o.handle l.all)) [
            | inl f ↦ elim (Bool-cases (is_ok res)) [
              | inl g ↦
                  rw (f, g, mark_offline)
                    (create-kept o l k (found-none G S Timer universe o.handle l.all v f)
                      (t, m, e, off))
              | inr g ↦ rw (f, g, mark_offline) (t, m, e, off)
            ]
            | inr (s, f) ↦
                let (n, same) = found-some G S Timer universe o.handle l.all s f in
                let v' : TermSetSource = record s { offline = true; terminated = o.terminated } in
                let stored = λ (w : TermSetSource). G.store-member l.all v' s w n refl in
                elim (Bool-cases s.offline) [
                  | inl g ↦ rw (f, g, mark_offline) (t, m, e, off)
                  | inr g ↦ elim (eq-cases (key_of t) (key_of s)) [
                    | inl p ↦
                        rw (f, g, mark_offline) (v', (stored v').1 (inl refl), sym p ∙ e, refl)
                    | inr p ↦ rw (f, g, mark_offline) (t, (stored t).1 (inr (m, p)), e, off)
                  ]
                ]
          ]

      mark-new :
          (o : OfflineSource) (res : EtcPalError) (l : Loss G S Timer)
          → (mark_offline G S Timer start memory universe o us expired_wait (res, l)).0 ≡ ok
          → (res ≡ ok)
            × Known G S Timer
                (source_key o.handle universe)
                (mark_offline G S Timer start memory universe o us expired_wait (res, l)).1.all
      unfolding mark_offline
      mark-new o res l h =
          elim (Option-cases (find_existing_ts_src G S Timer universe o.handle l.all)) [
            | inl f ↦ elim (Bool-cases (is_ok res)) [
              | inl g ↦ rw (f, g, mark_offline) (is_ok-true res g, create-new o l (ground arith))
              | inr g ↦ absurd (ground arith)
            ]
            | inr (s, f) ↦
                let (n, same) = found-some G S Timer universe o.handle l.all s f in
                let v' : TermSetSource = record s { offline = true; terminated = o.terminated } in
                elim (Bool-cases s.offline) [
                  | inl g ↦ rw (f, g, mark_offline) (ground arith, (s, n, same, g))
                  | inr g ↦
                      rw (f, g, mark_offline)
                        (
                          ground arith,
                          (v', (G.store-member l.all v' s v' n refl).1 (inl refl), same, refl),
                        )
                ]
          ]

      each-Known :
          (os : List OfflineSource) (res : EtcPalError) (l : Loss G S Timer) (k : ℕ)
          → ((o : OfflineSource) → Member o os → o.handle ≢ remote_source_invalid)
          → Known G S Timer k l.all
          → Known G S Timer k
              (mark_each G S Timer start memory universe os us expired_wait (res, l)).1.all
      unfolding mark_each
      each-Known [] res l k v h = h
      each-Known (o ∷ os) res l k v h =
          let r = mark_offline G S Timer start memory universe o us expired_wait (res, l) in
          each-Known os r.0 r.1 k (λ w m. v w (there m)) (mark-kept o res l k (v o (here refl)) h)

      each-new :
          (os : List OfflineSource) (res : EtcPalError) (l : Loss G S Timer)
          → ((o : OfflineSource) → Member o os → o.handle ≢ remote_source_invalid)
          → (mark_each G S Timer start memory universe os us expired_wait (res, l)).0 ≡ ok
          → (res ≡ ok)
            × ((o : OfflineSource)
                → Member o os
                → Known G S Timer
                    (source_key o.handle universe)
                    (mark_each G S Timer start memory universe os us expired_wait (res, l)).1.all)
      unfolding mark_each
      each-new [] res l v h = (h, λ o m. elim m [ ])
      each-new (o ∷ os) res l v h =
          let r = mark_offline G S Timer start memory universe o us expired_wait (res, l) in
          let later = λ (w : OfflineSource) (m : Member w os). v w (there m) in
          let (fine, rest) = each-new os r.0 r.1 later h in
          let (begun, new) = mark-new o res l fine in
          (
            begun,
            λ w m. elim (Member_uncons m) [
              | inl p ↦ each-Known os r.0 r.1 (source_key w.handle universe) later (
                  subst
                    (λ (x : OfflineSource). Known G S Timer (source_key x.handle universe) r.1.all)
                    (sym p) new)
              | inr n ↦ rest w n
            ],
          )

      -- When mark_sources_offline answers ok, each of the offline sources it was given is marked as
      -- offline and is in a termination set of the list, provided that all the handles are valid and
      -- that the sources of term_set_sources were in termination sets of the list.
      pub mark_sources_offline-Marked :
          (os : List OfflineSource) (l : Loss G S Timer)
          → ((o : OfflineSource) → Member o os → o.handle ≢ remote_source_invalid)
          → IsCovered G S Timer l
          → (mark_sources_offline G S Timer start memory universe os us expired_wait l).0 ≡ ok
          → (o : OfflineSource) → Member o os
          → Marked
              (source_key o.handle universe)
              (mark_sources_offline G S Timer start memory universe os us expired_wait l).1
      unfolding mark_sources_offline
      mark_sources_offline-Marked os l v covered h o m =
          let (s, n, e, off) = (each-new os ok l v h).1 o m in
          let after =
            mark_each-IsCovered G S Timer start memory universe us expired_wait os ok l covered in
          record {
            offline = (s, n, e, off);
            in_sets =
                subst
                  (λ (k : ℕ).
                    InSets G S Timer k
                      (mark_each G S Timer start memory universe os us expired_wait (ok, l)).1.sets)
                  e (after s n);
          }
