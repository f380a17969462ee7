-- ===== src/SourceLoss/Confirmed.antt =====
-- What mark_sources_online leaves of the termination sets.
use s_acn.Prelude.{
  ℕ, ◌≡◌, ◌≢◌, refl, ◌∙◌, ap, subst, inl, inr, true, Bool-cases, List, [], ◌∷◌, ◌==◌, if◌then◌else◌,
  Member, Member_uncons, here, there, arith,
}
use s_acn.EtcPal.{EtcPalError, ok, is_ok}
use s_acn.SourceLoss.State.{
  SourceTree, KeyTree, RemoteSource, source_key, TerminationSet, Loss, forget,
}
use s_acn.SourceLoss.Online.{mark_online, mark_sources_online}

pub is_ok-true : (e : EtcPalError) → is_ok e ≡ true → e ≡ ok
is_ok-true e h = ground arith

module _ (S : KeyTree) where
  -- A removal takes exactly the key, whether it was there or not.
  pub remove_key :
      (k : ℕ) (t : S.Tree) (w : ℕ)
      → Member w (S.items (S.remove k t).1)
      → Member w (S.items t) × (w ≢ k)
  remove_key k t w m = elim (Bool-cases (is_ok (S.remove k t).0)) [
    | inl e ↦ (S.remove-ok t k w (is_ok-true (S.remove k t).0 e)).0 m
    | inr e ↦
        let same = S.remove-refused t k (λ h. let z = ap is_ok h in ground arith) in
        let n : Member w (S.items t) = subst (λ (x : S.Tree). Member w (S.items x)) same m in
        (
          n,
          λ h.
              let z = ap is_ok (S.remove-found t k (subst (λ (x : ℕ). Member x (S.items t)) h n)) in
              ground arith,
        )
  ]

module _ (G : SourceTree) (S : KeyTree) (Timer : Type 0) where
  -- A set that is left comes from an old one, and has only sources of it, and not this one.
  pub record IsLeft (k : ℕ) (sets : List (TerminationSet G S Timer))
      (set : TerminationSet G S Timer) : Type 0 where
    pub old : TerminationSet G S Timer
    pub member : Member old sets
    pub same_wait : set.wait_period ≡ old.wait_period
    pub part : (w : ℕ) → Member w (S.items set.sources) → Member w (S.items old.sources) × (w ≢ k)

  later :
      (k : ℕ) (x : TerminationSet G S Timer) (xs : List (TerminationSet G S Timer))
      (set : TerminationSet G S Timer)
      → IsLeft k xs set
      → IsLeft k (x ∷ xs) set
  later k x xs set l = record {
    old = l.old;
    member = there l.member;
    same_wait = l.same_wait;
    part = l.part;
  }

  pub mark_online-IsLeft :
      (k : ℕ) (sets : List (TerminationSet G S Timer)) (all : G.Tree)
      (set : TerminationSet G S Timer)
      → Member set (mark_online G S Timer k sets all).sets
      → IsLeft k sets set
  unfolding mark_online
  mark_online-IsLeft k [] all set m = elim m [ ]
  mark_online-IsLeft k (x ∷ xs) all set m =
      let e = (S.remove k x.sources).0 in
      let sources = (S.remove k x.sources).1 in
      let all' = if is_ok e then (G.remove k all).1 else all in
      elim (Bool-cases (S.size sources == 0)) [
        | inl z ↦
            later k x xs set
              (mark_online-IsLeft k xs (forget G S Timer (S.items sources) all') set (ground arith))
        | inr z ↦
            elim (Member_uncons {a = set} {x = record x { sources = sources }}
              {xs = (mark_online G S Timer k xs all').sets} (ground arith)) [
                | inl p ↦ record {
                  old = x;
                  member = here refl;
                  same_wait = ap (λ (t : TerminationSet G S Timer). t.wait_period) p;
                  part = λ w n.
                      remove_key S k x.sources w (
                        subst (λ (t : TerminationSet G S Timer). Member w (S.items t.sources)) p n);
                }
                | inr n ↦ later k x xs set (mark_online-IsLeft k xs all' set n)
              ]
      ]

  -- Each set that mark_sources_online leaves comes from an old set, with the same wait period, and has
  -- only sources of it, and none of those that are confirmed to be online in the universe.
  pub mark_sources_online-old :
      (universe : ℕ) (online : List RemoteSource) (l : Loss G S Timer)
      (set : TerminationSet G S Timer)
      → Member set (mark_sources_online G S Timer universe online l).sets
      → (old : TerminationSet G S Timer) × Member old l.sets
        × (set.wait_period ≡ old.wait_period)
        × ((w : ℕ)
            → Member w (S.items set.sources)
            → Member w (S.items old.sources)
              × ((s : RemoteSource) → Member s online → w ≢ source_key s.handle universe))
  unfolding mark_sources_online
  mark_sources_online-old universe [] l set m = (set, m, refl, λ w n. (n, λ s k. elim k [ ]))
  mark_sources_online-old universe (o ∷ os) l set m =
      let k = source_key o.handle universe in
      let (mid, mid_in, mid_wait, mid_part) =
        mark_sources_online-old universe os (mark_online G S Timer k l.sets l.all) set m in
      let left = mark_online-IsLeft k l.sets l.all mid mid_in in
      (
        left.old,
        left.member,
        mid_wait ∙ left.same_wait,
        λ w n.
            let (in_mid, others) = mid_part w n in
            let (in_old, ne) = left.part w in_mid in
            (
              in_old,
              λ s i. elim (Member_uncons i) [
                | inl p ↦ λ h. ne (h ∙ ap (λ (t : RemoteSource). source_key t.handle universe) p)
                | inr j ↦ others s j
              ],
            ),
      )
