-- ===== src/SourceLoss/Reported.antt =====
-- What the walk of get_expired_sources over one expired set does to the notification.
use s_acn.Prelude.{
  ℕ, ◌+◌, ◌≡◌, ◌≤◌, ◌<◌, ◌↔◌, refl, ◌∙◌, ap, inl, inr, Bool, true, false, List, [], ◌∷◌, Option,
  some, Option-cases, Bool-cases, Member, Member_uncons, here, there, arith,
}
use s_acn.SourceLoss.State.{SourceTree, KeyTree, TermSetSource}
use s_acn.SourceLoss.Expired.{SourcesLost, add_lost_source, report, expire}

module _ (G : SourceTree) (S : KeyTree) (Timer : Type 0) (is_expired : Timer → Bool)
    (cid_of : ℕ → Option ℕ) (room : ℕ → Bool) where
  -- The notification grew from `lost` by the sources counted, and kept those it had.
  pub record Grown (lost : SourcesLost) (added : ℕ) (lost' : SourcesLost) (added' : ℕ)
      : Type 0 where
    pub count : lost'.num_lost_sources + added ≡ lost.num_lost_sources + added'
    pub more : added ≤ added'
    pub kept : (i : ℕ) → i < lost.num_lost_sources → lost'.lost_sources i ≡ lost.lost_sources i

  report-Grown :
      (s : TermSetSource) (added : ℕ) (lost : SourcesLost)
      → Grown lost added
          (report G S Timer is_expired cid_of room s added lost).1
          (report G S Timer is_expired cid_of room s added lost).0
  unfolding report add_lost_source
  report-Grown s added lost = elim (Option-cases (cid_of s.handle)) [
    | inl e ↦ rw (e, report) (record { count = refl; more = omega arith; kept = λ i _. refl })
    | inr (c, e) ↦ record { count = ground arith; more = ground arith; kept = λ i lt. ground arith }
  ]

  -- The walk gives up exactly when it meets a source that is not offline.
  pub expire-all_offline :
      (ks : List ℕ) (all : G.Tree) (added : ℕ) (lost : SourcesLost)
      → ((expire G S Timer is_expired cid_of room ks all added lost).0 ≡ true)
        ↔ ((k : ℕ) (s : TermSetSource) → Member k ks → G.find k all ≡ some s → s.offline ≡ true)
  unfolding expire
  expire-all_offline [] all added lost = (λ _ k s m. elim m [ ], λ _. refl)
  expire-all_offline (k ∷ ks) all added lost = elim (Option-cases (G.find k all)) [
    | inl e ↦
        let (to, back) = expire-all_offline ks all added lost in
        rw (e, expire)
          (
            λ h j s m f. elim (Member_uncons m) [
              | inl p ↦ absurd (let g = ap (λ x. G.find x all) p in ground arith)
              | inr n ↦ to h j s n f
            ],
            λ h. back (λ j s n f. h j s (there n) f),
          )
    | inr (t, e) ↦ elim (Bool-cases t.offline) [
      | inl o ↦
          let r = report G S Timer is_expired cid_of room t added lost in
          let (to, back) = expire-all_offline ks all r.0 r.1 in
          rw (e, o, expire)
            (
              λ h j s m f. elim (Member_uncons m) [
                | inl p ↦ let g = ap (λ x. G.find x all) p in ground arith
                | inr n ↦ to h j s n f
              ],
              λ h. back (λ j s n f. h j s (there n) f),
            )
      | inr o ↦
          rw (e, o, expire)
            (λ h. absurd (ground arith), λ h. absurd (let g = h k t (here refl) e in ground arith))
    ]
  ]

  record IsBack (lost : SourcesLost) (added : ℕ) (lost' : SourcesLost) : Type 0 where
    pub count : lost'.num_lost_sources + added ≡ lost.num_lost_sources
    pub kept :
        (i : ℕ) → i + added < lost.num_lost_sources → lost'.lost_sources i ≡ lost.lost_sources i

  expire-IsBack :
      (ks : List ℕ) (all : G.Tree) (added : ℕ) (lost : SourcesLost)
      → added ≤ lost.num_lost_sources
      → (expire G S Timer is_expired cid_of room ks all added lost).0 ≡ false
      → IsBack lost added (expire G S Timer is_expired cid_of room ks all added lost).1
  unfolding expire
  expire-IsBack [] all added lost le h = absurd (ground arith)
  expire-IsBack (k ∷ ks) all added lost le h = elim (Option-cases (G.find k all)) [
    | inl e ↦ rw (e, expire) (expire-IsBack ks all added lost le (ground arith))
    | inr (t, e) ↦ elim (Bool-cases t.offline) [
      | inl o ↦
          let r = report G S Timer is_expired cid_of room t added lost in
          let g = report-Grown t added lost in
          let count = g.count in
          let more = g.more in
          let b = expire-IsBack ks all r.0 r.1 (omega arith) (ground arith) in
          let back = b.count in
          rw (e, o, expire)
            (record {
              count = omega arith;
              kept = λ i lt. b.kept i (omega arith) ∙ g.kept i (omega arith);
            })
      | inr o ↦ rw (e, o, expire) (record { count = omega arith; kept = λ i lt. refl })
    ]
  ]

  -- Where an expired set still has a source that is not offline, the number of lost sources that
  -- get_expired_sources would report is as before that set, and so are those sources.
  pub expire-cancelled :
      (ks : List ℕ) (all : G.Tree) (lost : SourcesLost) (k : ℕ) (s : TermSetSource)
      → Member k ks
      → G.find k all ≡ some s
      → s.offline ≡ false
      → ((expire G S Timer is_expired cid_of room ks all 0 lost).1.num_lost_sources
          ≡ lost.num_lost_sources)
        × ((i : ℕ)
            → i < lost.num_lost_sources
            → (expire G S Timer is_expired cid_of room ks all 0 lost).1.lost_sources i
              ≡ lost.lost_sources i)
  expire-cancelled ks all lost k s m e off =
      let stops = expire-all_offline ks all 0 lost in
      elim (Bool-cases (expire G S Timer is_expired cid_of room ks all 0 lost).0) [
        | inl h ↦ absurd (let g = stops.0 h k s m e in ground arith)
        | inr h ↦
            let b = expire-IsBack ks all 0 lost (omega arith) h in
            let count = b.count in (omega arith, λ i lt. b.kept i (omega arith))
      ]
