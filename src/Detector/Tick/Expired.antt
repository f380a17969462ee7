-- ===== src/Detector/Tick/Expired.antt =====
-- Which sources a detector drops: those that have expired, and no others.
use s_acn.Prelude.{
  ℕ, ◌≡◌, ◌≢◌, ◌==◌, Bool, true, false, if◌then◌else◌, Bool-cases, Option, some, Option-cases, List,
  [], ◌∷◌, Member, Member_uncons, here, there, inl, inr, refl, sym, ◌∙◌, ap, subst, arith,
}
use s_acn.EtcPal.{ok, is_ok}
use s_acn.SourceLoss.Confirmed.{is_ok-true}
use s_acn.SourceLoss.State.{remote_source_invalid}
use s_acn.Receiver.Remote.{get_remote_source_cid}
use s_acn.Detector.State.{ExpiredSource, Services, Discovered, Detection}
use s_acn.Detector.Sources.{remove_sacn_universe_discovery_source}
use s_acn.Detector.Tick.{
  add_sacn_source_detector_expired_source, collect_expired, any_expired, remove_expired,
  process_source_detector,
}

module _ (S : Services) (now : ℕ) (room : ℕ → Bool) where
  abbrev Has : Discovered S → Detection S → Type 0
  Has t w = Member t (S.discovered.items w.sources)

  remove-kept :
      (h : ℕ) (w : Detection S) (t : Discovered S)
      → t.handle ≢ h
      → Has t w
      → Has t (remove_sacn_universe_discovery_source S h w).1
  unfolding remove_sacn_universe_discovery_source
  remove-kept h w t ne m =
      let f = (S.discovered.remove h w.sources).0 in
      elim (Bool-cases (h == remote_source_invalid)) [
        | inl z ↦ rw (z, remove_sacn_universe_discovery_source) m
        | inr z ↦ elim (Bool-cases (is_ok f)) [
          | inl e ↦
              rw (z, e, remove_sacn_universe_discovery_source)
                ((S.discovered.remove-ok w.sources h t (is_ok-true f e)).1 (m, ne))
          | inr e ↦
              rw (z, e, remove_sacn_universe_discovery_source)
                (rw
                  (S.discovered.remove-refused w.sources h
                    (λ r. let y = ap is_ok r in ground arith))
                  m)
        ]
      ]

  remove-had :
      (h : ℕ) (w : Detection S) (t : Discovered S)
      → Has t (remove_sacn_universe_discovery_source S h w).1
      → Has t w × (h ≢ remote_source_invalid → t.handle ≢ h)
  unfolding remove_sacn_universe_discovery_source
  remove-had h w t =
      let f = (S.discovered.remove h w.sources).0 in
      elim (Bool-cases (h == remote_source_invalid)) [
        | inl z ↦
            rw (z, remove_sacn_universe_discovery_source) (λ m. (m, λ ne. absurd (ground arith)))
        | inr z ↦ elim (Bool-cases (is_ok f)) [
          | inl e ↦
              rw (z, e, remove_sacn_universe_discovery_source)
                (λ m.
                  let (n, ne) = (S.discovered.remove-ok w.sources h t (is_ok-true f e)).0 m in
                  (n, λ _. ne))
          | inr e ↦
              let refused : (S.discovered.remove h w.sources).0 ≢ ok =
                λ r. let y = ap is_ok r in ground arith in
              rw (z, e, remove_sacn_universe_discovery_source)
                (rw (S.discovered.remove-refused w.sources h refused) (λ m. (
                  m,
                  λ _ p. refused (
                      subst (λ k. (S.discovered.remove k w.sources).0 ≡ ok) p
                        (S.discovered.remove-found w.sources t m)),
                )))
        ]
      ]

  remove_expired-kept :
      (es : List ExpiredSource) (w : Detection S) (t : Discovered S)
      → ((e : ExpiredSource) → Member e es → t.handle ≢ e.handle)
      → Has t w
      → Has t (remove_expired S now room es w)
  unfolding remove_expired
  remove_expired-kept [] w t ne m = m
  remove_expired-kept (e ∷ es) w t ne m =
      remove_expired-kept es (remove_sacn_universe_discovery_source S e.handle w).1 t
        (λ x n. ne x (there n)) (remove-kept e.handle w t (ne e (here refl)) m)

  remove_expired-had :
      (es : List ExpiredSource) (w : Detection S) (t : Discovered S)
      → Has t (remove_expired S now room es w)
      → Has t w
        × ((e : ExpiredSource)
            → Member e es
            → e.handle ≢ remote_source_invalid
            → t.handle ≢ e.handle)
  unfolding remove_expired
  remove_expired-had [] w t m = (m, λ e n. elim n [ ])
  remove_expired-had (e ∷ es) w t m =
      let (n, rest) =
        remove_expired-had es (remove_sacn_universe_discovery_source S e.handle w).1 t m in
      let (had, first) = remove-had e.handle w t n in
      (
        had,
        λ x k valid. elim (Member_uncons k) [
          | inl p ↦ λ q.
              let r = ap (λ (y : ExpiredSource). y.handle) p in first (λ z. valid (r ∙ z)) (q ∙ r)
          | inr k' ↦ rest x k' valid
        ],
      )

  -- The CID of a handle.
  abbrev cid_of : Detection S → ℕ → Option ℕ
  cid_of w h = get_remote_source_cid S.handle_tree S.cid_tree S.handle_manager h w.remotes

  -- The entry is that of an expired source of the list.
  abbrev IsOfExpired : ExpiredSource → List (Discovered S) → Type 0
  IsOfExpired e ss =
      (s : Discovered S) × Member s ss
      × (S.tm.is_expired now s.expiration_timer ≡ true)
      × (e.handle ≡ s.handle)

  collect-expired :
      (w : Detection S) (ss : List (Discovered S)) (e : ExpiredSource)
      → Member e (collect_expired S now room w.remotes ss)
      → IsOfExpired e ss
  unfolding collect_expired add_sacn_source_detector_expired_source
  collect-expired w [] e = λ m. elim m [ ]
  collect-expired w (x ∷ xs) e =
      let later : Member e (collect_expired S now room w.remotes xs) → IsOfExpired e (x ∷ xs) =
        λ n. let (s, k, h, p) = collect-expired w xs e n in (s, there k, h, p) in
      elim (Bool-cases (S.tm.is_expired now x.expiration_timer)) [
        | inr f ↦ rw (f, collect_expired) (λ n. later n)
        | inl f ↦ elim (Option-cases (cid_of w x.handle)) [
          | inl c ↦
              rw (f, c, collect_expired, add_sacn_source_detector_expired_source) (λ n. later n)
          | inr (cid, c) ↦ elim (Bool-cases (room x.handle)) [
            | inr r ↦
                rw (f, c, r, collect_expired, add_sacn_source_detector_expired_source)
                  (λ n. later n)
            | inl r ↦
                rw (f, c, r, collect_expired, add_sacn_source_detector_expired_source)
                  (λ n. elim (Member_uncons n) [
                    | inl p ↦ (x, here refl, f, ap (λ (y : ExpiredSource). y.handle) p)
                    | inr n' ↦ later n'
                  ])
          ]
        ]
      ]

  expired-collect :
      (w : Detection S) (ss : List (Discovered S)) (s : Discovered S) (cid : ℕ)
      → Member s ss
      → S.tm.is_expired now s.expiration_timer ≡ true
      → room s.handle ≡ true
      → cid_of w s.handle ≡ some cid
      → Member
          (record { handle = s.handle; cid = cid; name = s.name })
          (collect_expired S now room w.remotes ss)
  unfolding collect_expired add_sacn_source_detector_expired_source
  expired-collect w [] s cid m f r c = elim m [ ]
  expired-collect w (x ∷ xs) s cid (here p) f r c =
      subst
        (λ (y : Discovered S).
          Member (record { handle = s.handle; cid = cid; name = s.name })
            (collect_expired S now room w.remotes (y ∷ xs)))
        p (rw (f, c, r, collect_expired, add_sacn_source_detector_expired_source) (here refl))
  expired-collect w (x ∷ xs) s cid (there m) f r c =
      let n = expired-collect w xs s cid m f r c in
      elim (Bool-cases (S.tm.is_expired now x.expiration_timer)) [
        | inr g ↦ rw (g, collect_expired) n
        | inl g ↦ elim (Option-cases (cid_of w x.handle)) [
          | inl d ↦ rw (g, d, collect_expired, add_sacn_source_detector_expired_source) n
          | inr (cid', d) ↦ elim (Bool-cases (room x.handle)) [
            | inr q ↦ rw (g, d, q, collect_expired, add_sacn_source_detector_expired_source) n
            | inl q ↦
                rw (g, d, q, collect_expired, add_sacn_source_detector_expired_source) (there n)
          ]
        ]
      ]

  valid : (w : Detection S) (h cid : ℕ) → cid_of w h ≡ some cid → h ≢ remote_source_invalid
  unfolding get_remote_source_cid
  valid w h cid e p = absurd (ground arith)

  noted-Has :
      (w : Detection S) (b : Bool)
      → (if b
          then record w {
            detector = record w.detector { suppress_source_limit_exceeded_notification = false };
          }
          else w).sources
        ≡ w.sources
  noted-Has w true = refl
  noted-Has w false = refl

  -- process_source_detector keeps each source that has not expired. Each source that has expired, and
  -- that has a CID and room in the list, it reports with its handle, CID and name, and drops.
  pub process_source_detector-expired :
      (w : Detection S) (t : Discovered S)
      → Member t (S.discovered.items w.sources)
      → (let r = process_source_detector S now room w in
          (S.tm.is_expired now t.expiration_timer ≡ false
            → Member t (S.discovered.items r.1.sources))
          × ((cid : ℕ)
              → S.tm.is_expired now t.expiration_timer ≡ true
              → room t.handle ≡ true
              → cid_of w t.handle ≡ some cid
              → Member (record { handle = t.handle; cid = cid; name = t.name }) r.0
                × ¬ Member t (S.discovered.items r.1.sources)))
  unfolding process_source_detector
  process_source_detector-expired w t m =
      let items = S.discovered.items w.sources in
      let expired = collect_expired S now room w.remotes items in
      let noted : Detection S =
        if any_expired S now room items
        then record w {
          detector = record w.detector { suppress_source_limit_exceeded_notification = false };
        }
        else w in
      let same : noted.sources ≡ w.sources = noted-Has w (any_expired S now room items) in
      (
        λ fresh.
            remove_expired-kept expired noted t
              (λ e n p.
                let (s, k, f, q) = collect-expired w items e n in
                let x = S.discovered.key_unique w.sources t s m k (p ∙ q) in
                let y = ap (λ (v : Discovered S). S.tm.is_expired now v.expiration_timer) x in
                absurd (ground arith))
              (subst (λ tree. Member t (S.discovered.items tree)) (sym same) m),
        λ cid f r c.
            let reported = expired-collect w items t cid m f r c in
            (
              reported,
              λ still.
                  (remove_expired-had expired noted t still).1
                    (record { handle = t.handle; cid = cid; name = t.name }) reported
                    (valid w t.handle cid c) refl,
            ),
      )
