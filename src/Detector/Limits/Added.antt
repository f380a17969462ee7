-- ===== src/Detector/Limits/Added.antt =====
-- What add_sacn_universe_discovery_source does to the sources of a detector.
use s_acn.Prelude.{
  ℕ, ◌≡◌, ◌⊎◌, inl, inr, refl, ap, subst, Array, false, Bool-cases, ◌&&◌, Option, none, some,
  Option-cases, Member, arith,
}
use s_acn.EtcPal.{EtcPalError, ok, is_ok}
use s_acn.SourceLoss.Confirmed.{is_ok-true}
use s_acn.Receiver.Remote.{add_remote_source_handle}
use s_acn.Detector.State.{Services, Discovered, Detection}
use s_acn.Detector.Sources.{Memory, add_discovered, new_discovered, is_full}
use s_acn.Detector.Limits.{IsWithinLimits}

module _ (S : Services) (now : ℕ) where
  -- A source is added to the tree, or nothing is.
  abbrev pub IsAdded :
      Detection S → ℕ → Array → EtcPalError × Option (Discovered S) × Detection S → Type 0
  IsAdded w cid name r =
      (r.2.detector ≡ w.detector)
      × (((r.1 ≡ none) × (r.2.sources ≡ w.sources))
          ⊎ ((k : ℕ) × (r.1 ≡ some (new_discovered S now k name))
              × ((S.discovered.insert (new_discovered S now k name) w.sources).0 ≡ ok)
              × (r.2.sources ≡ (S.discovered.insert (new_discovered S now k name) w.sources).1)))

  pub add_discovered-IsAdded :
      (memory : Memory) (w : Detection S) (cid : ℕ) (name : Array)
      → IsAdded w cid name (add_discovered S now memory w cid name)
  unfolding add_discovered
  add_discovered-IsAdded memory w cid name =
      let added =
        add_remote_source_handle S.handle_tree S.cid_tree S.handle_manager memory.remote cid
          w.remotes in
      elim (Option-cases added.1) [
        | inl e ↦ rw (e, add_discovered) (refl, inl (refl, refl))
        | inr (k, e) ↦
            let s = new_discovered S now k name in
            let t = S.discovered.insert s w.sources in
            let same = S.discovered.insert-refused w.sources s in
            elim (Bool-cases (is_ok t.0)) [
              | inl g ↦
                  let fine = is_ok-true t.0 g in
                  elim (Bool-cases (is_ok added.0 && (memory.source && memory.universes))) [
                    | inl m ↦ (ground arith, inr (k, ground arith, fine, ground arith))
                    | inr m ↦ (ground arith, inl (ground arith, ground arith))
                  ]
              | inr g ↦
                  let refused = same (λ z. let y = ap is_ok z in ground arith) in
                  (ground arith, inl (ground arith, ground arith))
            ]
      ]

  pub IsAdded-IsWithinLimits :
      (w : Detection S) (cid : ℕ) (name : Array)
      (r : EtcPalError × Option (Discovered S) × Detection S)
      → is_full S w ≡ false
      → IsAdded w cid name r
      → IsWithinLimits S now w
      → IsWithinLimits S now r.2
        × ((s : Discovered S) → r.1 ≡ some s → Member s (S.discovered.items r.2.sources))
  unfolding is_full new_discovered
  IsAdded-IsWithinLimits w cid name r room (d, inl (e, same)) (few, short) = (
    (
      rw d (rw same few),
      λ s m. rw d (short s (subst (λ t. Member s (S.discovered.items t)) same m)),
    ),
    λ s q. absurd (ground arith),
  )
  IsAdded-IsWithinLimits w cid name r room (d, inr (k, e, fine, grown)) (few, short) =
      let size = S.discovered.insert-size w.sources (new_discovered S now k name) fine in
      let members = S.discovered.insert-ok w.sources (new_discovered S now k name) in
      let here = λ (s : Discovered S). λ (m : Member s (S.discovered.items r.2.sources)).
        (members s fine).0 (subst (λ t. Member s (S.discovered.items t)) grown m) in
      (
        (
          rw d (rw grown (ground arith)),
          λ s m. rw d (elim (here s m) [
            | inl p ↦ inr (let q = ap (λ (x : Discovered S). x.num_universes) p in omega arith)
            | inr n ↦ short s n
          ]),
        ),
        λ s q. rw grown ((members s fine).1 (inl (ground arith))),
      )
