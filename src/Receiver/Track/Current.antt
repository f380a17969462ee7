-- ===== src/Receiver/Track/Current.antt =====
-- The end of a sampling period: which interfaces are left, and that the loop over them ends.
use s_acn.Prelude.{
  ℕ, zero, suc, ◌+◌, ◌≡◌, ◌<◌, ◌↔◌, inl, inr, sym, ◌∙◌, ap, true, false, Bool-cases, none, some,
  Option-cases, List, [], ◌∷◌, Member, here, there, arith,
}
use s_acn.Receiver.State.{SamplingNetint, netint_key, Platform}
use s_acn.Receiver.Track.{first_current, remove_current, remove_current_sampling_period_netints}

module _ (P : Platform) where
  first_current-none :
      (ns : List SamplingNetint) (n : SamplingNetint)
      → first_current P ns ≡ none
      → Member n ns
      → n.in_future_sampling_period ≡ true
  unfolding first_current
  first_current-none [] n e m = elim m [ ]
  first_current-none (x ∷ xs) n e (here p) =
      let q = ap (λ (m : SamplingNetint). m.in_future_sampling_period) p in ground arith
  first_current-none (x ∷ xs) n e (there m) =
      first_current-none xs n
        (elim (Bool-cases x.in_future_sampling_period) [
          | inl f ↦ ground arith
          | inr f ↦ absurd (ground arith)
        ])
        m

  first_current-some :
      (ns : List SamplingNetint) (n : SamplingNetint)
      → first_current P ns ≡ some n
      → Member n ns × (n.in_future_sampling_period ≡ false)
  unfolding first_current
  first_current-some [] n e = absurd (cc)
  first_current-some (x ∷ xs) n e = elim (Bool-cases x.in_future_sampling_period) [
    | inl f ↦ let (m, g) = first_current-some xs n (ground arith) in (there m, g)
    | inr f ↦
        let g : x ≡ n = ground arith in
        (here (sym g), ap (λ (m : SamplingNetint). m.in_future_sampling_period) (sym g) ∙ f)
  ]

  remove_current-lem :
      (k : ℕ) (tree : P.netints.Tree) (n : SamplingNetint)
      → P.netints.size tree < k
      → Member n (P.netints.items (remove_current P k tree))
        ↔ (Member n (P.netints.items tree) × (n.in_future_sampling_period ≡ true))
  unfolding remove_current
  remove_current-lem zero tree n lt = absurd (omega arith)
  remove_current-lem (suc k) tree n lt =
      elim (Option-cases (first_current P (P.netints.items tree))) [
        | inl e ↦
            rw (e, remove_current)
              (λ m. (m, first_current-none (P.netints.items tree) n e m), λ (m, _). m)
        | inr (c, e) ↦
            let (held, current) = first_current-some (P.netints.items tree) c e in
            let found = P.netints.remove-found tree c held in
            let smaller = P.netints.remove-smaller tree (netint_key c.id) found in
            let (to, from) =
              remove_current-lem k (P.netints.remove (netint_key c.id) tree).1 n (omega arith) in
            let (out, back) = P.netints.remove-ok tree (netint_key c.id) n found in
            rw (e, remove_current)
              (
                λ m. let (a, b) = to m in ((out a).0, b),
                λ (m, f). from (
                  back (
                    m,
                    λ same.
                        let q =
                          ap (λ (x : SamplingNetint). x.in_future_sampling_period)
                            (P.netints.key_unique tree n c m held same) in
                        absurd (ground arith),
                  ),
                  f,
                ),
              )
      ]

  -- remove_current_sampling_period_netints takes away every interface of the current sampling period
  -- and no interface of the future one: its rounds, one more than the interfaces, are enough for its
  -- loop to reach its end.
  pub remove_current_sampling_period_netints-future :
      (tree : P.netints.Tree) (n : SamplingNetint)
      → Member n (P.netints.items (remove_current_sampling_period_netints P tree))
        ↔ (Member n (P.netints.items tree) × (n.in_future_sampling_period ≡ true))
  unfolding remove_current_sampling_period_netints
  remove_current_sampling_period_netints-future tree n =
      remove_current-lem (P.netints.size tree + 1) tree n (omega arith)
