-- ===== src/DmxMerger/Priorities/Remove/Gone.antt =====
-- remove_source, on a whole merger: once the outputs do not refer to the source, it goes.
use s_acn.Prelude.{
  ℕ, ◌<◌, ◌≡◌, ◌≢◌, ◌⊎◌, ◌↔◌, inl, inr, refl, sym, ◌∙◌, ap, subst, Bool, true, false, some, List,
  Member, arith, Bool-cases, eq-cases,
}
use s_acn.EtcPal.{ok, IntHandleManager}
use s_acn.DmxMerger.State.{SourceTree, SourceState, MergerState, Slot, calc_src_pap}
use s_acn.DmxMerger.Spec.{Replaced, IsMerge, Wins}
use s_acn.DmxMerger.Update.{sources, put_source, put_config}
use s_acn.DmxMerger.Priority.{
  with_universe_priority, is_max, recalculate_universe_priority, retire_pap,
  retire_universe_priority, remove_source, set_universe_priority,
}
use s_acn.DmxMerger.Invariant.{IsMerged, IsPapActive, active, inactive, IsMaxPriority}
use s_acn.DmxMerger.Priorities.Remove.Source.{
  cleared, Unsourced, Leaving, merged_out, merged_out-Leaving, retire_pap-Leaving, lowest,
  lowest-Leaving,
}

-- The sources `xs` are those of `ss` but the one of the handle of `s`.
abbrev pub Without : SourceState → List SourceState → List SourceState → Type 0
Without s ss xs = (t : SourceState) → Member t xs ↔ (Member t ss × (t.handle ≢ s.handle))

module _ (s : SourceState) (ss xs : List SourceState) (out : Without s ss xs)
    (own : (t : SourceState) → Member t ss → t.handle ≡ s.handle → t ≡ s) where
  Without-IsMerge : (j : ℕ) (w : Slot) → calc_src_pap s j ≡ 0 → IsMerge ss j w → IsMerge xs j w
  Without-IsMerge j w zero m = record {
    beaten = λ t k. m.beaten t ((out t).0 k).0;
    won = elim m.won [
      | inl e ↦ inl e
      | inr (t, k, p) ↦ inr (
        t,
        (out t).1 (k, λ e. gone p (ap (λ (x : SourceState). calc_src_pap x j) (own t k e) ∙ zero)),
        p,
      )
    ];
  }
    where
      gone : {t : SourceState} → Wins t j w → calc_src_pap t j ≡ 0 → ⊥
      gone p e = let a = p.pap in let b = p.positive in omega arith

  Without-IsPapActive :
      (b : Bool)
      → (s.source.using_universe_priority ≡ true) ⊎ (b ≡ false)
      → IsPapActive ss b
      → IsPapActive xs b
  Without-IsPapActive b why (active t k u e) =
      active t
        ((out t).1 (
          k,
          λ f. elim why [
            | inl g ↦
                let q = ap (λ (x : SourceState). x.source.using_universe_priority) (own t k f) in cc
            | inr g ↦ cc
          ],
        ))
        u e
  Without-IsPapActive b why (inactive all e) = inactive (λ t k. all t ((out t).0 k).0) e

  Without-IsMaxPriority :
      (p : ℕ)
      → (s.source.universe_priority < p) ⊎ (s.source.universe_priority ≡ 0)
      → IsMaxPriority ss p
      → IsMaxPriority xs p
  Without-IsMaxPriority p why h = record {
    bound = λ t k. h.bound t ((out t).0 k).0;
    attained = elim h.attained [
      | inl e ↦ inl e
      | inr (t, k, e) ↦ elim (eq-cases t.handle s.handle) [
        | inr ne ↦ inr (t, (out t).1 (k, ne), e)
        | inl f ↦
            let q = ap (λ (x : SourceState). x.source.universe_priority) (own t k f) in
            inl (omega arith)
      ]
    ];
  }

module _ (T : SourceTree) (H : IntHandleManager) where
  is_max-false :
      (m : MergerState T H) (s : SourceState) (out : ℕ)
      → m.config.universe_priority ≡ some out
      → is_max T H m s ≡ false
      → s.source.universe_priority < out
  unfolding is_max
  is_max-false m s out e h = ground arith

  retire_universe_priority-Leaving :
      (m m' : MergerState T H) (s s' : SourceState)
      → Leaving T H m m' s s'
      → ((b : Bool)
          → m'.config.per_address_priorities_active ≡ some b
          → (s'.source.using_universe_priority ≡ true) ⊎ (b ≡ false))
      → (u : SourceState) × Leaving T H m (retire_universe_priority T H m' s') s u
        × ((b : Bool)
            → (retire_universe_priority T H m' s').config.per_address_priorities_active ≡ some b
            → (u.source.using_universe_priority ≡ true) ⊎ (b ≡ false))
        × ((p : ℕ)
            → (retire_universe_priority T H m' s').config.universe_priority ≡ some p
            → (u.source.universe_priority < p) ⊎ (u.source.universe_priority ≡ 0))
  unfolding retire_universe_priority put_source put_config recalculate_universe_priority
      set_universe_priority with_universe_priority
  retire_universe_priority-Leaving m m' s s' h pap = elim (Bool-cases (is_max T H m' s')) [
    | inl e ↦
        rw (e, retire_universe_priority)
          (lowest s', lowest-Leaving T H m m' s s' h, pap, λ p f. inr refl)
    | inr e ↦ rw (e, retire_universe_priority) (s', h, pap, λ p f. inl (is_max-false m' s' p f e))
  ]

  -- A merger whose leaving source has left the tree.
  left-IsMerged :
      (m : MergerState T H) (s : SourceState) (tree : T.Tree)
      → IsMerged T H m
      → Member s (sources T H m)
      → Unsourced s
      → ((b : Bool)
          → m.config.per_address_priorities_active ≡ some b
          → (s.source.using_universe_priority ≡ true) ⊎ (b ≡ false))
      → ((p : ℕ)
          → m.config.universe_priority ≡ some p
          → (s.source.universe_priority < p) ⊎ (s.source.universe_priority ≡ 0))
      → Without s (sources T H m) (T.items tree)
      → IsMerged T H (record m { source_state_lookup = tree })
  left-IsMerged m s tree inv mem zero pap max out =
      let own = λ (t : SourceState) (k : Member t (sources T H m)) (e : t.handle ≡ s.handle).
        T.key_unique m.source_state_lookup t s k mem e in
      record {
        wellformed = λ t k. inv.wellformed t ((out t).0 k).0;
        slots = λ j lt. Without-IsMerge s _ _ out own j _ (zero j lt) (inv.slots j lt);
        pap_active = λ b e. Without-IsPapActive s _ _ out own b (pap b e) (inv.pap_active b e);
        max_priority =
            λ p e. Without-IsMaxPriority s _ _ out own p (max p e) (inv.max_priority p e);
      }

  -- remove_source succeeds, and leaves a merger whose outputs are the merge of the other sources,
  -- and which has exactly those.
  pub remove_source-IsMerged :
      (m : MergerState T H) (s : SourceState)
      → IsMerged T H m
      → Member s (sources T H m)
      → ((remove_source T H m s).0 ≡ ok)
        × IsMerged T H (remove_source T H m s).1
        × Without s (sources T H m) (sources T H (remove_source T H m s).1)
  unfolding remove_source merged_out cleared
  remove_source-IsMerged m s inv mem =
      let a = merged_out-Leaving T H m s inv mem in
      let b = retire_pap-Leaving T H m (merged_out T H m s) s (cleared s) a in
      let (u, c, pap, max) =
        retire_universe_priority-Leaving m (retire_pap T H (merged_out T H m s) (cleared s)).0 s
          (retire_pap T H (merged_out T H m s) (cleared s)).1 b.0 b.1 in
      let last =
        retire_universe_priority T H (retire_pap T H (merged_out T H m s) (cleared s)).0
          (retire_pap T H (merged_out T H m s) (cleared s)).1 in
      let found : (T.remove s.handle last.source_state_lookup).0 ≡ ok =
        subst (λ (k : ℕ). (T.remove k last.source_state_lookup).0 ≡ ok) c.replaced.same_handle
          (T.remove-found last.source_state_lookup u c.replaced.new) in
      let gone = λ (t : SourceState). T.remove-ok last.source_state_lookup s.handle t found in
      (
        rw found refl,
        left-IsMerged last u (T.remove s.handle last.source_state_lookup).1 c.merged c.replaced.new
            c.unsourced pap max
            (λ t. (
              λ k. (((gone t).0 k).0, λ e. ((gone t).0 k).1 (e ∙ c.replaced.same_handle)),
              λ (k, ne). (gone t).1 (k, λ e. ne (e ∙ sym c.replaced.same_handle)),
            )),
        λ t. (
          λ k. others c.replaced t ((gone t).0 k),
          λ (k, ne). (gone t).1 (c.replaced.kept t k ne, ne),
        ),
      )
    where
      others :
          {u : SourceState} {xs : List SourceState}
          → Replaced s u (sources T H m) xs
          → (t : SourceState) → Member t xs × (t.handle ≢ s.handle)
          → Member t (sources T H m) × (t.handle ≢ s.handle)
      others r t (k, ne) = elim (r.rest t k) [
        | inl e ↦ absurd (ne (ap (λ (x : SourceState). x.handle) e ∙ r.same_handle))
        | inr p ↦ p
      ]
