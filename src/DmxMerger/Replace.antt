-- ===== src/DmxMerger/Replace.antt =====
-- A write to one source in the tree, and what of the invariant it keeps.
use s_acn.Prelude.{
  ℕ, ◌<◌, ◌≡◌, ◌≢◌, ◌⊎◌, some, inl, inr, refl, sym, ◌∙◌, ap, Bool, List, Member, arith, eq-cases,
}
use s_acn.EtcPal.{IntHandleManager}
use s_acn.DmxMerger.State.{
  SourceTree, SourceState, MergerState, Slot, calc_src_pap, get_slot, max_slots, source_invalid,
}
use s_acn.DmxMerger.Update.{sources}
use s_acn.DmxMerger.Outputs.Flags.{SameFlags}
use s_acn.DmxMerger.Spec.{Replaced, IsMerge}
use s_acn.DmxMerger.Slots.Merge.{others, still_won, owned}
use s_acn.DmxMerger.Invariant.{IsSource, IsPapActive, active, inactive, IsMaxPriority, IsMerged}

pub store-Replaced :
    (T : SourceTree) (t : T.Tree) (s s' : SourceState)
    → Member s (T.items t)
    → s'.handle ≡ s.handle
    → Replaced s s' (T.items t) (T.items (T.store s' t))
store-Replaced T t s s' m e = record {
  same_handle = e;
  old = m;
  new = (T.store-member t s' s s' m (sym e)).1 (inl refl);
  kept = λ u k ne. (T.store-member t s' s u m (sym e)).1 (inr (k, λ f. ne (f ∙ e)));
  rest = λ u k. elim ((T.store-member t s' s u m (sym e)).0 k) [
    | inl f ↦ inl f
    | inr (n, ne) ↦ inr (n, λ f. ne (f ∙ sym e))
  ];
  unique = λ u k f. T.key_unique t u s k m f;
}

pub Replaced-trans :
    (a b c : SourceState) (xs ys zs : List SourceState)
    → Replaced a b xs ys
    → Replaced b c ys zs
    → Replaced a c xs zs
Replaced-trans a b c xs ys zs p q = record {
  same_handle = q.same_handle ∙ p.same_handle;
  old = p.old;
  new = q.new;
  kept = λ t k ne. q.kept t (p.kept t k ne) (λ f. ne (f ∙ p.same_handle));
  rest = λ t k. elim (q.rest t k) [
    | inl e ↦ inl e
    | inr (m, ne) ↦ elim (p.rest t m) [
      | inl f ↦ absurd (ne (ap (λ (x : SourceState). x.handle) f))
      | inr r ↦ inr r
    ]
  ];
  unique = p.unique;
}

module _ (s s' : SourceState) (ss ss' : List SourceState) (r : Replaced s s' ss ss') where
  pub Replaced-IsSource :
      ((t : SourceState) → Member t ss → IsSource t)
      → IsSource s'
      → (t : SourceState) → Member t ss'
      → IsSource t
  Replaced-IsSource old new t m = elim (r.rest t m) [ inl e ↦ rw e new | inr (k, _) ↦ old t k ]

  pub Replaced-IsPapActive :
      (b : Bool)
      → s'.source.using_universe_priority ≡ s.source.using_universe_priority
      → IsPapActive ss b
      → IsPapActive ss' b
  Replaced-IsPapActive b e (active t m u h) = elim (eq-cases t.handle s.handle) [
    | inl f ↦
        active s' r.new
          (e
            ∙ sym (ap (λ (x : SourceState). x.source.using_universe_priority) (r.unique t m f))
            ∙ u)
          h
    | inr ne ↦ active t (r.kept t m ne) u h
  ]
  Replaced-IsPapActive b e (inactive all h) =
      inactive (λ t m. elim (r.rest t m) [ inl f ↦ rw f (e ∙ all s r.old) | inr (k, _) ↦ all t k ])
        h

  pub Replaced-IsMaxPriority :
      (p : ℕ)
      → s'.source.universe_priority ≡ s.source.universe_priority
      → IsMaxPriority ss p
      → IsMaxPriority ss' p
  Replaced-IsMaxPriority p e h = record {
    bound =
        λ t m. elim (r.rest t m) [ inl f ↦ rw (f, e) (h.bound s r.old) | inr (k, _) ↦ h.bound t k ];
    attained = elim h.attained [
      | inl z ↦ inl z
      | inr (t, m, q) ↦ elim (eq-cases t.handle s.handle) [
        | inl f ↦ inr (
          s',
          r.new,
          e ∙ sym (ap (λ (x : SourceState). x.source.universe_priority) (r.unique t m f)) ∙ q,
        )
        | inr ne ↦ inr (t, r.kept t m ne, q)
      ]
    ];
  }

  -- A slot at which the source has the same priority and level, or no priority, keeps its outputs.
  pub unchanged-IsMerge :
      (slot : ℕ) (w : Slot)
      → IsMerge ss slot w
      → s'.handle ≢ source_invalid
      → calc_src_pap s' slot ≡ calc_src_pap s slot
      → (s'.source.levels slot ≡ s.source.levels slot) ⊎ (calc_src_pap s slot ≡ 0)
      → IsMerge ss' slot w
  unchanged-IsMerge slot w m valid e same =
      others s s' ss ss' slot w r m valid w (λ t k n. m.beaten t k)
        (let b = m.beaten s r.old in ground arith)
        (elim (eq-cases s'.handle w.owner) [
          | inl f ↦
              let p = owned s s' ss ss' slot w r m valid f in
              inr (s', r.new, ground (arith, r.same_handle))
          | inr ne ↦ still_won s s' ss ss' slot w r m valid ne
        ])

module _ (T : SourceTree) (H : IntHandleManager) where
  -- What is left to show after one source has been replaced.
  pub replace-IsMerged :
      (m m' : MergerState T H) (s s' : SourceState)
      → IsMerged T H m
      → Replaced s s' (sources T H m) (sources T H m')
      → IsSource s'
      → ((b : Bool)
          → m'.config.per_address_priorities_active ≡ some b
          → IsPapActive (sources T H m') b)
      → ((p : ℕ) → m'.config.universe_priority ≡ some p → IsMaxPriority (sources T H m') p)
      → ((slot : ℕ) → slot < max_slots → IsMerge (sources T H m') slot (get_slot m'.config slot))
      → IsMerged T H m'
  replace-IsMerged m m' s s' inv r ok pap max slots = record {
    wellformed = Replaced-IsSource s s' _ _ r inv.wellformed ok;
    slots = slots;
    pap_active = pap;
    max_priority = max;
  }

  pub flags-IsMerged :
      (m m' : MergerState T H) (s s' : SourceState)
      → IsMerged T H m
      → Replaced s s' (sources T H m) (sources T H m')
      → IsSource s'
      → s'.source.using_universe_priority ≡ s.source.using_universe_priority
      → s'.source.universe_priority ≡ s.source.universe_priority
      → SameFlags m.config m'.config
      → ((slot : ℕ) → slot < max_slots → IsMerge (sources T H m') slot (get_slot m'.config slot))
      → IsMerged T H m'
  flags-IsMerged m m' s s' inv r ok u p f slots =
      replace-IsMerged m m' s s' inv r ok
        (λ b e. Replaced-IsPapActive s s' _ _ r b u (inv.pap_active b (sym f.0 ∙ e)))
        (λ q e. Replaced-IsMaxPriority s s' _ _ r q p (inv.max_priority q (sym f.1 ∙ e))) slots
