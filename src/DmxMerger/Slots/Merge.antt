-- ===== src/DmxMerger/Slots/Merge.antt =====
-- One round of each merge loop turns the merge of the old sources into the merge of the new ones.
use s_acn.Prelude.{
  ℕ, ◌≤◌, ◌<◌, ◌≡◌, ◌≢◌, ◌⊎◌, inl, inr, refl, sym, subst, ◌∙◌, List, Member, arith, ◌&&◌, ltb, ◌==◌,
  if◌then◌else◌, Bool-cases, Bool, true, false, ap,
}
use s_acn.DmxMerger.State.{SourceState, Slot, calc_src_pap, released, source_invalid}
use s_acn.DmxMerger.Spec.{Beaten, Wins, HasWinner, IsMerge, Replaced}
use s_acn.DmxMerger.Slots.{take_over, next_owner, lower_pap, merge_new_priorities_slot}
use s_acn.DmxMerger.Slots.Walk.{next_owner-Beaten, next_owner-Beaten_all, next_owner-winner}

module _ (s s' : SourceState) (ss ss' : List SourceState) (slot : ℕ) (w : Slot)
    (r : Replaced s s' ss ss') (m : IsMerge ss slot w) (valid : s'.handle ≢ source_invalid) where
  -- If the outputs are those of the merge for all the other sources, and beat the new source, and
  -- have a winner, they are a merge.
  pub others :
      (v : Slot)
      → ((t : SourceState) → Member t ss → t.handle ≢ s.handle → Beaten t slot v)
      → Beaten s' slot v
      → (v ≡ released) ⊎ HasWinner ss' slot v
      → IsMerge ss' slot v
  others v old new won = record {
    beaten = λ t n. elim (r.rest t n) [ inl e ↦ rw e new | inr (k, ne) ↦ old t k ne ];
    won = won;
  }

  -- A source of a higher priority than the outputs takes them over.
  pub outbid :
      w.pap < calc_src_pap s' slot → IsMerge ss' slot (take_over s' slot (calc_src_pap s' slot))
  outbid h =
      others _ (λ t k ne. let b = m.beaten t k in ground arith) (ground arith)
        (inr (s', r.new, ground arith))

  -- A winner of another handle than the source's is still there.
  pub still_won : s'.handle ≢ w.owner → (w ≡ released) ⊎ HasWinner ss' slot w
  still_won ne = elim m.won [
    | inl e ↦ inl e
    | inr (t, k, p) ↦ inr (t, r.kept t k (λ e. ne (r.same_handle ∙ sym e ∙ p.owner)), p)
  ]

  -- The owner of the outputs is the source.
  pub owned : s'.handle ≡ w.owner → Wins s slot w
  owned e = elim m.won [
    | inl z ↦ absurd (valid (e ∙ ap (λ (x : Slot). x.owner) z))
    | inr (t, k, p) ↦ subst (λ u. Wins u slot w) (r.unique t k (p.owner ∙ sym e ∙ r.same_handle)) p
  ]

  not_owner :
      s'.handle ≢ w.owner
      → calc_src_pap s' slot ≤ w.pap
      → (b : Bool)
      → (ltb 0 (calc_src_pap s' slot)
          && calc_src_pap s' slot == w.pap
          && ltb w.level (s'.source.levels slot))
        ≡ b
      → IsMerge ss' slot (if b then take_over s' slot w.pap else w)
  not_owner ne le true e =
      others _ (λ t k n. let b = m.beaten t k in ground arith) (ground arith)
        (inr (s', r.new, ground arith))
  not_owner ne le false e = others _ (λ t k n. m.beaten t k) (ground arith) (still_won ne)

  -- The priority and the level have not both been in use with the level changing.
  abbrev SameLevel : Type 0
  SameLevel =
      (s'.source.levels slot ≡ s.source.levels slot)
      ⊎ (calc_src_pap s slot ≡ 0)
      ⊎ (calc_src_pap s' slot ≡ 0)

  lowered :
      Wins s slot w
      → calc_src_pap s' slot < w.pap
      → SameLevel
      → Beaten s' slot (lower_pap s' slot w)
        × ((lower_pap s' slot w ≡ released) ⊎ Wins s' slot (lower_pap s' slot w))
  unfolding lower_pap
  lowered p h same = (ground (arith, r.same_handle), ground (arith, r.same_handle))

  -- The owner gives way: the best of the others, or the source at its new priority, wins.
  give_way :
      s'.handle ≡ w.owner
      → calc_src_pap s' slot < w.pap
      → SameLevel
      → IsMerge ss' slot (next_owner s' slot ss' (lower_pap s' slot w))
  give_way e h same =
      let (b, z) = lowered (owned e) h same in
      others _
        (λ t k ne.
          next_owner-Beaten_all s' slot ss' _ t (r.kept t k ne) (λ f. ne (f ∙ r.same_handle)))
        (next_owner-Beaten s' slot ss' _ s' b)
        (elim (next_owner-winner s' slot ss' (lower_pap s' slot w)) [
          | inl f ↦ elim z [
            | inl g ↦ inl (f ∙ g)
            | inr p ↦ inr (s', r.new, subst (Wins s' slot) (sym f) p)
          ]
          | inr p ↦ inr p
        ])

  stays : s'.handle ≡ w.owner → calc_src_pap s' slot ≡ w.pap → SameLevel → IsMerge ss' slot w
  stays e h same =
      let p = owned e in
      others _ (λ t k n. m.beaten t k) (ground arith) (inr (s', r.new, ground arith))

  -- One round of merge_new_priorities turns the outputs of a slot that are the merge of the old sources
  -- into the merge of the new ones, where one source changed, and its level at the slot did not, or its
  -- priority there was 0 before or is 0 after.
  pub merge_new_priorities_slot-IsMerge :
      SameLevel → IsMerge ss' slot (merge_new_priorities_slot s' ss' slot w)
  unfolding merge_new_priorities_slot
  merge_new_priorities_slot-IsMerge same = elim (Bool-cases (ltb w.pap (calc_src_pap s' slot))) [
    | inl a ↦ rw (a, merge_new_priorities_slot) (outbid (ground arith))
    | inr a ↦ elim (Bool-cases (s'.handle == w.owner)) [
      | inr b ↦
          rw (a, b, merge_new_priorities_slot) (not_owner (ground arith) (ground arith) _ refl)
      | inl b ↦ elim (Bool-cases (ltb (calc_src_pap s' slot) w.pap)) [
        | inl c ↦
            rw (a, b, c, merge_new_priorities_slot) (give_way (ground arith) (ground arith) same)
        | inr c ↦ rw (a, b, c, merge_new_priorities_slot) (stays (ground arith) (ground arith) same)
      ]
    ]
  ]
