-- ===== src/DmxMerger/Recalculate.antt =====
-- The two recalculations: whether some source has priorities of its own, and the highest universe
-- priority.
use s_acn.Prelude.{
  ℕ, ◌≤◌, ◌≡◌, ◌⊎◌, inl, inr, refl, true, List, [], ◌∷◌, Member, here, there, ltb, arith,
  if◌then◌else◌, Bool-cases, not, ◌||◌, ap, ◌∙◌,
}
use s_acn.DmxMerger.State.{SourceState}
use s_acn.DmxMerger.Priority.{any_pap_active, max_universe_priority}
use s_acn.DmxMerger.Invariant.{IsPapActive, active, inactive, IsMaxPriority}

-- The loop of recalculate_pap_active finds out whether any source has per-address priorities.
pub any_pap_active-IsPapActive : (ss : List SourceState) → IsPapActive ss (any_pap_active ss)
unfolding any_pap_active
any_pap_active-IsPapActive [] = inactive (λ s m. elim m [ ]) refl
any_pap_active-IsPapActive (s ∷ ss) = elim (Bool-cases s.source.using_universe_priority) [
  | inr e ↦ active s (here refl) e (rw (e, any_pap_active) refl)
  | inl e ↦ later e (any_pap_active-IsPapActive ss)
]
  where
    later :
        s.source.using_universe_priority ≡ true
        → IsPapActive ss (any_pap_active ss)
        → IsPapActive (s ∷ ss) (not s.source.using_universe_priority || any_pap_active ss)
    later e (active t m u h) = active t (there m) u (rw e h)
    later e (inactive all h) = inactive (λ t m. first e all t m) (rw e h)
      where
        first :
            s.source.using_universe_priority ≡ true
            → ((t : SourceState) → Member t ss → t.source.using_universe_priority ≡ true)
            → (t : SourceState) → Member t (s ∷ ss)
            → t.source.using_universe_priority ≡ true
        first e all t (here p) = ap (λ (x : SourceState). x.source.using_universe_priority) p ∙ e
        first e all t (there m) = all t m

-- What the walk of recalculate_universe_priority has found, from `best` on.
record Best (ss : List SourceState) (best r : ℕ) : Type 0 where
  grown : best ≤ r
  bound : (s : SourceState) → Member s ss → s.source.universe_priority ≤ r
  attained : (r ≡ best) ⊎ ((s : SourceState) × Member s ss × (s.source.universe_priority ≡ r))

max-Best : (ss : List SourceState) (best : ℕ) → Best ss best (max_universe_priority best ss)
unfolding max_universe_priority
max-Best [] best = record { grown = omega arith; bound = λ s m. elim m [ ]; attained = inl refl }
max-Best (s ∷ ss) best =
    let b : ℕ = if ltb best s.source.universe_priority then s.source.universe_priority else best in
    let rest = max-Best ss b in
    record {
      grown = let g = rest.grown in ground arith;
      bound = bound_cons rest (ground arith);
      attained = elim rest.attained [
        | inr (t, m, e) ↦ inr (t, there m, e)
        | inl e ↦ elim (Bool-cases (ltb best s.source.universe_priority)) [
          | inl p ↦ inr (s, here refl, ground arith)
          | inr p ↦ inl (ground arith)
        ]
      ];
    }
  where
    bound_cons :
        {b r : ℕ}
        → Best ss b r
        → s.source.universe_priority ≤ b
        → (t : SourceState) → Member t (s ∷ ss)
        → t.source.universe_priority ≤ r
    bound_cons rest le t (here p) = let g = rest.grown in rw p (omega arith)
    bound_cons rest le t (there m) = rest.bound t m

-- The loop of recalculate_universe_priority finds the highest universe priority of all the sources, 0
-- where there is none.
pub max_universe_priority-IsMaxPriority :
    (ss : List SourceState) → IsMaxPriority ss (max_universe_priority 0 ss)
max_universe_priority-IsMaxPriority ss =
    let b = max-Best ss 0 in record { bound = b.bound; attained = b.attained }
