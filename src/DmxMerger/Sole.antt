-- ===== src/DmxMerger/Sole.antt =====
-- A merger with one source: its outputs are those of the source, wherever it has a priority.
use s_acn.Prelude.{ℕ, ◌≡◌, inl, inr, subst, List, Member, arith, ◌==◌, if◌then◌else◌, Bool-cases}
use s_acn.DmxMerger.State.{SourceState, Slot, calc_src_pap, released}
use s_acn.DmxMerger.Spec.{Wins, IsMerge}
use s_acn.DmxMerger.Slots.{take_over}

unfoldable pub sole : SourceState → ℕ → Slot
sole s slot = if calc_src_pap s slot == 0 then released else take_over s slot (calc_src_pap s slot)

module _ (s : SourceState) (ss : List SourceState) (slot : ℕ) (m : Member s ss)
    (only : (t : SourceState) → Member t ss → t ≡ s) where
  pub sole-IsMerge : IsMerge ss slot (sole s slot)
  unfolding sole
  sole-IsMerge = record {
    beaten = λ t k. rw (only t k) (ground arith);
    won = elim (Bool-cases (calc_src_pap s slot == 0)) [
      | inl e ↦ inl (ground arith)
      | inr e ↦ inr (s, m, ground arith)
    ];
  }

  pub IsMerge-sole : (w : Slot) → IsMerge ss slot w → w ≡ sole s slot
  unfolding sole
  IsMerge-sole w h = elim h.won [
    | inl e ↦ let b = h.beaten s m in ground arith
    | inr (t, k, p) ↦
        let q : Wins s slot w = subst (λ u. Wins u slot w) (only t k) p in ground arith
  ]
