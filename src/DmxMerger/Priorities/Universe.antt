-- ===== src/DmxMerger/Priorities/Universe.antt =====
-- The source after update_universe_priority, and the universe priority output.
mod Stages
pub mod Merged
use s_acn.Prelude.{
  ℕ, ◌≤◌, ◌<◌, ◌≡◌, ◌≢◌, ◌⊎◌, inl, inr, refl, sym, ◌∙◌, ap, memset, Bool, true, false, ◌||◌, leb,
  ltb, ◌==◌, if◌then◌else◌, none, some, Option-cases, List, Member, Member_single, length, arith,
  Bool-cases, eq-cases,
}
use s_acn.EtcPal.{IntHandleManager}
use s_acn.DmxMerger.State.{SourceTree, SourceState, MergerState, max_slots}
use s_acn.DmxMerger.Spec.{Replaced}
use s_acn.DmxMerger.Update.{sources, put_config}
use s_acn.DmxMerger.Priority.{
  to_pap, with_universe_priority, is_max, set_universe_priority, recalculate_universe_priority,
  max_universe_priority, update_universe_priority_output,
}
use s_acn.DmxMerger.Invariant.{IsSource, IsMaxPriority}
use s_acn.DmxMerger.Recalculate.{max_universe_priority-IsMaxPriority}
use s_acn.DmxMerger.Priorities.{SameLevels}

-- The source once its universe priority is set.
unfoldable pub prioritised : SourceState → ℕ → SourceState
unfolding with_universe_priority
prioritised s priority = record (with_universe_priority s priority) {
  universe_priority_uninitialized = false;
}

-- And once that priority stands for each of its slots.
unfoldable pub spread : SourceState → ℕ → SourceState
spread s pap = record s {
  source = record s.source { address_priority = memset s.source.address_priority 0 pap max_slots };
  pap_count = max_slots;
}

-- The source after update_universe_priority: a source without per-address priorities has the
-- priority at every slot, as 1 where it is 0.
unfoldable pub universe_updated : SourceState → ℕ → SourceState
unfolding prioritised spread
universe_updated s priority =
    if s.source.using_universe_priority
    then spread (prioritised s priority) (to_pap priority)
    else prioritised s priority

pub to_pap-pos : (priority : ℕ) → 0 < to_pap priority
unfolding to_pap
to_pap-pos priority = ground arith

pub spread-IsSource : (s : SourceState) (pap : ℕ) → IsSource s → IsSource (spread s pap)
unfolding spread
spread-IsSource s pap h = record {
  has_handle = h.has_handle;
  levels_fit = h.levels_fit;
  priorities_fit = omega arith;
  levels_padded = h.levels_padded;
  priorities_padded = λ i k. let fit = h.priorities_fit in ground (arith, h.priorities_padded i);
}

spread-lt :
    (s : SourceState) (pap j : ℕ) → j < max_slots → (spread s pap).source.address_priority j ≡ pap
unfolding spread
spread-lt s pap j lt = ground arith

prioritised-IsSource : (s : SourceState) (p : ℕ) → IsSource s → IsSource (prioritised s p)
unfolding prioritised
prioritised-IsSource s p h = record {
  has_handle = h.has_handle;
  levels_fit = h.levels_fit;
  priorities_fit = h.priorities_fit;
  levels_padded = h.levels_padded;
  priorities_padded = h.priorities_padded;
}

-- The universe priority output after a source has got the universe priority `priority`, where it was
-- right before.
module _ (s s' : SourceState) (ss ss' : List SourceState) (r : Replaced s s' ss ss') (out : ℕ)
    (h : IsMaxPriority ss out) where
  new_max :
      (length ss' ≡ 1) ⊎ (out ≤ s'.source.universe_priority)
      → IsMaxPriority ss' s'.source.universe_priority
  new_max why = record {
    bound = λ t m. elim (r.rest t m) [
      | inl e ↦ rw e (omega arith)
      | inr (k, _) ↦ elim why [
        | inr le ↦ let b = h.bound t k in omega arith
        | inl one ↦ rw (Member_single ss' one m r.new) (omega arith)
      ]
    ];
    attained = inr (s', r.new, refl);
  }

  old_max :
      s.source.universe_priority < out → s'.source.universe_priority < out → IsMaxPriority ss' out
  old_max lt lt' = record {
    bound = λ t m. elim (r.rest t m) [ inl e ↦ rw e (omega arith) | inr (k, _) ↦ h.bound t k ];
    attained = elim h.attained [
      | inl z ↦ absurd (omega arith)
      | inr (t, m, e) ↦ elim (eq-cases t.handle s.handle) [
        | inl f ↦
            let g = ap (λ (x : SourceState). x.source.universe_priority) (r.unique t m f) in
            absurd (omega arith)
        | inr ne ↦ inr (t, r.kept t m ne, e)
      ]
    ];
  }

module _ (T : SourceTree) (H : IntHandleManager) where
  pub output-sources :
      (m : MergerState T H) (p : ℕ) (was_max single : Bool)
      → sources T H (update_universe_priority_output T H m p was_max single) ≡ sources T H m
  unfolding update_universe_priority_output recalculate_universe_priority put_config
  output-sources m p was_max single = ground arith

  output-IsMaxPriority :
      (m : MergerState T H) (s s' : SourceState) (ss : List SourceState) (was_max single : Bool)
      → Replaced s s' ss (sources T H m)
      → ((out : ℕ) → m.config.universe_priority ≡ some out → IsMaxPriority ss out)
      → (single ≡ true → length (sources T H m) ≡ 1)
      → ((out : ℕ)
          → m.config.universe_priority ≡ some out
          → was_max ≡ false
          → s.source.universe_priority < out)
      → (p : ℕ)
      → (update_universe_priority_output T H m s'.source.universe_priority was_max
          single).config.universe_priority
        ≡ some p
      → IsMaxPriority (sources T H m) p
  unfolding update_universe_priority_output recalculate_universe_priority put_config
      set_universe_priority
  output-IsMaxPriority m s s' ss was_max single r old one not_max p e =
      elim (Option-cases m.config.universe_priority) [
        | inl n ↦ absurd (ground arith)
        | inr (out, f) ↦ elim (Bool-cases (single || leb out s'.source.universe_priority)) [
          | inl a ↦
              let q : s'.source.universe_priority ≡ p = ground arith in
              rw (← q) (
                new_max s s' ss _ r out (old out f)
                  (elim (Bool-cases single) [ inl x ↦ inl (one x) | inr x ↦ inr (ground arith) ]))
          | inr a ↦ elim (Bool-cases was_max) [
            | inl b ↦
                let q : max_universe_priority 0 (sources T H m) ≡ p = ground arith in
                rw (← q) (max_universe_priority-IsMaxPriority (sources T H m))
            | inr b ↦
                let q : out ≡ p = ground arith in
                rw (← q) (old_max s s' ss _ r out (old out f) (not_max out f b) (ground arith))
          ]
        ]
      ]
