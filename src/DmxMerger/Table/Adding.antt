-- ===== src/DmxMerger/Table/Adding.antt =====
-- A new merger is the merge of no source, and a new source changes no output.
use s_acn.Prelude.{
  ℕ, ◌<◌, ◌≡◌, ◌≢◌, ◌⊎◌, ◌↔◌, inl, inr, refl, Bool, false, some, Member, arith, ap, ◌∙◌, sym, subst,
}
use s_acn.EtcPal.{IntHandleManager}
use s_acn.DmxMerger.State.{
  SourceTree, SourceState, MergerState, Config, calc_src_pap, get_slot, max_slots, source_invalid,
  released,
}
use s_acn.DmxMerger.Outputs.Pointwise.{get_slot-set_owners}
use s_acn.DmxMerger.Outputs.Flags.{set_owners-SameFlags}
use s_acn.DmxMerger.Update.{sources}
use s_acn.DmxMerger.Invariant.{IsMerged, active, inactive}
use s_acn.DmxMerger.Table.{new_source, cleared_config, initial_config, construct_merger_state}

initial_config-slot :
    (c : Config) (j : ℕ) → j < max_slots → get_slot (initial_config c) j ≡ released
unfolding initial_config get_slot
initial_config-slot c j lt =
    ground (arith, get_slot-set_owners source_invalid 0 max_slots (cleared_config c) j)

initial_config-pap :
    (c : Config) (b : Bool) → (initial_config c).per_address_priorities_active ≡ some b → b ≡ false
unfolding initial_config
initial_config-pap c b e = ground (
  arith,
  (set_owners-SameFlags source_invalid 0 max_slots (cleared_config c) (cleared_config c)
      (refl, refl)).0,
)

initial_config-priority :
    (c : Config) (p : ℕ) → (initial_config c).universe_priority ≡ some p → p ≡ 0
unfolding initial_config
initial_config-priority c p e = ground (
  arith,
  (set_owners-SameFlags source_invalid 0 max_slots (cleared_config c) (cleared_config c)
      (refl, refl)).1,
)

module _ (T : SourceTree) (H : IntHandleManager) where
  no_source : (t : SourceState) → Member t (T.items T.init) → ⊥
  no_source t k = elim (subst (Member t) T.init-empty k) [ ]

  -- construct_merger_state gives a merger whose outputs are those of the merge of no source.
  pub construct_merger_state-IsMerged :
      (memory : Bool) (h : ℕ) (c : Config) (m : MergerState T H)
      → construct_merger_state T H memory h c ≡ some m
      → IsMerged T H m
  unfolding construct_merger_state
  construct_merger_state-IsMerged memory h c m e =
      let lookup : m.source_state_lookup ≡ T.init = ground arith in
      let config : m.config ≡ initial_config c = ground arith in
      let none_in = λ (t : SourceState) (k : Member t (sources T H m)).
        no_source t (subst (λ (x : T.Tree). Member t (T.items x)) lookup k) in
      record {
        wellformed = λ t k. absurd (none_in t k);
        slots = λ j lt. record {
          beaten = λ t k. absurd (none_in t k);
          won = inl (ap (λ (x : Config). get_slot x j) config ∙ initial_config-slot c j lt);
        };
        pap_active = λ b f.
            inactive (λ t k. absurd (none_in t k))
              (initial_config-pap c b
                (sym (ap (λ (x : Config). x.per_address_priorities_active) config) ∙ f));
        max_priority = λ p f. record {
          bound = λ t k. absurd (none_in t k);
          attained = inl (
              initial_config-priority c p
                (sym (ap (λ (x : Config). x.universe_priority) config) ∙ f));
        };
      }

  -- To a merger whose outputs are the merge of its sources, a new source with a valid handle, which
  -- has no data yet, can be added with no change of the outputs: they are still the merge.
  pub added-IsMerged :
      (m : MergerState T H) (h : ℕ) (tree : T.Tree)
      → IsMerged T H m
      → h ≢ source_invalid
      → ((t : SourceState)
          → Member t (T.items tree) ↔ ((t ≡ new_source h) ⊎ Member t (sources T H m)))
      → IsMerged T H (record m { source_state_lookup = tree })
  unfolding calc_src_pap
  added-IsMerged m h tree inv ne all = record {
    wellformed = λ t k. elim ((all t).0 k) [
      | inl e ↦ rw e (record {
        has_handle = ne;
        levels_fit = omega arith;
        priorities_fit = omega arith;
        levels_padded = λ i _. refl;
        priorities_padded = λ i _. refl;
      })
      | inr n ↦ inv.wellformed t n
    ];
    slots = λ j lt.
        let m' = inv.slots j lt in
        record {
          beaten =
              λ t k. elim ((all t).0 k) [ inl e ↦ rw e (ground arith) | inr n ↦ m'.beaten t n ];
          won = elim m'.won [ inl e ↦ inl e | inr (t, k, p) ↦ inr (t, (all t).1 (inr k), p) ];
        };
    pap_active = λ b e. elim (inv.pap_active b e) [
      | active t k u f ↦ active t ((all t).1 (inr k)) u f
      | inactive each f ↦
          inactive (λ t k. elim ((all t).0 k) [ inl g ↦ rw g refl | inr n ↦ each t n ]) f
    ];
    max_priority = λ p e.
        let old = inv.max_priority p e in
        record {
          bound = λ t k. elim ((all t).0 k) [ inl g ↦ rw g (omega arith) | inr n ↦ old.bound t n ];
          attained = elim old.attained [
            | inl z ↦ inl z
            | inr (t, k, q) ↦ inr (t, (all t).1 (inr k), q)
          ];
        };
  }
