-- ===== src/DmxMerger/Table/Merged.antt =====
-- Every function on the table of mergers keeps the outputs of each merger the merge of its sources.
use s_acn.Prelude.{
  ℕ, ◌%◌, ◌^◌, ◌≡◌, inl, inr, refl, sym, subst, Array, ◌||◌, ltb, ◌==◌, Option, none, some,
  Option-cases, Bool-cases, Member, arith,
}
use s_acn.EtcPal.{IntHandleManager, EtcPalError}
use s_acn.DmxMerger.State.{
  SourceTree, SourceState, MergerState, max_slots, source_invalid, merger_invalid,
}
use s_acn.DmxMerger.Update.{sources, update_levels, update_pap}
use s_acn.DmxMerger.Invariant.{IsMerged}
use s_acn.DmxMerger.Levels.Merged.{update_levels-IsMerged}
use s_acn.DmxMerger.Priorities.Pap.Merged.{update_pap-IsMerged}
use s_acn.DmxMerger.Priorities.Universe.Merged.{update_universe_priority-IsMerged}
use s_acn.DmxMerger.Priorities.Remove.{remove_pap-IsMerged}
use s_acn.DmxMerger.Priorities.Remove.Gone.{remove_source-IsMerged}
use s_acn.DmxMerger.Table.Handles.{
  handle-update_levels, handle-update_pap, handle-update_universe_priority, handle-remove_pap,
  handle-remove_source,
}
use s_acn.DmxMerger.Table.{
  MergerTree, Table, init_table, put_merger, lookup_state, on_source, update_sacn_dmx_merger_levels,
  update_sacn_dmx_merger_pap, update_sacn_dmx_merger_universe_priority, remove_sacn_dmx_merger_pap,
  remove_sacn_dmx_merger_source,
}

module _ (T : SourceTree) (H : IntHandleManager) (M : MergerTree T H) where
  -- The outputs of each merger in the table are the merge of its sources.
  pub record IsTable (t : Table T H M) : Type 0 where
    pub all_merged : (m : MergerState T H) → Member m (M.items t.mergers) → IsMerged T H m

  pub init_table-IsTable : IsTable (init_table T H M)
  unfolding init_table
  init_table-IsTable = record { all_merged = λ m k. elim (subst (Member m) M.init-empty k) [ ] }

  pub put_merger-IsTable :
      (t : Table T H M) (m m' : MergerState T H)
      → IsTable t
      → Member m (M.items t.mergers)
      → m'.handle ≡ m.handle
      → IsMerged T H m'
      → IsTable (put_merger T H M t m')
  unfolding put_merger
  put_merger-IsTable t m m' h k e good = record {
    all_merged = λ x n. elim ((M.store-member t.mergers m' m x k (sym e)).0 n) [
      | inl f ↦ rw f good
      | inr (n', _) ↦ h.all_merged x n'
    ];
  }

  -- What a search in the table finds is in it.
  lookup_state-member :
      (t : Table T H M) (merger source : ℕ) (m : MergerState T H) (s : SourceState)
      → lookup_state T H M t merger source ≡ some (m, s)
      → Member m (M.items t.mergers) × Member s (sources T H m)
  unfolding lookup_state
  lookup_state-member t merger source m s e = elim (Option-cases (M.find merger t.mergers)) [
    | inl f ↦ absurd (ground arith)
    | inr (x, f) ↦ elim (Option-cases (T.find source x.source_state_lookup)) [
      | inl g ↦ absurd (ground arith)
      | inr (y, g) ↦
          let ex : x ≡ m = ground arith in
          let ey : y ≡ s = ground arith in
          (
            subst (λ (z : MergerState T H). Member z (M.items t.mergers)) ex
                (M.find-some t.mergers merger x f).0,
            subst (λ (z : MergerState T H). Member s (sources T H z)) ex
                (subst (λ (z : SourceState). Member z (sources T H x)) ey
                  (T.find-some x.source_state_lookup source y g).0),
          )
    ]
  ]

  -- A function on one source keeps the table, if what it does keeps a merger.
  on_source-IsTable :
      (merger source : ℕ) (missing : EtcPalError)
      (act : MergerState T H → SourceState → EtcPalError × MergerState T H) (t : Table T H M)
      → IsTable t
      → ((m : MergerState T H) (s : SourceState)
          → IsMerged T H m
          → Member s (sources T H m)
          → IsMerged T H (act m s).1 × ((act m s).1.handle ≡ m.handle))
      → IsTable (on_source T H M merger source missing act t).1
  unfolding on_source
  on_source-IsTable merger source missing act t h keep =
      elim (Bool-cases (merger == merger_invalid || source == source_invalid)) [
        | inl e ↦ rw (e, on_source) h
        | inr e ↦ elim (Option-cases (lookup_state T H M t merger source)) [
          | inl f ↦ rw (e, f, on_source) h
          | inr ((m, s), f) ↦
              let (k, n) = lookup_state-member t merger source m s f in
              let (a, b) = keep m s (h.all_merged m k) n in
              rw (e, f, on_source) (put_merger-IsTable t m (act m s).1 h k b a)
        ]
      ]

  levels-IsMerged :
      (m : MergerState T H) (s : SourceState) (a : Array) (n : ℕ)
      → IsMerged T H m
      → Member s (sources T H m)
      → IsMerged T H (update_levels T H m s a n)
  unfolding update_levels
  levels-IsMerged m s a n inv mem = elim (Bool-cases (ltb max_slots n)) [
    | inl e ↦ rw (e, update_levels) inv
    | inr e ↦ (update_levels-IsMerged T H m s a n inv mem (ground arith)).0
  ]

  pap-IsMerged :
      (m : MergerState T H) (s : SourceState) (a : Array) (n : ℕ)
      → IsMerged T H m
      → Member s (sources T H m)
      → IsMerged T H (update_pap T H m s a n)
  unfolding update_pap
  pap-IsMerged m s a n inv mem = elim (Bool-cases (ltb max_slots n)) [
    | inl e ↦ rw (e, update_pap) inv
    | inr e ↦ (update_pap-IsMerged T H m s a n inv mem (ground arith)).0
  ]

  pub update_sacn_dmx_merger_levels-IsTable :
      (merger source : ℕ) (a : Option Array) (n : ℕ) (t : Table T H M)
      → IsTable t
      → IsTable (update_sacn_dmx_merger_levels T H M merger source a n t).1
  unfolding update_sacn_dmx_merger_levels
  update_sacn_dmx_merger_levels-IsTable merger source none n t h =
      on_source-IsTable merger source _ _ t h (λ m s inv mem. (inv, refl))
  update_sacn_dmx_merger_levels-IsTable merger source (some a) n t h =
      on_source-IsTable merger source _ _ t h (λ m s inv mem.
        (levels-IsMerged m s a (n % 2 ^ 16) inv mem, handle-update_levels T H m s a (n % 2 ^ 16)))

  pub update_sacn_dmx_merger_pap-IsTable :
      (merger source : ℕ) (a : Option Array) (n : ℕ) (t : Table T H M)
      → IsTable t
      → IsTable (update_sacn_dmx_merger_pap T H M merger source a n t).1
  unfolding update_sacn_dmx_merger_pap
  update_sacn_dmx_merger_pap-IsTable merger source none n t h =
      on_source-IsTable merger source _ _ t h (λ m s inv mem. (inv, refl))
  update_sacn_dmx_merger_pap-IsTable merger source (some a) n t h =
      on_source-IsTable merger source _ _ t h (λ m s inv mem.
        (pap-IsMerged m s a (n % 2 ^ 16) inv mem, handle-update_pap T H m s a (n % 2 ^ 16)))

  pub update_sacn_dmx_merger_universe_priority-IsTable :
      (merger source p : ℕ) (t : Table T H M)
      → IsTable t
      → IsTable (update_sacn_dmx_merger_universe_priority T H M merger source p t).1
  unfolding update_sacn_dmx_merger_universe_priority
  update_sacn_dmx_merger_universe_priority-IsTable merger source p t h =
      on_source-IsTable merger source _ _ t h (λ m s inv mem. (
        update_universe_priority-IsMerged T H m s p inv mem,
        handle-update_universe_priority T H m s p,
      ))

  pub remove_sacn_dmx_merger_pap-IsTable :
      (merger source : ℕ) (t : Table T H M)
      → IsTable t
      → IsTable (remove_sacn_dmx_merger_pap T H M merger source t).1
  unfolding remove_sacn_dmx_merger_pap
  remove_sacn_dmx_merger_pap-IsTable merger source t h =
      on_source-IsTable merger source _ _ t h
        (λ m s inv mem. ((remove_pap-IsMerged T H m s inv mem).0, handle-remove_pap T H m s))

  pub remove_sacn_dmx_merger_source-IsTable :
      (merger source : ℕ) (t : Table T H M)
      → IsTable t
      → IsTable (remove_sacn_dmx_merger_source T H M merger source t).1
  unfolding remove_sacn_dmx_merger_source
  remove_sacn_dmx_merger_source-IsTable merger source t h =
      on_source-IsTable merger source _ _ t h
        (λ m s inv mem. ((remove_source-IsMerged T H m s inv mem).1, handle-remove_source T H m s))
