-- ===== src/DmxMerger/Table/Insert.antt =====
-- add_source keeps the outputs of each merger the merge of its sources.
use s_acn.Prelude.{
  ℕ, ◌≡◌, ◌≢◌, ◌⊎◌, ◌↔◌, inl, inr, refl, sym, subst, Bool, ◌&&◌, not, leb, ◌==◌, some, Option-cases,
  Bool-cases, Member, arith,
}
use s_acn.EtcPal.{IntHandleManager}
use s_acn.DmxMerger.State.{
  SourceTree, SourceState, MergerState, source_invalid, merger_invalid, infinite_sources,
}
use s_acn.DmxMerger.Invariant.{IsMerged}
use s_acn.DmxMerger.Table.Adding.{added-IsMerged}
use s_acn.DmxMerger.Table.Merged.{IsTable, put_merger-IsTable}
use s_acn.DmxMerger.Table.Create.{ok-cases}
use s_acn.DmxMerger.Table.{
  MergerTree, Table, put_merger, new_source, construct_source_state, choose_handle, insert_source,
  add_source,
}

-- A constructed source is a new one, of a valid handle.
construct_source_state-some :
    (memory : Bool) (h : ℕ) (s : SourceState)
    → construct_source_state memory h ≡ some s
    → (s ≡ new_source h) × (h ≢ source_invalid)
unfolding construct_source_state
construct_source_state-some memory h s e = (ground arith, ground arith)

module _ (T : SourceTree) (H : IntHandleManager) (M : MergerTree T H) where
  -- The choice of a handle changes the handle manager alone.
  choose_handle-IsMerged :
      (m : MergerState T H) (id : ℕ)
      → IsMerged T H m
      → IsMerged T H (choose_handle T H M m id).1 × ((choose_handle T H M m id).1.handle ≡ m.handle)
  unfolding choose_handle
  choose_handle-IsMerged m id h = elim (Bool-cases (id == source_invalid)) [
    | inl e ↦ rw (e, choose_handle) (same _, refl)
    | inr e ↦ rw (e, choose_handle) (h, refl)
  ]
    where
      same : (g : H.Manager) → IsMerged T H (record m { source_handle_mgr = g })
      same g = record {
        wellformed = h.wellformed;
        slots = h.slots;
        pap_active = h.pap_active;
        max_priority = h.max_priority;
      }

  insert_source-table :
      (t : Table T H M) (m : MergerState T H) (h : ℕ) (s : SourceState)
      → (insert_source T H M t m h s).2
        ≡ put_merger T H M t
            (record m { source_state_lookup = (T.insert s m.source_state_lookup).1 })
  unfolding insert_source
  insert_source-table t m h s = ground arith

  insert_source-IsTable :
      (t : Table T H M) (old m : MergerState T H) (h : ℕ) (s : SourceState)
      → IsTable T H M t
      → Member old (M.items t.mergers)
      → m.handle ≡ old.handle
      → IsMerged T H m
      → s ≡ new_source h
      → h ≢ source_invalid
      → IsTable T H M (insert_source T H M t m h s).2
  insert_source-IsTable t old m h s ts k e good new valid =
      let m' : MergerState T H = record m {
        source_state_lookup = (T.insert s m.source_state_lookup).1;
      } in
      subst (IsTable T H M) (sym (insert_source-table t m h s)) (
        put_merger-IsTable T H M t old m' ts k e
          (elim (ok-cases (T.insert s m.source_state_lookup).0) [
            | inl f ↦ added-IsMerged T H m h (T.insert s m.source_state_lookup).1 good valid (λ x.
                subst
                  (λ (n : SourceState).
                    Member x (T.items (T.insert s m.source_state_lookup).1)
                    ↔ ((x ≡ n) ⊎ Member x (T.items m.source_state_lookup)))
                  new (T.insert-ok m.source_state_lookup s x f))
            | inr ne ↦ rw (T.insert-refused m.source_state_lookup s ne) good
          ]))

  pub add_source-IsTable :
      (memory : Bool) (merger id : ℕ) (t : Table T H M)
      → IsTable T H M t
      → IsTable T H M (add_source T H M memory merger id t).2
  unfolding add_source
  add_source-IsTable memory merger id t h = elim (Bool-cases (merger == merger_invalid)) [
    | inl e ↦ rw (e, add_source) h
    | inr e ↦ elim (Option-cases (M.find merger t.mergers)) [
      | inl f ↦ rw (e, f, add_source) h
      | inr (m, f) ↦
          let k = (M.find-some t.mergers merger m f).0 in
          let (good, same) = choose_handle-IsMerged m id (h.all_merged m k) in
          let full =
            not (m.config.source_count_max == infinite_sources)
            && leb m.config.source_count_max (T.size m.source_state_lookup) in
          elim (Bool-cases full) [
            | inl g ↦ rw (e, f, g, add_source) h
            | inr g ↦
                elim (Option-cases (construct_source_state memory (choose_handle T H M m id).0)) [
                  | inl c ↦
                      rw (e, f, g, c, add_source) (put_merger-IsTable T H M t m _ h k same good)
                  | inr (s, c) ↦
                      let (new, valid) = construct_source_state-some memory _ s c in
                      rw (e, f, g, c, add_source)
                        (insert_source-IsTable t m _ _ s h k same good new valid)
                ]
          ]
    ]
  ]
