-- ===== src/DmxMerger/Table/Create.antt =====
-- The functions that add mergers and sources to the table, and that remove mergers.
use s_acn.Prelude.{
  ℕ, ◌≡◌, ◌≢◌, ◌⊎◌, inl, inr, refl, subst, Bool, ◌||◌, ◌==◌, some, Option-cases, Bool-cases, Member,
  arith,
}
use s_acn.EtcPal.{IntHandleManager, EtcPalError, ok}
use s_acn.DmxMerger.State.{SourceTree, MergerState, Config, merger_invalid}
use s_acn.DmxMerger.Invariant.{IsMerged}
use s_acn.DmxMerger.Table.Adding.{construct_merger_state-IsMerged}
use s_acn.DmxMerger.Table.Merged.{IsTable}
use s_acn.DmxMerger.Table.{
  MergerTree, Table, create_sacn_dmx_merger, destroy_sacn_dmx_merger, construct_merger_state,
  in_use,
}

-- An error code is `ok` or another.
pub ok-cases : (e : EtcPalError) → (e ≡ ok) ⊎ (e ≢ ok)
ok-cases ok = inl refl
ok-cases _ = inr (λ h. cc)

module _ (T : SourceTree) (H : IntHandleManager) (M : MergerTree T H) where
  -- Whether or not an insertion succeeds, the tree holds mergers that were there, or the new one.
  insert-IsTable :
      (t t' : Table T H M) (m : MergerState T H)
      → IsTable T H M t
      → IsMerged T H m
      → t'.mergers ≡ (M.insert m t.mergers).1
      → IsTable T H M t'
  insert-IsTable t t' m h good e = record {
    all_merged = λ x k.
        let k' = subst (λ (u : M.Tree). Member x (M.items u)) e k in
        elim (ok-cases (M.insert m t.mergers).0) [
          | inl f ↦ elim ((M.insert-ok t.mergers m x f).0 k') [
            | inl g ↦ rw g good
            | inr n ↦ h.all_merged x n
          ]
          | inr ne ↦
              h.all_merged x
                (subst (λ (u : M.Tree). Member x (M.items u)) (M.insert-refused t.mergers m ne) k')
        ];
  }

  create_mergers :
      (memory : Bool) (config : Config) (t : Table T H M)
      → ((create_sacn_dmx_merger T H M memory config t).2.mergers ≡ t.mergers)
        ⊎ ((h : ℕ) × (m : MergerState T H) × (construct_merger_state T H memory h config ≡ some m)
            × ((create_sacn_dmx_merger T H M memory config t).2.mergers ≡ (M.insert m t.mergers).1))
  unfolding create_sacn_dmx_merger
  create_mergers memory config t =
      let h =
        (H.get_next (λ k. k == merger_invalid || in_use T H M (M.find k t.mergers))
          t.merger_handle_mgr).0 in
      elim (Option-cases (construct_merger_state T H memory h config)) [
        | inl e ↦ inl (rw (e, create_sacn_dmx_merger) refl)
        | inr (m, e) ↦ inr (h, m, e, rw (e, create_sacn_dmx_merger) (ground arith))
      ]

  pub create_sacn_dmx_merger-IsTable :
      (memory : Bool) (config : Config) (t : Table T H M)
      → IsTable T H M t
      → IsTable T H M (create_sacn_dmx_merger T H M memory config t).2
  create_sacn_dmx_merger-IsTable memory config t h = elim (create_mergers memory config t) [
    | inl e ↦ record {
      all_merged = λ x k. h.all_merged x (subst (λ (u : M.Tree). Member x (M.items u)) e k);
    }
    | inr (i, m, c, e) ↦
        insert-IsTable t _ m h (construct_merger_state-IsMerged T H memory i config m c) e
  ]

  pub destroy_sacn_dmx_merger-IsTable :
      (i : ℕ) (t : Table T H M)
      → IsTable T H M t
      → IsTable T H M (destroy_sacn_dmx_merger T H M i t).1
  unfolding destroy_sacn_dmx_merger
  destroy_sacn_dmx_merger-IsTable i t h = elim (Bool-cases (i == merger_invalid)) [
    | inl e ↦ rw (e, destroy_sacn_dmx_merger) h
    | inr e ↦ elim (Option-cases (M.find i t.mergers)) [
      | inl f ↦ rw (e, f, destroy_sacn_dmx_merger) h
      | inr (m, f) ↦
          rw (e, f, destroy_sacn_dmx_merger)
            (record {
              all_merged = λ x k. elim (ok-cases (M.remove i t.mergers).0) [
                | inl g ↦ h.all_merged x ((M.remove-ok t.mergers i x g).0 k).0
                | inr ne ↦ h.all_merged x (
                    subst (λ (u : M.Tree). Member x (M.items u)) (M.remove-refused t.mergers i ne)
                      k)
              ];
            })
    ]
  ]
