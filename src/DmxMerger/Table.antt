-- ===== src/DmxMerger/Table.antt =====
-- The table of mergers of src/sacn/dmx_merger.c and the functions that need its lock. `memory` says
-- whether the allocation that the call makes succeeds; a write to a merger found in the table goes
-- back to it, since the tree holds a pointer.
pub mod Adding
mod Handles
pub mod Merged
pub mod Create
mod Insert
pub mod History
use s_acn.Prelude.{
  ℕ, ◌%◌, ◌^◌, Array, memset, Bool, true, false, ◌&&◌, ◌||◌, not, leb, ◌==◌, if◌then◌else◌, Option,
  none, some,
}
use s_acn.EtcPal.{
  RbTree, IntHandleManager, EtcPalError, ok, not_found, invalid, no_mem, exists, not_init, sys,
  is_ok,
}
use s_acn.DmxMerger.State.{
  SourceTree, Source, SourceState, Config, MergerState, max_slots, source_invalid, merger_invalid,
  infinite_sources,
}
use s_acn.DmxMerger.Outputs.{set_owners}
use s_acn.DmxMerger.Update.{update_levels, update_pap}
use s_acn.DmxMerger.Priority.{update_universe_priority, remove_pap, remove_source}

-- kSacnMaxValidSourceHandleValue
abbrev max_source_handle : ℕ
max_source_handle = 0xfffe

abbrev pub new_source : ℕ → SourceState
new_source h = record {
  handle = h;
  source = record {
    id = h;
    levels = λ _. 0;
    valid_level_count = 0;
    universe_priority = 0;
    address_priority = λ _. 0;
    using_universe_priority = true;
  };
  pap_count = 0;
  universe_priority_uninitialized = true;
}

unfoldable pub construct_source_state : Bool → ℕ → Option SourceState
construct_source_state memory h =
    if h == source_invalid then none else if memory then some (new_source h) else none

-- The outputs of a new merger, but for the owners: every slot released, no flag set.
cleared_config : Config → Config
cleared_config c = record c {
  levels = memset c.levels 0 0 max_slots;
  per_address_priorities = memset c.per_address_priorities 0 0 max_slots;
  per_address_priorities_active = elim c.per_address_priorities_active [
    | none ↦ none
    | some _ ↦ some false
  ];
  universe_priority = elim c.universe_priority [ none ↦ none | some _ ↦ some 0 ];
}

unfoldable pub initial_config : Config → Config
unfolding set_owners cleared_config
initial_config c = set_owners source_invalid 0 max_slots (cleared_config c)

module _ (T : SourceTree) (H : IntHandleManager) where
  abbrev pub MergerTree : Type 1
  MergerTree = RbTree (MergerState T H) (λ m. m.handle)

  unfoldable pub construct_merger_state : Bool → ℕ → Config → Option (MergerState T H)
  unfolding initial_config
  construct_merger_state memory h config =
      if h == merger_invalid
      then none
      else if memory
      then some (record {
        handle = h;
        source_handle_mgr = H.init_manager max_source_handle;
        source_state_lookup = T.init;
        config = initial_config config;
      })
      else none

module _ (T : SourceTree) (H : IntHandleManager) (M : MergerTree T H) where
  -- The static variables of the module.
  pub record Table : Type 0 where
    pub mergers : M.Tree
    pub merger_handle_mgr : H.Manager

  -- sacn_dmx_merger_init, once the mutex is there: -1 stands for no maximum.
  unfoldable pub init_table : Table
  init_table = record { mergers = M.init; merger_handle_mgr = H.init_manager merger_invalid }

  unfoldable pub in_use {ℓ} : {A : Type ℓ} → Option A → Bool
  in_use none = false
  in_use (some _) = true

  unfoldable pub put_merger : Table → MergerState T H → Table
  put_merger t m = record t { mergers = M.store m t.mergers }

  -- lookup_state with both results asked for; `none` is kEtcPalErrNotFound.
  unfoldable pub lookup_state : Table → ℕ → ℕ → Option (MergerState T H × SourceState)
  lookup_state t merger source = elim (M.find merger t.mergers) [
    | none ↦ none
    | some m ↦ elim (T.find source m.source_state_lookup) [ none ↦ none | some s ↦ some (m, s) ]
  ]

  unfoldable pub create_sacn_dmx_merger : Bool → Config → Table → EtcPalError × Option ℕ × Table
  unfolding construct_merger_state in_use
  create_sacn_dmx_merger memory config t =
      let (h, mgr) =
        H.get_next (λ k. k == merger_invalid || in_use (M.find k t.mergers)) t.merger_handle_mgr in
      let t' : Table = record t { merger_handle_mgr = mgr } in
      elim (construct_merger_state T H memory h config) [
        | none ↦ (no_mem, none, t')
        | some m ↦
            let (e, tree) = M.insert m t.mergers in
            elim e [
              | ok ↦ (ok, some h, record t' { mergers = tree })
              | no_mem ↦ (no_mem, none, record t' { mergers = tree })
              | _ ↦ (sys, none, record t' { mergers = tree })
            ]
      ]

  unfoldable pub destroy_sacn_dmx_merger : ℕ → Table → EtcPalError × Table
  destroy_sacn_dmx_merger h t =
      if h == merger_invalid then (sys, t) else elim (M.find h t.mergers) [
        | none ↦ (not_found, t)
        | some m ↦
            let (e, tree) = M.remove h t.mergers in
            ((if is_ok e then ok else sys), record t { mergers = tree })
      ]

  -- The insertion at the end of add_source, and what it answers.
  unfoldable pub insert_source :
      Table → MergerState T H → ℕ → SourceState → EtcPalError × Option ℕ × Table
  unfolding put_merger
  insert_source t m h s =
      let (e, tree) = T.insert s m.source_state_lookup in
      let t' = put_merger t (record m { source_state_lookup = tree }) in
      elim e [ ok ↦ (ok, some h, t') | no_mem ↦ (no_mem, none, t') | _ ↦ (sys, none, t') ]

  -- The handle of a new source, from the handle manager unless one is asked for.
  unfoldable pub choose_handle : MergerState T H → ℕ → ℕ × MergerState T H
  unfolding in_use
  choose_handle m id_to_use =
      if id_to_use == source_invalid
      then (let (h, mgr) =
            H.get_next (λ k. in_use (T.find k m.source_state_lookup)) m.source_handle_mgr in
          (h % 2 ^ 16, record m { source_handle_mgr = mgr }))
      else (id_to_use, m)

  unfoldable pub add_source : Bool → ℕ → ℕ → Table → EtcPalError × Option ℕ × Table
  unfolding put_merger choose_handle construct_source_state insert_source
  add_source memory merger id_to_use t =
      if merger == merger_invalid then (sys, none, t) else elim (M.find merger t.mergers) [
        | none ↦ (invalid, none, t)
        | some m ↦
            if not (m.config.source_count_max == infinite_sources)
              && leb m.config.source_count_max (T.size m.source_state_lookup)
            then (no_mem, none, t)
            else let (h, m') = choose_handle m id_to_use in
              elim (construct_source_state memory h) [
                | none ↦ (no_mem, none, put_merger t m')
                | some s ↦ insert_source t m' h s
              ]
      ]

  unfoldable pub add_sacn_dmx_merger_source : Bool → ℕ → Table → EtcPalError × Option ℕ × Table
  unfolding add_source
  add_sacn_dmx_merger_source memory merger t = add_source memory merger source_invalid t

  unfoldable pub add_sacn_dmx_merger_source_with_handle : Bool → ℕ → ℕ → Table → EtcPalError × Table
  unfolding add_source
  add_sacn_dmx_merger_source_with_handle memory merger handle_to_use t =
      if handle_to_use == source_invalid
      then (sys, t)
      else let (e, _, t') = add_source memory merger handle_to_use t in (e, t')

  -- The two assertions and the search that begin each function on one source; then `act` on it.
  unfoldable pub on_source :
      ℕ
      → ℕ
      → EtcPalError
      → (MergerState T H → SourceState → EtcPalError × MergerState T H)
      → Table
      → EtcPalError × Table
  unfolding lookup_state put_merger
  on_source merger source missing act t =
      if merger == merger_invalid || source == source_invalid
      then (sys, t)
      else elim (lookup_state t merger source) [
        | none ↦ (missing, t)
        | some (m, s) ↦ let (e, m') = act m s in (e, put_merger t m')
      ]

  unfoldable pub remove_sacn_dmx_merger_source : ℕ → ℕ → Table → EtcPalError × Table
  unfolding on_source
  remove_sacn_dmx_merger_source merger source t =
      on_source merger source invalid (λ m s. remove_source T H m s) t

  unfoldable pub update_sacn_dmx_merger_levels :
      ℕ → ℕ → Option Array → ℕ → Table → EtcPalError × Table
  unfolding on_source
  update_sacn_dmx_merger_levels merger source new_levels count t =
      on_source merger source not_found
        (λ m s.
          (ok, elim new_levels [ none ↦ m | some a ↦ update_levels T H m s a (count % 2 ^ 16) ]))
        t

  unfoldable pub update_sacn_dmx_merger_pap : ℕ → ℕ → Option Array → ℕ → Table → EtcPalError × Table
  unfolding on_source
  update_sacn_dmx_merger_pap merger source pap count t =
      on_source merger source not_found
        (λ m s. (ok, elim pap [ none ↦ m | some a ↦ update_pap T H m s a (count % 2 ^ 16) ])) t

  unfoldable pub update_sacn_dmx_merger_universe_priority : ℕ → ℕ → ℕ → Table → EtcPalError × Table
  unfolding on_source
  update_sacn_dmx_merger_universe_priority merger source priority t =
      on_source merger source not_found (λ m s. (ok, update_universe_priority T H m s priority)) t

  unfoldable pub remove_sacn_dmx_merger_pap : ℕ → ℕ → Table → EtcPalError × Table
  unfolding on_source
  remove_sacn_dmx_merger_pap merger source t =
      on_source merger source not_found (λ m s. (ok, remove_pap T H m s)) t
