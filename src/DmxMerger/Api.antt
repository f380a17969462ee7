-- ===== src/DmxMerger/Api.antt =====
-- The public functions of src/sacn/dmx_merger.c: they check that the module is initialised and that
-- their arguments are valid, take the lock, and call the functions of `Table`.
pub mod Answers
use s_acn.Prelude.{
  ℕ, Array, Bool, true, false, ◌||◌, not, ltb, ◌==◌, if◌then◌else◌, Option, none, some,
}
use s_acn.EtcPal.{IntHandleManager, EtcPalError, ok, not_found, invalid, not_init, sys}
use s_acn.DmxMerger.State.{SourceTree, Source, Config, max_slots, source_invalid, merger_invalid}
use s_acn.DmxMerger.Table.{
  MergerTree, Table, lookup_state, create_sacn_dmx_merger, destroy_sacn_dmx_merger,
  add_sacn_dmx_merger_source, remove_sacn_dmx_merger_source, update_sacn_dmx_merger_levels,
  update_sacn_dmx_merger_pap, update_sacn_dmx_merger_universe_priority, remove_sacn_dmx_merger_pap,
}

-- What a call meets: whether sacn_initialized(SACN_FEATURE_DMX_MERGER) holds, whether the mutex can
-- be locked, and whether an allocation succeeds.
pub record Env : Type 0 where
  pub initialized : Bool
  pub lock : Bool
  pub memory : Bool

abbrev is_none {ℓ} : {A : Type ℓ} → Option A → Bool
is_none none = true
is_none (some _) = false

module _ (T : SourceTree) (H : IntHandleManager) (M : MergerTree T H) (env : Env) where
  -- `config` is `none` for a NULL configuration, or one whose `levels` is NULL; `out` is false for a
  -- NULL result.
  unfoldable pub sacn_dmx_merger_create :
      Option Config → Bool → Table T H M → EtcPalError × Option ℕ × Table T H M
  sacn_dmx_merger_create config out t =
      if not env.initialized then (not_init, none, t) else elim config [
        | none ↦ (invalid, none, t)
        | some c ↦
            if not out
            then (invalid, none, t)
            else if env.lock
            then create_sacn_dmx_merger T H M env.memory c t
            else (sys, none, t)
      ]

  unfoldable pub sacn_dmx_merger_destroy : ℕ → Table T H M → EtcPalError × Table T H M
  sacn_dmx_merger_destroy merger t =
      if not env.initialized
      then (not_init, t)
      else if merger == merger_invalid
      then (not_found, t)
      else if env.lock
      then destroy_sacn_dmx_merger T H M merger t
      else (sys, t)

  unfoldable pub sacn_dmx_merger_add_source :
      ℕ → Bool → Table T H M → EtcPalError × Option ℕ × Table T H M
  sacn_dmx_merger_add_source merger out t =
      if not env.initialized
      then (not_init, none, t)
      else if not out || merger == merger_invalid
      then (invalid, none, t)
      else if env.lock
      then add_sacn_dmx_merger_source T H M env.memory merger t
      else (sys, none, t)

  unfoldable pub sacn_dmx_merger_remove_source : ℕ → ℕ → Table T H M → EtcPalError × Table T H M
  sacn_dmx_merger_remove_source merger source t =
      if not env.initialized
      then (not_init, t)
      else if merger == merger_invalid || source == source_invalid
      then (invalid, t)
      else if env.lock
      then remove_sacn_dmx_merger_source T H M merger source t
      else (sys, t)

  unfoldable pub sacn_dmx_merger_get_source : ℕ → ℕ → Table T H M → Option Source
  sacn_dmx_merger_get_source merger source t =
      if merger == merger_invalid || source == source_invalid
      then none
      else if env.lock
      then elim (lookup_state T H M t merger source) [ none ↦ none | some (m, s) ↦ some s.source ]
      else none

  unfoldable pub sacn_dmx_merger_update_levels :
      ℕ → ℕ → Option Array → ℕ → Table T H M → EtcPalError × Table T H M
  sacn_dmx_merger_update_levels merger source new_levels count t =
      if not env.initialized
      then (not_init, t)
      else if merger == merger_invalid
          || source == source_invalid
          || ltb max_slots count
          || is_none new_levels
          || count == 0
      then (invalid, t)
      else if env.lock
      then update_sacn_dmx_merger_levels T H M merger source new_levels count t
      else (sys, t)

  unfoldable pub sacn_dmx_merger_update_pap :
      ℕ → ℕ → Option Array → ℕ → Table T H M → EtcPalError × Table T H M
  sacn_dmx_merger_update_pap merger source pap count t =
      if not env.initialized
      then (not_init, t)
      else if merger == merger_invalid
          || source == source_invalid
          || ltb max_slots count
          || is_none pap
          || count == 0
      then (invalid, t)
      else if env.lock
      then update_sacn_dmx_merger_pap T H M merger source pap count t
      else (sys, t)

  unfoldable pub sacn_dmx_merger_update_universe_priority :
      ℕ → ℕ → ℕ → Table T H M → EtcPalError × Table T H M
  sacn_dmx_merger_update_universe_priority merger source priority t =
      if not env.initialized
      then (not_init, t)
      else if merger == merger_invalid || source == source_invalid
      then (invalid, t)
      else if env.lock
      then update_sacn_dmx_merger_universe_priority T H M merger source priority t
      else (sys, t)

  unfoldable pub sacn_dmx_merger_remove_pap : ℕ → ℕ → Table T H M → EtcPalError × Table T H M
  sacn_dmx_merger_remove_pap merger source t =
      if not env.initialized
      then (not_init, t)
      else if merger == merger_invalid || source == source_invalid
      then (not_found, t)
      else if env.lock
      then remove_sacn_dmx_merger_pap T H M merger source t
      else (sys, t)
