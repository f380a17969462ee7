-- ===== src/DmxMerger/State.antt =====
-- The data of the DMX merger: include/sacn/dmx_merger.h and src/sacn/private/dmx_merger.h.
use s_acn.Prelude.{ℕ, ◌-◌, ◌^◌, Bool, Option, Array, set, ltb, if◌then◌else◌}
use s_acn.EtcPal.{RbTree, IntHandleManager}

-- SACN_DMX_MERGER_MAX_SLOTS
abbrev pub max_slots : ℕ
max_slots = 512

-- kSacnDmxMergerSourceInvalid
abbrev pub source_invalid : ℕ
source_invalid = 0xffff

-- kSacnDmxMergerInvalid: a handle is the bit pattern of an `int`, and this is that of -1.
abbrev pub merger_invalid : ℕ
merger_invalid = 2 ^ 32 - 1

-- kSacnReceiverInfiniteSources
abbrev pub infinite_sources : ℕ
infinite_sources = 0

-- SacnDmxMergerSource
pub record Source : Type 0 where
  pub id : ℕ
  pub levels : Array
  pub valid_level_count : ℕ
  pub universe_priority : ℕ
  pub address_priority : Array
  pub using_universe_priority : Bool

pub record SourceState : Type 0 where
  pub handle : ℕ
  pub source : Source
  pub pap_count : ℕ
  pub universe_priority_uninitialized : Bool

-- SacnDmxMergerConfig, the buffers with what they hold; an output that is NULL is `none`. `levels`,
-- `per_address_priorities` and `owners` are never NULL in a merger.
pub record Config : Type 0 where
  pub levels : Array
  pub per_address_priorities : Array
  pub per_address_priorities_active : Option Bool
  pub universe_priority : Option ℕ
  pub owners : Array
  pub source_count_max : ℕ

-- The three outputs of one slot.
pub record Slot : Type 0 where
  pub level : ℕ
  pub pap : ℕ
  pub owner : ℕ

unfoldable pub get_slot : Config → ℕ → Slot
get_slot c i = record { level = c.levels i; pap = c.per_address_priorities i; owner = c.owners i }

unfoldable pub put_slot : Config → ℕ → Slot → Config
put_slot c i w = record c {
  levels = set c.levels i w.level;
  per_address_priorities = set c.per_address_priorities i w.pap;
  owners = set c.owners i w.owner;
}

abbrev pub released : Slot
released = record { level = 0; pap = 0; owner = source_invalid }

-- PAP_ACTIVE is the negation of `using_universe_priority`. CALC_SRC_PAP:
unfoldable pub calc_src_pap : SourceState → ℕ → ℕ
calc_src_pap s slot =
    if ltb slot s.source.valid_level_count then s.source.address_priority slot else 0

abbrev pub SourceTree : Type 1
SourceTree = RbTree SourceState (λ s. s.handle)

module _ (T : SourceTree) (H : IntHandleManager) where
  pub record MergerState : Type 0 where
    pub handle : ℕ
    pub source_handle_mgr : H.Manager
    pub source_state_lookup : T.Tree
    pub config : Config
