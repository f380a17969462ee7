-- ===== src/DmxMerger/Spec.antt =====
-- What the merge of a slot is, apart from the code that keeps it up to date: the source of the
-- highest priority wins, the highest level among equal priorities (HTP), and a slot with no source
-- is released.
use s_acn.Prelude.{ℕ, ◌≤◌, ◌<◌, ◌≡◌, ◌≢◌, ◌⊎◌, List, Member}
use s_acn.DmxMerger.State.{SourceState, Slot, calc_src_pap, released}

-- The outputs are at least what the source asks for.
pub record Beaten (t : SourceState) (slot : ℕ) (w : Slot) : Type 0 where
  pub pap_le : calc_src_pap t slot ≤ w.pap
  pub level_le : 0 < w.pap → calc_src_pap t slot ≡ w.pap → t.source.levels slot ≤ w.level

-- The outputs are exactly those of the source.
pub record Wins (t : SourceState) (slot : ℕ) (w : Slot) : Type 0 where
  pub owner : t.handle ≡ w.owner
  pub pap : calc_src_pap t slot ≡ w.pap
  pub level : t.source.levels slot ≡ w.level
  pub positive : 0 < w.pap

abbrev pub HasWinner : List SourceState → ℕ → Slot → Type 0
HasWinner ss slot w = (t : SourceState) × Member t ss × Wins t slot w

pub record IsMerge (ss : List SourceState) (slot : ℕ) (w : Slot) : Type 0 where
  pub beaten : (t : SourceState) → Member t ss → Beaten t slot w
  pub won : (w ≡ released) ⊎ HasWinner ss slot w

-- One source has been exchanged for another of the same handle, and the rest are as before.
pub record Replaced (s s' : SourceState) (ss ss' : List SourceState) : Type 0 where
  pub same_handle : s'.handle ≡ s.handle
  pub old : Member s ss
  pub new : Member s' ss'
  pub kept : (t : SourceState) → Member t ss → t.handle ≢ s.handle → Member t ss'
  pub rest : (t : SourceState) → Member t ss' → (t ≡ s') ⊎ (Member t ss × (t.handle ≢ s.handle))
  pub unique : (t : SourceState) → Member t ss → t.handle ≡ s.handle → t ≡ s
