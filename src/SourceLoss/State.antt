-- ===== src/SourceLoss/State.antt =====
-- The state of the source loss detection. A source of a termination set is one object that two trees
-- point to: the tree of all the sources, `term_set_sources`, which owns it, and the tree of its set,
-- which holds its key here.
use s_acn.Prelude.{ℕ, ◌+◌, ◌*◌, Array, Bool, List, [], ◌∷◌, ◌==◌, if◌then◌else◌, Option, none}
use s_acn.EtcPal.{RbTree, EtcPalError, is_ok}

-- kSacnRemoteSourceInvalid
abbrev pub remote_source_invalid : ℕ
remote_source_invalid = 0xffff

-- SacnRemoteSourceInternal
pub record RemoteSource : Type 0 where
  pub handle : ℕ
  pub name : Array

-- SacnLostSourceInternal
pub record OfflineSource : Type 0 where
  pub handle : ℕ
  pub name : Array
  pub terminated : Bool

-- TerminationSetSource
pub record TermSetSource : Type 0 where
  pub handle : ℕ
  pub universe : ℕ
  pub name : Array
  pub offline : Bool
  pub terminated : Bool

-- The order of term_set_source_compare: by the handle, then by the universe, a uint16_t.
abbrev pub source_key : ℕ → ℕ → ℕ
source_key handle universe = handle * 65536 + universe

abbrev pub key_of : TermSetSource → ℕ
key_of s = source_key s.handle s.universe

abbrev pub SourceTree : Type 1
SourceTree = RbTree TermSetSource key_of

abbrev pub KeyTree : Type 1
KeyTree = RbTree ℕ (λ k. k)

module _ (G : SourceTree) (S : KeyTree) (Timer : Type 0) where
  pub record TerminationSet : Type 0 where
    pub wait_period : Timer
    pub sources : S.Tree

  -- term_set_sources, and one list of termination sets.
  pub record Loss : Type 0 where
    pub all : G.Tree
    pub sets : List TerminationSet

  -- `none` also where the handle is invalid.
  unfoldable pub find_existing_ts_src : ℕ → ℕ → G.Tree → Option TermSetSource
  find_existing_ts_src universe handle all =
      if handle == remote_source_invalid then none else G.find (source_key handle universe) all

  -- The callbacks of a removal from the tree of a set: each source goes from term_set_sources too.
  unfoldable pub forget : List ℕ → G.Tree → G.Tree
  forget [] all = all
  forget (k ∷ ks) all = forget ks (G.remove k all).1

  -- insert_new_ts_src
  unfoldable pub insert_new_ts_src : TermSetSource → S.Tree → G.Tree → EtcPalError × S.Tree × G.Tree
  insert_new_ts_src s sources all =
      let (e, all') = G.insert s all in
      if is_ok e
      then (let (f, sources') = S.insert (key_of s) sources in
          (f, sources', if is_ok f then all' else (G.remove (key_of s) all').1))
      else (e, sources, all')
