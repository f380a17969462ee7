-- ===== src/SourceLoss/Expired.antt =====
-- get_expired_sources and clear_term_set_list of src/sacn/source_loss.c, and add_lost_source of
-- src/sacn/mem/receiver/sources_lost.c.
use s_acn.Prelude.{
  ℕ, ◌+◌, ◌-◌, Array, Bool, true, false, List, [], ◌∷◌, Option, none, some, ◌==◌, ◌||◌, not,
  if◌then◌else◌,
}
use s_acn.SourceLoss.State.{
  SourceTree, KeyTree, TermSetSource, remote_source_invalid, TerminationSet, Loss, forget,
}

-- SacnLostSource
pub record LostSource : Type 0 where
  pub handle : ℕ
  pub cid : ℕ
  pub name : Array
  pub terminated : Bool

-- SourcesLostNotification, the members that change
pub record SourcesLost : Type 0 where
  pub lost_sources : ℕ → LostSource
  pub num_lost_sources : ℕ

-- `room` says whether the array has room for one more source, or can be made to have it.
unfoldable pub add_lost_source : Bool → LostSource → SourcesLost → Bool × SourcesLost
add_lost_source room s n = if s.handle == remote_source_invalid || not room then (false, n) else (
  true,
  record {
    lost_sources = λ i. if i == n.num_lost_sources then s else n.lost_sources i;
    num_lost_sources = n.num_lost_sources + 1;
  },
)

module _ (G : SourceTree) (S : KeyTree) (Timer : Type 0) (is_expired : Timer → Bool)
    (cid_of : ℕ → Option ℕ) (room : ℕ → Bool) where
  -- An offline source of an expired set; the count is that of the sources added from this set.
  unfoldable pub report : TermSetSource → ℕ → SourcesLost → ℕ × SourcesLost
  unfolding add_lost_source
  report s added lost = elim (cid_of s.handle) [
    | none ↦ (added, lost)
    | some cid ↦
        let (fits, lost') =
          add_lost_source (room s.handle)
            (record { handle = s.handle; cid = cid; name = s.name; terminated = s.terminated })
            lost in
        ((if fits then added + 1 else added), lost')
  ]

  -- The walk over the sources of an expired set. A key that is in no object is passed over.
  unfoldable pub expire : List ℕ → G.Tree → ℕ → SourcesLost → Bool × SourcesLost
  unfolding report
  expire [] all added lost = (true, lost)
  expire (k ∷ ks) all added lost = elim (G.find k all) [
    | none ↦ expire ks all added lost
    | some s ↦
        let (added', lost') = report s added lost in
        let rest = expire ks all added' lost' in
        if s.offline
        then rest
        else (false, record lost { num_lost_sources = lost.num_lost_sources - added })
  ]

  unfoldable pub expire_sets :
      List (TerminationSet G S Timer) → G.Tree → SourcesLost → Loss G S Timer × SourcesLost
  unfolding expire
  expire_sets [] all lost = (record { all = all; sets = [] }, lost)
  expire_sets (set ∷ sets) all lost =
      let (remove_ts, lost') =
        if is_expired set.wait_period
        then expire (S.items set.sources) all 0 lost
        else (false, lost) in
      let removed = expire_sets sets (forget G S Timer (S.items set.sources) all) lost' in
      let (l, lost'') = expire_sets sets all lost' in
      if remove_ts then removed else (record l { sets = set ∷ l.sets }, lost'')

  unfoldable pub get_expired_sources : Loss G S Timer → SourcesLost → Loss G S Timer × SourcesLost
  unfolding expire_sets
  get_expired_sources l lost = expire_sets l.sets l.all lost

module _ (G : SourceTree) (S : KeyTree) (Timer : Type 0) where
  -- clear_term_set_list frees the list: what is left is term_set_sources.
  unfoldable pub clear_term_set_list : List (TerminationSet G S Timer) → G.Tree → G.Tree
  unfolding forget
  clear_term_set_list [] all = all
  clear_term_set_list (set ∷ sets) all =
      clear_term_set_list sets (forget G S Timer (S.items set.sources) all)
