-- ===== src/Receiver/Tick.antt =====
-- The periodic work of src/sacn/receiver_state.c: process_receivers, for one receiver.
use s_acn.Prelude.{ℕ, zero, suc, Bool, true, false, ◌&&◌, not, ◌==◌, if◌then◌else◌, List, [], ◌∷◌}
use s_acn.SourceLoss.State.{Loss}
use s_acn.SourceLoss.Online.{mark_sources_online}
use s_acn.SourceLoss.Offline.{mark_sources_offline}
use s_acn.SourceLoss.Offline
use s_acn.SourceLoss.Expired.{SourcesLost, LostSource, get_expired_sources, clear_term_set_list}
use s_acn.Receiver.Remote.{get_remote_source_cid}
use s_acn.Receiver.State.{SamplingNetint, Platform, Tracked, Receiver, World, sample_time}
use s_acn.Receiver.Track.{remove_receiver_source, remove_current_sampling_period_netints}
use s_acn.Receiver.Source.{mark_source_terminated}
use s_acn.Receiver.State.{NetintId}
use s_acn.Receiver.Status.{StatusLists, zero_status_lists, check_source_timeouts}

-- What one tick notifies of a receiver.
pub record Ticked : Type 0 where
  pub sampling_ended : Bool
  pub sampling_started : Bool
  pub sources_lost : SourcesLost

-- The outcomes of the allocations of a tick: of the buffer of sources to erase, of the status lists,
-- of source loss, of a lost source.
pub record Room : Type 0 where
  pub to_erase : Bool
  pub status : ℕ → Bool
  pub offline : Offline.Memory
  pub lost : ℕ → Bool

abbrev pub none_lost : SourcesLost
none_lost = record {
  lost_sources = λ _. record { handle = 0; cid = 0; name = λ _. 0; terminated = false };
  num_lost_sources = 0;
}

module _ (P : Platform) (now : ℕ) where
  unfoldable pub begin_sampling_period : Receiver P → Receiver P
  begin_sampling_period r = if r.sampling then r else record r {
    sampling = true;
    notified_sampling_started = false;
    sample_timer = P.tm.start now sample_time;
  }

  -- The interfaces of the future sampling period become those of the current one.
  unfoldable pub make_current : List SamplingNetint → P.netints.Tree → P.netints.Tree
  make_current [] tree = tree
  make_current (n ∷ ns) tree =
      make_current ns (P.netints.store (record n { in_future_sampling_period = false }) tree)

  unfoldable pub end_current_sampling_period : Receiver P → Receiver P
  unfolding begin_sampling_period make_current remove_current_sampling_period_netints
  end_current_sampling_period r =
      let left = remove_current_sampling_period_netints P r.sampling_period_netints in
      let ended : Receiver P = record r { sampling_period_netints = left; sampling = false } in
      if P.netints.size left == 0
      then ended
      else begin_sampling_period
          (record ended { sampling_period_netints = make_current (P.netints.items left) left })

  -- The walk over the sources: their changes, the lists, and the handles of those to erase.
  unfoldable pub check_sources :
      (ℕ → Bool)
      → List (Tracked P)
      → P.tracked.Tree
      → StatusLists
      → P.tracked.Tree × StatusLists × List ℕ
  unfolding check_source_timeouts
  check_sources room [] tree l = (tree, l, [])
  check_sources room (s ∷ ss) tree l =
      let (stays, s', l') = check_source_timeouts P now room s l in
      let (tree', l'', erased) = check_sources room ss (P.tracked.store s' tree) l' in
      (tree', l'', if stays then erased else s.handle ∷ erased)

  unfoldable pub remove_all : List ℕ → World P → World P
  unfolding remove_receiver_source
  remove_all [] w = w
  remove_all (h ∷ hs) w = remove_all hs (remove_receiver_source P h w).1

  -- The handles of the first `n` lost sources.
  unfoldable pub lost_handles : ℕ → (ℕ → LostSource) → List ℕ
  lost_handles zero lost = []
  lost_handles (suc n) lost = (lost 0).handle ∷ lost_handles n (λ i. lost (suc i))

  -- mark_sources_offline, then mark_sources_online, then get_expired_sources
  unfoldable pub process_term_sets :
      Room → World P → StatusLists → ℕ → Loss P.lost P.keys P.tm.Timer × SourcesLost
  unfolding mark_sources_offline mark_sources_online get_expired_sources get_remote_source_cid
  process_term_sets room w l expired_wait =
      let loss : Loss P.lost P.keys P.tm.Timer = record {
        all = w.term_set_sources;
        sets = w.receiver.term_sets;
      } in
      let marked =
        (mark_sources_offline P.lost P.keys P.tm.Timer (P.tm.start now) room.offline
          w.receiver.universe l.offline l.unknown expired_wait loss).1 in
      get_expired_sources P.lost P.keys P.tm.Timer (P.tm.is_expired now)
        (λ h. get_remote_source_cid P.handle_tree P.cid_tree P.handle_manager h w.remotes) room.lost
        (mark_sources_online P.lost P.keys P.tm.Timer w.receiver.universe l.online marked) none_lost

  unfoldable pub process_receiver_sources : Room → ℕ → World P → World P × SourcesLost
  unfolding check_sources remove_all lost_handles process_term_sets
  process_receiver_sources room expired_wait w =
      let (sources, l, erased) =
        check_sources room.status (P.tracked.items w.receiver.sources) w.receiver.sources
          zero_status_lists in
      let checked : World P = record w { receiver = record w.receiver { sources = sources } } in
      let (loss, lost) = process_term_sets room checked l expired_wait in
      let processed : World P = record checked {
        receiver = record checked.receiver { term_sets = loss.sets };
        term_set_sources = loss.all;
      } in
      let kept = remove_all erased processed in
      let left = remove_all (lost_handles lost.num_lost_sources lost.lost_sources) kept in
      if not room.to_erase
      then (w, none_lost)
      else if lost.num_lost_sources == 0
      then (kept, lost)
      else (
        record left {
          receiver = record left.receiver { suppress_limit_exceeded_notification = false };
        },
        lost,
      )

  -- One round of process_receivers.
  unfoldable pub process_receiver : Room → ℕ → World P → World P × Ticked
  unfolding end_current_sampling_period process_receiver_sources
  process_receiver room expired_wait w =
      let ends = w.receiver.sampling && P.tm.is_expired now w.receiver.sample_timer in
      let r = if ends then end_current_sampling_period w.receiver else w.receiver in
      let started = record w { receiver = record r { notified_sampling_started = true } } in
      let (w', lost) = process_receiver_sources room expired_wait started in
      (
        w',
        record {
          sampling_ended = ends;
          sampling_started = not r.notified_sampling_started;
          sources_lost = lost;
        },
      )

  -- clear_term_sets_and_sources, less the answer
  unfoldable pub forget_all : List (Tracked P) → World P → World P
  unfolding remove_receiver_source
  forget_all [] w = w
  forget_all (s ∷ ss) w = forget_all ss (remove_receiver_source P s.handle w).1

  unfoldable pub clear_term_sets_and_sources : World P → World P
  unfolding forget_all clear_term_set_list
  clear_term_sets_and_sources w = forget_all (P.tracked.items w.receiver.sources) (record w {
    receiver = record w.receiver { term_sets = []; suppress_limit_exceeded_notification = false };
    term_set_sources =
        clear_term_set_list P.lost P.keys P.tm.Timer w.receiver.term_sets w.term_set_sources;
  })

  unfoldable pub has_netint : NetintId → List NetintId → Bool
  has_netint id [] = false
  has_netint id (n ∷ ns) =
      if id.index == n.index && id.ip_type == n.ip_type then true else has_netint id ns

  unfoldable pub terminate_on_removed :
      List (Tracked P) → List NetintId → P.tracked.Tree → P.tracked.Tree
  unfolding has_netint mark_source_terminated
  terminate_on_removed [] netints tree = tree
  terminate_on_removed (s ∷ ss) netints tree = terminate_on_removed ss netints (
      if has_netint s.netint netints
      then tree
      else P.tracked.store (mark_source_terminated P now s) tree)

  unfoldable pub terminate_sources_on_removed_netints : List NetintId → Receiver P → Receiver P
  unfolding terminate_on_removed
  terminate_sources_on_removed_netints netints r = record r {
    sources = terminate_on_removed (P.tracked.items r.sources) netints r.sources;
  }
