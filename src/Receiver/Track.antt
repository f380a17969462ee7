-- ===== src/Receiver/Track.antt =====
-- src/sacn/mem/receiver/tracked_source.c: the sources that a receiver tracks; and
-- src/sacn/mem/receiver/sampling_period_netint.c: the interfaces of its sampling period.
pub mod Current
use s_acn.Prelude.{
  ℕ, zero, suc, ◌+◌, Array, Bool, true, false, ◌&&◌, ◌||◌, not, ltb, ◌==◌, if◌then◌else◌, Option,
  none, some, List, [], ◌∷◌,
}
use s_acn.EtcPal.{EtcPalError, ok, no_mem, sys, exists, is_ok}
use s_acn.SourceLoss.State.{remote_source_invalid, Loss}
use s_acn.SourceLoss.Expired.{clear_term_set_list}
use s_acn.Receiver.Remote
use s_acn.Receiver.State.{
  RecvState, waiting_for_pap, have_dmx_only, have_pap_only, NetintId, SamplingNetint, netint_key,
  Platform, Tracked, AllRemotes, Receiver, World, TrackedSource, source_loss_timeout,
  wait_for_priority, startcode_priority,
}

-- kSacnReceiverInfiniteSources
abbrev infinite_sources : ℕ
infinite_sources = 0

-- The outcome of the allocation of a tracked source, and what its memory holds where its PAP timer
-- will be; and those of add_remote_source_handle.
pub record Memory (Timer : Type 0) : Type 0 where
  pub source : Bool
  pub junk_timer : Timer
  pub remote : Remote.Memory

-- The states of a new source, by its first start code.
unfoldable pub first_state : Bool → ℕ → RecvState
first_state sampling start_code =
    if start_code == startcode_priority
    then have_pap_only
    else if sampling
    then have_dmx_only
    else waiting_for_pap

module _ (P : Platform) (now : ℕ) (memory : Memory P.tm.Timer) where
  unfoldable pub first_pap_timer : Bool → ℕ → P.tm.Timer
  first_pap_timer sampling start_code =
      if sampling
      then (if start_code == startcode_priority
          then P.tm.start now source_loss_timeout
          else memory.junk_timer)
      else P.tm.start now wait_for_priority

  unfoldable pub new_tracked : Receiver P → ℕ → Array → NetintId → ℕ → ℕ → Tracked P
  unfolding first_state first_pap_timer
  new_tracked r handle name netint seq start_code = record {
    handle = handle;
    name = name;
    netint = netint;
    packet_timer = P.tm.start now source_loss_timeout;
    seq = seq;
    terminated = false;
    dmx_received_since_last_tick = true;
    recv_state = first_state r.sampling start_code;
    pap_timer = first_pap_timer r.sampling start_code;
  }

  unfoldable pub has_room : Receiver P → Bool
  has_room r =
      r.source_count_max == infinite_sources || ltb (P.tracked.size r.sources) r.source_count_max

  unfoldable pub add_sacn_tracked_source :
      World P → ℕ → Array → NetintId → ℕ → ℕ → EtcPalError × Option (Tracked P) × World P
  unfolding has_room new_tracked Remote.add_remote_source_handle Remote.remove_remote_source_handle
  add_sacn_tracked_source w cid name netint seq start_code =
      let (e, handle, remotes) =
        Remote.add_remote_source_handle P.handle_tree P.cid_tree P.handle_manager memory.remote cid
          w.remotes in
      let w' : World P = record w { remotes = remotes } in
      if has_room w.receiver && memory.source
      then elim handle [
        | none ↦ (e, none, w')
        | some h ↦
            let back : World P = record w {
              remotes =
                  (Remote.remove_remote_source_handle P.handle_tree P.cid_tree P.handle_manager h
                    remotes).1;
            } in
            let s = new_tracked w.receiver h name netint seq start_code in
            let (f, sources) = P.tracked.insert s w.receiver.sources in
            if not (is_ok e)
            then (e, none, back)
            else if is_ok f
            then (ok, some s, record w' { receiver = record w.receiver { sources = sources } })
            else (f, none, record back { receiver = record w.receiver { sources = sources } })
      ]
      else (no_mem, none, w)

module _ (P : Platform) where
  unfoldable pub remove_receiver_source : ℕ → World P → EtcPalError × World P
  unfolding Remote.remove_remote_source_handle
  remove_receiver_source handle w =
      let (e, sources) = P.tracked.remove handle w.receiver.sources in
      let remotes =
        (Remote.remove_remote_source_handle P.handle_tree P.cid_tree P.handle_manager handle
          w.remotes).1 in
      if handle == remote_source_invalid
      then (sys, w)
      else if is_ok e
      then (ok, record w { receiver = record w.receiver { sources = sources }; remotes = remotes })
      else (e, record w { receiver = record w.receiver { sources = sources } })

  unfoldable pub add_sacn_sampling_period_netint :
      Bool → NetintId → Bool → P.netints.Tree → EtcPalError × P.netints.Tree
  add_sacn_sampling_period_netint memory id future tree =
      let (e, tree') =
        P.netints.insert (record { id = id; in_future_sampling_period = future }) tree in
      if memory then ((elim e [ exists ↦ ok | other ↦ other ]), tree') else (no_mem, tree)

  unfoldable pub first_current : List SamplingNetint → Option SamplingNetint
  first_current [] = none
  first_current (n ∷ ns) = if n.in_future_sampling_period then first_current ns else some n

  -- The rounds of remove_current_sampling_period_netints, each of which removes one; as many as
  -- there are interfaces, and one more, are enough.
  unfoldable pub remove_current : ℕ → P.netints.Tree → P.netints.Tree
  unfolding first_current
  remove_current zero tree = tree
  remove_current (suc n) tree = elim (first_current (P.netints.items tree)) [
    | none ↦ tree
    | some m ↦ remove_current n (P.netints.remove (netint_key m.id) tree).1
  ]

  unfoldable pub remove_current_sampling_period_netints : P.netints.Tree → P.netints.Tree
  unfolding remove_current
  remove_current_sampling_period_netints tree = remove_current (P.netints.size tree + 1) tree

  unfoldable pub remove_sampling_period_netint :
      NetintId → P.netints.Tree → EtcPalError × P.netints.Tree
  remove_sampling_period_netint id tree = P.netints.remove (netint_key id) tree
