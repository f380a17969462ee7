-- ===== src/Receiver/History.antt =====
-- Any history of packets and ticks of a receiver.
use s_acn.Prelude.{
  ℕ, ◌≡◌, ◌≤◌, refl, ◌∙◌, ap, inl, inr, Array, Bool, true, ◌&&◌, ◌==◌, if◌then◌else◌, Bool-cases,
  List, [], ◌∷◌, arith,
}
use s_acn.Pdu.Wire.{Wire}
use s_acn.Pdu.Parse.{DataPacket}
use s_acn.Receiver.State.{NetintId, Platform, Tracked, Receiver, World}
use s_acn.Receiver.Track.{Memory, remove_receiver_source}
use s_acn.Receiver.Packet.{handle_sacn_data_packet}
use s_acn.Receiver.Status.{StatusLists, check_source_timeouts, zero_status_lists}
use s_acn.Receiver.Tick.{
  Room, check_sources, remove_all, lost_handles, process_term_sets, process_receiver_sources,
  process_receiver, end_current_sampling_period, begin_sampling_period,
}
use s_acn.Receiver.Limit.{IsWithinLimit, remove-le, handle_sacn_data_packet-IsWithinLimit}

-- A packet or a tick, at its time.
pub data Event (P : Platform) : Type 0 where
  heard : ℕ → Memory P.tm.Timer → NetintId → ℕ → Array → ℕ → DataPacket → Event P
  ticked : ℕ → Room → ℕ → Event P

module _ (P : Platform) (W : Wire) where
  unfoldable pub step : World P → Event P → World P
  step w (heard now memory netint cid pdata data_len empty) =
      (handle_sacn_data_packet P now W memory w netint cid pdata data_len empty).0
  step w (ticked now room expired_wait) = (process_receiver P now room expired_wait w).0

  unfoldable pub run : World P → List (Event P) → World P
  unfolding step
  run w [] = w
  run w (e ∷ es) = run (step w e) es

  -- No more sources, and the same maximum.
  abbrev Shrunk : World P → World P → Type 0
  Shrunk w w' =
      (P.tracked.size w'.receiver.sources ≤ P.tracked.size w.receiver.sources)
      × (w'.receiver.source_count_max ≡ w.receiver.source_count_max)

  check_sources-size :
      (now : ℕ) (room : ℕ → Bool) (ss : List (Tracked P)) (tree : P.tracked.Tree) (l : StatusLists)
      → P.tracked.size (check_sources P now room ss tree l).0 ≡ P.tracked.size tree
  unfolding check_sources
  check_sources-size now room [] tree l = refl
  check_sources-size now room (s ∷ ss) tree l =
      let c = check_source_timeouts P now room s l in
      check_sources-size now room ss (P.tracked.store c.1 tree) c.2 ∙ P.tracked.store-size tree c.1

  remove_receiver_source-Shrunk : (h : ℕ) (w : World P) → Shrunk w (remove_receiver_source P h w).1
  unfolding remove_receiver_source
  remove_receiver_source-Shrunk h w = let le = remove-le P h w.receiver.sources in ground arith

  remove_all-Shrunk : (now : ℕ) (hs : List ℕ) (w : World P) → Shrunk w (remove_all P now hs w)
  unfolding remove_all
  remove_all-Shrunk now [] w = (omega arith, refl)
  remove_all-Shrunk now (h ∷ hs) w =
      let w' = (remove_receiver_source P h w).1 in
      let (a, b) = remove_receiver_source-Shrunk h w in
      let (c, d) = remove_all-Shrunk now hs w' in (omega arith, d ∙ b)

  process_receiver_sources-Shrunk :
      (now : ℕ) (room : Room) (expired_wait : ℕ) (w : World P)
      → Shrunk w (process_receiver_sources P now room expired_wait w).0
  unfolding process_receiver_sources
  process_receiver_sources-Shrunk now room expired_wait w =
      let c =
        check_sources P now room.status (P.tracked.items w.receiver.sources) w.receiver.sources
          zero_status_lists in
      let size =
        check_sources-size now room.status (P.tracked.items w.receiver.sources) w.receiver.sources
          zero_status_lists in
      let checked : World P = record w { receiver = record w.receiver { sources = c.0 } } in
      let t = process_term_sets P now room checked c.1 expired_wait in
      let processed : World P = record checked {
        receiver = record checked.receiver { term_sets = t.0.sets };
        term_set_sources = t.0.all;
      } in
      let kept = remove_all P now c.2 processed in
      let (a, b) = remove_all-Shrunk now c.2 processed in
      let (d, e) =
        remove_all-Shrunk now (lost_handles P now t.1.num_lost_sources t.1.lost_sources) kept in
      elim (Bool-cases room.to_erase) [
        | inr r ↦ rw (r, process_receiver_sources) (omega arith, refl)
        | inl r ↦ elim (Bool-cases (t.1.num_lost_sources == 0)) [
          | inl z ↦ rw (r, z, process_receiver_sources) (omega arith, b)
          | inr z ↦ rw (r, z, process_receiver_sources) (omega arith, e ∙ b)
        ]
      ]

  end_current_sampling_period-kept :
      (now : ℕ) (r : Receiver P)
      → ((end_current_sampling_period P now r).sources ≡ r.sources)
        × ((end_current_sampling_period P now r).source_count_max ≡ r.source_count_max)
  unfolding end_current_sampling_period begin_sampling_period
  end_current_sampling_period-kept now r = ground arith

  process_receiver-Shrunk :
      (now : ℕ) (room : Room) (expired_wait : ℕ) (w : World P)
      → Shrunk w (process_receiver P now room expired_wait w).0
  unfolding process_receiver
  process_receiver-Shrunk now room expired_wait w =
      let ends = w.receiver.sampling && P.tm.is_expired now w.receiver.sample_timer in
      let r = if ends then end_current_sampling_period P now w.receiver else w.receiver in
      let started : World P = record w {
        receiver = record r { notified_sampling_started = true };
      } in
      let (a, b) = end_current_sampling_period-kept now w.receiver in
      let (c, d) = process_receiver_sources-Shrunk now room expired_wait started in
      let size = ap P.tracked.size a in
      elim (Bool-cases ends) [ inl e ↦ ground arith | inr e ↦ ground arith ]

  step-IsWithinLimit :
      (w : World P) (e : Event P) → IsWithinLimit P w.receiver → IsWithinLimit P (step w e).receiver
  unfolding step
  step-IsWithinLimit w (heard now memory netint cid pdata data_len empty) h =
      handle_sacn_data_packet-IsWithinLimit P now W memory w netint cid pdata data_len empty h
  step-IsWithinLimit w (ticked now room expired_wait) h =
      let (a, b) = process_receiver-Shrunk now room expired_wait w in ground arith

  -- From a receiver that tracks no more sources than its maximum, any sequence of data packets and
  -- periodic rounds, whatever the packets hold and whichever allocations fail, leads to a receiver
  -- that tracks no more sources than its maximum.
  pub run-IsWithinLimit :
      (w : World P) (es : List (Event P))
      → IsWithinLimit P w.receiver
      → IsWithinLimit P (run w es).receiver
  unfolding run
  run-IsWithinLimit w [] h = h
  run-IsWithinLimit w (e ∷ es) h = run-IsWithinLimit (step w e) es (step-IsWithinLimit w e h)
