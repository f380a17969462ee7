-- ===== src/Receiver/Packet/Passed.antt =====
-- Which packets are passed on to the application.
use s_acn.Prelude.{
  ℕ, ◌≡◌, ◌⊎◌, inl, inr, refl, Array, Bool, true, false, ◌==◌, ◌&&◌, ◌||◌, not, if◌then◌else◌,
  arith,
}
use s_acn.Pdu.Parse.{UniverseData, RemoteSource}
use s_acn.Receiver.State.{
  NetintId, Platform, Tracked, Receiver, World, startcode_dmx, startcode_priority,
}
use s_acn.Receiver.Track.{Memory, add_sacn_tracked_source}
use s_acn.Receiver.Source.{check_sequence, mark_source_terminated, process_pap}
use s_acn.Receiver.Packet.{
  Outcome, process_tracked, process_in_order, process_start_code, put_tracked,
  process_new_source_data,
}

module _ (P : Platform) (now : ℕ) where
  -- Data of a tracked source is passed on only where the source is not terminated, before this packet
  -- or by it, the packet is in sequence, and it came by the source's interface or in the sampling
  -- period.
  pub process_tracked-notify :
      (w : World P) (s : Tracked P) (netint : NetintId) (terminates : Bool) (payload : UniverseData)
      → (process_tracked P now w s netint terminates payload).notify ≡ true
      → (terminates ≡ false)
        × (s.terminated ≡ false)
        × (check_sequence payload.sequence s.seq ≡ true)
        × (((s.netint.ip_type ≡ netint.ip_type) × (s.netint.index ≡ netint.index))
            ⊎ (w.receiver.sampling ≡ true))
  unfolding process_tracked process_in_order mark_source_terminated
  process_tracked-notify w s netint true payload h = absurd (ground arith)
  process_tracked-notify w s netint false payload h = ground arith

  -- The settings of a receiver, which no packet changes.
  abbrev pub SameSettings : Receiver P → Receiver P → Type 0
  SameSettings r r' =
      (r'.universe ≡ r.universe)
      × (r'.filter_preview_data ≡ r.filter_preview_data)
      × (r'.footprint_count ≡ r.footprint_count)
      × (r'.source_count_max ≡ r.source_count_max)

  -- A packet of a tracked source changes that source alone.
  abbrev pub IsPut : World P → World P → Type 0
  IsPut w w' = (w' ≡ w) ⊎ ((x : Tracked P) × (w' ≡ put_tracked P now w x))

  if-IsPut :
      (w : World P) (b : Bool) (o o' : Outcome P)
      → IsPut w o.world
      → IsPut w o'.world
      → IsPut w (if b then o else o').world
  if-IsPut w true o o' p q = p
  if-IsPut w false o o' p q = q

  process_start_code-IsPut :
      (w : World P) (s : Tracked P) (start_code : ℕ)
      → IsPut w (process_start_code P now w s start_code).world
  unfolding process_start_code
  process_start_code-IsPut w s start_code =
      if-IsPut w (start_code == startcode_dmx) _ _ (inr (_, refl)) (
        if-IsPut w (start_code == startcode_priority) _ _ (inr (process_pap P now s, refl))
          (inr (s, refl)))

  process_in_order-IsPut :
      (w : World P) (s : Tracked P) (payload : UniverseData)
      → IsPut w (process_in_order P now w s payload).world
  unfolding process_in_order
  process_in_order-IsPut w s payload = if-IsPut w s.terminated _ _ (inr (s, refl)) (
      if-IsPut w (not (check_sequence payload.sequence s.seq)) _ _ (inr (s, refl))
        (process_start_code-IsPut w (record s { seq = payload.sequence }) payload.start_code))

  pub process_tracked-IsPut :
      (w : World P) (s : Tracked P) (netint : NetintId) (terminates : Bool) (payload : UniverseData)
      → IsPut w (process_tracked P now w s netint terminates payload).world
  unfolding process_tracked
  process_tracked-IsPut w s netint terminates payload =
      let other =
        not (s.netint.ip_type == netint.ip_type) || not (s.netint.index == netint.index) in
      let s1 : Tracked P = if other then record s { netint = netint } else s in
      let s2 = if terminates then mark_source_terminated P now s1 else s1 in
      if-IsPut w (other && not w.receiver.sampling) _ _ (inl refl)
        (process_in_order-IsPut w s2 payload)

  put_tracked-SameSettings :
      (w : World P) (x : Tracked P) → SameSettings w.receiver (put_tracked P now w x).receiver
  unfolding put_tracked
  put_tracked-SameSettings w x = (refl, refl, refl, refl)

  pub process_tracked-SameSettings :
      (w : World P) (s : Tracked P) (netint : NetintId) (terminates : Bool) (payload : UniverseData)
      → SameSettings w.receiver (process_tracked P now w s netint terminates payload).world.receiver
  process_tracked-SameSettings w s netint terminates payload =
      elim (process_tracked-IsPut w s netint terminates payload) [
        | inl e ↦ rw e (refl, refl, refl, refl)
        | inr (x, e) ↦ rw e (put_tracked-SameSettings w x)
      ]

  add-SameSettings :
      (memory : Memory P.tm.Timer) (w : World P) (cid : ℕ) (name : Array) (netint : NetintId)
      (seq start_code : ℕ)
      → SameSettings w.receiver
          (add_sacn_tracked_source P now memory w cid name netint seq start_code).2.receiver
  unfolding add_sacn_tracked_source
  add-SameSettings memory w cid name netint seq start_code = ground arith

  pub new-SameSettings :
      (memory : Memory P.tm.Timer) (w : World P) (info : RemoteSource) (netint : NetintId)
      (payload : UniverseData)
      → SameSettings w.receiver
          (process_new_source_data P now memory w info netint payload).world.receiver
  unfolding process_new_source_data
  new-SameSettings memory w info netint payload = ground (
    arith,
    add-SameSettings memory w info.cid info.name netint payload.sequence payload.start_code,
  )
