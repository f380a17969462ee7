-- ===== src/Source/Transmit/Sent.antt =====
-- What the sends of one buffer hand to the sockets, and which flags they set.
use s_acn.Prelude.{
  ℕ, ◌≡◌, ◌==◌, ◌⊎◌, refl, sym, ◌∙◌, ap, subst, Array, Bool, true, false, ◌||◌, if◌then◌else◌,
  Bool-cases, inl, inr, List, [], ◌∷◌, ◌++◌, Member, Member_uncons, here, there, arith,
}
use s_acn.EtcPal.{EtcPalError, is_ok}
use s_acn.EtcPal.Timers.{Timers}
use s_acn.Receiver.State.{NetintId, startcode_dmx, startcode_priority}
use s_acn.Source.State.{UnicastDestination, SourceUniverse, Network}
use s_acn.Source.Send.{
  Target, to_netint, to_address, Packet, attempt, active_dests, note_errors,
  handle_data_packet_sent, send_universe_multicast, send_universe_unicast,
}
use s_acn.Source.Transmit.{send_both}

-- Some of the packets went out.
unfoldable pub any_sent : List Packet → Bool
any_sent [] = false
any_sent (p ∷ ps) = if is_ok p.result then true else any_sent ps

-- All the packets have this content.
abbrev pub AllHold : Array → List Packet → Type 0
AllHold buf ps = (p : Packet) → Member p ps → p.content ≡ buf

pub any_sent-append : (ps qs : List Packet) → any_sent (ps ++ qs) ≡ (any_sent ps || any_sent qs)
unfolding any_sent
any_sent-append [] qs = refl
any_sent-append (p ∷ ps) qs = let h = any_sent-append ps qs in ground arith

pub Member-append :
    (p : Packet) (ps qs : List Packet) → Member p (ps ++ qs) → Member p ps ⊎ Member p qs
Member-append p [] qs m = inr m
Member-append p (q ∷ ps) qs m = elim (Member_uncons m) [
  | inl e ↦ inl (here e)
  | inr n ↦ elim (Member-append p ps qs n) [ inl k ↦ inl (there k) | inr k ↦ inr k ]
]

pub Member-front : (p : Packet) (ps qs : List Packet) → Member p ps → Member p (ps ++ qs)
Member-front p [] qs m = elim m [ ]
Member-front p (q ∷ ps) qs m = elim (Member_uncons m) [
  | inl e ↦ here e
  | inr n ↦ there (Member-front p ps qs n)
]

module _ {ℓ} {D : Type ℓ} (target : D → Target) (send : D → EtcPalError) (buf : Array) where
  attempt-any :
      (ds : List D) (last : EtcPalError)
      → (attempt target send buf ds last).2 ≡ any_sent (attempt target send buf ds last).3
  unfolding attempt any_sent
  attempt-any [] last = refl
  attempt-any (d ∷ ds) last = elim (Bool-cases (is_ok (send d))) [
    | inl e ↦ rw (e, attempt) refl
    | inr e ↦ rw (e, attempt) (attempt-any ds (send d))
  ]

  attempt-AllHold :
      (ds : List D) (last : EtcPalError) → AllHold buf (attempt target send buf ds last).3
  unfolding attempt
  attempt-AllHold [] last p m = elim m [ ]
  attempt-AllHold (d ∷ ds) last p m = elim (Member_uncons m) [
    | inl e ↦ ap (λ (x : Packet). x.content) e
    | inr n ↦ attempt-AllHold ds (if is_ok (send d) then last else send d) p n
  ]

  -- Every destination is sent to.
  attempt-target :
      (ds : List D) (last : EtcPalError) (d : D)
      → Member d ds
      → (p : Packet) × Member p (attempt target send buf ds last).3 × (p.target ≡ target d)
  unfolding attempt
  attempt-target [] last d m = elim m [ ]
  attempt-target (c ∷ ds) last d m = elim (Member_uncons m) [
    | inl e ↦
        (record { target = target c; content = buf; result = send c }, here refl, sym (ap target e))
    | inr n ↦
        let (p, k, t) = attempt-target ds (if is_ok (send c) then last else send c) d n in
        (p, there k, t)
  ]

module _ {Timer : Type 0} where
  -- What tells whether the priorities are due, and on which interfaces, is the same.
  abbrev pub SamePap : SourceUniverse Timer → SourceUniverse Timer → Type 0
  SamePap u s =
      (s.has_pap_data ≡ u.has_pap_data)
      × (s.pap_packets_sent_before_suppression ≡ u.pap_packets_sent_before_suppression)
      × (s.pap_keep_alive_timer ≡ u.pap_keep_alive_timer)
      × (s.netints ≡ u.netints)
      × (s.send_unicast_only ≡ u.send_unicast_only)

  handled-SamePap :
      (u v : SourceUniverse Timer) (buf : Array) (any : Bool)
      → SamePap u v
      → SamePap u (if any then handle_data_packet_sent buf v else v)
  unfolding handle_data_packet_sent
  handled-SamePap u v buf false h = h
  handled-SamePap u v buf true h = elim (Bool-cases (buf 125 == startcode_dmx)) [
    | inl e ↦ rw (e, handle_data_packet_sent) h
    | inr e ↦ elim (Bool-cases (buf 125 == startcode_priority)) [
      | inl f ↦ rw (e, f, handle_data_packet_sent) h
      | inr f ↦ rw (e, f, handle_data_packet_sent) h
    ]
  ]

  -- Sending a buffer hands out packets with this content, and sets at most the flag of its start code.
  pub record IsSent (u s : SourceUniverse Timer) (buf : Array) (ps : List Packet) : Type 0 where
    pub number : s.next_seq_num ≡ u.next_seq_num
    pub levels : s.level_send_buf ≡ u.level_send_buf
    pub paps : s.pap_send_buf ≡ u.pap_send_buf
    pub content : AllHold buf ps
    pub same_pap : SamePap u s
    pub dmx :
        buf 125 ≡ startcode_dmx
        → (s.levels_sent_this_tick ≡ (u.levels_sent_this_tick || any_sent ps))
          × (s.pap_sent_this_tick ≡ u.pap_sent_this_tick)
          × (s.other_sent_this_tick ≡ u.other_sent_this_tick)
    pub priority :
        buf 125 ≡ startcode_priority
        → (s.pap_sent_this_tick ≡ (u.pap_sent_this_tick || any_sent ps))
          × (s.levels_sent_this_tick ≡ u.levels_sent_this_tick)
          × (s.other_sent_this_tick ≡ u.other_sent_this_tick)

  -- What the sending functions do with the flags, after the sends.
  flagged-IsSent :
      (u v : SourceUniverse Timer) (buf : Array) (any : Bool) (ps : List Packet)
      → any ≡ any_sent ps
      → AllHold buf ps
      → v.next_seq_num ≡ u.next_seq_num
      → v.level_send_buf ≡ u.level_send_buf
      → v.pap_send_buf ≡ u.pap_send_buf
      → v.levels_sent_this_tick ≡ u.levels_sent_this_tick
      → v.pap_sent_this_tick ≡ u.pap_sent_this_tick
      → v.other_sent_this_tick ≡ u.other_sent_this_tick
      → SamePap u v
      → IsSent u (if any then handle_data_packet_sent buf v else v) buf ps
  unfolding handle_data_packet_sent
  flagged-IsSent u v buf any ps e hold n l p a b c kept = record {
    number = ground arith;
    levels = ground arith;
    paps = ground arith;
    content = hold;
    same_pap = handled-SamePap u v buf any kept;
    dmx = λ code. (ground arith, ground arith, ground arith);
    priority = λ code. (ground arith, ground arith, ground arith);
  }

  multicast-IsSent :
      (net : Network) (u : SourceUniverse Timer) (buf : Array)
      → (let r = send_universe_multicast net u buf in IsSent u r.1 buf r.2)
  unfolding send_universe_multicast
  multicast-IsSent net u buf =
      let ds = if u.send_unicast_only then [] else u.netints in
      let r = attempt to_netint net.multicast buf ds u.last_send_error in
      flagged-IsSent u (record u { last_send_error = r.1 }) buf r.2 r.3
        (attempt-any to_netint net.multicast buf ds u.last_send_error)
        (attempt-AllHold to_netint net.multicast buf ds u.last_send_error) refl refl refl refl refl
        refl (refl, refl, refl, refl, refl)

  unicast-IsSent :
      (net : Network) (u : SourceUniverse Timer) (buf : Array)
      → (let r = send_universe_unicast net u buf in IsSent u r.1 buf r.2)
  unfolding send_universe_unicast
  unicast-IsSent net u buf =
      let to = λ (d : UnicastDestination). to_address d.dest_addr in
      let send = λ (d : UnicastDestination). net.unicast d.dest_addr in
      let ds = active_dests u.unicast_dests in
      let r = attempt to send buf ds u.last_send_error in
      flagged-IsSent u
        (record u { last_send_error = r.1; unicast_dests = note_errors net u.unicast_dests }) buf
        r.2 r.3 (attempt-any to send buf ds u.last_send_error)
        (attempt-AllHold to send buf ds u.last_send_error) refl refl refl refl refl refl
        (refl, refl, refl, refl, refl)

  IsSent-trans :
      (u s t : SourceUniverse Timer) (buf : Array) (ps qs : List Packet)
      → IsSent u s buf ps
      → IsSent s t buf qs
      → IsSent u t buf (ps ++ qs)
  IsSent-trans u s t buf ps qs a b =
      let both = any_sent-append ps qs in
      record {
        number = b.number ∙ a.number;
        levels = b.levels ∙ a.levels;
        paps = b.paps ∙ a.paps;
        content =
            λ p m. elim (Member-append p ps qs m) [ inl k ↦ a.content p k | inr k ↦ b.content p k ];
        same_pap =
            let (a0, a1, a2, a3, a4) = a.same_pap in
            let (b0, b1, b2, b3, b4) = b.same_pap in (b0 ∙ a0, b1 ∙ a1, b2 ∙ a2, b3 ∙ a3, b4 ∙ a4);
        dmx = λ e.
            let (a0, a1, a2) = a.dmx e in
            let (b0, b1, b2) = b.dmx e in (ground arith, b1 ∙ a1, b2 ∙ a2);
        priority = λ e.
            let (a0, a1, a2) = a.priority e in
            let (b0, b1, b2) = b.priority e in (ground arith, b1 ∙ a1, b2 ∙ a2);
      }

module _ (T : Timers) (now : ℕ) where
  pub send_both-IsSent :
      (net : Network) (u : SourceUniverse T.Timer) (buf : Array)
      → (let r = send_both T now net u buf in IsSent u r.1 buf r.2)
  unfolding send_both
  send_both-IsSent net u buf =
      let first = multicast-IsSent net u buf in
      let r = send_universe_multicast net u buf in
      let s = r.1 in
      let q = send_universe_unicast net s buf in
      elim (Bool-cases (send_universe_multicast net u buf).0) [
        | inl e ↦
            rw (e, send_both) (IsSent-trans u s q.1 buf r.2 q.2 first (unicast-IsSent net s buf))
        | inr e ↦ rw (e, send_both) first
      ]

  -- Unless the universe is sent by unicast only, each of its interfaces is sent to.
  pub send_both-netint :
      (net : Network) (u : SourceUniverse T.Timer) (buf : Array) (n : NetintId)
      → u.send_unicast_only ≡ false
      → Member n u.netints
      → (p : Packet) × Member p (send_both T now net u buf).2 × (p.target ≡ to_netint n)
  unfolding send_both send_universe_multicast
  send_both-netint net u buf n only m =
      let ds = if u.send_unicast_only then [] else u.netints in
      let same : ds ≡ u.netints = rw only refl in
      let r = send_universe_multicast net u buf in
      let (p, k, t) =
        attempt-target to_netint net.multicast buf ds u.last_send_error n
          (subst (λ (x : List NetintId). Member n x) (sym same) m) in
      elim (Bool-cases r.0) [
        | inl e ↦
            rw (e, send_both) (p, Member-front p r.2 (send_universe_unicast net r.1 buf).2 k, t)
        | inr e ↦ rw (e, send_both) (p, k, t)
      ]
