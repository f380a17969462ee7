-- ===== src/Source/Terminate/Settled.antt =====
-- The destinations of a universe after process_unicast_termination.
use s_acn.Prelude.{
  ◌≡◌, ◌<◌, ◌⊎◌, inl, inr, refl, sym, subst, Bool, true, ◌||◌, not, leb, Bool-cases, List, [], ◌∷◌,
  Member, Member_uncons, arith,
}
use s_acn.Source.State.{
  TerminationState, terminating_and_removing, terminating_without_removing, not_terminating,
  is_not_terminating, UnicastDestination, SourceUniverse, Network,
}
use s_acn.Source.Terminate.{
  reset_unicast_dest, finish_unicast_dest_termination, terminate_dest, terminate_dests,
  process_unicast_termination,
}

-- A destination is not terminating; or it has been sent fewer than three terminations, and that one is
-- still terminating is told.
abbrev pub IsSettled : Bool → UnicastDestination → Type 0
IsSettled terminating d =
    (is_not_terminating d.termination_state ≡ true)
    ⊎ ((d.num_terminations_sent < 3) × (terminating ≡ true))

-- All the destinations of a list are settled.
abbrev AreSettled : Bool → List UnicastDestination → Type 0
AreSettled terminating ds = (x : UnicastDestination) → Member x ds → IsSettled terminating x

AreSettled-cons :
    (terminating : Bool) (d : UnicastDestination) (ds : List UnicastDestination)
    → IsSettled terminating d
    → AreSettled terminating ds
    → AreSettled terminating (d ∷ ds)
AreSettled-cons terminating d ds h hs x m = elim (Member_uncons m) [
  | inl p ↦ subst (IsSettled terminating) (sym p) h
  | inr n ↦ hs x n
]

told-AreSettled :
    (terminating : Bool) (ds : List UnicastDestination)
    → AreSettled terminating ds
    → AreSettled true ds
told-AreSettled terminating ds h x m = elim (h x m) [ inl e ↦ inl e | inr (lt, _) ↦ inr (lt, refl) ]

state-cases :
    (s : TerminationState)
    → (s ≡ terminating_and_removing) ⊎ ((s ≡ terminating_without_removing) ⊎ (s ≡ not_terminating))
state-cases terminating_and_removing = inl refl
state-cases terminating_without_removing = inr (inl refl)
state-cases not_terminating = inr (inr refl)

finished-AreSettled :
    (terminating : Bool) (d : UnicastDestination) (rest : List UnicastDestination)
    → AreSettled terminating rest
    → AreSettled terminating (finish_unicast_dest_termination d rest)
unfolding finish_unicast_dest_termination reset_unicast_dest
finished-AreSettled terminating d rest h = elim (state-cases d.termination_state) [
  | inl e ↦ rw (e, finish_unicast_dest_termination) h
  | inr (inl e) ↦
      rw (e, finish_unicast_dest_termination)
        (AreSettled-cons terminating (reset_unicast_dest d) rest (inl refl) h)
  | inr (inr e) ↦
      rw (e, finish_unicast_dest_termination)
        (AreSettled-cons terminating (reset_unicast_dest d) rest (inl refl) h)
]

module _ {Timer : Type 0} where
  dests-AreSettled :
      (net : Network) (u : SourceUniverse Timer) (ds : List UnicastDestination)
      → AreSettled (terminate_dests net u ds).1 (terminate_dests net u ds).3
  unfolding terminate_dests
  dests-AreSettled net u [] = λ x m. elim m [ ]
  dests-AreSettled net u (d ∷ ds) =
      let r = terminate_dests net u ds in
      let h = dests-AreSettled net u ds in
      let t = terminate_dest net r.0 r.2 d in
      elim (Bool-cases (is_not_terminating d.termination_state)) [
        | inl e ↦ rw (e, terminate_dests) (AreSettled-cons r.1 d r.3 (inl e) h)
        | inr e ↦ elim (Bool-cases (leb 3 t.2.num_terminations_sent || not t.1.has_level_data)) [
          | inl f ↦ rw (e, f, terminate_dests) (finished-AreSettled r.1 t.2 r.3 h)
          | inr f ↦
              rw (e, f, terminate_dests)
                (AreSettled-cons true t.2 r.3 (inr (ground arith, refl))
                  (told-AreSettled r.1 r.3 h))
        ]
      ]

  -- After process_unicast_termination no destination of the universe is terminating that has been sent
  -- three terminations or more; and if it does not tell that some destination is still terminating,
  -- then none is.
  pub process_unicast_termination-IsSettled :
      (net : Network) (u : SourceUniverse Timer) (x : UnicastDestination)
      → Member x (process_unicast_termination net u).2.unicast_dests
      → IsSettled (process_unicast_termination net u).1 x
  unfolding process_unicast_termination
  process_unicast_termination-IsSettled net u x m = dests-AreSettled net u u.unicast_dests x m
