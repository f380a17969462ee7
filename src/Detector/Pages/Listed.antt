-- ===== src/Detector/Pages/Listed.antt =====
-- A whole list of universes, page by page: what the source has afterwards, and what is notified.
use s_acn.Prelude.{
  ℕ, ◌+◌, ◌^◌, ◌≡◌, ◌<◌, ◌≤◌, ◌≢◌, ◌⊎◌, inl, inr, refl, sym, ◌∙◌, Array, Bool, true, false,
  Bool-cases, none, some, List, arith,
}
use s_acn.SourceLoss.State.{remote_source_invalid}
use s_acn.Detector.State.{SourceUpdated, Services, Discovered}
use s_acn.Detector.Page.{updated_list, stays_dirty, finish_list, restart}
use s_acn.Detector.Pages.{page_of, total, receive_pages}
use s_acn.Detector.Pages.Ascending.{IsAscending, stays_dirty-IsAscending}
use s_acn.Detector.Pages.Complete.{Completes, receive_pages-Completes}

module _ (S : Services) (room : ℕ → Bool) (copy : Bool) (at : ℕ → ℕ) (cid : ℕ)
    (name all : Array) where
  whole-Completes :
      (n : ℕ) (ns : List ℕ) (s : Discovered S)
      → ((m : ℕ) → m ≤ total 0 n ns → room m ≡ true)
      → total 0 n ns < 2 ^ 64
      → s.num_universes < 2 ^ 64
      → Completes S room copy at cid name all s
          (total 0 n ns)
          (receive_pages S room copy at cid name all 0 0 n ns s)
  whole-Completes n ns s fits small lt =
      receive_pages-Completes S room copy at cid name all 0 0 n ns s (inl (refl, refl)) fits small
        lt (λ i less. absurd (omega arith))

  -- When the pages of a list arrive in order, from page 0 to the last one, at a detector without a
  -- limit on the universes of a source whose memory holds the list, then the source has exactly that
  -- list and waits for page 0, whatever it had before and whichever page it waited for.
  pub receive_pages-recorded :
      (n : ℕ) (ns : List ℕ) (s : Discovered S)
      → ((m : ℕ) → m ≤ total 0 n ns → room m ≡ true)
      → total 0 n ns < 2 ^ 64
      → s.num_universes < 2 ^ 64
      → (let s' = (receive_pages S room copy at cid name all 0 0 n ns s).1 in
          (s'.num_universes ≡ total 0 n ns)
          × ((i : ℕ) → i < total 0 n ns → s'.universes i ≡ all i)
          × (s'.next_page ≡ 0)
          × (s'.next_universe_index ≡ 0)
          × (s'.universes_dirty ≡ false))
  unfolding finish_list restart
  receive_pages-recorded n ns s fits small lt =
      let (c, done, told, left) = whole-Completes n ns s fits small lt in
      let number = done.number in
      rw left (elim (Bool-cases (stays_dirty c)) [
        | inl e ↦ rw (e, finish_list) (number, done.listed, refl, refl, refl)
        | inr e ↦ rw (e, finish_list) (number, done.listed, refl, refl, refl)
      ])

  -- What the application is told of the list.
  pub record IsTold (u : SourceUpdated) (t : ℕ) : Type 0 where
    pub sender : u.cid ≡ cid
    pub source_name : u.name ≡ name
    pub no_handle : u.handle ≡ remote_source_invalid
    pub number : u.num_sourced_universes ≡ t
    pub listed :
        copy ≡ true
        → t ≢ 0
        → (us : Array) × (u.sourced_universes ≡ some us) × ((i : ℕ) → i < t → us i ≡ all i)
    pub nothing : (copy ≡ false) ⊎ (t ≡ 0) → u.sourced_universes ≡ none

  updated_list-IsTold :
      (c : Discovered S) (t : ℕ)
      → c.num_universes ≡ t
      → ((i : ℕ) → i < t → c.universes i ≡ all i)
      → IsTold (updated_list copy c (page_of cid name all 0 0 0 0)) t
  unfolding updated_list
  updated_list-IsTold c t number same = record {
    sender = refl;
    source_name = refl;
    no_handle = refl;
    number = number;
    listed = λ e z. (c.universes, ground arith, same);
    nothing = λ h. ground arith;
  }

  -- When the pages of a list in ascending order arrive in order, at a detector without a limit on the
  -- universes of a source whose memory holds the list, the application is told of the source, by its
  -- CID and name but with the invalid handle, and of the number of universes; and of exactly the
  -- list if it is not empty and the allocation of the copy for the application succeeds, and of no
  -- list otherwise. Or else it is told nothing, and the source had exactly this list before, with no
  -- change that was still to be told.
  pub receive_pages-notified :
      (n : ℕ) (ns : List ℕ) (s : Discovered S)
      → ((m : ℕ) → m ≤ total 0 n ns → room m ≡ true)
      → total 0 n ns < 2 ^ 64
      → s.num_universes < 2 ^ 64
      → IsAscending all (total 0 n ns)
      → (let r = receive_pages S room copy at cid name all 0 0 n ns s in
          ((u : SourceUpdated) × (r.0.source_updated ≡ some u) × IsTold u (total 0 n ns))
          ⊎ ((r.0.source_updated ≡ none)
              × (s.universes_dirty ≡ false)
              × (s.num_universes ≡ total 0 n ns)
              × ((i : ℕ) → i < total 0 n ns → s.universes i ≡ all i)))
  unfolding finish_list
  receive_pages-notified n ns s fits small lt up =
      let (c, done, told, left) = whole-Completes n ns s fits small lt in
      let number = done.number in
      let ascending : IsAscending c.universes c.num_universes = λ i less.
        let a = done.listed i (omega arith) in
        let b = done.listed (i + 1) (omega arith) in let u = up i (omega arith) in omega arith in
      let (_, stays) = stays_dirty-IsAscending c in
      elim (Bool-cases (stays_dirty c)) [
        | inl e ↦ inl (
          updated_list copy c (page_of cid name all 0 0 0 0),
          told ∙ rw (e, finish_list) refl,
          updated_list-IsTold c (total 0 n ns) number done.listed,
        )
        | inr e ↦ inr (elim done.same [
          | inl d ↦ absurd (let f = stays (d, ascending) in ground arith)
          | inr (d, m, us) ↦ (
            told ∙ rw (e, finish_list) refl,
            elim (Bool-cases s.universes_dirty) [
              | inl g ↦ absurd (let f = stays (d ∙ g, ascending) in ground arith)
              | inr g ↦ g
            ],
            sym m ∙ number,
            λ i less. sym (us i) ∙ done.listed i less,
          )
        ])
      ]
