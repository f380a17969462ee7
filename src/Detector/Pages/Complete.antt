-- ===== src/Detector/Pages/Complete.antt =====
-- The pages of a list, from the first to the last: the list before the work after the last page.
use s_acn.Prelude.{
  ℕ, ◌+◌, ◌-◌, ◌^◌, ◌≡◌, ◌<◌, ◌≤◌, ◌⊎◌, inl, inr, refl, sym, ◌∙◌, ap, Array, Bool, true, false, ltb,
  ◌==◌, if◌then◌else◌, Bool-cases, List, [], ◌∷◌, length, arith,
}
use s_acn.Detector.State.{PageNotices, Services, Discovered}
use s_acn.Detector.Page.{take_page, updated_list, finish_list, receive_page, restart, continue_list}
use s_acn.Detector.Pages.Received.{receive_page-lem, Placed}
use s_acn.Detector.Pages.{IsInPlace, page_of, total, receive_pages}

pub total-le : (off n : ℕ) (ns : List ℕ) → off + n ≤ total off n ns
total-le off n [] = omega arith
total-le off n (m ∷ ns) = let h = total-le (off + n) m ns in omega arith

module _ (S : Services) (room : ℕ → Bool) (copy : Bool) (at : ℕ → ℕ) (cid : ℕ)
    (name all : Array) where
  -- The source as page `k` finds it.
  abbrev pub begun : ℕ → Discovered S → Discovered S
  begun k s =
      let s1 : Discovered S = record s {
        expiration_timer = S.tm.reset (at k) s.expiration_timer;
      } in
      if k == 0 then restart s1 else s1

  take_page-in_place :
      (k off last n : ℕ) (s : Discovered S)
      → IsInPlace k off s
      → take_page S (at k) room copy 0 s (page_of cid name all k last off n)
        ≡ continue_list room copy 0
            (record s { expiration_timer = S.tm.reset (at k) s.expiration_timer })
            (page_of cid name all k last off n)
  unfolding take_page
  take_page-in_place k off last n s h = ground arith

  -- What the source is before the work after the last page.
  pub record Complete (s c : Discovered S) (t : ℕ) : Type 0 where
    pub number : c.num_universes ≡ t
    pub listed : (i : ℕ) → i < t → c.universes i ≡ all i
    pub same :
        (c.universes_dirty ≡ true)
        ⊎ ((c.universes_dirty ≡ s.universes_dirty)
            × (c.num_universes ≡ s.num_universes)
            × ((i : ℕ) → c.universes i ≡ s.universes i))

  pub begun-index :
      (k off : ℕ) (s : Discovered S)
      → IsInPlace k off s
      → ((begun k s).next_universe_index ≡ off)
        × ((begun k s).next_page ≡ k)
        × (off ≤ s.num_universes)
  unfolding restart
  begun-index k off s h = ground arith

  pub begun-universes : (k : ℕ) (s : Discovered S) → (begun k s).universes ≡ s.universes
  unfolding restart
  begun-universes k s = elim (Bool-cases (k == 0)) [ inl e ↦ rw e refl | inr e ↦ rw e refl ]

  begun-Placed :
      (k off last n : ℕ) (s : Discovered S)
      → IsInPlace k off s
      → room (off + n) ≡ true
      → off + n < 2 ^ 64
      → s.num_universes < 2 ^ 64
      → Placed
          (begun k s)
          (receive_page room 0 (begun k s) (page_of cid name all k last off n)).1
          (page_of cid name all k last off n)
  unfolding restart
  begun-Placed k off last n s h fits small lt =
      let (i, p, le) = begun-index k off s h in
      receive_page-lem room (begun k s) (page_of cid name all k last off n) refl (ground arith)
        (ground arith) (ground arith) (ground arith)

  -- An inner page leaves the source in the place of the next page.
  pub take_page-inner :
      (k off last n : ℕ) (s : Discovered S)
      → IsInPlace k off s
      → k < last
      → (take_page S (at k) room copy 0 s (page_of cid name all k last off n)).1 ≡ (
          let c = (receive_page room 0 (begun k s) (page_of cid name all k last off n)).1 in
          record c { next_universe_index = c.next_universe_index + n; next_page = c.next_page + 1 })
  unfolding continue_list
  take_page-inner k off last n s h lt =
      rw (take_page-in_place k off last n s h)
        (let inner : ltb k last ≡ true = ground arith in rw (inner, continue_list) refl)

  pub take_page-last :
      (k off n : ℕ) (s : Discovered S)
      → IsInPlace k off s
      → (let p = page_of cid name all k k off n in
          let r = take_page S (at k) room copy 0 s p in
          let c = (receive_page room 0 (begun k s) p).1 in
          (r.0.source_updated ≡ (finish_list copy c p).0) × (r.1 ≡ (finish_list copy c p).1))
  unfolding continue_list
  take_page-last k off n s h =
      rw (take_page-in_place k off k n s h)
        (let over : ltb k k ≡ false = ground arith in rw (over, continue_list) (refl, refl))

  Placed-listed :
      (k off last n : ℕ) (s c : Discovered S)
      → IsInPlace k off s
      → Placed (begun k s) c (page_of cid name all k last off n)
      → ((i : ℕ) → i < off → s.universes i ≡ all i)
      → (i : ℕ) → i < off + n
      → c.universes i ≡ all i
  unfolding restart
  Placed-listed k off last n s c h p known i lt =
      let (index, _, _) = begun-index k off s h in
      elim (Bool-cases (ltb i off)) [
        | inl e ↦
            let a = p.before i (ground arith) in let b = known i (ground arith) in ground arith
        | inr e ↦
            let a = p.there (i - off) (ground arith) in
            let q : (begun k s).next_universe_index + (i - off) ≡ i = ground arith in
            let r : off + (i - off) ≡ i = ground arith in sym (ap c.universes q) ∙ a ∙ ap all r
      ]

  Placed-same :
      (k off last n : ℕ) (s c : Discovered S)
      → Placed (begun k s) c (page_of cid name all k last off n)
      → (c.universes_dirty ≡ true)
        ⊎ ((c.universes_dirty ≡ s.universes_dirty)
            × (c.num_universes ≡ s.num_universes)
            × ((i : ℕ) → c.universes i ≡ s.universes i))
  unfolding restart
  Placed-same k off last n s c p = elim p.kept [
    | inl d ↦ inl d
    | inr (d, m, us) ↦
        inr (ground arith, ground arith, λ i. us i ∙ ap (λ (f : Array). f i) (begun-universes k s))
  ]

  abbrev pub Completes : Discovered S → ℕ → PageNotices × Discovered S → Type 0
  Completes s t r =
      (c : Discovered S) × Complete s c t
      × (r.0.source_updated ≡ (finish_list copy c (page_of cid name all 0 0 0 0)).0)
      × (r.1 ≡ (finish_list copy c (page_of cid name all 0 0 0 0)).1)

  Complete-before :
      (s s' c : Discovered S) (t : ℕ)
      → ((s'.universes_dirty ≡ true)
          ⊎ ((s'.universes_dirty ≡ s.universes_dirty)
              × (s'.num_universes ≡ s.num_universes)
              × ((i : ℕ) → s'.universes i ≡ s.universes i)))
      → Complete s' c t
      → Complete s c t
  Complete-before s s' c t h done = record {
    number = done.number;
    listed = done.listed;
    same = elim done.same [
      | inl d ↦ inl d
      | inr (d, m, us) ↦ elim h [
        | inl e ↦ inl (d ∙ e)
        | inr (e, m', us') ↦ inr (d ∙ e, m ∙ m', λ i. us i ∙ us' i)
      ]
    ];
  }

  pub receive_pages-Completes :
      (k off n : ℕ) (ns : List ℕ) (s : Discovered S)
      → IsInPlace k off s
      → ((m : ℕ) → m ≤ total off n ns → room m ≡ true)
      → total off n ns < 2 ^ 64
      → s.num_universes < 2 ^ 64
      → ((i : ℕ) → i < off → s.universes i ≡ all i)
      → Completes s (total off n ns) (receive_pages S room copy at cid name all k off n ns s)
  unfolding receive_pages finish_list updated_list
  receive_pages-Completes k off n [] s h fits small lt known =
      let c = (receive_page room 0 (begun k s) (page_of cid name all k k off n)).1 in
      let p = begun-Placed k off k n s h (fits (off + n) (omega arith)) small lt in
      let (index, _, _) = begun-index k off s h in
      let (a, b) = take_page-last k off n s h in
      (
        c,
        record {
          number = let w = p.whole refl in ground arith;
          listed = Placed-listed k off k n s c h p known;
          same = Placed-same k off k n s c p;
        },
        a,
        b,
      )
  receive_pages-Completes k off n (m ∷ ns) s h fits small lt known =
      let last = k + 1 + length ns in
      let c = (receive_page room 0 (begun k s) (page_of cid name all k last off n)).1 in
      let le = total-le (off + n) m ns in
      let p = begun-Placed k off last n s h (fits (off + n) (omega arith)) (omega arith) lt in
      let s' : Discovered S = record c {
        next_universe_index = c.next_universe_index + n;
        next_page = c.next_page + 1;
      } in
      let (index, next, _) = begun-index k off s h in
      let i1 = p.index in
      let n1 = p.next in
      let enough = p.enough in
      let (d, done, a, b) =
        receive_pages-Completes (k + 1) (off + n) m ns s'
          (inr (omega arith, omega arith, omega arith, omega arith)) fits small p.bounded
          (Placed-listed k off last n s c h p known) in
      rw (take_page-inner k off last n s h (omega arith), receive_pages)
        (
          d,
          Complete-before s s' d (total (off + n) m ns) (Placed-same k off last n s c p) done,
          a,
          b,
        )
