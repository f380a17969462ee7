-- ===== src/Detector/Pages/Repeated.antt =====
-- A list of universes that the source has already.
use s_acn.Prelude.{
  ℕ, ◌+◌, ◌^◌, ◌≡◌, ◌<◌, ◌≤◌, inl, inr, refl, ◌∙◌, ap, Array, Bool, false, Bool-cases, ◌==◌, none,
  List, [], ◌∷◌, length, arith, differs-same,
}
use s_acn.Detector.State.{DiscoverySource, UniverseDiscoveryPage, Services, Discovered}
use s_acn.Detector.Page.{
  page_modifies_universe_list, receive_page, stays_dirty, finish_list, restart,
}
use s_acn.Detector.Pages.{IsInPlace, page_of, total, receive_pages}
use s_acn.Detector.Pages.Ascending.{stays_dirty-IsAscending}
use s_acn.Detector.Pages.Received.{sub_size-lem}
use s_acn.Detector.Pages.Complete.{
  total-le, begun-universes, begun, begun-index, take_page-inner, take_page-last,
}

module _ {Timer : Type 0} where
  receive_page-same :
      (room : ℕ → Bool) (s : DiscoverySource Timer) (page : UniverseDiscoveryPage)
      → s.num_universes < 2 ^ 64
      → s.next_universe_index + page.num_universes ≤ s.num_universes
      → (page.page ≡ page.last_page → s.next_universe_index + page.num_universes ≡ s.num_universes)
      → ((i : ℕ)
          → i < page.num_universes
          → s.universes (s.next_universe_index + i) ≡ page.universes i)
      → receive_page room 0 s page ≡ (false, s)
  unfolding receive_page page_modifies_universe_list
  receive_page-same room s page small le end same =
      let sub = sub_size-lem s.num_universes s.next_universe_index (omega arith) small in
      let d =
        differs-same (λ i. s.universes (s.next_universe_index + i)) page.universes
          page.num_universes same in
      let modifies : page_modifies_universe_list s page ≡ false =
        elim (Bool-cases (page.page == page.last_page)) [
          | inl e ↦ let f = end (ground arith) in ground arith
          | inr e ↦ ground arith
        ] in
      rw (modifies, receive_page) refl

module _ (S : Services) (room : ℕ → Bool) (copy : Bool) (at : ℕ → ℕ) (cid : ℕ)
    (name all : Array) where
  -- The source has the list up to its end, and nothing of it is to be told.
  abbrev Holds : ℕ → Discovered S → Type 0
  Holds t s =
      (s.universes_dirty ≡ false)
      × (s.num_universes ≡ t)
      × ((i : ℕ) → i < t → s.universes i ≡ all i)

  begun-same :
      (k off last n t : ℕ) (s : Discovered S)
      → IsInPlace k off s
      → Holds t s
      → t < 2 ^ 64
      → off + n ≤ t
      → (k ≡ last → off + n ≡ t)
      → receive_page room 0
          (begun S room copy at cid name all k s)
          (page_of cid name all k last off n)
        ≡ (false, begun S room copy at cid name all k s)
  unfolding restart
  begun-same k off last n t s h (d, m, us) small le end =
      let b = begun S room copy at cid name all k s in
      let (index, next, _) = begun-index S room copy at cid name all k off s h in
      let number : b.num_universes ≡ t = ground arith in
      receive_page-same room b (page_of cid name all k last off n) (omega arith) (omega arith)
        (λ p. let e = end p in omega arith)
        (λ i lt.
          let u = us (off + i) (omega arith) in
          let q : b.next_universe_index + i ≡ off + i = omega arith in
          ap b.universes q
          ∙ ap (λ (f : Array). f (off + i)) (begun-universes S room copy at cid name all k s)
          ∙ u)

  repeated :
      (k off n : ℕ) (ns : List ℕ) (s : Discovered S)
      → IsInPlace k off s
      → total off n ns < 2 ^ 64
      → Holds (total off n ns) s
      → (receive_pages S room copy at cid name all k off n ns s).0.source_updated ≡ none
  unfolding receive_pages finish_list
  repeated k off n [] s h small (d, m, us) =
      let (told, _) = take_page-last S room copy at cid name all k off n s h in
      let b = begun S room copy at cid name all k s in
      let same = begun-same k off k n (off + n) s h (d, m, us) small (omega arith) (λ _. refl) in
      let clean : b.universes_dirty ≡ false = ground arith in
      let quiet : stays_dirty b ≡ false = elim (Bool-cases (stays_dirty b)) [
        | inl e ↦ absurd (let (x, _) = (stays_dirty-IsAscending b).0 e in ground arith)
        | inr e ↦ e
      ] in
      told ∙ rw same (rw (quiet, finish_list) refl)
  repeated k off n (m ∷ ns) s h small (d, number, us) =
      let last = k + 1 + length ns in
      let le = total-le (off + n) m ns in
      let b = begun S room copy at cid name all k s in
      let (index, next, _) = begun-index S room copy at cid name all k off s h in
      let same =
        begun-same k off last n (total (off + n) m ns) s h (d, number, us) small (omega arith)
          (λ p. absurd (omega arith)) in
      let s' : Discovered S = record b {
        next_universe_index = b.next_universe_index + n;
        next_page = b.next_page + 1;
      } in
      let holds : Holds (total (off + n) m ns) s' = (
        ground arith,
        ground arith,
        λ i lt. ap (λ (f : Array). f i) (begun-universes S room copy at cid name all k s) ∙ us i lt,
      ) in
      rw (take_page-inner S room copy at cid name all k off last n s h (omega arith), receive_pages)
        (rw same (
          repeated (k + 1) (off + n) m ns s'
            (inr (omega arith, omega arith, ground arith, omega arith)) small holds))

  -- When the pages of a list arrive in order at a detector without a limit on the universes of a
  -- source, and the source has exactly this list already, with no change that is still to be told,
  -- then the application is not told of it again.
  pub receive_pages-repeated :
      (n : ℕ) (ns : List ℕ) (s : Discovered S)
      → total 0 n ns < 2 ^ 64
      → s.universes_dirty ≡ false
      → s.num_universes ≡ total 0 n ns
      → ((i : ℕ) → i < total 0 n ns → s.universes i ≡ all i)
      → (receive_pages S room copy at cid name all 0 0 n ns s).0.source_updated ≡ none
  receive_pages-repeated n ns s small d number us =
      repeated 0 0 n ns s (inl (refl, refl)) small (d, number, us)
