-- ===== src/Detector/Pages/Received.antt =====
-- What one page in its place does to the list of a source that has no limit.
use s_acn.Prelude.{
  ℕ, ◌+◌, ◌-◌, ◌^◌, ◌≡◌, ◌<◌, ◌≤◌, ◌⊎◌, inl, inr, refl, Bool, true, false, not, ltb, ◌==◌,
  Bool-cases, arith, differs-false,
}
use s_acn.Detector.State.{sub_size, DiscoverySource, UniverseDiscoveryPage}
use s_acn.Detector.Sources.{place, replace_universe_discovery_universes}
use s_acn.Detector.Page.{page_modifies_universe_list, append_page, receive_page}

pub sub_size-lem : (a b : ℕ) → b ≤ a → a < 2 ^ 64 → sub_size a b ≡ a - b
sub_size-lem a b le lt = omega arith

module _ {Timer : Type 0} where
  -- The list of `s'` is that of `s` with the page in its place, and dirty if it is another one.
  pub record Placed (s s' : DiscoverySource Timer) (page : UniverseDiscoveryPage) : Type 0 where
    pub index : s'.next_universe_index ≡ s.next_universe_index
    pub next : s'.next_page ≡ s.next_page
    pub enough : s.next_universe_index + page.num_universes ≤ s'.num_universes
    pub bounded : s'.num_universes < 2 ^ 64
    pub whole :
        page.page ≡ page.last_page → s'.num_universes ≡ s.next_universe_index + page.num_universes
    pub before : (i : ℕ) → i < s.next_universe_index → s'.universes i ≡ s.universes i
    pub there :
        (i : ℕ)
        → i < page.num_universes
        → s'.universes (s.next_universe_index + i) ≡ page.universes i
    pub kept :
        (s'.universes_dirty ≡ true)
        ⊎ ((s'.universes_dirty ≡ s.universes_dirty)
            × (s'.num_universes ≡ s.num_universes)
            × ((i : ℕ) → s'.universes i ≡ s.universes i))

  -- The source with the page in its place.
  abbrev appended : DiscoverySource Timer → UniverseDiscoveryPage → DiscoverySource Timer
  appended s page = record s {
    universes_dirty = true;
    universes = place s.universes s.next_universe_index page.universes page.num_universes;
    num_universes = s.next_universe_index + page.num_universes;
  }

  append_page-lem :
      (room : ℕ → Bool) (s : DiscoverySource Timer) (page : UniverseDiscoveryPage)
      → room (s.next_universe_index + page.num_universes) ≡ true
      → append_page room 0 s page ≡ (false, appended s page)
  unfolding append_page replace_universe_discovery_universes
  append_page-lem room s page fits =
      let self : ltb page.num_universes page.num_universes ≡ false = ground arith in
      rw (fits, append_page, replace_universe_discovery_universes) (rw (self, append_page) refl)

  modified-Placed :
      (s : DiscoverySource Timer) (page : UniverseDiscoveryPage)
      → s.next_universe_index + page.num_universes < 2 ^ 64
      → Placed s (appended s page) page
  modified-Placed s page small = record {
    index = refl;
    next = refl;
    enough = omega arith;
    bounded = small;
    whole = λ p. refl;
    before = λ i p. ground arith;
    there = λ i p.
        let e : s.next_universe_index + i - s.next_universe_index ≡ i = omega arith in ground arith;
    kept = inl refl;
  }

  same-Placed :
      (s : DiscoverySource Timer) (page : UniverseDiscoveryPage)
      → page.has_universes ≡ not (page.num_universes == 0)
      → page_modifies_universe_list s page ≡ false
      → s.next_universe_index ≤ s.num_universes
      → s.num_universes < 2 ^ 64
      → Placed s s page
  unfolding page_modifies_universe_list
  same-Placed s page has e le lt =
      let sub = sub_size-lem s.num_universes s.next_universe_index le lt in
      let same = λ (i : ℕ).
        differs-false (λ j. s.universes (s.next_universe_index + j)) page.universes
          page.num_universes i in
      record {
        index = refl;
        next = refl;
        enough = ground arith;
        bounded = lt;
        whole = λ p. ground arith;
        before = λ i p. refl;
        there = λ i p. same i (ground arith) p;
        kept = inr (refl, refl, λ i. refl);
      }

  pub receive_page-lem :
      (room : ℕ → Bool) (s : DiscoverySource Timer) (page : UniverseDiscoveryPage)
      → page.has_universes ≡ not (page.num_universes == 0)
      → room (s.next_universe_index + page.num_universes) ≡ true
      → s.next_universe_index + page.num_universes < 2 ^ 64
      → s.next_universe_index ≤ s.num_universes
      → s.num_universes < 2 ^ 64
      → Placed s (receive_page room 0 s page).1 page
  unfolding receive_page
  receive_page-lem room s page has fits small le lt =
      elim (Bool-cases (page_modifies_universe_list s page)) [
        | inl e ↦
            rw (e, receive_page)
              (rw (append_page-lem room s page fits) (modified-Placed s page small))
        | inr e ↦ rw (e, receive_page) (same-Placed s page has e le lt)
      ]
