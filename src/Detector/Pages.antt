-- ===== src/Detector/Pages.antt =====
-- Lists of universes that come in pages, one page after the other, from page 0 to the last.
mod Received
pub mod Ascending
mod Complete
pub mod Listed
pub mod Repeated
use s_acn.Prelude.{
  ℕ, ◌+◌, ◌-◌, ◌^◌, ◌≡◌, ◌≢◌, ◌<◌, ◌≤◌, ◌⊎◌, inl, inr, refl, sym, ◌∙◌, ap, Array, Bool, true, false,
  not, ltb, ◌==◌, if◌then◌else◌, Bool-cases, Option, none, some, List, [], ◌∷◌, length, arith,
}
use s_acn.Detector.State.{
  DiscoverySource, UniverseDiscoveryPage, SourceUpdated, PageNotices, Services, Discovered,
}
use s_acn.Detector.Page.{
  take_page, updated_list, stays_dirty, finish_list, receive_page, restart, continue_list,
}

-- The source expects page `k`, whose first universe is number `off` of the list.
abbrev pub IsInPlace : {Timer : Type 0} → ℕ → ℕ → DiscoverySource Timer → Type 0
IsInPlace k off s =
    ((k ≡ 0) × (off ≡ 0))
    ⊎ ((s.next_page ≡ k) × (s.next_universe_index ≡ off) × (off ≤ s.num_universes) × (k ≢ 0))

-- Page `k` of the list of universes that `cid` sends, with the `n` universes from `off` on.
abbrev pub page_of : ℕ → Array → Array → ℕ → ℕ → ℕ → ℕ → UniverseDiscoveryPage
page_of cid name all k last off n = record {
  sender_cid = cid;
  source_name = name;
  page = k;
  last_page = last;
  has_universes = not (n == 0);
  universes = λ i. all (off + i);
  num_universes = n;
}

-- The number of universes up to the end of a page of `n` and of the pages after it.
abbrev pub total : ℕ → ℕ → List ℕ → ℕ
total off n [] = off + n
total off n (m ∷ ns) = total (off + n) m ns

module _ (S : Services) (room : ℕ → Bool) (copy : Bool) (at : ℕ → ℕ) (cid : ℕ)
    (name all : Array) where
  -- The pages from page `k` on: of `n` universes, then of the numbers of the list; at their times.
  unfoldable pub receive_pages : ℕ → ℕ → ℕ → List ℕ → Discovered S → PageNotices × Discovered S
  receive_pages k off n [] s = take_page S (at k) room copy 0 s (page_of cid name all k k off n)
  receive_pages k off n (m ∷ ns) s =
      receive_pages (k + 1) (off + n) m ns
        (take_page S (at k) room copy 0 s (page_of cid name all k (k + 1 + length ns) off n)).1
