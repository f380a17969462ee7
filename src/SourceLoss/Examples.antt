-- ===== src/SourceLoss/Examples.antt =====
-- The theorems on source loss for one termination set of the sources 3 and 4 on universe 1.
use s_acn.Prelude.{
  ℕ, ◌≡◌, ◌≢◌, ◌<◌, ◌↔◌, refl, Array, true, false, Option-cases, some, List, [], ◌∷◌, Member, here,
}
use s_acn.EtcPal.ListTree.{list_tree}
use s_acn.SourceLoss.State.{
  SourceTree, KeyTree, RemoteSource, TermSetSource, key_of, source_key, TerminationSet, Loss,
}
use s_acn.EtcPal.{ok}
use s_acn.Prelude.{inl, inr, Member_uncons, arith}
use s_acn.SourceLoss.State.{
  OfflineSource, remote_source_invalid, find_existing_ts_src, insert_new_ts_src,
}
use s_acn.SourceLoss.Offline.{Memory, mark_sources_offline}
use s_acn.SourceLoss.Covered.{IsCovered}
use s_acn.SourceLoss.Marked.{Marked, mark_sources_offline-Marked}
use s_acn.SourceLoss.Online.{mark_sources_online}
use s_acn.SourceLoss.Expired.{SourcesLost, expire}
use s_acn.SourceLoss.Confirmed.{mark_sources_online-old}
use s_acn.SourceLoss.Reported.{expire-all_offline, expire-cancelled}

abbrev source_tree : SourceTree
source_tree = list_tree key_of

abbrev key_tree : KeyTree
key_tree = list_tree (λ (k : ℕ). k)

abbrev zeros : Array
zeros = λ _. 0

abbrev unknown : TermSetSource
unknown = record { handle = 4; universe = 1; name = zeros; offline = false; terminated = false }

abbrev all : source_tree.Tree
all = (source_tree.insert unknown source_tree.init).1

abbrev term_set : TerminationSet source_tree key_tree ℕ
term_set = record {
  wait_period = 5;
  sources = (key_tree.insert (source_key 3 1) (key_tree.insert (source_key 4 1) key_tree.init).1).1;
}

abbrev loss : Loss source_tree key_tree ℕ
loss = record { all = all; sets = term_set ∷ [] }

abbrev online : List RemoteSource
online = record { handle = 3; name = zeros } ∷ []

abbrev left : TerminationSet source_tree key_tree ℕ
left = record { wait_period = 5; sources = (key_tree.remove (source_key 3 1) term_set.sources).1 }

left_in : Member left (mark_sources_online source_tree key_tree ℕ 1 online loss).sets
unfolding mark_sources_online list_tree Option-cases
left_in = here refl

mark_sources_online-old_example :
    (old : TerminationSet source_tree key_tree ℕ) × Member old (term_set ∷ [])
    × (5 ≡ old.wait_period)
    × ((w : ℕ)
        → Member w (key_tree.items left.sources)
        → Member w (key_tree.items old.sources)
          × ((s : RemoteSource) → Member s online → w ≢ source_key s.handle 1))
mark_sources_online-old_example =
    mark_sources_online-old source_tree key_tree ℕ 1 online loss left left_in

abbrev lost : SourcesLost
lost = record {
  lost_sources = λ _. record { handle = 9; cid = 0; name = zeros; terminated = true };
  num_lost_sources = 2;
}

found : source_tree.find (source_key 4 1) all ≡ some unknown
unfolding list_tree Option-cases
found = refl

expire-all_offline_example :
    ((expire source_tree key_tree ℕ (λ _. true) (λ _. some 0) (λ _. true) (65540 ∷ []) all 0 lost).0
      ≡ true)
    ↔ ((k : ℕ) (s : TermSetSource)
        → Member k (65540 ∷ [])
        → source_tree.find k all ≡ some s
        → s.offline ≡ true)
expire-all_offline_example =
    expire-all_offline source_tree key_tree ℕ (λ _. true) (λ _. some 0) (λ _. true) (65540 ∷ []) all
      0 lost

expire-cancelled_example :
    ((expire source_tree key_tree ℕ
        (λ _. true)
        (λ _. some 0)
        (λ _. true)
        (source_key 4 1 ∷ [])
        all
        0
        lost).1.num_lost_sources
      ≡ 2)
    × ((i : ℕ)
        → i < 2
        → (expire source_tree key_tree ℕ
              (λ _. true)
              (λ _. some 0)
              (λ _. true)
              (source_key 4 1 ∷ [])
              all
              0
              lost).1.lost_sources
            i
          ≡ lost.lost_sources i)
expire-cancelled_example =
    expire-cancelled source_tree key_tree ℕ (λ _. true) (λ _. some 0) (λ _. true)
      (source_key 4 1 ∷ []) all lost (source_key 4 1) unknown (here refl) found refl

abbrev empty : Loss source_tree key_tree ℕ
empty = record { all = source_tree.init; sets = [] }

abbrev memory : Memory
memory = record { term_set = λ _. true; term_set_source = λ _. true }

abbrev offline : OfflineSource
offline = record { handle = 3; name = zeros; terminated = true }

abbrev others : List RemoteSource
others = record { handle = 4; name = zeros } ∷ []

others-valid : (u : RemoteSource) → Member u others → u.handle ≢ remote_source_invalid
others-valid u m = elim (Member_uncons m) [ inl p ↦ rw p (omega arith) | inr n ↦ elim n [ ] ]

offline-valid : (o : OfflineSource) → Member o (offline ∷ []) → o.handle ≢ remote_source_invalid
offline-valid o m = elim (Member_uncons m) [ inl p ↦ rw p (omega arith) | inr n ↦ elim n [ ] ]

marked :
    (mark_sources_offline source_tree key_tree ℕ
      (λ n. n)
      memory
      1
      (offline ∷ [])
      others
      1000
      empty).0
    ≡ ok
unfolding mark_sources_offline list_tree Option-cases find_existing_ts_src insert_new_ts_src
marked = refl

empty-IsCovered : IsCovered source_tree key_tree ℕ empty
unfolding list_tree
empty-IsCovered t m = elim m [ ]

mark_sources_offline-Marked_example :
    Marked source_tree key_tree ℕ
      (source_key 3 1)
      (mark_sources_offline source_tree key_tree ℕ
        (λ n. n)
        memory
        1
        (offline ∷ [])
        others
        1000
        empty).1
mark_sources_offline-Marked_example =
    mark_sources_offline-Marked source_tree key_tree ℕ (λ n. n) memory 1 others 1000 others-valid
      (offline ∷ []) empty offline-valid empty-IsCovered marked offline (here refl)
