-- ===== src/Detector/Limits/Kept.antt =====
-- The limits of a detector hold after every page.
use s_acn.Prelude.{
  ℕ, ◌≡◌, inl, inr, refl, sym, ◌∙◌, ap, subst, Bool, true, Bool-cases, ◌==◌, ltb, not, ◌&&◌,
  if◌then◌else◌, Option, none, some, Option-cases, Member, arith,
}
use s_acn.EtcPal.{EtcPalError}
use s_acn.Receiver.Remote.{get_remote_source_handle}
use s_acn.Detector.State.{
  SourceDetector, DiscoverySource, UniverseDiscoveryPage, Services, Discovered, Detection,
}
use s_acn.Detector.Sources.{
  Memory, replace_universe_discovery_universes, find_source, add_discovered,
  add_sacn_universe_discovery_source, is_full, is_no_mem, add_within_limit, note_limit,
  find_or_add_source,
}
use s_acn.Detector.Page.{
  page_modifies_universe_list, append_page, receive_page, stays_dirty, restart, finish_list,
  continue_list, take_page, process_universe_discovery_page,
}
use s_acn.Detector.Limits.{IsShort, take_page-IsShort, IsWithinLimits}
use s_acn.Detector.Limits.Added.{add_discovered-IsAdded, IsAdded-IsWithinLimits}

module _ {Timer : Type 0} where
  append-handle :
      (room : ℕ → Bool) (limit : ℕ) (s : DiscoverySource Timer) (page : UniverseDiscoveryPage)
      → (append_page room limit s page).1.handle ≡ s.handle
  unfolding append_page replace_universe_discovery_universes
  append-handle room limit s page = ground arith

  receive-handle :
      (room : ℕ → Bool) (limit : ℕ) (s : DiscoverySource Timer) (page : UniverseDiscoveryPage)
      → (receive_page room limit s page).1.handle ≡ s.handle
  unfolding receive_page
  receive-handle room limit s page = elim (Bool-cases (page_modifies_universe_list s page)) [
    | inl e ↦ rw (e, receive_page) (append-handle room limit s page)
    | inr e ↦ rw (e, receive_page) refl
  ]

  finish-handle :
      (copy : Bool) (s : DiscoverySource Timer) (page : UniverseDiscoveryPage)
      → (finish_list copy s page).1.handle ≡ s.handle
  unfolding finish_list restart
  finish-handle copy s page = elim (Bool-cases (stays_dirty s)) [
    | inl e ↦ rw (e, finish_list) refl
    | inr e ↦ rw (e, finish_list) refl
  ]

  continue-handle :
      (room : ℕ → Bool) (copy : Bool) (limit : ℕ) (s : DiscoverySource Timer)
      (page : UniverseDiscoveryPage)
      → (continue_list room copy limit s page).1.handle ≡ s.handle
  unfolding continue_list restart
  continue-handle room copy limit s page =
      let begun = if page.page == 0 then restart s else s in
      let same : begun.handle ≡ s.handle = ground arith in
      let received = receive-handle room limit begun page in
      let finished = finish-handle copy (receive_page room limit begun page).1 page in
      elim (Bool-cases (ltb page.page page.last_page)) [
        | inl e ↦ rw (e, continue_list) (received ∙ same)
        | inr e ↦ rw (e, continue_list) (finished ∙ received ∙ same)
      ]

module _ (S : Services) (now : ℕ) where
  found-Member :
      (cid : ℕ) (w : Detection S) (s : Discovered S)
      → find_source S cid w ≡ some s
      → Member s (S.discovered.items w.sources)
  unfolding find_source
  found-Member cid w s e =
      let h = get_remote_source_handle S.handle_tree S.cid_tree S.handle_manager cid w.remotes in
      (S.discovered.find-some w.sources h s (ground arith)).0

  -- Within the limits, with the same limits as `w`, and with the source that is given back.
  abbrev IsSound : Detection S → Option (Discovered S) → Detection S → Type 0
  IsSound w found w' =
      IsWithinLimits S now w'
      × (w'.detector.universes_per_source_max ≡ w.detector.universes_per_source_max)
      × ((s : Discovered S) → found ≡ some s → Member s (S.discovered.items w'.sources))

  noted-IsWithinLimits :
      (w w' : Detection S)
      → w'.detector ≡ w.detector
      → IsWithinLimits S now w'
      → IsWithinLimits S now (record w' {
        detector = record w.detector { suppress_source_limit_exceeded_notification = true };
      })
  noted-IsWithinLimits w w' e (few, short) =
      let a = ap (λ (d : SourceDetector). d.source_count_max) e in
      let b = ap (λ (d : SourceDetector). d.universes_per_source_max) e in
      (ground arith, λ s m. let h = short s m in ground arith)

  note_limit-IsSound :
      (w : Detection S) (r : EtcPalError × Option (Discovered S) × Detection S)
      → r.2.detector ≡ w.detector
      → IsSound w r.1 r.2
      → IsSound w (note_limit S w r).1 (note_limit S w r).2
  unfolding note_limit
  note_limit-IsSound w r e (within, same, member) =
      elim (Bool-cases
        (is_no_mem r.0 && not w.detector.suppress_source_limit_exceeded_notification)) [
          | inl t ↦ rw t (noted-IsWithinLimits w r.2 e within, refl, member)
          | inr t ↦ rw t (within, same, member)
        ]

  add_within_limit-IsSound :
      (memory : Memory) (w : Detection S) (page : UniverseDiscoveryPage)
      → find_source S page.sender_cid w ≡ none
      → IsWithinLimits S now w
      → (let r = add_within_limit S now memory w page in
          (r.2.detector ≡ w.detector) × IsSound w r.1 r.2)
  unfolding add_within_limit add_sacn_universe_discovery_source
  add_within_limit-IsSound memory w page e h = elim (Bool-cases (is_full S w)) [
    | inl full ↦ rw (full, add_within_limit) (refl, (h, refl, λ s q. absurd (cc)))
    | inr free ↦
        let r = add_discovered S now memory w page.sender_cid page.source_name in
        let added = add_discovered-IsAdded S now memory w page.sender_cid page.source_name in
        let (within, member) =
          IsAdded-IsWithinLimits S now w page.sender_cid page.source_name r free added h in
        rw (free, e, add_within_limit, add_sacn_universe_discovery_source)
          (
            added.0,
            (within, ap (λ (d : SourceDetector). d.universes_per_source_max) added.0, member),
          )
  ]

  find_or_add_source-IsSound :
      (memory : Memory) (w : Detection S) (page : UniverseDiscoveryPage)
      → IsWithinLimits S now w
      → IsSound w
          (find_or_add_source S now memory w page).1
          (find_or_add_source S now memory w page).2
  unfolding find_or_add_source
  find_or_add_source-IsSound memory w page h =
      elim (Option-cases (find_source S page.sender_cid w)) [
        | inr (s, e) ↦
            rw (e, find_or_add_source) (h, refl, λ t q. found-Member page.sender_cid w t (e ∙ q))
        | inl e ↦
            let (same, sound) = add_within_limit-IsSound memory w page e h in
            rw (e, find_or_add_source)
              (note_limit-IsSound w (add_within_limit S now memory w page) same sound)
      ]

  take_page-handle :
      (room : ℕ → Bool) (copy : Bool) (limit : ℕ) (s : Discovered S) (page : UniverseDiscoveryPage)
      → (take_page S now room copy limit s page).1.handle ≡ s.handle
  unfolding take_page restart
  take_page-handle room copy limit s page =
      let reset : Discovered S = record s {
        expiration_timer = S.tm.reset now s.expiration_timer;
      } in
      let continued = continue-handle room copy limit reset page in ground arith

  -- If a detector has no more sources than source_count_max and no source with more universes than
  -- universes_per_source_max, where these are limits, then so it has after any page, whatever the page
  -- holds and whichever allocations fail.
  pub process_universe_discovery_page-IsWithinLimits :
      (memory : Memory) (room : ℕ → Bool) (copy : Bool) (w : Detection S)
      (page : UniverseDiscoveryPage)
      → IsWithinLimits S now w
      → IsWithinLimits S now (process_universe_discovery_page S now memory room copy w page).1
  unfolding process_universe_discovery_page
  process_universe_discovery_page-IsWithinLimits memory room copy w page h =
      let (within, limit, member) = find_or_add_source-IsSound memory w page h in
      let r = find_or_add_source S now memory w page in
      let (few, short) = within in
      elim (Option-cases r.1) [
        | inl e ↦ rw (e, process_universe_discovery_page) within
        | inr (s, e) ↦
            let m = member s e in
            let s' = (take_page S now room copy w.detector.universes_per_source_max s page).1 in
            let handle = take_page-handle room copy w.detector.universes_per_source_max s page in
            let s'-IsShort =
              take_page-IsShort S now room copy w.detector.universes_per_source_max s page
                (subst (λ l. IsShort l s) limit (short s m)) in
            let size = S.discovered.store-size r.2.sources s' in
            rw (e, process_universe_discovery_page)
              (
                ground arith,
                λ t n. elim ((S.discovered.store-member r.2.sources s' s t m (sym handle)).0 n) [
                  | inl p ↦
                      subst (λ x. IsShort r.2.detector.universes_per_source_max x) (sym p)
                        (subst (λ l. IsShort l s') (sym limit) s'-IsShort)
                  | inr (n', _) ↦ short t n'
                ],
              )
      ]
