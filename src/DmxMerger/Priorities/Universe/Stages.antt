-- ===== src/DmxMerger/Priorities/Universe/Stages.antt =====
-- The stages of update_universe_priority, on a whole merger.
use s_acn.Prelude.{
  ℕ, ◌<◌, ◌≡◌, ◌≢◌, inl, refl, sym, ◌∙◌, Bool, true, false, some, Member, Member_single, length,
  arith,
}
use s_acn.EtcPal.{IntHandleManager}
use s_acn.DmxMerger.State.{
  SourceTree, SourceState, MergerState, Config, calc_src_pap, get_slot, max_slots, source_invalid,
}
use s_acn.DmxMerger.Spec.{Replaced, IsMerge}
use s_acn.DmxMerger.Slots.{merge_new_priorities_slot}
use s_acn.DmxMerger.Outputs.{merge_slots, copy_priority}
use s_acn.DmxMerger.Outputs.Flags.{SameFlags, merge_slots-SameFlags, copy_priority-SameFlags}
use s_acn.DmxMerger.Update.{sources, single_source, put_source, put_config}
use s_acn.DmxMerger.Priority.{
  to_pap, with_universe_priority, is_max, set_universe_priority, recalculate_universe_priority,
  update_universe_priority_output,
}
use s_acn.DmxMerger.Invariant.{IsSource, IsMerged}
use s_acn.DmxMerger.Replace.{
  store-Replaced, Replaced-trans, Replaced-IsPapActive, replace-IsMerged, unchanged-IsMerge,
}
use s_acn.DmxMerger.Sole.{sole-IsMerge, IsMerge-sole}
use s_acn.DmxMerger.Priorities.{SameLevels, reprioritised-IsMerge, get_slot-copy_priority-sole}
use s_acn.DmxMerger.Priorities.Universe.{
  prioritised, spread, to_pap-pos, spread-lt, output-sources, output-IsMaxPriority,
}

module _ (T : SourceTree) (H : IntHandleManager) where
  -- A merger in which the source has been exchanged and merged, and the flags are as before.
  pub record Stage (m m' : MergerState T H) (s s' : SourceState) : Type 0 where
    pub replaced : Replaced s s' (sources T H m) (sources T H m')
    pub flags : SameFlags m.config m'.config
    pub size : T.size m'.source_state_lookup ≡ T.size m.source_state_lookup
    pub slots :
        (slot : ℕ) → slot < max_slots → IsMerge (sources T H m') slot (get_slot m'.config slot)

  output-slot :
      (m : MergerState T H) (p : ℕ) (was_max single : Bool) (j : ℕ)
      → get_slot (update_universe_priority_output T H m p was_max single).config j
        ≡ get_slot m.config j
  unfolding update_universe_priority_output recalculate_universe_priority put_config
      set_universe_priority get_slot
  output-slot m p was_max single j = ground arith

  output-pap :
      (m : MergerState T H) (p : ℕ) (was_max single : Bool)
      → (update_universe_priority_output T H m p was_max
          single).config.per_address_priorities_active
        ≡ m.config.per_address_priorities_active
  unfolding update_universe_priority_output recalculate_universe_priority put_config
      set_universe_priority
  output-pap m p was_max single = ground arith

  is_max-false :
      (m : MergerState T H) (s : SourceState) (out : ℕ)
      → m.config.universe_priority ≡ some out
      → is_max T H m s ≡ false
      → s.source.universe_priority < out
  unfolding is_max
  is_max-false m s out e h = ground arith

  -- The last step, from such a stage.
  pub Stage-IsMerged :
      (m m' : MergerState T H) (s s' : SourceState) (single : Bool)
      → IsMerged T H m
      → Stage m m' s s'
      → IsSource s'
      → s'.source.using_universe_priority ≡ s.source.using_universe_priority
      → single ≡ single_source T H m
      → IsMerged T H (
          update_universe_priority_output T H m' s'.source.universe_priority
            (is_max T H m s)
            single)
  Stage-IsMerged m m' s s' single inv st ok u one =
      let end =
        update_universe_priority_output T H m' s'.source.universe_priority (is_max T H m s)
          single in
      let e = output-sources T H m' s'.source.universe_priority (is_max T H m s) single in
      replace-IsMerged T H m end s s' inv (rw e st.replaced) ok
        (λ b f. rw e (
          Replaced-IsPapActive s s' _ _ st.replaced b u (
            inv.pap_active b (sym st.flags.0 ∙ sym (output-pap m' _ (is_max T H m s) single) ∙ f))))
        (λ p f. rw e (
          output-IsMaxPriority T H m' s s' _ (is_max T H m s) single st.replaced
            (λ out g. inv.max_priority out (sym st.flags.1 ∙ g))
            (λ g. sym (T.size-length m'.source_state_lookup) ∙ st.size ∙ only (sym one ∙ g))
            (λ out g h. is_max-false m s out (sym st.flags.1 ∙ g) h) p f))
        (λ j lt.
          rw (e, output-slot m' s'.source.universe_priority (is_max T H m s) single j)
            (st.slots j lt))
    where
      only : single_source T H m ≡ true → T.size m.source_state_lookup ≡ 1
      only g = ground arith

  unfoldable pub counted : SourceState → ℕ → SourceState
  unfolding prioritised
  counted s p = record (prioritised s p) { pap_count = max_slots }

  -- The merger once the source has its universe priority, and once its count is set as well.
  unfoldable pub begun : MergerState T H → SourceState → ℕ → MergerState T H
  unfolding put_source prioritised
  begun m s p = put_source T H m (prioritised s p)

  unfoldable pub ready : MergerState T H → SourceState → ℕ → MergerState T H
  unfolding put_source counted begun
  ready m s p = put_source T H (begun m s p) (counted s p)

  module _ (m : MergerState T H) (s : SourceState) (p : ℕ) (inv : IsMerged T H m)
      (mem : Member s (sources T H m)) where
    abbrev pub spreaded : SourceState
    spreaded = spread (prioritised s p) (to_pap p)

    pub begun-Stage : Stage m (begun m s p) s (prioritised s p)
    unfolding begun prioritised put_source calc_src_pap with_universe_priority
    begun-Stage =
        let r = store-Replaced T m.source_state_lookup s (prioritised s p) mem refl in
        record {
          replaced = r;
          flags = (refl, refl);
          size = T.store-size _ _;
          slots = λ j lt.
              unchanged-IsMerge s (prioritised s p) _ _ r j _ (inv.slots j lt)
                (inv.wellformed s mem).has_handle refl (inl refl);
        }

    unfoldable pub result : Config → MergerState T H
    unfolding put_source put_config ready
    result c = put_config T H (put_source T H (ready m s p) spreaded) c

    result-Replaced : (c : Config) → Replaced s spreaded (sources T H m) (sources T H (result c))
    unfolding result begun ready prioritised counted spread put_source put_config
        with_universe_priority
    result-Replaced c =
        let first = store-Replaced T m.source_state_lookup s (prioritised s p) mem refl in
        let second =
          store-Replaced T (begun m s p).source_state_lookup (prioritised s p) (counted s p)
            first.new refl in
        let third =
          store-Replaced T (ready m s p).source_state_lookup (counted s p) spreaded second.new
            refl in
        Replaced-trans s (prioritised s p) spreaded _ _ _ first
          (Replaced-trans (prioritised s p) (counted s p) spreaded _ _ _ second third)

    result-size :
        (c : Config) → T.size (result c).source_state_lookup ≡ T.size m.source_state_lookup
    unfolding result ready begun put_source put_config
    result-size c =
        T.store-size (ready m s p).source_state_lookup spreaded
        ∙ T.store-size (begun m s p).source_state_lookup (counted s p)
        ∙ T.store-size m.source_state_lookup (prioritised s p)

    same_levels : SameLevels s spreaded
    unfolding spread prioritised with_universe_priority
    same_levels = record { handle = refl; levels = refl; count = refl }

    abbrev pub count : ℕ
    count = s.source.valid_level_count

    abbrev pub merged_slots : Config
    merged_slots =
        merge_slots 0 count (merge_new_priorities_slot spreaded (sources T H (result m.config)))
          m.config

    pub multi-Stage : Stage m (result merged_slots) s spreaded
    unfolding result put_config
    multi-Stage = record {
      replaced = result-Replaced m.config;
      flags = merge_slots-SameFlags 0 count _ m.config;
      size = result-size m.config;
      slots = λ j lt.
          reprioritised-IsMerge s spreaded _ _ count m.config j (result-Replaced m.config)
            same_levels (valid_handle) (omega arith) (inv.slots j lt);
    }
      where
        valid_handle : spreaded.handle ≢ source_invalid
        valid_handle = rw same_levels.handle (inv.wellformed s mem).has_handle

    pub single-Stage :
        T.size m.source_state_lookup ≡ 1
        → Stage m (result (copy_priority spreaded (to_pap p) count m.config)) s spreaded
    unfolding result put_config
    single-Stage one =
        let r = result-Replaced m.config in
        let before : length (sources T H m) ≡ 1 = sym (T.size-length m.source_state_lookup) ∙ one in
        let after : length (sources T H (result m.config)) ≡ 1 =
          sym (T.size-length _) ∙ result-size m.config ∙ one in
        record {
          replaced = r;
          flags = copy_priority-SameFlags spreaded (to_pap p) count m.config;
          size = result-size m.config;
          slots = λ j lt.
              rw
                (get_slot-copy_priority-sole s spreaded (to_pap p) count m.config j same_levels refl
                  (to_pap-pos p) (spread-priority j lt)
                  (IsMerge-sole s _ j mem (λ t k. Member_single _ before k mem) _ (inv.slots j lt)))
                (sole-IsMerge spreaded _ j r.new (λ t k. Member_single _ after k r.new));
        }
      where
        spread-priority :
            (j : ℕ) → j < max_slots → j < count → spreaded.source.address_priority j ≡ to_pap p
        spread-priority j lt _ = spread-lt (prioritised s p) (to_pap p) j lt
