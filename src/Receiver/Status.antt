-- ===== src/Receiver/Status.antt =====
-- Which of the tracked sources are offline, online or unknown in a tick: check_source_timeouts of
-- src/sacn/receiver_state.c and the lists of src/sacn/mem/receiver/status_lists.c.
use s_acn.Prelude.{ℕ, Bool, true, false, ◌||◌, not, ◌==◌, if◌then◌else◌, List, [], ◌∷◌, ◌++◌}
use s_acn.SourceLoss.State.{RemoteSource, OfflineSource, remote_source_invalid}
use s_acn.Receiver.State.{waiting_for_pap, Platform, Tracked}

-- SacnSourceStatusLists
pub record StatusLists : Type 0 where
  pub offline : List OfflineSource
  pub online : List RemoteSource
  pub unknown : List RemoteSource

-- zero_status_lists
abbrev pub zero_status_lists : StatusLists
zero_status_lists = record { offline = []; online = []; unknown = [] }

-- `room` says whether the list has room for one more, or can be made to have it.
unfoldable pub add_offline_source : Bool → OfflineSource → StatusLists → StatusLists
add_offline_source room s l =
    if s.handle == remote_source_invalid || not room
    then l
    else record l { offline = l.offline ++ (s ∷ []) }

unfoldable pub add_online_source : Bool → RemoteSource → StatusLists → StatusLists
add_online_source room s l =
    if s.handle == remote_source_invalid || not room
    then l
    else record l { online = l.online ++ (s ∷ []) }

unfoldable pub add_unknown_source : Bool → RemoteSource → StatusLists → StatusLists
add_unknown_source room s l =
    if s.handle == remote_source_invalid || not room
    then l
    else record l { unknown = l.unknown ++ (s ∷ []) }

module _ (P : Platform) (now : ℕ) (room : ℕ → Bool) where
  unfoldable pub update_source_status : Tracked P → StatusLists → Tracked P × StatusLists
  unfolding add_offline_source add_online_source add_unknown_source
  update_source_status s l =
      let source : RemoteSource = record { handle = s.handle; name = s.name } in
      if P.tm.is_expired now s.packet_timer
      then (
        s,
        add_offline_source (room s.handle)
            (record { handle = s.handle; name = s.name; terminated = s.terminated }) l,
      )
      else if s.dmx_received_since_last_tick
      then (
        record s { dmx_received_since_last_tick = false },
        add_online_source (room s.handle) source l,
      )
      else (s, add_unknown_source (room s.handle) source l)

  -- The answer is false for a source that waits for a PAP and has timed out.
  unfoldable pub check_source_timeouts : Tracked P → StatusLists → Bool × Tracked P × StatusLists
  unfolding update_source_status
  check_source_timeouts s l =
      let (s', l') = update_source_status s l in
      elim s.recv_state [
        | waiting_for_pap ↦ (not (P.tm.is_expired now s.packet_timer), s, l)
        | _ ↦ (true, s', l')
      ]
