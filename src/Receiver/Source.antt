-- ===== src/Receiver/Source.antt =====
-- What a packet does to the source it comes from: the functions of src/sacn/receiver_state.c on one
-- tracked source.
pub mod Sequence
pub mod Waiting
use s_acn.Prelude.{ℕ, ◌+◌, leb, ltb, Bool, true, false, ◌||◌, if◌then◌else◌, Option, none, some}
use s_acn.Receiver.State.{
  RecvState, waiting_for_pap, have_dmx_only, have_pap_only, have_dmx_and_pap, Platform, Tracked,
  source_loss_timeout,
}

-- seqnum_cmp = new_seq - old_seq is an int: it is positive, or at most -20.
unfoldable pub check_sequence : ℕ → ℕ → Bool
check_sequence new_seq old_seq = ltb old_seq new_seq || leb (new_seq + 20) old_seq

module _ (P : Platform) (now : ℕ) where
  unfoldable pub mark_source_terminated : Tracked P → Tracked P
  mark_source_terminated s = record s { terminated = true; packet_timer = P.tm.start now 0 }

  -- The source, whether a lost PAP is to be notified (where the source's CID is known), and whether
  -- to pass the data on.
  unfoldable pub process_null_start_code : Bool → Tracked P → Tracked P × Bool × Bool
  process_null_start_code cid_known s =
      let s' : Tracked P = record s {
        dmx_received_since_last_tick = true;
        packet_timer = P.tm.start now source_loss_timeout;
      } in
      elim s.recv_state [
        | have_pap_only ↦ (record s' { recv_state = have_dmx_and_pap }, false, true)
        | waiting_for_pap ↦
            if P.tm.is_expired now s.pap_timer
            then (
              record s' {
                recv_state = have_dmx_only;
                pap_timer = P.tm.start now source_loss_timeout;
              },
              false,
              true,
            )
            else (s', false, false)
        | have_dmx_only ↦ (s', false, true)
        | have_dmx_and_pap ↦
            if P.tm.is_expired now s.pap_timer
            then (record s' { recv_state = have_dmx_only }, cid_known, true)
            else (s', false, true)
      ]

  unfoldable pub process_pap : Tracked P → Tracked P
  process_pap s =
      let started : Tracked P = record s {
        recv_state = have_dmx_and_pap;
        pap_timer = P.tm.start now source_loss_timeout;
      } in
      let kept : Tracked P = record s { pap_timer = P.tm.reset now s.pap_timer } in
      elim s.recv_state [
        | waiting_for_pap ↦ started
        | have_dmx_only ↦ started
        | have_dmx_and_pap ↦ kept
        | have_pap_only ↦ kept
      ]
