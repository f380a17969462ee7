-- ===== src/Receiver.antt =====
-- The receiver (src/sacn/receiver_state.c, and of src/sacn/mem/receiver the files remote_source.c,
-- tracked_source.c, sampling_period_netint.c and status_lists.c): which packets of which sources a
-- receiver passes on, and when it finds a source lost.
pub mod Remote
pub mod State
pub mod Track
pub mod Source
pub mod Packet
pub mod Status
pub mod Tick
pub mod Limit
pub mod History
mod Examples
