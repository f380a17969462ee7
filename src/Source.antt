-- ===== src/Source.antt =====
-- The source (src/sacn/source_state.c): how the levels and priorities of one universe are sent.
pub mod State
pub mod Send
pub mod Transmit
pub mod Terminate
mod Examples
