-- ===== src/SourceLoss.antt =====
-- The detection of source loss (src/sacn/source_loss.c, and add_lost_source of
-- src/sacn/mem/receiver/sources_lost.c): termination sets, which make sources that go offline at
-- about the same time be reported as lost together.
pub mod State
pub mod Online
pub mod Offline
pub mod Expired
pub mod Confirmed
pub mod Reported
pub mod Covered
pub mod Known
pub mod Marked
mod Examples
