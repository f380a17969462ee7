-- ===== src/Detector.antt =====
-- The source detector: src/sacn/source_detector_state.c and src/sacn/mem/source_detector.
pub mod State
pub mod Sources
pub mod Page
pub mod Pages
pub mod Limits
pub mod Tick
pub mod Discovery
mod Examples
