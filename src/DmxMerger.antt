-- ===== src/DmxMerger.antt =====
-- The DMX merger (src/sacn/dmx_merger.c, src/sacn/private/dmx_merger.h, include/sacn/dmx_merger.h).
-- `State` has the data, `Slots` what one slot of a merge loop does, `Update` the operations on one
-- merger, `Table` those on the table of mergers and `Api` the public functions.
pub mod State
pub mod Slots
pub mod Spec
pub mod Outputs
pub mod Update
pub mod Priority
pub mod Invariant
pub mod Replace
pub mod Sole
pub mod Levels
pub mod Recalculate
pub mod Priorities
pub mod Table
pub mod Api
mod Examples
