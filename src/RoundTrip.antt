-- ===== src/RoundTrip.antt =====
-- Encoding a tracked image and applying the patch.
pub mod FirstByte
pub mod Counts
pub mod Fields
pub mod Blocks
pub mod Runs
pub mod Copies
pub mod Patches
pub mod Setting
pub mod Operations
pub mod Moved
pub mod Limits
pub mod Added
pub mod Loop
pub mod Stream
pub mod Whole
