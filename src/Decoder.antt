-- ===== src/Decoder.antt =====
-- src/patch.c: applying a patch to a source image.
pub mod Source
pub mod Reads
pub mod Steps
pub mod Apply
pub mod Loops
pub mod Complete
pub mod Query
