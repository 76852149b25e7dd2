-- ===== src/Encoder.antt =====
-- src/encoding/operation_encoder.c: the patch streams of a tracked destination image.
pub mod Format
pub mod Count
pub mod Runs
pub mod Emit
