-- ===== src/Segments.antt =====
-- The Stack and its segments: crates/core/src/engine/resolution/mod.rs and engine/triggers/mod.rs.
pub mod Kept
pub mod Invariant
pub mod Dispatch
pub mod Order
