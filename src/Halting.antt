-- ===== src/Halting.antt =====
-- The end of the resolution loop on a card pool without Triggered Abilities:
-- crates/core/src/engine/resolution/mod.rs `drain`.
pub mod Quiet
pub mod Load
pub mod Ends
pub mod Apply
