-- ===== src/Transition.antt =====
-- The public transition `apply` of crates/core/src/engine/apply/mod.rs.
pub mod Accepted
pub mod Laws
