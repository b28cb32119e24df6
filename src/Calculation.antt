-- ===== src/Calculation.antt =====
-- The two calculations of the engine: engine/damage.rs and engine/payment.rs.
pub mod Trace
pub mod Staged
pub mod Pools
pub mod Paid
pub mod Hinted
pub mod Accepts
