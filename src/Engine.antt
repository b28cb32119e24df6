-- ===== src/Engine.antt =====
-- crates/core/src/engine: the transition and the machinery that drains its consequences.
pub mod Payment
pub mod Outcome
pub mod Damage
pub mod Loss
pub mod Upkeep
pub mod Effects
pub mod Triggers
pub mod Destruction
pub mod Turn
pub mod Priority
pub mod Board
pub mod Skills
pub mod Resolution
pub mod Apply
