-- ===== src/Conservation.antt =====
-- The weight of all cards of a state, under any weight of a card, across the whole engine.
pub mod Weight
pub mod Moves
pub mod Leaves
pub mod Work
pub mod Actions
pub mod Dispatch
pub mod Drain
