-- ===== src/Handlers.antt =====
-- What an accepted action found and did: the inversion of each handler of the engine.
pub mod Hand
pub mod Free
pub mod Main
pub mod Window
pub mod Upgrade
pub mod Retreat
pub mod Timing
pub mod Cast
pub mod Answers
