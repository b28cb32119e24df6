-- ===== src/Frame.antt =====
-- What one step of the engine leaves alone.
pub mod Leaves
