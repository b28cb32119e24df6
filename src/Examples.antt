-- ===== src/Examples.antt =====
-- A small match on which the theorems are run.
pub mod Match
pub mod Table
pub mod Runs
pub mod Started
pub mod Document
pub mod Applied
pub mod Witnesses
