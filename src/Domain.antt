-- ===== src/Domain.antt =====
-- crates/core/src/domain: the vocabulary of the match.
pub mod Ids
pub mod EntityId
pub mod Cards
pub mod Entity
pub mod Field
pub mod CardSet
pub mod Mana
pub mod Errors
pub mod State
pub mod Events
pub mod Actions
