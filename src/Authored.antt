-- ===== src/Authored.antt =====
-- Authored cards and Decks: crates/cards/src.
pub mod Keys
pub mod Library
pub mod DeckError
pub mod Deck
pub mod SetDto
pub mod SetError
pub mod SetModel
pub mod SetEffects
pub mod SetAbilities
pub mod SetCards
pub mod Maps
