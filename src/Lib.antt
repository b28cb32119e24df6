-- ===== src/Lib.antt =====
-- The rules engine of the card game Summoners: crates/core, a pure library that takes a game
-- state and an action, and answers with the next state and the events, or with an error; and the
-- rules on authored Sets and Decks, of crates/cards.
--
-- The program's parts, and the file that models each (paths from the repository's root, in
-- crates/core/src):
-- domain/ids.rs, domain/errors.rs, domain/actions.rs, domain/events.rs: Domain/Ids, Domain/Errors,
--   Domain/Actions, Domain/Events.
-- domain/cards/: Domain/EntityId, Domain/Cards, Domain/Entity, Domain/Field (the typed reads) and
--   Domain/CardSet (the pool and its index by id).
-- domain/state.rs: Domain/State, and Domain/Mana for `ManaBank`.
-- engine/payment.rs, engine/damage.rs, engine/loss.rs, engine/upkeep.rs, engine/turn.rs:
--   Engine/Payment, Engine/Damage, Engine/Loss, Engine/Upkeep, Engine/Turn.
-- engine/board/mod.rs, engine/skills/mod.rs: Engine/Board, Engine/Skills, with Engine/Outcome for
--   what these handlers share.
-- engine/stack/mod.rs: Engine/Priority. engine/triggers/mod.rs: Engine/Triggers.
--   engine/effects/mod.rs: Engine/Effects. engine/destruction/mod.rs: Engine/Destruction.
-- engine/resolution/mod.rs: Engine/Resolution. engine/apply/mod.rs: Engine/Apply.
-- scenario.rs: Scenario.
-- Beside it, in crates/cards/src: library.rs and `LoadedSet` of lib.rs: Authored/Library. deck.rs:
--   Authored/Deck and Authored/DeckError, with the texts and maps of both files in Authored/Keys.
--   v1/dto.rs: Authored/SetDto. error.rs: Authored/SetError. v1/model.rs: Authored/SetModel,
--   Authored/SetEffects, Authored/SetAbilities and Authored/SetCards.
--
-- How they interact: `from_scenario` turns a described situation into the first state of a match, or
-- says why it cannot. `apply` checks that the game is playing and that the actor is the one the state
-- waits for, and calls the handler of the action. A handler returns a state that may have items on
-- the Stack, queued `work`, or a Priority window. `drain` then resolves the Stack top first and runs
-- the queued work, until a decision is pending, a window is open, the game is over or nothing is
-- left. Effects run through `apply_leaf`, Damage through `evaluate` and `commit`, and what they cause
-- is queued as work. `from_sets` makes the library that `resolve` looks the cards of a Deck up in.
--
-- How the code is modelled: a `&mut GameState` is a state that is passed on; a handler returns
-- `Result`, and `?` and early returns are a do block with `guard` and `ok_or`. A function's events are
-- returned beside its state. Numbers are natural numbers: saturating operations and the wrap of a
-- release build (`Words.u32`, `Words.u8`, `Board.i32_wrap`) are written out. Payment pools, i64 in the
-- source, are integers, since they stay in the range of i64. A `Vec` used from its end is a list with
-- the end first (the Stack and its segment bases). Maps and sets are association lists and lists. The
-- texts of crates/cards and of `EntityId` are lists of their bytes, and the names of Sets, cards,
-- abilities and Decks, which are trimmed, lists of their chars.
--
-- Fuel: `drain` need not end on every card pool, since an ability may queue itself again, so it takes
-- fuel, and `none` is fuel run out. Every other function is total.
--
-- The proofs: Handlers inverts each handler and follows what it changes, Rounds the resolution loop
-- and Transition/Accepted the whole transition; Frame and Segments/Kept say what steps leave alone; Conservation weighs the cards
-- of all zones; Segments follows the Stack; Calculation treats payment and Damage; Repeats the
-- destruction checks; Pool the index of the card pool; Halting measures the rounds of the loop;
-- Scenario/* treats the parser of situations, Session the states of a match, Spelling the texts of an
-- `EntityId`, Authored/Library/* and Authored/Deck/* what libraries and Decks are accepted, and the
-- children of Authored/SetEffects, SetAbilities and SetCards what Sets; Examples holds small examples,
-- tests and witnesses.
--
-- Not modelled: the index of the card pool by accounting code and printed error texts of crates/core;
-- in crates/cards the decoding of UTF-8 and TOML, which libraries do, the minting of identities
-- and the conversion of a parsed Set to entities; match logs (crates/match-log), the command line
-- (crates/cli), the image service (crates/cceroby) and the build tasks (xtask), which are formats,
-- input and output around the rules.
pub mod Prelude
pub mod Domain
pub mod Engine
pub mod Frame
pub mod Conservation
pub mod Handlers
pub mod Rounds
pub mod Repeats
pub mod Pool
pub mod Segments
pub mod Transition
pub mod Calculation
pub mod Halting
pub mod Spelling
pub mod Scenario
pub mod Session
pub mod Authored
pub mod Examples
