-- ===== src/Authored/Library.antt =====
-- crates/cards/src/library.rs, and the Set of crates/cards/src/lib.rs that it is made of: the loaded
-- Sets resolved into one index of qualified keys and one pool.
pub mod Index
pub mod Ids
use summoners.Prelude.{ℕ, Option, none, some, List, [], ◌∷◌, ◌++◌, Result, ok, err, ◌>>=◌, ◌>>◌}
use summoners.Domain.Entity.{Entity}
use summoners.Domain.EntityId.{EntityId}
use summoners.Domain.CardSet
use summoners.Domain.CardSet.{CardSet}
use summoners.Authored.Keys.{Name, Text, find, insert}

-- A parsed Set, its two maps in the order of their keys.
pub record LoadedSet : Type 0 where
  pub id : EntityId
  pub code : Text
  pub revision : ℕ
  pub name : Name
  pub cards : CardSet
  pub card_ids : List (Text × EntityId)
  pub ability_ids : List ((Text × Text) × EntityId)

pub data LibraryError : Type 0 where
  duplicate_qualified_key : Text → Text → Text → LibraryError
  duplicate_id : EntityId → Text → Text → LibraryError

pub record SetRecord : Type 0 where
  pub revision : ℕ

pub record CardLibrary : Type 0 where
  pub sets : List (Text × SetRecord)
  pub cards : List (Text × EntityId)
  pub core_cards : CardSet

-- `format!("{}/{card}", set.code)`.
abbrev pub qualified_key : Text → Text → Text
qualified_key code card = code ++ b'/' ∷ card

-- The two maps that `qualified_cards` fills.
pub record Qualified : Type 0 where
  pub cards : List (Text × EntityId)
  pub owners : List (Text × Text)

-- `if let Some(first_set) = owners.insert(…)`.
abbrev pub require_unowned : Text → Text → Option Text → Result (Unit {0}) LibraryError
require_unowned key code none = ok tt
require_unowned key code (some first_set) =
    err (LibraryError.duplicate_qualified_key key first_set code)

unfoldable pub qualify_card : Text → Qualified → Text → EntityId → Result Qualified LibraryError
qualify_card code maps card id = do
  require_unowned (qualified_key code card) code (find (qualified_key code card) maps.owners)
  ok (record {
    cards = insert (qualified_key code card) id maps.cards;
    owners = insert (qualified_key code card) code maps.owners;
  })

unfoldable pub qualify_set :
    Text → Qualified → List (Text × EntityId) → Result Qualified LibraryError
unfolding qualify_card
qualify_set code maps [] = ok maps
qualify_set code maps (entry ∷ entries) = do
  next ← qualify_card code maps entry.0 entry.1
  qualify_set code next entries

unfoldable pub qualify_sets : Qualified → List LoadedSet → Result Qualified LibraryError
unfolding qualify_set
qualify_sets maps [] = ok maps
qualify_sets maps (set ∷ sets) = do
  next ← qualify_set set.code maps set.card_ids
  qualify_sets next sets

unfoldable pub qualified_cards : List LoadedSet → Result (List (Text × EntityId)) LibraryError
unfolding qualify_sets
qualified_cards sets = do
  maps ← qualify_sets (record { cards = []; owners = [] }) sets
  ok maps.cards

-- `HashMap<EntityId, String>`, with the bytes of an id for its key.
abbrev pub ClaimedIds : Type 0
ClaimedIds = List (Text × Text)

-- `if let Some(first_key) = ids.insert(…)`.
abbrev pub require_unclaimed : EntityId → Text → Option Text → Result (Unit {0}) LibraryError
require_unclaimed id key none = ok tt
require_unclaimed id key (some first_key) = err (LibraryError.duplicate_id id first_key key)

unfoldable pub insert_unique_id : ClaimedIds → EntityId → Text → Result ClaimedIds LibraryError
insert_unique_id ids id key = do
  require_unclaimed id key (find id.bytes ids)
  ok (insert id.bytes key ids)

unfoldable pub claim_cards :
    Text → ClaimedIds → List (Text × EntityId) → Result ClaimedIds LibraryError
unfolding insert_unique_id
claim_cards code ids [] = ok ids
claim_cards code ids (entry ∷ entries) = do
  next ← insert_unique_id ids entry.1 (qualified_key code entry.0)
  claim_cards code next entries

unfoldable pub claim_abilities :
    Text → ClaimedIds → List ((Text × Text) × EntityId) → Result ClaimedIds LibraryError
unfolding insert_unique_id
claim_abilities code ids [] = ok ids
claim_abilities code ids (((card, ability), id) ∷ entries) = do
  next ← insert_unique_id ids id (qualified_key code card ++ b'#' ∷ ability)
  claim_abilities code next entries

unfoldable pub claim_sets : ClaimedIds → List LoadedSet → Result ClaimedIds LibraryError
unfolding insert_unique_id claim_cards claim_abilities
claim_sets ids [] = ok ids
claim_sets ids (set ∷ sets) = do
  named ← insert_unique_id ids set.id (b's' ∷ b'e' ∷ b't' ∷ b':' ∷ set.code)
  carded ← claim_cards set.code named set.card_ids
  claimed ← claim_abilities set.code carded set.ability_ids
  claim_sets claimed sets

unfoldable pub reject_duplicate_ids : List LoadedSet → Result (Unit {0}) LibraryError
unfolding claim_sets
reject_duplicate_ids sets = do _ ← claim_sets [] sets; ok tt

-- `collect()` into the map of Set records.
unfoldable pub collect_records : List (Text × SetRecord) → List LoadedSet → List (Text × SetRecord)
collect_records records [] = records
collect_records records (set ∷ sets) =
    collect_records (insert set.code (record { revision = set.revision }) records) sets

unfoldable pub all_entities : List LoadedSet → List Entity
all_entities [] = []
all_entities (set ∷ sets) = set.cards.entities ++ all_entities sets

unfoldable pub from_sets : List LoadedSet → Result CardLibrary LibraryError
unfolding qualified_cards reject_duplicate_ids collect_records all_entities
from_sets sets = do
  cards ← qualified_cards sets
  reject_duplicate_ids sets
  ok (record {
    sets = collect_records [] sets;
    cards = cards;
    core_cards = CardSet.new (all_entities sets);
  })

unfoldable pub set_revision : CardLibrary → Text → Option ℕ
set_revision library set = elim (find set library.sets) [
  | none ↦ none
  | some found ↦ some found.revision
]

unfoldable pub card_id : CardLibrary → Text → Option EntityId
card_id library key = find key library.cards
