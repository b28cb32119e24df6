-- ===== src/Authored/Deck.antt =====
-- crates/cards/src/deck.rs: a decoded Deck document resolved against a card library.
pub mod Parts
pub mod Body
pub mod Requires
pub mod Accepts
pub mod Legal
pub mod Complete
use summoners.Prelude.{
  ℕ, zero, suc, ◌+◌, Bool, true, false, not, ◌&&◌, ◌||◌, Option, none, some, List, [], ◌∷◌, ◌++◌,
  ◌==◌, leb, ltb, all, any, length, is_some, is_empty, if◌then◌else◌, Result, ok, err, ◌>>=◌, ◌>>◌,
  guard, ok_or,
}
use summoners.Prelude.Words.{saturating_add, u32_max}
use summoners.Domain.EntityId.{EntityId, bytes_eq}
use summoners.Domain.Cards.{Form, form_is_base}
use summoners.Domain.Entity
use summoners.Domain.Field
use summoners.Domain.CardSet
use summoners.Authored.DeckError.{
  DeckLoadCause, DeckLoadError, DeckPath, DeckStableKeyKind, LoadPhase,
}
use summoners.Authored.Keys.{Name, Text, contains_key, find, insert, split_slash, stable_key_syntax}
use summoners.Authored.Library.{CardLibrary, card_id, set_revision}

abbrev pub body_size : ℕ
body_size = 20

abbrev pub copy_limit : ℕ
copy_limit = 2

abbrev pub semantic_error : DeckPath → DeckLoadCause → DeckLoadError
semantic_error path cause = record {
  phase = LoadPhase.semantics;
  schema_version = some 1;
  path = path;
  cause = cause;
}

pub record Deck : Type 0 where
  pub id : Text
  pub name : Name
  pub starter : EntityId
  pub body : List EntityId

pub record SetRequirementDto : Type 0 where
  pub set : Text
  pub revision : ℕ

pub record CardQuantityDto : Type 0 where
  pub card : Text
  pub quantity : ℕ

-- A decoded Deck document.
pub record DeckDto : Type 0 where
  pub schema_version : ℕ
  pub id : Text
  pub name : Name
  pub starter : Text
  pub requires : List SetRequirementDto
  pub cards : List CardQuantityDto

pub record QualifiedCard : Type 0 where
  pub key : Text
  pub set : Text

-- `char::is_whitespace`, and `str::trim().is_empty()` by it.
abbrev pub is_whitespace : ℕ → Bool
is_whitespace c =
    leb 9 c && leb c 13
    || c == 32
    || c == 133
    || c == 160
    || c == 5760
    || leb 8192 c && leb c 8202
    || c == 8232
    || c == 8233
    || c == 8239
    || c == 8287
    || c == 12288

abbrev pub is_blank : Name → Bool
is_blank text = all is_whitespace text

unfoldable pub require_stable_key :
    Text → DeckStableKeyKind → DeckPath → Result (Unit {0}) DeckLoadError
require_stable_key value kind path =
    guard (stable_key_syntax value)
      (semantic_error path (DeckLoadCause.invalid_stable_key kind value))

abbrev pub invalid_qualified : Text → DeckPath → DeckLoadError
invalid_qualified value path =
    semantic_error path (DeckLoadCause.invalid_stable_key DeckStableKeyKind.qualified_card value)

-- Exactly two parts, both of them keys.
unfoldable pub parse_parts : Text → DeckPath → Text → List Text → Result QualifiedCard DeckLoadError
parse_parts value path set [] = err (invalid_qualified value path)
parse_parts value path set (card ∷ rest) = do
  guard (not (not (is_empty rest) || not (stable_key_syntax set) || not (stable_key_syntax card)))
      (invalid_qualified value path)
  ok (record { key = value; set = set })

unfoldable pub parse_qualified : Text → DeckPath → Result QualifiedCard DeckLoadError
unfolding parse_parts
parse_qualified value path =
    let (set, parts) = split_slash value in parse_parts value path set parts

unfoldable pub require_bound :
    QualifiedCard → List (Text × ℕ) → DeckPath → Result (Unit {0}) DeckLoadError
require_bound card requirements path =
    guard (contains_key card.set requirements)
      (semantic_error path (DeckLoadCause.missing_set_requirement card.set))

unfoldable pub resolve_card : CardLibrary → QualifiedCard → DeckPath → Result EntityId DeckLoadError
resolve_card library card path =
    ok_or (card_id library card.key) (semantic_error path (DeckLoadCause.unresolved_card card.key))

abbrev pub prints_base : Option Form → Bool
prints_base none = false
prints_base (some form) = form_is_base form

-- `core_cards().get(id).and_then(…)`.
unfoldable pub form_in_library : CardLibrary → EntityId → Option Form
form_in_library library id = elim (CardSet.get library.core_cards id) [
  | none ↦ none
  | some found ↦ Entity.get Field.form found
]

unfoldable pub require_base_starter :
    CardLibrary → EntityId → Text → Result (Unit {0}) DeckLoadError
unfolding form_in_library
require_base_starter library id key =
    guard (prints_base (form_in_library library id))
      (semantic_error DeckPath.starter (DeckLoadCause.starter_must_be_base key))

-- The two maps that `resolve_requirements` fills.
pub record Requirements : Type 0 where
  pub requirements : List (Text × ℕ)
  pub paths : List (Text × DeckPath)

-- `if let Some(first_path) = paths.insert(…)`.
abbrev pub require_first : Text → ℕ → Option DeckPath → Result (Unit {0}) DeckLoadError
require_first set index none = ok tt
require_first set index (some first_path) = err (
    semantic_error (DeckPath.requires_set index)
      (DeckLoadCause.duplicate_set_requirement set first_path))

unfoldable pub resolve_requirement :
    CardLibrary → ℕ → Requirements → SetRequirementDto → Result Requirements DeckLoadError
unfolding require_stable_key
resolve_requirement library index maps required = do
  require_stable_key required.set DeckStableKeyKind.set (DeckPath.requires_set index)
  require_first required.set index (find required.set maps.paths)
  available ← ok_or (set_revision library required.set) (
      semantic_error (DeckPath.requires_set index)
        (DeckLoadCause.required_set_unavailable required.set))
  guard (available == required.revision) (
      semantic_error (DeckPath.requires_revision index)
        (DeckLoadCause.set_revision_mismatch required.set required.revision available))
  ok (record {
    requirements = insert required.set required.revision maps.requirements;
    paths = insert required.set (DeckPath.requires index) maps.paths;
  })

-- The loop of `resolve_requirements`, from the `index`-th requirement on.
unfoldable pub resolve_requirements :
    CardLibrary → ℕ → Requirements → List SetRequirementDto → Result Requirements DeckLoadError
unfolding resolve_requirement
resolve_requirements library index maps [] = ok maps
resolve_requirements library index maps (required ∷ rest) = do
  next ← resolve_requirement library index maps required
  resolve_requirements library (suc index) next rest

abbrev pub or_default : Option ℕ → ℕ
or_default none = 0
or_default (some n) = n

-- `iter::repeat_n`.
unfoldable pub repeat_n {ℓ} : {A : Type ℓ} → A → ℕ → List A
repeat_n x zero = []
repeat_n x (suc n) = x ∷ repeat_n x n

-- The body and the copies counted so far.
pub record BodyState : Type 0 where
  pub body : List EntityId
  pub copies : List (Text × ℕ)

unfoldable pub resolve_item :
    CardLibrary
    → List (Text × ℕ)
    → Text
    → ℕ
    → BodyState
    → CardQuantityDto
    → Result BodyState DeckLoadError
unfolding parse_qualified require_bound resolve_card repeat_n
resolve_item library requirements starter_key index so_far item = do
  card ← parse_qualified item.card (DeckPath.cards_card index)
  require_bound card requirements (DeckPath.cards_card index)
  guard (not (item.quantity == 0))
      (semantic_error (DeckPath.cards_quantity index) DeckLoadCause.quantity_must_be_positive)
  guard (not (bytes_eq card.key starter_key))
      (semantic_error (DeckPath.cards_card index) (DeckLoadCause.starter_in_body card.key))
  found ← resolve_card library card (DeckPath.cards_card index)
  let count = saturating_add (or_default (find card.key so_far.copies)) item.quantity
  guard (not (ltb copy_limit count)) (
      semantic_error (DeckPath.cards_quantity index)
        (DeckLoadCause.copy_limit_exceeded card.key count copy_limit))
  ok (record {
    body = so_far.body ++ repeat_n found item.quantity;
    copies = insert card.key count so_far.copies;
  })

unfoldable pub resolve_items :
    CardLibrary
    → List (Text × ℕ)
    → Text
    → ℕ
    → BodyState
    → List CardQuantityDto
    → Result BodyState DeckLoadError
unfolding resolve_item
resolve_items library requirements starter_key index so_far [] = ok so_far
resolve_items library requirements starter_key index so_far (item ∷ items) = do
  next ← resolve_item library requirements starter_key index so_far item
  resolve_items library requirements starter_key (suc index) next items

unfoldable pub resolve_body :
    List CardQuantityDto
    → CardLibrary
    → List (Text × ℕ)
    → Text
    → Result (List EntityId) DeckLoadError
unfolding resolve_items
resolve_body raw library requirements starter_key = do
  done ← resolve_items library requirements starter_key 0 (record { body = []; copies = [] }) raw
  let found = if ltb u32_max (length done.body) then u32_max else length done.body
  guard (length done.body == body_size)
      (semantic_error DeckPath.cards (DeckLoadCause.body_card_count body_size found))
  ok done.body

unfoldable pub resolve : DeckDto → CardLibrary → Result Deck DeckLoadError
unfolding resolve_requirements resolve_body require_base_starter
resolve raw library = do
  guard (raw.schema_version == 1) (record {
    phase = LoadPhase.version;
    schema_version = some raw.schema_version;
    path = DeckPath.schema_version;
    cause = DeckLoadCause.unsupported_schema_version raw.schema_version;
  })
  require_stable_key raw.id DeckStableKeyKind.deck DeckPath.id
  guard (not (is_blank raw.name))
      (semantic_error DeckPath.name DeckLoadCause.name_must_not_be_empty)
  maps ← resolve_requirements library 0 (record { requirements = []; paths = [] }) raw.requires
  starter_ref ← parse_qualified raw.starter DeckPath.starter
  require_bound starter_ref maps.requirements DeckPath.starter
  starter_id ← resolve_card library starter_ref DeckPath.starter
  require_base_starter library starter_id starter_ref.key
  cards ← resolve_body raw.cards library maps.requirements starter_ref.key
  ok (record { id = raw.id; name = raw.name; starter = starter_id; body = cards })
