-- ===== src/Authored/DeckError.antt =====
-- The errors of crates/cards/src/deck.rs. The paths are values with one constructor for each text
-- that the source formats; `document` is always `DocumentKind::Deck`. The five causes of the decoding
-- phases, which no code modelled here makes, are left out, and so the versions are natural numbers.
use summoners.Prelude.{ℕ, Option}
use summoners.Authored.Keys.{Text}

pub data DeckStableKeyKind : Type 0 where
  deck set card qualified_card : DeckStableKeyKind

-- "$", the names of the fields, `requires[i]` and its fields, and the fields of `cards[i]`.
pub data DeckPath : Type 0 where
  root schema_version id name starter cards : DeckPath
  requires requires_set requires_revision : ℕ → DeckPath
  cards_card cards_quantity : ℕ → DeckPath

pub data DeckLoadCause : Type 0 where
  unsupported_schema_version : ℕ → DeckLoadCause
  invalid_stable_key : DeckStableKeyKind → Text → DeckLoadCause
  name_must_not_be_empty : DeckLoadCause
  duplicate_set_requirement : Text → DeckPath → DeckLoadCause
  required_set_unavailable : Text → DeckLoadCause
  set_revision_mismatch : Text → ℕ → ℕ → DeckLoadCause
  missing_set_requirement unresolved_card starter_must_be_base starter_in_body :
      Text → DeckLoadCause
  quantity_must_be_positive : DeckLoadCause
  copy_limit_exceeded : Text → ℕ → ℕ → DeckLoadCause
  body_card_count : ℕ → ℕ → DeckLoadCause

pub data LoadPhase : Type 0 where
  utf8 version decode semantics identity conversion : LoadPhase

pub record DeckLoadError : Type 0 where
  pub phase : LoadPhase
  pub schema_version : Option ℕ
  pub path : DeckPath
  pub cause : DeckLoadCause
