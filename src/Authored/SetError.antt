-- ===== src/Authored/SetError.antt =====
-- The errors of a Set document: crates/cards/src/error.rs and `SetLoadError` as the semantic rules of
-- crates/cards/src/v1/model.rs make it. A path is kept in the parts that the source formats it from;
-- `document` is always `DocumentKind::Set`. The causes of the decoding and identity phases, which no
-- code modelled here makes, are left out.
use summoners.Prelude.{ℕ, Option, some, String}
use summoners.Authored.Keys.{Text}
use summoners.Authored.DeckError.{LoadPhase}

pub data StableKeyKind : Type 0 where
  set card ability : StableKeyKind

pub data SemanticRule : Type 0 where
  set_must_contain_cards revision_must_be_positive name_must_not_be_empty : SemanticRule
  summon_requires_statistics non_summon_forbids_statistics summon_requires_one_attack : SemanticRule
  mana_types_must_be_unique ability_shape spell_shape enchantment_shape : SemanticRule
  effect_target effect_combination amount_must_be_positive modifier_amount_out_of_range :
      SemanticRule

-- A field of the document, `{path}.{field}` and `{path}[{index}]`.
pub data SetPath : Type 0 where
  top : String → SetPath
  dot : SetPath → String → SetPath
  at : SetPath → ℕ → SetPath

pub data SetLoadCause : Type 0 where
  unsupported_schema_version : ℕ → SetLoadCause
  invalid_stable_key : StableKeyKind → Text → SetLoadCause
  duplicate_stable_key : StableKeyKind → Text → SetPath → SetLoadCause
  missing_required_field forbidden_field : String → SetLoadCause
  duplicate_value : String → SetPath → SetLoadCause
  invalid_semantics : SemanticRule → SetLoadCause

pub record SetLoadError : Type 0 where
  pub phase : LoadPhase
  pub schema_version : Option ℕ
  pub path : SetPath
  pub cause : SetLoadCause

abbrev pub semantic_error : SetPath → SetLoadCause → SetLoadError
semantic_error path cause = record {
  phase = LoadPhase.semantics;
  schema_version = some 1;
  path = path;
  cause = cause;
}

abbrev pub rule_error : SetPath → SemanticRule → SetLoadError
rule_error path rule = semantic_error path (SetLoadCause.invalid_semantics rule)
