-- ===== src/Authored/SetAbilities.antt =====
-- crates/cards/src/v1/model.rs: the rules on keys, on fields and on abilities.
pub mod Sound
pub mod Keys
use summoners.Prelude.{
  ℕ, suc, Bool, true, false, not, ◌&&◌, ◌||◌, Option, none, some, List, [], ◌∷◌, ◌+◌, ◌==◌, any,
  Result, ok, err, ◌>>=◌, ◌>>◌, guard, ok_or, String, if◌then◌else◌, is_empty, is_none, sum_by,
}
use summoners.Authored.Keys.{Text, find, insert, stable_key_syntax}
use summoners.Authored.Deck.{is_blank}
use summoners.Authored.DeckError.{LoadPhase}
use summoners.Authored.SetDto
use summoners.Authored.SetDto.{Form, ManaType, Persistence, SpellTiming}
use summoners.Authored.SetModel
use summoners.Authored.SetModel.{
  Ability, AbilityKind, Card, CardKind, EffectContext, Set, StableCode,
}
use summoners.Authored.SetError.{
  SemanticRule, SetLoadCause, SetLoadError, SetPath, StableKeyKind, rule_error, semantic_error,
}
use summoners.Authored.SetEffects.{
  parse_effects, parse_modifier, parse_modifiers, require_new_value, require_positive,
}

-- `StableCode::parse`.
unfoldable pub parse_code : Text → StableKeyKind → SetPath → Result StableCode SetLoadError
parse_code value kind path = do
  guard (stable_key_syntax value) (semantic_error path (SetLoadCause.invalid_stable_key kind value))
  ok (record { text = value })

abbrev pub require_new_key :
    StableKeyKind → Text → SetPath → Option SetPath → Result (Unit {0}) SetLoadError
require_new_key kind value path none = ok tt
require_new_key kind value path (some first_path) =
    err (semantic_error path (SetLoadCause.duplicate_stable_key kind value first_path))

-- The keys seen so far, each with its path.
abbrev pub SeenKeys : Type 0
SeenKeys = List (Text × SetPath)

unfoldable pub reject_duplicate :
    SeenKeys → Text → SetPath → StableKeyKind → Result SeenKeys SetLoadError
reject_duplicate seen value path kind = do
  require_new_key kind value path (find value seen)
  ok (insert value path seen)

abbrev pub required {ℓ} : {A : Type ℓ} → Option A → SetPath → String → Result A SetLoadError
required value path field =
    ok_or value
      (semantic_error (SetPath.dot path field) (SetLoadCause.missing_required_field field))

abbrev pub forbid_option {ℓ} :
    {A : Type ℓ} → Option A → SetPath → String → Result (Unit {0}) SetLoadError
forbid_option value path field =
    guard (is_none value)
      (semantic_error (SetPath.dot path field) (SetLoadCause.forbidden_field field))

abbrev pub forbid_list {ℓ} :
    {A : Type ℓ} → List A → SetPath → String → Result (Unit {0}) SetLoadError
forbid_list value path field =
    guard (is_empty value)
      (semantic_error (SetPath.dot path field) (SetLoadCause.forbidden_field field))

-- The arms of the `match` in `parse_ability`; the Attack and the Skill share theirs.
unfoldable pub parse_active :
    (List SetDto.ManaSymbol → List SetModel.Effect → AbilityKind)
    → EffectContext
    → SetDto.Ability
    → SetPath
    → Result AbilityKind SetLoadError
parse_active make context raw path = do
  forbid_option raw.event path "event"
  forbid_option raw.response path "response"
  forbid_option raw.modifier path "modifier"
  cost ← required raw.cost path "cost"
  effects ← parse_effects raw.effects context (SetPath.dot path "effects")
  ok (make cost effects)

unfoldable pub parse_passive : SetDto.Ability → SetPath → Result AbilityKind SetLoadError
parse_passive raw path = do
  forbid_option raw.cost path "cost"
  forbid_option raw.event path "event"
  forbid_option raw.response path "response"
  forbid_list raw.effects path "effects"
  modifier ← required raw.modifier path "modifier"
  parse_modifier modifier (SetPath.dot path "modifier")
  ok (AbilityKind.passive modifier)

unfoldable pub parse_trigger : SetDto.Ability → SetPath → Result AbilityKind SetLoadError
parse_trigger raw path = do
  forbid_option raw.cost path "cost"
  forbid_option raw.modifier path "modifier"
  event ← required raw.event path "event"
  response ← required raw.response path "response"
  effects ← parse_effects raw.effects EffectContext.trigger (SetPath.dot path "effects")
  ok (AbilityKind.trigger event response effects)

unfoldable pub parse_ability_kind :
    SetDto.AbilityKind → SetDto.Ability → SetPath → Result AbilityKind SetLoadError
unfolding parse_active parse_passive parse_trigger
parse_ability_kind SetDto.AbilityKind.attack raw path =
    parse_active AbilityKind.attack EffectContext.attack raw path
parse_ability_kind SetDto.AbilityKind.skill raw path =
    parse_active AbilityKind.skill EffectContext.skill raw path
parse_ability_kind SetDto.AbilityKind.passive raw path = parse_passive raw path
parse_ability_kind SetDto.AbilityKind.trigger raw path = parse_trigger raw path

unfoldable pub parse_ability : SetDto.Ability → StableCode → SetPath → Result Ability SetLoadError
unfolding parse_ability_kind
parse_ability raw code path = do
  parsed ← parse_ability_kind raw.kind raw path
  ok (record { code = code; name = raw.name; text = raw.text; kind = parsed })

-- The loop of `parse_abilities`.
unfoldable pub parse_each_ability :
    SeenKeys → ℕ → List SetDto.Ability → SetPath → Result (List Ability) SetLoadError
unfolding parse_code reject_duplicate parse_ability
parse_each_ability seen index [] card_path = ok []
parse_each_ability seen index (raw ∷ rest) card_path = do
  let path = SetPath.at (SetPath.dot card_path "abilities") index
  code ← parse_code raw.code StableKeyKind.ability (SetPath.dot path "code")
  next ← reject_duplicate seen code.text (SetPath.dot path "code") StableKeyKind.ability
  ability ← parse_ability raw code path
  parsed ← parse_each_ability next (suc index) rest card_path
  ok (ability ∷ parsed)

unfoldable pub parse_abilities : List SetDto.Ability → SetPath → Result (List Ability) SetLoadError
unfolding parse_each_ability
parse_abilities raw card_path = do
  guard (not (is_empty raw))
      (rule_error (SetPath.dot card_path "abilities") SemanticRule.summon_requires_one_attack)
  parse_each_ability [] 0 raw card_path

-- `filter(|ability| matches!(…)).count()`.
abbrev pub is_attack : Ability → ℕ
is_attack ability = elim ability.kind [
  | AbilityKind.attack _ _ ↦ 1
  | AbilityKind.skill _ _ ↦ 0
  | AbilityKind.passive _ ↦ 0
  | AbilityKind.trigger _ _ _ ↦ 0
]
