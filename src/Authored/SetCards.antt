-- ===== src/Authored/SetCards.antt =====
-- crates/cards/src/v1/model.rs: the rules on cards and on the whole Set.
pub mod Sound
pub mod Valid
use summoners.Prelude.{
  ℕ, suc, Bool, true, false, not, ◌&&◌, ◌||◌, Option, none, some, List, [], ◌∷◌, ◌+◌, ◌==◌, any,
  Result, ok, err, ◌>>=◌, ◌>>◌, guard, ok_or, String, if◌then◌else◌, is_empty, is_none, sum_by,
}
use summoners.Authored.Keys.{Name, Text, find, insert, stable_key_syntax}
use summoners.Authored.Deck.{is_blank}
use summoners.Authored.DeckError.{LoadPhase}
use summoners.Authored.SetDto
use summoners.Authored.SetDto.{Form, ManaType, Persistence, SpellTiming}
use summoners.Authored.SetModel
use summoners.Authored.SetModel.{
  Ability, AbilityKind, Card, CardKind, EffectContext, Set, StableCode,
}
use summoners.Authored.SetError.{
  SemanticRule, SetLoadCause, SetLoadError, SetPath, StableKeyKind, rule_error, semantic_error,
}
use summoners.Authored.SetAbilities.{
  SeenKeys, forbid_list, forbid_option, is_attack, parse_abilities, parse_code, reject_duplicate,
  required,
}
use summoners.Authored.SetEffects.{
  parse_effects, parse_modifier, parse_modifiers, require_new_value, require_positive,
}

unfoldable pub forbid_summon_fields : SetDto.Card → SetPath → Result (Unit {0}) SetLoadError
forbid_summon_fields raw path = do
  forbid_option raw.form path "form"
  forbid_option raw.life path "life"
  forbid_option raw.types path "types"
  forbid_option raw.retreat path "retreat"

unfoldable pub require_name : Name → SetPath → Result (Unit {0}) SetLoadError
require_name value path =
    guard (not (is_blank value)) (rule_error path SemanticRule.name_must_not_be_empty)

abbrev pub mana_eq : ManaType → ManaType → Bool
mana_eq ManaType.matter ManaType.matter = true
mana_eq ManaType.mind ManaType.mind = true
mana_eq ManaType.spirit ManaType.spirit = true
mana_eq _ _ = false

abbrev pub mana_name : ManaType → String
mana_name ManaType.matter = "Matter"
mana_name ManaType.mind = "Mind"
mana_name ManaType.spirit = "Spirit"

-- The loop of `parse_mana_types`; the names of the Mana Types are told apart as the types are.
unfoldable pub check_mana_types :
    List ManaType → ℕ → List ManaType → SetPath → Result (Unit {0}) SetLoadError
check_mana_types seen index [] path = ok tt
check_mana_types seen index (mana ∷ rest) path = do
  guard (not (any (mana_eq mana) seen))
      (semantic_error (SetPath.at path index) (SetLoadCause.duplicate_value (mana_name mana) path))
  check_mana_types (mana ∷ seen) (suc index) rest path

unfoldable pub parse_mana_types : List ManaType → SetPath → Result (List ManaType) SetLoadError
unfolding check_mana_types
parse_mana_types raw path = do
  guard (not (is_empty raw)) (rule_error path SemanticRule.summon_requires_statistics)
  check_mana_types [] 0 raw path
  ok raw

unfoldable pub parse_summon : SetDto.Card → SetPath → Result CardKind SetLoadError
unfolding parse_mana_types parse_abilities
parse_summon raw path = do
  forbid_option raw.timing path "timing"
  forbid_option raw.persistence path "persistence"
  forbid_option raw.cost path "cost"
  forbid_list raw.effects path "effects"
  forbid_list raw.modifiers path "modifiers"
  form ← required raw.form path "form"
  life ← required raw.life path "life"
  require_positive life (SetPath.dot path "life") SemanticRule.summon_requires_statistics
  listed ← required raw.types path "types"
  types ← parse_mana_types listed (SetPath.dot path "types")
  retreat ← required raw.retreat path "retreat"
  abilities ← parse_abilities raw.abilities path
  guard (sum_by is_attack abilities == 1)
      (rule_error (SetPath.dot path "abilities") SemanticRule.summon_requires_one_attack)
  ok (CardKind.summon form life types retreat abilities)

abbrev pub is_discard : Persistence → Bool
is_discard Persistence.discard = true
is_discard Persistence.persistent = false

abbrev pub is_support : SpellTiming → Bool
is_support SpellTiming.support = true
is_support SpellTiming.attack = false

abbrev pub spell_context : SpellTiming → EffectContext
spell_context SpellTiming.attack = EffectContext.attack_spell
spell_context SpellTiming.support = EffectContext.support_spell

unfoldable pub parse_spell : SetDto.Card → SetPath → Result CardKind SetLoadError
unfolding forbid_summon_fields
parse_spell raw path = do
  forbid_summon_fields raw path
  forbid_list raw.abilities path "abilities"
  forbid_list raw.modifiers path "modifiers"
  timing ← required raw.timing path "timing"
  persistence ← required raw.persistence path "persistence"
  guard (is_discard persistence)
      (rule_error (SetPath.dot path "persistence") SemanticRule.spell_shape)
  cost ← required raw.cost path "cost"
  effects ← parse_effects raw.effects (spell_context timing) (SetPath.dot path "effects")
  ok (CardKind.spell timing cost effects)

unfoldable pub parse_enchantment : SetDto.Card → SetPath → Result CardKind SetLoadError
unfolding forbid_summon_fields
parse_enchantment raw path = do
  forbid_summon_fields raw path
  forbid_list raw.abilities path "abilities"
  timing ← required raw.timing path "timing"
  persistence ← required raw.persistence path "persistence"
  guard (not (not (is_support timing) || is_discard persistence))
      (rule_error path SemanticRule.enchantment_shape)
  cost ← required raw.cost path "cost"
  effects ← parse_effects raw.effects EffectContext.enchantment (SetPath.dot path "effects")
  modifiers ← parse_modifiers 0 raw.modifiers (SetPath.dot path "modifiers")
  ok (CardKind.enchantment cost effects modifiers)

unfoldable pub parse_card_kind :
    SetDto.CardKind → SetDto.Card → SetPath → Result CardKind SetLoadError
unfolding parse_summon parse_spell parse_enchantment
parse_card_kind SetDto.CardKind.summon raw path = parse_summon raw path
parse_card_kind SetDto.CardKind.spell raw path = parse_spell raw path
parse_card_kind SetDto.CardKind.enchantment raw path = parse_enchantment raw path

unfoldable pub parse_card : SetDto.Card → StableCode → SetPath → Result Card SetLoadError
unfolding require_name parse_card_kind
parse_card raw code path = do
  require_name raw.name (SetPath.dot path "name")
  kind ← parse_card_kind raw.kind raw path
  ok (record { code = code; name = raw.name; text = raw.text; kind = kind })

-- The loop of `parse` over the cards.
unfoldable pub parse_each_card : SeenKeys → ℕ → List SetDto.Card → Result (List Card) SetLoadError
unfolding parse_code reject_duplicate parse_card
parse_each_card seen index [] = ok []
parse_each_card seen index (raw ∷ rest) = do
  let path = SetPath.at (SetPath.top "cards") index
  code ← parse_code raw.code StableKeyKind.card (SetPath.dot path "code")
  next ← reject_duplicate seen code.text (SetPath.dot path "code") StableKeyKind.card
  card ← parse_card raw code path
  parsed ← parse_each_card next (suc index) rest
  ok (card ∷ parsed)

unfoldable pub parse : SetDto.Set → Result Set SetLoadError
unfolding parse_code require_name parse_each_card
parse decoded = do
  guard (decoded.schema_version == 1) (record {
    phase = LoadPhase.version;
    schema_version = some decoded.schema_version;
    path = SetPath.top "schema_version";
    cause = SetLoadCause.unsupported_schema_version decoded.schema_version;
  })
  code ← parse_code decoded.id StableKeyKind.set (SetPath.top "id")
  require_positive decoded.revision (SetPath.top "revision") SemanticRule.revision_must_be_positive
  require_name decoded.name (SetPath.top "name")
  guard (not (is_empty decoded.cards))
      (rule_error (SetPath.top "cards") SemanticRule.set_must_contain_cards)
  parsed ← parse_each_card [] 0 decoded.cards
  ok (record { code = code; revision = decoded.revision; name = decoded.name; cards = parsed })
