-- ===== src/Examples/Document.antt =====
-- A decoded Set document of one Summon and one Spell, parsed.
use summoners.Prelude.{◌≡◌, refl, Result, none, some, [], ◌∷◌, ok, err}
use summoners.Authored.Keys
use summoners.Authored.SetDto
use summoners.Authored.SetModel
use summoners.Authored.SetError.{SetLoadError}
use summoners.Authored.SetEffects
use summoners.Authored.SetAbilities
use summoners.Authored.SetCards
use summoners.Authored.SetCards.{parse}
use summoners.Authored.SetCards.Valid.{IsValidSet, parse-IsValidSet}

abbrev strike : SetDto.Ability
strike = record {
  code = b's' ∷ b't' ∷ [];
  name = b'S' ∷ [];
  text = [];
  kind = SetDto.AbilityKind.attack;
  cost = some (SetDto.ManaSymbol.generic ∷ []);
  event = none;
  response = none;
  effects =
      SetDto.Effect.damage SetDto.Target.defending_main 30
        (SetDto.DamageConstraint.unincreasable ∷ SetDto.DamageConstraint.unpreventable ∷ []) []
      ∷ [];
  modifier = none;
}

abbrev guard_skill : SetDto.Ability
guard_skill = record strike {
  code = b'g' ∷ [];
  kind = SetDto.AbilityKind.skill;
  effects = SetDto.Effect.heal SetDto.Target.source 10 ∷ SetDto.Effect.look_at_prizes ∷ [];
}

abbrev whelp : SetDto.Card
whelp = record {
  code = b'w' ∷ [];
  name = b'W' ∷ [];
  text = [];
  kind = SetDto.CardKind.summon;
  form = some SetDto.Form.base;
  life = some 60;
  types = some (SetDto.ManaType.matter ∷ SetDto.ManaType.mind ∷ []);
  retreat = some 1;
  timing = none;
  persistence = none;
  cost = none;
  abilities = strike ∷ guard_skill ∷ [];
  effects = [];
  modifiers = [];
}

abbrev gift : SetDto.Card
gift = record {
  code = b'g' ∷ [];
  name = b'G' ∷ [];
  text = [];
  kind = SetDto.CardKind.spell;
  form = none;
  life = none;
  types = none;
  retreat = none;
  timing = some SetDto.SpellTiming.support;
  persistence = some SetDto.Persistence.discard;
  cost = some [];
  abilities = [];
  effects = SetDto.Effect.draw_cards 2 ∷ [];
  modifiers = [];
}

abbrev document : SetDto.Set
document = record {
  schema_version = 1;
  id = b's' ∷ [];
  revision = 1;
  name = b'S' ∷ [];
  cards = whelp ∷ gift ∷ [];
}

abbrev set_of : Result SetModel.Set SetLoadError → SetModel.Set
set_of (ok s) = s
set_of (err _) = record { code = record { text = [] }; revision = 0; name = []; cards = [] }

document_runs : parse document ≡ ok (set_of (parse document))
unfolding Keys.ends_hyphen Keys.has_double_hyphen Keys.stable_key_syntax Keys.split_slash Keys.find
    Keys.insert SetEffects.require_positive SetEffects.reject_source_without_position
    SetEffects.reject_duplicate_constraints SetEffects.parse_additions SetEffects.parse_effect_arm
    SetEffects.parse_effect SetEffects.parse_each_effect SetEffects.parse_effects
    SetEffects.parse_modifier SetEffects.parse_modifiers SetAbilities.parse_code
    SetAbilities.reject_duplicate SetAbilities.parse_active SetAbilities.parse_passive
    SetAbilities.parse_trigger SetAbilities.parse_ability_kind SetAbilities.parse_ability
    SetAbilities.parse_each_ability SetAbilities.parse_abilities SetCards.forbid_summon_fields
    SetCards.require_name SetCards.check_mana_types SetCards.parse_mana_types SetCards.parse_summon
    SetCards.parse_spell SetCards.parse_enchantment SetCards.parse_card_kind SetCards.parse_card
    SetCards.parse_each_card SetCards.parse
document_runs = refl

parse-IsValidSet_example : IsValidSet (set_of (parse document))
parse-IsValidSet_example = parse-IsValidSet document (set_of (parse document)) document_runs
