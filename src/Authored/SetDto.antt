-- ===== src/Authored/SetDto.antt =====
-- crates/cards/src/v1/dto.rs: a decoded Set document. The enums with one constructor are kept.
use summoners.Prelude.{ℕ, Option, List}
use summoners.Authored.Keys.{Name, Text}

pub data CardKind : Type 0 where
  summon spell enchantment : CardKind

pub data Form : Type 0 where
  base enhanced elite : Form

pub data ManaType : Type 0 where
  matter mind spirit : ManaType

pub data ManaSymbol : Type 0 where
  matter mind spirit generic : ManaSymbol

pub data SpellTiming : Type 0 where
  support attack : SpellTiming

pub data Persistence : Type 0 where
  discard persistent : Persistence

pub data AbilityKind : Type 0 where
  attack skill passive trigger : AbilityKind

pub data TriggerEvent : Type 0 where
  your_upkeep enters_main enters_bench leaves_main leaves_bench any_summon_destroyed : TriggerEvent

pub data ResponseMode : Type 0 where
  immediate respondable : ResponseMode

pub data DamageConstraint : Type 0 where
  unincreasable unpreventable : DamageConstraint

pub data Target : Type 0 where
  defending_main selected_opposing_position source selected_own_summon : Target
  selected_own_benched_summon own_main_with_selected_bench : Target
  opposing_main_with_selected_bench : Target

pub data Destination : Type 0 where
  empty_own_bench : Destination

pub data Duration : Type 0 where
  until_your_next_turn : Duration

pub data ResponseBlock : Type 0 where
  attack_spells : ResponseBlock

pub data RelativePlayer : Type 0 where
  controller : RelativePlayer

pub data Condition : Type 0 where
  defender_entered_main_this_turn spell_played_this_turn : RelativePlayer → Condition

pub data Modifier : Type 0 where
  opposing_retreat_cost incoming_attack_damage_reduction : ℕ → Modifier

pub record DamageAddition : Type 0 where
  pub amount : ℕ
  pub condition : Condition

pub data Effect : Type 0 where
  damage : Target → ℕ → List DamageConstraint → List DamageAddition → Effect
  heal : Target → ℕ → Effect
  move_summon : Target → Destination → Effect
  swap_positions : Target → Effect
  block_responses : Condition → ResponseBlock → Effect
  return_spell_from_discard look_at_prizes return_spell_to_deck_top : Effect
  draw_cards : ℕ → Effect
  produce_mana : Target → Effect
  cannot_be_moved_by_opponent : Target → Duration → Effect
  ready_summon : Target → Effect

pub record Ability : Type 0 where
  pub code : Text
  pub name : Name
  pub text : Text
  pub kind : AbilityKind
  pub cost : Option (List ManaSymbol)
  pub event : Option TriggerEvent
  pub response : Option ResponseMode
  pub effects : List Effect
  pub modifier : Option Modifier

pub record Card : Type 0 where
  pub code : Text
  pub name : Name
  pub text : Text
  pub kind : CardKind
  pub form : Option Form
  pub life : Option ℕ
  pub types : Option (List ManaType)
  pub retreat : Option ℕ
  pub timing : Option SpellTiming
  pub persistence : Option Persistence
  pub cost : Option (List ManaSymbol)
  pub abilities : List Ability
  pub effects : List Effect
  pub modifiers : List Modifier

pub record Set : Type 0 where
  pub schema_version : ℕ
  pub id : Text
  pub revision : ℕ
  pub name : Name
  pub cards : List Card
