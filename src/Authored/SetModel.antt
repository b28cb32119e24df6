-- ===== src/Authored/SetModel.antt =====
-- crates/cards/src/v1/model.rs: the types of a parsed Set.
use summoners.Prelude.{ℕ, List}
use summoners.Authored.Keys.{Name, Text}
use summoners.Authored.SetDto.{
  Condition, DamageConstraint, Form, ManaSymbol, ManaType, Modifier, ResponseMode, SpellTiming,
  TriggerEvent,
}

-- `StableCode(String)`.
pub record StableCode : Type 0 where
  pub text : Text

pub data DamageTarget : Type 0 where
  defending_main selected_opposing_position : DamageTarget

pub data OwnTarget : Type 0 where
  source selected : OwnTarget

pub data SwapSide : Type 0 where
  own opposing : SwapSide

pub record DamageAddition : Type 0 where
  pub amount : ℕ
  pub condition : Condition

pub data Effect : Type 0 where
  damage : DamageTarget → ℕ → List DamageConstraint → List DamageAddition → Effect
  heal : OwnTarget → ℕ → Effect
  move_own_benched_to_empty_bench return_spell_from_discard look_at_prizes : Effect
  return_spell_to_deck_top ready_own_summon : Effect
  swap_positions : SwapSide → Effect
  block_attack_spells : Condition → Effect
  draw_cards : ℕ → Effect
  produce_mana protect_from_opposing_movement : OwnTarget → Effect

pub data AbilityKind : Type 0 where
  attack skill : List ManaSymbol → List Effect → AbilityKind
  passive : Modifier → AbilityKind
  trigger : TriggerEvent → ResponseMode → List Effect → AbilityKind

pub record Ability : Type 0 where
  pub code : StableCode
  pub name : Name
  pub text : Text
  pub kind : AbilityKind

pub data CardKind : Type 0 where
  summon : Form → ℕ → List ManaType → ℕ → List Ability → CardKind
  spell : SpellTiming → List ManaSymbol → List Effect → CardKind
  enchantment : List ManaSymbol → List Effect → List Modifier → CardKind

pub record Card : Type 0 where
  pub code : StableCode
  pub name : Name
  pub text : Text
  pub kind : CardKind

pub record Set : Type 0 where
  pub code : StableCode
  pub revision : ℕ
  pub name : Name
  pub cards : List Card

pub data EffectContext : Type 0 where
  attack skill trigger attack_spell support_spell enchantment : EffectContext
