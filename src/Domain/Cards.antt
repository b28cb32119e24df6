-- ===== src/Domain/Cards.antt =====
-- crates/core/src/domain/cards/mod.rs: the vocabulary that a printed component names.
use Prim.Native.Nat.{bit_and, bit_or}
use summoners.Prelude.{ℕ, Bool, true, false, not, Option, none, some, List, ◌==◌, leb, ltb}
use summoners.Prelude.Int.{ℤ}
use summoners.Domain.Ids.{PlayerId, CardInstanceId, Position}
use summoners.Domain.EntityId.{EntityId}

pub data CardKind : Type 0 where
  summon spell enchantment : CardKind

pub data Form : Type 0 where
  base enhanced elite : Form

-- The derived order of `Form`.
abbrev pub form_rank : Form → ℕ
form_rank Form.base = 0
form_rank Form.enhanced = 1
form_rank Form.elite = 2

abbrev pub form_lt : Form → Form → Bool
form_lt a b = ltb (form_rank a) (form_rank b)

abbrev pub form_le : Form → Form → Bool
form_le a b = leb (form_rank a) (form_rank b)

abbrev pub form_is_base : Form → Bool
form_is_base Form.base = true
form_is_base _ = false

pub data SpellTiming : Type 0 where
  support attack : SpellTiming

pub data TriggerEvent : Type 0 where
  your_upkeep enters_main enters_bench leaves_main leaves_bench any_summon_destroyed : TriggerEvent

abbrev pub trigger_event_eq : TriggerEvent → TriggerEvent → Bool
trigger_event_eq TriggerEvent.your_upkeep TriggerEvent.your_upkeep = true
trigger_event_eq TriggerEvent.enters_main TriggerEvent.enters_main = true
trigger_event_eq TriggerEvent.enters_bench TriggerEvent.enters_bench = true
trigger_event_eq TriggerEvent.leaves_main TriggerEvent.leaves_main = true
trigger_event_eq TriggerEvent.leaves_bench TriggerEvent.leaves_bench = true
trigger_event_eq TriggerEvent.any_summon_destroyed TriggerEvent.any_summon_destroyed = true
trigger_event_eq _ _ = false

pub data EffectCondition : Type 0 where
  defender_entered_main_this_turn spell_played_this_turn : EffectCondition

pub data EffectSource : Type 0 where
  attack : PlayerId → Position → EntityId → EffectSource
  spell : PlayerId → CardInstanceId → EntityId → EffectSource
  skill : PlayerId → Position → EntityId → EffectSource
  trigger : PlayerId → Position → EntityId → EffectSource

abbrev pub source_controller : EffectSource → PlayerId
source_controller (EffectSource.attack controller _ _) = controller
source_controller (EffectSource.spell controller _ _) = controller
source_controller (EffectSource.skill controller _ _) = controller
source_controller (EffectSource.trigger controller _ _) = controller

abbrev pub source_position : EffectSource → Option Position
source_position (EffectSource.attack _ position _) = some position
source_position (EffectSource.spell _ _ _) = none
source_position (EffectSource.skill _ position _) = some position
source_position (EffectSource.trigger _ position _) = some position

pub data EffectTarget : Type 0 where
  selected source : EffectTarget

pub data DamageConstraint : Type 0 where
  unincreasable unpreventable : DamageConstraint

-- `DamageConstraints(u8)`, a set of two bits.
pub record DamageConstraints : Type 0 where
  pub bits : ℕ

abbrev pub mask : DamageConstraint → ℕ
mask DamageConstraint.unincreasable = 1
mask DamageConstraint.unpreventable = 2

abbrev pub no_constraints : DamageConstraints
no_constraints = record { bits = 0 }

unfoldable pub insert : DamageConstraints → DamageConstraint → DamageConstraints
insert s c = record { bits = bit_or s.bits (mask c) }

unfoldable pub contains : DamageConstraints → DamageConstraint → Bool
contains s c = not (bit_and s.bits (mask c) == 0)

pub record DamageAddition : Type 0 where
  pub amount : ℕ
  pub condition : EffectCondition

pub record DamageEffect : Type 0 where
  pub base : ℕ
  pub constraints : DamageConstraints
  pub additions : List DamageAddition

pub data ResponseBlock : Type 0 where
  attack_spells : ResponseBlock

pub record Cost : Type 0 where
  pub matter : ℕ
  pub mind : ℕ
  pub spirit : ℕ
  pub generic : ℕ

-- `Cost::default()`.
abbrev pub free : Cost
free = record { matter = 0; mind = 0; spirit = 0; generic = 0 }

pub data EffectLeaf : Type 0 where
  deal_damage : DamageEffect → EffectLeaf
  heal : ℕ → EffectTarget → EffectLeaf
  move_summon : EffectLeaf
  swap_positions : EffectLeaf
  block_responses : EffectCondition → ResponseBlock → EffectLeaf
  return_spell_from_discard : EffectLeaf
  look_at_prizes : EffectLeaf
  draw_cards : ℕ → EffectLeaf
  return_spell_to_deck_top : EffectLeaf
  produce_mana : EffectTarget → EffectLeaf
  cannot_be_moved_by_opponent : EffectTarget → EffectLeaf
  ready_summon : EffectLeaf
  swap_opposing_positions : EffectLeaf

pub data Modifier : Type 0 where
  opposing_retreat_cost_delta : ℤ → Modifier
  incoming_attack_damage_reduction : ℕ → Modifier
