-- ===== src/Domain/Events.antt =====
-- crates/core/src/domain/events.rs.
use summoners.Prelude.{ℕ, List}
use summoners.Domain.Ids.{PlayerId, CardInstanceId, Position, BenchSlot, ManaType}
use summoners.Domain.EntityId.{EntityId}
use summoners.Domain.Cards.{DamageConstraint, DamageConstraints, EffectSource, TriggerEvent}
use summoners.Domain.State.{LossReason, ManaSource, StackItem}

pub data DamageSource : Type 0 where
  attack : PlayerId → Position → EntityId → DamageSource
  spell : PlayerId → CardInstanceId → EntityId → DamageSource
  skill : PlayerId → Position → EntityId → DamageSource
  trigger : PlayerId → Position → EntityId → DamageSource

pub data DamageOrigin : Type 0 where
  printed_ability : EntityId → DamageOrigin
  persistent_card : CardInstanceId → DamageOrigin

abbrev pub controller_of : DamageSource → PlayerId
controller_of (DamageSource.attack controller _ _) = controller
controller_of (DamageSource.spell controller _ _) = controller
controller_of (DamageSource.skill controller _ _) = controller
controller_of (DamageSource.trigger controller _ _) = controller

abbrev pub origin_of : DamageSource → DamageOrigin
origin_of (DamageSource.attack _ _ ability) = DamageOrigin.printed_ability ability
origin_of (DamageSource.spell _ _ definition) = DamageOrigin.printed_ability definition
origin_of (DamageSource.skill _ _ ability) = DamageOrigin.printed_ability ability
origin_of (DamageSource.trigger _ _ ability) = DamageOrigin.printed_ability ability

-- `impl From<EffectSource> for DamageSource`.
abbrev pub from_effect_source : EffectSource → DamageSource
from_effect_source (EffectSource.attack c p a) = DamageSource.attack c p a
from_effect_source (EffectSource.spell c i d) = DamageSource.spell c i d
from_effect_source (EffectSource.skill c p a) = DamageSource.skill c p a
from_effect_source (EffectSource.trigger c p a) = DamageSource.trigger c p a

pub record BattlefieldTarget : Type 0 where
  pub controller : PlayerId
  pub position : Position

pub record DamageContext : Type 0 where
  pub source : DamageSource
  pub target : BattlefieldTarget

pub data DamageStage : Type 0 where
  addition persistent_reduction clamp commit : DamageStage

pub data DamageOperation : Type 0 where
  add reduce : ℕ → DamageOperation
  clamp_to_zero : DamageOperation

pub data GameEvent : Type 0 where
  turn_began : PlayerId → GameEvent
  summons_readied : PlayerId → List Position → GameEvent
  card_drawn : PlayerId → CardInstanceId → GameEvent
  mana_produced : PlayerId → ManaSource → ManaType → GameEvent
  summon_played : PlayerId → CardInstanceId → BenchSlot → GameEvent
  summon_upgraded : PlayerId → CardInstanceId → Position → GameEvent
  spell_cast : PlayerId → CardInstanceId → List Position → GameEvent
  skill_activated : PlayerId → Position → EntityId → GameEvent
  attack_declared : PlayerId → Position → GameEvent
  priority_passed : PlayerId → GameEvent
  stack_item_resolved : StackItem → GameEvent
  damage_calculation_started : DamageContext → ℕ → DamageConstraints → GameEvent
  -- context, stage, operation, origin, input, output
  damage_adjustment_applied :
      DamageContext → DamageStage → DamageOperation → DamageOrigin → ℕ → ℕ → GameEvent
  -- context, stage, operation, origin, input, constraint
  damage_adjustment_skipped :
      DamageContext
      → DamageStage
      → DamageOperation
      → DamageOrigin
      → ℕ
      → DamageConstraint
      → GameEvent
  -- context, amount, before, after
  damage_applied : DamageContext → ℕ → ℕ → ℕ → GameEvent
  healed : Position → ℕ → GameEvent
  summon_destroyed : Position → PlayerId → GameEvent
  prize_recovered : PlayerId → CardInstanceId → GameEvent
  prizes_viewed : PlayerId → List CardInstanceId → GameEvent
  summon_promoted : PlayerId → BenchSlot → GameEvent
  summons_swapped : PlayerId → BenchSlot → GameEvent
  trigger_fired : PlayerId → Position → TriggerEvent → EntityId → GameEvent
  coin_converted : PlayerId → ManaType → GameEvent
  mana_deducted : PlayerId → ManaType → ℕ → GameEvent
  game_ended : PlayerId → LossReason → GameEvent
