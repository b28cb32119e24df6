-- ===== src/Engine/Damage.antt =====
-- crates/core/src/engine/damage.rs: Damage evaluation, which reads the state, and the one commit.
use summoners.Prelude.{
  ℕ, ◌-◌, Bool, false, Option, none, some, List, [], ◌∷◌, ◌++◌, map, filter, filter_map, flat_map,
  first, is_some, if◌then◌else◌,
}
use summoners.Prelude.Words.{saturating_add}
use summoners.Domain.Ids.{PlayerId, Position, opponent, player_eq}
use summoners.Domain.Cards.{
  DamageAddition, DamageConstraint, DamageConstraints, DamageEffect, EffectCondition, Modifier,
  contains,
}
use summoners.Domain.CardSet
use summoners.Domain.Entity
use summoners.Domain.Field
use summoners.Domain.State.{
  GameState, CardRef, WorkItem, SummonInstance, get, summon_at, set_summon, with_player, push_back,
}
use summoners.Domain.Events.{
  DamageContext, DamageSource, DamageStage, DamageOperation, DamageOrigin, GameEvent, controller_of,
  origin_of,
}

pub record DamageIntent : Type 0 where
  pub context : DamageContext
  pub effect : DamageEffect

pub record DamageAdjustment : Type 0 where
  pub stage : DamageStage
  pub operation : DamageOperation
  pub origin : DamageOrigin

pub data DamageLine : Type 0 where
  -- stage, operation, origin, input, output
  applied : DamageStage → DamageOperation → DamageOrigin → ℕ → ℕ → DamageLine
  -- stage, operation, origin, input, constraint
  skipped : DamageStage → DamageOperation → DamageOrigin → ℕ → DamageConstraint → DamageLine

pub record DamageResolution : Type 0 where
  pub context : DamageContext
  pub base : ℕ
  pub constraints : DamageConstraints
  pub amount : ℕ
  pub lines : List DamageLine

-- Whether one controller-relative condition currently holds.
unfoldable pub condition_holds : GameState → PlayerId → List Position → EffectCondition → Bool
condition_holds s controller targets EffectCondition.spell_played_this_turn =
    get s.turn.spell_played_this_turn controller
condition_holds s controller targets EffectCondition.defender_entered_main_this_turn =
    elim (first targets) [
      | none ↦ false
      | some position ↦ elim (summon_at (get s.players (opponent controller)) position) [
        | none ↦ false
        | some summon ↦ is_some summon.turn.main_entry
      ]
    ]

-- The reductions that one Enchantment of the defender prints.
unfoldable pub reductions_of : GameState → CardRef → List DamageAdjustment
reductions_of s card = elim (CardSet.get s.cards card.def) [
  | none ↦ []
  | some e ↦
      filter_map
        (λ (m : Modifier). elim m as (λ _. Option DamageAdjustment) [
          | Modifier.incoming_attack_damage_reduction amount ↦ some (record {
            stage = DamageStage.persistent_reduction;
            operation = DamageOperation.reduce amount;
            origin = DamageOrigin.persistent_card card.instance_id;
          })
          | Modifier.opposing_retreat_cost_delta _ ↦ none
        ])
        (Entity.all Field.passive e)
]

-- `matches!(source, DamageSource::Attack { controller, .. } if controller.opponent() == target)`.
abbrev pub is_attack_on : DamageSource → PlayerId → Bool
is_attack_on (DamageSource.attack controller _ _) target = player_eq (opponent controller) target
is_attack_on _ _ = false

unfoldable pub additions_of : GameState → DamageIntent → List DamageAdjustment
additions_of s intent =
    map
      (λ (a : DamageAddition). record {
        stage = DamageStage.addition;
        operation = DamageOperation.add a.amount;
        origin = origin_of intent.context.source;
      })
      (filter
        (λ (a : DamageAddition).
          condition_holds s (controller_of intent.context.source)
            (intent.context.target.position ∷ []) a.condition)
        intent.effect.additions)

unfoldable pub collect_adjustments : GameState → DamageIntent → List DamageAdjustment
unfolding additions_of reductions_of
collect_adjustments s intent =
    additions_of s intent
    ++ (if is_attack_on intent.context.source intent.context.target.controller
        then flat_map (reductions_of s)
            (get s.players intent.context.target.controller).enchantments
        else [])

-- The constraint of the effect that blocks a stage.
unfoldable pub blocked : DamageConstraints → DamageStage → Option DamageConstraint
blocked cs DamageStage.addition =
    if contains cs DamageConstraint.unincreasable then some DamageConstraint.unincreasable else none
blocked cs DamageStage.persistent_reduction =
    if contains cs DamageConstraint.unpreventable then some DamageConstraint.unpreventable else none
blocked cs DamageStage.clamp = none
blocked cs DamageStage.commit = none

unfoldable pub operate : DamageOperation → ℕ → ℕ
operate (DamageOperation.add value) amount = saturating_add amount value
operate (DamageOperation.reduce value) amount = amount - value
operate DamageOperation.clamp_to_zero amount = amount

-- One round of the loop of `evaluate`: the running amount and the line it leaves.
unfoldable pub adjust : DamageConstraints → DamageAdjustment → ℕ → ℕ × DamageLine
unfolding blocked operate
adjust cs a amount = elim (blocked cs a.stage) [
  | some constraint ↦ (amount, DamageLine.skipped a.stage a.operation a.origin amount constraint)
  | none ↦ (
    operate a.operation amount,
    DamageLine.applied a.stage a.operation a.origin amount (operate a.operation amount),
  )
]

unfoldable pub run_adjustments : DamageConstraints → List DamageAdjustment → ℕ → ℕ × List DamageLine
unfolding adjust
run_adjustments cs [] amount = (amount, [])
run_adjustments cs (a ∷ as') amount =
    let (amount', line) = adjust cs a amount in
    let (total, lines) = run_adjustments cs as' amount' in (total, line ∷ lines)

unfoldable pub evaluate : GameState → DamageIntent → DamageResolution
unfolding collect_adjustments run_adjustments
evaluate s intent =
    let clamp : DamageAdjustment = record {
      stage = DamageStage.clamp;
      operation = DamageOperation.clamp_to_zero;
      origin = origin_of intent.context.source;
    } in
    let (amount, lines) =
      run_adjustments intent.effect.constraints (collect_adjustments s intent ++ clamp ∷ [])
        intent.effect.base in
    record {
      context = intent.context;
      base = intent.effect.base;
      constraints = intent.effect.constraints;
      amount = amount;
      lines = lines;
    }

abbrev pub event_of_line : DamageContext → DamageLine → GameEvent
event_of_line c (DamageLine.applied stage operation origin input output) =
    GameEvent.damage_adjustment_applied c stage operation origin input output
event_of_line c (DamageLine.skipped stage operation origin input constraint) =
    GameEvent.damage_adjustment_skipped c stage operation origin input constraint

unfoldable pub commit_events : DamageResolution → ℕ → ℕ → List GameEvent
commit_events r before after =
    GameEvent.damage_calculation_started r.context r.base r.constraints
    ∷ (map (event_of_line r.context) r.lines
        ++ GameEvent.damage_applied r.context r.amount before after ∷ [])

-- `commit` where the target position holds a Summon.
unfoldable pub commit_hit :
    GameState → DamageResolution → SummonInstance → GameState × List GameEvent
unfolding commit_events
commit_hit s r summon =
    let target = r.context.target in
    let after = saturating_add summon.damage r.amount in
    (
      push_back
          (with_player s target.controller (
            set_summon (get s.players target.controller) target.position
              (some (record summon { damage = after }))))
          (WorkItem.destruction_check target.position ∷ []),
      commit_events r summon.damage after,
    )

unfoldable pub commit : GameState → DamageResolution → GameState × List GameEvent
unfolding commit_hit
commit s r =
    elim (summon_at (get s.players r.context.target.controller) r.context.target.position) [
      | none ↦ (s, [])
      | some summon ↦ commit_hit s r summon
    ]
