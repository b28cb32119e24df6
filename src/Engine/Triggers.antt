-- ===== src/Engine/Triggers.antt =====
-- crates/core/src/engine/triggers/mod.rs: discovery, queueing and firing of Triggered Abilities.
use summoners.Prelude.{
  Bool, true, false, ◌&&◌, Option, none, some, List, [], ◌∷◌, map, filter, find, flat_map, any,
  length, is_some, if◌then◌else◌,
}
use summoners.Domain.Ids.{PlayerId, Position, opponent, is_main}
use summoners.Domain.EntityId.{EntityId, id_eq}
use summoners.Domain.Cards.{EffectLeaf, EffectSource, TriggerEvent, trigger_event_eq}
use summoners.Domain.CardSet
use summoners.Domain.Entity
use summoners.Domain.Entity.{Entity, id_of}
use summoners.Domain.Field
use summoners.Domain.State.{
  GameState, MovementStep, StackItem, StackWindow, SummonInstance, WorkItem, EnteredMain, get, top,
  summon_at, with_player, push_back, push_front,
}
use summoners.Domain.Events.{GameEvent}
use summoners.Engine.Upkeep.{controlled_positions}
use summoners.Engine.Effects.{apply_leaves}

abbrev pub movement_event : MovementStep → TriggerEvent
movement_event MovementStep.leaving_main = TriggerEvent.leaves_main
movement_event MovementStep.entering_bench = TriggerEvent.enters_bench
movement_event MovementStep.leaving_bench = TriggerEvent.leaves_bench
movement_event MovementStep.entering_main = TriggerEvent.enters_main

unfoldable pub card_at : GameState → PlayerId → Position → Option Entity
card_at s player at = elim (summon_at (get s.players player) at) [
  | none ↦ none
  | some summon ↦ CardSet.get s.cards (top summon.chain).def
]

-- `ability.get::<TriggerEvent>() == Some(&event)`.
abbrev pub fires_on : TriggerEvent → Entity → Bool
fires_on event ability = elim (Entity.get Field.event ability) [
  | none ↦ false
  | some printed ↦ trigger_event_eq printed event
]

unfoldable pub matching_abilities : GameState → PlayerId → Position → TriggerEvent → List EntityId
matching_abilities s player at event = elim (card_at s player at) [
  | none ↦ []
  | some card ↦ map id_of (filter (fires_on event) (Entity.all Field.trigger card))
]

unfoldable pub ability_at :
    GameState → PlayerId → Position → EntityId → Option (Bool × List EffectLeaf)
ability_at s player at ability = elim (card_at s player at) [
  | none ↦ none
  | some card ↦ elim (find (λ e. id_eq (id_of e) ability) (Entity.all Field.trigger card)) [
    | none ↦ none
    | some e ↦ some (is_some (Entity.get Field.respondable e), Entity.all Field.effect e)
  ]
]

-- The `FireTrigger` items of one position, in authored order.
unfoldable pub fire_items : GameState → PlayerId → Position → TriggerEvent → List WorkItem
fire_items s player at event =
    map (WorkItem.fire_trigger player at event) (matching_abilities s player at event)

-- The candidates of `discover_front` and `discover_back`, in the order of rules §41.
unfoldable pub candidates : GameState → List PlayerId → TriggerEvent → List WorkItem
candidates s players event =
    flat_map
      (λ player.
        flat_map (λ at. fire_items s player at event) (controlled_positions (get s.players player)))
      players

-- `push_front` of the candidates in reverse leaves them in order.
unfoldable pub discover_front : GameState → List PlayerId → TriggerEvent → GameState
discover_front s players event = push_front s (candidates s players event)

unfoldable pub discover_back : GameState → List PlayerId → TriggerEvent → GameState
discover_back s players event = push_back s (candidates s players event)

abbrev pub is_deal_damage : EffectLeaf → Bool
is_deal_damage (EffectLeaf.deal_damage _) = true
is_deal_damage _ = false

abbrev pub implicit_targets : Position → List EffectLeaf → List Position
implicit_targets at effects = if any is_deal_damage effects then Position.main ∷ [] else at ∷ []

-- `stack::window_after_play`.
abbrev pub window_after_play : PlayerId → StackWindow
window_after_play player = record { holder = opponent player; prior_pass = false }

pub record FiringTrigger : Type 0 where
  pub player : PlayerId
  pub position : Position
  pub event : TriggerEvent
  pub ability : EntityId

abbrev pub fired_event : FiringTrigger → GameEvent
fired_event f = GameEvent.trigger_fired f.player f.position f.event f.ability

-- A respondable ability becomes a new Stack segment and opens a window.
unfoldable pub open_segment : GameState → FiringTrigger → List EffectLeaf → GameState
open_segment s f effects = record s {
  turn = record (s.turn) { window = some (window_after_play f.player) };
  stack =
      StackItem.trigger f.player f.position f.ability f.event (implicit_targets f.position effects)
        effects
      ∷ s.stack;
  stack_segment_bases = length s.stack ∷ s.stack_segment_bases;
}

unfoldable pub fire :
    GameState → FiringTrigger → Bool × List EffectLeaf → GameState × List GameEvent
fire s f (true, effects) = (open_segment s f effects, fired_event f ∷ [])
fire s f (false, effects) =
    let (s', events) =
      apply_leaves s (EffectSource.trigger f.player f.position f.ability)
        (implicit_targets f.position effects) effects in
    (s', fired_event f ∷ events)

abbrev pub enter_main : SummonInstance → SummonInstance
enter_main summon = record summon {
  turn = record (summon.turn) { main_entry = some EnteredMain.entered_main };
}

abbrev pub is_entering_main : MovementStep → Bool
is_entering_main MovementStep.entering_main = true
is_entering_main _ = false

-- The Main entry that an `EnteringMain` step at Main records.
unfoldable pub record_entry : GameState → MovementStep → PlayerId → Position → GameState
record_entry s step player at =
    if is_entering_main step && is_main at
    then elim ((get s.players player).main) as (λ _. GameState) [
      | none ↦ s
      | some summon ↦
          with_player s player (record (get s.players player) { main = some (enter_main summon) })
    ]
    else s

unfoldable pub movement_trigger :
    GameState → MovementStep → PlayerId → Position → GameState × List GameEvent
movement_trigger s step player at =
    let s' = record_entry s step player at in
    (push_front s' (fire_items s' player at (movement_event step)), [])

unfoldable pub fire_queued :
    GameState → PlayerId → Position → TriggerEvent → EntityId → GameState × List GameEvent
fire_queued s player at event ability = elim (ability_at s player at ability) [
  | none ↦ (s, [])
  | some trigger ↦
      fire s (record { player = player; position = at; event = event; ability = ability }) trigger
]
