-- ===== src/Engine/Resolution.antt =====
-- crates/core/src/engine/resolution/mod.rs: the resolution loop. The loop need not end on every
-- card pool (an ability may queue itself again), so it runs on fuel, and `none` is fuel run out.
use summoners.Prelude.{
  ℕ, zero, suc, Bool, false, ◌||◌, not, Option, none, some, List, [], ◌∷◌, ◌++◌, length, ltb, ◌==◌,
  is_some, if◌then◌else◌,
}
use summoners.Domain.Ids.{PlayerId, Position}
use summoners.Domain.EntityId.{EntityId}
use summoners.Domain.Cards.{EffectLeaf, EffectSource}
use summoners.Domain.CardSet
use summoners.Domain.CardSet.{CardSet}
use summoners.Domain.Entity
use summoners.Domain.Entity.{id_of}
use summoners.Domain.Field
use summoners.Domain.State.{
  GameState, StackItem, WorkItem, CardRef, get, top, with_player, is_playing,
}
use summoners.Domain.Events.{GameEvent}
use summoners.Engine.Effects.{apply_leaves}
use summoners.Engine.Loss
use summoners.Engine.Destruction
use summoners.Engine.Upkeep.{DrawOutcome, ready_all, draw_card, produce_mana, begin_main_phase}
use summoners.Engine.Triggers.{movement_trigger, fire_queued}
use summoners.Engine.Priority.{current_base}

abbrev pub stack_has_unresolved_items : GameState → Bool
stack_has_unresolved_items s = ltb (current_base s.stack_segment_bases) (length s.stack)

-- What `execute_draw` does with what `draw_card` found.
unfoldable pub after_draw : GameState × List GameEvent × DrawOutcome → GameState × List GameEvent
after_draw (s, events, DrawOutcome.drew) = (s, events)
after_draw (s, events, DrawOutcome.deck_empty) =
    let (lost, loss_events) = Loss.draw_failure s s.turn.active_player in
    (lost, events ++ loss_events)

unfoldable pub execute_draw : GameState → GameState × List GameEvent
unfolding after_draw
execute_draw s = after_draw (draw_card s)

unfoldable pub execute : GameState → WorkItem → GameState × List GameEvent
execute s WorkItem.ready_all = ready_all s
execute s WorkItem.draw_card = execute_draw s
execute s (WorkItem.produce_mana player source) = produce_mana s player source
execute s WorkItem.begin_main_phase = begin_main_phase s
execute s (WorkItem.destruction_check at) = Destruction.check s at
execute s (WorkItem.discard_destroyed_chain at) = Destruction.discard_destroyed_chain s at
execute s (WorkItem.record_main_loss player) = Destruction.record_main_loss s player
execute s (WorkItem.recover_prize player) = Destruction.recover_prize s player
execute s (WorkItem.promote_bench_summon player) = Destruction.promote_bench_summon s player
execute s (WorkItem.resolve_movement_consequences player) =
    Destruction.resolve_movement_consequences s player
execute s (WorkItem.movement_trigger step player at) = movement_trigger s step player at
execute s (WorkItem.fire_trigger player at event ability) = fire_queued s player at event ability
execute s (WorkItem.loss_check player) = Loss.check s player

-- The attacker's currently printed Attack.
unfoldable pub attacker_effects : GameState → PlayerId → Option (EntityId × List EffectLeaf)
attacker_effects s attacker = elim ((get s.players attacker).main) [
  | none ↦ none
  | some summon ↦ elim (CardSet.get s.cards (top summon.chain).def) [
    | none ↦ none
    | some e ↦ elim (Entity.get Field.attack e) [
      | none ↦ none
      | some attack ↦ some (id_of attack, Entity.all Field.effect attack)
    ]
  ]
]

unfoldable pub resolve_attack : GameState → PlayerId → Position → GameState × List GameEvent
resolve_attack s attacker target = elim (attacker_effects s attacker) [
  | none ↦ (s, [])
  | some (ability, effects) ↦
      apply_leaves s (EffectSource.attack attacker Position.main ability) (target ∷ []) effects
]

unfoldable pub spell_effects : CardSet → EntityId → List EffectLeaf
spell_effects cards def = elim (CardSet.get cards def) [
  | none ↦ []
  | some e ↦ Entity.all Field.effect e
]

unfoldable pub persists : CardSet → EntityId → Bool
persists cards def = elim (CardSet.get cards def) [
  | none ↦ false
  | some e ↦ is_some (Entity.get Field.persistent e)
]

-- A resolved card goes to its caster's Enchantments or discard pile.
unfoldable pub place_card : GameState → PlayerId → CardRef → GameState
unfolding persists
place_card s caster card =
    let ps = get s.players caster in
    with_player s caster (
      if persists s.cards card.def
      then record ps { enchantments = ps.enchantments ++ card ∷ [] }
      else record ps { discard = ps.discard ++ card ∷ [] })

unfoldable pub resolve_spell :
    GameState → PlayerId → CardRef → List Position → GameState × List GameEvent
unfolding place_card
resolve_spell s caster card targets =
    let (s', events) =
      apply_leaves s (EffectSource.spell caster card.instance_id card.def) targets
        (spell_effects s.cards card.def) in
    (place_card s' caster card, events)

unfoldable pub resolve_item : GameState → StackItem → GameState × List GameEvent
resolve_item s (StackItem.attack attacker target) = resolve_attack s attacker target
resolve_item s (StackItem.spell caster card targets) = resolve_spell s caster card targets
resolve_item s (StackItem.trigger controller source ability event targets effects) =
    apply_leaves s (EffectSource.trigger controller source ability) targets effects

-- The base of a segment that has been drained comes off.
unfoldable pub settle_bases : ℕ → List ℕ → List ℕ
settle_bases height [] = []
settle_bases height (base ∷ bases) = if base == height then bases else base ∷ bases

unfoldable pub settle_segment : GameState → GameState
unfolding settle_bases
settle_segment s = record s {
  stack_segment_bases = settle_bases (length s.stack) s.stack_segment_bases;
}

unfoldable pub resolve_top_stack_item : GameState → GameState × List GameEvent
unfolding settle_segment
resolve_top_stack_item s = elim s.stack [
  | [] ↦ (s, [])
  | item ∷ below ↦
      (let (s', events) = resolve_item (record s { stack = below }) item in
        (settle_segment s', GameEvent.stack_item_resolved item ∷ events))
]

-- The test at the head of the loop: a pause, an end, or an open window.
abbrev pub rests : GameState → Bool
rests s = is_some s.pending || not (is_playing s.status) || is_some s.turn.window

-- One round of the loop, or `none` where it breaks out.
unfoldable pub drain_step : GameState → Option (GameState × List GameEvent)
drain_step s =
    if rests s
    then none
    else if stack_has_unresolved_items s
    then some (resolve_top_stack_item s)
    else elim s.work as (λ _. Option (GameState × List GameEvent)) [
      | [] ↦ none
      | item ∷ work ↦ some (execute (record s { work = work }) item)
    ]

unfoldable pub drain : ℕ → GameState → Option (GameState × List GameEvent)
drain zero s = none
drain (suc fuel) s = elim (drain_step s) [
  | none ↦ some (s, [])
  | some (s', events) ↦ elim (drain fuel s') [
    | none ↦ none
    | some (s'', later) ↦ some (s'', events ++ later)
  ]
]
