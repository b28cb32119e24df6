-- ===== src/Examples/Runs.antt =====
-- The operations on the example match, evaluated.
use summoners.Prelude.{
  is_some, ◌≡◌, refl, Option, Result, Bool, true, false, none, some, List, [], ◌∷◌, ok, err,
}
use summoners.Prelude.Int.{pos_part}
use summoners.Domain.Ids.{PlayerId, Position, BenchSlot}
use summoners.Domain.Actions.{GameAction}
use summoners.Domain.Errors.{ActionError}
use summoners.Domain.Mana.{ManaBank}
use summoners.Domain.Cards.{Cost, DamageConstraint, DamageConstraints, contains}
use summoners.Domain.State.{GameState, PlayerState, PendingInput, WorkItem, get}
use summoners.Domain.Events.{GameEvent}
use summoners.Engine.Outcome.{ActionOutcome}
use summoners.Engine.Apply.{apply, dispatch}
use summoners.Engine.Payment.{Payment, PaymentError, after_typed, deduct, slot}
use summoners.Engine.Resolution.{drain, stack_has_unresolved_items}
use summoners.Engine.Destruction.{is_destroyed}
use summoners.Examples.Match.{opening, double_strike, answering, wounded, pressed}
use summoners.Domain.EntityId
use summoners.Domain.CardSet
use summoners.Domain.Entity
use summoners.Domain.Field
use summoners.Domain.Cards
use summoners.Domain.State
use summoners.Prelude.Words
use summoners.Prelude.Int
use summoners.Engine.Payment
use summoners.Engine.Outcome
use summoners.Engine.Damage
use summoners.Engine.Loss
use summoners.Engine.Upkeep
use summoners.Engine.Effects
use summoners.Engine.Triggers
use summoners.Engine.Destruction
use summoners.Engine.Turn
use summoners.Engine.Priority
use summoners.Engine.Board
use summoners.Engine.Skills
use summoners.Engine.Resolution
use summoners.Engine.Apply

abbrev pub outcome_of : Result ActionOutcome ActionError → ActionOutcome
outcome_of (ok o) = o
outcome_of (err _) = record { state = opening; events = [] }

abbrev pub applied_of : Option (Result ActionOutcome ActionError) → ActionOutcome
applied_of none = record { state = opening; events = [] }
applied_of (some r) = outcome_of r

abbrev pub is_accepted : Option (Result ActionOutcome ActionError) → Bool
is_accepted (some (ok _)) = true
is_accepted _ = false

pub accepted_run :
    (r : Option (Result ActionOutcome ActionError))
    → is_accepted r ≡ true
    → r ≡ some (ok (applied_of r))
accepted_run none h = cc
accepted_run (some (err e)) h = cc
accepted_run (some (ok o)) h = refl

-- The second pass resolves a Bolt and an attack on the same Main.
abbrev pub struck : ActionOutcome
struck = applied_of (apply 40 double_strike (GameAction.pass_priority PlayerId.one))

-- A Summon comes to the Bench.
abbrev pub opened : ActionOutcome
opened = outcome_of (dispatch opening (GameAction.play_summon PlayerId.one 4 BenchSlot.first))

-- An Enhanced Form goes over the Main Summon.
abbrev pub raised : ActionOutcome
raised = outcome_of (Board.upgrade_summon opening PlayerId.one 8 Position.main)

-- A retreat for one Generic Mana.
abbrev pub swapped : ActionOutcome
swapped = outcome_of (Board.retreat opening PlayerId.two BenchSlot.first none)

-- A Bolt answers an attack.
abbrev pub bolted : ActionOutcome
bolted = outcome_of (Priority.cast_spell answering PlayerId.one 3 (Position.main ∷ []) none)

-- Player one picks the Prize, player two the Promotion from the first slot.
abbrev promoted : ActionOutcome
promoted = applied_of (
    apply 40 (applied_of (apply 40 struck.state (GameAction.choose_prize PlayerId.one 0))).state
      (GameAction.choose_promotion PlayerId.two BenchSlot.first))

abbrev pub purse : ManaBank
purse = record { matter = 2; mind = 1; spirit = 0 }

abbrev pub price : Cost
price = record { matter = 1; mind = 0; spirit = 0; generic = 1 }

abbrev pub payment_of : Result Payment PaymentError → Payment
payment_of (ok p) = p
payment_of (err _) = record { bank = purse; deductions = [] }

abbrev pub paid : Payment
paid = payment_of (deduct purse price none)

abbrev pub ended_of : Option (GameState × List GameEvent) → GameState × List GameEvent
ended_of none = (opening, [])
ended_of (some o) = o

ended_run : (r : Option (GameState × List GameEvent)) → is_some r ≡ true → r ≡ some (ended_of r)
ended_run none h = cc
ended_run (some o) h = refl

-- The loop resolves the Bolt and the attack, then works up to the pick of a Prize.
abbrev pub released : GameState × List GameEvent
released = ended_of (drain 40 pressed)

-- Every run of this module, under the one list of the definitions that they compute through.
runs :
    (is_accepted (apply 40 double_strike (GameAction.pass_priority PlayerId.one)) ≡ true)
    × (dispatch opening (GameAction.play_summon PlayerId.one 4 BenchSlot.first) ≡ ok opened)
    × (Board.upgrade_summon opening PlayerId.one 8 Position.main ≡ ok raised)
    × (Board.retreat opening PlayerId.two BenchSlot.first none ≡ ok swapped)
    × (Priority.cast_spell answering PlayerId.one 3 (Position.main ∷ []) none ≡ ok bolted)
    × (struck.state.work
        ≡ WorkItem.promote_bench_summon PlayerId.two
          ∷ WorkItem.resolve_movement_consequences PlayerId.two
          ∷ WorkItem.loss_check PlayerId.two
          ∷ WorkItem.discard_destroyed_chain Position.main
          ∷ WorkItem.record_main_loss PlayerId.two
          ∷ WorkItem.recover_prize PlayerId.two
          ∷ WorkItem.promote_bench_summon PlayerId.two
          ∷ WorkItem.resolve_movement_consequences PlayerId.two
          ∷ WorkItem.loss_check PlayerId.two
          ∷ [])
    × ((get promoted.state.players PlayerId.two).main_losses ≡ 2)
    × (deduct purse price none ≡ ok paid)
    × (is_some (drain 40 pressed) ≡ true)
    × (is_destroyed wounded PlayerId.two Position.main ≡ ok true)
    × (is_destroyed wounded PlayerId.one Position.main ≡ ok false)
    × (contains (record { bits = 1 }) DamageConstraint.unincreasable ≡ true)
    × (contains (record { bits = 2 }) DamageConstraint.unpreventable ≡ true)
unfolding EntityId.id_eq CardSet.new CardSet.get Entity.find_component Entity.filter_components
    Entity.get Entity.all Entity.demand Field.name Field.accounting_id Field.life Field.retreat_cost
    Field.form Field.produces Field.tags Field.cost Field.skill Field.attack Field.trigger
    Field.effect Field.passive Field.timing Field.event Field.respondable Field.persistent
    Field.family Cards.insert Cards.contains State.top State.break_game Words.saturating_add
    Int.◌+ℤ◌ Int.◌-ℤ◌ Payment.candidate_wins Payment.better Payment.pick_from
    Payment.pick_largest_pool Payment.take_from Payment.spend_generic Payment.pay_generic
    Payment.settle Payment.deduct Outcome.require_free_main_phase Outcome.pay Damage.condition_holds
    Damage.reductions_of Damage.additions_of Damage.collect_adjustments Damage.blocked
    Damage.operate Damage.adjust Damage.run_adjustments Damage.evaluate Damage.commit_events
    Damage.commit_hit Damage.commit Loss.lose Loss.draw_failure Loss.check
    Upkeep.controlled_positions Upkeep.produced_types Upkeep.seen Upkeep.anchor_types
    Upkeep.summon_types Upkeep.available_types Upkeep.bank Upkeep.reset_per_turn_summon_records
    Upkeep.ready_all Upkeep.draw_card Upkeep.produce_from Upkeep.produce_mana
    Upkeep.begin_main_phase Effects.cannot_be_moved_by_opponent Effects.is_spell
    Effects.return_spell_from_discard Effects.return_spell_to_deck_top Effects.look_at_prizes
    Effects.swap_opposing_positions Effects.deal_damage Effects.heal Effects.draw_up_to
    Effects.draw_cards Effects.move_between Effects.move_summon Effects.swap_positions
    Effects.produce_mana_leaf Effects.ready_summon Effects.apply_leaf Effects.apply_leaves
    Triggers.card_at Triggers.matching_abilities Triggers.ability_at Triggers.fire_items
    Triggers.candidates Triggers.discover_front Triggers.discover_back Triggers.open_segment
    Triggers.fire Triggers.record_entry Triggers.movement_trigger Triggers.fire_queued
    Destruction.life_of Destruction.is_destroyed Destruction.destroyed_among
    Destruction.enqueue_destruction Destruction.check_players Destruction.check
    Destruction.discard_chain Destruction.discard_destroyed_chain Destruction.record_main_loss
    Destruction.recover_prize Destruction.answer_prize Destruction.promote_from_slot
    Destruction.promote_among Destruction.promote_bench_summon Destruction.answer_promotion
    Destruction.resolve_movement_consequences Turn.end_turn Turn.expire_cannot_be_moved_by_opponent
    Turn.begin_turn Turn.handover Turn.convert_coin Turn.answer_mana Turn.choose_mana_type
    Priority.declared Priority.declare_attack Priority.casting_of Priority.blocks
    Priority.attack_blocks Priority.blocked_by Priority.attack_responses_blocked Priority.casting
    Priority.cast_spell Priority.close_window Priority.move_priority Priority.pass
    Board.produced_types Board.signed Board.i32_wrap Board.i32_add Board.printed_delta
    Board.opposing_retreat_cost_delta Board.saturating_add_signed Board.played Board.play_summon
    Board.upgraded Board.upgrade_summon Board.retreated Board.retreat Skills.validate_move_summon
    Skills.validate_swap_positions Skills.validate_swap_opposing_positions Skills.validate_leaf
    Skills.validate_targets Skills.activated Skills.resolve_skill Skills.activate_skill
    Resolution.after_draw Resolution.execute_draw Resolution.execute Resolution.attacker_effects
    Resolution.resolve_attack Resolution.spell_effects Resolution.persists Resolution.place_card
    Resolution.resolve_spell Resolution.resolve_item Resolution.settle_bases
    Resolution.settle_segment Resolution.resolve_top_stack_item Resolution.drain_step
    Resolution.drain Apply.dispatch Apply.drain_outcome Apply.drain_result Apply.apply_playing
    Apply.apply_by_status Apply.apply
runs = (refl, refl, refl, refl, refl, refl, refl, refl, refl, refl, refl, refl, refl)

struck_accepted :
    is_accepted (apply 40 double_strike (GameAction.pass_priority PlayerId.one)) ≡ true
struck_accepted = runs.0

pub opened_runs :
    dispatch opening (GameAction.play_summon PlayerId.one 4 BenchSlot.first) ≡ ok opened
opened_runs = runs.1

pub raised_runs : Board.upgrade_summon opening PlayerId.one 8 Position.main ≡ ok raised
raised_runs = runs.2

pub swapped_runs : Board.retreat opening PlayerId.two BenchSlot.first none ≡ ok swapped
swapped_runs = runs.3

pub bolted_runs : Priority.cast_spell answering PlayerId.one 3 (Position.main ∷ []) none ≡ ok bolted
bolted_runs = runs.4

-- Both checks of the one destruction have queued a loss of the Main and a Prize.
struck_work :
    struck.state.work
    ≡ WorkItem.promote_bench_summon PlayerId.two
      ∷ WorkItem.resolve_movement_consequences PlayerId.two
      ∷ WorkItem.loss_check PlayerId.two
      ∷ WorkItem.discard_destroyed_chain Position.main
      ∷ WorkItem.record_main_loss PlayerId.two
      ∷ WorkItem.recover_prize PlayerId.two
      ∷ WorkItem.promote_bench_summon PlayerId.two
      ∷ WorkItem.resolve_movement_consequences PlayerId.two
      ∷ WorkItem.loss_check PlayerId.two
      ∷ []
struck_work = runs.5

-- One destruction has cost player two two Main losses.
two_losses : (get promoted.state.players PlayerId.two).main_losses ≡ 2
two_losses = runs.6

pub paid_runs : deduct purse price none ≡ ok paid
paid_runs = runs.7

released_ends : is_some (drain 40 pressed) ≡ true
released_ends = runs.8

pub released_runs : drain 40 pressed ≡ some released
released_runs = ended_run (drain 40 pressed) released_ends

pub two_destroyed : is_destroyed wounded PlayerId.two Position.main ≡ ok true
two_destroyed = runs.9

pub one_stands : is_destroyed wounded PlayerId.one Position.main ≡ ok false
one_stands = runs.10

pub unincreasable_set : contains (record { bits = 1 }) DamageConstraint.unincreasable ≡ true
unincreasable_set = runs.11

pub unpreventable_set : contains (record { bits = 2 }) DamageConstraint.unpreventable ≡ true
unpreventable_set = runs.12

pub struck_runs : apply 40 double_strike (GameAction.pass_priority PlayerId.one) ≡ some (ok struck)
struck_runs =
    accepted_run (apply 40 double_strike (GameAction.pass_priority PlayerId.one)) struck_accepted
