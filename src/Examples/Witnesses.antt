-- ===== src/Examples/Witnesses.antt =====
-- Each theorem applied to the example match.
use summoners.Prelude.{ℕ, ◌+◌, ◌≡◌, ◌≤◌, ◌⊎◌, refl, none, some, [], ◌∷◌, ◌++◌, ok, err, true, arith}
use summoners.Domain.Ids.{PlayerId, Position, BenchSlot, ManaType, player_eq}
use summoners.Domain.Actions.{GameAction, actor}
use summoners.Domain.Cards.{EffectSource, no_constraints}
use summoners.Domain.State.{GameStatus, CardRef, WorkItem, push_back}
use summoners.Engine.Apply.{required_actor, resign}
use summoners.Engine.Damage.{evaluate}
use summoners.Engine.Destruction.{check, destruction_steps}
use summoners.Engine.Effects.{apply_leaves}
use summoners.Engine.Payment.{Payment, deduct}
use summoners.Engine.Resolution.{execute, resolve_top_stack_item}
use summoners.Examples.Match.{
  opening, double_strike, answering, wounded, crowded, pressed, struck_at, charged, hit,
}
use summoners.Examples.Runs.{
  struck, struck_runs, opened, opened_runs, raised, raised_runs, swapped, swapped_runs, bolted,
  bolted_runs, purse, price, paid_runs, released, released_runs, two_destroyed, one_stands,
  unincreasable_set, unpreventable_set,
}
use summoners.Transition.Laws.{
  IsAtRest, apply-weight, apply-IsSegmented, apply-IsAtRest, apply-actor,
}
use summoners.Conservation.Weight.{state_weight, summon_weight}
use summoners.Conservation.Work.{execute-weight, overwritten}
use summoners.Conservation.Leaves.{apply_leaves-weight}
use summoners.Conservation.Dispatch.{dispatch-weight, overwritten_by_action}
use summoners.Conservation.Drain.{resolve_top-weight}
use summoners.Calculation.Trace.{IsChain, evaluate-IsChain}
use summoners.Calculation.Staged.{evaluate-unincreasable, evaluate-unpreventable}
use summoners.Calculation.Paid.{IsBank, IsAffordable, IsPaid, deduct-IsPaid}
use summoners.Calculation.Hinted.{IsDrawn, deduct_hint-IsPaid}
use summoners.Calculation.Accepts.{deduct-IsAffordable}
use summoners.Segments.Invariant.{IsSegmented}
use summoners.Segments.Order.{StackFirst, drain-StackFirst}
use summoners.Frame.Leaves.{Frame, apply_leaves-Frame}
use summoners.Handlers.Upgrade.{DoesUpgrade, upgrade_summon-DoesUpgrade, upgrade_summon-once}
use summoners.Handlers.Retreat.{DoesRetreat, retreat-DoesRetreat, retreat-once}
use summoners.Handlers.Cast.{DoesCast, cast_spell-DoesCast}
use summoners.Domain.Errors.{ActionError}
use summoners.Engine.Board
use summoners.Repeats.{check-repeats}
use summoners.Pool.{get-new}
use summoners.Prelude.{find}
use summoners.Domain.EntityId.{id_eq}
use summoners.Domain.Entity.{id_of}
use summoners.Domain.CardSet
use summoners.Examples.Match.{lynx, bolt, bolt_id}

-- Every card counts one.
abbrev each : CardRef → ℕ
each _ = 1

abbrev passing : GameAction
passing = GameAction.pass_priority PlayerId.one

abbrev bolt_source : EffectSource
bolt_source = EffectSource.spell PlayerId.one 7 (record { bytes = 2 ∷ [] })

apply-weight_example : state_weight each struck.state ≤ state_weight each double_strike
apply-weight_example = apply-weight each 40 double_strike passing struck_runs

apply-IsSegmented_example : IsSegmented struck.state
apply-IsSegmented_example = apply-IsSegmented 40 double_strike passing struck_runs refl

apply-IsAtRest_example : IsAtRest struck.state
apply-IsAtRest_example = apply-IsAtRest 40 double_strike passing struck_runs refl

apply-actor_example :
    (double_strike.status ≡ GameStatus.playing)
    × (((p : PlayerId) × (passing ≡ GameAction.resign p) × (struck ≡ resign double_strike p))
        ⊎ (player_eq (actor passing) (required_actor double_strike) ≡ true))
apply-actor_example = apply-actor 40 double_strike passing struck_runs

dispatch-weight_example :
    state_weight each opened.state
      + summon_weight each
          (overwritten_by_action opening (GameAction.play_summon PlayerId.one 4 BenchSlot.first))
    ≡ state_weight each opening
dispatch-weight_example =
    dispatch-weight each opening (GameAction.play_summon PlayerId.one 4 BenchSlot.first) opened_runs

execute-weight_example :
    state_weight each (execute crowded (WorkItem.promote_bench_summon PlayerId.two)).0
      + summon_weight each (overwritten crowded (WorkItem.promote_bench_summon PlayerId.two))
    ≡ state_weight each crowded
execute-weight_example = execute-weight each crowded (WorkItem.promote_bench_summon PlayerId.two)

resolve_top-weight_example :
    state_weight each (resolve_top_stack_item double_strike).0 ≡ state_weight each double_strike
resolve_top-weight_example = resolve_top-weight each double_strike

apply_leaves-weight_example :
    state_weight each (apply_leaves opening bolt_source (Position.main ∷ []) (hit ∷ [])).0
    ≡ state_weight each opening
apply_leaves-weight_example =
    apply_leaves-weight each opening bolt_source (Position.main ∷ []) (hit ∷ [])

apply_leaves-Frame_example :
    Frame opening (apply_leaves opening bolt_source (Position.main ∷ []) (hit ∷ [])).0
apply_leaves-Frame_example = apply_leaves-Frame opening bolt_source (Position.main ∷ []) (hit ∷ [])

purse-IsBank : IsBank purse
purse-IsBank = record { matter = omega arith; mind = omega arith; spirit = omega arith }

price-IsAffordable : IsAffordable purse price
price-IsAffordable = record {
  matter = omega arith;
  mind = omega arith;
  spirit = omega arith;
  generic = omega arith;
}

deduct-IsPaid_example :
    (payment : Payment) × (deduct purse price none ≡ ok payment) × IsPaid purse price payment
deduct-IsPaid_example = deduct-IsPaid purse price purse-IsBank price-IsAffordable

deduct_hint-IsPaid_example :
    (payment : Payment) × (deduct purse price (some ManaType.mind) ≡ ok payment)
    × IsPaid purse price payment
    × IsDrawn purse price ManaType.mind payment
deduct_hint-IsPaid_example =
    deduct_hint-IsPaid purse price ManaType.mind purse-IsBank price-IsAffordable (omega arith)
      (omega arith)

deduct-IsAffordable_example : IsAffordable purse price
deduct-IsAffordable_example = deduct-IsAffordable purse price none paid_runs

evaluate-IsChain_example :
    IsChain
      (evaluate charged (struck_at no_constraints)).base
      (evaluate charged (struck_at no_constraints)).lines
      (evaluate charged (struck_at no_constraints)).amount
evaluate-IsChain_example = evaluate-IsChain charged (struck_at no_constraints)

evaluate-unincreasable_example : (evaluate charged (struck_at (record { bits = 1 }))).amount ≤ 30
evaluate-unincreasable_example =
    evaluate-unincreasable charged (struck_at (record { bits = 1 })) unincreasable_set

evaluate-unpreventable_example : 30 ≤ (evaluate charged (struck_at (record { bits = 2 }))).amount
evaluate-unpreventable_example =
    evaluate-unpreventable charged (struck_at (record { bits = 2 })) unpreventable_set (omega arith)

drain-StackFirst_example : StackFirst released.0 pressed
drain-StackFirst_example = drain-StackFirst 40 pressed released_runs refl

upgrade_summon-DoesUpgrade_example : DoesUpgrade opening PlayerId.one 8 Position.main raised
upgrade_summon-DoesUpgrade_example =
    upgrade_summon-DoesUpgrade opening PlayerId.one 8 Position.main raised_runs

upgrade_summon-once_example :
    Board.upgrade_summon raised.state PlayerId.one 4 Position.main
    ≡ err ActionError.already_upgraded_this_turn
upgrade_summon-once_example = upgrade_summon-once opening PlayerId.one 8 4 Position.main raised_runs

retreat-DoesRetreat_example : DoesRetreat opening PlayerId.two BenchSlot.first none swapped
retreat-DoesRetreat_example =
    retreat-DoesRetreat opening PlayerId.two BenchSlot.first none swapped_runs

retreat-once_example :
    Board.retreat swapped.state PlayerId.two BenchSlot.second none
    ≡ err ActionError.normal_retreat_already_used
retreat-once_example =
    retreat-once opening PlayerId.two PlayerId.two BenchSlot.first BenchSlot.second none none
      swapped_runs

cast_spell-DoesCast_example : DoesCast answering PlayerId.one 3 (Position.main ∷ []) none bolted
cast_spell-DoesCast_example =
    cast_spell-DoesCast answering PlayerId.one 3 (Position.main ∷ []) none bolted_runs

check-repeats_example :
    (check (check wounded Position.main).0 Position.main).0
    ≡ push_back wounded (
        destruction_steps PlayerId.two Position.main
        ++ destruction_steps PlayerId.two Position.main)
check-repeats_example = check-repeats wounded Position.main two_destroyed one_stands

get-new_example :
    CardSet.get (CardSet.new (lynx ∷ bolt ∷ bolt ∷ [])) bolt_id
    ≡ find (λ e. id_eq (id_of e) bolt_id) (lynx ∷ bolt ∷ bolt ∷ [])
get-new_example = get-new (lynx ∷ bolt ∷ bolt ∷ []) bolt_id
