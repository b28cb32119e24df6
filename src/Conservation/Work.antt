-- ===== src/Conservation/Work.antt =====
-- What each item of the work queue and each item of the Stack does to the cards.
use summoners.Prelude.{
  ℕ, ◌+◌, ◌≡◌, refl, ap, ◌∙◌, Bool, true, false, Option, none, some, List, [], ◌∷◌, ◌++◌, sum_by,
  sum_by-append, List-cases, all, all-filter, arith, inl, inr, Result-cases, Bool-cases,
  Option-cases, is_some, ◌&&◌, leb,
}
use summoners.Prelude.Arrays.{get_at}
use summoners.Domain.Ids.{PlayerId, Position, BenchSlot, index, is_main, all_slots}
use summoners.Domain.EntityId.{EntityId}
use summoners.Domain.Cards.{EffectLeaf, TriggerEvent}
use summoners.Domain.State.{
  GameState, PlayerState, SummonInstance, CardRef, StackItem, WorkItem, MovementStep, get, put,
  summon_at, set_summon, layers, break_game,
}
use summoners.Domain.Events.{GameEvent}
use summoners.Engine.Loss
use summoners.Engine.Upkeep.{
  DrawOutcome, ready_all, draw_card, begin_main_phase, map_board, map_summon, make_ready,
  occupied_slots,
}
use summoners.Engine.Triggers.{
  movement_trigger, fire_queued, fire, ability_at, record_entry, is_entering_main, discover_front,
  open_segment, FiringTrigger, implicit_targets, enter_main,
}
use summoners.Engine.Destruction.{
  check, check_players, is_destroyed, enqueue_destruction, discard_destroyed_chain, discard_chain,
  destroyed_among, ordered_players, record_main_loss, recover_prize, promote_bench_summon,
  promote_among, promote_from_slot, promote, resolve_movement_consequences,
}
use summoners.Engine.Resolution.{execute, execute_draw, after_draw}
use summoners.Conservation.Weight.{
  player_weight, state_weight, weight-put, weight-put_same, weight-rewrite, bench_weight-set,
  summon_weight, weight-set_summon, weight-push,
}
use summoners.Conservation.Leaves.{apply_leaves-weight, produce_mana-weight}

-- The Main Summon that a promotion writes over, if it runs and one stands there.
pub overwritten_by : GameState → PlayerId → List BenchSlot → Option SummonInstance
overwritten_by s player [] = none
overwritten_by s player (slot ∷ []) = (get s.players player).main
overwritten_by s player (_ ∷ _ ∷ _) = none

unfoldable pub overwritten : GameState → WorkItem → Option SummonInstance
unfolding overwritten_by
overwritten s (WorkItem.promote_bench_summon player) =
    overwritten_by s player (occupied_slots (get s.players player))
overwritten s _ = none

module _ (w : CardRef → ℕ) where
  summon_weight-map :
      (f : SummonInstance → SummonInstance)
      → ((x : SummonInstance) → (f x).chain ≡ x.chain)
      → (o : Option SummonInstance) → summon_weight w (map_summon f o) ≡ summon_weight w o
  summon_weight-map f keep none = refl
  summon_weight-map f keep (some x) = ap (λ c. sum_by w (layers c)) (keep x)

  -- A change of every Summon that keeps the chains.
  pub player_weight-map_board :
      (f : SummonInstance → SummonInstance)
      → ((x : SummonInstance) → (f x).chain ≡ x.chain)
      → (ps : PlayerState) → player_weight w (map_board f ps) ≡ player_weight w ps
  unfolding player_weight
  player_weight-map_board f keep ps = omega (
    arith,
    summon_weight-map f keep ps.main,
    summon_weight-map f keep ps.bench.at0,
    summon_weight-map f keep ps.bench.at1,
    summon_weight-map f keep ps.bench.at2,
  )

  check_players-weight :
      (s : GameState) (at : Position) (players : List PlayerId)
      → state_weight w (check_players s at players).0 ≡ state_weight w s
  unfolding check_players break_game enqueue_destruction
  check_players-weight s at [] = refl
  check_players-weight s at (p ∷ ps) = elim (Result-cases (is_destroyed s p at)) [
    | inl (true, e) ↦
        rw (e, check_players) (check_players-weight (enqueue_destruction s p at) at ps)
    | inl (false, e) ↦ rw (e, check_players) (check_players-weight s at ps)
    | inr (b, e) ↦ rw (e, check_players)
  ]

  discard_chain-weight :
      (s : GameState) (at : Position) (p : PlayerId) (x : SummonInstance)
      → summon_at (get s.players p) at ≡ some x
      → state_weight w (discard_chain s at p x).0 ≡ state_weight w s
  unfolding discard_chain discover_front
  discard_chain-weight s at p x e =
      let taken = set_summon (get s.players p) at none in
      let players' = put s.players p taken in
      let owned = get players' x.owner in
      let discarded = record owned { discard = owned.discard ++ layers x.chain } in
      omega (
        arith,
        weight-put w s.players s.stack p taken,
        weight-set_summon w (get s.players p) at none,
        ap (summon_weight w) e,
        weight-put w players' s.stack x.owner discarded,
        discard_weight owned x,
      )
    where
      discard_weight :
          (owned : PlayerState) (x : SummonInstance)
          → player_weight w (record owned { discard = owned.discard ++ layers x.chain })
            ≡ player_weight w owned + sum_by w (layers x.chain)
      discard_weight owned x =
          unfold player_weight in omega (arith, sum_by-append w owned.discard (layers x.chain))

  discard_destroyed-weight :
      (s : GameState) (at : Position)
      → state_weight w (discard_destroyed_chain s at).0 ≡ state_weight w s
  unfolding discard_destroyed_chain break_game
  discard_destroyed-weight s at = elim (Result-cases (destroyed_among s at (ordered_players s))) [
    | inl (none, e) ↦ rw (e, discard_destroyed_chain)
    | inl (some p, e) ↦ elim (Option-cases (summon_at (get s.players p) at)) [
      | inl f ↦ rw (e, f, discard_destroyed_chain)
      | inr (x, f) ↦ rw (e, f, discard_destroyed_chain) (discard_chain-weight s at p x f)
    ]
    | inr (b, e) ↦ rw (e, discard_destroyed_chain)
  ]

  weight-promote :
      (ps : PlayerState) (slot : BenchSlot) (x : SummonInstance)
      → get_at ps.bench (index slot) ≡ some x
      → player_weight w (promote ps slot x) + summon_weight w ps.main ≡ player_weight w ps
  unfolding player_weight
  weight-promote ps slot x e =
      omega (arith, bench_weight-set w ps.bench slot none, ap (summon_weight w) e)

  -- A promotion loses the Summon that it writes over, and no other card.
  pub promote_from_slot-weight :
      (s : GameState) (p : PlayerId) (slot : BenchSlot)
      → is_some (get_at (get s.players p).bench (index slot)) ≡ true
      → state_weight w (promote_from_slot s p slot).0 + summon_weight w (get s.players p).main
        ≡ state_weight w s
  unfolding promote_from_slot
  promote_from_slot-weight s p slot h =
      let ps = get s.players p in
      elim (Option-cases (get_at ps.bench (index slot))) [
        | inl e ↦ ground (arith, e)
        | inr (x, e) ↦
            rw (e, promote_from_slot)
              (omega (
                arith,
                weight-put w s.players s.stack p (promote ps slot x),
                weight-promote ps slot x e,
              ))
      ]

  fire-weight :
      (s : GameState) (f : FiringTrigger) (trigger : Bool × List EffectLeaf)
      → state_weight w (fire s f trigger).0 ≡ state_weight w s
  unfolding fire open_segment
  fire-weight s f (true, effects) = omega (
    arith,
    weight-push w s.players
        (StackItem.trigger f.player f.position f.ability f.event
          (implicit_targets f.position effects) effects)
        s.stack,
  )
  fire-weight s f (false, effects) = apply_leaves-weight w s _ _ effects

  fire_queued-weight :
      (s : GameState) (p : PlayerId) (at : Position) (event : TriggerEvent) (a : EntityId)
      → state_weight w (fire_queued s p at event a).0 ≡ state_weight w s
  unfolding fire_queued
  fire_queued-weight s p at event a = elim (Option-cases (ability_at s p at a)) [
    | inl e ↦ rw (e, fire_queued)
    | inr (t, e) ↦ rw (e, fire_queued) (fire-weight s _ t)
  ]

  record_entry-weight :
      (s : GameState) (step : MovementStep) (p : PlayerId) (at : Position)
      → state_weight w (record_entry s step p at) ≡ state_weight w s
  unfolding record_entry
  record_entry-weight s step p at = elim (Bool-cases (is_entering_main step && is_main at)) [
    | inr e ↦ rw (e, record_entry)
    | inl e ↦ elim (Option-cases ((get s.players p).main)) [
      | inl f ↦ rw (e, f, record_entry)
      | inr (x, f) ↦
          rw (e, f, record_entry)
            (weight-put_same w s.players s.stack p _
              (weight-rewrite w (get s.players p) Position.main x (enter_main x) f refl))
    ]
  ]

  after_draw-weight :
      (r : GameState × List GameEvent × DrawOutcome)
      → state_weight w (after_draw r).0 ≡ state_weight w r.0
  unfolding after_draw Loss.draw_failure
  after_draw-weight (s, events, DrawOutcome.drew) = refl
  after_draw-weight (s, events, DrawOutcome.deck_empty) = refl

  draw_card-weight : (s : GameState) → state_weight w (draw_card s).0 ≡ state_weight w s
  unfolding draw_card player_weight
  draw_card-weight s =
      let ps = get s.players s.turn.active_player in
      elim (List-cases ps.deck) [
        | inl e ↦ rw (e, draw_card)
        | inr (c, deck, e) ↦
            rw (e, draw_card)
              (weight-put_same w s.players s.stack s.turn.active_player _
                (omega (arith, ap (sum_by w) e, sum_by-append w ps.hand (c ∷ []))))
      ]

  draw-weight : (s : GameState) → state_weight w (execute_draw s).0 ≡ state_weight w s
  unfolding execute_draw
  draw-weight s = after_draw-weight (draw_card s) ∙ draw_card-weight s

  loss_check-weight :
      (s : GameState) (p : PlayerId) → state_weight w (Loss.check s p).0 ≡ state_weight w s
  unfolding Loss.check
  loss_check-weight s p = elim (Bool-cases (leb 3 (get s.players p).main_losses)) [
    | inl e ↦ rw (e, Loss.check)
    | inr e ↦ elim (Bool-cases (Loss.board_is_empty (get s.players p))) [
      | inl f ↦ rw (e, f, Loss.check)
      | inr f ↦ rw (e, f, Loss.check)
    ]
  ]

  record_loss-weight :
      (s : GameState) (p : PlayerId) → state_weight w (record_main_loss s p).0 ≡ state_weight w s
  unfolding record_main_loss player_weight
  record_loss-weight s p = weight-put_same w s.players s.stack p _ refl

  recover_prize-weight :
      (s : GameState) (p : PlayerId) → state_weight w (recover_prize s p).0 ≡ state_weight w s
  unfolding recover_prize
  recover_prize-weight s p = elim (List-cases (get s.players p).prizes) [
    | inl e ↦ rw (e, recover_prize)
    | inr (c, rest, e) ↦ rw (e, recover_prize)
  ]

  resolve_movement-weight :
      (s : GameState) (p : PlayerId)
      → state_weight w (resolve_movement_consequences s p).0 ≡ state_weight w s
  unfolding resolve_movement_consequences
  resolve_movement-weight s p = elim (Bool-cases (is_some (get s.players p).main)) [
    | inl e ↦ rw (e, resolve_movement_consequences)
    | inr e ↦ rw (e, resolve_movement_consequences)
  ]

  promote_among-weight :
      (s : GameState) (p : PlayerId) (slots : List BenchSlot)
      → all (λ slot. is_some (get_at (get s.players p).bench (index slot))) slots ≡ true
      → state_weight w (promote_among s p slots).0 + summon_weight w (overwritten_by s p slots)
        ≡ state_weight w s
  unfolding promote_among overwritten_by
  promote_among-weight s p [] h = omega arith
  promote_among-weight s p (slot ∷ []) h = promote_from_slot-weight s p slot (ground (arith, h))
  promote_among-weight s p (_ ∷ _ ∷ _) h = omega arith

  ready_all-weight : (s : GameState) → state_weight w (ready_all s).0 ≡ state_weight w s
  unfolding ready_all
  ready_all-weight s =
      weight-put_same w s.players s.stack s.turn.active_player _
        (player_weight-map_board make_ready (λ x. refl) _)

  movement-weight :
      (s : GameState) (step : MovementStep) (p : PlayerId) (at : Position)
      → state_weight w (movement_trigger s step p at).0 ≡ state_weight w s
  unfolding movement_trigger
  movement-weight s step p at = record_entry-weight s step p at

  -- A work item makes no card, and loses none but the Main Summon that a promotion writes over:
  -- under every weight of a card, what it leaves and what is written over weigh as much as
  -- before.
  pub execute-weight :
      (s : GameState) (item : WorkItem)
      → state_weight w (execute s item).0 + summon_weight w (overwritten s item) ≡ state_weight w s
  unfolding execute overwritten promote_bench_summon begin_main_phase check
  execute-weight s WorkItem.ready_all = omega (arith, ready_all-weight s)
  execute-weight s WorkItem.draw_card = omega (arith, draw-weight s)
  execute-weight s (WorkItem.produce_mana p source) =
      omega (arith, produce_mana-weight w s p source)
  execute-weight s WorkItem.begin_main_phase = omega arith
  execute-weight s (WorkItem.destruction_check at) =
      omega (arith, check_players-weight s at (ordered_players s))
  execute-weight s (WorkItem.discard_destroyed_chain at) =
      omega (arith, discard_destroyed-weight s at)
  execute-weight s (WorkItem.record_main_loss p) = omega (arith, record_loss-weight s p)
  execute-weight s (WorkItem.recover_prize p) = omega (arith, recover_prize-weight s p)
  execute-weight s (WorkItem.promote_bench_summon p) =
      promote_among-weight s p (occupied_slots (get s.players p))
        (all-filter (λ slot. is_some (get_at (get s.players p).bench (index slot))) all_slots)
  execute-weight s (WorkItem.resolve_movement_consequences p) =
      omega (arith, resolve_movement-weight s p)
  execute-weight s (WorkItem.movement_trigger step p at) =
      omega (arith, movement-weight s step p at)
  execute-weight s (WorkItem.fire_trigger p at event a) =
      omega (arith, fire_queued-weight s p at event a)
  execute-weight s (WorkItem.loss_check p) = omega (arith, loss_check-weight s p)
