-- ===== src/Halting/Load.antt =====
-- The load of queued work, which every work item lowers where no Triggered Ability is found.
use summoners.Prelude.{
  ℕ, ◌+◌, ◌*◌, ◌≤◌, ◌≡◌, refl, sym, ap, subst, ◌∙◌, true, false, none, some, List, [], ◌∷◌, ◌++◌,
  arith, inl, inr, Bool-cases, Option-cases, Result-cases, is_some, length, sum_by, sum_by-append,
}
use summoners.Domain.Ids.{PlayerId, Position, BenchSlot}
use summoners.Domain.EntityId.{EntityId}
use summoners.Domain.Cards.{TriggerEvent}
use summoners.Domain.State.{
  GameState, WorkItem, ManaSource, MovementStep, get, push_back, summon_at, break_game,
}
use summoners.Domain.Events.{GameEvent}
use summoners.Engine.Loss
use summoners.Engine.Upkeep.{
  DrawOutcome, ready_all, draw_card, produce_mana, produce_from, begin_main_phase, occupied_slots,
}
use summoners.Engine.Triggers.{
  movement_trigger, record_entry, fire_queued, discover_front, movement_event,
}
use summoners.Engine.Destruction.{
  check, check_players, destruction_steps, enqueue_destruction, is_destroyed,
  discard_destroyed_chain, discard_chain, destroyed_among, ordered_players, record_main_loss,
  recover_prize, promote_bench_summon, promote_among, promote_from_slot,
  resolve_movement_consequences,
}
use summoners.Engine.Resolution.{execute, execute_draw, after_draw}
use summoners.Halting.Quiet.{IsTriggerFree, ability_at-none, candidates-nil, fire_items-nil}

-- What an item and all that it can queue count together.
abbrev pub cost : WorkItem → ℕ
cost (WorkItem.destruction_check _) = 17
cost (WorkItem.resolve_movement_consequences _) = 3
cost _ = 1

abbrev pub load : List WorkItem → ℕ
load = sum_by cost

pub record SameWork (s t : GameState) : Type 0 where
  pub cards : t.cards ≡ s.cards
  pub work : t.work ≡ s.work

SameWork-refl : (s : GameState) → SameWork s s
SameWork-refl s = record { cards = refl; work = refl }

SameWork-trans : {s t u : GameState} → SameWork s t → SameWork t u → SameWork s u
SameWork-trans f g = record { cards = g.cards ∙ f.cards; work = g.work ∙ f.work }

-- The pool is kept, and the work outweighs that of `s` by less than `k`.
pub record Spends (k : ℕ) (s t : GameState) : Type 0 where
  pub cards : t.cards ≡ s.cards
  pub lighter : load t.work + 1 ≤ load s.work + k

lighter_by_one : {s t : GameState} → SameWork s t → Spends 1 s t
lighter_by_one f = record { cards = f.cards; lighter = omega (arith, ap load f.work) }

produce-SameWork :
    (s : GameState) (p : PlayerId) (source : ManaSource) → SameWork s (produce_mana s p source).0
unfolding produce_mana produce_from
produce-SameWork s p source = ground arith

draw_card-SameWork : (s : GameState) → SameWork s (draw_card s).0
unfolding draw_card
draw_card-SameWork s = ground arith

after_draw-SameWork : (o : GameState × List GameEvent × DrawOutcome) → SameWork o.0 (after_draw o).0
unfolding after_draw Loss.draw_failure
after_draw-SameWork (s, events, DrawOutcome.drew) = SameWork-refl s
after_draw-SameWork (s, events, DrawOutcome.deck_empty) = record { cards = refl; work = refl }

draw-SameWork : (s : GameState) → SameWork s (execute_draw s).0
unfolding execute_draw
draw-SameWork s = SameWork-trans (draw_card-SameWork s) (after_draw-SameWork (draw_card s))

recover-SameWork : (s : GameState) (p : PlayerId) → SameWork s (recover_prize s p).0
unfolding recover_prize
recover-SameWork s p = ground arith

promote-SameWork :
    (s : GameState) (p : PlayerId) (slots : List BenchSlot) → SameWork s (promote_among s p slots).0
unfolding promote_among promote_from_slot
promote-SameWork s p [] = SameWork-refl s
promote-SameWork s p (slot ∷ []) = ground arith
promote-SameWork s p (_ ∷ _ ∷ _) = record { cards = refl; work = refl }

loss-SameWork : (s : GameState) (p : PlayerId) → SameWork s (Loss.check s p).0
unfolding Loss.check
loss-SameWork s p = ground arith

record_entry-SameWork :
    (s : GameState) (step : MovementStep) (p : PlayerId) (at : Position)
    → SameWork s (record_entry s step p at)
unfolding record_entry
record_entry-SameWork s step p at = ground arith

movement-SameWork :
    (s : GameState) (step : MovementStep) (p : PlayerId) (at : Position)
    → IsTriggerFree s.cards
    → SameWork s (movement_trigger s step p at).0
unfolding movement_trigger
movement-SameWork s step p at q =
    let f = record_entry-SameWork s step p at in
    let s' = record_entry s step p at in
    let nothing =
      fire_items-nil s' p at (movement_event step) (subst IsTriggerFree (sym f.cards) q) in
    record { cards = f.cards; work = ap (λ items. items ++ s'.work) nothing ∙ f.work }

discard-SameWork :
    (s : GameState) (at : Position)
    → IsTriggerFree s.cards
    → SameWork s (discard_destroyed_chain s at).0
unfolding discard_destroyed_chain break_game discard_chain discover_front
discard-SameWork s at q = elim (Result-cases (destroyed_among s at (ordered_players s))) [
  | inl (none, e) ↦ rw (e, discard_destroyed_chain) (SameWork-refl s)
  | inl (some p, e) ↦ elim (Option-cases (summon_at (get s.players p) at)) [
    | inl f ↦ rw (e, f, discard_destroyed_chain) (SameWork-refl s)
    | inr (x, f) ↦
        rw (e, f, discard_destroyed_chain)
          (record { cards = refl; work = ap (λ items. items ++ s.work) (candidates-nil _ _ _ q) })
  ]
  | inr (b, e) ↦ rw (e, discard_destroyed_chain) (record { cards = refl; work = refl })
]

steps-load : (p : PlayerId) (at : Position) → load (destruction_steps p at) ≤ 8
steps-load p Position.main = omega arith
steps-load p (Position.bench slot) = omega arith

check_players-load :
    (s : GameState) (at : Position) (players : List PlayerId)
    → ((check_players s at players).0.cards ≡ s.cards)
      × (load (check_players s at players).0.work ≤ load s.work + 8 * length players)
unfolding check_players break_game enqueue_destruction
check_players-load s at [] = (refl, omega arith)
check_players-load s at (p ∷ ps) = elim (Result-cases (is_destroyed s p at)) [
  | inl (true, e) ↦
      (let t = push_back s (destruction_steps p at) in
        let (cards, bound) = check_players-load t at ps in
        let grown = sum_by-append cost s.work (destruction_steps p at) in
        let small = steps-load p at in
        rw (e, check_players) (cards, omega (arith, bound, grown, small)))
  | inl (false, e) ↦
      (let (cards, bound) = check_players-load s at ps in
        rw (e, check_players) (cards, omega (arith, bound)))
  | inr (b, e) ↦ rw (e, check_players) (refl, omega arith)
]

check-Spends : (s : GameState) (at : Position) → Spends 17 s (check s at).0
unfolding check
check-Spends s at =
    let (cards, bound) = check_players-load s at (ordered_players s) in
    record { cards = cards; lighter = omega (arith, bound) }

consequences-Spends :
    (s : GameState) (p : PlayerId) → Spends 3 s (resolve_movement_consequences s p).0
unfolding resolve_movement_consequences
consequences-Spends s p = elim (Bool-cases (is_some (get s.players p).main)) [
  | inl e ↦ rw (e, resolve_movement_consequences) (record { cards = refl; lighter = omega arith })
  | inr e ↦ rw (e, resolve_movement_consequences) (record { cards = refl; lighter = omega arith })
]

fire-SameWork :
    (s : GameState) (p : PlayerId) (at : Position) (event : TriggerEvent) (ability : EntityId)
    → IsTriggerFree s.cards
    → SameWork s (fire_queued s p at event ability).0
unfolding fire_queued
fire-SameWork s p at event ability q =
    rw (ability_at-none s p at ability q, fire_queued) (SameWork-refl s)

-- On a pool without Triggered Abilities, a work item keeps the pool and what it queues counts less
-- than the item itself.
pub execute-Spends :
    (s : GameState) (item : WorkItem)
    → IsTriggerFree s.cards
    → Spends (cost item) s (execute s item).0
unfolding execute promote_bench_summon begin_main_phase ready_all record_main_loss
execute-Spends s WorkItem.ready_all q = lighter_by_one (record { cards = refl; work = refl })
execute-Spends s WorkItem.draw_card q = lighter_by_one (draw-SameWork s)
execute-Spends s (WorkItem.produce_mana p source) q = lighter_by_one (produce-SameWork s p source)
execute-Spends s WorkItem.begin_main_phase q = lighter_by_one (record { cards = refl; work = refl })
execute-Spends s (WorkItem.destruction_check at) q = check-Spends s at
execute-Spends s (WorkItem.discard_destroyed_chain at) q = lighter_by_one (discard-SameWork s at q)
execute-Spends s (WorkItem.record_main_loss p) q =
    lighter_by_one (record { cards = refl; work = refl })
execute-Spends s (WorkItem.recover_prize p) q = lighter_by_one (recover-SameWork s p)
execute-Spends s (WorkItem.promote_bench_summon p) q =
    lighter_by_one (promote-SameWork s p (occupied_slots (get s.players p)))
execute-Spends s (WorkItem.resolve_movement_consequences p) q = consequences-Spends s p
execute-Spends s (WorkItem.movement_trigger step p at) q =
    lighter_by_one (movement-SameWork s step p at q)
execute-Spends s (WorkItem.fire_trigger p at event a) q =
    lighter_by_one (fire-SameWork s p at event a q)
execute-Spends s (WorkItem.loss_check p) q = lighter_by_one (loss-SameWork s p)
