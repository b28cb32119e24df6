-- ===== src/Segments/Kept.antt =====
-- The work items and the handlers that leave the Stack and its segment bases alone.
use summoners.Prelude.{
  ◌≡◌, refl, ◌∙◌, Bool, true, false, none, some, List, [], ◌∷◌, arith, inl, inr, Option-cases,
  Result-cases,
}
use summoners.Domain.Ids.{PlayerId, Position, BenchSlot}
use summoners.Domain.EntityId.{EntityId}
use summoners.Domain.Cards.{TriggerEvent}
use summoners.Domain.State.{
  GameState, WorkItem, ManaSource, MovementStep, get, summon_at, break_game,
}
use summoners.Domain.Events.{GameEvent}
use summoners.Engine.Loss
use summoners.Engine.Upkeep.{
  DrawOutcome, ready_all, draw_card, produce_mana, produce_from, begin_main_phase, occupied_slots,
}
use summoners.Engine.Triggers.{movement_trigger, record_entry, discover_front}
use summoners.Engine.Destruction.{
  check, check_players, enqueue_destruction, is_destroyed, discard_destroyed_chain, discard_chain,
  destroyed_among, ordered_players, record_main_loss, recover_prize, promote_bench_summon,
  promote_among, promote_from_slot, resolve_movement_consequences,
}
use summoners.Engine.Resolution.{execute, execute_draw, after_draw}

pub record SameStack (s t : GameState) : Type 0 where
  pub stack : t.stack ≡ s.stack
  pub bases : t.stack_segment_bases ≡ s.stack_segment_bases

pub SameStack-refl : (s : GameState) → SameStack s s
SameStack-refl s = record { stack = refl; bases = refl }

pub SameStack-trans : {s t u : GameState} → SameStack s t → SameStack t u → SameStack s u
SameStack-trans f g = record { stack = g.stack ∙ f.stack; bases = g.bases ∙ f.bases }

pub produce_mana-SameStack :
    (s : GameState) (p : PlayerId) (source : ManaSource) → SameStack s (produce_mana s p source).0
unfolding produce_mana produce_from
produce_mana-SameStack s p source = ground arith

draw_card-SameStack : (s : GameState) → SameStack s (draw_card s).0
unfolding draw_card
draw_card-SameStack s = ground arith

after_draw-SameStack :
    (o : GameState × List GameEvent × DrawOutcome) → SameStack o.0 (after_draw o).0
unfolding after_draw Loss.draw_failure
after_draw-SameStack (s, events, DrawOutcome.drew) = SameStack-refl s
after_draw-SameStack (s, events, DrawOutcome.deck_empty) = record { stack = refl; bases = refl }

draw-SameStack : (s : GameState) → SameStack s (execute_draw s).0
unfolding execute_draw
draw-SameStack s = SameStack-trans (draw_card-SameStack s) (after_draw-SameStack (draw_card s))

check_players-SameStack :
    (s : GameState) (at : Position) (players : List PlayerId)
    → SameStack s (check_players s at players).0
unfolding check_players break_game enqueue_destruction
check_players-SameStack s at [] = SameStack-refl s
check_players-SameStack s at (p ∷ ps) = elim (Result-cases (is_destroyed s p at)) [
  | inl (true, e) ↦
      rw (e, check_players)
        (SameStack-trans {s = s} {t = enqueue_destruction s p at}
          (record { stack = refl; bases = refl })
          (check_players-SameStack (enqueue_destruction s p at) at ps))
  | inl (false, e) ↦ rw (e, check_players) (check_players-SameStack s at ps)
  | inr (b, e) ↦ rw (e, check_players) (record { stack = refl; bases = refl })
]

discard-SameStack : (s : GameState) (at : Position) → SameStack s (discard_destroyed_chain s at).0
unfolding discard_destroyed_chain break_game discard_chain discover_front
discard-SameStack s at = elim (Result-cases (destroyed_among s at (ordered_players s))) [
  | inl (none, e) ↦ rw (e, discard_destroyed_chain) (SameStack-refl s)
  | inl (some p, e) ↦ elim (Option-cases (summon_at (get s.players p) at)) [
    | inl f ↦ rw (e, f, discard_destroyed_chain) (SameStack-refl s)
    | inr (x, f) ↦ rw (e, f, discard_destroyed_chain) (record { stack = refl; bases = refl })
  ]
  | inr (b, e) ↦ rw (e, discard_destroyed_chain) (record { stack = refl; bases = refl })
]

recover-SameStack : (s : GameState) (p : PlayerId) → SameStack s (recover_prize s p).0
unfolding recover_prize
recover-SameStack s p = ground arith

pub promote_from_slot-SameStack :
    (s : GameState) (p : PlayerId) (slot : BenchSlot) → SameStack s (promote_from_slot s p slot).0
unfolding promote_from_slot
promote_from_slot-SameStack s p slot = ground arith

promote_among-SameStack :
    (s : GameState) (p : PlayerId) (slots : List BenchSlot)
    → SameStack s (promote_among s p slots).0
unfolding promote_among
promote_among-SameStack s p [] = SameStack-refl s
promote_among-SameStack s p (slot ∷ []) = promote_from_slot-SameStack s p slot
promote_among-SameStack s p (_ ∷ _ ∷ _) = record { stack = refl; bases = refl }

consequences-SameStack :
    (s : GameState) (p : PlayerId) → SameStack s (resolve_movement_consequences s p).0
unfolding resolve_movement_consequences
consequences-SameStack s p = ground arith

record_entry-SameStack :
    (s : GameState) (step : MovementStep) (p : PlayerId) (at : Position)
    → SameStack s (record_entry s step p at)
unfolding record_entry
record_entry-SameStack s step p at = ground arith

movement-SameStack :
    (s : GameState) (step : MovementStep) (p : PlayerId) (at : Position)
    → SameStack s (movement_trigger s step p at).0
unfolding movement_trigger
movement-SameStack s step p at =
    SameStack-trans (record_entry-SameStack s step p at) (record { stack = refl; bases = refl })

loss_check-SameStack : (s : GameState) (p : PlayerId) → SameStack s (Loss.check s p).0
unfolding Loss.check
loss_check-SameStack s p = ground arith

-- The items that cannot open a segment.
abbrev pub is_fire : WorkItem → Bool
is_fire (WorkItem.fire_trigger _ _ _ _) = true
is_fire _ = false

pub fire_of :
    (item : WorkItem)
    → is_fire item ≡ true
    → (p : PlayerId) × (at : Position) × (event : TriggerEvent) × (ability : EntityId) × (item
        ≡ WorkItem.fire_trigger p at event ability)
fire_of (WorkItem.fire_trigger p at event ability) f = (p, at, event, ability, refl)
fire_of WorkItem.ready_all f = cc
fire_of WorkItem.draw_card f = cc
fire_of (WorkItem.produce_mana p source) f = cc
fire_of WorkItem.begin_main_phase f = cc
fire_of (WorkItem.destruction_check at) f = cc
fire_of (WorkItem.discard_destroyed_chain at) f = cc
fire_of (WorkItem.record_main_loss p) f = cc
fire_of (WorkItem.recover_prize p) f = cc
fire_of (WorkItem.promote_bench_summon p) f = cc
fire_of (WorkItem.resolve_movement_consequences p) f = cc
fire_of (WorkItem.movement_trigger step p at) f = cc
fire_of (WorkItem.loss_check p) f = cc

pub execute-SameStack :
    (s : GameState) (item : WorkItem) → is_fire item ≡ false → SameStack s (execute s item).0
unfolding execute promote_bench_summon begin_main_phase check ready_all record_main_loss
execute-SameStack s WorkItem.ready_all h = record { stack = refl; bases = refl }
execute-SameStack s WorkItem.draw_card h = draw-SameStack s
execute-SameStack s (WorkItem.produce_mana p source) h = produce_mana-SameStack s p source
execute-SameStack s WorkItem.begin_main_phase h = record { stack = refl; bases = refl }
execute-SameStack s (WorkItem.destruction_check at) h =
    check_players-SameStack s at (ordered_players s)
execute-SameStack s (WorkItem.discard_destroyed_chain at) h = discard-SameStack s at
execute-SameStack s (WorkItem.record_main_loss p) h = record { stack = refl; bases = refl }
execute-SameStack s (WorkItem.recover_prize p) h = recover-SameStack s p
execute-SameStack s (WorkItem.promote_bench_summon p) h =
    promote_among-SameStack s p (occupied_slots (get s.players p))
execute-SameStack s (WorkItem.resolve_movement_consequences p) h = consequences-SameStack s p
execute-SameStack s (WorkItem.movement_trigger step p at) h = movement-SameStack s step p at
execute-SameStack s (WorkItem.fire_trigger p at event a) h = cc
execute-SameStack s (WorkItem.loss_check p) h = loss_check-SameStack s p
