-- ===== src/Halting/Ends.antt =====
-- The resolution loop ends on every card pool without Triggered Abilities.
use summoners.Prelude.{
  ℕ, zero, suc, ◌≤◌, ◌<◌, ◌≡◌, refl, sym, ap, subst, true, none, some, List, [], ◌∷◌, ◌++◌, arith,
  inl, inr, ◌⊎◌, length, Bool-cases, Option-cases, List-cases,
}
use summoners.Domain.State.{GameState, WorkItem}
use summoners.Domain.Events.{GameEvent}
use summoners.Domain.Cards.{EffectLeaf, EffectSource}
use summoners.Domain.Ids.{PlayerId, Position}
use summoners.Engine.Effects.{apply_leaves}
use summoners.Engine.Resolution.{
  attacker_effects, drain, drain_step, execute, place_card, resolve_attack, resolve_item,
  resolve_spell, resolve_top_stack_item, settle_segment, spell_effects, stack_has_unresolved_items,
}
use summoners.Domain.State.{StackItem}
use summoners.Frame.Leaves.{apply_leaves-Frame}
use summoners.Rounds.{Round, drain_step-eq-some}
use summoners.Engine.Triggers.{fire_queued}
use summoners.Segments.Kept.{execute-SameStack, fire_of, is_fire}
use summoners.Halting.Quiet.{IsTriggerFree, ability_at-none}
use summoners.Halting.Load.{load, execute-Spends}

-- The pool is kept and the Stack is as high as before.
record SameHeight (s t : GameState) : Type 0 where
  pub cards : t.cards ≡ s.cards
  height : length t.stack ≡ length s.stack

leaves-SameHeight :
    (s : GameState) (source : EffectSource) (targets : List Position) (leaves : List EffectLeaf)
    → SameHeight s (apply_leaves s source targets leaves).0
leaves-SameHeight s source targets leaves =
    let f = apply_leaves-Frame s source targets leaves in
    record { cards = f.cards; height = ap length f.stack }

attack-SameHeight :
    (s : GameState) (p : PlayerId) (at : Position) → SameHeight s (resolve_attack s p at).0
unfolding resolve_attack
attack-SameHeight s p at = elim (Option-cases (attacker_effects s p)) [
  | inl e ↦ rw (e, resolve_attack) (record { cards = refl; height = refl })
  | inr ((ability, effects), e) ↦ rw (e, resolve_attack) (leaves-SameHeight s _ (at ∷ []) effects)
]

resolve_item-SameHeight : (s : GameState) (item : StackItem) → SameHeight s (resolve_item s item).0
unfolding resolve_item resolve_spell place_card
resolve_item-SameHeight s (StackItem.attack p at) = attack-SameHeight s p at
resolve_item-SameHeight s (StackItem.spell p c targets) =
    let f =
      leaves-SameHeight s (EffectSource.spell p c.instance_id c.def) targets
        (spell_effects s.cards c.def) in
    record { cards = f.cards; height = f.height }
resolve_item-SameHeight s (StackItem.trigger p at ability event targets effects) =
    leaves-SameHeight s _ targets effects

-- A round that resolves takes one item off the Stack.
resolve_top_lowers :
    (s : GameState)
    → stack_has_unresolved_items s ≡ true
    → ((resolve_top_stack_item s).0.cards ≡ s.cards)
      × (length (resolve_top_stack_item s).0.stack < length s.stack)
unfolding resolve_top_stack_item settle_segment
resolve_top_lowers s h = elim (List-cases s.stack) [
  | inl e ↦ absurd (empty e)
  | inr (item, below, e) ↦
      (let f = resolve_item-SameHeight (record s { stack = below }) item in
        rw (e, resolve_top_stack_item) (f.cards, omega (arith, f.height)))
]
  where
    empty : s.stack ≡ [] → ⊥
    empty e = ground (arith, ap length e, h)

-- Some fuel is enough for the loop from `s`.
abbrev pub Halts : GameState → Type 0
Halts s = (fuel : ℕ) × (o : GameState × List GameEvent) × (drain fuel s ≡ some o)

stopped-Halts : (s : GameState) → drain_step s ≡ none → Halts s
unfolding drain
stopped-Halts s e = (1, (s, []), rw (e, drain))

step-Halts :
    (s t : GameState) (events : List GameEvent)
    → drain_step s ≡ some (t, events)
    → Halts t
    → Halts s
unfolding drain
step-Halts s t events e (fuel, (u, later), f) = (suc fuel, (u, events ++ later), rw (e, f, drain))

-- Without Triggered Abilities no work item touches the Stack.
execute-height :
    (s : GameState) (item : WorkItem)
    → IsTriggerFree s.cards
    → length (execute s item).0.stack ≡ length s.stack
unfolding execute fire_queued
execute-height s item q = elim (Bool-cases (is_fire item)) [
  | inl f ↦
      (let (p, at, event, ability, g) = fire_of item f in
        subst (λ i. length (execute s i).0.stack ≡ length s.stack) (sym g)
          (rw (ability_at-none s p at ability q, fire_queued)))
  | inr f ↦ ap length (execute-SameStack s item f).stack
]

-- A round keeps the pool, and lowers the Stack, or keeps its height and lightens the work.
pub record Falls (s t : GameState) : Type 0 where
  pub cards : t.cards ≡ s.cards
  pub falls :
      (length t.stack < length s.stack)
      ⊎ ((length t.stack ≡ length s.stack) × (load t.work < load s.work))

works-Falls :
    (s : GameState) (item : WorkItem) (work : List WorkItem)
    → IsTriggerFree s.cards
    → s.work ≡ item ∷ work
    → Falls s (execute (record s { work = work }) item).0
works-Falls s item work q e =
    let f = execute-Spends (record s { work = work }) item q in
    let lighter = f.lighter in
    record {
      cards = f.cards;
      falls =
          inr (execute-height (record s { work = work }) item q, omega (arith, lighter, ap load e));
    }

pub Round-Falls :
    (s : GameState) (o : GameState × List GameEvent)
    → IsTriggerFree s.cards
    → Round s o
    → Falls s o.0
Round-Falls s o q (Round.resolves _ h e) =
    let (cards, lower) = resolve_top_lowers s h in
    subst (λ (x : GameState × List GameEvent). Falls s x.0) (sym e)
      (record { cards = cards; falls = inl lower })
Round-Falls s o q (Round.works item work _ _ g e) =
    subst (λ (x : GameState × List GameEvent). Falls s x.0) (sym e) (works-Falls s item work q g)

-- If every state that one round falls to halts, so does `s`.
fall-Halts :
    (s : GameState)
    → IsTriggerFree s.cards
    → ((t : GameState) → IsTriggerFree t.cards → length t.stack < length s.stack → Halts t)
    → ((t : GameState)
        → IsTriggerFree t.cards
        → length t.stack ≡ length s.stack
        → load t.work < load s.work
        → Halts t)
    → Halts s
fall-Halts s q lower lighter = elim (Option-cases (drain_step s)) [
  | inl e ↦ stopped-Halts s e
  | inr ((t, events), e) ↦
      (let f = Round-Falls s (t, events) q (drain_step-eq-some s e) in
        let q' = subst IsTriggerFree (sym f.cards) q in
        step-Halts s t events e
          (elim f.falls [ inl l ↦ lower t q' l | inr (same, l) ↦ lighter t q' same l ]))
]

-- The rounds fall in the height of the Stack first, and in the load of the work after it.
ends_below :
    (n m : ℕ) (s : GameState)
    → IsTriggerFree s.cards
    → length s.stack ≤ n
    → load s.work ≤ m
    → Halts s
ends_below zero zero s q h k =
    fall-Halts s q (λ t _ l. absurd (omega (arith, h, l))) (λ t _ _ l. absurd (omega (arith, k, l)))
ends_below zero (suc m) s q h k =
    fall-Halts s q (λ t _ l. absurd (omega (arith, h, l)))
      (λ t q' same l. ends_below zero m t q' (omega (arith, h, same)) (omega (arith, k, l)))
ends_below (suc n) zero s q h k =
    fall-Halts s q (λ t q' l. ends_below n (load t.work) t q' (omega (arith, h, l)) (omega arith))
      (λ t _ _ l. absurd (omega (arith, k, l)))
ends_below (suc n) (suc m) s q h k =
    fall-Halts s q (λ t q' l. ends_below n (load t.work) t q' (omega (arith, h, l)) (omega arith))
      (λ t q' same l. ends_below (suc n) m t q' (omega (arith, h, same)) (omega (arith, k, l)))

-- On a card pool that prints no Triggered Ability the resolution loop ends from every state: some
-- fuel is enough.
pub drain-Halts : (s : GameState) → IsTriggerFree s.cards → Halts s
drain-Halts s q = ends_below (length s.stack) (load s.work) s q (omega arith) (omega arith)
