-- ===== src/Segments/Order.antt =====
-- The order in which crates/core/src/engine/resolution/mod.rs `drain` takes the items of the Stack
-- and the queued work.
use summoners.Prelude.{
  ℕ, ◌≡◌, refl, sym, ap, subst, true, some, List, [], ◌∷◌, length, arith, List-cases, inl, inr,
}
use summoners.Domain.State.{GameState, StackItem, WorkItem}
use summoners.Domain.Events.{GameEvent}
use summoners.Engine.Resolution.{drain, execute, resolve_top_stack_item, stack_has_unresolved_items}
use summoners.Rounds.{Round, drain-induction}
use summoners.Segments.Invariant.{IsSegmented, Round-IsSegmented, drained-IsEmpty}

-- The state `end` comes from a state by steps that resolve the top item of the Stack, whatever is
-- queued, and that execute the front of the queue only on an empty Stack with no segment open.
pub data StackFirst (end : GameState) : GameState → Type 0 where
  ends : {s : GameState} → s ≡ end → StackFirst end s
  resolves :
      {s : GameState} (item : StackItem) (below : List StackItem)
      → s.stack ≡ item ∷ below
      → StackFirst end (resolve_top_stack_item s).0
      → StackFirst end s
  works :
      {s : GameState} (item : WorkItem) (work : List WorkItem)
      → s.stack ≡ []
      → s.stack_segment_bases ≡ []
      → s.work ≡ item ∷ work
      → StackFirst end (execute (record s { work = work }) item).0
      → StackFirst end s

StackFirst-trans : {t u s : GameState} → StackFirst t s → StackFirst u t → StackFirst u s
StackFirst-trans {u = u} (StackFirst.ends e) k = subst (StackFirst u) (sym e) k
StackFirst-trans (StackFirst.resolves item below e f) k =
    StackFirst.resolves item below e (StackFirst-trans f k)
StackFirst-trans (StackFirst.works item work e b q f) k =
    StackFirst.works item work e b q (StackFirst-trans f k)

-- A segment with items stands on a Stack with items.
unresolved-filled :
    (s : GameState)
    → stack_has_unresolved_items s ≡ true
    → (item : StackItem) × (below : List StackItem) × (s.stack ≡ item ∷ below)
unresolved-filled s h = elim (List-cases s.stack) [
  | inl e ↦
      (let impossible : ⊥ = ground (arith, h, ap (λ stack. length stack) e) in absurd impossible)
  | inr (item, below, e) ↦ (item, below, e)
]

Round-StackFirst :
    (s : GameState) (o : GameState × List GameEvent) → Round s o → IsSegmented s → StackFirst o.0 s
Round-StackFirst s o (Round.resolves _ f e) h =
    let (item, below, filled) = unresolved-filled s f in
    StackFirst.resolves item below filled
      (StackFirst.ends (ap (λ (x : GameState × List GameEvent). x.0) (sym e)))
Round-StackFirst s o (Round.works item work _ f g e) h =
    let (empty, none_open) = drained-IsEmpty s h f in
    StackFirst.works item work empty none_open g
      (StackFirst.ends (ap (λ (x : GameState × List GameEvent). x.0) (sym e)))

-- From a segmented state the resolution loop gets to its end by resolving the Stack from its top,
-- whatever work is queued, and executes the front of the queue only when the whole Stack is empty
-- and no segment is open: destruction checks, Promotions and queued Triggers among it.
pub drain-StackFirst :
    (fuel : ℕ) (s : GameState) {o : GameState × List GameEvent}
    → drain fuel s ≡ some o
    → IsSegmented s
    → StackFirst o.0 s
drain-StackFirst fuel s h k =
    (drain-induction (λ a b. IsSegmented a → IsSegmented b × StackFirst b a)
      (λ a g. (g, StackFirst.ends refl))
      (λ a b c f g start.
        let middle = f start in let last = g middle.0 in (last.0, StackFirst-trans middle.1 last.1))
      (λ a b r g. (Round-IsSegmented a b r g, Round-StackFirst a b r g)) fuel s h k).1
