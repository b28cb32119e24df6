-- ===== src/Segments/Invariant.antt =====
-- The segment bases of the Stack, followed through the rounds of the resolution loop:
-- crates/core/src/engine/resolution/mod.rs and engine/triggers/mod.rs.
use summoners.Prelude.{
  ℕ, suc, ◌≡◌, refl, sym, ap, ◌∙◌, subst, Bool, true, false, ◌&&◌, some, List, [], ◌∷◌, length, ltb,
  ◌==◌, arith, inl, inr, Bool-cases, Option-cases, List-cases,
}
use summoners.Domain.Ids.{PlayerId, Position}
use summoners.Domain.EntityId.{EntityId}
use summoners.Domain.Cards.{EffectLeaf, EffectSource, TriggerEvent}
use summoners.Domain.State.{GameState, StackItem, WorkItem, CardRef}
use summoners.Domain.Events.{GameEvent}
use summoners.Engine.Effects.{apply_leaves}
use summoners.Engine.Triggers.{FiringTrigger, fire, fire_queued, open_segment, ability_at}
use summoners.Engine.Priority.{current_base}
use summoners.Engine.Resolution.{
  drain, execute, resolve_top_stack_item, resolve_item, resolve_attack, resolve_spell, place_card,
  attacker_effects, settle_segment, settle_bases, stack_has_unresolved_items, spell_effects,
}
use summoners.Frame.Leaves.{apply_leaves-Frame}
use summoners.Rounds.{Round, drain-induction}
use summoners.Segments.Kept.{
  fire_of, SameStack, SameStack-refl, SameStack-trans, execute-SameStack, is_fire,
}

-- No base, or the one base 0 under a Stack that holds something.
abbrev pub one_segment : ℕ → List ℕ → Bool
one_segment height [] = true
one_segment height (base ∷ []) = base == 0 && ltb 0 height
one_segment height (_ ∷ _ ∷ _) = false

abbrev pub IsSegmented : GameState → Type 0
IsSegmented s = one_segment (length s.stack) s.stack_segment_bases ≡ true

pub SameStack-IsSegmented : {s t : GameState} → SameStack s t → IsSegmented s → IsSegmented t
SameStack-IsSegmented {s} {t} f h =
    ap (λ stack. one_segment (length stack) t.stack_segment_bases) f.stack
    ∙ ap (one_segment (length s.stack)) f.bases
    ∙ h

leaves-SameStack :
    (s : GameState) (source : EffectSource) (targets : List Position) (leaves : List EffectLeaf)
    → SameStack s (apply_leaves s source targets leaves).0
leaves-SameStack s source targets leaves =
    let f = apply_leaves-Frame s source targets leaves in
    record { stack = f.stack; bases = f.bases }

attack-SameStack :
    (s : GameState) (p : PlayerId) (at : Position) → SameStack s (resolve_attack s p at).0
unfolding resolve_attack
attack-SameStack s p at = elim (Option-cases (attacker_effects s p)) [
  | inl e ↦ rw (e, resolve_attack) (SameStack-refl s)
  | inr ((ability, effects), e) ↦ rw (e, resolve_attack) (leaves-SameStack s _ (at ∷ []) effects)
]

place_card-SameStack : (s : GameState) (p : PlayerId) (c : CardRef) → SameStack s (place_card s p c)
unfolding place_card
place_card-SameStack s p c = record { stack = refl; bases = refl }

resolve_item-SameStack : (s : GameState) (item : StackItem) → SameStack s (resolve_item s item).0
unfolding resolve_item resolve_spell
resolve_item-SameStack s (StackItem.attack p at) = attack-SameStack s p at
resolve_item-SameStack s (StackItem.spell p c targets) =
    SameStack-trans (leaves-SameStack s _ targets (spell_effects s.cards c.def))
      (place_card-SameStack _ p c)
resolve_item-SameStack s (StackItem.trigger p at ability event targets effects) =
    leaves-SameStack s _ targets effects

-- Popping the top of the Stack and taking off the base that it stood on.
settle-one_segment :
    (height : ℕ) (bases : List ℕ)
    → one_segment (suc height) bases ≡ true
    → one_segment height (settle_bases height bases) ≡ true
unfolding settle_bases
settle-one_segment height [] h = refl
settle-one_segment height (base ∷ []) h = ground (arith, h)
settle-one_segment height (_ ∷ _ ∷ _) h = cc

resolve_top-IsSegmented : (s : GameState) → IsSegmented s → IsSegmented (resolve_top_stack_item s).0
unfolding resolve_top_stack_item settle_segment
resolve_top-IsSegmented s h = elim (List-cases s.stack) [
  | inl e ↦ rw (e, resolve_top_stack_item) h
  | inr (item, below, e) ↦ rw (e, resolve_top_stack_item) (popped item below e)
]
  where
    popped :
        (item : StackItem) (below : List StackItem)
        → s.stack ≡ item ∷ below
        → IsSegmented (settle_segment (resolve_item (record s { stack = below }) item).0)
    popped item below e =
        let f = resolve_item-SameStack (record s { stack = below }) item in
        rw (f.stack, f.bases)
          (settle-one_segment (length below) s.stack_segment_bases
            (ap (λ stack. one_segment (length stack) s.stack_segment_bases) (sym e) ∙ h))

-- With one segment at most, the current segment has been drained only when the Stack is empty.
drained-empty :
    (height : ℕ) (bases : List ℕ)
    → one_segment height bases ≡ true
    → ltb (current_base bases) height ≡ false
    → (height ≡ 0) × (bases ≡ [])
drained-empty height [] h k = ground (arith, k)
drained-empty height (base ∷ []) h k = ground (arith, h, k)
drained-empty height (_ ∷ _ ∷ _) h k = cc

length-zero : {A : Type 0} (xs : List A) → length xs ≡ 0 → xs ≡ []
length-zero [] h = refl
length-zero (x ∷ xs) h = (let impossible : ⊥ = omega (arith, h) in absurd impossible)

-- In a segmented state, once the current segment is drained, the whole Stack is empty and no
-- segment is open.
pub drained-IsEmpty :
    (s : GameState)
    → IsSegmented s
    → stack_has_unresolved_items s ≡ false
    → (s.stack ≡ []) × (s.stack_segment_bases ≡ [])
drained-IsEmpty s h k =
    let (empty, none_open) = drained-empty (length s.stack) s.stack_segment_bases h k in
    (length-zero s.stack empty, none_open)

fire-IsSegmented :
    (s : GameState) (f : FiringTrigger) (t : Bool × List EffectLeaf)
    → s.stack ≡ []
    → s.stack_segment_bases ≡ []
    → IsSegmented s
    → IsSegmented (fire s f t).0
unfolding fire open_segment
fire-IsSegmented s f (true, effects) e b h =
    ap (λ bases. one_segment (suc (length s.stack)) (length s.stack ∷ bases)) b
    ∙ ap (λ stack. one_segment (suc (length stack)) (length stack ∷ [])) e
fire-IsSegmented s f (false, effects) e b h =
    SameStack-IsSegmented (leaves-SameStack s _ _ effects) h

fire_queued-IsSegmented :
    (s : GameState) (p : PlayerId) (at : Position) (event : TriggerEvent) (ability : EntityId)
    → s.stack ≡ []
    → s.stack_segment_bases ≡ []
    → IsSegmented s
    → IsSegmented (fire_queued s p at event ability).0
unfolding fire_queued
fire_queued-IsSegmented s p at event ability e b h =
    elim (Option-cases (ability_at s p at ability)) [
      | inl f ↦ rw (f, fire_queued) h
      | inr (t, f) ↦ rw (f, fire_queued) (fire-IsSegmented s _ t e b h)
    ]

execute-IsSegmented :
    (s : GameState) (item : WorkItem)
    → s.stack ≡ []
    → s.stack_segment_bases ≡ []
    → IsSegmented s
    → IsSegmented (execute s item).0
unfolding execute
execute-IsSegmented s item e b h = elim (Bool-cases (is_fire item)) [
  | inl f ↦
      (let (p, at, event, ability, g) = fire_of item f in
        subst (λ i. IsSegmented (execute s i).0) (sym g)
          (fire_queued-IsSegmented s p at event ability e b h))
  | inr f ↦ SameStack-IsSegmented (execute-SameStack s item f) h
]

-- A round of the resolution loop keeps the Stack segmented.
pub Round-IsSegmented :
    (s : GameState) (o : GameState × List GameEvent) → Round s o → IsSegmented s → IsSegmented o.0
Round-IsSegmented s o (Round.resolves _ _ e) h =
    subst (λ (x : GameState × List GameEvent). IsSegmented x.0) (sym e)
      (resolve_top-IsSegmented s h)
Round-IsSegmented s o (Round.works item work _ k _ e) h =
    let (empty, none_open) = drained-IsEmpty s h k in
    subst (λ (x : GameState × List GameEvent). IsSegmented x.0) (sym e)
      (execute-IsSegmented (record s { work = work }) item empty none_open h)

pub drain-IsSegmented :
    (fuel : ℕ) (s : GameState) {o : GameState × List GameEvent}
    → drain fuel s ≡ some o
    → IsSegmented s
    → IsSegmented o.0
drain-IsSegmented fuel s h =
    drain-induction (λ a b. IsSegmented a → IsSegmented b) (λ a k. k) (λ a b c f g k. g (f k))
      Round-IsSegmented fuel s h
