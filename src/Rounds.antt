-- ===== src/Rounds.antt =====
-- The rounds of the resolution loop, crates/core/src/engine/resolution/mod.rs `drain`: what one
-- round does, and what many rounds do together.
use summoners.Prelude.{
  ℕ, zero, suc, ◌≡◌, refl, sym, subst, true, false, Option, none, some, List, [], ◌∷◌, ◌++◌, inl,
  inr, Bool-cases, Option-cases, List-cases,
}
use summoners.Domain.State.{GameState, WorkItem}
use summoners.Domain.Events.{GameEvent}
use summoners.Engine.Resolution.{
  drain, drain_step, execute, resolve_top_stack_item, rests, stack_has_unresolved_items,
}

-- A round resolves the top of the Stack while its segment has items, and works otherwise.
pub data Round (s : GameState) (o : GameState × List GameEvent) : Type 0 where
  resolves :
      rests s ≡ false
      → stack_has_unresolved_items s ≡ true
      → o ≡ resolve_top_stack_item s
      → Round s o
  works :
      (item : WorkItem) (work : List WorkItem)
      → rests s ≡ false
      → stack_has_unresolved_items s ≡ false
      → s.work ≡ item ∷ work
      → o ≡ execute (record s { work = work }) item
      → Round s o

pub some-injective {ℓ} : {A : Type ℓ} {o : Option A} {a b : A} → o ≡ some a → o ≡ some b → b ≡ a
some-injective h k = cc

pub drain_step-eq-some :
    (s : GameState) {o : GameState × List GameEvent} → drain_step s ≡ some o → Round s o
unfolding drain_step
drain_step-eq-some s {o} h = elim (Bool-cases (rests s)) [
  | inl e ↦ absurd (resting e)
  | inr e ↦ elim (Bool-cases (stack_has_unresolved_items s)) [
    | inl f ↦ Round.resolves e f (some-injective (step_resolves e f) h)
    | inr f ↦ elim (List-cases s.work) [
      | inl g ↦ absurd (idle e f g)
      | inr (item, work, g) ↦ Round.works item work e f g (some-injective (step_works e f g) h)
    ]
  ]
]
  where
    resting : rests s ≡ true → ⊥
    resting e = (let k : none ≡ some o = rw (e, drain_step) at h in cc)

    idle : rests s ≡ false → stack_has_unresolved_items s ≡ false → s.work ≡ [] → ⊥
    idle e f g = (let k : none ≡ some o = rw (e, f, g, drain_step) at h in cc)

    step_resolves :
        rests s ≡ false
        → stack_has_unresolved_items s ≡ true
        → drain_step s ≡ some (resolve_top_stack_item s)
    step_resolves e f = rw (e, f, drain_step)

    step_works :
        {item : WorkItem} {work : List WorkItem}
        → rests s ≡ false
        → stack_has_unresolved_items s ≡ false
        → s.work ≡ item ∷ work
        → drain_step s ≡ some (execute (record s { work = work }) item)
    step_works e f g = rw (e, f, g, drain_step)

-- A reflexive and transitive relation that every round keeps holds over the whole loop.
pub drain-induction {ℓ} :
    (R : GameState → GameState → Type ℓ)
    → ((s : GameState) → R s s)
    → ((s t u : GameState) → R s t → R t u → R s u)
    → ((s : GameState) (o : GameState × List GameEvent) → Round s o → R s o.0)
    → (fuel : ℕ) (s : GameState) {o : GameState × List GameEvent} → drain fuel s ≡ some o
    → R s o.0
unfolding drain
drain-induction R R-refl R-trans R-round zero s h = cc
drain-induction R R-refl R-trans R-round (suc fuel) s {o} h = elim (Option-cases (drain_step s)) [
  | inl e ↦ subst (λ (t : GameState × List GameEvent). R s t.0) (stopped e) (R-refl s)
  | inr ((t, events), e) ↦ elim (Option-cases (drain fuel t)) [
    | inl f ↦ absurd (starved e f)
    | inr ((u, later), f) ↦
        subst (λ (t : GameState × List GameEvent). R s t.0) (went_on e f)
          (R-trans s _ _ (R-round s (t, events) (drain_step-eq-some s e))
            (drain-induction R R-refl R-trans R-round fuel t f))
  ]
]
  where
    stopped : drain_step s ≡ none → (s, []) ≡ o
    stopped e = (let k : some (s, []) ≡ some o = rw (e, drain) at h in some-injective k refl)

    starved :
        {t : GameState} {events : List GameEvent}
        → drain_step s ≡ some (t, events)
        → drain fuel t ≡ none
        → ⊥
    starved e f = (let k : none ≡ some o = rw (e, f, drain) at h in cc)

    went_on :
        {t u : GameState} {events later : List GameEvent}
        → drain_step s ≡ some (t, events)
        → drain fuel t ≡ some (u, later)
        → (u, events ++ later) ≡ o
    went_on {u = u} {events} {later} e f =
        (let k : some (u, events ++ later) ≡ some o = rw (e, f, drain) at h in
          some-injective k refl)

-- The state that the loop returns is one where a round breaks out.
pub drain-IsSettled :
    (fuel : ℕ) (s : GameState) {o : GameState × List GameEvent}
    → drain fuel s ≡ some o
    → drain_step o.0 ≡ none
unfolding drain
drain-IsSettled zero s h = cc
drain-IsSettled (suc fuel) s {o} h = elim (Option-cases (drain_step s)) [
  | inl e ↦ (let k : some (s, []) ≡ some o = rw (e, drain) at h in cc)
  | inr ((t, events), e) ↦ elim (Option-cases (drain fuel t)) [
    | inl f ↦ (let k : none ≡ some o = rw (e, f, drain) at h in cc)
    | inr ((u, later), f) ↦
        (let k : some (u, events ++ later) ≡ some o = rw (e, f, drain) at h in
          let last : drain_step u ≡ none = drain-IsSettled fuel t f in
          subst (λ (x : GameState × List GameEvent). drain_step x.0 ≡ none)
            (sym (some-injective refl k)) last)
  ]
]
