-- ===== src/Calculation/Staged.antt =====
-- What the constraints of crates/core/src/engine/damage.rs promise of the final amount.
use summoners.Prelude.{
  ℕ, ◌≤◌, ◌≡◌, refl, ap, Bool, true, false, Option, none, some, List, [], ◌∷◌, ◌++◌, arith, inl,
  inr, Option-cases, Bool-cases, all, map, filter, filter_map, flat_map,
}
use summoners.Prelude.Words.{u32_max, saturating_add}
use summoners.Domain.CardSet
use summoners.Domain.Entity
use summoners.Domain.Field
use summoners.Domain.Cards.{DamageConstraints, DamageConstraint, Modifier, contains}
use summoners.Domain.State.{GameState, CardRef, get}
use summoners.Domain.Events.{DamageOperation, DamageStage, DamageOrigin}
use summoners.Rounds.{some-injective}
use summoners.Engine.Damage.{
  DamageIntent, DamageAdjustment, evaluate, run_adjustments, adjust, blocked, operate,
  collect_adjustments, additions_of, reductions_of, is_attack_on,
}

-- An addition only adds and a persistent reduction only reduces.
abbrev pub staged : DamageStage → DamageOperation → Bool
staged DamageStage.addition (DamageOperation.add _) = true
staged DamageStage.persistent_reduction (DamageOperation.reduce _) = true
staged DamageStage.clamp DamageOperation.clamp_to_zero = true
staged _ _ = false

abbrev pub is_staged : DamageAdjustment → Bool
is_staged a = staged a.stage a.operation

all-append :
    {A : Type 0} (p : A → Bool) (xs ys : List A)
    → all p xs ≡ true
    → all p ys ≡ true
    → all p (xs ++ ys) ≡ true
all-append p [] ys h k = k
all-append p (x ∷ xs) ys h k =
    let rest = all-append p xs ys (ground (arith, h)) k in ground (arith, h, rest)

all-flat_map :
    {A B : Type 0} (p : B → Bool) (f : A → List B) (xs : List A)
    → ((x : A) → all p (f x) ≡ true)
    → all p (flat_map f xs) ≡ true
all-flat_map p f [] h = refl
all-flat_map p f (x ∷ xs) h = all-append p (f x) (flat_map f xs) (h x) (all-flat_map p f xs h)

all-map :
    {A B : Type 0} (p : B → Bool) (f : A → B) (xs : List A)
    → ((x : A) → p (f x) ≡ true)
    → all p (map f xs) ≡ true
all-map p f [] h = refl
all-map p f (x ∷ xs) h = let rest = all-map p f xs h in let here = h x in ground (arith, rest, here)

all-filter_map :
    {A B : Type 0} (p : B → Bool) (f : A → Option B) (xs : List A)
    → ((x : A) (y : B) → f x ≡ some y → p y ≡ true)
    → all p (filter_map f xs) ≡ true
all-filter_map p f [] h = refl
all-filter_map p f (x ∷ xs) h = elim (Option-cases (f x)) [
  | inl e ↦ rw (e, all, filter_map) (all-filter_map p f xs h)
  | inr (y, e) ↦ rw (e, h x y e, all, filter_map) (all-filter_map p f xs h)
]

additions-staged :
    (s : GameState) (intent : DamageIntent) → all is_staged (additions_of s intent) ≡ true
unfolding additions_of
additions-staged s intent = all-map is_staged _ (filter _ intent.effect.additions) (λ x. refl)

reductions-staged : (s : GameState) (card : CardRef) → all is_staged (reductions_of s card) ≡ true
unfolding reductions_of
reductions-staged s card = elim (Option-cases (CardSet.get s.cards card.def)) [
  | inl e ↦ rw (e, reductions_of)
  | inr (x, e) ↦
      rw (e, reductions_of) (all-filter_map is_staged _ (Entity.all Field.passive x) reduces)
]
  where
    reduces :
        (m : Modifier) (y : DamageAdjustment)
        → elim m as (λ _. Option DamageAdjustment) [
          | Modifier.incoming_attack_damage_reduction amount ↦ some (record {
            stage = DamageStage.persistent_reduction;
            operation = DamageOperation.reduce amount;
            origin = DamageOrigin.persistent_card card.instance_id;
          })
          | Modifier.opposing_retreat_cost_delta _ ↦ none
        ]
          ≡ some y
        → is_staged y ≡ true
    reduces (Modifier.incoming_attack_damage_reduction amount) y h =
        ap is_staged (some-injective refl h)
    reduces (Modifier.opposing_retreat_cost_delta _) y h = cc

collected-staged :
    (s : GameState) (intent : DamageIntent) → all is_staged (collect_adjustments s intent) ≡ true
unfolding collect_adjustments
collected-staged s intent =
    all-append is_staged (additions_of s intent) _ (additions-staged s intent)
      (elim (Bool-cases (is_attack_on intent.context.source intent.context.target.controller)) [
        | inl e ↦ rw (e) (
            all-flat_map is_staged (reductions_of s)
              (get s.players intent.context.target.controller).enchantments (reductions-staged s))
        | inr e ↦ rw (e)
      ])

all-cons :
    {A : Type 0} (p : A → Bool) (x : A) (xs : List A)
    → all p (x ∷ xs) ≡ true
    → (p x ≡ true) × (all p xs ≡ true)
all-cons p x xs h = elim (Bool-cases (p x)) [
  | inl e ↦ (e, ground (arith, h, e))
  | inr e ↦ absurd (ground (arith, h, e))
]

module _ (cs : DamageConstraints) where
  adjust-unincreasable :
      (a : DamageAdjustment) (amount : ℕ)
      → contains cs DamageConstraint.unincreasable ≡ true
      → is_staged a ≡ true
      → (adjust cs a amount).0 ≤ amount
  unfolding adjust blocked operate
  adjust-unincreasable a amount h k = ground (arith, h, k)

  adjust-unpreventable :
      (a : DamageAdjustment) (amount : ℕ)
      → contains cs DamageConstraint.unpreventable ≡ true
      → is_staged a ≡ true
      → amount ≤ u32_max
      → (amount ≤ (adjust cs a amount).0) × ((adjust cs a amount).0 ≤ u32_max)
  unfolding adjust blocked operate saturating_add
  adjust-unpreventable a amount h k b = ground (arith, h, k, b)

  run-unincreasable :
      (as' : List DamageAdjustment) (amount : ℕ)
      → contains cs DamageConstraint.unincreasable ≡ true
      → all is_staged as' ≡ true
      → (run_adjustments cs as' amount).0 ≤ amount
  unfolding run_adjustments
  run-unincreasable [] amount h k = omega arith
  run-unincreasable (a ∷ as') amount h k =
      let (here, rest) = all-cons is_staged a as' k in
      let step = adjust-unincreasable a amount h here in
      let later = run-unincreasable as' (adjust cs a amount).0 h rest in omega (arith, step, later)

  run-unpreventable :
      (as' : List DamageAdjustment) (amount : ℕ)
      → contains cs DamageConstraint.unpreventable ≡ true
      → all is_staged as' ≡ true
      → amount ≤ u32_max
      → amount ≤ (run_adjustments cs as' amount).0
  unfolding run_adjustments
  run-unpreventable [] amount h k b = omega arith
  run-unpreventable (a ∷ as') amount h k b =
      let (here, rest) = all-cons is_staged a as' k in
      let (step, bound) = adjust-unpreventable a amount h here b in
      let later = run-unpreventable as' (adjust cs a amount).0 h rest bound in
      omega (arith, step, later)

-- Unincreasable Damage is never above its base.
pub evaluate-unincreasable :
    (s : GameState) (intent : DamageIntent)
    → contains intent.effect.constraints DamageConstraint.unincreasable ≡ true
    → (evaluate s intent).amount ≤ intent.effect.base
unfolding evaluate
evaluate-unincreasable s intent h =
    run-unincreasable intent.effect.constraints (collect_adjustments s intent ++ _ ∷ [])
      intent.effect.base h
      (all-append is_staged (collect_adjustments s intent) _ (collected-staged s intent) refl)

-- Unpreventable Damage with a base that is a u32 is never below its base.
pub evaluate-unpreventable :
    (s : GameState) (intent : DamageIntent)
    → contains intent.effect.constraints DamageConstraint.unpreventable ≡ true
    → intent.effect.base ≤ u32_max
    → intent.effect.base ≤ (evaluate s intent).amount
unfolding evaluate
evaluate-unpreventable s intent h b =
    run-unpreventable intent.effect.constraints (collect_adjustments s intent ++ _ ∷ [])
      intent.effect.base h
      (all-append is_staged (collect_adjustments s intent) _ (collected-staged s intent) refl) b
