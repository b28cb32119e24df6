-- ===== src/Calculation/Trace.antt =====
-- The trace of crates/core/src/engine/damage.rs `evaluate`.
use summoners.Prelude.{ℕ, ◌≡◌, refl, List, [], ◌∷◌, ◌++◌, inl, inr, Option-cases}
use summoners.Domain.Cards.{DamageConstraints}
use summoners.Domain.State.{GameState}
use summoners.Engine.Damage.{
  DamageIntent, DamageAdjustment, DamageLine, evaluate, run_adjustments, adjust, blocked, operate,
  collect_adjustments,
}

-- Each line starts from the amount that the line before it left, and a skipped one keeps it.
pub IsChain : ℕ → List DamageLine → ℕ → Type 0
IsChain from [] to = from ≡ to
IsChain from (DamageLine.applied _ _ _ input output ∷ lines) to =
    (input ≡ from) × IsChain output lines to
IsChain from (DamageLine.skipped _ _ _ input _ ∷ lines) to = (input ≡ from) × IsChain from lines to

module _ (cs : DamageConstraints) where
  run-IsChain :
      (as' : List DamageAdjustment) (amount : ℕ)
      → IsChain amount (run_adjustments cs as' amount).1 (run_adjustments cs as' amount).0
  unfolding run_adjustments IsChain adjust
  run-IsChain [] amount = refl
  run-IsChain (a ∷ as') amount = elim (Option-cases (blocked cs a.stage)) [
    | inl e ↦ rw (e, adjust) (refl, run-IsChain as' (operate a.operation amount))
    | inr (c, e) ↦ rw (e, adjust) (refl, run-IsChain as' amount)
  ]

-- The trace of an evaluation leads from the base of the effect to the amount, line by line.
pub evaluate-IsChain :
    (s : GameState) (intent : DamageIntent)
    → IsChain (evaluate s intent).base (evaluate s intent).lines (evaluate s intent).amount
unfolding evaluate
evaluate-IsChain s intent =
    run-IsChain intent.effect.constraints (collect_adjustments s intent ++ _ ∷ [])
      intent.effect.base
