-- ===== src/Session.antt =====
-- A whole match: crates/core/src/scenario.rs starts it, and crates/core/src/engine/apply/mod.rs
-- carries it on, one accepted action after the other.
pub mod Answers
use summoners.Prelude.{
  ℕ, ◌+◌, ◌≤◌, ◌≡◌, refl, sym, ap, subst, ◌∙◌, some, [], ok, err, Result, sum_by, inl, inr, arith,
}
use summoners.Domain.Ids.{CardInstanceId}
use summoners.Domain.CardSet.{CardSet}
use summoners.Domain.Actions.{GameAction}
use summoners.Domain.State.{GameState, CardRef}
use summoners.Engine.Outcome.{ActionOutcome}
use summoners.Engine.Apply.{apply}
use summoners.Scenario.{Scenario, from_scenario, all_card_refs, quiet_board}
use summoners.Scenario.Checks.{one_of}
use summoners.Scenario.Accepted.{IsStart, from_scenario-IsStart}
use summoners.Scenario.Begins.{from_scenario-weight}
use summoners.Conservation.Weight.{state_weight}
use summoners.Segments.Invariant.{IsSegmented}
use summoners.Transition.Laws.{IsAtRest, apply-IsAtRest, apply-IsSegmented, apply-weight}

-- The states of the match that a scenario starts: the parsed one, and what each accepted action
-- makes of one, rejected actions changing nothing.
pub data Reached (cards : CardSet) (scenario : Scenario) : GameState → Type 0 where
  begun : {s : GameState} → from_scenario cards scenario ≡ ok s → Reached cards scenario s
  acted :
      {s : GameState} (fuel : ℕ) (action : GameAction) {o : ActionOutcome}
      → Reached cards scenario s
      → apply fuel s action ≡ some (ok o)
      → Reached cards scenario o.state

module _ (cards : CardSet) (scenario : Scenario) where
  begun-IsSegmented :
      (s : GameState) → from_scenario cards scenario ≡ ok s → IsSegmented s × IsAtRest s
  unfolding quiet_board
  begun-IsSegmented s h =
      let start = (from_scenario-IsStart cards scenario s).0 h in
      subst (λ (t : GameState). IsSegmented t × IsAtRest t) (sym start.quiet)
        (refl, inr (refl, refl))

  -- In every state of a match there is at most one segment base, it is 0, and then the Stack is not
  -- empty; and the game waits for a decision or for Priority, is over, or has an empty Stack and no
  -- queued work.
  pub Reached-IsAtRest : (s : GameState) → Reached cards scenario s → IsSegmented s × IsAtRest s
  Reached-IsAtRest s (Reached.begun h) = begun-IsSegmented s h
  Reached-IsAtRest _ (Reached.acted fuel action r h) =
      let before = Reached-IsAtRest _ r in
      (apply-IsSegmented fuel _ action h before.0, apply-IsAtRest fuel _ action h before.0)

  -- No state of a match holds more of any card than the scenario describes, under every weight.
  pub Reached-weight :
      (w : CardRef → ℕ) (s : GameState)
      → Reached cards scenario s
      → state_weight w s ≤ sum_by w (all_card_refs scenario)
  Reached-weight w s (Reached.begun h) = omega (arith, from_scenario-weight w cards scenario s h)
  Reached-weight w _ (Reached.acted fuel action r h) =
      omega (arith, Reached-weight w _ r, apply-weight w fuel _ action h)

  Reached-accepted :
      (s : GameState) → Reached cards scenario s → (t : GameState) × IsStart cards scenario t
  Reached-accepted s (Reached.begun h) = (s, (from_scenario-IsStart cards scenario s).0 h)
  Reached-accepted _ (Reached.acted fuel action r h) = Reached-accepted _ r

  -- In no state of a match does a card instance stand in two places: all zones of both players, the
  -- chains on their boards and the Stack hold at most one card of each instance id.
  pub Reached-distinct :
      (s : GameState) (instance_id : CardInstanceId)
      → Reached cards scenario s
      → state_weight (one_of instance_id) s ≤ 1
  Reached-distinct s instance_id r =
      let start = (Reached-accepted s r).1 in
      omega (arith, Reached-weight (one_of instance_id) s r, start.distinct instance_id)
