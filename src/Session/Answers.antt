-- ===== src/Session/Answers.antt =====
-- A match on a pool without Triggered Abilities: crates/core/src/engine/apply/mod.rs answers every
-- action in each of its states.
use summoners.Prelude.{ℕ, ◌≡◌, refl, sym, ap, subst, ◌∙◌, some, List}
use summoners.Domain.CardSet.{CardSet}
use summoners.Domain.Actions.{GameAction}
use summoners.Domain.State.{GameState}
use summoners.Domain.Events.{GameEvent}
use summoners.Engine.Outcome.{ActionOutcome}
use summoners.Engine.Resolution.{drain}
use summoners.Rounds.{drain-induction}
use summoners.Halting.Quiet.{IsTriggerFree}
use summoners.Halting.Ends.{Round-Falls}
use summoners.Halting.Apply.{Answers, apply-Answers, dispatch-cards}
use summoners.Transition.Accepted.{Accepted, apply-eq-ok}
use summoners.Scenario.{Scenario, quiet_board}
use summoners.Scenario.Accepted.{from_scenario-IsStart}
use summoners.Session.{Reached}

-- The pool is kept, if it is trigger-free.
KeepsPool : GameState → GameState → Type 0
KeepsPool s t = IsTriggerFree s.cards → t.cards ≡ s.cards

drain-KeepsPool :
    (fuel : ℕ) (s : GameState) {o : GameState × List GameEvent}
    → drain fuel s ≡ some o
    → KeepsPool s o.0
unfolding KeepsPool
drain-KeepsPool fuel s h =
    drain-induction KeepsPool (λ t q. refl)
      (λ s t u f g q. g (subst IsTriggerFree (sym (f q)) q) ∙ f q)
      (λ s o r q. (Round-Falls s o q r).cards) fuel s h

Accepted-KeepsPool :
    (fuel : ℕ) (s : GameState) (action : GameAction) {o : ActionOutcome}
    → Accepted fuel s action o
    → KeepsPool s o.state
unfolding KeepsPool
Accepted-KeepsPool fuel s action (Accepted.resigned p _ _ e) q =
    ap (λ (x : ActionOutcome). x.state.cards) e
Accepted-KeepsPool fuel s action (Accepted.handled mid done _ _ d r e) q =
    let same = dispatch-cards s action d in
    ap (λ (x : ActionOutcome). x.state.cards) e
    ∙ drain-KeepsPool fuel mid.state r (subst IsTriggerFree (sym same) q)
    ∙ same

module _ (cards : CardSet) (scenario : Scenario) where
  Reached-cards : (s : GameState) → IsTriggerFree cards → Reached cards scenario s → s.cards ≡ cards
  unfolding quiet_board KeepsPool
  Reached-cards s q (Reached.begun h) =
      ap (λ (t : GameState). t.cards) ((from_scenario-IsStart cards scenario s).0 h).quiet
  Reached-cards _ q (Reached.acted {s} fuel action r h) =
      let pool = Reached-cards s q r in
      Accepted-KeepsPool fuel s action (apply-eq-ok fuel s action h)
        (subst IsTriggerFree (sym pool) q)
      ∙ pool

  -- In a match on a pool that prints no Triggered Ability, some fuel is enough for `apply` to
  -- answer whatever action comes next.
  pub Reached-Answers :
      (s : GameState) (action : GameAction)
      → IsTriggerFree cards
      → Reached cards scenario s
      → Answers s action
  Reached-Answers s action q r =
      apply-Answers s action (subst IsTriggerFree (sym (Reached-cards s q r)) q)
