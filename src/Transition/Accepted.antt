-- ===== src/Transition/Accepted.antt =====
-- What an accepted action went through: crates/core/src/engine/apply/mod.rs `apply`.
use summoners.Prelude.{
  ℕ, ◌≡◌, refl, true, Option, none, some, List, ◌++◌, ◌∙◌, Result, ok, err, ok-injective, inl, inr,
  Option-cases, ◌>>=◌, >>=-eq-ok, guard-eq-ok,
}
use summoners.Domain.Ids.{PlayerId, player_eq}
use summoners.Domain.Actions.{GameAction, actor}
use summoners.Domain.Errors.{ActionError}
use summoners.Domain.State.{GameState, GameStatus}
use summoners.Domain.Events.{GameEvent}
use summoners.Engine.Outcome.{ActionOutcome}
use summoners.Engine.Resolution.{drain}
use summoners.Engine.Apply.{
  apply, apply_by_status, apply_playing, check_actor, dispatch, drain_outcome, drain_result, resign,
  required_actor,
}
use summoners.Rounds.{some-injective}

-- The outcome of a handler with what the resolution loop made of it.
abbrev pub drained : ActionOutcome → GameState × List GameEvent → ActionOutcome
drained mid done = record { state = done.0; events = mid.events ++ done.1 }

pub data Accepted (fuel : ℕ) (s : GameState) (action : GameAction) (o : ActionOutcome)
    : Type 0 where
  resigned :
      (p : PlayerId)
      → s.status ≡ GameStatus.playing
      → action ≡ GameAction.resign p
      → o ≡ resign s p
      → Accepted fuel s action o
  handled :
      (mid : ActionOutcome) (done : GameState × List GameEvent)
      → s.status ≡ GameStatus.playing
      → player_eq (actor action) (required_actor s) ≡ true
      → dispatch s action ≡ ok mid
      → drain fuel mid.state ≡ some done
      → o ≡ drained mid done
      → Accepted fuel s action o

drain_outcome-eq-some :
    (fuel : ℕ) (mid : ActionOutcome) {o : ActionOutcome}
    → drain_outcome fuel mid ≡ some o
    → (done : GameState × List GameEvent) × (drain fuel mid.state ≡ some done)
      × (o ≡ drained mid done)
unfolding drain_outcome
drain_outcome-eq-some fuel mid {o} h = elim (Option-cases (drain fuel mid.state)) [
  | inl e ↦ absurd (starved e)
  | inr ((t, events), e) ↦ ((t, events), e, some-injective (ran e) h)
]
  where
    starved : drain fuel mid.state ≡ none → ⊥
    starved e = (let k : none ≡ some o = rw (e, drain_outcome) at h in cc)

    ran :
        {t : GameState} {events : List GameEvent}
        → drain fuel mid.state ≡ some (t, events)
        → drain_outcome fuel mid ≡ some (drained mid (t, events))
    ran e = rw (e, drain_outcome)

abbrev the_ok : ActionOutcome → Result ActionOutcome ActionError
the_ok o = ok o

err-ok : {A E : Type 0} {e : E} {a : A} {r : Result A E} → r ≡ ok a → r ≡ err e → ⊥
err-ok h k = cc

none-some : {A : Type 0} {a : A} {r : Option A} → r ≡ none → r ≡ some a → ⊥
none-some h k = cc

rejects : (fuel : ℕ) (e : ActionError) → drain_result fuel (err e) ≡ some (err e)
unfolding drain_result
rejects fuel e = refl

starves :
    (fuel : ℕ) (mid : ActionOutcome)
    → drain_outcome fuel mid ≡ none
    → drain_result fuel (ok mid) ≡ none
unfolding drain_result
starves fuel mid e = rw (e, drain_result)

runs :
    (fuel : ℕ) (mid : ActionOutcome) {mid' : ActionOutcome}
    → drain_outcome fuel mid ≡ some mid'
    → drain_result fuel (ok mid) ≡ some (ok mid')
unfolding drain_result
runs fuel mid e = rw (e, drain_result)

drain_result-eq-ok :
    (fuel : ℕ) (r : Result ActionOutcome ActionError) {o : ActionOutcome}
    → drain_result fuel r ≡ some (ok o)
    → (mid : ActionOutcome) × (done : GameState × List GameEvent) × (r ≡ ok mid)
      × (drain fuel mid.state ≡ some done)
      × (o ≡ drained mid done)
drain_result-eq-ok fuel (err e) h = absurd (rejected h)
  where
    rejected : {o : ActionOutcome} → drain_result fuel (err e) ≡ some (ok o) → ⊥
    rejected h = err-ok refl (some-injective (rejects fuel e) h)
drain_result-eq-ok fuel (ok mid) {o} h = elim (Option-cases (drain_outcome fuel mid)) [
  | inl e ↦ absurd (starved e)
  | inr (mid', e) ↦ found mid' e
]
  where
    starved : drain_outcome fuel mid ≡ none → ⊥
    starved e = none-some (starves fuel mid e) h

    found :
        (mid' : ActionOutcome)
        → drain_outcome fuel mid ≡ some mid'
        → (mid1 : ActionOutcome) × (done : GameState × List GameEvent) × (the_ok mid ≡ ok mid1)
          × (drain fuel mid1.state ≡ some done)
          × (o ≡ drained mid1 done)
    found mid' e =
        let (done, d, f) = drain_outcome-eq-some fuel mid e in
        (mid, done, refl, d, ok-injective refl (some-injective (runs fuel mid e) h) ∙ f)

gated :
    (fuel : ℕ) (s : GameState) (action : GameAction) {o : ActionOutcome}
    → s.status ≡ GameStatus.playing
    → drain_result fuel (check_actor s (actor action) >>= λ _. dispatch s action) ≡ some (ok o)
    → Accepted fuel s action o
gated fuel s action p h =
    let (mid, done, r, d, e) = drain_result-eq-ok fuel _ h in
    let (_, gate, k) = >>=-eq-ok (check_actor s (actor action)) _ r in
    Accepted.handled mid done p (guard-eq-ok _ _ gate) k d e

playing-eq-ok :
    (fuel : ℕ) (s : GameState) (action : GameAction) {o : ActionOutcome}
    → s.status ≡ GameStatus.playing
    → apply_playing fuel s action ≡ some (ok o)
    → Accepted fuel s action o
unfolding apply_playing
playing-eq-ok fuel s (GameAction.play_summon p c b) e h = gated fuel s _ e h
playing-eq-ok fuel s (GameAction.upgrade_summon p c at) e h = gated fuel s _ e h
playing-eq-ok fuel s (GameAction.cast_spell p c ts m) e h = gated fuel s _ e h
playing-eq-ok fuel s (GameAction.activate_skill p at a ts m) e h = gated fuel s _ e h
playing-eq-ok fuel s (GameAction.retreat p b m) e h = gated fuel s _ e h
playing-eq-ok fuel s (GameAction.declare_attack p at m) e h = gated fuel s _ e h
playing-eq-ok fuel s (GameAction.end_turn p) e h = gated fuel s _ e h
playing-eq-ok fuel s (GameAction.pass_priority p) e h = gated fuel s _ e h
playing-eq-ok fuel s (GameAction.convert_coin p t) e h = gated fuel s _ e h
playing-eq-ok fuel s (GameAction.choose_mana_type p t) e h = gated fuel s _ e h
playing-eq-ok fuel s (GameAction.choose_promotion p b) e h = gated fuel s _ e h
playing-eq-ok fuel s (GameAction.choose_prize p n) e h = gated fuel s _ e h
playing-eq-ok fuel s (GameAction.resign p) e h =
    Accepted.resigned p e refl (ok-injective refl (some-injective refl h))

status-eq-ok :
    (fuel : ℕ) (s : GameState) (status : GameStatus) (action : GameAction) {o : ActionOutcome}
    → s.status ≡ status
    → apply_by_status fuel s status action ≡ some (ok o)
    → Accepted fuel s action o
unfolding apply_by_status
status-eq-ok fuel s GameStatus.playing action e h = playing-eq-ok fuel s action e h
status-eq-ok fuel s (GameStatus.ended _) action e h = cc
status-eq-ok fuel s (GameStatus.broken _) action e h = cc

-- An accepted action came while the game was playing, and is a resignation, or an action of the
-- player the state waits for whose handler and whose resolution went through.
pub apply-eq-ok :
    (fuel : ℕ) (s : GameState) (action : GameAction) {o : ActionOutcome}
    → apply fuel s action ≡ some (ok o)
    → Accepted fuel s action o
unfolding apply
apply-eq-ok fuel s action h = status-eq-ok fuel s s.status action refl h
