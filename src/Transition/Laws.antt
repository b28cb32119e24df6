-- ===== src/Transition/Laws.antt =====
-- The laws of `apply` of crates/core/src/engine/apply/mod.rs.
use summoners.Prelude.{
  ℕ, ◌≤◌, ◌≡◌, sym, ap, subst, ◌⊎◌, true, none, some, [], ok, arith, inl, inr, Bool-cases,
  List-cases,
}
use summoners.Domain.Ids.{PlayerId, player_eq}
use summoners.Domain.Actions.{GameAction, actor}
use summoners.Domain.State.{GameState, GameStatus, CardRef}
use summoners.Engine.Outcome.{ActionOutcome}
use summoners.Engine.Resolution.{
  drain_step, execute, resolve_top_stack_item, rests, stack_has_unresolved_items,
}
use summoners.Engine.Apply.{apply, resign, required_actor}
use summoners.Rounds.{drain-IsSettled}
use summoners.Segments.Invariant.{IsSegmented, drain-IsSegmented, drained-IsEmpty}
use summoners.Segments.Dispatch.{dispatch-IsSegmented}
use summoners.Conservation.Weight.{state_weight}
use summoners.Conservation.Dispatch.{dispatch-weight}
use summoners.Conservation.Drain.{drain-weight}
use summoners.Transition.Accepted.{Accepted, apply-eq-ok}

Accepted-IsSegmented :
    (fuel : ℕ) (s : GameState) (action : GameAction) {o : ActionOutcome}
    → Accepted fuel s action o
    → IsSegmented s
    → IsSegmented o.state
Accepted-IsSegmented fuel s action (Accepted.resigned p _ _ e) k =
    subst (λ (x : ActionOutcome). IsSegmented x.state) (sym e) k
Accepted-IsSegmented fuel s action (Accepted.handled mid done _ _ d r e) k =
    subst (λ (x : ActionOutcome). IsSegmented x.state) (sym e)
      (drain-IsSegmented fuel mid.state r (dispatch-IsSegmented s action d k))

-- Every accepted action keeps the Stack segmented: there is at most one segment base, it is 0, and
-- then the Stack is not empty.
pub apply-IsSegmented :
    (fuel : ℕ) (s : GameState) (action : GameAction) {o : ActionOutcome}
    → apply fuel s action ≡ some (ok o)
    → IsSegmented s
    → IsSegmented o.state
apply-IsSegmented fuel s action h = Accepted-IsSegmented fuel s action (apply-eq-ok fuel s action h)

Accepted-weight :
    (w : CardRef → ℕ) (fuel : ℕ) (s : GameState) (action : GameAction) {o : ActionOutcome}
    → Accepted fuel s action o
    → state_weight w o.state ≤ state_weight w s
Accepted-weight w fuel s action (Accepted.resigned p _ _ e) =
    omega (arith, ap (λ (x : ActionOutcome). state_weight w x.state) e)
Accepted-weight w fuel s action (Accepted.handled mid done _ _ d r e) = omega (
  arith,
  ap (λ (x : ActionOutcome). state_weight w x.state) e,
  drain-weight w fuel mid.state r,
  dispatch-weight w s action d,
)

-- An accepted action never makes a card: under every weight of a card, hence also counting the
-- copies of any one card, all zones and the Stack together weigh at most what they did before.
pub apply-weight :
    (w : CardRef → ℕ) (fuel : ℕ) (s : GameState) (action : GameAction) {o : ActionOutcome}
    → apply fuel s action ≡ some (ok o)
    → state_weight w o.state ≤ state_weight w s
apply-weight w fuel s action h = Accepted-weight w fuel s action (apply-eq-ok fuel s action h)

-- A state that the resolution loop leaves: it waits for a decision or for Priority, the game is
-- over, or nothing is left to do.
abbrev pub IsAtRest : GameState → Type 0
IsAtRest s = (rests s ≡ true) ⊎ ((s.stack ≡ []) × (s.work ≡ []))

settled-IsAtRest : (s : GameState) → IsSegmented s → drain_step s ≡ none → IsAtRest s
unfolding drain_step
settled-IsAtRest s k h = elim (Bool-cases (rests s)) [
  | inl e ↦ inl e
  | inr e ↦ elim (Bool-cases (stack_has_unresolved_items s)) [
    | inl f ↦ (let l : some (resolve_top_stack_item s) ≡ none = rw (e, f, drain_step) at h in cc)
    | inr f ↦ elim (List-cases s.work) [
      | inl g ↦ inr ((drained-IsEmpty s k f).0, g)
      | inr (item, work, g) ↦
          (let l : some (execute (record s { work = work }) item) ≡ none =
              rw (e, f, g, drain_step) at h in
            cc)
    ]
  ]
]

Accepted-IsAtRest :
    (fuel : ℕ) (s : GameState) (action : GameAction) {o : ActionOutcome}
    → Accepted fuel s action o
    → IsSegmented s
    → IsAtRest o.state
Accepted-IsAtRest fuel s action (Accepted.resigned p _ _ e) k =
    subst (λ (x : ActionOutcome). IsAtRest x.state) (sym e) (inl (ground arith))
Accepted-IsAtRest fuel s action (Accepted.handled mid done _ _ d r e) k =
    subst (λ (x : ActionOutcome). IsAtRest x.state) (sym e)
      (settled-IsAtRest done.0
        (drain-IsSegmented fuel mid.state r (dispatch-IsSegmented s action d k))
        (drain-IsSettled fuel mid.state r))

-- After an accepted action on a segmented state, the game waits for a decision or for Priority, is
-- over, or has an empty Stack and no queued work.
pub apply-IsAtRest :
    (fuel : ℕ) (s : GameState) (action : GameAction) {o : ActionOutcome}
    → apply fuel s action ≡ some (ok o)
    → IsSegmented s
    → IsAtRest o.state
apply-IsAtRest fuel s action h = Accepted-IsAtRest fuel s action (apply-eq-ok fuel s action h)

-- An accepted action finds the game playing, and is a resignation or comes from the player that
-- the state waits for.
pub apply-actor :
    (fuel : ℕ) (s : GameState) (action : GameAction) {o : ActionOutcome}
    → apply fuel s action ≡ some (ok o)
    → (s.status ≡ GameStatus.playing)
      × (((p : PlayerId) × (action ≡ GameAction.resign p) × (o ≡ resign s p))
          ⊎ (player_eq (actor action) (required_actor s) ≡ true))
apply-actor fuel s action h = elim (apply-eq-ok fuel s action h) [
  | Accepted.resigned p a b c ↦ (a, inl (p, b, c))
  | Accepted.handled mid done a b _ _ _ ↦ (a, inr b)
]
