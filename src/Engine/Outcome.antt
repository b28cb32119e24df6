-- ===== src/Engine/Outcome.antt =====
-- What the handlers share: `ActionOutcome` of engine/apply/mod.rs, the Main Phase guard and the
-- payment chain that board, skills and stack each repeat.
use summoners.Prelude.{◌||◌, not, Option, List, map, Result, ok, err, ◌>>◌, guard, is_some}
use summoners.Domain.Ids.{PlayerId, ManaType}
use summoners.Domain.Cards.{Cost}
use summoners.Domain.Errors.{ActionError}
use summoners.Domain.State.{GameState, PlayerState, is_main_phase}
use summoners.Domain.Events.{GameEvent}
use summoners.Engine.Payment.{Payment, PaymentError, Deduction, deduct}

pub record ActionOutcome : Type 0 where
  pub state : GameState
  pub events : List GameEvent

unfoldable pub require_free_main_phase : GameState → Result (Unit {0}) ActionError
require_free_main_phase s = do
  guard (not (is_some s.pending)) ActionError.pending_input_mismatch
  guard (not (not (is_main_phase s.turn.phase) || is_some s.turn.window)) ActionError.wrong_phase

-- The `match payment::deduct(..)` of every paying handler.
abbrev pub as_action_error : Result Payment PaymentError → Result Payment ActionError
as_action_error (ok p) = ok p
as_action_error (err (PaymentError.insufficient short)) = err (ActionError.insufficient_mana short)
as_action_error (err PaymentError.invalid_hint) = err ActionError.invalid_mana_hint

unfoldable pub pay : PlayerState → Cost → Option ManaType → Result Payment ActionError
pay ps cost hint = as_action_error (deduct ps.mana cost hint)

abbrev pub deduction_events : PlayerId → List Deduction → List GameEvent
deduction_events player =
    map (λ (d : Deduction). GameEvent.mana_deducted player d.mana_type d.amount)
