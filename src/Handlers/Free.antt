-- ===== src/Handlers/Free.antt =====
-- The guard of the free Main Phase, which engine/board/mod.rs and engine/skills/mod.rs share.
use summoners.Prelude.{
  ◌≡◌, ap, ◌∙◌, true, none, ok, guard, guard-eq-ok, >>=-eq-ok, not, is_some, is_some-none, arith,
}
use summoners.Domain.Errors.{ActionError}
use summoners.Domain.State.{GameState, is_main_phase}
use summoners.Engine.Outcome.{require_free_main_phase}

-- Nothing is pending, the phase is Main and no window is open.
pub record IsFreeMain (s : GameState) : Type 0 where
  pub settled : s.pending ≡ none
  pub phase : is_main_phase s.turn.phase ≡ true
  pub no_window : s.turn.window ≡ none

pub require_free_main_phase-eq-ok :
    (s : GameState) {u : Unit {0}} → require_free_main_phase s ≡ ok u → IsFreeMain s
unfolding require_free_main_phase
require_free_main_phase-eq-ok s h =
    let (_, a, h1) =
      >>=-eq-ok (guard (not (is_some s.pending)) ActionError.pending_input_mismatch) _ h in
    let b = guard-eq-ok _ ActionError.wrong_phase h1 in
    record {
      settled = is_some-none _ (ground (arith, guard-eq-ok _ ActionError.pending_input_mismatch a));
      phase = ground (arith, b);
      no_window = is_some-none _ (ground (arith, b));
    }

-- A state that pends, stands and waits as a free Main Phase does is one.
pub stays_free :
    (s t : GameState)
    → IsFreeMain s
    → t.pending ≡ s.pending
    → t.turn.phase ≡ s.turn.phase
    → t.turn.window ≡ s.turn.window
    → require_free_main_phase t ≡ ok tt
unfolding require_free_main_phase
stays_free s t f a b c =
    let settled : t.pending ≡ none = a ∙ f.settled in
    let phase : is_main_phase t.turn.phase ≡ true = ap is_main_phase b ∙ f.phase in
    let no_window : t.turn.window ≡ none = c ∙ f.no_window in rw (settled, phase, no_window)
