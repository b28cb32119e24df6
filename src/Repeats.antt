-- ===== src/Repeats.antt =====
-- Two destruction checks of one position in a row: crates/core/src/engine/destruction/mod.rs.
use summoners.Prelude.{◌≡◌, refl, ap, ◌∙◌, true, false, List, [], ◌∷◌, ◌++◌, ok}
use summoners.Domain.Ids.{PlayerId, Position, opponent}
use summoners.Domain.State.{GameState, WorkItem, push_back}
use summoners.Domain.Events.{GameEvent}
use summoners.Engine.Destruction.{
  check, check_players, destruction_steps, enqueue_destruction, is_destroyed,
}

-- What is queued does not decide what is destroyed.
is_destroyed-push_back :
    (s : GameState) (items : List WorkItem) (p : PlayerId) (at : Position)
    → is_destroyed (push_back s items) p at ≡ is_destroyed s p at
unfolding is_destroyed
is_destroyed-push_back s items p at = refl

check_players-true :
    (s : GameState) (at : Position) (p : PlayerId) (ps : List PlayerId)
    → is_destroyed s p at ≡ ok true
    → check_players s at (p ∷ ps) ≡ check_players (push_back s (destruction_steps p at)) at ps
unfolding check_players enqueue_destruction
check_players-true s at p ps h = rw (h, check_players)

check_players-false :
    (s : GameState) (at : Position) (p : PlayerId) (ps : List PlayerId)
    → is_destroyed s p at ≡ ok false
    → check_players s at (p ∷ ps) ≡ check_players s at ps
unfolding check_players
check_players-false s at p ps h = rw (h, check_players)

-- A check queues the steps of the opponent of the active player, where only that player's Summon
-- at the position is destroyed.
once :
    (s : GameState) (at : Position)
    → is_destroyed s (opponent s.turn.active_player) at ≡ ok true
    → is_destroyed s s.turn.active_player at ≡ ok false
    → check s at ≡ (push_back s (destruction_steps (opponent s.turn.active_player) at), [])
unfolding check check_players
once s at h k =
    let other = opponent s.turn.active_player in
    check_players-true s at other (s.turn.active_player ∷ []) h
    ∙ check_players-false (push_back s (destruction_steps other at)) at s.turn.active_player []
        (is_destroyed-push_back s (destruction_steps other at) s.turn.active_player at ∙ k)

append_assoc : {A : Type 0} (xs ys zs : List A) → (xs ++ ys) ++ zs ≡ xs ++ (ys ++ zs)
append_assoc [] ys zs = refl
append_assoc (x ∷ xs) ys zs = ap (λ l. x ∷ l) (append_assoc xs ys zs)

-- A destruction check does not see that the same destruction is queued already: where the
-- opponent of the active player has a destroyed Summon at the position and the active player has
-- none, two checks in a row queue all its steps twice.
pub check-repeats :
    (s : GameState) (at : Position)
    → is_destroyed s (opponent s.turn.active_player) at ≡ ok true
    → is_destroyed s s.turn.active_player at ≡ ok false
    → (check (check s at).0 at).0
      ≡ push_back s (
          destruction_steps (opponent s.turn.active_player) at
          ++ destruction_steps (opponent s.turn.active_player) at)
check-repeats s at h k =
    let other = opponent s.turn.active_player in
    let steps = destruction_steps other at in
    let t = push_back s steps in
    ap (λ (o : GameState × List GameEvent). (check o.0 at).0) (once s at h k)
    ∙ ap (λ (o : GameState × List GameEvent). o.0)
        (once t at (is_destroyed-push_back s steps other at ∙ h)
          (is_destroyed-push_back s steps s.turn.active_player at ∙ k))
    ∙ ap (λ work. record s { work = work }) (append_assoc s.work steps steps)
