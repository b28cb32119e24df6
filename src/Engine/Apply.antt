-- ===== src/Engine/Apply.antt =====
-- crates/core/src/engine/apply/mod.rs: the public transition and its actor gate. The fuel is that
-- of the resolution loop; `none` is fuel run out.
use summoners.Prelude.{ℕ, Option, none, some, [], ◌∷◌, ◌++◌, Result, ok, err, ◌>>=◌, guard}
use summoners.Domain.Ids.{PlayerId, opponent, player_eq}
use summoners.Domain.Actions.{GameAction, actor}
use summoners.Domain.Errors.{ActionError}
use summoners.Domain.State.{GameState, GameStatus, PendingInput, StackWindow, LossReason}
use summoners.Domain.Events.{GameEvent}
use summoners.Engine.Outcome.{ActionOutcome}
use summoners.Engine.Board
use summoners.Engine.Skills
use summoners.Engine.Priority
use summoners.Engine.Turn
use summoners.Engine.Destruction
use summoners.Engine.Resolution.{drain}

abbrev pub resign : GameState → PlayerId → ActionOutcome
resign s player = record {
  state = record s {
    status =
        GameStatus.ended (record { winner = opponent player; reason = LossReason.resignation });
  };
  events = GameEvent.game_ended (opponent player) LossReason.resignation ∷ [];
}

abbrev pub pending_actor : PendingInput → PlayerId
pending_actor (PendingInput.mana_production player _) = player
pending_actor (PendingInput.promotion player) = player
pending_actor (PendingInput.prize_pick chooser) = chooser

-- `required_actor` on the parts it reads.
abbrev pub actor_of : Option PendingInput → Option StackWindow → PlayerId → PlayerId
actor_of (some pending) window active = pending_actor pending
actor_of none (some window) active = window.holder
actor_of none none active = active

abbrev pub required_actor : GameState → PlayerId
required_actor s = actor_of s.pending s.turn.window s.turn.active_player

abbrev pub check_actor : GameState → PlayerId → Result (Unit {0}) ActionError
check_actor s player = guard (player_eq player (required_actor s)) ActionError.not_your_decision

unfoldable pub dispatch : GameState → GameAction → Result ActionOutcome ActionError
dispatch s (GameAction.play_summon player card slot) = Board.play_summon s player card slot
dispatch s (GameAction.upgrade_summon player card at) = Board.upgrade_summon s player card at
dispatch s (GameAction.cast_spell player card targets hint) =
    Priority.cast_spell s player card targets hint
dispatch s (GameAction.activate_skill player at ability targets hint) =
    Skills.activate_skill s (record {
      player = player;
      position = at;
      ability = ability;
      targets = targets;
      mana_hint = hint;
    })
dispatch s (GameAction.retreat player slot hint) = Board.retreat s player slot hint
dispatch s (GameAction.declare_attack player target hint) =
    Priority.declare_attack s player target hint
dispatch s (GameAction.end_turn player) = Turn.end_turn s player
dispatch s (GameAction.pass_priority player) = Priority.pass s player
dispatch s (GameAction.convert_coin player mana_type) = Turn.convert_coin s player mana_type
dispatch s (GameAction.choose_mana_type player mana_type) = Turn.choose_mana_type s player mana_type
dispatch s (GameAction.choose_promotion player slot) = Destruction.answer_promotion s player slot
dispatch s (GameAction.choose_prize player prize_index) =
    Destruction.answer_prize s player prize_index
dispatch s (GameAction.resign player) = ok (resign s player)

-- The drain after an accepted action, its events behind the handler's.
unfoldable pub drain_outcome : ℕ → ActionOutcome → Option ActionOutcome
drain_outcome fuel o = elim (drain fuel o.state) [
  | none ↦ none
  | some (s, drained) ↦ some (record { state = s; events = o.events ++ drained })
]

-- A rejected action reaches no drain.
unfoldable pub drain_result :
    ℕ → Result ActionOutcome ActionError → Option (Result ActionOutcome ActionError)
drain_result fuel (err e) = some (err e)
drain_result fuel (ok o) = elim (drain_outcome fuel o) [ none ↦ none | some done ↦ some (ok done) ]

-- `if let GameAction::Resign`, then the gate and the handler.
unfoldable pub apply_playing :
    ℕ → GameState → GameAction → Option (Result ActionOutcome ActionError)
unfolding drain_result drain_outcome
apply_playing fuel s (GameAction.resign player) = some (ok (resign s player))
apply_playing fuel s action =
    drain_result fuel (check_actor s (actor action) >>= λ _. dispatch s action)

unfoldable pub apply_by_status :
    ℕ → GameState → GameStatus → GameAction → Option (Result ActionOutcome ActionError)
apply_by_status fuel s GameStatus.playing action = apply_playing fuel s action
apply_by_status fuel s (GameStatus.ended _) action = some (err ActionError.game_already_over)
apply_by_status fuel s (GameStatus.broken _) action = some (err ActionError.game_broken)

unfoldable pub apply : ℕ → GameState → GameAction → Option (Result ActionOutcome ActionError)
unfolding apply_by_status apply_playing
apply fuel s action = apply_by_status fuel s s.status action
