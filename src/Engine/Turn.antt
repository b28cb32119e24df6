-- ===== src/Engine/Turn.antt =====
-- crates/core/src/engine/turn.rs: the end of a turn, the handover, the Coin and the Mana choice.
use summoners.Prelude.{
  Bool, true, false, ◌||◌, ◌&&◌, not, Option, none, some, [], ◌∷◌, any, Result, ok, err, ◌>>◌,
  guard, is_some, is_none, if◌then◌else◌,
}
use summoners.Domain.Ids.{PlayerId, ManaType, opponent, player_eq, mana_type_eq}
use summoners.Domain.Cards.{TriggerEvent}
use summoners.Domain.Errors.{ActionError}
use summoners.Domain.State.{
  GameState, PlayerState, SummonInstance, StackWindow, ManaSource, PendingInput, Phase, WorkItem,
  get, with_player, push_back, is_main_phase,
}
use summoners.Domain.Events.{GameEvent}
use summoners.Engine.Outcome.{ActionOutcome}
use summoners.Engine.Upkeep.{
  anchor_types, available_types, bank, map_board, reset_per_turn_summon_records,
}
use summoners.Engine.Triggers.{discover_back, window_after_play}

-- `matches!(phase, Phase::Main | Phase::Combat)`.
abbrev pub may_end : Phase → Bool
may_end Phase.upkeep = false
may_end Phase.main = true
may_end Phase.combat = true

unfoldable pub end_turn : GameState → PlayerId → Result ActionOutcome ActionError
end_turn s player = do
  guard
      (not (
        is_some s.pending
        || is_some s.turn.window
        || not (may_end s.turn.phase)
        || not (player_eq player s.turn.active_player)))
      ActionError.wrong_phase
  ok (record {
    state = record s { turn = record (s.turn) { window = some (window_after_play player) } };
    events = [];
  })

-- `retain(|marker| *marker != CannotBeMovedByOpponent)`: the marker has no other value.
abbrev pub unmark : SummonInstance → SummonInstance
unmark summon = record summon { duration_markers = [] }

unfoldable pub expire_cannot_be_moved_by_opponent : PlayerState → PlayerState
expire_cannot_be_moved_by_opponent ps = map_board unmark ps

-- The state when the boards have been reset and nothing has been queued.
unfoldable pub begin_turn : GameState → GameState
begin_turn s =
    let player = s.turn.active_player in
    let next = opponent player in
    let turned = record s {
      turn = record {
        active_player = next;
        phase = Phase.upkeep;
        window = none;
        normal_attack_used = false;
        normal_retreat_used = false;
        spell_played_this_turn = record { one = false; two = false };
      };
    } in
    let mine =
      with_player turned player (reset_per_turn_summon_records (get turned.players player)) in
    with_player mine next
      (expire_cannot_be_moved_by_opponent (reset_per_turn_summon_records (get mine.players next)))

unfoldable pub handover : GameState → ActionOutcome
unfolding begin_turn
handover s =
    let next = opponent s.turn.active_player in
    let readied = push_back (begin_turn s) (WorkItem.ready_all ∷ []) in
    let discovered = discover_back readied (next ∷ []) TriggerEvent.your_upkeep in
    record {
      state = push_back discovered (
          WorkItem.draw_card
          ∷ WorkItem.produce_mana next ManaSource.player
          ∷ WorkItem.begin_main_phase
          ∷ []);
      events = GameEvent.turn_began next ∷ [];
    }

-- `matches!(window, Some(window) if window.holder == player)`.
abbrev pub holds_priority : Option StackWindow → PlayerId → Bool
holds_priority none player = false
holds_priority (some w) player = player_eq w.holder player

abbrev pub resting_in_own_main : GameState → PlayerId → Bool
resting_in_own_main s player =
    is_none s.turn.window && is_main_phase s.turn.phase && player_eq player s.turn.active_player

unfoldable pub convert_coin : GameState → PlayerId → ManaType → Result ActionOutcome ActionError
convert_coin s player mana_type = do
  guard (not (is_some s.pending)) ActionError.wrong_phase
  guard (not (not (resting_in_own_main s player) && not (holds_priority s.turn.window player)))
      ActionError.wrong_phase
  guard (not (not (player_eq player PlayerId.two) || is_none s.coin)) ActionError.invalid_target
  guard (any (mana_type_eq mana_type) (anchor_types s.cards (get s.players player)))
      ActionError.invalid_target
  ok (record {
    state = record (with_player s player (bank (get s.players player) mana_type)) { coin = none };
    events = GameEvent.coin_converted player mana_type ∷ [];
  })

-- `choose_mana_type` once the pending decision has been matched.
unfoldable pub answer_mana :
    GameState → PlayerId → ManaSource → ManaType → Result ActionOutcome ActionError
answer_mana s player source mana_type = do
  guard (any (mana_type_eq mana_type) (available_types s.cards (get s.players player) source))
      ActionError.invalid_target
  ok (record {
    state = record (with_player s player (bank (get s.players player) mana_type)) {
      pending = none;
    };
    events = GameEvent.mana_produced player source mana_type ∷ [];
  })

-- The `let else` on `state.pending` and the test of the player it names.
abbrev pub awaited_mana : Option PendingInput → PlayerId → Option ManaSource
awaited_mana (some (PendingInput.mana_production waiting source)) player =
    if player_eq player waiting then some source else none
awaited_mana _ player = none

unfoldable pub choose_mana_type : GameState → PlayerId → ManaType → Result ActionOutcome ActionError
unfolding answer_mana
choose_mana_type s player mana_type = elim (awaited_mana s.pending player) [
  | none ↦ err ActionError.pending_input_mismatch
  | some source ↦ answer_mana s player source mana_type
]
