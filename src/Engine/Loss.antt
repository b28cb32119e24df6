-- ===== src/Engine/Loss.antt =====
-- crates/core/src/engine/loss.rs.
use summoners.Prelude.{Bool, ◌&&◌, List, [], ◌∷◌, leb, is_none, if◌then◌else◌}
use summoners.Domain.Ids.{PlayerId, opponent}
use summoners.Domain.State.{GameState, GameStatus, LossReason, PlayerState, get}
use summoners.Domain.Events.{GameEvent}

unfoldable pub lose : GameState → PlayerId → LossReason → GameState × List GameEvent
lose s loser reason = (
  record s { status = GameStatus.ended (record { winner = opponent loser; reason = reason }) },
  GameEvent.game_ended (opponent loser) reason ∷ [],
)

unfoldable pub draw_failure : GameState → PlayerId → GameState × List GameEvent
unfolding lose
draw_failure s player = lose s player LossReason.empty_deck_draw

abbrev pub board_is_empty : PlayerState → Bool
board_is_empty ps =
    is_none ps.main && (is_none ps.bench.at0 && (is_none ps.bench.at1 && is_none ps.bench.at2))

unfoldable pub check : GameState → PlayerId → GameState × List GameEvent
unfolding lose
check s player =
    if leb 3 (get s.players player).main_losses
    then lose s player LossReason.third_main_loss
    else if board_is_empty (get s.players player)
    then lose s player LossReason.no_promotion_available
    else (s, [])
