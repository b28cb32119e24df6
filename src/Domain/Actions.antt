-- ===== src/Domain/Actions.antt =====
-- crates/core/src/domain/actions.rs.
use summoners.Prelude.{ℕ, Option, List}
use summoners.Domain.Ids.{PlayerId, CardInstanceId, Position, BenchSlot, ManaType}
use summoners.Domain.EntityId.{EntityId}

pub data GameAction : Type 0 where
  play_summon : PlayerId → CardInstanceId → BenchSlot → GameAction
  upgrade_summon : PlayerId → CardInstanceId → Position → GameAction
  cast_spell : PlayerId → CardInstanceId → List Position → Option ManaType → GameAction
  activate_skill : PlayerId → Position → EntityId → List Position → Option ManaType → GameAction
  retreat : PlayerId → BenchSlot → Option ManaType → GameAction
  declare_attack : PlayerId → Position → Option ManaType → GameAction
  end_turn : PlayerId → GameAction
  pass_priority : PlayerId → GameAction
  convert_coin : PlayerId → ManaType → GameAction
  choose_mana_type : PlayerId → ManaType → GameAction
  choose_promotion : PlayerId → BenchSlot → GameAction
  choose_prize : PlayerId → ℕ → GameAction
  resign : PlayerId → GameAction

abbrev pub actor : GameAction → PlayerId
actor (GameAction.play_summon player _ _) = player
actor (GameAction.upgrade_summon player _ _) = player
actor (GameAction.cast_spell player _ _ _) = player
actor (GameAction.activate_skill player _ _ _ _) = player
actor (GameAction.retreat player _ _) = player
actor (GameAction.declare_attack player _ _) = player
actor (GameAction.end_turn player) = player
actor (GameAction.pass_priority player) = player
actor (GameAction.convert_coin player _) = player
actor (GameAction.choose_mana_type player _) = player
actor (GameAction.choose_promotion player _) = player
actor (GameAction.choose_prize player _) = player
actor (GameAction.resign player) = player
