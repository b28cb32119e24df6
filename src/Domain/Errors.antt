-- ===== src/Domain/Errors.antt =====
-- crates/core/src/domain/errors.rs.
use summoners.Domain.Ids.{PlayerId, CardInstanceId, Position}
use summoners.Domain.EntityId.{EntityId}
use summoners.Domain.Mana.{ManaBank}

pub data ActionError : Type 0 where
  not_your_decision game_already_over game_broken wrong_phase empty_position : ActionError
  unknown_card : ActionError
  insufficient_mana : ManaBank → ActionError
  summon_exhausted normal_attack_already_used normal_retreat_already_used : ActionError
  already_upgraded_this_turn played_this_turn illegal_upgrade_target invalid_target : ActionError
  pending_input_mismatch invalid_mana_hint : ActionError

pub data InvalidScenario : Type 0 where
  duplicate_card_instance : CardInstanceId → InvalidScenario
  unknown_card_def : EntityId → InvalidScenario
  empty_upgrade_chain : PlayerId → Position → InvalidScenario
  illegal_chain_order : PlayerId → Position → InvalidScenario
  no_summon_in_play : PlayerId → InvalidScenario
