-- ===== src/Engine/Skills.antt =====
-- crates/core/src/engine/skills/mod.rs: activating a Skill, which resolves at once.
use summoners.Prelude.{
  Bool, true, false, not, Option, some, List, [], ◌∷◌, ◌++◌, find, Result, ok, err, ◌>>=◌, ◌>>◌,
  guard, ok_or, is_some,
}
use summoners.Prelude.Arrays.{get_at}
use summoners.Domain.Ids.{PlayerId, Position, ManaType, opponent, index}
use summoners.Domain.EntityId.{EntityId, id_eq}
use summoners.Domain.Cards.{EffectLeaf, EffectSource}
use summoners.Domain.CardSet
use summoners.Domain.Entity
use summoners.Domain.Entity.{Entity, id_of}
use summoners.Domain.Field
use summoners.Domain.Errors.{ActionError}
use summoners.Domain.State.{
  GameState, PlayerState, SummonInstance, Readiness, get, top, summon_at, set_summon, with_player,
}
use summoners.Domain.Events.{GameEvent}
use summoners.Engine.Effects.{apply_leaves, has_marker}
use summoners.Engine.Outcome.{ActionOutcome, require_free_main_phase, pay, deduction_events}
use summoners.Engine.Payment.{Payment}
use summoners.Engine.Priority.{cost_of}

abbrev pub Checked : Type 0
Checked = Result (Unit {0}) ActionError

unfoldable pub validate_move_summon : PlayerState → List Position → Checked
validate_move_summon ps (Position.bench from ∷ Position.bench to ∷ _) = do
  guard (is_some (get_at ps.bench (index from))) ActionError.invalid_target
  guard (not (is_some (get_at ps.bench (index to)))) ActionError.invalid_target
validate_move_summon ps _ = err ActionError.invalid_target

unfoldable pub validate_swap_positions : PlayerState → List Position → Checked
validate_swap_positions ps (Position.bench slot ∷ _) = do
  guard (is_some (get_at ps.bench (index slot))) ActionError.invalid_target
  guard (is_some ps.main) ActionError.invalid_target
validate_swap_positions ps _ = err ActionError.invalid_target

unfoldable pub validate_swap_opposing_positions : PlayerState → List Position → Checked
validate_swap_opposing_positions ps (Position.bench slot ∷ _) = do
  guard (is_some (get_at ps.bench (index slot))) ActionError.invalid_target
  summon ← ok_or ps.main ActionError.invalid_target
  guard (not (has_marker summon.duration_markers)) ActionError.invalid_target
validate_swap_opposing_positions ps _ = err ActionError.invalid_target

unfoldable pub validate_leaf : GameState → PlayerId → List Position → EffectLeaf → Checked
validate_leaf s controller targets EffectLeaf.move_summon =
    validate_move_summon (get s.players controller) targets
validate_leaf s controller targets EffectLeaf.swap_positions =
    validate_swap_positions (get s.players controller) targets
validate_leaf s controller targets EffectLeaf.swap_opposing_positions =
    validate_swap_opposing_positions (get s.players (opponent controller)) targets
validate_leaf s controller targets _ = ok tt

unfoldable pub validate_targets : GameState → PlayerId → List EffectLeaf → List Position → Checked
unfolding validate_leaf
validate_targets s controller [] targets = ok tt
validate_targets s controller (leaf ∷ leaves) targets =
    let rest = validate_targets s controller leaves targets in
    validate_leaf s controller targets leaf >> rest

pub record SkillActivation : Type 0 where
  pub player : PlayerId
  pub position : Position
  pub ability : EntityId
  pub targets : List Position
  pub mana_hint : Option ManaType

abbrev pub is_ready : Readiness → Bool
is_ready Readiness.ready = true
is_ready Readiness.exhausted = false

abbrev pub exhaust : SummonInstance → SummonInstance
exhaust summon = record summon { readiness = Readiness.exhausted }

-- Paid and Exhausted, before the Skill resolves.
unfoldable pub activated : GameState → SkillActivation → Payment → SummonInstance → GameState
activated s a payment summon = with_player s a.player (
    set_summon (record (get s.players a.player) { mana = payment.bank }) a.position
      (some (exhaust summon)))

unfoldable pub resolve_skill :
    GameState → SkillActivation → Payment → SummonInstance → List EffectLeaf → ActionOutcome
unfolding activated
resolve_skill s a payment summon effects =
    let (next, leaf_events) =
      apply_leaves (activated s a payment summon) (EffectSource.skill a.player a.position a.ability)
        a.targets effects in
    record {
      state = next;
      events =
          (deduction_events a.player payment.deductions
            ++ GameEvent.skill_activated a.player a.position a.ability ∷ [])
          ++ leaf_events;
    }

unfoldable pub activate_skill : GameState → SkillActivation → Result ActionOutcome ActionError
activate_skill s a = do
  require_free_main_phase s
  summon ← ok_or (summon_at (get s.players a.player) a.position) ActionError.empty_position
  guard (is_ready summon.readiness) ActionError.summon_exhausted
  top_entity ← ok_or (CardSet.get s.cards (top summon.chain).def) ActionError.unknown_card
  skill ←
      ok_or (find (λ e. id_eq (id_of e) a.ability) (Entity.all Field.skill top_entity))
        ActionError.invalid_target
  validate_targets s a.player (Entity.all Field.effect skill) a.targets
  payment ← pay (get s.players a.player) (cost_of skill) a.mana_hint
  ok (resolve_skill s a payment summon (Entity.all Field.effect skill))
