-- ===== src/Authored/SetEffects.antt =====
-- crates/cards/src/v1/model.rs: the rules on one effect, in the context of what prints it.
pub mod Allowed
use summoners.Prelude.{
  ℕ, suc, Bool, true, false, not, Option, none, some, List, [], ◌∷◌, ◌==◌, leb, Result, ok, err,
  ◌>>=◌, ◌>>◌, guard, ok_or, String, if◌then◌else◌, is_empty,
}
use summoners.Authored.SetDto
use summoners.Authored.SetDto.{
  DamageConstraint, Destination, Duration, Modifier, ResponseBlock, Target,
}
use summoners.Authored.SetModel.{
  DamageAddition, DamageTarget, Effect, EffectContext, OwnTarget, SwapSide,
}
use summoners.Authored.SetError.{
  SemanticRule, SetLoadCause, SetLoadError, SetPath, rule_error, semantic_error,
}

unfoldable pub require_positive : ℕ → SetPath → SemanticRule → Result (Unit {0}) SetLoadError
require_positive value path rule = guard (not (value == 0)) (rule_error path rule)

-- The contexts of a card that has no position.
abbrev pub has_no_position : EffectContext → Bool
has_no_position EffectContext.attack_spell = true
has_no_position EffectContext.support_spell = true
has_no_position EffectContext.enchantment = true
has_no_position _ = false

abbrev pub targets_source : SetDto.Effect → Bool
targets_source (SetDto.Effect.damage Target.source _ _ _) = true
targets_source (SetDto.Effect.heal Target.source _) = true
targets_source (SetDto.Effect.move_summon Target.source _) = true
targets_source (SetDto.Effect.swap_positions Target.source) = true
targets_source (SetDto.Effect.produce_mana Target.source) = true
targets_source (SetDto.Effect.cannot_be_moved_by_opponent Target.source _) = true
targets_source (SetDto.Effect.ready_summon Target.source) = true
targets_source _ = false

unfoldable pub reject_source_without_position :
    SetDto.Effect → EffectContext → SetPath → Result (Unit {0}) SetLoadError
reject_source_without_position effect context path =
    if not (has_no_position context)
    then ok tt
    else guard (not (targets_source effect))
        (rule_error (SetPath.dot path "target") SemanticRule.effect_target)

-- `format!("{constraint:?}")`.
abbrev pub constraint_name : DamageConstraint → String
constraint_name DamageConstraint.unincreasable = "Unincreasable"
constraint_name DamageConstraint.unpreventable = "Unpreventable"

-- What the map of `reject_duplicate_constraints` holds for a constraint; one field for each.
pub record SeenConstraints : Type 0 where
  pub unincreasable : Option SetPath
  pub unpreventable : Option SetPath

abbrev pub seen_at : SeenConstraints → DamageConstraint → Option SetPath
seen_at seen DamageConstraint.unincreasable = seen.unincreasable
seen_at seen DamageConstraint.unpreventable = seen.unpreventable

abbrev pub see : SeenConstraints → DamageConstraint → SetPath → SeenConstraints
see seen DamageConstraint.unincreasable path = record seen { unincreasable = some path }
see seen DamageConstraint.unpreventable path = record seen { unpreventable = some path }

-- `if let Some(first_path) = seen.insert(…)`.
abbrev pub require_new_value : String → SetPath → Option SetPath → Result (Unit {0}) SetLoadError
require_new_value value path none = ok tt
require_new_value value path (some first_path) =
    err (semantic_error path (SetLoadCause.duplicate_value value first_path))

unfoldable pub reject_duplicate_constraints :
    SeenConstraints → ℕ → List DamageConstraint → SetPath → Result (Unit {0}) SetLoadError
reject_duplicate_constraints seen index [] path = ok tt
reject_duplicate_constraints seen index (constraint ∷ rest) path = do
  require_new_value (constraint_name constraint) (SetPath.at path index) (seen_at seen constraint)
  reject_duplicate_constraints (see seen constraint (SetPath.at path index)) (suc index) rest path

unfoldable pub parse_additions :
    ℕ → List SetDto.DamageAddition → SetPath → Result (List DamageAddition) SetLoadError
unfolding require_positive
parse_additions index [] path = ok []
parse_additions index (addition ∷ rest) path = do
  require_positive addition.amount
      (SetPath.dot (SetPath.at (SetPath.dot path "additions") index) "amount")
      SemanticRule.amount_must_be_positive
  parsed ← parse_additions (suc index) rest path
  ok (record { amount = addition.amount; condition = addition.condition } ∷ parsed)

abbrev pub damage_target : EffectContext → Target → Option DamageTarget
damage_target EffectContext.attack Target.defending_main = some DamageTarget.defending_main
damage_target EffectContext.attack_spell Target.selected_opposing_position =
    some DamageTarget.selected_opposing_position
damage_target _ _ = none

abbrev pub heal_target : EffectContext → Target → Option OwnTarget
heal_target EffectContext.skill Target.source = some OwnTarget.source
heal_target EffectContext.trigger Target.source = some OwnTarget.source
heal_target EffectContext.support_spell Target.selected_own_summon = some OwnTarget.selected
heal_target EffectContext.enchantment Target.selected_own_summon = some OwnTarget.selected
heal_target _ _ = none

abbrev pub swap_side : EffectContext → Target → Option SwapSide
swap_side EffectContext.skill Target.own_main_with_selected_bench = some SwapSide.own
swap_side EffectContext.skill Target.opposing_main_with_selected_bench = some SwapSide.opposing
swap_side _ _ = none

abbrev pub mana_target : EffectContext → Target → Option OwnTarget
mana_target EffectContext.skill Target.selected_own_summon = some OwnTarget.selected
mana_target EffectContext.trigger Target.source = some OwnTarget.source
mana_target _ _ = none

abbrev pub bad_target : SetPath → SetLoadError
bad_target path = rule_error (SetPath.dot path "target") SemanticRule.effect_target

-- The `match` of `parse_effect`: its arms, then the one for every other combination.
unfoldable pub parse_effect_arm :
    SetDto.Effect → EffectContext → SetPath → Result Effect SetLoadError
unfolding require_positive reject_duplicate_constraints parse_additions
parse_effect_arm (SetDto.Effect.damage target base constraints additions) context path = do
  require_positive base (SetPath.dot path "base") SemanticRule.amount_must_be_positive
  aimed ← ok_or (damage_target context target) (bad_target path)
  reject_duplicate_constraints (record { unincreasable = none; unpreventable = none }) 0 constraints
      (SetPath.dot path "constraints")
  parsed ← parse_additions 0 additions path
  ok (Effect.damage aimed base constraints parsed)
parse_effect_arm (SetDto.Effect.heal target amount) context path = do
  require_positive amount (SetPath.dot path "amount") SemanticRule.amount_must_be_positive
  aimed ← ok_or (heal_target context target) (bad_target path)
  ok (Effect.heal aimed amount)
parse_effect_arm
      (SetDto.Effect.move_summon Target.selected_own_benched_summon Destination.empty_own_bench)
      EffectContext.skill path =
    ok Effect.move_own_benched_to_empty_bench
parse_effect_arm (SetDto.Effect.swap_positions target) context path = do
  side ← ok_or (swap_side context target) (bad_target path)
  ok (Effect.swap_positions side)
parse_effect_arm (SetDto.Effect.block_responses condition ResponseBlock.attack_spells)
      EffectContext.attack path =
    ok (Effect.block_attack_spells condition)
parse_effect_arm SetDto.Effect.return_spell_from_discard EffectContext.trigger path =
    ok Effect.return_spell_from_discard
parse_effect_arm SetDto.Effect.look_at_prizes EffectContext.skill path = ok Effect.look_at_prizes
parse_effect_arm (SetDto.Effect.draw_cards amount) EffectContext.skill path = do
  require_positive amount (SetPath.dot path "amount") SemanticRule.amount_must_be_positive
  ok (Effect.draw_cards amount)
parse_effect_arm (SetDto.Effect.draw_cards amount) EffectContext.support_spell path = do
  require_positive amount (SetPath.dot path "amount") SemanticRule.amount_must_be_positive
  ok (Effect.draw_cards amount)
parse_effect_arm SetDto.Effect.return_spell_to_deck_top EffectContext.skill path =
    ok Effect.return_spell_to_deck_top
parse_effect_arm (SetDto.Effect.produce_mana target) context path = do
  aimed ← ok_or (mana_target context target) (bad_target path)
  ok (Effect.produce_mana aimed)
parse_effect_arm
      (SetDto.Effect.cannot_be_moved_by_opponent Target.source Duration.until_your_next_turn)
      EffectContext.skill path =
    ok (Effect.protect_from_opposing_movement OwnTarget.source)
parse_effect_arm (SetDto.Effect.ready_summon Target.selected_own_summon) EffectContext.support_spell
      path =
    ok Effect.ready_own_summon
parse_effect_arm _ _ path = err (rule_error path SemanticRule.effect_combination)

unfoldable pub parse_effect : SetDto.Effect → EffectContext → SetPath → Result Effect SetLoadError
unfolding reject_source_without_position parse_effect_arm
parse_effect raw context path = do
  reject_source_without_position raw context path
  parse_effect_arm raw context path

-- The loop of `parse_effects`, from the `index`-th effect on.
unfoldable pub parse_each_effect :
    ℕ → List SetDto.Effect → EffectContext → SetPath → Result (List Effect) SetLoadError
unfolding parse_effect
parse_each_effect index [] context path = ok []
parse_each_effect index (effect ∷ rest) context path = do
  first ← parse_effect effect context (SetPath.at path index)
  parsed ← parse_each_effect (suc index) rest context path
  ok (first ∷ parsed)

unfoldable pub parse_effects :
    List SetDto.Effect → EffectContext → SetPath → Result (List Effect) SetLoadError
unfolding parse_each_effect
parse_effects raw context path = do
  guard (not (is_empty raw)) (rule_error path SemanticRule.ability_shape)
  parse_each_effect 0 raw context path

-- `i32::try_from(amount).is_err()`.
abbrev pub modifier_fits : Modifier → Bool
modifier_fits (Modifier.opposing_retreat_cost amount) = leb amount 2147483647
modifier_fits (Modifier.incoming_attack_damage_reduction amount) = true

abbrev pub modifier_amount : Modifier → ℕ
modifier_amount (Modifier.opposing_retreat_cost amount) = amount
modifier_amount (Modifier.incoming_attack_damage_reduction amount) = amount

unfoldable pub parse_modifier : Modifier → SetPath → Result (Unit {0}) SetLoadError
unfolding require_positive
parse_modifier modifier path = do
  require_positive (modifier_amount modifier) (SetPath.dot path "amount")
      SemanticRule.amount_must_be_positive
  guard (modifier_fits modifier)
      (rule_error (SetPath.dot path "amount") SemanticRule.modifier_amount_out_of_range)

unfoldable pub parse_modifiers : ℕ → List Modifier → SetPath → Result (List Modifier) SetLoadError
unfolding parse_modifier
parse_modifiers index [] path = ok []
parse_modifiers index (modifier ∷ rest) path = do
  parse_modifier modifier (SetPath.at path index)
  parsed ← parse_modifiers (suc index) rest path
  ok (modifier ∷ parsed)
