-- ===== src/Authored/SetEffects/Allowed.antt =====
-- The effects that crates/cards/src/v1/model.rs lets each kind of ability and card print.
use summoners.Prelude.{
  ℕ, suc, ◌≤◌, ◌≡◌, refl, subst, not, some, List, [], ◌∷◌, ◌==◌, ok, ◌>>=◌, ok_or, >>=-eq-ok,
  guard-eq-ok, ok_or-eq-ok, ok-injective, arith,
}
use summoners.Authored.SetDto
use summoners.Authored.SetDto.{Destination, Duration, Modifier, ResponseBlock, Target}
use summoners.Authored.SetModel.{
  DamageAddition, DamageTarget, Effect, EffectContext, OwnTarget, SwapSide,
}
use summoners.Authored.SetError.{SemanticRule, SetPath}
use summoners.Authored.SetEffects.{
  damage_target, heal_target, mana_target, parse_additions, parse_each_effect, parse_effect,
  parse_effect_arm, reject_duplicate_constraints, reject_source_without_position, require_positive,
  swap_side,
}

abbrev pub ArePositive : List DamageAddition → Type 0
ArePositive [] = Unit {0}
ArePositive (addition ∷ rest) = (1 ≤ addition.amount) × ArePositive rest

-- What may print each effect; every amount is positive.
abbrev pub IsAllowed : EffectContext → Effect → Type 0
IsAllowed EffectContext.attack (Effect.damage DamageTarget.defending_main base _ additions) =
    (1 ≤ base) × ArePositive additions
IsAllowed EffectContext.attack_spell
      (Effect.damage DamageTarget.selected_opposing_position base _ additions) =
    (1 ≤ base) × ArePositive additions
IsAllowed EffectContext.skill (Effect.heal OwnTarget.source amount) = 1 ≤ amount
IsAllowed EffectContext.trigger (Effect.heal OwnTarget.source amount) = 1 ≤ amount
IsAllowed EffectContext.support_spell (Effect.heal OwnTarget.selected amount) = 1 ≤ amount
IsAllowed EffectContext.enchantment (Effect.heal OwnTarget.selected amount) = 1 ≤ amount
IsAllowed EffectContext.skill Effect.move_own_benched_to_empty_bench = Unit {0}
IsAllowed EffectContext.skill (Effect.swap_positions _) = Unit {0}
IsAllowed EffectContext.attack (Effect.block_attack_spells _) = Unit {0}
IsAllowed EffectContext.trigger Effect.return_spell_from_discard = Unit {0}
IsAllowed EffectContext.skill Effect.look_at_prizes = Unit {0}
IsAllowed EffectContext.skill (Effect.draw_cards amount) = 1 ≤ amount
IsAllowed EffectContext.support_spell (Effect.draw_cards amount) = 1 ≤ amount
IsAllowed EffectContext.skill Effect.return_spell_to_deck_top = Unit {0}
IsAllowed EffectContext.skill (Effect.produce_mana OwnTarget.selected) = Unit {0}
IsAllowed EffectContext.trigger (Effect.produce_mana OwnTarget.source) = Unit {0}
IsAllowed EffectContext.skill (Effect.protect_from_opposing_movement OwnTarget.source) = Unit {0}
IsAllowed EffectContext.support_spell Effect.ready_own_summon = Unit {0}
IsAllowed _ _ = ⊥

pub require_positive-eq-ok :
    (value : ℕ) (path : SetPath) (rule : SemanticRule) {u : Unit {0}}
    → require_positive value path rule ≡ ok u
    → 1 ≤ value
unfolding require_positive
require_positive-eq-ok value path rule h =
    let test = guard-eq-ok (not (value == 0)) _ h in ground (arith, test)

parse_additions-eq-ok :
    (index : ℕ) (raw : List SetDto.DamageAddition) (path : SetPath) (parsed : List DamageAddition)
    → parse_additions index raw path ≡ ok parsed
    → ArePositive parsed
unfolding parse_additions
parse_additions-eq-ok index [] path parsed h = subst ArePositive (ok-injective refl h) tt
parse_additions-eq-ok index (addition ∷ rest) path parsed h =
    let positive = >>=-eq-ok (require_positive addition.amount _ _) _ h in
    let later = >>=-eq-ok (parse_additions (suc index) rest path) _ positive.2 in
    subst ArePositive (ok-injective refl later.2) (
      require_positive-eq-ok _ _ _ positive.1,
      parse_additions-eq-ok (suc index) rest path later.0 later.1,
    )

damage-IsAllowed :
    (context : EffectContext) (target : Target) (aimed : DamageTarget) (base : ℕ)
    (constraints : List SetDto.DamageConstraint) (additions : List DamageAddition)
    → damage_target context target ≡ some aimed
    → 1 ≤ base
    → ArePositive additions
    → IsAllowed context (Effect.damage aimed base constraints additions)
damage-IsAllowed EffectContext.attack Target.defending_main DamageTarget.defending_main base c
      additions e h k =
    (h, k)
damage-IsAllowed EffectContext.attack_spell Target.selected_opposing_position
      DamageTarget.selected_opposing_position base c additions e h k =
    (h, k)
damage-IsAllowed _ _ _ base c additions e h k = cc

heal-IsAllowed :
    (context : EffectContext) (target : Target) (aimed : OwnTarget) (amount : ℕ)
    → heal_target context target ≡ some aimed
    → 1 ≤ amount
    → IsAllowed context (Effect.heal aimed amount)
heal-IsAllowed EffectContext.skill Target.source OwnTarget.source amount e h = h
heal-IsAllowed EffectContext.trigger Target.source OwnTarget.source amount e h = h
heal-IsAllowed EffectContext.support_spell Target.selected_own_summon OwnTarget.selected amount e
      h =
    h
heal-IsAllowed EffectContext.enchantment Target.selected_own_summon OwnTarget.selected amount e h =
    h
heal-IsAllowed _ _ _ amount e h = cc

swap-IsAllowed :
    (context : EffectContext) (target : Target) (side : SwapSide)
    → swap_side context target ≡ some side
    → IsAllowed context (Effect.swap_positions side)
swap-IsAllowed EffectContext.skill target side e = tt
swap-IsAllowed _ _ _ e = cc

mana-IsAllowed :
    (context : EffectContext) (target : Target) (aimed : OwnTarget)
    → mana_target context target ≡ some aimed
    → IsAllowed context (Effect.produce_mana aimed)
mana-IsAllowed EffectContext.skill Target.selected_own_summon OwnTarget.selected e = tt
mana-IsAllowed EffectContext.trigger Target.source OwnTarget.source e = tt
mana-IsAllowed _ _ _ e = cc

draws :
    (context : EffectContext) (amount : ℕ) (path : SetPath) (e : Effect)
    → ((1 ≤ amount) → IsAllowed context (Effect.draw_cards amount))
    → (require_positive amount path SemanticRule.amount_must_be_positive >>= λ _.
        ok (Effect.draw_cards amount))
      ≡ ok e
    → IsAllowed context e
draws context amount path e allowed h =
    let positive = >>=-eq-ok (require_positive amount path _) _ h in
    subst (IsAllowed context) (ok-injective refl positive.2)
      (allowed (require_positive-eq-ok _ _ _ positive.1))

parse_effect_arm-IsAllowed :
    (raw : SetDto.Effect) (context : EffectContext) (path : SetPath) (e : Effect)
    → parse_effect_arm raw context path ≡ ok e
    → IsAllowed context e
unfolding parse_effect_arm
parse_effect_arm-IsAllowed (SetDto.Effect.damage target base constraints additions) context path e
      h =
    let positive = >>=-eq-ok (require_positive base _ _) _ h in
    let aimed = >>=-eq-ok (ok_or (damage_target context target) _) _ positive.2 in
    let distinct = >>=-eq-ok (reject_duplicate_constraints _ 0 constraints _) _ aimed.2 in
    let parsed = >>=-eq-ok (parse_additions 0 additions path) _ distinct.2 in
    subst (IsAllowed context) (ok-injective refl parsed.2) (
      damage-IsAllowed context target aimed.0 base constraints parsed.0 (ok_or-eq-ok _ _ aimed.1)
        (require_positive-eq-ok _ _ _ positive.1)
        (parse_additions-eq-ok 0 additions path parsed.0 parsed.1))
parse_effect_arm-IsAllowed (SetDto.Effect.heal target amount) context path e h =
    let positive = >>=-eq-ok (require_positive amount _ _) _ h in
    let aimed = >>=-eq-ok (ok_or (heal_target context target) _) _ positive.2 in
    subst (IsAllowed context) (ok-injective refl aimed.2) (
      heal-IsAllowed context target aimed.0 amount (ok_or-eq-ok _ _ aimed.1)
        (require_positive-eq-ok _ _ _ positive.1))
parse_effect_arm-IsAllowed
      (SetDto.Effect.move_summon Target.selected_own_benched_summon Destination.empty_own_bench)
      EffectContext.skill path e h =
    subst (IsAllowed EffectContext.skill) (ok-injective refl h) tt
parse_effect_arm-IsAllowed (SetDto.Effect.swap_positions target) context path e h =
    let side = >>=-eq-ok (ok_or (swap_side context target) _) _ h in
    subst (IsAllowed context) (ok-injective refl side.2)
      (swap-IsAllowed context target side.0 (ok_or-eq-ok _ _ side.1))
parse_effect_arm-IsAllowed (SetDto.Effect.block_responses condition ResponseBlock.attack_spells)
      EffectContext.attack path e h =
    subst (IsAllowed EffectContext.attack) (ok-injective refl h) tt
parse_effect_arm-IsAllowed SetDto.Effect.return_spell_from_discard EffectContext.trigger path e h =
    subst (IsAllowed EffectContext.trigger) (ok-injective refl h) tt
parse_effect_arm-IsAllowed SetDto.Effect.look_at_prizes EffectContext.skill path e h =
    subst (IsAllowed EffectContext.skill) (ok-injective refl h) tt
parse_effect_arm-IsAllowed (SetDto.Effect.draw_cards amount) EffectContext.skill path e h =
    draws EffectContext.skill amount _ e (λ k. k) h
parse_effect_arm-IsAllowed (SetDto.Effect.draw_cards amount) EffectContext.support_spell path e h =
    draws EffectContext.support_spell amount _ e (λ k. k) h
parse_effect_arm-IsAllowed SetDto.Effect.return_spell_to_deck_top EffectContext.skill path e h =
    subst (IsAllowed EffectContext.skill) (ok-injective refl h) tt
parse_effect_arm-IsAllowed (SetDto.Effect.produce_mana target) context path e h =
    let aimed = >>=-eq-ok (ok_or (mana_target context target) _) _ h in
    subst (IsAllowed context) (ok-injective refl aimed.2)
      (mana-IsAllowed context target aimed.0 (ok_or-eq-ok _ _ aimed.1))
parse_effect_arm-IsAllowed
      (SetDto.Effect.cannot_be_moved_by_opponent Target.source Duration.until_your_next_turn)
      EffectContext.skill path e h =
    subst (IsAllowed EffectContext.skill) (ok-injective refl h) tt
parse_effect_arm-IsAllowed (SetDto.Effect.ready_summon Target.selected_own_summon)
      EffectContext.support_spell path e h =
    subst (IsAllowed EffectContext.support_spell) (ok-injective refl h) tt
parse_effect_arm-IsAllowed _ _ path e h = cc

-- Some effects of one ability or card.
abbrev pub AreAllowed : EffectContext → List Effect → Type 0
AreAllowed context [] = Unit {0}
AreAllowed context (effect ∷ rest) = IsAllowed context effect × AreAllowed context rest

pub parse_each_effect-AreAllowed :
    (index : ℕ) (raw : List SetDto.Effect) (context : EffectContext) (path : SetPath)
    (parsed : List Effect)
    → parse_each_effect index raw context path ≡ ok parsed
    → AreAllowed context parsed
unfolding parse_each_effect parse_effect
parse_each_effect-AreAllowed index [] context path parsed h =
    subst (AreAllowed context) (ok-injective refl h) tt
parse_each_effect-AreAllowed index (effect ∷ rest) context path parsed h =
    let first = >>=-eq-ok (parse_effect effect context (SetPath.at path index)) _ h in
    let arm = >>=-eq-ok (reject_source_without_position effect context _) _ first.1 in
    let later = >>=-eq-ok (parse_each_effect (suc index) rest context path) _ first.2 in
    subst (AreAllowed context) (ok-injective refl later.2) (
      parse_effect_arm-IsAllowed effect context _ first.0 arm.2,
      parse_each_effect-AreAllowed (suc index) rest context path later.0 later.1,
    )
