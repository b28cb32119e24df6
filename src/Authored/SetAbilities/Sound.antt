-- ===== src/Authored/SetAbilities/Sound.antt =====
-- The abilities that crates/cards/src/v1/model.rs accepts.
use summoners.Prelude.{
  ℕ, ◌≤◌, ◌≡◌, refl, sym, ap, subst, true, false, not, List, [], ◌∷◌, ok, guard, >>=-eq-ok,
  guard-eq-ok, ok-injective, is_empty, negated, if◌then◌else◌,
}
use summoners.Domain.EntityId.{bytes_eq}
use summoners.Authored.Keys.{Text, stable_key_syntax}
use summoners.Authored.SetDto
use summoners.Authored.SetDto.{Modifier}
use summoners.Authored.SetModel.{Ability, AbilityKind, Effect, EffectContext, StableCode}
use summoners.Authored.SetError.{SetPath}
use summoners.Authored.SetEffects.{
  modifier_amount, modifier_fits, parse_each_effect, parse_effect, parse_effects, parse_modifier,
  require_positive,
}
use summoners.Authored.SetEffects.Allowed.{
  AreAllowed, parse_each_effect-AreAllowed, require_positive-eq-ok,
}
use summoners.Authored.SetAbilities.{
  forbid_list, forbid_option, parse_ability_kind, parse_active, parse_passive, parse_trigger,
  required,
}

-- There are some effects, all allowed where they are printed.
abbrev pub AreEffects : EffectContext → List Effect → Type 0
AreEffects context effects = (is_empty effects ≡ false) × AreAllowed context effects

abbrev pub IsModifier : Modifier → Type 0
IsModifier modifier = (1 ≤ modifier_amount modifier) × (modifier_fits modifier ≡ true)

abbrev pub IsAbilityKind : AbilityKind → Type 0
IsAbilityKind (AbilityKind.attack _ effects) = AreEffects EffectContext.attack effects
IsAbilityKind (AbilityKind.skill _ effects) = AreEffects EffectContext.skill effects
IsAbilityKind (AbilityKind.passive modifier) = IsModifier modifier
IsAbilityKind (AbilityKind.trigger _ _ effects) = AreEffects EffectContext.trigger effects

abbrev pub IsCode : StableCode → Type 0
IsCode code = stable_key_syntax code.text ≡ true

abbrev pub AreAbilities : List Ability → Type 0
AreAbilities [] = Unit {0}
AreAbilities (ability ∷ rest) = IsCode ability.code × IsAbilityKind ability.kind × AreAbilities rest

abbrev pub has_code : Text → StableCode → ℕ
has_code key code = if bytes_eq code.text key then 1 else 0

some_effects :
    (raw : List SetDto.Effect) (context : EffectContext) (path : SetPath) (parsed : List Effect)
    → is_empty raw ≡ false
    → parse_each_effect 0 raw context path ≡ ok parsed
    → is_empty parsed ≡ false
unfolding parse_each_effect
some_effects [] context path parsed e h = cc
some_effects (effect ∷ rest) context path parsed e h =
    let first = >>=-eq-ok (parse_effect effect context (SetPath.at path 0)) _ h in
    let later = >>=-eq-ok (parse_each_effect 1 rest context path) _ first.2 in
    ap is_empty (sym (ok-injective refl later.2))

pub parse_effects-AreEffects :
    (raw : List SetDto.Effect) (context : EffectContext) (path : SetPath) (parsed : List Effect)
    → parse_effects raw context path ≡ ok parsed
    → AreEffects context parsed
unfolding parse_effects
parse_effects-AreEffects raw context path parsed h =
    let test = >>=-eq-ok (guard (not (is_empty raw)) _) _ h in
    (
      some_effects raw context path parsed (negated _ (guard-eq-ok _ _ test.1)) test.2,
      parse_each_effect-AreAllowed 0 raw context path parsed test.2,
    )

pub parse_modifier-IsModifier :
    (modifier : Modifier) (path : SetPath) {u : Unit {0}}
    → parse_modifier modifier path ≡ ok u
    → IsModifier modifier
unfolding parse_modifier
parse_modifier-IsModifier modifier path h =
    let positive = >>=-eq-ok (require_positive (modifier_amount modifier) _ _) _ h in
    (require_positive-eq-ok _ _ _ positive.1, guard-eq-ok _ _ positive.2)

parse_active-IsAbilityKind :
    (make : List SetDto.ManaSymbol → List Effect → AbilityKind) (context : EffectContext)
    (raw : SetDto.Ability) (path : SetPath) (kind : AbilityKind)
    → ((cost : List SetDto.ManaSymbol) (effects : List Effect)
        → AreEffects context effects
        → IsAbilityKind (make cost effects))
    → parse_active make context raw path ≡ ok kind
    → IsAbilityKind kind
unfolding parse_active
parse_active-IsAbilityKind make context raw path kind holds h =
    let event = >>=-eq-ok (forbid_option raw.event path _) _ h in
    let response = >>=-eq-ok (forbid_option raw.response path _) _ event.2 in
    let modifier = >>=-eq-ok (forbid_option raw.modifier path _) _ response.2 in
    let cost = >>=-eq-ok (required raw.cost path _) _ modifier.2 in
    let effects = >>=-eq-ok (parse_effects raw.effects context _) _ cost.2 in
    subst IsAbilityKind (ok-injective refl effects.2)
      (holds cost.0 effects.0 (parse_effects-AreEffects raw.effects context _ effects.0 effects.1))

parse_passive-IsAbilityKind :
    (raw : SetDto.Ability) (path : SetPath) (kind : AbilityKind)
    → parse_passive raw path ≡ ok kind
    → IsAbilityKind kind
unfolding parse_passive
parse_passive-IsAbilityKind raw path kind h =
    let cost = >>=-eq-ok (forbid_option raw.cost path _) _ h in
    let event = >>=-eq-ok (forbid_option raw.event path _) _ cost.2 in
    let response = >>=-eq-ok (forbid_option raw.response path _) _ event.2 in
    let effects = >>=-eq-ok (forbid_list raw.effects path _) _ response.2 in
    let modifier = >>=-eq-ok (required raw.modifier path _) _ effects.2 in
    let fits = >>=-eq-ok (parse_modifier modifier.0 _) _ modifier.2 in
    subst IsAbilityKind (ok-injective refl fits.2) (parse_modifier-IsModifier modifier.0 _ fits.1)

parse_trigger-IsAbilityKind :
    (raw : SetDto.Ability) (path : SetPath) (kind : AbilityKind)
    → parse_trigger raw path ≡ ok kind
    → IsAbilityKind kind
unfolding parse_trigger
parse_trigger-IsAbilityKind raw path kind h =
    let cost = >>=-eq-ok (forbid_option raw.cost path _) _ h in
    let modifier = >>=-eq-ok (forbid_option raw.modifier path _) _ cost.2 in
    let event = >>=-eq-ok (required raw.event path _) _ modifier.2 in
    let response = >>=-eq-ok (required raw.response path _) _ event.2 in
    let effects = >>=-eq-ok (parse_effects raw.effects EffectContext.trigger _) _ response.2 in
    subst IsAbilityKind (ok-injective refl effects.2)
      (parse_effects-AreEffects raw.effects EffectContext.trigger _ effects.0 effects.1)

pub parse_ability_kind-IsAbilityKind :
    (which : SetDto.AbilityKind) (raw : SetDto.Ability) (path : SetPath) (kind : AbilityKind)
    → parse_ability_kind which raw path ≡ ok kind
    → IsAbilityKind kind
unfolding parse_ability_kind
parse_ability_kind-IsAbilityKind SetDto.AbilityKind.attack raw path kind h =
    parse_active-IsAbilityKind AbilityKind.attack EffectContext.attack raw path kind (λ _ _ k. k) h
parse_ability_kind-IsAbilityKind SetDto.AbilityKind.skill raw path kind h =
    parse_active-IsAbilityKind AbilityKind.skill EffectContext.skill raw path kind (λ _ _ k. k) h
parse_ability_kind-IsAbilityKind SetDto.AbilityKind.passive raw path kind h =
    parse_passive-IsAbilityKind raw path kind h
parse_ability_kind-IsAbilityKind SetDto.AbilityKind.trigger raw path kind h =
    parse_trigger-IsAbilityKind raw path kind h
