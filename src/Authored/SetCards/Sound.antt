-- ===== src/Authored/SetCards/Sound.antt =====
-- The cards and the Sets that crates/cards/src/v1/model.rs accepts.
use summoners.Prelude.{
  ℕ, suc, ◌+◌, ◌≤◌, ◌≡◌, refl, subst, Bool, true, false, not, ◌||◌, List, [], ◌∷◌, ◌==◌, any, ok,
  guard, >>=-eq-ok, guard-eq-ok, ok-injective, is_empty, negated, sum_by, if◌then◌else◌, arith,
  ==_iff,
}
use summoners.Authored.SetDto
use summoners.Authored.SetDto.{ManaType, Modifier}
use summoners.Authored.SetModel.{CardKind, EffectContext}
use summoners.Authored.SetError.{SetPath}
use summoners.Authored.SetEffects.{parse_modifier, parse_modifiers, require_positive}
use summoners.Authored.SetEffects.Allowed.{require_positive-eq-ok}
use summoners.Authored.SetAbilities.{
  forbid_list, forbid_option, is_attack, parse_abilities, required,
}
use summoners.Authored.SetAbilities.Sound.{AreEffects, IsModifier, parse_modifier-IsModifier}
use summoners.Authored.SetAbilities.Keys.{
  AreDistinctAbilities, parse_abilities-AreDistinctAbilities,
}
use summoners.Authored.SetCards.{
  check_mana_types, mana_eq, parse_mana_types, parse_summon, spell_context,
}

abbrev pub one_type : ManaType → ManaType → ℕ
one_type mana other = if mana_eq mana other then 1 else 0

-- There are some Mana Types, and none twice.
abbrev pub AreTypes : List ManaType → Type 0
AreTypes types = (is_empty types ≡ false) × ((mana : ManaType) → sum_by (one_type mana) types ≤ 1)

abbrev pub AreModifiers : List Modifier → Type 0
AreModifiers [] = Unit {0}
AreModifiers (modifier ∷ rest) = IsModifier modifier × AreModifiers rest

abbrev pub IsCardKind : CardKind → Type 0
IsCardKind (CardKind.summon form life types retreat abilities) =
    (1 ≤ life) × AreTypes types × AreDistinctAbilities abilities × (sum_by is_attack abilities ≡ 1)
IsCardKind (CardKind.spell timing cost effects) = AreEffects (spell_context timing) effects
IsCardKind (CardKind.enchantment cost effects modifiers) =
    AreEffects EffectContext.enchantment effects × AreModifiers modifiers

type_once :
    (mana first : ManaType) (seen : Bool) (n : ℕ)
    → (mana_eq mana first ≡ true → seen ≡ false)
    → (if mana_eq mana first || seen then 1 else 0) + n ≤ 1
    → (if seen then 1 else 0) + ((if mana_eq mana first then 1 else 0) + n) ≤ 1
type_once mana first true n apart h = ground (arith, apart, h)
type_once mana first false n apart h = ground (arith, h)

same_type : (mana first : ManaType) → mana_eq mana first ≡ true → first ≡ mana
same_type ManaType.matter ManaType.matter h = refl
same_type ManaType.mind ManaType.mind h = refl
same_type ManaType.spirit ManaType.spirit h = refl
same_type _ _ h = cc

check_mana_types-eq-ok :
    (seen : List ManaType) (index : ℕ) (types : List ManaType) (path : SetPath) {u : Unit {0}}
    → check_mana_types seen index types path ≡ ok u
    → (mana : ManaType)
    → (if any (mana_eq mana) seen then 1 else 0) + sum_by (one_type mana) types ≤ 1
unfolding check_mana_types
check_mana_types-eq-ok seen index [] path h mana = ground arith
check_mana_types-eq-ok seen index (first ∷ rest) path h mana =
    let test = >>=-eq-ok (guard (not (any (mana_eq first) seen)) _) _ h in
    let new = negated _ (guard-eq-ok _ _ test.1) in
    type_once mana first _ _
      (λ e. subst (λ m. any (mana_eq m) seen ≡ false) (same_type mana first e) new)
      (check_mana_types-eq-ok (first ∷ seen) (suc index) rest path test.2 mana)

parse_mana_types-AreTypes :
    (raw : List ManaType) (path : SetPath) (types : List ManaType)
    → parse_mana_types raw path ≡ ok types
    → AreTypes types
unfolding parse_mana_types
parse_mana_types-AreTypes raw path types h =
    let some_types = >>=-eq-ok (guard (not (is_empty raw)) _) _ h in
    let distinct = >>=-eq-ok (check_mana_types [] 0 raw path) _ some_types.2 in
    subst AreTypes (ok-injective refl distinct.2) (
      negated _ (guard-eq-ok _ _ some_types.1),
      λ mana. omega (arith, check_mana_types-eq-ok [] 0 raw path distinct.1 mana),
    )

pub parse_modifiers-AreModifiers :
    (index : ℕ) (raw : List Modifier) (path : SetPath) (modifiers : List Modifier)
    → parse_modifiers index raw path ≡ ok modifiers
    → AreModifiers modifiers
unfolding parse_modifiers
parse_modifiers-AreModifiers index [] path modifiers h = subst AreModifiers (ok-injective refl h) tt
parse_modifiers-AreModifiers index (modifier ∷ rest) path modifiers h =
    let first = >>=-eq-ok (parse_modifier modifier _) _ h in
    let later = >>=-eq-ok (parse_modifiers (suc index) rest path) _ first.2 in
    subst AreModifiers (ok-injective refl later.2) (
      parse_modifier-IsModifier modifier _ first.1,
      parse_modifiers-AreModifiers (suc index) rest path later.0 later.1,
    )

pub parse_summon-IsCardKind :
    (raw : SetDto.Card) (path : SetPath) (kind : CardKind)
    → parse_summon raw path ≡ ok kind
    → IsCardKind kind
unfolding parse_summon
parse_summon-IsCardKind raw path kind h =
    let timing = >>=-eq-ok (forbid_option raw.timing path _) _ h in
    let persistence = >>=-eq-ok (forbid_option raw.persistence path _) _ timing.2 in
    let cost = >>=-eq-ok (forbid_option raw.cost path _) _ persistence.2 in
    let effects = >>=-eq-ok (forbid_list raw.effects path _) _ cost.2 in
    let modifiers = >>=-eq-ok (forbid_list raw.modifiers path _) _ effects.2 in
    let form = >>=-eq-ok (required raw.form path _) _ modifiers.2 in
    let life = >>=-eq-ok (required raw.life path _) _ form.2 in
    let positive = >>=-eq-ok (require_positive life.0 _ _) _ life.2 in
    let listed = >>=-eq-ok (required raw.types path _) _ positive.2 in
    let types = >>=-eq-ok (parse_mana_types listed.0 _) _ listed.2 in
    let retreat = >>=-eq-ok (required raw.retreat path _) _ types.2 in
    let abilities = >>=-eq-ok (parse_abilities raw.abilities path) _ retreat.2 in
    let attacks = >>=-eq-ok (guard (sum_by is_attack abilities.0 == 1) _) _ abilities.2 in
    subst IsCardKind (ok-injective refl attacks.2) (
      require_positive-eq-ok _ _ _ positive.1,
      parse_mana_types-AreTypes listed.0 _ types.0 types.1,
      parse_abilities-AreDistinctAbilities raw.abilities path abilities.0 abilities.1,
      (==_iff (sum_by is_attack abilities.0) 1).0 (guard-eq-ok _ _ attacks.1),
    )
