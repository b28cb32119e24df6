-- ===== src/Authored/SetAbilities/Keys.antt =====
-- The stable keys of the abilities and of the cards of a Set: crates/cards/src/v1/model.rs.
use summoners.Prelude.{
  ℕ, suc, ◌+◌, ◌≤◌, ◌≡◌, refl, sym, ap, subst, ◌∙◌, Bool, false, Option, none, some, List, [], ◌∷◌,
  ok, guard, >>=-eq-ok, guard-eq-ok, ok-injective, is_empty, is_some, not, sum_by, if◌then◌else◌,
  arith,
}
use summoners.Domain.EntityId.{bytes_eq}
use summoners.Pool.{bytes_eq_sound}
use summoners.Authored.Keys.{Text, contains_key, find, insert, stable_key_syntax}
use summoners.Authored.Maps.{contains-insert, once_more}
use summoners.Authored.SetDto
use summoners.Authored.SetModel.{Ability, StableCode}
use summoners.Authored.SetError.{SetPath, StableKeyKind}
use summoners.Authored.SetAbilities.{
  SeenKeys, parse_abilities, parse_ability, parse_ability_kind, parse_code, parse_each_ability,
  reject_duplicate, require_new_key,
}
use summoners.Authored.SetAbilities.Sound.{
  AreAbilities, IsAbilityKind, IsCode, has_code, parse_ability_kind-IsAbilityKind,
}

pub parse_code-IsCode :
    (value : Text) (kind : StableKeyKind) (path : SetPath) (code : StableCode)
    → parse_code value kind path ≡ ok code
    → IsCode code
unfolding parse_code
parse_code-IsCode value kind path code h =
    let test = >>=-eq-ok (guard (stable_key_syntax value) _) _ h in
    subst IsCode (ok-injective refl test.2) (guard-eq-ok _ _ test.1)

-- A key that is added is new.
pub record IsAdded (value : Text) (seen next : SeenKeys) : Type 0 where
  pub fresh : contains_key value seen ≡ false
  pub path : SetPath
  pub added : next ≡ insert value path seen

require_new_key-eq-ok :
    (kind : StableKeyKind) (value : Text) (path : SetPath) (found : Option SetPath) {u : Unit {0}}
    → require_new_key kind value path found ≡ ok u
    → is_some found ≡ false
require_new_key-eq-ok kind value path none h = refl
require_new_key-eq-ok kind value path (some first_path) h = cc

pub reject_duplicate-eq-ok :
    (seen : SeenKeys) (value : Text) (path : SetPath) (kind : StableKeyKind) (next : SeenKeys)
    → reject_duplicate seen value path kind ≡ ok next
    → IsAdded value seen next
unfolding reject_duplicate
reject_duplicate-eq-ok seen value path kind next h =
    let test = >>=-eq-ok (require_new_key kind value path (find value seen)) _ h in
    record {
      fresh = require_new_key-eq-ok kind value path (find value seen) test.1;
      path = path;
      added = sym (ok-injective refl test.2);
    }

-- With one more key that is new, and none of the later ones among it and those before.
pub added_once :
    (key value : Text) (seen next : SeenKeys) (n : ℕ)
    → IsAdded value seen next
    → n + (if contains_key key next then 1 else 0) ≤ 1
    → (if bytes_eq value key then 1 else 0) + n + (if contains_key key seen then 1 else 0) ≤ 1
added_once key value seen next n h once =
    once_more (bytes_eq value key) _ _ n
      (ap (contains_key key) h.added ∙ contains-insert key value h.path seen)
      (λ e. ap (λ k. contains_key k seen) (sym (bytes_eq_sound value key e)) ∙ h.fresh) once

parse_ability-eq-ok :
    (raw : SetDto.Ability) (code : StableCode) (path : SetPath) (ability : Ability)
    → parse_ability raw code path ≡ ok ability
    → (ability.code ≡ code) × IsAbilityKind ability.kind
unfolding parse_ability
parse_ability-eq-ok raw code path ability h =
    let kind = >>=-eq-ok (parse_ability_kind raw.kind raw path) _ h in
    subst (λ (a : Ability). (a.code ≡ code) × IsAbilityKind a.kind) (ok-injective refl kind.2)
      (refl, parse_ability_kind-IsAbilityKind raw.kind raw path kind.0 kind.1)

-- The abilities of a card: each of its kind's shape, and no key twice.
pub record AreDistinctAbilities (abilities : List Ability) : Type 0 where
  pub all_hold : AreAbilities abilities
  pub once : (key : Text) → sum_by (λ (a : Ability). has_code key a.code) abilities ≤ 1

record Parses (seen : SeenKeys) (abilities : List Ability) : Type 0 where
  all_hold : AreAbilities abilities
  once :
      (key : Text)
      → sum_by (λ (a : Ability). has_code key a.code) abilities
          + (if contains_key key seen then 1 else 0)
        ≤ 1

at_most_one : (b : Bool) → 0 + (if b then 1 else 0) ≤ 1
at_most_one b = ground arith

parse_each_ability-Parses :
    (seen : SeenKeys) (index : ℕ) (raw : List SetDto.Ability) (card_path : SetPath)
    (abilities : List Ability)
    → parse_each_ability seen index raw card_path ≡ ok abilities
    → Parses seen abilities
unfolding parse_each_ability
parse_each_ability-Parses seen index [] card_path abilities h =
    subst (Parses seen) (ok-injective refl h)
      (record { all_hold = tt; once = λ key. at_most_one (contains_key key seen) })
parse_each_ability-Parses seen index (raw ∷ rest) card_path abilities h =
    let path = SetPath.at (SetPath.dot card_path "abilities") index in
    let code =
      >>=-eq-ok (parse_code raw.code StableKeyKind.ability (SetPath.dot path "code")) _ h in
    let next = >>=-eq-ok (reject_duplicate seen code.0.text _ StableKeyKind.ability) _ code.2 in
    let ability = >>=-eq-ok (parse_ability raw code.0 path) _ next.2 in
    let own = parse_ability-eq-ok raw code.0 path ability.0 ability.1 in
    let later = >>=-eq-ok (parse_each_ability next.0 (suc index) rest card_path) _ ability.2 in
    let run = parse_each_ability-Parses next.0 (suc index) rest card_path later.0 later.1 in
    let valid =
      subst IsCode (sym own.0) (parse_code-IsCode raw.code StableKeyKind.ability _ code.0 code.1) in
    let added =
      subst (λ (c : StableCode). IsAdded c.text seen next.0) (sym own.0)
        (reject_duplicate-eq-ok seen code.0.text _ StableKeyKind.ability next.0 next.1) in
    subst (Parses seen) (ok-injective refl later.2) (record {
      all_hold = (valid, own.1, run.all_hold);
      once = λ key. added_once key ability.0.code.text seen next.0 _ added (run.once key);
    })

pub at_start : (n : ℕ) (b : Bool) → n + (if b then 1 else 0) ≤ 1 → n ≤ 1
at_start n b h = omega (arith, h)

pub parse_abilities-AreDistinctAbilities :
    (raw : List SetDto.Ability) (card_path : SetPath) (abilities : List Ability)
    → parse_abilities raw card_path ≡ ok abilities
    → AreDistinctAbilities abilities
unfolding parse_abilities
parse_abilities-AreDistinctAbilities raw card_path abilities h =
    let test = >>=-eq-ok (guard (not (is_empty raw)) _) _ h in
    let run = parse_each_ability-Parses [] 0 raw card_path abilities test.2 in
    record { all_hold = run.all_hold; once = λ key. at_start _ _ (run.once key) }
