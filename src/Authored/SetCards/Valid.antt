-- ===== src/Authored/SetCards/Valid.antt =====
-- The Sets that `parse` of crates/cards/src/v1/model.rs accepts.
use summoners.Prelude.{
  ℕ, suc, ◌+◌, ◌≤◌, ◌≡◌, refl, sym, subst, Bool, false, not, ◌||◌, List, [], ◌∷◌, ◌==◌, ok, guard,
  >>=-eq-ok, guard-eq-ok, ok-injective, is_empty, negated, sum_by, if◌then◌else◌, arith,
}
use summoners.Authored.Keys.{Text, contains_key}
use summoners.Authored.Deck.{is_blank}
use summoners.Authored.SetDto
use summoners.Authored.SetModel.{Card, CardKind, EffectContext, Set, StableCode}
use summoners.Authored.SetError.{SetPath, StableKeyKind}
use summoners.Authored.SetEffects.{parse_effects, parse_modifiers, require_positive}
use summoners.Authored.SetEffects.Allowed.{require_positive-eq-ok}
use summoners.Authored.SetAbilities.{SeenKeys, forbid_list, parse_code, reject_duplicate, required}
use summoners.Authored.SetAbilities.Sound.{IsCode, has_code, parse_effects-AreEffects}
use summoners.Authored.SetAbilities.Keys.{
  IsAdded, added_once, at_start, parse_code-IsCode, reject_duplicate-eq-ok,
}
use summoners.Authored.SetCards.{
  forbid_summon_fields, is_discard, is_support, parse, parse_card, parse_card_kind, parse_each_card,
  parse_enchantment, parse_spell, require_name, spell_context,
}
use summoners.Authored.SetCards.Sound.{
  IsCardKind, parse_modifiers-AreModifiers, parse_summon-IsCardKind,
}

parse_spell-IsCardKind :
    (raw : SetDto.Card) (path : SetPath) (kind : CardKind)
    → parse_spell raw path ≡ ok kind
    → IsCardKind kind
unfolding parse_spell
parse_spell-IsCardKind raw path kind h =
    let fields = >>=-eq-ok (forbid_summon_fields raw path) _ h in
    let abilities = >>=-eq-ok (forbid_list raw.abilities path _) _ fields.2 in
    let modifiers = >>=-eq-ok (forbid_list raw.modifiers path _) _ abilities.2 in
    let timing = >>=-eq-ok (required raw.timing path _) _ modifiers.2 in
    let persistence = >>=-eq-ok (required raw.persistence path _) _ timing.2 in
    let discard = >>=-eq-ok (guard (is_discard persistence.0) _) _ persistence.2 in
    let cost = >>=-eq-ok (required raw.cost path _) _ discard.2 in
    let effects = >>=-eq-ok (parse_effects raw.effects (spell_context timing.0) _) _ cost.2 in
    subst IsCardKind (ok-injective refl effects.2)
      (parse_effects-AreEffects raw.effects (spell_context timing.0) _ effects.0 effects.1)

parse_enchantment-IsCardKind :
    (raw : SetDto.Card) (path : SetPath) (kind : CardKind)
    → parse_enchantment raw path ≡ ok kind
    → IsCardKind kind
unfolding parse_enchantment
parse_enchantment-IsCardKind raw path kind h =
    let fields = >>=-eq-ok (forbid_summon_fields raw path) _ h in
    let abilities = >>=-eq-ok (forbid_list raw.abilities path _) _ fields.2 in
    let timing = >>=-eq-ok (required raw.timing path _) _ abilities.2 in
    let persistence = >>=-eq-ok (required raw.persistence path _) _ timing.2 in
    let shape =
      >>=-eq-ok (guard (not (not (is_support timing.0) || is_discard persistence.0)) _) _
        persistence.2 in
    let cost = >>=-eq-ok (required raw.cost path _) _ shape.2 in
    let effects = >>=-eq-ok (parse_effects raw.effects EffectContext.enchantment _) _ cost.2 in
    let modifiers = >>=-eq-ok (parse_modifiers 0 raw.modifiers _) _ effects.2 in
    subst IsCardKind (ok-injective refl modifiers.2) (
      parse_effects-AreEffects raw.effects EffectContext.enchantment _ effects.0 effects.1,
      parse_modifiers-AreModifiers 0 raw.modifiers _ modifiers.0 modifiers.1,
    )

parse_card_kind-IsCardKind :
    (which : SetDto.CardKind) (raw : SetDto.Card) (path : SetPath) (kind : CardKind)
    → parse_card_kind which raw path ≡ ok kind
    → IsCardKind kind
unfolding parse_card_kind
parse_card_kind-IsCardKind SetDto.CardKind.summon raw path kind h =
    parse_summon-IsCardKind raw path kind h
parse_card_kind-IsCardKind SetDto.CardKind.spell raw path kind h =
    parse_spell-IsCardKind raw path kind h
parse_card_kind-IsCardKind SetDto.CardKind.enchantment raw path kind h =
    parse_enchantment-IsCardKind raw path kind h

-- A card of its kind's shape, with a name and under a stable key.
abbrev pub IsCard : Card → Type 0
IsCard card = IsCode card.code × (is_blank card.name ≡ false) × IsCardKind card.kind

abbrev pub AreCards : List Card → Type 0
AreCards [] = Unit {0}
AreCards (card ∷ rest) = IsCard card × AreCards rest

parse_card-eq-ok :
    (raw : SetDto.Card) (code : StableCode) (path : SetPath) (card : Card)
    → parse_card raw code path ≡ ok card
    → (card.code ≡ code) × (is_blank card.name ≡ false) × IsCardKind card.kind
unfolding parse_card require_name
parse_card-eq-ok raw code path card h =
    let name = >>=-eq-ok (require_name raw.name (SetPath.dot path "name")) _ h in
    let kind = >>=-eq-ok (parse_card_kind raw.kind raw path) _ name.2 in
    subst (λ (c : Card). (c.code ≡ code) × (is_blank c.name ≡ false) × IsCardKind c.kind)
      (ok-injective refl kind.2)
      (
        refl,
        negated _ (guard-eq-ok _ _ name.1),
        parse_card_kind-IsCardKind raw.kind raw path kind.0 kind.1,
      )

record Parses (seen : SeenKeys) (cards : List Card) : Type 0 where
  all_hold : AreCards cards
  once :
      (key : Text)
      → sum_by (λ (c : Card). has_code key c.code) cards + (if contains_key key seen then 1 else 0)
        ≤ 1

at_most_one : (b : Bool) → 0 + (if b then 1 else 0) ≤ 1
at_most_one b = ground arith

parse_each_card-Parses :
    (seen : SeenKeys) (index : ℕ) (raw : List SetDto.Card) (cards : List Card)
    → parse_each_card seen index raw ≡ ok cards
    → Parses seen cards
unfolding parse_each_card
parse_each_card-Parses seen index [] cards h =
    subst (Parses seen) (ok-injective refl h)
      (record { all_hold = tt; once = λ key. at_most_one (contains_key key seen) })
parse_each_card-Parses seen index (raw ∷ rest) cards h =
    let path = SetPath.at (SetPath.top "cards") index in
    let code = >>=-eq-ok (parse_code raw.code StableKeyKind.card (SetPath.dot path "code")) _ h in
    let next = >>=-eq-ok (reject_duplicate seen code.0.text _ StableKeyKind.card) _ code.2 in
    let card = >>=-eq-ok (parse_card raw code.0 path) _ next.2 in
    let own = parse_card-eq-ok raw code.0 path card.0 card.1 in
    let later = >>=-eq-ok (parse_each_card next.0 (suc index) rest) _ card.2 in
    let run = parse_each_card-Parses next.0 (suc index) rest later.0 later.1 in
    let valid =
      subst IsCode (sym own.0) (parse_code-IsCode raw.code StableKeyKind.card _ code.0 code.1) in
    let added =
      subst (λ (c : StableCode). IsAdded c.text seen next.0) (sym own.0)
        (reject_duplicate-eq-ok seen code.0.text _ StableKeyKind.card next.0 next.1) in
    subst (Parses seen) (ok-injective refl later.2) (record {
      all_hold = ((valid, own.1, own.2), run.all_hold);
      once = λ key. added_once key card.0.code.text seen next.0 _ added (run.once key);
    })

-- A Set under a stable key, with a revision, a name and cards, no two under one key.
pub record IsValidSet (set : Set) : Type 0 where
  pub key : IsCode set.code
  pub revision : 1 ≤ set.revision
  pub name : is_blank set.name ≡ false
  pub cards : AreCards set.cards
  pub once : (code : Text) → sum_by (λ (c : Card). has_code code c.code) set.cards ≤ 1

-- An accepted Set has a stable key, a positive revision and a name that is not blank; no two of its
-- cards share a key, and each has a stable key, a name that is not blank and the shape of its kind:
-- a Summon has positive Life, some Mana Types and none twice, exactly one Attack, and abilities
-- under distinct stable keys; every Attack, Skill, Trigger, Spell and Enchantment has some effects,
-- all of them allowed there and with positive amounts; and every modifier has a positive amount,
-- which is an i32 where it is one of a retreat cost.
pub parse-IsValidSet : (decoded : SetDto.Set) (set : Set) → parse decoded ≡ ok set → IsValidSet set
unfolding parse require_name
parse-IsValidSet decoded set h =
    let version = >>=-eq-ok (guard (decoded.schema_version == 1) _) _ h in
    let code = >>=-eq-ok (parse_code decoded.id StableKeyKind.set (SetPath.top "id")) _ version.2 in
    let revision = >>=-eq-ok (require_positive decoded.revision _ _) _ code.2 in
    let name = >>=-eq-ok (require_name decoded.name (SetPath.top "name")) _ revision.2 in
    let some_cards = >>=-eq-ok (guard (not (is_empty decoded.cards)) _) _ name.2 in
    let cards = >>=-eq-ok (parse_each_card [] 0 decoded.cards) _ some_cards.2 in
    let run = parse_each_card-Parses [] 0 decoded.cards cards.0 cards.1 in
    subst IsValidSet (ok-injective refl cards.2) (record {
      key = parse_code-IsCode decoded.id StableKeyKind.set _ code.0 code.1;
      revision = require_positive-eq-ok _ _ _ revision.1;
      name = negated _ (guard-eq-ok _ _ name.1);
      cards = run.all_hold;
      once = λ key. at_start _ _ (run.once key);
    })
