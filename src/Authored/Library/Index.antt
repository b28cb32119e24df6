-- ===== src/Authored/Library/Index.antt =====
-- The index of qualified keys that `from_sets` of crates/cards/src/library.rs builds.
use summoners.Prelude.{
  ◌≡◌, refl, sym, ap, subst, ◌∙◌, true, false, Option, none, some, List, [], ◌∷◌, is_some, ok,
  >>=-eq-ok, ok-injective, Bool-cases, inl, inr,
}
use summoners.Domain.EntityId.{EntityId, bytes_eq}
use summoners.Authored.Keys.{Text, find, insert}
use summoners.Authored.Maps.{bytes_eq_self, find-insert}
use summoners.Authored.Library.{
  CardLibrary, LoadedSet, Qualified, from_sets, qualified_cards, qualified_key, qualify_card,
  qualify_set, qualify_sets, reject_duplicate_ids, require_unowned,
}
use summoners.Pool.{bytes_eq_sound}

-- The two maps have the same keys.
Agree : Qualified → Type 0
Agree maps = (key : Text) → is_some (find key maps.owners) ≡ is_some (find key maps.cards)

-- What was found is still found.
Kept : Qualified → Qualified → Type 0
Kept maps next =
    (key : Text) (id : EntityId) → find key maps.cards ≡ some id → find key next.cards ≡ some id

-- Each card of a Set is found under its qualified key.
abbrev pub AreFound : Text → List (Text × EntityId) → List (Text × EntityId) → Type 0
AreFound code cards [] = Unit {0}
AreFound code cards (entry ∷ entries) =
    (find (qualified_key code entry.0) cards ≡ some entry.1) × AreFound code cards entries

abbrev pub AreIndexed : List (Text × EntityId) → List LoadedSet → Type 0
AreIndexed cards [] = Unit {0}
AreIndexed cards (set ∷ sets) = AreFound set.code cards set.card_ids × AreIndexed cards sets

record Adds (key : Text) (id : EntityId) (maps next : Qualified) : Type 0 where
  agree : Agree maps → Agree next
  kept : Agree maps → Kept maps next
  found : find key next.cards ≡ some id

added : Text → Text → EntityId → Qualified → Qualified
added code key id maps = record {
  cards = insert key id maps.cards;
  owners = insert key code maps.owners;
}

clash :
    (key k : Text) (other : EntityId) (maps : Qualified)
    → find key maps.owners ≡ none
    → is_some (find k maps.owners) ≡ is_some (find k maps.cards)
    → find k maps.cards ≡ some other
    → bytes_eq key k ≡ true
    → ⊥
clash key k other maps absent same h e =
    let taken : is_some (find k maps.owners) ≡ true = same ∙ ap is_some h in
    let gone : is_some (find k maps.owners) ≡ false =
      ap (λ x. is_some (find x maps.owners)) (sym (bytes_eq_sound key k e)) ∙ ap is_some absent in
    cc

added-Adds :
    (code key : Text) (id : EntityId) (maps : Qualified)
    → find key maps.owners ≡ none
    → Adds key id maps (added code key id maps)
unfolding added Agree Kept
added-Adds code key id maps absent = record {
  agree = λ same k. elim (Bool-cases (bytes_eq key k)) [
    | inl e ↦ rw (find-insert k key code maps.owners, find-insert k key id maps.cards, e)
    | inr e ↦ rw (find-insert k key code maps.owners, find-insert k key id maps.cards, e) (same k)
  ];
  kept = λ same k other h. elim (Bool-cases (bytes_eq key k)) [
    | inl e ↦ absurd (clash key k other maps absent (same k) h e)
    | inr e ↦ rw (find-insert k key id maps.cards, e) h
  ];
  found = rw (find-insert key key id maps.cards, bytes_eq_self key);
}

require_unowned-eq-ok :
    (key code : Text) (found : Option Text) {u : Unit {0}}
    → require_unowned key code found ≡ ok u
    → found ≡ none
require_unowned-eq-ok key code none h = refl
require_unowned-eq-ok key code (some first_set) h = cc

qualify_card-eq-ok :
    (code : Text) (maps : Qualified) (card : Text) (id : EntityId) (next : Qualified)
    → qualify_card code maps card id ≡ ok next
    → Adds (qualified_key code card) id maps next
unfolding qualify_card added
qualify_card-eq-ok code maps card id next h =
    let free =
      >>=-eq-ok
        (require_unowned (qualified_key code card) code
          (find (qualified_key code card) maps.owners))
        _ h in
    subst (λ (made : Qualified). Adds (qualified_key code card) id maps made)
      (ok-injective refl free.2)
      (added-Adds code (qualified_key code card) id maps
        (require_unowned-eq-ok _ _ (find (qualified_key code card) maps.owners) free.1))

-- A part of the loop, that finds some cards in the end.
record Grows (maps next : Qualified) (Found : List (Text × EntityId) → Type 0) : Type 0 where
  agree : Agree maps → Agree next
  kept : Agree maps → Kept maps next
  found : Agree maps → Found next.cards

AreFound-Kept :
    (code : Text) (maps next : Qualified) (entries : List (Text × EntityId))
    → Kept maps next
    → AreFound code maps.cards entries
    → AreFound code next.cards entries
unfolding Kept
AreFound-Kept code maps next [] kept h = tt
AreFound-Kept code maps next (entry ∷ entries) kept (first, rest) = (
  kept (qualified_key code entry.0) entry.1 first,
  AreFound-Kept code maps next entries kept rest,
)

qualify_set-eq-ok :
    (code : Text) (maps : Qualified) (entries : List (Text × EntityId)) (next : Qualified)
    → qualify_set code maps entries ≡ ok next
    → Grows maps next (λ cards. AreFound code cards entries)
unfolding qualify_set Kept
qualify_set-eq-ok code maps [] next h =
    subst (λ (made : Qualified). Grows maps made (λ cards. Unit {0})) (ok-injective refl h)
      (record { agree = λ same. same; kept = λ same key id found. found; found = λ same. tt })
qualify_set-eq-ok code maps (entry ∷ entries) next h =
    let first = >>=-eq-ok (qualify_card code maps entry.0 entry.1) _ h in
    let adds = qualify_card-eq-ok code maps entry.0 entry.1 first.0 first.1 in
    let rest = qualify_set-eq-ok code first.0 entries next first.2 in
    record {
      agree = λ same. rest.agree (adds.agree same);
      kept = λ same key id found. rest.kept (adds.agree same) key id (adds.kept same key id found);
      found = λ same. (rest.kept (adds.agree same) _ _ adds.found, rest.found (adds.agree same));
    }

qualify_sets-eq-ok :
    (maps : Qualified) (sets : List LoadedSet) (next : Qualified)
    → qualify_sets maps sets ≡ ok next
    → Grows maps next (λ cards. AreIndexed cards sets)
unfolding qualify_sets Kept
qualify_sets-eq-ok maps [] next h =
    subst (λ (made : Qualified). Grows maps made (λ cards. Unit {0})) (ok-injective refl h)
      (record { agree = λ same. same; kept = λ same key id found. found; found = λ same. tt })
qualify_sets-eq-ok maps (set ∷ sets) next h =
    let first = >>=-eq-ok (qualify_set set.code maps set.card_ids) _ h in
    let grows = qualify_set-eq-ok set.code maps set.card_ids first.0 first.1 in
    let rest = qualify_sets-eq-ok first.0 sets next first.2 in
    record {
      agree = λ same. rest.agree (grows.agree same);
      kept =
          λ same key id found. rest.kept (grows.agree same) key id (grows.kept same key id found);
      found = λ same. (
        AreFound-Kept set.code first.0 next set.card_ids (rest.kept (grows.agree same))
            (grows.found same),
        rest.found (grows.agree same),
      );
    }

-- A library that is assembled finds every card of each of its Sets, under the Set's code, a slash
-- and the card's code, as the identity that the Set gives the card.
pub from_sets-AreIndexed :
    (sets : List LoadedSet) (library : CardLibrary)
    → from_sets sets ≡ ok library
    → AreIndexed library.cards sets
unfolding from_sets qualified_cards Agree find
from_sets-AreIndexed sets library h =
    let cards = >>=-eq-ok (qualified_cards sets) _ h in
    let unique = >>=-eq-ok (reject_duplicate_ids sets) _ cards.2 in
    let maps = >>=-eq-ok (qualify_sets (record { cards = []; owners = [] }) sets) _ cards.1 in
    let grows = qualify_sets-eq-ok (record { cards = []; owners = [] }) sets maps.0 maps.1 in
    let made : cards.0 ≡ library.cards =
      ap (λ (l : CardLibrary). l.cards) (ok-injective refl unique.2) in
    subst (λ index. AreIndexed index sets) (ok-injective refl maps.2 ∙ made)
      (grows.found (λ key. refl))
