-- ===== src/Authored/Deck/Legal.antt =====
-- The Decks that crates/cards/src/deck.rs accepts.
use summoners.Prelude.{
  ℕ, ◌≤◌, ◌≡◌, refl, sym, ap, subst, ◌∙◌, true, false, not, Option, none, some, List, [], ◌∷◌, ◌==◌,
  is_some, ok, guard, >>=-eq-ok, guard-eq-ok, negated, ok_or-eq-ok, ok-injective, sum_by, length,
  arith, ==_iff,
}
use summoners.Domain.EntityId.{bytes_eq}
use summoners.Domain.Cards.{Form}
use summoners.Authored.Keys.{Text, contains_key, find, stable_key_syntax}
use summoners.Authored.Library.{CardLibrary, card_id}
use summoners.Authored.DeckError.{DeckPath, DeckStableKeyKind}
use summoners.Authored.Deck.{
  CardQuantityDto, Deck, DeckDto, form_in_library, is_blank, parse_qualified, prints_base,
  require_base_starter, require_bound, require_stable_key, resolve, resolve_body, resolve_card,
  resolve_requirements,
}
use summoners.Authored.Deck.Parts.{IsQualified, parse_qualified-eq-ok}
use summoners.Authored.Deck.Requires.{
  AreRequirements, is_required, named, resolve_requirements-eq-ok,
}
use summoners.Authored.Deck.Body.{AreItems, asked, expand, resolve_body-eq-ok}

-- A card reference of a Deck: its Set is required, and the library has the card.
pub record IsReference (library : CardLibrary) (raw : DeckDto) (value : Text) : Type 0 where
  pub set : Text
  pub qualified : IsQualified value set
  pub required : is_required set raw.requires ≡ true
  pub known : is_some (card_id library value) ≡ true

abbrev pub AreReferences : CardLibrary → DeckDto → List CardQuantityDto → Type 0
AreReferences library raw [] = Unit {0}
AreReferences library raw (item ∷ items) =
    IsReference library raw item.card
    × (1 ≤ item.quantity)
    × (bytes_eq item.card raw.starter ≡ false)
    × AreReferences library raw items

-- A decoded document and the Deck that it describes.
pub record IsLegal (library : CardLibrary) (raw : DeckDto) (deck : Deck) : Type 0 where
  pub version : raw.schema_version ≡ 1
  pub key : stable_key_syntax raw.id ≡ true
  pub name : is_blank raw.name ≡ false
  pub requires : AreRequirements library raw.requires
  pub required_once : (set : Text) → sum_by (named set) raw.requires ≤ 1
  pub starter : IsReference library raw raw.starter
  pub starter_id : card_id library raw.starter ≡ some deck.starter
  pub base : form_in_library library deck.starter ≡ some Form.base
  pub cards : AreReferences library raw raw.cards
  pub copies : (card : Text) → sum_by (asked card) raw.cards ≤ 2
  pub size : length deck.body ≡ 20
  pub body : deck.body ≡ expand library raw.cards
  pub names : (deck.id ≡ raw.id) × (deck.name ≡ raw.name)

prints_base-some : (o : Option Form) → prints_base o ≡ true → o ≡ some Form.base
prints_base-some none h = cc
prints_base-some (some Form.base) h = refl
prints_base-some (some Form.enhanced) h = cc
prints_base-some (some Form.elite) h = cc

references_of :
    (library : CardLibrary) (raw : DeckDto) (requirements : List (Text × ℕ))
    (items : List CardQuantityDto)
    → ((set : Text) → contains_key set requirements ≡ is_required set raw.requires)
    → AreItems library requirements raw.starter items
    → AreReferences library raw items
references_of library raw requirements [] keys h = tt
references_of library raw requirements (item ∷ items) keys (first, rest) = (
  record {
    set = first.set;
    qualified = first.qualified;
    required = sym (keys first.set) ∙ first.bound;
    known = first.known;
  },
  first.positive,
  first.no_starter,
  references_of library raw requirements items keys rest,
)

-- An accepted Deck is legal: its document has schema version 1, a stable key and a name that is not
-- blank; each requirement is for the revision of a Set that the library has, and none repeats a Set;
-- the Starter and each card are keys of required Sets that the library has; the Starter prints Base
-- and is no card of the body; each card is there at least once, and no card more than twice; and the
-- body is the twenty cards of the recipe, in its order.
pub resolve-IsLegal :
    (raw : DeckDto) (library : CardLibrary) (deck : Deck)
    → resolve raw library ≡ ok deck
    → IsLegal library raw deck
unfolding resolve require_stable_key require_bound resolve_card require_base_starter find
resolve-IsLegal raw library deck h =
    let version = >>=-eq-ok (guard (raw.schema_version == 1) _) _ h in
    let key =
      >>=-eq-ok (require_stable_key raw.id DeckStableKeyKind.deck DeckPath.id) _ version.2 in
    let name = >>=-eq-ok (guard (not (is_blank raw.name)) _) _ key.2 in
    let maps =
      >>=-eq-ok
        (resolve_requirements library 0 (record { requirements = []; paths = [] }) raw.requires) _
        name.2 in
    let parsed = >>=-eq-ok (parse_qualified raw.starter DeckPath.starter) _ maps.2 in
    let bound =
      >>=-eq-ok (require_bound parsed.0 maps.0.requirements DeckPath.starter) _ parsed.2 in
    let starter = >>=-eq-ok (resolve_card library parsed.0 DeckPath.starter) _ bound.2 in
    let base = >>=-eq-ok (require_base_starter library starter.0 parsed.0.key) _ starter.2 in
    let cards =
      >>=-eq-ok (resolve_body raw.cards library maps.0.requirements parsed.0.key) _ base.2 in
    let taken =
      resolve_requirements-eq-ok library 0 (record { requirements = []; paths = [] }) raw.requires
        maps.0 maps.1 in
    let qualified = parse_qualified-eq-ok raw.starter DeckPath.starter parsed.0 parsed.1 in
    let body =
      resolve_body-eq-ok library maps.0.requirements parsed.0.key raw.cards cards.0 cards.1 in
    let id_of : card_id library raw.starter ≡ some starter.0 =
      ap (card_id library) (sym qualified.0) ∙ ok_or-eq-ok _ _ starter.1 in
    subst (λ (made : Deck). IsLegal library raw made) (ok-injective refl cards.2)
      (record {
        version = (==_iff raw.schema_version 1).0 (guard-eq-ok _ _ version.1);
        key = guard-eq-ok _ _ key.1;
        name = negated _ (guard-eq-ok _ _ name.1);
        requires = taken.hold;
        required_once = λ set. omega (arith, taken.once set);
        starter = record {
          set = parsed.0.set;
          qualified = qualified.1;
          required = sym (taken.keys parsed.0.set) ∙ guard-eq-ok _ _ bound.1;
          known = ap is_some id_of;
        };
        starter_id = id_of;
        base = prints_base-some _ (guard-eq-ok _ _ base.1);
        cards =
            references_of library raw maps.0.requirements raw.cards taken.keys
              (subst (λ k. AreItems library maps.0.requirements k raw.cards) qualified.0 body.0);
        copies = body.3;
        size = body.2;
        body = body.1;
        names = (refl, refl);
      })
