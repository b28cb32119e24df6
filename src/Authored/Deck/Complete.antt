-- ===== src/Authored/Deck/Complete.antt =====
-- The Decks that crates/cards/src/deck.rs accepts are the legal ones.
use summoners.Prelude.{
  ℕ, suc, ◌+◌, ◌≤◌, ◌≡◌, ◌↔◌, refl, sym, ap, ◌∙◌, Bool, true, false, ◌||◌, List, [], ◌∷◌, ◌==◌,
  is_some-none, ok, length, sum_by, if◌then◌else◌, arith, ==_iff,
}
use summoners.Domain.EntityId.{EntityId, bytes_eq}
use summoners.Authored.Keys.{Text, contains_key, find, insert}
use summoners.Authored.Library.{CardLibrary}
use summoners.Authored.DeckError.{DeckPath}
use summoners.Authored.Maps.{contains-insert, bytes_eq_self}
use summoners.Authored.Deck.{
  CardQuantityDto, Deck, DeckDto, Requirements, SetRequirementDto, body_size, require_base_starter,
  require_bound, require_stable_key, resolve, resolve_body, resolve_card, resolve_requirement,
  resolve_requirements,
}
use summoners.Authored.Deck.Requires.{
  AreRequirements, IsRequirement, is_required, named, resolve_requirement-eq-ok,
  resolve_requirements-eq-ok,
}
use summoners.Authored.Deck.Body.{AreItems, resolve_items-eq-ok}
use summoners.Authored.Deck.Accepts.{parse_qualified-accepts, resolve_items-accepts}
use summoners.Authored.Deck.Legal.{AreReferences, IsLegal, resolve-IsLegal}

module _ (library : CardLibrary) where
  resolve_requirement-accepts :
      (index : ℕ) (maps : Requirements) (required : SetRequirementDto)
      → IsRequirement library required
      → contains_key required.set maps.paths ≡ false
      → (next : Requirements) × (resolve_requirement library index maps required ≡ ok next)
  unfolding resolve_requirement require_stable_key
  resolve_requirement-accepts index maps required h first =
      let absent = is_some-none (find required.set maps.paths) first in
      let equal : (required.revision == required.revision) ≡ true = ground arith in
      (
        record {
          requirements = insert required.set required.revision maps.requirements;
          paths = insert required.set (DeckPath.requires index) maps.paths;
        },
        rw (h.key, absent, h.available, equal),
      )

  -- No Set of the rest is named twice, or was named before.
  abbrev Unnamed : Requirements → List SetRequirementDto → Type 0
  Unnamed maps requires =
      (set : Text)
      → sum_by (named set) requires + (if contains_key set maps.paths then 1 else 0) ≤ 1

  not_yet : (b : Bool) (n : ℕ) → 1 + n + (if b then 1 else 0) ≤ 1 → b ≡ false
  not_yet b n h = ground (arith, h)

  still :
      (b c after : Bool) (n : ℕ)
      → after ≡ (b || c)
      → (if b then 1 else 0) + n + (if c then 1 else 0) ≤ 1
      → n + (if after then 1 else 0) ≤ 1
  still true c after n e h = ground (arith, e, h)
  still false c after n e h = ground (arith, e, h)

  resolve_requirements-accepts :
      (index : ℕ) (maps : Requirements) (requires : List SetRequirementDto)
      → AreRequirements library requires
      → Unnamed maps requires
      → (done : Requirements) × (resolve_requirements library index maps requires ≡ ok done)
  unfolding resolve_requirements
  resolve_requirements-accepts index maps [] h once = (maps, refl)
  resolve_requirements-accepts index maps (required ∷ rest) (holds, hold) once =
      let own : named required.set required ≡ 1 = rw (bytes_eq_self required.set) in
      let new =
        not_yet _ (sum_by (named required.set) rest) (omega (arith, once required.set, own)) in
      let first = resolve_requirement-accepts index maps required holds new in
      let taken = resolve_requirement-eq-ok library index maps required first.0 first.1 in
      let later = resolve_requirements-accepts (suc index) first.0 rest hold (λ set.
        still (bytes_eq required.set set) _ _ _
          (ap (contains_key set) taken.paths
            ∙ contains-insert set required.set taken.path maps.paths)
          (once set)) in
      (later.0, rw (first.1) later.1)

items_of :
    (library : CardLibrary) (raw : DeckDto) (requirements : List (Text × ℕ))
    (items : List CardQuantityDto)
    → ((set : Text) → contains_key set requirements ≡ is_required set raw.requires)
    → AreReferences library raw items
    → AreItems library requirements raw.starter items
items_of library raw requirements [] keys h = tt
items_of library raw requirements (item ∷ items) keys (reference, positive, other, rest) = (
  record {
    set = reference.set;
    qualified = reference.qualified;
    bound = keys reference.set ∙ reference.required;
    positive = positive;
    no_starter = other;
    known = reference.known;
  },
  items_of library raw requirements items keys rest,
)

same_deck :
    (deck : Deck) (id name : Text) (cards : List EntityId)
    → deck.id ≡ id
    → deck.name ≡ name
    → cards ≡ deck.body
    → record { id = id; name = name; starter = deck.starter; body = cards } ≡ deck
same_deck deck id name cards e f g = rw (sym e, sym f, g)

IsLegal-resolve :
    (raw : DeckDto) (library : CardLibrary) (deck : Deck)
    → IsLegal library raw deck
    → resolve raw library ≡ ok deck
unfolding resolve require_stable_key require_bound resolve_card require_base_starter resolve_body
    find
IsLegal-resolve raw library deck h =
    let start : Requirements = record { requirements = []; paths = [] } in
    let maps =
      resolve_requirements-accepts library 0 start raw.requires h.requires
        (λ set. omega (arith, h.required_once set)) in
    let taken = resolve_requirements-eq-ok library 0 start raw.requires maps.0 maps.1 in
    let items = items_of library raw maps.0.requirements raw.cards taken.keys h.cards in
    let done =
      resolve_items-accepts library maps.0.requirements raw.starter 0
        (record { body = []; copies = [] }) raw.cards items (λ key. omega (arith, h.copies key)) in
    let run =
      resolve_items-eq-ok library maps.0.requirements raw.starter 0 raw.cards
        (record { body = []; copies = [] }) done.0 done.1 in
    let body : done.0.body ≡ deck.body = run.body ∙ sym h.body in
    let size : (length done.0.body == body_size) ≡ true =
      (==_iff (length done.0.body) body_size).1 (ap length body ∙ h.size) in
    let bound = taken.keys h.starter.set ∙ h.starter.required in
    rw
      (
        h.version,
        h.key,
        h.name,
        maps.1,
        parse_qualified-accepts raw.starter h.starter.set DeckPath.starter h.starter.qualified,
        bound,
        h.starter_id,
        h.base,
        done.1,
        size,
      )
      (ap ok (same_deck deck raw.id raw.name done.0.body h.names.0 h.names.1 body))

-- A Deck comes out of a document exactly when it is the Deck that the document describes, and the
-- document is legal: it has schema version 1, a stable key and a name that is not blank; each
-- requirement is for the revision of a Set that the library has, and none repeats a Set; the Starter
-- and each card are keys of required Sets that the library has; the Starter prints Base and is no
-- card of the body; each card is there at least once, and no card more than twice; and the body is
-- the twenty cards of the recipe, in its order.
pub resolve-IsLegal_iff :
    (raw : DeckDto) (library : CardLibrary) (deck : Deck)
    → (resolve raw library ≡ ok deck) ↔ IsLegal library raw deck
resolve-IsLegal_iff raw library deck =
    (resolve-IsLegal raw library deck, IsLegal-resolve raw library deck)
