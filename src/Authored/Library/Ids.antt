-- ===== src/Authored/Library/Ids.antt =====
-- The identities that `reject_duplicate_ids` of crates/cards/src/library.rs claims.
use summoners.Prelude.{
  ℕ, ◌+◌, ◌≤◌, ◌≡◌, refl, sym, ap, ◌∙◌, Option, none, some, List, [], ◌∷◌, ◌++◌, ok, >>=-eq-ok,
  ok-injective, sum_by, sum_by-append, if◌then◌else◌, Bool-cases, inl, inr, arith,
}
use summoners.Domain.EntityId.{EntityId, bytes_eq}
use summoners.Authored.Keys.{Text, contains_key, find}
use summoners.Authored.Maps.{find-insert}
use summoners.Authored.Library.{
  CardLibrary, ClaimedIds, LoadedSet, claim_abilities, claim_cards, claim_sets, from_sets,
  insert_unique_id, qualified_cards, qualified_key, reject_duplicate_ids, require_unclaimed,
}
use summoners.Pool.{bytes_eq_sound}

-- The identities of a Set: its own, its cards' and its abilities'.
abbrev pub ids_of {ℓ} : {K : Type ℓ} → List (K × EntityId) → List EntityId
ids_of [] = []
ids_of (entry ∷ entries) = entry.1 ∷ ids_of entries

abbrev pub set_ids : LoadedSet → List EntityId
set_ids set = set.id ∷ ids_of set.card_ids ++ ids_of set.ability_ids

abbrev pub all_ids : List LoadedSet → List EntityId
all_ids [] = []
all_ids (set ∷ sets) = set_ids set ++ all_ids sets

-- How many of some identities have these bytes.
abbrev pub is_id : Text → EntityId → ℕ
is_id bytes id = if bytes_eq id.bytes bytes then 1 else 0

abbrev claimed : Text → ClaimedIds → ℕ
claimed bytes ids = if contains_key bytes ids then 1 else 0

-- The identities of a part of the loop are claimed on top of those before it.
Claims : List EntityId → ClaimedIds → ClaimedIds → Type 0
Claims fresh ids next =
    (bytes : Text) → claimed bytes next ≡ claimed bytes ids + sum_by (is_id bytes) fresh

Claims-append :
    (first second : List EntityId) (ids mid next : ClaimedIds)
    → Claims first ids mid
    → Claims second mid next
    → Claims (first ++ second) ids next
unfolding Claims
Claims-append first second ids mid next f g bytes =
    omega (arith, f bytes, g bytes, sum_by-append (is_id bytes) first second)

none-Claims : {ids next : ClaimedIds} → ids ≡ next → Claims [] ids next
unfolding Claims
none-Claims e bytes = omega (arith, ap (claimed bytes) e)

require_unclaimed-eq-ok :
    (id : EntityId) (key : Text) (found : Option Text) {u : Unit {0}}
    → require_unclaimed id key found ≡ ok u
    → found ≡ none
require_unclaimed-eq-ok id key none h = refl
require_unclaimed-eq-ok id key (some first_key) h = cc

insert_unique_id-Claims :
    (ids : ClaimedIds) (id : EntityId) (key : Text) (next : ClaimedIds)
    → insert_unique_id ids id key ≡ ok next
    → Claims (id ∷ []) ids next
unfolding insert_unique_id Claims
insert_unique_id-Claims ids id key next h bytes =
    let free = >>=-eq-ok (require_unclaimed id key (find id.bytes ids)) _ h in
    let absent = require_unclaimed-eq-ok id key (find id.bytes ids) free.1 in
    let made = ap (claimed bytes) (sym (ok-injective refl free.2)) in
    made ∙ elim (Bool-cases (bytes_eq id.bytes bytes)) [
      | inl e ↦
          (let here : find bytes ids ≡ none =
              ap (λ k. find k ids) (sym (bytes_eq_sound id.bytes bytes e)) ∙ absent in
            rw (find-insert bytes id.bytes key ids, e, here))
      | inr e ↦ rw (find-insert bytes id.bytes key ids, e) (omega arith)
    ]

claim_cards-Claims :
    (code : Text) (ids : ClaimedIds) (entries : List (Text × EntityId)) (next : ClaimedIds)
    → claim_cards code ids entries ≡ ok next
    → Claims (ids_of entries) ids next
unfolding claim_cards
claim_cards-Claims code ids [] next h = none-Claims (ok-injective refl h)
claim_cards-Claims code ids (entry ∷ entries) next h =
    let first = >>=-eq-ok (insert_unique_id ids entry.1 (qualified_key code entry.0)) _ h in
    Claims-append (entry.1 ∷ []) (ids_of entries) ids first.0 next
      (insert_unique_id-Claims ids entry.1 _ first.0 first.1)
      (claim_cards-Claims code first.0 entries next first.2)

claim_abilities-Claims :
    (code : Text) (ids : ClaimedIds) (entries : List ((Text × Text) × EntityId)) (next : ClaimedIds)
    → claim_abilities code ids entries ≡ ok next
    → Claims (ids_of entries) ids next
unfolding claim_abilities
claim_abilities-Claims code ids [] next h = none-Claims (ok-injective refl h)
claim_abilities-Claims code ids (((card, ability), id) ∷ entries) next h =
    let first =
      >>=-eq-ok (insert_unique_id ids id (qualified_key code card ++ b'#' ∷ ability)) _ h in
    Claims-append (id ∷ []) (ids_of entries) ids first.0 next
      (insert_unique_id-Claims ids id _ first.0 first.1)
      (claim_abilities-Claims code first.0 entries next first.2)

claim_sets-Claims :
    (ids : ClaimedIds) (sets : List LoadedSet) (next : ClaimedIds)
    → claim_sets ids sets ≡ ok next
    → Claims (all_ids sets) ids next
unfolding claim_sets
claim_sets-Claims ids [] next h = none-Claims (ok-injective refl h)
claim_sets-Claims ids (set ∷ sets) next h =
    let named =
      >>=-eq-ok (insert_unique_id ids set.id (b's' ∷ b'e' ∷ b't' ∷ b':' ∷ set.code)) _ h in
    let carded = >>=-eq-ok (claim_cards set.code named.0 set.card_ids) _ named.2 in
    let done = >>=-eq-ok (claim_abilities set.code carded.0 set.ability_ids) _ carded.2 in
    Claims-append (set_ids set) (all_ids sets) ids done.0 next
      (Claims-append (set.id ∷ ids_of set.card_ids) (ids_of set.ability_ids) ids carded.0 done.0
        (Claims-append (set.id ∷ []) (ids_of set.card_ids) ids named.0 carded.0
          (insert_unique_id-Claims ids set.id _ named.0 named.1)
          (claim_cards-Claims set.code named.0 set.card_ids carded.0 carded.1))
        (claim_abilities-Claims set.code carded.0 set.ability_ids done.0 done.1))
      (claim_sets-Claims done.0 sets next done.2)

-- In a library that is assembled no identity stands twice among those of its Sets, their cards and
-- their abilities.
pub from_sets-ids :
    (sets : List LoadedSet) (library : CardLibrary) (id : EntityId)
    → from_sets sets ≡ ok library
    → sum_by (is_id id.bytes) (all_ids sets) ≤ 1
unfolding from_sets reject_duplicate_ids Claims find
from_sets-ids sets library id h =
    let cards = >>=-eq-ok (qualified_cards sets) _ h in
    let unique = >>=-eq-ok (reject_duplicate_ids sets) _ cards.2 in
    let ids = >>=-eq-ok (claim_sets [] sets) _ unique.1 in
    let claims = claim_sets-Claims [] sets ids.0 ids.1 id.bytes in ground (arith, claims)
