-- ===== src/Authored/Deck/Body.antt =====
-- The loop of `resolve_body` of crates/cards/src/deck.rs: what it makes of the items it accepts.
use mathlib.Core.List.{append-nil, append_assoc}
use summoners.Pool.{bytes_eq_sound}
use summoners.Prelude.{
  ℕ, suc, ◌+◌, ◌≤◌, ◌≡◌, refl, sym, ap, subst, ◌∙◌, true, false, not, Option, none, some, List, [],
  ◌∷◌, ◌++◌, ◌==◌, ltb, is_some, ok, guard, >>=-eq-ok, guard-eq-ok, negated, ok_or-eq-ok,
  ok-injective, length, sum_by, if◌then◌else◌, Bool-cases, inl, inr, arith, ==_iff,
}
use summoners.Prelude.Words.{saturating_add}
use summoners.Domain.EntityId.{EntityId, bytes_eq}
use summoners.Authored.Keys.{Text, contains_key, find, insert}
use summoners.Authored.Library.{CardLibrary, card_id}
use summoners.Authored.Deck.{
  BodyState, CardQuantityDto, body_size, copy_limit, or_default, parse_qualified, repeat_n,
  require_bound, resolve_body, resolve_card, resolve_item, resolve_items,
}
use summoners.Authored.Maps.{find-insert}
use summoners.Authored.Deck.Parts.{IsQualified, parse_qualified-eq-ok}

-- The copies of one card that some items ask for.
abbrev pub asked : Text → CardQuantityDto → ℕ
asked key item = if bytes_eq item.card key then item.quantity else 0

abbrev pub copies_in : Text → List (Text × ℕ) → ℕ
copies_in key copies = or_default (find key copies)

-- The cards that one item stands for.
abbrev pub expanded : Option EntityId → ℕ → List EntityId
expanded none quantity = []
expanded (some id) quantity = repeat_n id quantity

abbrev pub expand : CardLibrary → List CardQuantityDto → List EntityId
expand library [] = []
expand library (item ∷ items) =
    expanded (card_id library item.card) item.quantity ++ expand library items

module _ (library : CardLibrary) (requirements : List (Text × ℕ)) (starter_key : Text) where
  -- An item names a card of a required Set, another than the Starter, that the library has.
  pub record IsItem (item : CardQuantityDto) : Type 0 where
    pub set : Text
    pub qualified : IsQualified item.card set
    pub bound : contains_key set requirements ≡ true
    pub positive : 1 ≤ item.quantity
    pub no_starter : bytes_eq item.card starter_key ≡ false
    pub known : is_some (card_id library item.card) ≡ true

  abbrev pub AreItems : List CardQuantityDto → Type 0
  AreItems [] = Unit {0}
  AreItems (item ∷ items) = IsItem item × AreItems items

  -- One step of the loop.
  pub record IsStep (item : CardQuantityDto) (so_far next : BodyState) : Type 0 where
    pub item_holds : IsItem item
    pub body : next.body ≡ so_far.body ++ expanded (card_id library item.card) item.quantity
    copies :
        next.copies
        ≡ insert item.card (copies_in item.card so_far.copies + item.quantity) so_far.copies
    pub limit : copies_in item.card so_far.copies + item.quantity ≤ copy_limit

  positive_of : (n : ℕ) → not (n == 0) ≡ true → 1 ≤ n
  positive_of n h = ground (arith, h)

  -- A sum within the limit has not saturated.
  within :
      (a b : ℕ)
      → not (ltb copy_limit (saturating_add a b)) ≡ true
      → (saturating_add a b ≡ a + b) × (a + b ≤ copy_limit)
  unfolding saturating_add
  within a b h = (ground (arith, h), ground (arith, h))

  pub resolve_item-eq-ok :
      (index : ℕ) (so_far : BodyState) (item : CardQuantityDto) (next : BodyState)
      → resolve_item library requirements starter_key index so_far item ≡ ok next
      → IsStep item so_far next
  unfolding resolve_item require_bound resolve_card
  resolve_item-eq-ok index so_far item next h =
      let parsed = >>=-eq-ok (parse_qualified item.card _) _ h in
      let qualified = parse_qualified-eq-ok item.card _ parsed.0 parsed.1 in
      let bound = >>=-eq-ok (require_bound parsed.0 requirements _) _ parsed.2 in
      let positive = >>=-eq-ok (guard (not (item.quantity == 0)) _) _ bound.2 in
      let other = >>=-eq-ok (guard (not (bytes_eq parsed.0.key starter_key)) _) _ positive.2 in
      let found = >>=-eq-ok (resolve_card library parsed.0 _) _ other.2 in
      let id = ok_or-eq-ok _ _ found.1 in
      let count = saturating_add (copies_in parsed.0.key so_far.copies) item.quantity in
      let limit = >>=-eq-ok (guard (not (ltb copy_limit count)) _) _ found.2 in
      let sum = within _ _ (guard-eq-ok _ _ limit.1) in
      let made = sym (ok-injective refl limit.2) in
      let same = qualified.0 in
      let id_of : card_id library item.card ≡ some found.0 = ap (card_id library) (sym same) ∙ id in
      record {
        item_holds = record {
          set = parsed.0.set;
          qualified = qualified.1;
          bound = guard-eq-ok _ _ bound.1;
          positive = positive_of item.quantity (guard-eq-ok _ _ positive.1);
          no_starter =
              ap (λ key. bytes_eq key starter_key) (sym same) ∙ negated _ (guard-eq-ok _ _ other.1);
          known = ap (λ key. is_some (card_id library key)) (sym same) ∙ ap is_some id;
        };
        body =
            ap (λ (b : BodyState). b.body) made
            ∙ ap (λ o. so_far.body ++ expanded o item.quantity) (sym id_of);
        copies =
            ap (λ (b : BodyState). b.copies) made
            ∙ ap (λ n. insert parsed.0.key n so_far.copies) sum.0
            ∙ ap (λ key. insert key (copies_in key so_far.copies + item.quantity) so_far.copies)
                same;
        limit = subst (λ key. copies_in key so_far.copies + item.quantity ≤ copy_limit) same sum.1;
      }

  looked_up :
      (key : Text) (item : CardQuantityDto) (so_far next : BodyState)
      → IsStep item so_far next
      → copies_in key next.copies
        ≡ or_default (
            if bytes_eq item.card key
            then some (copies_in item.card so_far.copies + item.quantity)
            else find key so_far.copies)
  looked_up key item so_far next step =
      ap (copies_in key) step.copies ∙ ap or_default (find-insert key item.card _ so_far.copies)

  -- The copies of each card after one step.
  pub step-copies :
      (key : Text) (item : CardQuantityDto) (so_far next : BodyState)
      → IsStep item so_far next
      → copies_in key next.copies ≡ copies_in key so_far.copies + asked key item
  step-copies key item so_far next step = elim (Bool-cases (bytes_eq item.card key)) [
    | inl e ↦
        rw (looked_up key item so_far next step, e)
          (ap (λ k. copies_in k so_far.copies + item.quantity) (bytes_eq_sound item.card key e))
    | inr e ↦ rw (looked_up key item so_far next step, e) (omega arith)
  ]

  -- A run of the loop over some items.
  pub record IsRun (items : List CardQuantityDto) (so_far done : BodyState) : Type 0 where
    pub items_hold : AreItems items
    pub body : done.body ≡ so_far.body ++ expand library items
    pub copies :
        (key : Text)
        → copies_in key done.copies ≡ copies_in key so_far.copies + sum_by (asked key) items
    pub limit :
        ((key : Text) → copies_in key so_far.copies ≤ copy_limit)
        → (key : Text) → copies_in key done.copies ≤ copy_limit

  step-limit :
      (item : CardQuantityDto) (so_far next : BodyState)
      → IsStep item so_far next
      → ((key : Text) → copies_in key so_far.copies ≤ copy_limit)
      → (key : Text) → copies_in key next.copies ≤ copy_limit
  step-limit item so_far next step before key = elim (Bool-cases (bytes_eq item.card key)) [
    | inl e ↦ rw (looked_up key item so_far next step, e) step.limit
    | inr e ↦ rw (looked_up key item so_far next step, e) (before key)
  ]

  pub resolve_items-eq-ok :
      (index : ℕ) (items : List CardQuantityDto) (so_far done : BodyState)
      → resolve_items library requirements starter_key index so_far items ≡ ok done
      → IsRun items so_far done
  unfolding resolve_items
  resolve_items-eq-ok index [] so_far done h =
      subst (λ (made : BodyState). IsRun [] so_far made) (ok-injective refl h)
        (record {
          items_hold = tt;
          body = sym (append-nil so_far.body);
          copies = λ key. omega arith;
          limit = λ before key. before key;
        })
  resolve_items-eq-ok index (item ∷ items) so_far done h =
      let first = >>=-eq-ok (resolve_item library requirements starter_key index so_far item) _ h in
      let step = resolve_item-eq-ok index so_far item first.0 first.1 in
      let rest = resolve_items-eq-ok (suc index) items first.0 done first.2 in
      record {
        items_hold = (step.item_holds, rest.items_hold);
        body =
            rest.body
            ∙ ap (λ b. b ++ expand library items) step.body
            ∙ append_assoc so_far.body _ _;
        copies = λ key. omega (arith, rest.copies key, step-copies key item so_far first.0 step);
        limit = λ before. rest.limit (step-limit item so_far first.0 step before);
      }

pub resolve_body-eq-ok :
    (library : CardLibrary) (requirements : List (Text × ℕ)) (starter_key : Text)
    (raw : List CardQuantityDto) (cards : List EntityId)
    → resolve_body raw library requirements starter_key ≡ ok cards
    → AreItems library requirements starter_key raw
      × (cards ≡ expand library raw)
      × (length cards ≡ body_size)
      × ((key : Text) → sum_by (asked key) raw ≤ copy_limit)
unfolding resolve_body find
resolve_body-eq-ok library requirements starter_key raw cards h =
    let start : BodyState = record { body = []; copies = [] } in
    let done = >>=-eq-ok (resolve_items library requirements starter_key 0 start raw) _ h in
    let run = resolve_items-eq-ok library requirements starter_key 0 raw start done.0 done.1 in
    let size = >>=-eq-ok (guard (length done.0.body == body_size) _) _ done.2 in
    let twenty = (==_iff (length done.0.body) body_size).0 (guard-eq-ok _ _ size.1) in
    let made = ok-injective refl size.2 in
    (
      run.items_hold,
      sym made ∙ run.body,
      ap length (sym made) ∙ twenty,
      λ key. omega (arith, run.copies key, run.limit (λ k. omega arith) key),
    )
