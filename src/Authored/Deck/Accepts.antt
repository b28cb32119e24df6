-- ===== src/Authored/Deck/Accepts.antt =====
-- Every legal document is accepted: the checks of crates/cards/src/deck.rs, the other way round.
use summoners.Prelude.{
  ℕ, suc, ◌+◌, ◌≤◌, ◌≡◌, refl, ap, ◌∙◌, Bool, true, false, not, ◌&&◌, ◌||◌, none, List, [], ◌∷◌,
  ◌++◌, ◌==◌, leb, ltb, all, is_some, ok, length, sum_by, Option-cases, inl, inr, arith, and_parts,
}
use summoners.Prelude.Words.{saturating_add}
use summoners.Authored.Keys.{
  Text, insert, is_lowercase, is_digit, split_slash, stable_key_syntax, starts_lowercase,
  ends_hyphen, has_double_hyphen,
}
use summoners.Authored.Library.{CardLibrary, card_id}
use summoners.Authored.DeckError.{DeckPath}
use summoners.Authored.Maps.{bytes_eq_self}
use summoners.Authored.Deck.{
  BodyState, CardQuantityDto, copy_limit, parse_parts, parse_qualified, repeat_n, require_bound,
  resolve_card, resolve_item, resolve_items,
}
use summoners.Authored.Deck.Parts.{IsQualified}
use summoners.Authored.Deck.Body.{
  AreItems, IsItem, asked, copies_in, resolve_item-eq-ok, step-copies,
}

abbrev is_key_char : ℕ → Bool
is_key_char c = is_lowercase c || is_digit c || c == b'-'

key_char_is_no_slash : (c : ℕ) → is_key_char c ≡ true → (c == b'/') ≡ false
key_char_is_no_slash c h = ground (arith, h)

fourth : (a b c d e f : Bool) → (a && b && c && d && e && f) ≡ true → d ≡ true
fourth a b c d e f h = ground (arith, h)

key_chars : (key : Text) → stable_key_syntax key ≡ true → all is_key_char key ≡ true
unfolding stable_key_syntax
key_chars key h =
    fourth (leb 1 (length key)) (leb (length key) 64) (starts_lowercase key) _
      (not (ends_hyphen key)) (not (has_double_hyphen key)) h

split_slash-key : (key : Text) → all is_key_char key ≡ true → split_slash key ≡ (key, [])
unfolding split_slash
split_slash-key [] h = refl
split_slash-key (c ∷ cs) h =
    let both = and_parts (is_key_char c) _ h in
    rw (key_char_is_no_slash c both.0, split_slash-key cs both.1)

split_slash-qualified :
    (set card : Text)
    → all is_key_char set ≡ true
    → all is_key_char card ≡ true
    → split_slash (set ++ b'/' ∷ card) ≡ (set, card ∷ [])
unfolding split_slash
split_slash-qualified [] card h k = rw (split_slash-key card k)
split_slash-qualified (c ∷ cs) card h k =
    let both = and_parts (is_key_char c) _ h in
    rw (key_char_is_no_slash c both.0, split_slash-qualified cs card both.1 k)

-- Every qualified key is parsed.
pub parse_qualified-accepts :
    (value set : Text) (path : DeckPath)
    → IsQualified value set
    → parse_qualified value path ≡ ok (record { key = value; set = set })
unfolding parse_qualified parse_parts
parse_qualified-accepts value set path q =
    let parts : split_slash value ≡ (set, q.card ∷ []) =
      ap split_slash q.made
      ∙ split_slash-qualified set q.card (key_chars set q.set_key) (key_chars q.card q.card_key) in
    rw (parts, q.set_key, q.card_key)

module _ (library : CardLibrary) (requirements : List (Text × ℕ)) (starter_key : Text) where
  not_zero : (n : ℕ) → 1 ≤ n → (n == 0) ≡ false
  not_zero n h = ground (arith, h)

  not_above : (a b : ℕ) → a + b ≤ copy_limit → ltb copy_limit (saturating_add a b) ≡ false
  unfolding saturating_add
  not_above a b h = ground (arith, h)

  resolve_item-accepts :
      (index : ℕ) (so_far : BodyState) (item : CardQuantityDto)
      → IsItem library requirements starter_key item
      → copies_in item.card so_far.copies + item.quantity ≤ copy_limit
      → (next : BodyState) × (resolve_item library requirements starter_key index so_far item
          ≡ ok next)
  unfolding resolve_item require_bound resolve_card
  resolve_item-accepts index so_far item h limit = elim (Option-cases (card_id library item.card)) [
    | inl e ↦ absurd (unknown e)
    | inr (id, e) ↦ (
      record {
        body = so_far.body ++ repeat_n id item.quantity;
        copies =
            insert item.card (saturating_add (copies_in item.card so_far.copies) item.quantity)
              so_far.copies;
      },
      rw (
        parse_qualified-accepts item.card h.set (DeckPath.cards_card index) h.qualified,
        h.bound,
        not_zero item.quantity h.positive,
        h.no_starter,
        e,
        not_above _ _ limit,
      ),
    )
  ]
    where
      unknown : card_id library item.card ≡ none → ⊥
      unknown e =
          (let known : is_some (card_id library item.card) ≡ false = ap is_some e in
            ground (arith, known, h.known))

  -- The copies that the rest of the recipe asks for still fit.
  abbrev Fits : BodyState → List CardQuantityDto → Type 0
  Fits so_far items =
      (key : Text) → copies_in key so_far.copies + sum_by (asked key) items ≤ copy_limit

  pub resolve_items-accepts :
      (index : ℕ) (so_far : BodyState) (items : List CardQuantityDto)
      → AreItems library requirements starter_key items
      → Fits so_far items
      → (done : BodyState) × (resolve_items library requirements starter_key index so_far items
          ≡ ok done)
  unfolding resolve_items
  resolve_items-accepts index so_far [] h fits = (so_far, refl)
  resolve_items-accepts index so_far (item ∷ items) (holds, rest) fits =
      let own : asked item.card item ≡ item.quantity = rw (bytes_eq_self item.card) in
      let first =
        resolve_item-accepts index so_far item holds (omega (arith, fits item.card, own)) in
      let step =
        resolve_item-eq-ok library requirements starter_key index so_far item first.0 first.1 in
      let counted =
        λ (key : Text). step-copies library requirements starter_key key item so_far first.0 step in
      let later =
        resolve_items-accepts (suc index) first.0 items rest
          (λ key. omega (arith, fits key, counted key)) in
      (later.0, rw (first.1) later.1)
