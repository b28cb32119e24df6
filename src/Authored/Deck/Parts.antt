-- ===== src/Authored/Deck/Parts.antt =====
-- The single checks of crates/cards/src/deck.rs, inverted: what a text, a requirement and an item of
-- an accepted Deck are like.
use summoners.Prelude.{
  ◌≡◌, refl, sym, ap, subst, ◌∙◌, Bool, true, not, ◌||◌, List, [], ◌∷◌, ◌++◌, is_empty,
  is_empty-nil, ok, guard, >>=-eq-ok, guard-eq-ok, ok-injective, arith,
}
use summoners.Authored.Keys.{Text, split_slash, stable_key_syntax}
use summoners.Authored.Library.{qualified_key}
use summoners.Authored.DeckError.{DeckPath}
use summoners.Authored.Deck.{QualifiedCard, parse_parts, parse_qualified}
use summoners.Authored.Maps.{join-split_slash, join}

-- A text is a key of a Set, a slash and a key of a card.
pub record IsQualified (value : Text) (set : Text) : Type 0 where
  pub card : Text
  pub made : value ≡ qualified_key set card
  pub set_key : stable_key_syntax set ≡ true
  pub card_key : stable_key_syntax card ≡ true

shape :
    (rest a b : Bool)
    → not (not rest || not a || not b) ≡ true
    → (rest ≡ true) × (a ≡ true) × (b ≡ true)
shape rest a b h = (ground (arith, h), ground (arith, h), ground (arith, h))

parse_parts-eq-ok :
    (value : Text) (path : DeckPath) (set : Text) (parts : List Text) (q : QualifiedCard)
    → join set parts ≡ value
    → parse_parts value path set parts ≡ ok q
    → (q.key ≡ value) × IsQualified value q.set
unfolding parse_parts join
parse_parts-eq-ok value path set [] q e h = cc
parse_parts-eq-ok value path set (card ∷ rest) q e h =
    let tests =
      >>=-eq-ok
        (guard
          (not (not (is_empty rest) || not (stable_key_syntax set) || not (stable_key_syntax card)))
          _)
        _ h in
    let three = shape _ _ _ (guard-eq-ok _ _ tests.1) in
    subst (λ (made : QualifiedCard). (made.key ≡ value) × IsQualified value made.set)
      (ok-injective refl tests.2)
      (
        refl,
        record {
          card = card;
          made = sym e ∙ ap (λ parts. set ++ b'/' ∷ join card parts) (is_empty-nil rest three.0);
          set_key = three.1;
          card_key = three.2;
        },
      )

pub parse_qualified-eq-ok :
    (value : Text) (path : DeckPath) (q : QualifiedCard)
    → parse_qualified value path ≡ ok q
    → (q.key ≡ value) × IsQualified value q.set
unfolding parse_qualified
parse_qualified-eq-ok value path q h =
    parse_parts-eq-ok value path (split_slash value).0 (split_slash value).1 q
      (join-split_slash value) h
