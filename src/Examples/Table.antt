-- ===== src/Examples/Table.antt =====
-- A described situation, a Set of eleven cards and a Deck of them.
use summoners.Prelude.{ℕ, none, some, [], ◌∷◌, Result, ok, err}
use summoners.Domain.Ids.{PlayerId}
use summoners.Domain.EntityId.{EntityId}
use summoners.Domain.CardSet
use summoners.Domain.Errors.{InvalidScenario}
use summoners.Domain.State.{Coin, GameState, Readiness}
use summoners.Scenario.{Scenario, ScenarioPlayer, ScenarioSummon}
use summoners.Authored.Library.{LoadedSet}
use summoners.Authored.Deck.{CardQuantityDto, DeckDto}
use summoners.Examples.Match.{lynx, lynx_id, great_lynx_id, lynx_card, bolt_card}

-- A Main of two layers.
abbrev pub grown : ScenarioSummon
grown = record {
  chain = lynx_card 1 ∷ record { instance_id = 2; def = great_lynx_id } ∷ [];
  damage = 10;
  readiness = Readiness.ready;
}

abbrev pub small : ScenarioSummon
small = record { chain = lynx_card 11 ∷ []; damage = 0; readiness = Readiness.exhausted }

abbrev pub seated_one : ScenarioPlayer
seated_one = record {
  deck = lynx_card 4 ∷ [];
  hand = bolt_card 3 ∷ [];
  prizes = lynx_card 5 ∷ [];
  discard = [];
  mana = record { matter = 1; mind = 0; spirit = 0 };
  main_losses = 0;
  main = some grown;
  bench = record { at0 = none; at1 = none; at2 = none };
}

-- The Main is empty, so a Promotion is due.
abbrev pub seated_two : ScenarioPlayer
seated_two = record {
  deck = lynx_card 12 ∷ [];
  hand = [];
  prizes = lynx_card 13 ∷ [];
  discard = bolt_card 14 ∷ [];
  mana = record { matter = 0; mind = 0; spirit = 0 };
  main_losses = 1;
  main = none;
  bench = record { at0 = some small; at1 = none; at2 = none };
}

abbrev pub described : Scenario
described = record {
  players = record { one = seated_one; two = seated_two };
  active_player = PlayerId.one;
  coin = some Coin.coin;
}

abbrev pub state_of : GameState → Result GameState InvalidScenario → GameState
state_of otherwise (ok s) = s
state_of otherwise (err _) = otherwise

abbrev pub an_id : ℕ → EntityId
an_id n = record { bytes = n ∷ [] }

-- The Set `s`, with the cards `a` to `k`; `a` is the lynx, with one ability.
abbrev pub base_set : LoadedSet
base_set = record {
  id = an_id 40;
  code = b's' ∷ [];
  revision = 3;
  name = b'S' ∷ [];
  cards = CardSet.new (lynx ∷ []);
  card_ids =
      (b'a' ∷ [], lynx_id)
      ∷ (b'b' ∷ [], an_id 21)
      ∷ (b'c' ∷ [], an_id 22)
      ∷ (b'd' ∷ [], an_id 23)
      ∷ (b'e' ∷ [], an_id 24)
      ∷ (b'f' ∷ [], an_id 25)
      ∷ (b'g' ∷ [], an_id 26)
      ∷ (b'h' ∷ [], an_id 27)
      ∷ (b'i' ∷ [], an_id 28)
      ∷ (b'j' ∷ [], an_id 29)
      ∷ (b'k' ∷ [], an_id 30)
      ∷ [];
  ability_ids = ((b'a' ∷ [], b'x' ∷ []), an_id 11) ∷ [];
}

abbrev pub two_of : ℕ → CardQuantityDto
two_of c = record { card = b's' ∷ b'/' ∷ c ∷ []; quantity = 2 }

abbrev pub recipe : DeckDto
recipe = record {
  schema_version = 1;
  id = b'd' ∷ [];
  name = b'D' ∷ [];
  starter = b's' ∷ b'/' ∷ b'a' ∷ [];
  requires = record { set = b's' ∷ []; revision = 3 } ∷ [];
  cards =
      two_of b'b'
      ∷ two_of b'c'
      ∷ two_of b'd'
      ∷ two_of b'e'
      ∷ two_of b'f'
      ∷ two_of b'g'
      ∷ two_of b'h'
      ∷ two_of b'i'
      ∷ two_of b'j'
      ∷ two_of b'k'
      ∷ [];
}
