-- ===== src/Engine/Upkeep.antt =====
-- crates/core/src/engine/upkeep.rs: Ready, draw, natural Mana production, the anchoring rule, and
-- the reset of the per-turn records.
use summoners.Prelude.{
  ◌+◌, Bool, Option, none, some, List, [], ◌∷◌, ◌++◌, any, filter, flat_map, is_some,
}
use summoners.Prelude.Arrays.{get_at, map_array}
use summoners.Prelude.Words.{u32}
use summoners.Domain.Ids.{PlayerId, Position, BenchSlot, ManaType, all_slots, index, mana_type_eq}
use summoners.Domain.Mana.{ManaBank}
use summoners.Domain.CardSet
use summoners.Domain.CardSet.{CardSet}
use summoners.Domain.Entity
use summoners.Domain.Field
use summoners.Domain.State.{
  GameState, PlayerState, SummonInstance, ManaSource, PendingInput, Phase, Readiness, CardRef, get,
  top, fresh, summon_at, with_player,
}
use summoners.Domain.Events.{GameEvent}

abbrev pub option_list {ℓ} : {A : Type ℓ} → Option A → List A
option_list none = []
option_list (some a) = a ∷ []

-- Main first, then Bench in slot order.
abbrev pub controlled_summons : PlayerState → List SummonInstance
controlled_summons ps =
    option_list ps.main
    ++ (option_list ps.bench.at0 ++ (option_list ps.bench.at1 ++ option_list ps.bench.at2))

abbrev pub occupied_slots : PlayerState → List BenchSlot
occupied_slots ps = filter (λ slot. is_some (get_at ps.bench (index slot))) all_slots

abbrev pub main_positions : Option SummonInstance → List Position
main_positions none = []
main_positions (some _) = Position.main ∷ []

abbrev pub bench_positions : List BenchSlot → List Position
bench_positions [] = []
bench_positions (slot ∷ slots) = Position.bench slot ∷ bench_positions slots

unfoldable pub controlled_positions : PlayerState → List Position
controlled_positions ps = main_positions ps.main ++ bench_positions (occupied_slots ps)

unfoldable pub produced_types : CardSet → SummonInstance → List ManaType
produced_types cards summon = elim (CardSet.get cards (top summon.chain).def) [
  | none ↦ []
  | some e ↦ elim (Entity.get Field.produces e) [ none ↦ [] | some types ↦ types ]
]

-- `seen[mana_type_index(t)]` after both loops: some controlled Summon prints the type.
unfoldable pub seen : CardSet → PlayerState → ManaType → Bool
seen cards ps t = any (mana_type_eq t) (flat_map (produced_types cards) (controlled_summons ps))

unfoldable pub anchor_types : CardSet → PlayerState → List ManaType
unfolding seen
anchor_types cards ps =
    filter (seen cards ps) (ManaType.matter ∷ ManaType.mind ∷ ManaType.spirit ∷ [])

unfoldable pub summon_types : CardSet → PlayerState → Position → List ManaType
summon_types cards ps position = elim (summon_at ps position) [
  | none ↦ []
  | some summon ↦ produced_types cards summon
]

unfoldable pub available_types : CardSet → PlayerState → ManaSource → List ManaType
unfolding summon_types
available_types cards ps ManaSource.player = anchor_types cards ps
available_types cards ps (ManaSource.summon position) = summon_types cards ps position

abbrev pub add_mana : ManaBank → ManaType → ManaBank
add_mana b ManaType.matter = record b { matter = u32 (b.matter + 1) }
add_mana b ManaType.mind = record b { mind = u32 (b.mind + 1) }
add_mana b ManaType.spirit = record b { spirit = u32 (b.spirit + 1) }

-- `+= 1` on a u32: it wraps in a release build.
unfoldable pub bank : PlayerState → ManaType → PlayerState
bank ps t = record ps { mana = add_mana ps.mana t }

-- A change of every Summon in Main and on the Bench.
abbrev pub map_summon :
    (SummonInstance → SummonInstance) → Option SummonInstance → Option SummonInstance
map_summon f none = none
map_summon f (some summon) = some (f summon)

abbrev pub map_board : (SummonInstance → SummonInstance) → PlayerState → PlayerState
map_board f ps = record ps {
  main = map_summon f ps.main;
  bench = map_array (map_summon f) ps.bench;
}

abbrev pub clear_per_turn_flags : SummonInstance → SummonInstance
clear_per_turn_flags summon = record summon { turn = fresh }

unfoldable pub reset_per_turn_summon_records : PlayerState → PlayerState
reset_per_turn_summon_records ps = map_board clear_per_turn_flags ps

abbrev pub make_ready : SummonInstance → SummonInstance
make_ready summon = record summon { readiness = Readiness.ready }

unfoldable pub ready_all : GameState → GameState × List GameEvent
ready_all s =
    let player = s.turn.active_player in
    let ps = get s.players player in
    (
      with_player s player (map_board make_ready ps),
      GameEvent.summons_readied player (controlled_positions ps) ∷ [],
    )

pub data DrawOutcome : Type 0 where
  drew deck_empty : DrawOutcome

-- `deck.remove(0)` and `hand.push`, where the Deck holds a card.
abbrev pub draw_top : PlayerState → CardRef → List CardRef → PlayerState
draw_top ps card deck = record ps { deck = deck; hand = ps.hand ++ card ∷ [] }

unfoldable pub draw_card : GameState → GameState × List GameEvent × DrawOutcome
draw_card s =
    let player = s.turn.active_player in
    let ps = get s.players player in
    elim ps.deck [
      | [] ↦ (s, [], DrawOutcome.deck_empty)
      | card ∷ deck ↦ (
        with_player s player (draw_top ps card deck),
        GameEvent.card_drawn player card.instance_id ∷ [],
        DrawOutcome.drew,
      )
    ]

-- `produce_mana` on the types that are available.
unfoldable pub produce_from :
    GameState → PlayerId → ManaSource → List ManaType → GameState × List GameEvent
unfolding bank
produce_from s player source [] = (s, [])
produce_from s player source (single ∷ []) = (
  with_player s player (bank (get s.players player) single),
  GameEvent.mana_produced player source single ∷ [],
)
produce_from s player source (_ ∷ _ ∷ _) =
    (record s { pending = some (PendingInput.mana_production player source) }, [])

unfoldable pub produce_mana : GameState → PlayerId → ManaSource → GameState × List GameEvent
unfolding produce_from
produce_mana s player source =
    produce_from s player source (available_types s.cards (get s.players player) source)

unfoldable pub begin_main_phase : GameState → GameState × List GameEvent
begin_main_phase s = (record s { turn = record (s.turn) { phase = Phase.main } }, [])
