-- ===== src/Scenario.antt =====
-- crates/core/src/scenario.rs: the plain description of a match situation, and the parser that
-- turns it into a `GameState`. The set of the instances seen is the list of its members.
pub mod Chains
pub mod Checks
pub mod Accepted
pub mod Begins
pub mod Layers
use summoners.Prelude.{
  ℕ, Bool, true, false, not, ◌&&◌, Option, none, some, List, [], ◌∷◌, ◌++◌, map, any, ◌==◌, Result,
  ok, err, ◌>>=◌, ◌>>◌, guard, ok_or, is_some, is_none,
}
use summoners.Prelude.Arrays.{Array, Index, get_at, set_at}
use summoners.Domain.Ids.{PlayerId, CardInstanceId, BenchSlot, Position, all_slots, index}
use summoners.Domain.Cards.{Form, form_le}
use summoners.Domain.Mana.{ManaBank}
use summoners.Domain.Entity
use summoners.Domain.Field
use summoners.Domain.CardSet
use summoners.Domain.CardSet.{CardSet}
use summoners.Domain.Errors.{InvalidScenario}
use summoners.Domain.State.{
  CardRef, Coin, GameState, GameStatus, PendingInput, PerPlayer, Phase, PlayerState, Readiness,
  SummonInstance, TurnState, UpgradeChain, fresh, get,
}

pub record ScenarioSummon : Type 0 where
  pub chain : List CardRef
  pub damage : ℕ
  pub readiness : Readiness

pub record ScenarioPlayer : Type 0 where
  pub deck : List CardRef
  pub hand : List CardRef
  pub prizes : List CardRef
  pub discard : List CardRef
  pub mana : ManaBank
  pub main_losses : ℕ
  pub main : Option ScenarioSummon
  pub bench : Array (Option ScenarioSummon)

pub record Scenario : Type 0 where
  pub players : PerPlayer ScenarioPlayer
  pub active_player : PlayerId
  pub coin : Option Coin

-- One push of `positioned_summons`, if its position is occupied.
abbrev pub occupied : Position → Option ScenarioSummon → List (Position × ScenarioSummon)
occupied at none = []
occupied at (some summon) = (at, summon) ∷ []

unfoldable pub bench_summons :
    Array (Option ScenarioSummon) → List BenchSlot → List (Position × ScenarioSummon)
bench_summons bench [] = []
bench_summons bench (slot ∷ slots) =
    occupied (Position.bench slot) (get_at bench (index slot)) ++ bench_summons bench slots

unfoldable pub positioned_summons : ScenarioPlayer → List (Position × ScenarioSummon)
unfolding bench_summons
positioned_summons player =
    occupied Position.main player.main ++ bench_summons player.bench all_slots

-- The chains of some Summons, one after the other.
unfoldable pub chain_refs : List (Position × ScenarioSummon) → List CardRef
chain_refs [] = []
chain_refs (item ∷ items) = item.1.chain ++ chain_refs items

unfoldable pub player_card_refs : ScenarioPlayer → List CardRef
unfolding positioned_summons chain_refs
player_card_refs player =
    player.deck
    ++ player.hand
    ++ player.prizes
    ++ player.discard
    ++ chain_refs (positioned_summons player)

unfoldable pub all_card_refs : Scenario → List CardRef
unfolding player_card_refs
all_card_refs scenario =
    player_card_refs scenario.players.one ++ player_card_refs scenario.players.two

-- The loop of `check_no_duplicate_instances`, with the instances seen so far.
unfoldable pub check_unseen : List CardInstanceId → List CardRef → Result (Unit {0}) InvalidScenario
check_unseen seen [] = ok tt
check_unseen seen (card ∷ refs) = do
  guard (not (any (λ instance_id. instance_id == card.instance_id) seen))
      (InvalidScenario.duplicate_card_instance card.instance_id)
  check_unseen (card.instance_id ∷ seen) refs

unfoldable pub check_no_duplicate_instances : Scenario → Result (Unit {0}) InvalidScenario
unfolding check_unseen all_card_refs
check_no_duplicate_instances scenario = check_unseen [] (all_card_refs scenario)

-- The loop of `check_every_def_known`.
unfoldable pub check_known : CardSet → List CardRef → Result (Unit {0}) InvalidScenario
check_known cards [] = ok tt
check_known cards (card ∷ refs) = do
  guard (is_some (CardSet.get cards card.def)) (InvalidScenario.unknown_card_def card.def)
  check_known cards refs

unfoldable pub check_every_def_known : CardSet → Scenario → Result (Unit {0}) InvalidScenario
unfolding check_known all_card_refs
check_every_def_known cards scenario = check_known cards (all_card_refs scenario)

unfoldable pub form_of : CardSet → CardRef → PlayerId → Position → Result Form InvalidScenario
form_of cards card player position = do
  entity ← ok_or (CardSet.get cards card.def) (InvalidScenario.unknown_card_def card.def)
  ok_or (Entity.get Field.form entity) (InvalidScenario.illegal_chain_order player position)

-- The loop of `build_chain`: each card climbs above the `previous` Form.
unfoldable pub check_climb :
    CardSet → PlayerId → Position → Form → List CardRef → Result (Unit {0}) InvalidScenario
unfolding form_of
check_climb cards player position previous [] = ok tt
check_climb cards player position previous (card ∷ rest) = do
  form ← form_of cards card player position
  guard (not (form_le form previous)) (InvalidScenario.illegal_chain_order player position)
  check_climb cards player position form rest

unfoldable pub build_chain :
    CardSet → PlayerId → Position → List CardRef → Result UpgradeChain InvalidScenario
unfolding form_of check_climb
build_chain cards player position [] = err (InvalidScenario.empty_upgrade_chain player position)
build_chain cards player position (base ∷ rest) = do
  previous ← form_of cards base player position
  check_climb cards player position previous rest
  ok (record { base = base; rest = rest })

-- The Summon that a described one becomes, on its chain.
abbrev pub summon_instance : PlayerId → ScenarioSummon → UpgradeChain → SummonInstance
summon_instance player summon chain = record {
  chain = chain;
  damage = summon.damage;
  readiness = summon.readiness;
  owner = player;
  controller = player;
  duration_markers = [];
  turn = fresh;
}

unfoldable pub build_summon_instance :
    CardSet → PlayerId → Position → ScenarioSummon → Result SummonInstance InvalidScenario
unfolding build_chain
build_summon_instance cards player position summon = do
  chain ← build_chain cards player position summon.chain
  ok (summon_instance player summon chain)

-- `map(…).transpose()?`, for the Main and for each slot of the Bench.
unfoldable pub build_position :
    CardSet
    → PlayerId
    → Position
    → Option ScenarioSummon
    → Result (Option SummonInstance) InvalidScenario
unfolding build_summon_instance
build_position cards player position none = ok none
build_position cards player position (some summon) = do
  built ← build_summon_instance cards player position summon
  ok (some built)

-- The loop over the Bench slots, filling the Bench.
unfoldable pub build_bench :
    CardSet
    → PlayerId
    → Array (Option ScenarioSummon)
    → List BenchSlot
    → Array (Option SummonInstance)
    → Result (Array (Option SummonInstance)) InvalidScenario
unfolding build_position
build_bench cards player described [] bench = ok bench
build_bench cards player described (slot ∷ slots) bench = do
  built ← build_position cards player (Position.bench slot) (get_at described (index slot))
  build_bench cards player described slots (set_at bench (index slot) built)

abbrev pub empty_bench : Array (Option SummonInstance)
empty_bench = record { at0 = none; at1 = none; at2 = none }

abbrev pub bench_is_empty : Array (Option SummonInstance) → Bool
bench_is_empty bench = is_none bench.at0 && is_none bench.at1 && is_none bench.at2

-- A described player with what stands on the board.
abbrev pub player_state :
    ScenarioPlayer → Option SummonInstance → Array (Option SummonInstance) → PlayerState
player_state described main bench = record {
  main = main;
  bench = bench;
  deck = described.deck;
  hand = described.hand;
  prizes = described.prizes;
  discard = described.discard;
  mana = described.mana;
  main_losses = described.main_losses;
  enchantments = [];
}

unfoldable pub build_player_state :
    CardSet → PlayerId → ScenarioPlayer → Result PlayerState InvalidScenario
unfolding build_position build_bench
build_player_state cards player described = do
  main ← build_position cards player Position.main described.main
  bench ← build_bench cards player described.bench all_slots empty_bench
  guard (not (is_none main && bench_is_empty bench)) (InvalidScenario.no_summon_in_play player)
  ok (player_state described main bench)

-- The first of some players whose Main is empty.
unfoldable pub first_promotion : PerPlayer PlayerState → List PlayerId → Option PendingInput
first_promotion players [] = none
first_promotion players (player ∷ rest) = elim (get players player).main [
  | none ↦ some (PendingInput.promotion player)
  | some _ ↦ first_promotion players rest
]

unfoldable pub derive_pending : PerPlayer PlayerState → Option PendingInput
unfolding first_promotion
derive_pending players = first_promotion players (PlayerId.one ∷ PlayerId.two ∷ [])

-- The state that two built players start in.
unfoldable pub quiet_board : CardSet → Scenario → PerPlayer PlayerState → GameState
unfolding derive_pending
quiet_board cards scenario players = record {
  players = players;
  coin = scenario.coin;
  turn = record {
    active_player = scenario.active_player;
    phase = Phase.main;
    window = none;
    normal_attack_used = false;
    normal_retreat_used = false;
    spell_played_this_turn = record { one = false; two = false };
  };
  stack = [];
  stack_segment_bases = [];
  work = [];
  pending = derive_pending players;
  status = GameStatus.playing;
  cards = cards;
}

unfoldable pub from_scenario : CardSet → Scenario → Result GameState InvalidScenario
unfolding check_no_duplicate_instances check_every_def_known build_player_state quiet_board
from_scenario cards scenario = do
  check_no_duplicate_instances scenario
  check_every_def_known cards scenario
  one ← build_player_state cards PlayerId.one scenario.players.one
  two ← build_player_state cards PlayerId.two scenario.players.two
  ok (quiet_board cards scenario (record { one = one; two = two }))
