-- ===== src/Scenario/Accepted.antt =====
-- What `from_scenario` of crates/core/src/scenario.rs accepts, and the state that it makes of it.
use summoners.Prelude.{
  ◌≡◌, ◌↔◌, refl, sym, subst, ap, ◌∙◌, true, not, ◌&&◌, Option, none, some, ok, guard, is_none,
  >>=-eq-ok, guard-eq-ok, ok-injective,
}
use summoners.Prelude.Arrays.{Array}
use summoners.Domain.Ids.{PlayerId, BenchSlot, Position, all_slots}
use summoners.Domain.CardSet.{CardSet}
use summoners.Domain.State.{GameState, PlayerState, SummonInstance, UpgradeChain, layers}
use summoners.Scenario.{
  Scenario, ScenarioPlayer, ScenarioSummon, all_card_refs, bench_is_empty, build_bench, build_chain,
  build_player_state, build_position, player_state, build_summon_instance, check_every_def_known,
  check_no_duplicate_instances, empty_bench, from_scenario, quiet_board, summon_instance,
}
use summoners.Scenario.Chains.{IsChain, build_chain-eq-ok, build_chain-accepts}
use summoners.Scenario.Checks.{
  AreDistinct, AreKnown, check_unseen-eq-ok, check_unseen-accepts, check_known-eq-ok,
  check_known-accepts,
}

module _ (cards : CardSet) (player : PlayerId) where
  -- A described position and what stands there, on a chain that climbs through the described cards.
  abbrev pub Stands : Option ScenarioSummon → Option SummonInstance → Type 0
  Stands described built = elim described [
    | none ↦ built ≡ none
    | some summon ↦
        (chain : UpgradeChain) × (summon.chain ≡ layers chain)
        × IsChain cards chain
        × (built ≡ some (summon_instance player summon chain))
  ]

  build_position-eq-ok :
      (at : Position) (described : Option ScenarioSummon) (built : Option SummonInstance)
      → build_position cards player at described ≡ ok built
      → Stands described built
  unfolding build_position build_summon_instance
  build_position-eq-ok at none built h = sym (ok-injective refl h)
  build_position-eq-ok at (some summon) built h =
      let made = >>=-eq-ok (build_summon_instance cards player at summon) _ h in
      let chain = >>=-eq-ok (build_chain cards player at summon.chain) _ made.1 in
      let valid = build_chain-eq-ok cards player at summon.chain chain.0 chain.1 in
      (
        chain.0,
        valid.0,
        valid.1,
        sym (ok-injective refl made.2) ∙ ap some (sym (ok-injective refl chain.2)),
      )

  build_position-accepts :
      (at : Position) (described : Option ScenarioSummon) (built : Option SummonInstance)
      → Stands described built
      → build_position cards player at described ≡ ok built
  unfolding build_position build_summon_instance
  build_position-accepts at none built h = rw (h)
  build_position-accepts at (some summon) built (chain, same, valid, e) =
      rw (same, build_chain-accepts cards player at chain valid, e)

  -- A described player and the built one.
  pub record IsBuilt (described : ScenarioPlayer) (built : PlayerState) : Type 0 where
    pub main : Stands described.main built.main
    pub first : Stands described.bench.at0 built.bench.at0
    pub second : Stands described.bench.at1 built.bench.at1
    pub third : Stands described.bench.at2 built.bench.at2
    pub someone : not (is_none built.main && bench_is_empty built.bench) ≡ true
    pub rest : built ≡ player_state described built.main built.bench

  pub build_player_state-eq-ok :
      (described : ScenarioPlayer) (built : PlayerState)
      → build_player_state cards player described ≡ ok built
      → IsBuilt described built
  unfolding build_player_state build_bench
  build_player_state-eq-ok described built h =
      let main = >>=-eq-ok (build_position cards player Position.main described.main) _ h in
      let bench =
        >>=-eq-ok (build_bench cards player described.bench all_slots empty_bench) _ main.2 in
      let first =
        >>=-eq-ok (build_position cards player (Position.bench BenchSlot.first) described.bench.at0)
          _ bench.1 in
      let second =
        >>=-eq-ok
          (build_position cards player (Position.bench BenchSlot.second) described.bench.at1) _
          first.2 in
      let third =
        >>=-eq-ok (build_position cards player (Position.bench BenchSlot.third) described.bench.at2)
          _ second.2 in
      let filled = ok-injective refl third.2 in
      let someone =
        >>=-eq-ok (guard (not (is_none main.0 && bench_is_empty bench.0)) _) _ bench.2 in
      let standing : Array (Option SummonInstance) = record {
        at0 = first.0;
        at1 = second.0;
        at2 = third.0;
      } in
      subst (λ (made : PlayerState). IsBuilt described made) (ok-injective refl someone.2)
        (subst
          (λ (b : Array (Option SummonInstance)).
            not (is_none main.0 && bench_is_empty b) ≡ true
            → IsBuilt described (player_state described main.0 b))
          filled
          (λ inhabited. record {
            main = build_position-eq-ok Position.main described.main main.0 main.1;
            first = build_position-eq-ok _ described.bench.at0 first.0 first.1;
            second = build_position-eq-ok _ described.bench.at1 second.0 second.1;
            third = build_position-eq-ok _ described.bench.at2 third.0 third.1;
            someone = inhabited;
            rest = refl;
          })
          (guard-eq-ok _ _ someone.1))

  pub build_player_state-accepts :
      (described : ScenarioPlayer) (built : PlayerState)
      → IsBuilt described built
      → build_player_state cards player described ≡ ok built
  unfolding build_player_state build_bench
  build_player_state-accepts described built h =
      rw
        (
          build_position-accepts Position.main described.main built.main h.main,
          build_position-accepts (Position.bench BenchSlot.first) described.bench.at0
              built.bench.at0 h.first,
          build_position-accepts (Position.bench BenchSlot.second) described.bench.at1
              built.bench.at1 h.second,
          build_position-accepts (Position.bench BenchSlot.third) described.bench.at2
              built.bench.at2 h.third,
          h.someone,
        )
        (ap ok (sym h.rest))

-- The described situation as the start of a match.
pub record IsStart (cards : CardSet) (scenario : Scenario) (s : GameState) : Type 0 where
  pub distinct : AreDistinct (all_card_refs scenario)
  pub known : AreKnown cards (all_card_refs scenario)
  pub one : IsBuilt cards PlayerId.one scenario.players.one s.players.one
  pub two : IsBuilt cards PlayerId.two scenario.players.two s.players.two
  pub quiet : s ≡ quiet_board cards scenario s.players

from_scenario-eq-ok :
    (cards : CardSet) (scenario : Scenario) (s : GameState)
    → from_scenario cards scenario ≡ ok s
    → IsStart cards scenario s
unfolding from_scenario check_no_duplicate_instances check_every_def_known quiet_board
from_scenario-eq-ok cards scenario s h =
    let distinct = >>=-eq-ok (check_no_duplicate_instances scenario) _ h in
    let known = >>=-eq-ok (check_every_def_known cards scenario) _ distinct.2 in
    let one = >>=-eq-ok (build_player_state cards PlayerId.one scenario.players.one) _ known.2 in
    let two = >>=-eq-ok (build_player_state cards PlayerId.two scenario.players.two) _ one.2 in
    subst (λ (made : GameState). IsStart cards scenario made) (ok-injective refl two.2)
      (record {
        distinct = check_unseen-eq-ok (all_card_refs scenario) distinct.1;
        known = check_known-eq-ok cards (all_card_refs scenario) known.1;
        one = build_player_state-eq-ok cards PlayerId.one scenario.players.one one.0 one.1;
        two = build_player_state-eq-ok cards PlayerId.two scenario.players.two two.0 two.1;
        quiet = refl;
      })

from_scenario-accepts :
    (cards : CardSet) (scenario : Scenario) (s : GameState)
    → IsStart cards scenario s
    → from_scenario cards scenario ≡ ok s
unfolding from_scenario check_no_duplicate_instances check_every_def_known
from_scenario-accepts cards scenario s h =
    rw
      (
        check_unseen-accepts (all_card_refs scenario) h.distinct,
        check_known-accepts cards (all_card_refs scenario) h.known,
        build_player_state-accepts cards PlayerId.one scenario.players.one s.players.one h.one,
        build_player_state-accepts cards PlayerId.two scenario.players.two s.players.two h.two,
      )
      (ap ok (sym h.quiet))

-- The parser makes a state of a scenario exactly when the state is the described situation: no card
-- instance stands twice, the pool has an entity for each card, each Summon stands on its described
-- cards, the first printing a Form and each further one a Form above the one under it, each player
-- has a Summon, and all else is as described or as a match begins.
pub from_scenario-IsStart :
    (cards : CardSet) (scenario : Scenario) (s : GameState)
    → (from_scenario cards scenario ≡ ok s) ↔ IsStart cards scenario s
from_scenario-IsStart cards scenario s =
    (from_scenario-eq-ok cards scenario s, from_scenario-accepts cards scenario s)
