-- ===== src/Scenario/Begins.antt =====
-- The state that crates/core/src/scenario.rs starts a match from: its cards, and the promotion that
-- `derive_pending` asks for.
use summoners.Prelude.{
  ℕ, ◌+◌, ◌≡◌, refl, sym, ap, ◌∙◌, true, not, ◌&&◌, Option, none, some, List, [], ◌++◌, ok, is_none,
  is_some, sum_by, sum_by-append, ◌⊎◌, arith, Option-cases, inl, inr,
}
use summoners.Prelude.Arrays.{get_at}
use summoners.Domain.Ids.{PlayerId, BenchSlot, Position, index}
use summoners.Domain.CardSet.{CardSet}
use summoners.Domain.State.{CardRef, GameState, PendingInput, PlayerState, SummonInstance, get}
use summoners.Conservation.Weight.{state_weight, zones_weight, player_weight, summon_weight}
use summoners.Scenario.{
  Scenario, ScenarioPlayer, ScenarioSummon, all_card_refs, bench_is_empty, bench_summons,
  chain_refs, derive_pending, first_promotion, from_scenario, occupied, player_card_refs,
  positioned_summons, quiet_board,
}
use summoners.Scenario.Accepted.{IsBuilt, Stands, from_scenario-IsStart}

module _ (w : CardRef → ℕ) (cards : CardSet) where
  abbrev described_weight : Option ScenarioSummon → ℕ
  described_weight none = 0
  described_weight (some summon) = sum_by w summon.chain

  Stands-weight :
      (player : PlayerId) (described : Option ScenarioSummon) (built : Option SummonInstance)
      → Stands cards player described built
      → summon_weight w built ≡ described_weight described
  Stands-weight player none built h = ap (summon_weight w) h
  Stands-weight player (some summon) built (chain, same, _, e) =
      ap (summon_weight w) e ∙ ap (sum_by w) (sym same)

  chain_refs-weight :
      (at : Position) (described : Option ScenarioSummon) (items : List (Position × ScenarioSummon))
      → sum_by w (chain_refs (occupied at described ++ items))
        ≡ described_weight described + sum_by w (chain_refs items)
  unfolding chain_refs
  chain_refs-weight at none items = omega arith
  chain_refs-weight at (some summon) items = sum_by-append w summon.chain (chain_refs items)

  positioned-weight :
      (described : ScenarioPlayer)
      → sum_by w (chain_refs (positioned_summons described))
        ≡ described_weight described.main
          + described_weight described.bench.at0
          + described_weight described.bench.at1
          + described_weight described.bench.at2
  unfolding positioned_summons bench_summons chain_refs
  positioned-weight described =
      let third = occupied (Position.bench BenchSlot.third) described.bench.at2 ++ [] in
      let second = occupied (Position.bench BenchSlot.second) described.bench.at1 ++ third in
      let first = occupied (Position.bench BenchSlot.first) described.bench.at0 ++ second in
      omega (
        arith,
        chain_refs-weight Position.main described.main first,
        chain_refs-weight (Position.bench BenchSlot.first) described.bench.at0 second,
        chain_refs-weight (Position.bench BenchSlot.second) described.bench.at1 third,
        chain_refs-weight (Position.bench BenchSlot.third) described.bench.at2 [],
      )

  player_card_refs-weight :
      (described : ScenarioPlayer)
      → sum_by w (player_card_refs described)
        ≡ sum_by w described.deck
          + sum_by w described.hand
          + sum_by w described.prizes
          + sum_by w described.discard
          + sum_by w (chain_refs (positioned_summons described))
  unfolding player_card_refs
  player_card_refs-weight described =
      let chains = chain_refs (positioned_summons described) in
      let hands = described.deck ++ described.hand in
      let piles = hands ++ described.prizes ++ described.discard in
      let whole : sum_by w (player_card_refs described) ≡ sum_by w piles + sum_by w chains =
        sum_by-append w piles chains in
      omega (
        arith,
        whole,
        sum_by-append w (hands ++ described.prizes) described.discard,
        sum_by-append w hands described.prizes,
        sum_by-append w described.deck described.hand,
      )

  IsBuilt-weight :
      (player : PlayerId) (described : ScenarioPlayer) (built : PlayerState)
      → IsBuilt cards player described built
      → player_weight w built ≡ sum_by w (player_card_refs described)
  unfolding player_weight
  IsBuilt-weight player described built h = omega (
    arith,
    ap (player_weight w) h.rest,
    player_card_refs-weight described,
    positioned-weight described,
    Stands-weight player described.main built.main h.main,
    Stands-weight player described.bench.at0 built.bench.at0 h.first,
    Stands-weight player described.bench.at1 built.bench.at1 h.second,
    Stands-weight player described.bench.at2 built.bench.at2 h.third,
  )

  -- The state that an accepted scenario starts in holds exactly the cards of the scenario: under
  -- every weight of a card, all zones together weigh what the described cards do.
  pub from_scenario-weight :
      (scenario : Scenario) (s : GameState)
      → from_scenario cards scenario ≡ ok s
      → state_weight w s ≡ sum_by w (all_card_refs scenario)
  unfolding all_card_refs zones_weight quiet_board
  from_scenario-weight scenario s h =
      let start = (from_scenario-IsStart cards scenario s).0 h in
      omega (
        arith,
        ap (state_weight w) start.quiet,
        sum_by-append w (player_card_refs scenario.players.one)
            (player_card_refs scenario.players.two),
        IsBuilt-weight PlayerId.one scenario.players.one s.players.one start.one,
        IsBuilt-weight PlayerId.two scenario.players.two s.players.two start.two,
      )

slot_of :
    (a b c : Option SummonInstance)
    → not (is_none a && is_none b && is_none c) ≡ true
    → (slot : BenchSlot) × (is_some (get_at (record { at0 = a; at1 = b; at2 = c }) (index slot))
        ≡ true)
slot_of (some _) b c h = (BenchSlot.first, refl)
slot_of none (some _) c h = (BenchSlot.second, refl)
slot_of none none (some _) h = (BenchSlot.third, refl)
slot_of none none none h = absurd (ground (arith, h))

-- A player without a Main is promoted from a Bench that holds a Summon.
someone_waits :
    (cards : CardSet) (player : PlayerId) (described : ScenarioPlayer) (built : PlayerState)
    → IsBuilt cards player described built
    → built.main ≡ none
    → (slot : BenchSlot) × (is_some (get_at built.bench (index slot)) ≡ true)
someone_waits cards player described built h e =
    slot_of built.bench.at0 built.bench.at1 built.bench.at2 (
      ap (λ (o : Option SummonInstance). not (is_none o && bench_is_empty built.bench)) (sym e)
      ∙ h.someone)

-- Where the start of an accepted scenario asks for a Promotion, the player asked has an empty Main
-- and a Bench Summon to promote; where it asks for nothing, both players have a Main.
pub from_scenario-promotion :
    (cards : CardSet) (scenario : Scenario) (s : GameState)
    → from_scenario cards scenario ≡ ok s
    → ((s.pending ≡ none)
        × (is_some s.players.one.main ≡ true)
        × (is_some s.players.two.main ≡ true))
      ⊎ ((player : PlayerId) × (s.pending ≡ some (PendingInput.promotion player))
          × ((get s.players player).main ≡ none)
          × ((slot : BenchSlot) × (is_some (get_at (get s.players player).bench (index slot))
                ≡ true)))
unfolding quiet_board derive_pending first_promotion
from_scenario-promotion cards scenario s h =
    let start = (from_scenario-IsStart cards scenario s).0 h in
    let asked = ap (λ (t : GameState). t.pending) start.quiet in
    elim (Option-cases s.players.one.main) [
      | inl e ↦ inr (PlayerId.one, asked ∙ rw (e), e, someone_waits cards _ _ _ start.one e)
      | inr (one, e) ↦ elim (Option-cases s.players.two.main) [
        | inl f ↦ inr (PlayerId.two, asked ∙ rw (e, f), f, someone_waits cards _ _ _ start.two f)
        | inr (two, f) ↦ inl (asked ∙ rw (e, f), ap is_some e, ap is_some f)
      ]
    ]
