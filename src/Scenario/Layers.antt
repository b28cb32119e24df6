-- ===== src/Scenario/Layers.antt =====
-- The chains on the board that crates/core/src/scenario.rs starts a match from.
use summoners.Prelude.{◌≤◌, ◌≡◌, subst, Option, none, some, ok, length}
use summoners.Domain.Ids.{BenchSlot, PlayerId, Position}
use summoners.Domain.CardSet.{CardSet}
use summoners.Domain.State.{GameState, PlayerState, SummonInstance, get, layers, summon_at}
use summoners.Rounds.{some-injective}
use summoners.Scenario.{Scenario, ScenarioPlayer, ScenarioSummon, from_scenario}
use summoners.Scenario.Chains.{IsChain, IsChain-length}
use summoners.Scenario.Accepted.{IsBuilt, Stands, from_scenario-IsStart}

Stands-IsChain :
    (cards : CardSet) (player : PlayerId) (described : Option ScenarioSummon)
    (built : Option SummonInstance) (summon : SummonInstance)
    → Stands cards player described built
    → built ≡ some summon
    → IsChain cards summon.chain
Stands-IsChain cards player none built summon h e = cc
Stands-IsChain cards player (some _) built summon (chain, same, valid, made) e =
    subst (λ (x : SummonInstance). IsChain cards x.chain) (some-injective e made) valid

IsBuilt-IsChain :
    (cards : CardSet) (player : PlayerId) (described : ScenarioPlayer) (built : PlayerState)
    (at : Position) (summon : SummonInstance)
    → IsBuilt cards player described built
    → summon_at built at ≡ some summon
    → IsChain cards summon.chain
IsBuilt-IsChain cards player described built Position.main summon h e =
    Stands-IsChain cards player described.main built.main summon h.main e
IsBuilt-IsChain cards player described built (Position.bench BenchSlot.first) summon h e =
    Stands-IsChain cards player described.bench.at0 built.bench.at0 summon h.first e
IsBuilt-IsChain cards player described built (Position.bench BenchSlot.second) summon h e =
    Stands-IsChain cards player described.bench.at1 built.bench.at1 summon h.second e
IsBuilt-IsChain cards player described built (Position.bench BenchSlot.third) summon h e =
    Stands-IsChain cards player described.bench.at2 built.bench.at2 summon h.third e

-- No Summon on the board of an accepted scenario has more than three layers.
pub from_scenario-layers :
    (cards : CardSet) (scenario : Scenario) (s : GameState) (player : PlayerId) (at : Position)
    (summon : SummonInstance)
    → from_scenario cards scenario ≡ ok s
    → summon_at (get s.players player) at ≡ some summon
    → length (layers summon.chain) ≤ 3
from_scenario-layers cards scenario s PlayerId.one at summon h e =
    IsChain-length cards summon.chain (
      IsBuilt-IsChain cards PlayerId.one scenario.players.one s.players.one at summon
        ((from_scenario-IsStart cards scenario s).0 h).one e)
from_scenario-layers cards scenario s PlayerId.two at summon h e =
    IsChain-length cards summon.chain (
      IsBuilt-IsChain cards PlayerId.two scenario.players.two s.players.two at summon
        ((from_scenario-IsStart cards scenario s).0 h).two e)
