-- ===== src/Examples/Applied.antt =====
-- The theorems on scenarios, matches, identities, libraries and Decks applied to the example table.
use summoners.Prelude.{
  length, ◌≤◌, ◌≡◌, ◌↔◌, ◌⊎◌, none, some, [], ◌∷◌, map, ok, true, sum_by, is_some,
}
use summoners.Prelude.Arrays.{get_at}
use summoners.Domain.Ids.{Position, BenchSlot, PlayerId, index}
use summoners.Domain.Actions.{GameAction}
use summoners.Domain.EntityId.{display, parse}
use summoners.Domain.State.{layers, PendingInput, get}
use summoners.Spelling.{IsId, parse-display, digits, parse-digits}
use summoners.Spelling.Accepted.{parse-IsId, parse-to_upper, to_upper}
use summoners.Scenario.{all_card_refs, from_scenario}
use summoners.Scenario.Accepted.{IsStart, from_scenario-IsStart}
use summoners.Scenario.Begins.{from_scenario-promotion, from_scenario-weight}
use summoners.Scenario.Layers.{from_scenario-layers}
use summoners.Scenario.Checks.{one_of}
use summoners.Conservation.Weight.{state_weight}
use summoners.Segments.Invariant.{IsSegmented}
use summoners.Transition.Laws.{IsAtRest}
use summoners.Session.{Reached, Reached-IsAtRest, Reached-distinct}
use summoners.Session.Answers.{Reached-Answers}
use summoners.Halting.Quiet.{IsTriggerFree, IsTriggerFree-entities}
use summoners.Halting.Apply.{Answers}
use summoners.Halting.Ends.{Halts, drain-Halts}
use summoners.Authored.Library.Index.{AreIndexed, from_sets-AreIndexed}
use summoners.Authored.Library.Ids.{all_ids, from_sets-ids, is_id}
use summoners.Authored.Deck.{resolve}
use summoners.Authored.Deck.Legal.{IsLegal}
use summoners.Authored.Deck.Complete.{resolve-IsLegal_iff}
use summoners.Examples.Match.{crowded, pool}
use summoners.Examples.Started.{
  grown_stands, grown_summon, answered, answered_runs, built, pool_untriggered, shelf, shelf_runs,
  spelled, spelled_id, spelled_runs, start, start_runs,
}
use summoners.Examples.Table.{an_id, base_set, described, recipe}

spelled_id-IsId : IsId spelled_id
spelled_id-IsId = parse-IsId spelled spelled_id spelled_runs

quiet_pool : IsTriggerFree pool
quiet_pool = IsTriggerFree-entities pool pool_untriggered

promoting : GameAction
promoting = GameAction.choose_promotion PlayerId.two BenchSlot.first

reached : Reached pool described answered.state
reached =
    Reached.acted 40 (GameAction.choose_promotion PlayerId.two BenchSlot.first)
      (Reached.begun start_runs) answered_runs

from_scenario-IsStart_example :
    (from_scenario pool described ≡ ok start) ↔ IsStart pool described start
from_scenario-IsStart_example = from_scenario-IsStart pool described start

from_scenario-weight_example :
    state_weight (one_of 1) start ≡ sum_by (one_of 1) (all_card_refs described)
from_scenario-weight_example = from_scenario-weight (one_of 1) pool described start start_runs

from_scenario-promotion_example :
    ((start.pending ≡ none)
      × (is_some start.players.one.main ≡ true)
      × (is_some start.players.two.main ≡ true))
    ⊎ ((player : PlayerId) × (start.pending ≡ some (PendingInput.promotion player))
        × ((get start.players player).main ≡ none)
        × ((slot : BenchSlot) × (is_some (get_at (get start.players player).bench (index slot))
              ≡ true)))
from_scenario-promotion_example = from_scenario-promotion pool described start start_runs

Reached-IsAtRest_example : IsSegmented answered.state × IsAtRest answered.state
Reached-IsAtRest_example = Reached-IsAtRest pool described answered.state reached

Reached-distinct_example : state_weight (one_of 11) answered.state ≤ 1
Reached-distinct_example = Reached-distinct pool described answered.state 11 reached

Reached-Answers_example : Answers answered.state (GameAction.end_turn PlayerId.one)
Reached-Answers_example =
    Reached-Answers pool described answered.state (GameAction.end_turn PlayerId.one) quiet_pool
      reached

drain-Halts_example : Halts crowded
drain-Halts_example = drain-Halts crowded quiet_pool

parse-display_example : parse (display spelled_id) ≡ ok spelled_id
parse-display_example = parse-display spelled_id spelled_id-IsId

parse-digits_example : parse (digits spelled_id.bytes) ≡ ok spelled_id
parse-digits_example = parse-digits spelled_id spelled_id-IsId

parse-to_upper_example : parse (map to_upper spelled) ≡ ok spelled_id
parse-to_upper_example = parse-to_upper spelled spelled_id spelled_runs

resolve-IsLegal_iff_example : (resolve recipe shelf ≡ ok built) ↔ IsLegal shelf recipe built
resolve-IsLegal_iff_example = resolve-IsLegal_iff recipe shelf built

from_sets-AreIndexed_example : AreIndexed shelf.cards (base_set ∷ [])
from_sets-AreIndexed_example = from_sets-AreIndexed (base_set ∷ []) shelf shelf_runs

from_sets-ids_example : sum_by (is_id (an_id 21).bytes) (all_ids (base_set ∷ [])) ≤ 1
from_sets-ids_example = from_sets-ids (base_set ∷ []) shelf (an_id 21) shelf_runs

from_scenario-layers_example : length (layers grown_summon.chain) ≤ 3
from_scenario-layers_example =
    from_scenario-layers pool described start PlayerId.one Position.main grown_summon start_runs
      grown_stands
