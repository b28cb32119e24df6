-- ===== src/Examples/Started.antt =====
-- The example situation, Set and Deck, evaluated.
use summoners.Prelude.{◌≡◌, refl, Result, true, some, List, [], ◌∷◌, ok, err, ℕ, all}
use summoners.Domain.Ids.{PlayerId, BenchSlot}
use summoners.Domain.Actions.{GameAction}
use summoners.Domain.State.{GameState, PendingInput, SummonInstance}
use summoners.Engine.Outcome.{ActionOutcome}
use summoners.Engine.Apply.{apply}
use summoners.Halting.Quiet.{prints_no_trigger}
use summoners.Authored.Library.{CardLibrary, LibraryError, from_sets}
use summoners.Authored.Deck.{Deck, resolve}
use summoners.Authored.DeckError.{DeckLoadError}
use summoners.Domain.EntityId.{parse}
use summoners.Scenario.{from_scenario, summon_instance}
use summoners.Examples.Match.{opening, pool, lynx_id, lynx_card, great_lynx_id}
use summoners.Examples.Runs.{accepted_run, applied_of, is_accepted}
use summoners.Examples.Table.{base_set, described, recipe, state_of, grown}
use summoners.Domain.EntityId
use summoners.Domain.CardSet
use summoners.Domain.Entity
use summoners.Domain.Field
use summoners.Domain.Cards
use summoners.Domain.State
use summoners.Prelude.Words
use summoners.Prelude.Int
use summoners.Engine.Payment
use summoners.Engine.Outcome
use summoners.Engine.Damage
use summoners.Engine.Loss
use summoners.Engine.Upkeep
use summoners.Engine.Effects
use summoners.Engine.Triggers
use summoners.Engine.Destruction
use summoners.Engine.Turn
use summoners.Engine.Priority
use summoners.Engine.Board
use summoners.Engine.Skills
use summoners.Engine.Resolution
use summoners.Engine.Apply
use summoners.Scenario
use summoners.Authored.Keys
use summoners.Authored.Library
use summoners.Authored.Deck

-- The state that the described situation starts in.
abbrev pub start : GameState
start = state_of opening (from_scenario pool described)

-- The Main of two layers as it stands at the start.
abbrev pub grown_summon : SummonInstance
grown_summon =
    summon_instance PlayerId.one grown
      (record { base = lynx_card 1; rest = record { instance_id = 2; def = great_lynx_id } ∷ [] })

-- Player two promotes its Bench Summon.
abbrev pub answered : ActionOutcome
answered = applied_of (apply 40 start (GameAction.choose_promotion PlayerId.two BenchSlot.first))

abbrev no_library : CardLibrary
no_library = record { sets = []; cards = []; core_cards = pool }

abbrev library_of : Result CardLibrary LibraryError → CardLibrary
library_of (ok l) = l
library_of (err _) = no_library

abbrev pub shelf : CardLibrary
shelf = library_of (from_sets (base_set ∷ []))

abbrev deck_of : Result Deck DeckLoadError → Deck
deck_of (ok d) = d
deck_of (err _) = record { id = []; name = []; starter = lynx_id; body = [] }

abbrev pub built : Deck
built = deck_of (resolve recipe shelf)

-- `0a0b0c0d0e0f101112131415161718ff`, bare.
abbrev pub spelled : List ℕ
spelled =
    b'0' ∷ b'a' ∷ b'0' ∷ b'b' ∷ b'0' ∷ b'c' ∷ b'0' ∷ b'd' ∷ b'0' ∷ b'e' ∷ b'0' ∷ b'f' ∷ b'1' ∷ b'0'
    ∷ b'1' ∷ b'1' ∷ b'1' ∷ b'2' ∷ b'1' ∷ b'3' ∷ b'1' ∷ b'4' ∷ b'1' ∷ b'5' ∷ b'1' ∷ b'6' ∷ b'1'
    ∷ b'7' ∷ b'1' ∷ b'8' ∷ b'f' ∷ b'f' ∷ []

abbrev pub spelled_id : EntityId.EntityId
spelled_id = record {
  bytes = 10 ∷ 11 ∷ 12 ∷ 13 ∷ 14 ∷ 15 ∷ 16 ∷ 17 ∷ 18 ∷ 19 ∷ 20 ∷ 21 ∷ 22 ∷ 23 ∷ 24 ∷ 255 ∷ [];
}

-- Every run of this module, under the one list of the definitions that they compute through.
runs :
    (from_scenario pool described ≡ ok start)
    × (start.pending ≡ some (PendingInput.promotion PlayerId.two))
    × (is_accepted (apply 40 start (GameAction.choose_promotion PlayerId.two BenchSlot.first))
        ≡ true)
    × (all prints_no_trigger pool.entities ≡ true)
    × (from_sets (base_set ∷ []) ≡ ok shelf)
    × (resolve recipe shelf ≡ ok built)
    × (parse spelled ≡ ok spelled_id)
    × (start.players.one.main ≡ some grown_summon)
unfolding EntityId.id_eq EntityId.is_hexdigit EntityId.digit_value EntityId.hex_of
    EntityId.read_pairs EntityId.read_hex EntityId.parse EntityId.hex_digit EntityId.display_from
    EntityId.display CardSet.lookup CardSet.or_insert CardSet.index_from CardSet.new CardSet.get
    Entity.find_component Entity.filter_components Entity.get Entity.all Entity.demand Field.name
    Field.accounting_id Field.life Field.retreat_cost Field.form Field.produces Field.tags
    Field.cost Field.skill Field.attack Field.trigger Field.effect Field.passive Field.timing
    Field.event Field.respondable Field.persistent Field.family Cards.insert Cards.contains
    State.top State.break_game Words.saturating_add Int.◌+ℤ◌ Int.◌-ℤ◌ Payment.candidate_wins
    Payment.better Payment.pick_from Payment.pick_largest_pool Payment.take_from
    Payment.spend_generic Payment.pay_generic Payment.settle Payment.deduct
    Outcome.require_free_main_phase Outcome.pay Damage.condition_holds Damage.reductions_of
    Damage.additions_of Damage.collect_adjustments Damage.blocked Damage.operate Damage.adjust
    Damage.run_adjustments Damage.evaluate Damage.commit_events Damage.commit_hit Damage.commit
    Loss.lose Loss.draw_failure Loss.check Upkeep.controlled_positions Upkeep.produced_types
    Upkeep.seen Upkeep.anchor_types Upkeep.summon_types Upkeep.available_types Upkeep.bank
    Upkeep.reset_per_turn_summon_records Upkeep.ready_all Upkeep.draw_card Upkeep.produce_from
    Upkeep.produce_mana Upkeep.begin_main_phase Effects.cannot_be_moved_by_opponent Effects.is_spell
    Effects.return_spell_from_discard Effects.return_spell_to_deck_top Effects.look_at_prizes
    Effects.swap_opposing_positions Effects.deal_damage Effects.heal Effects.draw_up_to
    Effects.draw_cards Effects.move_between Effects.move_summon Effects.swap_positions
    Effects.produce_mana_leaf Effects.ready_summon Effects.apply_leaf Effects.apply_leaves
    Triggers.card_at Triggers.matching_abilities Triggers.ability_at Triggers.fire_items
    Triggers.candidates Triggers.discover_front Triggers.discover_back Triggers.open_segment
    Triggers.fire Triggers.record_entry Triggers.movement_trigger Triggers.fire_queued
    Destruction.life_of Destruction.is_destroyed Destruction.destroyed_among
    Destruction.enqueue_destruction Destruction.check_players Destruction.check
    Destruction.discard_chain Destruction.discard_destroyed_chain Destruction.record_main_loss
    Destruction.recover_prize Destruction.answer_prize Destruction.promote_from_slot
    Destruction.promote_among Destruction.promote_bench_summon Destruction.answer_promotion
    Destruction.resolve_movement_consequences Turn.end_turn Turn.expire_cannot_be_moved_by_opponent
    Turn.begin_turn Turn.handover Turn.convert_coin Turn.answer_mana Turn.choose_mana_type
    Priority.declared Priority.declare_attack Priority.casting_of Priority.blocks
    Priority.attack_blocks Priority.blocked_by Priority.attack_responses_blocked Priority.casting
    Priority.cast_spell Priority.close_window Priority.move_priority Priority.pass
    Board.produced_types Board.signed Board.i32_wrap Board.i32_add Board.printed_delta
    Board.opposing_retreat_cost_delta Board.saturating_add_signed Board.played Board.play_summon
    Board.upgraded Board.upgrade_summon Board.retreated Board.retreat Skills.validate_move_summon
    Skills.validate_swap_positions Skills.validate_swap_opposing_positions Skills.validate_leaf
    Skills.validate_targets Skills.activated Skills.resolve_skill Skills.activate_skill
    Resolution.after_draw Resolution.execute_draw Resolution.execute Resolution.attacker_effects
    Resolution.resolve_attack Resolution.spell_effects Resolution.persists Resolution.place_card
    Resolution.resolve_spell Resolution.resolve_item Resolution.settle_bases
    Resolution.settle_segment Resolution.resolve_top_stack_item Resolution.drain_step
    Resolution.drain Apply.dispatch Apply.drain_outcome Apply.drain_result Apply.apply_playing
    Apply.apply_by_status Apply.apply Scenario.bench_summons Scenario.positioned_summons
    Scenario.chain_refs Scenario.player_card_refs Scenario.all_card_refs Scenario.check_unseen
    Scenario.check_no_duplicate_instances Scenario.check_known Scenario.check_every_def_known
    Scenario.form_of Scenario.check_climb Scenario.build_chain Scenario.build_summon_instance
    Scenario.build_position Scenario.build_bench Scenario.build_player_state
    Scenario.first_promotion Scenario.derive_pending Scenario.quiet_board Scenario.from_scenario
    Keys.ends_hyphen Keys.has_double_hyphen Keys.stable_key_syntax Keys.split_slash Keys.find
    Keys.insert Library.qualify_card Library.qualify_set Library.qualify_sets
    Library.qualified_cards Library.insert_unique_id Library.claim_cards Library.claim_abilities
    Library.claim_sets Library.reject_duplicate_ids Library.collect_records Library.all_entities
    Library.from_sets Library.set_revision Library.card_id Deck.require_stable_key Deck.parse_parts
    Deck.parse_qualified Deck.require_bound Deck.resolve_card Deck.form_in_library
    Deck.require_base_starter Deck.resolve_requirement Deck.resolve_requirements Deck.repeat_n
    Deck.resolve_item Deck.resolve_items Deck.resolve_body Deck.resolve
runs = (refl, refl, refl, refl, refl, refl, refl, refl)

pub start_runs : from_scenario pool described ≡ ok start
start_runs = runs.0

pub answered_runs :
    apply 40 start (GameAction.choose_promotion PlayerId.two BenchSlot.first) ≡ some (ok answered)
answered_runs =
    accepted_run (apply 40 start (GameAction.choose_promotion PlayerId.two BenchSlot.first)) runs.2

pub pool_untriggered : all prints_no_trigger pool.entities ≡ true
pool_untriggered = runs.3

pub shelf_runs : from_sets (base_set ∷ []) ≡ ok shelf
shelf_runs = runs.4

pub built_runs : resolve recipe shelf ≡ ok built
built_runs = runs.5

pub spelled_runs : parse spelled ≡ ok spelled_id
spelled_runs = runs.6

pub grown_stands : start.players.one.main ≡ some grown_summon
grown_stands = runs.7
