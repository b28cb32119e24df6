-- ===== src/Engine/Effects.antt =====
-- crates/core/src/engine/effects/mod.rs: the `EffectLeaf` interpreter, and `apply_leaves` of
-- engine/resolution/mod.rs, which runs a list of leaves.
use summoners.Prelude.{
  ℕ, zero, suc, ◌-◌, Bool, true, false, Option, none, some, List, [], ◌∷◌, ◌++◌, map, position,
  remove_at, first, length, min, ltb, is_some, if◌then◌else◌,
}
use summoners.Prelude.Arrays.{get_at, set_at}
use summoners.Domain.Ids.{PlayerId, Position, BenchSlot, opponent, index}
use summoners.Domain.Cards.{
  EffectLeaf, EffectSource, EffectTarget, DamageEffect, CardKind, source_controller,
  source_position,
}
use summoners.Domain.CardSet
use summoners.Domain.CardSet.{CardSet}
use summoners.Domain.Field
use summoners.Domain.State.{
  GameState, PlayerState, SummonInstance, CardRef, DurationMarker, ManaSource, MovementStep,
  WorkItem, get, summon_at, set_summon, with_player, push_back, is_playing,
}
use summoners.Domain.Events.{GameEvent, from_effect_source}
use summoners.Engine.Damage.{evaluate, commit}
use summoners.Engine.Loss.{draw_failure}
use summoners.Engine.Upkeep.{produce_mana, draw_top, make_ready}

abbrev pub effect_position : EffectSource → List Position → EffectTarget → Option Position
effect_position source selected EffectTarget.selected = first selected
effect_position source selected EffectTarget.source = source_position source

-- `duration_markers.contains(..)`: the marker has one value.
abbrev pub has_marker : List DurationMarker → Bool
has_marker [] = false
has_marker (_ ∷ _) = true

abbrev pub mark : SummonInstance → SummonInstance
mark summon = if has_marker summon.duration_markers then summon else record summon {
  duration_markers = summon.duration_markers ++ DurationMarker.cannot_be_moved_by_opponent ∷ [];
}

-- A write through `summon_at_mut`, or nothing where the position is empty.
abbrev pub update_summon :
    GameState
    → PlayerId
    → Position
    → (SummonInstance → SummonInstance)
    → List GameEvent
    → GameState × List GameEvent
update_summon s player at f events = elim (summon_at (get s.players player) at) [
  | none ↦ (s, [])
  | some summon ↦
      (with_player s player (set_summon (get s.players player) at (some (f summon))), events)
]

unfoldable pub cannot_be_moved_by_opponent :
    GameState → PlayerId → Option Position → GameState × List GameEvent
cannot_be_moved_by_opponent s controller none = (s, [])
cannot_be_moved_by_opponent s controller (some at) = update_summon s controller at mark []

-- `cards.get(def).is_some_and(|entity| family(entity) == CardKind::Spell)`.
abbrev pub is_spell_kind : CardKind → Bool
is_spell_kind CardKind.spell = true
is_spell_kind _ = false

unfoldable pub is_spell : CardSet → CardRef → Bool
is_spell cards c = elim (CardSet.get cards c.def) [
  | none ↦ false
  | some e ↦ is_spell_kind (Field.family e)
]

unfoldable pub return_spell_from_discard : GameState → PlayerId → GameState × List GameEvent
return_spell_from_discard s controller =
    let ps = get s.players controller in
    elim (position (is_spell s.cards) ps.discard) [
      | none ↦ (s, [])
      | some (i, card) ↦ (
        with_player s controller
            (record ps { discard = remove_at i ps.discard; hand = ps.hand ++ card ∷ [] }),
        [],
      )
    ]

unfoldable pub return_spell_to_deck_top : GameState → PlayerId → GameState × List GameEvent
return_spell_to_deck_top s controller =
    let ps = get s.players controller in
    elim (position (is_spell s.cards) ps.hand) [
      | none ↦ (s, [])
      | some (i, card) ↦ (
        with_player s controller (record ps { hand = remove_at i ps.hand; deck = card ∷ ps.deck }),
        [],
      )
    ]

unfoldable pub look_at_prizes : GameState → PlayerId → GameState × List GameEvent
look_at_prizes s controller = (
  s,
  GameEvent.prizes_viewed controller
        (map (λ (c : CardRef). c.instance_id) (get s.players controller).prizes)
      ∷ [],
)

-- The four movement triggers of an exchange of Main and a Bench slot, in their fixed order.
abbrev pub exchange_steps : PlayerId → BenchSlot → List WorkItem
exchange_steps player slot =
    WorkItem.movement_trigger MovementStep.leaving_main player (Position.bench slot)
    ∷ WorkItem.movement_trigger MovementStep.entering_bench player (Position.bench slot)
    ∷ WorkItem.movement_trigger MovementStep.leaving_bench player Position.main
    ∷ WorkItem.movement_trigger MovementStep.entering_main player Position.main
    ∷ []

abbrev pub exchange : PlayerState → BenchSlot → SummonInstance → SummonInstance → PlayerState
exchange ps slot vacating incoming = record ps {
  main = some incoming;
  bench = set_at ps.bench (index slot) (some vacating);
}

-- The exchange where both places hold a Summon.
abbrev pub swap_main : GameState → PlayerId → BenchSlot → GameState × List GameEvent
swap_main s player slot = elim ((get s.players player).main) [
  | none ↦ (s, [])
  | some vacating ↦ elim (get_at (get s.players player).bench (index slot)) [
    | none ↦ (s, [])
    | some incoming ↦ (
      push_back (with_player s player (exchange (get s.players player) slot vacating incoming))
          (exchange_steps player slot),
      GameEvent.summons_swapped player slot ∷ [],
    )
  ]
]

unfoldable pub swap_opposing_positions :
    GameState → PlayerId → List Position → GameState × List GameEvent
swap_opposing_positions s controller [] = (s, [])
swap_opposing_positions s controller (Position.main ∷ _) = (s, [])
swap_opposing_positions s controller (Position.bench slot ∷ _) =
    elim ((get s.players (opponent controller)).main) [
      | none ↦ (s, [])
      | some vacating ↦
          if has_marker vacating.duration_markers
          then (s, [])
          else swap_main s (opponent controller) slot
    ]

unfoldable pub deal_damage :
    GameState → EffectSource → List Position → DamageEffect → GameState × List GameEvent
deal_damage s source [] effect = (s, [])
deal_damage s source (at ∷ _) effect = commit s (
    evaluate s (record {
      context = record {
        source = from_effect_source source;
        target = record { controller = opponent (source_controller source); position = at };
      };
      effect = effect;
    }))

unfoldable pub heal : GameState → PlayerId → Option Position → ℕ → GameState × List GameEvent
heal s controller none amount = (s, [])
heal s controller (some at) amount = elim (summon_at (get s.players controller) at) [
  | none ↦ (s, [])
  | some summon ↦ (
    with_player s controller (
        set_summon (get s.players controller) at
          (some (record summon { damage = summon.damage - min amount summon.damage }))),
    GameEvent.healed at (min amount summon.damage) ∷ [],
  )
]

-- The loop of `draw_cards`: the round stops at an empty Deck.
unfoldable pub draw_up_to : ℕ → PlayerId → List CardRef → PlayerState → PlayerState × List GameEvent
draw_up_to zero controller deck ps = (ps, [])
draw_up_to (suc n) controller [] ps = (ps, [])
draw_up_to (suc n) controller (card ∷ deck) ps =
    let (ps', events) = draw_up_to n controller deck (draw_top ps card deck) in
    (ps', GameEvent.card_drawn controller card.instance_id ∷ events)

unfoldable pub draw_cards : GameState → PlayerId → ℕ → GameState × List GameEvent
unfolding draw_up_to
draw_cards s controller amount =
    let ps = get s.players controller in
    let (ps', events) = draw_up_to amount controller ps.deck ps in
    let drawn = with_player s controller ps' in
    if ltb (length ps.deck) amount
    then (let (lost, loss_events) = draw_failure drawn controller in (lost, events ++ loss_events))
    else (drawn, events)

-- A Bench Summon moves to an empty slot; both steps name the slot where it now is.
unfoldable pub move_between :
    GameState → PlayerId → BenchSlot → BenchSlot → GameState × List GameEvent
move_between s controller from to =
    let ps = get s.players controller in
    if is_some (get_at ps.bench (index to))
    then (s, [])
    else elim (get_at ps.bench (index from)) as (λ _. GameState × List GameEvent) [
      | none ↦ (s, [])
      | some summon ↦ (
        push_back
            (with_player s controller (record ps {
              bench = set_at (set_at ps.bench (index from) none) (index to) (some summon);
            }))
            (WorkItem.movement_trigger MovementStep.leaving_bench controller (Position.bench to)
              ∷ WorkItem.movement_trigger MovementStep.entering_bench controller (Position.bench to)
              ∷ []),
        [],
      )
    ]

unfoldable pub move_summon : GameState → PlayerId → List Position → GameState × List GameEvent
move_summon s controller (Position.bench from ∷ Position.bench to ∷ _) =
    move_between s controller from to
move_summon s controller _ = (s, [])

unfoldable pub swap_positions : GameState → PlayerId → List Position → GameState × List GameEvent
swap_positions s controller (Position.bench slot ∷ _) = swap_main s controller slot
swap_positions s controller _ = (s, [])

unfoldable pub produce_mana_leaf :
    GameState → PlayerId → Option Position → GameState × List GameEvent
produce_mana_leaf s controller none = (s, [])
produce_mana_leaf s controller (some at) = produce_mana s controller (ManaSource.summon at)

unfoldable pub ready_summon : GameState → PlayerId → List Position → GameState × List GameEvent
ready_summon s controller [] = (s, [])
ready_summon s controller (at ∷ _) =
    update_summon s controller at make_ready (GameEvent.summons_readied controller (at ∷ []) ∷ [])

unfoldable pub apply_leaf :
    GameState → EffectSource → List Position → EffectLeaf → GameState × List GameEvent
apply_leaf s source targets (EffectLeaf.deal_damage effect) = deal_damage s source targets effect
apply_leaf s source targets (EffectLeaf.heal amount target) =
    heal s (source_controller source) (effect_position source targets target) amount
apply_leaf s source targets (EffectLeaf.draw_cards amount) =
    draw_cards s (source_controller source) amount
apply_leaf s source targets EffectLeaf.move_summon =
    move_summon s (source_controller source) targets
apply_leaf s source targets EffectLeaf.swap_positions =
    swap_positions s (source_controller source) targets
apply_leaf s source targets (EffectLeaf.produce_mana target) =
    produce_mana_leaf s (source_controller source) (effect_position source targets target)
apply_leaf s source targets EffectLeaf.ready_summon =
    ready_summon s (source_controller source) targets
apply_leaf s source targets (EffectLeaf.cannot_be_moved_by_opponent target) =
    cannot_be_moved_by_opponent s (source_controller source) (effect_position source targets target)
apply_leaf s source targets EffectLeaf.return_spell_from_discard =
    return_spell_from_discard s (source_controller source)
apply_leaf s source targets EffectLeaf.return_spell_to_deck_top =
    return_spell_to_deck_top s (source_controller source)
apply_leaf s source targets EffectLeaf.swap_opposing_positions =
    swap_opposing_positions s (source_controller source) targets
apply_leaf s source targets EffectLeaf.look_at_prizes = look_at_prizes s (source_controller source)
apply_leaf s source targets (EffectLeaf.block_responses _ _) = (s, [])

-- `apply_leaves` of engine/resolution/mod.rs: the leaves in order, until the match stops.
unfoldable pub apply_leaves :
    GameState → EffectSource → List Position → List EffectLeaf → GameState × List GameEvent
apply_leaves s source targets [] = (s, [])
apply_leaves s source targets (leaf ∷ leaves) =
    let (s', events) = apply_leaf s source targets leaf in
    let (s'', later) = apply_leaves s' source targets leaves in
    if is_playing s'.status then (s'', events ++ later) else (s', events)
