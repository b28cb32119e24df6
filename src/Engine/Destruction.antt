-- ===== src/Engine/Destruction.antt =====
-- crates/core/src/engine/destruction/mod.rs: destruction, Prize recovery and Promotion.
use summoners.Prelude.{
  ℕ, ◌+◌, Bool, true, false, Option, none, some, List, [], ◌∷◌, ◌++◌, get_elem?, remove_at, Result,
  ok, err, ◌>>=◌, ◌>>◌, guard, ok_or, leb, is_some, if◌then◌else◌,
}
use summoners.Prelude.Arrays.{get_at, set_at}
use summoners.Prelude.Words.{u8}
use summoners.Domain.Ids.{PlayerId, Position, BenchSlot, opponent, index, player_eq}
use summoners.Domain.Cards.{TriggerEvent}
use summoners.Domain.CardSet
use summoners.Domain.CardSet.{CardSet}
use summoners.Domain.Entity
use summoners.Domain.Entity.{Breakage, ComponentKind}
use summoners.Domain.Field
use summoners.Domain.Errors.{ActionError}
use summoners.Domain.State.{
  GameState, PlayerState, SummonInstance, MovementStep, PendingInput, WorkItem, get, top, layers,
  summon_at, set_summon, with_player, push_back, push_front, break_game,
}
use summoners.Domain.Events.{GameEvent}
use summoners.Engine.Outcome.{ActionOutcome}
use summoners.Engine.Upkeep.{occupied_slots}
use summoners.Engine.Triggers.{discover_front}

unfoldable pub life_of : CardSet → SummonInstance → Result ℕ Breakage
life_of cards summon = do
  entity ← ok_or (CardSet.get cards (top summon.chain).def) (record {
    rule = "destruction";
    entity = (top summon.chain).def;
    expected = ComponentKind.life;
  })
  Entity.demand Field.life entity "destruction"

unfoldable pub is_destroyed : GameState → PlayerId → Position → Result Bool Breakage
is_destroyed s player at = elim (summon_at (get s.players player) at) [
  | none ↦ ok false
  | some summon ↦ do life ← life_of s.cards summon; ok (leb life summon.damage)
]

abbrev pub ordered_players : GameState → List PlayerId
ordered_players s = opponent s.turn.active_player ∷ s.turn.active_player ∷ []

-- The loop of `destroyed_controller` over the players that are left.
unfoldable pub destroyed_among :
    GameState → Position → List PlayerId → Result (Option PlayerId) Breakage
destroyed_among s at [] = ok none
destroyed_among s at (player ∷ players) =
    let rest = destroyed_among s at players in
    do destroyed ← is_destroyed s player at; if destroyed then ok (some player) else rest

-- The fixed steps of one player's destruction at a position.
abbrev pub destruction_steps : PlayerId → Position → List WorkItem
destruction_steps player Position.main =
    WorkItem.discard_destroyed_chain Position.main
    ∷ WorkItem.record_main_loss player
    ∷ WorkItem.recover_prize player
    ∷ WorkItem.promote_bench_summon player
    ∷ WorkItem.resolve_movement_consequences player
    ∷ WorkItem.loss_check player
    ∷ []
destruction_steps player (Position.bench slot) =
    WorkItem.discard_destroyed_chain (Position.bench slot) ∷ WorkItem.loss_check player ∷ []

unfoldable pub enqueue_destruction : GameState → PlayerId → Position → GameState
enqueue_destruction s player at = push_back s (destruction_steps player at)

-- The loop of `check` over the players that are left.
unfoldable pub check_players : GameState → Position → List PlayerId → GameState × List GameEvent
check_players s at [] = (s, [])
check_players s at (player ∷ players) = elim (is_destroyed s player at) [
  | ok true ↦ check_players (enqueue_destruction s player at) at players
  | ok false ↦ check_players s at players
  | err breakage ↦ (break_game s breakage, [])
]

unfoldable pub check : GameState → Position → GameState × List GameEvent
unfolding check_players
check s at = check_players s at (ordered_players s)

-- `discard_destroyed_chain` for the Summon taken off its controller's board.
unfoldable pub discard_chain :
    GameState → Position → PlayerId → SummonInstance → GameState × List GameEvent
discard_chain s at controller summon =
    let taken = with_player s controller (set_summon (get s.players controller) at none) in
    let owned = get taken.players summon.owner in
    let discarded =
      with_player taken summon.owner
        (record owned { discard = owned.discard ++ layers summon.chain }) in
    (
      discover_front discarded (ordered_players discarded) TriggerEvent.any_summon_destroyed,
      GameEvent.summon_destroyed at summon.owner ∷ [],
    )

unfoldable pub discard_destroyed_chain : GameState → Position → GameState × List GameEvent
unfolding destroyed_among discard_chain
discard_destroyed_chain s at = elim (destroyed_among s at (ordered_players s)) [
  | err breakage ↦ (break_game s breakage, [])
  | ok none ↦ (s, [])
  | ok (some controller) ↦ elim (summon_at (get s.players controller) at) [
    | none ↦ (s, [])
    | some summon ↦ discard_chain s at controller summon
  ]
]

-- `+= 1` on a u8: it wraps in a release build.
unfoldable pub record_main_loss : GameState → PlayerId → GameState × List GameEvent
record_main_loss s player =
    let ps = get s.players player in
    (with_player s player (record ps { main_losses = u8 (ps.main_losses + 1) }), [])

unfoldable pub recover_prize : GameState → PlayerId → GameState × List GameEvent
recover_prize s player = elim (get s.players player).prizes [
  | [] ↦ (s, [])
  | _ ∷ _ ↦ (record s { pending = some (PendingInput.prize_pick (opponent player)) }, [])
]

-- `matches!(pending, Some(PrizePick { chooser }) if chooser == player)`, and so for a Promotion.
abbrev pub awaits_prize : Option PendingInput → PlayerId → Bool
awaits_prize (some (PendingInput.prize_pick chooser)) player = player_eq chooser player
awaits_prize _ player = false

abbrev pub awaits_promotion : Option PendingInput → PlayerId → Bool
awaits_promotion (some (PendingInput.promotion waiting)) player = player_eq waiting player
awaits_promotion _ player = false

-- `get_elem?` fails exactly where `prize_index >= prizes.len()`.
unfoldable pub answer_prize : GameState → PlayerId → ℕ → Result ActionOutcome ActionError
answer_prize s player prize_index = do
  guard (awaits_prize s.pending player) ActionError.pending_input_mismatch
  let recovering = opponent player
  let ps = get s.players recovering
  card ← ok_or (get_elem? ps.prizes prize_index) ActionError.invalid_target
  ok (record {
    state =
        record (with_player s recovering
          (record ps { prizes = remove_at prize_index ps.prizes; hand = ps.hand ++ card ∷ [] })) {
            pending = none;
          };
    events = GameEvent.prize_recovered recovering card.instance_id ∷ [];
  })

-- Main is written whatever stands there.
abbrev pub promote : PlayerState → BenchSlot → SummonInstance → PlayerState
promote ps slot summon = record ps { main = some summon; bench = set_at ps.bench (index slot) none }

unfoldable pub promote_from_slot : GameState → PlayerId → BenchSlot → GameState × List GameEvent
promote_from_slot s player slot = elim (get_at (get s.players player).bench (index slot)) [
  | none ↦ (s, [])
  | some summon ↦ (
    with_player s player (promote (get s.players player) slot summon),
    GameEvent.summon_promoted player slot ∷ [],
  )
]

unfoldable pub promote_among : GameState → PlayerId → List BenchSlot → GameState × List GameEvent
promote_among s player [] = (s, [])
promote_among s player (slot ∷ []) = promote_from_slot s player slot
promote_among s player (_ ∷ _ ∷ _) =
    (record s { pending = some (PendingInput.promotion player) }, [])

unfoldable pub promote_bench_summon : GameState → PlayerId → GameState × List GameEvent
unfolding promote_among
promote_bench_summon s player = promote_among s player (occupied_slots (get s.players player))

unfoldable pub answer_promotion :
    GameState → PlayerId → BenchSlot → Result ActionOutcome ActionError
answer_promotion s player slot = do
  guard (awaits_promotion s.pending player) ActionError.pending_input_mismatch
  guard (is_some (get_at (get s.players player).bench (index slot))) ActionError.empty_position
  let (promoted, events) = promote_from_slot s player slot
  ok (record { state = record promoted { pending = none }; events = events })

unfoldable pub resolve_movement_consequences : GameState → PlayerId → GameState × List GameEvent
resolve_movement_consequences s player =
    if is_some (get s.players player).main
    then (
      push_front s (
          WorkItem.movement_trigger MovementStep.leaving_bench player Position.main
          ∷ WorkItem.movement_trigger MovementStep.entering_main player Position.main
          ∷ []),
      [],
    )
    else (s, [])
