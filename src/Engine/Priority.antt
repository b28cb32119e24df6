-- ===== src/Engine/Priority.antt =====
-- crates/core/src/engine/stack/mod.rs: Priority windows, passing, the normal attack and Spells.
use summoners.Prelude.{
  ℕ, ◌-◌, Bool, true, false, ◌||◌, ◌&&◌, not, Option, none, some, List, [], ◌∷◌, ◌++◌, any, find,
  take, position, remove_at, length, Result, ok, ◌>>=◌, ◌>>◌, guard, ok_or, is_some, if◌then◌else◌,
}
use summoners.Domain.Ids.{
  PlayerId, CardInstanceId, Position, ManaType, opponent, player_eq, is_main,
}
use summoners.Prelude.{◌==◌}
use summoners.Domain.Cards.{CardKind, Cost, EffectLeaf, SpellTiming, free}
use summoners.Domain.CardSet
use summoners.Domain.Entity
use summoners.Domain.Entity.{Entity}
use summoners.Domain.Field
use summoners.Domain.Errors.{ActionError}
use summoners.Domain.State.{
  GameState, Phase, StackItem, CardRef, get, put, top, with_player, is_main_phase,
}
use summoners.Domain.Events.{GameEvent}
use summoners.Engine.Damage.{condition_holds}
use summoners.Engine.Outcome.{ActionOutcome, pay, deduction_events}
use summoners.Engine.Payment.{Payment}
use summoners.Engine.Triggers.{window_after_play}
use summoners.Engine.Turn.{handover, holds_priority, resting_in_own_main}

-- `get::<Cost>().copied().unwrap_or_default()`.
abbrev pub cost_of : Entity → Cost
cost_of e = elim (Entity.get Field.cost e) [ none ↦ free | some c ↦ c ]

-- The state of a declared attack, before the cost is written.
unfoldable pub declared : GameState → PlayerId → Position → Payment → GameState
declared s player target payment =
    with_player
      (record s {
        turn = record (s.turn) {
          normal_attack_used = true;
          phase = Phase.combat;
          window = some (window_after_play player);
        };
        stack = StackItem.attack player target ∷ s.stack;
      })
      player (record (get s.players player) { mana = payment.bank })

unfoldable pub declare_attack :
    GameState → PlayerId → Position → Option ManaType → Result ActionOutcome ActionError
declare_attack s player target hint = do
  guard (not (is_some s.pending)) ActionError.pending_input_mismatch
  guard (not s.turn.normal_attack_used) ActionError.normal_attack_already_used
  guard (not (not (is_main_phase s.turn.phase) || is_some s.turn.window)) ActionError.wrong_phase
  guard (is_main target) ActionError.invalid_target
  summon ← ok_or (get s.players player).main ActionError.empty_position
  top_entity ← ok_or (CardSet.get s.cards (top summon.chain).def) ActionError.unknown_card
  attack ← ok_or (Entity.get Field.attack top_entity) ActionError.unknown_card
  payment ← pay (get s.players player) (cost_of attack) hint
  ok (record {
    state = declared s player target payment;
    events =
        deduction_events player payment.deductions ++ GameEvent.attack_declared player target ∷ [];
  })

-- The timing and the cost that a card of each family is cast with; `none` is uncastable.
unfoldable pub casting_of : Entity → CardKind → Option (SpellTiming × Cost)
casting_of e CardKind.spell = elim (Entity.get Field.timing e) [
  | none ↦ none
  | some timing ↦ some (timing, cost_of e)
]
casting_of e CardKind.enchantment = some (SpellTiming.support, cost_of e)
casting_of e CardKind.summon = none

abbrev pub legal_timing : SpellTiming → Bool → Bool → Bool
legal_timing SpellTiming.support resting holds = resting || holds
legal_timing SpellTiming.attack resting holds = holds

abbrev pub is_attack_timing : SpellTiming → Bool
is_attack_timing SpellTiming.attack = true
is_attack_timing SpellTiming.support = false

abbrev pub is_attack_item : StackItem → Bool
is_attack_item (StackItem.attack _ _) = true
is_attack_item _ = false

-- `stack_segment_bases.last().copied().unwrap_or(0)`.
abbrev pub current_base : List ℕ → ℕ
current_base [] = 0
current_base (base ∷ _) = base

-- The items above the current segment base, top first.
abbrev pub current_segment : GameState → List StackItem
current_segment s = take (length s.stack - current_base s.stack_segment_bases) s.stack

unfoldable pub blocks : GameState → PlayerId → Position → EffectLeaf → Bool
blocks s attacker target (EffectLeaf.block_responses condition block) =
    condition_holds s attacker (target ∷ []) condition
blocks s attacker target _ = false

-- Whether the attack prints a block whose condition holds.
unfoldable pub attack_blocks : GameState → PlayerId → Position → Bool
unfolding blocks
attack_blocks s attacker target = elim ((get s.players attacker).main) [
  | none ↦ false
  | some summon ↦ elim (CardSet.get s.cards (top summon.chain).def) [
    | none ↦ false
    | some top_entity ↦ elim (Entity.get Field.attack top_entity) [
      | none ↦ false
      | some attack ↦ any (blocks s attacker target) (Entity.all Field.effect attack)
    ]
  ]
]

unfoldable pub blocked_by : GameState → Option StackItem → Bool
blocked_by s (some (StackItem.attack attacker target)) = attack_blocks s attacker target
blocked_by s _ = false

unfoldable pub attack_responses_blocked : GameState → Bool
unfolding blocked_by
attack_responses_blocked s = blocked_by s (find is_attack_item (current_segment s))

-- The state of a cast card: paid, out of the hand, on the Stack, a window open.
unfoldable pub casting : GameState → PlayerId → ℕ → CardRef → List Position → Payment → GameState
casting s player hand_index card targets payment =
    with_player
      (record s {
        turn = record (s.turn) {
          window = some (window_after_play player);
          spell_played_this_turn = put s.turn.spell_played_this_turn player true;
        };
        stack = StackItem.spell player card targets ∷ s.stack;
      })
      player
      (record (get s.players player) {
        mana = payment.bank;
        hand = remove_at hand_index (get s.players player).hand;
      })

-- `hand.iter().position(|c| c.instance == card)` and the card there.
abbrev pub in_hand : CardInstanceId → List CardRef → Option (ℕ × CardRef)
in_hand card = position (λ (c : CardRef). c.instance_id == card)

unfoldable pub cast_spell :
    GameState
    → PlayerId
    → CardInstanceId
    → List Position
    → Option ManaType
    → Result ActionOutcome ActionError
cast_spell s player card targets hint = do
  guard (not (is_some s.pending)) ActionError.pending_input_mismatch
  found ← ok_or (in_hand card (get s.players player).hand) ActionError.unknown_card
  entity ← ok_or (CardSet.get s.cards (found.1).def) ActionError.unknown_card
  cast ← ok_or (casting_of entity (Field.family entity)) ActionError.unknown_card
  guard (legal_timing cast.0 (resting_in_own_main s player) (holds_priority s.turn.window player))
      ActionError.wrong_phase
  guard
      (not (
        is_attack_timing cast.0
        && holds_priority s.turn.window player
        && attack_responses_blocked s))
      ActionError.wrong_phase
  payment ← pay (get s.players player) cast.1 hint
  ok (record {
    state = casting s player found.0 found.1 targets payment;
    events =
        deduction_events player payment.deductions ++ GameEvent.spell_cast player card targets ∷ [];
  })

-- The second pass in a row: the window closes, and an empty Stack hands the turn over.
unfoldable pub close_window : GameState → PlayerId → ActionOutcome
close_window s player =
    let closed = record s { turn = record (s.turn) { window = none } } in
    elim closed.stack [
      | [] ↦
          (let next = handover closed in
            record { state = next.state; events = GameEvent.priority_passed player ∷ next.events })
      | _ ∷ _ ↦ record { state = closed; events = GameEvent.priority_passed player ∷ [] }
    ]

-- The first pass: Priority moves to the other player.
unfoldable pub move_priority : GameState → PlayerId → ActionOutcome
move_priority s player = record {
  state = record s {
    turn = record (s.turn) {
      window = some (record { holder = opponent player; prior_pass = true });
    };
  };
  events = GameEvent.priority_passed player ∷ [];
}

unfoldable pub pass : GameState → PlayerId → Result ActionOutcome ActionError
pass s player = do
  guard (not (is_some s.pending)) ActionError.pending_input_mismatch
  window ← ok_or s.turn.window ActionError.wrong_phase
  guard (player_eq window.holder player) ActionError.not_your_decision
  ok (if window.prior_pass then close_window s player else move_priority s player)
