-- ===== src/Engine/Board.antt =====
-- crates/core/src/engine/board/mod.rs: playing, upgrading and retreating a Summon.
use summoners.Prelude.{
  ℕ, suc, ◌-◌, ◌%◌, Bool, true, false, ◌||◌, not, Option, none, some, List, [], ◌∷◌, ◌++◌, any, all,
  remove_at, Result, ok, err, ◌>>=◌, ◌>>◌, guard, ok_or, is_some, ltb, if◌then◌else◌,
}
use summoners.Prelude.Int.{ℤ, pos, negsuc, ◌+ℤ◌}
use summoners.Prelude.Arrays.{get_at, set_at}
use summoners.Prelude.Words.{saturating_add}
use summoners.Domain.Ids.{
  PlayerId, CardInstanceId, Position, BenchSlot, ManaType, opponent, index, mana_type_eq,
}
use summoners.Domain.Cards.{CardKind, Cost, Form, Modifier, form_lt, form_is_base}
use summoners.Domain.CardSet
use summoners.Domain.Entity
use summoners.Domain.Entity.{Entity}
use summoners.Domain.Field
use summoners.Domain.Errors.{ActionError}
use summoners.Domain.State.{
  GameState, SummonInstance, UpgradeActivity, Readiness, CardRef, get, top, summon_at, set_summon,
  with_player, push_back,
}
use summoners.Domain.Events.{GameEvent}
use summoners.Engine.Outcome.{ActionOutcome, require_free_main_phase, pay, deduction_events}
use summoners.Engine.Payment.{Payment}
use summoners.Engine.Priority.{in_hand}
use summoners.Engine.Effects.{exchange, exchange_steps}

unfoldable pub produced_types : Entity → List ManaType
produced_types e = elim (Entity.get Field.produces e) [ none ↦ [] | some types ↦ types ]

-- The i32 that a 32-bit pattern stands for, and the wrap of an integer to it.
unfoldable pub signed : ℕ → ℤ
signed r = if ltb r 2147483648 then pos r else negsuc (4294967295 - r)

unfoldable pub i32_wrap : ℤ → ℤ
unfolding signed
i32_wrap (pos n) = signed (n % 4294967296)
i32_wrap (negsuc n) = signed (4294967295 - n % 4294967296)

-- A sum of two i32, with the wrap of a release build.
unfoldable pub i32_add : ℤ → ℤ → ℤ
unfolding i32_wrap
i32_add a b = i32_wrap (a +ℤ b)

-- The delta that the topmost card of one opposing Summon prints, by its first Passive.
unfoldable pub printed_delta : GameState → Option SummonInstance → ℤ
printed_delta s none = pos 0
printed_delta s (some summon) = elim (CardSet.get s.cards (top summon.chain).def) [
  | none ↦ pos 0
  | some e ↦ elim (Entity.get Field.passive e) [
    | some (Modifier.opposing_retreat_cost_delta delta) ↦ delta
    | some (Modifier.incoming_attack_damage_reduction _) ↦ pos 0
    | none ↦ pos 0
  ]
]

unfoldable pub opposing_retreat_cost_delta : GameState → PlayerId → ℤ
unfolding i32_add printed_delta
opposing_retreat_cost_delta s player =
    let ps = get s.players (opponent player) in
    i32_add
      (i32_add (i32_add (i32_add (pos 0) (printed_delta s ps.main)) (printed_delta s ps.bench.at0))
        (printed_delta s ps.bench.at1))
      (printed_delta s ps.bench.at2)

-- `u32::saturating_add_signed`.
unfoldable pub saturating_add_signed : ℕ → ℤ → ℕ
saturating_add_signed a (pos n) = saturating_add a n
saturating_add_signed a (negsuc n) = a - suc n

abbrev pub is_summon_kind : CardKind → Bool
is_summon_kind CardKind.summon = true
is_summon_kind _ = false

abbrev pub prints_base : Option Form → Bool
prints_base none = false
prints_base (some f) = form_is_base f

abbrev pub played_summon : PlayerId → CardRef → SummonInstance
played_summon player card = record {
  chain = record { base = card; rest = [] };
  damage = 0;
  readiness = Readiness.exhausted;
  owner = player;
  controller = player;
  duration_markers = [];
  turn = record { upgrade = UpgradeActivity.played_this_turn; main_entry = none };
}

unfoldable pub played : GameState → PlayerId → ℕ → CardRef → BenchSlot → GameState
played s player hand_index card slot =
    let ps = get s.players player in
    with_player s player (record ps {
      hand = remove_at hand_index ps.hand;
      bench = set_at ps.bench (index slot) (some (played_summon player card));
    })

unfoldable pub play_summon :
    GameState → PlayerId → CardInstanceId → BenchSlot → Result ActionOutcome ActionError
play_summon s player card slot = do
  require_free_main_phase s
  guard (not (is_some (get_at (get s.players player).bench (index slot))))
      ActionError.invalid_target
  found ← ok_or (in_hand card (get s.players player).hand) ActionError.unknown_card
  entity ← ok_or (CardSet.get s.cards (found.1).def) ActionError.unknown_card
  guard
      (not (
        not (is_summon_kind (Field.family entity))
        || not (prints_base (Entity.get Field.form entity))))
      ActionError.unknown_card
  ok (record {
    state = played s player found.0 found.1 slot;
    events = GameEvent.summon_played player card slot ∷ [];
  })

-- `match summon.turn.upgrade`.
abbrev pub may_upgrade : UpgradeActivity → Result (Unit {0}) ActionError
may_upgrade UpgradeActivity.available = ok tt
may_upgrade UpgradeActivity.played_this_turn = err ActionError.played_this_turn
may_upgrade UpgradeActivity.upgraded_this_turn = err ActionError.already_upgraded_this_turn

abbrev pub types_carry_forward : List ManaType → List ManaType → Bool
types_carry_forward top_types new_types = all (λ t. any (mana_type_eq t) new_types) top_types

abbrev pub upgraded_summon : SummonInstance → CardRef → SummonInstance
upgraded_summon summon card = record summon {
  chain = record (summon.chain) { rest = summon.chain.rest ++ card ∷ [] };
  readiness = Readiness.exhausted;
  turn = record (summon.turn) { upgrade = UpgradeActivity.upgraded_this_turn };
}

unfoldable pub upgraded : GameState → PlayerId → ℕ → CardRef → Position → SummonInstance → GameState
upgraded s player hand_index card at summon =
    let ps = get s.players player in
    with_player s player (
      set_summon (record ps { hand = remove_at hand_index ps.hand }) at
        (some (upgraded_summon summon card)))

unfoldable pub upgrade_summon :
    GameState → PlayerId → CardInstanceId → Position → Result ActionOutcome ActionError
upgrade_summon s player card at = do
  require_free_main_phase s
  summon ← ok_or (summon_at (get s.players player) at) ActionError.empty_position
  may_upgrade summon.turn.upgrade
  found ← ok_or (in_hand card (get s.players player).hand) ActionError.unknown_card
  entity ← ok_or (CardSet.get s.cards (found.1).def) ActionError.unknown_card
  guard (is_summon_kind (Field.family entity)) ActionError.unknown_card
  new_form ← ok_or (Entity.get Field.form entity) ActionError.unknown_card
  top_entity ← ok_or (CardSet.get s.cards (top summon.chain).def) ActionError.unknown_card
  top_form ← ok_or (Entity.get Field.form top_entity) ActionError.unknown_card
  guard
      (not (
        not (form_lt top_form new_form)
        || not (types_carry_forward (produced_types top_entity) (produced_types entity))))
      ActionError.illegal_upgrade_target
  ok (record {
    state = upgraded s player found.0 found.1 at summon;
    events = GameEvent.summon_upgraded player card at ∷ [];
  })

abbrev pub retreat_price : GameState → PlayerId → ℕ → Cost
retreat_price s player printed = record {
  matter = 0;
  mind = 0;
  spirit = 0;
  generic = saturating_add_signed printed (opposing_retreat_cost_delta s player);
}

unfoldable pub retreated :
    GameState → PlayerId → BenchSlot → Payment → SummonInstance → SummonInstance → GameState
retreated s player slot payment vacating incoming =
    push_back
      (with_player (record s { turn = record (s.turn) { normal_retreat_used = true } }) player
        (exchange (record (get s.players player) { mana = payment.bank }) slot vacating incoming))
      (exchange_steps player slot)

unfoldable pub retreat :
    GameState → PlayerId → BenchSlot → Option ManaType → Result ActionOutcome ActionError
retreat s player slot hint = do
  require_free_main_phase s
  guard (not s.turn.normal_retreat_used) ActionError.normal_retreat_already_used
  vacating ← ok_or (get s.players player).main ActionError.empty_position
  incoming ← ok_or (get_at (get s.players player).bench (index slot)) ActionError.empty_position
  top_entity ← ok_or (CardSet.get s.cards (top vacating.chain).def) ActionError.unknown_card
  printed ← ok_or (Entity.get Field.retreat_cost top_entity) ActionError.unknown_card
  payment ← pay (get s.players player) (retreat_price s player printed) hint
  ok (record {
    state = retreated s player slot payment vacating incoming;
    events =
        deduction_events player payment.deductions ++ GameEvent.summons_swapped player slot ∷ [];
  })
