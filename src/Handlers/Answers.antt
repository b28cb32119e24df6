-- ===== src/Handlers/Answers.antt =====
-- The handlers of engine/turn.rs, and the answers to a paused decision.
use summoners.Prelude.{
  ℕ, ◌≡◌, true, false, none, some, [], ◌∷◌, ◌++◌, ok, guard, ok_or, guard-eq-ok, ok_or-eq-ok,
  >>=-eq-ok, not, is_some, is_some-none, is_none, not_or_first, not_or_second, not_and, ◌||◌, ◌&&◌,
  arith, any, get_elem?, remove_at, Option-cases, inl, inr,
}
use summoners.Prelude.Arrays.{get_at}
use summoners.Domain.Ids.{PlayerId, BenchSlot, ManaType, index, opponent, player_eq, mana_type_eq}
use summoners.Domain.Errors.{ActionError}
use summoners.Domain.State.{GameState, CardRef, ManaSource, get, with_player}
use summoners.Engine.Outcome.{ActionOutcome}
use summoners.Engine.Upkeep.{anchor_types, available_types, bank}
use summoners.Engine.Triggers.{window_after_play}
use summoners.Engine.Turn
use summoners.Engine.Turn.{holds_priority, resting_in_own_main, may_end, awaited_mana}
use summoners.Engine.Destruction
use summoners.Engine.Destruction.{awaits_prize, awaits_promotion}

pub record Ends (s : GameState) (p : PlayerId) (o : ActionOutcome) : Type 0 where
  pub settled : s.pending ≡ none
  pub no_window : s.turn.window ≡ none
  pub phase : may_end s.turn.phase ≡ true
  pub active : player_eq p s.turn.active_player ≡ true
  pub outcome : o ≡ record {
    state = record s { turn = record (s.turn) { window = some (window_after_play p) } };
    events = [];
  }

pub end_turn-eq-ok :
    (s : GameState) (p : PlayerId) {o : ActionOutcome} → Turn.end_turn s p ≡ ok o → Ends s p o
unfolding Turn.end_turn
end_turn-eq-ok s p h =
    let (_, a, h1) =
      >>=-eq-ok
        (guard
          (not (
            is_some s.pending
            || is_some s.turn.window
            || not (may_end s.turn.phase)
            || not (player_eq p s.turn.active_player)))
          _)
        _ h in
    let legal = guard-eq-ok _ ActionError.wrong_phase a in
    record {
      settled = is_some-none _ (ground (arith, legal));
      no_window = is_some-none _ (ground (arith, legal));
      phase = ground (arith, legal);
      active = ground (arith, legal);
      outcome = cc;
    }

pub record Converts (s : GameState) (p : PlayerId) (t : ManaType) (o : ActionOutcome) : Type 0 where
  pub settled : s.pending ≡ none
  pub may_act : (resting_in_own_main s p || holds_priority s.turn.window p) ≡ true
  pub seat : player_eq p PlayerId.two ≡ true
  pub has_coin : is_none s.coin ≡ false
  pub anchored : any (mana_type_eq t) (anchor_types s.cards (get s.players p)) ≡ true
  pub state : o.state ≡ record (with_player s p (bank (get s.players p) t)) { coin = none }

pub convert_coin-eq-ok :
    (s : GameState) (p : PlayerId) (t : ManaType) {o : ActionOutcome}
    → Turn.convert_coin s p t ≡ ok o
    → Converts s p t o
unfolding Turn.convert_coin
convert_coin-eq-ok s p t h =
    let (_, a, h1) = >>=-eq-ok (guard (not (is_some s.pending)) _) _ h in
    let (_, b, h2) =
      >>=-eq-ok
        (guard (not (not (resting_in_own_main s p) && not (holds_priority s.turn.window p))) _) _
        h1 in
    let (_, c, h3) =
      >>=-eq-ok (guard (not (not (player_eq p PlayerId.two) || is_none s.coin)) _) _ h2 in
    let (_, d, h4) =
      >>=-eq-ok (guard (any (mana_type_eq t) (anchor_types s.cards (get s.players p))) _) _ h3 in
    let owner = guard-eq-ok _ ActionError.invalid_target c in
    record {
      settled = is_some-none _ (ground (arith, guard-eq-ok _ ActionError.wrong_phase a));
      may_act = not_and _ _ (guard-eq-ok _ ActionError.wrong_phase b);
      seat = not_or_first _ _ owner;
      has_coin = not_or_second _ _ owner;
      anchored = guard-eq-ok _ ActionError.invalid_target d;
      state = cc;
    }

pub record Chooses (s : GameState) (p : PlayerId) (t : ManaType) (o : ActionOutcome) : Type 0 where
  pub source : ManaSource
  pub awaited : awaited_mana s.pending p ≡ some source
  pub available : any (mana_type_eq t) (available_types s.cards (get s.players p) source) ≡ true
  pub state : o.state ≡ record (with_player s p (bank (get s.players p) t)) { pending = none }

pub choose_mana_type-eq-ok :
    (s : GameState) (p : PlayerId) (t : ManaType) {o : ActionOutcome}
    → Turn.choose_mana_type s p t ≡ ok o
    → Chooses s p t o
unfolding Turn.choose_mana_type
choose_mana_type-eq-ok s p t {o} h = elim (Option-cases (awaited_mana s.pending p)) [
  | inl e ↦ absurd (none_case e)
  | inr (source, e) ↦
      (let h' : Turn.answer_mana s p source t ≡ ok o = rw (e, Turn.choose_mana_type) at h in
        answered source e h')
]
  where
    none_case : awaited_mana s.pending p ≡ none → ⊥
    none_case e = ground (arith, e, h)

    answered :
        (source : ManaSource)
        → awaited_mana s.pending p ≡ some source
        → Turn.answer_mana s p source t ≡ ok o
        → Chooses s p t o
    answered source e h =
        let (_, a, h1) =
          >>=-eq-ok
            (guard (any (mana_type_eq t) (available_types s.cards (get s.players p) source)) _) _
            h in
        record {
          source = source;
          awaited = e;
          available = guard-eq-ok _ ActionError.invalid_target a;
          state = cc;
        }

pub record Promotes (s : GameState) (p : PlayerId) (slot : BenchSlot) (o : ActionOutcome)
    : Type 0 where
  pub awaited : awaits_promotion s.pending p ≡ true
  pub occupied : is_some (get_at (get s.players p).bench (index slot)) ≡ true
  pub state : o.state ≡ record ((Destruction.promote_from_slot s p slot).0) { pending = none }

pub answer_promotion-eq-ok :
    (s : GameState) (p : PlayerId) (slot : BenchSlot) {o : ActionOutcome}
    → Destruction.answer_promotion s p slot ≡ ok o
    → Promotes s p slot o
unfolding Destruction.answer_promotion
answer_promotion-eq-ok s p slot h =
    let (_, a, h1) = >>=-eq-ok (guard (awaits_promotion s.pending p) _) _ h in
    let (_, b, h2) =
      >>=-eq-ok (guard (is_some (get_at (get s.players p).bench (index slot))) _) _ h1 in
    record {
      awaited = guard-eq-ok _ ActionError.pending_input_mismatch a;
      occupied = guard-eq-ok _ ActionError.empty_position b;
      state = cc;
    }

pub record Recovers (s : GameState) (p : PlayerId) (prize_index : ℕ) (o : ActionOutcome)
    : Type 0 where
  pub awaited : awaits_prize s.pending p ≡ true
  pub card : CardRef
  pub chosen : get_elem? (get s.players (opponent p)).prizes prize_index ≡ some card
  pub state :
      o.state
      ≡ record (with_player s (opponent p) (record (get s.players (opponent p)) {
        prizes = remove_at prize_index (get s.players (opponent p)).prizes;
        hand = (get s.players (opponent p)).hand ++ card ∷ [];
      })) { pending = none }

pub answer_prize-eq-ok :
    (s : GameState) (p : PlayerId) (prize_index : ℕ) {o : ActionOutcome}
    → Destruction.answer_prize s p prize_index ≡ ok o
    → Recovers s p prize_index o
unfolding Destruction.answer_prize
answer_prize-eq-ok s p prize_index h =
    let (_, a, h1) = >>=-eq-ok (guard (awaits_prize s.pending p) _) _ h in
    let (card, c, h2) =
      >>=-eq-ok (ok_or (get_elem? (get s.players (opponent p)).prizes prize_index) _) _ h1 in
    record {
      awaited = guard-eq-ok _ ActionError.pending_input_mismatch a;
      card = card;
      chosen = ok_or-eq-ok _ _ c;
      state = cc;
    }
