-- ===== src/Handlers/Window.antt =====
-- The handlers of the Priority windows: engine/stack/mod.rs.
use summoners.Prelude.{
  ℕ, ◌≡◌, true, false, Option, none, some, List, [], ◌∷◌, ◌++◌, ok, guard, ok_or, guard-eq-ok,
  ok_or-eq-ok, >>=-eq-ok, not, is_some, is_some-none, ◌||◌, ◌&&◌, arith, if◌then◌else◌,
}
use summoners.Domain.Ids.{PlayerId, Position, CardInstanceId, ManaType, is_main, player_eq}
use summoners.Domain.Cards.{SpellTiming, Cost}
use summoners.Domain.CardSet
use summoners.Domain.Entity
use summoners.Domain.Entity.{Entity}
use summoners.Domain.Field
use summoners.Domain.Errors.{ActionError}
use summoners.Domain.Events.{GameEvent}
use summoners.Domain.State.{GameState, StackWindow, CardRef, get, top, is_main_phase}
use summoners.Engine.Payment.{Payment}
use summoners.Engine.Outcome.{ActionOutcome, pay, deduction_events}
use summoners.Engine.Turn.{holds_priority, resting_in_own_main}
use summoners.Engine.Priority
use summoners.Engine.Priority.{in_hand, cost_of, legal_timing, is_attack_timing}

pub record Declares (s : GameState) (p : PlayerId) (target : Position) (hint : Option ManaType)
    (o : ActionOutcome) : Type 0 where
  pub settled : s.pending ≡ none
  pub unused : s.turn.normal_attack_used ≡ false
  pub phase : is_main_phase s.turn.phase ≡ true
  pub no_window : s.turn.window ≡ none
  pub at_main : is_main target ≡ true
  pub attack : Entity
  pub payment : Payment
  pub paid : pay (get s.players p) (cost_of attack) hint ≡ ok payment
  pub state : o.state ≡ Priority.declared s p target payment

pub declare_attack-eq-ok :
    (s : GameState) (p : PlayerId) (target : Position) (hint : Option ManaType) {o : ActionOutcome}
    → Priority.declare_attack s p target hint ≡ ok o
    → Declares s p target hint o
unfolding Priority.declare_attack
declare_attack-eq-ok s p target hint h =
    let (_, a, h1) = >>=-eq-ok (guard (not (is_some s.pending)) _) _ h in
    let (_, b, h2) = >>=-eq-ok (guard (not s.turn.normal_attack_used) _) _ h1 in
    let (_, c, h3) =
      >>=-eq-ok (guard (not (not (is_main_phase s.turn.phase) || is_some s.turn.window)) _) _ h2 in
    let (_, d, h4) = >>=-eq-ok (guard (is_main target) _) _ h3 in
    let (summon, _, h5) = >>=-eq-ok (ok_or ((get s.players p).main) _) _ h4 in
    let (top_entity, _, h6) =
      >>=-eq-ok (ok_or (CardSet.get s.cards (top summon.chain).def) _) _ h5 in
    let (attack, _, h7) = >>=-eq-ok (ok_or (Entity.get Field.attack top_entity) _) _ h6 in
    let (payment, paid, h8) = >>=-eq-ok (pay (get s.players p) (cost_of attack) hint) _ h7 in
    let resting = guard-eq-ok _ ActionError.wrong_phase c in
    record {
      settled = is_some-none _ (ground (arith, guard-eq-ok _ ActionError.pending_input_mismatch a));
      unused = ground (arith, guard-eq-ok _ ActionError.normal_attack_already_used b);
      phase = ground (arith, resting);
      no_window = is_some-none _ (ground (arith, resting));
      at_main = guard-eq-ok _ ActionError.invalid_target d;
      attack = attack;
      payment = payment;
      paid = paid;
      state = cc;
    }

pub record Casts (s : GameState) (p : PlayerId) (card : CardInstanceId) (targets : List Position)
    (hint : Option ManaType) (o : ActionOutcome) : Type 0 where
  pub settled : s.pending ≡ none
  pub hand_index : ℕ
  pub card_ref : CardRef
  pub found : in_hand card (get s.players p).hand ≡ some (hand_index, card_ref)
  pub entity : Entity
  pub known : CardSet.get s.cards card_ref.def ≡ some entity
  pub timing : SpellTiming
  pub legal : legal_timing timing (resting_in_own_main s p) (holds_priority s.turn.window p) ≡ true
  pub unblocked :
      (is_attack_timing timing
        && holds_priority s.turn.window p
        && Priority.attack_responses_blocked s)
      ≡ false
  pub cost : Cost
  pub castable : Priority.casting_of entity (Field.family entity) ≡ some (timing, cost)
  pub payment : Payment
  pub paid : pay (get s.players p) cost hint ≡ ok payment
  pub state : o.state ≡ Priority.casting s p hand_index card_ref targets payment
  pub events :
      o.events ≡ deduction_events p payment.deductions ++ GameEvent.spell_cast p card targets ∷ []

pub cast_spell-eq-ok :
    (s : GameState) (p : PlayerId) (card : CardInstanceId) (targets : List Position)
    (hint : Option ManaType) {o : ActionOutcome}
    → Priority.cast_spell s p card targets hint ≡ ok o
    → Casts s p card targets hint o
unfolding Priority.cast_spell
cast_spell-eq-ok s p card targets hint h =
    let (_, a, h1) = >>=-eq-ok (guard (not (is_some s.pending)) _) _ h in
    let (found, e, h2) = >>=-eq-ok (ok_or (in_hand card (get s.players p).hand) _) _ h1 in
    let (entity, k, h3) = >>=-eq-ok (ok_or (CardSet.get s.cards (found.1).def) _) _ h2 in
    let (cast, c, h4) =
      >>=-eq-ok (ok_or (Priority.casting_of entity (Field.family entity)) _) _ h3 in
    let (_, l, h5) =
      >>=-eq-ok
        (guard (legal_timing cast.0 (resting_in_own_main s p) (holds_priority s.turn.window p)) _) _
        h4 in
    let (_, u, h6) =
      >>=-eq-ok
        (guard
          (not (
            is_attack_timing cast.0
            && holds_priority s.turn.window p
            && Priority.attack_responses_blocked s))
          _)
        _ h5 in
    let (payment, paid, h7) = >>=-eq-ok (pay (get s.players p) cast.1 hint) _ h6 in
    record {
      settled = is_some-none _ (ground (arith, guard-eq-ok _ ActionError.pending_input_mismatch a));
      hand_index = found.0;
      card_ref = found.1;
      found = ok_or-eq-ok _ _ e;
      entity = entity;
      known = ok_or-eq-ok _ _ k;
      timing = cast.0;
      legal = guard-eq-ok _ ActionError.wrong_phase l;
      unblocked = ground (arith, guard-eq-ok _ ActionError.wrong_phase u);
      cost = cast.1;
      castable = ok_or-eq-ok _ _ c;
      payment = payment;
      paid = paid;
      state = cc;
      events = cc;
    }

pub record Passes (s : GameState) (p : PlayerId) (o : ActionOutcome) : Type 0 where
  pub settled : s.pending ≡ none
  pub window : StackWindow
  pub open_window : s.turn.window ≡ some window
  pub holds : player_eq window.holder p ≡ true
  pub outcome :
      o ≡ (if window.prior_pass then Priority.close_window s p else Priority.move_priority s p)

pub pass-eq-ok :
    (s : GameState) (p : PlayerId) {o : ActionOutcome} → Priority.pass s p ≡ ok o → Passes s p o
unfolding Priority.pass
pass-eq-ok s p h =
    let (_, a, h1) = >>=-eq-ok (guard (not (is_some s.pending)) _) _ h in
    let (window, e, h2) = >>=-eq-ok (ok_or s.turn.window _) _ h1 in
    let (_, b, h3) = >>=-eq-ok (guard (player_eq window.holder p) _) _ h2 in
    record {
      settled = is_some-none _ (ground (arith, guard-eq-ok _ ActionError.pending_input_mismatch a));
      window = window;
      open_window = ok_or-eq-ok _ _ e;
      holds = guard-eq-ok _ ActionError.not_your_decision b;
      outcome = cc;
    }
