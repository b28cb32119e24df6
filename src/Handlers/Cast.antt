-- ===== src/Handlers/Cast.antt =====
-- What an accepted Spell or Enchantment does: `cast_spell` of crates/core/src/engine/stack/mod.rs.
use summoners.Prelude.{
  ℕ, ◌≡◌, refl, sym, ap, subst, true, false, Option, some, none, List, [], ◌∷◌, ◌++◌, ok, remove_at,
}
use summoners.Domain.Ids.{PlayerId, Position, CardInstanceId, ManaType, opponent}
use summoners.Domain.Cards.{Cost, SpellTiming}
use summoners.Domain.CardSet
use summoners.Domain.Entity.{Entity}
use summoners.Domain.Field
use summoners.Domain.Events.{GameEvent}
use summoners.Domain.State.{CardRef, GameState, PlayerState, StackItem, get}
use summoners.Engine.Priority
use summoners.Engine.Priority.{attack_responses_blocked, cost_of, is_attack_timing, legal_timing}
use summoners.Engine.Outcome.{ActionOutcome, deduction_events}
use summoners.Engine.Payment.{Payment, deduct}
use summoners.Engine.Turn.{holds_priority, resting_in_own_main}
use summoners.Handlers.Hand.{
  IsHeld, KeepsPiles, get-put, get-put-opponent, in_hand-IsHeld, pay-eq-ok,
}
use summoners.Handlers.Window.{cast_spell-eq-ok}
use summoners.Handlers.Timing.{
  HasCost, HasTiming, IsTimely, attack-unblocked, casting_of-HasTiming, cost_of-HasCost,
  legal-IsTimely,
}

-- What the cast of `card_ref` leaves of the state.
pub record IsCast (s t : GameState) (p : PlayerId) (card_ref : CardRef) (left : List CardRef)
    (targets : List Position) (payment : Payment) : Type 0 where
  pub stack : t.stack ≡ StackItem.spell p card_ref targets ∷ s.stack
  pub window : t.turn.window ≡ some (record { holder = opponent p; prior_pass = false })
  pub marked : get t.turn.spell_played_this_turn p ≡ true
  pub unmarked :
      get t.turn.spell_played_this_turn (opponent p)
      ≡ get s.turn.spell_played_this_turn (opponent p)
  pub turn : t.turn ≡ record (s.turn) {
    window = t.turn.window;
    spell_played_this_turn = t.turn.spell_played_this_turn;
  }
  pub hand : (get t.players p).hand ≡ left
  pub mana : (get t.players p).mana ≡ payment.bank
  pub main : (get t.players p).main ≡ (get s.players p).main
  pub bench : (get t.players p).bench ≡ (get s.players p).bench
  pub piles : KeepsPiles (get s.players p) (get t.players p)
  pub opposing : get t.players (opponent p) ≡ get s.players (opponent p)
  pub table : t ≡ record s { players = t.players; turn = t.turn; stack = t.stack }

casting-IsCast :
    (s : GameState) (p : PlayerId) (i : ℕ) (card_ref : CardRef) (targets : List Position)
    (payment : Payment)
    → IsCast s
        (Priority.casting s p i card_ref targets payment)
        p
        card_ref
        (remove_at i (get s.players p).hand)
        targets
        payment
unfolding Priority.casting
casting-IsCast s p i card_ref targets payment =
    let ps = get s.players p in
    let paid = record ps { mana = payment.bank; hand = remove_at i ps.hand } in
    let mine = get-put s.players p paid in
    record {
      stack = refl;
      window = refl;
      marked = get-put s.turn.spell_played_this_turn p true;
      unmarked = get-put-opponent s.turn.spell_played_this_turn p true;
      turn = refl;
      hand = ap (λ (y : PlayerState). y.hand) mine;
      mana = ap (λ (y : PlayerState). y.mana) mine;
      main = ap (λ (y : PlayerState). y.main) mine;
      bench = ap (λ (y : PlayerState). y.bench) mine;
      piles = subst (KeepsPiles ps) (sym mine) (record {
        deck = refl;
        prizes = refl;
        discard = refl;
        enchantments = refl;
        main_losses = refl;
      });
      opposing = get-put-opponent s.players p paid;
      table = refl;
    }

-- What an accepted cast found, and what it did.
pub record DoesCast (s : GameState) (p : PlayerId) (card : CardInstanceId) (targets : List Position)
    (hint : Option ManaType) (o : ActionOutcome) : Type 0 where
  pub settled : s.pending ≡ none
  pub card_ref : CardRef
  pub left : List CardRef
  pub held : IsHeld (get s.players p).hand left card card_ref
  pub entity : Entity
  pub known : CardSet.get s.cards card_ref.def ≡ some entity
  pub timing : SpellTiming
  pub has_timing : HasTiming entity timing
  pub timely : IsTimely s p timing
  pub unblocked : timing ≡ SpellTiming.attack → attack_responses_blocked s ≡ false
  pub cost : Cost
  pub has_cost : HasCost entity cost
  pub payment : Payment
  pub paid : deduct (get s.players p).mana cost hint ≡ ok payment
  pub is_cast : IsCast s o.state p card_ref left targets payment
  pub events :
      o.events ≡ deduction_events p payment.deductions ++ GameEvent.spell_cast p card targets ∷ []

-- An accepted cast finds nothing pending and a card of the hand that is a Spell with the timing it
-- prints, or an Enchantment with Support timing. The caster holds Priority, or casts at Support
-- timing in the own Main Phase with no window open; no Attack Spell is cast against an attack of the
-- current segment that blocks responses. The cost that the card prints is paid. The card leaves the
-- hand for the top of the Stack with its targets, the opponent gets Priority in a new window with no
-- pass, the caster's Spell mark of the turn is set, everything else of the state is kept, and the
-- deductions and the cast are reported.
pub cast_spell-DoesCast :
    (s : GameState) (p : PlayerId) (card : CardInstanceId) (targets : List Position)
    (hint : Option ManaType) {o : ActionOutcome}
    → Priority.cast_spell s p card targets hint ≡ ok o
    → DoesCast s p card targets hint o
cast_spell-DoesCast s p card targets hint h =
    let c = cast_spell-eq-ok s p card targets hint h in
    let left = remove_at c.hand_index (get s.players p).hand in
    let (timed, priced) = casting_of-HasTiming c.entity (Field.family c.entity) refl c.castable in
    record {
      settled = c.settled;
      card_ref = c.card_ref;
      left = left;
      held = in_hand-IsHeld card (get s.players p).hand c.found;
      entity = c.entity;
      known = c.known;
      timing = c.timing;
      has_timing = timed;
      timely = legal-IsTimely s p c.timing c.legal;
      unblocked =
          attack-unblocked c.timing (resting_in_own_main s p) (holds_priority s.turn.window p)
            (attack_responses_blocked s) c.legal c.unblocked;
      cost = c.cost;
      has_cost = subst (HasCost c.entity) (sym priced) (cost_of-HasCost c.entity);
      payment = c.payment;
      paid = pay-eq-ok (get s.players p) c.cost hint c.paid;
      is_cast =
          subst (λ (t : GameState). IsCast s t p c.card_ref left targets c.payment) (sym c.state)
            (casting-IsCast s p c.hand_index c.card_ref targets c.payment);
      events = c.events;
    }
