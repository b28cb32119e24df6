-- ===== src/Handlers/Retreat.antt =====
-- What an accepted retreat does: `retreat` of crates/core/src/engine/board/mod.rs.
use summoners.Prelude.{
  ℕ, ◌≡◌, refl, sym, ap, subst, ◌∙◌, true, false, Option, some, [], ◌∷◌, ◌++◌, ok, err,
}
use summoners.Prelude.Arrays.{get_at}
use summoners.Domain.Ids.{PlayerId, Position, BenchSlot, ManaType, index, opponent}
use summoners.Domain.CardSet
use summoners.Domain.Entity
use summoners.Domain.Entity.{Entity}
use summoners.Domain.Field
use summoners.Domain.Errors.{ActionError}
use summoners.Domain.Events.{GameEvent}
use summoners.Domain.State.{
  GameState, MovementStep, PlayerState, SummonInstance, WorkItem, get, top,
}
use summoners.Engine.Board
use summoners.Engine.Board.{opposing_retreat_cost_delta, saturating_add_signed}
use summoners.Engine.Effects.{exchange}
use summoners.Engine.Outcome.{ActionOutcome, deduction_events}
use summoners.Engine.Payment.{Payment, deduct}
use summoners.Handlers.Hand.{
  KeepsPiles, get-put, get-put-opponent, get_at-set_at, get_at-elsewhere, pay-eq-ok,
}
use summoners.Handlers.Free.{IsFreeMain, stays_free}
use summoners.Handlers.Main.{retreat-eq-ok}

-- What the exchange of `vacating` with `incoming` from the slot leaves of the state.
pub record IsRetreated (s t : GameState) (p : PlayerId) (slot : BenchSlot) (payment : Payment)
    (vacating incoming : SummonInstance) : Type 0 where
  pub main : (get t.players p).main ≡ some incoming
  pub bench : get_at (get t.players p).bench (index slot) ≡ some vacating
  pub elsewhere :
      (other : BenchSlot)
      → (other ≡ slot → ⊥)
      → get_at (get t.players p).bench (index other) ≡ get_at (get s.players p).bench (index other)
  pub mana : (get t.players p).mana ≡ payment.bank
  pub hand : (get t.players p).hand ≡ (get s.players p).hand
  pub piles : KeepsPiles (get s.players p) (get t.players p)
  pub opposing : get t.players (opponent p) ≡ get s.players (opponent p)
  pub turn : t.turn ≡ record (s.turn) { normal_retreat_used = true }
  pub work :
      t.work
      ≡ s.work
        ++ WorkItem.movement_trigger MovementStep.leaving_main p (Position.bench slot)
          ∷ WorkItem.movement_trigger MovementStep.entering_bench p (Position.bench slot)
          ∷ WorkItem.movement_trigger MovementStep.leaving_bench p Position.main
          ∷ WorkItem.movement_trigger MovementStep.entering_main p Position.main
          ∷ []
  pub table : t ≡ record s { players = t.players; turn = t.turn; work = t.work }

retreated-IsRetreated :
    (s : GameState) (p : PlayerId) (slot : BenchSlot) (payment : Payment)
    (vacating incoming : SummonInstance)
    → IsRetreated s
        (Board.retreated s p slot payment vacating incoming)
        p
        slot
        payment
        vacating
        incoming
unfolding Board.retreated
retreated-IsRetreated s p slot payment vacating incoming =
    let ps = get s.players p in
    let moved = exchange (record ps { mana = payment.bank }) slot vacating incoming in
    let mine = get-put s.players p moved in
    record {
      main = ap (λ (y : PlayerState). y.main) mine;
      bench =
          ap (λ (y : PlayerState). get_at y.bench (index slot)) mine
          ∙ get_at-set_at ps.bench slot (some vacating);
      elsewhere = λ other n.
          ap (λ (y : PlayerState). get_at y.bench (index other)) mine
          ∙ get_at-elsewhere ps.bench slot other (some vacating) n;
      mana = ap (λ (y : PlayerState). y.mana) mine;
      hand = ap (λ (y : PlayerState). y.hand) mine;
      piles = subst (KeepsPiles ps) (sym mine) (record {
        deck = refl;
        prizes = refl;
        discard = refl;
        enchantments = refl;
        main_losses = refl;
      });
      opposing = get-put-opponent s.players p moved;
      turn = refl;
      work = refl;
      table = refl;
    }

-- What an accepted retreat found, and what it did.
pub record DoesRetreat (s : GameState) (p : PlayerId) (slot : BenchSlot) (hint : Option ManaType)
    (o : ActionOutcome) : Type 0 where
  pub free : IsFreeMain s
  pub unused : s.turn.normal_retreat_used ≡ false
  pub vacating : SummonInstance
  pub in_main : (get s.players p).main ≡ some vacating
  pub incoming : SummonInstance
  pub on_bench : get_at (get s.players p).bench (index slot) ≡ some incoming
  pub top_entity : Entity
  pub top_known : CardSet.get s.cards (top vacating.chain).def ≡ some top_entity
  pub printed : ℕ
  pub prints : Entity.get Field.retreat_cost top_entity ≡ some printed
  pub payment : Payment
  pub paid :
      deduct
        (get s.players p).mana
        (record {
          matter = 0;
          mind = 0;
          spirit = 0;
          generic = saturating_add_signed printed (opposing_retreat_cost_delta s p);
        })
        hint
      ≡ ok payment
  pub retreated : IsRetreated s o.state p slot payment vacating incoming
  pub events :
      o.events ≡ deduction_events p payment.deductions ++ GameEvent.summons_swapped p slot ∷ []

-- An accepted retreat happens in a free Main Phase with the retreat of the turn unused, pays in
-- Generic Mana the Retreat Cost that the top card of the Main Summon prints, changed by the opposing
-- Passives, and exchanges the Main Summon with that of the Bench slot. It marks the retreat as used,
-- queues the four movement Triggers of the exchange behind the work that waits, keeps every other
-- position, zone and player and the rest of the state, and reports the deductions and the exchange.
pub retreat-DoesRetreat :
    (s : GameState) (p : PlayerId) (slot : BenchSlot) (hint : Option ManaType) {o : ActionOutcome}
    → Board.retreat s p slot hint ≡ ok o
    → DoesRetreat s p slot hint o
retreat-DoesRetreat s p slot hint h =
    let r = retreat-eq-ok s p slot hint h in
    record {
      free = r.free;
      unused = r.unused;
      vacating = r.vacating;
      in_main = r.in_main;
      incoming = r.incoming;
      on_bench = r.on_bench;
      top_entity = r.top_entity;
      top_known = r.top_known;
      printed = r.printed;
      prints = r.prints;
      payment = r.payment;
      paid = pay-eq-ok (get s.players p) _ hint r.paid;
      retreated =
          subst (λ (t : GameState). IsRetreated s t p slot r.payment r.vacating r.incoming)
            (sym r.state) (retreated-IsRetreated s p slot r.payment r.vacating r.incoming);
      events = r.events;
    }

-- In the state after an accepted retreat, every retreat of either player is refused as the second of
-- the turn, whatever its slot and its hint.
pub retreat-once :
    (s : GameState) (p q : PlayerId) (slot other : BenchSlot) (hint next : Option ManaType)
    {o : ActionOutcome}
    → Board.retreat s p slot hint ≡ ok o
    → Board.retreat o.state q other next ≡ err ActionError.normal_retreat_already_used
unfolding Board.retreat
retreat-once s p q slot other hint next {o} h =
    let r = retreat-DoesRetreat s p slot hint h in
    let after = r.retreated in
    let used : o.state.turn.normal_retreat_used ≡ true =
      ap (λ turn. turn.normal_retreat_used) after.turn in
    let free =
      stays_free s o.state r.free (ap (λ (x : GameState). x.pending) after.table)
        (ap (λ turn. turn.phase) after.turn) (ap (λ turn. turn.window) after.turn) in
    rw (free, used)
