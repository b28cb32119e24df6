-- ===== src/Handlers/Main.antt =====
-- The handlers of the free Main Phase: engine/board/mod.rs and engine/skills/mod.rs.
use summoners.Prelude.{
  ℕ, ◌≡◌, refl, sym, ap, true, false, Option, none, some, [], ◌∷◌, ◌++◌, ok, guard, ok_or,
  guard-eq-ok, ok_or-eq-ok, ok-injective, sym, ap, >>=-eq-ok, not, is_some, is_some-none,
  not_or_left, not_or_right, ◌||◌, arith, find,
}
use summoners.Prelude.Arrays.{get_at}
use summoners.Domain.Ids.{PlayerId, Position, BenchSlot, CardInstanceId, index, ManaType}
use summoners.Domain.EntityId.{id_eq}
use summoners.Domain.Cards.{Form, form_lt}
use summoners.Domain.CardSet
use summoners.Domain.Entity
use summoners.Domain.Entity.{Entity, id_of}
use summoners.Domain.Field
use summoners.Domain.Errors.{ActionError}
use summoners.Domain.Events.{GameEvent}
use summoners.Domain.State.{
  GameState, SummonInstance, UpgradeActivity, CardRef, get, summon_at, top,
}
use summoners.Engine.Payment.{Payment}
use summoners.Engine.Outcome.{ActionOutcome, require_free_main_phase, pay, deduction_events}
use summoners.Engine.Board
use summoners.Engine.Board.{
  is_summon_kind, prints_base, may_upgrade, types_carry_forward, retreat_price,
}
use summoners.Engine.Skills
use summoners.Engine.Skills.{SkillActivation, is_ready}
use summoners.Engine.Priority.{in_hand, cost_of}
use summoners.Handlers.Free.{IsFreeMain, require_free_main_phase-eq-ok}

pub record Plays (s : GameState) (p : PlayerId) (card : CardInstanceId) (slot : BenchSlot)
    (o : ActionOutcome) : Type 0 where
  pub free : IsFreeMain s
  pub empty : get_at (get s.players p).bench (index slot) ≡ none
  pub hand_index : ℕ
  pub card_ref : CardRef
  pub found : in_hand card (get s.players p).hand ≡ some (hand_index, card_ref)
  pub entity : Entity
  pub known : CardSet.get s.cards card_ref.def ≡ some entity
  pub is_base :
      (is_summon_kind (Field.family entity) ≡ true)
      × (prints_base (Entity.get Field.form entity) ≡ true)
  pub state : o.state ≡ Board.played s p hand_index card_ref slot
  pub events : o.events ≡ GameEvent.summon_played p card slot ∷ []

pub play_summon-eq-ok :
    (s : GameState) (p : PlayerId) (card : CardInstanceId) (slot : BenchSlot) {o : ActionOutcome}
    → Board.play_summon s p card slot ≡ ok o
    → Plays s p card slot o
unfolding Board.play_summon
play_summon-eq-ok s p card slot h =
    let (_, free, h1) = >>=-eq-ok (require_free_main_phase s) _ h in
    let (_, empty, h2) =
      >>=-eq-ok (guard (not (is_some (get_at (get s.players p).bench (index slot)))) _) _ h1 in
    let (found, e, h3) = >>=-eq-ok (ok_or (in_hand card (get s.players p).hand) _) _ h2 in
    let (entity, k, h4) = >>=-eq-ok (ok_or (CardSet.get s.cards (found.1).def) _) _ h3 in
    let (_, b, h5) =
      >>=-eq-ok
        (guard
          (not (
            not (is_summon_kind (Field.family entity))
            || not (prints_base (Entity.get Field.form entity))))
          _)
        _ h4 in
    record {
      free = require_free_main_phase-eq-ok s free;
      empty = is_some-none _ (ground (arith, guard-eq-ok _ ActionError.invalid_target empty));
      hand_index = found.0;
      card_ref = found.1;
      found = ok_or-eq-ok _ _ e;
      entity = entity;
      known = ok_or-eq-ok _ _ k;
      is_base = ground (arith, guard-eq-ok _ ActionError.unknown_card b);
      state = cc;
      events = cc;
    }

pub record Upgrades (s : GameState) (p : PlayerId) (card : CardInstanceId) (at : Position)
    (o : ActionOutcome) : Type 0 where
  pub free : IsFreeMain s
  pub summon : SummonInstance
  pub stands : summon_at (get s.players p) at ≡ some summon
  pub available : summon.turn.upgrade ≡ UpgradeActivity.available
  pub hand_index : ℕ
  pub card_ref : CardRef
  pub found : in_hand card (get s.players p).hand ≡ some (hand_index, card_ref)
  pub entity : Entity
  pub known : CardSet.get s.cards card_ref.def ≡ some entity
  pub new_form : Form
  pub prints_new : Entity.get Field.form entity ≡ some new_form
  pub top_entity : Entity
  pub top_known : CardSet.get s.cards (top summon.chain).def ≡ some top_entity
  pub top_form : Form
  pub prints_top : Entity.get Field.form top_entity ≡ some top_form
  pub climbs : form_lt top_form new_form ≡ true
  pub carries :
      types_carry_forward (Board.produced_types top_entity) (Board.produced_types entity) ≡ true
  pub is_summon : is_summon_kind (Field.family entity) ≡ true
  pub state : o.state ≡ Board.upgraded s p hand_index card_ref at summon
  pub events : o.events ≡ GameEvent.summon_upgraded p card at ∷ []

may_upgrade-eq-ok :
    (a : UpgradeActivity) {u : Unit {0}} → may_upgrade a ≡ ok u → a ≡ UpgradeActivity.available
may_upgrade-eq-ok UpgradeActivity.available h = refl
may_upgrade-eq-ok UpgradeActivity.played_this_turn h = cc
may_upgrade-eq-ok UpgradeActivity.upgraded_this_turn h = cc

pub upgrade_summon-eq-ok :
    (s : GameState) (p : PlayerId) (card : CardInstanceId) (at : Position) {o : ActionOutcome}
    → Board.upgrade_summon s p card at ≡ ok o
    → Upgrades s p card at o
unfolding Board.upgrade_summon
upgrade_summon-eq-ok s p card at h =
    let (_, free, h1) = >>=-eq-ok (require_free_main_phase s) _ h in
    let (summon, stands, h2) = >>=-eq-ok (ok_or (summon_at (get s.players p) at) _) _ h1 in
    let (_, may, h3) = >>=-eq-ok (may_upgrade summon.turn.upgrade) _ h2 in
    let (found, e, h4) = >>=-eq-ok (ok_or (in_hand card (get s.players p).hand) _) _ h3 in
    let (entity, k, h5) = >>=-eq-ok (ok_or (CardSet.get s.cards (found.1).def) _) _ h4 in
    let (_, kind, h6) = >>=-eq-ok (guard (is_summon_kind (Field.family entity)) _) _ h5 in
    let (new_form, nf, h7) = >>=-eq-ok (ok_or (Entity.get Field.form entity) _) _ h6 in
    let (top_entity, tk, h8) =
      >>=-eq-ok (ok_or (CardSet.get s.cards (top summon.chain).def) _) _ h7 in
    let (top_form, tf, h9) = >>=-eq-ok (ok_or (Entity.get Field.form top_entity) _) _ h8 in
    let (_, legal, h10) =
      >>=-eq-ok
        (guard
          (not (
            not (form_lt top_form new_form)
            || not (
                types_carry_forward (Board.produced_types top_entity)
                  (Board.produced_types entity))))
          _)
        _ h9 in
    let passed = guard-eq-ok _ ActionError.illegal_upgrade_target legal in
    record {
      free = require_free_main_phase-eq-ok s free;
      summon = summon;
      stands = ok_or-eq-ok _ _ stands;
      available = may_upgrade-eq-ok _ may;
      hand_index = found.0;
      card_ref = found.1;
      found = ok_or-eq-ok _ _ e;
      entity = entity;
      known = ok_or-eq-ok _ _ k;
      new_form = new_form;
      prints_new = ok_or-eq-ok _ _ nf;
      top_entity = top_entity;
      top_known = ok_or-eq-ok _ _ tk;
      top_form = top_form;
      prints_top = ok_or-eq-ok _ _ tf;
      climbs = not_or_left _ _ passed;
      carries = not_or_right _ _ passed;
      is_summon = guard-eq-ok _ ActionError.unknown_card kind;
      state = sym (ap (λ (x : ActionOutcome). x.state) (ok-injective refl h10));
      events = sym (ap (λ (x : ActionOutcome). x.events) (ok-injective refl h10));
    }

pub record Retreats (s : GameState) (p : PlayerId) (slot : BenchSlot) (hint : Option ManaType)
    (o : ActionOutcome) : Type 0 where
  pub free : IsFreeMain s
  pub unused : s.turn.normal_retreat_used ≡ false
  pub vacating : SummonInstance
  pub in_main : (get s.players p).main ≡ some vacating
  pub incoming : SummonInstance
  pub on_bench : get_at (get s.players p).bench (index slot) ≡ some incoming
  pub top_entity : Entity
  pub top_known : CardSet.get s.cards (top vacating.chain).def ≡ some top_entity
  pub printed : ℕ
  pub prints : Entity.get Field.retreat_cost top_entity ≡ some printed
  pub payment : Payment
  pub paid : pay (get s.players p) (retreat_price s p printed) hint ≡ ok payment
  pub state : o.state ≡ Board.retreated s p slot payment vacating incoming
  pub events :
      o.events ≡ deduction_events p payment.deductions ++ GameEvent.summons_swapped p slot ∷ []

pub retreat-eq-ok :
    (s : GameState) (p : PlayerId) (slot : BenchSlot) (hint : Option ManaType) {o : ActionOutcome}
    → Board.retreat s p slot hint ≡ ok o
    → Retreats s p slot hint o
unfolding Board.retreat
retreat-eq-ok s p slot hint h =
    let (_, free, h1) = >>=-eq-ok (require_free_main_phase s) _ h in
    let (_, unused, h2) = >>=-eq-ok (guard (not s.turn.normal_retreat_used) _) _ h1 in
    let (vacating, m, h3) = >>=-eq-ok (ok_or ((get s.players p).main) _) _ h2 in
    let (incoming, b, h4) =
      >>=-eq-ok (ok_or (get_at (get s.players p).bench (index slot)) _) _ h3 in
    let (top_entity, tk, h5) =
      >>=-eq-ok (ok_or (CardSet.get s.cards (top vacating.chain).def) _) _ h4 in
    let (printed, pr, h6) = >>=-eq-ok (ok_or (Entity.get Field.retreat_cost top_entity) _) _ h5 in
    let (payment, paid, h7) =
      >>=-eq-ok (pay (get s.players p) (retreat_price s p printed) hint) _ h6 in
    record {
      free = require_free_main_phase-eq-ok s free;
      unused = ground (arith, guard-eq-ok _ ActionError.normal_retreat_already_used unused);
      vacating = vacating;
      in_main = ok_or-eq-ok _ _ m;
      incoming = incoming;
      on_bench = ok_or-eq-ok _ _ b;
      top_entity = top_entity;
      top_known = ok_or-eq-ok _ _ tk;
      printed = printed;
      prints = ok_or-eq-ok _ _ pr;
      payment = payment;
      paid = paid;
      state = cc;
      events = cc;
    }

pub record Activates (s : GameState) (a : SkillActivation) (o : ActionOutcome) : Type 0 where
  pub free : IsFreeMain s
  pub summon : SummonInstance
  pub stands : summon_at (get s.players a.player) a.position ≡ some summon
  pub ready : is_ready summon.readiness ≡ true
  pub skill : Entity
  pub valid : Skills.validate_targets s a.player (Entity.all Field.effect skill) a.targets ≡ ok tt
  pub payment : Payment
  pub paid : pay (get s.players a.player) (cost_of skill) a.mana_hint ≡ ok payment
  pub outcome : o ≡ Skills.resolve_skill s a payment summon (Entity.all Field.effect skill)

pub activate_skill-eq-ok :
    (s : GameState) (a : SkillActivation) {o : ActionOutcome}
    → Skills.activate_skill s a ≡ ok o
    → Activates s a o
unfolding Skills.activate_skill
activate_skill-eq-ok s a h =
    let (_, free, h1) = >>=-eq-ok (require_free_main_phase s) _ h in
    let (summon, stands, h2) =
      >>=-eq-ok (ok_or (summon_at (get s.players a.player) a.position) _) _ h1 in
    let (_, ready, h3) = >>=-eq-ok (guard (is_ready summon.readiness) _) _ h2 in
    let (top_entity, _, h4) =
      >>=-eq-ok (ok_or (CardSet.get s.cards (top summon.chain).def) _) _ h3 in
    let (skill, _, h5) =
      >>=-eq-ok
        (ok_or (find (λ e. id_eq (id_of e) a.ability) (Entity.all Field.skill top_entity)) _) _
        h4 in
    let effects = Entity.all Field.effect skill in
    let (_, valid, h6) = >>=-eq-ok (Skills.validate_targets s a.player effects a.targets) _ h5 in
    let (payment, paid, h7) =
      >>=-eq-ok (pay (get s.players a.player) (cost_of skill) a.mana_hint) _ h6 in
    record {
      free = require_free_main_phase-eq-ok s free;
      summon = summon;
      stands = ok_or-eq-ok _ _ stands;
      ready = guard-eq-ok _ ActionError.summon_exhausted ready;
      skill = skill;
      valid = valid;
      payment = payment;
      paid = paid;
      outcome = cc;
    }
