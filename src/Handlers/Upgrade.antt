-- ===== src/Handlers/Upgrade.antt =====
-- What an accepted upgrade does: `upgrade_summon` of crates/core/src/engine/board/mod.rs.
use summoners.Prelude.{
  ℕ, ◌≡◌, refl, sym, ap, subst, true, Option, some, List, [], ◌∷◌, ◌++◌, ok, err, remove_at, ◌∙◌,
}
use summoners.Domain.Ids.{PlayerId, Position, CardInstanceId, opponent}
use summoners.Domain.Cards.{Form, form_lt}
use summoners.Domain.CardSet
use summoners.Domain.Entity
use summoners.Domain.Entity.{Entity}
use summoners.Domain.Field
use summoners.Domain.Errors.{ActionError}
use summoners.Domain.Events.{GameEvent}
use summoners.Domain.State.{
  CardRef, GameState, PlayerState, Readiness, SummonInstance, UpgradeActivity, get, layers,
  set_summon, summon_at, top,
}
use summoners.Engine.Board
use summoners.Engine.Board.{is_summon_kind, types_carry_forward}
use summoners.Engine.Outcome.{ActionOutcome}
use summoners.Handlers.Hand.{
  IsHeld, KeepsPiles, get-put, get-put-opponent, in_hand-IsHeld, summon_at-elsewhere,
  summon_at-set_summon,
}
use summoners.Handlers.Free.{IsFreeMain, stays_free}
use summoners.Handlers.Main.{upgrade_summon-eq-ok}

-- The upgraded Summon: one more layer, Exhausted, marked for the turn, and as before otherwise.
pub record IsRaised (before : SummonInstance) (card : CardRef) (after : SummonInstance)
    : Type 0 where
  pub chain : layers after.chain ≡ layers before.chain ++ card ∷ []
  pub readiness : after.readiness ≡ Readiness.exhausted
  pub upgrade : after.turn.upgrade ≡ UpgradeActivity.upgraded_this_turn
  pub main_entry : after.turn.main_entry ≡ before.turn.main_entry
  pub damage : after.damage ≡ before.damage
  pub owner : after.owner ≡ before.owner
  pub controller : after.controller ≡ before.controller
  pub duration_markers : after.duration_markers ≡ before.duration_markers

-- What the upgrade of `summon` at `at` by `card` leaves of the state.
pub record IsUpgraded (s t : GameState) (p : PlayerId) (at : Position) (summon : SummonInstance)
    (card : CardRef) (left : List CardRef) : Type 0 where
  pub raised : SummonInstance
  pub stands : summon_at (get t.players p) at ≡ some raised
  pub is_raised : IsRaised summon card raised
  pub elsewhere :
      (q : Position) → (q ≡ at → ⊥) → summon_at (get t.players p) q ≡ summon_at (get s.players p) q
  pub hand : (get t.players p).hand ≡ left
  pub mana : (get t.players p).mana ≡ (get s.players p).mana
  pub piles : KeepsPiles (get s.players p) (get t.players p)
  pub opposing : get t.players (opponent p) ≡ get s.players (opponent p)
  pub table : t ≡ record s { players = t.players }

set_summon-piles :
    (ps : PlayerState) (at : Position) (o : Option SummonInstance)
    → KeepsPiles ps (set_summon ps at o)
      × ((set_summon ps at o).hand ≡ ps.hand)
      × ((set_summon ps at o).mana ≡ ps.mana)
set_summon-piles ps Position.main o = (
  record { deck = refl; prizes = refl; discard = refl; enchantments = refl; main_losses = refl },
  refl,
  refl,
)
set_summon-piles ps (Position.bench slot) o = (
  record { deck = refl; prizes = refl; discard = refl; enchantments = refl; main_losses = refl },
  refl,
  refl,
)

summon_at-hand :
    (ps : PlayerState) (cards : List CardRef) (q : Position)
    → summon_at (record ps { hand = cards }) q ≡ summon_at ps q
summon_at-hand ps cards Position.main = refl
summon_at-hand ps cards (Position.bench slot) = refl

upgraded-IsUpgraded :
    (s : GameState) (p : PlayerId) (i : ℕ) (card : CardRef) (at : Position) (x : SummonInstance)
    → IsUpgraded s (Board.upgraded s p i card at x) p at x card (remove_at i (get s.players p).hand)
unfolding Board.upgraded
upgraded-IsUpgraded s p i card at x =
    let ps = record (get s.players p) { hand = remove_at i (get s.players p).hand } in
    let o = some (Board.upgraded_summon x card) in
    let mine = get-put s.players p (set_summon ps at o) in
    let (piles, hand, mana) = set_summon-piles ps at o in
    record {
      raised = Board.upgraded_summon x card;
      stands = ap (λ (y : PlayerState). summon_at y at) mine ∙ summon_at-set_summon ps at o;
      is_raised = record {
        chain = refl;
        readiness = refl;
        upgrade = refl;
        main_entry = refl;
        damage = refl;
        owner = refl;
        controller = refl;
        duration_markers = refl;
      };
      elsewhere = λ q n.
          ap (λ (y : PlayerState). summon_at y q) mine
          ∙ summon_at-elsewhere ps at q o n
          ∙ summon_at-hand (get s.players p) (remove_at i (get s.players p).hand) q;
      hand = ap (λ (y : PlayerState). y.hand) mine ∙ hand;
      mana = ap (λ (y : PlayerState). y.mana) mine ∙ mana;
      piles = subst (KeepsPiles (get s.players p)) (sym mine) (record {
        deck = piles.deck;
        prizes = piles.prizes;
        discard = piles.discard;
        enchantments = piles.enchantments;
        main_losses = piles.main_losses;
      });
      opposing = get-put-opponent s.players p _;
      table = refl;
    }

-- What an accepted upgrade found, and what it did.
pub record DoesUpgrade (s : GameState) (p : PlayerId) (card : CardInstanceId) (at : Position)
    (o : ActionOutcome) : Type 0 where
  pub free : IsFreeMain s
  pub summon : SummonInstance
  pub stands : summon_at (get s.players p) at ≡ some summon
  pub available : summon.turn.upgrade ≡ UpgradeActivity.available
  pub card_ref : CardRef
  pub left : List CardRef
  pub held : IsHeld (get s.players p).hand left card card_ref
  pub entity : Entity
  pub known : CardSet.get s.cards card_ref.def ≡ some entity
  pub is_summon : is_summon_kind (Field.family entity) ≡ true
  pub new_form : Form
  pub prints_new : Entity.get Field.form entity ≡ some new_form
  pub top_entity : Entity
  pub top_known : CardSet.get s.cards (top summon.chain).def ≡ some top_entity
  pub top_form : Form
  pub prints_top : Entity.get Field.form top_entity ≡ some top_form
  pub climbs : form_lt top_form new_form ≡ true
  pub carries :
      types_carry_forward (Board.produced_types top_entity) (Board.produced_types entity) ≡ true
  pub upgraded : IsUpgraded s o.state p at summon card_ref left
  pub events : o.events ≡ GameEvent.summon_upgraded p card at ∷ []

-- An accepted upgrade happens in a free Main Phase, on a standing Summon that was neither played
-- nor upgraded this turn, with a Summon card of the hand whose Form is above the top Form and whose
-- Mana Types include those of the top card. It takes that card from the hand to the top of the
-- chain, leaves the Summon Exhausted and marked as upgraded this turn, keeps the rest of the Summon
-- with its Damage, every other position, zone and player, and the rest of the state, and reports
-- the upgrade.
pub upgrade_summon-DoesUpgrade :
    (s : GameState) (p : PlayerId) (card : CardInstanceId) (at : Position) {o : ActionOutcome}
    → Board.upgrade_summon s p card at ≡ ok o
    → DoesUpgrade s p card at o
upgrade_summon-DoesUpgrade s p card at h =
    let u = upgrade_summon-eq-ok s p card at h in
    record {
      free = u.free;
      summon = u.summon;
      stands = u.stands;
      available = u.available;
      card_ref = u.card_ref;
      left = remove_at u.hand_index (get s.players p).hand;
      held = in_hand-IsHeld card (get s.players p).hand u.found;
      entity = u.entity;
      known = u.known;
      is_summon = u.is_summon;
      new_form = u.new_form;
      prints_new = u.prints_new;
      top_entity = u.top_entity;
      top_known = u.top_known;
      top_form = u.top_form;
      prints_top = u.prints_top;
      climbs = u.climbs;
      carries = u.carries;
      upgraded =
          subst
            (λ (t : GameState).
              IsUpgraded s t p at u.summon u.card_ref
                (remove_at u.hand_index (get s.players p).hand))
            (sym u.state) (upgraded-IsUpgraded s p u.hand_index u.card_ref at u.summon);
      events = u.events;
    }

-- In the state after an accepted upgrade, every upgrade by the same player at the same position is
-- refused as the second of the turn, whichever card it names.
pub upgrade_summon-once :
    (s : GameState) (p : PlayerId) (card next : CardInstanceId) (at : Position) {o : ActionOutcome}
    → Board.upgrade_summon s p card at ≡ ok o
    → Board.upgrade_summon o.state p next at ≡ err ActionError.already_upgraded_this_turn
unfolding Board.upgrade_summon
upgrade_summon-once s p card next at {o} h =
    let u = upgrade_summon-DoesUpgrade s p card at h in
    let after = u.upgraded in
    let mark : after.raised.turn.upgrade ≡ UpgradeActivity.upgraded_this_turn =
      after.is_raised.upgrade in
    let free =
      stays_free s o.state u.free (ap (λ (x : GameState). x.pending) after.table)
        (ap (λ (x : GameState). x.turn.phase) after.table)
        (ap (λ (x : GameState). x.turn.window) after.table) in
    rw (free, after.stands, mark)
