-- ===== src/Conservation/Dispatch.antt =====
-- The weight of the cards across crates/core/src/engine/apply/mod.rs `dispatch`.
use summoners.Prelude.{
  ℕ, ◌+◌, ◌≡◌, refl, ap, ◌∙◌, sym, Bool, true, false, Option, none, some, List, [], ◌∷◌, ◌++◌,
  sum_by-append, sum_by-remove_at, get_elem?, remove_at, ok, ok-injective, arith, inl, inr,
  List-cases, if◌then◌else◌,
}
use summoners.Domain.Ids.{PlayerId, Position, ManaType, opponent}
use summoners.Domain.Cards.{EffectLeaf}
use summoners.Domain.Actions.{GameAction}
use summoners.Domain.State.{GameState, SummonInstance, CardRef, get, summon_at, with_player}
use summoners.Engine.Outcome.{ActionOutcome}
use summoners.Engine.Payment.{Payment}
use summoners.Engine.Upkeep.{bank}
use summoners.Engine.Triggers.{discover_back}
use summoners.Engine.Turn.{begin_turn, handover, unmark, expire_cannot_be_moved_by_opponent}
use summoners.Engine.Upkeep.{clear_per_turn_flags, reset_per_turn_summon_records}
use summoners.Engine.Priority.{close_window, move_priority}
use summoners.Engine.Skills.{SkillActivation, activated, resolve_skill, exhaust}
use summoners.Engine.Apply.{dispatch}
use summoners.Conservation.Weight.{
  player_weight, state_weight, zones_weight, weight-put_same, weight-rewrite, summon_weight,
}
use summoners.Conservation.Leaves.{apply_leaves-weight, player_weight-bank}
use summoners.Conservation.Work.{player_weight-map_board, promote_from_slot-weight}
use summoners.Conservation.Actions.{
  played-weight, upgraded-weight, retreated-weight, declared-weight, casting-weight,
}
use summoners.Handlers.Main.{
  play_summon-eq-ok, upgrade_summon-eq-ok, retreat-eq-ok, activate_skill-eq-ok,
}
use summoners.Handlers.Window.{declare_attack-eq-ok, cast_spell-eq-ok, pass-eq-ok}
use summoners.Handlers.Answers.{
  end_turn-eq-ok, convert_coin-eq-ok, choose_mana_type-eq-ok, answer_promotion-eq-ok,
  answer_prize-eq-ok,
}

-- The Main Summon that a chosen Promotion writes over, if one stands there.
unfoldable pub overwritten_by_action : GameState → GameAction → Option SummonInstance
overwritten_by_action s (GameAction.choose_promotion player slot) = (get s.players player).main
overwritten_by_action s _ = none

module _ (w : CardRef → ℕ) where
  pub begin_turn-weight : (s : GameState) → state_weight w (begin_turn s) ≡ state_weight w s
  unfolding begin_turn reset_per_turn_summon_records expire_cannot_be_moved_by_opponent
  begin_turn-weight s =
      let player = s.turn.active_player in
      let mine = with_player s player (reset_per_turn_summon_records (get s.players player)) in
      weight-put_same w mine.players s.stack (opponent player) _ (
        player_weight-map_board w unmark (λ x. refl) _
        ∙ player_weight-map_board w clear_per_turn_flags (λ x. refl) _)
      ∙ weight-put_same w s.players s.stack player _
          (player_weight-map_board w clear_per_turn_flags (λ x. refl) _)

  handover-weight : (s : GameState) → state_weight w (handover s).state ≡ state_weight w s
  unfolding handover discover_back
  handover-weight s = begin_turn-weight s

  close_window-weight :
      (s : GameState) (p : PlayerId) → state_weight w (close_window s p).state ≡ state_weight w s
  unfolding close_window
  close_window-weight s p = elim (List-cases s.stack) [
    | inl e ↦ rw (e, close_window) (handover-weight _ ∙ ap (zones_weight w s.players) e)
    | inr (item, below, e) ↦ rw (e, close_window) (ap (zones_weight w s.players) e)
  ]

  pass-weight :
      (s : GameState) (p : PlayerId) (prior : Bool)
      → state_weight w (if prior then close_window s p else move_priority s p).state
        ≡ state_weight w s
  unfolding move_priority
  pass-weight s p true = close_window-weight s p
  pass-weight s p false = refl

  activated-weight :
      (s : GameState) (a : SkillActivation) (payment : Payment) (x : SummonInstance)
      → summon_at (get s.players a.player) a.position ≡ some x
      → state_weight w (activated s a payment x) ≡ state_weight w s
  unfolding activated player_weight
  activated-weight s a payment x e =
      let paid = record (get s.players a.player) { mana = payment.bank } in
      weight-put_same w s.players s.stack a.player _
        (weight-rewrite w paid a.position x (exhaust x) (same a.position e) refl)
    where
      same :
          (at : Position)
          → summon_at (get s.players a.player) at ≡ some x
          → summon_at (record (get s.players a.player) { mana = payment.bank }) at ≡ some x
      same Position.main h = h
      same (Position.bench slot) h = h

  resolve_skill-weight :
      (s : GameState) (a : SkillActivation) (payment : Payment) (x : SummonInstance)
      (effects : List EffectLeaf)
      → summon_at (get s.players a.player) a.position ≡ some x
      → state_weight w (resolve_skill s a payment x effects).state ≡ state_weight w s
  unfolding resolve_skill
  resolve_skill-weight s a payment x effects e =
      apply_leaves-weight w (activated s a payment x) _ a.targets effects
      ∙ activated-weight s a payment x e

  recovered-weight :
      (s : GameState) (p : PlayerId) (i : ℕ) (c : CardRef)
      → get_elem? (get s.players p).prizes i ≡ some c
      → state_weight w (
          with_player s p (record (get s.players p) {
            prizes = remove_at i (get s.players p).prizes;
            hand = (get s.players p).hand ++ c ∷ [];
          }))
        ≡ state_weight w s
  unfolding player_weight
  recovered-weight s p i c e = weight-put_same w s.players s.stack p _ (
      omega (
        arith,
        sum_by-remove_at w i (get s.players p).prizes e,
        sum_by-append w (get s.players p).hand (c ∷ []),
      ))

  bank-weight :
      (s : GameState) (p : PlayerId) (t : ManaType)
      → state_weight w (with_player s p (bank (get s.players p) t)) ≡ state_weight w s
  bank-weight s p t = weight-put_same w s.players s.stack p _ (player_weight-bank w _ t)

  -- An action that its handler accepts makes no card, and loses none but the Main Summon that a
  -- chosen Promotion writes over, if one stands there: under every weight, what it leaves and
  -- what is written over weigh as much as before.
  pub dispatch-weight :
      (s : GameState) (action : GameAction) {o : ActionOutcome}
      → dispatch s action ≡ ok o
      → state_weight w o.state + summon_weight w (overwritten_by_action s action) ≡ state_weight w s
  unfolding dispatch overwritten_by_action
  dispatch-weight s (GameAction.play_summon p card slot) h =
      let i = play_summon-eq-ok s p card slot h in
      omega (arith, ap (state_weight w) i.state, played-weight w s p card _ _ slot i.found i.empty)
  dispatch-weight s (GameAction.upgrade_summon p card at) h =
      let i = upgrade_summon-eq-ok s p card at h in
      omega
        (arith, ap (state_weight w) i.state, upgraded-weight w s p card _ _ at _ i.found i.stands)
  dispatch-weight s (GameAction.cast_spell p card targets hint) h =
      let i = cast_spell-eq-ok s p card targets hint h in
      omega (arith, ap (state_weight w) i.state, casting-weight w s p card _ _ targets _ i.found)
  dispatch-weight s (GameAction.activate_skill p at ability targets hint) h =
      let i = activate_skill-eq-ok s _ h in
      omega (
        arith,
        ap (λ (o : ActionOutcome). state_weight w o.state) i.outcome,
        resolve_skill-weight s _ i.payment i.summon _ i.stands,
      )
  dispatch-weight s (GameAction.retreat p slot hint) h =
      let i = retreat-eq-ok s p slot hint h in
      omega (
        arith,
        ap (state_weight w) i.state,
        retreated-weight w s p slot i.payment _ _ i.in_main i.on_bench,
      )
  dispatch-weight s (GameAction.declare_attack p target hint) h =
      let i = declare_attack-eq-ok s p target hint h in
      omega (arith, ap (state_weight w) i.state, declared-weight w s p target i.payment)
  dispatch-weight s (GameAction.end_turn p) h =
      let i = end_turn-eq-ok s p h in
      omega (arith, ap (λ (o : ActionOutcome). state_weight w o.state) i.outcome)
  dispatch-weight s (GameAction.pass_priority p) h =
      let i = pass-eq-ok s p h in
      omega (
        arith,
        ap (λ (o : ActionOutcome). state_weight w o.state) i.outcome,
        pass-weight s p i.window.prior_pass,
      )
  dispatch-weight s (GameAction.convert_coin p t) h =
      let i = convert_coin-eq-ok s p t h in
      omega (arith, ap (state_weight w) i.state, bank-weight s p t)
  dispatch-weight s (GameAction.choose_mana_type p t) h =
      let i = choose_mana_type-eq-ok s p t h in
      omega (arith, ap (state_weight w) i.state, bank-weight s p t)
  dispatch-weight s (GameAction.choose_promotion p slot) h =
      let i = answer_promotion-eq-ok s p slot h in
      omega (arith, ap (state_weight w) i.state, promote_from_slot-weight w s p slot i.occupied)
  dispatch-weight s (GameAction.choose_prize p n) h =
      let i = answer_prize-eq-ok s p n h in
      omega (arith, ap (state_weight w) i.state, recovered-weight s (opponent p) n i.card i.chosen)
  dispatch-weight s (GameAction.resign p) h =
      omega (arith, ap (λ (o : ActionOutcome). state_weight w o.state) (sym (ok-injective h refl)))
