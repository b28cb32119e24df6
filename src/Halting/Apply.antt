-- ===== src/Halting/Apply.antt =====
-- `apply` of crates/core/src/engine/apply/mod.rs answers on a pool without Triggered Abilities.
use summoners.Prelude.{
  ℕ, ◌≡◌, refl, sym, ap, subst, ◌∙◌, Bool, true, false, some, List, ◌++◌, Result, ok, err,
  ok-injective, arith, inl, inr, List-cases, if◌then◌else◌, ◌>>=◌, >>=-eq-ok,
}
use summoners.Domain.Ids.{PlayerId, BenchSlot}
use summoners.Domain.Actions.{GameAction, actor}
use summoners.Domain.Cards.{EffectLeaf}
use summoners.Domain.Errors.{ActionError}
use summoners.Domain.State.{GameState, GameStatus, SummonInstance}
use summoners.Domain.Events.{GameEvent}
use summoners.Engine.Outcome.{ActionOutcome}
use summoners.Engine.Payment.{Payment}
use summoners.Engine.Board.{played, upgraded, retreated}
use summoners.Engine.Priority.{close_window, move_priority, declared, casting}
use summoners.Engine.Turn.{handover, begin_turn}
use summoners.Engine.Triggers.{discover_back}
use summoners.Engine.Skills.{SkillActivation, activated, resolve_skill}
use summoners.Engine.Destruction.{promote_from_slot}
use summoners.Engine.Resolution.{drain}
use summoners.Engine.Apply.{
  apply, apply_by_status, apply_playing, check_actor, dispatch, drain_outcome, drain_result, resign,
}
use summoners.Frame.Leaves.{apply_leaves-Frame}
use summoners.Handlers.Main.{
  play_summon-eq-ok, upgrade_summon-eq-ok, retreat-eq-ok, activate_skill-eq-ok,
}
use summoners.Handlers.Window.{declare_attack-eq-ok, cast_spell-eq-ok, pass-eq-ok}
use summoners.Handlers.Answers.{
  end_turn-eq-ok, convert_coin-eq-ok, choose_mana_type-eq-ok, answer_promotion-eq-ok,
  answer_prize-eq-ok,
}
use summoners.Halting.Quiet.{IsTriggerFree}
use summoners.Halting.Ends.{Halts, drain-Halts}

close_window-cards : (s : GameState) (p : PlayerId) → (close_window s p).state.cards ≡ s.cards
unfolding close_window handover begin_turn discover_back
close_window-cards s p = elim (List-cases s.stack) [
  | inl e ↦ rw (e, close_window)
  | inr (item, below, e) ↦ rw (e, close_window)
]

pass-cards :
    (s : GameState) (p : PlayerId) (prior : Bool)
    → (if prior then close_window s p else move_priority s p).state.cards ≡ s.cards
unfolding move_priority
pass-cards s p true = close_window-cards s p
pass-cards s p false = refl

promote-cards :
    (s : GameState) (p : PlayerId) (slot : BenchSlot)
    → (promote_from_slot s p slot).0.cards ≡ s.cards
unfolding promote_from_slot
promote-cards s p slot = ground arith

skill-cards :
    (s : GameState) (a : SkillActivation) (payment : Payment) (x : SummonInstance)
    (effects : List EffectLeaf)
    → (resolve_skill s a payment x effects).state.cards ≡ s.cards
unfolding resolve_skill activated
skill-cards s a payment x effects =
    (apply_leaves-Frame (activated s a payment x) _ a.targets effects).cards

-- Every handler keeps the card pool.
pub dispatch-cards :
    (s : GameState) (action : GameAction) {o : ActionOutcome}
    → dispatch s action ≡ ok o
    → o.state.cards ≡ s.cards
unfolding dispatch played upgraded retreated declared casting
dispatch-cards s (GameAction.play_summon p card slot) h =
    ap (λ (t : GameState). t.cards) (play_summon-eq-ok s p card slot h).state
dispatch-cards s (GameAction.upgrade_summon p card at) h =
    ap (λ (t : GameState). t.cards) (upgrade_summon-eq-ok s p card at h).state
dispatch-cards s (GameAction.cast_spell p card targets hint) h =
    ap (λ (t : GameState). t.cards) (cast_spell-eq-ok s p card targets hint h).state
dispatch-cards s (GameAction.activate_skill p at ability targets hint) h =
    let i = activate_skill-eq-ok s _ h in
    ap (λ (o : ActionOutcome). o.state.cards) i.outcome ∙ skill-cards s _ i.payment i.summon _
dispatch-cards s (GameAction.retreat p slot hint) h =
    ap (λ (t : GameState). t.cards) (retreat-eq-ok s p slot hint h).state
dispatch-cards s (GameAction.declare_attack p target hint) h =
    ap (λ (t : GameState). t.cards) (declare_attack-eq-ok s p target hint h).state
dispatch-cards s (GameAction.end_turn p) h =
    ap (λ (o : ActionOutcome). o.state.cards) (end_turn-eq-ok s p h).outcome
dispatch-cards s (GameAction.pass_priority p) h =
    let i = pass-eq-ok s p h in
    ap (λ (o : ActionOutcome). o.state.cards) i.outcome ∙ pass-cards s p i.window.prior_pass
dispatch-cards s (GameAction.convert_coin p t) h =
    ap (λ (x : GameState). x.cards) (convert_coin-eq-ok s p t h).state
dispatch-cards s (GameAction.choose_mana_type p t) h =
    ap (λ (x : GameState). x.cards) (choose_mana_type-eq-ok s p t h).state
dispatch-cards s (GameAction.choose_promotion p slot) h =
    ap (λ (x : GameState). x.cards) (answer_promotion-eq-ok s p slot h).state
    ∙ promote-cards s p slot
dispatch-cards s (GameAction.choose_prize p n) h =
    ap (λ (x : GameState). x.cards) (answer_prize-eq-ok s p n h).state
dispatch-cards s (GameAction.resign p) h =
    ap (λ (o : ActionOutcome). o.state.cards) (sym (ok-injective refl h))

-- Some fuel gives an answer, a rejection included.
abbrev pub Answers : GameState → GameAction → Type 0
Answers s action =
    (fuel : ℕ) × (r : Result ActionOutcome ActionError) × (apply fuel s action ≡ some r)

drain_outcome-runs :
    (fuel : ℕ) (mid : ActionOutcome) (s : GameState) (events : List GameEvent)
    → drain fuel mid.state ≡ some (s, events)
    → drain_outcome fuel mid ≡ some (record { state = s; events = mid.events ++ events })
unfolding drain_outcome
drain_outcome-runs fuel mid s events e = rw (e, drain_outcome)

drain_result-runs :
    (r : Result ActionOutcome ActionError)
    → ((mid : ActionOutcome) → r ≡ ok mid → Halts mid.state)
    → (fuel : ℕ) × (a : Result ActionOutcome ActionError) × (drain_result fuel r ≡ some a)
unfolding drain_result
drain_result-runs (err e) halts = (0, err e, refl)
drain_result-runs (ok mid) halts =
    let (fuel, (s, events), e) = halts mid refl in
    (
      fuel,
      ok (record { state = s; events = mid.events ++ events }),
      rw (drain_outcome-runs fuel mid s events e, drain_result),
    )

handled-runs :
    (s : GameState) (action : GameAction)
    → IsTriggerFree s.cards
    → (fuel : ℕ) × (a : Result ActionOutcome ActionError) × (drain_result fuel
          (check_actor s (actor action) >>= λ _. dispatch s action)
        ≡ some a)
handled-runs s action q =
    drain_result-runs (check_actor s (actor action) >>= λ _. dispatch s action) (λ mid e.
      let (_, _, d) = >>=-eq-ok (check_actor s (actor action)) _ e in
      drain-Halts mid.state (subst IsTriggerFree (sym (dispatch-cards s action d)) q))

playing-runs :
    (s : GameState) (action : GameAction)
    → IsTriggerFree s.cards
    → (fuel : ℕ) × (a : Result ActionOutcome ActionError) × (apply_playing fuel s action ≡ some a)
unfolding apply_playing
playing-runs s (GameAction.resign p) q = (0, ok (resign s p), refl)
playing-runs s (GameAction.play_summon p c b) q = handled-runs s (GameAction.play_summon p c b) q
playing-runs s (GameAction.upgrade_summon p c at) q =
    handled-runs s (GameAction.upgrade_summon p c at) q
playing-runs s (GameAction.cast_spell p c ts m) q =
    handled-runs s (GameAction.cast_spell p c ts m) q
playing-runs s (GameAction.activate_skill p at a ts m) q =
    handled-runs s (GameAction.activate_skill p at a ts m) q
playing-runs s (GameAction.retreat p b m) q = handled-runs s (GameAction.retreat p b m) q
playing-runs s (GameAction.declare_attack p at m) q =
    handled-runs s (GameAction.declare_attack p at m) q
playing-runs s (GameAction.end_turn p) q = handled-runs s (GameAction.end_turn p) q
playing-runs s (GameAction.pass_priority p) q = handled-runs s (GameAction.pass_priority p) q
playing-runs s (GameAction.convert_coin p t) q = handled-runs s (GameAction.convert_coin p t) q
playing-runs s (GameAction.choose_mana_type p t) q =
    handled-runs s (GameAction.choose_mana_type p t) q
playing-runs s (GameAction.choose_promotion p b) q =
    handled-runs s (GameAction.choose_promotion p b) q
playing-runs s (GameAction.choose_prize p n) q = handled-runs s (GameAction.choose_prize p n) q

status-runs :
    (s : GameState) (status : GameStatus) (action : GameAction)
    → IsTriggerFree s.cards
    → (fuel : ℕ) × (a : Result ActionOutcome ActionError) × (apply_by_status fuel s status action
        ≡ some a)
unfolding apply_by_status
status-runs s GameStatus.playing action q = playing-runs s action q
status-runs s (GameStatus.ended _) action q = (0, err ActionError.game_already_over, refl)
status-runs s (GameStatus.broken _) action q = (0, err ActionError.game_broken, refl)

-- On a card pool that prints no Triggered Ability, `apply` answers every action in every state,
-- with an outcome or with an error: some fuel is enough.
pub apply-Answers : (s : GameState) (action : GameAction) → IsTriggerFree s.cards → Answers s action
unfolding apply
apply-Answers s action q = status-runs s s.status action q
