-- ===== src/Segments/Dispatch.antt =====
-- The Stack and its segments across a whole `apply`: crates/core/src/engine/apply/mod.rs.
use summoners.Prelude.{
  ℕ, suc, ◌≡◌, refl, sym, subst, Bool, true, false, List, [], ◌∷◌, length, arith, inl, inr, ok,
  ok-injective, List-cases, if◌then◌else◌,
}
use summoners.Domain.Ids.{PlayerId}
use summoners.Domain.Actions.{GameAction}
use summoners.Domain.Cards.{EffectLeaf}
use summoners.Domain.State.{GameState, SummonInstance}
use summoners.Engine.Outcome.{ActionOutcome}
use summoners.Engine.Payment.{Payment}
use summoners.Engine.Board.{played, upgraded, retreated}
use summoners.Engine.Priority.{close_window, move_priority, declared, casting}
use summoners.Engine.Turn.{handover, begin_turn}
use summoners.Engine.Triggers.{discover_back}
use summoners.Engine.Skills.{SkillActivation, activated, resolve_skill}
use summoners.Engine.Apply.{dispatch}
use summoners.Frame.Leaves.{apply_leaves-Frame}
use summoners.Handlers.Main.{
  play_summon-eq-ok, upgrade_summon-eq-ok, retreat-eq-ok, activate_skill-eq-ok,
}
use summoners.Handlers.Window.{declare_attack-eq-ok, cast_spell-eq-ok, pass-eq-ok}
use summoners.Handlers.Answers.{
  end_turn-eq-ok, convert_coin-eq-ok, choose_mana_type-eq-ok, answer_promotion-eq-ok,
  answer_prize-eq-ok,
}
use summoners.Segments.Kept.{SameStack, promote_from_slot-SameStack}
use summoners.Segments.Invariant.{one_segment, IsSegmented, SameStack-IsSegmented}

-- A further item on the Stack leaves the segments as they are.
push-one_segment :
    (height : ℕ) (bases : List ℕ)
    → one_segment height bases ≡ true
    → one_segment (suc height) bases ≡ true
push-one_segment height [] h = refl
push-one_segment height (base ∷ []) h = ground (arith, h)
push-one_segment height (_ ∷ _ ∷ _) h = cc

close_window-SameStack : (s : GameState) (p : PlayerId) → SameStack s (close_window s p).state
unfolding close_window handover begin_turn discover_back
close_window-SameStack s p = elim (List-cases s.stack) [
  | inl e ↦ rw (e, close_window) (record { stack = e; bases = refl })
  | inr (item, below, e) ↦ rw (e, close_window) (record { stack = e; bases = refl })
]

pass-SameStack :
    (s : GameState) (p : PlayerId) (prior : Bool)
    → SameStack s (if prior then close_window s p else move_priority s p).state
unfolding move_priority
pass-SameStack s p true = close_window-SameStack s p
pass-SameStack s p false = record { stack = refl; bases = refl }

resolve_skill-SameStack :
    (s : GameState) (a : SkillActivation) (payment : Payment) (x : SummonInstance)
    (effects : List EffectLeaf)
    → SameStack s (resolve_skill s a payment x effects).state
unfolding resolve_skill activated
resolve_skill-SameStack s a payment x effects =
    let f = apply_leaves-Frame (activated s a payment x) _ a.targets effects in
    record { stack = f.stack; bases = f.bases }

-- An accepted action keeps the Stack segmented.
pub dispatch-IsSegmented :
    (s : GameState) (action : GameAction) {o : ActionOutcome}
    → dispatch s action ≡ ok o
    → IsSegmented s
    → IsSegmented o.state
unfolding dispatch played upgraded retreated declared casting
dispatch-IsSegmented s (GameAction.play_summon p card slot) h k =
    subst IsSegmented (sym (play_summon-eq-ok s p card slot h).state) k
dispatch-IsSegmented s (GameAction.upgrade_summon p card at) h k =
    subst IsSegmented (sym (upgrade_summon-eq-ok s p card at h).state) k
dispatch-IsSegmented s (GameAction.cast_spell p card targets hint) h k =
    subst IsSegmented (sym (cast_spell-eq-ok s p card targets hint h).state)
      (push-one_segment (length s.stack) s.stack_segment_bases k)
dispatch-IsSegmented s (GameAction.activate_skill p at ability targets hint) h k =
    let i = activate_skill-eq-ok s _ h in
    subst (λ (o : ActionOutcome). IsSegmented o.state) (sym i.outcome)
      (SameStack-IsSegmented (resolve_skill-SameStack s _ i.payment i.summon _) k)
dispatch-IsSegmented s (GameAction.retreat p slot hint) h k =
    subst IsSegmented (sym (retreat-eq-ok s p slot hint h).state) k
dispatch-IsSegmented s (GameAction.declare_attack p target hint) h k =
    subst IsSegmented (sym (declare_attack-eq-ok s p target hint h).state)
      (push-one_segment (length s.stack) s.stack_segment_bases k)
dispatch-IsSegmented s (GameAction.end_turn p) h k =
    subst (λ (o : ActionOutcome). IsSegmented o.state) (sym (end_turn-eq-ok s p h).outcome) k
dispatch-IsSegmented s (GameAction.pass_priority p) h k =
    let i = pass-eq-ok s p h in
    subst (λ (o : ActionOutcome). IsSegmented o.state) (sym i.outcome)
      (SameStack-IsSegmented (pass-SameStack s p i.window.prior_pass) k)
dispatch-IsSegmented s (GameAction.convert_coin p t) h k =
    subst IsSegmented (sym (convert_coin-eq-ok s p t h).state) k
dispatch-IsSegmented s (GameAction.choose_mana_type p t) h k =
    subst IsSegmented (sym (choose_mana_type-eq-ok s p t h).state) k
dispatch-IsSegmented s (GameAction.choose_promotion p slot) h k =
    subst IsSegmented (sym (answer_promotion-eq-ok s p slot h).state)
      (SameStack-IsSegmented (promote_from_slot-SameStack s p slot) k)
dispatch-IsSegmented s (GameAction.choose_prize p n) h k =
    subst IsSegmented (sym (answer_prize-eq-ok s p n h).state) k
dispatch-IsSegmented s (GameAction.resign p) h k =
    subst (λ (o : ActionOutcome). IsSegmented o.state) (ok-injective refl h) k
