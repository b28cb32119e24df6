-- ===== src/Conservation/Drain.antt =====
-- The weight of the cards across the resolution loop: engine/resolution/mod.rs.
use summoners.Prelude.{
  ℕ, ◌+◌, ◌≤◌, ◌≡◌, ap, ◌∙◌, sym, some, List, [], ◌∷◌, ◌++◌, sum_by-append, arith, inl, inr,
  Bool-cases, Option-cases, List-cases,
}
use summoners.Domain.Ids.{PlayerId, Position}
use summoners.Domain.State.{GameState, StackItem, CardRef, get}
use summoners.Domain.Events.{GameEvent}
use summoners.Engine.Effects.{apply_leaves}
use summoners.Engine.Resolution.{
  drain, resolve_top_stack_item, resolve_item, resolve_attack, resolve_spell, place_card, persists,
  spell_effects, settle_segment, attacker_effects,
}
use summoners.Rounds.{Round, drain-induction}
use summoners.Conservation.Weight.{
  player_weight, state_weight, zones_weight, weight-put, weight-push, item_weight,
}
use summoners.Conservation.Leaves.{apply_leaves-weight}
use summoners.Conservation.Work.{execute-weight}

module _ (w : CardRef → ℕ) where
  place_card-weight :
      (s : GameState) (p : PlayerId) (c : CardRef)
      → state_weight w (place_card s p c) ≡ state_weight w s + w c
  unfolding place_card player_weight
  place_card-weight s p c =
      let ps = get s.players p in
      elim (Bool-cases (persists s.cards c.def)) [
        | inl e ↦
            rw (e, place_card)
              (omega (
                arith,
                weight-put w s.players s.stack p
                    (record ps { enchantments = ps.enchantments ++ c ∷ [] }),
                sum_by-append w ps.enchantments (c ∷ []),
              ))
        | inr e ↦
            rw (e, place_card)
              (omega (
                arith,
                weight-put w s.players s.stack p (record ps { discard = ps.discard ++ c ∷ [] }),
                sum_by-append w ps.discard (c ∷ []),
              ))
      ]

  attack-weight :
      (s : GameState) (p : PlayerId) (at : Position)
      → state_weight w (resolve_attack s p at).0 ≡ state_weight w s
  unfolding resolve_attack
  attack-weight s p at = elim (Option-cases (attacker_effects s p)) [
    | inl e ↦ rw (e, resolve_attack)
    | inr ((ability, effects), e) ↦
        rw (e, resolve_attack) (apply_leaves-weight w s _ (at ∷ []) effects)
  ]

  resolve_item-weight :
      (s : GameState) (item : StackItem)
      → state_weight w (resolve_item s item).0 ≡ state_weight w s + item_weight w item
  unfolding resolve_item resolve_spell
  resolve_item-weight s (StackItem.attack p at) = omega (arith, attack-weight s p at)
  resolve_item-weight s (StackItem.spell p c targets) =
      place_card-weight (apply_leaves s _ targets (spell_effects s.cards c.def)).0 p c
      ∙ ap (λ n. n + w c) (apply_leaves-weight w s _ targets (spell_effects s.cards c.def))
  resolve_item-weight s (StackItem.trigger p at ability event targets effects) =
      omega (arith, apply_leaves-weight w s _ targets effects)

  -- Resolving the top of the Stack makes and loses no card: under every weight, all zones and
  -- the Stack weigh the same, a cast card leaving the Stack for its caster's Enchantments or
  -- discard pile.
  pub resolve_top-weight :
      (s : GameState) → state_weight w (resolve_top_stack_item s).0 ≡ state_weight w s
  unfolding resolve_top_stack_item settle_segment
  resolve_top-weight s = elim (List-cases s.stack) [
    | inl e ↦ rw (e, resolve_top_stack_item) (ap (zones_weight w s.players) e)
    | inr (item, below, e) ↦
        rw (e, resolve_top_stack_item)
          (resolve_item-weight (record s { stack = below }) item
            ∙ sym (weight-push w s.players item below))
  ]

  Round-weight :
      (s : GameState) (o : GameState × List GameEvent)
      → Round s o
      → state_weight w o.0 ≤ state_weight w s
  Round-weight s o (Round.resolves _ _ e) =
      omega
        (arith, ap (λ (x : GameState × List GameEvent). state_weight w x.0) e, resolve_top-weight s)
  Round-weight s o (Round.works item work _ _ _ e) = omega (
    arith,
    ap (λ (x : GameState × List GameEvent). state_weight w x.0) e,
    execute-weight w (record s { work = work }) item,
  )

  -- Running the work and the Stack to the end never makes a card: under every weight the cards
  -- weigh at most what they did before.
  pub drain-weight :
      (fuel : ℕ) (s : GameState) {o : GameState × List GameEvent}
      → drain fuel s ≡ some o
      → state_weight w o.0 ≤ state_weight w s
  drain-weight fuel s h =
      drain-induction (λ a b. state_weight w b ≤ state_weight w a) (λ a. omega arith)
        (λ a b c f g. omega (arith, f, g)) Round-weight fuel s h
