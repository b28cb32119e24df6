-- ===== src/Conservation/Leaves.antt =====
-- The weight of the cards across each effect leaf: crates/core/src/engine/effects/mod.rs.
use summoners.Prelude.{
  ℕ, zero, suc, ◌≡◌, refl, ap, ◌∙◌, Option, none, some, List, [], ◌∷◌, ◌++◌, sum_by, sum_by-append,
  arith, inl, inr, Bool-cases, Option-cases, ltb, length,
}
use summoners.Domain.Ids.{PlayerId, Position, ManaType}
use summoners.Domain.Cards.{EffectLeaf, EffectSource, DamageEffect}
use summoners.Domain.State.{GameState, PlayerState, CardRef, get, summon_at, is_playing, ManaSource}
use summoners.Engine.Damage.{DamageResolution, commit}
use summoners.Engine.Loss.{draw_failure}
use summoners.Conservation.Moves.{
  update_summon-weight, mark_chain, move-weight, swap-weight, swap_opposing-weight,
  from_discard-weight, to_deck_top-weight,
}
use summoners.Engine.Upkeep.{produce_mana, produce_from, bank, make_ready}
use summoners.Engine.Effects.{
  apply_leaf, apply_leaves, cannot_be_moved_by_opponent, heal, draw_cards, deal_damage,
  produce_mana_leaf, ready_summon, look_at_prizes, draw_up_to, mark,
}
use summoners.Conservation.Weight.{player_weight, state_weight, weight-put_same, weight-rewrite}

module _ (w : CardRef → ℕ) where
  heal-weight :
      (s : GameState) (p : PlayerId) (at : Option Position) (n : ℕ)
      → state_weight w (heal s p at n).0 ≡ state_weight w s
  unfolding heal
  heal-weight s p none n = refl
  heal-weight s p (some at) n = elim (Option-cases (summon_at (get s.players p) at)) [
    | inl e ↦ rw (e, heal)
    | inr (x, e) ↦
        rw (e, heal)
          (weight-put_same w s.players s.stack p _
            (weight-rewrite w (get s.players p) at x _ e refl))
  ]

  draw_up_to-weight :
      (n : ℕ) (p : PlayerId) (deck : List CardRef) (ps : PlayerState)
      → ps.deck ≡ deck
      → player_weight w (draw_up_to n p deck ps).0 ≡ player_weight w ps
  unfolding draw_up_to
  draw_up_to-weight zero p deck ps e = refl
  draw_up_to-weight (suc n) p [] ps e = refl
  draw_up_to-weight (suc n) p (c ∷ deck) ps e = draw_up_to-weight n p deck _ refl ∙ moved
    where
      moved :
          player_weight w (record ps { deck = deck; hand = ps.hand ++ c ∷ [] }) ≡ player_weight w ps
      moved =
          unfold player_weight in omega (arith, ap (sum_by w) e, sum_by-append w ps.hand (c ∷ []))

  draw-weight :
      (s : GameState) (p : PlayerId) (n : ℕ)
      → state_weight w (draw_cards s p n).0 ≡ state_weight w s
  unfolding draw_cards draw_failure
  draw-weight s p n =
      let drawn =
        weight-put_same w s.players s.stack p _
          (draw_up_to-weight n p (get s.players p).deck (get s.players p) refl) in
      elim (Bool-cases (ltb (length (get s.players p).deck) n)) [
        | inl e ↦ rw (e, draw_cards) drawn
        | inr e ↦ rw (e, draw_cards) drawn
      ]

  commit-weight :
      (s : GameState) (r : DamageResolution) → state_weight w (commit s r).0 ≡ state_weight w s
  unfolding commit
  commit-weight s r =
      let target = r.context.target in
      elim (Option-cases (summon_at (get s.players target.controller) target.position)) [
        | inl e ↦ rw (e, commit)
        | inr (x, e) ↦
            rw (e, commit)
              (weight-put_same w s.players s.stack target.controller _
                (weight-rewrite w (get s.players target.controller) target.position x _ e refl))
      ]

  damage-weight :
      (s : GameState) (source : EffectSource) (ts : List Position) (e : DamageEffect)
      → state_weight w (deal_damage s source ts e).0 ≡ state_weight w s
  unfolding deal_damage
  damage-weight s source [] e = refl
  damage-weight s source (at ∷ _) e = commit-weight s _

  pub player_weight-bank :
      (ps : PlayerState) (t : ManaType) → player_weight w (bank ps t) ≡ player_weight w ps
  unfolding bank player_weight
  player_weight-bank ps t = refl

  produce_from-weight :
      (s : GameState) (p : PlayerId) (source : ManaSource) (types : List ManaType)
      → state_weight w (produce_from s p source types).0 ≡ state_weight w s
  unfolding produce_from
  produce_from-weight s p source [] = refl
  produce_from-weight s p source (t ∷ []) =
      weight-put_same w s.players s.stack p _ (player_weight-bank (get s.players p) t)
  produce_from-weight s p source (_ ∷ _ ∷ _) = refl

  pub produce_mana-weight :
      (s : GameState) (p : PlayerId) (source : ManaSource)
      → state_weight w (produce_mana s p source).0 ≡ state_weight w s
  unfolding produce_mana
  produce_mana-weight s p source = produce_from-weight s p source _

  produce_leaf-weight :
      (s : GameState) (p : PlayerId) (at : Option Position)
      → state_weight w (produce_mana_leaf s p at).0 ≡ state_weight w s
  unfolding produce_mana_leaf
  produce_leaf-weight s p none = refl
  produce_leaf-weight s p (some at) = produce_mana-weight s p _

  ready-weight :
      (s : GameState) (p : PlayerId) (ts : List Position)
      → state_weight w (ready_summon s p ts).0 ≡ state_weight w s
  unfolding ready_summon
  ready-weight s p [] = refl
  ready-weight s p (at ∷ _) = update_summon-weight w s p at make_ready _ (λ x. refl)

  marked-weight :
      (s : GameState) (p : PlayerId) (at : Option Position)
      → state_weight w (cannot_be_moved_by_opponent s p at).0 ≡ state_weight w s
  unfolding cannot_be_moved_by_opponent
  marked-weight s p none = refl
  marked-weight s p (some at) = update_summon-weight w s p at mark [] (mark_chain w)

  pub apply_leaf-weight :
      (s : GameState) (source : EffectSource) (targets : List Position) (leaf : EffectLeaf)
      → state_weight w (apply_leaf s source targets leaf).0 ≡ state_weight w s
  unfolding apply_leaf look_at_prizes
  apply_leaf-weight s source ts (EffectLeaf.deal_damage e) = damage-weight s source ts e
  apply_leaf-weight s source ts (EffectLeaf.heal n t) = heal-weight s _ _ n
  apply_leaf-weight s source ts (EffectLeaf.draw_cards n) = draw-weight s _ n
  apply_leaf-weight s source ts EffectLeaf.move_summon = move-weight w s _ ts
  apply_leaf-weight s source ts EffectLeaf.swap_positions = swap-weight w s _ ts
  apply_leaf-weight s source ts (EffectLeaf.produce_mana t) = produce_leaf-weight s _ _
  apply_leaf-weight s source ts EffectLeaf.ready_summon = ready-weight s _ ts
  apply_leaf-weight s source ts (EffectLeaf.cannot_be_moved_by_opponent t) = marked-weight s _ _
  apply_leaf-weight s source ts EffectLeaf.return_spell_from_discard = from_discard-weight w s _
  apply_leaf-weight s source ts EffectLeaf.return_spell_to_deck_top = to_deck_top-weight w s _
  apply_leaf-weight s source ts EffectLeaf.swap_opposing_positions = swap_opposing-weight w s _ ts
  apply_leaf-weight s source ts EffectLeaf.look_at_prizes = refl
  apply_leaf-weight s source ts (EffectLeaf.block_responses _ _) = refl

  -- Effect leaves make and lose no card: under every weight of a card, all zones and the Stack
  -- weigh the same after any list of leaves.
  pub apply_leaves-weight :
      (s : GameState) (source : EffectSource) (targets : List Position) (leaves : List EffectLeaf)
      → state_weight w (apply_leaves s source targets leaves).0 ≡ state_weight w s
  unfolding apply_leaves
  apply_leaves-weight s source ts [] = refl
  apply_leaves-weight s source ts (leaf ∷ leaves) =
      let s' = (apply_leaf s source ts leaf).0 in
      let first = apply_leaf-weight s source ts leaf in
      elim (Bool-cases (is_playing s'.status)) [
        | inl e ↦ rw (e, apply_leaves) (apply_leaves-weight s' source ts leaves ∙ first)
        | inr e ↦ rw (e, apply_leaves) first
      ]
