-- ===== src/Frame/Leaves.antt =====
-- What the effect interpreter of crates/core/src/engine/effects/mod.rs leaves alone.
use summoners.Prelude.{
  ℕ, ◌≡◌, refl, ◌∙◌, Option, none, some, List, [], ◌∷◌, arith, inl, inr, Bool-cases, Option-cases,
  is_some,
}
use summoners.Prelude.Arrays.{get_at}
use summoners.Domain.Ids.{PlayerId, Position, BenchSlot, index}
use summoners.Domain.Cards.{EffectLeaf, EffectSource, DamageEffect}
use summoners.Domain.State.{GameState, get}
use summoners.Engine.Damage.{commit}
use summoners.Engine.Loss.{draw_failure}
use summoners.Engine.Upkeep.{produce_mana}
use summoners.Engine.Effects.{
  apply_leaf, apply_leaves, cannot_be_moved_by_opponent, return_spell_from_discard,
  return_spell_to_deck_top, swap_positions, swap_opposing_positions, move_summon, heal, draw_cards,
  deal_damage, move_between, produce_mana_leaf, ready_summon, look_at_prizes,
}

pub record Frame (s t : GameState) : Type 0 where
  pub stack : t.stack ≡ s.stack
  pub bases : t.stack_segment_bases ≡ s.stack_segment_bases
  pub turn : t.turn ≡ s.turn
  pub coin : t.coin ≡ s.coin
  pub cards : t.cards ≡ s.cards

pub Frame-refl : (s : GameState) → Frame s s
Frame-refl s = record { stack = refl; bases = refl; turn = refl; coin = refl; cards = refl }

pub Frame-trans : {s t u : GameState} → Frame s t → Frame t u → Frame s u
Frame-trans f g = record {
  stack = g.stack ∙ f.stack;
  bases = g.bases ∙ f.bases;
  turn = g.turn ∙ f.turn;
  coin = g.coin ∙ f.coin;
  cards = g.cards ∙ f.cards;
}

cannot_be_moved-Frame :
    (s : GameState) (p : PlayerId) (at : Option Position)
    → Frame s (cannot_be_moved_by_opponent s p at).0
unfolding cannot_be_moved_by_opponent
cannot_be_moved-Frame s p none = Frame-refl s
cannot_be_moved-Frame s p (some at) = ground arith

discard-Frame : (s : GameState) (p : PlayerId) → Frame s (return_spell_from_discard s p).0
unfolding return_spell_from_discard
discard-Frame s p = ground arith

deck_top-Frame : (s : GameState) (p : PlayerId) → Frame s (return_spell_to_deck_top s p).0
unfolding return_spell_to_deck_top
deck_top-Frame s p = ground arith

swap-Frame : (s : GameState) (p : PlayerId) (ts : List Position) → Frame s (swap_positions s p ts).0
unfolding swap_positions
swap-Frame s p [] = Frame-refl s
swap-Frame s p (Position.main ∷ _) = Frame-refl s
swap-Frame s p (Position.bench slot ∷ _) = ground arith

swap_opposing-Frame :
    (s : GameState) (p : PlayerId) (ts : List Position) → Frame s (swap_opposing_positions s p ts).0
unfolding swap_opposing_positions
swap_opposing-Frame s p [] = Frame-refl s
swap_opposing-Frame s p (Position.main ∷ _) = Frame-refl s
swap_opposing-Frame s p (Position.bench slot ∷ _) = ground arith

move_between-Frame :
    (s : GameState) (p : PlayerId) (from to : BenchSlot) → Frame s (move_between s p from to).0
unfolding move_between
move_between-Frame s p from to =
    elim (Bool-cases (is_some (get_at (get s.players p).bench (index to)))) [
      | inl e ↦ rw (e, move_between) (Frame-refl s)
      | inr e ↦ elim (Option-cases (get_at (get s.players p).bench (index from))) [
        | inl f ↦ rw (e, f, move_between) (Frame-refl s)
        | inr (summon, f) ↦
            rw (e, f, move_between)
              (record { stack = refl; bases = refl; turn = refl; coin = refl; cards = refl })
      ]
    ]

move-Frame : (s : GameState) (p : PlayerId) (ts : List Position) → Frame s (move_summon s p ts).0
unfolding move_summon
move-Frame s p [] = Frame-refl s
move-Frame s p (Position.main ∷ _) = Frame-refl s
move-Frame s p (Position.bench from ∷ []) = Frame-refl s
move-Frame s p (Position.bench from ∷ Position.main ∷ _) = Frame-refl s
move-Frame s p (Position.bench from ∷ Position.bench to ∷ _) = move_between-Frame s p from to

heal-Frame :
    (s : GameState) (p : PlayerId) (at : Option Position) (n : ℕ) → Frame s (heal s p at n).0
unfolding heal
heal-Frame s p none n = Frame-refl s
heal-Frame s p (some at) n = ground arith

draw-Frame : (s : GameState) (p : PlayerId) (n : ℕ) → Frame s (draw_cards s p n).0
unfolding draw_cards draw_failure
draw-Frame s p n = ground arith

damage-Frame :
    (s : GameState) (source : EffectSource) (ts : List Position) (e : DamageEffect)
    → Frame s (deal_damage s source ts e).0
unfolding deal_damage commit
damage-Frame s source [] e = Frame-refl s
damage-Frame s source (at ∷ _) e = ground arith

produce-Frame :
    (s : GameState) (p : PlayerId) (at : Option Position) → Frame s (produce_mana_leaf s p at).0
unfolding produce_mana_leaf produce_mana
produce-Frame s p none = Frame-refl s
produce-Frame s p (some at) = ground arith

ready-Frame : (s : GameState) (p : PlayerId) (ts : List Position) → Frame s (ready_summon s p ts).0
unfolding ready_summon
ready-Frame s p [] = Frame-refl s
ready-Frame s p (at ∷ _) = ground arith

pub apply_leaf-Frame :
    (s : GameState) (source : EffectSource) (targets : List Position) (leaf : EffectLeaf)
    → Frame s (apply_leaf s source targets leaf).0
unfolding apply_leaf look_at_prizes
apply_leaf-Frame s source ts (EffectLeaf.deal_damage e) = damage-Frame s source ts e
apply_leaf-Frame s source ts (EffectLeaf.heal n t) = heal-Frame s _ _ n
apply_leaf-Frame s source ts (EffectLeaf.draw_cards n) = draw-Frame s _ n
apply_leaf-Frame s source ts EffectLeaf.move_summon = move-Frame s _ ts
apply_leaf-Frame s source ts EffectLeaf.swap_positions = swap-Frame s _ ts
apply_leaf-Frame s source ts (EffectLeaf.produce_mana t) = produce-Frame s _ _
apply_leaf-Frame s source ts EffectLeaf.ready_summon = ready-Frame s _ ts
apply_leaf-Frame s source ts (EffectLeaf.cannot_be_moved_by_opponent t) =
    cannot_be_moved-Frame s _ _
apply_leaf-Frame s source ts EffectLeaf.return_spell_from_discard = discard-Frame s _
apply_leaf-Frame s source ts EffectLeaf.return_spell_to_deck_top = deck_top-Frame s _
apply_leaf-Frame s source ts EffectLeaf.swap_opposing_positions = swap_opposing-Frame s _ ts
apply_leaf-Frame s source ts EffectLeaf.look_at_prizes = Frame-refl s
apply_leaf-Frame s source ts (EffectLeaf.block_responses _ _) = Frame-refl s

-- Effect leaves change neither the Stack nor its segment bases, nor the turn, the Coin or the
-- card pool.
pub apply_leaves-Frame :
    (s : GameState) (source : EffectSource) (targets : List Position) (leaves : List EffectLeaf)
    → Frame s (apply_leaves s source targets leaves).0
unfolding apply_leaves
apply_leaves-Frame s source targets [] = Frame-refl s
apply_leaves-Frame s source targets (leaf ∷ leaves) =
    let first = apply_leaf-Frame s source targets leaf in
    let later =
      Frame-trans first
        (apply_leaves-Frame (apply_leaf s source targets leaf).0 source targets leaves) in
    ground arith
