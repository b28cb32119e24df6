-- ===== src/Conservation/Moves.antt =====
-- The effect leaves that move cards: between two piles, and between two board positions.
use summoners.Prelude.{
  ℕ, ◌+◌, ◌≡◌, refl, ap, none, some, List, [], ◌∷◌, sum_by, sum_by-append, sum_by-remove_at,
  get_elem?-position, position, remove_at, arith, Bool, is_some-none, inl, inr, Bool-cases,
  Option-cases, is_some,
}
use summoners.Prelude.Arrays.{get_at, set_at}
use summoners.Domain.Ids.{PlayerId, Position, BenchSlot, index, opponent}
use summoners.Domain.State.{GameState, PlayerState, SummonInstance, CardRef, get, summon_at}
use summoners.Domain.Events.{GameEvent}
use summoners.Engine.Effects.{
  return_spell_from_discard, update_summon, return_spell_to_deck_top, swap_positions,
  swap_opposing_positions, move_summon, move_between, swap_main, is_spell, mark, has_marker,
}
use summoners.Conservation.Weight.{
  player_weight, state_weight, weight-put_same, weight-rewrite, weight-exchange, summon_weight,
}

module _ (w : CardRef → ℕ) where
  pub update_summon-weight :
      (s : GameState) (p : PlayerId) (at : Position) (f : SummonInstance → SummonInstance)
      (events : List GameEvent)
      → ((x : SummonInstance) → (f x).chain ≡ x.chain)
      → state_weight w (update_summon s p at f events).0 ≡ state_weight w s
  update_summon-weight s p at f events keep = elim (Option-cases (summon_at (get s.players p) at)) [
    | inl e ↦ rw (e, update_summon)
    | inr (x, e) ↦
        rw (e, update_summon)
          (weight-put_same w s.players s.stack p _
            (weight-rewrite w (get s.players p) at x (f x) e (keep x)))
  ]

  pub swap_main-weight :
      (s : GameState) (p : PlayerId) (slot : BenchSlot)
      → state_weight w (swap_main s p slot).0 ≡ state_weight w s
  swap_main-weight s p slot = elim (Option-cases ((get s.players p).main)) [
    | inl e ↦ rw (e, swap_main)
    | inr (v, e) ↦ elim (Option-cases (get_at (get s.players p).bench (index slot))) [
      | inl f ↦ rw (e, f, swap_main)
      | inr (i, f) ↦
          rw (e, f, swap_main)
            (weight-put_same w s.players s.stack p _
              (weight-exchange w (get s.players p) slot v i e f))
    ]
  ]

  pub mark_chain : (x : SummonInstance) → (mark x).chain ≡ x.chain
  mark_chain x = ground arith

  -- What a list loses at the index that `position` found is the card found there.
  pub position-weight :
      (p : CardRef → Bool) (xs : List CardRef) {i : ℕ} {c : CardRef}
      → position p xs ≡ some (i, c)
      → sum_by w (remove_at i xs) + w c ≡ sum_by w xs
  position-weight p xs {i} e = sum_by-remove_at w i xs (get_elem?-position p xs e)

  pub from_discard-weight :
      (s : GameState) (p : PlayerId)
      → state_weight w (return_spell_from_discard s p).0 ≡ state_weight w s
  unfolding return_spell_from_discard player_weight
  from_discard-weight s p =
      let ps = get s.players p in
      elim (Option-cases (position (is_spell s.cards) ps.discard)) [
        | inl e ↦ rw (e, return_spell_from_discard)
        | inr ((i, c), e) ↦
            rw (e, return_spell_from_discard)
              (weight-put_same w s.players s.stack p _ (
                omega (
                  arith,
                  position-weight (is_spell s.cards) ps.discard e,
                  sum_by-append w ps.hand (c ∷ []),
                )))
      ]

  pub to_deck_top-weight :
      (s : GameState) (p : PlayerId)
      → state_weight w (return_spell_to_deck_top s p).0 ≡ state_weight w s
  unfolding return_spell_to_deck_top player_weight
  to_deck_top-weight s p =
      let ps = get s.players p in
      elim (Option-cases (position (is_spell s.cards) ps.hand)) [
        | inl e ↦ rw (e, return_spell_to_deck_top)
        | inr ((i, c), e) ↦
            rw (e, return_spell_to_deck_top)
              (weight-put_same w s.players s.stack p _
                (omega (arith, position-weight (is_spell s.cards) ps.hand e)))
      ]

  pub swap-weight :
      (s : GameState) (p : PlayerId) (ts : List Position)
      → state_weight w (swap_positions s p ts).0 ≡ state_weight w s
  unfolding swap_positions
  swap-weight s p [] = refl
  swap-weight s p (Position.main ∷ _) = refl
  swap-weight s p (Position.bench slot ∷ _) = swap_main-weight s p slot

  pub swap_opposing-weight :
      (s : GameState) (p : PlayerId) (ts : List Position)
      → state_weight w (swap_opposing_positions s p ts).0 ≡ state_weight w s
  unfolding swap_opposing_positions
  swap_opposing-weight s p [] = refl
  swap_opposing-weight s p (Position.main ∷ _) = refl
  swap_opposing-weight s p (Position.bench slot ∷ _) =
      elim (Option-cases ((get s.players (opponent p)).main)) [
        | inl e ↦ rw (e, swap_opposing_positions)
        | inr (v, e) ↦ elim (Bool-cases (has_marker v.duration_markers)) [
          | inl m ↦ rw (e, m, swap_opposing_positions)
          | inr m ↦ rw (e, m, swap_opposing_positions) (swap_main-weight s (opponent p) slot)
        ]
      ]

  pub weight-move :
      (ps : PlayerState) (from to : BenchSlot) (x : SummonInstance)
      → get_at ps.bench (index from) ≡ some x
      → get_at ps.bench (index to) ≡ none
      → player_weight w
          (record ps { bench = set_at (set_at ps.bench (index from) none) (index to) (some x) })
        ≡ player_weight w ps
  unfolding player_weight
  weight-move ps BenchSlot.first BenchSlot.first x e f = cc
  weight-move ps BenchSlot.first BenchSlot.second x e f =
      omega (arith, ap (summon_weight w) e, ap (summon_weight w) f)
  weight-move ps BenchSlot.first BenchSlot.third x e f =
      omega (arith, ap (summon_weight w) e, ap (summon_weight w) f)
  weight-move ps BenchSlot.second BenchSlot.first x e f =
      omega (arith, ap (summon_weight w) e, ap (summon_weight w) f)
  weight-move ps BenchSlot.second BenchSlot.second x e f = cc
  weight-move ps BenchSlot.second BenchSlot.third x e f =
      omega (arith, ap (summon_weight w) e, ap (summon_weight w) f)
  weight-move ps BenchSlot.third BenchSlot.first x e f =
      omega (arith, ap (summon_weight w) e, ap (summon_weight w) f)
  weight-move ps BenchSlot.third BenchSlot.second x e f =
      omega (arith, ap (summon_weight w) e, ap (summon_weight w) f)
  weight-move ps BenchSlot.third BenchSlot.third x e f = cc

  pub move_between-weight :
      (s : GameState) (p : PlayerId) (from to : BenchSlot)
      → state_weight w (move_between s p from to).0 ≡ state_weight w s
  unfolding move_between
  move_between-weight s p from to =
      let ps = get s.players p in
      elim (Bool-cases (is_some (get_at ps.bench (index to)))) [
        | inl e ↦ rw (e, move_between)
        | inr e ↦ elim (Option-cases (get_at ps.bench (index from))) [
          | inl f ↦ rw (e, f, move_between)
          | inr (x, f) ↦
              rw (e, f, move_between)
                (weight-put_same w s.players s.stack p _
                  (weight-move ps from to x f (is_some-none _ e)))
        ]
      ]

  pub move-weight :
      (s : GameState) (p : PlayerId) (ts : List Position)
      → state_weight w (move_summon s p ts).0 ≡ state_weight w s
  unfolding move_summon
  move-weight s p [] = refl
  move-weight s p (Position.main ∷ _) = refl
  move-weight s p (Position.bench from ∷ []) = refl
  move-weight s p (Position.bench from ∷ Position.main ∷ _) = refl
  move-weight s p (Position.bench from ∷ Position.bench to ∷ _) = move_between-weight s p from to
