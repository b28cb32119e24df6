-- ===== src/Conservation/Actions.antt =====
-- The weight of the cards across the states that the handlers of engine/board/mod.rs and
-- engine/stack/mod.rs build.
use summoners.Prelude.{
  ℕ, ◌+◌, ◌≡◌, refl, ap, none, some, List, [], ◌∷◌, sum_by-append, remove_at, arith,
}
use summoners.Prelude.Arrays.{get_at}
use summoners.Domain.Ids.{PlayerId, Position, BenchSlot, CardInstanceId, index}
use summoners.Domain.State.{GameState, SummonInstance, StackItem, CardRef, get, put, summon_at}
use summoners.Engine.Board
use summoners.Engine.Board.{played_summon, upgraded_summon}
use summoners.Engine.Priority
use summoners.Engine.Priority.{in_hand}
use summoners.Engine.Payment.{Payment}
use summoners.Conservation.Weight.{
  player_weight, state_weight, weight-put, weight-put_same, bench_weight-set, summon_weight,
  weight-push, weight-exchange,
}
use summoners.Conservation.Moves.{position-weight}

module _ (w : CardRef → ℕ) where
  pub played-weight :
      (s : GameState) (p : PlayerId) (card : CardInstanceId) (i : ℕ) (c : CardRef)
      (slot : BenchSlot)
      → in_hand card (get s.players p).hand ≡ some (i, c)
      → get_at (get s.players p).bench (index slot) ≡ none
      → state_weight w (Board.played s p i c slot) ≡ state_weight w s
  unfolding Board.played player_weight
  played-weight s p card i c slot e b = weight-put_same w s.players s.stack p _ (
      omega (
        arith,
        position-weight w _ (get s.players p).hand e,
        bench_weight-set w (get s.players p).bench slot (some (played_summon p c)),
        ap (summon_weight w) b,
      ))

  upgraded_summon-weight :
      (x : SummonInstance) (c : CardRef)
      → summon_weight w (some (upgraded_summon x c)) ≡ summon_weight w (some x) + w c
  upgraded_summon-weight x c = omega (arith, sum_by-append w x.chain.rest (c ∷ []))

  pub upgraded-weight :
      (s : GameState) (p : PlayerId) (card : CardInstanceId) (i : ℕ) (c : CardRef) (at : Position)
      (x : SummonInstance)
      → in_hand card (get s.players p).hand ≡ some (i, c)
      → summon_at (get s.players p) at ≡ some x
      → state_weight w (Board.upgraded s p i c at x) ≡ state_weight w s
  unfolding Board.upgraded player_weight
  upgraded-weight s p card i c Position.main x e b = weight-put_same w s.players s.stack p _ (
      omega (
        arith,
        position-weight w _ (get s.players p).hand e,
        upgraded_summon-weight x c,
        ap (summon_weight w) b,
      ))
  upgraded-weight s p card i c (Position.bench slot) x e b =
      weight-put_same w s.players s.stack p _ (
        omega (
          arith,
          position-weight w _ (get s.players p).hand e,
          upgraded_summon-weight x c,
          bench_weight-set w (get s.players p).bench slot (some (upgraded_summon x c)),
          ap (summon_weight w) b,
        ))

  pub retreated-weight :
      (s : GameState) (p : PlayerId) (slot : BenchSlot) (payment : Payment)
      (vacating incoming : SummonInstance)
      → (get s.players p).main ≡ some vacating
      → get_at (get s.players p).bench (index slot) ≡ some incoming
      → state_weight w (Board.retreated s p slot payment vacating incoming) ≡ state_weight w s
  unfolding Board.retreated player_weight
  retreated-weight s p slot payment vacating incoming m b =
      weight-put_same w s.players s.stack p _ (
        weight-exchange w (record (get s.players p) { mana = payment.bank }) slot vacating incoming
          m b)

  pub declared-weight :
      (s : GameState) (p : PlayerId) (target : Position) (payment : Payment)
      → state_weight w (Priority.declared s p target payment) ≡ state_weight w s
  unfolding Priority.declared player_weight
  declared-weight s p target payment = omega (
    arith,
    weight-push w (put s.players p (record (get s.players p) { mana = payment.bank }))
        (StackItem.attack p target) s.stack,
    weight-put_same w s.players s.stack p (record (get s.players p) { mana = payment.bank }) refl,
  )

  pub casting-weight :
      (s : GameState) (p : PlayerId) (card : CardInstanceId) (i : ℕ) (c : CardRef)
      (targets : List Position) (payment : Payment)
      → in_hand card (get s.players p).hand ≡ some (i, c)
      → state_weight w (Priority.casting s p i c targets payment) ≡ state_weight w s
  unfolding Priority.casting player_weight
  casting-weight s p card i c targets payment e =
      let after = record (get s.players p) {
        mana = payment.bank;
        hand = remove_at i (get s.players p).hand;
      } in
      omega (
        arith,
        weight-push w (put s.players p after) (StackItem.spell p c targets) s.stack,
        weight-put w s.players s.stack p after,
        position-weight w _ (get s.players p).hand e,
      )
