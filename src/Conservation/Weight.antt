-- ===== src/Conservation/Weight.antt =====
-- The weight of every card reference in every zone. With a weight that is 1 at one card and 0 at
-- the others it counts the copies of that card.
use summoners.Prelude.{ℕ, ◌+◌, ◌≡◌, ap, Option, none, some, List, ◌∷◌, sum_by, arith}
use summoners.Prelude.Arrays.{Array, get_at, set_at}
use summoners.Domain.Ids.{PlayerId, Position, BenchSlot, index}
use summoners.Domain.State.{
  GameState, PlayerState, PerPlayer, SummonInstance, StackItem, CardRef, get, put, layers,
  summon_at, set_summon,
}
use summoners.Engine.Effects.{exchange}

module _ (w : CardRef → ℕ) where
  abbrev pub summon_weight : Option SummonInstance → ℕ
  summon_weight none = 0
  summon_weight (some summon) = sum_by w (layers summon.chain)

  abbrev pub item_weight : StackItem → ℕ
  item_weight (StackItem.attack _ _) = 0
  item_weight (StackItem.spell _ card _) = w card
  item_weight (StackItem.trigger _ _ _ _ _ _) = 0

  abbrev pub bench_weight : Array (Option SummonInstance) → ℕ
  bench_weight b = summon_weight b.at0 + summon_weight b.at1 + summon_weight b.at2

  -- The cards of one player: the board with its chains, and the five piles.
  unfoldable pub player_weight : PlayerState → ℕ
  player_weight ps =
      summon_weight ps.main
      + bench_weight ps.bench
      + sum_by w ps.deck
      + sum_by w ps.hand
      + sum_by w ps.prizes
      + sum_by w ps.discard
      + sum_by w ps.enchantments

  unfoldable pub zones_weight : PerPlayer PlayerState → List StackItem → ℕ
  zones_weight players stack =
      player_weight players.one + player_weight players.two + sum_by item_weight stack

  -- All zones of both players, and the cast cards that wait on the Stack.
  abbrev pub state_weight : GameState → ℕ
  state_weight s = zones_weight s.players s.stack

  pub weight-put :
      (players : PerPlayer PlayerState) (stack : List StackItem) (p : PlayerId) (ps : PlayerState)
      → zones_weight (put players p ps) stack + player_weight (get players p)
        ≡ zones_weight players stack + player_weight ps
  unfolding zones_weight
  weight-put players stack PlayerId.one ps = omega arith
  weight-put players stack PlayerId.two ps = omega arith

  pub weight-put_same :
      (players : PerPlayer PlayerState) (stack : List StackItem) (p : PlayerId) (ps : PlayerState)
      → player_weight ps ≡ player_weight (get players p)
      → zones_weight (put players p ps) stack ≡ zones_weight players stack
  weight-put_same players stack p ps e = omega (arith, weight-put players stack p ps)

  pub weight-push :
      (players : PerPlayer PlayerState) (item : StackItem) (stack : List StackItem)
      → zones_weight players (item ∷ stack) ≡ zones_weight players stack + item_weight item
  unfolding zones_weight
  weight-push players item stack = omega arith

  pub bench_weight-set :
      (b : Array (Option SummonInstance)) (slot : BenchSlot) (o : Option SummonInstance)
      → bench_weight (set_at b (index slot) o) + summon_weight (get_at b (index slot))
        ≡ bench_weight b + summon_weight o
  bench_weight-set b BenchSlot.first o = omega arith
  bench_weight-set b BenchSlot.second o = omega arith
  bench_weight-set b BenchSlot.third o = omega arith

  pub weight-set_summon :
      (ps : PlayerState) (at : Position) (o : Option SummonInstance)
      → player_weight (set_summon ps at o) + summon_weight (summon_at ps at)
        ≡ player_weight ps + summon_weight o
  unfolding player_weight
  weight-set_summon ps Position.main o = omega arith
  weight-set_summon ps (Position.bench slot) o = omega (arith, bench_weight-set ps.bench slot o)

  -- A Summon written back with its chain unchanged.
  pub weight-rewrite :
      (ps : PlayerState) (at : Position) (old new : SummonInstance)
      → summon_at ps at ≡ some old
      → new.chain ≡ old.chain
      → player_weight (set_summon ps at (some new)) ≡ player_weight ps
  weight-rewrite ps at old new e c = omega (
    arith,
    weight-set_summon ps at (some new),
    ap summon_weight e,
    ap (λ ch. sum_by w (layers ch)) c,
  )

  pub weight-exchange :
      (ps : PlayerState) (slot : BenchSlot) (vacating incoming : SummonInstance)
      → ps.main ≡ some vacating
      → get_at ps.bench (index slot) ≡ some incoming
      → player_weight (exchange ps slot vacating incoming) ≡ player_weight ps
  unfolding player_weight
  weight-exchange ps slot vacating incoming m b = omega (
    arith,
    bench_weight-set ps.bench slot (some vacating),
    ap summon_weight m,
    ap summon_weight b,
  )
