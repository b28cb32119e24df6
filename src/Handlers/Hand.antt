-- ===== src/Handlers/Hand.antt =====
-- What the accepted handlers share: the card that an action names in a hand, and the zones of the
-- one player that a handler writes to.
use summoners.Prelude.{
  ℕ, ◌≡◌, refl, ap, true, Option, some, List, [], ◌∷◌, ◌++◌, ◌==◌, arith, remove_at, inl, inr, zero,
  suc, Bool, Option-cases, Result, ok, err, get_elem?, get_elem?-position, position,
}
use summoners.Prelude.Arrays.{Array, get_at, set_at}
use summoners.Domain.Ids.{PlayerId, BenchSlot, Position, CardInstanceId, index, opponent}
use summoners.Domain.State.{
  CardRef, PerPlayer, PlayerState, SummonInstance, get, put, set_summon, summon_at,
}
use summoners.Engine.Priority.{in_hand}
use summoners.Domain.Ids.{ManaType}
use summoners.Domain.Cards.{Cost}
use summoners.Engine.Outcome.{pay, as_action_error}
use summoners.Engine.Payment.{Payment, PaymentError, deduct}
use summoners.Rounds.{some-injective}

-- One card of the hand has the instance id `card`, and `left` is the hand without it.
pub record IsHeld (hand left : List CardRef) (card : CardInstanceId) (card_ref : CardRef)
    : Type 0 where
  pub before : List CardRef
  pub after : List CardRef
  pub held : hand ≡ before ++ card_ref ∷ after
  pub left_over : left ≡ before ++ after
  pub named : card_ref.instance_id ≡ card

-- The lists before and after the element at an index.
split_at :
    {A : Type 0} (xs : List A) (i : ℕ) {x : A}
    → get_elem? xs i ≡ some x
    → (before after : List A) × (xs ≡ before ++ x ∷ after) × (remove_at i xs ≡ before ++ after)
split_at [] i e = cc
split_at (y ∷ xs) zero e = ([], xs, ap (λ z. z ∷ xs) (some-injective e refl), refl)
split_at (y ∷ xs) (suc i) e =
    let (before, after, held, left) = split_at xs i e in
    (y ∷ before, after, ap (λ zs. y ∷ zs) held, ap (λ zs. y ∷ zs) left)

-- The element that `position` reports passes the test.
position-passes :
    {A : Type 0} (p : A → Bool) (xs : List A) {i : ℕ} {x : A}
    → position p xs ≡ some (i, x)
    → p x ≡ true
position-passes p [] e = ground arith
position-passes p (y ∷ xs) e = elim (Option-cases (position p xs)) [
  | inl q ↦ ground (arith, q)
  | inr ((j, z), q) ↦ ground (arith, q, position-passes p xs q)
]

pub in_hand-IsHeld :
    (card : CardInstanceId) (hand : List CardRef) {i : ℕ} {c : CardRef}
    → in_hand card hand ≡ some (i, c)
    → IsHeld hand (remove_at i hand) card c
in_hand-IsHeld card hand {i} {c} e =
    let (before, after, held, left) = split_at hand i (get_elem?-position _ hand e) in
    let same = position-passes (λ (x : CardRef). x.instance_id == card) hand e in
    record {
      before = before;
      after = after;
      held = held;
      left_over = left;
      named = ground (arith, same);
    }

pub get-put {ℓ} : {A : Type ℓ} (x : PerPlayer A) (p : PlayerId) (a : A) → get (put x p a) p ≡ a
get-put x PlayerId.one a = refl
get-put x PlayerId.two a = refl

pub get-put-opponent {ℓ} :
    {A : Type ℓ} (x : PerPlayer A) (p : PlayerId) (a : A)
    → get (put x p a) (opponent p) ≡ get x (opponent p)
get-put-opponent x PlayerId.one a = refl
get-put-opponent x PlayerId.two a = refl

pub get_at-set_at :
    {A : Type 0} (b : Array A) (slot : BenchSlot) (a : A)
    → get_at (set_at b (index slot) a) (index slot) ≡ a
get_at-set_at b BenchSlot.first a = refl
get_at-set_at b BenchSlot.second a = refl
get_at-set_at b BenchSlot.third a = refl

pub get_at-elsewhere :
    {A : Type 0} (b : Array A) (slot other : BenchSlot) (a : A)
    → (other ≡ slot → ⊥)
    → get_at (set_at b (index slot) a) (index other) ≡ get_at b (index other)
get_at-elsewhere b BenchSlot.first BenchSlot.first a n = absurd (n refl)
get_at-elsewhere b BenchSlot.first BenchSlot.second a n = refl
get_at-elsewhere b BenchSlot.first BenchSlot.third a n = refl
get_at-elsewhere b BenchSlot.second BenchSlot.first a n = refl
get_at-elsewhere b BenchSlot.second BenchSlot.second a n = absurd (n refl)
get_at-elsewhere b BenchSlot.second BenchSlot.third a n = refl
get_at-elsewhere b BenchSlot.third BenchSlot.first a n = refl
get_at-elsewhere b BenchSlot.third BenchSlot.second a n = refl
get_at-elsewhere b BenchSlot.third BenchSlot.third a n = absurd (n refl)

pub summon_at-set_summon :
    (ps : PlayerState) (at : Position) (o : Option SummonInstance)
    → summon_at (set_summon ps at o) at ≡ o
summon_at-set_summon ps Position.main o = refl
summon_at-set_summon ps (Position.bench slot) o = get_at-set_at ps.bench slot o

pub summon_at-elsewhere :
    (ps : PlayerState) (at other : Position) (o : Option SummonInstance)
    → (other ≡ at → ⊥)
    → summon_at (set_summon ps at o) other ≡ summon_at ps other
summon_at-elsewhere ps Position.main Position.main o n = absurd (n refl)
summon_at-elsewhere ps Position.main (Position.bench slot) o n = refl
summon_at-elsewhere ps (Position.bench slot) Position.main o n = refl
summon_at-elsewhere ps (Position.bench slot) (Position.bench other) o n =
    get_at-elsewhere ps.bench slot other o (λ e. n (ap Position.bench e))

-- Of the zones of a player, none but the board, the hand and the Mana has changed.
pub record KeepsPiles (before after : PlayerState) : Type 0 where
  pub deck : after.deck ≡ before.deck
  pub prizes : after.prizes ≡ before.prizes
  pub discard : after.discard ≡ before.discard
  pub enchantments : after.enchantments ≡ before.enchantments
  pub main_losses : after.main_losses ≡ before.main_losses

-- A payment that a handler accepts is one that the deduction policy makes.
pub pay-eq-ok :
    (ps : PlayerState) (cost : Cost) (hint : Option ManaType) {payment : Payment}
    → pay ps cost hint ≡ ok payment
    → deduct ps.mana cost hint ≡ ok payment
unfolding pay
pay-eq-ok ps cost hint h = accepted (deduct ps.mana cost hint) h
  where
    accepted :
        (r : Result Payment PaymentError) {payment : Payment}
        → as_action_error r ≡ ok payment
        → r ≡ ok payment
    accepted (ok q) h = cc
    accepted (err (PaymentError.insufficient short)) h = cc
    accepted (err PaymentError.invalid_hint) h = cc
