-- ===== src/Calculation/Hinted.antt =====
-- The hinted payment of the Generic component: crates/core/src/engine/payment.rs `deduct`.
use summoners.Prelude.{ℕ, ◌+◌, ◌≤◌, ◌≡◌, ◌∙◌, false, some, ok, arith, ◌==◌, if◌then◌else◌}
use summoners.Prelude.Int.{pos, pos_part, ◌-ℤ◌}
use summoners.Prelude.Arrays.{get_at}
use summoners.Prelude.Words.{u32_max}
use summoners.Domain.Ids.{ManaType, mana_type_eq}
use summoners.Domain.Cards.{Cost}
use summoners.Domain.Mana.{ManaBank}
use summoners.Engine.Payment.{
  Pools, Payment, after_typed, deduct, no_spend, pay_generic, settle, slot, unsigned_nonnegative,
  take_from,
}
use summoners.Calculation.Pools.{take-IsBalanced}
use summoners.Calculation.Paid.{
  IsAffordable, IsBank, IsPaid, after_typed-IsBalanced, not_short, settle-IsPaid, settled_payment,
}

deduct-hint :
    (bank : ManaBank) (cost : Cost) (hint : ManaType)
    → IsAffordable bank cost
    → 1 ≤ cost.generic
    → cost.generic ≤ pos_part (get_at (after_typed bank cost) (slot hint))
    → deduct bank cost (some hint)
      ≡ settle cost (
          take_from hint cost.generic
            (record { remaining = after_typed bank cost; generic_spent = no_spend }))
unfolding deduct pay_generic
deduct-hint bank cost hint a g h =
    let nonzero : (cost.generic == 0) ≡ false = ground (arith, g) in
    let filled : (pos_part (get_at (after_typed bank cost) (slot hint)) == 0) ≡ false =
      ground (arith, g, h) in
    rw (not_short bank cost a, nonzero, filled)

abbrev pub pool_of : ManaBank → ManaType → ℕ
pool_of b ManaType.matter = b.matter
pool_of b ManaType.mind = b.mind
pool_of b ManaType.spirit = b.spirit

abbrev pub typed : Cost → ManaBank
typed cost = record { matter = cost.matter; mind = cost.mind; spirit = cost.spirit }

-- What a payment takes from the pool of a type where the hinted pool gives the Generic component.
abbrev pub drawn : Cost → ManaType → ManaType → ℕ
drawn cost hint t = pool_of (typed cost) t + (if mana_type_eq hint t then cost.generic else 0)

-- Each pool is left with what the bank held, less what was drawn from it.
abbrev pub IsDrawn : ManaBank → Cost → ManaType → Payment → Type 0
IsDrawn bank cost hint payment =
    (t : ManaType) → pool_of payment.bank t + drawn cost hint t ≡ pool_of bank t

-- One pool of a settled payment, whose Generic part is `n`.
settled-drawn :
    (a b n : ℕ)
    → a ≤ u32_max
    → b + n ≤ a
    → unsigned_nonnegative (pos a -ℤ pos b -ℤ pos n) + (b + n) ≡ a
unfolding ◌-ℤ◌
settled-drawn a b n u h = ground (arith, u, h)

settled-kept : (a b : ℕ) → a ≤ u32_max → b ≤ a → unsigned_nonnegative (pos a -ℤ pos b) + (b + 0) ≡ a
unfolding ◌-ℤ◌
settled-kept a b u h = ground (arith, u, h)

hinted-IsDrawn :
    (bank : ManaBank) (cost : Cost) (hint : ManaType)
    → IsBank bank
    → IsAffordable bank cost
    → pool_of (typed cost) hint + cost.generic ≤ pool_of bank hint
    → IsDrawn bank cost hint (
        settled_payment cost (
          take_from hint cost.generic
            (record { remaining = after_typed bank cost; generic_spent = no_spend })))
unfolding take_from
hinted-IsDrawn bank cost ManaType.matter u a h ManaType.matter =
    settled-drawn bank.matter cost.matter cost.generic u.matter h
hinted-IsDrawn bank cost ManaType.matter u a h ManaType.mind =
    settled-kept bank.mind cost.mind u.mind a.mind
hinted-IsDrawn bank cost ManaType.matter u a h ManaType.spirit =
    settled-kept bank.spirit cost.spirit u.spirit a.spirit
hinted-IsDrawn bank cost ManaType.mind u a h ManaType.matter =
    settled-kept bank.matter cost.matter u.matter a.matter
hinted-IsDrawn bank cost ManaType.mind u a h ManaType.mind =
    settled-drawn bank.mind cost.mind cost.generic u.mind h
hinted-IsDrawn bank cost ManaType.mind u a h ManaType.spirit =
    settled-kept bank.spirit cost.spirit u.spirit a.spirit
hinted-IsDrawn bank cost ManaType.spirit u a h ManaType.matter =
    settled-kept bank.matter cost.matter u.matter a.matter
hinted-IsDrawn bank cost ManaType.spirit u a h ManaType.mind =
    settled-kept bank.mind cost.mind u.mind a.mind
hinted-IsDrawn bank cost ManaType.spirit u a h ManaType.spirit =
    settled-drawn bank.spirit cost.spirit cost.generic u.spirit h

-- What the typed components leave of the hinted pool.
hinted-left :
    (bank : ManaBank) (cost : Cost) (hint : ManaType)
    → pool_of (typed cost) hint + cost.generic ≤ pool_of bank hint
    → cost.generic ≤ pos_part (get_at (after_typed bank cost) (slot hint))
unfolding ◌-ℤ◌
hinted-left bank cost ManaType.matter h = ground (arith, h)
hinted-left bank cost ManaType.mind h = ground (arith, h)
hinted-left bank cost ManaType.spirit h = ground (arith, h)

-- A hint at a pool that covers its typed component and the Generic one together is honoured: from a
-- bank of u32 pools, an affordable cost with a Generic component is paid, the hinted pool gives the
-- Generic component and every other pool its typed component alone, no Mana is made or lost, and
-- the deductions reported add up to the cost.
pub deduct_hint-IsPaid :
    (bank : ManaBank) (cost : Cost) (hint : ManaType)
    → IsBank bank
    → IsAffordable bank cost
    → 1 ≤ cost.generic
    → pool_of (typed cost) hint + cost.generic ≤ pool_of bank hint
    → (payment : Payment) × (deduct bank cost (some hint) ≡ ok payment)
      × IsPaid bank cost payment
      × IsDrawn bank cost hint payment
deduct_hint-IsPaid bank cost hint u a g h =
    let start : Pools = record { remaining = after_typed bank cost; generic_spent = no_spend } in
    let left = hinted-left bank cost hint h in
    let (b, e) =
      take-IsBalanced (after_typed bank cost) start hint cost.generic
        (after_typed-IsBalanced bank cost a) left in
    let (eq, q) = settle-IsPaid bank cost (take_from hint cost.generic start) u a b e in
    (
      settled_payment cost (take_from hint cost.generic start),
      deduct-hint bank cost hint a g left ∙ eq,
      q,
      hinted-IsDrawn bank cost hint u a h,
    )
