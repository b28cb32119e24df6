-- ===== src/Calculation/Paid.antt =====
-- What crates/core/src/engine/payment.rs `deduct` promises of an affordable cost.
use summoners.Prelude.{ℕ, ◌+◌, ◌≤◌, ◌≡◌, refl, ◌∙◌, false, none, ok, arith, sum_by}
use summoners.Prelude.Int.{ℤ, pos, pos_part, neg_part, ◌-ℤ◌, ◌+ℤ◌}
use summoners.Prelude.Arrays.{Array}
use summoners.Prelude.Words.{u32_max}
use summoners.Domain.Cards.{Cost}
use summoners.Domain.Mana.{ManaBank}
use summoners.Engine.Payment.{
  Pools, Payment, after_typed, deduct, is_negative, is_short, no_spend, pay_generic, settle,
  spend_generic, typed_named, typed_short, unsigned_nonnegative, total_spent, deductions_of,
  Deduction,
}
use summoners.Calculation.Pools.{IsBalanced, total, spend_generic-IsBalanced}

-- Each typed component is covered by its own pool, and what they leave covers the Generic one.
pub record IsAffordable (bank : ManaBank) (cost : Cost) : Type 0 where
  pub matter : cost.matter ≤ bank.matter
  pub mind : cost.mind ≤ bank.mind
  pub spirit : cost.spirit ≤ bank.spirit
  pub generic :
      cost.matter + cost.mind + cost.spirit + cost.generic ≤ bank.matter + bank.mind + bank.spirit

-- Every pool is a u32.
pub record IsBank (bank : ManaBank) : Type 0 where
  pub matter : bank.matter ≤ u32_max
  pub mind : bank.mind ≤ u32_max
  pub spirit : bank.spirit ≤ u32_max

after_typed-parts :
    (a b : ℕ) → b ≤ a → (neg_part (pos a -ℤ pos b) ≡ 0) × (pos_part (pos a -ℤ pos b) + b ≡ a)
unfolding ◌-ℤ◌
after_typed-parts a b h = ground (arith, h)

settled_pool :
    (x : ℤ)
    → neg_part x ≡ 0
    → pos_part x ≤ u32_max
    → (is_negative x ≡ false) × (unsigned_nonnegative x ≡ pos_part x)
settled_pool x h k = ground (arith, h, k)

-- What a payment of `cost` leaves and reports: each pool still covers its typed component, nothing
-- is lost or made, and the reported deductions add up to the cost.
pub record IsPaid (bank : ManaBank) (cost : Cost) (payment : Payment) : Type 0 where
  pub matter : payment.bank.matter + cost.matter ≤ bank.matter
  pub mind : payment.bank.mind + cost.mind ≤ bank.mind
  pub spirit : payment.bank.spirit + cost.spirit ≤ bank.spirit
  pub even :
      payment.bank.matter
        + payment.bank.mind
        + payment.bank.spirit
        + (cost.matter + cost.mind + cost.spirit + cost.generic)
      ≡ bank.matter + bank.mind + bank.spirit
  pub deductions :
      sum_by (λ (d : Deduction). d.amount) payment.deductions
      ≡ cost.matter + cost.mind + cost.spirit + cost.generic

pub after_typed-IsBalanced :
    (bank : ManaBank) (cost : Cost)
    → IsAffordable bank cost
    → IsBalanced
        (after_typed bank cost)
        (record { remaining = after_typed bank cost; generic_spent = no_spend })
after_typed-IsBalanced bank cost a =
    let (m, _) = after_typed-parts bank.matter cost.matter a.matter in
    let (n, _) = after_typed-parts bank.mind cost.mind a.mind in
    let (s, _) = after_typed-parts bank.spirit cost.spirit a.spirit in
    record {
      covered0 = m;
      covered1 = n;
      covered2 = s;
      spent0 = refl;
      spent1 = refl;
      spent2 = refl;
      even0 = omega arith;
      even1 = omega arith;
      even2 = omega arith;
    }

covers-generic :
    (bank : ManaBank) (cost : Cost)
    → IsAffordable bank cost
    → cost.generic ≤ total (after_typed bank cost)
covers-generic bank cost a =
    let (_, m) = after_typed-parts bank.matter cost.matter a.matter in
    let (_, n) = after_typed-parts bank.mind cost.mind a.mind in
    let (_, s) = after_typed-parts bank.spirit cost.spirit a.spirit in
    let g = a.generic in omega (arith, m, n, s, g)

pub not_short :
    (bank : ManaBank) (cost : Cost)
    → IsAffordable bank cost
    → is_short (typed_short bank cost) ≡ false
not_short bank cost a =
    let m = a.matter in let n = a.mind in let s = a.spirit in ground (arith, m, n, s)

deduct-generic :
    (bank : ManaBank) (cost : Cost)
    → IsAffordable bank cost
    → deduct bank cost none
      ≡ settle cost (
          spend_generic cost.generic
            (typed_named cost)
            (record { remaining = after_typed bank cost; generic_spent = no_spend }))
unfolding deduct pay_generic
deduct-generic bank cost a = rw (not_short bank cost a)

settle-deductions :
    (cost : Cost) (spent : Array ℤ)
    → neg_part spent.at0 ≡ 0
    → neg_part spent.at1 ≡ 0
    → neg_part spent.at2 ≡ 0
    → pos_part spent.at0 ≤ u32_max
    → pos_part spent.at1 ≤ u32_max
    → pos_part spent.at2 ≤ u32_max
    → sum_by (λ (d : Deduction). d.amount) (deductions_of spent)
      ≡ pos_part spent.at0 + pos_part spent.at1 + pos_part spent.at2
settle-deductions cost spent a b c d e f = ground (arith, a, b, c, d, e, f)

spent-parts :
    (n : ℕ) (x : ℤ)
    → neg_part x ≡ 0
    → (neg_part (pos n +ℤ x) ≡ 0) × (pos_part (pos n +ℤ x) ≡ n + pos_part x)
unfolding ◌+ℤ◌
spent-parts n x h = ground (arith, h)

abbrev pub settled_payment : Cost → Pools → Payment
settled_payment cost p = record {
  bank = record {
    matter = unsigned_nonnegative p.remaining.at0;
    mind = unsigned_nonnegative p.remaining.at1;
    spirit = unsigned_nonnegative p.remaining.at2;
  };
  deductions = deductions_of (total_spent cost p.generic_spent);
}

settle-eq :
    (cost : Cost) (p : Pools)
    → is_negative p.remaining.at0 ≡ false
    → is_negative p.remaining.at1 ≡ false
    → is_negative p.remaining.at2 ≡ false
    → settle cost p ≡ ok (settled_payment cost p)
unfolding settle
settle-eq cost p a b c = rw (a, b, c)

-- A cost that is affordable and spread over pools that still balance is settled as it should be.
pub settle-IsPaid :
    (bank : ManaBank) (cost : Cost) (p : Pools)
    → IsBank bank
    → IsAffordable bank cost
    → IsBalanced (after_typed bank cost) p
    → total p.remaining + cost.generic ≡ total (after_typed bank cost)
    → (settle cost p ≡ ok (settled_payment cost p)) × IsPaid bank cost (settled_payment cost p)
settle-IsPaid bank cost p u a b e =
    let (_, m) = after_typed-parts bank.matter cost.matter a.matter in
    let (_, n) = after_typed-parts bank.mind cost.mind a.mind in
    let (_, s) = after_typed-parts bank.spirit cost.spirit a.spirit in
    let (z0, e0) = settled_pool p.remaining.at0 b.covered0 (omega (arith, m, u.matter, b.even0)) in
    let (z1, e1) = settled_pool p.remaining.at1 b.covered1 (omega (arith, n, u.mind, b.even1)) in
    let (z2, e2) = settled_pool p.remaining.at2 b.covered2 (omega (arith, s, u.spirit, b.even2)) in
    let (g0, f0) = spent-parts cost.matter p.generic_spent.at0 b.spent0 in
    let (g1, f1) = spent-parts cost.mind p.generic_spent.at1 b.spent1 in
    let (g2, f2) = spent-parts cost.spirit p.generic_spent.at2 b.spent2 in
    let listed =
      settle-deductions cost (total_spent cost p.generic_spent) g0 g1 g2
        (omega (arith, f0, m, b.even0, u.matter)) (omega (arith, f1, n, b.even1, u.mind))
        (omega (arith, f2, s, b.even2, u.spirit)) in
    (
      settle-eq cost p z0 z1 z2,
      record {
        matter = omega (arith, e0, m, b.even0);
        mind = omega (arith, e1, n, b.even1);
        spirit = omega (arith, e2, s, b.even2);
        even = omega (arith, e0, e1, e2, e, m, n, s);
        deductions = omega (arith, listed, f0, f1, f2, b.even0, b.even1, b.even2, e, m, n, s);
      },
    )

-- Without a hint, every affordable cost is paid from a bank of u32 pools: typed components come
-- from their own pools, no Mana is made or lost, and the deductions reported are the cost.
pub deduct-IsPaid :
    (bank : ManaBank) (cost : Cost)
    → IsBank bank
    → IsAffordable bank cost
    → (payment : Payment) × (deduct bank cost none ≡ ok payment) × IsPaid bank cost payment
deduct-IsPaid bank cost u a =
    let start : Pools = record { remaining = after_typed bank cost; generic_spent = no_spend } in
    let (b, e) =
      spend_generic-IsBalanced cost.generic (typed_named cost) (after_typed bank cost) start
        (after_typed-IsBalanced bank cost a) (covers-generic bank cost a) in
    let spent = spend_generic cost.generic (typed_named cost) start in
    let (r, q) = settle-IsPaid bank cost spent u a b e in
    (settled_payment cost spent, deduct-generic bank cost a ∙ r, q)
