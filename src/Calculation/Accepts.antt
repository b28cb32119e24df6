-- ===== src/Calculation/Accepts.antt =====
-- What an accepted payment shows: the converse side of crates/core/src/engine/payment.rs `deduct`.
use summoners.Prelude.{
  ℕ, zero, suc, ◌+◌, ◌≡◌, refl, ap, Bool, true, false, not, ◌||◌, ◌&&◌, Option, none, some, ok, err,
  guard, >>=-eq-ok, guard-eq-ok, arith, inl, inr, Bool-cases, ◌==◌, ok-injective,
}
use summoners.Prelude.Int.{ℤ, pos, pos_part, neg_part, -ℤ_parts}
use summoners.Prelude.Arrays.{Array, get_at}
use summoners.Domain.Ids.{ManaType}
use summoners.Domain.Cards.{Cost}
use summoners.Domain.Mana.{ManaBank}
use summoners.Engine.Payment.{
  Pools, Payment, PaymentError, after_typed, deduct, is_negative, is_short, no_spend, pay_generic,
  settle, slot, spend_generic, take_from, typed_named, typed_short, pick_largest_pool,
}
use summoners.Calculation.Paid.{IsAffordable}

-- The sum of the pools, as the difference of two numbers.
abbrev above : Array ℤ → ℕ
above r = pos_part r.at0 + pos_part r.at1 + pos_part r.at2

abbrev below : Array ℤ → ℕ
below r = neg_part r.at0 + neg_part r.at1 + neg_part r.at2

take-sum :
    (t : ManaType) (n : ℕ) (p : Pools)
    → above (take_from t n p).remaining + n + below p.remaining
      ≡ above p.remaining + below (take_from t n p).remaining
unfolding take_from
take-sum ManaType.matter n p = omega (arith, -ℤ_parts p.remaining.at0 (pos n))
take-sum ManaType.mind n p = omega (arith, -ℤ_parts p.remaining.at1 (pos n))
take-sum ManaType.spirit n p = omega (arith, -ℤ_parts p.remaining.at2 (pos n))

spend_generic-sum :
    (n : ℕ) (named : Array Bool) (p : Pools)
    → above (spend_generic n named p).remaining + n + below p.remaining
      ≡ above p.remaining + below (spend_generic n named p).remaining
unfolding spend_generic
spend_generic-sum zero named p = omega arith
spend_generic-sum (suc n) named p =
    let t = pick_largest_pool p.remaining named in
    omega (arith, take-sum t 1 p, spend_generic-sum n named (take_from t 1 p))

-- The Generic component comes off the sum of the pools, with a hint and without.
pay_generic-sum :
    (cost : Cost) (hint : Option ManaType) (remaining : Array ℤ) {p : Pools}
    → pay_generic cost hint remaining ≡ ok p
    → above p.remaining + cost.generic + below remaining ≡ above remaining + below p.remaining
unfolding pay_generic
pay_generic-sum cost none remaining h =
    let start : Pools = record { remaining = remaining; generic_spent = no_spend } in
    omega (
      arith,
      ap (λ (q : Pools). above q.remaining) (ok-injective refl h),
      ap (λ (q : Pools). below q.remaining) (ok-injective refl h),
      spend_generic-sum cost.generic (typed_named cost) start,
    )
pay_generic-sum cost (some hint) remaining {p} h =
    elim (Bool-cases (
      cost.generic == 0
      || pos_part (get_at remaining (slot hint)) == 0
        && neg_part (get_at remaining (slot hint)) == 0)) [
          | inl e ↦ absurd (refused e)
          | inr e ↦ taken e
        ]
  where
    start : Pools
    start = record { remaining = remaining; generic_spent = no_spend }

    refused :
        (cost.generic == 0
            || pos_part (get_at remaining (slot hint)) == 0
              && neg_part (get_at remaining (slot hint)) == 0)
          ≡ true
        → ⊥
    refused e = (let k : err PaymentError.invalid_hint ≡ ok p = rw (e) at h in cc)

    taken :
        (cost.generic == 0
            || pos_part (get_at remaining (slot hint)) == 0
              && neg_part (get_at remaining (slot hint)) == 0)
          ≡ false
        → above p.remaining + cost.generic + below remaining ≡ above remaining + below p.remaining
    taken e =
        let k : ok (take_from hint cost.generic start) ≡ ok p = rw (e) at h in
        omega (
          arith,
          ap (λ (q : Pools). above q.remaining) (ok-injective refl k),
          ap (λ (q : Pools). below q.remaining) (ok-injective refl k),
          take-sum hint cost.generic start,
        )

settle-covered :
    (cost : Cost) (p : Pools) {payment : Payment}
    → settle cost p ≡ ok payment
    → below p.remaining ≡ 0
unfolding settle
settle-covered cost p h =
    elim (Bool-cases
      (is_negative p.remaining.at0 || is_negative p.remaining.at1 || is_negative p.remaining.at2)) [
        | inl e ↦ absurd (refused e)
        | inr e ↦ ground (arith, e)
      ]
  where
    refused :
        (is_negative p.remaining.at0 || is_negative p.remaining.at1 || is_negative p.remaining.at2)
          ≡ true
        → ⊥
    refused e = ground (arith, e, h)

-- A payment that is accepted, with a hint or without, pays an affordable cost.
pub deduct-IsAffordable :
    (bank : ManaBank) (cost : Cost) (hint : Option ManaType) {payment : Payment}
    → deduct bank cost hint ≡ ok payment
    → IsAffordable bank cost
unfolding deduct
deduct-IsAffordable bank cost hint h =
    let (_, g, h1) =
      >>=-eq-ok
        (guard (not (is_short (typed_short bank cost)))
          (PaymentError.insufficient (typed_short bank cost)))
        _ h in
    let enough = guard-eq-ok _ _ g in
    let (p, r, h2) = >>=-eq-ok (pay_generic cost hint (after_typed bank cost)) _ h1 in
    let sum = pay_generic-sum cost hint (after_typed bank cost) r in
    let covered = settle-covered cost p h2 in
    let m = -ℤ_parts (pos bank.matter) (pos cost.matter) in
    let n = -ℤ_parts (pos bank.mind) (pos cost.mind) in
    let s = -ℤ_parts (pos bank.spirit) (pos cost.spirit) in
    record {
      matter = ground (arith, enough);
      mind = ground (arith, enough);
      spirit = ground (arith, enough);
      generic = omega (arith, sum, covered, m, n, s);
    }
