-- ===== src/Calculation/Pools.antt =====
-- The Generic component of crates/core/src/engine/payment.rs `deduct`: the pools while it is taken
-- from them.
use summoners.Prelude.{ℕ, zero, suc, ◌+◌, ◌≤◌, ◌≡◌, Bool, arith}
use summoners.Prelude.Int.{ℤ, pos, pos_part, neg_part, ◌-ℤ◌, ◌+ℤ◌, ◌≤ℤ◌}
use summoners.Prelude.Arrays.{Array, get_at}
use summoners.Domain.Ids.{ManaType}
use summoners.Engine.Payment.{
  Pools, better, candidate_wins, pick_from, pick_largest_pool, slot, spend_generic, take_from,
}

better-max :
    (r : Array ℤ) (named : Array Bool) (c b : ManaType)
    → (get_at r (slot c) ≤ℤ get_at r (slot (better r named c b)))
      × (get_at r (slot b) ≤ℤ get_at r (slot (better r named c b)))
unfolding better candidate_wins
better-max r named c b = ground arith

pick-max :
    (r : Array ℤ) (named : Array Bool) (t : ManaType)
    → get_at r (slot t) ≤ℤ get_at r (slot (pick_largest_pool r named))
unfolding pick_largest_pool pick_from
pick-max r named t =
    let b1 = better r named ManaType.matter ManaType.matter in
    let b2 = better r named ManaType.mind b1 in
    let first = better-max r named ManaType.matter ManaType.matter in
    let second = better-max r named ManaType.mind b1 in
    let third = better-max r named ManaType.spirit b2 in
    go b1 b2 (better r named ManaType.spirit b2) t first second third
  where
    go :
        (b1 b2 b3 t : ManaType)
        → (get_at r (slot ManaType.matter) ≤ℤ get_at r (slot b1))
          × (get_at r (slot ManaType.matter) ≤ℤ get_at r (slot b1))
        → (get_at r (slot ManaType.mind) ≤ℤ get_at r (slot b2))
          × (get_at r (slot b1) ≤ℤ get_at r (slot b2))
        → (get_at r (slot ManaType.spirit) ≤ℤ get_at r (slot b3))
          × (get_at r (slot b2) ≤ℤ get_at r (slot b3))
        → get_at r (slot t) ≤ℤ get_at r (slot b3)
    go _ _ _ ManaType.matter f g h = omega (arith, f, g, h)
    go _ _ _ ManaType.mind f g h = omega (arith, f, g, h)
    go _ _ _ ManaType.spirit f g h = omega (arith, f, g, h)

minus-covered :
    (x : ℤ) (n : ℕ)
    → neg_part x ≡ 0
    → n ≤ pos_part x
    → (neg_part (x -ℤ pos n) ≡ 0) × (pos_part (x -ℤ pos n) + n ≡ pos_part x)
unfolding ◌-ℤ◌
minus-covered x n h k = ground (arith, h, k)

plus-covered :
    (x : ℤ) (n : ℕ)
    → neg_part x ≡ 0
    → (neg_part (x +ℤ pos n) ≡ 0) × (pos_part (x +ℤ pos n) ≡ pos_part x + n)
unfolding ◌+ℤ◌
plus-covered x n h = ground (arith, h)

abbrev pub total : Array ℤ → ℕ
total r = pos_part r.at0 + pos_part r.at1 + pos_part r.at2

-- No pool is below zero, and what each lost since `start` is what the Generic component took.
pub record IsBalanced (start : Array ℤ) (p : Pools) : Type 0 where
  pub covered0 : neg_part p.remaining.at0 ≡ 0
  pub covered1 : neg_part p.remaining.at1 ≡ 0
  pub covered2 : neg_part p.remaining.at2 ≡ 0
  pub spent0 : neg_part p.generic_spent.at0 ≡ 0
  pub spent1 : neg_part p.generic_spent.at1 ≡ 0
  pub spent2 : neg_part p.generic_spent.at2 ≡ 0
  pub even0 : pos_part p.remaining.at0 + pos_part p.generic_spent.at0 ≡ pos_part start.at0
  pub even1 : pos_part p.remaining.at1 + pos_part p.generic_spent.at1 ≡ pos_part start.at1
  pub even2 : pos_part p.remaining.at2 + pos_part p.generic_spent.at2 ≡ pos_part start.at2

-- `n` is taken from a pool that holds it.
pub take-IsBalanced :
    (start : Array ℤ) (p : Pools) (t : ManaType) (n : ℕ)
    → IsBalanced start p
    → n ≤ pos_part (get_at p.remaining (slot t))
    → IsBalanced start (take_from t n p)
      × (total (take_from t n p).remaining + n ≡ total p.remaining)
unfolding take_from
take-IsBalanced start p ManaType.matter n b h =
    let (m0, m1) = minus-covered p.remaining.at0 n b.covered0 h in
    let (s0, s1) = plus-covered p.generic_spent.at0 n b.spent0 in
    let even = b.even0 in
    (
      record {
        covered0 = m0;
        covered1 = b.covered1;
        covered2 = b.covered2;
        spent0 = s0;
        spent1 = b.spent1;
        spent2 = b.spent2;
        even0 = omega (arith, m1, s1, even);
        even1 = b.even1;
        even2 = b.even2;
      },
      omega (arith, m1),
    )
take-IsBalanced start p ManaType.mind n b h =
    let (m0, m1) = minus-covered p.remaining.at1 n b.covered1 h in
    let (s0, s1) = plus-covered p.generic_spent.at1 n b.spent1 in
    let even = b.even1 in
    (
      record {
        covered0 = b.covered0;
        covered1 = m0;
        covered2 = b.covered2;
        spent0 = b.spent0;
        spent1 = s0;
        spent2 = b.spent2;
        even0 = b.even0;
        even1 = omega (arith, m1, s1, even);
        even2 = b.even2;
      },
      omega (arith, m1),
    )
take-IsBalanced start p ManaType.spirit n b h =
    let (m0, m1) = minus-covered p.remaining.at2 n b.covered2 h in
    let (s0, s1) = plus-covered p.generic_spent.at2 n b.spent2 in
    let even = b.even2 in
    (
      record {
        covered0 = b.covered0;
        covered1 = b.covered1;
        covered2 = m0;
        spent0 = b.spent0;
        spent1 = b.spent1;
        spent2 = s0;
        even0 = b.even0;
        even1 = b.even1;
        even2 = omega (arith, m1, s1, even);
      },
      omega (arith, m1),
    )

-- The largest pool holds something as long as any does.
largest-holds :
    (p : Pools) (named : Array Bool) {start : Array ℤ}
    → IsBalanced start p
    → 1 ≤ total p.remaining
    → 1 ≤ pos_part (get_at p.remaining (slot (pick_largest_pool p.remaining named)))
largest-holds p named b h =
    let x = pick-max p.remaining named ManaType.matter in
    let y = pick-max p.remaining named ManaType.mind in
    let z = pick-max p.remaining named ManaType.spirit in
    omega (arith, x, y, z, h, b.covered0, b.covered1, b.covered2)

-- The whole Generic component, where the pools together cover it.
pub spend_generic-IsBalanced :
    (n : ℕ) (named : Array Bool) (start : Array ℤ) (p : Pools)
    → IsBalanced start p
    → n ≤ total p.remaining
    → IsBalanced start (spend_generic n named p)
      × (total (spend_generic n named p).remaining + n ≡ total p.remaining)
unfolding spend_generic
spend_generic-IsBalanced zero named start p b h = (b, omega arith)
spend_generic-IsBalanced (suc n) named start p b h =
    let t = pick_largest_pool p.remaining named in
    let (b', e) = take-IsBalanced start p t 1 b (largest-holds p named b (omega (arith, h))) in
    let (b'', e') =
      spend_generic-IsBalanced n named start (take_from t 1 p) b' (omega (arith, e, h)) in
    (b'', omega (arith, e, e'))
