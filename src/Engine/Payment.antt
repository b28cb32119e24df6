-- ===== src/Engine/Payment.antt =====
-- crates/core/src/engine/payment.rs: the cost deduction policy. A pool of the simulation is an i64
-- that starts from a u32 and loses at most two u32 amounts, so it never leaves the range of i64:
-- it is an integer here.
use summoners.Prelude.{
  ℕ, zero, suc, ◌-◌, ◌==◌, Bool, true, false, not, ◌&&◌, ◌||◌, Option, none, some, List, [], ◌∷◌,
  filter_map, Result, ok, err, ◌>>=◌, ◌>>◌, guard, ltb, if◌then◌else◌,
}
use summoners.Prelude.Int.{ℤ, pos, negsuc, pos_part, neg_part, ltb_ℤ, ◌+ℤ◌, ◌-ℤ◌}
use summoners.Prelude.Arrays.{Index, Array, get_at, set_at}
use summoners.Prelude.Words.{u32_max}
use summoners.Domain.Ids.{ManaType}
use summoners.Domain.Cards.{Cost}
use summoners.Domain.Mana.{ManaBank}

abbrev pub pool_order : List ManaType
pool_order = ManaType.matter ∷ ManaType.mind ∷ ManaType.spirit ∷ []

abbrev pub slot : ManaType → Index
slot ManaType.matter = Index.i0
slot ManaType.mind = Index.i1
slot ManaType.spirit = Index.i2

abbrev pub to_array : ManaBank → Array ℤ
to_array b = record { at0 = pos b.matter; at1 = pos b.mind; at2 = pos b.spirit }

-- `u32::try_from(value).unwrap_or(default)`.
abbrev pub u32_or : ℕ → ℤ → ℕ
u32_or default (pos n) = if ltb u32_max n then default else n
u32_or default (negsuc n) = default

abbrev pub is_negative : ℤ → Bool
is_negative (pos n) = false
is_negative (negsuc n) = true

abbrev pub unsigned_deficit : ℤ → ℕ
unsigned_deficit (pos n) = 0
unsigned_deficit (negsuc n) = if ltb u32_max (suc n) then u32_max else suc n

abbrev pub unsigned_nonnegative : ℤ → ℕ
unsigned_nonnegative value = u32_or 0 value

-- `candidate_value.cmp(&best_value)` and what it decides.
unfoldable pub candidate_wins : ℤ → ℤ → Bool → Bool → Bool
candidate_wins candidate best candidate_named best_named =
    if ltb_ℤ best candidate
    then true
    else if ltb_ℤ candidate best
    then false
    else not candidate_named && best_named

-- One round of the loop of `pick_largest_pool`.
unfoldable pub better : Array ℤ → Array Bool → ManaType → ManaType → ManaType
better remaining named candidate best =
    if candidate_wins (get_at remaining (slot candidate)) (get_at remaining (slot best))
      (get_at named (slot candidate)) (get_at named (slot best))
    then candidate
    else best

-- The loop of `pick_largest_pool` over the candidates that are left.
unfoldable pub pick_from : Array ℤ → Array Bool → ManaType → List ManaType → ManaType
pick_from remaining named best [] = best
pick_from remaining named best (candidate ∷ rest) =
    pick_from remaining named (better remaining named candidate best) rest

unfoldable pub pick_largest_pool : Array ℤ → Array Bool → ManaType
unfolding pick_from
pick_largest_pool remaining named = pick_from remaining named ManaType.matter pool_order

pub record Deduction : Type 0 where
  pub mana_type : ManaType
  pub amount : ℕ

pub record Payment : Type 0 where
  pub bank : ManaBank
  pub deductions : List Deduction

pub data PaymentError : Type 0 where
  insufficient : ManaBank → PaymentError
  invalid_hint : PaymentError

-- The two arrays that the payment of the Generic component changes.
pub record Pools : Type 0 where
  pub remaining : Array ℤ
  pub generic_spent : Array ℤ

-- One `-=` and one `+=` at the pool of a type.
unfoldable pub take_from : ManaType → ℕ → Pools → Pools
take_from t n p = record {
  remaining = set_at p.remaining (slot t) (get_at p.remaining (slot t) -ℤ pos n);
  generic_spent = set_at p.generic_spent (slot t) (get_at p.generic_spent (slot t) +ℤ pos n);
}

-- `for _ in 0..cost.generic`.
unfoldable pub spend_generic : ℕ → Array Bool → Pools → Pools
spend_generic zero named p = p
spend_generic (suc n) named p =
    spend_generic n named (take_from (pick_largest_pool p.remaining named) 1 p)

abbrev pub no_spend : Array ℤ
no_spend = record { at0 = pos 0; at1 = pos 0; at2 = pos 0 }

abbrev pub after_typed : ManaBank → Cost → Array ℤ
after_typed bank cost = record {
  at0 = pos bank.matter -ℤ pos cost.matter;
  at1 = pos bank.mind -ℤ pos cost.mind;
  at2 = pos bank.spirit -ℤ pos cost.spirit;
}

abbrev pub typed_named : Cost → Array Bool
typed_named cost = record {
  at0 = ltb 0 cost.matter;
  at1 = ltb 0 cost.mind;
  at2 = ltb 0 cost.spirit;
}

abbrev pub typed_short : ManaBank → Cost → ManaBank
typed_short bank cost = record {
  matter = cost.matter - bank.matter;
  mind = cost.mind - bank.mind;
  spirit = cost.spirit - bank.spirit;
}

abbrev pub is_short : ManaBank → Bool
is_short b = ltb 0 b.matter || ltb 0 b.mind || ltb 0 b.spirit

-- The check of a `mana_hint`, and the payment of the Generic component with or without one.
unfoldable pub pay_generic : Cost → Option ManaType → Array ℤ → Result Pools PaymentError
unfolding spend_generic take_from
pay_generic cost none remaining = ok (
    spend_generic cost.generic (typed_named cost)
      (record { remaining = remaining; generic_spent = no_spend }))
pay_generic cost (some hint) remaining =
    if cost.generic == 0
      || pos_part (get_at remaining (slot hint)) == 0
        && neg_part (get_at remaining (slot hint)) == 0
    then err PaymentError.invalid_hint
    else ok
        (take_from hint cost.generic (record { remaining = remaining; generic_spent = no_spend }))

abbrev pub total_spent : Cost → Array ℤ → Array ℤ
total_spent cost spent = record {
  at0 = pos cost.matter +ℤ spent.at0;
  at1 = pos cost.mind +ℤ spent.at1;
  at2 = pos cost.spirit +ℤ spent.at2;
}

-- The `filter_map` over `POOL_ORDER`.
abbrev pub deductions_of : Array ℤ → List Deduction
deductions_of spent =
    filter_map
      (λ t.
        if ltb 0 (pos_part (get_at spent (slot t)))
        then some (record { mana_type = t; amount = u32_or u32_max (get_at spent (slot t)) })
        else none)
      pool_order

-- From `if remaining.iter().any(..)` to the end.
unfoldable pub settle : Cost → Pools → Result Payment PaymentError
settle cost p =
    if is_negative p.remaining.at0 || is_negative p.remaining.at1 || is_negative p.remaining.at2
    then err (
        PaymentError.insufficient (record {
          matter = unsigned_deficit p.remaining.at0;
          mind = unsigned_deficit p.remaining.at1;
          spirit = unsigned_deficit p.remaining.at2;
        }))
    else ok (record {
      bank = record {
        matter = unsigned_nonnegative p.remaining.at0;
        mind = unsigned_nonnegative p.remaining.at1;
        spirit = unsigned_nonnegative p.remaining.at2;
      };
      deductions = deductions_of (total_spent cost p.generic_spent);
    })

unfoldable pub deduct : ManaBank → Cost → Option ManaType → Result Payment PaymentError
unfolding pay_generic settle
deduct bank cost hint = do
  guard (not (is_short (typed_short bank cost))) (PaymentError.insufficient (typed_short bank cost))
  pools ← pay_generic cost hint (after_typed bank cost)
  settle cost pools
