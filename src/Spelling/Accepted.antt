-- ===== src/Spelling/Accepted.antt =====
-- The texts that the parser of crates/core/src/domain/cards/entity.rs accepts.
use mathlib.Core.Option
use summoners.Prelude.{
  ℕ, zero, suc, ◌-◌, ◌*◌, ◌<◌, ◌≡◌, refl, sym, subst, ap, ◌∙◌, Bool, true, false, not, ◌&&◌, ◌||◌,
  Option, none, some, List, [], ◌∷◌, ◌==◌, leb, any, all, filter, map, length, ok, arith, inl, inr,
  Bool-cases, and_parts, if-eq-ok, map, ok-injective, if◌then◌else◌, ok-injective,
}
use summoners.Domain.EntityId.{
  EntityId, canonical_hyphen_positions, digit_value, hex_of, is_hexdigit, misses_hyphen, parse,
  read_hex, read_pairs,
}
use summoners.Spelling.{AreBytes, IsId}

digit_is_small : (c : ℕ) → is_hexdigit c ≡ true → digit_value c < 16
unfolding digit_value is_hexdigit
digit_is_small c h = ground (arith, h)

-- The pairs of an even number of hex digits are half as many bytes.
pairs_of :
    (n : ℕ) (hex : List ℕ)
    → length hex ≡ 2 * n
    → all is_hexdigit hex ≡ true
    → (length (read_pairs hex) ≡ n) × AreBytes (read_pairs hex)
unfolding read_pairs AreBytes
pairs_of n [] h _ = (omega (arith, h), tt)
pairs_of n (c ∷ []) h _ = absurd (omega (arith, h))
pairs_of zero (c ∷ d ∷ hex) h _ = absurd (omega (arith, h))
pairs_of (suc n) (c ∷ d ∷ hex) h digits =
    let both = and_parts (is_hexdigit c) (is_hexdigit d && all is_hexdigit hex) digits in
    let rest = and_parts (is_hexdigit d) (all is_hexdigit hex) both.1 in
    let step = pairs_of n hex (omega (arith, h)) rest.1 in
    let hi = digit_is_small c both.0 in
    let lo = digit_is_small d rest.0 in (omega (arith, step.0), (omega (arith, hi, lo), step.1))

unrejected : (n : ℕ) (b : Bool) → (not (n == 32) || not b) ≡ false → (n ≡ 32) × (b ≡ true)
unrejected n b h = (ground (arith, h), ground (arith, h))

-- What the last step of the parser accepts.
read_hex-ok :
    (input : List ℕ) (hex : Option (List ℕ)) (i : EntityId)
    → read_hex input hex ≡ ok i
    → (digits : List ℕ) × (hex ≡ some digits)
      × (length digits ≡ 32)
      × (all is_hexdigit digits ≡ true)
      × (i ≡ record { bytes = read_pairs digits })
unfolding read_hex
read_hex-ok input none i h = cc
read_hex-ok input (some hex) i h =
    let test = if-eq-ok (not (length hex == 32) || not (all is_hexdigit hex)) _ _ h in
    let shape = unrejected (length hex) (all is_hexdigit hex) test.0 in
    (hex, refl, shape.0, shape.1, sym (ok-injective refl test.1))

-- What is read has the sixteen bytes of an id.
pub parse-IsId : (input : List ℕ) (i : EntityId) → parse input ≡ ok i → IsId i
unfolding parse
parse-IsId input i h =
    let accepted = read_hex-ok input (hex_of input) i h in
    let bytes = pairs_of 16 accepted.0 (omega (arith, accepted.2)) accepted.3 in
    subst (λ id. IsId id) (sym accepted.4) (record { sixteen = bytes.0; bytes = bytes.1 })

-- `u8::to_ascii_uppercase`, which the source does not call: the capitals of a text.
unfoldable pub to_upper : ℕ → ℕ
to_upper c = if leb b'a' c && leb c b'z' then c - 32 else c

upper_is_hex : (c : ℕ) → is_hexdigit (to_upper c) ≡ is_hexdigit c
unfolding to_upper is_hexdigit
upper_is_hex c = ground arith

digit_value-upper : (c : ℕ) → is_hexdigit c ≡ true → digit_value (to_upper c) ≡ digit_value c
unfolding to_upper is_hexdigit digit_value
digit_value-upper c h = ground (arith, h)

upper_is_hyphen : (c : ℕ) → (to_upper c == b'-') ≡ (c == b'-')
unfolding to_upper
upper_is_hyphen c = ground arith

length-map_upper : (cs : List ℕ) → length (map to_upper cs) ≡ length cs
length-map_upper [] = refl
length-map_upper (c ∷ cs) = ap suc (length-map_upper cs)

all-map_upper : (cs : List ℕ) → all is_hexdigit (map to_upper cs) ≡ all is_hexdigit cs
all-map_upper [] = refl
all-map_upper (c ∷ cs) = rw (upper_is_hex c, all-map_upper cs)

misses_hyphen-map_upper :
    (cs : List ℕ) (n : ℕ) → misses_hyphen (map to_upper cs) n ≡ misses_hyphen cs n
misses_hyphen-map_upper [] n = refl
misses_hyphen-map_upper (c ∷ cs) zero = rw (upper_is_hyphen c)
misses_hyphen-map_upper (c ∷ cs) (suc n) = misses_hyphen-map_upper cs n

filter-map_upper :
    (cs : List ℕ)
    → filter (λ c. not (c == b'-')) (map to_upper cs)
      ≡ map to_upper (filter (λ c. not (c == b'-')) cs)
filter-map_upper [] = refl
filter-map_upper (c ∷ cs) = elim (Bool-cases (c == b'-')) [
  | inl e ↦ rw (upper_is_hyphen c, e, filter-map_upper cs)
  | inr e ↦ rw (upper_is_hyphen c, e, filter-map_upper cs)
]

read_pairs-map_upper :
    (cs : List ℕ) → all is_hexdigit cs ≡ true → read_pairs (map to_upper cs) ≡ read_pairs cs
unfolding read_pairs
read_pairs-map_upper [] h = refl
read_pairs-map_upper (c ∷ []) h = refl
read_pairs-map_upper (c ∷ d ∷ cs) h =
    let both = and_parts (is_hexdigit c) (is_hexdigit d && all is_hexdigit cs) h in
    let rest = and_parts (is_hexdigit d) (all is_hexdigit cs) both.1 in
    rw (digit_value-upper c both.0, digit_value-upper d rest.0, read_pairs-map_upper cs rest.1)

any_misses-map_upper :
    (cs : List ℕ) (ns : List ℕ)
    → any (misses_hyphen (map to_upper cs)) ns ≡ any (misses_hyphen cs) ns
any_misses-map_upper cs [] = refl
any_misses-map_upper cs (n ∷ ns) = rw (misses_hyphen-map_upper cs n, any_misses-map_upper cs ns)

choice_of :
    (short long bad : Bool) (bare spaced : List ℕ)
    → (if short
        then some (map to_upper bare)
        else if long
        then if bad then none else some (map to_upper spaced)
        else none)
      ≡ Option.map
          (map to_upper)
          (if short then some bare else if long then if bad then none else some spaced else none)
choice_of true _ _ _ _ = refl
choice_of false true true _ _ = refl
choice_of false true false _ _ = refl
choice_of false false _ _ _ = refl

hex_of-map_upper : (cs : List ℕ) → hex_of (map to_upper cs) ≡ Option.map (map to_upper) (hex_of cs)
unfolding hex_of
hex_of-map_upper cs =
    let misses = any_misses-map_upper cs canonical_hyphen_positions in
    rw (length-map_upper cs, misses, filter-map_upper cs, choice_of (length cs == 32))

-- The capitals of a text name the same id as the text does.
pub parse-to_upper :
    (input : List ℕ) (i : EntityId) → parse input ≡ ok i → parse (map to_upper input) ≡ ok i
unfolding parse read_hex
parse-to_upper input i h =
    let accepted = read_hex-ok input (hex_of input) i h in
    let size : length (map to_upper accepted.0) ≡ 32 = length-map_upper accepted.0 ∙ accepted.2 in
    let digits : all is_hexdigit (map to_upper accepted.0) ≡ true =
      all-map_upper accepted.0 ∙ accepted.3 in
    rw (
      hex_of-map_upper input,
      accepted.1,
      size,
      digits,
      read_pairs-map_upper accepted.0 accepted.3,
      accepted.4,
    )
