-- ===== src/Spelling.antt =====
-- The texts of an `EntityId`: crates/core/src/domain/cards/entity.rs, its parser and printed form.
use summoners.Prelude.{
  ℕ, zero, suc, ◌+◌, ◌-◌, ◌*◌, ◌/◌, ◌%◌, ◌≤◌, ◌<◌, ◌≡◌, refl, sym, ap, ◌∙◌, Bool, true, false, not,
  ◌&&◌, ◌||◌, Option, none, some, List, [], ◌∷◌, ◌++◌, ◌==◌, leb, ltb, any, all, filter, map,
  get_elem?, length, Result, ok, err, arith, inl, inr, Bool-cases, Option-cases, if◌then◌else◌,
  ok-injective,
}
use summoners.Domain.EntityId.{
  EntityId, EntityIdParseError, canonical_hyphen_positions, digit_value, display, display_from,
  hex_digit, hex_of, is_hexdigit, misses_hyphen, parse, read_hex, read_pairs,
}
pub mod Accepted

-- Every byte is a u8.
pub AreBytes : List ℕ → Type 0
AreBytes [] = Unit {0}
AreBytes (b ∷ bs) = (b < 256) × AreBytes bs

-- An id of sixteen bytes, as its type in the source makes it.
pub record IsId (i : EntityId) : Type 0 where
  pub sixteen : length i.bytes ≡ 16
  pub bytes : AreBytes i.bytes

digit-value : (n : ℕ) → n < 16 → digit_value (hex_digit n) ≡ n
unfolding digit_value hex_digit
digit-value n h = ground (arith, h)

digit_is_hex : (n : ℕ) → n < 16 → is_hexdigit (hex_digit n) ≡ true
unfolding is_hexdigit hex_digit
digit_is_hex n h = ground (arith, h)

digit_is_no_hyphen : (n : ℕ) → n < 16 → (hex_digit n == b'-') ≡ false
unfolding hex_digit
digit_is_no_hyphen n h = ground (arith, h)

-- The bare digits of some bytes.
unfoldable pub digits : List ℕ → List ℕ
digits [] = []
digits (b ∷ bs) = hex_digit (b / 16) ∷ hex_digit (b % 16) ∷ digits bs

filter-display :
    (n : ℕ) (bs : List ℕ)
    → AreBytes bs
    → filter (λ c. not (c == b'-')) (display_from n bs) ≡ digits bs
unfolding display_from digits AreBytes
filter-display n [] h = refl
filter-display n (b ∷ bs) (h, hs) =
    let hi = digit_is_no_hyphen (b / 16) (omega (arith, h)) in
    let lo = digit_is_no_hyphen (b % 16) (omega arith) in
    elim (Bool-cases (n == 4 || n == 6 || n == 8 || n == 10)) [
      | inl e ↦ rw (e, hi, lo, filter-display (suc n) bs hs)
      | inr e ↦ rw (e, hi, lo, filter-display (suc n) bs hs)
    ]

length-digits : (bs : List ℕ) → length (digits bs) ≡ 2 * length bs
unfolding digits
length-digits [] = omega arith
length-digits (b ∷ bs) = omega (arith, length-digits bs)

pub digits_are_hex : (bs : List ℕ) → AreBytes bs → all is_hexdigit (digits bs) ≡ true
unfolding digits AreBytes
digits_are_hex [] h = refl
digits_are_hex (b ∷ bs) (h, hs) = rw (
  digit_is_hex (b / 16) (omega (arith, h)),
  digit_is_hex (b % 16) (omega arith),
  digits_are_hex bs hs,
)

read_pairs-digits : (bs : List ℕ) → AreBytes bs → read_pairs (digits bs) ≡ bs
unfolding read_pairs digits AreBytes
read_pairs-digits [] h = refl
read_pairs-digits (b ∷ bs) (h, hs) =
    let hi = digit-value (b / 16) (omega (arith, h)) in
    let lo = digit-value (b % 16) (omega arith) in
    let whole : 16 * (b / 16) + b % 16 ≡ b = omega arith in
    rw (hi, lo, read_pairs-digits bs hs, whole)

-- The printed form has 36 characters, and its hyphens where the parser wants them.
display_shape :
    (bs : List ℕ)
    → length bs ≡ 16
    → (length (display_from 0 bs) ≡ 36)
      × (any (misses_hyphen (display_from 0 bs)) canonical_hyphen_positions ≡ false)
unfolding display_from
display_shape
      (b0 ∷ b1 ∷ b2 ∷ b3 ∷ b4 ∷ b5 ∷ b6 ∷ b7 ∷ b8 ∷ b9 ∷ b10 ∷ b11 ∷ b12 ∷ b13 ∷ b14 ∷ b15 ∷ []) h =
    (refl, refl)
display_shape _ h = absurd (omega (arith, h))

-- An id that is printed is read back from its printed form.
pub parse-display : (i : EntityId) → IsId i → parse (display i) ≡ ok i
unfolding parse hex_of read_hex display
parse-display i h =
    let shape = display_shape i.bytes h.sixteen in
    let bare = filter-display 0 i.bytes h.bytes in
    let hex = digits_are_hex i.bytes h.bytes in
    let size : length (digits i.bytes) ≡ 32 = omega (arith, length-digits i.bytes, h.sixteen) in
    rw (shape.0, shape.1, bare, size, hex, read_pairs-digits i.bytes h.bytes)

-- An id is read from its bare digits too.
pub parse-digits : (i : EntityId) → IsId i → parse (digits i.bytes) ≡ ok i
unfolding parse hex_of read_hex
parse-digits i h =
    let hex = digits_are_hex i.bytes h.bytes in
    let size : length (digits i.bytes) ≡ 32 = omega (arith, length-digits i.bytes, h.sixteen) in
    rw (size, size, hex, read_pairs-digits i.bytes h.bytes)
