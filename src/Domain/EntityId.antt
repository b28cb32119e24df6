-- ===== src/Domain/EntityId.antt =====
-- crates/core/src/domain/cards/entity.rs: `EntityId`, its parser and its printed form. A text is
-- the list of its UTF-8 bytes: a character outside ASCII is no hex digit and no hyphen, and neither
-- is any byte of it.
use summoners.Prelude.{
  ℕ, suc, ◌+◌, ◌-◌, ◌*◌, ◌/◌, ◌%◌, Bool, true, false, not, ◌&&◌, ◌||◌, Option, none, some, List, [],
  ◌∷◌, ◌==◌, leb, ltb, any, all, filter, get_elem?, length, Result, ok, err, if◌then◌else◌,
}

-- `EntityId([u8; 16])`.
pub record EntityId : Type 0 where
  pub bytes : List ℕ

abbrev pub bytes_eq : List ℕ → List ℕ → Bool
bytes_eq [] [] = true
bytes_eq (x ∷ xs) (y ∷ ys) = x == y && bytes_eq xs ys
bytes_eq _ _ = false

unfoldable pub id_eq : EntityId → EntityId → Bool
id_eq a b = bytes_eq a.bytes b.bytes

pub record EntityIdParseError : Type 0 where
  pub input : List ℕ

abbrev pub canonical_hyphen_positions : List ℕ
canonical_hyphen_positions = 8 ∷ 13 ∷ 18 ∷ 23 ∷ []

-- `u8::is_ascii_hexdigit`.
unfoldable pub is_hexdigit : ℕ → Bool
is_hexdigit c = leb b'0' c && leb c b'9' || leb b'a' c && leb c b'f' || leb b'A' c && leb c b'F'

-- The value of a hex digit, as `u8::from_str_radix` reads it.
unfoldable pub digit_value : ℕ → ℕ
digit_value c = if leb c b'9' then c - b'0' else if leb c b'F' then c - b'A' + 10 else c - b'a' + 10

-- `bytes[position] != b'-'`.
abbrev pub misses_hyphen : List ℕ → ℕ → Bool
misses_hyphen input position = elim (get_elem? input position) [
  | none ↦ true
  | some c ↦ not (c == b'-')
]

-- The hex text that each of the two lengths leaves, if any.
unfoldable pub hex_of : List ℕ → Option (List ℕ)
hex_of input =
    if length input == 32
    then some input
    else if length input == 36
    then if any (misses_hyphen input) canonical_hyphen_positions
      then none
      else some (filter (λ c. not (c == b'-')) input)
    else none

-- The loop over the sixteen pairs of digits.
unfoldable pub read_pairs : List ℕ → List ℕ
read_pairs [] = []
read_pairs (c ∷ []) = []
read_pairs (c ∷ d ∷ cs) = (16 * digit_value c + digit_value d) ∷ read_pairs cs

unfoldable pub read_hex : List ℕ → Option (List ℕ) → Result EntityId EntityIdParseError
read_hex input none = err (record { input = input })
read_hex input (some hex) =
    if not (length hex == 32) || not (all is_hexdigit hex)
    then err (record { input = input })
    else ok (record { bytes = read_pairs hex })

unfoldable pub parse : List ℕ → Result EntityId EntityIdParseError
unfolding hex_of read_hex
parse input = read_hex input (hex_of input)

-- One digit of `{:02x}`.
unfoldable pub hex_digit : ℕ → ℕ
hex_digit n = if ltb n 10 then b'0' + n else b'a' + (n - 10)

-- The bytes from the `n`-th on, with the hyphens of the format before bytes 4, 6, 8 and 10.
unfoldable pub display_from : ℕ → List ℕ → List ℕ
unfolding hex_digit
display_from n [] = []
display_from n (b ∷ bs) =
    let rest = hex_digit (b / 16) ∷ hex_digit (b % 16) ∷ display_from (suc n) bs in
    if n == 4 || n == 6 || n == 8 || n == 10 then b'-' ∷ rest else rest

unfoldable pub display : EntityId → List ℕ
unfolding display_from
display i = display_from 0 i.bytes
