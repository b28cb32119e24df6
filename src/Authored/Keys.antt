-- ===== src/Authored/Keys.antt =====
-- The texts and maps that crates/cards/src/deck.rs and library.rs work with. A text is the list of
-- its UTF-8 bytes, and the name of a Set, a card, an ability or a Deck the list of its chars; a
-- `BTreeMap` or `HashMap` is an association list without a key twice, whose order nothing in these
-- files reads.
use summoners.Prelude.{
  ℕ, Bool, false, not, ◌&&◌, ◌||◌, Option, none, some, List, [], ◌∷◌, ◌==◌, leb, all, length,
  is_some, if◌then◌else◌,
}
use summoners.Domain.EntityId.{bytes_eq}

abbrev pub Text : Type 0
Text = List ℕ

-- The chars of a name, which `str::trim` reads.
abbrev pub Name : Type 0
Name = List ℕ

-- `u8::is_ascii_lowercase` and `u8::is_ascii_digit`.
abbrev pub is_lowercase : ℕ → Bool
is_lowercase c = leb b'a' c && leb c b'z'

abbrev pub is_digit : ℕ → Bool
is_digit c = leb b'0' c && leb c b'9'

abbrev pub starts_lowercase : Text → Bool
starts_lowercase [] = false
starts_lowercase (c ∷ _) = is_lowercase c

unfoldable pub ends_hyphen : Text → Bool
ends_hyphen [] = false
ends_hyphen (c ∷ []) = c == b'-'
ends_hyphen (_ ∷ c ∷ cs) = ends_hyphen (c ∷ cs)

-- `windows(2).any(|pair| pair == b"--")`.
unfoldable pub has_double_hyphen : Text → Bool
has_double_hyphen [] = false
has_double_hyphen (_ ∷ []) = false
has_double_hyphen (c ∷ d ∷ cs) = c == b'-' && d == b'-' || has_double_hyphen (d ∷ cs)

unfoldable pub stable_key_syntax : Text → Bool
unfolding ends_hyphen has_double_hyphen
stable_key_syntax value =
    leb 1 (length value)
    && leb (length value) 64
    && starts_lowercase value
    && all (λ c. is_lowercase c || is_digit c || c == b'-') value
    && not (ends_hyphen value)
    && not (has_double_hyphen value)

-- `str::split('/')`, which always has a first part.
unfoldable pub split_slash : Text → Text × List Text
split_slash [] = ([], [])
split_slash (c ∷ cs) =
    let (part, parts) = split_slash cs in
    if c == b'/' then ([], part ∷ parts) else (c ∷ part, parts)

unfoldable pub find {ℓ} : {A : Type ℓ} → Text → List (Text × A) → Option A
find key [] = none
find key (entry ∷ entries) =
    let rest = find key entries in if bytes_eq entry.0 key then some entry.1 else rest

abbrev pub contains_key {ℓ} : {A : Type ℓ} → Text → List (Text × A) → Bool
contains_key key entries = is_some (find key entries)

-- The map after `insert`; what `insert` returns is what `find` found before it.
unfoldable pub insert {ℓ} : {A : Type ℓ} → Text → A → List (Text × A) → List (Text × A)
insert key value [] = (key, value) ∷ []
insert key value (entry ∷ entries) =
    let rest = insert key value entries in
    if bytes_eq entry.0 key then (entry.0, value) ∷ entries else entry ∷ rest
