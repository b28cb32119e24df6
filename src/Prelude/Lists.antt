-- ===== src/Prelude/Lists.antt =====
-- Lists measured and indexed by native numbers, and the list reads of the source.
use Prim.Native.Nat.{ℕ, zero, suc, ◌+◌}
use mathlib.Core.Path.{◌≡◌, refl, sym, ap, ◌∙◌}
use mathlib.Core.Bool.{Bool, true, false, ◌||◌, ◌&&◌}
use mathlib.Core.List.{List, [], ◌∷◌, ◌++◌}
use mathlib.Core.Logic.{◌⊎◌, inl, inr}
use mathlib.Core.Option.{Option, none, some, some-injective}
use native.Mathlib.Omega.{arith}
use summoners.Prelude.Tests.{and_parts, if◌then◌else◌, Option-cases}

module _ {ℓ} {A : Type ℓ} where
  abbrev pub length : List A → ℕ
  length [] = 0
  length (x ∷ xs) = suc (length xs)

  abbrev pub get_elem? : List A → ℕ → Option A
  get_elem? [] i = none
  get_elem? (x ∷ xs) zero = some x
  get_elem? (x ∷ xs) (suc i) = get_elem? xs i

  -- `Vec::remove` at an index in range; out of range nothing is removed.
  abbrev pub remove_at : ℕ → List A → List A
  remove_at i [] = []
  remove_at zero (x ∷ xs) = xs
  remove_at (suc i) (x ∷ xs) = x ∷ remove_at i xs

  abbrev pub take : ℕ → List A → List A
  take zero xs = []
  take (suc n) [] = []
  take (suc n) (x ∷ xs) = x ∷ take n xs

  -- `iter().position(p)` with the element found there.
  abbrev pub position : (A → Bool) → List A → Option (ℕ × A)
  position p [] = none
  position p (x ∷ xs) =
      if p x
      then some (0, x)
      else elim (position p xs) [ none ↦ none | some (i, y) ↦ some (suc i, y) ]

  abbrev pub find : (A → Bool) → List A → Option A
  find p [] = none
  find p (x ∷ xs) = if p x then some x else find p xs

  abbrev pub any : (A → Bool) → List A → Bool
  any p [] = false
  any p (x ∷ xs) = p x || any p xs

  abbrev pub all : (A → Bool) → List A → Bool
  all p [] = true
  all p (x ∷ xs) = p x && all p xs

  abbrev pub filter : (A → Bool) → List A → List A
  filter p [] = []
  filter p (x ∷ xs) = let rest = filter p xs in if p x then x ∷ rest else rest

  abbrev pub filter_map {κ} : {B : Type κ} → (A → Option B) → List A → List B
  filter_map f [] = []
  filter_map f (x ∷ xs) =
      let rest = filter_map f xs in elim (f x) [ none ↦ rest | some y ↦ y ∷ rest ]

  abbrev pub flat_map {κ} : {B : Type κ} → (A → List B) → List A → List B
  flat_map f [] = []
  flat_map f (x ∷ xs) = f x ++ flat_map f xs

  -- `first()`, and the top of a stack that is kept top first.
  abbrev pub first : List A → Option A
  first [] = none
  first (x ∷ xs) = some x

  abbrev pub rest_of : List A → List A
  rest_of [] = []
  rest_of (x ∷ xs) = xs

  pub length-append : (xs ys : List A) → length (xs ++ ys) ≡ length xs + length ys
  length-append [] ys = omega arith
  length-append (x ∷ xs) ys = omega (arith, length-append xs ys)

-- The sum of a weight over a list.
abbrev pub sum_by {ℓ} : {A : Type ℓ} → (A → ℕ) → List A → ℕ
sum_by w [] = 0
sum_by w (x ∷ xs) = w x + sum_by w xs

pub sum_by-append {ℓ} :
    {A : Type ℓ} (w : A → ℕ) (xs ys : List A) → sum_by w (xs ++ ys) ≡ sum_by w xs + sum_by w ys
sum_by-append w [] ys = omega arith
sum_by-append w (x ∷ xs) ys = omega (arith, sum_by-append w xs ys)

-- What an index reads is what removal takes out.
pub sum_by-remove_at {ℓ} :
    {A : Type ℓ} (w : A → ℕ) (i : ℕ) (xs : List A) {x : A}
    → get_elem? xs i ≡ some x
    → sum_by w (remove_at i xs) + w x ≡ sum_by w xs
sum_by-remove_at w i [] e = ground arith
sum_by-remove_at w zero (y ∷ xs) e = ground arith
sum_by-remove_at w (suc i) (y ∷ xs) e = omega (arith, sum_by-remove_at w i xs e)

-- The element that `position` reports stands at the index it reports.
pub get_elem?-position {ℓ} :
    {A : Type ℓ} (p : A → Bool) (xs : List A) {i : ℕ} {x : A}
    → position p xs ≡ some (i, x)
    → get_elem? xs i ≡ some x
get_elem?-position p [] e = ground arith
get_elem?-position p (y ∷ xs) e = elim (Option-cases (position p xs)) [
  | inl q ↦ ground (arith, q)
  | inr ((j, z), q) ↦ ground (arith, q, get_elem?-position p xs q)
]

pub List-cases {ℓ} :
    {A : Type ℓ} (xs : List A) → (xs ≡ []) ⊎ ((x : A) × (rest : List A) × (xs ≡ x ∷ rest))
List-cases [] = inl refl
List-cases (x ∷ rest) = inr (x, rest, refl)

-- What a filter keeps passes its test.
pub all-filter {ℓ} : {A : Type ℓ} (p : A → Bool) (xs : List A) → all p (filter p xs) ≡ true
all-filter p [] = refl
all-filter p (x ∷ xs) = ground (arith, all-filter p xs)

pub all-get_elem? {ℓ} :
    {A : Type ℓ} (p : A → Bool) (xs : List A) (n : ℕ) {x : A}
    → all p xs ≡ true
    → get_elem? xs n ≡ some x
    → p x ≡ true
all-get_elem? p [] n h e = cc
all-get_elem? p (y ∷ xs) zero h e =
    (let same : y ≡ _ = some-injective y _ e in ap p (sym same) ∙ (and_parts (p y) _ h).0)
all-get_elem? p (y ∷ xs) (suc n) h e = all-get_elem? p xs n (and_parts (p y) _ h).1 e

abbrev pub is_empty {ℓ} : {A : Type ℓ} → List A → Bool
is_empty [] = true
is_empty (_ ∷ _) = false

pub is_empty-nil {ℓ} : {A : Type ℓ} (xs : List A) → is_empty xs ≡ true → xs ≡ []
is_empty-nil [] h = refl
is_empty-nil (x ∷ xs) h = cc
