-- ===== src/Pool.antt =====
-- The card pool's index against a search: crates/core/src/domain/cards/set.rs.
use summoners.Prelude.{
  ℕ, suc, ◌≡◌, refl, sym, ap, ◌∙◌, true, Option, none, some, List, [], ◌∷◌, ◌++◌, find, get_elem?,
  arith, inl, inr, Bool-cases, Option-cases, if◌then◌else◌,
}
use summoners.Domain.EntityId.{EntityId, id_eq, bytes_eq}
use summoners.Domain.Entity.{Entity, id_of}
use summoners.Domain.CardSet
use summoners.Domain.CardSet.{CardSet, lookup, or_insert, index_from}

pub bytes_eq_sound : (xs ys : List ℕ) → bytes_eq xs ys ≡ true → xs ≡ ys
bytes_eq_sound [] [] h = refl
bytes_eq_sound [] (_ ∷ _) h = cc
bytes_eq_sound (_ ∷ _) [] h = cc
bytes_eq_sound (x ∷ xs) (y ∷ ys) h =
    let same : x ≡ y = ground (arith, h) in
    let rest = bytes_eq_sound xs ys (ground (arith, h)) in cc

id_eq_sound : (a b : EntityId) → id_eq a b ≡ true → a ≡ b
unfolding id_eq
id_eq_sound a b h = ap (λ bytes. record { bytes = bytes }) (bytes_eq_sound a.bytes b.bytes h)

-- The first value, or else the second.
abbrev or_else {ℓ} : {A : Type ℓ} → Option A → Option A → Option A
or_else none o = o
or_else (some a) o = some a

abbrev hit_at : EntityId → EntityId → ℕ → Option ℕ
hit_at j i n = if id_eq j i then some n else none

lookup-append :
    (i j : EntityId) (n : ℕ) (m : List (EntityId × ℕ))
    → lookup i (m ++ (j, n) ∷ []) ≡ or_else (lookup i m) (hit_at j i n)
unfolding lookup
lookup-append i j n [] = refl
lookup-append i j n ((k, l) ∷ m) = elim (Bool-cases (id_eq k i)) [
  | inl e ↦ rw (e)
  | inr e ↦ rw (e) (lookup-append i j n m)
]

lookup-or_insert :
    (i j : EntityId) (n : ℕ) (m : List (EntityId × ℕ))
    → lookup i (or_insert j n m) ≡ or_else (lookup i m) (hit_at j i n)
unfolding or_insert
lookup-or_insert i j n m = elim (Option-cases (lookup j m)) [
  | inl e ↦ rw (e, or_insert) (lookup-append i j n m)
  | inr (v, e) ↦ elim (Bool-cases (id_eq j i)) [
    | inl f ↦ rw (e, f, or_insert) (present v e f)
    | inr f ↦ rw (e, f, or_insert) (or_none (lookup i m))
  ]
]
  where
    present :
        (v : ℕ)
        → lookup j m ≡ some v
        → id_eq j i ≡ true
        → lookup i m ≡ or_else (lookup i m) (some n)
    present v e f =
        let g : lookup i m ≡ some v = ap (λ k. lookup k m) (sym (id_eq_sound j i f)) ∙ e in rw (g)

    or_none : (o : Option ℕ) → o ≡ or_else o none
    or_none none = refl
    or_none (some a) = refl

-- The place of the first entity with the id, counted from `n`.
unfoldable place : EntityId → ℕ → List Entity → Option ℕ
place i n [] = none
place i n (e ∷ es) = or_else (hit_at (id_of e) i n) (place i (suc n) es)

or_else_assoc : (a b c : Option ℕ) → or_else (or_else a b) c ≡ or_else a (or_else b c)
or_else_assoc none b c = refl
or_else_assoc (some a) b c = refl

lookup-index_from :
    (i : EntityId) (n : ℕ) (es : List Entity) (m : List (EntityId × ℕ))
    → lookup i (index_from n es m) ≡ or_else (lookup i m) (place i n es)
unfolding index_from place
lookup-index_from i n [] m = none_last (lookup i m)
  where
    none_last : (o : Option ℕ) → o ≡ or_else o none
    none_last none = refl
    none_last (some a) = refl
lookup-index_from i n (e ∷ es) m =
    lookup-index_from i (suc n) es (or_insert (id_of e) n m)
    ∙ ap (λ o. or_else o (place i (suc n) es)) (lookup-or_insert i (id_of e) n m)
    ∙ or_else_assoc (lookup i m) (hit_at (id_of e) i n) (place i (suc n) es)

-- The element at a place, if there is one.
abbrev fetch : List Entity → Option ℕ → Option Entity
fetch es none = none
fetch es (some n) = get_elem? es n

fetch-place-suc :
    (i : EntityId) (n : ℕ) (x : Entity) (xs es : List Entity)
    → fetch (x ∷ xs) (place i (suc n) es) ≡ fetch xs (place i n es)
unfolding place
fetch-place-suc i n x xs [] = refl
fetch-place-suc i n x xs (e ∷ es) = elim (Bool-cases (id_eq (id_of e) i)) [
  | inl f ↦ rw (f)
  | inr f ↦ rw (f) (fetch-place-suc i (suc n) x xs es)
]

fetch-place :
    (i : EntityId) (es : List Entity) → fetch es (place i 0 es) ≡ find (λ e. id_eq (id_of e) i) es
unfolding place
fetch-place i [] = refl
fetch-place i (e ∷ es) = elim (Bool-cases (id_eq (id_of e) i)) [
  | inl f ↦ rw (f)
  | inr f ↦ rw (f) (fetch-place-suc i 0 e es es ∙ fetch-place i es)
]

get-fetch : (cs : CardSet) (i : EntityId) → CardSet.get cs i ≡ fetch cs.entities (lookup i cs.by_id)
unfolding CardSet.get
get-fetch cs i = elim (Option-cases (lookup i cs.by_id)) [
  | inl e ↦ rw (e, CardSet.get)
  | inr (n, e) ↦ rw (e, CardSet.get)
]

-- A pool built from entities finds by its index what a search from the front finds: the first
-- entity with the id, also where several entities have the same one.
pub get-new :
    (es : List Entity) (i : EntityId)
    → CardSet.get (CardSet.new es) i ≡ find (λ e. id_eq (id_of e) i) es
unfolding CardSet.new
get-new es i =
    get-fetch (CardSet.new es) i ∙ ap (fetch es) (lookup-index_from i 0 es []) ∙ fetch-place i es
