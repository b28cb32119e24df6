-- ===== src/Prelude/Arrays.antt =====
-- `[T; 3]`, indexed by the three values of `usize` that are in range, with reads and writes.
pub data Index : Type 0 where
  i0 i1 i2 : Index

pub record Array {ℓ} (A : Type ℓ) : Type ℓ where
  pub at0 : A
  pub at1 : A
  pub at2 : A

abbrev pub get_at {ℓ} : {A : Type ℓ} → Array A → Index → A
get_at a Index.i0 = a.at0
get_at a Index.i1 = a.at1
get_at a Index.i2 = a.at2

abbrev pub set_at {ℓ} : {A : Type ℓ} → Array A → Index → A → Array A
set_at a Index.i0 x = record a { at0 = x }
set_at a Index.i1 x = record a { at1 = x }
set_at a Index.i2 x = record a { at2 = x }

-- `iter_mut()` with the same change at every element.
abbrev pub map_array {ℓ} : {A : Type ℓ} → (A → A) → Array A → Array A
map_array f a = record { at0 = f a.at0; at1 = f a.at1; at2 = f a.at2 }
