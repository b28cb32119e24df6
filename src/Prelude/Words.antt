-- ===== src/Prelude/Words.antt =====
-- u32 and u8 arithmetic: the saturating operations, and the wrap of a release build.
use Prim.Native.Nat.{ℕ, ◌+◌, ◌≤◌, ◌%◌}
use native.Mathlib.Omega.{arith}
use summoners.Prelude.Tests.{ltb, if◌then◌else◌}

abbrev pub u32_max : ℕ
u32_max = 4294967295

-- `u32::saturating_add`; `u32::saturating_sub` is the subtraction of ℕ.
unfoldable pub saturating_add : ℕ → ℕ → ℕ
saturating_add a b = if ltb u32_max (a + b) then u32_max else a + b

abbrev pub u32 : ℕ → ℕ
u32 n = n % 4294967296

abbrev pub u8 : ℕ → ℕ
u8 n = n % 256

pub saturating_add_bounds :
    (a b : ℕ) → a ≤ u32_max → (a ≤ saturating_add a b) × (saturating_add a b ≤ u32_max)
unfolding saturating_add
saturating_add_bounds a b h = ground arith
