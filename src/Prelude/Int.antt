-- ===== src/Prelude/Int.antt =====
-- Signed numbers over the native naturals, and the casts between words of one width.
use Prim.Native.Nat.{ℕ, ◌-◌, ◌^◌, ◌<◌, ◌%◌}
use mathlib.Core.Path.{◌≡◌}
use mathlib.Core.Bool.{Bool, true, false}
use native.Mathlib.Omega.{arith}
use nexad.Prelude.Tests.{ltb, leb, if◌then◌else◌}

pub data ℤ : Type 0 where
  pos negsuc : ℕ → ℤ

abbrev pub int_leb : ℤ → ℤ → Bool
int_leb (pos a) (pos b) = leb a b
int_leb (pos a) (negsuc b) = false
int_leb (negsuc a) (pos b) = true
int_leb (negsuc a) (negsuc b) = leb b a

-- `as i64` of a word below 2 ^ 64, and `as i32` of one below 2 ^ 32
abbrev pub u64_as_i64 : ℕ → ℤ
u64_as_i64 w = if ltb w (2 ^ 63) then pos w else negsuc (2 ^ 64 - w - 1)

abbrev pub u32_as_i32 : ℕ → ℤ
u32_as_i32 w = if ltb w (2 ^ 31) then pos w else negsuc (2 ^ 32 - w - 1)

-- `as u64` and `as u32`: the low bits of the two's complement
abbrev pub as_u64 : ℤ → ℕ
as_u64 (pos n) = n % 2 ^ 64
as_u64 (negsuc n) = 2 ^ 64 - 1 - n % 2 ^ 64

abbrev pub as_u32 : ℤ → ℕ
as_u32 (pos n) = n % 2 ^ 32
as_u32 (negsuc n) = 2 ^ 32 - 1 - n % 2 ^ 32

pub as_u64-u64_as_i64 : (w : ℕ) → w < 2 ^ 64 → as_u64 (u64_as_i64 w) ≡ w
as_u64-u64_as_i64 w h = ground arith

pub as_u32-u32_as_i32 : (w : ℕ) → w < 2 ^ 32 → as_u32 (u32_as_i32 w) ≡ w
as_u32-u32_as_i32 w h = ground arith
