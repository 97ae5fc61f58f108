-- ===== src/Common/Int.antt =====
-- Signed integers over the native numbers, and the two's complement bytes that stand for them.
use Prim.Native.Nat.{ℕ, ◌-◌, ◌%◌, ◌<◌}
use mathlib.Core.Path.{◌≡◌}
use native.Mathlib.Omega.{arith}
use oxisound.Common.Tests.{ltb, if◌then◌else◌}

-- `negsuc n` is -(n + 1).
pub data ℤ : Type 0 where
  pos : ℕ → ℤ
  negsuc : ℕ → ℤ

-- `b as i8` of a `u8`.
unfoldable pub as_i8 : ℕ → ℤ
as_i8 b = if ltb b 128 then pos b else negsuc (255 - b)

-- `z as u8` of an `i8`.
unfoldable pub as_u8 : ℤ → ℕ
as_u8 (pos n) = n % 256
as_u8 (negsuc n) = 255 - n % 256

-- The range of `i8`.
abbrev pub IsI8 : ℤ → Type 0
IsI8 (pos n) = n < 128
IsI8 (negsuc n) = n < 128

pub as_i8-as_u8 : (z : ℤ) → IsI8 z → as_i8 (as_u8 z) ≡ z
unfolding as_i8 as_u8
as_i8-as_u8 z h = ground arith

pub as_i8-IsI8 : (b : ℕ) → b < 256 → IsI8 (as_i8 b)
unfolding as_i8
as_i8-IsI8 b h = ground arith
