-- ===== src/Base/Int.antt =====
-- Signed integers over the native numbers, and Go's conversions between the fixed widths.
use Prim.Native.Nat.{ℕ, suc, ◌+◌, ◌-◌, ◌%◌, ◌^◌, ◌≤◌, ◌<◌}
use mathlib.Core.Path.{◌≡◌}
use mathlib.Core.Bool.{Bool}
use native.Mathlib.Omega.{arith}
use tds.Base.Tests.{ltb, if◌then◌else◌}

-- `negsuc n` is -(n + 1).
pub data ℤ : Type 0 where
  pos : ℕ → ℤ
  negsuc : ℕ → ℤ

abbrev pub pos_part : ℤ → ℕ
pos_part (pos n) = n
pos_part (negsuc n) = 0

abbrev pub neg_part : ℤ → ℕ
neg_part (pos n) = 0
neg_part (negsuc n) = suc n

abbrev pub ltb_ℤ : ℤ → ℤ → Bool
ltb_ℤ a b = ltb (pos_part a + neg_part b) (pos_part b + neg_part a)

-- `uint8(i)` to `uint64(i)`: the bit pattern of an integer, as a number.
abbrev pub u8 : ℤ → ℕ
u8 (pos n) = n % 2 ^ 8
u8 (negsuc n) = 2 ^ 8 - 1 - n % 2 ^ 8

abbrev pub u16 : ℤ → ℕ
u16 (pos n) = n % 2 ^ 16
u16 (negsuc n) = 2 ^ 16 - 1 - n % 2 ^ 16

abbrev pub u32 : ℤ → ℕ
u32 (pos n) = n % 2 ^ 32
u32 (negsuc n) = 2 ^ 32 - 1 - n % 2 ^ 32

abbrev pub u64 : ℤ → ℕ
u64 (pos n) = n % 2 ^ 64
u64 (negsuc n) = 2 ^ 64 - 1 - n % 2 ^ 64

-- `int8(n)` to `int64(n)`: the integer that a bit pattern stands for.
abbrev pub i8 : ℕ → ℤ
i8 n = if ltb (n % 2 ^ 8) (2 ^ 7) then pos (n % 2 ^ 8) else negsuc (2 ^ 8 - 1 - n % 2 ^ 8)

abbrev pub i16 : ℕ → ℤ
i16 n = if ltb (n % 2 ^ 16) (2 ^ 15) then pos (n % 2 ^ 16) else negsuc (2 ^ 16 - 1 - n % 2 ^ 16)

abbrev pub i32 : ℕ → ℤ
i32 n = if ltb (n % 2 ^ 32) (2 ^ 31) then pos (n % 2 ^ 32) else negsuc (2 ^ 32 - 1 - n % 2 ^ 32)

abbrev pub i64 : ℕ → ℤ
i64 n = if ltb (n % 2 ^ 64) (2 ^ 63) then pos (n % 2 ^ 64) else negsuc (2 ^ 64 - 1 - n % 2 ^ 64)

-- The values of the signed types.
abbrev pub IsInt8 : ℤ → Type 0
IsInt8 z = (pos_part z < 2 ^ 7) × (neg_part z ≤ 2 ^ 7)

abbrev pub IsInt16 : ℤ → Type 0
IsInt16 z = (pos_part z < 2 ^ 15) × (neg_part z ≤ 2 ^ 15)

abbrev pub IsInt32 : ℤ → Type 0
IsInt32 z = (pos_part z < 2 ^ 31) × (neg_part z ≤ 2 ^ 31)

abbrev pub IsInt64 : ℤ → Type 0
IsInt64 z = (pos_part z < 2 ^ 63) × (neg_part z ≤ 2 ^ 63)

pub i8-u8 : (z : ℤ) → IsInt8 z → i8 (u8 z) ≡ z
i8-u8 (pos n) h = ground arith
i8-u8 (negsuc n) h = ground arith

pub i16-u16 : (z : ℤ) → IsInt16 z → i16 (u16 z) ≡ z
i16-u16 (pos n) h = ground arith
i16-u16 (negsuc n) h = ground arith

pub i32-u32 : (z : ℤ) → IsInt32 z → i32 (u32 z) ≡ z
i32-u32 (pos n) h = ground arith
i32-u32 (negsuc n) h = ground arith

pub i64-u64 : (z : ℤ) → IsInt64 z → i64 (u64 z) ≡ z
i64-u64 (pos n) h = ground arith
i64-u64 (negsuc n) h = ground arith

pub u8-lt : (z : ℤ) → u8 z < 2 ^ 8
u8-lt (pos n) = omega arith
u8-lt (negsuc n) = omega arith

pub u16-lt : (z : ℤ) → u16 z < 2 ^ 16
u16-lt (pos n) = omega arith
u16-lt (negsuc n) = omega arith

pub u32-lt : (z : ℤ) → u32 z < 2 ^ 32
u32-lt (pos n) = omega arith
u32-lt (negsuc n) = omega arith

pub u64-lt : (z : ℤ) → u64 z < 2 ^ 64
u64-lt (pos n) = omega arith
u64-lt (negsuc n) = omega arith
