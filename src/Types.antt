-- ===== src/Types.antt =====
-- types.go: the data types, and the conversion of the values that a user gives to integer columns.
pub mod DataTypes
pub mod Julian
pub mod Dates
pub mod Host
pub mod Table
pub mod Encoders
pub mod Decoders
pub mod Calendar
use tds.Base.{
  ℕ, zero, suc, ◌+◌, ◌-◌, ◌^◌, ◌≤◌, ◌<◌, ◌≡◌, ◌⊎◌, inl, inr, refl, Bool, true, false, ◌&&◌, ◌||◌,
  Option, none, some, arith, ltb, ltb→lt, lt→ltb, if◌then◌else◌,
}
use tds.Base.Int.{ℤ, pos, negsuc, ltb_ℤ, u64, pos_part, neg_part, i64, IsInt64}
use tds.Golang.Errors.{Error, overflow, bad_type}

-- `intConverter`: `min` is an int64 and `max` a uint64.
pub record IntConverter : Type 0 where
  pub min : ℤ
  pub max : ℕ

-- A value that a user gives, by what ConvertValue looks at: its kind is that of int64, of another
-- signed integer or of an unsigned one, a pointer, or another.
pub data Given : Type 0 where
  int64_value : ℤ → Given
  nil_value : Given
  nil_pointer : Given
  pointer : Given → Given
  signed : ℤ → Given
  unsigned : ℕ → Given
  other_value : Given

-- A driver.Value for an integer column; `hex` is the text of a number in base 16.
pub data Converted : Type 0 where
  null : Converted
  integer : ℤ → Converted
  hex : ℕ → Converted
  refused : Error → Converted

-- `ConvertValue`. The uint64 `max` is compared as an int64 with the value of a signed kind.
unfoldable pub convert : IntConverter → Given → Converted
convert c (int64_value n) =
    if ltb_ℤ n c.min || (ltb_ℤ (pos 0) n && ltb c.max (u64 n)) then refused overflow else integer n
convert c nil_value = null
convert c nil_pointer = null
convert c (pointer v) = convert c v
convert c (signed n) = if ltb_ℤ n c.min || ltb_ℤ (i64 c.max) n then refused overflow else integer n
convert c (unsigned u) =
    if ltb c.max u then refused overflow else if ltb (2 ^ 63 - 1) u then hex u else integer (pos u)
convert c other_value = refused bad_type

-- A value of an int64 fits 64 bits.
abbrev pub IsGiven : Given → Type 0
IsGiven (int64_value n) = IsInt64 n
IsGiven (pointer v) = IsGiven v
IsGiven v = Unit

-- An integer that the converter gives is in the converter's range: not below `min` and not above
-- `max`, whatever kind of value it was made of and through however many pointers, if `min` is not positive
-- and `max` is a uint64.
pub convert-in_range :
    (c : IntConverter) (v : Given) (n : ℤ)
    → pos_part c.min ≡ 0
    → c.max < 2 ^ 64
    → IsGiven v
    → convert c v ≡ integer n
    → (ltb_ℤ n c.min ≡ false) × (pos_part n ≤ c.max)
unfolding convert
convert-in_range c (int64_value (pos k)) n low high h e = ground (arith, e)
convert-in_range c (int64_value (negsuc k)) n low high h e = ground (arith, e)
convert-in_range c nil_value n low high h e = ground (arith, e)
convert-in_range c nil_pointer n low high h e = ground (arith, e)
convert-in_range c (pointer v) n low high h e = convert-in_range c v n low high h e
convert-in_range c (signed (pos k)) n low high h e = ground (arith, e)
convert-in_range c (signed (negsuc k)) n low high h e = ground (arith, e)
convert-in_range c (unsigned u) n low high h e = ground (arith, e)
convert-in_range c other_value n low high h e = ground (arith, e)

-- The converters of the integer columns.
abbrev pub tiny_int_conv : IntConverter
tiny_int_conv = record { min = pos 0; max = 2 ^ 8 - 1 }

abbrev pub small_int_conv : IntConverter
small_int_conv = record { min = negsuc (2 ^ 15 - 1); max = 2 ^ 15 - 1 }

abbrev pub null_int_conv : IntConverter
null_int_conv = record { min = negsuc (2 ^ 31 - 1); max = 2 ^ 31 - 1 }

abbrev pub int_conv : IntConverter
int_conv = record { min = negsuc (2 ^ 31 - 1); max = 2 ^ 31 - 1 }

abbrev pub big_int_conv : IntConverter
big_int_conv = record { min = negsuc (2 ^ 63 - 1); max = 2 ^ 63 - 1 }

abbrev pub uint_conv : IntConverter
uint_conv = record { min = pos 0; max = 2 ^ 32 - 1 }

abbrev pub usmall_int_conv : IntConverter
usmall_int_conv = record { min = pos 0; max = 2 ^ 16 - 1 }

-- The converter of an unsigned 64-bit column, `uBigIntConv`.
abbrev pub ubig_int_conv : IntConverter
ubig_int_conv = record { min = pos 0; max = 2 ^ 64 - 1 }

-- It refuses every value of a signed kind but int64, however small, as an overflow: its `max` is -1 as an
-- int64.
pub convert-refuses_signed : (n : ℤ) → convert ubig_int_conv (signed n) ≡ refused overflow
unfolding convert
convert-refuses_signed (pos k) = ground arith
convert-refuses_signed (negsuc k) = ground arith
