-- ===== src/Types/Host.antt =====
-- What types.go uses of Go's libraries, and the values that it encodes and decodes.
use tds.Base.{ℕ, ◌⊎◌, Bool, Option, Bytes}
use tds.Base.Int.{ℤ}
use tds.Golang.Errors.{Error}
use tds.Golang.Big.{Rat}
use tds.Decimals.Num.{Num}
use tds.Types.Dates.{TimeLib}

-- Package time, the IEEE 754 bits of package math, the UTF-16 encoder and decoder of golang.org/x/text, and
-- strconv.ParseUint in base 16. Of Rat.SetString the forms that are not decimal, strconv.FormatFloat in the format
-- that Scan asks for, and the int32 that Go makes of the float64 of an integer.
pub record Host : Type 1 where
  pub Time : Type 0
  pub time : TimeLib Time
  pub Float64 : Type 0
  pub Float32 : Type 0
  pub to_float32 : Float64 → Float32
  pub float64_bits : Float64 → ℕ
  pub float64_from_bits : ℕ → Float64
  pub float32_bits : Float32 → ℕ
  pub float32_from_bits : ℕ → Float32
  pub utf16_encode : Bytes → Bytes × Option Error
  pub utf16_decode : Bytes → Bytes × Option Error
  pub parse_hex : Bytes → ℕ ⊎ Error
  pub other_form : Bytes → Option Rat
  pub format_float64 : Float64 → Bytes
  pub format_float32 : Float32 → Bytes
  pub float_int32 : ℤ → ℤ

-- An `interface{}`, by the types that the encoders and decoders tell apart.
pub data Value (h : Host) : Type 0 where
  nil_value : Value h
  int64_value : ℤ → Value h
  uint64_value : ℕ → Value h
  bool_value : Bool → Value h
  float64_value : h.Float64 → Value h
  float32_value : h.Float32 → Value h
  string_value : Bytes → Value h
  bytes_value : Bytes → Value h
  time_value : h.Time → Value h
  num_value : Num → Value h
  other_value : Value h
