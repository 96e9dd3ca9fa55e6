-- ===== src/Decimals/Convert.antt =====
-- num.go: Num.Scan and numConverter.ConvertValue, with a panic as an error. The values are those that database/sql
-- gives a driver, which are no pointers and no Valuers, and a Num.
use tds.Base.{ℕ, ◌||◌, true, false, Option, none, some, Bytes, if◌then◌else◌}
use tds.Base.Int.{ℤ, pos, ltb_ℤ}
use tds.Golang.Errors.{Error, overflow, panic, bad_scan, not_a_number}
use tds.Golang.Big.{Rat, mul_int, is_int, format_int, format_nat, set_string}
use tds.Decimals.Num.{Num, decimal_power, num_string}
use tds.Types.Host.{
  Host, Value, nil_value, int64_value, uint64_value, float64_value, float32_value, string_value,
  bytes_value, num_value,
}

module _ {h : Host} where
  -- The text that Scan makes of a value, if it has a kind that Scan takes.
  unfoldable pub text_of : Value h → Option Bytes
  text_of (string_value s) = some s
  text_of (int64_value z) = some (format_int z)
  text_of (uint64_value n) = some (format_nat n)
  text_of (float64_value x) = some (h.format_float64 x)
  text_of (float32_value x) = some (h.format_float32 x)
  text_of v = none

-- `!mul.IsInt()` for what the scale multiplies.
unfoldable pub check_scale : Option ℕ → Rat → Option Error
check_scale none r = some panic
check_scale (some p) r = if is_int (mul_int r p) then none else some overflow

module _ (h : Host) where
  -- The second half of `Scan`, on a text.
  unfoldable pub scan_text : Num → Bytes → Num × Option Error
  unfolding check_scale
  scan_text n s = elim (set_string h.other_form s) [
    | none ↦ (n, some (not_a_number s))
    | some r ↦ (record n { r = r }, check_scale (decimal_power n.scale) r)
  ]

  -- `Scan`.
  unfoldable pub scan : Num → Value h → Num × Option Error
  unfolding scan_text text_of
  scan n nil_value = (record n { is_null = true }, none)
  scan n v = elim (text_of v) [ none ↦ (n, some bad_scan) | some s ↦ scan_text n s ]

  -- `[]byte(num.String())`.
  unfoldable pub text_value : Option Bytes → Value h × Option Error
  text_value none = (nil_value, some panic)
  text_value (some s) = (bytes_value s, none)

  unfoldable pub convert_scanned : Num × Option Error → Value h × Option Error
  unfolding text_value
  convert_scanned (n, none) = text_value (num_string n)
  convert_scanned (n, some e) = (nil_value, some e)

  -- A new Num of the converter's precision and scale.
  abbrev pub blank : ℤ → ℤ → Num
  blank precision scale = record {
    r = record { num = pos 0; den = 1 };
    precision = precision;
    scale = scale;
    is_null = false;
  }

  -- A Num that is given as it is.
  unfoldable pub convert_num : ℤ → ℤ → Num → Value h × Option Error
  unfolding text_value
  convert_num precision scale n =
      if n.is_null
      then (nil_value, none)
      else if ltb_ℤ precision n.precision || ltb_ℤ scale n.scale
      then (nil_value, some overflow)
      else text_value (num_string n)

  -- `numConverter.ConvertValue`, by the converter's precision and scale.
  unfoldable pub convert_decimal : ℤ → ℤ → Value h → Value h × Option Error
  unfolding convert_num convert_scanned scan
  convert_decimal precision scale nil_value = (nil_value, none)
  convert_decimal precision scale (num_value n) = convert_num precision scale n
  convert_decimal precision scale v = convert_scanned (scan (blank precision scale) v)
