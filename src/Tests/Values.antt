-- ===== src/Tests/Values.antt =====
-- Concrete values given to integer columns.
use tds.Base.{◌≡◌, ◌≤◌, refl, false, arith}
use tds.Base.Int.{pos, negsuc, ltb_ℤ, pos_part}
use tds.Golang.Errors.{overflow}
use tds.Types.{
  IntConverter, convert, pointer, int64_value, signed, refused, convert-in_range, ubig_int_conv,
  convert-refuses_signed,
}

abbrev narrow_conv : IntConverter
narrow_conv = record { min = negsuc 32767; max = 32767 }

convert-in_range_example :
    (ltb_ℤ (pos 300) narrow_conv.min ≡ false) × (pos_part (pos 300) ≤ narrow_conv.max)
convert-in_range_example =
    convert-in_range narrow_conv (pointer (int64_value (pos 300))) (pos 300) refl (omega arith)
      (omega arith, omega arith) (unfold convert in refl)

convert-refuses_signed_example : convert ubig_int_conv (signed (pos 5)) ≡ refused overflow
convert-refuses_signed_example = convert-refuses_signed (pos 5)
