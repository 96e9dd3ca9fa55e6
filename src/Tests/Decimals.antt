-- ===== src/Tests/Decimals.antt =====
-- Concrete decimal numbers and amounts of money through a column.
use tds.Base.{suc, ◌^◌, ◌≡◌, refl, inl, inr, true, false, none, some, [], ◌∷◌, length, Bytes, arith}
use tds.Base.Int.{pos, negsuc}
use tds.Golang.Order.{little_endian}
use tds.Golang.Buffer.{buffer}
use tds.Base.Arith.{◌*ℤ◌}
use tds.Golang.Radix.{radix, radix_loop}
use tds.Golang.Radix.Lengths.{bit_len}
use tds.Golang.Big.{format_nat, format_int, is_int, to_int, mul_int}
use tds.Encoder.Writes.{Writes}
use tds.Messages.Codec.{Recovers, buffer_sink}
use tds.Types.DataTypes.{numeric_n_type, money_type}
use tds.Types.Host.{bytes_value}
use tds.Types.Table.{TypeAttribute, num_type, numeric_writer, numeric_reader}
use tds.Columns.{ColType, zero_type}
use tds.Columns.Data.{data_write, data_read}
use tds.Decimals.Num.{Num, num_string, cut_text, decimal_power}
use tds.Decimals.Table.{numeric_bytes, numeric_size, numeric_size-Fits, Fits}
use tds.Decimals.Convert.{convert_decimal}
use tds.Decimals.Wire.{decimal_num, decimals, encode_money, decode_money}
use tds.Decimals.Wire.Texts.{fraction, num_string-panics}
use tds.Decimals.Wire.Trips.{IsDecimal, read-write_decimal, write_decimal-short}
use tds.Decimals.Wire.Money.{read-write_money}
use tds.Tests.Columns.{host}
use tds.Tests.Wires.{encoder, encoder-Ready}

abbrev numeric_props : TypeAttribute
numeric_props = record {
  options = 28;
  num_bytes = 0;
  scan_type = num_type;
  encoding_type = numeric_n_type;
  writer = numeric_writer;
  reader = numeric_reader;
}

-- A column `numeric(5, 2) null`.
abbrev numeric_column : ColType
numeric_column = record zero_type {
  data_type = numeric_n_type;
  precision = pos 5;
  scale = pos 2;
  options = 28;
  write_options = 28;
  encoding_props = some numeric_props;
  valid = true;
}

numeric-IsDecimal : IsDecimal numeric_column numeric_column 5 2 4
unfolding numeric_size numeric_bytes
numeric-IsDecimal = record {
  props = numeric_props;
  found = numeric_props;
  writes = record { valid = refl; known = refl };
  reads = record { valid = refl; known = refl; sized = refl; reads = refl };
  no_width = refl;
  writer = refl;
  reader = refl;
  kind = refl;
  precision = refl;
  scale = refl;
  same_precision = refl;
  same_scale = refl;
  powers = omega arith;
  size = refl;
}

bits_of_1234 : bit_len 1234 ≡ 11
unfolding bit_len radix radix_loop
bits_of_1234 = refl

digits_of_1234 : length (format_nat 1234) ≡ 4
unfolding format_nat radix radix_loop
digits_of_1234 = refl

bits_of_200 : bit_len 200 ≡ 8
unfolding bit_len radix radix_loop
bits_of_200 = refl

-- -12.34 through the column.
read-write_decimal_example :
    (text : Bytes) × (convert_decimal host
        (pos 5)
        (pos 2)
        (decimal_num (pos 5) (pos 2) (negsuc 1233) 100)
      ≡ (bytes_value text, none))
    × Recovers little_endian none
        (data_write (decimals {h = host}) numeric_column (bytes_value text))
        (data_read (decimals {h = host}) numeric_column)
        (decimal_num (pos 5) (pos 2) (negsuc 1233) 100)
        encoder
read-write_decimal_example =
    read-write_decimal host little_endian none numeric_column numeric_column 5 2 4 (negsuc 1233)
      encoder numeric-IsDecimal (omega arith) (inl (omega (arith, bits_of_1234)))
      (inr (omega (arith, digits_of_1234))) encoder-Ready

-- 2.00 is written a byte short.
write_decimal-short_example :
    (text : Bytes) × (bs : Bytes) × (convert_decimal host
        (pos 5)
        (pos 2)
        (decimal_num (pos 5) (pos 2) (pos 200) 100)
      ≡ (bytes_value text, none))
    × Writes buffer_sink little_endian none
        (data_write (decimals {h = host}) numeric_column (bytes_value text))
        (4 ∷ bs)
        none
    × (suc (length bs) ≡ 4)
write_decimal-short_example =
    write_decimal-short host little_endian none numeric_column numeric_column 5 2 4 (pos 200)
      numeric-IsDecimal (omega (arith, bits_of_200)) (omega (arith, bits_of_200)) (inl refl)

abbrev amount : Num
amount = record {
  r = fraction true 1234 (10 ^ 4);
  precision = pos 19;
  scale = pos 4;
  is_null = false;
}

amount_text : num_string amount ≡ some (45 ∷ 46 ∷ 49 ∷ 50 ∷ 51 ∷ 52 ∷ [])
unfolding num_string cut_text decimal_power is_int to_int mul_int format_int format_nat radix
    radix_loop ◌*ℤ◌
amount_text = refl

abbrev money_column : ColType
money_column = record zero_type { data_type = money_type }

-- -.1234 as an amount of money.
read-write_money_example :
    Recovers little_endian none
      (encode_money host money_column (bytes_value (45 ∷ 46 ∷ 49 ∷ 50 ∷ 51 ∷ 52 ∷ [])))
      (decode_money {h = host})
      (decimal_num (pos 19) (pos 4) (negsuc 1233) (10 ^ 4))
      encoder
read-write_money_example =
    read-write_money host little_endian none money_column (negsuc 1233) amount
      (45 ∷ 46 ∷ 49 ∷ 50 ∷ 51 ∷ 52 ∷ []) encoder refl refl refl (omega arith, omega arith)
      (inr (omega (arith, digits_of_1234))) amount_text encoder-Ready

size_of_38 : numeric_size (pos 38) ≡ some 17
unfolding numeric_size numeric_bytes
size_of_38 = refl

numeric_size-Fits_example : Fits 38 17
numeric_size-Fits_example = numeric_size-Fits 38 17 size_of_38

-- 0.04 with a scale of 2.
abbrev four_hundredths : Num
four_hundredths = record {
  r = fraction false 4 (10 ^ 2);
  precision = pos 5;
  scale = pos 2;
  is_null = false;
}

digits_of_4 : length (format_nat 4) ≡ 1
unfolding format_nat radix radix_loop
digits_of_4 = refl

num_string-panics_example : num_string four_hundredths ≡ none
num_string-panics_example =
    num_string-panics false 4 2 four_hundredths refl refl (omega arith) (omega arith)
      (λ e. omega (arith, e)) (omega (arith, digits_of_4))
