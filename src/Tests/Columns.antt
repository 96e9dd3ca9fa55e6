-- ===== src/Tests/Columns.antt =====
-- Concrete columns and a row of them, written and read back.
use tds.Base.{
  ℕ, ◌^◌, ◌<◌, ◌≡◌, refl, true, false, inr, none, some, List, [], ◌∷◌, ◌++◌, Bytes, arith,
}
use tds.Base.Int.{pos, negsuc, u32}
use tds.Golang.Errors.{panic, eof}
use tds.Golang.Order.{little_endian, put}
use tds.Golang.Buffer.{Buffer, buffer}
use tds.Encoder.Ops.{pure}
use tds.Encoder.Texts.{IsText, text8}
use tds.Messages.Codec.{Recovers}
use tds.Types.DataTypes.{smallint_type, int_type, int_n_type, varchar_type}
use tds.Types.{convert, integer, pointer, signed, small_int_conv}
use tds.Columns.Data.Converted.{smallint_column, convert-Recovers}
use tds.Types.Host.{Host, Value, nil_value, int64_value, string_value}
use tds.Types.Table.{
  TypeAttribute, find, attributes_of, string_type, int64_type, int_writer, int_reader, int_n_reader,
  char_writer, char_reader,
}
use tds.Columns.{ColType, zero_type, concrete_type, at_index, get_type_properties, get_type}
use tds.Columns.Lookup.{LookedUp, get_type_properties-LookedUp}
use tds.Columns.Formats.{ColFmt, zero_fmt, param}
use tds.Columns.Formats.Types.{IsSendable, received}
use tds.Columns.Formats.Trips.{IsParam, received_fmt}
use tds.Columns.Data.{Decimals, run_writer, run_reader}
use tds.Columns.Data.Held.{
  IsSized, IsTyped, held_null, held_fixed, held_counted, fixed_int_n, counted_char,
}
use tds.Columns.Rows.{write_columns, read_columns, write_row, read_row}
use tds.Columns.Rows.Trips.{HeldRow, no_cells, cell, read-write_row}
use tds.Columns.Rows.Headers.{no_fmts, sent, read-write_columns}
use tds.Tests.Wires.{encoder, encoder-Ready, master, master-IsText8}
use tds.Tests.Dates.{At, lib}

-- Floats by their bits, and no text in UTF-16.
abbrev pub host : Host
host = record {
  Time = At;
  time = lib;
  Float64 = ℕ;
  Float32 = ℕ;
  to_float32 = λ n. n;
  float64_bits = λ n. n;
  float64_from_bits = λ n. n;
  float32_bits = λ n. n;
  float32_from_bits = λ n. n;
  utf16_encode = λ s. (s, some eof);
  utf16_decode = λ s. (s, some eof);
  parse_hex = λ s. inr eof;
  other_form = λ s. none;
  format_float64 = λ x. [];
  format_float32 = λ x. [];
  float_int32 = λ z. z;
}

abbrev pub no_decimals : Decimals host Buffer
no_decimals = record {
  write = λ w t v. pure (some panic);
  read = λ r t. pure (nil_value, some panic);
}

abbrev pub int_props : TypeAttribute
int_props = record {
  options = 128;
  num_bytes = 4;
  scan_type = int64_type;
  encoding_type = int_n_type;
  writer = int_writer;
  reader = int_reader;
}

abbrev int_n_props : TypeAttribute
int_n_props = record {
  options = 16;
  num_bytes = 4;
  scan_type = int64_type;
  encoding_type = int_n_type;
  writer = int_writer;
  reader = int_n_reader;
}

abbrev varchar_props : TypeAttribute
varchar_props = record {
  options = 146;
  num_bytes = 0;
  scan_type = string_type;
  encoding_type = varchar_type;
  writer = char_writer;
  reader = char_reader;
}

-- The types of the columns of a statement's parameters.
abbrev pub int_column : ColType
int_column = record zero_type {
  data_type = int_type;
  options = 128;
  write_options = 16;
  encoding_props = some int_props;
  valid = true;
}

abbrev varchar_column : ColType
varchar_column = record zero_type {
  data_type = varchar_type;
  size = 255;
  options = 146;
  write_options = 146;
  encoding_props = some varchar_props;
  valid = true;
}

-- The types that are found for what is sent.
abbrev pub int_found : ColType
int_found = record zero_type {
  data_type = int_n_type;
  options = 16;
  write_options = 16;
  encoding_props = some int_n_props;
  valid = true;
}

abbrev varchar_found : ColType
varchar_found = record zero_type {
  data_type = varchar_type;
  options = 146;
  write_options = 146;
  encoding_props = some varchar_props;
  valid = true;
}

get_type_int : get_type int_type 0 ≡ int_column
unfolding get_type attributes_of find concrete_type at_index
get_type_int = refl

empty-IsText : (limit : ℕ) → 0 < limit → IsText none limit []
empty-IsText limit h = record { lossless = tt; short = h; readable = omega arith }

pub int-IsSendable : IsSendable none int_column int_props int_found
unfolding get_type_properties attributes_of find concrete_type at_index
int-IsSendable = record {
  valid = refl;
  known = refl;
  found = refl;
  user_type = (omega arith, omega arith);
  long = refl;
  lob = refl;
  prec = refl;
  scaled = refl;
  sized = refl;
  size = omega arith;
  num_bytes = omega arith;
  table = empty-IsText (2 ^ 16) (omega arith);
  precision = (omega arith, omega arith);
  scale = (omega arith, omega arith);
}

varchar-IsSendable : IsSendable none varchar_column varchar_props varchar_found
unfolding get_type_properties attributes_of find concrete_type at_index
varchar-IsSendable = record {
  valid = refl;
  known = refl;
  found = refl;
  user_type = (omega arith, omega arith);
  long = refl;
  lob = refl;
  prec = refl;
  scaled = refl;
  sized = refl;
  size = omega arith;
  num_bytes = omega arith;
  table = empty-IsText (2 ^ 16) (omega arith);
  precision = (omega arith, omega arith);
  scale = (omega arith, omega arith);
}

abbrev pub fmt : Bytes → ColType → ColFmt
fmt name t = record zero_fmt { name = name; col_type = t }

abbrev columns : List ColFmt
columns = fmt [] int_column ∷ fmt [] int_column ∷ fmt master varchar_column ∷ []

abbrev found_columns : List ColFmt
found_columns =
    received_fmt (fmt [] int_column) int_props int_found
    ∷ received_fmt (fmt [] int_column) int_props int_found
    ∷ received_fmt (fmt master varchar_column) varchar_props varchar_found
    ∷ []

int-IsParam : IsParam none param (fmt [] int_column) int_props int_found
int-IsParam = record {
  sendable = int-IsSendable;
  short = refl;
  name = empty-IsText (2 ^ 8) (omega arith);
  few_flags = omega arith;
  no_class = refl;
  found_no_class = refl;
}

varchar-IsParam : IsParam none param (fmt master varchar_column) varchar_props varchar_found
varchar-IsParam = record {
  sendable = varchar-IsSendable;
  short = refl;
  name = master-IsText8;
  few_flags = omega arith;
  no_class = refl;
  found_no_class = refl;
}

read-write_columns_example :
    Recovers little_endian none
      (write_columns param columns)
      (read_columns param)
      found_columns
      encoder
read-write_columns_example =
    read-write_columns little_endian none param encoder columns found_columns _ encoder-Ready refl
      (omega arith) (sent int-IsParam (sent int-IsParam (sent varchar-IsParam no_fmts)))

abbrev values : List (Value host)
values = int64_value (negsuc 6) ∷ nil_value ∷ string_value master ∷ []

pub int-IsTyped : IsTyped int_column int_props
int-IsTyped = record { valid = refl; known = refl }

pub int-IsSized : IsSized (received int_column int_props int_found) int_n_props false
int-IsSized = record { valid = refl; known = refl; sized = refl; reads = refl }

abbrev row_bytes : Bytes
row_bytes = (4 ∷ put little_endian 4 (u32 (negsuc 6))) ++ ((0 ∷ []) ++ (text8 none master ++ []))

values-HeldRow : HeldRow host little_endian none columns found_columns values row_bytes
values-HeldRow =
    cell
      (held_fixed int-IsTyped int-IsSized (omega arith) (omega arith) refl
        (fixed_int_n (omega arith, omega arith)))
      (cell (held_null int-IsTyped int-IsSized refl) (
        cell
          (held_counted (record { valid = refl; known = refl })
            (record { valid = refl; known = refl; sized = refl; reads = refl }) refl
            (counted_char master-IsText8 (omega arith)))
          no_cells))

read-write_row_example :
    Recovers little_endian none
      (write_row no_decimals columns values)
      (read_row no_decimals (some found_columns) [])
      values
      encoder
read-write_row_example =
    read-write_row no_decimals little_endian none encoder
      (received_fmt (fmt [] int_column) int_props int_found) columns _ values [] row_bytes
      encoder-Ready values-HeldRow

int_attributes : attributes_of int_type ≡ some int_props
unfolding attributes_of find
int_attributes = refl

get_type_properties-LookedUp_example :
    LookedUp
      (pos 85)
      int_props
      (get_type_properties (record zero_type { data_type = int_type; user_type = pos 85 }))
get_type_properties-LookedUp_example =
    get_type_properties-LookedUp (record zero_type { data_type = int_type; user_type = pos 85 })
      int_props int_attributes

passed : convert small_int_conv (pointer (signed (negsuc 299))) ≡ integer (negsuc 299)
unfolding convert
passed = refl

convert-Recovers_example :
    (props : TypeAttribute) × (attributes_of smallint_type ≡ some props)
    × Recovers little_endian none
        (run_writer no_decimals props.writer zero_type (int64_value (negsuc 299)))
        (run_reader no_decimals props.reader (record zero_type { buffer_size = props.num_bytes }))
        (int64_value (negsuc 299))
        encoder
convert-Recovers_example =
    convert-Recovers no_decimals little_endian none encoder zero_type smallint_type small_int_conv
      (pointer (signed (negsuc 299))) (negsuc 299) encoder-Ready smallint_column tt passed
