-- ===== src/Types/Table.antt =====
-- The table of the attributes of the data types, of types.go. The names and the converters are not in it.
use tds.Base.{ℕ, Option, none, some, List, [], ◌∷◌, bit_or, ◌==◌, if◌then◌else◌}
use tds.Types.DataTypes.{
  bigdatetime_n_type, bigdatetime_type, bigint_type, bigtime_n_type, bigtime_type, binary_type,
  bit_type, char_type, date_n_type, date_type, datetime_n_type, datetime_type, decimal_n_type,
  decimal_type, extended_type, float_n_type, float_type, image_type, int_n_type, int_type,
  long_binary_type, long_char_type, money_n_type, money_type, numeric_n_type, numeric_type,
  real_type, smalldatetime_type, smallint_type, smallmoney_type, text_type, time_n_type, time_type,
  tinyint_type, ubigint_type, uint4_type, uint_n_type, uint_type, unichar_type, unitext_type,
  univarchar_type, usmallint_type, utinyint_type, varbinary_type, varchar_type,
}

-- The options; `iota` is 1 at has_length.
abbrev pub has_length : ℕ
has_length = 2

abbrev pub has_prec : ℕ
has_prec = 4

abbrev pub has_scale : ℕ
has_scale = 8

abbrev pub is_nullable : ℕ
is_nullable = 16

abbrev pub is_long : ℕ
is_long = 32

abbrev pub is_lob : ℕ
is_lob = 64

abbrev pub is_concrete : ℕ
is_concrete = 128

-- The encoders, by name.
pub data Writer : Type 0 where
  binary_writer bool_writer char_writer time_writer numeric_writer real_writer float_writer
        tinyint_writer smallint_writer int_writer bigint_writer usmallint_writer uint_writer
        ubigint_writer money_writer small_money_writer text_writer image_writer no_writer
        longbinary_writer unitext_writer unichar_writer longchar_writer :
      Writer

-- The decoders, by name.
pub data Reader : Type 0 where
  binary_reader bool_reader char_reader time_reader numeric_reader real_reader float_reader
        tinyint_reader smallint_reader int_reader bigint_reader int_n_reader usmallint_reader
        uint_reader ubigint_reader uint_n_reader money_reader small_money_reader text_reader
        image_reader no_reader unitext_reader unichar_reader :
      Reader

-- The Go types that a column is scanned to.
pub data ScanType : Type 0 where
  bool_type bytes_type float64_type go_time_type int64_type no_type num_type string_type
        uint64_type :
      ScanType

-- `typeAttribute`.
pub record TypeAttribute : Type 0 where
  pub options : ℕ
  pub num_bytes : ℕ
  pub scan_type : ScanType
  pub encoding_type : ℕ
  pub writer : Writer
  pub reader : Reader

abbrev attributes : ℕ → ℕ → ScanType → ℕ → Writer → Reader → TypeAttribute
attributes o n s t w r = record {
  options = o;
  num_bytes = n;
  scan_type = s;
  encoding_type = t;
  writer = w;
  reader = r;
}

abbrev pub type_attributes : List (ℕ × TypeAttribute)
type_attributes =
    (
      binary_type,
      attributes (bit_or is_concrete has_length) 0 bytes_type binary_type binary_writer
          binary_reader,
    )
    ∷ (bit_type, attributes (is_concrete) 1 bool_type bit_type bool_writer bool_reader)
    ∷ (
      char_type,
      attributes (bit_or is_concrete has_length) 0 string_type char_type char_writer char_reader,
    )
    ∷ (
      datetime_type,
      attributes (is_concrete) 8 go_time_type datetime_n_type time_writer time_reader,
    )
    ∷ (date_type, attributes (is_concrete) 4 go_time_type date_n_type time_writer time_reader)
    ∷ (time_type, attributes (is_concrete) 4 go_time_type time_n_type time_writer time_reader)
    ∷ (
      time_n_type,
      attributes (bit_or has_length is_nullable) 4 go_time_type time_n_type time_writer time_reader,
    )
    ∷ (
      smalldatetime_type,
      attributes (is_concrete) 4 go_time_type datetime_n_type time_writer time_reader,
    )
    ∷ (
      datetime_n_type,
      attributes (bit_or has_length is_nullable) 8 go_time_type datetime_n_type time_writer
          time_reader,
    )
    ∷ (
      date_n_type,
      attributes (bit_or has_length is_nullable) 4 go_time_type datetime_n_type time_writer
          time_reader,
    )
    ∷ (
      bigdatetime_type,
      attributes (bit_or (bit_or has_length has_prec) is_concrete) 8 go_time_type bigdatetime_n_type
          time_writer time_reader,
    )
    ∷ (
      bigdatetime_n_type,
      attributes (bit_or (bit_or has_length has_prec) is_nullable) 8 go_time_type bigdatetime_n_type
          time_writer time_reader,
    )
    ∷ (
      bigtime_type,
      attributes (bit_or (bit_or has_length has_prec) is_concrete) 8 go_time_type bigtime_n_type
          time_writer time_reader,
    )
    ∷ (
      bigtime_n_type,
      attributes (bit_or (bit_or has_length has_prec) is_nullable) 8 go_time_type bigtime_n_type
          time_writer time_reader,
    )
    ∷ (
      decimal_type,
      attributes (bit_or (bit_or (bit_or is_concrete has_length) has_prec) has_scale) 0 num_type
          numeric_n_type numeric_writer numeric_reader,
    )
    ∷ (
      decimal_n_type,
      attributes (bit_or (bit_or has_length has_prec) has_scale) 0 num_type numeric_n_type
          numeric_writer numeric_reader,
    )
    ∷ (
      numeric_type,
      attributes (bit_or (bit_or (bit_or is_concrete has_length) has_prec) has_scale) 0 num_type
          numeric_n_type numeric_writer numeric_reader,
    )
    ∷ (
      numeric_n_type,
      attributes (bit_or (bit_or (bit_or has_length has_prec) has_scale) is_nullable) 0 num_type
          numeric_n_type numeric_writer numeric_reader,
    )
    ∷ (real_type, attributes (is_concrete) 4 float64_type float_n_type real_writer real_reader)
    ∷ (float_type, attributes (is_concrete) 8 float64_type float_n_type float_writer float_reader)
    ∷ (float_n_type, attributes (is_nullable) 0 float64_type float_n_type float_writer float_reader)
    ∷ (tinyint_type, attributes (is_concrete) 1 int64_type int_n_type tinyint_writer tinyint_reader)
    ∷ (
      smallint_type,
      attributes (is_concrete) 2 int64_type int_n_type smallint_writer smallint_reader,
    )
    ∷ (int_type, attributes (is_concrete) 4 int64_type int_n_type int_writer int_reader)
    ∷ (bigint_type, attributes (is_concrete) 8 int64_type int_n_type bigint_writer bigint_reader)
    ∷ (int_n_type, attributes (is_nullable) 4 int64_type int_n_type int_writer int_n_reader)
    ∷ (
      utinyint_type,
      attributes (is_concrete) 1 int64_type uint_n_type tinyint_writer tinyint_reader,
    )
    ∷ (
      usmallint_type,
      attributes (is_concrete) 2 int64_type uint_n_type usmallint_writer usmallint_reader,
    )
    ∷ (uint_type, attributes (is_concrete) 4 int64_type uint_n_type uint_writer uint_reader)
    ∷ (uint4_type, attributes (is_concrete) 4 int64_type uint_n_type uint_writer int_reader)
    ∷ (
      ubigint_type,
      attributes (is_concrete) 8 uint64_type uint_n_type ubigint_writer ubigint_reader,
    )
    ∷ (uint_n_type, attributes (is_nullable) 4 int64_type uint_n_type uint_writer uint_n_reader)
    ∷ (money_type, attributes (is_concrete) 8 num_type money_n_type money_writer money_reader)
    ∷ (
      smallmoney_type,
      attributes (is_concrete) 4 num_type money_n_type small_money_writer small_money_reader,
    )
    ∷ (money_n_type, attributes (is_nullable) 0 num_type money_n_type money_writer money_reader)
    ∷ (
      text_type,
      attributes
          (bit_or (bit_or (bit_or (bit_or is_concrete has_length) is_nullable) is_long) is_lob) 0
          string_type text_type text_writer text_reader,
    )
    ∷ (
      image_type,
      attributes
          (bit_or (bit_or (bit_or (bit_or is_concrete has_length) is_nullable) is_long) is_lob) 0
          bytes_type image_type image_writer image_reader,
    )
    ∷ (
      extended_type,
      attributes (bit_or (bit_or has_length is_nullable) is_long) 0 no_type extended_type no_writer
          no_reader,
    )
    ∷ (
      long_binary_type,
      attributes (bit_or (bit_or has_length is_nullable) is_long) 0 bytes_type long_binary_type
          longbinary_writer binary_reader,
    )
    ∷ (
      unitext_type,
      attributes
          (bit_or (bit_or (bit_or (bit_or is_concrete has_length) is_nullable) is_long) is_lob) 0
          string_type long_binary_type unitext_writer unitext_reader,
    )
    ∷ (
      unichar_type,
      attributes (bit_or (bit_or (bit_or is_concrete has_length) is_nullable) is_long) 0 string_type
          long_binary_type unichar_writer unichar_reader,
    )
    ∷ (
      univarchar_type,
      attributes (bit_or (bit_or (bit_or is_concrete has_length) is_nullable) is_long) 0 string_type
          long_binary_type unichar_writer unichar_reader,
    )
    ∷ (
      long_char_type,
      attributes (bit_or (bit_or (bit_or has_length is_nullable) is_long) is_concrete) 0 string_type
          long_char_type longchar_writer char_reader,
    )
    ∷ (
      varbinary_type,
      attributes (bit_or (bit_or is_concrete has_length) is_nullable) 0 bytes_type varbinary_type
          binary_writer binary_reader,
    )
    ∷ (
      varchar_type,
      attributes (bit_or (bit_or is_concrete has_length) is_nullable) 0 string_type varchar_type
          char_writer char_reader,
    )
    ∷ []

unfoldable pub find : ℕ → List (ℕ × TypeAttribute) → Option TypeAttribute
find t [] = none
find t (r ∷ rs) = if t == r.0 then some r.1 else find t rs

-- `typeAttributes[t]`.
unfoldable pub attributes_of : ℕ → Option TypeAttribute
unfolding find
attributes_of t = find t type_attributes
