-- ===== src/Columns.antt =====
-- tabular_messages.go: the type of a column on the wire, and the values in it.
pub mod Lookup
pub mod Formats
pub mod Data
pub mod Rows
pub mod Browse
use tds.Base.{
  ℕ, zero, suc, ◌%◌, ◌^◌, Bool, true, false, ◌&&◌, ◌||◌, not, Option, none, some, List, [], ◌∷◌,
  length, Bytes, bit_and, ltb, ◌==◌, if◌then◌else◌,
}
use tds.Base.Int.{ℤ, pos, negsuc}
use tds.Golang.Errors.{
  Error, panic, missing_type_properties, no_type_info, type_info_failed, type_length_failed,
}
use tds.Golang.Io.{ReadWriter}
use tds.Encoder.Ops.{
  M, ◌>>=◌, ◌>>◌, pure, take_err, write_byte, write_int8, write_int32, write_uint8, write_uint32,
  read_byte, uint8, uint32, int8, int32,
}
use tds.Encoder.Strings.{write_string_with_len, read_string}
use tds.Types.DataTypes.{concrete_types}
use tds.Types.Host.{Host, Value, nil_value}
use tds.Types.Table.{
  Writer, Reader, TypeAttribute, attributes_of, has_length, has_prec, has_scale, is_nullable,
  is_long, is_lob, is_concrete, binary_writer, bool_writer, char_writer, time_writer,
  numeric_writer, real_writer, float_writer, tinyint_writer, smallint_writer, int_writer,
  bigint_writer, usmallint_writer, uint_writer, ubigint_writer, money_writer, small_money_writer,
  text_writer, image_writer, no_writer, longbinary_writer, unitext_writer, unichar_writer,
  longchar_writer, binary_reader, bool_reader, char_reader, time_reader, numeric_reader,
  real_reader, float_reader, tinyint_reader, smallint_reader, int_reader, bigint_reader,
  int_n_reader, usmallint_reader, uint_reader, ubigint_reader, uint_n_reader, money_reader,
  small_money_reader, text_reader, image_reader, no_reader, unitext_reader, unichar_reader,
}

-- A test of a bit of the options.
abbrev pub has : ℕ → ℕ → Bool
has options bit = not (bit_and options bit == 0)

-- `colType`, without the class that only a colFmt reads.
pub record ColType : Type 0 where
  pub user_type : ℤ
  pub data_type : ℕ
  pub size : ℕ
  pub precision : ℤ
  pub scale : ℤ
  pub locale : Bytes
  pub table : Bytes
  pub buffer_size : ℕ
  pub options : ℕ
  pub write_options : ℕ
  pub encoding_props : Option TypeAttribute
  pub valid : Bool

abbrev pub zero_type : ColType
zero_type = record {
  user_type = pos 0;
  data_type = 0;
  size = 0;
  precision = pos 0;
  scale = pos 0;
  locale = [];
  table = [];
  buffer_size = 0;
  options = 0;
  write_options = 0;
  encoding_props = none;
  valid = false;
}

-- The user's type within the bounds that the code tests, and the panic of an index out of the table.
pub data Concrete : Type 0 where
  beyond out_of_range : Concrete
  concrete : ℕ → Concrete

unfoldable pub at_index : List ℕ → ℕ → Concrete
at_index [] n = out_of_range
at_index (t ∷ ts) zero = concrete t
at_index (t ∷ ts) (suc n) = at_index ts n

-- `if int(t.userType) <= len(concreteTypes)` and the index behind it.
unfoldable pub concrete_type : ℤ → Concrete
unfolding at_index
concrete_type (negsuc n) = out_of_range
concrete_type (pos n) = if ltb (length concrete_types) n then beyond else at_index concrete_types n

-- The properties that the concrete type gives, if it has any and the wire's type is not itself concrete.
unfoldable pub merge_found : Option TypeAttribute → TypeAttribute → TypeAttribute
merge_found none props = props
merge_found (some c) props = if has props.options is_concrete then props else c

unfoldable pub merge_concrete : Concrete → TypeAttribute → Option TypeAttribute
unfolding merge_found
merge_concrete out_of_range props = none
merge_concrete beyond props = some props
merge_concrete (concrete t) props = some (merge_found (attributes_of t) props)

-- The options used to write, if the type that is sent has properties.
unfoldable pub set_write_options : ColType → Option TypeAttribute → ColType
set_write_options t none = t
set_write_options t (some c) = record t { write_options = c.options }

unfoldable pub set_merged : ColType → Option TypeAttribute → ColType × Option Error
unfolding set_write_options
set_merged t none = (t, some panic)
set_merged t (some m) =
    (set_write_options (record t { encoding_props = some m }) (attributes_of m.encoding_type), none)

-- `getTypeProperties`, with a panic as an error.
unfoldable pub get_type_properties : ColType → ColType × Option Error
unfolding concrete_type merge_concrete set_merged
get_type_properties t = elim (attributes_of t.data_type) [
  | none ↦ (t, some (no_type_info t.data_type))
  | some props ↦
      set_merged (record t { encoding_props = some props; valid = true; options = props.options })
        (merge_concrete (concrete_type t.user_type) props)
]

-- `getType`.
unfoldable pub get_type : ℕ → ℕ → ColType
unfolding get_type_properties
get_type data_type size =
    (get_type_properties (record zero_type { data_type = data_type; size = size })).0
