-- ===== src/Columns/Data.antt =====
-- tabular_messages.go: the values of a column on the wire. The coders of num.go are arguments.
pub mod Held
pub mod Writing
pub mod Reading
pub mod Converted
use tds.Base.{ℕ, ◌&&◌, ◌||◌, not, Option, none, some, ◌==◌, if◌then◌else◌}
use tds.Base.Int.{ℤ, pos, i8}
use tds.Golang.Errors.{Error, panic, missing_type_properties, type_length_failed}
use tds.Golang.Io.{ReadWriter}
use tds.Encoder.Ops.{
  M, ◌>>=◌, ◌>>◌, pure, take_err, write_int8, write_uint8, write_uint32, uint8, uint32,
}
use tds.Types.Host.{
  Host, Value, nil_value, int64_value, uint64_value, bool_value, float64_value, float32_value,
  string_value, bytes_value, time_value, other_value,
}
use tds.Types.Table.{
  Writer, Reader, TypeAttribute, has_length, is_nullable, is_long, is_lob, binary_writer,
  bool_writer, char_writer, time_writer, numeric_writer, real_writer, float_writer, tinyint_writer,
  smallint_writer, int_writer, bigint_writer, usmallint_writer, uint_writer, ubigint_writer,
  money_writer, small_money_writer, text_writer, image_writer, no_writer, longbinary_writer,
  unitext_writer, unichar_writer, longchar_writer, binary_reader, bool_reader, char_reader,
  time_reader, numeric_reader, real_reader, float_reader, tinyint_reader, smallint_reader,
  int_reader, bigint_reader, int_n_reader, usmallint_reader, uint_reader, ubigint_reader,
  uint_n_reader, money_reader, small_money_reader, text_reader, image_reader, no_reader,
  unitext_reader, unichar_reader,
}
use tds.Types.Encoders.{
  encode_bool, encode_tinyint, encode_smallint, encode_int, encode_uint, encode_bigint,
  encode_usmallint, encode_ubigint, encode_real, encode_float, encode_char, encode_binary,
  encode_longchar, encode_longbinary, encode_image, encode_unichar, encode_text, encode_unitext,
  encode_time,
}
use tds.Types.Decoders.{
  decode_bool, decode_tinyint, decode_smallint, decode_usmallint, decode_int, decode_uint,
  decode_bigint, decode_ubigint, decode_int_n, decode_uint_n, decode_real, decode_float,
  decode_char, decode_binary, decode_unichar, decode_image, decode_text, decode_unitext,
  decode_time,
}
use tds.Columns.{ColType, has}

-- encodeNumeric, encodeMoney and encodeSmallMoney, and what decodes them.
pub record Decimals (h : Host) (S : Type 0) : Type 0 where
  pub write : Writer → ColType → Value h → M S (Option Error)
  pub read : Reader → ColType → M S (Value h × Option Error)

module _ {h : Host} {S : Type 0} ⦃w : ReadWriter S⦄ (num : Decimals h S) where
  -- `t.encodingProps.writer(e, data, t)`; a nil function panics.
  unfoldable pub run_writer : Writer → ColType → Value h → M S (Option Error)
  unfolding encode_bool encode_tinyint encode_smallint encode_int encode_uint encode_bigint
      encode_usmallint encode_ubigint encode_real encode_float encode_char encode_binary
      encode_longchar encode_longbinary encode_image encode_unichar encode_text encode_unitext
      encode_time
  run_writer binary_writer t = encode_binary
  run_writer bool_writer t = encode_bool
  run_writer char_writer t = encode_char
  run_writer time_writer t = encode_time t.data_type
  run_writer numeric_writer t = num.write numeric_writer t
  run_writer real_writer t = encode_real
  run_writer float_writer t = encode_float
  run_writer tinyint_writer t = encode_tinyint
  run_writer smallint_writer t = encode_smallint
  run_writer int_writer t = encode_int
  run_writer bigint_writer t = encode_bigint
  run_writer usmallint_writer t = encode_usmallint
  run_writer uint_writer t = encode_uint
  run_writer ubigint_writer t = encode_ubigint
  run_writer money_writer t = num.write money_writer t
  run_writer small_money_writer t = num.write small_money_writer t
  run_writer text_writer t = encode_text
  run_writer image_writer t = encode_image
  run_writer no_writer t = λ v. pure (some panic)
  run_writer longbinary_writer t = encode_longbinary
  run_writer unitext_writer t = encode_unitext
  run_writer unichar_writer t = encode_unichar
  run_writer longchar_writer t = encode_longchar

  -- `t.encodingProps.reader(e, *t)`.
  unfoldable pub run_reader : Reader → ColType → M S (Value h × Option Error)
  unfolding decode_bool decode_tinyint decode_smallint decode_usmallint decode_int decode_uint
      decode_bigint decode_ubigint decode_int_n decode_uint_n decode_real decode_float decode_char
      decode_binary decode_unichar decode_image decode_text decode_unitext decode_time
  run_reader binary_reader t = decode_binary t.buffer_size
  run_reader bool_reader t = decode_bool
  run_reader char_reader t = decode_char t.buffer_size
  run_reader time_reader t = decode_time t.data_type t.buffer_size
  run_reader numeric_reader t = num.read numeric_reader t
  run_reader real_reader t = decode_real
  run_reader float_reader t = decode_float
  run_reader tinyint_reader t = decode_tinyint
  run_reader smallint_reader t = decode_smallint
  run_reader int_reader t = decode_int
  run_reader bigint_reader t = decode_bigint
  run_reader int_n_reader t = decode_int_n t.buffer_size
  run_reader usmallint_reader t = decode_usmallint
  run_reader uint_reader t = decode_uint
  run_reader ubigint_reader t = decode_ubigint
  run_reader uint_n_reader t = decode_uint_n t.buffer_size
  run_reader money_reader t = num.read money_reader t
  run_reader small_money_reader t = num.read small_money_reader t
  run_reader text_reader t = decode_text
  run_reader image_reader t = decode_image
  run_reader no_reader t = pure (nil_value, some panic)
  run_reader unitext_reader t = decode_unitext
  run_reader unichar_reader t = decode_unichar t.buffer_size

  -- The length 0 of a null value.
  unfoldable pub write_null : ColType → M S (Option Error)
  write_null t = do
    (if has t.write_options is_long && not (has t.write_options is_lob)
        then write_uint32 0
        else write_uint8 0)
    pure none

  -- A value that is not nil, behind the length of a nullable type of fixed width.
  unfoldable pub write_value : ColType → TypeAttribute → Value h → M S (Option Error)
  unfolding run_writer
  write_value t props v =
      if not (props.num_bytes == 0) && has t.write_options is_nullable
      then write_int8 (i8 props.num_bytes) >> run_writer props.writer t v
      else run_writer props.writer t v

  unfoldable pub write_data : ColType → TypeAttribute → Value h → M S (Option Error)
  unfolding write_null write_value
  write_data t props nil_value = write_null t
  write_data t props v = write_value t props v

  -- `colType.dataWrite`.
  unfoldable pub data_write : ColType → Value h → M S (Option Error)
  unfolding write_data
  data_write t v =
      if not t.valid
      then pure (some missing_type_properties)
      else elim t.encoding_props [ none ↦ pure (some panic) | some props ↦ write_data t props v ]

  -- The value behind its length.
  unfoldable pub read_sized :
      ColType → TypeAttribute → ℕ → Option Error → M S (Value h × Option Error)
  unfolding run_reader
  read_sized t props size (some e) = pure (nil_value, some (type_length_failed e))
  read_sized t props size none =
      if size == 0
      then pure (nil_value, none)
      else run_reader props.reader (record t { buffer_size = size })

  -- `colType.dataRead`; the column's bufferSize is that of its last value.
  unfoldable pub data_read : ColType → M S (Value h × Option Error)
  unfolding read_sized
  data_read t =
      if not t.valid
      then pure (nil_value, some missing_type_properties)
      else elim t.encoding_props [
        | none ↦ pure (nil_value, some panic)
        | some props ↦
            if has t.options has_length || has t.options is_nullable
            then (do
              size ← (if has t.options is_long && not (has t.options is_lob) then uint32 else uint8)
              err ← take_err
              read_sized t props size err)
            else run_reader props.reader t
      ]
