-- ===== src/Types/Encoders.antt =====
-- The encoders of values, of types.go, but those of decimals and money.
use tds.Base.{ℕ, ◌%◌, ◌^◌, inl, inr, Option, none, some, length, if◌then◌else◌}
use tds.Base.Int.{pos, u8, u16, u32, u64, i16, i32}
use tds.Golang.Errors.{
  Error, invalid_value, utf16_failed, hex_failed, for_date, for_bit, for_tinyint, for_smallint,
  for_int, for_uint, for_bigint, for_ubigint, for_usmallint, for_real, for_float, for_char,
  for_binary, for_image, for_unichar, for_text,
}
use tds.Golang.Io.{ReadWriter}
use tds.Encoder.Ops.{
  M, ◌>>=◌, ◌>>◌, pure, take_err, pad, write, write_byte, write_int8, write_int16, write_int32,
  write_int64, write_uint8, write_uint16, write_uint32, write_uint64,
}
use tds.Encoder.Strings.{write_string, write_string_with_len}
use tds.Types.Host.{
  Host, Value, int64_value, bool_value, float64_value, string_value, bytes_value, time_value,
}
use tds.Types.Dates.{encode_date_time}

module _ {S : Type 0} ⦃w : ReadWriter S⦄ where
  -- The pointer of a lob, its timestamp and its length.
  unfoldable pub write_lob_head : M S (Unit {0})
  write_lob_head = do write_int8 (pos 16); pad 0xff 24

module _ {h : Host} {S : Type 0} ⦃w : ReadWriter S⦄ where
  unfoldable pub encode_bool : Value h → M S (Option Error)
  encode_bool (bool_value b) = write_byte (if b then 1 else 0) >> take_err
  encode_bool v = pure (some (invalid_value for_bit))

  unfoldable pub encode_tinyint : Value h → M S (Option Error)
  encode_tinyint (int64_value n) = write_uint8 (u8 n) >> take_err
  encode_tinyint v = pure (some (invalid_value for_tinyint))

  unfoldable pub encode_smallint : Value h → M S (Option Error)
  encode_smallint (int64_value n) = write_int16 (i16 (u16 n)) >> take_err
  encode_smallint v = pure (some (invalid_value for_smallint))

  unfoldable pub encode_int : Value h → M S (Option Error)
  encode_int (int64_value n) = write_int32 (i32 (u32 n)) >> take_err
  encode_int v = pure (some (invalid_value for_int))

  unfoldable pub encode_uint : Value h → M S (Option Error)
  encode_uint (int64_value n) = write_uint32 (u32 n) >> take_err
  encode_uint v = pure (some (invalid_value for_uint))

  unfoldable pub encode_bigint : Value h → M S (Option Error)
  encode_bigint (int64_value n) = write_int64 n >> take_err
  encode_bigint v = pure (some (invalid_value for_bigint))

  unfoldable pub encode_usmallint : Value h → M S (Option Error)
  encode_usmallint (int64_value n) = write_uint16 (u16 n) >> take_err
  encode_usmallint v = pure (some (invalid_value for_usmallint))

  -- A text is the number in base 16, as the converter gives it above the largest int64.
  unfoldable pub encode_ubigint : Value h → M S (Option Error)
  encode_ubigint (int64_value n) = write_uint64 (u64 n) >> take_err
  encode_ubigint (string_value s) = elim (h.parse_hex s) [
    | inl n ↦ write_uint64 n >> take_err
    | inr e ↦ pure (some (hex_failed e))
  ]
  encode_ubigint v = pure (some (invalid_value for_ubigint))

  unfoldable pub encode_real : Value h → M S (Option Error)
  encode_real (float64_value x) = write_uint32 (h.float32_bits (h.to_float32 x)) >> take_err
  encode_real v = pure (some (invalid_value for_real))

  unfoldable pub encode_float : Value h → M S (Option Error)
  encode_float (float64_value x) = write_uint64 (h.float64_bits x) >> take_err
  encode_float v = pure (some (invalid_value for_float))

  unfoldable pub encode_char : Value h → M S (Option Error)
  encode_char (string_value s) = write_string_with_len 8 s >> take_err
  encode_char v = pure (some (invalid_value for_char))

  unfoldable pub encode_binary : Value h → M S (Option Error)
  encode_binary (bytes_value bs) = do write_uint8 (length bs % 2 ^ 8); n ← write bs; take_err
  encode_binary v = pure (some (invalid_value for_binary))

  unfoldable pub encode_longchar : Value h → M S (Option Error)
  encode_longchar (string_value s) = write_string_with_len 32 s >> take_err
  encode_longchar v = pure (some (invalid_value for_char))

  unfoldable pub encode_longbinary : Value h → M S (Option Error)
  encode_longbinary (bytes_value bs) = do write_uint32 (length bs % 2 ^ 32); n ← write bs; take_err
  encode_longbinary v = pure (some (invalid_value for_binary))

  unfoldable pub encode_image : Value h → M S (Option Error)
  unfolding write_lob_head
  encode_image (bytes_value bs) = do
    write_lob_head
    write_int32 (i32 (length bs))
    n ← write bs
    take_err
  encode_image v = pure (some (invalid_value for_image))

  unfoldable pub encode_unichar : Value h → M S (Option Error)
  encode_unichar (string_value s) = elim (h.utf16_encode s).1 [
    | some e ↦ pure (some utf16_failed)
    | none ↦ do
      write_uint32 (length (h.utf16_encode s).0 % 2 ^ 32)
      n ← write (h.utf16_encode s).0
      take_err
  ]
  encode_unichar v = pure (some (invalid_value for_unichar))

  -- The length is that of the text before the conversion to the charset.
  unfoldable pub encode_text : Value h → M S (Option Error)
  unfolding write_lob_head
  encode_text (string_value s) = do
    write_lob_head
    write_int32 (i32 (length s))
    n ← write_string s
    take_err
  encode_text v = pure (some (invalid_value for_text))

  unfoldable pub encode_unitext : Value h → M S (Option Error)
  unfolding write_lob_head
  encode_unitext (string_value s) = write_lob_head >>= λ u. elim (h.utf16_encode s).1 [
    | some e ↦ pure (some utf16_failed)
    | none ↦ do
      write_uint32 (length (h.utf16_encode s).0 % 2 ^ 32)
      n ← write (h.utf16_encode s).0
      take_err
  ]
  encode_unitext v = pure (some (invalid_value for_text))

  unfoldable pub encode_time : ℕ → Value h → M S (Option Error)
  unfolding encode_date_time
  encode_time t (time_value x) = encode_date_time h.time t x
  encode_time t v = pure (some (invalid_value for_date))
