-- ===== src/Types/Decoders.antt =====
-- The decoders of values, of types.go, but those of decimals and money.
use tds.Base.{ℕ, zero, suc, [], Bool, false, Option, none, some, replicate, ◌==◌, if◌then◌else◌}
use tds.Base.Int.{ℤ, pos, negsuc}
use tds.Golang.Errors.{Error, panic, invalid_data_size, utf16_failed}
use tds.Golang.Io.{ReadWriter}
use tds.Encoder.Ops.{
  M, ◌>>=◌, ◌>>◌, pure, take_err, read, skip, uint8, uint16, uint32, uint64, int8, int16, int32,
  int64,
}
use tds.Encoder.Strings.{read_string, read_string_with_len}
use tds.Messages.Codec.{returning}
use tds.Types.Host.{
  Host, Value, nil_value, int64_value, uint64_value, bool_value, float64_value, float32_value,
  string_value, bytes_value, time_value,
}
use tds.Types.Dates.{decode_date_time}

-- `e.Int8() == 1`.
abbrev is_one : ℤ → Bool
is_one (pos n) = n == 1
is_one (negsuc n) = false

module _ {h : Host} {S : Type 0} ⦃w : ReadWriter S⦄ where
  unfoldable pub decode_bool : M S (Value h × Option Error)
  decode_bool = do n ← int8; returning (bool_value (is_one n))

  unfoldable pub decode_tinyint : M S (Value h × Option Error)
  decode_tinyint = do n ← uint8; returning (int64_value (pos n))

  unfoldable pub decode_smallint : M S (Value h × Option Error)
  decode_smallint = do n ← int16; returning (int64_value n)

  unfoldable pub decode_usmallint : M S (Value h × Option Error)
  decode_usmallint = do n ← uint16; returning (int64_value (pos n))

  unfoldable pub decode_int : M S (Value h × Option Error)
  decode_int = do n ← int32; returning (int64_value n)

  unfoldable pub decode_uint : M S (Value h × Option Error)
  decode_uint = do n ← uint32; returning (int64_value (pos n))

  unfoldable pub decode_bigint : M S (Value h × Option Error)
  decode_bigint = do n ← int64; returning (int64_value n)

  unfoldable pub decode_ubigint : M S (Value h × Option Error)
  decode_ubigint = do n ← uint64; returning (uint64_value n)

  -- The integer of the size that the value has.
  unfoldable pub decode_int_n : ℕ → M S (Value h × Option Error)
  unfolding decode_smallint decode_int decode_bigint
  decode_int_n size =
      if size == 2
      then decode_smallint
      else if size == 4
      then decode_int
      else if size == 8
      then decode_bigint
      else pure (int64_value (pos 0), some invalid_data_size)

  unfoldable pub decode_uint_n : ℕ → M S (Value h × Option Error)
  unfolding decode_usmallint decode_uint decode_ubigint
  decode_uint_n size =
      if size == 2
      then decode_usmallint
      else if size == 4
      then decode_uint
      else if size == 8
      then decode_ubigint
      else pure (nil_value, some invalid_data_size)

  unfoldable pub decode_real : M S (Value h × Option Error)
  decode_real = do n ← uint32; returning (float32_value (h.float32_from_bits n))

  unfoldable pub decode_float : M S (Value h × Option Error)
  decode_float = do n ← uint64; returning (float64_value (h.float64_from_bits n))

  unfoldable pub decode_char : ℕ → M S (Value h × Option Error)
  decode_char size = do s ← read_string_with_len (pos size); returning (string_value s)

  unfoldable pub decode_binary : ℕ → M S (Value h × Option Error)
  decode_binary size = do bs ← read (replicate size 0); returning (bytes_value bs)

  -- The Encoder's error is reset and lost.
  unfoldable pub decode_unichar : ℕ → M S (Value h × Option Error)
  decode_unichar size = do
    bs ← read (replicate size 0)
    err ← take_err
    pure (string_value (h.utf16_decode bs).0, (h.utf16_decode bs).1)

  -- The data of an image; `make` panics on a negative length.
  unfoldable pub image_of : ℤ → M S (Value h × Option Error)
  image_of (pos zero) = returning (bytes_value [])
  image_of (pos (suc n)) = do bs ← read (replicate (suc n) 0); returning (bytes_value bs)
  image_of (negsuc n) = pure (nil_value, some panic)

  unfoldable pub decode_image : M S (Value h × Option Error)
  unfolding image_of
  decode_image = skip 24 >>= λ u. int32 >>= λ n. image_of n

  unfoldable pub decode_text : M S (Value h × Option Error)
  decode_text = do
    skip 24
    r ← read_string 32
    returning (if r.1 == 0 then nil_value else string_value r.0)

  -- The text of a unitext of the given length.
  unfoldable pub unitext_of : ℤ → M S (Value h × Option Error)
  unitext_of (pos zero) = returning nil_value
  unitext_of (pos (suc n)) = do
    bs ← read (replicate (suc n) 0)
    elim (h.utf16_decode bs).1 [
      | some e ↦ pure (nil_value, some utf16_failed)
      | none ↦ returning (string_value (h.utf16_decode bs).0)
    ]
  unitext_of (negsuc n) = pure (nil_value, some panic)

  unfoldable pub decode_unitext : M S (Value h × Option Error)
  unfolding unitext_of
  decode_unitext = skip 24 >>= λ u. int32 >>= λ n. unitext_of n

  unfoldable pub decode_time : ℕ → ℕ → M S (Value h × Option Error)
  unfolding decode_date_time
  decode_time t size = do
    r ← decode_date_time h.time t size
    pure (elim r.0 [ none ↦ nil_value | some x ↦ time_value x ], r.1)
