-- ===== src/Decimals/Wire.antt =====
-- num.go and types.go: decimal and money values on the wire, with a panic as an error.
pub mod Texts
pub mod Sized
pub mod Money
pub mod Trips
use tds.Base.{
  ℕ, ◌+◌, ◌-◌, ◌*◌, ◌/◌, ◌%◌, ◌^◌, Bool, true, false, ◌||◌, Option, none, some, [], ◌∷◌, replicate,
  ◌==◌, if◌then◌else◌,
}
use tds.Base.Int.{ℤ, pos, negsuc, u64, i32, i64, ltb_ℤ}
use tds.Golang.Errors.{Error, overflow, panic, bad_numeric, scan_failed}
use tds.Golang.Io.{ReadWriter}
use tds.Golang.Radix.{radix, from_radix}
use tds.Golang.Radix.Lengths.{bit_len}
use tds.Golang.Big.{Rat, mul_int, is_int, to_int, neg, magnitude}
use tds.Encoder.Ops.{
  M, ◌>>=◌, ◌>>◌, pure, take_err, write, pad, write_byte, write_int8, write_uint32, write_int32,
  read, int8, int32, uint32,
}
use tds.Types.DataTypes.{
  smallmoney_type, money_n_type, money_type, decimal_type, numeric_type, decimal_n_type,
  numeric_n_type,
}
use tds.Types.Host.{Host, Value, nil_value, bytes_value, num_value}
use tds.Types.Table.{
  Writer, Reader, money_writer, small_money_writer, money_reader, small_money_reader,
}
use tds.Columns.{ColType}
use tds.Columns.Data.{Decimals}
use tds.Decimals.Num.{Num, decimal_power}
use tds.Decimals.Table.{numeric_size}
use tds.Decimals.Convert.{scan_text, blank}

module _ {S : Type 0} ⦃w : ReadWriter S⦄ where
  -- A decimal number of k bytes with its sign: `e.Pad` writes nothing if the count is negative.
  unfoldable pub write_sized : ℕ → ℤ → M S (Option Error)
  write_sized k z = do
    write_int8 (pos k)
    write_byte (if ltb_ℤ z (pos 0) then 1 else 0)
    pad 0 (k - bit_len (magnitude z) / 8 - 2)
    _ ← write (radix (2 ^ 8) (magnitude z))
    take_err

  unfoldable pub write_numeric : ℤ → ℤ → M S (Option Error)
  unfolding write_sized
  write_numeric precision z = elim (numeric_size precision) [
    | none ↦ pure (some panic)
    | some k ↦ write_sized k z
  ]

  -- The low 64 bits of an integer in two halves, the high one first.
  unfoldable pub write_money : ℤ → M S (Option Error)
  write_money z = write_uint32 (u64 z / 2 ^ 32) >> write_int32 (i32 (u64 z % 2 ^ 32)) >> take_err

module _ (h : Host) {S : Type 0} ⦃w : ReadWriter S⦄ where
  unfoldable pub write_small_money : ℤ → M S (Option Error)
  write_small_money z = write_int32 (h.float_int32 z) >> take_err

  -- The switch of `encodeNumeric` on the data type.
  unfoldable pub write_integer : ColType → ℤ → M S (Option Error)
  unfolding write_numeric write_money write_small_money
  write_integer t z =
      if t.data_type == smallmoney_type
      then write_small_money z
      else if t.data_type == money_n_type || t.data_type == money_type
      then write_money z
      else if t.data_type == decimal_type
          || (t.data_type == numeric_type
              || (t.data_type == decimal_n_type || t.data_type == numeric_n_type))
      then write_numeric t.precision z
      else take_err

  unfoldable pub write_multiplied : ColType → Option ℕ → Rat → M S (Option Error)
  unfolding write_integer
  write_multiplied t none r = pure (some panic)
  write_multiplied t (some p) r =
      if is_int (mul_int r p) then write_integer t (to_int (mul_int r p)) else pure (some overflow)

  unfoldable pub write_scanned : ColType → Num × Option Error → M S (Option Error)
  unfolding write_multiplied
  write_scanned t (n, some e) = pure (some (scan_failed e))
  write_scanned t (n, none) = write_multiplied t (decimal_power t.scale) n.r

  -- `encodeNumeric`.
  unfoldable pub encode_numeric : ColType → Value h → M S (Option Error)
  unfolding write_scanned scan_text
  encode_numeric t (bytes_value s) = write_scanned t (scan_text h (blank h t.precision t.scale) s)
  encode_numeric t v = pure (some bad_numeric)

  -- `encodeMoney` and `encodeSmallMoney`, which set what the server does not send.
  unfoldable pub encode_money : ColType → Value h → M S (Option Error)
  unfolding encode_numeric
  encode_money t v = encode_numeric (record t { precision = pos 20; scale = pos 4 }) v

  unfoldable pub encode_small_money : ColType → Value h → M S (Option Error)
  unfolding encode_numeric
  encode_small_money t v = encode_numeric (record t { precision = pos 10; scale = pos 4 }) v

-- A Num of an integer over a power of ten.
abbrev pub decimal_num : {h : Host} → ℤ → ℤ → ℤ → ℕ → Value h
decimal_num precision scale z p = num_value (record {
  r = record { num = z; den = p };
  precision = precision;
  scale = scale;
  is_null = false;
})

-- The fraction, which a sign byte other than 0 makes negative.
abbrev pub signed_rat : ℤ → Rat → Rat
signed_rat (pos n) r = if n == 0 then r else neg r
signed_rat (negsuc n) r = neg r

-- `int64(int64(hi)<<32 + int64(lo))`.
unfoldable pub money_of : {h : Host} → ℕ → ℕ → Option Error → Value h × Option Error
money_of hi lo (some e) = (nil_value, some e)
money_of hi lo none = (decimal_num (pos 19) (pos 4) (i64 (hi * 2 ^ 32 + lo)) (10 ^ 4), none)

module _ {h : Host} {S : Type 0} ⦃w : ReadWriter S⦄ where
  unfoldable pub decode_fraction : ColType → ℤ → Rat → M S (Value h × Option Error)
  decode_fraction t sign r = do
    err ← take_err
    pure (
      num_value (record {
        r = signed_rat sign r;
        precision = t.precision;
        scale = t.scale;
        is_null = false;
      }),
      err,
    )

  -- `decodeNumeric`; a slice of a negative length panics.
  unfoldable pub decode_numeric : ColType → M S (Value h × Option Error)
  unfolding decode_fraction
  decode_numeric t = do
    sign ← int8
    (if t.buffer_size == 0
        then pure (nil_value, some panic)
        else read (replicate (t.buffer_size - 1) 0) >>= λ bs. elim (decimal_power t.scale) [
          | none ↦ pure (nil_value, some panic)
          | some p ↦
              decode_fraction t sign (record { num = pos (from_radix (2 ^ 8) 0 bs); den = p })
        ])

  -- `decodeSmallmoney`, which leaves a pending error where it is.
  unfoldable pub decode_small_money : M S (Value h × Option Error)
  decode_small_money = do z ← int32; pure (decimal_num (pos 10) (pos 4) z (10 ^ 4), none)

  -- `decodeMoney`.
  unfoldable pub decode_money : M S (Value h × Option Error)
  unfolding money_of
  decode_money = do hi ← uint32; lo ← uint32; err ← take_err; pure (money_of hi lo err)

  -- The encoders and decoders that the table of types.go names.
  unfoldable pub write_decimal : Writer → ColType → Value h → M S (Option Error)
  unfolding encode_money encode_small_money encode_numeric
  write_decimal money_writer t v = encode_money h t v
  write_decimal small_money_writer t v = encode_small_money h t v
  write_decimal wr t v = encode_numeric h t v

  unfoldable pub read_decimal : Reader → ColType → M S (Value h × Option Error)
  unfolding decode_money decode_small_money decode_numeric
  read_decimal money_reader t = decode_money
  read_decimal small_money_reader t = decode_small_money
  read_decimal rd t = decode_numeric t

  abbrev pub decimals : Decimals h S
  decimals = record { write = write_decimal; read = read_decimal }
