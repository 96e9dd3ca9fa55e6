-- ===== src/Columns/Data/Held.antt =====
-- The bytes of the values that the columns of a row hold.
use tds.Base.{
  ℕ, ◌^◌, ◌<◌, ◌≡◌, Bool, true, false, ◌&&◌, ◌||◌, not, Option, some, [], ◌∷◌, ◌++◌, length, Bytes,
}
use tds.Base.Int.{ℤ, pos, u16, u32, u64, IsInt16, IsInt32, IsInt64}
use tds.Golang.Order.{ByteOrder, put}
use tds.Encoder.Ops.{Charset}
use tds.Encoder.Texts.{IsText, encoded, text8, text32}
use tds.Types.Host.{Host, Value, nil_value, int64_value, float64_value, string_value, bytes_value}
use tds.Types.Table.{
  Writer, Reader, TypeAttribute, has_length, is_nullable, is_long, is_lob, binary_writer,
  char_writer, float_writer, tinyint_writer, smallint_writer, int_writer, bigint_writer,
  usmallint_writer, uint_writer, longbinary_writer, longchar_writer, binary_reader, char_reader,
  float_reader, tinyint_reader, smallint_reader, int_reader, bigint_reader, int_n_reader,
  usmallint_reader, uint_reader,
}
use tds.Columns.{ColType, has}

-- The bytes of a value, for an encoder and a decoder of values of `size` bytes.
pub data Fixed (h : Host) (o : ByteOrder) : Writer → Reader → ℕ → Value h → Bytes → Type 0 where
  fixed_tinyint :
      {n : ℕ} → n < 2 ^ 8 → Fixed h o tinyint_writer tinyint_reader 1 (int64_value (pos n)) (n ∷ [])
  fixed_smallint :
      {z : ℤ}
      → IsInt16 z
      → Fixed h o smallint_writer smallint_reader 2 (int64_value z) (put o 2 (u16 z))
  fixed_usmallint :
      {n : ℕ}
      → n < 2 ^ 16
      → Fixed h o usmallint_writer usmallint_reader 2 (int64_value (pos n)) (put o 2 n)
  fixed_int :
      {z : ℤ} → IsInt32 z → Fixed h o int_writer int_reader 4 (int64_value z) (put o 4 (u32 z))
  fixed_int_n :
      {z : ℤ} → IsInt32 z → Fixed h o int_writer int_n_reader 4 (int64_value z) (put o 4 (u32 z))
  fixed_uint :
      {n : ℕ} → n < 2 ^ 32 → Fixed h o uint_writer uint_reader 4 (int64_value (pos n)) (put o 4 n)
  fixed_bigint :
      {z : ℤ}
      → IsInt64 z
      → Fixed h o bigint_writer bigint_reader 8 (int64_value z) (put o 8 (u64 z))
  fixed_float :
      {x : h.Float64}
      → h.float64_bits x < 2 ^ 64
      → h.float64_from_bits (h.float64_bits x) ≡ x
      → Fixed h o float_writer float_reader 8 (float64_value x) (put o 8 (h.float64_bits x))

-- The bytes of a value behind its length, where the value has any.
pub data Counted (h : Host) (o : ByteOrder) (cs : Option Charset)
    : Writer → Reader → Value h → Bytes → Type 0 where
  counted_char :
      {s : Bytes}
      → IsText cs (2 ^ 8) s
      → 0 < length (encoded cs s)
      → Counted h o cs char_writer char_reader (string_value s) (text8 cs s)
  counted_binary :
      {bs : Bytes}
      → length bs < 2 ^ 8
      → 0 < length bs
      → Counted h o cs binary_writer binary_reader (bytes_value bs) (length bs ∷ bs)

-- The same with a length of four bytes.
pub data LongCounted (h : Host) (o : ByteOrder) (cs : Option Charset)
    : Writer → Reader → Value h → Bytes → Type 0 where
  counted_longchar :
      {s : Bytes}
      → IsText cs (2 ^ 32) s
      → 0 < length (encoded cs s)
      → LongCounted h o cs longchar_writer char_reader (string_value s) (text32 o cs s)
  counted_longbinary :
      {bs : Bytes}
      → length bs < 2 ^ 32
      → 0 < length bs
      → LongCounted h o cs longbinary_writer binary_reader
          (bytes_value bs)
          (put o 4 (length bs) ++ bs)

-- `t.options&isLong != 0 && t.options&isLob == 0`, for what is written and for what is read.
abbrev pub counts_long : ℕ → Bool
counts_long options = has options is_long && not (has options is_lob)

-- A column of known type whose values stand behind a length.
pub record IsSized (t : ColType) (props : TypeAttribute) (long : Bool) : Type 0 where
  pub valid : t.valid ≡ true
  pub known : t.encoding_props ≡ some props
  pub sized : (has t.options has_length || has t.options is_nullable) ≡ true
  pub reads : counts_long t.options ≡ long

-- A column of known type.
pub record IsTyped (t : ColType) (props : TypeAttribute) : Type 0 where
  pub valid : t.valid ≡ true
  pub known : t.encoding_props ≡ some props

-- The bytes of a value that is written to the column `t` and read from the column `s`: null, an integer or a float
-- of the type's width, and a text or bytes behind their length. A text or bytes that are empty are not told from null.
pub data Held (h : Host) (o : ByteOrder) (cs : Option Charset) (t s : ColType)
    : Value h → Bytes → Type 0 where
  held_null :
      {props found : TypeAttribute}
      → IsTyped t props
      → IsSized s found false
      → counts_long t.write_options ≡ false
      → Held h o cs t s nil_value (0 ∷ [])
  held_long_null :
      {props found : TypeAttribute}
      → IsTyped t props
      → IsSized s found true
      → counts_long t.write_options ≡ true
      → Held h o cs t s nil_value (put o 4 0)
  held_fixed :
      {props found : TypeAttribute} {v : Value h} {bs : Bytes}
      → IsTyped t props
      → IsSized s found false
      → 0 < props.num_bytes
      → props.num_bytes < 2 ^ 7
      → has t.write_options is_nullable ≡ true
      → Fixed h o props.writer found.reader props.num_bytes v bs
      → Held h o cs t s v (props.num_bytes ∷ bs)
  held_counted :
      {props found : TypeAttribute} {v : Value h} {bs : Bytes}
      → IsTyped t props
      → IsSized s found false
      → props.num_bytes ≡ 0
      → Counted h o cs props.writer found.reader v bs
      → Held h o cs t s v bs
  held_long :
      {props found : TypeAttribute} {v : Value h} {bs : Bytes}
      → IsTyped t props
      → IsSized s found true
      → props.num_bytes ≡ 0
      → LongCounted h o cs props.writer found.reader v bs
      → Held h o cs t s v bs
