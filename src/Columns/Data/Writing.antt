-- ===== src/Columns/Data/Writing.antt =====
-- dataWrite on the values that a column holds.
use tds.Base.{ℕ, ◌^◌, ◌<◌, ◌≡◌, refl, subst, Option, none, [], ◌∷◌, length, Bytes, arith, ==-false}
use native.Mathlib.Nat.{mod-eq_of_lt}
use tds.Base.Int.{u8, i8, i16-u16, i32-u32}
use tds.Golang.Order.{ByteOrder}
use tds.Golang.Io.{ReadWriter}
use tds.Encoder.Ops.{Charset, write_int8}
use tds.Encoder.Ready.{Sink}
use tds.Encoder.Writes.{
  Writes, Writes-bind, Writes-pure, Writes-write, Writes-write_uint8, Writes-write_int8,
  Writes-write_int16, Writes-write_int32, Writes-write_int64, Writes-write_uint16,
  Writes-write_uint32, Writes-write_uint64,
}
use tds.Encoder.Writes.Texts.{Writes-string8, Writes-string32}
use tds.Messages.Codec.{Writes-take_err, Writes-last}
use tds.Types.Host.{Host, Value, nil_value}
use tds.Types.Table.{Writer, Reader, TypeAttribute}
use tds.Types.Encoders.{
  encode_tinyint, encode_smallint, encode_int, encode_uint, encode_bigint, encode_usmallint,
  encode_float, encode_char, encode_binary, encode_longchar, encode_longbinary,
}
use tds.Columns.{ColType}
use tds.Columns.Data.{Decimals, run_writer, write_null, write_value, write_data, data_write}
use tds.Columns.Data.Held.{
  Fixed, fixed_tinyint, fixed_smallint, fixed_usmallint, fixed_int, fixed_int_n, fixed_uint,
  fixed_bigint, fixed_float, Counted, counted_char, counted_binary, LongCounted, counted_longchar,
  counted_longbinary, IsTyped, Held, held_null, held_long_null, held_fixed, held_counted, held_long,
}

u8-i8 : (n : ℕ) → n < 2 ^ 7 → u8 (i8 n) ≡ n
u8-i8 n h = ground arith

module _ {h : Host} {S : Type 0} ⦃w : ReadWriter S⦄ (num : Decimals h S) (o : ByteOrder)
    (cs : Option Charset) where
  pub Writes-Fixed :
      (snk : Sink S) {wr : Writer} {r : Reader} {k : ℕ} {v : Value h} {bs : Bytes} (t : ColType)
      → Fixed h o wr r k v bs
      → Writes snk o cs (run_writer num wr t v) bs none
  unfolding run_writer encode_tinyint encode_smallint encode_int encode_uint encode_bigint
      encode_usmallint encode_float
  Writes-Fixed snk t (fixed_tinyint {n} f) =
      rw (mod-eq_of_lt f)
        (Writes-last snk o cs _ (Writes-write_uint8 snk o cs n) (Writes-take_err snk o cs))
  Writes-Fixed snk t (fixed_smallint {z} f) =
      rw (i16-u16 z f)
        (Writes-last snk o cs _ (Writes-write_int16 snk o cs z) (Writes-take_err snk o cs))
  Writes-Fixed snk t (fixed_usmallint {n} f) =
      rw (mod-eq_of_lt f)
        (Writes-last snk o cs _ (Writes-write_uint16 snk o cs n) (Writes-take_err snk o cs))
  Writes-Fixed snk t (fixed_int {z} f) =
      rw (i32-u32 z f)
        (Writes-last snk o cs _ (Writes-write_int32 snk o cs z) (Writes-take_err snk o cs))
  Writes-Fixed snk t (fixed_int_n {z} f) =
      rw (i32-u32 z f)
        (Writes-last snk o cs _ (Writes-write_int32 snk o cs z) (Writes-take_err snk o cs))
  Writes-Fixed snk t (fixed_uint {n} f) =
      rw (mod-eq_of_lt f)
        (Writes-last snk o cs _ (Writes-write_uint32 snk o cs n) (Writes-take_err snk o cs))
  Writes-Fixed snk t (fixed_bigint {z} f) =
      Writes-last snk o cs _ (Writes-write_int64 snk o cs z) (Writes-take_err snk o cs)
  Writes-Fixed snk t (fixed_float {x} f e) =
      Writes-last snk o cs _ (Writes-write_uint64 snk o cs (h.float64_bits x))
        (Writes-take_err snk o cs)

module _ {h : Host} {S : Type 0} ⦃w : ReadWriter S⦄ (num : Decimals h S) (o : ByteOrder)
    (cs : Option Charset) where
  Fixed-not_nil :
      {wr : Writer} {r : Reader} {k : ℕ} {v : Value h} {bs : Bytes} (t : ColType)
      (props : TypeAttribute)
      → Fixed h o wr r k v bs
      → write_data num t props v ≡ write_value num t props v
  unfolding write_data
  Fixed-not_nil t props (fixed_tinyint f) = refl
  Fixed-not_nil t props (fixed_smallint f) = refl
  Fixed-not_nil t props (fixed_usmallint f) = refl
  Fixed-not_nil t props (fixed_int f) = refl
  Fixed-not_nil t props (fixed_int_n f) = refl
  Fixed-not_nil t props (fixed_uint f) = refl
  Fixed-not_nil t props (fixed_bigint f) = refl
  Fixed-not_nil t props (fixed_float f e) = refl

  -- The length of a type of fixed width.
  wrote_size : (snk : Sink S) (n : ℕ) → n < 2 ^ 7 → Writes snk o cs (write_int8 (i8 n)) (n ∷ []) tt
  wrote_size snk n small =
      subst (λ k. Writes snk o cs (write_int8 (i8 n)) (k ∷ []) tt) (u8-i8 n small)
        (Writes-write_int8 snk o cs (i8 n))

  -- What dataWrite does in a column of known type.
  pub data_write-known :
      (t : ColType) (props : TypeAttribute) (v : Value h)
      → IsTyped t props
      → data_write num t v ≡ write_data num t props v
  unfolding data_write
  data_write-known t props v z = simp (z.valid, z.known) refl

  Writes-Counted :
      (snk : Sink S) {wr : Writer} {r : Reader} {v : Value h} {bs : Bytes} (t : ColType)
      (props : TypeAttribute)
      → props.num_bytes ≡ 0
      → props.writer ≡ wr
      → Counted h o cs wr r v bs
      → Writes snk o cs (write_data num t props v) bs none
  unfolding write_data write_value run_writer encode_char encode_binary
  Writes-Counted snk t props e f (counted_char {s} g k) =
      rw (e, f) (Writes-last snk o cs _ (Writes-string8 snk o cs s g) (Writes-take_err snk o cs))
  Writes-Counted snk t props e f (counted_binary {bs} g k) =
      rw (e, f, mod-eq_of_lt g)
        (Writes-bind snk o cs _ (Writes-write_uint8 snk o cs (length bs))
          (Writes-last snk o cs _ (Writes-write snk o cs bs) (Writes-take_err snk o cs)))

  Writes-LongCounted :
      (snk : Sink S) {wr : Writer} {r : Reader} {v : Value h} {bs : Bytes} (t : ColType)
      (props : TypeAttribute)
      → props.num_bytes ≡ 0
      → props.writer ≡ wr
      → LongCounted h o cs wr r v bs
      → Writes snk o cs (write_data num t props v) bs none
  unfolding write_data write_value run_writer encode_longchar encode_longbinary
  Writes-LongCounted snk t props e f (counted_longchar {s} g k) =
      rw (e, f) (Writes-last snk o cs _ (Writes-string32 snk o cs s g) (Writes-take_err snk o cs))
  Writes-LongCounted snk t props e f (counted_longbinary {bs} g k) =
      rw (e, f, mod-eq_of_lt g)
        (Writes-bind snk o cs _ (Writes-write_uint32 snk o cs (length bs))
          (Writes-last snk o cs _ (Writes-write snk o cs bs) (Writes-take_err snk o cs)))

  pub Writes-Held :
      (snk : Sink S) (t s : ColType) (v : Value h) (bs : Bytes)
      → Held h o cs t s v bs
      → Writes snk o cs (data_write num t v) bs none
  unfolding write_data write_null write_value
  Writes-Held snk t s v bs (held_null {props} y z e) =
      rw (data_write-known t props nil_value y, e)
        (Writes-last snk o cs _ (Writes-write_uint8 snk o cs 0) (Writes-pure snk o cs none))
  Writes-Held snk t s v bs (held_long_null {props} y z e) =
      rw (data_write-known t props nil_value y, e)
        (Writes-last snk o cs _ (Writes-write_uint32 snk o cs 0) (Writes-pure snk o cs none))
  Writes-Held snk t s v bs (held_fixed {props} y z some_bytes small nullable f) =
      rw
        (
          data_write-known t props v y,
          Fixed-not_nil t props f,
          ==-false props.num_bytes 0 some_bytes,
          nullable,
        )
        (Writes-bind snk o cs _ (wrote_size snk props.num_bytes small)
          (Writes-Fixed num o cs snk t f))
  Writes-Held snk t s v bs (held_counted {props} y z e f) =
      rw (data_write-known t props v y) (Writes-Counted snk t props e refl f)
  Writes-Held snk t s v bs (held_long {props} y z e f) =
      rw (data_write-known t props v y) (Writes-LongCounted snk t props e refl f)
