-- ===== src/Columns/Data/Reading.antt =====
-- dataRead on the bytes of the values that a column holds.
use tds.Base.{
  ℕ, ◌^◌, ◌<◌, ◌≡◌, refl, sym, Bool, Option, none, [], length, replicate, length-replicate, Bytes,
  arith, ==-false, if◌then◌else◌,
}
use tds.Golang.Order.{ByteOrder}
use tds.Golang.Io.{ReadWriter}
use tds.Encoder.Ops.{Charset, ◌>>=◌, take_err, uint8, uint32}
use tds.Encoder.Ready.{Source}
use tds.Encoder.Reads.{
  Reads, Reads-bind, Reads-pure, Reads-read, Reads-uint8, Reads-uint16, Reads-uint32, Reads-uint64,
  Reads-int16, Reads-int32, Reads-int64,
}
use tds.Encoder.Texts.{IsText, encoded}
use tds.Encoder.Reads.Texts.{Reads-read_string_with_len}
use tds.Messages.Codec.{Reads-returning, Reads-take_err, Reads-last}
use tds.Types.Host.{Host, Value, nil_value, float64_value, string_value, bytes_value}
use tds.Types.Table.{Writer, Reader, TypeAttribute, binary_reader, char_reader}
use tds.Types.Decoders.{
  decode_tinyint, decode_smallint, decode_usmallint, decode_int, decode_uint, decode_bigint,
  decode_int_n, decode_float, decode_char, decode_binary,
}
use tds.Columns.{ColType}
use tds.Columns.Data.{Decimals, run_reader, read_sized, data_read}
use tds.Columns.Data.Held.{
  Fixed, fixed_tinyint, fixed_smallint, fixed_usmallint, fixed_int, fixed_int_n, fixed_uint,
  fixed_bigint, fixed_float, Counted, counted_char, counted_binary, LongCounted, counted_longchar,
  counted_longbinary, IsSized, Held, held_null, held_long_null, held_fixed, held_counted, held_long,
}

module _ {h : Host} {S : Type 0} ⦃w : ReadWriter S⦄ (num : Decimals h S) (o : ByteOrder)
    (cs : Option Charset) where
  pub Reads-Fixed :
      (src : Source S) {wr : Writer} {r : Reader} {k : ℕ} {v : Value h} {bs : Bytes} (t : ColType)
      → Fixed h o wr r k v bs
      → Reads src o cs (run_reader num r (record t { buffer_size = k })) bs (v, none)
  unfolding run_reader decode_tinyint decode_smallint decode_usmallint decode_int decode_uint
      decode_bigint decode_int_n decode_float
  Reads-Fixed src t (fixed_tinyint {n} f) =
      Reads-last src o cs _ (Reads-uint8 src o cs n) (Reads-returning src o cs _)
  Reads-Fixed src t (fixed_smallint {z} f) =
      Reads-last src o cs _ (Reads-int16 src o cs z f) (Reads-returning src o cs _)
  Reads-Fixed src t (fixed_usmallint {n} f) =
      Reads-last src o cs _ (Reads-uint16 src o cs n f) (Reads-returning src o cs _)
  Reads-Fixed src t (fixed_int {z} f) =
      Reads-last src o cs _ (Reads-int32 src o cs z f) (Reads-returning src o cs _)
  Reads-Fixed src t (fixed_int_n {z} f) =
      Reads-last src o cs _ (Reads-int32 src o cs z f) (Reads-returning src o cs _)
  Reads-Fixed src t (fixed_uint {n} f) =
      Reads-last src o cs _ (Reads-uint32 src o cs n f) (Reads-returning src o cs _)
  Reads-Fixed src t (fixed_bigint {z} f) =
      Reads-last src o cs _ (Reads-int64 src o cs z f) (Reads-returning src o cs _)
  Reads-Fixed src t (fixed_float {x} f e) =
      Reads-last src o cs _ (Reads-uint64 src o cs (h.float64_bits x) f)
        (rw e (Reads-returning src o cs (float64_value x)))

module _ {h : Host} {S : Type 0} ⦃w : ReadWriter S⦄ (num : Decimals h S) (o : ByteOrder)
    (cs : Option Charset) where
  pub data_read-known :
      (t : ColType) (props : TypeAttribute) {long : Bool}
      → IsSized t props long
      → data_read num t ≡ (
          (if long then uint32 else uint8) >>= λ size.
          take_err >>= λ err. read_sized num t props size err)
  unfolding data_read
  data_read-known t props z = simp (z.valid, z.known, z.sized, z.reads) refl

  -- The rest behind a length that is not 0.
  pub Reads-sized :
      (src : Source S) (t : ColType) (props : TypeAttribute) (n : ℕ) {v : Value h} {bs : Bytes}
      → 0 < n
      → Reads src o cs (run_reader num props.reader (record t { buffer_size = n })) bs (v, none)
      → Reads src o cs (take_err >>= λ err. read_sized num t props n err) bs (v, none)
  unfolding read_sized
  Reads-sized src t props n k r =
      Reads-bind src o cs _ (Reads-take_err src o cs) (rw (==-false n 0 k) r)

  Reads-null :
      (src : Source S) (t : ColType) (props : TypeAttribute)
      → Reads src o cs (take_err >>= λ err. read_sized num t props 0 err) [] (nil_value, none)
  unfolding read_sized
  Reads-null src t props =
      Reads-bind src o cs _ (Reads-take_err src o cs) (Reads-pure src o cs (nil_value, none))

  Reads-text :
      (src : Source S) (t : ColType) (s : Bytes) (limit : ℕ)
      → IsText cs limit s
      → Reads src o cs
          (run_reader num char_reader (record t { buffer_size = length (encoded cs s) }))
          (encoded cs s)
          (string_value s, none)
  unfolding run_reader decode_char
  Reads-text src t s limit g =
      Reads-last src o cs _ (Reads-read_string_with_len src o cs s g.lossless g.readable)
        (Reads-returning src o cs _)

  Reads-bytes :
      (src : Source S) (t : ColType) (bs : Bytes)
      → Reads src o cs
          (run_reader num binary_reader (record t { buffer_size = length bs }))
          bs
          (bytes_value bs, none)
  unfolding run_reader decode_binary
  Reads-bytes src t bs =
      Reads-last src o cs _
        (Reads-read src o cs bs (replicate (length bs) 0) (sym (length-replicate (length bs) 0)))
        (Reads-returning src o cs _)

  Reads-Counted :
      (src : Source S) {r : Reader} {wr : Writer} {v : Value h} {bs : Bytes} (t : ColType)
      (props : TypeAttribute)
      → props.reader ≡ r
      → Counted h o cs wr r v bs
      → Reads src o cs
          (uint8 >>= λ size. take_err >>= λ err. read_sized num t props size err)
          bs
          (v, none)
  Reads-Counted src t props e (counted_char {s} g k) =
      Reads-bind src o cs _ (Reads-uint8 src o cs (length (encoded cs s)))
        (Reads-sized src t props (length (encoded cs s)) k (rw e (Reads-text src t s (2 ^ 8) g)))
  Reads-Counted src t props e (counted_binary {bs} g k) =
      Reads-bind src o cs _ (Reads-uint8 src o cs (length bs))
        (Reads-sized src t props (length bs) k (rw e (Reads-bytes src t bs)))

  Reads-LongCounted :
      (src : Source S) {r : Reader} {wr : Writer} {v : Value h} {bs : Bytes} (t : ColType)
      (props : TypeAttribute)
      → props.reader ≡ r
      → LongCounted h o cs wr r v bs
      → Reads src o cs
          (uint32 >>= λ size. take_err >>= λ err. read_sized num t props size err)
          bs
          (v, none)
  Reads-LongCounted src t props e (counted_longchar {s} g k) =
      Reads-bind src o cs _ (Reads-uint32 src o cs (length (encoded cs s)) g.short)
        (Reads-sized src t props (length (encoded cs s)) k (rw e (Reads-text src t s (2 ^ 32) g)))
  Reads-LongCounted src t props e (counted_longbinary {bs} g k) =
      Reads-bind src o cs _ (Reads-uint32 src o cs (length bs) g)
        (Reads-sized src t props (length bs) k (rw e (Reads-bytes src t bs)))

  pub Reads-Held :
      (src : Source S) (t s : ColType) (v : Value h) (bs : Bytes)
      → Held h o cs t s v bs
      → Reads src o cs (data_read num s) bs (v, none)
  Reads-Held src t s v bs (held_null {props} {found} y z e) =
      rw (data_read-known s found z)
        (Reads-bind src o cs _ (Reads-uint8 src o cs 0) (Reads-null src s found))
  Reads-Held src t s v bs (held_long_null {props} {found} y z e) =
      rw (data_read-known s found z)
        (Reads-last src o cs _ (Reads-uint32 src o cs 0 (omega arith)) (Reads-null src s found))
  Reads-Held src t s v bs (held_fixed {props} {found} y z some_bytes small nullable f) =
      rw (data_read-known s found z) (
        Reads-bind src o cs _ (Reads-uint8 src o cs props.num_bytes)
          (Reads-sized src s found props.num_bytes some_bytes (Reads-Fixed num o cs src s f)))
  Reads-Held src t s v bs (held_counted {props} {found} y z e f) =
      rw (data_read-known s found z) (Reads-Counted src s found refl f)
  Reads-Held src t s v bs (held_long {props} {found} y z e f) =
      rw (data_read-known s found z) (Reads-LongCounted src s found refl f)
