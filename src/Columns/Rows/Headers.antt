-- ===== src/Columns/Rows/Headers.antt =====
-- The formats of the columns of a result, written and read back.
use tds.Base.{ℕ, ◌%◌, ◌^◌, ◌<◌, ◌≡◌, false, Option, none, List, [], ◌∷◌, ◌++◌, length, Bytes, arith}
use tds.Base.Int.{pos}
use tds.Golang.Order.{ByteOrder, put}
use tds.Golang.Io.{ReadWriter}
use tds.Golang.Buffer.{Buffer, buffer}
use tds.Encoder.Ops.{Charset, Encoder}
use tds.Encoder.Ready.{Source, Sink, Ready}
use tds.Encoder.Reads.{Reads, Reads-bind, Reads-pure, Reads-int16}
use tds.Encoder.Writes.{Writes, Writes-bind, Writes-pure, Writes-write_uint16}
use tds.Messages.Codec.{
  Carries, buffer_source, buffer_sink, Reads-take_err, Reads-last, Writes-take_err, Recovers,
  recovers,
}
use tds.Types.Table.{TypeAttribute}
use tds.Columns.{ColType}
use tds.Columns.Formats.{ColFmt, names_all}
use tds.Columns.Formats.Trips.{IsParam, fmt_bytes, received_fmt, Writes-fmt, Reads-fmt}
use tds.Columns.Rows.{write_fmts, write_columns, read_fmts, read_columns}

-- The formats of parameters, what is read of them, and their bytes.
pub data Sent (o : ByteOrder) (cs : Option Charset) (flags : ℕ)
    : List ColFmt → List ColFmt → Bytes → Type 0 where
  no_fmts : Sent o cs flags [] [] []
  sent :
      {f : ColFmt} {props : TypeAttribute} {r : ColType} {fs gs : List ColFmt} {bs : Bytes}
      → IsParam cs flags f props r
      → Sent o cs flags fs gs bs
      → Sent o cs flags (f ∷ fs) (received_fmt f props r ∷ gs) (fmt_bytes o cs flags f props ++ bs)

module _ {S : Type 0} ⦃w : ReadWriter S⦄ (o : ByteOrder) (cs : Option Charset) (flags : ℕ) where
  Writes-fmts :
      (snk : Sink S) (fs gs : List ColFmt) (bs : Bytes)
      → Sent o cs flags fs gs bs
      → Writes snk o cs (write_fmts flags fs none) bs none
  unfolding write_fmts
  Writes-fmts snk _ _ _ no_fmts =
      Writes-bind snk o cs _ (Writes-take_err snk o cs) (Writes-pure snk o cs none)
  Writes-fmts snk _ _ _ (sent {f} {props} {r} {fs} {gs} {bs} p k) =
      Writes-bind snk o cs _ (Writes-fmt o cs flags f props r p snk) (Writes-fmts snk fs gs bs k)

  Reads-fmts :
      (src : Source S) (fs gs : List ColFmt) (bs : Bytes)
      → Sent o cs flags fs gs bs
      → Reads src o cs (read_fmts flags (length fs) none) bs (gs, none)
  unfolding read_fmts
  Reads-fmts src _ _ _ no_fmts =
      Reads-bind src o cs _ (Reads-take_err src o cs) (Reads-pure src o cs ([], none))
  Reads-fmts src _ _ _ (sent {f} {props} {r} {fs} {gs} {bs} p k) =
      Reads-bind src o cs _ (Reads-fmt o cs flags f props r p src) (
        Reads-last src o cs _ (Reads-fmts src fs gs bs k)
          (Reads-pure src o cs (received_fmt f props r ∷ gs, none)))

  module _ (fs gs : List ColFmt) (bs : Bytes) (few : length fs < 2 ^ 15)
      (k : Sent o cs flags fs gs bs) where
    Writes-columns :
        (snk : Sink S)
        → names_all flags ≡ false
        → Writes snk o cs (write_columns flags fs) (put o 2 (length fs % 2 ^ 16) ++ bs) none
    unfolding write_columns
    Writes-columns snk short = rw short (
        Writes-bind snk o cs _ (Writes-write_uint16 snk o cs (length fs % 2 ^ 16))
          (Writes-fmts snk fs gs bs k))

    Reads-columns :
        (src : Source S)
        → Reads src o cs (read_columns flags) (put o 2 (length fs % 2 ^ 16) ++ bs) (gs, none)
    unfolding read_columns
    Reads-columns src =
        Reads-bind src o cs _ (Reads-int16 src o cs (pos (length fs)) (few, omega arith))
          (Reads-fmts src fs gs bs k)

-- The formats of parameters written to a buffer are read back from it with no error and nothing left over: the same
-- names and flags, and for each type the one that is found for what is sent, with the size, the precision, the scale and
-- the table of the type. There are fewer than 2^15, the flags do not ask for the names of the tables, and each format
-- is one that can be sent: its type is valid with known properties and is not of a class, and the type that is
-- found for the one sent is found without an error, is not of a class, has a length or is nullable, and agrees with it on being long, on
-- being a large object, and on having a precision and a scale; its size and its flags are below 2^8, its width below 2^7,
-- precision and scale fit a signed byte, the user type 32 bits, and the texts can be sent. Formats of bit and unitext and long
-- binaries of a size of 2^8 or more are thus excluded.
pub read-write_columns :
    (o : ByteOrder) (cs : Option Charset) (flags : ℕ) (e : Encoder Buffer) (fs gs : List ColFmt)
    (bs : Bytes)
    → Ready Carries o cs [] e
    → names_all flags ≡ false
    → length fs < 2 ^ 15
    → Sent o cs flags fs gs bs
    → Recovers o cs (write_columns flags fs) (read_columns flags) gs e
read-write_columns o cs flags e fs gs bs r short few k =
    recovers (Writes-columns o cs flags fs gs bs few k buffer_sink short)
      (Reads-columns o cs flags fs gs bs few k buffer_source) r
