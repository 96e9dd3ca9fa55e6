-- ===== src/Messages/Capabilities/Wire.antt =====
-- The capabilities message on the wire.
use tds.Base.{◌^◌, ◌<◌, ◌≡◌, ℕ, Option, none, ◌++◌, [], ◌∷◌, Bytes, arith, length}
use tds.Base.Int.{u8, i8}
use tds.Golang.Order.{ByteOrder}
use tds.Golang.Io.{ReadWriter}
use tds.Golang.Buffer.{Buffer, buffer}
use tds.Encoder.Ops.{Charset, Encoder, write_int8}
use tds.Encoder.Ready.{Source, Sink, Ready}
use tds.Encoder.Reads.{Reads, Reads-bind, Reads-read, Reads-int8, Reads-read_byte}
use tds.Encoder.Writes.{Writes, Writes-bind, Writes-write, Writes-write_int8, Writes-write_byte}
use tds.Messages.Codec.{
  Carries, buffer_source, buffer_sink, Reads-returning, Reads-last, Writes-take_err, Writes-last,
  Recovers, recovers,
}
use tds.Base.{sym, length-replicate}
use tds.Base.Int.{pos}
use tds.Messages.Capabilities.{Capabilities, read_made, write_message, read_message}

-- The bitmaps are short enough for their length, a signed byte.
pub record IsCapabilities (m : Capabilities) : Type 0 where
  pub req : length m.req < 2 ^ 7
  pub res : length m.res < 2 ^ 7

-- What reading gives: the lengths of the bitmaps too.
abbrev pub received : Capabilities → Capabilities
received m = record m { e = pos (length m.req); res_field_len = pos (length m.res) }

i8_small : (n : ℕ) → n < 2 ^ 7 → i8 n ≡ pos n
i8_small n h = ground arith

-- The bytes of the message behind its token and length.
abbrev wire : Capabilities → Bytes
wire m =
    (m.req_token ∷ [])
    ++ ((u8 (pos (length m.req)) ∷ [])
        ++ (m.req ++ ((m.res_token ∷ []) ++ ((u8 (pos (length m.res)) ∷ []) ++ m.res))))

module _ {S : Type 0} ⦃w : ReadWriter S⦄ (o : ByteOrder) (cs : Option Charset) where
  Writes-write_length :
      (snk : Sink S) (n : ℕ) → n < 2 ^ 7 → Writes snk o cs (write_int8 (i8 n)) (u8 (pos n) ∷ []) tt
  Writes-write_length snk n h = rw (i8_small n h) (Writes-write_int8 snk o cs (pos n))

  Reads-read_made :
      (src : Source S) (bs : Bytes) → Reads src o cs (read_made (pos (length bs))) bs bs
  unfolding read_made
  Reads-read_made src bs = Reads-read src o cs bs _ (sym (length-replicate (length bs) 0))

  pub Writes-write_message :
      (snk : Sink S) (m : Capabilities)
      → IsCapabilities m
      → Writes snk o cs (write_message m) (wire m) none
  unfolding write_message
  Writes-write_message snk m h = Writes-bind snk o cs _ (Writes-write_byte snk o cs m.req_token) (
      Writes-bind snk o cs _ (Writes-write_length snk (length m.req) h.req) (
        Writes-bind snk o cs _ (Writes-write snk o cs m.req) (
          Writes-bind snk o cs _ (Writes-write_byte snk o cs m.res_token) (
            Writes-bind snk o cs _ (Writes-write_length snk (length m.res) h.res)
              (Writes-last snk o cs _ (Writes-write snk o cs m.res) (Writes-take_err snk o cs))))))

  pub Reads-read_message :
      (src : Source S) (m : Capabilities)
      → IsCapabilities m
      → Reads src o cs read_message (wire m) (received m, none)
  unfolding read_message
  Reads-read_message src m h = Reads-bind src o cs _ (Reads-read_byte src o cs m.req_token) (
      Reads-bind src o cs _ (Reads-int8 src o cs (pos (length m.req)) (h.req, omega arith)) (
        Reads-bind src o cs _ (Reads-read_made src m.req) (
          Reads-bind src o cs _ (Reads-read_byte src o cs m.res_token) (
            Reads-bind src o cs _ (Reads-int8 src o cs (pos (length m.res)) (h.res, omega arith)) (
              Reads-last src o cs _ (Reads-read_made src m.res)
                (Reads-returning src o cs (received m)))))))

-- A capabilities message with bitmaps below 128 bytes, written to a buffer, is read back from it
-- with the same tokens and bitmaps, and with the bitmaps' lengths.
pub read-write_capabilities :
    (o : ByteOrder) (cs : Option Charset) (e : Encoder Buffer) (m : Capabilities)
    → Ready Carries o cs [] e
    → IsCapabilities m
    → Recovers o cs (write_message m) read_message (received m) e
read-write_capabilities o cs e m r h =
    recovers (Writes-write_message o cs buffer_sink m h) (Reads-read_message o cs buffer_source m h)
      r
