-- ===== src/Messages/Language.antt =====
-- The language message of messages.go, which carries a query.
use tds.Base.{◌^◌, ◌≡◌, ℕ, Option, none, ◌++◌, [], ◌∷◌, Bytes, arith, length}
use tds.Golang.Errors.{Error}
use tds.Golang.Order.{ByteOrder, put}
use tds.Golang.Io.{ReadWriter}
use tds.Golang.Buffer.{Buffer, buffer}
use tds.Encoder.Ops.{
  Charset, Encoder, M, ◌>>=◌, ◌>>◌, take_err, write_byte, write_uint32, uint32, read_byte,
}
use tds.Encoder.Strings.{write_string, read_string_with_len}
use tds.Encoder.Texts.{encoded}
use tds.Encoder.Ready.{Source, Sink, Ready}
use tds.Encoder.Reads.{Reads, Reads-bind, Reads-uint32, Reads-read_byte}
use tds.Encoder.Reads.Texts.{Reads-read_string_with_len}
use tds.Encoder.Writes.{Writes, Writes-bind, Writes-write_byte, Writes-write_uint32}
use tds.Encoder.Writes.Texts.{Writes-write_string}
use tds.Messages.Codec.{
  Carries, buffer_source, buffer_sink, returning, Reads-returning, Reads-last, Writes-take_err,
  Writes-last, Recovers, recovers,
}
use tds.Base.{◌+◌, ◌-◌, ◌%◌, ◌≤◌}
use tds.Base.Int.{pos}
use tds.Encoder.Strings.{max_text_size}
use tds.Encoder.Texts.{IsLossless}

pub record Language : Type 0 where
  pub message_len : ℕ
  pub status : ℕ
  pub query : Bytes

module _ {S : Type 0} ⦃w : ReadWriter S⦄ where
  -- The length is that of the query before `WriteString` converts it to the charset.
  unfoldable pub write_message : Language → M S (Option Error)
  write_message m = do
    write_uint32 ((length m.query % 2 ^ 32 + 1) % 2 ^ 32)
    write_byte m.status
    _ ← write_string m.query
    take_err

  -- `l.messageLen - 1` is a subtraction of uint32.
  unfoldable pub read_message : M S (Language × Option Error)
  read_message = do
    message_len ← uint32
    status ← read_byte
    query ← read_string_with_len (pos ((message_len + 2 ^ 32 - 1) % 2 ^ 32))
    returning (record { message_len = message_len; status = status; query = query })

-- The query survives the charset, is short enough to be read, and has as many bytes as in UTF-8.
pub record IsLanguage (cs : Option Charset) (m : Language) : Type 0 where
  pub lossless : IsLossless cs m.query
  pub readable : length (encoded cs m.query) ≤ max_text_size
  pub same_length : length (encoded cs m.query) ≡ length m.query

-- What reading gives: the length that was sent.
abbrev pub received : Language → Language
received m = record m { message_len = length m.query + 1 }

-- The bytes of the message behind its token.
abbrev pub wire : ByteOrder → Option Charset → Language → Bytes
wire o cs m =
    put o 4 ((length m.query % 2 ^ 32 + 1) % 2 ^ 32) ++ ((m.status ∷ []) ++ encoded cs m.query)

module _ {S : Type 0} ⦃w : ReadWriter S⦄ (o : ByteOrder) (cs : Option Charset) (m : Language) where
  pub Writes-write_message :
      (snk : Sink S) → IsLossless cs m.query → Writes snk o cs (write_message m) (wire o cs m) none
  unfolding write_message
  Writes-write_message snk h = Writes-bind snk o cs _ (Writes-write_uint32 snk o cs _) (
      Writes-bind snk o cs _ (Writes-write_byte snk o cs m.status) (
        Writes-last snk o cs _ (Writes-write_string snk o cs m.query h) (Writes-take_err snk o cs)))

  pub Reads-read_message :
      (src : Source S)
      → IsLanguage cs m
      → Reads src o cs read_message (wire o cs m) (received m, none)
  unfolding read_message
  Reads-read_message src h =
      let n = length m.query in
      let len : (n % 2 ^ 32 + 1) % 2 ^ 32 ≡ n + 1 = omega (arith, h.readable, h.same_length) in
      let back : (n + 1 + 2 ^ 32 - 1) % 2 ^ 32 ≡ length (encoded cs m.query) =
        omega (arith, h.readable, h.same_length) in
      rw len (
        Reads-bind src o cs _
          (Reads-uint32 src o cs (n + 1) (omega (arith, h.readable, h.same_length)))
          (Reads-bind src o cs _ (Reads-read_byte src o cs m.status) (
            rw back (
              Reads-last src o cs _
                (Reads-read_string_with_len src o cs m.query h.lossless h.readable)
                (Reads-returning src o cs (received m))))))

-- A query written to a buffer is read back from it with its status, under its length plus one, with no error
-- and nothing left over, if it survives the charset, is at most 100000 bytes long there, and the charset keeps the
-- number of its bytes.
read-write_language :
    (o : ByteOrder) (cs : Option Charset) (e : Encoder Buffer) (m : Language)
    → Ready Carries o cs [] e
    → IsLanguage cs m
    → Recovers o cs (write_message m) read_message (received m) e
read-write_language o cs e m r h =
    recovers (Writes-write_message o cs m buffer_sink h.lossless)
      (Reads-read_message o cs m buffer_source h) r
