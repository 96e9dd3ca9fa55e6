-- ===== src/Messages/EnvChange.antt =====
-- The environment change message of messages.go.
use tds.Base.{◌^◌, ℕ, Option, none, ◌++◌, [], ◌∷◌, Bytes}
use tds.Golang.Errors.{Error}
use tds.Golang.Order.{ByteOrder}
use tds.Golang.Io.{ReadWriter}
use tds.Golang.Buffer.{Buffer, buffer}
use tds.Encoder.Ops.{Charset, Encoder, M, ◌>>=◌, ◌>>◌, take_err, write_byte, read_byte}
use tds.Encoder.Strings.{write_string_with_len, read_string}
use tds.Encoder.Texts.{IsText, text8}
use tds.Encoder.Ready.{Source, Sink, Ready}
use tds.Encoder.Reads.{Reads, Reads-bind, Reads-read_byte}
use tds.Encoder.Reads.Texts.{Reads-string8}
use tds.Encoder.Writes.{Writes, Writes-bind, Writes-write_byte}
use tds.Encoder.Writes.Texts.{Writes-string8}
use tds.Messages.Codec.{
  Carries, buffer_source, buffer_sink, returning, Reads-returning, Reads-last, Writes-take_err,
  Writes-last, Recovers, recovers,
}

pub record EnvChange : Type 0 where
  pub change_type : ℕ
  pub new_value : Bytes
  pub old_value : Bytes

module _ {S : Type 0} ⦃w : ReadWriter S⦄ where
  unfoldable pub write_message : EnvChange → M S (Option Error)
  write_message m = do
    write_byte m.change_type
    write_string_with_len 8 m.new_value
    write_string_with_len 8 m.old_value
    take_err

  unfoldable pub read_message : M S (EnvChange × Option Error)
  read_message = do
    change_type ← read_byte
    (new_value, _) ← read_string 8
    (old_value, _) ← read_string 8
    returning (record { change_type = change_type; new_value = new_value; old_value = old_value })

-- The fields have the widths and the lengths that the source gives them.
pub record IsEnvChange (cs : Option Charset) (m : EnvChange) : Type 0 where
  pub new_value : IsText cs (2 ^ 8) m.new_value
  pub old_value : IsText cs (2 ^ 8) m.old_value

-- The bytes of the message behind its token and length.
abbrev pub wire : ByteOrder → Option Charset → EnvChange → Bytes
wire o cs m = (m.change_type ∷ []) ++ (text8 cs m.new_value ++ (text8 cs m.old_value))

module _ {S : Type 0} ⦃w : ReadWriter S⦄ (o : ByteOrder) (cs : Option Charset) (m : EnvChange) where
  pub Writes-write_message :
      (snk : Sink S) → IsEnvChange cs m → Writes snk o cs (write_message m) (wire o cs m) none
  unfolding write_message
  Writes-write_message snk h = Writes-bind snk o cs _ (Writes-write_byte snk o cs m.change_type) (
      Writes-bind snk o cs _ (Writes-string8 snk o cs m.new_value h.new_value) (
        Writes-last snk o cs _ (Writes-string8 snk o cs m.old_value h.old_value)
          (Writes-take_err snk o cs)))

  pub Reads-read_message :
      (src : Source S) → IsEnvChange cs m → Reads src o cs read_message (wire o cs m) (m, none)
  unfolding read_message
  Reads-read_message src h = Reads-bind src o cs _ (Reads-read_byte src o cs m.change_type) (
      Reads-bind src o cs _ (Reads-string8 src o cs m.new_value h.new_value) (
        Reads-last src o cs _ (Reads-string8 src o cs m.old_value h.old_value)
          (Reads-returning src o cs m)))

-- An environment change written to a buffer is read back from it unchanged, with no error and nothing left over, if
-- its fields fit their widths and its texts survive the charset and fit their lengths.
read-write_env_change :
    (o : ByteOrder) (cs : Option Charset) (e : Encoder Buffer) (m : EnvChange)
    → Ready Carries o cs [] e
    → IsEnvChange cs m
    → Recovers o cs (write_message m) read_message m e
read-write_env_change o cs e m r h =
    recovers (Writes-write_message o cs m buffer_sink h) (Reads-read_message o cs m buffer_source h)
      r
