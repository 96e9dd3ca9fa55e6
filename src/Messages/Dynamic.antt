-- ===== src/Messages/Dynamic.antt =====
-- The dynamic message of messages.go, which prepares, runs and drops a statement.
use tds.Base.{◌^◌, ℕ, Option, none, ◌++◌, [], ◌∷◌, Bytes}
use tds.Golang.Errors.{Error}
use tds.Golang.Order.{ByteOrder}
use tds.Golang.Io.{ReadWriter}
use tds.Golang.Buffer.{Buffer, buffer}
use tds.Encoder.Ops.{Charset, Encoder, M, ◌>>=◌, ◌>>◌, take_err, pure, write_byte, read_byte}
use tds.Encoder.Strings.{write_string_with_len, read_string}
use tds.Encoder.Texts.{IsText, text8, text32}
use tds.Encoder.Ready.{Source, Sink, Ready}
use tds.Encoder.Reads.{Reads, Reads-pure, Reads-bind, Reads-read_byte}
use tds.Encoder.Reads.Texts.{Reads-string8, Reads-string32}
use tds.Encoder.Writes.{Writes, Writes-pure, Writes-bind, Writes-write_byte}
use tds.Encoder.Writes.Texts.{Writes-string8, Writes-string32}
use tds.Messages.Codec.{
  Carries, buffer_source, buffer_sink, returning, Reads-returning, Reads-last, Writes-take_err,
  Writes-last, Recovers, recovers,
}
use tds.Base.{Bool, true, false, if◌then◌else◌}
use tds.Messages.Tokens.{has_flag}

pub record Dynamic : Type 0 where
  pub operation : ℕ
  pub status : ℕ
  pub name : Bytes
  pub statement : Bytes

abbrev pub dynamic_prepare : ℕ
dynamic_prepare = 1

abbrev pub dynamic_exec : ℕ
dynamic_exec = 2

abbrev pub dynamic_dealloc : ℕ
dynamic_dealloc = 4

abbrev pub dynamic_has_args : ℕ
dynamic_has_args = 1

-- `d.operation&dynamicPrepare > 0`.
abbrev pub prepares : ℕ → Bool
prepares operation = has_flag operation dynamic_prepare

module _ {S : Type 0} ⦃w : ReadWriter S⦄ where
  unfoldable pub write_statement : Bool → Bytes → M S (Unit {0})
  write_statement true s = write_string_with_len 32 s
  write_statement false s = pure tt

  unfoldable pub write_message : Dynamic → M S (Option Error)
  write_message m = do
    write_byte m.operation
    write_byte m.status
    write_string_with_len 8 m.name
    write_statement (prepares m.operation) m.statement
    take_err

  -- The statement of the message that is read into stays where none is sent.
  unfoldable pub read_statement : Bool → Bytes → M S Bytes
  read_statement true old = do (statement, _) ← read_string 32; pure statement
  read_statement false old = pure old

  unfoldable pub read_message : Dynamic → M S (Dynamic × Option Error)
  read_message old = do
    operation ← read_byte
    status ← read_byte
    (name, _) ← read_string 8
    statement ← read_statement (prepares operation) old.statement
    returning
        (record { operation = operation; status = status; name = name; statement = statement })

-- The texts survive the charset and fit their lengths.
pub record IsDynamic (cs : Option Charset) (m : Dynamic) : Type 0 where
  pub name : IsText cs (2 ^ 8) m.name
  pub statement : IsText cs (2 ^ 32) m.statement

abbrev wire_statement : ByteOrder → Option Charset → Bool → Bytes → Bytes
wire_statement o cs true s = text32 o cs s
wire_statement o cs false s = []

-- The bytes of the message behind its token and length.
abbrev wire : ByteOrder → Option Charset → Dynamic → Bytes
wire o cs m =
    (m.operation ∷ [])
    ++ ((m.status ∷ [])
        ++ (text8 cs m.name ++ wire_statement o cs (prepares m.operation) m.statement))

-- What reading gives: a statement is sent for a prepare alone.
abbrev pub received : Dynamic → Dynamic → Dynamic
received old m = record m {
  statement = if prepares m.operation then m.statement else old.statement;
}

module _ {S : Type 0} ⦃w : ReadWriter S⦄ (o : ByteOrder) (cs : Option Charset) where
  Writes-write_statement :
      (snk : Sink S) (b : Bool) (s : Bytes)
      → IsText cs (2 ^ 32) s
      → Writes snk o cs (write_statement b s) (wire_statement o cs b s) tt
  unfolding write_statement
  Writes-write_statement snk true s h = Writes-string32 snk o cs s h
  Writes-write_statement snk false s h = Writes-pure snk o cs tt

  Reads-read_statement :
      (src : Source S) (b : Bool) (old s : Bytes)
      → IsText cs (2 ^ 32) s
      → Reads src o cs (read_statement b old) (wire_statement o cs b s) (if b then s else old)
  unfolding read_statement
  Reads-read_statement src true old s h =
      Reads-last src o cs _ (Reads-string32 src o cs s h) (Reads-pure src o cs s)
  Reads-read_statement src false old s h = Reads-pure src o cs old

  pub Writes-write_message :
      (snk : Sink S) (m : Dynamic)
      → IsDynamic cs m
      → Writes snk o cs (write_message m) (wire o cs m) none
  unfolding write_message
  Writes-write_message snk m h = Writes-bind snk o cs _ (Writes-write_byte snk o cs m.operation) (
      Writes-bind snk o cs _ (Writes-write_byte snk o cs m.status) (
        Writes-bind snk o cs _ (Writes-string8 snk o cs m.name h.name) (
          Writes-last snk o cs _ (Writes-write_statement snk _ m.statement h.statement)
            (Writes-take_err snk o cs))))

  pub Reads-read_message :
      (src : Source S) (old m : Dynamic)
      → IsDynamic cs m
      → Reads src o cs (read_message old) (wire o cs m) (received old m, none)
  unfolding read_message
  Reads-read_message src old m h = Reads-bind src o cs _ (Reads-read_byte src o cs m.operation) (
      Reads-bind src o cs _ (Reads-read_byte src o cs m.status) (
        Reads-bind src o cs _ (Reads-string8 src o cs m.name h.name) (
          Reads-last src o cs _ (Reads-read_statement src _ old.statement m.statement h.statement)
            (Reads-returning src o cs (received old m)))))

-- A dynamic message written to a buffer is read back from it with its operation, status and name, and
-- with its statement if it is a prepare; otherwise the message read into keeps the statement it had. There is
-- no error and nothing left over, if the texts survive the charset and fit their lengths.
pub read-write_dynamic :
    (o : ByteOrder) (cs : Option Charset) (e : Encoder Buffer) (old m : Dynamic)
    → Ready Carries o cs [] e
    → IsDynamic cs m
    → Recovers o cs (write_message m) (read_message old) (received old m) e
read-write_dynamic o cs e old m r h =
    recovers (Writes-write_message o cs buffer_sink m h)
      (Reads-read_message o cs buffer_source old m h) r
