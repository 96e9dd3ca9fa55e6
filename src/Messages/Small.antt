-- ===== src/Messages/Small.antt =====
-- The messages logout, dbRPC and sybMsg of messages.go.
use tds.Base.{ℕ, Option, none, ◌++◌, [], ◌∷◌, Bytes}
use tds.Base.Int.{ℤ, u8, u16, IsInt8, IsInt16}
use tds.Golang.Errors.{Error}
use tds.Golang.Order.{ByteOrder, put}
use tds.Golang.Io.{ReadWriter}
use tds.Golang.Buffer.{Buffer, buffer}
use tds.Encoder.Ops.{
  Charset, Encoder, M, ◌>>=◌, ◌>>◌, take_err, write_int8, write_int16, write_byte, int8, int16,
  uint16, read_byte,
}
use tds.Encoder.Strings.{read_string}
use tds.Encoder.Ready.{Source, Sink, Ready}
use tds.Encoder.Reads.{Reads, Reads-bind, Reads-int8, Reads-int16}
use tds.Encoder.Writes.{Writes, Writes-bind, Writes-write_int8, Writes-write_int16}
use tds.Messages.Codec.{
  Carries, buffer_source, buffer_sink, returning, Reads-returning, Reads-last, Writes-take_err,
  Writes-last, Recovers, recovers,
}
use tds.Base.{Bool}
use tds.Messages.Tokens.{has_flag}

pub record Logout : Type 0 where
  pub option : ℕ

pub record SybMsg : Type 0 where
  pub field1 : ℤ
  pub field2 : ℤ

pub record DbRpc : Type 0 where
  pub name : Bytes
  pub flags : ℕ
  pub has_params : Bool

module _ {S : Type 0} ⦃w : ReadWriter S⦄ where
  unfoldable pub write_logout : Logout → M S (Option Error)
  write_logout m = do write_byte m.option; take_err

  -- `Read` has a value receiver: what it reads is assigned to a copy.
  unfoldable pub read_logout : Logout → M S (Logout × Option Error)
  read_logout m = do _ ← read_byte; returning m

  unfoldable pub write_syb_msg : SybMsg → M S (Option Error)
  write_syb_msg m = do write_int8 m.field1; write_int16 m.field2; take_err

  -- A value receiver here too.
  unfoldable pub read_syb_msg : SybMsg → M S (SybMsg × Option Error)
  read_syb_msg m = do _ ← int8; _ ← int16; returning m

  unfoldable pub read_db_rpc : M S (DbRpc × Option Error)
  read_db_rpc = do
    (name, _) ← read_string 8
    flags ← uint16
    returning (record { name = name; flags = flags; has_params = has_flag flags 2 })

module _ {S : Type 0} ⦃w : ReadWriter S⦄ (o : ByteOrder) (cs : Option Charset) where
  pub Writes-write_syb_msg :
      (snk : Sink S) (m : SybMsg)
      → Writes snk o cs (write_syb_msg m) ((u8 m.field1 ∷ []) ++ put o 2 (u16 m.field2)) none
  unfolding write_syb_msg
  Writes-write_syb_msg snk m =
      Writes-bind snk o cs _ (Writes-write_int8 snk o cs m.field1)
        (Writes-last snk o cs _ (Writes-write_int16 snk o cs m.field2) (Writes-take_err snk o cs))

  pub Reads-read_syb_msg :
      (src : Source S) (old m : SybMsg)
      → IsInt8 m.field1
      → IsInt16 m.field2
      → Reads src o cs (read_syb_msg old) ((u8 m.field1 ∷ []) ++ put o 2 (u16 m.field2)) (old, none)
  unfolding read_syb_msg
  Reads-read_syb_msg src old m h k =
      Reads-bind src o cs _ (Reads-int8 src o cs m.field1 h)
        (Reads-last src o cs _ (Reads-int16 src o cs m.field2 k) (Reads-returning src o cs old))

-- Reading back the three bytes of a sybMsg reports no error and leaves the message that is read into
-- as it was, whatever message was written, if its fields fit their widths.
read_syb_msg_drops_fields :
    (o : ByteOrder) (cs : Option Charset) (e : Encoder Buffer) (old m : SybMsg)
    → Ready Carries o cs [] e
    → IsInt8 m.field1
    → IsInt16 m.field2
    → Recovers o cs (write_syb_msg m) (read_syb_msg old) old e
read_syb_msg_drops_fields o cs e old m r h k =
    recovers (Writes-write_syb_msg o cs buffer_sink m)
      (Reads-read_syb_msg o cs buffer_source old m h k) r
