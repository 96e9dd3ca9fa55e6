-- ===== src/Messages/Done.antt =====
-- The done message of messages.go, which ends a result.
use tds.Base.{Option, none, ◌++◌, [], Bytes}
use tds.Base.Int.{ℤ, u16, u32, IsInt16, IsInt32}
use tds.Golang.Errors.{Error}
use tds.Golang.Order.{ByteOrder, put}
use tds.Golang.Io.{ReadWriter}
use tds.Golang.Buffer.{Buffer, buffer}
use tds.Encoder.Ops.{
  Charset, Encoder, M, ◌>>=◌, ◌>>◌, take_err, write_int16, write_int32, int16, int32,
}
use tds.Encoder.Ready.{Source, Sink, Ready}
use tds.Encoder.Reads.{Reads, Reads-bind, Reads-int16, Reads-int32}
use tds.Encoder.Writes.{Writes, Writes-bind, Writes-write_int16, Writes-write_int32}
use tds.Messages.Codec.{
  Carries, buffer_source, buffer_sink, returning, Reads-returning, Reads-last, Writes-take_err,
  Writes-last, Recovers, recovers,
}

pub record Done : Type 0 where
  pub status : ℤ
  pub tran_state : ℤ
  pub count : ℤ

module _ {S : Type 0} ⦃w : ReadWriter S⦄ where
  unfoldable pub write_message : Done → M S (Option Error)
  write_message m = do write_int16 m.status; write_int16 m.tran_state; write_int32 m.count; take_err

  unfoldable pub read_message : M S (Done × Option Error)
  read_message = do
    status ← int16
    tran_state ← int16
    count ← int32
    returning (record { status = status; tran_state = tran_state; count = count })

-- The fields have the widths and the lengths that the source gives them.
pub record IsDone (cs : Option Charset) (m : Done) : Type 0 where
  pub status : IsInt16 m.status
  pub tran_state : IsInt16 m.tran_state
  pub count : IsInt32 m.count

-- The bytes of the message behind its token and length.
abbrev pub wire : ByteOrder → Option Charset → Done → Bytes
wire o cs m = put o 2 (u16 m.status) ++ (put o 2 (u16 m.tran_state) ++ (put o 4 (u32 m.count)))

module _ {S : Type 0} ⦃w : ReadWriter S⦄ (o : ByteOrder) (cs : Option Charset) (m : Done) where
  pub Writes-write_message : (snk : Sink S) → Writes snk o cs (write_message m) (wire o cs m) none
  unfolding write_message
  Writes-write_message snk = Writes-bind snk o cs _ (Writes-write_int16 snk o cs m.status) (
      Writes-bind snk o cs _ (Writes-write_int16 snk o cs m.tran_state)
        (Writes-last snk o cs _ (Writes-write_int32 snk o cs m.count) (Writes-take_err snk o cs)))

  pub Reads-read_message :
      (src : Source S) → IsDone cs m → Reads src o cs read_message (wire o cs m) (m, none)
  unfolding read_message
  Reads-read_message src h = Reads-bind src o cs _ (Reads-int16 src o cs m.status h.status) (
      Reads-bind src o cs _ (Reads-int16 src o cs m.tran_state h.tran_state)
        (Reads-last src o cs _ (Reads-int32 src o cs m.count h.count) (Reads-returning src o cs m)))

-- A done message written to a buffer is read back from it unchanged, with no error and nothing left over, if
-- its fields fit their widths.
read-write_done :
    (o : ByteOrder) (cs : Option Charset) (e : Encoder Buffer) (m : Done)
    → Ready Carries o cs [] e
    → IsDone cs m
    → Recovers o cs (write_message m) read_message m e
read-write_done o cs e m r h =
    recovers (Writes-write_message o cs m buffer_sink) (Reads-read_message o cs m buffer_source h) r
