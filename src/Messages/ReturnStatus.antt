-- ===== src/Messages/ReturnStatus.antt =====
-- The return status message of messages.go.
use tds.Base.{Option, none, [], Bytes}
use tds.Base.Int.{ℤ, u32, IsInt32}
use tds.Golang.Errors.{Error}
use tds.Golang.Order.{ByteOrder, put}
use tds.Golang.Io.{ReadWriter}
use tds.Golang.Buffer.{Buffer, buffer}
use tds.Encoder.Ops.{Charset, Encoder, M, ◌>>=◌, ◌>>◌, take_err, write_int32, int32}
use tds.Encoder.Ready.{Source, Sink, Ready}
use tds.Encoder.Reads.{Reads, Reads-int32}
use tds.Encoder.Writes.{Writes, Writes-write_int32}
use tds.Messages.Codec.{
  Carries, buffer_source, buffer_sink, returning, Reads-returning, Reads-last, Writes-take_err,
  Writes-last, Recovers, recovers,
}

pub record ReturnStatus : Type 0 where
  pub status : ℤ

module _ {S : Type 0} ⦃w : ReadWriter S⦄ where
  unfoldable pub write_message : ReturnStatus → M S (Option Error)
  write_message m = do write_int32 m.status; take_err

  unfoldable pub read_message : M S (ReturnStatus × Option Error)
  read_message = do status ← int32; returning (record { status = status })

-- The fields have the widths and the lengths that the source gives them.
pub record IsReturnStatus (cs : Option Charset) (m : ReturnStatus) : Type 0 where
  pub status : IsInt32 m.status

-- The bytes of the message behind its token and length.
abbrev pub wire : ByteOrder → Option Charset → ReturnStatus → Bytes
wire o cs m = put o 4 (u32 m.status)

module _ {S : Type 0} ⦃w : ReadWriter S⦄ (o : ByteOrder) (cs : Option Charset)
    (m : ReturnStatus) where
  pub Writes-write_message : (snk : Sink S) → Writes snk o cs (write_message m) (wire o cs m) none
  unfolding write_message
  Writes-write_message snk =
      Writes-last snk o cs _ (Writes-write_int32 snk o cs m.status) (Writes-take_err snk o cs)

  pub Reads-read_message :
      (src : Source S) → IsReturnStatus cs m → Reads src o cs read_message (wire o cs m) (m, none)
  unfolding read_message
  Reads-read_message src h =
      Reads-last src o cs _ (Reads-int32 src o cs m.status h.status) (Reads-returning src o cs m)

-- A return status written to a buffer is read back from it unchanged, with no error and nothing left over, if
-- its fields fit their widths.
read-write_return_status :
    (o : ByteOrder) (cs : Option Charset) (e : Encoder Buffer) (m : ReturnStatus)
    → Ready Carries o cs [] e
    → IsReturnStatus cs m
    → Recovers o cs (write_message m) read_message m e
read-write_return_status o cs e m r h =
    recovers (Writes-write_message o cs m buffer_sink) (Reads-read_message o cs m buffer_source h) r
