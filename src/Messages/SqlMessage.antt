-- ===== src/Messages/SqlMessage.antt =====
-- The sqlMessage message of messages.go: an error or a notice of the server, `SybError`.
use tds.Base.{◌^◌, ◌<◌, Option, none, ◌++◌, [], ◌∷◌, Bytes}
use tds.Base.Int.{u8, u16, u32, IsInt8, IsInt16, IsInt32}
use tds.Golang.Errors.{Error}
use tds.Golang.Order.{ByteOrder, put}
use tds.Golang.Io.{ReadWriter}
use tds.Golang.Buffer.{Buffer, buffer}
use tds.Encoder.Ops.{
  Charset, Encoder, M, ◌>>=◌, ◌>>◌, take_err, write_int8, write_int16, write_int32, write_uint8,
  write_uint16, int8, int16, int32, uint8, uint16,
}
use tds.Encoder.Strings.{write_string_with_len, read_string}
use tds.Encoder.Texts.{IsText, text8, text16}
use tds.Encoder.Ready.{Source, Sink, Ready}
use tds.Encoder.Reads.{
  Reads, Reads-bind, Reads-int8, Reads-int16, Reads-int32, Reads-uint8, Reads-uint16,
}
use tds.Encoder.Reads.Texts.{Reads-string8, Reads-string16}
use tds.Encoder.Writes.{
  Writes, Writes-bind, Writes-write_int8, Writes-write_int16, Writes-write_int32,
  Writes-write_uint8, Writes-write_uint16,
}
use tds.Encoder.Writes.Texts.{Writes-string8, Writes-string16}
use tds.Messages.Codec.{
  Carries, buffer_source, buffer_sink, returning, Reads-returning, Reads-last, Writes-take_err,
  Writes-last, Recovers, recovers,
}
use tds.Golang.Errors.{SybError}

module _ {S : Type 0} ⦃w : ReadWriter S⦄ where
  unfoldable pub write_message : SybError → M S (Option Error)
  write_message m = do
    write_int32 m.msg_number
    write_int8 m.state
    write_int8 m.severity
    write_string_with_len 8 m.sql_state
    write_uint8 m.has_eed
    write_uint16 m.tran_state
    write_string_with_len 16 m.message
    write_string_with_len 8 m.server
    write_string_with_len 8 m.procedure
    write_int16 m.line_number
    take_err

  unfoldable pub read_message : M S (SybError × Option Error)
  read_message = do
    msg_number ← int32
    state ← int8
    severity ← int8
    (sql_state, _) ← read_string 8
    has_eed ← uint8
    tran_state ← uint16
    (message, _) ← read_string 16
    (server, _) ← read_string 8
    (procedure, _) ← read_string 8
    line_number ← int16
    returning (record {
      msg_number = msg_number;
      state = state;
      severity = severity;
      sql_state = sql_state;
      has_eed = has_eed;
      tran_state = tran_state;
      message = message;
      server = server;
      procedure = procedure;
      line_number = line_number;
    })

-- The fields have the widths and the lengths that the source gives them.
pub record IsSqlMessage (cs : Option Charset) (m : SybError) : Type 0 where
  pub msg_number : IsInt32 m.msg_number
  pub state : IsInt8 m.state
  pub severity : IsInt8 m.severity
  pub sql_state : IsText cs (2 ^ 8) m.sql_state
  pub tran_state : m.tran_state < 2 ^ 16
  pub message : IsText cs (2 ^ 16) m.message
  pub server : IsText cs (2 ^ 8) m.server
  pub procedure : IsText cs (2 ^ 8) m.procedure
  pub line_number : IsInt16 m.line_number

-- The bytes of the message behind its token and length.
abbrev pub wire : ByteOrder → Option Charset → SybError → Bytes
wire o cs m =
    put o 4 (u32 m.msg_number)
    ++ ((u8 m.state ∷ [])
        ++ ((u8 m.severity ∷ [])
            ++ (text8 cs m.sql_state
                ++ ((m.has_eed ∷ [])
                    ++ (put o 2 m.tran_state
                        ++ (text16 o cs m.message
                            ++ (text8 cs m.server
                                ++ (text8 cs m.procedure ++ (put o 2 (u16 m.line_number))))))))))

module _ {S : Type 0} ⦃w : ReadWriter S⦄ (o : ByteOrder) (cs : Option Charset) (m : SybError) where
  pub Writes-write_message :
      (snk : Sink S) → IsSqlMessage cs m → Writes snk o cs (write_message m) (wire o cs m) none
  unfolding write_message
  Writes-write_message snk h = Writes-bind snk o cs _ (Writes-write_int32 snk o cs m.msg_number) (
      Writes-bind snk o cs _ (Writes-write_int8 snk o cs m.state) (
        Writes-bind snk o cs _ (Writes-write_int8 snk o cs m.severity) (
          Writes-bind snk o cs _ (Writes-string8 snk o cs m.sql_state h.sql_state) (
            Writes-bind snk o cs _ (Writes-write_uint8 snk o cs m.has_eed) (
              Writes-bind snk o cs _ (Writes-write_uint16 snk o cs m.tran_state) (
                Writes-bind snk o cs _ (Writes-string16 snk o cs m.message h.message) (
                  Writes-bind snk o cs _ (Writes-string8 snk o cs m.server h.server) (
                    Writes-bind snk o cs _ (Writes-string8 snk o cs m.procedure h.procedure) (
                      Writes-last snk o cs _ (Writes-write_int16 snk o cs m.line_number)
                        (Writes-take_err snk o cs))))))))))

  pub Reads-read_message :
      (src : Source S) → IsSqlMessage cs m → Reads src o cs read_message (wire o cs m) (m, none)
  unfolding read_message
  Reads-read_message src h =
      Reads-bind src o cs _ (Reads-int32 src o cs m.msg_number h.msg_number) (
        Reads-bind src o cs _ (Reads-int8 src o cs m.state h.state) (
          Reads-bind src o cs _ (Reads-int8 src o cs m.severity h.severity) (
            Reads-bind src o cs _ (Reads-string8 src o cs m.sql_state h.sql_state) (
              Reads-bind src o cs _ (Reads-uint8 src o cs m.has_eed) (
                Reads-bind src o cs _ (Reads-uint16 src o cs m.tran_state h.tran_state) (
                  Reads-bind src o cs _ (Reads-string16 src o cs m.message h.message) (
                    Reads-bind src o cs _ (Reads-string8 src o cs m.server h.server) (
                      Reads-bind src o cs _ (Reads-string8 src o cs m.procedure h.procedure) (
                        Reads-last src o cs _ (Reads-int16 src o cs m.line_number h.line_number)
                          (Reads-returning src o cs m))))))))))

-- A server message written to a buffer is read back from it unchanged, with no error and nothing left over, if
-- its fields fit their widths and its texts survive the charset and fit their lengths.
pub read-write_sql_message :
    (o : ByteOrder) (cs : Option Charset) (e : Encoder Buffer) (m : SybError)
    → Ready Carries o cs [] e
    → IsSqlMessage cs m
    → Recovers o cs (write_message m) read_message m e
read-write_sql_message o cs e m r h =
    recovers (Writes-write_message o cs m buffer_sink h) (Reads-read_message o cs m buffer_source h)
      r
