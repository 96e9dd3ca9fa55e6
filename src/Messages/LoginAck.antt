-- ===== src/Messages/LoginAck.antt =====
-- The loginAck message of messages.go, the server's answer to a login.
use tds.Base.{◌^◌, ◌≡◌, ℕ, Option, none, ◌++◌, [], ◌∷◌, Bytes, arith, length}
use tds.Base.Int.{ℤ}
use tds.Golang.Errors.{Error}
use tds.Golang.Order.{ByteOrder}
use tds.Golang.Io.{ReadWriter}
use tds.Golang.Buffer.{Buffer, buffer}
use tds.Encoder.Ops.{Charset, Encoder, M, ◌>>=◌, ◌>>◌, take_err, write, read, write_byte, int8}
use tds.Encoder.Strings.{write_string_with_len, read_string}
use tds.Encoder.Texts.{IsText, text8}
use tds.Encoder.Ready.{Source, Sink, Ready}
use tds.Encoder.Reads.{Reads, Reads-bind, Reads-read, Reads-int8}
use tds.Encoder.Reads.Texts.{Reads-string8}
use tds.Encoder.Writes.{Writes, Writes-bind, Writes-write, Writes-write_byte}
use tds.Encoder.Writes.Texts.{Writes-string8}
use tds.Messages.Codec.{
  Carries, buffer_source, buffer_sink, returning, Reads-returning, Reads-last, Writes-take_err,
  Writes-last, Recovers, recovers,
}
use tds.Base.Int.{pos}

pub record LoginAck : Type 0 where
  pub ack : ℤ
  pub tds_version : Bytes
  pub server : Bytes
  pub server_version : Bytes

abbrev pub login_success : ℕ
login_success = 5

module _ {S : Type 0} ⦃w : ReadWriter S⦄ where
  -- Whatever `ack` is, success is written.
  unfoldable pub write_message : LoginAck → M S (Option Error)
  write_message m = do
    write_byte login_success
    _ ← write m.tds_version
    write_string_with_len 8 m.server
    _ ← write m.server_version
    take_err

  -- The versions are arrays, which are read over.
  unfoldable pub read_message : LoginAck → M S (LoginAck × Option Error)
  read_message old = do
    ack ← int8
    tds_version ← read old.tds_version
    (server, _) ← read_string 8
    server_version ← read old.server_version
    returning (record {
      ack = ack;
      tds_version = tds_version;
      server = server;
      server_version = server_version;
    })

-- The versions are arrays of four bytes, and the server's name survives the charset.
pub record IsLoginAck (cs : Option Charset) (m : LoginAck) : Type 0 where
  pub tds_version : length m.tds_version ≡ 4
  pub server : IsText cs (2 ^ 8) m.server
  pub server_version : length m.server_version ≡ 4

-- What reading gives: a login that succeeded.
abbrev pub received : LoginAck → LoginAck
received m = record m { ack = pos login_success }

-- The bytes of the message behind its token and length.
abbrev pub wire : Option Charset → LoginAck → Bytes
wire cs m = (login_success ∷ []) ++ (m.tds_version ++ (text8 cs m.server ++ m.server_version))

module _ {S : Type 0} ⦃w : ReadWriter S⦄ (o : ByteOrder) (cs : Option Charset) (m : LoginAck) where
  pub Writes-write_message :
      (snk : Sink S) → IsLoginAck cs m → Writes snk o cs (write_message m) (wire cs m) none
  unfolding write_message
  Writes-write_message snk h = Writes-bind snk o cs _ (Writes-write_byte snk o cs login_success) (
      Writes-bind snk o cs _ (Writes-write snk o cs m.tds_version) (
        Writes-bind snk o cs _ (Writes-string8 snk o cs m.server h.server) (
          Writes-last snk o cs _ (Writes-write snk o cs m.server_version)
            (Writes-take_err snk o cs))))

  pub Reads-read_message :
      (src : Source S) (old : LoginAck)
      → IsLoginAck cs m
      → IsLoginAck cs old
      → Reads src o cs (read_message old) (wire cs m) (received m, none)
  unfolding read_message
  Reads-read_message src old h k =
      Reads-bind src o cs _ (Reads-int8 src o cs (pos login_success) (omega arith)) (
        Reads-bind src o cs _
          (Reads-read src o cs m.tds_version old.tds_version
            (omega (arith, h.tds_version, k.tds_version)))
          (Reads-bind src o cs _ (Reads-string8 src o cs m.server h.server) (
            Reads-last src o cs _
              (Reads-read src o cs m.server_version old.server_version
                (omega (arith, h.server_version, k.server_version)))
              (Reads-returning src o cs (received m)))))

-- A login acknowledgement written to a buffer is read back from it with its versions and its server's
-- name, and with the success code, which is written whatever its own code is. There is no error and
-- nothing left over, if the versions of it and of the acknowledgement that is read into have four bytes each,
-- and the servers' names survive the charset and fit their lengths.
read-write_login_ack :
    (o : ByteOrder) (cs : Option Charset) (e : Encoder Buffer) (old m : LoginAck)
    → Ready Carries o cs [] e
    → IsLoginAck cs m
    → IsLoginAck cs old
    → Recovers o cs (write_message m) (read_message old) (received m) e
read-write_login_ack o cs e old m r h k =
    recovers (Writes-write_message o cs m buffer_sink h)
      (Reads-read_message o cs m buffer_source old h k) r
