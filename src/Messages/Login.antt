-- ===== src/Messages/Login.antt =====
-- The login message of messages.go: its Write and the texts of fixed size in it.
pub mod Wire
use tds.Base.{
  ◌+◌, ◌==◌, ◌∷◌, ℕ, suc, zero, ◌+◌, ◌-◌, ◌^◌, ◌<◌, ◌≤◌, ◌≡◌, refl, sym, ap, ◌∙◌, subst, Bool, true,
  false, Option, none, some, List, [], ◌∷◌, ◌++◌, length, take, take_all, take-append, replicate,
  length-append, length-replicate, length-take, Bytes, ltb, ltb-false, leb, if◌then◌else◌, arith,
  append_assoc,
}
use native.Mathlib.Nat.{mod-eq_of_lt}
use tds.Messages.Tokens.{capability_req_token}
use tds.Messages.Capabilities.{Capabilities, set_capabilities}
use tds.Messages.Capabilities.Defaults.{req_srvpktsize}
use tds.Base.Int.{pos_part, neg_part, ℤ, pos, negsuc, u8, i8, IsInt8}
use tds.Golang.Errors.{Error, panic}
use tds.Golang.Order.{ByteOrder}
use tds.Golang.Io.{ReadWriter}
use tds.Golang.Buffer.{Buffer, buffer}
use tds.Encoder.Ops.{
  Charset, Encoder, M, ◌>>=◌, ◌>>◌, pure, take_err, pad, read, write, write_byte, write_uint8,
  write_int8, int8,
}
use tds.Encoder.Strings.{write_string}
use tds.Encoder.Ready.{Source, Sink, Ready}
use tds.Encoder.Reads.{Reads, Reads-bind, Reads-pure, Reads-read, Reads-int8}
use tds.Encoder.Writes.{
  Writes, Writes-bind, Writes-pure, Writes-pad, Writes-write, Writes-write_byte, Writes-write_int8,
  Writes-write_uint8,
}
use tds.Encoder.Writes.Texts.{Writes-write_string}
use tds.Messages.Codec.{
  Carries, buffer_source, buffer_sink, Reads-last, Reads-take_err, Writes-take_err, Writes-last,
  Recovers, recovers,
}
use tds.Messages.Tokens.{capability_req_token}
use tds.Messages.Capabilities.{Capabilities, set_capabilities}

-- `login`, as far as Write looks at it.
pub record Login : Type 0 where
  pub client_host : Bytes
  pub user : Bytes
  pub password : Bytes
  pub app : Bytes
  pub server : Bytes
  pub protocol_version : Bytes
  pub library : Bytes
  pub library_version : Bytes
  pub language : Bytes
  pub encrypted : ℕ
  pub charset : Bytes
  pub packet_size : ℤ

-- The text of a number in base 10, and that of the process's number.
pub record Texts : Type 0 where
  pub decimal : ℤ → Bytes
  pub pid : Bytes

module _ {S : Type 0} ⦃w : ReadWriter S⦄ where
  -- `writeFixedSizeString`: the count that it returns. A negative count of bytes to pad is none.
  unfoldable pub write_fixed : Bytes → ℕ → Bool → M S ℕ
  write_fixed s size put_size = do
    written ← write_string (take size s)
    pad 0 (size - written)
    (if put_size then write_int8 (i8 written) else pure tt)
    pure written

  -- `readFixedSizeString`, where a length out of range panics.
  unfoldable pub read_fixed : ℕ → M S (Bytes × Option Error)
  read_fixed size = do
    out ← read (replicate size 0)
    real_size ← int8
    pure (elim real_size [
      | pos n ↦ if ltb size n then ([], some panic) else (take n out, none)
      | negsuc n ↦ ([], some panic)
    ])

  abbrev pub text30 : Bytes → M S ℕ
  text30 s = write_fixed s 30 true

  -- The rest of `login.Write`, behind the four texts.
  unfoldable pub write_types : M S (Unit {0})
  write_types = do
    write_int8 (pos 3)
    write_int8 (pos 1)
    write_int8 (pos 6)
    write_int8 (pos 10)
    write_int8 (pos 9)
    write_int8 (pos 1)
    write_int8 (pos 0)
    pad 0 9

  unfoldable pub write_versions : Login → M S (Unit {0})
  unfolding write_fixed
  write_versions l = do
    write_byte 0
    write_int8 (pos 0)
    n ← write_fixed [] 254 false
    n ← write l.protocol_version
    n ← write_fixed l.library 10 true
    n ← write l.library_version
    write_int8 (pos 0)
    write_int8 (pos 13)
    write_int8 (pos 17)

  unfoldable pub write_options : Texts → Login → M S (Option Error)
  unfolding write_fixed
  write_options x l = do
    n ← text30 l.language
    write_int8 (pos 1)
    pad 0 2
    write_uint8 l.encrypted
    pad 0 10
    n ← text30 l.charset
    write_int8 (pos 1)
    n ← write_fixed (x.decimal l.packet_size) 6 true
    pad 0 4
    take_err

  -- `login.Write`, but for what it does to the capabilities.
  unfoldable pub write_message : Texts → Login → M S (Option Error)
  unfolding write_types write_versions write_options
  write_message x l = do
    n ← text30 l.client_host
    n ← text30 l.user
    n ← text30 l.password
    n ← text30 x.pid
    write_types
    n ← text30 l.app
    n ← text30 l.server
    write_versions l
    write_options x l

-- What Write does to the capabilities, whose bytes the login shares with its caller: it asks the server for the size of
-- packets, if none is given. Its error is dropped.
unfoldable pub login_capabilities : Login → Capabilities → Capabilities
unfolding set_capabilities
login_capabilities l c =
    if pos_part l.packet_size + neg_part l.packet_size == 0
    then (set_capabilities capability_req_token (req_srvpktsize ∷ []) c).0
    else c
