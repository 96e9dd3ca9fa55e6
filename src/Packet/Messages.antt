-- ===== src/Packet/Messages.antt =====
-- buffer.go: the messages within the packets. The encoder `pe` reads and writes through `buf`, and `me`
-- writes to the message buffer `mb`. The timeouts and the contexts are not part of this.
pub mod Skip
pub mod Sending
use tds.Base.{
  ℕ, zero, suc, ◌+◌, ◌-◌, ◌%◌, Bool, true, false, ◌&&◌, not, Option, none, some, List, [], ◌∷◌,
  ◌++◌, length, drop, replicate, Bytes, ltb, leb, ◌==◌, if◌then◌else◌,
}
use tds.Base.Int.{i8, i16, i32}
use tds.Golang.Errors.{
  Error, eof, short_write, eof_in_message, unexpected_packet, unknown_token_size,
}
use tds.Golang.Io.{read_full}
use tds.Golang.Buffer.{Buffer, buffer, holding}
use tds.Encoder.Ops.{
  Encoder, M, ◌>>=◌, ◌>>◌, pure, take_err, write_byte, write_int8, write_int16, write_int32, uint8,
  uint16, uint32, read_byte, limit_read, unlimit_read,
}
use tds.Messages.Tokens.{Msg, size_len, message_size, limits_read, new_msg}
use tds.Packet.{Buf, buf, init_pkt, send_pkt, write_packets}
use tds.Packet.Types.{normal_packet, reply_packet}

-- The two encoders of `buf` that the messages go through.
pub record Link : Type 0 where
  pub pe : Encoder Buf
  pub me : Encoder Buffer

-- A message to be written: its attributes and its Write.
pub record Outgoing : Type 0 where
  pub msg : Msg
  pub write : M Buffer (Option Error)

-- The part of `writeMsg` for the token and the length.
unfoldable pub write_token : ℕ → M Buf (Unit {0})
write_token t = if t == 0 then pure tt else write_byte t

unfoldable pub write_size : ℕ → ℕ → M Buf (Unit {0})
write_size width n =
    if width == 8
    then write_int8 (i8 n)
    else if width == 16
    then write_int16 (i16 n)
    else if width == 32
    then write_int32 (i32 n)
    else pure tt

unfoldable pub write_head : Msg → ℕ → M Buf (Option Error)
unfolding write_token write_size
write_head m n = do write_token m.token; write_size (size_len m) n; take_err

-- `b.mb.WriteTo(b)`.
unfoldable pub flush : Link → Link × Option Error
flush l =
    let bs = l.me.rw.unread in
    let r = write_packets l.pe.rw bs in
    let written = record l { pe = record (l.pe) { rw = r.state } } in
    let left = record written { me = record (l.me) { rw = holding (drop r.count bs) } } in
    if length bs == 0 then (l, none) else elim r.err [
      | some e ↦ (left, some e)
      | none ↦
          if r.count == length bs
          then (record written { me = record (l.me) { rw = holding [] } }, none)
          else (left, some short_write)
    ]

-- `writeMsg`.
unfoldable pub write_msg : Outgoing → Link → Link × Option Error
unfolding write_head flush
write_msg m l =
    let body = m.write (record (l.me) { rw = holding [] }) in
    let written = record l { me = body.1 } in
    let head = write_head m.msg (length (body.1).rw.unread) l.pe in
    let headed = record written { pe = head.1 } in
    elim body.0 [
      | some e ↦ (written, some e)
      | none ↦ elim head.0 [ some e ↦ (headed, some e) | none ↦ flush headed ]
    ]

unfoldable pub write_msgs : List Outgoing → Link → Link × Option Error
unfolding write_msg
write_msgs [] l = (l, none)
write_msgs (m ∷ ms) l =
    let r = write_msg m l in
    let rest = write_msgs ms r.0 in elim r.1 [ some e ↦ (r.0, some e) | none ↦ rest ]

-- `send`.
unfoldable pub send : ℕ → List Outgoing → Link → Link × Option Error
unfolding write_msgs
send pt ms l =
    let r = write_msgs ms (record l { pe = record (l.pe) { rw = init_pkt pt l.pe.rw } }) in
    let last = send_pkt 1 (r.0).pe.rw in
    elim r.1 [
      | some e ↦ (r.0, some e)
      | none ↦ (record (r.0) { pe = record ((r.0).pe) { rw = last.0 } }, last.1)
    ]

-- The length that `readMsg` and `skipMsg` read behind a token.
unfoldable pub read_size : ℕ → M Buf ℕ
read_size width =
    if width == 8
    then uint8
    else if width == 16
    then uint16
    else if width == 32
    then uint32
    else pure 0

-- `readMsg`: the message's own Read under the limit, if it wants one. The limit goes in any case.
unfoldable pub read_limited :
    {A : Type 0} → Bool → ℕ → M Buf (A × Option Error) → M Buf (A × Option Error)
read_limited true size read = do limit_read size; r ← read; unlimit_read; pure r
read_limited false size read = read

unfoldable pub read_msg :
    {A : Type 0} → Msg → (A → M Buf (A × Option Error)) → A → M Buf (A × Option Error)
unfolding read_size read_limited
read_msg m read old = do
  size ← read_size (size_len m)
  err ← take_err
  elim err [ some e ↦ pure (old, some e) | none ↦ read_limited (limits_read m) size (read old) ]

-- The bytes that a round of `skip` reads: the discard buffer `d` has 50.
abbrev pub skip_size : ℕ → ℕ → ℕ
skip_size cnt skipped = if ltb (cnt - skipped) 50 then cnt % 50 else 50

-- The loop of `skip`; it takes fewer rounds than there are bytes to skip, hence the fuel.
unfoldable pub skip_loop : ℕ → ℕ → ℕ → Buf → Buf × Option Error
skip_loop zero cnt skipped b = (b, none)
skip_loop (suc fuel) cnt skipped b =
    let r = read_full b (replicate (skip_size cnt skipped) 0) in
    let rest = skip_loop fuel cnt (skipped + 50) r.state in
    if ltb skipped cnt then elim r.err [ some e ↦ (r.state, some e) | none ↦ rest ] else (b, none)

unfoldable pub skip : ℕ → Buf → Buf × Option Error
unfolding skip_loop
skip cnt b =
    let r = read_full b (replicate cnt 0) in
    if cnt == 0 then (b, none) else if ltb cnt 50 then (r.state, r.err) else skip_loop cnt cnt 0 b

-- `skip` on the packets below the encoder.
abbrev pub skip_below : ℕ → M Buf (Option Error)
skip_below cnt e = let r = skip cnt e.rw in (r.1, record e { rw = r.0 })

-- `skipMsg`. An error of reading the length stays with the encoder.
unfoldable pub skip_msg : Msg → M Buf (Option Error)
unfolding read_size
skip_msg m =
    if not (message_size m == 0)
    then skip_below (message_size m)
    else if size_len m == 0
    then pure (some (unknown_token_size m.token))
    else (read_size (size_len m) >>= λ size. skip_below size)

-- What `receive` reads into, and what it calls then: the attributes and the Read of the message of a
-- token, if it is in one of the two maps, and the handler.
pub record Receiver (X : Type 0) : Type 1 where
  pub find : ℕ → Option (Msg × (X → M Buf (X × Option Error)))
  pub handler : ℕ → X → M Buf (X × Option Error)

module _ {X : Type 0} (rc : Receiver X) where
  -- A message in one of the maps is read and handled; any other is skipped.
  unfoldable pub take_message : ℕ → X → M Buf (X × Option Error)
  take_message t x = elim (rc.find t) [
    | none ↦ skip_msg (new_msg t) >>= λ err. pure (x, err)
    | some (m, read) ↦
        read_msg m read x >>= λ r. elim r.1 [ some e ↦ pure r | none ↦ rc.handler t r.0 ]
  ]

  unfoldable pub eof_error : Error → Error
  eof_error eof = eof_in_message
  eof_error e = e

  -- `receive`, with the token and the error of the state that it leaves; it goes on without an error.
  unfoldable pub receive : X → M Buf (ℕ × (X × Option Error))
  unfolding take_message eof_error
  receive x = read_byte >>= λ t. take_err >>= λ err. elim err [
    | some e ↦ pure (t, (x, some (eof_error e)))
    | none ↦ λ e.
        if not (e.rw.h.token == normal_packet) && not (e.rw.h.token == reply_packet)
        then ((t, (x, some (unexpected_packet e.rw.h.token))), e)
        else (let r = take_message t x e in ((t, r.0), r.1))
  ]
