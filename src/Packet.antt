-- ===== src/Packet.antt =====
-- buffer.go: the packets that carry the messages. The state is `buf`: its packet buffer `pb` and the
-- connection `rw` are the two sides of the header encoder `he`. `pe_order` is the byte order of the
-- encoder `pe`, which reads and writes through `buf`. `cancel_ch` holds what is in the channel.
pub mod Conn
pub mod Head
pub mod Types
pub mod Frames
pub mod Receive
pub mod Send
pub mod Messages
use tds.Base.{
  ℕ, zero, suc, ◌+◌, ◌-◌, ◌%◌, ◌^◌, Bool, true, false, ◌&&◌, not, Option, none, some, List, [], ◌∷◌,
  ◌++◌, length, take, drop, get_or, set, replicate, bit_and, bit_or, Bytes, ltb, leb, ◌==◌,
  if◌then◌else◌,
}
use tds.Golang.Errors.{
  Error, eof, unexpected_eof, short_write, panic, blocked, diverges, unexpected_cancel_packet,
  not_acknowledged,
}
use tds.Golang.Order.{ByteOrder, big_endian, put, get}
use tds.Golang.Io.{Reading, Writing, ReadWriter, read_full, copy_n}
use tds.Golang.Buffer.{Buffer, buffer, holding}
use tds.Encoder.Ops.{Encoder}
use tds.Messages.Tokens.{has_flag}
use Conn.{Net, net}
use Head.{Header, header_size, read_header, write_header}
use Types.{eom, cancel_ack, cancel, done_cancel, normal_packet, reply_packet}

-- The struct of b.rw and &b.pb that `he` is made over: it reads the one and writes the other.
pub record Wire : Type 0 where
  pub conn : Net
  pub pb : Buffer

instance abbrev pub wire : ReadWriter Wire
wire = record {
  read = λ s k.
      let r = net.read s.conn k in
      record { state = record s { conn = r.state }; bytes = r.bytes; count = r.count; err = r.err };
  write = λ s p.
      let r = buffer.write s.pb p in
      record { state = record s { pb = r.state }; count = r.count; err = r.err };
  rounds = λ s. net.rounds s.conn;
}

pub record Buf : Type 0 where
  pub he : Encoder Wire
  pub h : Header
  pub packet_size : ℕ
  pub pe_order : ByteOrder
  pub in_cancel : Bool
  pub cancel_ch : List (Option Error)

-- `b.pb`'s bytes and `b.rw`.
abbrev pub pb_of : Buf → Bytes
pb_of b = b.he.rw.pb.unread

abbrev pub conn_of : Buf → Net
conn_of b = b.he.rw.conn

abbrev pub with_pb : Bytes → Buf → Buf
with_pb bs b = record b { he = record (b.he) { rw = record (b.he.rw) { pb = holding bs } } }

abbrev pub with_conn : Net → Buf → Buf
with_conn c b = record b { he = record (b.he) { rw = record (b.he.rw) { conn = c } } }

abbrev pub with_status : ℕ → Buf → Buf
with_status status b = record b { h = record (b.h) { status = status } }

-- `initPkt`.
unfoldable pub init_pkt : ℕ → Buf → Buf
init_pkt t b =
    let c = with_pb [] (record b { h = record (b.h) { token = t; status = 0 } }) in
    record c { he = (write_header c.h c.he).1 }

-- The rest of `readPkt(true)` behind the header, with the error of reading it.
unfoldable pub fill_pkt : Buf → Option Error → Buf × Option Error
fill_pkt b (some e) = (b, some e)
fill_pkt b none =
    let n = copy_n 512 (conn_of b) (b.h.packet_size - header_size) in
    (with_pb (pb_of b ++ n.bytes) (with_conn n.state b), n.err)

-- `readPkt(true)`.
unfoldable pub read_pkt_ignoring : Buf → Buf × Option Error
unfolding fill_pkt
read_pkt_ignoring b =
    let r = read_header (with_pb [] b).he in fill_pkt (record b { he = r.1; h = r.0.0 }) r.0.1

-- The loop of `processCancel`, which ignores the errors of `readPkt`; `none` if the last packet
-- has not been read within the rounds.
unfoldable pub read_until_last : ℕ → Buf → Option Buf
read_until_last zero b = if has_flag b.h.status eom then some b else none
read_until_last (suc fuel) b =
    let rest = read_until_last fuel (read_pkt_ignoring b).0 in
    if has_flag b.h.status eom then some b else rest

-- `b.skip(b.pb.Len() - 9)`, then the test of the done message at the end of the packet: the bytes
-- are in `pb`, so they are taken from there, with the byte order of `pe`; an error or a limit that `pe` has is left out.
unfoldable pub find_cancel_ack : Option Error → Buf → Buf × Option Error
find_cancel_ack cancel_err b =
    let last = drop (length (pb_of b) - 9) (pb_of b) in
    if ltb (length (pb_of b)) 9
    then (b, some panic)
    else if not (get_or last 0 0 == 0xfd)
    then (with_pb (drop 1 last) b, some not_acknowledged)
    else (
      with_pb (drop 3 last) b,
      if has_flag (get b.pe_order (take 2 (drop 1 last))) done_cancel
          then cancel_err
          else some not_acknowledged,
    )

-- The switch of `processCancel` on the type of the last packet.
unfoldable pub check_cancel_ack : Option Error → Buf → Buf × Option Error
check_cancel_ack cancel_err b =
    if b.h.token == normal_packet
    then (b, if has_flag b.h.status cancel_ack then cancel_err else some not_acknowledged)
    else if b.h.token == reply_packet
    then find_cancel_ack cancel_err b
    else (b, some (unexpected_cancel_packet b.h.token))

-- `processCancel`. Each packet that is read takes eight bytes of the input at least, hence the fuel.
unfoldable pub process_cancel : Buf → Buf × Option Error
process_cancel b = elim b.cancel_ch [
  | [] ↦ (b, some blocked)
  | cancel_err ∷ rest ↦
      let c = record b { cancel_ch = rest } in
      elim (read_until_last (length (conn_of c).input + 1) c) [
        | none ↦ (c, some diverges)
        | some d ↦
            let r = check_cancel_ack cancel_err d in (record (r.0) { in_cancel = false }, r.1)
      ]
]

-- `readPkt(false)`.
unfoldable pub read_pkt : Buf → Buf × Option Error
read_pkt b =
    let r = read_pkt_ignoring b in
    elim r.1 [
      | some e ↦ (r.0, some e)
      | none ↦ if (r.0).in_cancel then process_cancel r.0 else (r.0, none)
    ]

-- `b.pb.WriteTo(b.rw)`: the buffer is emptied only if the whole of it was written.
unfoldable pub write_to : Buf → Buf × Option Error
write_to b =
    let bs = pb_of b in
    let r = net.write (conn_of b) bs in
    if length bs == 0 then (b, none) else elim r.err [
      | some e ↦ (with_pb (drop r.count bs) (with_conn r.state b), some e)
      | none ↦
          if r.count == length bs
          then (with_pb [] (with_conn r.state b), none)
          else (with_pb (drop r.count bs) (with_conn r.state b), some short_write)
    ]

-- `b.pb.Bytes()[1] = status`, and the length in the two bytes behind it.
abbrev pub put_status : ℕ → Buf → Buf
put_status status b = with_pb (set (pb_of b) 1 status) b

abbrev pub put_length : Buf → Buf
put_length b =
    with_pb (take 2 (pb_of b) ++ (put big_endian 2 (length (pb_of b) % 2 ^ 16) ++ drop 4 (pb_of b)))
      b

-- The part of `sendPkt` behind the test for a packet to discard.
unfoldable pub transmit : ℕ → Buf → Buf × Option Error
transmit status b =
    let c =
      if b.in_cancel
      then put_status (bit_or eom cancel) (with_status (bit_or b.h.status cancel) b)
      else b in
    let r = write_to (put_length c) in
    if not (has_flag status eom)
    then (init_pkt (r.0).h.token r.0, r.1)
    else if (r.0).in_cancel
    then process_cancel (with_status 0 r.0)
    else r

-- `sendPkt`. A packet buffer without a header makes the accesses to its bytes panic.
unfoldable pub send_pkt : ℕ → Buf → Buf × Option Error
send_pkt status b =
    let c = put_status status b in
    if ltb (length (pb_of b)) 4
    then (b, some panic)
    else if b.in_cancel && (bit_and b.h.status cancel == cancel && not (bit_and status eom == eom))
    then (c, none)
    else transmit status c

-- `readPkt(false)` within `Read`, with what it returned.
abbrev pub next_packet : Bytes → ℕ → Buf × Option Error → Reading Buf
next_packet stored n (d, some e) = record { state = d; bytes = stored; count = 0; err = some e }
next_packet stored n (d, none) = record { state = d; bytes = stored; count = n; err = none }

-- `Read` behind io.ReadFull(&b.pb, buf), which stored n bytes and returned the error.
unfoldable pub after_read : Buf → Bytes → ℕ → Option Error → Reading Buf
after_read b stored n (some unexpected_eof) = next_packet stored n (read_pkt b)
after_read b stored n (some eof) = next_packet stored n (read_pkt b)
after_read b stored n other =
    if n == 0 && b.h.status == 1
    then record { state = b; bytes = stored; count = 0; err = some eof }
    else record { state = b; bytes = stored; count = n; err = other }

-- `Read` into a slice of k bytes.
unfoldable pub read_packets : Buf → ℕ → Reading Buf
unfolding after_read
read_packets b k =
    let r = read_full (holding (pb_of b)) (replicate k 0) in
    after_read (with_pb r.state.unread b) (take r.count r.bytes) r.count r.err

-- `Write` behind a call of `sendPkt`, when n bytes were copied: `rest` is what the next rounds return.
unfoldable pub after_flush : ℕ → Buf × Option Error → Writing Buf → Writing Buf
after_flush n (d, some e) rest = record { state = d; count = n; err = some e }
after_flush n (d, none) rest = rest

-- The loop of `Write`, with the bytes copied so far. The first round may copy none, every later
-- one copies a byte if a packet has room for one, hence the fuel.
unfoldable pub write_loop : ℕ → Bytes → ℕ → Buf → Writing Buf
unfolding after_flush
write_loop zero p copied b = record { state = b; count = copied; err = some diverges }
write_loop (suc fuel) p copied b =
    let remaining = b.packet_size - length (pb_of b) in
    let n = if leb remaining (length p) then remaining else length p in
    let c = with_pb (pb_of b ++ take n p) b in
    let sent = send_pkt 0 c in
    let rest = write_loop fuel (drop n p) (copied + n) sent.0 in
    if ltb b.packet_size (length (pb_of b))
    then record { state = b; count = 0; err = some panic }
    else if length (drop n p) == 0
    then record { state = c; count = copied + n; err = none }
    else after_flush (copied + n) sent rest

unfoldable pub write_packets : Buf → Bytes → Writing Buf
write_packets b p = write_loop (length p + 2) p 0 b

-- An empty packet gives a round with no byte, and takes eight bytes of the input.
instance abbrev pub buf : ReadWriter Buf
buf = record { read = read_packets; write = write_packets; rounds = λ b. length (conn_of b).input }
