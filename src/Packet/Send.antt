-- ===== src/Packet/Send.antt =====
-- Sending packets: the parts of sendPkt and initPkt of buffer.go that do not depend on a cancellation.
pub mod Calm
pub mod Cancelling
pub mod Filling
pub mod Delivery
use tds.Base.{
  ℕ, ◌^◌, ◌%◌, ◌<◌, ◌≤◌, ◌≡◌, refl, ap, ◌∙◌, true, Option, none, [], ◌∷◌, ◌++◌, length, get_or, set,
  take, drop, arith, Bytes, ltb-false,
}
use tds.Golang.Errors.{Error}
use tds.Golang.Order.{big_endian, put}
use tds.Golang.Buffer.{buffer, holding}
use tds.Encoder.Ops.{Charset}
use tds.Encoder.Ready.{Sink}
use tds.Encoder.Writes.{
  Writes, Writes-bind, Writes-write_byte, Writes-write_uint8, Writes-write_uint16,
}
use tds.Messages.Codec.{Writes-last, Writes-take_err}
use tds.Packet.{
  Wire, wire, Buf, pb_of, conn_of, with_pb, with_conn, with_status, init_pkt, send_pkt, transmit,
  write_to,
}
use tds.Packet.Conn.{Net}
use tds.Packet.Head.{Header, write_header}
use tds.Packet.Frames.{header_bytes}

-- The header encoder writes to the packet buffer and leaves the connection `c` alone.
abbrev pb_sink : Net → Sink Wire
pb_sink c = record {
  Holds = λ s bs. s ≡ record { conn = c; pb = holding bs };
  write_lem = λ s bs p holds. (record { conn = c; pb = holding (bs ++ p) }, rw holds refl, refl);
}

Writes-write_header :
    (c : Net) (cs : Option Charset) (h : Header)
    → Writes (pb_sink c) big_endian cs (write_header h) (header_bytes h) none
unfolding write_header
Writes-write_header c cs h =
    Writes-bind (pb_sink c) big_endian cs _ (Writes-write_byte (pb_sink c) big_endian cs h.token) (
      Writes-bind (pb_sink c) big_endian cs _ (Writes-write_byte (pb_sink c) big_endian cs h.status)
        (Writes-bind (pb_sink c) big_endian cs _
          (Writes-write_uint16 (pb_sink c) big_endian cs h.packet_size)
          (Writes-bind (pb_sink c) big_endian cs _
            (Writes-write_uint16 (pb_sink c) big_endian cs h.spid)
            (Writes-bind (pb_sink c) big_endian cs _
              (Writes-write_uint8 (pb_sink c) big_endian cs h.packet_no)
              (Writes-last (pb_sink c) big_endian cs _
                (Writes-write_uint8 (pb_sink c) big_endian cs h.pad)
                (Writes-take_err (pb_sink c) big_endian cs))))))

-- The header encoder has no error and no limit.
pub record HeadersWork (b : Buf) : Type 0 where
  pub no_error : b.he.err ≡ none
  pub unlimited : b.he.limit ≡ none
  pub order : b.he.endianness ≡ big_endian
  pub scratch : length b.he.sbuf ≡ 8

-- What initPkt does: the packet buffer holds the header, the connection is as it was, and the header
-- encoder still works.
pub init_pkt_lem :
    (t : ℕ) (b : Buf)
    → HeadersWork b
    → HeadersWork (init_pkt t b)
      × (conn_of (init_pkt t b) ≡ conn_of b)
      × (pb_of (init_pkt t b) ≡ header_bytes (record (b.h) { token = t; status = 0 }))
unfolding init_pkt
init_pkt_lem t b w =
    let c = with_pb [] (record b { h = record (b.h) { token = t; status = 0 } }) in
    let (_, after) = (Writes-write_header (conn_of b) b.he.charset c.h).run c.he [] (record {
      holds = refl;
      no_error = w.no_error;
      unlimited = w.unlimited;
      order = w.order;
      same_charset = refl;
      scratch = w.scratch;
    }) in
    (
      record {
        no_error = after.no_error;
        unlimited = after.unlimited;
        order = after.order;
        scratch = after.scratch;
      },
      ap (λ (s : Wire). s.conn) after.holds,
      ap (λ (s : Wire). s.pb.unread) after.holds,
    )

pub init_pkt-status : (t : ℕ) (b : Buf) → (init_pkt t b).h.status ≡ 0
unfolding init_pkt
init_pkt-status t b = refl

pub write_to-all :
    (b : Buf)
    → (conn_of b).failure ≡ none
    → 0 < length (pb_of b)
    → write_to b ≡ (
      with_pb [] (with_conn (record (conn_of b) { writes = (conn_of b).writes ++ pb_of b ∷ [] }) b),
      none,
    )
unfolding write_to
write_to-all b works some_bytes = ground (arith, works)
