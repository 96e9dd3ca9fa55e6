-- ===== src/Packet/Receive.antt =====
-- Reading through the packets: wherever they are cut, their payloads are read in order.
pub mod Through
pub mod Cancelled
pub mod ServerMessage
use tds.Base.{
  ℕ, zero, suc, ◌+◌, ◌-◌, ◌^◌, ◌<◌, ◌≤◌, ◌≡◌, refl, sym, ap, ◌∙◌, subst, Bool, true, false, Option,
  none, some, List, [], ◌∷◌, ◌++◌, length, take, drop, append_assoc, append-nil, length-append,
  arith, Bytes, All, replicate,
}
use tds.Golang.Errors.{Error}
use tds.Golang.Order.{big_endian, put, length-put}
use tds.Golang.Io.{Reading, copy_n}
use tds.Golang.Buffer.{Buffer, holding}
use tds.Encoder.Ops.{Charset, Encoder}
use tds.Encoder.Ready.{Ready, Source}
use tds.Packet.{
  Wire, wire, Buf, pb_of, conn_of, with_pb, with_conn, fill_pkt, read_pkt_ignoring, read_pkt,
}
use tds.Packet.Conn.{Net}
use tds.Packet.Head.{Header, header_size, read_header}
use tds.Packet.Frames.{
  Frame, header_bytes, stream, IsFrame, giving, wired, wire_source, Reads-read_header, copy_n-net,
}

-- The packets `fs` are to come, no cancellation is pending, and the header encoder is in order.
pub record Awaits (b : Buf) (fs : List Frame) : Type 0 where
  pub input : (conn_of b).input ≡ stream fs
  pub frames : All IsFrame fs
  pub calm : b.in_cancel ≡ false
  pub no_error : b.he.err ≡ none
  pub unlimited : b.he.limit ≡ none
  pub order : b.he.endianness ≡ big_endian
  pub scratch : length b.he.sbuf ≡ 8

fill_pkt-none :
    (b : Buf) (c : Net) (bs rest : Bytes)
    → conn_of b ≡ giving c (bs ++ rest)
    → pb_of b ≡ []
    → b.h.packet_size ≡ header_size + length bs
    → fill_pkt b none ≡ (with_pb bs (with_conn (giving c rest) b), none)
unfolding fill_pkt
fill_pkt-none b c bs rest conn empty size =
    let left : b.h.packet_size - header_size ≡ length bs = omega (arith, size) in
    rw (conn, left, copy_n-net bs rest c, empty)

header_ready :
    (b : Buf) (f : Frame) (fs : List Frame)
    → Awaits b (f ∷ fs)
    → Ready
        (wire_source (conn_of b) (holding [])).Holds
        big_endian
        b.he.charset
        (header_bytes f.head ++ (f.payload ++ stream fs))
        (with_pb [] b).he
header_ready b f fs a = record {
  holds = λ i. record { conn = record (conn_of b) { input = a.input i }; pb = holding [] };
  no_error = a.no_error;
  unlimited = a.unlimited;
  order = a.order;
  same_charset = refl;
  scratch = a.scratch;
}

-- Reading a packet takes its header off the input and leaves its payload in the packet buffer.
pub read_pkt-Awaits :
    (b : Buf) (f : Frame) (fs : List Frame)
    → Awaits b (f ∷ fs)
    → (d : Buf) × (read_pkt_ignoring b ≡ (d, none))
      × (pb_of d ≡ f.payload)
      × Awaits d fs
      × (d.h ≡ f.head)
      × (d.packet_size ≡ b.packet_size)
unfolding read_pkt_ignoring
read_pkt-Awaits b f fs a =
    let frame = a.frames.0 in
    let reads =
      Reads-read_header (conn_of b) (holding []) b.he.charset f.head frame.small frame.spid in
    let (same, after) =
      reads.run (with_pb [] b).he (f.payload ++ stream fs) (header_ready b f fs a) in
    let he = (read_header (with_pb [] b).he).1 in
    let c = record b { he = he; h = f.head } in
    (
      with_pb f.payload (with_conn (giving (conn_of b) (stream fs)) c),
      rw same (
          fill_pkt-none c (conn_of b) f.payload (stream fs) (ap (λ (s : Wire). s.conn) after.holds)
            (ap (λ (s : Wire). s.pb.unread) after.holds) frame.size),
      refl,
      record {
        input = refl;
        frames = a.frames.1;
        calm = a.calm;
        no_error = after.no_error;
        unlimited = after.unlimited;
        order = after.order;
        scratch = after.scratch;
      },
      refl,
      refl,
    )

pub read_pkt-calm :
    (b d : Buf) → read_pkt_ignoring b ≡ (d, none) → d.in_cancel ≡ false → read_pkt b ≡ (d, none)
unfolding read_pkt
read_pkt-calm b d e calm = ground (arith, e)
