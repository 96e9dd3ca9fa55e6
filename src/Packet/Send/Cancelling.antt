-- ===== src/Packet/Send/Cancelling.antt =====
-- Sending packets while a cancellation is pending: sendPkt of buffer.go.
use tds.Base.{
  ◌+◌, ◌^◌, ◌%◌, ◌<◌, ◌≤◌, ◌≡◌, refl, ap, ◌∙◌, true, none, [], ◌∷◌, ◌++◌, length, set, take, drop,
  arith, Bytes, ltb-false,
}
use native.Mathlib.Nat.{mod-eq_of_lt}
use tds.Golang.Order.{big_endian, put}
use tds.Packet.{Buf, pb_of, conn_of, with_pb, with_status, init_pkt, send_pkt, transmit, write_to}
use tds.Packet.Conn.{Net}
use tds.Packet.Head.{Header}
use tds.Packet.Frames.{Frame, header_bytes, frame_bytes}
use tds.Packet.Send.{HeadersWork, init_pkt_lem, init_pkt-status, write_to-all}
use tds.Packet.Send.Calm.{wrote, length-header_bytes}

-- The packet buffer holds a header and `held` while a cancellation is pending, the status that the buffer keeps
-- is 0, the length fits its field, the header encoder works and the connection takes what is written.
pub record Cancels (head : Header) (held : Bytes) (b : Buf) : Type 0 where
  pub begun : pb_of b ≡ header_bytes head ++ held
  pub small : 8 + length held < 2 ^ 16
  pub works : (conn_of b).failure ≡ none
  pub pending : b.in_cancel ≡ true
  pub fresh : b.h.status ≡ 0
  pub headers : HeadersWork b

-- A packet that asks for a cancellation, and is the last of its message.
abbrev pub cancel_frame : Header → Bytes → Frame
cancel_frame head held = record {
  head = record head { status = 3; packet_size = 8 + length held };
  payload = held;
}

-- What sendPkt makes of the bytes of the packet buffer.
abbrev cancelled : Bytes → Bytes
cancelled bs =
    let p = set (set bs 1 0) 1 3 in take 2 p ++ (put big_endian 2 (length p % 2 ^ 16) ++ drop 4 p)

cancelled_lem :
    (h : Header) (p : Bytes)
    → 8 + length p < 2 ^ 16
    → cancelled (header_bytes h ++ p) ≡ frame_bytes (cancel_frame h p)
unfolding put
cancelled_lem h p small =
    let marked = record h { status = 3 } in
    let size : length (header_bytes marked ++ p) % 2 ^ 16 ≡ 8 + length p =
      ap (λ k. k % 2 ^ 16) (length-header_bytes marked p) ∙ mod-eq_of_lt small in
    rw size

-- The state after the packet was written.
abbrev written : Bytes → Buf → Buf
written packet b = wrote packet (record (with_status 3 b) { in_cancel = true })

send_pkt-written :
    (head : Header) (held : Bytes) (b : Buf)
    → Cancels head held b
    → send_pkt 0 b ≡ (init_pkt b.h.token (written (frame_bytes (cancel_frame head held)) b), none)
unfolding send_pkt transmit
send_pkt-written head held b g =
    let room : 4 ≤ length (pb_of b) =
      omega (arith, ap length g.begun, length-header_bytes head held) in
    let packet = frame_bytes (cancel_frame head held) in
    let about = record (with_status 3 b) { in_cancel = true } in
    let stamp : cancelled (pb_of b) ≡ packet =
      ap cancelled g.begun ∙ cancelled_lem head held g.small in
    let sent : write_to (with_pb (cancelled (pb_of b)) about) ≡ (written packet b, none) =
      ap (λ q. write_to (with_pb q about)) stamp
      ∙ write_to-all (with_pb packet about) g.works (omega arith) in
    rw (ltb-false (length (pb_of b)) 4 room, g.pending, g.fresh, sent)

-- While a cancellation is pending, sending a packet that is not the last writes one more slice to the connection and
-- reports no error: the packet, with its payload unchanged, its length in its header, and the bits of a cancellation and
-- of the end of a message as its status. The buffer then holds the header of the next packet and keeps a status of 0, so that
-- with any payload behind that header it is again as it was before: the next packet is not discarded either, but written in the
-- same way. It is shown for a buffer that holds a header and a payload, keeps a status of 0, and whose connection and header
-- encoder work, and for payloads whose packet's length fits the length field.
pub send_pkt-cancelling :
    (head : Header) (held more : Bytes) (b : Buf)
    → Cancels head held b
    → 8 + length more < 2 ^ 16
    → let t = (send_pkt 0 b).0 in
      ((send_pkt 0 b).1 ≡ none)
      × ((conn_of t).writes ≡ (conn_of b).writes ++ frame_bytes (cancel_frame head held) ∷ [])
      × Cancels (record (b.h) { status = 0 }) more (with_pb (pb_of t ++ more) t)
send_pkt-cancelling head held more b g small =
    let w = written (frame_bytes (cancel_frame head held)) b in
    let t = init_pkt b.h.token w in
    let works : HeadersWork w = record {
      no_error = g.headers.no_error;
      unlimited = g.headers.unlimited;
      order = g.headers.order;
      scratch = g.headers.scratch;
    } in
    let (headers, conn, pb) = init_pkt_lem b.h.token w works in
    let next : Cancels (record (b.h) { status = 0 }) more (with_pb (pb_of t ++ more) t) = record {
      begun = ap (λ q. q ++ more) pb;
      small = small;
      works = ap (λ (c : Net). c.failure) conn ∙ g.works;
      pending = unfold init_pkt in refl;
      fresh = init_pkt-status b.h.token w;
      headers = record {
        no_error = headers.no_error;
        unlimited = headers.unlimited;
        order = headers.order;
        scratch = headers.scratch;
      };
    } in
    rw (send_pkt-written head held b g) (refl, ap (λ (c : Net). c.writes) conn, next)
