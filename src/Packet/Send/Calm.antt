-- ===== src/Packet/Send/Calm.antt =====
-- Sending a packet while no cancellation is pending: it is stamped with its status and length, and
-- written whole.
use tds.Base.{
  ℕ, ◌+◌, ◌^◌, ◌%◌, ◌<◌, ◌≤◌, ◌≡◌, ap, ◌∙◌, false, none, [], ◌∷◌, ◌++◌, length, set, take, drop,
  arith, Bytes, ltb-false,
}
use native.Mathlib.Nat.{mod-eq_of_lt}
use tds.Golang.Order.{big_endian, put}
use tds.Packet.{Buf, pb_of, conn_of, with_pb, with_conn, init_pkt, send_pkt, transmit, write_to}
use tds.Packet.Head.{Header}
use tds.Packet.Frames.{header_bytes}
use tds.Packet.Send.{write_to-all}

-- The bytes of a packet with its status and its length in the header.
abbrev stamped : ℕ → Bytes → Bytes
stamped status bs =
    let p = set bs 1 status in take 2 p ++ (put big_endian 2 (length p % 2 ^ 16) ++ drop 4 p)

-- The header of a packet that is sent.
abbrev pub sent_head : ℕ → ℕ → Header → Header
sent_head status n h = record h { status = status; packet_size = n }

pub length-header_bytes : (h : Header) (p : Bytes) → length (header_bytes h ++ p) ≡ 8 + length p
unfolding put
length-header_bytes h p = omega arith

stamped_lem :
    (status : ℕ) (h : Header) (p : Bytes)
    → 8 + length p < 2 ^ 16
    → stamped status (header_bytes h ++ p) ≡ header_bytes (sent_head status (8 + length p) h) ++ p
unfolding put
stamped_lem status h p small =
    let marked = record h { status = status } in
    let size : length (header_bytes marked ++ p) % 2 ^ 16 ≡ 8 + length p =
      ap (λ k. k % 2 ^ 16) (length-header_bytes marked p) ∙ mod-eq_of_lt small in
    rw size

-- The connection after one more slice was written.
abbrev pub wrote : Bytes → Buf → Buf
wrote packet b =
    with_pb [] (with_conn (record (conn_of b) { writes = (conn_of b).writes ++ packet ∷ [] }) b)

abbrev still : Buf → Buf
still b = record b { in_cancel = false }

module _ (b : Buf) (works : (conn_of b).failure ≡ none) (calm : b.in_cancel ≡ false) (h : Header)
    (p : Bytes) (held : pb_of b ≡ header_bytes h ++ p) (small : 8 + length p < 2 ^ 16) where
  room : 4 ≤ length (pb_of b)
  room = omega (arith, ap length held, length-header_bytes h p)

  packet_written :
      (status : ℕ)
      → write_to (with_pb (stamped status (pb_of b)) (still b))
        ≡ (wrote (header_bytes (sent_head status (8 + length p) h) ++ p) (still b), none)
  packet_written status =
      let packet = header_bytes (sent_head status (8 + length p) h) ++ p in
      let stamp : stamped status (pb_of b) ≡ packet =
        ap (stamped status) held ∙ stamped_lem status h p small in
      ap (λ q. write_to (with_pb q (still b))) stamp
      ∙ write_to-all (with_pb packet (still b)) works (omega arith)

  pub send_pkt-more :
      send_pkt 0 b
      ≡ (init_pkt b.h.token (wrote (header_bytes (sent_head 0 (8 + length p) h) ++ p) b), none)
  unfolding send_pkt transmit
  send_pkt-more = rw (ltb-false (length (pb_of b)) 4 room, calm, packet_written 0)

  pub send_pkt-last :
      send_pkt 1 b ≡ (wrote (header_bytes (sent_head 1 (8 + length p) h) ++ p) b, none)
  unfolding send_pkt transmit
  send_pkt-last = rw (ltb-false (length (pb_of b)) 4 room, calm, packet_written 1)
