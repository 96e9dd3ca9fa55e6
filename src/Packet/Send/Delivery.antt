-- ===== src/Packet/Send/Delivery.antt =====
-- From one `buf` to another: what the packets of the one carry is read from them by the other.
use tds.Base.{
  ℕ, ◌+◌, ◌-◌, ◌<◌, ◌≡◌, refl, sym, ap, ◌∙◌, subst, false, Option, none, List, [], ◌∷◌, ◌++◌,
  length, map, append_assoc, arith, Bytes, All,
}
use tds.Golang.Errors.{Error}
use tds.Golang.Order.{big_endian}
use tds.Golang.Io.{Writing, read_full}
use tds.Encoder.Ready.{Sink}
use tds.Packet.{Buf, buf, pb_of, conn_of, send_pkt, write_loop, write_packets}
use tds.Packet.Frames.{Frame, header_bytes, frame_bytes, stream, payloads, IsFrame}
use tds.Packet.Receive.Through.{Carrying, read_full-packets}
use tds.Packet.Send.Calm.{send_pkt-last}
use tds.Packet.Send.Filling.{
  Filling, IsFull, Wrote, write_loop-Filling, packet, packet-IsFrame, payloads-snoc, map-snoc,
  Filling-fits,
}

-- Write takes all that it is given, and cuts it into full packets: the payloads of the packets that were
-- written and what the packet buffer holds are the bytes given so far, in order. Every packet written is as long as
-- a packet may be, with its length in its header and no bit in its status, and the loop ends, without an error. The
-- buffer is one that began a packet and was given `bs` in this way: its packet size is above 8 and below 2^16, its
-- packet buffer starts with a header, whose channel fits two bytes, and holds no more than a packet, its connection does not fail, its header encoder has
-- no error and no limit and is big endian, and no cancellation is pending.
pub write_packets-Filling :
    (size : ℕ) (before : List Bytes) (b : Buf) (bs p : Bytes)
    → Filling size before b bs
    → Wrote size before (bs ++ p) (length p) (write_packets b p)
unfolding write_packets
write_packets-Filling size before b bs p g =
    let enough : length p + (1 + length (pb_of b) - b.packet_size) < length p + 2 =
      omega (arith, Filling-fits g) in
    subst (λ k. Wrote size before (bs ++ p) k (write_loop (length p + 2) p 0 b)) (omega arith)
      (write_loop-Filling size before (length p + 2) p 0 b bs g enough)

-- `buf` as a stream that takes what is written.
abbrev pub packet_sink : ℕ → List Bytes → Sink Buf
packet_sink size before = record {
  Holds = Filling size before;
  write_lem = λ b bs p g. write_packets-Filling size before b bs p g;
}

-- The slices of a whole message: full packets, and a last one with the bit for the end.
pub record Delivered (before : List Bytes) (size : ℕ) (writes : List Bytes) (bs : Bytes)
    : Type 0 where
  pub packets : List Frame
  pub last : Frame
  pub same : writes ≡ before ++ map frame_bytes (packets ++ last ∷ [])
  pub full : All (IsFull size) packets
  pub ends : IsFrame last
  pub status : last.head.status ≡ 1
  pub carried : payloads (packets ++ last ∷ []) ≡ bs

-- Sending the last packet of what was written reports no error, and the connection was given packets
-- that carry it: full ones without a bit in the status, and a last one with the bit for the end of a message.
pub send_pkt-Delivered :
    (size : ℕ) (before : List Bytes) (b : Buf) (bs : Bytes)
    → Filling size before b bs
    → ((send_pkt 1 b).1 ≡ none) × Delivered before size (conn_of (send_pkt 1 b).0).writes bs
unfolding packet
send_pkt-Delivered size before b bs g =
    let sent =
      send_pkt-last b g.works g.calm g.head g.held g.begun (omega (arith, g.fits, g.small)) in
    (
      ap (λ (r : Buf × Option Error). r.1) sent,
      record {
        packets = g.packets;
        last = packet g 1;
        same =
            ap (λ (r : Buf × Option Error). (conn_of r.0).writes) sent
            ∙ ap (λ ws. ws ++ frame_bytes (packet g 1) ∷ []) g.writes
            ∙ append_assoc before (map frame_bytes g.packets) (frame_bytes (packet g 1) ∷ [])
            ∙ ap (λ ws. before ++ ws) (sym (map-snoc g.packets (packet g 1)));
        full = g.full;
        ends = packet-IsFrame g 1;
        status = refl;
        carried = payloads-snoc g.packets (packet g 1) ∙ g.same;
      },
    )

-- The slices, one behind the other.
abbrev pub joined : List Bytes → Bytes
joined [] = []
joined (w ∷ ws) = w ++ joined ws

joined-stream : (fs : List Frame) → joined (map frame_bytes fs) ≡ stream fs
joined-stream [] = refl
joined-stream (f ∷ fs) =
    ap (λ q. (header_bytes f.head ++ f.payload) ++ q) (joined-stream fs)
    ∙ append_assoc (header_bytes f.head) f.payload (stream fs)

IsFull-IsFrame :
    (size : ℕ) (fs : List Frame) (f : Frame)
    → All (IsFull size) fs
    → IsFrame f
    → All IsFrame (fs ++ f ∷ [])
IsFull-IsFrame size [] f h k = (k, tt)
IsFull-IsFrame size (g ∷ fs) f h k = (h.0.frame, IsFull-IsFrame size fs f h.1 k)

-- A buffer that reads from its connection: nothing is pending and its header encoder works.
pub record Listens (b : Buf) : Type 0 where
  pub empty : pb_of b ≡ []
  pub calm : b.in_cancel ≡ false
  pub no_error : b.he.err ≡ none
  pub unlimited : b.he.limit ≡ none
  pub order : b.he.endianness ≡ big_endian
  pub scratch : length b.he.sbuf ≡ 8

-- What one buffer sent as a whole message, another that listens on the other end carries.
Delivered-Carrying :
    (size : ℕ) (writes : List Bytes) (bs : Bytes) (r : Buf)
    → Delivered [] size writes bs
    → (conn_of r).input ≡ joined writes
    → Listens r
    → Carrying r bs
Delivered-Carrying size writes bs r d input l =
    let fs = d.packets ++ d.last ∷ [] in
    record {
      frames = fs;
      awaits = record {
        input = input ∙ ap joined d.same ∙ joined-stream fs;
        frames = IsFull-IsFrame size d.packets d.last d.full d.ends;
        calm = l.calm;
        no_error = l.no_error;
        unlimited = l.unlimited;
        order = l.order;
        scratch = l.scratch;
      };
      same = ap (λ q. q ++ payloads fs) l.empty ∙ d.carried;
    }

-- What one buffer writes and sends as a message is what another reads. Given a buffer that `bs` was written to, writing
-- `p` and sending the last packet report no error. If the slices that its connection was given, one behind the other, are the bytes
-- to come on the connection of a reading buffer, then io.ReadFull on that one fills any slice no longer than `bs ++ p` with the
-- first bytes of `bs ++ p`, without an error, and its packets carry the rest. The writer is in the state that initPkt begins
-- and Write keeps, with nothing sent before: a packet size above 8 and below 2^16, a connection and a header encoder that
-- work, and no cancellation pending. The reader has an empty packet buffer, no cancellation pending, and a header encoder
-- that works.
pub read_full-write_packets :
    (size : ℕ) (b r : Buf) (bs p front rest q : Bytes)
    → Filling size [] b bs
    → Listens r
    → (conn_of r).input ≡ joined (conn_of (send_pkt 1 (write_packets b p).state).0).writes
    → bs ++ p ≡ front ++ rest
    → length front ≡ length q
    → ((write_packets b p).err ≡ none)
      × ((send_pkt 1 (write_packets b p).state).1 ≡ none)
      × ((t : Buf) × (read_full r q
            ≡ record { state = t; bytes = front; count = length front; err = none })
          × Carrying t rest)
read_full-write_packets size b r bs p front rest q g listens input cut n =
    let (t, wrote, filled) = write_packets-Filling size [] b bs p g in
    let after : (write_packets b p).state ≡ t = ap (λ (x : Writing Buf). x.state) wrote in
    let (sent, delivered) = send_pkt-Delivered size [] t (bs ++ p) filled in
    let carried =
      Delivered-Carrying size _ (bs ++ p) r delivered
        (input ∙ ap (λ x. joined (conn_of (send_pkt 1 x).0).writes) after) listens in
    (
      ap (λ (x : Writing Buf). x.err) wrote,
      ap (λ x. (send_pkt 1 x).1) after ∙ sent,
      read_full-packets r front rest q n (subst (Carrying r) cut carried),
    )
