-- ===== src/Packet/Send/Filling.antt =====
-- Writing through the packets: `buf` cuts what it is given into full packets.
use tds.Base.{
  ℕ, zero, suc, ◌+◌, ◌-◌, ◌^◌, ◌<◌, ◌≤◌, ◌≡◌, refl, sym, ap, ◌∙◌, subst, false, none, List, [], ◌∷◌,
  ◌++◌, length, take, drop, map, append_assoc, append-nil, length-append, length-take, length-drop,
  take-append-drop, arith, Bytes, All, leb, ◌==◌, if◌then◌else◌, ltb-false, ==-false, take_all,
  drop_all,
}
use mathlib.Core.List.{map-append}
use native.Mathlib.Decide.{dec_le}
use tds.Golang.Io.{Writing}
use tds.Packet.{Buf, buf, pb_of, conn_of, with_pb, init_pkt, send_pkt, write_loop}
use tds.Packet.Conn.{Net}
use tds.Packet.Head.{Header, header_size}
use tds.Packet.Frames.{Frame, header_bytes, frame_bytes, payloads, IsFrame}
use tds.Packet.Send.{HeadersWork, init_pkt_lem}
use tds.Packet.Send.Calm.{send_pkt-more, sent_head, wrote, length-header_bytes}

-- A packet that is not the last: as long as a packet may be, and with no bit in its status.
pub record IsFull (size : ℕ) (f : Frame) : Type 0 where
  pub frame : IsFrame f
  pub full : f.head.packet_size ≡ size
  pub status : f.head.status ≡ 0

-- After the slices `before`, full packets were written, and their payloads and what the packet buffer holds
-- are `bs`. The packet buffer begins with a header and has room for a byte at least, if it was just begun.
pub record Filling (size : ℕ) (before : List Bytes) (b : Buf) (bs : Bytes) : Type 0 where
  pub packets : List Frame
  pub writes : (conn_of b).writes ≡ before ++ map frame_bytes packets
  pub full : All (IsFull size) packets
  pub limit : b.packet_size ≡ size
  pub head : Header
  pub held : Bytes
  pub begun : pb_of b ≡ header_bytes head ++ held
  pub same : payloads packets ++ held ≡ bs
  pub fits : header_size + length held ≤ b.packet_size
  pub room : header_size < b.packet_size
  pub small : b.packet_size < 2 ^ 16
  pub spid : b.h.spid < 2 ^ 16
  pub head_spid : head.spid < 2 ^ 16
  pub headers : HeadersWork b
  pub works : (conn_of b).failure ≡ none
  pub calm : b.in_cancel ≡ false

pub payloads-snoc :
    (fs : List Frame) (f : Frame) → payloads (fs ++ f ∷ []) ≡ payloads fs ++ f.payload
payloads-snoc [] f = append-nil f.payload
payloads-snoc (g ∷ fs) f =
    ap (λ q. g.payload ++ q) (payloads-snoc fs f)
    ∙ sym (append_assoc g.payload (payloads fs) f.payload)

All-snoc {ℓ κ} :
    {A : Type ℓ} (P : A → Type κ) (xs : List A) (x : A) → All P xs → P x → All P (xs ++ x ∷ [])
All-snoc P [] x h k = (k, tt)
All-snoc P (y ∷ xs) x h k = (h.0, All-snoc P xs x h.1 k)

pub map-snoc :
    (fs : List Frame) (f : Frame)
    → map frame_bytes (fs ++ f ∷ []) ≡ map frame_bytes fs ++ frame_bytes f ∷ []
map-snoc fs f = map-append frame_bytes fs (f ∷ [])

module _ {size : ℕ} {before : List Bytes} {b : Buf} {bs : Bytes}
    (g : Filling size before b bs) where
  -- More bytes in the packet buffer, if it has room for them.
  Filling-more :
      (more : Bytes)
      → header_size + length g.held + length more ≤ b.packet_size
      → Filling size before (with_pb (pb_of b ++ more) b) (bs ++ more)
  Filling-more more fits = record {
    packets = g.packets;
    writes = g.writes;
    full = g.full;
    limit = g.limit;
    head = g.head;
    held = g.held ++ more;
    begun = ap (λ q. q ++ more) g.begun ∙ append_assoc (header_bytes g.head) g.held more;
    same = sym (append_assoc (payloads g.packets) g.held more) ∙ ap (λ q. q ++ more) g.same;
    fits = omega (arith, length-append g.held more, fits);
    room = g.room;
    small = g.small;
    spid = g.spid;
    head_spid = g.head_spid;
    headers = record {
      no_error = g.headers.no_error;
      unlimited = g.headers.unlimited;
      order = g.headers.order;
      scratch = g.headers.scratch;
    };
    works = g.works;
    calm = g.calm;
  }

  -- The packet that the packet buffer becomes.
  unfoldable pub packet : ℕ → Frame
  packet status = record { head = sent_head status (8 + length g.held) g.head; payload = g.held }

  pub packet-IsFrame : (status : ℕ) → IsFrame (packet status)
  unfolding packet
  packet-IsFrame status = record {
    size = refl;
    small = omega (arith, g.fits, g.small);
    spid = g.head_spid;
  }

  -- A full packet is written, and the next one begun.
  send_pkt-Filling :
      length (pb_of b) ≡ b.packet_size
      → (t : Buf) × (send_pkt 0 b ≡ (t, none))
        × (t.packet_size ≡ b.packet_size)
        × (length (pb_of t) ≡ 8)
        × Filling size before t bs
  unfolding init_pkt packet
  send_pkt-Filling filled =
      let full : header_size + length g.held ≡ b.packet_size =
        omega (arith, filled, ap length g.begun, length-header_bytes g.head g.held) in
      let sent =
        send_pkt-more b g.works g.calm g.head g.held g.begun (omega (arith, full, g.small)) in
      let w = wrote (frame_bytes (packet 0)) b in
      let t = init_pkt b.h.token w in
      let works : HeadersWork w = record {
        no_error = g.headers.no_error;
        unlimited = g.headers.unlimited;
        order = g.headers.order;
        scratch = g.headers.scratch;
      } in
      let lem = init_pkt_lem b.h.token w works in
      let headers = lem.0 in
      let conn = lem.1 in
      let begun = lem.2 in
      (
        t,
        sent,
        refl,
        ap length begun
            ∙ ap length (sym (append-nil (header_bytes t.h)))
            ∙ length-header_bytes t.h [],
        record {
          packets = g.packets ++ packet 0 ∷ [];
          writes =
              ap (λ (c : Net). c.writes) conn
              ∙ ap (λ ws. ws ++ frame_bytes (packet 0) ∷ []) g.writes
              ∙ append_assoc before (map frame_bytes g.packets) (frame_bytes (packet 0) ∷ [])
              ∙ ap (λ ws. before ++ ws) (sym (map-snoc g.packets (packet 0)));
          full =
              All-snoc (IsFull size) g.packets (packet 0) g.full
                (record { frame = packet-IsFrame 0; full = full ∙ g.limit; status = refl });
          limit = g.limit;
          head = t.h;
          held = [];
          begun = begun ∙ sym (append-nil (header_bytes t.h));
          same = append-nil _ ∙ payloads-snoc g.packets (packet 0) ∙ g.same;
          fits = omega (arith, g.room);
          room = g.room;
          small = g.small;
          spid = g.spid;
          head_spid = g.spid;
          headers = headers;
          works = ap (λ (c : Net). c.failure) conn ∙ g.works;
          calm = g.calm;
        },
      )

-- A round of the loop that ends it, and one that fills the packet buffer.
round_last :
    (fuel : ℕ) (p : Bytes) (copied : ℕ) (b : Buf)
    → length (pb_of b) ≤ b.packet_size
    → length p ≤ b.packet_size - length (pb_of b)
    → write_loop (suc fuel) p copied b
      ≡ record { state = with_pb (pb_of b ++ p) b; count = copied + length p; err = none }
unfolding write_loop
round_last fuel p copied b room fits =
    let left = b.packet_size - length (pb_of b) in
    let n : (if leb left (length p) then left else length p) ≡ length p = ground arith in
    rw (
      n,
      take_all (length p) p (omega arith),
      drop_all (length p) p (omega arith),
      ltb-false b.packet_size (length (pb_of b)) room,
    )

round_more :
    (fuel : ℕ) (p : Bytes) (copied : ℕ) (b t : Buf) (n : ℕ)
    → b.packet_size - length (pb_of b) ≡ n
    → length (pb_of b) ≤ b.packet_size
    → n < length p
    → send_pkt 0 (with_pb (pb_of b ++ take n p) b) ≡ (t, none)
    → write_loop (suc fuel) p copied b ≡ write_loop fuel (drop n p) (copied + n) t
unfolding write_loop
round_more fuel p copied b t n left room less sent =
    let pick : (if leb n (length p) then n else length p) ≡ n = ground arith in
    let some_left : (length (drop n p) == 0) ≡ false =
      ==-false _ 0 (omega (arith, length-drop n p)) in
    rw (left, pick, ltb-false b.packet_size (length (pb_of b)) room, some_left, sent)

module _ {size : ℕ} {before : List Bytes} {b : Buf} {bs : Bytes}
    (g : Filling size before b bs) where
  Filling-length : length (pb_of b) ≡ 8 + length g.held
  Filling-length = ap length g.begun ∙ length-header_bytes g.head g.held

  pub Filling-fits : length (pb_of b) ≤ b.packet_size
  Filling-fits = omega (arith, Filling-length, g.fits)

  -- The packet buffer is filled from `p`, and the packet sent.
  fill_round :
      (p : Bytes) (n : ℕ)
      → b.packet_size - length (pb_of b) ≡ n
      → n < length p
      → (t : Buf) × (send_pkt 0 (with_pb (pb_of b ++ take n p) b) ≡ (t, none))
        × (t.packet_size ≡ b.packet_size)
        × (length (pb_of t) ≡ 8)
        × Filling size before t (bs ++ take n p)
  fill_round p n left over =
      let taken : length (take n p) ≡ n = omega (arith, length-take n p) in
      send_pkt-Filling (Filling-more g (take n p) (omega (arith, Filling-length, g.fits, taken)))
        (omega (arith, length-append (pb_of b) (take n p), taken, Filling-fits))

-- What a call of Write on `p` leaves.
abbrev pub Wrote : ℕ → List Bytes → Bytes → ℕ → Writing Buf → Type 0
Wrote size before bs n r =
    (t : Buf) × (r ≡ record { state = t; count = n; err = none }) × Filling size before t bs

then_rest :
    (size : ℕ) (before : List Bytes) (fuel : ℕ) (p bs : Bytes) (copied n : ℕ) (b t : Buf)
    → write_loop (suc fuel) p copied b ≡ write_loop fuel (drop n p) (copied + n) t
    → n ≤ length p
    → Wrote size before
        ((bs ++ take n p) ++ drop n p)
        ((copied + n) + length (drop n p))
        (write_loop fuel (drop n p) (copied + n) t)
    → Wrote size before (bs ++ p) (copied + length p) (write_loop (suc fuel) p copied b)
then_rest size before fuel p bs copied n b t step h (u, rest, done) =
    let total : (copied + n) + length (drop n p) ≡ copied + length p =
      omega (arith, length-drop n p) in
    let whole : (bs ++ take n p) ++ drop n p ≡ bs ++ p =
      append_assoc bs (take n p) (drop n p) ∙ ap (λ q. bs ++ q) (take-append-drop n p) in
    (
      u,
      step ∙ rest ∙ ap (λ k. record { state = u; count = k; err = none }) total,
      subst (Filling size before u) whole done,
    )

pub write_loop-Filling :
    (size : ℕ) (before : List Bytes) (fuel : ℕ) (p : Bytes) (copied : ℕ) (b : Buf) (bs : Bytes)
    → Filling size before b bs
    → length p + (1 + length (pb_of b) - b.packet_size) < fuel
    → Wrote size before (bs ++ p) (copied + length p) (write_loop fuel p copied b)
write_loop-Filling size before zero p copied b bs g h = absurd (omega arith)
write_loop-Filling size before (suc fuel) p copied b bs g h =
    elim (dec_le (length p) (b.packet_size - length (pb_of b))) [
      | yes fits ↦ (
        with_pb (pb_of b ++ p) b,
        round_last fuel p copied b (Filling-fits g) fits,
        Filling-more g p (omega (arith, Filling-length g, Filling-fits g, fits)),
      )
      | no over ↦
          let n = b.packet_size - length (pb_of b) in
          let (t, sent, same_size, empty, after) = fill_round g p n refl (omega (arith, over)) in
          then_rest size before fuel p bs copied n b t
            (round_more fuel p copied b t n refl (Filling-fits g) (omega (arith, over)) sent)
            (omega (arith, over))
            (write_loop-Filling size before fuel (drop n p) (copied + n) t (bs ++ take n p) after
              (omega (arith, h, same_size, empty, g.room, over, Filling-fits g, length-drop n p)))
    ]
