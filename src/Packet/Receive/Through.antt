-- ===== src/Packet/Receive/Through.antt =====
-- io.ReadFull through the packets: `buf` is a stream of what its packets carry.
use tds.Base.{
  ℕ, zero, suc, ◌+◌, ◌<◌, ◌≤◌, ◌≡◌, refl, sym, ap, ◌∙◌, subst, none, some, List, [], ◌∷◌, ◌++◌,
  length, take, drop, append-nil, length-append, length-take, length-drop, length-replicate,
  take-append, drop-append, take-append-drop, take_all, take-append_le, drop-append_le, arith,
  Bytes, replicate, ==-false,
}
use native.Mathlib.Decide.{dec_le}
use tds.Golang.Order.{put}
use tds.Golang.Io.{
  Reading, read_full, read_loop, read_loop-suc, read_loop_once, full_error-none, then_read, overlay,
  overlay_partly,
}
use tds.Golang.Buffer.{buffer, holding, read_full-buffer, read_full_short, short_error}
use tds.Encoder.Ready.{Source}
use tds.Packet.{Buf, buf, pb_of, conn_of, with_pb, read_packets, after_read, read_pkt}
use tds.Packet.Frames.{Frame, stream, payloads}
use tds.Packet.Receive.{Awaits, read_pkt-Awaits, read_pkt-calm}

-- A slice that the packet buffer fills is filled from it.
read_packets_enough :
    (b : Buf) (k : ℕ)
    → suc k ≤ length (pb_of b)
    → read_packets b (suc k) ≡ record {
      state = with_pb (drop (suc k) (pb_of b)) b;
      bytes = take (suc k) (pb_of b);
      count = suc k;
      err = none;
    }
unfolding read_packets
read_packets_enough b k h =
    let front = take (suc k) (pb_of b) in
    let rest = drop (suc k) (pb_of b) in
    let full : length front ≡ suc k = omega (arith, length-take (suc k) (pb_of b)) in
    let read : read_full (holding (pb_of b)) (replicate (suc k) 0)
        ≡ record { state = holding rest; bytes = front; count = length front; err = none } =
      subst
        (λ bs.
          read_full (holding bs) (replicate (suc k) 0)
          ≡ record { state = holding rest; bytes = front; count = length front; err = none })
        (take-append-drop (suc k) (pb_of b))
        (read_full-buffer front rest (replicate (suc k) 0)
          (full ∙ sym (length-replicate (suc k) 0))) in
    rw (read, take_all (length front) front (omega arith), full, ==-false (suc k) 0 (omega arith))

-- A slice that it cannot fill is given all that is in it, and the next packet is read.
read_packets_short :
    (b d : Buf) (k : ℕ)
    → length (pb_of b) < suc k
    → read_pkt (with_pb [] b) ≡ (d, none)
    → read_packets b (suc k)
      ≡ record { state = d; bytes = pb_of b; count = length (pb_of b); err = none }
unfolding read_packets
read_packets_short b d k h e =
    let zeros : Bytes = replicate k 0 in
    let short : length (pb_of b) < length (0 ∷ zeros) =
      omega (arith, length-replicate {A = ℕ} k 0) in
    rw
      (
        read_full_short (pb_of b) 0 zeros short,
        take-append (pb_of b) (drop (length (pb_of b)) (0 ∷ zeros)),
      )
      (after (pb_of b))
  where
    after :
        (bs : Bytes)
        → after_read (with_pb [] b) bs (length bs) (some (short_error bs))
          ≡ record { state = d; bytes = bs; count = length bs; err = none }
    after [] = rw e
    after (x ∷ bs) = rw e

-- The bytes that the packet buffer and the packets to come carry.
pub record Carrying (b : Buf) (bs : Bytes) : Type 0 where
  pub frames : List Frame
  pub awaits : Awaits b frames
  pub same : pb_of b ++ payloads frames ≡ bs

Awaits-with_pb : (b : Buf) (bs : Bytes) (fs : List Frame) → Awaits b fs → Awaits (with_pb bs b) fs
Awaits-with_pb b bs fs a = record {
  input = a.input;
  frames = a.frames;
  calm = a.calm;
  no_error = a.no_error;
  unlimited = a.unlimited;
  order = a.order;
  scratch = a.scratch;
}

-- What io.ReadFull leaves behind where the packets carry `bs ++ rest` and the slice is for `bs`.
abbrev Filled : Reading Buf → Bytes → Bytes → Type 0
Filled r bs rest =
    (t : Buf) × (r ≡ record { state = t; bytes = bs; count = length bs; err = none })
    × Carrying t rest

-- Two ways to cut one list: the first cut is within the second part's.
front_of :
    (k : ℕ) (xs ys bs rest : Bytes)
    → xs ++ ys ≡ bs ++ rest
    → length bs ≡ k
    → k ≤ length xs
    → (take k xs ≡ bs) × (drop k xs ++ ys ≡ rest)
front_of k xs ys bs rest e n h = (
  sym (take-append_le k xs ys h) ∙ ap (take k) e ∙ rw (← n) (take-append bs rest),
  sym (drop-append_le k xs ys h) ∙ ap (drop k) e ∙ rw (← n) (drop-append bs rest),
)

module _ (b : Buf) (fs : List Frame) (a : Awaits b fs) where
  fill_enough :
      (fuel : ℕ) (x : ℕ) (bs rest p : Bytes)
      → length bs ≡ length (x ∷ p)
      → pb_of b ++ payloads fs ≡ bs ++ rest
      → length bs ≤ length (pb_of b)
      → Filled (read_loop (suc fuel) b (x ∷ p)) bs rest
  fill_enough fuel x bs rest p n same enough =
      let k = length (x ∷ p) in
      let (front, back) = front_of k (pb_of b) (payloads fs) bs rest same n (omega arith) in
      let t = with_pb (drop k (pb_of b)) b in
      (
        t,
        read_loop_once fuel b t x bs p n
            (read_packets_enough b (length p) (omega arith) ∙ rw (front, n)),
        record { frames = fs; awaits = Awaits-with_pb b (drop k (pb_of b)) fs a; same = back },
      )

-- The rest of the bytes, behind those of the packet buffer.
fill_next :
    (fuel : ℕ) (b d : Buf) (x : ℕ) (bs rest p : Bytes)
    → length bs ≡ length (x ∷ p)
    → length (pb_of b) < length bs
    → take (length (pb_of b)) bs ≡ pb_of b
    → read_pkt (with_pb [] b) ≡ (d, none)
    → Filled (read_loop fuel d (drop (length (pb_of b)) (x ∷ p))) (drop (length (pb_of b)) bs) rest
    → Filled (read_loop (suc fuel) b (x ∷ p)) bs rest
unfolding then_read
fill_next fuel b d x bs rest p n short front e (t, rest_read, carrying) =
    let m = length (pb_of b) in
    let cut : overlay (pb_of b) (x ∷ p) ≡ pb_of b ++ drop m (x ∷ p) =
      overlay_partly (pb_of b) (x ∷ p) (omega arith) in
    let step = read_loop-suc fuel b x p _ (read_packets_short b d (length p) (omega arith) e) in
    let whole : pb_of b ++ drop m bs ≡ bs =
      ap (λ q. q ++ drop m bs) (sym front) ∙ take-append-drop m bs in
    let size : m + length (drop m bs) ≡ length bs = omega (arith, length-drop m bs) in
    let joined : then_read (x ∷ p) (record { state = d; bytes = pb_of b; count = m; err = none })
          (read_loop fuel d (drop m (overlay (pb_of b) (x ∷ p))))
        ≡ record { state = t; bytes = bs; count = length bs; err = none } =
      rw (
        cut,
        drop-append (pb_of b) (drop m (x ∷ p)),
        take-append (pb_of b) (drop m (x ∷ p)),
        rest_read,
        whole,
        size,
      ) in
    (t, step ∙ joined, carrying)

-- The bytes that the packets carry fill a slice, however many packets that takes.
read_loop-buf :
    (fuel : ℕ) (fs : List Frame) (b : Buf) (bs rest p : Bytes)
    → length bs ≡ length p
    → Awaits b fs
    → pb_of b ++ payloads fs ≡ bs ++ rest
    → length fs < fuel
    → Filled (read_loop fuel b p) bs rest
read_loop-buf fuel fs b [] rest [] n a same h =
    (b, unfold read_loop in refl, record { frames = fs; awaits = a; same = same })
read_loop-buf fuel fs b (y ∷ bs) rest [] n a same h = absurd (omega arith)
read_loop-buf fuel fs b [] rest (x ∷ p) n a same h = absurd (omega arith)
read_loop-buf zero fs b (y ∷ bs) rest (x ∷ p) n a same h = absurd (omega arith)
read_loop-buf (suc fuel) [] b (y ∷ bs) rest (x ∷ p) n a same h =
    let sizes : length (pb_of b) ≡ length (y ∷ bs) + length rest =
      ap length (sym (append-nil (pb_of b)) ∙ same) ∙ length-append (y ∷ bs) rest in
    fill_enough b [] a fuel x (y ∷ bs) rest p n same (omega (arith, sizes))
read_loop-buf (suc fuel) (f ∷ fs) b (y ∷ bs) rest (x ∷ p) n a same h =
    elim (dec_le (length (y ∷ bs)) (length (pb_of b))) [
      | yes le ↦ fill_enough b (f ∷ fs) a fuel x (y ∷ bs) rest p n same le
      | no gt ↦
          let m = length (pb_of b) in
          let short : m < length (y ∷ bs) = omega (arith, gt) in
          let emptied = Awaits-with_pb b [] (f ∷ fs) a in
          let (d, read, payload, after, _, _) = read_pkt-Awaits (with_pb [] b) f fs emptied in
          let (front, back) =
            front_of m (y ∷ bs) rest (pb_of b) (payloads (f ∷ fs)) (sym same) refl (omega arith) in
          fill_next fuel b d x (y ∷ bs) rest p n short front
            (read_pkt-calm (with_pb [] b) d read after.calm)
            (read_loop-buf fuel fs d (drop m (y ∷ bs)) rest (drop m (x ∷ p))
              (omega (arith, length-drop m (y ∷ bs), length-drop m (x ∷ p))) after
              (ap (λ q. q ++ payloads fs) payload ∙ sym back) (omega arith))
    ]

-- Every packet takes a byte of the input at least.
length-stream : (fs : List Frame) → length fs ≤ length (stream fs)
unfolding put
length-stream [] = omega arith
length-stream (f ∷ fs) = omega (arith, length-stream fs, length-append f.payload (stream fs))

-- io.ReadFull reads what the packets carry, in order, wherever they are cut: a slice is filled from
-- the bytes of the packet buffer and of as many packets behind it as that takes, without an error,
-- and the packet buffer and the packets that are left carry the bytes behind it.
pub read_full-packets :
    (b : Buf) (bs rest p : Bytes)
    → length bs ≡ length p
    → Carrying b (bs ++ rest)
    → (t : Buf) × (read_full b p ≡ record { state = t; bytes = bs; count = length bs; err = none })
      × Carrying t rest
unfolding read_full
read_full-packets b bs rest p n carrying =
    let fs = carrying.frames in
    let input : length fs ≤ length (conn_of b).input =
      omega (arith, length-stream fs, ap length carrying.awaits.input) in
    let (t, read, after) =
      read_loop-buf (suc (length (conn_of b).input + length p)) fs b bs rest p n carrying.awaits
        carrying.same (omega arith) in
    (t, rw (read, full_error-none (length bs)), after)

abbrev pub packet_source : Source Buf
packet_source = record { Holds = Carrying; read_full_lem = read_full-packets }
