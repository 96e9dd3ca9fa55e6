-- ===== src/Packet/Frames.antt =====
-- Packets on the wire: a header whose length is that of the whole packet, and a payload.
use tds.Base.{
  ℕ, zero, suc, ◌+◌, ◌^◌, ◌<◌, ◌≤◌, ◌≡◌, refl, sym, ap, Option, none, List, [], ◌∷◌, ◌++◌, length,
  take, drop, min, take-append_le, drop-append_le, take-append-drop, length-take, length-drop,
  take_all, arith, Bytes,
}
use tds.Golang.Order.{big_endian, put}
use tds.Golang.Io.{read_full, read_full_once, copy_n, copy_loop, copy_loop-suc, then_copied}
use tds.Golang.Buffer.{Buffer, take_whole, drop_whole}
use tds.Encoder.Ops.{Charset}
use tds.Encoder.Ready.{Source}
use tds.Encoder.Reads.{Reads, Reads-bind, Reads-read_byte, Reads-uint8, Reads-uint16}
use tds.Messages.Codec.{Reads-last, Reads-returning}
use tds.Packet.{Wire, wire}
use tds.Packet.Conn.{Net, net}
use tds.Packet.Head.{Header, header_size, read_header}

pub record Frame : Type 0 where
  pub head : Header
  pub payload : Bytes

-- The eight bytes of a header.
abbrev pub header_bytes : Header → Bytes
header_bytes h =
    (h.token ∷ [])
    ++ ((h.status ∷ [])
        ++ (put big_endian 2 h.packet_size
            ++ (put big_endian 2 h.spid ++ ((h.packet_no ∷ []) ++ h.pad ∷ []))))

abbrev pub frame_bytes : Frame → Bytes
frame_bytes f = header_bytes f.head ++ f.payload

-- The bytes of a sequence of packets, and what they carry.
abbrev pub stream : List Frame → Bytes
stream [] = []
stream (f ∷ fs) = header_bytes f.head ++ (f.payload ++ stream fs)

abbrev pub payloads : List Frame → Bytes
payloads [] = []
payloads (f ∷ fs) = f.payload ++ payloads fs

pub record IsFrame (f : Frame) : Type 0 where
  pub size : f.head.packet_size ≡ header_size + length f.payload
  pub small : f.head.packet_size < 2 ^ 16
  pub spid : f.head.spid < 2 ^ 16

-- A connection that stays as `c` but for its input.
abbrev pub giving : Net → Bytes → Net
giving c bs = record c { input = bs }

abbrev pub wired : Net → Buffer → Bytes → Wire
wired c q bs = record { conn = giving c bs; pb = q }

module _ (c : Net) (q : Buffer) where
  pub read_full-wire :
      (bs rest p : Bytes)
      → length bs ≡ length p
      → read_full (wired c q (bs ++ rest)) p
        ≡ record { state = wired c q rest; bytes = bs; count = length bs; err = none }
  read_full-wire [] rest [] h = unfold read_full in refl
  read_full-wire [] rest (x ∷ p) h = absurd (omega arith)
  read_full-wire (b ∷ bs) rest [] h = absurd (omega arith)
  read_full-wire (b ∷ bs) rest (x ∷ p) h =
      read_full_once (wired c q (b ∷ bs ++ rest)) (wired c q rest) x (b ∷ bs) p h (
        rw (
          take_whole bs rest (length p) (omega arith),
          drop_whole bs rest (length p) (omega arith),
        ))

  abbrev pub wire_source : Source Wire
  wire_source = record {
    Holds = λ s bs. s ≡ wired c q bs;
    read_full_lem =
        λ s bs rest p fits holds. (wired c q rest, rw holds (read_full-wire bs rest p fits), refl);
  }

  pub Reads-read_header :
      (cs : Option Charset) (h : Header)
      → h.packet_size < 2 ^ 16
      → h.spid < 2 ^ 16
      → Reads wire_source big_endian cs read_header (header_bytes h) (h, none)
  unfolding read_header
  Reads-read_header cs h size spid =
      Reads-bind wire_source big_endian cs _ (Reads-read_byte wire_source big_endian cs h.token) (
        Reads-bind wire_source big_endian cs _ (Reads-uint8 wire_source big_endian cs h.status) (
          Reads-bind wire_source big_endian cs _
            (Reads-uint16 wire_source big_endian cs h.packet_size size)
            (Reads-bind wire_source big_endian cs _
              (Reads-uint16 wire_source big_endian cs h.spid spid)
              (Reads-bind wire_source big_endian cs _
                (Reads-uint8 wire_source big_endian cs h.packet_no)
                (Reads-last wire_source big_endian cs _
                  (Reads-uint8 wire_source big_endian cs h.pad)
                  (Reads-returning wire_source big_endian cs h))))))

copy_step :
    (chunk n : ℕ) (x : ℕ) (bs rest : Bytes) (c : Net)
    → n ≡ min (suc chunk) (suc (length bs))
    → net.read (giving c (x ∷ bs ++ rest)) n ≡ record {
      state = giving c (drop n (x ∷ bs) ++ rest);
      bytes = take n (x ∷ bs);
      count = n;
      err = none;
    }
copy_step chunk n x bs rest c e =
    let fits : n ≤ length (x ∷ bs) = omega (arith, e) in
    rw
      (
        take-append_le n (x ∷ bs) rest fits,
        drop-append_le n (x ∷ bs) rest fits,
        length-take n (x ∷ bs),
      )
      (ap
        (λ k. record {
          state = giving c (drop n (x ∷ bs) ++ rest);
          bytes = take n (x ∷ bs);
          count = k;
          err = none;
        })
        (omega arith))

-- The bytes of a first read that was cut off and of the rest make up the whole.
joined :
    (n k : ℕ) (bs : Bytes) (t u : Net)
    → n ≤ length bs
    → then_copied k
        (record { state = t; bytes = take n bs; count = n; err = none })
        (record { state = u; bytes = drop n bs; count = length (drop n bs); err = none })
      ≡ record { state = u; bytes = bs; count = length bs; err = none }
unfolding then_copied
joined n k bs t u h =
    rw (take_all n (take n bs) (omega (arith, length-take n bs)), take-append-drop n bs)
      (ap (λ m. record { state = u; bytes = bs; count = m; err = none })
        (omega (arith, length-drop n bs)))

-- io.CopyN takes exactly what it is asked for from a connection that has it.
copy_loop-net :
    (fuel chunk : ℕ) (bs rest : Bytes) (c : Net)
    → length bs < fuel
    → copy_loop fuel (suc chunk) (giving c (bs ++ rest)) (length bs)
      ≡ record { state = giving c rest; bytes = bs; count = length bs; err = none }
copy_loop-net zero chunk bs rest c h = elim h [ ]
copy_loop-net (suc fuel) chunk [] rest c h = unfold copy_loop in refl
copy_loop-net (suc fuel) chunk (x ∷ bs) rest c h =
    let n = min (suc chunk) (suc (length bs)) in
    let tail = drop n (x ∷ bs) in
    rw
      (
        copy_loop-suc fuel (suc chunk) (giving c (x ∷ bs ++ rest)) (length bs) _
            (copy_step chunk n x bs rest c refl),
        ap (λ k. copy_loop fuel (suc chunk) (giving c (drop n (x ∷ bs) ++ rest)) k)
            (sym (length-drop n (x ∷ bs))),
        copy_loop-net fuel chunk tail rest c (omega (arith, length-drop n (x ∷ bs))),
      )
      (joined n (suc (length bs)) (x ∷ bs) (giving c (tail ++ rest)) (giving c rest) (omega arith))

pub copy_n-net :
    (bs rest : Bytes) (c : Net)
    → copy_n 512 (giving c (bs ++ rest)) (length bs)
      ≡ record { state = giving c rest; bytes = bs; count = length bs; err = none }
unfolding copy_n
copy_n-net bs rest c = copy_loop-net (suc (1 + length bs)) 511 bs rest c (omega arith)
