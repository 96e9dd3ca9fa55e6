-- ===== src/Packet/Messages/Sending.antt =====
-- Sending messages, in writeMsg and send of buffer.go: the packets carry each message behind its token
-- and its length.
use tds.Base.{
  ℕ, ◌^◌, ◌<◌, ◌≡◌, refl, sym, ap, ◌∙◌, subst, false, Option, none, List, [], ◌∷◌, ◌++◌, length,
  append_assoc, append-nil, arith, Bytes, ◌==◌, if◌then◌else◌, Bool-cases, inl, inr,
}
use tds.Base.Int.{i8, i16, i32, u8, u16, u32}
use tds.Golang.Order.{ByteOrder, put}
use tds.Golang.Buffer.{Buffer, buffer, holding}
use tds.Encoder.Ops.{Charset}
use tds.Encoder.Ready.{Ready}
use tds.Encoder.Writes.{
  Writes, Writes-bind, Writes-pure, Writes-write_byte, Writes-write_int8, Writes-write_int16,
  Writes-write_int32,
}
use tds.Messages.Tokens.{Msg, size_len}
use tds.Messages.Codec.{Carries, buffer_sink, Writes-last, Writes-take_err}
use tds.Packet.{Buf, buf, conn_of, init_pkt, write_packets}
use tds.Packet.Conn.{Net}
use tds.Packet.Head.{header_size}
use tds.Packet.Frames.{header_bytes}
use tds.Packet.Send.{HeadersWork, init_pkt_lem}
use tds.Packet.Send.Filling.{Filling}
use tds.Packet.Send.Delivery.{packet_sink, write_packets-Filling, Delivered, send_pkt-Delivered}
use tds.Packet.Messages.{
  Link, Outgoing, write_token, write_size, write_head, write_msg, write_msgs, flush, send,
}

-- The bytes before a message of n bytes.
abbrev token_bytes : ℕ → Bytes
token_bytes t = if t == 0 then [] else t ∷ []

abbrev size_bytes : ByteOrder → ℕ → ℕ → Bytes
size_bytes o width n =
    if width == 8
    then u8 (i8 n) ∷ []
    else if width == 16
    then put o 2 (u16 (i16 n))
    else if width == 32
    then put o 4 (u32 (i32 n))
    else []

abbrev pub head_bytes : ByteOrder → Msg → ℕ → Bytes
head_bytes o m n = token_bytes m.token ++ size_bytes o (size_len m) n

-- The bytes of a message within the packets.
abbrev pub message_bytes : ByteOrder → Msg → Bytes → Bytes
message_bytes o m body = head_bytes o m (length body) ++ body

module _ (size : ℕ) (before : List Bytes) (o : ByteOrder) (cs : Option Charset) where
  Writes-write_token :
      (t : ℕ) → Writes (packet_sink size before) o cs (write_token t) (token_bytes t) tt
  unfolding write_token
  Writes-write_token t = elim (Bool-cases (t == 0)) [
    | inl e ↦ rw e (Writes-pure (packet_sink size before) o cs tt)
    | inr e ↦ rw e (Writes-write_byte (packet_sink size before) o cs t)
  ]

  Writes-write_size :
      (width n : ℕ)
      → Writes (packet_sink size before) o cs (write_size width n) (size_bytes o width n) tt
  unfolding write_size
  Writes-write_size width n = elim (Bool-cases (width == 8)) [
    | inl e ↦ rw e (Writes-write_int8 (packet_sink size before) o cs (i8 n))
    | inr e ↦ elim (Bool-cases (width == 16)) [
      | inl f ↦ rw (e, f) (Writes-write_int16 (packet_sink size before) o cs (i16 n))
      | inr f ↦ elim (Bool-cases (width == 32)) [
        | inl g ↦ rw (e, f, g) (Writes-write_int32 (packet_sink size before) o cs (i32 n))
        | inr g ↦ rw (e, f, g) (Writes-pure (packet_sink size before) o cs tt)
      ]
    ]
  ]

  Writes-write_head :
      (m : Msg) (n : ℕ)
      → Writes (packet_sink size before) o cs (write_head m n) (head_bytes o m n) none
  unfolding write_head
  Writes-write_head m n =
      Writes-bind (packet_sink size before) o cs _ (Writes-write_token m.token) (
        Writes-last (packet_sink size before) o cs _ (Writes-write_size (size_len m) n)
          (Writes-take_err (packet_sink size before) o cs))

-- The encoders after a message that is not empty was flushed.
abbrev flushed : Buf → Link → Link
flushed t l = record l { pe = record (l.pe) { rw = t }; me = record (l.me) { rw = holding [] } }

flush-nil : (l : Link) → l.me.rw.unread ≡ [] → flush l ≡ (l, none)
unfolding flush
flush-nil l e = ground (arith, e)

flush-some :
    (l : Link) (t : Buf) (x : ℕ) (body : Bytes)
    → l.me.rw.unread ≡ x ∷ body
    → write_packets l.pe.rw (x ∷ body) ≡ record { state = t; count = length (x ∷ body); err = none }
    → flush l ≡ (flushed t l, none)
unfolding flush
flush-some l t x body e w = ground (arith, e, w)

-- The encoder of the packets carries `bs`, and that of the messages has no error and no limit.
pub record Linked (size : ℕ) (before : List Bytes) (o : ByteOrder) (cs : Option Charset)
    (bs : Bytes) (l : Link) : Type 0 where
  pub pe : Ready (Filling size before) o cs bs l.pe
  pub me : Ready (λ (b : Buffer) (ds : Bytes). Unit {0}) o cs [] l.me

-- A message that writes `body` to its buffer.
abbrev pub WritesBody : ByteOrder → Option Charset → Outgoing → Bytes → Type 0
WritesBody o cs m body = Writes buffer_sink o cs m.write body none

module _ (size : ℕ) (before : List Bytes) (o : ByteOrder) (cs : Option Charset) where
  flush-Linked :
      (l : Link) (bs body : Bytes)
      → l.me.rw.unread ≡ body
      → Linked size before o cs bs l
      → (k : Link) × (flush l ≡ (k, none)) × Linked size before o cs (bs ++ body) k
  flush-Linked l bs [] e r =
      (l, flush-nil l e, subst (λ q. Linked size before o cs q l) (sym (append-nil bs)) r)
  flush-Linked l bs (x ∷ body) e r =
      let (t, wrote, filling) =
        write_packets-Filling size before l.pe.rw bs (x ∷ body) r.pe.holds in
      (
        flushed t l,
        flush-some l t x body e wrote,
        record {
          pe = record {
            holds = filling;
            no_error = r.pe.no_error;
            unlimited = r.pe.unlimited;
            order = r.pe.order;
            same_charset = r.pe.same_charset;
            scratch = r.pe.scratch;
          };
          me = record {
            holds = tt;
            no_error = r.me.no_error;
            unlimited = r.me.unlimited;
            order = r.me.order;
            same_charset = r.me.same_charset;
            scratch = r.me.scratch;
          };
        },
      )

  write_msg_done :
      (m : Outgoing) (l k : Link)
      → (m.write (record (l.me) { rw = holding [] })).0 ≡ none
      → (write_head m.msg (length (m.write (record (l.me) { rw = holding [] })).1.rw.unread) l.pe).0
        ≡ none
      → flush (record {
        pe =
            (write_head m.msg
              (length (m.write (record (l.me) { rw = holding [] })).1.rw.unread)
              l.pe).1;
        me = (m.write (record (l.me) { rw = holding [] })).1;
      })
        ≡ (k, none)
      → write_msg m l ≡ (k, none)
  unfolding write_msg
  write_msg_done m l k wrote headed done = ground (arith, wrote, headed, done)

  -- writeMsg adds the message behind its token and its length to what the packets carry.
  write_msg-Linked :
      (m : Outgoing) (l : Link) (bs body : Bytes)
      → WritesBody o cs m body
      → Linked size before o cs bs l
      → (k : Link) × (write_msg m l ≡ (k, none))
        × Linked size before o cs (bs ++ message_bytes o m.msg body) k
  write_msg-Linked m l bs body writes r =
      let start : Ready Carries o cs [] (record (l.me) { rw = holding [] }) = record {
        holds = refl;
        no_error = r.me.no_error;
        unlimited = r.me.unlimited;
        order = r.me.order;
        same_charset = r.me.same_charset;
        scratch = r.me.scratch;
      } in
      let (wrote, after) = writes.run (record (l.me) { rw = holding [] }) [] start in
      let me = (m.write (record (l.me) { rw = holding [] })).1 in
      let held : me.rw.unread ≡ body = ap (λ (b : Buffer). b.unread) after.holds in
      let (headed, behind) =
        (Writes-write_head size before o cs m.msg (length me.rw.unread)).run l.pe bs r.pe in
      let headed_link : Link = record {
        pe = (write_head m.msg (length me.rw.unread) l.pe).1;
        me = me;
      } in
      let linked : Linked size before o cs (bs ++ head_bytes o m.msg (length body)) headed_link =
        record {
          pe =
              subst
                (λ n.
                  Ready (Filling size before) o cs (bs ++ head_bytes o m.msg n)
                    (write_head m.msg (length me.rw.unread) l.pe).1)
                (ap length held) behind;
          me = record {
            holds = tt;
            no_error = after.no_error;
            unlimited = after.unlimited;
            order = after.order;
            same_charset = after.same_charset;
            scratch = after.scratch;
          };
        } in
      let (k, done, last) =
        flush-Linked headed_link (bs ++ head_bytes o m.msg (length body)) body held linked in
      (
        k,
        write_msg_done m l k wrote headed done,
        subst (λ q. Linked size before o cs q k)
            (append_assoc bs (head_bytes o m.msg (length body)) body) last,
      )

-- Messages with the bytes that each writes to its buffer, and what the packets carry for them.
abbrev pub carried : ByteOrder → List (Outgoing × Bytes) → Bytes
carried o [] = []
carried o (m ∷ ms) = message_bytes o m.0.msg m.1 ++ carried o ms

abbrev pub outgoing : List (Outgoing × Bytes) → List Outgoing
outgoing [] = []
outgoing (m ∷ ms) = m.0 ∷ outgoing ms

abbrev pub AllWrite : ByteOrder → Option Charset → List (Outgoing × Bytes) → Type 0
AllWrite o cs [] = Unit
AllWrite o cs (m ∷ ms) = WritesBody o cs m.0 m.1 × AllWrite o cs ms

-- A link between messages: no error, no limit, no cancellation is pending, and a packet has room for a byte.
pub record Idle (o : ByteOrder) (cs : Option Charset) (l : Link) : Type 0 where
  pub pe : Ready (λ (b : Buf) (ds : Bytes). Unit {0}) o cs [] l.pe
  pub me : Ready (λ (b : Buffer) (ds : Bytes). Unit {0}) o cs [] l.me
  pub room : header_size < l.pe.rw.packet_size
  pub small : l.pe.rw.packet_size < 2 ^ 16
  pub spid : l.pe.rw.h.spid < 2 ^ 16
  pub headers : HeadersWork l.pe.rw
  pub works : (conn_of l.pe.rw).failure ≡ none
  pub calm : l.pe.rw.in_cancel ≡ false

pub init_pkt-Filling :
    (o : ByteOrder) (cs : Option Charset) (l : Link) (t : ℕ)
    → Idle o cs l
    → Filling l.pe.rw.packet_size (conn_of l.pe.rw).writes (init_pkt t l.pe.rw) []
unfolding init_pkt
init_pkt-Filling o cs l t i =
    let b = l.pe.rw in
    let (headers, conn, begun) = init_pkt_lem t b i.headers in
    record {
      packets = [];
      writes = ap (λ (c : Net). c.writes) conn ∙ sym (append-nil (conn_of b).writes);
      full = tt;
      limit = refl;
      head = (init_pkt t b).h;
      held = [];
      begun = begun ∙ sym (append-nil (header_bytes (init_pkt t b).h));
      same = refl;
      fits = omega (arith, i.room);
      room = i.room;
      small = i.small;
      spid = i.spid;
      head_spid = i.spid;
      headers = headers;
      works = ap (λ (c : Net). c.failure) conn ∙ i.works;
      calm = i.calm;
    }

module _ (size : ℕ) (before : List Bytes) (o : ByteOrder) (cs : Option Charset) where
  write_msgs-Linked :
      (ms : List (Outgoing × Bytes)) (l : Link) (bs : Bytes)
      → AllWrite o cs ms
      → Linked size before o cs bs l
      → (k : Link) × (write_msgs (outgoing ms) l ≡ (k, none))
        × Linked size before o cs (bs ++ carried o ms) k
  unfolding write_msgs
  write_msgs-Linked [] l bs h r =
      (l, refl, subst (λ q. Linked size before o cs q l) (sym (append-nil bs)) r)
  write_msgs-Linked (m ∷ ms) l bs h r =
      let (k, first, linked) = write_msg-Linked size before o cs m.0 l bs m.1 h.0 r in
      let (j, more, done) = write_msgs-Linked ms k (bs ++ message_bytes o m.0.msg m.1) h.1 linked in
      (
        j,
        ground (arith, first, more),
        subst (λ q. Linked size before o cs q j)
            (append_assoc bs (message_bytes o m.0.msg m.1) (carried o ms)) done,
      )

-- Sending messages reports no error, and the connection was given packets that carry each message behind its
-- token and its length, in order: full packets without a bit in the status, and a last one with the bit for the
-- end. The link is idle before, and each message writes its bytes to its buffer with no error.
pub send-Delivered :
    (o : ByteOrder) (cs : Option Charset) (t : ℕ) (ms : List (Outgoing × Bytes)) (l : Link)
    → Idle o cs l
    → AllWrite o cs ms
    → ((send t (outgoing ms) l).1 ≡ none)
      × Delivered
          (conn_of l.pe.rw).writes
          l.pe.rw.packet_size
          (conn_of (send t (outgoing ms) l).0.pe.rw).writes
          (carried o ms)
unfolding send
send-Delivered o cs t ms l i h =
    let begun : Link = record l { pe = record (l.pe) { rw = init_pkt t l.pe.rw } } in
    let linked : Linked l.pe.rw.packet_size (conn_of l.pe.rw).writes o cs [] begun = record {
      pe = record {
        holds = init_pkt-Filling o cs l t i;
        no_error = i.pe.no_error;
        unlimited = i.pe.unlimited;
        order = i.pe.order;
        same_charset = i.pe.same_charset;
        scratch = i.pe.scratch;
      };
      me = i.me;
    } in
    let (k, wrote, filled) =
      write_msgs-Linked l.pe.rw.packet_size (conn_of l.pe.rw).writes o cs ms begun [] h linked in
    let (sent, delivered) =
      send_pkt-Delivered l.pe.rw.packet_size (conn_of l.pe.rw).writes k.pe.rw (carried o ms)
        filled.pe.holds in
    ground (arith, wrote, sent, delivered)
