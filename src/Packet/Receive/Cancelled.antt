-- ===== src/Packet/Receive/Cancelled.antt =====
-- processCancel of buffer.go: it reads up to the packet that acknowledges a cancellation.
use tds.Base.{
  ℕ, zero, suc, ◌+◌, ◌<◌, ◌≤◌, ◌≡◌, refl, sym, ap, ◌∙◌, subst, Bool, true, false, Option, none,
  some, List, [], ◌∷◌, ◌++◌, length, length-append, arith, All,
}
use tds.Golang.Errors.{Error}
use tds.Packet.{
  Buf, pb_of, conn_of, has_flag, fill_pkt, read_pkt_ignoring, read_until_last, check_cancel_ack,
  process_cancel,
}
use tds.Packet.Types.{eom, cancel_ack, normal_packet}
use tds.Packet.Frames.{Frame, header_bytes, stream}
use tds.Packet.Send.Calm.{length-header_bytes}
use tds.Packet.Receive.{Awaits, read_pkt-Awaits}

-- The buffer with no cancellation pending.
abbrev pub calmed : Buf → Buf
calmed b = record b { in_cancel = false }

fill_pkt-in_cancel :
    (c : Bool) (b : Buf) (err : Option Error)
    → fill_pkt (record b { in_cancel = c }) err
      ≡ (record ((fill_pkt b err).0) { in_cancel = c }, (fill_pkt b err).1)
unfolding fill_pkt
fill_pkt-in_cancel c b none = refl
fill_pkt-in_cancel c b (some e) = refl

-- Whether a cancellation is pending does not matter to readPkt(true).
read_pkt-in_cancel :
    (c : Bool) (b : Buf)
    → read_pkt_ignoring (record b { in_cancel = c })
      ≡ (record ((read_pkt_ignoring b).0) { in_cancel = c }, (read_pkt_ignoring b).1)
unfolding read_pkt_ignoring
read_pkt-in_cancel c b = fill_pkt-in_cancel c _ _

-- A packet without the bit for the end of a message.
abbrev pub GoesOn : Frame → Type 0
GoesOn f = has_flag f.head.status eom ≡ false

fill_pkt-cancel_ch : (b : Buf) (err : Option Error) → (fill_pkt b err).0.cancel_ch ≡ b.cancel_ch
unfolding fill_pkt
fill_pkt-cancel_ch b none = refl
fill_pkt-cancel_ch b (some e) = refl

read_pkt-cancel_ch : (b : Buf) → (read_pkt_ignoring b).0.cancel_ch ≡ b.cancel_ch
unfolding read_pkt_ignoring
read_pkt-cancel_ch b = fill_pkt-cancel_ch _ _

-- What a packet that is read leaves, whether a cancellation is pending or not.
record After (b d : Buf) (f : Frame) (fs : List Frame) : Type 0 where
  head : d.h ≡ f.head
  payload : pb_of d ≡ f.payload
  same_ch : d.cancel_ch ≡ b.cancel_ch
  awaits : Awaits (calmed d) fs

read_pkt-After :
    (b : Buf) (f : Frame) (fs : List Frame)
    → Awaits (calmed b) (f ∷ fs)
    → After b (read_pkt_ignoring b).0 f fs
read_pkt-After b f fs a =
    let (d, read, held, awaits, head, size) = read_pkt-Awaits (calmed b) f fs a in
    let same : calmed (read_pkt_ignoring b).0 ≡ d =
      ap (λ (r : Buf × Option Error). r.0) (sym (read_pkt-in_cancel false b) ∙ read) in
    record {
      head = ap (λ (x : Buf). x.h) same ∙ head;
      payload = ap (λ (x : Buf). pb_of x) same ∙ held;
      same_ch = read_pkt-cancel_ch b;
      awaits = subst (λ x. Awaits x fs) (sym same) awaits;
    }

-- One round of the loop, and its end.
read_until_last-next :
    (fuel : ℕ) (b : Buf)
    → has_flag b.h.status eom ≡ false
    → read_until_last (suc fuel) b ≡ read_until_last fuel (read_pkt_ignoring b).0
unfolding read_until_last
read_until_last-next fuel b e = rw e refl

read_until_last-done :
    (fuel : ℕ) (b : Buf) → has_flag b.h.status eom ≡ true → read_until_last (suc fuel) b ≡ some b
unfolding read_until_last
read_until_last-done fuel b e = rw e refl

-- The rounds go on to the first packet with the bit for the end.
read_until_last-eom :
    (fuel : ℕ) (b : Buf) (fs : List Frame) (f : Frame) (gs : List Frame)
    → Awaits (calmed b) (fs ++ f ∷ gs)
    → has_flag b.h.status eom ≡ false
    → All GoesOn fs
    → has_flag f.head.status eom ≡ true
    → length fs < fuel
    → (d : Buf) × (read_until_last (suc fuel) b ≡ some d)
      × (d.h ≡ f.head)
      × (d.cancel_ch ≡ b.cancel_ch)
      × Awaits (calmed d) gs
read_until_last-eom zero b fs f gs a going goes ends enough = absurd (omega arith)
read_until_last-eom (suc fuel) b [] f gs a going goes ends enough =
    let d = (read_pkt_ignoring b).0 in
    let after = read_pkt-After b f gs a in
    (
      d,
      read_until_last-next (suc fuel) b going
          ∙ read_until_last-done fuel d (ap (λ h. has_flag h.status eom) after.head ∙ ends),
      after.head,
      after.same_ch,
      after.awaits,
    )
read_until_last-eom (suc fuel) b (g ∷ fs) f gs a going goes ends enough =
    let after = read_pkt-After b g (fs ++ f ∷ gs) a in
    let (d, rest, head, same_ch, awaits) =
      read_until_last-eom fuel (read_pkt_ignoring b).0 fs f gs after.awaits
        (ap (λ h. has_flag h.status eom) after.head ∙ goes.0) goes.1 ends (omega (arith, enough)) in
    (d, read_until_last-next (suc fuel) b going ∙ rest, head, same_ch ∙ after.same_ch, awaits)

-- A packet takes eight bytes of the input at least.
length-stream : (fs : List Frame) → length fs ≤ length (stream fs)
length-stream [] = omega arith
length-stream (f ∷ fs) = omega (
  arith,
  length-stream fs,
  length-append (header_bytes f.head) (f.payload ++ stream fs),
  length-append f.payload (stream fs),
  length-header_bytes f.head,
)

process_cancel-until :
    (b d : Buf) (err : Option Error) (rest : List (Option Error))
    → b.cancel_ch ≡ err ∷ rest
    → read_until_last (length (conn_of b).input + 1) (record b { cancel_ch = rest }) ≡ some d
    → process_cancel b
      ≡ (record ((check_cancel_ack err d).0) { in_cancel = false }, (check_cancel_ack err d).1)
unfolding process_cancel
process_cancel-until b d err rest ch e = ground (arith, ch, e)

check_cancel_ack-normal :
    (err : Option Error) (d : Buf)
    → d.h.token ≡ normal_packet
    → has_flag d.h.status cancel_ack ≡ true
    → check_cancel_ack err d ≡ (d, err)
unfolding check_cancel_ack
check_cancel_ack-normal err d t s = simp (t, s) refl

-- Once the cancellation put its error (that of the context) on the channel, and if the packets to come hold one with the bit for
-- the end of a message, and the first such is a normal packet that acknowledges the cancellation, then processCancel
-- ends: it returns that error, the channel has lost it, and the buffer is ready for the packets that follow, with no
-- cancellation pending. The last packet that was read before did not have that bit, and the header encoder works.
pub process_cancel-acknowledged :
    (b : Buf) (err : Option Error) (rest : List (Option Error)) (fs : List Frame) (f : Frame)
    (gs : List Frame)
    → b.cancel_ch ≡ err ∷ rest
    → Awaits (calmed b) (fs ++ f ∷ gs)
    → has_flag b.h.status eom ≡ false
    → All GoesOn fs
    → has_flag f.head.status eom ≡ true
    → f.head.token ≡ normal_packet
    → has_flag f.head.status cancel_ack ≡ true
    → ((process_cancel b).1 ≡ err)
      × ((process_cancel b).0.cancel_ch ≡ rest)
      × Awaits (process_cancel b).0 gs
process_cancel-acknowledged b err rest fs f gs ch a going goes ends normal acknowledged =
    let c = record b { cancel_ch = rest } in
    let waiting : Awaits (calmed c) (fs ++ f ∷ gs) = record {
      input = a.input;
      frames = a.frames;
      calm = refl;
      no_error = a.no_error;
      unlimited = a.unlimited;
      order = a.order;
      scratch = a.scratch;
    } in
    let enough : length fs < length (conn_of b).input =
      omega (arith, length-stream (fs ++ f ∷ gs), ap length a.input, length-append fs (f ∷ gs)) in
    let (d, until, head, same_ch, awaits) =
      read_until_last-eom (length (conn_of b).input) c fs f gs waiting going goes ends enough in
    let until_last : read_until_last (length (conn_of b).input + 1) c ≡ some d =
      subst (λ k. read_until_last k c ≡ some d) (omega arith) until in
    let checked =
      check_cancel_ack-normal err d (ap (λ h. h.token) head ∙ normal)
        (ap (λ h. has_flag h.status cancel_ack) head ∙ acknowledged) in
    rw (process_cancel-until b d err rest ch until_last, checked) (refl, same_ch, awaits)
