-- ===== src/Decimals/Wire/Sized.antt =====
-- num.go: the bytes of a decimal number behind its length, written and read.
use tds.Base.{
  ℕ, suc, ◌-◌, ◌*◌, ◌/◌, ◌%◌, ◌^◌, ◌<◌, ◌≡◌, ◌⊎◌, refl, sym, ◌∙◌, Bool, true, false, Option, none,
  some, [], ◌∷◌, ◌++◌, length, replicate, length-append, length-replicate, Bytes, arith,
  if◌then◌else◌, ==-false,
}
use tds.Base.Int.{ℤ, pos, negsuc, u8, ltb_ℤ}
use tds.Golang.Order.{ByteOrder}
use tds.Golang.Io.{ReadWriter}
use tds.Golang.Buffer.{buffer}
use tds.Golang.Radix.{radix, from_radix, from_radix-radix, from_radix-zeros}
use tds.Golang.Radix.Lengths.{bit_len, length-bytes, length-bytes_le}
use tds.Golang.Big.{signed, magnitude, neg}
use tds.Golang.Big.Signs.{is_negative}
use tds.Encoder.Ops.{Charset, int8}
use tds.Encoder.Ready.{Source, Sink}
use tds.Encoder.Writes.{
  Writes, Writes-bind, Writes-write, Writes-write_int8, Writes-write_byte, Writes-pad,
}
use tds.Encoder.Reads.{Reads, Reads-bind, Reads-pure, Reads-read, Reads-int8}
use tds.Messages.Codec.{Writes-take_err, Writes-last, Reads-take_err, Reads-last}
use tds.Types.Host.{Host}
use tds.Columns.{ColType}
use tds.Decimals.Num.{decimal_power}
use tds.Decimals.Wire.{write_sized, decimal_num, signed_rat, decode_fraction, decode_numeric}

-- The bytes of a magnitude that fill the k - 1 bytes behind the sign.
abbrev pub padded : ℕ → ℕ → Bytes
padded k m = replicate (k - bit_len m / 8 - 2) 0 ++ radix (2 ^ 8) m

abbrev pub sign_byte : ℤ → ℕ
sign_byte z = if ltb_ℤ z (pos 0) then 1 else 0

-- The bytes fill the k - 1 bytes behind the sign, or the first of them is not full.
abbrev pub Filled : ℕ → ℕ → Type 0
Filled k m = (0 < bit_len m % 8) ⊎ (bit_len m ≡ 8 * (k - 1))

pub length-padded :
    (k m : ℕ) → 0 < k → m < (2 ^ 8) ^ (k - 1) → Filled k m → length (padded k m) ≡ k - 1
length-padded k m h room full = omega (
  arith,
  full,
  length-append (replicate (k - bit_len m / 8 - 2) 0) (radix (2 ^ 8) m),
  length-replicate {A = ℕ} (k - bit_len m / 8 - 2) 0,
  length-bytes m,
  length-bytes_le (k - 1) m room,
)

-- Else a byte is missing.
pub length-padded_short :
    (k m : ℕ) → bit_len m % 8 ≡ 0 → bit_len m < 8 * (k - 1) → suc (suc (length (padded k m))) ≡ k
length-padded_short k m whole room = omega (
  arith,
  length-append (replicate (k - bit_len m / 8 - 2) 0) (radix (2 ^ 8) m),
  length-replicate {A = ℕ} (k - bit_len m / 8 - 2) 0,
  length-bytes m,
)

pub from_padded : (k m : ℕ) → from_radix (2 ^ 8) 0 (padded k m) ≡ m
from_padded k m =
    from_radix-zeros (2 ^ 8) (k - bit_len m / 8 - 2) (radix (2 ^ 8) m)
    ∙ from_radix-radix (2 ^ 8) (omega arith) m

module _ {S : Type 0} ⦃w : ReadWriter S⦄ (snk : Sink S) (o : ByteOrder) (cs : Option Charset) where
  pub Writes-write_sized :
      (k : ℕ) (z : ℤ)
      → Writes snk o cs (write_sized k z) (u8 (pos k) ∷ sign_byte z ∷ padded k (magnitude z)) none
  unfolding write_sized
  Writes-write_sized k z = Writes-bind snk o cs _ (Writes-write_int8 snk o cs (pos k)) (
      Writes-bind snk o cs _ (Writes-write_byte snk o cs (sign_byte z)) (
        Writes-bind snk o cs _ (Writes-pad snk o cs 0 (k - bit_len (magnitude z) / 8 - 2)) (
          Writes-last snk o cs _ (Writes-write snk o cs (radix (2 ^ 8) (magnitude z)))
            (Writes-take_err snk o cs))))

pub size_small : (k : ℕ) → k < 34 → k < 2 ^ 8
size_small k h = omega (arith, h)

-- The sign on the wire, and the Num that is read with it.
abbrev pub sign_of : Bool → ℕ
sign_of b = if b then 1 else 0

pub sign_byte_lem : (z : ℤ) → sign_byte z ≡ sign_of (is_negative z)
sign_byte_lem (pos n) = ground arith
sign_byte_lem (negsuc n) = ground arith

signed_rat_lem :
    (b : Bool) (m p : ℕ)
    → signed_rat (pos (sign_of b)) (record { num = pos m; den = p })
      ≡ record { num = signed b m; den = p }
signed_rat_lem false m p = refl
signed_rat_lem true m p = unfold neg in refl

module _ {S : Type 0} ⦃w : ReadWriter S⦄ (src : Source S) (o : ByteOrder)
    (cs : Option Charset) where
  Reads-sign : (b : Bool) → Reads src o cs int8 (sign_of b ∷ []) (pos (sign_of b))
  Reads-sign false = Reads-int8 src o cs (pos 0) (omega arith)
  Reads-sign true = Reads-int8 src o cs (pos 1) (omega arith)

module _ {h : Host} {S : Type 0} ⦃w : ReadWriter S⦄ (src : Source S) (o : ByteOrder)
    (cs : Option Charset) where
  Reads-fraction :
      (t : ColType) (b : Bool) (m p : ℕ)
      → Reads src o cs
          (decode_fraction t (pos (sign_of b)) (record { num = pos m; den = p }))
          []
          (decimal_num {h = h} t.precision t.scale (signed b m) p, none)
  unfolding decode_fraction
  Reads-fraction t b m p =
      Reads-bind src o cs _ (Reads-take_err src o cs)
        (rw (signed_rat_lem b m p) (Reads-pure src o cs _))

  pub Reads-decode_numeric :
      (t : ColType) (b : Bool) (m q : ℕ) (bs : Bytes)
      → 0 < t.buffer_size
      → length bs ≡ t.buffer_size - 1
      → from_radix (2 ^ 8) 0 bs ≡ m
      → decimal_power t.scale ≡ some (10 ^ q)
      → Reads src o cs
          (decode_numeric {h = h} t)
          (sign_of b ∷ bs)
          (decimal_num t.precision t.scale (signed b m) (10 ^ q), none)
  unfolding decode_numeric
  Reads-decode_numeric t b m q bs some_size same_size same_number power =
      let room = replicate (t.buffer_size - 1) 0 in
      Reads-bind src o cs _ (Reads-sign src o cs b) (
        rw (==-false t.buffer_size 0 some_size) (
          Reads-last src o cs _
            (Reads-read src o cs bs room
              (same_size ∙ sym (length-replicate {A = ℕ} (t.buffer_size - 1) 0)))
            (rw (power, same_number) (Reads-fraction t b m (10 ^ q)))))
