-- ===== src/Decimals/Wire/Trips.antt =====
-- num.go: a decimal number through a column, from the Num to the bytes of its text, to the wire and back.
use tds.Base.{
  ℕ, suc, ◌-◌, ◌*◌, ◌%◌, ◌^◌, ◌<◌, ◌≡◌, refl, ap, sym, ◌∙◌, subst, Bool, true, false, ◌||◌, Option,
  none, some, [], ◌∷◌, length, Bytes, arith, ◌==◌,
}
use native.Mathlib.Nat.{mod-eq_of_lt}
use tds.Base.Int.{ℤ, pos, negsuc, ltb_ℤ}
use tds.Golang.Order.{ByteOrder}
use tds.Golang.Io.{ReadWriter}
use tds.Golang.Buffer.{Buffer, buffer}
use tds.Golang.Radix.Lengths.{bit_len}
use tds.Golang.Big.{Rat, signed, magnitude, mul_int, is_int}
use tds.Golang.Big.Signs.{signed-magnitude, is_negative}
use tds.Encoder.Ops.{Charset, Encoder}
use tds.Encoder.Ready.{Source, Sink, Ready}
use tds.Encoder.Writes.{Writes}
use tds.Encoder.Reads.{Reads, Reads-bind, Reads-uint8}
use tds.Messages.Codec.{Recovers, recovers, Carries, buffer_sink, buffer_source}
use tds.Types.Host.{Host, bytes_value, num_value}
use tds.Types.Table.{TypeAttribute, numeric_writer, numeric_reader}
use tds.Types.DataTypes.{
  smallmoney_type, money_n_type, money_type, decimal_type, numeric_type, decimal_n_type,
  numeric_n_type,
}
use tds.Columns.{ColType}
use tds.Columns.Data.{run_writer, run_reader, write_value, write_data, data_write, data_read}
use tds.Columns.Data.Held.{IsTyped, IsSized}
use tds.Columns.Data.Writing.{data_write-known}
use tds.Columns.Data.Reading.{data_read-known, Reads-sized}
use tds.Decimals.Num.{Num, decimal_power, num_string}
use tds.Decimals.Table.{numeric_size, numeric_size-Fits}
use tds.Decimals.Convert.{scan_text, check_scale, blank, convert_decimal, convert_num, text_value}
use tds.Decimals.Wire.{
  write_sized, write_numeric, write_integer, write_multiplied, write_scanned, encode_numeric,
  decimal_num, decode_numeric, write_decimal, read_decimal, decimals,
}
use tds.Decimals.Wire.Sized.{
  padded, sign_byte, sign_of, Filled, length-padded, length-padded_short, from_padded, size_small,
  sign_byte_lem, Writes-write_sized, Reads-decode_numeric,
}
use tds.Decimals.Wire.Texts.{Scaled, Prints, num_string-Prints, decimal_power_lem, Printable}

abbrev pub is_decimal : ℕ → Bool
is_decimal d =
    d == decimal_type || (d == numeric_type || (d == decimal_n_type || d == numeric_n_type))

check_scale-whole :
    (scale : ℤ) (q : ℕ) (r : Rat)
    → scale ≡ pos q
    → q < 38
    → is_int (mul_int r (10 ^ q)) ≡ true
    → check_scale (decimal_power scale) r ≡ none
unfolding check_scale
check_scale-whole scale q r e small whole = rw (e, decimal_power_lem q small, whole) refl

not_money :
    (d : ℕ)
    → is_decimal d ≡ true
    → ((d == smallmoney_type) ≡ false) × ((d == money_n_type || d == money_type) ≡ false)
not_money d h = (ground (arith, h), ground (arith, h))

-- `t` is a decimal column of precision p and scale q that is written, `s` one of that scale that is read, and k the size
-- of such numbers.
pub record IsDecimal (t s : ColType) (p q k : ℕ) : Type 0 where
  pub props : TypeAttribute
  pub found : TypeAttribute
  pub writes : IsTyped t props
  pub reads : IsSized s found false
  pub no_width : props.num_bytes ≡ 0
  pub writer : props.writer ≡ numeric_writer
  pub reader : found.reader ≡ numeric_reader
  pub kind : is_decimal t.data_type ≡ true
  pub precision : t.precision ≡ pos p
  pub scale : t.scale ≡ pos q
  pub same_precision : s.precision ≡ pos p
  pub same_scale : s.scale ≡ pos q
  pub powers : q < 38
  pub size : numeric_size (pos p) ≡ some k

module _ {S : Type 0} ⦃w : ReadWriter S⦄ where
  write_numeric-size :
      (p k : ℕ) (z : ℤ)
      → numeric_size (pos p) ≡ some k
      → write_numeric {S = S} (pos p) z ≡ write_sized k z
  unfolding write_numeric
  write_numeric-size p k z e = rw (write_numeric, e) refl

scan_text-Prints :
    (h : Host) (fresh n : Num) (q : ℕ) (z : ℤ)
    → fresh.scale ≡ pos q
    → q < 38
    → (x : Prints h.other_form n (10 ^ q) z)
    → scan_text h fresh x.text ≡ (record fresh { r = x.read }, none)
unfolding scan_text
scan_text-Prints h fresh n q z e small x =
    rw (scan_text, x.reads)
      (ap (λ c. (record fresh { r = x.read }, c))
        (check_scale-whole fresh.scale q x.read e small x.scaled.whole))

module _ (h : Host) {S : Type 0} ⦃w : ReadWriter S⦄ where
  write_multiplied-Scaled :
      (t : ColType) (r : Rat) (p : ℕ) (z : ℤ)
      → Scaled r p z
      → write_multiplied h {S = S} t (some p) r ≡ write_integer h t z
  unfolding write_multiplied
  write_multiplied-Scaled t r p z x = simp (x.whole, x.same) refl

  write_integer-decimal :
      (t s : ColType) (p q k : ℕ) (z : ℤ)
      → IsDecimal t s p q k
      → write_integer h {S = S} t z ≡ write_sized k z
  unfolding write_integer write_numeric
  write_integer-decimal t s p q k z c =
      let (small, money) = not_money t.data_type c.kind in
      simp (small, money, c.kind, c.precision) (write_numeric-size p k z c.size)

  -- The text of a Num is read, and the integer that it was made of is written.
  pub encode_numeric-integer :
      (t : ColType) (q : ℕ) (z : ℤ) (n : Num)
      → t.scale ≡ pos q
      → q < 38
      → (x : Prints h.other_form n (10 ^ q) z)
      → encode_numeric h {S = S} t (bytes_value x.text) ≡ write_integer h t z
  unfolding encode_numeric write_scanned
  encode_numeric-integer t q z n scale small x =
      ap (write_scanned h t) (scan_text-Prints h (blank h t.precision t.scale) n q z scale small x)
      ∙ ap (λ o. write_multiplied h t o x.read) (ap decimal_power scale ∙ decimal_power_lem q small)
      ∙ write_multiplied-Scaled t x.read (10 ^ q) z x.scaled

  encode_numeric-decimal :
      (t s : ColType) (p q k : ℕ) (z : ℤ) (n : Num)
      → IsDecimal t s p q k
      → (x : Prints h.other_form n (10 ^ q) z)
      → encode_numeric h {S = S} t (bytes_value x.text) ≡ write_sized k z
  encode_numeric-decimal t s p q k z n c x =
      encode_numeric-integer t q z n c.scale c.powers x ∙ write_integer-decimal t s p q k z c

module _ (h : Host) (o : ByteOrder) (cs : Option Charset) where
  Writes-decimal :
      {S : Type 0} ⦃w : ReadWriter S⦄ (snk : Sink S) (t s : ColType) (p q k : ℕ) (z : ℤ) (n : Num)
      → IsDecimal t s p q k
      → k < 34
      → (x : Prints h.other_form n (10 ^ q) z)
      → Writes snk o cs
          (data_write (decimals {h = h}) t (bytes_value x.text))
          (k ∷ sign_byte z ∷ padded k (magnitude z))
          none
  unfolding write_data write_value run_writer write_decimal
  Writes-decimal snk t s p q k z n c small x =
      let wrote = Writes-write_sized snk o cs k z in
      rw
        (
          data_write-known (decimals {h = h}) o cs t c.props (bytes_value x.text) c.writes,
          c.no_width,
          c.writer,
        )
        (rw (encode_numeric-decimal h t s p q k z n c x) (
          subst
            (λ a. Writes snk o cs (write_sized k z) (a ∷ sign_byte z ∷ padded k (magnitude z)) none)
            (mod-eq_of_lt (size_small k small)) wrote))

  Reads-decimal :
      {S : Type 0} ⦃w : ReadWriter S⦄ (src : Source S) (t s : ColType) (p q k : ℕ) (z : ℤ)
      → IsDecimal t s p q k
      → 0 < k
      → length (padded k (magnitude z)) ≡ k - 1
      → Reads src o cs
          (data_read (decimals {h = h}) s)
          (k ∷ sign_byte z ∷ padded k (magnitude z))
          (decimal_num (pos p) (pos q) z (10 ^ q), none)
  unfolding run_reader read_decimal
  Reads-decimal src t s p q k z c some_size same_size =
      let power = ap decimal_power c.same_scale ∙ decimal_power_lem q c.powers in
      let m = magnitude z in
      let b = is_negative z in
      let same_num : decimal_num {h = h} s.precision s.scale (signed b m) (10 ^ q)
          ≡ decimal_num (pos p) (pos q) z (10 ^ q) =
        rw (c.same_precision, c.same_scale, signed-magnitude z) refl in
      rw (data_read-known (decimals {h = h}) o cs s c.found c.reads) (
        Reads-bind src o cs _ (Reads-uint8 src o cs k) (
          Reads-sized (decimals {h = h}) o cs src s c.found k some_size (
            rw c.reader (
              rw (sign_byte_lem z) (
                subst
                  (λ x.
                    Reads src o cs (decode_numeric {h = h} (record s { buffer_size = k }))
                      (sign_of b ∷ padded k m) (x, none))
                  same_num
                  (Reads-decode_numeric src o cs (record s { buffer_size = k }) b m q (padded k m)
                    some_size same_size (from_padded k m) power))))))

negative-some : (z : ℤ) → is_negative z ≡ true → 0 < magnitude z
negative-some (pos n) h = absurd (cc)
negative-some (negsuc n) h = omega arith

pub num_Prints :
    (h : Host) (z : ℤ) (q : ℕ) (n : Num)
    → n.r ≡ record { num = z; den = 10 ^ q }
    → n.scale ≡ pos q
    → q < 38
    → Printable (magnitude z) q
    → Prints h.other_form n (10 ^ q) z
num_Prints h z q n e f small long =
    let same = signed-magnitude z in
    subst (Prints h.other_form n (10 ^ q)) same (
      num_string-Prints h.other_form (is_negative z) (magnitude z) q n
        (e ∙ ap (λ x. record { num = x; den = 10 ^ q }) (sym same)) f small (negative-some z) long)

not_below : (p : ℕ) → ltb_ℤ (pos p) (pos p) ≡ false
not_below p = ground arith

-- The converter of a column of its precision and scale gives the text of a Num.
convert-text :
    (h : Host) (p q : ℕ) (n : Num) (text : Bytes)
    → n.is_null ≡ false
    → n.precision ≡ pos p
    → n.scale ≡ pos q
    → num_string n ≡ some text
    → convert_decimal h (pos p) (pos q) (num_value n) ≡ (bytes_value text, none)
unfolding convert_decimal convert_num text_value
convert-text h p q n text a b c e = simp (a, b, c, not_below p, not_below q, e) refl

abbrev num_of : ℕ → ℕ → ℤ → Num
num_of p q z = record {
  r = record { num = z; den = 10 ^ q };
  precision = pos p;
  scale = pos q;
  is_null = false;
}

-- A decimal number through a column: of an integer z over 10 ^ q, with z of at most p digits, the column's converter makes
-- a text, and what is written for the text is read back as the same fraction with the same precision and scale, and
-- nothing is left over. The number of bits of z is not a multiple of 8, or is that of all the bytes behind the
-- sign (so z is not 0), and z has at least q digits, or the fraction is an integer; q is below 38.
pub read-write_decimal :
    (h : Host) (o : ByteOrder) (cs : Option Charset) (t s : ColType) (p q k : ℕ) (z : ℤ)
    (e : Encoder Buffer)
    → IsDecimal t s p q k
    → magnitude z < 10 ^ p
    → Filled k (magnitude z)
    → Printable (magnitude z) q
    → Ready Carries o cs [] e
    → (text : Bytes) × (convert_decimal h (pos p) (pos q) (decimal_num (pos p) (pos q) z (10 ^ q))
        ≡ (bytes_value text, none))
      × Recovers o cs
          (data_write (decimals {h = h}) t (bytes_value text))
          (data_read (decimals {h = h}) s)
          (decimal_num (pos p) (pos q) z (10 ^ q))
          e
read-write_decimal h o cs t s p q k z e c small partial long ready =
    let n = num_of p q z in
    let x = num_Prints h z q n refl refl c.powers long in
    let f = numeric_size-Fits p k c.size in
    let m = magnitude z in
    let full = length-padded k m f.signed (omega (arith, f.room, small)) partial in
    let wrote = Writes-decimal h o cs buffer_sink t s p q k z n c f.small x in
    (
      x.text,
      convert-text h p q n x.text refl refl refl x.prints,
      recovers wrote (Reads-decimal h o cs buffer_source t s p q k z c f.signed full) ready,
    )

-- Otherwise a byte is missing: if the number of bits of z is a multiple of 8, 0 included, and not that of all the bytes
-- behind the sign, the column's converter makes a text, and what is written for the text is the length k of the
-- column's precision and then only k - 1 bytes.
pub write_decimal-short :
    (h : Host) (o : ByteOrder) (cs : Option Charset) (t s : ColType) (p q k : ℕ) (z : ℤ)
    → IsDecimal t s p q k
    → bit_len (magnitude z) % 8 ≡ 0
    → bit_len (magnitude z) < 8 * (k - 1)
    → Printable (magnitude z) q
    → (text : Bytes) × (bs : Bytes) × (convert_decimal h
          (pos p)
          (pos q)
          (decimal_num (pos p) (pos q) z (10 ^ q))
        ≡ (bytes_value text, none))
      × Writes buffer_sink o cs (data_write (decimals {h = h}) t (bytes_value text)) (k ∷ bs) none
      × (suc (length bs) ≡ k)
write_decimal-short h o cs t s p q k z c whole room long =
    let n = num_of p q z in
    let x = num_Prints h z q n refl refl c.powers long in
    let f = numeric_size-Fits p k c.size in
    let m = magnitude z in
    (
      x.text,
      sign_byte z ∷ padded k m,
      convert-text h p q n x.text refl refl refl x.prints,
      Writes-decimal h o cs buffer_sink t s p q k z n c f.small x,
      length-padded_short k m whole room,
    )
