-- ===== src/Decimals/Wire/Money.antt =====
-- num.go and types.go: money on the wire, an integer of 64 bits in ten thousandths.
use tds.Base.{
  ℕ, ◌+◌, ◌*◌, ◌/◌, ◌%◌, ◌^◌, ◌<◌, ◌≡◌, refl, ap, ◌∙◌, subst, true, false, ◌||◌, Option, none, some,
  [], ◌++◌, Bytes, arith, ◌==◌,
}
use tds.Base.Int.{ℤ, pos, u32, u64, i32, i64, IsInt64, i64-u64, u64-lt}
use tds.Golang.Order.{ByteOrder, put}
use tds.Golang.Buffer.{Buffer, buffer}
use tds.Golang.Big.{magnitude}
use tds.Encoder.Ops.{Charset, Encoder, write_int32}
use tds.Encoder.Ready.{Source, Sink, Ready}
use tds.Encoder.Writes.{Writes, Writes-bind, Writes-write_uint32, Writes-write_int32}
use tds.Encoder.Reads.{Reads, Reads-bind, Reads-pure, Reads-uint32}
use tds.Messages.Codec.{
  Writes-take_err, Writes-last, Reads-take_err, Reads-last, Recovers, recovers, Carries,
  buffer_sink, buffer_source,
}
use tds.Golang.Io.{ReadWriter}
use tds.Types.Host.{Host, bytes_value}
use tds.Types.DataTypes.{smallmoney_type, money_n_type, money_type}
use tds.Columns.{ColType}
use tds.Decimals.Num.{Num, num_string}
use tds.Decimals.Wire.{
  write_money, write_integer, encode_money, decimal_num, money_of, decode_money,
}
use tds.Decimals.Wire.Texts.{Prints, Printable}
use tds.Decimals.Wire.Trips.{num_Prints, encode_numeric-integer}

u32-low : (n : ℕ) → n < 2 ^ 32 → u32 (i32 n) ≡ n
u32-low n h = ground arith

halves : (n : ℕ) → n / 2 ^ 32 * 2 ^ 32 + n % 2 ^ 32 ≡ n
halves n = omega arith

not_small : (d : ℕ) → (d == money_n_type || d == money_type) ≡ true → (d == smallmoney_type) ≡ false
not_small d h = ground (arith, h)

abbrev money_bytes : ByteOrder → ℤ → Bytes
money_bytes o z = put o 4 (u64 z / 2 ^ 32) ++ put o 4 (u64 z % 2 ^ 32)

module _ {S : Type 0} ⦃w : ReadWriter S⦄ (o : ByteOrder) (cs : Option Charset) where
  Writes-write_money :
      (snk : Sink S) (z : ℤ) → Writes snk o cs (write_money z) (money_bytes o z) none
  unfolding write_money
  Writes-write_money snk z =
      let low = u64 z % 2 ^ 32 in
      Writes-last snk o cs _
        (Writes-bind snk o cs _ (Writes-write_uint32 snk o cs (u64 z / 2 ^ 32)) (
          subst (λ n. Writes snk o cs (write_int32 (i32 low)) (put o 4 n) tt)
            (u32-low low (omega arith)) (Writes-write_int32 snk o cs (i32 low))))
        (Writes-take_err snk o cs)

  Reads-decode_money :
      (h : Host) (src : Source S) (z : ℤ)
      → IsInt64 z
      → Reads src o cs
          (decode_money {h = h})
          (money_bytes o z)
          (decimal_num (pos 19) (pos 4) z (10 ^ 4), none)
  unfolding decode_money money_of
  Reads-decode_money h src z wide =
      let same : i64 (u64 z / 2 ^ 32 * 2 ^ 32 + u64 z % 2 ^ 32) ≡ z =
        ap i64 (halves (u64 z)) ∙ i64-u64 z wide in
      let high : u64 z / 2 ^ 32 < 2 ^ 32 = omega (arith, u64-lt z) in
      Reads-bind src o cs _ (Reads-uint32 src o cs (u64 z / 2 ^ 32) high) (
        Reads-last src o cs _ (Reads-uint32 src o cs (u64 z % 2 ^ 32) (omega arith))
          (Reads-bind src o cs _ (Reads-take_err src o cs) (rw same (Reads-pure src o cs _))))

module _ (h : Host) {S : Type 0} ⦃w : ReadWriter S⦄ where
  write_integer-money :
      (t : ColType) (z : ℤ)
      → (t.data_type == money_n_type || t.data_type == money_type) ≡ true
      → write_integer h {S = S} t z ≡ write_money z
  unfolding write_integer
  write_integer-money t z kind = rw (not_small t.data_type kind, kind) refl

  encode_money-integer :
      (t : ColType) (z : ℤ) (n : Num)
      → (t.data_type == money_n_type || t.data_type == money_type) ≡ true
      → n.scale ≡ pos 4
      → (x : Prints h.other_form n (10 ^ 4) z)
      → encode_money h {S = S} t (bytes_value x.text) ≡ write_money z
  unfolding encode_money
  encode_money-integer t z n kind scale x =
      let sent = record t { precision = pos 20; scale = pos 4 } in
      encode_numeric-integer h sent 4 z n refl (omega arith) x ∙ write_integer-money sent z kind

-- Money through the wire: of an integer z of 64 bits over 10 ^ 4, what encodeMoney writes for the text of a Num is read back
-- by decodeMoney as the same fraction, and nothing is left over. z has at least four digits, or the fraction is an
-- integer.
pub read-write_money :
    (h : Host) (o : ByteOrder) (cs : Option Charset) (t : ColType) (z : ℤ) (n : Num) (text : Bytes)
    (e : Encoder Buffer)
    → (t.data_type == money_n_type || t.data_type == money_type) ≡ true
    → n.r ≡ record { num = z; den = 10 ^ 4 }
    → n.scale ≡ pos 4
    → IsInt64 z
    → Printable (magnitude z) 4
    → num_string n ≡ some text
    → Ready Carries o cs [] e
    → Recovers o cs
        (encode_money h t (bytes_value text))
        (decode_money {h = h})
        (decimal_num (pos 19) (pos 4) z (10 ^ 4))
        e
read-write_money h o cs t z n text e kind r scale wide long printed ready =
    let x = num_Prints h z 4 n r scale (omega arith) long in
    let same : text ≡ x.text = cc (printed, x.prints) in
    let integer =
      ap (λ s. encode_money h {S = Buffer} t (bytes_value s)) same
      ∙ encode_money-integer h t z n kind scale x in
    let wrote : Writes buffer_sink o cs (encode_money h t (bytes_value text)) (money_bytes o z)
        none =
      rw integer (Writes-write_money o cs buffer_sink z) in
    recovers wrote (Reads-decode_money o cs h buffer_source z wide) ready
