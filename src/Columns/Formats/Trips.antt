-- ===== src/Columns/Formats/Trips.antt =====
-- The format of a column, written and read back.
use tds.Base.{
  ℕ, ◌%◌, ◌^◌, ◌<◌, ◌≡◌, false, Bool-cases, inl, inr, Option, none, [], ◌∷◌, ◌++◌, Bytes, arith,
  ◌==◌, if◌then◌else◌,
}
use native.Mathlib.Nat.{mod-eq_of_lt}
use tds.Golang.Order.{ByteOrder, put}
use tds.Golang.Io.{ReadWriter}
use tds.Encoder.Ops.{Charset, write_uint8, write_uint32, uint8, uint32}
use tds.Encoder.Ready.{Source, Sink}
use tds.Encoder.Reads.{Reads, Reads-bind, Reads-pure, Reads-uint8, Reads-uint32}
use tds.Encoder.Writes.{Writes, Writes-bind, Writes-pure, Writes-write_uint8, Writes-write_uint32}
use tds.Encoder.Texts.{IsText, text8}
use tds.Encoder.Writes.Texts.{Writes-string8}
use tds.Messages.Codec.{Reads-take_err, Reads-last, Writes-take_err, Writes-last}
use tds.Types.DataTypes.{extended_type}
use tds.Types.Table.{TypeAttribute}
use tds.Columns.{ColType, has}
use tds.Columns.Formats.{
  ColFmt, zero_fmt, names_all, wide, read_if, write_class, write_fmt, read_class, read_fmt,
}
use tds.Columns.Formats.Types.{
  IsSendable, type_bytes, received, Reads-text8, Writes-type, Reads-type,
}

-- The format of a parameter: a type that can be sent, no class, and the names of the column alone.
pub record IsParam (cs : Option Charset) (flags : ℕ) (f : ColFmt) (props : TypeAttribute)
    (r : ColType) : Type 0 where
  pub sendable : IsSendable cs f.col_type props r
  pub short : names_all flags ≡ false
  pub name : IsText cs (2 ^ 8) f.name
  pub few_flags : f.flags < 2 ^ 8
  pub no_class : (f.col_type.data_type == extended_type) ≡ false
  pub found_no_class : (r.data_type == extended_type) ≡ false

abbrev flag_bytes : ByteOrder → ℕ → ℕ → Bytes
flag_bytes o flags n = if has flags wide then put o 4 n else n ∷ []

abbrev pub fmt_bytes : ByteOrder → Option Charset → ℕ → ColFmt → TypeAttribute → Bytes
fmt_bytes o cs flags f props =
    text8 cs f.name ++ (flag_bytes o flags f.flags ++ type_bytes o cs f.col_type props)

-- The format that is read.
abbrev pub received_fmt : ColFmt → TypeAttribute → ColType → ColFmt
received_fmt f props r = record zero_fmt {
  name = f.name;
  flags = f.flags;
  col_type = received f.col_type props r;
}

module _ {S : Type 0} ⦃w : ReadWriter S⦄ (o : ByteOrder) (cs : Option Charset) (flags : ℕ) where
  Writes-flags :
      (snk : Sink S) (n : ℕ)
      → n < 2 ^ 8
      → Writes snk o cs
          (if has flags wide then write_uint32 (n % 2 ^ 32) else write_uint8 (n % 2 ^ 8))
          (flag_bytes o flags n)
          tt
  Writes-flags snk n h = elim (Bool-cases (has flags wide)) [
    | inl e ↦
        let small : n < 2 ^ 32 = omega (arith, h) in
        rw (e, mod-eq_of_lt small) (Writes-write_uint32 snk o cs n)
    | inr e ↦ rw (e, mod-eq_of_lt h) (Writes-write_uint8 snk o cs n)
  ]

  Reads-flags :
      (src : Source S) (n : ℕ)
      → n < 2 ^ 8
      → Reads src o cs (if has flags wide then uint32 else uint8) (flag_bytes o flags n) n
  Reads-flags src n h = elim (Bool-cases (has flags wide)) [
    | inl e ↦ rw e (Reads-uint32 src o cs n (omega (arith, h)))
    | inr e ↦ rw e (Reads-uint8 src o cs n)
  ]

  module _ (f : ColFmt) (props : TypeAttribute) (r : ColType) (g : IsParam cs flags f props r) where
    pub Writes-fmt :
        (snk : Sink S) → Writes snk o cs (write_fmt flags f) (fmt_bytes o cs flags f props) none
    unfolding write_fmt write_class
    Writes-fmt snk = rw (g.short) (
        Writes-bind snk o cs _ (Writes-string8 snk o cs f.name g.name) (
          Writes-bind snk o cs _ (Writes-pure snk o cs tt) (
            Writes-bind snk o cs _ (Writes-pure snk o cs tt) (
              Writes-bind snk o cs _ (Writes-pure snk o cs tt) (
                Writes-bind snk o cs _ (Writes-flags snk f.flags g.few_flags) (
                  Writes-last snk o cs _ (Writes-type o cs f.col_type props r g.sendable snk) (
                    rw (g.no_class) (
                      Writes-last snk o cs _ (Writes-pure snk o cs tt)
                        (Writes-take_err snk o cs)))))))))

    pub Reads-fmt :
        (src : Source S)
        → Reads src o cs
            (read_fmt flags zero_fmt)
            (fmt_bytes o cs flags f props)
            (received_fmt f props r, none)
    unfolding read_fmt read_class read_if
    Reads-fmt src = rw (g.short) (
        Reads-bind src o cs _ (Reads-text8 o cs src f.name g.name) (
          Reads-bind src o cs _ (Reads-pure src o cs []) (
            Reads-bind src o cs _ (Reads-pure src o cs []) (
              Reads-bind src o cs _ (Reads-pure src o cs []) (
                Reads-bind src o cs _ (Reads-pure src o cs []) (
                  Reads-bind src o cs _ (Reads-flags src f.flags g.few_flags) (
                    Reads-last src o cs _ (Reads-type o cs f.col_type props r g.sendable src) (
                      rw (g.found_no_class) (
                        Reads-last src o cs _ (Reads-pure src o cs []) (
                          Reads-last src o cs _ (Reads-take_err src o cs)
                            (Reads-pure src o cs _)))))))))))
