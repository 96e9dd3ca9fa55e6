-- ===== src/Columns/Formats/Types.antt =====
-- The type of a column, written and read back.
use tds.Base.{
  ℕ, ◌^◌, ◌<◌, ◌≡◌, subst, Bool, true, false, ◌||◌, Bool-cases, inl, inr, Option, none, some, [],
  ◌∷◌, ◌++◌, Bytes, arith, ◌==◌, if◌then◌else◌,
}
use native.Mathlib.Nat.{mod-eq_of_lt}
use tds.Base.Int.{pos, u8, u32, i8, IsInt8, IsInt32}
use tds.Golang.Order.{ByteOrder, put}
use tds.Golang.Io.{ReadWriter}
use tds.Encoder.Ops.{Charset, M, write_int8}
use tds.Encoder.Ready.{Source, Sink}
use tds.Encoder.Reads.{
  Reads, Reads-bind, Reads-pure, Reads-unless_failed, Reads-uint8, Reads-uint32, Reads-int8,
  Reads-int32, Reads-read_byte,
}
use tds.Encoder.Writes.{
  Writes, Writes-bind, Writes-pure, Writes-write_byte, Writes-write_uint8, Writes-write_int8,
  Writes-write_int32, Writes-write_uint32,
}
use tds.Encoder.Texts.{IsText, text8, text16}
use tds.Encoder.Strings.{read_string, read_len}
use tds.Encoder.Reads.Texts.{Reads-string8, Reads-string16}
use tds.Encoder.Writes.Texts.{Writes-string16}
use tds.Messages.Codec.{Reads-last, Writes-last}
use tds.Types.Table.{TypeAttribute, has_length, has_prec, has_scale, is_nullable, is_long, is_lob}
use tds.Columns.{ColType, zero_type, get_type_properties, has}
use tds.Columns.Formats.{
  size_or, when, write_type_size, write_type, read_if, text_of, read_type_size, read_details,
  with_properties, read_type,
}

-- A type that can be sent: its properties, and the type `r` that whoever reads it finds for what is sent.
pub record IsSendable (cs : Option Charset) (t : ColType) (props : TypeAttribute) (r : ColType)
    : Type 0 where
  pub valid : t.valid ≡ true
  pub known : t.encoding_props ≡ some props
  pub found :
      get_type_properties
        (record zero_type { user_type = t.user_type; data_type = props.encoding_type })
      ≡ (r, none)
  pub user_type : IsInt32 t.user_type
  pub long : has r.options is_long ≡ has t.options is_long
  pub lob : has r.options is_lob ≡ has t.options is_lob
  pub prec : has r.options has_prec ≡ has t.options has_prec
  pub scaled : has r.options has_scale ≡ has t.options has_scale
  pub sized : (has r.options has_length || has r.options is_nullable) ≡ true
  pub size : t.size < 2 ^ 8
  pub num_bytes : props.num_bytes < 2 ^ 7
  pub table : IsText cs (2 ^ 16) t.table
  pub precision : IsInt8 t.precision
  pub scale : IsInt8 t.scale

-- The bytes of a part that is written under a condition.
abbrev if_bytes : Bool → Bytes → Bytes
if_bytes b bs = if b then bs else []

abbrev size_bytes : ByteOrder → ColType → TypeAttribute → Bytes
size_bytes o t props =
    if has t.options is_long then put o 4 (size_or t props) else size_or t props ∷ []

-- The bytes of a type.
abbrev pub type_bytes : ByteOrder → Option Charset → ColType → TypeAttribute → Bytes
type_bytes o cs t props =
    put o 4 (u32 t.user_type)
    ++ ((props.encoding_type ∷ [])
        ++ (size_bytes o t props
            ++ (if_bytes (has t.options is_lob) (text16 o cs t.table)
                ++ (if_bytes (has t.options has_prec) (u8 t.precision ∷ [])
                    ++ (if_bytes (has t.options has_scale) (u8 t.scale ∷ []) ++ (0 ∷ []))))))

-- The type that is read.
abbrev pub received : ColType → TypeAttribute → ColType → ColType
received t props r = record r {
  size = size_or t props;
  table = if has t.options is_lob then t.table else r.table;
  precision = if has t.options has_prec then t.precision else r.precision;
  scale = if has t.options has_scale then t.scale else r.scale;
  locale = [];
}

u8-i8_small : (n : ℕ) → n < 2 ^ 7 → u8 (i8 n) ≡ n
u8-i8_small n h = ground arith

size_or-lt :
    (t : ColType) (props : TypeAttribute)
    → t.size < 2 ^ 8
    → props.num_bytes < 2 ^ 7
    → size_or t props < 2 ^ 8
size_or-lt t props h k = ground (arith, h, k)

module _ {S : Type 0} ⦃w : ReadWriter S⦄ (o : ByteOrder) (cs : Option Charset) where
  Writes-when :
      (snk : Sink S) (b : Bool) {m : M S (Unit {0})} {bs : Bytes}
      → Writes snk o cs m bs tt
      → Writes snk o cs (when b m) (if_bytes b bs) tt
  Writes-when snk true k = k
  Writes-when snk false k = Writes-pure snk o cs tt

  Reads-if :
      (src : Source S) (b : Bool) {A : Type 0} (old a : A) {m : M S A} {bs : Bytes}
      → Reads src o cs m bs a
      → Reads src o cs (read_if b old m) (if_bytes b bs) (if b then a else old)
  unfolding read_if
  Reads-if src true old a k = k
  Reads-if src false old a k = Reads-pure src o cs old

  Writes-size :
      (snk : Sink S) (t : ColType) (props : TypeAttribute)
      → t.size < 2 ^ 8
      → props.num_bytes < 2 ^ 7
      → Writes snk o cs (write_type_size t props) (size_bytes o t props) tt
  unfolding write_type_size
  Writes-size snk t props h k = elim (Bool-cases (has t.options is_long)) [
    | inl e ↦
        let small : size_or t props < 2 ^ 32 = omega (arith, size_or-lt t props h k) in
        rw (e, mod-eq_of_lt small) (Writes-write_uint32 snk o cs (size_or t props))
    | inr e ↦ elim (Bool-cases (t.size == 0)) [
      | inl z ↦
          rw (e, z)
            (subst (λ n. Writes snk o cs (write_int8 (i8 props.num_bytes)) (n ∷ []) tt)
              (u8-i8_small props.num_bytes k) (Writes-write_int8 snk o cs (i8 props.num_bytes)))
      | inr z ↦ rw (e, z, mod-eq_of_lt h) (Writes-write_uint8 snk o cs t.size)
    ]
  ]

  Reads-size :
      (src : Source S) (t r : ColType) (props : TypeAttribute) (old : ℕ)
      → t.size < 2 ^ 8
      → props.num_bytes < 2 ^ 7
      → (has r.options has_length || has r.options is_nullable) ≡ true
      → has r.options is_long ≡ has t.options is_long
      → Reads src o cs (read_type_size r.options old) (size_bytes o t props) (size_or t props)
  unfolding read_type_size read_if
  Reads-size src t r props old h k sized same = elim (Bool-cases (has t.options is_long)) [
    | inl e ↦
        rw (sized, same, e)
          (Reads-uint32 src o cs (size_or t props) (omega (arith, size_or-lt t props h k)))
    | inr e ↦ rw (sized, same, e) (Reads-uint8 src o cs (size_or t props))
  ]

  Reads-no_text : (src : Source S) → Reads src o cs (text_of 8) (0 ∷ []) []
  unfolding read_string read_len
  Reads-no_text src =
      Reads-last src o cs _
        (Reads-unless_failed src o cs _ (
          Reads-last src o cs _ (Reads-uint8 src o cs 0)
            (Reads-unless_failed src o cs _ (Reads-pure src o cs ([], 0)))))
        (Reads-pure src o cs [])

  pub Reads-text8 :
      (src : Source S) (s : Bytes) → IsText cs (2 ^ 8) s → Reads src o cs (text_of 8) (text8 cs s) s
  Reads-text8 src s g = Reads-last src o cs _ (Reads-string8 src o cs s g) (Reads-pure src o cs s)

  Reads-text16 :
      (src : Source S) (s : Bytes)
      → IsText cs (2 ^ 16) s
      → Reads src o cs (text_of 16) (text16 o cs s) s
  Reads-text16 src s g = Reads-last src o cs _ (Reads-string16 src o cs s g) (Reads-pure src o cs s)

  module _ (t : ColType) (props : TypeAttribute) (r : ColType) (g : IsSendable cs t props r) where
    pub Writes-type : (snk : Sink S) → Writes snk o cs (write_type t) (type_bytes o cs t props) none
    unfolding write_type
    Writes-type snk =
        simp (g.valid, g.known)
          (Writes-bind snk o cs _ (Writes-write_int32 snk o cs t.user_type) (
            Writes-bind snk o cs _ (Writes-write_byte snk o cs props.encoding_type) (
              Writes-bind snk o cs _ (Writes-size snk t props g.size g.num_bytes) (
                Writes-bind snk o cs _
                  (Writes-when snk (has t.options is_lob)
                    (Writes-string16 snk o cs t.table g.table))
                  (Writes-bind snk o cs _
                    (Writes-when snk (has t.options has_prec)
                      (Writes-write_int8 snk o cs t.precision))
                    (Writes-bind snk o cs _
                      (Writes-when snk (has t.options has_scale)
                        (Writes-write_int8 snk o cs t.scale))
                      (Writes-last snk o cs _ (Writes-write_int8 snk o cs (pos 0))
                        (Writes-pure snk o cs none))))))))

    pub Reads-type :
        (src : Source S)
        → Reads src o cs (read_type zero_type) (type_bytes o cs t props) (received t props r, none)
    unfolding read_type with_properties read_details
    Reads-type src = Reads-bind src o cs _ (Reads-int32 src o cs t.user_type g.user_type) (
        Reads-bind src o cs _ (Reads-read_byte src o cs props.encoding_type) (
          rw (g.found) (
            Reads-bind src o cs _
              (Reads-size src t r props r.size g.size g.num_bytes g.sized g.long)
              (rw (g.lob, g.prec, g.scaled)
                (Reads-bind src o cs _
                  (Reads-if src (has t.options is_lob) r.table t.table
                    (Reads-text16 src t.table g.table))
                  (Reads-bind src o cs _
                    (Reads-if src (has t.options has_prec) r.precision t.precision
                      (Reads-int8 src o cs t.precision g.precision))
                    (Reads-bind src o cs _
                      (Reads-if src (has t.options has_scale) r.scale t.scale
                        (Reads-int8 src o cs t.scale g.scale))
                      (Reads-last src o cs _ (Reads-no_text src)
                        (Reads-pure src o cs (received t props r, none))))))))))
