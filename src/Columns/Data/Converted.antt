-- ===== src/Columns/Data/Converted.antt =====
-- What the integer converters of types.go let pass, in the columns that they belong to.
use tds.Base.{ℕ, suc, ◌-◌, ◌^◌, ◌<◌, ◌≤◌, ◌≡◌, refl, false, Option, some, [], Bytes, arith}
use tds.Base.Int.{ℤ, pos, negsuc, pos_part, neg_part, ltb_ℤ}
use tds.Golang.Order.{ByteOrder}
use tds.Golang.Buffer.{Buffer, buffer}
use tds.Encoder.Ops.{Charset, Encoder}
use tds.Encoder.Ready.{Ready}
use tds.Messages.Codec.{Carries, buffer_source, buffer_sink, Recovers, recovers}
use tds.Types.{
  IntConverter, Given, IsGiven, convert, integer, convert-in_range, tiny_int_conv, small_int_conv,
  null_int_conv, int_conv, big_int_conv, uint_conv, usmall_int_conv,
}
use tds.Types.DataTypes.{
  tinyint_type, utinyint_type, smallint_type, usmallint_type, int_type, int_n_type, uint_type,
  bigint_type,
}
use tds.Types.Host.{Host, int64_value}
use tds.Types.Table.{TypeAttribute, find, attributes_of}
use tds.Columns.{ColType}
use tds.Columns.Data.{Decimals, run_writer, run_reader}
use tds.Columns.Data.Writing.{Writes-Fixed}
use tds.Columns.Data.Reading.{Reads-Fixed}
use tds.Columns.Data.Held.{
  Fixed, fixed_tinyint, fixed_smallint, fixed_usmallint, fixed_int, fixed_int_n, fixed_uint,
  fixed_bigint,
}

-- The data types of integers with their converters, but for `uint_n_type`, `uint4_type` and `ubigint_type`, whose decoders
-- or converters do not fit their encoders.
pub data IntColumn : ℕ → IntConverter → Type 0 where
  tinyint_column : IntColumn tinyint_type tiny_int_conv
  utinyint_column : IntColumn utinyint_type tiny_int_conv
  smallint_column : IntColumn smallint_type small_int_conv
  usmallint_column : IntColumn usmallint_type usmall_int_conv
  int_column : IntColumn int_type int_conv
  int_n_column : IntColumn int_n_type null_int_conv
  uint_column : IntColumn uint_type uint_conv
  bigint_column : IntColumn bigint_type big_int_conv

-- An integer between the bounds of a signed width.
signed_bound : (n : ℤ) (k : ℕ) → ltb_ℤ n (negsuc k) ≡ false → neg_part n ≤ suc k
signed_bound (pos n) k h = omega arith
signed_bound (negsuc n) k h = ground (arith, h)

-- The bytes of an integer that a converter gave, in the column of its data type.
abbrev Sendable : Host → ByteOrder → ℕ → ℤ → Type 0
Sendable h o d n =
    (props : TypeAttribute) × (attributes_of d ≡ some props)
    × (bs : Bytes) × Fixed h o props.writer props.reader props.num_bytes (int64_value n) bs

-- Every integer in a converter's bounds has bytes in the column.
in_bounds :
    (h : Host) (o : ByteOrder) (d : ℕ) (c : IntConverter) (n : ℤ)
    → IntColumn d c
    → ltb_ℤ n c.min ≡ false
    → pos_part n ≤ c.max
    → Sendable h o d n
unfolding attributes_of find
in_bounds h o d c (pos n) tinyint_column low high =
    (_, refl, _, fixed_tinyint (omega (arith, high)))
in_bounds h o d c (pos n) utinyint_column low high =
    (_, refl, _, fixed_tinyint (omega (arith, high)))
in_bounds h o d c (pos n) usmallint_column low high =
    (_, refl, _, fixed_usmallint (omega (arith, high)))
in_bounds h o d c (pos n) uint_column low high = (_, refl, _, fixed_uint (omega (arith, high)))
in_bounds h o d c (negsuc n) tinyint_column low high = absurd (ground (arith, low))
in_bounds h o d c (negsuc n) utinyint_column low high = absurd (ground (arith, low))
in_bounds h o d c (negsuc n) usmallint_column low high = absurd (ground (arith, low))
in_bounds h o d c (negsuc n) uint_column low high = absurd (ground (arith, low))
in_bounds h o d c n smallint_column low high = (
  _,
  refl,
  _,
  fixed_smallint (omega (arith, high), omega (arith, signed_bound n (2 ^ 15 - 1) low)),
)
in_bounds h o d c n int_column low high =
    (_, refl, _, fixed_int (omega (arith, high), omega (arith, signed_bound n (2 ^ 31 - 1) low)))
in_bounds h o d c n int_n_column low high =
    (_, refl, _, fixed_int_n (omega (arith, high), omega (arith, signed_bound n (2 ^ 31 - 1) low)))
in_bounds h o d c n bigint_column low high =
    (_, refl, _, fixed_bigint (omega (arith, high), omega (arith, signed_bound n (2 ^ 63 - 1) low)))

bounds_lem : (d : ℕ) (c : IntConverter) → IntColumn d c → (pos_part c.min ≡ 0) × (c.max < 2 ^ 64)
bounds_lem d c tinyint_column = (refl, omega arith)
bounds_lem d c utinyint_column = (refl, omega arith)
bounds_lem d c smallint_column = (refl, omega arith)
bounds_lem d c usmallint_column = (refl, omega arith)
bounds_lem d c int_column = (refl, omega arith)
bounds_lem d c int_n_column = (refl, omega arith)
bounds_lem d c uint_column = (refl, omega arith)
bounds_lem d c bigint_column = (refl, omega arith)

-- An integer that the converter of a column lets pass, of whatever kind the value was and through however many
-- pointers, comes back from the column: the type table has properties for the column's data type, its encoder writes the integer to
-- a buffer without an error, and its decoder, given the number of bytes of the type, reads the same integer from it, with no
-- error and nothing left over. The columns are those of tinyint, smallint, int, bigint, their unsigned types up to int, and intN;
-- the unsigned types uintN, uint4 and bigint are not among them.
pub convert-Recovers :
    {h : Host} (num : Decimals h Buffer) (o : ByteOrder) (cs : Option Charset) (e : Encoder Buffer)
    (t : ColType) (d : ℕ) (c : IntConverter) (v : Given) (n : ℤ)
    → Ready Carries o cs [] e
    → IntColumn d c
    → IsGiven v
    → convert c v ≡ integer n
    → (props : TypeAttribute) × (attributes_of d ≡ some props)
      × Recovers o cs
          (run_writer num props.writer t (int64_value n))
          (run_reader num props.reader (record t { buffer_size = props.num_bytes }))
          (int64_value n)
          e
convert-Recovers {h} num o cs e t d c v n ready column given passed =
    let (low, high) = bounds_lem d c column in
    let (above, below) = convert-in_range c v n low high given passed in
    let (props, found, bs, fixed) = in_bounds h o d c n column above below in
    (
      props,
      found,
      recovers (Writes-Fixed num o cs buffer_sink t fixed)
          (Reads-Fixed num o cs buffer_source t fixed) ready,
    )
