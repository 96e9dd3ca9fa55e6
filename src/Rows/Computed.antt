-- ===== src/Rows/Computed.antt =====
-- tabular_messages.go: the formats of computed columns, and computed rows.
use tds.Base.{
  ℕ, zero, suc, ◌^◌, ◌<◌, Option, none, some, List, [], ◌∷◌, ◌++◌, length, Bytes, ◌==◌,
  if◌then◌else◌,
}
use tds.Golang.Errors.{Error, no_columns, no_compute_info}
use tds.Golang.Io.{ReadWriter}
use tds.Golang.Order.{ByteOrder, put}
use tds.Encoder.Ops.{Charset, M, ◌>>=◌, pure, take_err, uint8, uint16}
use tds.Encoder.Ready.{Source}
use tds.Encoder.Reads.{Reads, Reads-bind, Reads-pure, Reads-uint8, Reads-uint16}
use tds.Messages.Codec.{Reads-take_err, Reads-last}
use tds.Types.Host.{Host, Value}
use tds.Types.Table.{TypeAttribute}
use tds.Columns.{ColType, zero_type}
use tds.Columns.Formats.{zero_fmt, read_type}
use tds.Columns.Formats.Types.{IsSendable, type_bytes, received, Reads-type}
use tds.Columns.Data.{Decimals, data_read}
use tds.Rows.{CmpFmt, CmpColumns}

abbrev pub cmp_fmt : ℕ → ℕ → ColType → CmpFmt
cmp_fmt operator operand t = record {
  fmt = record zero_fmt { col_type = t };
  operator = operator;
  operand = operand;
}

module _ {S : Type 0} ⦃w : ReadWriter S⦄ where
  unfoldable pub cmp_fmt_after : ℕ → ℕ → ColType × Option Error → M S (CmpFmt × Option Error)
  cmp_fmt_after operator operand (t, some e) = pure (cmp_fmt operator operand t, some e)
  cmp_fmt_after operator operand (t, none) = do
    err ← take_err
    pure (cmp_fmt operator operand t, err)

  -- `cmpColumnFmt.Read`.
  unfoldable pub read_cmp_fmt : M S (CmpFmt × Option Error)
  unfolding cmp_fmt_after
  read_cmp_fmt = do
    operator ← uint8
    operand ← uint8
    r ← read_type zero_type
    cmp_fmt_after operator operand r

  -- The loop over the formats, which does not look at their errors.
  unfoldable pub read_cmp_fmts : ℕ → M S (List CmpFmt)
  unfolding read_cmp_fmt
  read_cmp_fmts zero = pure []
  read_cmp_fmts (suc n) = do r ← read_cmp_fmt; rest ← read_cmp_fmts n; pure (r.0 ∷ rest)

  unfoldable pub read_numbers : ℕ → M S (List ℕ)
  read_numbers zero = pure []
  read_numbers (suc n) = do k ← uint8; rest ← read_numbers n; pure (k ∷ rest)

  -- `cmpColumns.Read`.
  unfoldable pub read_cmp_columns : M S (CmpColumns × Option Error)
  unfolding read_cmp_fmts read_numbers
  read_cmp_columns = do
    id ← uint16
    count ← uint8
    fmts ← read_cmp_fmts count
    by_count ← uint8
    by_columns ← read_numbers by_count
    err ← take_err
    pure (record { id = id; by_columns = by_columns; fmts = fmts }, err)

-- `infos[id]`, where the last entry of an id is the first of the list.
unfoldable pub find_info : ℕ → List CmpColumns → Option CmpColumns
find_info id [] = none
find_info id (c ∷ cs) = let rest = find_info id cs in if c.id == id then some c else rest

module _ {h : Host} {S : Type 0} ⦃w : ReadWriter S⦄ (num : Decimals h S) where
  -- The loop of cmpRow.Read, which keeps the error of the last column.
  unfoldable pub read_cmp_cells : List CmpFmt → Option Error → M S (List (Value h) × Option Error)
  unfolding data_read
  read_cmp_cells [] last = pure ([], last)
  read_cmp_cells (c ∷ cs) last = do
    r ← data_read num c.fmt.col_type
    rest ← read_cmp_cells cs r.1
    pure (r.0 ∷ rest.0, rest.1)

  unfoldable pub read_cmp_cells_of :
      List (Value h) → Option CmpColumns → M S (List (Value h) × Option Error)
  unfolding read_cmp_cells
  read_cmp_cells_of old none = pure (old, some no_compute_info)
  read_cmp_cells_of old (some c) = elim c.fmts [
    | [] ↦ pure (old, some no_columns)
    | f ∷ fs ↦ read_cmp_cells (f ∷ fs) none
  ]

  -- `cmpRow.Read` into `old`: the id and the values of a computed row.
  unfoldable pub read_cmp_row :
      List CmpColumns → List (Value h) → M S (List (Value h) × Option Error)
  unfolding read_cmp_cells_of find_info
  read_cmp_row infos old = do id ← uint16; read_cmp_cells_of old (find_info id infos)

-- The bytes of a computed column, and what is read from them.
pub data CmpSent (cs : Option Charset) (o : ByteOrder) : Bytes → List CmpFmt → Type 0 where
  no_cmp : CmpSent cs o [] []
  cmp :
      {t r : ColType} {props : TypeAttribute} {operator operand : ℕ} {bs : Bytes} {fs : List CmpFmt}
      → IsSendable cs t props r
      → CmpSent cs o bs fs
      → CmpSent cs o
          ((operator ∷ operand ∷ type_bytes o cs t props) ++ bs)
          (cmp_fmt operator operand (received t props r) ∷ fs)

module _ {S : Type 0} ⦃w : ReadWriter S⦄ (src : Source S) (o : ByteOrder)
    (cs : Option Charset) where
  Reads-cmp_fmt :
      {t r : ColType} {props : TypeAttribute} (operator operand : ℕ)
      → IsSendable cs t props r
      → Reads src o cs read_cmp_fmt
          (operator ∷ operand ∷ type_bytes o cs t props)
          (cmp_fmt operator operand (received t props r), none)
  unfolding read_cmp_fmt cmp_fmt_after
  Reads-cmp_fmt {t} {r} {props} operator operand g =
      Reads-bind src o cs _ (Reads-uint8 src o cs operator) (
        Reads-bind src o cs _ (Reads-uint8 src o cs operand) (
          Reads-last src o cs _ (Reads-type o cs t props r g src)
            (Reads-last src o cs _ (Reads-take_err src o cs) (Reads-pure src o cs _))))

  Reads-cmp_fmts :
      {bs : Bytes} {fs : List CmpFmt}
      → CmpSent cs o bs fs
      → Reads src o cs (read_cmp_fmts (length fs)) bs fs
  unfolding read_cmp_fmts
  Reads-cmp_fmts no_cmp = Reads-pure src o cs []
  Reads-cmp_fmts (cmp {operator = operator} {operand = operand} g rest) =
      Reads-bind src o cs _ (Reads-cmp_fmt operator operand g)
        (Reads-last src o cs _ (Reads-cmp_fmts rest) (Reads-pure src o cs _))

  Reads-numbers : (ns : List ℕ) → Reads src o cs (read_numbers (length ns)) ns ns
  unfolding read_numbers
  Reads-numbers [] = Reads-pure src o cs []
  Reads-numbers (n ∷ ns) =
      Reads-bind src o cs _ (Reads-uint8 src o cs n)
        (Reads-last src o cs _ (Reads-numbers ns) (Reads-pure src o cs (n ∷ ns)))

  -- A message of computed columns is read as what it says: the id of the compute clause, each column's operator, operand and
  -- type, and the columns of the "by" clause, with nothing left over, if the id is below 2^16 and each column is of a type
  -- that the driver could send itself: valid with known properties, where the type read back for it has a length or is nullable
  -- and agrees with it on being long, on being a large object, and on having a precision and a scale, with a size below 2^8,
  -- a width below 2^7, precision and scale of a signed byte, a user type of 32 bits and a table name that can be sent. A
  -- column of fixed width that may not be null is not covered.
  pub Reads-cmp_columns :
      (id : ℕ) (by_columns : List ℕ) {bs : Bytes} {fs : List CmpFmt}
      → id < 2 ^ 16
      → CmpSent cs o bs fs
      → Reads src o cs read_cmp_columns
          (put o 2 id ++ (length fs ∷ bs ++ (length by_columns ∷ by_columns)))
          (record { id = id; by_columns = by_columns; fmts = fs }, none)
  unfolding read_cmp_columns
  Reads-cmp_columns id by_columns {bs} {fs} small sent =
      Reads-bind src o cs _ (Reads-uint16 src o cs id small) (
        Reads-bind src o cs _ (Reads-uint8 src o cs (length fs)) (
          Reads-bind src o cs _ (Reads-cmp_fmts sent) (
            Reads-bind src o cs _ (Reads-uint8 src o cs (length by_columns)) (
              Reads-last src o cs _ (Reads-numbers by_columns)
                (Reads-last src o cs _ (Reads-take_err src o cs) (Reads-pure src o cs _))))))
