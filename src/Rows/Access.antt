-- ===== src/Rows/Access.antt =====
-- rows.go and tabular_messages.go: what a client may ask about the columns of the rows. None is a panic.
use mathlib.Core.Option as Option
use tds.Base.{
  ℕ, zero, suc, ◌/◌, ◌^◌, ◌-◌, ◌≤◌, ◌≡◌, refl, Bool, true, false, ◌&&◌, ◌||◌, not, Option, none,
  some, List, [], ◌∷◌, map, length, get_elem?, Bytes, arith, ltb, ltb-false, ◌==◌, if◌then◌else◌,
}
use tds.Base.Int.{ℤ, pos, negsuc}
use tds.Types.DataTypes.{long_char_type}
use tds.Types.Table.{TypeAttribute, ScanType, string_type, has_length, has_prec, has_scale, is_long}
use tds.Columns.{ColType, has}
use tds.Columns.Formats.{ColFmt}
use tds.Rows.{Rows, cmp_label}

-- The flags of a column.
abbrev pub hidden : ℕ
hidden = 0x01

abbrev pub key : ℕ
key = 0x02

abbrev pub nullable : ℕ
nullable = 0x20

abbrev pub identity : ℕ
identity = 0x40

-- `scanType`.
unfoldable pub scan_type : ColType → Option (Option ScanType)
scan_type t = if not t.valid then some none else Option.map (λ p. some p.scan_type) t.encoding_props

abbrev pub is_string : ScanType → Bool
is_string string_type = true
is_string t = false

-- `length`, and the length of a long type.
unfoldable pub long_length : ColType → ℕ × Bool → Option TypeAttribute → Option (ℕ × Bool)
long_length t long_char none = if t.data_type == long_char_type then some long_char else none
long_length t long_char (some p) =
    if t.data_type == long_char_type
    then some long_char
    else some (if is_string p.scan_type then t.size else 2 ^ 31 - 1, true)

unfoldable pub type_length : ColType → Option (ℕ × Bool)
unfolding long_length
type_length t =
    if not t.valid || (has t.options has_prec || has t.options has_scale)
    then some (0, false)
    else if has t.options is_long
    then long_length t (t.size / 2, true) t.encoding_props
    else some (t.size, has t.options has_length)

-- `precisionScale`.
unfoldable pub precision_scale : ColType → ℤ × ℤ × Bool
precision_scale t =
    if not t.valid
    then (pos 0, pos 0, false)
    else if has t.options has_prec && has t.options has_scale
    then (t.precision, t.scale, true)
    else (pos 0, pos 0, false)

module _ {A : Type 0} where
  -- `if index > len(columns)`, and the column at the index behind it.
  unfoldable pub column_or : A → (ColFmt → Option A) → List ColFmt → ℤ → Option A
  column_or default f fs (negsuc n) = none
  column_or default f fs (pos n) =
      if ltb (length fs) n
      then some default
      else elim (get_elem? fs n) [ none ↦ none | some c ↦ f c ]

abbrev pub flag_of : ℕ → ColFmt → Option (Bool × Bool)
flag_of bit c = some (has c.flags bit, true)

module _ {V : Type 0} where
  -- `Columns`.
  unfoldable pub column_names : Rows V → List Bytes
  column_names r = map (λ c. elim c.name [ [] ↦ c.real_name | x ∷ xs ↦ x ∷ xs ]) r.column_fmts

  -- `ColumnTypeNullable`, `ColumnAutoIncrement`, `ColumnHidden` and `ColumnKey`.
  unfoldable pub column_type_nullable : Rows V → ℤ → Option (Bool × Bool)
  unfolding column_or
  column_type_nullable r = column_or (false, false) (flag_of nullable) r.column_fmts

  unfoldable pub column_auto_increment : Rows V → ℤ → Option (Bool × Bool)
  unfolding column_or
  column_auto_increment r = column_or (false, false) (flag_of identity) r.column_fmts

  unfoldable pub column_hidden : Rows V → ℤ → Option (Bool × Bool)
  unfolding column_or
  column_hidden r = column_or (false, false) (flag_of hidden) r.column_fmts

  unfoldable pub column_key : Rows V → ℤ → Option (Bool × Bool)
  unfolding column_or
  column_key r = column_or (false, false) (flag_of key) r.column_fmts

  -- `ColumnTypeLength`, `ColumnTypePrecisionScale` and `ColumnTypeScanType`.
  unfoldable pub column_type_length : Rows V → ℤ → Option (ℕ × Bool)
  unfolding column_or
  column_type_length r = column_or (0, false) (λ c. type_length c.col_type) r.column_fmts

  unfoldable pub column_type_precision_scale : Rows V → ℤ → Option (ℤ × ℤ × Bool)
  unfolding column_or
  column_type_precision_scale r =
      column_or (pos 0, pos 0, false) (λ c. some (precision_scale c.col_type)) r.column_fmts

  unfoldable pub column_type_scan_type : Rows V → ℤ → Option (Option ScanType)
  unfolding column_or
  column_type_scan_type r = column_or none (λ c. scan_type c.col_type) r.column_fmts

  -- `ComputedColumnInfo`.
  unfoldable pub computed_column_info : Rows V → ℤ → Option (Bytes × ℕ × Bool)
  computed_column_info r (negsuc n) = if r.has_cmp_info then none else some ([], 0, false)
  computed_column_info r (pos n) =
      if not r.has_cmp_info || ltb (length r.cmp_columns.fmts) n
      then some ([], 0, false)
      else Option.map (λ c. (cmp_label c.operator, c.operand, true))
          (get_elem? r.cmp_columns.fmts n)

  -- `ComputeByList`.
  unfoldable pub compute_by_list : Rows V → List ℕ × Bool
  compute_by_list r = if r.has_cmp_info then (r.cmp_columns.by_columns, true) else ([], false)

  -- `ReturnStatus` and `AffectedRows`.
  unfoldable pub return_status : Rows V → ℤ × Bool
  return_status r = (r.session.res.return_status, r.session.res.has_return_status)

  unfoldable pub affected_rows : Rows V → ℤ × Bool
  affected_rows r = (r.session.res.affected_rows, r.session.res.has_affected_rows)

module _ {A : Type 0} where
  get_elem-end : (xs : List A) (n : ℕ) → length xs ≤ n → get_elem? xs n ≡ none
  get_elem-end [] n h = refl
  get_elem-end (x ∷ xs) zero h = absurd (omega (arith, h))
  get_elem-end (x ∷ xs) (suc n) h = get_elem-end xs n (omega (arith, h))

module _ {A : Type 0} where
  column_or-last :
      (default : A) (f : ColFmt → Option A) (fs : List ColFmt)
      → column_or default f fs (pos (length fs)) ≡ none
  unfolding column_or
  column_or-last default f fs =
      rw
        (ltb-false (length fs) (length fs) (omega arith), get_elem-end fs (length fs) (omega arith))
        refl

-- Each accessor of a column lets the index that is the number of columns pass its test, and panics on it.
pub accessors-panic :
    {V : Type 0} (r : Rows V)
    → let n = pos (length r.column_fmts) in
      (column_type_nullable r n ≡ none)
      × (column_auto_increment r n ≡ none)
      × (column_hidden r n ≡ none)
      × (column_key r n ≡ none)
      × (column_type_length r n ≡ none)
      × (column_type_precision_scale r n ≡ none)
      × (column_type_scan_type r n ≡ none)
unfolding column_type_nullable column_auto_increment column_hidden column_key column_type_length
    column_type_precision_scale column_type_scan_type
accessors-panic r =
    let fs = r.column_fmts in
    (
      column_or-last _ _ fs,
      column_or-last _ _ fs,
      column_or-last _ _ fs,
      column_or-last _ _ fs,
      column_or-last _ _ fs,
      column_or-last _ _ fs,
      column_or-last _ _ fs,
    )
