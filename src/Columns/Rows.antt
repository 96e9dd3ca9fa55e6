-- ===== src/Columns/Rows.antt =====
-- tabular_messages.go: the formats of a result's columns, and its rows.
pub mod Trips
pub mod Headers
use tds.Base.{
  ℕ, zero, suc, ◌%◌, ◌^◌, Option, none, some, List, [], ◌∷◌, length, ◌==◌, if◌then◌else◌,
}
use tds.Base.Int.{ℤ, pos, negsuc}
use tds.Golang.Errors.{Error, panic, no_columns, column_count}
use tds.Golang.Io.{ReadWriter}
use tds.Encoder.Ops.{M, ◌>>=◌, ◌>>◌, pure, take_err, write_uint16, write_uint32, int16}
use tds.Types.Host.{Host, Value}
use tds.Columns.Data.{Decimals, data_write, data_read}
use tds.Columns.Formats.{ColFmt, zero_fmt, names_all, write_fmt, read_fmt}

-- `if err != nil { last = err }`.
abbrev pub later : Option Error → Option Error → Option Error
later none last = last
later (some e) last = some e

-- The error of the Encoder goes before those of the columns.
abbrev pub or_last : Option Error → Option Error → Option Error
or_last none last = last
or_last (some e) last = some e

module _ {S : Type 0} ⦃w : ReadWriter S⦄ where
  unfoldable pub write_fmts : ℕ → List ColFmt → Option Error → M S (Option Error)
  unfolding write_fmt
  write_fmts flags [] last = take_err >>= λ err. pure (or_last err last)
  write_fmts flags (f ∷ fs) last = write_fmt flags f >>= λ err. write_fmts flags fs (later err last)

  -- `columns.Write`.
  unfoldable pub write_columns : ℕ → List ColFmt → M S (Option Error)
  unfolding write_fmts
  write_columns flags fs =
      (if names_all flags
        then write_uint32 (length fs % 2 ^ 32)
        else write_uint16 (length fs % 2 ^ 16))
      >> write_fmts flags fs none

  unfoldable pub read_fmts : ℕ → ℕ → Option Error → M S (List ColFmt × Option Error)
  unfolding read_fmt
  read_fmts flags zero last = take_err >>= λ err. pure ([], or_last err last)
  read_fmts flags (suc n) last = read_fmt flags zero_fmt >>= λ r.
      read_fmts flags n (later r.1 last) >>= λ rest. pure (r.0 ∷ rest.0, rest.1)

  -- `columns.Read`; `make` panics on a negative count.
  unfoldable pub read_columns : ℕ → M S (List ColFmt × Option Error)
  unfolding read_fmts
  read_columns flags =
      int16 >>= λ n. elim n [ pos k ↦ read_fmts flags k none | negsuc k ↦ pure ([], some panic) ]

module _ {h : Host} {S : Type 0} ⦃w : ReadWriter S⦄ (num : Decimals h S) where
  -- The values beyond the columns are not written: the lengths are the same.
  unfoldable pub write_cells : List ColFmt → List (Value h) → Option Error → M S (Option Error)
  unfolding data_write
  write_cells (f ∷ fs) (v ∷ vs) last =
      data_write num f.col_type v >>= λ err. write_cells fs vs (later err last)
  write_cells fs vs last = take_err >>= λ err. pure (or_last err last)

  -- `row.Write`.
  unfoldable pub write_row : List ColFmt → List (Value h) → M S (Option Error)
  unfolding write_cells
  write_row fs vs =
      if length vs == length fs then write_cells fs vs none else pure (some column_count)

  unfoldable pub read_cells : List ColFmt → Option Error → M S (List (Value h) × Option Error)
  unfolding data_read
  read_cells [] last = take_err >>= λ err. pure ([], or_last err last)
  read_cells (f ∷ fs) last = data_read num f.col_type >>= λ r.
      read_cells fs (later r.1 last) >>= λ rest. pure (r.0 ∷ rest.0, rest.1)

  -- `row.Read` into `old`, with no columns for a nil slice.
  unfoldable pub read_row :
      Option (List ColFmt) → List (Value h) → M S (List (Value h) × Option Error)
  unfolding read_cells
  read_row none old = read_cells [] none
  read_row (some []) old = pure (old, some no_columns)
  read_row (some (f ∷ fs)) old = read_cells (f ∷ fs) none
