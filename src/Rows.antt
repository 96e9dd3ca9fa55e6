-- ===== src/Rows.antt =====
-- rows.go: the rows of a response, over the messages that follow in it. What the buffer reads and the session's
-- handler does with a message is `Session.Results.step`; a message that the rows keep is given by its content.
pub mod Access
pub mod Computed
pub mod Fetching
use tds.Base.{
  ℕ, zero, suc, ◌-◌, ◌+◌, ◌*◌, Bool, true, false, ◌&&◌, ◌||◌, not, Option, none, some, List, [],
  ◌∷◌, ◌++◌, map, length, get_elem?, Bytes, leb, ltb, ◌==◌, if◌then◌else◌,
}
use tds.Base.Int.{ℤ}
use tds.Golang.Errors.{Error, eof, panic, eof_in_message, wrapped, diverges}
use tds.Encoder.Ops.{Charset}
use tds.Session.{Session, clear_result, check_err}
use tds.Session.Results as Results
use tds.Session.Results.{Message}
use tds.Columns.Formats.{ColFmt}

-- A computed column: its format, its operator and the number of its operand.
pub record CmpFmt : Type 0 where
  pub fmt : ColFmt
  pub operator : ℕ
  pub operand : ℕ

-- `cmpColumns`.
pub record CmpColumns : Type 0 where
  pub id : ℕ
  pub by_columns : List ℕ
  pub fmts : List CmpFmt

-- A message of a response. That of a `columnInfoToken` is what colInfo.Read makes of the formats, `broken` a message that
-- cannot be read, and `skipped` one that nothing is kept of.
pub data Event (V : Type 0) : Type 0 where
  row_read : List V → Event V
  param_read : List V → Event V
  columns_read : List ColFmt → Event V
  wide_columns_read : List ColFmt → Event V
  params_read : List ColFmt → Event V
  wide_params_read : List ColFmt → Event V
  cmp_row_read : List V → Event V
  cmp_columns_read : CmpColumns → Event V
  table_name_read : Event V
  column_info_read : (List ColFmt → List ColFmt) → Event V
  handled : Message → Event V
  skipped : Event V
  broken : Error → Event V

-- `Rows`, with the messages that are still to be read. `row_columns` and `row_data` are those of `row`, `cmp_data` that
-- of `cmpRow`, and `same_slice` says that `columnFmts` is the slice `row.columns`.
pub record Rows (V : Type 0) : Type 0 where
  pub session : Session
  pub incoming : List (Event V)
  pub row_columns : List ColFmt
  pub row_data : List V
  pub column_fmts : List ColFmt
  pub same_slice : Bool
  pub cmp_columns : CmpColumns
  pub cmp_data : List V
  pub infos : List CmpColumns
  pub has_next_result_set : Bool
  pub has_cmp_info : Bool
  pub is_cmp_row : Bool
  pub err : Option Error

-- The labels of the operators of computed columns, `cmpLabels`.
unfoldable pub cmp_label : ℕ → Bytes
cmp_label operator =
    if operator == 0x4b || operator == 0x4c
    then b'c' ∷ b'o' ∷ b'u' ∷ b'n' ∷ b't' ∷ []
    else if operator == 0x4d || operator == 0x4e
    then b's' ∷ b'u' ∷ b'm' ∷ []
    else if operator == 0x4f || operator == 0x50
    then b'a' ∷ b'v' ∷ b'g' ∷ []
    else if operator == 0x51
    then b'm' ∷ b'i' ∷ b'n' ∷ []
    else if operator == 0x52
    then b'm' ∷ b'a' ∷ b'x' ∷ []
    else if operator == 0x61
    then b'c' ∷ b'o' ∷ b'u' ∷ b'n' ∷ b't' ∷ b'_' ∷ b'b' ∷ b'i' ∷ b'g' ∷ []
    else []

-- "<unknown>".
abbrev pub unknown : Bytes
unknown = b'<' ∷ b'u' ∷ b'n' ∷ b'k' ∷ b'n' ∷ b'o' ∷ b'w' ∷ b'n' ∷ b'>' ∷ []

unfoldable pub name_or_unknown : Option ColFmt → Bytes
name_or_unknown none = unknown
name_or_unknown (some f) = elim f.name [ [] ↦ unknown | c ∷ cs ↦ c ∷ cs ]

-- `column.cmpOperand-1`, a uint8.
abbrev pub operand_index : ℕ → ℕ
operand_index zero = 255
operand_index (suc n) = n

-- The label of a computed column over the columns `fmts`.
unfoldable pub label : List ColFmt → CmpFmt → CmpFmt
unfolding name_or_unknown cmp_label
label fmts c =
    let name = name_or_unknown (get_elem? fmts (operand_index c.operand)) in
    record c { fmt = record (c.fmt) { name = cmp_label c.operator ++ b'(' ∷ name ++ b')' ∷ [] } }

-- What a call of Next leaves: the values that it copies to `dest`, if any, and its error.
pub record Fetched (V : Type 0) : Type 0 where
  pub rows : Rows V
  pub values : Option (List V)
  pub err : Option Error

-- "tds: rows.Next failed" and "tds: rows.Close failed".
abbrev pub next_failed : Bytes
next_failed =
    116 ∷ 100 ∷ 115 ∷ 58 ∷ 32 ∷ 114 ∷ 111 ∷ 119 ∷ 115 ∷ 46 ∷ 78 ∷ 101 ∷ 120 ∷ 116 ∷ 32 ∷ 102 ∷ 97
    ∷ 105 ∷ 108 ∷ 101 ∷ 100 ∷ []

abbrev pub close_failed : Bytes
close_failed =
    116 ∷ 100 ∷ 115 ∷ 58 ∷ 32 ∷ 114 ∷ 111 ∷ 119 ∷ 115 ∷ 46 ∷ 67 ∷ 108 ∷ 111 ∷ 115 ∷ 101 ∷ 32 ∷ 102
    ∷ 97 ∷ 105 ∷ 108 ∷ 101 ∷ 100 ∷ []

module _ {V : Type 0} where
  abbrev pub stop : Rows V → Option Error → Fetched V
  stop r e = record { rows = r; values = none; err = e }

  -- `peek`: the next message is a row. At the end of the messages there is no byte to see, and its EOF is ignored; an error of
  -- peek itself is left out.
  abbrev pub row_follows : List (Event V) → Bool
  row_follows (row_read vs ∷ es) = true
  row_follows es = false

  -- The row that the call before has found computed.
  unfoldable pub next_cmp_row : Rows V → Fetched V
  next_cmp_row r = record {
    rows = record r {
      is_cmp_row = false;
      has_next_result_set = row_follows r.incoming;
      column_fmts = r.row_columns;
      same_slice = true;
    };
    values = some r.cmp_data;
    err = none;
  }

  -- New columns end the result set.
  unfoldable pub new_columns : List ColFmt → Rows V → Fetched V
  new_columns fs r =
      stop
        (record r {
          row_columns = fs;
          column_fmts = fs;
          same_slice = true;
          has_cmp_info = false;
          has_next_result_set = true;
        })
        (some eof)

  unfoldable pub set_cmp_columns : CmpColumns → Rows V → Rows V
  unfolding label
  set_cmp_columns c r =
      let labelled = record c { fmts = map (label r.column_fmts) c.fmts } in
      record r { has_cmp_info = true; cmp_columns = labelled; infos = labelled ∷ r.infos }

  unfoldable pub set_column_info : (List ColFmt → List ColFmt) → Rows V → Rows V
  set_column_info f r = record r {
    column_fmts = f r.column_fmts;
    row_columns = if r.same_slice then f r.row_columns else r.row_columns;
  }

  -- The columns are those of the compute clause. They are a copy: a later message on columns changes them
  -- and not the slice of the clause, which the code shares.
  unfoldable pub compute_row : List V → Rows V → Fetched V
  compute_row vs r =
      stop
        (record r {
          cmp_data = vs;
          is_cmp_row = true;
          has_next_result_set = true;
          column_fmts = map (λ c. c.fmt) r.cmp_columns.fmts;
          same_slice = false;
        })
        (some eof)

  -- An error ends the loop and is kept.
  abbrev pub failed : Rows V → Error → Fetched V
  failed r e = stop (record r { err = some e }) (some e)

  -- The loop goes on with `rest` unless the handler returned an error.
  unfoldable pub after_handler :
      List (Event V) → Rows V → Session × Option Error → Fetched V → Fetched V
  after_handler es r (s, none) rest = rest
  after_handler es r (s, some e) rest = failed (record r { session = s; incoming = es }) e

  module _ (get_encoding : Bytes → Option Charset) (atoi : Bytes → Option ℤ) where
    -- The loop of Next over the messages `es`; the handler's error ends it.
    unfoldable pub next_loop : List (Event V) → Rows V → Fetched V
    unfolding new_columns set_cmp_columns set_column_info compute_row after_handler
    next_loop [] r = failed (record r { incoming = [] }) eof_in_message
    next_loop (row_read vs ∷ es) r = record {
      rows = record r { incoming = es; row_data = vs };
      values = some vs;
      err = none;
    }
    next_loop (param_read vs ∷ es) r = next_loop es (record r { row_data = vs })
    next_loop (columns_read fs ∷ es) r = new_columns fs (record r { incoming = es })
    next_loop (wide_columns_read fs ∷ es) r = new_columns fs (record r { incoming = es })
    next_loop (params_read fs ∷ es) r =
        next_loop es (record r { row_columns = fs; same_slice = false })
    next_loop (wide_params_read fs ∷ es) r =
        next_loop es (record r { row_columns = fs; same_slice = false })
    next_loop (cmp_row_read vs ∷ es) r = compute_row vs (record r { incoming = es })
    next_loop (cmp_columns_read c ∷ es) r = next_loop es (set_cmp_columns c r)
    next_loop (table_name_read ∷ es) r = next_loop es r
    next_loop (column_info_read f ∷ es) r = next_loop es (set_column_info f r)
    next_loop (handled m ∷ es) r =
        let st = Results.step get_encoding atoi m r.session in
        let rest = next_loop es (record r { session = st.0 }) in after_handler es r st rest
    next_loop (skipped ∷ es) r = next_loop es r
    next_loop (broken e ∷ es) r = failed (record r { incoming = es }) e

    unfoldable pub next_checked : Rows V → Session × Option Error → Fetched V
    next_checked r (s, e) = stop (record r { session = s }) e

    unfoldable pub next_unless : Option Error → Rows V → Fetched V
    unfolding next_checked next_cmp_row next_loop
    next_unless (some e) r = next_checked r (check_err (some e) next_failed false r.session)
    next_unless none r = if r.is_cmp_row then next_cmp_row r else next_loop r.incoming r

    -- `Next`.
    unfoldable pub next : Rows V → Fetched V
    unfolding next_unless
    next r = if r.has_next_result_set then stop r (some eof) else next_unless r.err r

    -- `NextResultSet`.
    unfoldable pub next_result_set : Rows V → Rows V × Option Error
    next_result_set r =
        if r.has_next_result_set
        then (record r { has_next_result_set = false; session = clear_result r.session }, none)
        else (r, some eof)

    -- What newRow makes of the error of the first call of Next.
    unfoldable pub begun : Rows V → Option Error → Rows V × Option Error
    begun r none = (record r { err = none; has_next_result_set = false }, none)
    begun r (some eof) = (
      record r {
        err = if r.has_next_result_set then none else some eof;
        has_next_result_set = false;
      },
      none,
    )
    begun r (some e) = (record r { err = some e }, some e)

    -- `newRow`, once `pooled` was taken from the pool; what an earlier response left in it is partly kept.
    unfoldable pub new_rows : Rows V → Session → List (Event V) → Rows V × Option Error
    unfolding next begun
    new_rows pooled s es =
        let f = next (record pooled {
          session = s;
          incoming = es;
          has_next_result_set = false;
          err = none;
          column_fmts = [];
          same_slice = false;
        }) in
        begun f.rows f.err

    -- After a row Close goes on with `rest`, and with `later` at the end of a result set that another one follows.
    unfoldable pub close_ended :
        Option Error
        → Rows V
        → Rows V × Option Error
        → Rows V × Option Error
        → Rows V × Option Error
    close_ended none r rest later = rest
    close_ended (some eof) r rest later = if r.has_next_result_set then later else (r, none)
    close_ended (some e) r rest later = (r, some (wrapped close_failed e))

    -- `Close`: `Next` until it returns EOF, for each result set.
    unfoldable pub close_loop : ℕ → Rows V → Rows V × Option Error
    unfolding next next_result_set close_ended
    close_loop zero r = (r, some diverges)
    close_loop (suc fuel) r =
        let f = next r in
        let rest = close_loop fuel f.rows in
        let later = close_loop fuel (next_result_set f.rows).0 in
        close_ended f.err f.rows rest later

    -- `Close`; a message and each of the two flags take at most a few rounds.
    unfoldable pub close : Rows V → Rows V × Option Error
    unfolding close_loop
    close r = close_loop (4 * length r.incoming + 4) r
