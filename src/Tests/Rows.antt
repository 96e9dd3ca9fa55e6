-- ===== src/Tests/Rows.antt =====
-- Concrete responses with rows, and a concrete statement.
use tds.Base.{
  ℕ, ◌≡◌, ◌≢◌, refl, ap, sym, subst, Option, true, false, none, some, List, [], ◌∷◌, ◌++◌, arith,
}
use tds.Base.Int.{pos}
use tds.Golang.Errors.{eof, diverges}
use tds.Golang.Order.{little_endian, put}
use tds.Golang.Buffer.{buffer}
use tds.Encoder.Reads.{Reads}
use tds.Messages.Codec.{Recovers, buffer_source}
use tds.Session.{Session, clear_result, handle, process_done, or_unknown, final_error}
use tds.Session.Results.{ends, step}
use tds.Types.Host.{Value, int64_value, nil_value}
use tds.Columns.Formats.Types.{received, type_bytes}
use tds.Columns.Browse.{read_info, read_info-one_table}
use tds.Columns.Rows.{write_row, read_row}
use tds.Columns.Rows.Trips.{HeldRow, cell, no_cells}
use tds.Columns.Data.Held.{held_fixed, fixed_int_n}
use tds.Columns.Formats.Trips.{received_fmt}
use tds.Golang.Errors.{Error}
use tds.Rows.{Event, row_read, columns_read, cmp_row_read, handled, skipped, Rows, new_rows, close}
use tds.Rows.Fetching.{
  Seen, row, next_set, Says, ended, a_row, columns, computed_between, unknown_message, drain,
}
use tds.Rows.Fetching.Draining.{drain-says}
use tds.Rows.Fetching.Closing.{close-ends}
use tds.Rows.Access.{
  column_type_nullable, column_auto_increment, column_hidden, column_key, column_type_length,
  column_type_precision_scale, column_type_scan_type, accessors-panic,
}
use tds.Rows.Computed.{cmp_fmt, no_cmp, cmp, read_cmp_columns, Reads-cmp_columns}
use tds.Statements.{Stmt, prepared, send, set_values, set_params, exec_args-Recovers}
use tds.Tests.Wires.{encoder, encoder-Ready, master}
use tds.Tests.Columns.{
  host, fmt, int_column, int_props, int_found, int-IsSendable, int-IsTyped, int-IsSized,
  no_decimals,
}
use tds.Tests.Responses.{session, no_charset, no_number, finished}

abbrev pooled : Rows ℕ
pooled = record {
  session = session;
  incoming = [];
  row_columns = [];
  row_data = [];
  column_fmts = [];
  same_slice = false;
  cmp_columns = record { id = 0; by_columns = []; fmts = [] };
  cmp_data = [];
  infos = [];
  has_next_result_set = false;
  has_cmp_info = false;
  is_cmp_row = false;
  err = none;
}

-- Two rows, their sum, another row, and a result set of one row.
abbrev messages : List (Event ℕ)
messages =
    row_read (1 ∷ [])
    ∷ skipped
    ∷ row_read (2 ∷ [])
    ∷ cmp_row_read (3 ∷ [])
    ∷ row_read (4 ∷ [])
    ∷ columns_read (fmt [] int_column ∷ [])
    ∷ row_read (5 ∷ [])
    ∷ handled (ends finished)
    ∷ []

abbrev seen : List (Seen ℕ)
seen =
    row (1 ∷ [])
    ∷ row (2 ∷ [])
    ∷ next_set
    ∷ row (3 ∷ [])
    ∷ next_set
    ∷ row (4 ∷ [])
    ∷ next_set
    ∷ row (5 ∷ [])
    ∷ []

ends_with_eof :
    (s : Session)
    → s.res.last_error ≡ none
    → (step no_charset no_number (ends finished) s).1 ≡ some eof
unfolding step handle process_done or_unknown final_error
ends_with_eof s h = ground (arith, h)

ends_well :
    (s : Session)
    → s.res.last_error ≡ none
    → (t : Session) × (step no_charset no_number (ends finished) s ≡ (t, some eof))
ends_well s h =
    let t = (step no_charset no_number (ends finished) s).0 in
    (t, ap (λ e. (t, e)) (ends_with_eof s h))

messages-Says : Says no_charset no_number session messages seen
unfolding clear_result
messages-Says = a_row (
    unknown_message
      (a_row (computed_between refl (a_row (columns (a_row (ended (ends_well _ refl).1)))))))

drain-says_example :
    ((new_rows no_charset no_number pooled session (columns_read [] ∷ messages)).1 ≡ none)
    × (drain no_charset no_number 9
          (new_rows no_charset no_number pooled session (columns_read [] ∷ messages)).0
        ≡ (seen, none))
drain-says_example =
    drain-says no_charset no_number pooled session [] messages seen refl messages-Says

abbrev pending : Rows ℕ
pending = record pooled { incoming = messages; is_cmp_row = true }

close-ends_example : (close no_charset no_number pending).1 ≢ some diverges
close-ends_example = close-ends no_charset no_number pending

abbrev one_column : Rows ℕ
one_column = record pooled { column_fmts = fmt master int_column ∷ [] }

accessors-panic_example :
    (column_type_nullable one_column (pos 1) ≡ none)
    × (column_auto_increment one_column (pos 1) ≡ none)
    × (column_hidden one_column (pos 1) ≡ none)
    × (column_key one_column (pos 1) ≡ none)
    × (column_type_length one_column (pos 1) ≡ none)
    × (column_type_precision_scale one_column (pos 1) ≡ none)
    × (column_type_scan_type one_column (pos 1) ≡ none)
accessors-panic_example = accessors-panic one_column

Reads-cmp_columns_example :
    Reads buffer_source little_endian none read_cmp_columns
      (put little_endian 2 7
        ++ (1 ∷ ((77 ∷ 2 ∷ type_bytes little_endian none int_column int_props) ++ [])
            ++ (1 ∷ 3 ∷ [])))
      (
        record {
          id = 7;
          by_columns = 3 ∷ [];
          fmts = cmp_fmt 77 2 (received int_column int_props int_found) ∷ [];
        },
        none,
      )
Reads-cmp_columns_example =
    Reads-cmp_columns buffer_source little_endian none 7 (3 ∷ []) (omega arith)
      (cmp int-IsSendable no_cmp)

read_info-one_table_example :
    (read_info (master ∷ []) 5 [] (fmt master int_column ∷ []) encoder).0.0
    ≡ fmt master int_column ∷ []
read_info-one_table_example =
    read_info-one_table (master ∷ []) 5 [] (fmt master int_column ∷ []) encoder (omega arith)

prepared_columns :
    (prepared {V = Value host} nil_value session 0 (fmt [] int_column ∷ []) []).columns
    ≡ fmt [] int_column ∷ []
unfolding prepared set_params
prepared_columns = refl

-- The connection takes the messages and the session stays as it is.
abbrev delivered : Stmt (Value host) → Session × Option Error
delivered st = (st.session, none)

exec_args-Recovers_example :
    let st = prepared nil_value session 0 (fmt [] int_column ∷ []) [] in
    let stored = set_values (int64_value (pos 5) ∷ []) st in
    let ready = record st {
      values = int64_value (pos 5) ∷ [];
      row_data = int64_value (pos 5) ∷ [];
    } in
    (stored.1 ≡ none)
    × (send delivered stored.0.values stored.0
        ≡ (record ready { session = clear_result (delivered ready).0 }, (delivered ready).1))
    × Recovers little_endian none
        (write_row no_decimals ready.columns ready.row_data)
        (read_row no_decimals (some (received_fmt (fmt [] int_column) int_props int_found ∷ [])) [])
        (int64_value (pos 5) ∷ [])
        encoder
exec_args-Recovers_example =
    exec_args-Recovers no_decimals little_endian none encoder nil_value session 0
      (fmt [] int_column ∷ []) [] delivered (received_fmt (fmt [] int_column) int_props int_found)
      [] (int64_value (pos 5) ∷ []) [] _ refl encoder-Ready
      (subst
        (λ fs.
          HeldRow host little_endian none fs
            (received_fmt (fmt [] int_column) int_props int_found ∷ []) (int64_value (pos 5) ∷ [])
            ((4 ∷ put little_endian 4 5) ++ []))
        (sym prepared_columns)
        (cell
          (held_fixed int-IsTyped int-IsSized (omega arith) (omega arith) refl
            (fixed_int_n (omega arith, omega arith)))
          no_cells))
