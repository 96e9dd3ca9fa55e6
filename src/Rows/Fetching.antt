-- ===== src/Rows/Fetching.antt =====
-- rows.go: what a client that calls Next until EOF, and NextResultSet where there is another result set, is given of a
-- response.
pub mod Draining
pub mod Closing
use tds.Base.{
  ℕ, zero, suc, ◌+◌, ◌≤◌, ◌<◌, ◌≡◌, refl, ap, ◌∙◌, sym, subst, Bool, true, false, Option, none,
  some, List, [], ◌∷◌, length, Bytes, arith, if◌then◌else◌,
}
use tds.Base.Int.{ℤ}
use tds.Golang.Errors.{Error, eof, diverges}
use tds.Encoder.Ops.{Charset}
use tds.Session.{Session, clear_result}
use tds.Session.Results as Results
use tds.Session.Results.{Message}
use tds.Columns.Formats.{ColFmt}
use tds.Rows.{
  CmpColumns, Event, row_read, param_read, columns_read, wide_columns_read, params_read,
  wide_params_read, cmp_row_read, cmp_columns_read, table_name_read, column_info_read, handled,
  skipped, Rows, Fetched, row_follows, next, next_loop, next_unless, next_cmp_row, next_result_set,
  new_columns, compute_row, set_cmp_columns, set_column_info, after_handler, stop, failed, new_rows,
  begun,
}

-- What the client sees: a row, or the beginning of another result set.
pub data Seen (V : Type 0) : Type 0 where
  row : List V → Seen V
  next_set : Seen V

module _ (get_encoding : Bytes → Option Charset) (atoi : Bytes → Option ℤ) where
  -- What a response says, from its messages: rows in their order, a result set at each format of columns and at each
  -- computed row, and behind a computed row another one if a row follows. The handler returns no error for the messages
  -- it is given, up to the one at which it returns EOF.
  pub data Says {V : Type 0} : Session → List (Event V) → List (Seen V) → Type 0 where
    ended :
        {s t : Session} {m : Message} {es : List (Event V)}
        → Results.step get_encoding atoi m s ≡ (t, some eof)
        → Says s (handled m ∷ es) []
    quiet :
        {s t : Session} {m : Message} {es : List (Event V)} {os : List (Seen V)}
        → Results.step get_encoding atoi m s ≡ (t, none)
        → Says t es os
        → Says s (handled m ∷ es) os
    a_row :
        {s : Session} {vs : List V} {es : List (Event V)} {os : List (Seen V)}
        → Says s es os
        → Says s (row_read vs ∷ es) (row vs ∷ os)
    columns :
        {s : Session} {fs : List ColFmt} {es : List (Event V)} {os : List (Seen V)}
        → Says (clear_result s) es os
        → Says s (columns_read fs ∷ es) (next_set ∷ os)
    wide_columns :
        {s : Session} {fs : List ColFmt} {es : List (Event V)} {os : List (Seen V)}
        → Says (clear_result s) es os
        → Says s (wide_columns_read fs ∷ es) (next_set ∷ os)
    computed :
        {s : Session} {vs : List V} {es : List (Event V)} {os : List (Seen V)}
        → row_follows es ≡ false
        → Says (clear_result s) es os
        → Says s (cmp_row_read vs ∷ es) (next_set ∷ row vs ∷ os)
    computed_between :
        {s : Session} {vs : List V} {es : List (Event V)} {os : List (Seen V)}
        → row_follows es ≡ true
        → Says (clear_result (clear_result s)) es os
        → Says s (cmp_row_read vs ∷ es) (next_set ∷ row vs ∷ next_set ∷ os)
    a_param :
        {s : Session} {vs : List V} {es : List (Event V)} {os : List (Seen V)}
        → Says s es os
        → Says s (param_read vs ∷ es) os
    params :
        {s : Session} {fs : List ColFmt} {es : List (Event V)} {os : List (Seen V)}
        → Says s es os
        → Says s (params_read fs ∷ es) os
    wide_params :
        {s : Session} {fs : List ColFmt} {es : List (Event V)} {os : List (Seen V)}
        → Says s es os
        → Says s (wide_params_read fs ∷ es) os
    compute_info :
        {s : Session} {c : CmpColumns} {es : List (Event V)} {os : List (Seen V)}
        → Says s es os
        → Says s (cmp_columns_read c ∷ es) os
    table_names :
        {s : Session} {es : List (Event V)} {os : List (Seen V)}
        → Says s es os
        → Says s (table_name_read ∷ es) os
    column_info :
        {s : Session} {f : List ColFmt → List ColFmt} {es : List (Event V)} {os : List (Seen V)}
        → Says s es os
        → Says s (column_info_read f ∷ es) os
    unknown_message :
        {s : Session} {es : List (Event V)} {os : List (Seen V)}
        → Says s es os
        → Says s (skipped ∷ es) os

module _ {V : Type 0} (get_encoding : Bytes → Option Charset) (atoi : Bytes → Option ℤ) where
  -- What the client does with the result of a call of Next, going on with `more`.
  unfoldable pub outcome :
      (Rows V → List (Seen V) × Option Error)
      → Rows V
      → Option (List V)
      → Option Error
      → List (Seen V) × Option Error
  outcome more r (some vs) none = let x = more r in (row vs ∷ x.0, x.1)
  outcome more r none none = more r
  outcome more r values (some eof) =
      let x = more (next_result_set get_encoding atoi r).0 in
      if r.has_next_result_set then (next_set ∷ x.0, x.1) else ([], none)
  outcome more r values (some e) = ([], some e)

  unfoldable pub drain : ℕ → Rows V → List (Seen V) × Option Error
  unfolding next outcome
  drain zero r = ([], some diverges)
  drain (suc fuel) r =
      let f = next get_encoding atoi r in outcome (drain fuel) f.rows f.values f.err
