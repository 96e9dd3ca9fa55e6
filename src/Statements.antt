-- ===== src/Statements.antt =====
-- stmt.go: a prepared statement, from the formats of its parameters to the values that it is executed with. The messages
-- that Prepare sends and reads are `Messages.Dynamic` and `Columns.Rows`; a statement is made of what was read.
use tds.Base.{
  ℕ, suc, ◌-◌, ◌≡◌, ◌≢◌, refl, ap, sym, ◌∙◌, Bool, true, false, not, Option, none, some, List, [],
  ◌∷◌, length, get_elem?, arith, Bytes, bit_and, bit_or, leb, ◌==◌, if◌then◌else◌,
}
use tds.Base.Int.{ℤ, pos, negsuc}
use tds.Golang.Errors.{Error, bad_conn, parameter_count, invalid_arg_count}
use tds.Golang.Order.{ByteOrder}
use tds.Golang.Buffer.{Buffer, buffer}
use tds.Encoder.Ops.{Charset, Encoder}
use tds.Encoder.Ready.{Ready}
use tds.Messages.Codec.{Carries, Recovers}
use tds.Messages.Dynamic.{dynamic_exec, dynamic_dealloc, dynamic_has_args}
use tds.Session.{Session, clear_result}
use tds.Types.Host.{Host, Value}
use tds.Columns.Formats.{ColFmt}
use tds.Columns.Data.{Decimals}
use tds.Columns.Rows.{write_row, read_row}
use tds.Columns.Rows.Trips.{HeldRow, length-HeldRow, read-write_row}

-- `Stmt`: `columns` are those of `row`. The messages to send are the dynamic alone or, if `param_fmts` is not nil, the
-- formats and the row behind it.
pub record Stmt (V : Type 0) : Type 0 where
  pub session : Session
  pub operation : ℕ
  pub status : ℕ
  pub columns : List ColFmt
  pub param_fmts : Option (List ColFmt)
  pub with_params : Bool
  pub converters : List ColFmt
  pub values : List V
  pub row_data : List V

-- `if len(params.fmts) > 0` and `if len(wideParams.fmts) > 0`, in this order.
unfoldable pub set_params : List ColFmt → Option (List ColFmt) → Option (List ColFmt)
set_params [] old = old
set_params (f ∷ fs) old = some (f ∷ fs)

abbrev pub fmts_of : Option (List ColFmt) → List ColFmt
fmts_of none = []
fmts_of (some fs) = fs

abbrev pub is_chosen : Option (List ColFmt) → Bool
is_chosen none = false
is_chosen (some fs) = true

-- `st.d.status &^= dynamicHasArgs`, for a bit.
abbrev pub clear_bit : ℕ → ℕ → ℕ
clear_bit status bit = if bit_and status bit == 0 then status else status - bit

module _ {V : Type 0} (nil : V) where
  abbrev pub nils : List ColFmt → List V
  nils [] = []
  nils (f ∷ fs) = nil ∷ nils fs

  -- The last part of `newStmt`, by the formats that were read in either message and the status of the dynamic.
  unfoldable pub prepared : Session → ℕ → List ColFmt → List ColFmt → Stmt V
  unfolding set_params
  prepared s status params wide_params =
      let chosen = set_params wide_params (set_params params none) in
      let has_params = is_chosen chosen in
      record {
        session = s;
        operation = dynamic_exec;
        status =
            if has_params
            then bit_or status dynamic_has_args
            else clear_bit status dynamic_has_args;
        columns = fmts_of chosen;
        param_fmts = chosen;
        with_params = has_params;
        converters = fmts_of chosen;
        values = nils (fmts_of chosen);
        row_data = [];
      }

module _ {V : Type 0} where
  -- `send` before the messages are sent: the statement with the values of the row, or an error.
  unfoldable pub set_args : List V → Stmt V → Stmt V × Option Error
  set_args args st =
      if not st.session.valid
      then (st, some bad_conn)
      else if not (length args == length st.columns)
      then (st, some (parameter_count (length st.columns) (length args)))
      else (record st { row_data = args }, none)

  -- The messages are sent and the session's result is cleared, whatever came of it.
  unfoldable pub sent :
      (Stmt V → Session × Option Error) → Stmt V × Option Error → Stmt V × Option Error
  sent deliver (st, some e) = (st, some e)
  sent deliver (st, none) = let (s, e) = deliver st in (record st { session = clear_result s }, e)

  -- `send`, with what sending the messages does to the session.
  unfoldable pub send : (Stmt V → Session × Option Error) → List V → Stmt V → Stmt V × Option Error
  unfolding set_args sent
  send deliver args st = sent deliver (set_args args st)

  -- `NumInput`.
  unfoldable pub num_input : Stmt V → ℕ
  num_input st = length st.columns

  -- The copy of the arguments into the statement's values, by ExecContext.
  unfoldable pub set_values : List V → Stmt V → Stmt V × Option Error
  set_values args st =
      if length args == length st.values
      then (record st { values = args }, none)
      else (st, some invalid_arg_count)

  -- `Close` before anything is sent.
  unfoldable pub deallocated : Stmt V → Stmt V
  deallocated st = record st { operation = dynamic_dealloc; status = 0 }

-- `ColumnConverter`, by the column that a converter was made for: the default one, a panic, or a column's.
pub data Converter : Type 0 where
  default_converter out_of_range : Converter
  converter_of : ColFmt → Converter

unfoldable pub converter_at : Option ColFmt → Converter
converter_at none = out_of_range
converter_at (some f) = converter_of f

unfoldable pub column_converter : {V : Type 0} → Stmt V → ℤ → Converter
unfolding converter_at
column_converter st (negsuc n) = out_of_range
column_converter st (pos n) =
    if leb n (length st.converters)
    then converter_at (get_elem? st.converters n)
    else default_converter

length-nils : {V : Type 0} (nil : V) (fs : List ColFmt) → length (nils nil fs) ≡ length fs
length-nils nil [] = refl
length-nils nil (f ∷ fs) = ap suc (length-nils nil fs)

same_length : (n m : ℕ) → n ≡ m → (n == m) ≡ true
same_length n m h = ground (arith, h)

module _ {V : Type 0} where
  set_args-fit :
      (args : List V) (st : Stmt V)
      → st.session.valid ≡ true
      → length args ≡ length st.columns
      → set_args args st ≡ (record st { row_data = args }, none)
  unfolding set_args
  set_args-fit args st e h = simp (e, same_length (length args) (length st.columns) h) refl

  send-fit :
      (deliver : Stmt V → Session × Option Error) (args : List V) (st : Stmt V)
      → st.session.valid ≡ true
      → length args ≡ length st.columns
      → let ready = record st { row_data = args } in
        send deliver args st
        ≡ (record ready { session = clear_result (deliver ready).0 }, (deliver ready).1)
  unfolding send sent
  send-fit deliver args st e h = ap (sent deliver) (set_args-fit args st e h)

  set_values-fit :
      (args : List V) (st : Stmt V)
      → length args ≡ length st.values
      → set_values args st ≡ (record st { values = args }, none)
  unfolding set_values
  set_values-fit args st h = simp (same_length (length args) (length st.values) h) refl

-- An execution with values that the columns of the parameters hold: ExecContext stores them, and `send` finds as many as it
-- expects, so the messages are sent once, for the statement with these values in its row, whatever sending does to the session: its
-- error is that of `send`, and the session's result is cleared. The row of that statement, written to a buffer, is read back as the
-- values of the execution, null values included, with no error and nothing left over. The statement is one that was prepared with
-- the formats of either message and has a parameter at least, and its session is valid.
pub exec_args-Recovers :
    {h : Host} (num : Decimals h Buffer) (o : ByteOrder) (cs : Option Charset) (e : Encoder Buffer)
    (nil : Value h) (s : Session) (status : ℕ) (params wide_params : List ColFmt)
    (deliver : Stmt (Value h) → Session × Option Error) (g : ColFmt) (gs : List ColFmt)
    (args old : List (Value h)) (bs : Bytes)
    → s.valid ≡ true
    → Ready Carries o cs [] e
    → HeldRow h o cs (prepared nil s status params wide_params).columns (g ∷ gs) args bs
    → let st = prepared nil s status params wide_params in
      let stored = set_values args st in
      let ready = record st { values = args; row_data = args } in
      (stored.1 ≡ none)
      × (send deliver stored.0.values stored.0
          ≡ (record ready { session = clear_result (deliver ready).0 }, (deliver ready).1))
      × Recovers o cs
          (write_row num ready.columns ready.row_data)
          (read_row num (some (g ∷ gs)) old)
          args
          e
unfolding prepared
exec_args-Recovers num o cs e nil s status params wide_params deliver g gs args old bs valid r
      held =
    let st = prepared nil s status params wide_params in
    let many : length args ≡ length st.columns =
      length-HeldRow o cs st.columns (g ∷ gs) args bs held in
    let fits : length args ≡ length st.values = many ∙ sym (length-nils nil st.columns) in
    rw (set_values-fit args st fits) (
      refl,
      send-fit deliver args (record st { values = args }) valid many,
      read-write_row num o cs e g st.columns gs args old bs r held,
    )

not_same : (n m : ℕ) → n ≢ m → (n == m) ≡ false
not_same n m h = ground (arith, h)

-- Any other number of arguments is refused by both, and nothing of the statement changes.
pub args-refused :
    {V : Type 0} (nil : V) (s : Session) (status : ℕ) (params wide_params : List ColFmt)
    (args : List V)
    → s.valid ≡ true
    → length args ≢ num_input (prepared nil s status params wide_params)
    → let st = prepared nil s status params wide_params in
      (set_values args st ≡ (st, some invalid_arg_count))
      × (set_args args st ≡ (st, some (parameter_count (num_input st) (length args))))
unfolding num_input prepared set_values set_args
args-refused nil s status params wide_params args e h =
    let st = prepared nil s status params wide_params in
    let stored : length args ≢ length st.values = λ k. h (k ∙ length-nils nil st.columns) in
    (
      rw (not_same (length args) (length st.values) stored) refl,
      rw (e, not_same (length args) (length st.columns) h) refl,
    )

get_elem-end : {A : Type 0} (xs : List A) → get_elem? xs (length xs) ≡ none
get_elem-end [] = refl
get_elem-end (x ∷ xs) = get_elem-end xs

-- ColumnConverter panics on the index that is the number of converters, which its test lets pass.
pub column_converter-panics :
    {V : Type 0} (st : Stmt V) → column_converter st (pos (length st.converters)) ≡ out_of_range
unfolding column_converter converter_at
column_converter-panics st =
    let pass : leb (length st.converters) (length st.converters) ≡ true = ground arith in
    rw (pass, get_elem-end st.converters) refl
