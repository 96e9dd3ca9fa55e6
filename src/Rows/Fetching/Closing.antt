-- ===== src/Rows/Fetching/Closing.antt =====
-- rows.go: Close ends, whatever the response holds.
use tds.Base.{
  ℕ, zero, suc, ◌+◌, ◌*◌, ◌≤◌, ◌<◌, ◌≡◌, ◌≢◌, refl, ap, Bool, true, false, Option, none, some, List,
  [], ◌∷◌, length, Bytes, arith, if◌then◌else◌, Bool-cases, inl, inr, Option-cases,
}
use tds.Base.Int.{ℤ}
use tds.Golang.Errors.{Error, eof, diverges, eof_in_message}
use tds.Encoder.Ops.{Charset}
use tds.Session.{Session, check_err, check_kind}
use tds.Session.Results as Results
use tds.Session.Results.{Message}
use tds.Rows.Fetching.Draining.{next-pending, next-compute}
use tds.Rows.{
  Event, row_read, param_read, columns_read, wide_columns_read, params_read, wide_params_read,
  cmp_row_read, cmp_columns_read, table_name_read, column_info_read, handled, skipped, broken, Rows,
  Fetched, next, next_loop, next_unless, next_checked, next_failed, next_cmp_row, next_result_set,
  new_columns, compute_row, set_cmp_columns, set_column_info, after_handler, failed, close_loop,
  close_ended, close, stop,
}

abbrev flag : Bool → ℕ
flag b = if b then 1 else 0

-- How far the rows are from the end of the response: a computed row that is pending, and a next result set, count less
-- than a message.
abbrev pending : {V : Type 0} → Rows V → ℕ
pending r = 4 * length r.incoming + 2 * flag r.is_cmp_row

abbrev weight : {V : Type 0} → Rows V → ℕ
weight r = pending r + flag r.has_next_result_set

-- A call of Next that returns a row, or the end of a result set that another one follows, comes nearer to the end.
record Shrinks {V : Type 0} (f : Fetched V) (bound : ℕ) : Type 0 where
  pub going : f.err ≡ none → weight f.rows < bound
  pub ending : f.err ≡ some eof → f.rows.has_next_result_set ≡ true → pending f.rows < bound

abbrev is_none : Option Error → Bool
is_none none = true
is_none (some e) = false

abbrev runs_out : Option Error → Bool
runs_out (some diverges) = true
runs_out e = false

-- checkErr does not make an error disappear, unless it is to ignore EOF.
check_err-some :
    (e : Error) (s : Session) → is_none (check_err (some e) next_failed false s).1 ≡ false
unfolding check_err check_kind
check_err-some e s = ground arith

module _ {V : Type 0} where
  stopped-Shrinks :
      (r : Rows V) (e : Option Error) (bound : ℕ)
      → r.has_next_result_set ≡ false
      → (e ≡ none → weight r < bound)
      → Shrinks (stop r e) bound
  stopped-Shrinks r e bound h k = record { going = k; ending = λ x y. absurd (cc (h, y)) }

  set-Shrinks : (r : Rows V) (bound : ℕ) → pending r < bound → Shrinks (stop r (some eof)) bound
  set-Shrinks r bound h = record { going = λ e. absurd (cc (e)); ending = λ x y. h }

  failed-Shrinks :
      (r : Rows V) (e : Error) (bound : ℕ)
      → r.has_next_result_set ≡ false
      → Shrinks (failed r e) bound
  failed-Shrinks r e bound h = record {
    going = λ x. absurd (cc (x));
    ending = λ x y. absurd (cc (h, y));
  }

  module _ (get_encoding : Bytes → Option Charset) (atoi : Bytes → Option ℤ) where
    after_handler-Shrinks :
        (es : List (Event V)) (r : Rows V) (st : Session × Option Error) (rest : Fetched V)
        (bound : ℕ)
        → r.has_next_result_set ≡ false
        → Shrinks rest bound
        → Shrinks (after_handler es r st rest) bound
    unfolding after_handler
    after_handler-Shrinks es r (s, none) rest bound h k = k
    after_handler-Shrinks es r (s, some e) rest bound h k =
        failed-Shrinks (record r { session = s; incoming = es }) e bound h

    next_loop-Shrinks :
        (es : List (Event V)) (r : Rows V) (bound : ℕ)
        → r.is_cmp_row ≡ false
        → r.has_next_result_set ≡ false
        → 4 * length es ≤ bound
        → Shrinks (next_loop get_encoding atoi es r) bound
    unfolding next_loop new_columns compute_row set_cmp_columns set_column_info
    next_loop-Shrinks [] r bound c h room =
        failed-Shrinks (record r { incoming = [] }) eof_in_message bound h
    next_loop-Shrinks (row_read vs ∷ es) r bound c h room = record {
      going = λ e. ground (arith, room, c, h);
      ending = λ e y. absurd (cc (e));
    }
    next_loop-Shrinks (param_read vs ∷ es) r bound c h room =
        next_loop-Shrinks es _ bound c h (omega arith)
    next_loop-Shrinks (columns_read fs ∷ es) r bound c h room =
        set-Shrinks _ bound (ground (arith, room, c))
    next_loop-Shrinks (wide_columns_read fs ∷ es) r bound c h room =
        set-Shrinks _ bound (ground (arith, room, c))
    next_loop-Shrinks (params_read fs ∷ es) r bound c h room =
        next_loop-Shrinks es _ bound c h (omega arith)
    next_loop-Shrinks (wide_params_read fs ∷ es) r bound c h room =
        next_loop-Shrinks es _ bound c h (omega arith)
    next_loop-Shrinks (cmp_row_read vs ∷ es) r bound c h room =
        set-Shrinks _ bound (omega (arith, room))
    next_loop-Shrinks (cmp_columns_read k ∷ es) r bound c h room =
        next_loop-Shrinks es _ bound c h (omega arith)
    next_loop-Shrinks (table_name_read ∷ es) r bound c h room =
        next_loop-Shrinks es r bound c h (omega arith)
    next_loop-Shrinks (column_info_read f ∷ es) r bound c h room =
        next_loop-Shrinks es _ bound c h (omega arith)
    next_loop-Shrinks (handled m ∷ es) r bound c h room =
        after_handler-Shrinks es r (Results.step get_encoding atoi m r.session) _ bound h
          (next_loop-Shrinks es _ bound c h (omega arith))
    next_loop-Shrinks (skipped ∷ es) r bound c h room =
        next_loop-Shrinks es r bound c h (omega arith)
    next_loop-Shrinks (broken e ∷ es) r bound c h room =
        failed-Shrinks (record r { incoming = es }) e bound h

    next-reading :
        (r : Rows V)
        → r.has_next_result_set ≡ false
        → r.is_cmp_row ≡ false
        → r.err ≡ none
        → next get_encoding atoi r ≡ next_loop get_encoding atoi r.incoming r
    unfolding next next_unless
    next-reading r h k e = simp (h, k, e) refl

    next-failing :
        (r : Rows V) (x : Error)
        → r.has_next_result_set ≡ false
        → r.err ≡ some x
        → next get_encoding atoi r
          ≡ next_checked get_encoding atoi r (check_err (some x) next_failed false r.session)
    unfolding next next_unless
    next-failing r x h e = simp (h, e) refl

    next_checked-Shrinks :
        (r : Rows V) (st : Session × Option Error) (bound : ℕ)
        → r.has_next_result_set ≡ false
        → is_none st.1 ≡ false
        → Shrinks (next_checked get_encoding atoi r st) bound
    unfolding next_checked
    next_checked-Shrinks r (s, e) bound h k =
        stopped-Shrinks (record r { session = s }) e bound h (λ x. absurd (cc (k, ap is_none x)))

    next-Shrinks : (r : Rows V) → Shrinks (next get_encoding atoi r) (weight r)
    unfolding next_cmp_row
    next-Shrinks r = elim (Bool-cases r.has_next_result_set) [
      | inl e ↦
          rw (next-pending get_encoding atoi r e) (set-Shrinks r (weight r) (ground (arith, e)))
      | inr e ↦ elim (Option-cases r.err) [
        | inl n ↦ elim (Bool-cases r.is_cmp_row) [
          | inl c ↦
              rw (next-compute get_encoding atoi r e c n)
                (record { going = λ x. ground (arith, c, e); ending = λ x y. absurd (cc (x)) })
          | inr c ↦
              rw (next-reading r e c n)
                (next_loop-Shrinks r.incoming r (weight r) c e (omega arith))
        ]
        | inr (x, n) ↦ rw (next-failing r x e n) (
            next_checked-Shrinks r (check_err (some x) next_failed false r.session) (weight r) e
              (check_err-some x r.session))
      ]
    ]

    next_set-weight :
        (r : Rows V)
        → r.has_next_result_set ≡ true
        → weight (next_result_set get_encoding atoi r).0 ≡ pending r
    unfolding next_result_set
    next_set-weight r h = rw (next_result_set, h) (omega arith)

    close_ended-done :
        (e : Option Error) (r : Rows V) (rest later : Rows V × Option Error)
        → (e ≡ none → runs_out rest.1 ≡ false)
        → (e ≡ some eof → r.has_next_result_set ≡ true → runs_out later.1 ≡ false)
        → runs_out (close_ended get_encoding atoi e r rest later).1 ≡ false
    unfolding close_ended
    close_ended-done none r rest later k h = k refl
    close_ended-done (some eof) r rest later k h = elim (Bool-cases r.has_next_result_set) [
      | inl e ↦ rw e (h refl e)
      | inr e ↦ rw e refl
    ]
    close_ended-done (some e) r rest later k h = refl

    close_loop-done :
        (fuel : ℕ) (r : Rows V)
        → weight r < fuel
        → runs_out (close_loop get_encoding atoi fuel r).1 ≡ false
    unfolding close_loop
    close_loop-done zero r h = absurd (omega (arith, h))
    close_loop-done (suc fuel) r h =
        let f = next get_encoding atoi r in
        let s = next-Shrinks r in
        close_ended-done f.err f.rows _ _
          (λ e. close_loop-done fuel f.rows (omega (arith, s.going e, h)))
          (λ e z.
            close_loop-done fuel (next_result_set get_encoding atoi f.rows).0
              (omega (arith, next_set-weight f.rows z, s.ending e z, h)))

    -- Close ends on whatever rows and messages, within a few rounds for each message: it does not run out of the rounds
    -- that the model gives it.
    pub close-ends : (r : Rows V) → (close get_encoding atoi r).1 ≢ some diverges
    unfolding close
    close-ends r h =
        let s = close_loop-done (4 * length r.incoming + 4) r (ground arith) in
        absurd (cc (s, ap runs_out h))
