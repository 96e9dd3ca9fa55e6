-- ===== src/Rows/Fetching/Draining.antt =====
-- rows.go: a client is given what a response says.
use tds.Base.{
  ℕ, zero, suc, ◌≤◌, ◌≡◌, refl, ap, ◌∙◌, true, false, Option, none, some, List, [], ◌∷◌, length,
  Bytes, arith,
}
use tds.Base.Int.{ℤ}
use tds.Golang.Errors.{Error, eof}
use tds.Encoder.Ops.{Charset}
use tds.Session.{Session, clear_result}
use tds.Session.Results as Results
use tds.Session.Results.{Message}
use tds.Columns.Formats.{ColFmt}
use tds.Rows.{
  Event, columns_read, handled, Rows, Fetched, row_follows, next, next_loop, next_unless,
  next_cmp_row, next_result_set, new_columns, compute_row, set_cmp_columns, set_column_info,
  after_handler, stop, failed, new_rows, begun,
}
use tds.Rows.Fetching.{
  Seen, row, next_set, Says, ended, quiet, a_row, columns, wide_columns, computed, computed_between,
  a_param, params, wide_params, compute_info, table_names, column_info, unknown_message, outcome,
  drain,
}

module _ {V : Type 0} (get_encoding : Bytes → Option Charset) (atoi : Bytes → Option ℤ) where
  -- Nothing is pending.
  record Still (s : Session) (r : Rows V) : Type 0 where
    pub same_session : r.session ≡ s
    pub no_next : r.has_next_result_set ≡ false
    pub no_compute : r.is_cmp_row ≡ false
    pub no_error : r.err ≡ none

  next-loop :
      (s : Session) (es : List (Event V)) (r : Rows V)
      → Still s r
      → r.incoming ≡ es
      → next get_encoding atoi r ≡ next_loop get_encoding atoi es r
  unfolding next next_unless
  next-loop s es r h e = simp (h.no_next, h.no_error, h.no_compute, e) refl

  abbrev goes_on : ℕ → Fetched V → List (Seen V) × Option Error
  goes_on fuel f = outcome get_encoding atoi (drain get_encoding atoi fuel) f.rows f.values f.err

  next_loop-quiet :
      (m : Message) (es : List (Event V)) (r : Rows V) (s t : Session)
      → r.session ≡ s
      → Results.step get_encoding atoi m s ≡ (t, none)
      → next_loop get_encoding atoi (handled m ∷ es) r
        ≡ next_loop get_encoding atoi es (record r { session = t })
  unfolding next_loop after_handler
  next_loop-quiet m es r s t e k =
      ap
        (λ st. after_handler es r st (next_loop get_encoding atoi es (record r { session = st.0 })))
        (ap (Results.step get_encoding atoi m) e ∙ k)

  next_loop-ended :
      (m : Message) (es : List (Event V)) (r : Rows V) (s t : Session)
      → r.session ≡ s
      → Results.step get_encoding atoi m s ≡ (t, some eof)
      → next_loop get_encoding atoi (handled m ∷ es) r
        ≡ failed (record r { session = t; incoming = es }) eof
  unfolding next_loop after_handler
  next_loop-ended m es r s t e k =
      ap
        (λ st. after_handler es r st (next_loop get_encoding atoi es (record r { session = st.0 })))
        (ap (Results.step get_encoding atoi m) e ∙ k)

  outcome-end :
      (more : Rows V → List (Seen V) × Option Error) (r : Rows V)
      → r.has_next_result_set ≡ false
      → outcome get_encoding atoi more r none (some eof) ≡ ([], none)
  unfolding outcome
  outcome-end more r h = rw h refl

  module _ (fuel : ℕ) where
    -- One call of Next further.
    drain-next :
        (s : Session) (es : List (Event V)) (r : Rows V) (os : List (Seen V))
        → Still s r
        → r.incoming ≡ es
        → goes_on fuel (next_loop get_encoding atoi es r) ≡ (os, none)
        → drain get_encoding atoi (suc fuel) r ≡ (os, none)
    unfolding drain
    drain-next s es r os h e ih = ap (goes_on fuel) (next-loop s es r h e) ∙ ih

    outcome-row :
        (r : Rows V) (vs : List V) (os : List (Seen V))
        → drain get_encoding atoi (suc fuel) r ≡ (os, none)
        → outcome get_encoding atoi (drain get_encoding atoi (suc fuel)) r (some vs) none
          ≡ (row vs ∷ os, none)
    unfolding outcome
    outcome-row r vs os h = rw h refl

    outcome-set :
        (r t : Rows V) (os : List (Seen V))
        → r.has_next_result_set ≡ true
        → (next_result_set get_encoding atoi r).0 ≡ t
        → drain get_encoding atoi (suc fuel) t ≡ (os, none)
        → outcome get_encoding atoi (drain get_encoding atoi (suc fuel)) r none (some eof)
          ≡ (next_set ∷ os, none)
    unfolding outcome
    outcome-set r t os e f h = simp (e, f, h) refl

  next_set_lem :
      (r : Rows V)
      → r.has_next_result_set ≡ true
      → (next_result_set get_encoding atoi r).0
        ≡ record r { has_next_result_set = false; session = clear_result r.session }
  unfolding next_result_set
  next_set_lem r h = rw (next_result_set, h) refl

  still :
      {s t : Session} {r q : Rows V}
      → Still s r
      → q.session ≡ t
      → q.has_next_result_set ≡ r.has_next_result_set
      → q.is_cmp_row ≡ r.is_cmp_row
      → q.err ≡ r.err
      → Still t q
  still h e a b c = record {
    same_session = e;
    no_next = a ∙ h.no_next;
    no_compute = b ∙ h.no_compute;
    no_error = c ∙ h.no_error;
  }

  -- The end of a result set that another one follows.
  set-then :
      (fuel : ℕ) (s : Session) (r : Rows V) (os : List (Seen V))
      → r.session ≡ s
      → r.has_next_result_set ≡ true
      → drain get_encoding atoi
          (suc fuel)
          (record r { has_next_result_set = false; session = clear_result r.session })
        ≡ (os, none)
      → outcome get_encoding atoi (drain get_encoding atoi (suc fuel)) r none (some eof)
        ≡ (next_set ∷ os, none)
  set-then fuel s r os e h more = outcome-set fuel r _ os h (next_set_lem r h) more

  cleared :
      {s : Session} (r : Rows V)
      → r.session ≡ s
      → r.is_cmp_row ≡ false
      → r.err ≡ none
      → Still
          (clear_result s)
          (record r { has_next_result_set = false; session = clear_result r.session })
  cleared r e h k = record {
    same_session = ap clear_result e;
    no_next = refl;
    no_compute = h;
    no_error = k;
  }

  pub next-compute :
      (r : Rows V)
      → r.has_next_result_set ≡ false
      → r.is_cmp_row ≡ true
      → r.err ≡ none
      → next get_encoding atoi r ≡ next_cmp_row r
  unfolding next next_unless
  next-compute r h k e = simp (h, k, e) refl

  pub next-pending :
      (r : Rows V) → r.has_next_result_set ≡ true → next get_encoding atoi r ≡ stop r (some eof)
  unfolding next
  next-pending r h = simp (h) refl

  -- The computed row, once the result set before it has ended.
  compute-then :
      (fuel : ℕ) (r : Rows V) (os : List (Seen V))
      → r.is_cmp_row ≡ true
      → r.has_next_result_set ≡ false
      → r.err ≡ none
      → drain get_encoding atoi (suc fuel) (record r {
        is_cmp_row = false;
        has_next_result_set = row_follows r.incoming;
        column_fmts = r.row_columns;
        same_slice = true;
      })
        ≡ (os, none)
      → drain get_encoding atoi (suc (suc fuel)) r ≡ (row r.cmp_data ∷ os, none)
  unfolding drain next_cmp_row
  compute-then fuel r os h k e more =
      ap (goes_on (suc fuel)) (next-compute r k h e)
      ∙ outcome-row fuel (next_cmp_row r).rows r.cmp_data os more

  pending-then :
      (fuel : ℕ) (r : Rows V) (os : List (Seen V))
      → r.has_next_result_set ≡ true
      → drain get_encoding atoi
          (suc fuel)
          (record r { has_next_result_set = false; session = clear_result r.session })
        ≡ (os, none)
      → drain get_encoding atoi (suc (suc fuel)) r ≡ (next_set ∷ os, none)
  unfolding drain
  pending-then fuel r os h more =
      ap (goes_on (suc fuel)) (next-pending r h) ∙ set-then fuel _ r os refl h more

  drained :
      {s : Session} {es : List (Event V)} {os : List (Seen V)}
      → Says get_encoding atoi s es os
      → (r : Rows V) (fuel : ℕ) → Still s r
      → length os ≤ fuel
      → goes_on fuel (next_loop get_encoding atoi es r) ≡ (os, none)
  unfolding next_loop set_cmp_columns set_column_info new_columns compute_row next_cmp_row
  drained (ended {t = t} {m} {es} k) r fuel h room =
      ap (goes_on fuel) (next_loop-ended m es r _ t h.same_session k)
      ∙ outcome-end (drain get_encoding atoi fuel) _ h.no_next
  drained (quiet {t = t} {m} {es} k says) r fuel h room =
      ap (goes_on fuel) (next_loop-quiet m es r _ t h.same_session k)
      ∙ drained says (record r { session = t }) fuel (still h refl refl refl refl) room
  drained (a_row {vs} {es} {os} says) r zero h room = absurd (omega (arith, room))
  drained (a_row {vs} {es} {os} says) r (suc fuel) h room =
      let t = record r { incoming = es; row_data = vs } in
      let ready = still h h.same_session refl refl refl in
      outcome-row fuel t vs os
        (drain-next fuel _ es t os ready refl (drained says t fuel ready (omega arith)))
  drained (columns {fs} {es} {os} says) r zero h room = absurd (omega (arith, room))
  drained (columns {fs} {es} {os} says) r (suc fuel) h room =
      let q = (new_columns fs (record r { incoming = es })).rows in
      let t = record q { has_next_result_set = false; session = clear_result q.session } in
      let ready = cleared q h.same_session h.no_compute h.no_error in
      set-then fuel _ q os h.same_session refl
        (drain-next fuel _ es t os ready refl (drained says t fuel ready (omega arith)))
  drained (wide_columns {fs} {es} {os} says) r zero h room = absurd (omega (arith, room))
  drained (wide_columns {fs} {es} {os} says) r (suc fuel) h room =
      let q = (new_columns fs (record r { incoming = es })).rows in
      let t = record q { has_next_result_set = false; session = clear_result q.session } in
      let ready = cleared q h.same_session h.no_compute h.no_error in
      set-then fuel _ q os h.same_session refl
        (drain-next fuel _ es t os ready refl (drained says t fuel ready (omega arith)))
  drained (computed {vs} {es} {os} e says) r zero h room = absurd (omega (arith, room))
  drained (computed {vs} {es} {os} e says) r (suc zero) h room = absurd (omega (arith, room))
  drained (computed {vs} {es} {os} e says) r (suc (suc fuel)) h room =
      let q = (compute_row vs (record r { incoming = es })).rows in
      let t = record q { has_next_result_set = false; session = clear_result q.session } in
      let u = (next_cmp_row t).rows in
      let ready : Still (clear_result _) u = record {
        same_session = ap clear_result h.same_session;
        no_next = e;
        no_compute = refl;
        no_error = h.no_error;
      } in
      set-then (suc fuel) _ q (row vs ∷ os) h.same_session refl (
        compute-then fuel t os refl refl h.no_error
          (drain-next fuel _ es u os ready refl (drained says u fuel ready (omega arith))))
  drained (computed_between {vs} {es} {os} e says) r zero h room = absurd (omega (arith, room))
  drained (computed_between {vs} {es} {os} e says) r (suc zero) h room =
      absurd (omega (arith, room))
  drained (computed_between {vs} {es} {os} e says) r (suc (suc zero)) h room =
      absurd (omega (arith, room))
  drained (computed_between {vs} {es} {os} e says) r (suc (suc (suc fuel))) h room =
      let q = (compute_row vs (record r { incoming = es })).rows in
      let t = record q { has_next_result_set = false; session = clear_result q.session } in
      let u = (next_cmp_row t).rows in
      let v = record u { has_next_result_set = false; session = clear_result u.session } in
      let ready = cleared u (ap clear_result h.same_session) refl h.no_error in
      set-then (suc (suc fuel)) _ q (row vs ∷ next_set ∷ os) h.same_session refl (
        compute-then (suc fuel) t (next_set ∷ os) refl refl h.no_error (
          pending-then fuel u os e
            (drain-next fuel _ es v os ready refl (drained says v fuel ready (omega arith)))))
  drained (a_param {vs} says) r fuel h room =
      drained says (record r { row_data = vs }) fuel (still h h.same_session refl refl refl) room
  drained (params {fs} says) r fuel h room =
      drained says (record r { row_columns = fs; same_slice = false }) fuel
        (still h h.same_session refl refl refl) room
  drained (wide_params {fs} says) r fuel h room =
      drained says (record r { row_columns = fs; same_slice = false }) fuel
        (still h h.same_session refl refl refl) room
  drained (compute_info {c} says) r fuel h room =
      drained says (set_cmp_columns c r) fuel (still h h.same_session refl refl refl) room
  drained (table_names says) r fuel h room = drained says r fuel h room
  drained (column_info {f} says) r fuel h room =
      drained says (set_column_info f r) fuel (still h h.same_session refl refl refl) room
  drained (unknown_message says) r fuel h room = drained says r fuel h room

  -- The rows that newRow makes of a response that begins with columns.
  abbrev begins : Rows V → Session → List ColFmt → List (Event V) → Rows V
  begins pooled s fs es = record pooled {
    session = s;
    incoming = es;
    row_columns = fs;
    column_fmts = fs;
    same_slice = true;
    has_cmp_info = false;
    has_next_result_set = false;
    err = none;
  }

  new_rows-columns :
      (pooled : Rows V) (s : Session) (fs : List ColFmt) (es : List (Event V))
      → pooled.is_cmp_row ≡ false
      → new_rows get_encoding atoi pooled s (columns_read fs ∷ es) ≡ (begins pooled s fs es, none)
  unfolding new_rows begun next_loop new_columns
  new_rows-columns pooled s fs es h =
      ap (λ f. begun get_encoding atoi f.rows f.err)
        (next-loop s (columns_read fs ∷ es)
          (record pooled {
            session = s;
            incoming = columns_read fs ∷ es;
            has_next_result_set = false;
            err = none;
            column_fmts = [];
            same_slice = false;
          })
          (record { same_session = refl; no_next = refl; no_compute = h; no_error = refl }) refl)

  -- A client is given what a response says, in its order and with nothing more: of a response that begins with columns
  -- newRow makes rows without an error and, drained with one call of Next for each row and each next result set that the
  -- messages behind the columns say and one call more, they give just those and end without an error. The pooled rows
  -- have no computed row pending.
  pub drain-says :
      (pooled : Rows V) (s : Session) (fs : List ColFmt) (es : List (Event V)) (os : List (Seen V))
      → pooled.is_cmp_row ≡ false
      → Says get_encoding atoi s es os
      → let r = new_rows get_encoding atoi pooled s (columns_read fs ∷ es) in
        (r.1 ≡ none) × (drain get_encoding atoi (suc (length os)) r.0 ≡ (os, none))
  drain-says pooled s fs es os h says =
      let r = begins pooled s fs es in
      let ready : Still s r = record {
        same_session = refl;
        no_next = refl;
        no_compute = h;
        no_error = refl;
      } in
      rw (new_rows-columns pooled s fs es h) (
        refl,
        drain-next (length os) s es r os ready refl
            (drained says r (length os) ready (omega arith)),
      )
