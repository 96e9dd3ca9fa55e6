-- ===== src/Session/Results.antt =====
-- What a response leaves in the session: the loop that reads its messages, in session.go.
use tds.Base.{
  ℕ, ◌≡◌, refl, Bool, true, false, ◌||◌, Option, none, some, List, [], ◌∷◌, ◌++◌, Bytes, arith,
  if◌then◌else◌,
}
use tds.Base.Int.{ℤ, pos, u16}
use tds.Golang.Errors.{Error, SybError, eof}
use tds.Encoder.Ops.{Charset}
use tds.Messages.Tokens.{
  done_token, done_proc_token, done_in_proc_token, sql_message_token, env_change_token,
  return_status_token, has_flag,
}
use tds.Messages.Done.{Done}
use tds.Messages.EnvChange.{EnvChange}
use tds.Messages.ReturnStatus.{ReturnStatus}
use tds.Session.{
  Session, Result, handle, process_done, process_sql_message, process_env_change,
  process_return_status, or_unknown, final_error, use_charset, use_packet_size, done_proc,
  done_count, done_error, done_more_results,
}

-- A message that the handler knows, read into the session's own copy of it.
pub data Message : Type 0 where
  sql : SybError → Message
  env : EnvChange → Message
  status : ReturnStatus → Message
  ends : Done → Message
  ends_proc : Done → Message
  ends_in_proc : Done → Message

abbrev pub store : Message → Session → Session
store (sql m) s = record s { sql_message = m }
store (env m) s = record s { env_change = m }
store (status m) s = record s { return_status = m }
store (ends m) s = record s { done = m }
store (ends_proc m) s = record s { done = m }
store (ends_in_proc m) s = record s { done = m }

abbrev pub token_of : Message → ℕ
token_of (sql m) = sql_message_token
token_of (env m) = env_change_token
token_of (status m) = return_status_token
token_of (ends m) = done_token
token_of (ends_proc m) = done_proc_token
token_of (ends_in_proc m) = done_in_proc_token

-- An error that is not the end of a response.
abbrev pub is_failure : Option Error → Bool
is_failure none = false
is_failure (some eof) = false
is_failure (some e) = true

abbrev is_end : Option Error → Bool
is_end none = false
is_end (some eof) = true
is_end (some e) = false

or_unknown-failure :
    (b : Bool) (e : Option Error) → is_failure e ≡ true → is_failure (or_unknown b e) ≡ true
unfolding or_unknown
or_unknown-failure b none h = ground arith
or_unknown-failure b (some e) h = h

-- The response has failed: an error is kept, to be returned by the last done message.
abbrev Failed : Session → Type 0
Failed s = is_failure s.res.last_error ≡ true

-- It stays so, and what the handler returned does not say that the response ended well.
abbrev StaysFailed : Session × Option Error → Type 0
StaysFailed r = Failed r.0 × (is_end r.1 ≡ false)

final_error-failure :
    (e : Option Error) → is_failure e ≡ true → is_end (some (final_error e)) ≡ false
unfolding final_error
final_error-failure none h = ground arith
final_error-failure (some eof) h = ground arith
final_error-failure (some e) h = ground arith

final_error-kept :
    (e : Option Error) → is_failure e ≡ true → is_failure (some (final_error e)) ≡ true
unfolding final_error
final_error-kept none h = ground arith
final_error-kept (some e) h = h

process_done-Failed : (t : ℕ) (s : Session) → Failed s → StaysFailed (process_done t s)
unfolding process_done
process_done-Failed t s h =
    let kept = or_unknown-failure (has_flag (u16 s.done.status) 2) s.res.last_error h in
    ground (arith, kept, final_error-failure _ kept)

process_sql_message-Failed : (s : Session) → Failed s → StaysFailed (process_sql_message s)
unfolding process_sql_message
process_sql_message-Failed s h = ground arith

module _ (get_encoding : Bytes → Option Charset) (atoi : Bytes → Option ℤ) where
  use_charset-Failed :
      (name : Bytes) (s : Session) → Failed s → StaysFailed (use_charset get_encoding atoi name s)
  unfolding use_charset
  use_charset-Failed name s h = ground arith

  use_packet_size-Failed :
      (text : Bytes) (s : Session)
      → Failed s
      → StaysFailed (use_packet_size get_encoding atoi text s)
  unfolding use_packet_size
  use_packet_size-Failed text s h = ground arith

  process_env_change-Failed :
      (s : Session) → Failed s → StaysFailed (process_env_change get_encoding atoi s)
  unfolding process_env_change
  process_env_change-Failed s h = ground (
    arith,
    use_charset-Failed s.env_change.old_value s h,
    use_charset-Failed s.env_change.new_value s h,
    use_packet_size-Failed s.env_change.new_value s h,
  )

  -- One round of the loop: a message is read and handled.
  unfoldable pub step : Message → Session → Session × Option Error
  step m s = handle get_encoding atoi (token_of m) (store m s)

  -- The loop, until the handler returns an error.
  unfoldable pub run : List Message → Session → Session × Option Error
  unfolding step
  run [] s = (s, none)
  run (m ∷ ms) s =
      let r = step m s in let rest = run ms r.0 in elim r.1 [ none ↦ rest | some e ↦ (r.0, some e) ]

  step-Failed : (m : Message) (s : Session) → Failed s → StaysFailed (step m s)
  unfolding step handle
  step-Failed (sql m) s h = process_sql_message-Failed (store (sql m) s) h
  step-Failed (env m) s h = process_env_change-Failed (store (env m) s) h
  step-Failed (status m) s h = unfold process_return_status in (h, refl)
  step-Failed (ends m) s h = process_done-Failed done_token (store (ends m) s) h
  step-Failed (ends_proc m) s h = process_done-Failed done_proc_token (store (ends_proc m) s) h
  step-Failed (ends_in_proc m) s h =
      process_done-Failed done_in_proc_token (store (ends_in_proc m) s) h

  -- The last done message of a response that has failed returns the error.
  last_done-Failed :
      (d : Done) (s : Session)
      → has_flag (u16 d.status) done_more_results ≡ false
      → Failed s
      → is_failure (step (ends d) s).1 ≡ true
  unfolding step handle process_done
  last_done-Failed d s last h =
      let kept = or_unknown-failure (has_flag (u16 d.status) done_error) s.res.last_error h in
      ground (arith, last, kept, final_error-kept _ kept)

  run-Failed :
      (ms rest : List Message) (d : Done) (s : Session)
      → has_flag (u16 d.status) done_more_results ≡ false
      → Failed s
      → is_failure (run (ms ++ ends d ∷ rest) s).1 ≡ true
  unfolding run
  run-Failed [] rest d s last h = ground (arith, last_done-Failed d s last h)
  run-Failed (m ∷ ms) rest d s last h =
      let (kept, open_still) = step-Failed m s h in
      ground (arith, kept, open_still, run-Failed ms rest d (step m s).0 last kept)

  error_message-Failed :
      (m : SybError) (s : Session)
      → s.custom_error m ≡ true
      → Failed (step (sql m) s).0 × ((step (sql m) s).1 ≡ none)
  unfolding step handle process_sql_message
  error_message-Failed m s h = ground (arith, h)

  -- A response with an error message fails: once a message that counts as an error is read, whatever
  -- messages follow it up to a done message without the bit for more results, the loop returns an
  -- error, and that error is not io.EOF, which would say that the response ended well.
  pub run-reports :
      (m : SybError) (ms rest : List Message) (d : Done) (s : Session)
      → s.custom_error m ≡ true
      → has_flag (u16 d.status) done_more_results ≡ false
      → is_failure (run (sql m ∷ ms ++ ends d ∷ rest) s).1 ≡ true
  unfolding run
  run-reports m ms rest d s h last =
      let (failed, open_still) = error_message-Failed m s h in
      ground (arith, open_still, run-Failed ms rest d (step (sql m) s).0 last failed)

abbrev counts : ℕ → Bool
counts flags = has_flag flags done_count || has_flag flags done_proc

-- The row count that a message brings, if it is a done message that has one.
abbrev pub count_of : Message → Option ℤ
count_of (ends m) = if counts (u16 m.status) then some m.count else none
count_of (ends_proc m) = if counts (u16 m.status) then some m.count else none
count_of (ends_in_proc m) = if has_flag (u16 m.status) done_proc then some m.count else none
count_of m = none

abbrev or_else : Option ℤ → Option ℤ → Option ℤ
or_else (some n) old = some n
or_else none old = old

-- The last row count of the messages.
abbrev pub last_count : Option ℤ → List Message → Option ℤ
last_count old [] = old
last_count old (m ∷ ms) = last_count (or_else (count_of m) old) ms

abbrev counted : Result → Option ℤ
counted r = if r.has_affected_rows then some r.affected_rows else none

abbrev pub rows_of : Option ℤ → ℤ
rows_of none = pos 0
rows_of (some n) = n
