-- ===== src/Session.antt =====
-- session.go: the state of a connection and the handlers of the messages that every response may
-- hold, with the results of result.go. Of the buffer `b` the handlers change the packet size and the
-- charset of the encoders `pe` and `me`: `buf_packet_size` and `encoding`.
pub mod Results
pub mod Errors
use tds.Base.{
  ℕ, Bool, true, false, ◌&&◌, ◌||◌, not, Option, none, some, List, [], ◌∷◌, ◌++◌, length, get_or,
  bit_and, Bytes, ltb, ◌==◌, if◌then◌else◌,
}
use tds.Base.Int.{ℤ, pos, negsuc, ltb_ℤ, u16}
use tds.Golang.Errors.{
  Error, SybError, eof, canceled, deadline_exceeded, bad_conn, unknown_env_change, cannot_encode,
  unknown_done_error, invalid_isolation_level, no_read_only, sybase, wrapped, panic,
}
use tds.Encoder.Ops.{Charset}
use tds.Messages.Tokens.{
  done_token, done_proc_token, done_in_proc_token, sql_message_token, env_change_token,
  return_status_token, has_flag,
}
use tds.Messages.Done.{Done}
use tds.Messages.EnvChange.{EnvChange}
use tds.Messages.ReturnStatus.{ReturnStatus}

-- `Result` of result.go.
pub record Result : Type 0 where
  pub affected_rows : ℤ
  pub return_status : ℤ
  pub has_error : Bool
  pub has_affected_rows : Bool
  pub has_return_status : Bool
  pub final : Bool
  pub messages : List SybError
  pub last_error : Option Error

pub record Session : Type 0 where
  pub valid : Bool
  pub char_convert : Bool
  pub res : Result
  pub buf_packet_size : ℤ
  pub encoding : Option Charset
  pub packet_size : ℤ
  pub database : Bytes
  pub charset : Bytes
  pub language : Bytes
  pub env_change : EnvChange
  pub done : Done
  pub return_status : ReturnStatus
  pub sql_message : SybError
  pub custom_error : SybError → Bool

-- `isError`, which `IsError` is unless the user replaces it.
unfoldable pub is_error : SybError → Bool
is_error m = ltb_ℤ (pos 10) m.severity

-- `clearResult`.
abbrev pub empty_result : Result
empty_result = record {
  affected_rows = pos 0;
  return_status = pos 0;
  has_error = false;
  has_affected_rows = false;
  has_return_status = false;
  final = false;
  messages = [];
  last_error = none;
}

unfoldable pub clear_result : Session → Session
clear_result s = record s { res = empty_result }

-- `RowsAffected`.
unfoldable pub rows_affected : Result → ℤ × Option Error
rows_affected r = if r.has_affected_rows then (r.affected_rows, none) else (pos 0, none)

-- `processsqlMessage`.
unfoldable pub process_sql_message : Session → Session × Option Error
process_sql_message s =
    let r = record (s.res) { messages = s.res.messages ++ s.sql_message ∷ [] } in
    let failed = record r { last_error = some (sybase s.sql_message) } in
    (record s { res = if s.custom_error s.sql_message then failed else r }, none)

-- `changeType` of messages.go.
abbrev pub db_change : ℕ
db_change = 1

abbrev pub lang_change : ℕ
lang_change = 2

abbrev pub charset_change : ℕ
charset_change = 3

abbrev pub packet_size_change : ℕ
packet_size_change = 4

-- The string "utf8".
abbrev pub utf8 : Bytes
utf8 = 117 ∷ 116 ∷ 102 ∷ 56 ∷ []

unfoldable pub same_bytes : Bytes → Bytes → Bool
same_bytes [] [] = true
same_bytes [] (y ∷ ys) = false
same_bytes (x ∷ xs) [] = false
same_bytes (x ∷ xs) (y ∷ ys) = let rest = same_bytes xs ys in x == y && rest

-- `getEncoding` of charsets.go, over the encodings of golang.org/x, and strconv.Atoi.
module _ (get_encoding : Bytes → Option Charset) (atoi : Bytes → Option ℤ) where
  -- `b.SetCharset`, with the error that processEnvChange makes of its error.
  unfoldable pub use_charset : Bytes → Session → Session × Option Error
  use_charset name s = elim (get_encoding name) [
    | none ↦ (s, some (cannot_encode name))
    | some c ↦ (record s { encoding = some c; charset = name; char_convert = true }, none)
  ]

  unfoldable pub use_packet_size : Bytes → Session → Session × Option Error
  use_packet_size text s = elim (atoi text) [
    | none ↦ (s, none)
    | some n ↦ (record s { packet_size = n; buf_packet_size = n }, none)
  ]

  -- `processEnvChange`.
  unfoldable pub process_env_change : Session → Session × Option Error
  unfolding use_charset use_packet_size
  process_env_change s =
      let m = s.env_change in
      if m.change_type == db_change
      then (record s { database = m.new_value }, none)
      else if m.change_type == lang_change
      then (record s { language = m.new_value }, none)
      else if m.change_type == charset_change
      then (if same_bytes m.new_value []
          then use_charset m.old_value s
          else if same_bytes m.new_value utf8
          then (record s { charset = m.new_value }, none)
          else use_charset m.new_value s)
      else if m.change_type == packet_size_change
      then use_packet_size m.new_value s
      else (s, some (unknown_env_change m.change_type))

-- The status of a done message, in messages.go.
abbrev pub done_more_results : ℕ
done_more_results = 1

abbrev pub done_error : ℕ
done_error = 2

abbrev pub done_proc : ℕ
done_proc = 8

abbrev pub done_count : ℕ
done_count = 16

-- `s.done.status&flag != 0`.
abbrev pub done_has : Session → ℕ → Bool
done_has s flag = has_flag (u16 s.done.status) flag

-- The error that a done message which says so leaves behind, unless there is one.
unfoldable pub or_unknown : Bool → Option Error → Option Error
or_unknown reported (some e) = some e
or_unknown true none = some unknown_done_error
or_unknown false none = none

unfoldable pub final_error : Option Error → Error
final_error none = eof
final_error (some e) = e

-- `processDone`.
unfoldable pub process_done : ℕ → Session → Session × Option Error
unfolding or_unknown final_error
process_done t s =
    let counted = done_has s done_count || done_has s done_proc in
    let last = or_unknown (done_has s done_error) s.res.last_error in
    let final = not (done_has s done_more_results) in
    let r = record (s.res) {
      has_affected_rows = if counted then true else s.res.has_affected_rows;
      affected_rows = if counted then s.done.count else s.res.affected_rows;
      last_error = last;
      final = final;
    } in
    if t == done_in_proc_token && not (done_has s done_proc)
    then (s, none)
    else (record s { res = r }, if final then some (final_error last) else none)

-- `processReturnStatus`.
unfoldable pub process_return_status : Session → Session × Option Error
process_return_status s = (
  record s {
    res = record (s.res) { has_return_status = true; return_status = s.return_status.status };
  },
  none,
)

-- The handler that newSession makes, by the token.
unfoldable pub handle :
    (Bytes → Option Charset) → (Bytes → Option ℤ) → ℕ → Session → Session × Option Error
unfolding process_sql_message process_env_change process_return_status process_done
handle get_encoding atoi t s =
    if t == sql_message_token
    then process_sql_message s
    else if t == env_change_token
    then process_env_change get_encoding atoi s
    else if t == return_status_token
    then process_return_status s
    else if t == done_proc_token || (t == done_in_proc_token || t == done_token)
    then process_done t s
    else (s, none)

abbrev pub is_sybase : Error → Bool
is_sybase (sybase m) = true
is_sybase e = false

-- The errors that checkErr passes on as they are.
unfoldable pub check_kind : Bytes → Bool → Error → Session → Session × Option Error
check_kind msg ignore_eof eof s = (s, if ignore_eof then none else some eof)
check_kind msg ignore_eof canceled s = (s, some canceled)
check_kind msg ignore_eof deadline_exceeded s = (s, some deadline_exceeded)
check_kind msg ignore_eof e s =
    (if is_sybase e then s else record s { valid = false }, some (wrapped msg e))

-- `checkErr`.
unfoldable pub check_err : Option Error → Bytes → Bool → Session → Session × Option Error
unfolding check_kind
check_err err msg ignore_eof s = elim s.valid [
  | false ↦ (s, some bad_conn)
  | true ↦ elim err [ none ↦ (s, none) | some e ↦ check_kind msg ignore_eof e s ]
]

-- The isolation levels of messages.go; -1 is isolationNotImplemented.
abbrev pub isolation_level_map : List ℤ
isolation_level_map = pos 1 ∷ pos 0 ∷ pos 1 ∷ negsuc 0 ∷ pos 2 ∷ negsuc 0 ∷ pos 3 ∷ negsuc 0 ∷ []

pub data Begins : Type 0 where
  default_level : Begins
  set_level : ℕ → Begins
  refuses : Error → Begins

-- The entry of the map: an index beyond it by one passes the test, and panics as a negative one does.
unfoldable pub level_at : ℤ → Begins
level_at (negsuc n) = refuses panic
level_at (pos n) =
    if ltb (length isolation_level_map) n
    then refuses invalid_isolation_level
    else if n == length isolation_level_map
    then refuses panic
    else elim (get_or isolation_level_map n (negsuc 0)) [
      | pos level ↦ set_level level
      | negsuc level ↦ refuses invalid_isolation_level
    ]

abbrev pub is_default : ℤ → Bool
is_default (pos n) = n == 0
is_default (negsuc n) = false

-- The part of `BeginTx` before anything is sent: the level to set, if one is asked for.
unfoldable pub begin_level : Session → Bool → ℤ → Begins
unfolding level_at
begin_level s read_only isolation =
    if not s.valid
    then refuses bad_conn
    else if read_only
    then refuses no_read_only
    else if is_default isolation
    then default_level
    else level_at isolation
