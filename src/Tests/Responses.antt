-- ===== src/Tests/Responses.antt =====
-- Concrete responses of the server, and the errors of a session.
use tds.Base.{◌<◌, ◌≡◌, ◌&&◌, ◌++◌, refl, true, false, Option, none, some, [], ◌∷◌, Bytes}
use tds.Base.Int.{ℤ, pos}
use tds.Golang.Errors.{bad_type}
use tds.Encoder.Ops.{Charset}
use tds.Messages.Done.{Done}
use tds.Session.{Session, empty_result, is_error, check_err, begin_level}
use tds.Session.Results.{sql, ends, ends_proc, run, is_failure, run-reports}
use tds.Session.Errors.{check_err-valid, is_harmless, begin_level-sets, sql_level}
use tds.Tests.Wires.{no_table}

abbrev pub session : Session
session = record {
  valid = true;
  char_convert = false;
  res = empty_result;
  buf_packet_size = pos 512;
  encoding = none;
  packet_size = pos 512;
  database = [];
  charset = [];
  language = [];
  env_change = record { change_type = 0; new_value = []; old_value = [] };
  done = record { status = pos 0; tran_state = pos 0; count = pos 0 };
  return_status = record { status = pos 0 };
  sql_message = no_table;
  custom_error = is_error;
}

-- No charset is known, and no text is a number.
abbrev pub no_charset : Bytes → Option Charset
no_charset name = none

abbrev pub no_number : Bytes → Option ℤ
no_number text = none

abbrev three_rows : Done
three_rows = record { status = pos 17; tran_state = pos 0; count = pos 3 }

abbrev pub finished : Done
finished = record { status = pos 0; tran_state = pos 0; count = pos 0 }

run-reports_example :
    is_failure
      (run no_charset no_number
        (sql no_table ∷ (ends_proc three_rows ∷ []) ++ ends finished ∷ [])
        session).1
    ≡ true
run-reports_example =
    run-reports no_charset no_number no_table (ends_proc three_rows ∷ []) [] finished session
      (unfold is_error in refl) refl

check_err-valid_example :
    (check_err (some bad_type) [] true session).0.valid
    ≡ (session.valid && is_harmless (some bad_type))
check_err-valid_example = check_err-valid (some bad_type) [] true session

begin_level-sets_example :
    (session.valid ≡ true) × (false ≡ false) × (3 < 4) × (pos 6 ≡ pos (sql_level 3))
begin_level-sets_example = begin_level-sets session false (pos 6) 3 (unfold begin_level in refl)
