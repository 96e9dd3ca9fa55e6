-- ===== src/Golang/Errors.antt =====
-- The error values that the driver returns or passes on. Most are `fmt.Errorf` or `errors.New`
-- texts: a constructor for each, with the values that the text prints. Three stand for what is no
-- error value in Go: `panic` for a run-time panic, `blocked` for a receive on an empty channel,
-- `diverges` for a loop that has not ended within the rounds that its input allows.
use tds.Base.{ℕ, Bytes}
use tds.Base.Int.{ℤ}

-- `SybError` of messages.go, an error sent by the server.
pub record SybError : Type 0 where
  pub msg_number : ℤ
  pub state : ℤ
  pub severity : ℤ
  pub sql_state : Bytes
  pub has_eed : ℕ
  pub tran_state : ℕ
  pub message : Bytes
  pub server : Bytes
  pub procedure : Bytes
  pub line_number : ℤ

-- The functions of types.go that encode a value, which their errors tell apart by name.
pub data Coder : Type 0 where
  for_date for_bit for_tinyint for_smallint for_int for_uint for_bigint for_ubigint for_usmallint :
      Coder
  for_real for_float for_char for_binary for_image for_unichar for_text : Coder

pub data Error : Type 0 where
  -- io
  eof unexpected_eof short_write : Error
  -- the connection, by a code of the environment's
  conn_failed : ℕ → Error
  -- golang.org/x/text/encoding
  conversion_failed : ℕ → Error
  -- context
  canceled deadline_exceeded : Error
  -- database/sql/driver
  bad_conn : Error
  -- binary/encoder.go
  invalid_string_length : ℤ → Error
  -- buffer.go
  unknown_token_size : ℕ → Error
  eof_in_message : Error
  unexpected_packet : ℕ → Error
  unexpected_cancel_packet : ℕ → Error
  not_acknowledged : Error
  no_encoder : Bytes → Error
  -- messages.go
  unknown_option : ℤ → Error
  unknown_token : ℕ → Error
  invalid_capability_type above_capabilities : Error
  -- session.go
  unknown_env_change : ℕ → Error
  cannot_encode : Bytes → Error
  unknown_done_error : Error
  invalid_isolation_level no_read_only : Error
  -- types.go
  overflow bad_type non_nullable : Error
  -- the data type and the buffer's size
  invalid_date_length : ℕ → ℕ → Error
  unexpected_data_type : ℕ → Error
  invalid_value : Coder → Error
  invalid_data_size utf16_failed : Error
  hex_failed : Error → Error
  -- num.go
  bad_scan bad_numeric : Error
  not_a_number : Bytes → Error
  scan_failed : Error → Error
  -- tabular_messages.go
  no_type_info : ℕ → Error
  type_info_failed : Error → Error
  missing_type_properties no_columns column_count no_compute_info : Error
  type_length_failed : Error → Error
  sybase : SybError → Error
  -- stmt.go
  parameter_count : ℕ → ℕ → Error
  invalid_arg_count : Error
  -- `fmt.Errorf("%s: %s", msg, err)`
  wrapped : Bytes → Error → Error
  panic blocked diverges : Error
