-- ===== src/Messages/Tokens.antt =====
-- The message tokens and the attributes of each message, of messages.go.
use tds.Base.{ℕ, Bool, ◌||◌, not, Option, none, some, List, [], ◌∷◌, bit_and, ◌==◌, if◌then◌else◌}
use tds.Golang.Errors.{Error, unknown_token}

abbrev pub none_token : ℕ
none_token = 0x00

abbrev pub capability_req_token : ℕ
capability_req_token = 0x01

abbrev pub capability_res_token : ℕ
capability_res_token = 0x02

abbrev pub param_fmt2_toekn : ℕ
param_fmt2_toekn = 0x20

abbrev pub language_token : ℕ
language_token = 0x21

abbrev pub order_by2_token : ℕ
order_by2_token = 0x22

abbrev pub wide_column_fmt_token : ℕ
wide_column_fmt_token = 0x61

abbrev pub dynamic2_token : ℕ
dynamic2_token = 0x62

abbrev pub msg_token : ℕ
msg_token = 0x65

abbrev pub return_status_token : ℕ
return_status_token = 0x79

abbrev pub cur_close_token : ℕ
cur_close_token = 0x80

abbrev pub cur_delete_token : ℕ
cur_delete_token = 0x81

abbrev pub cur_fetch_token : ℕ
cur_fetch_token = 0x82

abbrev pub cur_fmt_token : ℕ
cur_fmt_token = 0x83

abbrev pub cur_open_token : ℕ
cur_open_token = 0x84

abbrev pub cur_declare_token : ℕ
cur_declare_token = 0x86

abbrev pub logout_token : ℕ
logout_token = 0x71

abbrev pub table_name_token : ℕ
table_name_token = 0xa4

abbrev pub column_info_token : ℕ
column_info_token = 0xa5

abbrev pub option_cmd_token : ℕ
option_cmd_token = 0xa6

abbrev pub cmp_row_name_token : ℕ
cmp_row_name_token = 0xa7

abbrev pub cmp_row_fmt_token : ℕ
cmp_row_fmt_token = 0xa8

abbrev pub order_by_token : ℕ
order_by_token = 0xa9

abbrev pub info_token : ℕ
info_token = 0xab

abbrev pub login_ack_token : ℕ
login_ack_token = 0xad

abbrev pub control_token : ℕ
control_token = 0xae

abbrev pub row_token : ℕ
row_token = 0xd1

abbrev pub cmp_row_token : ℕ
cmp_row_token = 0xd3

abbrev pub param_token : ℕ
param_token = 0xd7

abbrev pub capabilities_token : ℕ
capabilities_token = 0xe2

abbrev pub env_change_token : ℕ
env_change_token = 0xe3

abbrev pub sql_message_token : ℕ
sql_message_token = 0xe5

abbrev pub db_rpc_token : ℕ
db_rpc_token = 0xe6

abbrev pub dynamic_token : ℕ
dynamic_token = 0xe7

abbrev pub param_fmt_token : ℕ
param_fmt_token = 0xec

abbrev pub auth_token : ℕ
auth_token = 0xed

abbrev pub column_fmt_token : ℕ
column_fmt_token = 0xee

abbrev pub done_token : ℕ
done_token = 0xfd

abbrev pub done_proc_token : ℕ
done_proc_token = 0xfe

abbrev pub done_in_proc_token : ℕ
done_in_proc_token = 0xff

-- Message attributes, one bit each.
abbrev pub no_flag : ℕ
no_flag = 0

abbrev pub fixed_size : ℕ
fixed_size = 2

abbrev pub limit_read_flag : ℕ
limit_read_flag = 4

abbrev pub long : ℕ
long = 8

abbrev pub short : ℕ
short = 16

abbrev pub ignore_size : ℕ
ignore_size = 32

-- The attributes of a message: its token, its flags and, for a fixed length, its size.
pub record Msg : Type 0 where
  pub token : ℕ
  pub flags : ℕ
  pub size : ℕ

abbrev attributes : ℕ → ℕ → ℕ → Msg
attributes t f n = record { token = t; flags = f; size = n }

-- The table of the attributes.
unfoldable pub msgs : List Msg
msgs =
    attributes none_token no_flag 0
    ∷ attributes capability_req_token no_flag 0
    ∷ attributes capability_res_token no_flag 0
    ∷ attributes param_fmt2_toekn long 0
    ∷ attributes language_token ignore_size 0
    ∷ attributes order_by2_token long 0
    ∷ attributes cmp_row_fmt_token no_flag 0
    ∷ attributes cmp_row_name_token no_flag 0
    ∷ attributes wide_column_fmt_token long 0
    ∷ attributes dynamic2_token long 0
    ∷ attributes return_status_token fixed_size 4
    ∷ attributes cur_close_token no_flag 0
    ∷ attributes cur_delete_token no_flag 0
    ∷ attributes cur_fetch_token no_flag 0
    ∷ attributes cur_fmt_token no_flag 0
    ∷ attributes cur_open_token no_flag 0
    ∷ attributes cur_declare_token no_flag 0
    ∷ attributes logout_token fixed_size 1
    ∷ attributes table_name_token limit_read_flag 0
    ∷ attributes column_info_token limit_read_flag 0
    ∷ attributes option_cmd_token no_flag 0
    ∷ attributes control_token no_flag 0
    ∷ attributes order_by_token no_flag 0
    ∷ attributes login_ack_token no_flag 0
    ∷ attributes row_token ignore_size 0
    ∷ attributes param_token ignore_size 0
    ∷ attributes cmp_row_token ignore_size 0
    ∷ attributes capabilities_token no_flag 0
    ∷ attributes env_change_token no_flag 0
    ∷ attributes sql_message_token no_flag 0
    ∷ attributes info_token no_flag 0
    ∷ attributes db_rpc_token no_flag 0
    ∷ attributes dynamic_token no_flag 0
    ∷ attributes param_fmt_token no_flag 0
    ∷ attributes column_fmt_token no_flag 0
    ∷ attributes done_token fixed_size 8
    ∷ attributes msg_token short 0
    ∷ attributes done_proc_token fixed_size 8
    ∷ attributes done_in_proc_token fixed_size 8
    ∷ []

find_msg : ℕ → List Msg → Option Msg
find_msg t [] = none
find_msg t (m ∷ ms) = if m.token == t then some m else find_msg t ms

-- `safeGetMsg`: the zero value and an error for a token that is not in the table.
unfoldable pub safe_get_msg : ℕ → Msg × Option Error
unfolding msgs find_msg
safe_get_msg t = elim (find_msg t msgs) [
  | some m ↦ (m, none)
  | none ↦ (record { token = 0; flags = 0; size = 0 }, some (unknown_token t))
]

-- `newMsg`: it drops the error.
unfoldable pub new_msg : ℕ → Msg
unfolding safe_get_msg
new_msg t = (safe_get_msg t).0

abbrev pub has_flag : ℕ → ℕ → Bool
has_flag flags flag = not (bit_and flags flag == 0)

-- `Size`.
unfoldable pub message_size : Msg → ℕ
message_size m = if has_flag m.flags fixed_size then m.size else 0

-- `SizeLen`: the width in bits of the length that follows the token.
unfoldable pub size_len : Msg → ℕ
size_len m =
    if has_flag m.flags short
    then 8
    else if has_flag m.flags long
    then 32
    else if has_flag m.flags fixed_size || has_flag m.flags ignore_size
    then 0
    else 16

-- `LimitRead`.
unfoldable pub limits_read : Msg → Bool
limits_read m = has_flag m.flags limit_read_flag
