-- ===== src/Messages/Options.antt =====
-- The options of messages.go, which an option command sets, and the types of their values.
use tds.Base.{ℕ, List, [], ◌∷◌}
use tds.Base.Int.{ℤ, negsuc}

abbrev pub option_set : ℕ
option_set = 1

abbrev pub option_set_default : ℕ
option_set_default = 2

abbrev pub option_list : ℕ
option_list = 3

abbrev pub option_info : ℕ
option_info = 4

abbrev pub option_date_first : ℕ
option_date_first = 1

abbrev pub option_text_size : ℕ
option_text_size = 2

abbrev pub option_stat_time : ℕ
option_stat_time = 3

abbrev pub option_stat_io : ℕ
option_stat_io = 4

abbrev pub option_row_count : ℕ
option_row_count = 5

abbrev pub option_nat_lang : ℕ
option_nat_lang = 6

abbrev pub option_date_fmt : ℕ
option_date_fmt = 7

abbrev pub option_isolation_level : ℕ
option_isolation_level = 8

abbrev pub option_auth_on : ℕ
option_auth_on = 9

abbrev pub option_charset : ℕ
option_charset = 10

abbrev pub option_showplan : ℕ
option_showplan = 13

abbrev pub option_noexec : ℕ
option_noexec = 14

abbrev pub option_arithignore_on : ℕ
option_arithignore_on = 15

abbrev pub option_arith_abort_on : ℕ
option_arith_abort_on = 17

abbrev pub option_parse_only : ℕ
option_parse_only = 18

abbrev pub option_get_data : ℕ
option_get_data = 20

abbrev pub option_no_count : ℕ
option_no_count = 21

abbrev pub option_force_plan : ℕ
option_force_plan = 23

abbrev pub option_format_only : ℕ
option_format_only = 24

abbrev pub option_chain_xacts : ℕ
option_chain_xacts = 25

abbrev pub option_cur_close_on_xact : ℕ
option_cur_close_on_xact = 26

abbrev pub option_fips_flag : ℕ
option_fips_flag = 27

abbrev pub option_restrees : ℕ
option_restrees = 28

abbrev pub option_identity_on : ℕ
option_identity_on = 29

abbrev pub option_cur_read : ℕ
option_cur_read = 30

abbrev pub option_cur_write : ℕ
option_cur_write = 31

abbrev pub option_identity_off : ℕ
option_identity_off = 32

abbrev pub option_auth_off : ℕ
option_auth_off = 33

abbrev pub option_ansi_null : ℕ
option_ansi_null = 34

abbrev pub option_quoted_ident : ℕ
option_quoted_ident = 35

abbrev pub option_arithignore_off : ℕ
option_arithignore_off = 36

abbrev pub option_arith_abort_off : ℕ
option_arith_abort_off = 37

abbrev pub option_trunc_abort : ℕ
option_trunc_abort = 38

abbrev pub date_first_monday : ℕ
date_first_monday = 1

abbrev pub date_first_tuesday : ℕ
date_first_tuesday = 2

abbrev pub date_first_wednesday : ℕ
date_first_wednesday = 3

abbrev pub date_first_thursday : ℕ
date_first_thursday = 4

abbrev pub date_first_friday : ℕ
date_first_friday = 5

abbrev pub date_first_saturday : ℕ
date_first_saturday = 6

abbrev pub date_first_sunday : ℕ
date_first_sunday = 7

abbrev pub date_fmt_mdy : ℕ
date_fmt_mdy = 1

abbrev pub date_fmt_dmy : ℕ
date_fmt_dmy = 2

abbrev pub date_fmt_ymd : ℕ
date_fmt_ymd = 3

abbrev pub date_fmt_ydm : ℕ
date_fmt_ydm = 4

abbrev pub date_fmt_myd : ℕ
date_fmt_myd = 5

abbrev pub date_fmt_dym : ℕ
date_fmt_dym = 6

abbrev pub isolation_read_uncommited : ℕ
isolation_read_uncommited = 0

abbrev pub isolation_read_commited : ℕ
isolation_read_commited = 1

abbrev pub isolation_repeatable_read : ℕ
isolation_repeatable_read = 2

abbrev pub isolation_serializable : ℕ
isolation_serializable = 3

abbrev pub isolation_not_implemented : ℤ
isolation_not_implemented = negsuc 0

-- The types of `optionTypes`.
pub data Kind : Type 0 where
  truth_kind int8_kind int32_kind text_kind : Kind

abbrev pub option_types : List Kind
option_types =
    truth_kind ∷ int8_kind ∷ int32_kind ∷ truth_kind ∷ truth_kind ∷ int32_kind ∷ text_kind
    ∷ int8_kind ∷ int8_kind ∷ text_kind ∷ text_kind ∷ truth_kind ∷ truth_kind ∷ truth_kind
    ∷ truth_kind ∷ truth_kind ∷ truth_kind ∷ truth_kind ∷ truth_kind ∷ truth_kind ∷ truth_kind
    ∷ truth_kind ∷ truth_kind ∷ truth_kind ∷ truth_kind ∷ truth_kind ∷ truth_kind ∷ truth_kind
    ∷ truth_kind ∷ text_kind ∷ text_kind ∷ text_kind ∷ text_kind ∷ text_kind ∷ truth_kind
    ∷ truth_kind ∷ truth_kind ∷ truth_kind ∷ truth_kind ∷ []
