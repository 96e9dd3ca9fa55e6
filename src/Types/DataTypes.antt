-- ===== src/Types/DataTypes.antt =====
-- The data types of types.go, and the type that a user type stands for.
use tds.Base.{ℕ, List, [], ◌∷◌}

abbrev pub uint4_type : ℕ
uint4_type = 0x1d

abbrev pub image_type : ℕ
image_type = 0x22

abbrev pub text_type : ℕ
text_type = 0x23

abbrev pub extended_type : ℕ
extended_type = 0x24

abbrev pub varbinary_type : ℕ
varbinary_type = 0x25

abbrev pub int_n_type : ℕ
int_n_type = 0x26

abbrev pub varchar_type : ℕ
varchar_type = 0x27

abbrev pub binary_type : ℕ
binary_type = 0x2d

abbrev pub char_type : ℕ
char_type = 0x2f

abbrev pub tinyint_type : ℕ
tinyint_type = 0x30

abbrev pub date_type : ℕ
date_type = 0x31

abbrev pub bit_type : ℕ
bit_type = 0x32

abbrev pub time_type : ℕ
time_type = 0x33

abbrev pub smallint_type : ℕ
smallint_type = 0x34

abbrev pub decimal_type : ℕ
decimal_type = 0x37

abbrev pub int_type : ℕ
int_type = 0x38

abbrev pub smalldatetime_type : ℕ
smalldatetime_type = 0x3a

abbrev pub real_type : ℕ
real_type = 0x3b

abbrev pub money_type : ℕ
money_type = 0x3c

abbrev pub datetime_type : ℕ
datetime_type = 0x3d

abbrev pub float_type : ℕ
float_type = 0x3e

abbrev pub numeric_type : ℕ
numeric_type = 0x3f

abbrev pub utinyint_type : ℕ
utinyint_type = 0x40

abbrev pub usmallint_type : ℕ
usmallint_type = 0x41

abbrev pub uint_type : ℕ
uint_type = 0x42

abbrev pub ubigint_type : ℕ
ubigint_type = 0x43

abbrev pub uint_n_type : ℕ
uint_n_type = 0x44

abbrev pub big_date_time_n_type : ℕ
big_date_time_n_type = 0x50

abbrev pub decimal_n_type : ℕ
decimal_n_type = 0x6a

abbrev pub numeric_n_type : ℕ
numeric_n_type = 0x6c

abbrev pub float_n_type : ℕ
float_n_type = 0x6d

abbrev pub money_n_type : ℕ
money_n_type = 0x6e

abbrev pub datetime_n_type : ℕ
datetime_n_type = 0x6f

abbrev pub smallmoney_type : ℕ
smallmoney_type = 0x7a

abbrev pub date_n_type : ℕ
date_n_type = 0x7b

abbrev pub unichar_type : ℕ
unichar_type = 0x87

abbrev pub time_n_type : ℕ
time_n_type = 0x93

abbrev pub univarchar_type : ℕ
univarchar_type = 0x9b

abbrev pub text_locator_type : ℕ
text_locator_type = 0xa9

abbrev pub image_locator_type : ℕ
image_locator_type = 0xaa

abbrev pub unitext_locator_type : ℕ
unitext_locator_type = 0xab

abbrev pub unitext_type : ℕ
unitext_type = 0xae

abbrev pub long_char_type : ℕ
long_char_type = 0xaf

abbrev pub bigdatetime_n_type : ℕ
bigdatetime_n_type = 0xbb

abbrev pub bigtime_n_type : ℕ
bigtime_n_type = 0xbc

abbrev pub bigdatetime_type : ℕ
bigdatetime_type = 0xbd

abbrev pub bigtime_type : ℕ
bigtime_type = 0xbe

abbrev pub bigint_type : ℕ
bigint_type = 0xbf

abbrev pub long_binary_type : ℕ
long_binary_type = 0xe1

-- `concreteTypes`, an array with zeros where no type is given.
abbrev pub concrete_types : List ℕ
concrete_types =
    0 ∷ char_type ∷ varchar_type ∷ binary_type ∷ varbinary_type ∷ tinyint_type ∷ smallint_type
    ∷ int_type ∷ float_type ∷ 0 ∷ numeric_type ∷ money_type ∷ datetime_type ∷ int_n_type
    ∷ float_n_type ∷ datetime_n_type ∷ bit_type ∷ money_n_type ∷ varchar_type ∷ text_type
    ∷ image_type ∷ smallmoney_type ∷ smalldatetime_type ∷ real_type ∷ char_type ∷ varchar_type
    ∷ decimal_type ∷ decimal_n_type ∷ numeric_n_type ∷ uint_type ∷ 0 ∷ 0 ∷ 0 ∷ bigint_type
    ∷ unichar_type ∷ univarchar_type ∷ unitext_type ∷ date_type ∷ time_type ∷ date_n_type
    ∷ time_n_type ∷ 0 ∷ int_n_type ∷ bigint_type ∷ uint_n_type ∷ uint_n_type ∷ ubigint_type
    ∷ uint_n_type ∷ bigdatetime_type ∷ bigtime_type ∷ bigdatetime_n_type ∷ bigtime_n_type ∷ 0
    ∷ decimal_type ∷ decimal_type ∷ decimal_type ∷ 0 ∷ 0 ∷ 0 ∷ 0 ∷ 0 ∷ 0 ∷ 0 ∷ 0 ∷ 0 ∷ 0 ∷ 0 ∷ 0 ∷ 0
    ∷ 0 ∷ 0 ∷ 0 ∷ 0 ∷ 0 ∷ 0 ∷ 0 ∷ 0 ∷ 0 ∷ 0 ∷ 0 ∷ varbinary_type ∷ 0 ∷ 0 ∷ 0 ∷ bigint_type ∷ []
