-- ===== src/Columns/Formats.antt =====
-- tabular_messages.go: the type and the format of a column on the wire.
pub mod Types
pub mod Trips
use tds.Base.{
  ℕ, suc, ◌%◌, ◌^◌, Bool, true, false, ◌&&◌, ◌||◌, not, Option, none, some, List, [], ◌∷◌, length,
  Bytes, bit_and, ◌==◌, if◌then◌else◌,
}
use tds.Base.Int.{ℤ, pos, negsuc, i8, u8}
use tds.Golang.Errors.{Error, panic, missing_type_properties, type_info_failed}
use tds.Golang.Io.{ReadWriter}
use tds.Encoder.Ops.{
  M, ◌>>=◌, ◌>>◌, pure, take_err, write_byte, write_int8, write_int32, write_uint8, write_uint16,
  write_uint32, read_byte, uint8, uint16, uint32, int8, int16, int32,
}
use tds.Encoder.Strings.{write_string_with_len, read_string}
use tds.Types.DataTypes.{extended_type}
use tds.Types.Table.{TypeAttribute, has_length, has_prec, has_scale, is_nullable, is_long, is_lob}
use tds.Columns.{ColType, zero_type, get_type_properties, has}

-- The flags of a list of columns.
abbrev pub wide : ℕ
wide = 0x01

abbrev pub param : ℕ
param = 0x02

-- `flags&wide != 0 && flags&param == 0`.
abbrev pub names_all : ℕ → Bool
names_all flags = has flags wide && not (has flags param)

-- `colFmt`; the operator and the operand of a computed column are not in it.
pub record ColFmt : Type 0 where
  pub name : Bytes
  pub flags : ℕ
  pub col_type : ColType
  pub real_name : Bytes
  pub db : Bytes
  pub owner : Bytes
  pub class_id : Bytes

abbrev pub zero_fmt : ColFmt
zero_fmt = record {
  name = [];
  flags = 0;
  col_type = zero_type;
  real_name = [];
  db = [];
  owner = [];
  class_id = [];
}

-- The size that is written: the type's own where the column gives none.
abbrev pub size_or : ColType → TypeAttribute → ℕ
size_or t props = if t.size == 0 then props.num_bytes else t.size

module _ {S : Type 0} ⦃w : ReadWriter S⦄ where
  -- `if` without an else.
  abbrev pub when : Bool → M S (Unit {0}) → M S (Unit {0})
  when b m = if b then m else pure tt

  unfoldable pub write_type_size : ColType → TypeAttribute → M S (Unit {0})
  write_type_size t props =
      if has t.options is_long
      then write_uint32 (size_or t props % 2 ^ 32)
      else if t.size == 0
      then write_int8 (i8 props.num_bytes)
      else write_uint8 (t.size % 2 ^ 8)

  -- `colType.write`.
  unfoldable pub write_type : ColType → M S (Option Error)
  unfolding write_type_size
  write_type t =
      if not t.valid then pure (some missing_type_properties) else elim t.encoding_props [
        | none ↦ pure (some panic)
        | some props ↦ do
          write_int32 t.user_type
          write_byte props.encoding_type
          write_type_size t props
          when (has t.options is_lob) (write_string_with_len 16 t.table)
          when (has t.options has_prec) (write_int8 t.precision)
          when (has t.options has_scale) (write_int8 t.scale)
          write_int8 (pos 0)
          pure none
      ]

  -- A part that is read if the options say so, and the old value if not.
  unfoldable pub read_if : {A : Type 0} → Bool → A → M S A → M S A
  read_if true old m = m
  read_if false old m = pure old

  abbrev pub text_of : ℕ → M S Bytes
  text_of len_size = read_string len_size >>= λ r. pure r.0

  unfoldable pub read_type_size : ℕ → ℕ → M S ℕ
  unfolding read_if
  read_type_size options old =
      read_if (has options has_length || has options is_nullable) old
        (if has options is_long then uint32 else uint8)

  -- The rest of `colType.read`, once the properties are known.
  unfoldable pub read_details : ColType → M S (ColType × Option Error)
  unfolding read_type_size read_if
  read_details t = do
    size ← read_type_size t.options t.size
    table ← read_if (has t.options is_lob) t.table (text_of 16)
    precision ← read_if (has t.options has_prec) t.precision int8
    scale ← read_if (has t.options has_scale) t.scale int8
    locale ← text_of 8
    pure (
      record t {
        size = size;
        table = table;
        precision = precision;
        scale = scale;
        locale = locale;
      },
      none,
    )

  unfoldable pub with_properties : ColType × Option Error → M S (ColType × Option Error)
  unfolding read_details
  with_properties r = elim r.1 [
    | some e ↦ pure (r.0, some (type_info_failed e))
    | none ↦ read_details r.0
  ]

  -- `colType.read`.
  unfoldable pub read_type : ColType → M S (ColType × Option Error)
  unfolding get_type_properties with_properties
  read_type t = do
    user_type ← int32
    data_type ← read_byte
    with_properties
        (get_type_properties (record t { user_type = user_type; data_type = data_type }))

  -- The end of `colFmt.Write`.
  unfoldable pub write_class : ColFmt → Option Error → M S (Option Error)
  write_class f (some e) = pure (some e)
  write_class f none = do
    when (f.col_type.data_type == extended_type) (write_string_with_len 16 f.class_id)
    take_err

  -- `colFmt.Write`.
  unfoldable pub write_fmt : ℕ → ColFmt → M S (Option Error)
  unfolding write_type write_class
  write_fmt flags f = do
    write_string_with_len 8 f.name
    when (names_all flags) (write_string_with_len 8 f.db)
    when (names_all flags) (write_string_with_len 8 f.owner)
    when (names_all flags) (write_string_with_len 8 f.col_type.table)
    (if has flags wide then write_uint32 (f.flags % 2 ^ 32) else write_uint8 (f.flags % 2 ^ 8))
    err ← write_type f.col_type
    write_class f err

  -- The end of `colFmt.Read`.
  unfoldable pub read_class : ColFmt → ColType × Option Error → M S (ColFmt × Option Error)
  unfolding read_if
  read_class f (t, some e) = pure (record f { col_type = t }, some e)
  read_class f (t, none) = do
    class_id ← read_if (t.data_type == extended_type) f.class_id (text_of 16)
    err ← take_err
    pure (record f { col_type = t; class_id = class_id }, err)

  -- `colFmt.Read`.
  unfoldable pub read_fmt : ℕ → ColFmt → M S (ColFmt × Option Error)
  unfolding read_if read_type read_class
  read_fmt flags f = do
    name ← text_of 8
    db ← read_if (names_all flags) f.db (text_of 8)
    owner ← read_if (names_all flags) f.owner (text_of 8)
    table ← read_if (names_all flags) f.col_type.table (text_of 8)
    real_name ← read_if (names_all flags) f.real_name (text_of 8)
    column_flags ← (if has flags wide then uint32 else uint8)
    r ← read_type (record (f.col_type) { table = table })
    read_class
        (record f {
          name = name;
          db = db;
          owner = owner;
          real_name = real_name;
          flags = column_flags;
        })
        r
