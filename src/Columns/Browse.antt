-- ===== src/Columns/Browse.antt =====
-- tabular_messages.go: what a server says about the tables of a result "for browse". The reader is limited to the
-- message, so its end is io.EOF; `fuel` bounds the loops, which take at least a byte of the message in each round.
use tds.Base.{
  ℕ, zero, suc, ◌+◌, ◌%◌, ◌^◌, ◌≤◌, ◌<◌, ◌≡◌, refl, ap, ◌∙◌, Bool, true, false, ◌||◌, Option, none,
  some, List, [], ◌∷◌, ◌++◌, length, get_or, Bytes, bit_or, arith, leb, if◌then◌else◌,
}
use tds.Golang.Errors.{Error, eof, diverges}
use tds.Golang.Io.{ReadWriter}
use tds.Encoder.Ops.{Encoder, M, ◌>>=◌, pure, take_err, uint8}
use tds.Encoder.Strings.{read_string}
use tds.Columns.{has}
use tds.Columns.Formats.{ColFmt}

abbrev pub hidden_column_info : ℕ
hidden_column_info = 0x10

abbrev pub key_column_info : ℕ
key_column_info = 0x8

abbrev pub writable_column_info : ℕ
writable_column_info = 0x4

-- `if status&info != 0 { flags |= flag }`.
unfoldable pub add_flag : ℕ → ℕ → ℕ → ℕ → ℕ
add_flag status info flag flags = if has status info then bit_or flags flag else flags

-- What a round of the loop says of a column.
unfoldable pub inform : ℕ → Bytes → Bytes → ColFmt → ColFmt
unfolding add_flag
inform status table name c = record c {
  real_name = name;
  col_type = record (c.col_type) { table = table };
  flags =
      add_flag status writable_column_info 0x10
        (add_flag status key_column_info 0x02 (add_flag status hidden_column_info 0x01 c.flags));
}

unfoldable pub inform_at : ℕ → (ColFmt → ColFmt) → List ColFmt → List ColFmt
inform_at i f [] = []
inform_at zero f (c ∷ cs) = f c ∷ cs
inform_at (suc i) f (c ∷ cs) = c ∷ inform_at i f cs

-- `e.Uint8() - 1`, a uint8.
abbrev pub before : ℕ → ℕ
before n = (n + 255) % 2 ^ 8

-- A round of the loop of colInfo.Read with the bytes of the column, of the table and of the status.
unfoldable pub set_info : List Bytes → ℕ → ℕ → ℕ → Bytes → List ColFmt → List ColFmt
unfolding inform inform_at
set_info tables column table status name columns =
    if leb (length columns) (before column + 1) || leb (length tables) (before table + 1)
    then columns
    else inform_at (before column) (inform status (get_or tables (before table) []) name) columns

module _ {S : Type 0} ⦃w : ReadWriter S⦄ where
  unfoldable pub names_after :
      (List Bytes → M S (List Bytes × Option Error))
      → List Bytes
      → Bytes
      → Option Error
      → M S (List Bytes × Option Error)
  names_after more names name none = more (names ++ name ∷ [])
  names_after more names name (some eof) = pure (names, none)
  names_after more names name (some e) = pure (names, some e)

  -- `tableName.Read`, behind the names that are there.
  unfoldable pub read_table_names : ℕ → List Bytes → M S (List Bytes × Option Error)
  unfolding names_after
  read_table_names zero names = pure (names, some diverges)
  read_table_names (suc fuel) names = do
    (name, _) ← read_string 8
    err ← take_err
    names_after (read_table_names fuel) names name err

  -- The name is read where the status says so; else that of an earlier column is kept.
  unfoldable pub read_name : ℕ → Bytes → M S Bytes
  read_name status old =
      if has status 0x20 then (do (name, _) ← read_string 8; pure name) else pure old

  unfoldable pub info_after :
      (List ColFmt → M S (List ColFmt × Option Error))
      → List ColFmt
      → List ColFmt
      → Option Error
      → M S (List ColFmt × Option Error)
  info_after more columns informed none = more informed
  info_after more columns informed (some eof) = pure (columns, none)
  info_after more columns informed (some e) = pure (columns, some e)

  -- `colInfo.Read`.
  unfoldable pub read_info : List Bytes → ℕ → Bytes → List ColFmt → M S (List ColFmt × Option Error)
  unfolding read_name set_info info_after
  read_info tables zero old columns = pure (columns, some diverges)
  read_info tables (suc fuel) old columns = do
    column ← uint8
    table ← uint8
    status ← uint8
    name ← read_name status old
    err ← take_err
    info_after (read_info tables fuel name) columns
        (set_info tables column table status name columns) err

strict-skips :
    {A : Type 0} {a : A} (b : A) (x : Bool) {y : Bool} → y ≡ true → (if x || y then a else b) ≡ a
strict-skips b true h = refl
strict-skips b false h = rw h refl

-- With no more than one table nothing is said of any column.
pub set_info-one_table :
    (tables : List Bytes) (column table status : ℕ) (name : Bytes) (columns : List ColFmt)
    → length tables ≤ 1
    → set_info tables column table status name columns ≡ columns
unfolding set_info
set_info-one_table tables column table status name columns h =
    let strict : leb (length tables) (before table + 1) ≡ true = ground (arith, h) in
    strict-skips _ (leb (length columns) (before column + 1)) strict

-- Nothing is said of the last column, which the wire counts from 1.
pub set_info-last_column :
    (tables : List Bytes) (table status : ℕ) (name : Bytes) (columns : List ColFmt)
    → 0 < length columns
    → length columns < 2 ^ 8
    → set_info tables (length columns) table status name columns ≡ columns
unfolding set_info
set_info-last_column tables table status name columns h k =
    let same : before (length columns) + 1 ≡ length columns = omega (arith, h, k) in
    let strict : leb (length columns) (before (length columns) + 1) ≡ true = ground (arith, same) in
    rw strict refl

module _ {S : Type 0} ⦃w : ReadWriter S⦄ where
  info_after-same :
      (more : List ColFmt → M S (List ColFmt × Option Error)) (columns informed : List ColFmt)
      (err : Option Error) (e : Encoder S)
      → informed ≡ columns
      → ((t : Encoder S) → (more columns t).0.0 ≡ columns)
      → (info_after more columns informed err e).0.0 ≡ columns
  unfolding info_after pure
  info_after-same more columns informed none e h k = ap (λ c. (more c e).0.0) h ∙ k e
  info_after-same more columns informed (some eof) e h k = refl
  info_after-same more columns informed (some x) e h k = refl

  -- A message of column information changes no column, whatever it holds, where the server has named at most one table: its
  -- tests are one too strict.
  pub read_info-one_table :
      (tables : List Bytes) (fuel : ℕ) (old : Bytes) (columns : List ColFmt) (e : Encoder S)
      → length tables ≤ 1
      → (read_info tables fuel old columns e).0.0 ≡ columns
  unfolding read_info ◌>>=◌ pure
  read_info-one_table tables zero old columns e h = refl
  read_info-one_table tables (suc fuel) old columns e h =
      let c = uint8 e in
      let t = uint8 c.1 in
      let s = uint8 t.1 in
      let n = read_name s.0 old s.1 in
      let err = take_err n.1 in
      info_after-same (read_info tables fuel n.0) columns (set_info tables c.0 t.0 s.0 n.0 columns)
        err.0 err.1 (set_info-one_table tables c.0 t.0 s.0 n.0 columns h)
        (λ x. read_info-one_table tables fuel n.0 columns x h)
