-- ===== src/Encoder/Strings.antt =====
-- The methods of binary/encoder.go that read and write texts.
use tds.Base.{ℕ, ◌%◌, ◌^◌, none, some, [], length, replicate, Bytes, ltb, ◌==◌, if◌then◌else◌}
use tds.Base.Int.{ℤ, pos, negsuc}
use tds.Golang.Errors.{invalid_string_length}
use tds.Golang.Io.{ReadWriter}
use tds.Encoder.Ops.{
  M, ◌>>=◌, ◌>>◌, pure, unless_failed, write, read, write_uint8, write_uint16, write_uint32,
  write_uint64, uint8, uint16, uint32,
}

abbrev pub max_text_size : ℕ
max_text_size = 100000

module _ {S : Type 0} where
  -- `erw.charEncoder.Bytes(buf)`, where there is a charset; its error becomes the Encoder's.
  unfoldable pub to_charset : Bytes → M S Bytes
  to_charset bs e = elim e.charset [
    | none ↦ (bs, e)
    | some c ↦ let r = c.encode bs in (r.0, record e { err = r.1 })
  ]

  -- `erw.charDecoder.Bytes(buf)`.
  unfoldable pub from_charset : Bytes → M S Bytes
  from_charset bs e = elim e.charset [
    | none ↦ (bs, e)
    | some c ↦ let r = c.decode bs in (r.0, record e { err = r.1 })
  ]

module _ {S : Type 0} ⦃w : ReadWriter S⦄ where
  unfoldable pub write_string : Bytes → M S ℕ
  unfolding to_charset write
  write_string s = unless_failed 0 (do bs ← to_charset s; write bs)

  -- The switch on `lenSize`: any other size writes no length.
  unfoldable pub write_len : ℕ → ℕ → M S (Unit {0})
  write_len len_size n =
      if len_size == 8
      then write_uint8 (n % 2 ^ 8)
      else if len_size == 16
      then write_uint16 (n % 2 ^ 16)
      else if len_size == 32
      then write_uint32 (n % 2 ^ 32)
      else if len_size == 64
      then write_uint64 (n % 2 ^ 64)
      else pure tt

  unfoldable pub write_string_with_len : ℕ → Bytes → M S (Unit {0})
  unfolding to_charset write_len write
  write_string_with_len len_size s = unless_failed tt (do
    bs ← to_charset s
    unless_failed tt (do
      write_len len_size (length bs)
      unless_failed tt (if length bs == 0 then pure tt else (do n ← write bs; pure tt))))

  -- A text of the given length; `make([]byte, len)` is a slice of zeros.
  unfoldable pub read_string_with_len : ℤ → M S Bytes
  unfolding from_charset read
  read_string_with_len (negsuc n) =
      unless_failed [] (λ e. ([], record e { err = some (invalid_string_length (negsuc n)) }))
  read_string_with_len (pos n) = unless_failed [] (
      if ltb max_text_size n
      then (λ e. ([], record e { err = some (invalid_string_length (pos n)) }))
      else if n == 0
      then pure []
      else (do bs ← read (replicate n 0); unless_failed [] (from_charset bs)))

  -- The switch on `lenSize` of `ReadString`.
  unfoldable pub read_len : ℕ → M S ℕ
  read_len len_size =
      if len_size == 8
      then uint8
      else if len_size == 16
      then uint16
      else if len_size == 32
      then uint32
      else pure 0

  -- The text and its length on the wire.
  unfoldable pub read_string : ℕ → M S (Bytes × ℕ)
  unfolding read_len read_string_with_len
  read_string len_size =
      unless_failed ([], 0)
        (do
          n ← read_len len_size
          unless_failed ([], n)
              (if n == 0 then pure ([], n) else (do s ← read_string_with_len (pos n); pure (s, n))))
