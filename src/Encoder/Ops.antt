-- ===== src/Encoder/Ops.antt =====
-- The Encoder's state, and the methods of binary/encoder.go that read and write fixed widths.
use tds.Base.{ℕ, zero, suc, ◌++◌, Option, none, some, [], ◌∷◌, take, drop, get_or, Bytes}
use tds.Base.Int.{ℤ, u8, u16, u32, u64, i8, i16, i32, i64}
use tds.Golang.Errors.{Error}
use tds.Golang.Order.{ByteOrder, put, get}
use tds.Golang.Io.{ReadWriter, Limited, limited, read_full, copy_n}

-- `encoding.Encoding`: its encoder's and its decoder's `Bytes`.
pub record Charset : Type 0 where
  pub encode : Bytes → Bytes × Option Error
  pub decode : Bytes → Bytes × Option Error

pub record Encoder (S : Type 0) : Type 0 where
  pub rw : S
  pub limit : Option ℕ
  pub sbuf : Bytes
  pub endianness : ByteOrder
  pub charset : Option Charset
  pub err : Option Error

-- What a method does.
abbrev pub M : Type 0 → Type 0 → Type 0
M S A = Encoder S → A × Encoder S

infixl 5 ◌>>=◌ ◌>>◌
unfoldable pub ◌>>=◌ : {S A B : Type 0} → M S A → (A → M S B) → M S B
◌>>=◌ m f e = let r = m e in f r.0 r.1

abbrev pub ◌>>◌ : {S B : Type 0} → M S (Unit {0}) → M S B → M S B
m >> k = m >>= λ _. k

unfoldable pub pure : {S A : Type 0} → A → M S A
pure a e = (a, e)

-- `if erw.err != nil { return }`: the zero value is returned and nothing changes.
unfoldable pub unless_failed : {S A : Type 0} → A → M S A → M S A
unless_failed a m e = elim e.err [ none ↦ m e | some _ ↦ (a, e) ]

unfoldable pub new_encoder : {S : Type 0} → S → ByteOrder → Encoder S
new_encoder rw o = record {
  rw = rw;
  limit = none;
  sbuf = 0 ∷ 0 ∷ 0 ∷ 0 ∷ 0 ∷ 0 ∷ 0 ∷ 0 ∷ [];
  endianness = o;
  charset = none;
  err = none;
}

unfoldable pub set_endianness : {S : Type 0} → ByteOrder → M S (Unit {0})
set_endianness o e = (tt, record e { endianness = o })

-- Returns the pending error and leaves it.
unfoldable pub set_charset : {S : Type 0} → Charset → M S (Option Error)
set_charset c e = (e.err, record e { charset = some c })

unfoldable pub limit_read : {S : Type 0} → ℕ → M S (Unit {0})
limit_read n e = (tt, record e { limit = some n })

unfoldable pub unlimit_read : {S : Type 0} → M S (Unit {0})
unlimit_read e = (tt, record e { limit = none })

-- `Err`: the pending error, which is reset.
unfoldable pub take_err : {S : Type 0} → M S (Option Error)
take_err e = (e.err, record e { err = none })

module _ {S : Type 0} ⦃w : ReadWriter S⦄ where
  -- `Write`: the count that it returns.
  unfoldable pub write : Bytes → M S ℕ
  write bs =
      unless_failed 0
        (λ e. let r = w.write e.rw bs in (r.count, record e { rw = r.state; err = r.err }))

  -- `Read` into the slice `p`: the slice after the call.
  unfoldable pub read : Bytes → M S Bytes
  read p = unless_failed p (λ e. elim e.limit [
    | none ↦ let r = read_full e.rw p in (r.bytes, record e { rw = r.state; err = r.err })
    | some n ↦
        let s : Limited S = record { inner = e.rw; left = n } in
        let r = read_full s p in
        (r.bytes, record e { rw = r.state.inner; limit = some r.state.left; err = r.err })
  ])

  -- `Skip`: it reads `rw` itself, whatever the limit.
  unfoldable pub skip : ℕ → M S (Unit {0})
  skip n =
      unless_failed tt
        (λ e. let r = copy_n 8192 e.rw n in (tt, record e { rw = r.state; err = r.err }))

  -- `erw.Write(erw.sbuf[:k])` after the k bytes were put there.
  unfoldable pub write_scratch : Bytes → ℕ → M S (Unit {0})
  unfolding write
  write_scratch bs k =
      unless_failed tt
        (λ e. let r = write bs (record e { sbuf = bs ++ drop k e.sbuf }) in (tt, r.1))

  -- `erw.Read(erw.sbuf[:k])`.
  unfoldable pub fill_scratch : ℕ → M S Bytes
  unfolding read
  fill_scratch k e =
      let r = read (take k e.sbuf) e in (r.0, record (r.1) { sbuf = r.0 ++ drop k e.sbuf })

  unfoldable pub write_byte : ℕ → M S (Unit {0})
  unfolding write_scratch
  write_byte b = write_scratch (b ∷ []) 1

  unfoldable pub write_uint8 : ℕ → M S (Unit {0})
  unfolding write_scratch
  write_uint8 n = write_scratch (n ∷ []) 1

  unfoldable pub write_int8 : ℤ → M S (Unit {0})
  unfolding write_scratch
  write_int8 i = write_scratch (u8 i ∷ []) 1

  -- `erw.endianness.PutUint…(erw.sbuf[:k], n)`, then the k bytes are written.
  unfoldable pub write_order : ℕ → ℕ → M S (Unit {0})
  unfolding write_scratch
  write_order k n e = write_scratch (put e.endianness k n) k e

  unfoldable pub write_uint16 : ℕ → M S (Unit {0})
  unfolding write_order
  write_uint16 n = write_order 2 n

  unfoldable pub write_int16 : ℤ → M S (Unit {0})
  unfolding write_order
  write_int16 i = write_order 2 (u16 i)

  unfoldable pub write_uint32 : ℕ → M S (Unit {0})
  unfolding write_order
  write_uint32 n = write_order 4 n

  unfoldable pub write_int32 : ℤ → M S (Unit {0})
  unfolding write_order
  write_int32 i = write_order 4 (u32 i)

  unfoldable pub write_uint64 : ℕ → M S (Unit {0})
  unfolding write_order
  write_uint64 n = write_order 8 n

  unfoldable pub write_int64 : ℤ → M S (Unit {0})
  unfolding write_order
  write_int64 i = write_order 8 (u64 i)

  -- `Pad`: the loop goes on after an error, when each `WriteByte` does nothing.
  unfoldable pub pad : ℕ → ℕ → M S (Unit {0})
  unfolding write_byte
  pad b zero e = (tt, e)
  pad b (suc n) e = pad b n (write_byte b e).1

  unfoldable pub read_byte : M S ℕ
  unfolding fill_scratch
  read_byte = unless_failed 0 (do bs ← fill_scratch 1; pure (get_or bs 0 0))

  unfoldable pub uint8 : M S ℕ
  unfolding fill_scratch
  uint8 = unless_failed 0 (do bs ← fill_scratch 1; pure (get_or bs 0 0))

  unfoldable pub int8 : M S ℤ
  unfolding uint8
  int8 e = let r = uint8 e in (i8 r.0, r.1)

  -- `erw.endianness.Uint…(erw.sbuf[:k])` after the k bytes were read there.
  unfoldable pub read_order : ℕ → M S ℕ
  unfolding fill_scratch
  read_order k = unless_failed 0 (λ e. let r = fill_scratch k e in (get e.endianness r.0, r.1))

  unfoldable pub uint16 : M S ℕ
  unfolding read_order
  uint16 = read_order 2

  unfoldable pub int16 : M S ℤ
  unfolding uint16
  int16 e = let r = uint16 e in (i16 r.0, r.1)

  unfoldable pub uint32 : M S ℕ
  unfolding read_order
  uint32 = read_order 4

  unfoldable pub int32 : M S ℤ
  unfolding uint32
  int32 e = let r = uint32 e in (i32 r.0, r.1)

  unfoldable pub uint64 : M S ℕ
  unfolding read_order
  uint64 = read_order 8

  unfoldable pub int64 : M S ℤ
  unfolding uint64
  int64 e = let r = uint64 e in (i64 r.0, r.1)
