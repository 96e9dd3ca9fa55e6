-- ===== src/Encoder/Ready.antt =====
-- The Encoder over a reader or writer that carries a stream of bytes: what the stream promises, and
-- the state in which the Encoder's methods neither fail nor are limited.
use tds.Base.{◌≡◌, none, Option, ◌++◌, length, Bytes}
use tds.Golang.Order.{ByteOrder}
use tds.Golang.Io.{ReadWriter, read_full}
use tds.Encoder.Ops.{Charset, Encoder}

-- A reader from which the bytes `bs` can be read in order, however it cuts them.
pub record Source (S : Type 0) ⦃w : ReadWriter S⦄ : Type 1 where
  pub Holds : S → Bytes → Type 0
  pub read_full_lem :
      (s : S) (bs rest p : Bytes)
      → length bs ≡ length p
      → Holds s (bs ++ rest)
      → (t : S) × (read_full s p ≡ record { state = t; bytes = bs; count = length bs; err = none })
        × Holds t rest

-- A writer that accepts all it is given, after the bytes `bs`.
pub record Sink (S : Type 0) ⦃w : ReadWriter S⦄ : Type 1 where
  pub Holds : S → Bytes → Type 0
  pub write_lem :
      (s : S) (bs p : Bytes)
      → Holds s bs
      → (t : S) × (w.write s p ≡ record { state = t; count = length p; err = none })
        × Holds t (bs ++ p)

-- No error is pending, no limit is set, and the stream carries `bs`.
pub record Ready {S : Type 0} (Holds : S → Bytes → Type 0) (o : ByteOrder) (cs : Option Charset)
    (bs : Bytes) (e : Encoder S) : Type 0 where
  pub holds : Holds e.rw bs
  pub no_error : e.err ≡ none
  pub unlimited : e.limit ≡ none
  pub order : e.endianness ≡ o
  pub same_charset : e.charset ≡ cs
  pub scratch : length e.sbuf ≡ 8
