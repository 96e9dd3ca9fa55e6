-- ===== src/Encoder/Texts.antt =====
-- Texts on the wire: their bytes in the connection's charset, behind a length.
use tds.Base.{
  ℕ, ◌≤◌, ◌<◌, ◌≡◌, refl, Option, none, some, [], ◌∷◌, ◌++◌, length, arith, Bytes, eq-nil_of_length,
}
use tds.Golang.Order.{ByteOrder, put}
use tds.Encoder.Ops.{Charset}
use tds.Encoder.Strings.{max_text_size}

-- The bytes of a text in the charset.
abbrev pub encoded : Option Charset → Bytes → Bytes
encoded none s = s
encoded (some c) s = (c.encode s).0

-- A text behind a length of 1, 2 or 4 bytes.
abbrev pub text8 : Option Charset → Bytes → Bytes
text8 cs s = length (encoded cs s) ∷ encoded cs s

abbrev pub text16 : ByteOrder → Option Charset → Bytes → Bytes
text16 o cs s = put o 2 (length (encoded cs s)) ++ encoded cs s

abbrev pub text32 : ByteOrder → Option Charset → Bytes → Bytes
text32 o cs s = put o 4 (length (encoded cs s)) ++ encoded cs s

-- The charset can encode the text and decodes it to the same text, and a text that is not empty
-- has bytes.
abbrev pub IsLossless : Option Charset → Bytes → Type 0
IsLossless none s = Unit
IsLossless (some c) s =
    ((c.encode s).1 ≡ none) × (c.decode (c.encode s).0 ≡ (s, none)) × ((c.encode s).0 ≡ [] → s ≡ [])

-- A text that fits a length field whose values are below `limit`.
pub record IsText (cs : Option Charset) (limit : ℕ) (s : Bytes) : Type 0 where
  pub lossless : IsLossless cs s
  pub short : length (encoded cs s) < limit
  pub readable : length (encoded cs s) ≤ max_text_size

pub encoded-nil :
    (cs : Option Charset) (s : Bytes) → IsLossless cs s → length (encoded cs s) ≡ 0 → s ≡ []
encoded-nil none [] h e = refl
encoded-nil none (x ∷ s) h e = absurd (omega arith)
encoded-nil (some c) s h e = h.2 (eq-nil_of_length (c.encode s).0 e)
