-- ===== src/Golang/Order.antt =====
-- encoding/binary: the unsigned integers in either byte order.
use mathlib.Core.List.{reverse, reverse-reverse, reverse-append}
use native.Mathlib.Nat.{pow-suc}
use tds.Base.{
  ℕ, zero, suc, ◌+◌, ◌*◌, ◌/◌, ◌%◌, ◌^◌, ◌<◌, ◌≡◌, refl, ap, ◌∙◌, [], ◌∷◌, length, length-append,
  arith, Bytes, IsBytes,
}

pub data ByteOrder : Type 0 where
  little_endian big_endian : ByteOrder

-- The digits in base 256, the lowest first.
unfoldable pub digits : ℕ → ℕ → Bytes
digits zero n = []
digits (suc k) n = (n % 2 ^ 8) ∷ digits k (n / 2 ^ 8)

unfoldable pub value : Bytes → ℕ
value [] = 0
value (b ∷ bs) = b + 2 ^ 8 * value bs

-- `PutUint16`, `PutUint32` and `PutUint64`, for k of 2, 4 and 8 bytes.
unfoldable pub put : ByteOrder → ℕ → ℕ → Bytes
unfolding digits
put little_endian k n = digits k n
put big_endian k n = reverse (digits k n)

-- `Uint16`, `Uint32` and `Uint64`, of a slice that long.
unfoldable pub get : ByteOrder → Bytes → ℕ
unfolding value
get little_endian bs = value bs
get big_endian bs = value (reverse bs)

value-digits : (k n : ℕ) → n < (2 ^ 8) ^ k → value (digits k n) ≡ n
unfolding value digits
value-digits zero n h = omega arith
value-digits (suc k) n h =
    omega (arith, pow-suc (2 ^ 8) k, value-digits k (n / 2 ^ 8) (omega (arith, pow-suc (2 ^ 8) k)))

length-digits : (k n : ℕ) → length (digits k n) ≡ k
unfolding digits
length-digits zero n = refl
length-digits (suc k) n = ap suc (length-digits k (n / 2 ^ 8))

digits-IsBytes : (k n : ℕ) → IsBytes (digits k n)
unfolding digits
digits-IsBytes zero n = tt
digits-IsBytes (suc k) n = (omega arith, digits-IsBytes k (n / 2 ^ 8))

length-reverse : (bs : Bytes) → length (reverse bs) ≡ length bs
length-reverse [] = refl
length-reverse (b ∷ bs) =
    ap length (reverse-append (b ∷ []) bs)
    ∙ length-append (reverse bs) (b ∷ [])
    ∙ omega (arith, length-reverse bs)

pub length-put : (o : ByteOrder) (k n : ℕ) → length (put o k n) ≡ k
unfolding put
length-put little_endian k n = length-digits k n
length-put big_endian k n = length-reverse (digits k n) ∙ length-digits k n

-- What was put is what is got, in either order.
pub get-put : (o : ByteOrder) (k n : ℕ) → n < (2 ^ 8) ^ k → get o (put o k n) ≡ n
unfolding put get
get-put little_endian k n h = value-digits k n h
get-put big_endian k n h = ap value (reverse-reverse (digits k n)) ∙ value-digits k n h
