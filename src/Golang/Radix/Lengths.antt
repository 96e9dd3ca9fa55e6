-- ===== src/Golang/Radix/Lengths.antt =====
-- How many bytes a number has, by how many bits it has.
use tds.Base.{ℕ, zero, suc, ◌+◌, ◌/◌, ◌^◌, ◌≤◌, ◌<◌, ◌≡◌, refl, ap, ◌∙◌, length, arith}
use native.Mathlib.Nat.{pow-suc}
use native.Mathlib.Decide.{dec_le}
use tds.Golang.Radix.{radix, radix_loop, length-radix}

-- `BitLen`.
unfoldable pub bit_len : ℕ → ℕ
unfolding radix
bit_len n = length (radix 2 n)

bit_len_half : (n : ℕ) → 0 < n → bit_len n ≡ suc (bit_len (n / 2))
unfolding bit_len
bit_len_half n h = length-radix 2 (omega arith) n h

pub bit_len_zero : bit_len 0 ≡ 0
unfolding bit_len radix radix_loop
bit_len_zero = refl

-- A number below 2 ^ k has at most k bits.
bit_len-le : (k n : ℕ) → n < 2 ^ k → bit_len n ≤ k
bit_len-le zero n h = let e : n ≡ 0 = omega arith in rw e (omega (arith, bit_len_zero))
bit_len-le (suc k) n h = elim (dec_le 1 n) [
  | yes some_n ↦
      omega (arith, bit_len_half n some_n, bit_len-le k (n / 2) (omega (arith, pow-suc 2 k)))
  | no none ↦ let e : n ≡ 0 = omega arith in rw e (omega (arith, bit_len_zero))
]

bit_len_quarter : (n : ℕ) → 4 ≤ n → bit_len n ≡ 2 + bit_len (n / 4)
bit_len_quarter n h =
    let e : n / 2 / 2 ≡ n / 4 = omega arith in
    bit_len_half n (omega arith) ∙ omega (arith, bit_len_half (n / 2) (omega arith), ap bit_len e)

bit_len_16th : (n : ℕ) → 16 ≤ n → bit_len n ≡ 4 + bit_len (n / 16)
bit_len_16th n h =
    let e : n / 4 / 4 ≡ n / 16 = omega arith in
    bit_len_quarter n (omega arith)
    ∙ omega (arith, bit_len_quarter (n / 4) (omega arith), ap bit_len e)

bit_len_byte : (n : ℕ) → 2 ^ 8 ≤ n → bit_len n ≡ 8 + bit_len (n / 2 ^ 8)
bit_len_byte n h =
    let e : n / 16 / 16 ≡ n / 2 ^ 8 = omega arith in
    bit_len_16th n (omega arith) ∙ omega (arith, bit_len_16th (n / 16) (omega arith), ap bit_len e)

nothing : length (radix (2 ^ 8) 0) ≡ 0
unfolding radix radix_loop
nothing = refl

-- The bytes of a number below 2 ^ 8.
short_bytes : (n : ℕ) → 0 < n → n < 2 ^ 8 → length (radix (2 ^ 8) n) ≡ 1
short_bytes n h k =
    let e : n / 2 ^ 8 ≡ 0 = omega arith in
    omega
      (arith, length-radix (2 ^ 8) (omega arith) n h, ap (λ m. length (radix (2 ^ 8) m)) e, nothing)

byte_len : (fuel n : ℕ) → n ≤ fuel → length (radix (2 ^ 8) n) ≡ (bit_len n + 7) / 8
byte_len zero n h = let e : n ≡ 0 = omega arith in rw e (omega (arith, bit_len_zero, nothing))
byte_len (suc fuel) n h = elim (dec_le (2 ^ 8) n) [
  | yes k ↦ omega (
    arith,
    bit_len_byte n k,
    length-radix (2 ^ 8) (omega arith) n (omega arith),
    byte_len fuel (n / 2 ^ 8) (omega arith),
  )
  | no k ↦ elim (dec_le 1 n) [
    | yes some_n ↦ omega (
      arith,
      short_bytes n some_n (omega arith),
      bit_len_half n some_n,
      bit_len-le 8 n (omega arith),
    )
    | no none ↦ let e : n ≡ 0 = omega arith in rw e (omega (arith, bit_len_zero, nothing))
  ]
]

-- `len(Bytes())` is `BitLen` in whole bytes.
pub length-bytes : (n : ℕ) → length (radix (2 ^ 8) n) ≡ (bit_len n + 7) / 8
length-bytes n = byte_len n n (omega arith)

-- A number below 2 ^ (8 k) has at most k bytes.
pub length-bytes_le : (k n : ℕ) → n < (2 ^ 8) ^ k → length (radix (2 ^ 8) n) ≤ k
length-bytes_le zero n h = let e : n ≡ 0 = omega arith in rw e (omega (arith, nothing))
length-bytes_le (suc k) n h = elim (dec_le 1 n) [
  | yes some_n ↦ omega (
    arith,
    length-radix (2 ^ 8) (omega arith) n some_n,
    length-bytes_le k (n / 2 ^ 8) (omega (arith, pow-suc (2 ^ 8) k)),
  )
  | no none ↦ let e : n ≡ 0 = omega arith in rw e (omega (arith, nothing))
]
