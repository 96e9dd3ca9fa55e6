-- ===== src/Messages/Capabilities/Table.antt =====
-- The bits of bytes, and the bytes of a bitmap.
use tds.Base.{
  ℕ, zero, suc, ◌^◌, ◌<◌, ◌≡◌, refl, sym, Bool, true, false, ◌&&◌, ◌||◌, not, [], ◌∷◌, length,
  get_or, set, bit_and, bit_or, Bytes, IsBytes, ltb, ◌==◌, if◌then◌else◌, arith, ltb→lt,
}

-- Whether a test holds for every number below a bound, by evaluation.
unfoldable pub every : (ℕ → Bool) → ℕ → Bool
every q zero = true
every q (suc k) = q k && every q k

pub every-true : (q : ℕ → Bool) (k m : ℕ) → m < k → every q k ≡ true → q m ≡ true
unfolding every
every-true q zero m below e = absurd (omega arith)
every-true q (suc k) m below e = ground (arith, every-true q k m)

abbrev pub iff : Bool → Bool → Bool
iff true b = b
iff false b = not b

-- The bit q of a byte.
abbrev pub bit : ℕ → ℕ → Bool
bit b q = not (bit_and b (2 ^ q) == 0)

-- For every byte, setting bit p sets it and leaves the others.
abbrev sets_bit : ℕ → ℕ → ℕ → Bool
sets_bit b p q = iff (bit (bit_or b (2 ^ p)) q) (p == q || bit b q)

byte_table : every (λ b. every (λ p. every (sets_bit b p) 8) 8) 256 ≡ true
unfolding every
byte_table = refl

abbrev stays_byte : ℕ → ℕ → Bool
stays_byte b p = ltb (bit_or b (2 ^ p)) 256

byte_small : every (λ b. every (stays_byte b) 8) 256 ≡ true
unfolding every
byte_small = refl

pub iff-eq : (a b : Bool) → iff a b ≡ true → a ≡ b
iff-eq true b h = sym h
iff-eq false true h = cc
iff-eq false false h = refl

pub bit-bit_or :
    (b p q : ℕ) → b < 2 ^ 8 → p < 8 → q < 8 → bit (bit_or b (2 ^ p)) q ≡ (p == q || bit b q)
bit-bit_or b p q hb hp hq =
    let row = every-true (λ k. every (λ r. every (sets_bit k r) 8) 8) 256 b hb byte_table in
    let cell = every-true (λ r. every (sets_bit b r) 8) 8 p hp row in
    iff-eq _ _ (every-true (sets_bit b p) 8 q hq cell)

pub bit_or-lt : (b p : ℕ) → b < 2 ^ 8 → p < 8 → bit_or b (2 ^ p) < 2 ^ 8
bit_or-lt b p hb hp =
    let row = every-true (λ k. every (stays_byte k) 8) 256 b hb byte_small in
    ltb→lt _ _ (every-true (stays_byte b) 8 p hp row)

pub get_or-set :
    (xs : Bytes) (i j v : ℕ)
    → i < length xs
    → get_or (set xs i v) j 0 ≡ (if i == j then v else get_or xs j 0)
get_or-set [] i j v h = absurd (omega arith)
get_or-set (x ∷ xs) zero zero v h = refl
get_or-set (x ∷ xs) zero (suc j) v h = ground arith
get_or-set (x ∷ xs) (suc i) zero v h = ground arith
get_or-set (x ∷ xs) (suc i) (suc j) v h = ground (arith, get_or-set xs i j v (omega arith))

pub get_or-lt : (xs : Bytes) (i : ℕ) → IsBytes xs → get_or xs i 0 < 2 ^ 8
get_or-lt [] i h = omega arith
get_or-lt (x ∷ xs) zero h = h.0
get_or-lt (x ∷ xs) (suc i) h = get_or-lt xs i h.1

pub set-IsBytes : (xs : Bytes) (i v : ℕ) → IsBytes xs → v < 2 ^ 8 → IsBytes (set xs i v)
set-IsBytes [] i v h k = tt
set-IsBytes (x ∷ xs) zero v h k = (k, h.1)
set-IsBytes (x ∷ xs) (suc i) v h k = (h.0, set-IsBytes xs i v h.1 k)
