-- ===== src/Decimals/Table.antt =====
-- num.go: `numericBytes`, how many bytes a decimal number of a given precision takes with its sign.
use tds.Base.{
  ℕ, zero, suc, ◌+◌, ◌-◌, ◌^◌, ◌≤◌, ◌<◌, ◌≡◌, refl, subst, Bool, true, false, ◌&&◌, Option, none,
  some, List, [], ◌∷◌, get_elem?, arith, ltb, leb, leb→le, ltb→lt, if◌then◌else◌,
}
use tds.Base.Int.{ℤ, pos, negsuc}

unfoldable pub numeric_bytes : List ℕ
numeric_bytes =
    1 ∷ 2 ∷ 2 ∷ 3 ∷ 3 ∷ 4 ∷ 4 ∷ 4 ∷ 5 ∷ 5 ∷ 6 ∷ 6 ∷ 6 ∷ 7 ∷ 7 ∷ 8 ∷ 8 ∷ 9 ∷ 9 ∷ 9 ∷ 10 ∷ 10 ∷ 11
    ∷ 11 ∷ 11 ∷ 12 ∷ 12 ∷ 13 ∷ 13 ∷ 14 ∷ 14 ∷ 14 ∷ 15 ∷ 15 ∷ 16 ∷ 16 ∷ 16 ∷ 17 ∷ 17 ∷ 18 ∷ 18 ∷ 19
    ∷ 19 ∷ 19 ∷ 20 ∷ 20 ∷ 21 ∷ 21 ∷ 21 ∷ 22 ∷ 22 ∷ 23 ∷ 23 ∷ 24 ∷ 24 ∷ 24 ∷ 25 ∷ 25 ∷ 26 ∷ 26 ∷ 26
    ∷ 27 ∷ 27 ∷ 28 ∷ 28 ∷ 28 ∷ 29 ∷ 29 ∷ 30 ∷ 30 ∷ 31 ∷ 31 ∷ 31 ∷ 32 ∷ 32 ∷ 33 ∷ 33 ∷ 33 ∷ []

-- `numericBytes[int(i.precision)]`; none is a panic.
unfoldable pub numeric_size : ℤ → Option ℕ
unfolding numeric_bytes
numeric_size (pos p) = get_elem? numeric_bytes p
numeric_size (negsuc p) = none

-- How many numbers the bytes before the last one hold.
abbrev pub one_less : ℕ → ℕ
one_less k = if ltb k 2 then 0 else (2 ^ 8) ^ (k - 2)

-- k is the least size such that the numbers of precision p, below 10 ^ p, fit the k - 1 bytes behind the sign, and
-- is an int8.
pub record Fits (p k : ℕ) : Type 0 where
  pub room : 10 ^ p ≤ (2 ^ 8) ^ (k - 1)
  pub least : one_less k < 10 ^ p
  pub small : k < 34
  pub signed : 0 < k

abbrev fits : ℕ → ℕ → Bool
fits p k = leb (10 ^ p) ((2 ^ 8) ^ (k - 1)) && (ltb (one_less k) (10 ^ p) && (ltb k 34 && ltb 0 k))

and_left : (a b : Bool) → (a && b) ≡ true → a ≡ true
and_left true b h = refl
and_left false b h = h

and_right : (a b : Bool) → (a && b) ≡ true → b ≡ true
and_right true b h = h
and_right false b h = absurd (cc)

fits-Fits : (p k : ℕ) → fits p k ≡ true → Fits p k
fits-Fits p k h =
    let a = leb (10 ^ p) ((2 ^ 8) ^ (k - 1)) in
    let b = ltb (one_less k) (10 ^ p) in
    let c = ltb k 34 in
    let d = ltb 0 k in
    let more = and_right a (b && (c && d)) h in
    let last = and_right b (c && d) more in
    record {
      room = leb→le (10 ^ p) ((2 ^ 8) ^ (k - 1)) (and_left a (b && (c && d)) h);
      least = ltb→lt (one_less k) (10 ^ p) (and_left b (c && d) more);
      small = ltb→lt k 34 (and_left c d last);
      signed = ltb→lt 0 k (and_right c d last);
    }

unfoldable all_fit : ℕ → List ℕ → Bool
all_fit p [] = true
all_fit p (k ∷ ks) = fits p k && all_fit (suc p) ks

table_fits : all_fit 0 numeric_bytes ≡ true
unfolding numeric_bytes all_fit
table_fits = refl

all_fit-Fits :
    (ks : List ℕ) (q p k : ℕ) → all_fit q ks ≡ true → get_elem? ks p ≡ some k → Fits (q + p) k
unfolding all_fit
all_fit-Fits [] q p k h e = absurd (cc)
all_fit-Fits (m ∷ ms) q zero k h e =
    let same : m ≡ k = ground (arith, e) in
    let first : q + 0 ≡ q = omega arith in
    rw first (rw (← same) (fits-Fits q m (and_left (fits q m) (all_fit (suc q) ms) h)))
all_fit-Fits (m ∷ ms) q (suc p) k h e =
    let next : q + suc p ≡ suc q + p = omega arith in
    rw next (all_fit-Fits ms (suc q) p k (and_right (fits q m) (all_fit (suc q) ms) h) e)

-- Each entry of the table is the least size, its sign included, into which every number of that precision fits, and fits
-- an int8.
pub numeric_size-Fits : (p k : ℕ) → numeric_size (pos p) ≡ some k → Fits p k
unfolding numeric_size
numeric_size-Fits p k h =
    let e : 0 + p ≡ p = omega arith in
    subst (λ q. Fits q k) e (all_fit-Fits numeric_bytes 0 p k table_fits h)
