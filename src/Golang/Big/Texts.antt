-- ===== src/Golang/Big/Texts.antt =====
-- The decimal form of an integer, with a point put into it, is read as what was printed.
use tds.Base.{
  ℕ, zero, suc, ◌+◌, ◌-◌, ◌*◌, ◌≤◌, ◌<◌, ◌≡◌, refl, ap, ap₂, sym, ◌∙◌, inl, inr, true, false, some,
  [], ◌∷◌, ◌++◌, map, length, take, drop, take-append-drop, length-drop, Bytes, All, arith, ◌==◌,
  Bool-cases, ==_iff,
}
use tds.Golang.Radix.{radix, from_radix, from_radix-radix, radix-Digits}
use tds.Golang.Big.{format_nat, is_digit, read_behind, behind_point, read_digits}

abbrev pub IsDigits : Bytes → Type 0
IsDigits = All (λ c. (48 ≤ c) × (c ≤ 57))

-- The number that a text of digits stands for, behind the digits of m.
unfoldable pub number : ℕ → Bytes → ℕ
number m [] = m
number m (c ∷ cs) = number (m * 10 + (c - 48)) cs

number-append : (m : ℕ) (cs ds : Bytes) → number m (cs ++ ds) ≡ number (number m cs) ds
unfolding number
number-append m [] ds = refl
number-append m (c ∷ cs) ds = number-append (m * 10 + (c - 48)) cs ds

number-map : (m : ℕ) (ds : Bytes) → number m (map (λ d. 48 + d) ds) ≡ from_radix 10 m ds
unfolding number from_radix
number-map m [] = refl
number-map m (d ∷ ds) =
    let e : m * 10 + (48 + d - 48) ≡ m * 10 + d = omega arith in
    ap (λ k. number k (map (λ d. 48 + d) ds)) e ∙ number-map (m * 10 + d) ds

map-IsDigits : (ds : Bytes) → All (λ d. d < 10) ds → IsDigits (map (λ d. 48 + d) ds)
map-IsDigits [] h = tt
map-IsDigits (d ∷ ds) (k, h) = ((omega arith, omega (arith, k)), map-IsDigits ds h)

pub format_nat-IsDigits : (n : ℕ) → IsDigits (format_nat n)
unfolding format_nat
format_nat-IsDigits n = elim (Bool-cases (n == 0)) [
  | inl e ↦ rw e ((omega arith, omega arith), tt)
  | inr e ↦ rw e (map-IsDigits (radix 10 n) (radix-Digits 10 (omega arith) n))
]

pub number-format_nat : (n : ℕ) → number 0 (format_nat n) ≡ n
unfolding format_nat
number-format_nat n = elim (Bool-cases (n == 0)) [
  | inl e ↦ rw e (unfold number in sym ((==_iff n 0).0 e))
  | inr e ↦ rw e (number-map 0 (radix 10 n) ∙ from_radix-radix 10 (omega arith) n)
]

digit_lem : (c : ℕ) → 48 ≤ c → c ≤ 57 → is_digit c ≡ true
digit_lem c h k = ground arith

read_behind-digits :
    (cs : Bytes) (m k : ℕ) → IsDigits cs → read_behind cs m k ≡ some (number m cs, k + length cs)
unfolding read_behind number
read_behind-digits [] m k h = let e : k + 0 ≡ k = omega arith in rw e refl
read_behind-digits (c ∷ cs) m k ((low, high), h) =
    let e : suc k + length cs ≡ k + suc (length cs) = omega arith in
    rw (digit_lem c low high) (rw (← e) (read_behind-digits cs (m * 10 + (c - 48)) (suc k) h))

read_digits-digits :
    (cs : Bytes) (m : ℕ) → IsDigits cs → read_digits cs m true ≡ some (number m cs, 0)
unfolding read_digits number
read_digits-digits [] m h = refl
read_digits-digits (c ∷ cs) m ((low, high), h) =
    rw (digit_lem c low high) (read_digits-digits cs (m * 10 + (c - 48)) h)

read_digits-point :
    (cs ds : Bytes) (m : ℕ)
    → IsDigits cs
    → IsDigits ds
    → read_digits (cs ++ b'.' ∷ ds) m true ≡ some (number m (cs ++ ds), length ds)
unfolding read_digits behind_point number
read_digits-point [] ds m h k =
    let e : 0 + length ds ≡ length ds = omega arith in
    read_behind-digits ds m 0 k ∙ ap (λ n. some (number m ds, n)) e
read_digits-point (c ∷ cs) ds m ((low, high), h) k =
    rw (digit_lem c low high) (read_digits-point cs ds (m * 10 + (c - 48)) h k)

All-append : (cs ds : Bytes) → IsDigits cs → IsDigits ds → IsDigits (cs ++ ds)
All-append [] ds h k = k
All-append (c ∷ cs) ds (h, hs) k = (h, All-append cs ds hs k)

All-take : (n : ℕ) (cs : Bytes) → IsDigits cs → IsDigits (take n cs)
All-take zero cs h = tt
All-take (suc n) [] h = tt
All-take (suc n) (c ∷ cs) (h, hs) = (h, All-take n cs hs)

All-drop : (n : ℕ) (cs : Bytes) → IsDigits cs → IsDigits (drop n cs)
All-drop zero cs h = h
All-drop (suc n) [] h = tt
All-drop (suc n) (c ∷ cs) (h, hs) = All-drop n cs hs

-- A text of digits with a point after the first n of them, where the first may be missing.
pub read_digits-cut :
    (n : ℕ) (cs : Bytes)
    → IsDigits cs
    → n < length cs
    → read_digits (take n cs ++ b'.' ∷ drop n cs) 0 false ≡ some (number 0 cs, length cs - n)
unfolding read_digits behind_point number
read_digits-cut zero [] h k = absurd (omega arith)
read_digits-cut zero (c ∷ cs) h k =
    read_behind-digits (c ∷ cs) 0 0 h ∙ ap (λ n. some (number 0 (c ∷ cs), n)) (omega arith)
read_digits-cut (suc n) [] h k = absurd (omega arith)
read_digits-cut (suc n) (c ∷ cs) ((low, high), h) k = rw (digit_lem c low high) (
    read_digits-point (take n cs) (drop n cs) (0 * 10 + (c - 48)) (All-take n cs h)
      (All-drop n cs h)
    ∙ ap₂ (λ ds n. some (number (0 * 10 + (c - 48)) ds, n)) (take-append-drop n cs)
        (omega (arith, length-drop n cs)))

pub read_digits-whole :
    (cs : Bytes) → IsDigits cs → 0 < length cs → read_digits cs 0 false ≡ some (number 0 cs, 0)
unfolding read_digits number
read_digits-whole [] h k = absurd (omega arith)
read_digits-whole (c ∷ cs) ((low, high), h) k =
    rw (digit_lem c low high) (read_digits-digits cs (0 * 10 + (c - 48)) h)
