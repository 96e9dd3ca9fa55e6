-- ===== src/Golang/Big.antt =====
-- math/big: what num.go uses of it. A Rat is a fraction that is not reduced: `IsInt`, and the integer that `Num`
-- gives of a Rat that is one, do not depend on the form.
pub mod Texts
pub mod Signs
use mathlib.Core.Option as Option
use tds.Base.{
  ℕ, zero, suc, ◌+◌, ◌-◌, ◌*◌, ◌/◌, ◌%◌, ◌^◌, ◌≤◌, ◌<◌, Bool, true, false, ◌&&◌, not, Option, none,
  some, [], ◌∷◌, ◌++◌, map, Bytes, ltb, leb, ◌==◌, if◌then◌else◌,
}
use tds.Base.Int.{ℤ, pos, negsuc, pos_part, neg_part}
use tds.Base.Arith.{◌*ℤ◌, quot, diff}
use tds.Golang.Radix.{radix}

pub record Rat : Type 0 where
  pub num : ℤ
  pub den : ℕ

abbrev pub magnitude : ℤ → ℕ
magnitude z = pos_part z + neg_part z

-- `Mul` with an integer that is not negative.
unfoldable pub mul_int : Rat → ℕ → Rat
mul_int r n = record { num = r.num *ℤ pos n; den = r.den }

unfoldable pub is_int : Rat → Bool
is_int r = magnitude r.num % r.den == 0

-- `Num`, of a Rat that is an integer.
unfoldable pub to_int : Rat → ℤ
unfolding quot
to_int r = quot r.num r.den

-- `-n`, of a number.
abbrev pub minus : ℕ → ℤ
minus zero = pos 0
minus (suc n) = negsuc n

abbrev pub neg_ℤ : ℤ → ℤ
neg_ℤ (pos n) = minus n
neg_ℤ (negsuc n) = pos (suc n)

unfoldable pub neg : Rat → Rat
neg r = record r { num = neg_ℤ r.num }

-- The text of an integer: `Int.String` and strconv.FormatInt.
unfoldable pub format_nat : ℕ → Bytes
unfolding radix
format_nat n = if n == 0 then b'0' ∷ [] else map (λ d. 48 + d) (radix 10 n)

unfoldable pub format_int : ℤ → Bytes
unfolding format_nat
format_int (pos n) = format_nat n
format_int (negsuc n) = b'-' ∷ format_nat (suc n)

-- The decimal form that Rat.SetString reads: digits, and digits behind a point. `m` is the number that the digits make
-- so far, and `k` counts those behind the point.
abbrev pub is_digit : ℕ → Bool
is_digit c = leb 48 c && leb c 57

unfoldable pub read_behind : Bytes → ℕ → ℕ → Option (ℕ × ℕ)
read_behind [] m k = some (m, k)
read_behind (c ∷ cs) m k =
    let rest = read_behind cs (m * 10 + (c - 48)) (suc k) in if is_digit c then rest else none

unfoldable pub behind_point : Bool → Bytes → ℕ → Option (ℕ × ℕ)
unfolding read_behind
behind_point false [] m = none
behind_point seen cs m = read_behind cs m 0

-- The digits before the point; a form without any digit is refused.
unfoldable pub read_digits : Bytes → ℕ → Bool → Option (ℕ × ℕ)
unfolding behind_point
read_digits [] m seen = if seen then some (m, 0) else none
read_digits (c ∷ cs) m seen =
    let rest = read_digits cs (m * 10 + (c - 48)) true in
    if is_digit c then rest else if c == b'.' then behind_point seen cs m else none

-- The decimal form with its sign.
unfoldable pub read_signed : Bytes → Option (Bool × ℕ × ℕ)
unfolding read_digits
read_signed [] = none
read_signed (c ∷ cs) =
    if c == b'-'
    then Option.map (λ r. (true, r.0, r.1)) (read_digits cs 0 false)
    else if c == b'+'
    then Option.map (λ r. (false, r.0, r.1)) (read_digits cs 0 false)
    else Option.map (λ r. (false, r.0, r.1)) (read_digits (c ∷ cs) 0 false)

abbrev pub signed : Bool → ℕ → ℤ
signed negative m = if negative then minus m else pos m

-- Rat.SetString: the decimal form, or one of those with an exponent, a fraction bar or a prefix.
unfoldable pub set_string : (Bytes → Option Rat) → Bytes → Option Rat
unfolding read_signed
set_string other_form s = elim (read_signed s) [
  | none ↦ other_form s
  | some (negative, m, k) ↦ some (record { num = signed negative m; den = 10 ^ k })
]
