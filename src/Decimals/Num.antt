-- ===== src/Decimals/Num.antt =====
-- num.go: the type Num and its text.
use tds.Base.{
  ℕ, ◌-◌, ◌^◌, Bool, Option, none, some, [], ◌∷◌, ◌++◌, length, take, drop, Bytes, ltb,
  if◌then◌else◌,
}
use tds.Base.Int.{ℤ, pos, negsuc}
use tds.Golang.Big.{Rat, mul_int, is_int, to_int, format_int}

pub record Num : Type 0 where
  pub r : Rat
  pub precision : ℤ
  pub scale : ℤ
  pub is_null : Bool

-- `decimalPowers`, an array of 38: another index panics.
unfoldable pub decimal_power : ℤ → Option ℕ
decimal_power (pos n) = if ltb n 38 then some (10 ^ n) else none
decimal_power (negsuc n) = none

-- `b[:k] + "." + b[k:]`, with the last n bytes behind the point; a slice that begins below 0 panics.
unfoldable pub cut_text : ℤ → Bytes → Option Bytes
cut_text (negsuc n) b = none
cut_text (pos n) b =
    if ltb (length b) n then none else some (take (length b - n) b ++ b'.' ∷ drop (length b - n) b)

-- "incorrect rational".
abbrev incorrect : Bytes
incorrect =
    105 ∷ 110 ∷ 99 ∷ 111 ∷ 114 ∷ 114 ∷ 101 ∷ 99 ∷ 116 ∷ 32 ∷ 114 ∷ 97 ∷ 116 ∷ 105 ∷ 111 ∷ 110 ∷ 97
    ∷ 108 ∷ []

-- `Num.String`; none is a panic. The text of a Rat that is an integer ends in "/1", which is taken off.
unfoldable pub num_string : Num → Option Bytes
unfolding cut_text decimal_power
num_string n = if is_int n.r then some (format_int (to_int n.r)) else elim (decimal_power n.scale) [
  | none ↦ none
  | some p ↦
      if is_int (mul_int n.r p)
      then cut_text n.scale (format_int (to_int (mul_int n.r p)))
      else some incorrect
]
