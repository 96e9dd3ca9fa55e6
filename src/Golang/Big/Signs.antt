-- ===== src/Golang/Big/Signs.antt =====
-- Integers by their sign and their magnitude, and their texts.
use mathlib.Core.Option as Option
use tds.Base.{
  ℕ, zero, suc, ◌+◌, ◌-◌, ◌*◌, ◌/◌, ◌^◌, ◌≤◌, ◌<◌, ◌≡◌, refl, ap, ap₂, sym, ◌∙◌, Bool, true, false,
  ◌||◌, map, Option, some, [], ◌∷◌, ◌++◌, length, take, drop, Bytes, arith, leb, ◌==◌, Bool-cases,
  inl, inr,
}
use native.Mathlib.Nat.{zero-div}
use tds.Base.Int.{ℤ, pos, negsuc}
use tds.Base.Arith.{◌*ℤ◌, quot, diff, diff-pos}
use tds.Golang.Radix.{radix, length-radix}
use tds.Golang.Big.{
  Rat, minus, signed, magnitude, format_nat, format_int, read_digits, read_signed, set_string,
}
use tds.Golang.Big.Texts.{
  IsDigits, format_nat-IsDigits, number-format_nat, read_digits-cut, read_digits-whole,
}

abbrev pub is_negative : ℤ → Bool
is_negative (pos n) = false
is_negative (negsuc n) = true

pub signed-magnitude : (z : ℤ) → signed (is_negative z) (magnitude z) ≡ z
signed-magnitude (pos n) = let e : n + 0 ≡ n = omega arith in rw e refl
signed-magnitude (negsuc n) = let e : 0 + suc n ≡ suc n = omega arith in ap minus e

pub magnitude-signed : (b : Bool) (m : ℕ) → magnitude (signed b m) ≡ m
magnitude-signed false m = omega arith
magnitude-signed true zero = omega arith
magnitude-signed true (suc m) = omega arith

diff-minus : (n : ℕ) → diff 0 n ≡ minus n
unfolding diff
diff-minus zero = refl
diff-minus (suc n) = ground arith

diff-pos_only : (n : ℕ) → diff n 0 ≡ pos n
diff-pos_only n = diff-pos n 0 (omega arith) ∙ ap pos (omega arith)

pub signed-mul : (b : Bool) (m p : ℕ) → signed b m *ℤ pos p ≡ signed b (m * p)
unfolding ◌*ℤ◌
signed-mul false m p =
    let e : m * p + 0 * 0 ≡ m * p = omega arith in
    let f : m * 0 + 0 * p ≡ 0 = omega arith in ap₂ diff e f ∙ diff-pos_only (m * p)
signed-mul true zero p =
    let e : 0 * p ≡ 0 = omega arith in
    let f : 0 * p + 0 * 0 ≡ 0 = omega arith in
    let g : 0 * 0 + 0 * p ≡ 0 = omega arith in ap₂ diff f g ∙ diff-pos_only 0 ∙ ap minus (sym e)
signed-mul true (suc m) p =
    let e : 0 * p + suc m * 0 ≡ 0 = omega arith in
    let f : 0 * 0 + suc m * p ≡ suc m * p = omega arith in ap₂ diff e f ∙ diff-minus (suc m * p)

pub signed-quot : (b : Bool) (m d : ℕ) → quot (signed b m) d ≡ signed b (m / d)
unfolding quot
signed-quot false m d = ap (diff (m / d)) (zero-div d) ∙ diff-pos_only (m / d)
signed-quot true zero d =
    ap₂ diff (zero-div d) (zero-div d) ∙ diff-pos_only 0 ∙ ap minus (sym (zero-div d))
signed-quot true (suc m) d = ap (λ a. diff a (suc m / d)) (zero-div d) ∙ diff-minus (suc m / d)

-- A text behind its sign.
abbrev pub with_sign : Bool → Bytes → Bytes
with_sign true cs = b'-' ∷ cs
with_sign false cs = cs

pub format_int-signed :
    (b : Bool) (m : ℕ) → (b ≡ true → 0 < m) → format_int (signed b m) ≡ with_sign b (format_nat m)
unfolding format_int
format_int-signed false m h = refl
format_int-signed true zero h = absurd (omega (arith, h refl))
format_int-signed true (suc m) h = refl

-- A text that begins as a number without a sign does.
abbrev unsigned : Bytes → Bool
unsigned [] = false
unsigned (c ∷ cs) = leb 48 c || c == b'.'

read_signed-unsigned :
    (cs : Bytes)
    → unsigned cs ≡ true
    → read_signed cs ≡ Option.map (λ r. (false, r.0, r.1)) (read_digits cs 0 false)
unfolding read_signed
read_signed-unsigned [] h = absurd (cc)
read_signed-unsigned (c ∷ cs) h =
    let not_minus : (c == b'-') ≡ false = ground (arith, h) in
    let not_plus : (c == b'+') ≡ false = ground (arith, h) in rw (not_minus, not_plus) refl

read_signed-with_sign :
    (b : Bool) (cs : Bytes) {m k : ℕ}
    → unsigned cs ≡ true
    → read_digits cs 0 false ≡ some (m, k)
    → read_signed (with_sign b cs) ≡ some (b, m, k)
read_signed-with_sign false cs h e = rw (read_signed-unsigned cs h, e) refl
read_signed-with_sign true cs h e = unfold read_signed in rw e refl

unsigned-whole : (cs : Bytes) → IsDigits cs → 0 < length cs → unsigned cs ≡ true
unsigned-whole [] h k = absurd (omega arith)
unsigned-whole (c ∷ cs) ((low, high), h) k = ground (arith, low)

unsigned-cut : (n : ℕ) (cs ds : Bytes) → IsDigits cs → unsigned (take n cs ++ b'.' ∷ ds) ≡ true
unsigned-cut zero cs ds h = refl
unsigned-cut (suc n) [] ds h = refl
unsigned-cut (suc n) (c ∷ cs) ds ((low, high), h) = ground (arith, low)

length-map : (ds : Bytes) → length (map (λ d. 48 + d) ds) ≡ length ds
length-map [] = refl
length-map (d ∷ ds) = ap suc (length-map ds)

pub length-format_nat : (m : ℕ) → 0 < length (format_nat m)
unfolding format_nat
length-format_nat m = elim (Bool-cases (m == 0)) [
  | inl e ↦ rw e (omega arith)
  | inr e ↦
      rw e (
        omega (arith, length-map (radix 10 m), length-radix 10 (omega arith) m (ground (arith, e))))
]

module _ (other_form : Bytes → Option Rat) where
  set_string-of :
      (s : Bytes) (b : Bool) (m k : ℕ)
      → read_signed s ≡ some (b, m, k)
      → set_string other_form s ≡ some (record { num = signed b m; den = 10 ^ k })
  unfolding set_string
  set_string-of s b m k e = rw (set_string, e) refl

  -- The text of an integer, its sign included, is read as that integer.
  pub set_string-whole :
      (b : Bool) (m : ℕ)
      → set_string other_form (with_sign b (format_nat m))
        ≡ some (record { num = signed b m; den = 10 ^ 0 })
  set_string-whole b m =
      let digits = format_nat-IsDigits m in
      let full = length-format_nat m in
      set_string-of _ b m 0 (
        read_signed-with_sign b (format_nat m) (unsigned-whole (format_nat m) digits full) (
          read_digits-whole (format_nat m) digits full
          ∙ ap (λ n. some (n, 0)) (number-format_nat m)))

  -- So is the text with a point before its last q digits, as that many tenths.
  pub set_string-cut :
      (b : Bool) (m q : ℕ)
      → 0 < q
      → q ≤ length (format_nat m)
      → let n = length (format_nat m) - q in
        set_string other_form (with_sign b (take n (format_nat m) ++ b'.' ∷ drop n (format_nat m)))
        ≡ some (record { num = signed b m; den = 10 ^ q })
  set_string-cut b m q h k =
      let cs = format_nat m in
      let n = length cs - q in
      let digits = format_nat-IsDigits m in
      set_string-of _ b m q (
        read_signed-with_sign b _ (unsigned-cut n cs (drop n cs) digits) (
          read_digits-cut n cs digits (omega arith)
          ∙ ap₂ (λ x y. some (x, y)) (number-format_nat m) (omega arith)))
