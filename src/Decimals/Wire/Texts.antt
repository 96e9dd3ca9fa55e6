-- ===== src/Decimals/Wire/Texts.antt =====
-- num.go: the text of a Num is read as the number that it was made of.
use tds.Base.{
  ℕ, zero, suc, ◌-◌, ◌*◌, ◌/◌, ◌%◌, ◌^◌, ◌≤◌, ◌<◌, ◌≡◌, ◌≢◌, refl, ap, ◌∙◌, Bool, true, false,
  Option, none, some, ◌∷◌, ◌++◌, length, take, drop, Bytes, arith, ◌==◌, Bool-cases, ◌⊎◌, inl, inr,
  ==_iff, ltb-false, lt→ltb,
}
use native.Mathlib.Nat.{
  mul-mod_left, mul-div_left, one-le-pow, mod-one, div-one, div-add-mod, mul_comm,
}
use native.Mathlib.Decide.{dec_le}
use tds.Base.Int.{ℤ, pos}
use tds.Golang.Big.{Rat, signed, mul_int, is_int, to_int, format_nat, format_int, set_string}
use tds.Golang.Big.Signs.{
  magnitude-signed, signed-mul, signed-quot, with_sign, format_int-signed, set_string-whole,
  set_string-cut,
}
use tds.Decimals.Num.{Num, decimal_power, cut_text, num_string}

abbrev pub fraction : Bool → ℕ → ℕ → Rat
fraction b m p = record { num = signed b m; den = p }

is_int-fraction : (b : Bool) (m p : ℕ) → is_int (fraction b m p) ≡ (m % p == 0)
unfolding is_int
is_int-fraction b m p = ap (λ n. n % p == 0) (magnitude-signed b m)

to_int-fraction : (b : Bool) (m p : ℕ) → to_int (fraction b m p) ≡ signed b (m / p)
unfolding to_int
to_int-fraction b m p = signed-quot b m p

mul_int-fraction : (b : Bool) (m p n : ℕ) → mul_int (fraction b m p) n ≡ fraction b (m * n) p
unfolding mul_int
mul_int-fraction b m p n = ap (λ z. record { num = z; den = p }) (signed-mul b m n)

-- The number that is read from the text times the power of ten is the integer.
pub record Scaled (r : Rat) (p : ℕ) (z : ℤ) : Type 0 where
  pub whole : is_int (mul_int r p) ≡ true
  pub same : to_int (mul_int r p) ≡ z

-- A fraction over p, and an integer.
fraction-Scaled : (b : Bool) (m p : ℕ) → 0 < p → Scaled (fraction b m p) p (signed b m)
fraction-Scaled b m p h = record {
  whole =
      ap is_int (mul_int-fraction b m p p)
      ∙ is_int-fraction b (m * p) p
      ∙ ap (λ n. n == 0) (mul-mod_left m p);
  same =
      ap to_int (mul_int-fraction b m p p)
      ∙ to_int-fraction b (m * p) p
      ∙ ap (signed b) (mul-div_left m h);
}

whole-Scaled :
    (b : Bool) (m p : ℕ) → m % p ≡ 0 → Scaled (fraction b (m / p) (10 ^ 0)) p (signed b m)
whole-Scaled b m p h =
    let back : m / p * p ≡ m = rw (mul_comm (m / p) p) (omega (arith, div-add-mod m p, h)) in
    record {
      whole =
          ap is_int (mul_int-fraction b (m / p) 1 p)
          ∙ is_int-fraction b (m / p * p) 1
          ∙ ap (λ n. n == 0) (mod-one (m / p * p));
      same =
          ap to_int (mul_int-fraction b (m / p) 1 p)
          ∙ to_int-fraction b (m / p * p) 1
          ∙ ap (signed b) (div-one (m / p * p) ∙ back);
    }

cut_text-with_sign :
    (b : Bool) (q : ℕ) (cs : Bytes)
    → q ≤ length cs
    → let n = length cs - q in
      cut_text (pos q) (with_sign b cs) ≡ some (with_sign b (take n cs ++ b'.' ∷ drop n cs))
unfolding cut_text
cut_text-with_sign false q cs h = rw (ltb-false (length cs) q h) refl
cut_text-with_sign true q cs h =
    let e : suc (length cs) - q ≡ suc (length cs - q) = omega arith in
    rw (ltb-false (suc (length cs)) q (omega arith)) (rw e refl)

pub decimal_power_lem : (q : ℕ) → q < 38 → decimal_power (pos q) ≡ some (10 ^ q)
unfolding decimal_power
decimal_power_lem q h = rw (lt→ltb q 38 h) refl

string-whole :
    (n : Num) (r : Rat) → n.r ≡ r → is_int r ≡ true → num_string n ≡ some (format_int (to_int r))
unfolding num_string
string-whole n r e h = simp (e, h) refl

string-cut :
    (n : Num) (r : Rat) (q : ℕ)
    → n.r ≡ r
    → n.scale ≡ pos q
    → q < 38
    → is_int r ≡ false
    → is_int (mul_int r (10 ^ q)) ≡ true
    → num_string n ≡ cut_text (pos q) (format_int (to_int (mul_int r (10 ^ q))))
unfolding num_string
string-cut n r q e f small h k = simp (e, f, h, decimal_power_lem q small, k) refl

some_quotient : (m p : ℕ) → 0 < m → m % p ≡ 0 → 0 < m / p
some_quotient m p h k = elim (dec_le 1 (m / p)) [
  | yes y ↦ y
  | no y ↦
      let e : m / p ≡ 0 = omega arith in absurd (omega (arith, div-add-mod m p, ap (λ n. p * n) e))
]

some_behind : (m q : ℕ) → (m % 10 ^ q == 0) ≡ false → 0 < q
some_behind m zero h = absurd (cc (h, ap (λ n. n == 0) (mod-one m)))
some_behind m (suc q) h = omega arith

-- The number m / 10 ^ q is an integer, or m has at least q digits: else `String` panics, or prints a sign behind the
-- point.
abbrev pub Printable : ℕ → ℕ → Type 0
Printable m q = (m % 10 ^ q ≡ 0) ⊎ (q ≤ length (format_nat m))

digits_enough : (m q : ℕ) → (m % 10 ^ q == 0) ≡ false → Printable m q → q ≤ length (format_nat m)
digits_enough m q h (inl k) = absurd (cc (h, ap (λ n. n == 0) k))
digits_enough m q h (inr k) = k

module _ (other_form : Bytes → Option Rat) where
  -- `num_string` gives a text, and the text is read as m / 10 ^ q with its sign.
  pub record Prints (n : Num) (p : ℕ) (z : ℤ) : Type 0 where
    pub text : Bytes
    pub read : Rat
    pub prints : num_string n ≡ some text
    pub reads : set_string other_form text ≡ some read
    pub scaled : Scaled read p z

  pub num_string-Prints :
      (b : Bool) (m q : ℕ) (n : Num)
      → n.r ≡ fraction b m (10 ^ q)
      → n.scale ≡ pos q
      → q < 38
      → (b ≡ true → 0 < m)
      → Printable m q
      → Prints n (10 ^ q) (signed b m)
  num_string-Prints b m q n e f small signs long = elim (Bool-cases (m % 10 ^ q == 0)) [
    | inl k ↦
        let none_left : m % 10 ^ q ≡ 0 = (==_iff (m % 10 ^ q) 0).0 k in
        record {
          text = with_sign b (format_nat (m / 10 ^ q));
          read = fraction b (m / 10 ^ q) (10 ^ 0);
          prints =
              string-whole n (fraction b m (10 ^ q)) e (is_int-fraction b m (10 ^ q) ∙ k)
              ∙ ap some (
                  ap format_int (to_int-fraction b m (10 ^ q))
                  ∙ format_int-signed b (m / 10 ^ q)
                      (λ t. some_quotient m (10 ^ q) (signs t) none_left));
          reads = set_string-whole other_form b (m / 10 ^ q);
          scaled = whole-Scaled b m (10 ^ q) none_left;
        }
    | inr k ↦
        let r = fraction b m (10 ^ q) in
        let all = fraction-Scaled b m (10 ^ q) (one-le-pow q 10 (omega arith)) in
        let enough = digits_enough m q k long in
        let len = length (format_nat m) - q in
        record {
          text = with_sign b (take len (format_nat m) ++ b'.' ∷ drop len (format_nat m));
          read = r;
          prints =
              string-cut n r q e f small (is_int-fraction b m (10 ^ q) ∙ k) all.whole
              ∙ ap (λ z. cut_text (pos q) (format_int z)) all.same
              ∙ ap (cut_text (pos q)) (format_int-signed b m signs)
              ∙ cut_text-with_sign b q (format_nat m) enough;
          reads = set_string-cut other_form b m q (some_behind m q k) enough;
          scaled = all;
        }
  ]

-- `String` panics on a number that has fewer digits, its sign counted, than its scale, if it is no integer: it cuts
-- the text of the integer over 10 ^ q before its beginning, since nothing adds the zeros.
pub num_string-panics :
    (b : Bool) (m q : ℕ) (n : Num)
    → n.r ≡ fraction b m (10 ^ q)
    → n.scale ≡ pos q
    → q < 38
    → 0 < m
    → m % 10 ^ q ≢ 0
    → length (with_sign b (format_nat m)) < q
    → num_string n ≡ none
unfolding cut_text
num_string-panics b m q n e f small some_m fractional short =
    let all = fraction-Scaled b m (10 ^ q) (one-le-pow q 10 (omega arith)) in
    let not_whole : (m % 10 ^ q == 0) ≡ false = ground (arith, fractional) in
    string-cut n (fraction b m (10 ^ q)) q e f small (is_int-fraction b m (10 ^ q) ∙ not_whole)
      all.whole
    ∙ ap (λ z. cut_text (pos q) (format_int z)) all.same
    ∙ ap (cut_text (pos q)) (format_int-signed b m (λ t. some_m))
    ∙ rw (lt→ltb (length (with_sign b (format_nat m))) q short) refl
