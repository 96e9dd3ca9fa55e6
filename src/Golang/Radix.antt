-- ===== src/Golang/Radix.antt =====
-- The digits of a number in a base, the highest first and none for 0: what big.Int's Bytes, BitLen and String
-- give and what SetBytes and SetString read.
pub mod Lengths
use tds.Base.{
  ℕ, zero, suc, ◌+◌, ◌*◌, ◌-◌, ◌/◌, ◌%◌, ◌^◌, ◌≤◌, ◌<◌, ◌≡◌, refl, sym, ap, ◌∙◌, inl, inr, [], ◌∷◌,
  ◌++◌, length, replicate, length-append, append-nil, append_assoc, arith, ◌==◌, if◌then◌else◌,
  Bytes, All, Bool-cases, ==_iff, ==-false,
}
use native.Mathlib.Nat.{div-lt_self, div-add-mod, mul_comm, mod-lt, pow-suc, zero-div}

-- The digits in front of `acc`; the fuel is at least the number.
unfoldable pub radix_loop : ℕ → ℕ → ℕ → Bytes → Bytes
radix_loop b zero n acc = acc
radix_loop b (suc fuel) n acc =
    let rest = radix_loop b fuel (n / b) ((n % b) ∷ acc) in if n == 0 then acc else rest

unfoldable pub radix : ℕ → ℕ → Bytes
unfolding radix_loop
radix b n = radix_loop b n n []

-- The number whose digits are those of m and then `ds`.
unfoldable pub from_radix : ℕ → ℕ → Bytes → ℕ
from_radix b m [] = m
from_radix b m (d ∷ ds) = from_radix b (m * b + d) ds

pub from_radix-append :
    (b m : ℕ) (ds es : Bytes) → from_radix b m (ds ++ es) ≡ from_radix b (from_radix b m ds) es
unfolding from_radix
from_radix-append b m [] es = refl
from_radix-append b m (d ∷ ds) es = from_radix-append b (m * b + d) ds es

pub from_radix-zeros :
    (b n : ℕ) (ds : Bytes) → from_radix b 0 (replicate n 0 ++ ds) ≡ from_radix b 0 ds
unfolding from_radix
from_radix-zeros b zero ds = refl
from_radix-zeros b (suc n) ds =
    let e : 0 * b + 0 ≡ 0 = omega arith in
    ap (λ m. from_radix b m (replicate n 0 ++ ds)) e ∙ from_radix-zeros b n ds

module _ (b : ℕ) (base : 1 < b) where
  shrinks : (n fuel : ℕ) → 0 < n → n ≤ suc fuel → n / b ≤ fuel
  shrinks n fuel some_n room = omega (arith, div-lt_self some_n base)

  digit-back : (n : ℕ) → n / b * b + n % b ≡ n
  digit-back n = rw (mul_comm (n / b) b) (div-add-mod n b)

  from_radix-loop :
      (fuel n : ℕ) (acc : Bytes)
      → n ≤ fuel
      → from_radix b 0 (radix_loop b fuel n acc) ≡ from_radix b n acc
  unfolding radix_loop from_radix
  from_radix-loop zero n acc h = let e : n ≡ 0 = omega arith in rw e refl
  from_radix-loop (suc fuel) n acc h = elim (Bool-cases (n == 0)) [
    | inl e ↦ rw e (rw ((==_iff n 0).0 e) refl)
    | inr e ↦
        let some_n : 0 < n = ground (arith, e) in
        rw e (
          from_radix-loop fuel (n / b) ((n % b) ∷ acc) (shrinks n fuel some_n h)
          ∙ ap (λ m. from_radix b m acc) (digit-back n))
  ]

  pub from_radix-radix : (n : ℕ) → from_radix b 0 (radix b n) ≡ n
  unfolding radix from_radix
  from_radix-radix n = from_radix-loop n n [] (omega arith)

  loop-append : (fuel n : ℕ) (acc : Bytes) → radix_loop b fuel n acc ≡ radix_loop b fuel n [] ++ acc
  unfolding radix_loop
  loop-append zero n acc = refl
  loop-append (suc fuel) n acc = elim (Bool-cases (n == 0)) [
    | inl e ↦ rw e refl
    | inr e ↦ rw e (
        loop-append fuel (n / b) ((n % b) ∷ acc)
        ∙ sym (
            ap (λ ds. ds ++ acc) (loop-append fuel (n / b) ((n % b) ∷ []))
            ∙ append_assoc (radix_loop b fuel (n / b) []) ((n % b) ∷ []) acc))
  ]

  loop-fuel :
      (f g n : ℕ) (acc : Bytes) → n ≤ f → n ≤ g → radix_loop b f n acc ≡ radix_loop b g n acc
  unfolding radix_loop
  loop-fuel zero zero n acc h k = refl
  loop-fuel zero (suc g) n acc h k = let e : n ≡ 0 = omega arith in rw e refl
  loop-fuel (suc f) zero n acc h k = let e : n ≡ 0 = omega arith in rw e refl
  loop-fuel (suc f) (suc g) n acc h k = elim (Bool-cases (n == 0)) [
    | inl e ↦ rw e refl
    | inr e ↦
        let some_n : 0 < n = ground (arith, e) in
        rw e (loop-fuel f g (n / b) ((n % b) ∷ acc) (shrinks n f some_n h) (shrinks n g some_n k))
  ]

  -- The last digit, behind the others.
  pub radix-last : (n : ℕ) → 0 < n → radix b n ≡ radix b (n / b) ++ (n % b) ∷ []
  unfolding radix radix_loop
  radix-last zero h = absurd (omega arith)
  radix-last (suc n) h =
      ap (λ t. if t then [] else radix_loop b n (suc n / b) ((suc n % b) ∷ []))
        (==-false (suc n) 0 (omega arith))
      ∙ loop-append n (suc n / b) ((suc n % b) ∷ [])
      ∙ ap (λ ds. ds ++ (suc n % b) ∷ [])
          (loop-fuel n (suc n / b) (suc n / b) [] (shrinks (suc n) n h (omega arith)) (omega arith))

  pub length-radix : (n : ℕ) → 0 < n → length (radix b n) ≡ suc (length (radix b (n / b)))
  length-radix n h =
      ap length (radix-last n h) ∙ length-append (radix b (n / b)) ((n % b) ∷ []) ∙ omega arith

  -- The digits are below the base.
  loop-Digits :
      (fuel n : ℕ) (acc : Bytes) → All (λ d. d < b) acc → All (λ d. d < b) (radix_loop b fuel n acc)
  unfolding radix_loop
  loop-Digits zero n acc h = h
  loop-Digits (suc fuel) n acc h = elim (Bool-cases (n == 0)) [
    | inl e ↦ rw e h
    | inr e ↦ rw e (loop-Digits fuel (n / b) ((n % b) ∷ acc) (mod-lt n (omega arith), h))
  ]

  pub radix-Digits : (n : ℕ) → All (λ d. d < b) (radix b n)
  unfolding radix
  radix-Digits n = loop-Digits n n [] tt
