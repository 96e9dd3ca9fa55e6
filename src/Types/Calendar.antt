-- ===== src/Types/Calendar.antt =====
-- The dates of the Gregorian calendar, and the two conversions of types.go on them.
use tds.Base.{
  ℕ, ◌+◌, ◌-◌, ◌*◌, ◌/◌, ◌%◌, ◌≤◌, ◌<◌, ◌≡◌, ◌⊎◌, inl, inr, refl, ap, ◌∙◌, ◌&&◌, ◌||◌, not, ◌==◌,
  if◌then◌else◌, arith,
}
use native.Mathlib.Decide.{dec_le}
use tds.Base.Int.{ℤ, pos}
use tds.Base.Arith.{diff, ◌+ℤ◌, diff-pos, diff-add, diff-same}
use tds.Types.Julian.{
  civil, civil_century, civil_year, civil_month, days, date, days_first, days_later,
  civil_month-pos, civil_year-pos, civil_century-pos,
}

-- 1 in a leap year, and 0 in another.
abbrev pub leap : ℕ → ℕ
leap y = if y % 4 == 0 && (not (y % 100 == 0) || y % 400 == 0) then 1 else 0

abbrev pub month_days : ℕ → ℕ → ℕ
month_days y m =
    if m == 2 then 28 + leap y else if m == 4 || m == 6 || m == 9 || m == 11 then 30 else 31

-- A day of the calendar, from the year 1 on.
pub record IsDate (y m d : ℕ) : Type 0 where
  pub year : 1 ≤ y
  pub month : 1 ≤ m
  pub last_month : m ≤ 12
  pub day : 1 ≤ d
  pub last_day : d ≤ month_days y m

-- The day d of the month m, counted from March, of the year 100 * (n - 49) + r, which ends with February.
pub record IsShifted (n r m d : ℕ) : Type 0 where
  pub century : 49 ≤ n
  pub year : r ≤ 99
  pub month : 1 ≤ m
  pub last_month : m ≤ 12
  pub day : 1 ≤ d
  pub last_day : d ≤ 31
  pub short : (m ≡ 2) ⊎ (m ≡ 4) ⊎ (m ≡ 7) ⊎ (m ≡ 9) → d ≤ 30
  pub february : m ≡ 12 → (d ≤ 28) ⊎ (d ≤ 29) × (r % 4 ≡ 3) × ((r < 99) ⊎ (n % 4 ≡ 0))

module _ {n r m d : ℕ} (g : IsShifted n r m d) where
  month_lem : 80 * (d + 2447 * m / 80) / 2447 ≡ m
  month_lem = grind (arith, g.month, g.last_month, g.day, g.last_day, g.short, g.february)

  of_year :
      (d + 2447 * m / 80 - 31 < 365)
      ⊎ (d + 2447 * m / 80 - 31 ≡ 365) × (r % 4 ≡ 3) × ((r < 99) ⊎ (n % 4 ≡ 0))
  of_year = grind (arith, g.month, g.last_month, g.day, g.last_day, g.short, g.february)

year_lem :
    (x r : ℕ)
    → r ≤ 99
    → (x < 365) ⊎ (x ≡ 365) × (r % 4 ≡ 3)
    → 4000 * (x + 1461 * r / 4 + 1) / 1461001 ≡ r
year_lem x r h (inl k) = omega arith
year_lem x r h (inr (k, e)) = omega arith

century_lem :
    (x r n : ℕ)
    → r ≤ 99
    → (x < 365) ⊎ (x ≡ 365) × (r % 4 ≡ 3) × ((r < 99) ⊎ (n % 4 ≡ 0))
    → 4 * (x + 1461 * r / 4 + (146097 * n + 3) / 4) / 146097 ≡ n
century_lem x r n h (inl k) = omega arith
century_lem x r n h (inr (k, e, inl f)) = omega arith
century_lem x r n h (inr (k, e, inr f)) = omega arith

add-sub : (a b : ℕ) → a + b - b ≡ a
add-sub a b = omega arith

-- The days before a shifted date, from the day that the conversion counts from.
abbrev span : ℕ → ℕ → ℕ → ℕ → ℕ
span n r m d = d + 2447 * m / 80 - 31 + 1461 * r / 4 + (146097 * n + 3) / 4

module _ {n r m d : ℕ} (g : IsShifted n r m d) where
  civil_month-shifted :
      civil_month (pos n) (pos r) (pos (d + 2447 * m / 80))
      ≡ date (100 * (n - 49) + r + m / 11) (m + 2 - 12 * (m / 11)) d
  civil_month-shifted =
      rw
        (
          civil_month-pos n r (d + 2447 * m / 80) g.century (omega (arith, g.day, g.month))
              (grind (arith, of_year g)),
          month_lem g,
          add-sub d (2447 * m / 80),
        )
        refl

  civil_year-shifted :
      civil_year (pos n) (pos (d + 2447 * m / 80 - 31 + 1461 * r / 4))
      ≡ civil_month (pos n) (pos r) (pos (d + 2447 * m / 80))
  civil_year-shifted =
      let x = d + 2447 * m / 80 - 31 in
      let year = year_lem x r g.year (grind (arith, of_year g)) in
      rw
        (
          civil_year-pos n (x + 1461 * r / 4) (grind (arith, of_year g, g.year)),
          year,
          add-sub x (1461 * r / 4),
        )
        (ap (λ k. civil_month (pos n) (pos r) (pos k)) (omega (arith, g.day, g.month)))

  civil_century-shifted :
      civil_century (pos (span n r m d))
      ≡ date (100 * (n - 49) + r + m / 11) (m + 2 - 12 * (m / 11)) d
  civil_century-shifted =
      let x = d + 2447 * m / 80 - 31 in
      rw
        (
          civil_century-pos (span n r m d) (omega (arith, g.century)),
          century_lem x r n g.year (of_year g),
          add-sub (x + 1461 * r / 4) ((146097 * n + 3) / 4),
        )
        (civil_year-shifted ∙ civil_month-shifted)

IsDate-first :
    (y m d : ℕ) → IsDate y m d → m ≤ 2 → IsShifted ((y - 1) / 100 + 49) ((y - 1) % 100) (m + 10) d
IsDate-first y m d g h =
    let last = g.last_day in
    record {
      century = omega arith;
      year = omega arith;
      month = omega arith;
      last_month = omega (arith, h);
      day = g.day;
      last_day = ground (arith, last, g.month, h);
      short = λ e. grind (arith, e, g.month, h);
      february = λ e. ground (arith, e, last, g.month, g.year, h);
    }

IsDate-later : (y m d : ℕ) → IsDate y m d → 3 ≤ m → IsShifted (y / 100 + 49) (y % 100) (m - 2) d
IsDate-later y m d g h =
    let last = g.last_day in
    record {
      century = omega arith;
      year = omega arith;
      month = omega arith;
      last_month = omega (arith, g.last_month);
      day = g.day;
      last_day = ground (arith, last, g.month, h);
      short = λ e. ground (arith, e, last, g.month, h);
      february = λ e. absurd (omega (arith, e, g.last_month));
    }

counted_from :
    (z : ℤ) (a b l : ℕ) → z ≡ diff a b → a + 2483590 ≡ l + b → z +ℤ pos 68569 +ℤ pos 2415021 ≡ pos l
counted_from z a b l e h =
    rw (e, diff-add a b 68569, diff-add (a + 68569) b 2415021)
      (diff-same (a + 68569 + 2415021) b l 0 (omega (arith, h))
        ∙ ground (arith, diff-pos l 0 (omega arith)))

date_same : (y m d k l : ℕ) → y ≡ k → m ≡ l → date y m d ≡ date k l d
date_same y m d k l e f = rw (e, f) refl

-- The day that encodeDateTime counts for a date of the calendar is one of which decodeDateTime makes the same date.
pub civil-days : (y m d : ℕ) → IsDate y m d → civil (days (date y m d)) ≡ date y m d
unfolding civil
civil-days y m d g = elim (dec_le m 2) [
  | yes h ↦
      let n = (y - 1) / 100 + 49 in
      let r = (y - 1) % 100 in
      rw
        (counted_from (days (date y m d)) _ _ (span n r (m + 10) d) (days_first y m d g.month h)
          (omega (arith, g.year, g.month, g.day, h)))
        (civil_century-shifted (IsDate-first y m d g h)
          ∙ date_same _ _ d y m (omega (arith, g.year, g.month, h)) (omega (arith, g.month, h)))
  | no h ↦
      let n = y / 100 + 49 in
      let r = y % 100 in
      rw
        (counted_from (days (date y m d)) _ _ (span n r (m - 2) d)
          (days_later y m d (omega (arith, h)) g.last_month)
          (omega (arith, g.year, g.last_month, g.day, h)))
        (civil_century-shifted (IsDate-later y m d g (omega (arith, h)))
          ∙ date_same _ _ d y m (omega (arith, g.last_month, h)) (omega (arith, g.last_month, h)))
]

month_days-le : (y m : ℕ) → month_days y m ≤ 31
month_days-le y m = ground arith

-- The days from 1 January of the year 1 less 366 on, up to the year 9999.
pub days-IsDate :
    (y m d : ℕ)
    → IsDate y m d
    → y ≤ 9999
    → (n : ℕ) × (n < 3700000) × (days (date y m d) ≡ diff n 693961)
days-IsDate y m d g last = elim (dec_le m 2) [
  | yes h ↦ (
    d
        + 1461 * (y + 4799) / 4
        + 367 * (m + 10) / 12
        + 693961
        - (2447096 + 3 * ((y + 4799 + 100) / 100) / 4),
    omega (arith, last, g.last_day, month_days-le y m, h),
    days_first y m d g.month h ∙ diff-same _ _ _ _ (omega (arith, g.day, g.year, g.month)),
  )
  | no h ↦ (
    d
        + 1461 * (y + 4800) / 4
        + 367 * (m - 2) / 12
        + 693961
        - (2447096 + 3 * ((y + 4800 + 100) / 100) / 4),
    omega (arith, last, g.last_day, month_days-le y m, g.last_month),
    days_later y m d (omega (arith, h)) g.last_month
        ∙ diff-same _ _ _ _ (omega (arith, g.day, g.year, h)),
  )
]
