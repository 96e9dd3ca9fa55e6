-- ===== src/Types/Julian.antt =====
-- The two conversions of types.go between a date and its number of days since 1900-01-01, the one of
-- decodeDateTime and the one of encodeDateTime.
use tds.Base.{ℕ, ◌+◌, ◌-◌, ◌*◌, ◌/◌, ◌≤◌, ◌<◌, ◌≡◌, refl, ◌∙◌, arith}
use tds.Base.Int.{ℤ, pos, negsuc}
use tds.Base.Arith.{
  diff, ◌+ℤ◌, ◌-ℤ◌, ◌*ℤ◌, quot, add-pos, sub-pos, mul-pos, quot-pos, pos-sub, diff-add, diff-sub,
  diff-same, diff-sum, add_assoc,
}
use native.Mathlib.Decide.{dec_le}

-- A year, a month from 1 to 12 and a day.
pub record Civil : Type 0 where
  pub year : ℤ
  pub month : ℤ
  pub day : ℤ

-- The rest of the conversion of a number of days, from the century n, the year y in it and the days l.
unfoldable pub civil_month : ℤ → ℤ → ℤ → Civil
unfolding ◌+ℤ◌ ◌-ℤ◌ ◌*ℤ◌ quot
civil_month n y l =
    let m = quot (pos 80 *ℤ l) 2447 in
    let d = l -ℤ quot (pos 2447 *ℤ m) 80 in
    let k = quot m 11 in
    record { year = pos 100 *ℤ (n -ℤ pos 49) +ℤ y +ℤ k; month = m +ℤ pos 2 -ℤ pos 12 *ℤ k; day = d }

unfoldable pub civil_year : ℤ → ℤ → Civil
unfolding ◌+ℤ◌ ◌-ℤ◌ ◌*ℤ◌ quot civil_month
civil_year n l =
    let y = quot (pos 4000 *ℤ (l +ℤ pos 1)) 1461001 in
    civil_month n y (l -ℤ quot (pos 1461 *ℤ y) 4 +ℤ pos 31)

unfoldable pub civil_century : ℤ → Civil
unfolding ◌+ℤ◌ ◌-ℤ◌ ◌*ℤ◌ quot civil_year
civil_century l =
    let n = quot (pos 4 *ℤ l) 146097 in civil_year n (l -ℤ quot (pos 146097 *ℤ n +ℤ pos 3) 4)

-- The date of a number of days, in decodeDateTime.
unfoldable pub civil : ℤ → Civil
unfolding ◌+ℤ◌ civil_century
civil julian_day = civil_century (julian_day +ℤ pos 68569 +ℤ pos 2415021)

-- The number of days of a date, in encodeDateTime, from the year's shift k = (m - 14) / 12.
unfoldable pub days_from : ℤ → Civil → ℤ
unfolding ◌+ℤ◌ ◌-ℤ◌ ◌*ℤ◌ quot
days_from k c =
    c.day
    -ℤ pos 2415021
    -ℤ pos 32075
    +ℤ quot (pos 1461 *ℤ (c.year +ℤ pos 4800 +ℤ k)) 4
    +ℤ quot (pos 367 *ℤ (c.month -ℤ pos 2 -ℤ k *ℤ pos 12)) 12
    -ℤ quot (pos 3 *ℤ quot (c.year +ℤ pos 4900 +ℤ k) 100) 4

unfoldable pub days : Civil → ℤ
unfolding ◌-ℤ◌ quot days_from
days c = days_from (quot (c.month -ℤ pos 14) 12) c

-- A date by natural numbers.
abbrev pub date : ℕ → ℕ → ℕ → Civil
date y m d = record { year = pos y; month = pos m; day = pos d }

shift_first : (m : ℕ) → 1 ≤ m → m ≤ 2 → quot (pos m -ℤ pos 14) 12 ≡ negsuc 0
unfolding diff ◌-ℤ◌ quot
shift_first m h k = ground arith

shift_later : (m : ℕ) → 3 ≤ m → m ≤ 12 → quot (pos m -ℤ pos 14) 12 ≡ pos 0
unfolding diff ◌-ℤ◌ quot
shift_later m h k = ground arith

months_first : (m : ℕ) → 1 ≤ m → m ≤ 2 → pos m -ℤ pos 2 -ℤ negsuc 0 *ℤ pos 12 ≡ pos (m + 10)
unfolding diff ◌-ℤ◌ ◌*ℤ◌
months_first m h k = ground arith

months_later : (m : ℕ) → 3 ≤ m → pos m -ℤ pos 2 -ℤ pos 0 *ℤ pos 12 ≡ pos (m - 2)
unfolding diff ◌-ℤ◌ ◌*ℤ◌
months_later m h = ground arith

year_before : (y c b x : ℕ) → y + c ≡ x + b + 1 → pos y +ℤ pos c +ℤ negsuc 0 ≡ pos (x + b)
unfolding diff ◌+ℤ◌
year_before y c b x e = ground (arith, e)

year_same : (y c b x : ℕ) → y + c ≡ x + b → pos y +ℤ pos c +ℤ pos 0 ≡ pos (x + b)
unfolding diff ◌+ℤ◌
year_same y c b x e = ground (arith, e)

-- The sum that days_from ends with, of numbers.
days_sum :
    (y m d : ℕ)
    → pos d
        -ℤ pos 2415021
        -ℤ pos 32075
        +ℤ quot (pos 1461 *ℤ pos y) 4
        +ℤ quot (pos 367 *ℤ pos m) 12
        -ℤ quot (pos 3 *ℤ quot (pos (y + 100)) 100) 4
      ≡ diff (d + 1461 * y / 4 + 367 * m / 12) (2447096 + 3 * ((y + 100) / 100) / 4)
days_sum y m d =
    rw
      (
        mul-pos 1461 y,
        quot-pos (1461 * y) 4 (omega arith),
        mul-pos 367 m,
        quot-pos (367 * m) 12 (omega arith),
        quot-pos (y + 100) 100 (omega arith),
        mul-pos 3 ((y + 100) / 100),
        quot-pos (3 * ((y + 100) / 100)) 4 (omega arith),
        pos-sub d 2415021,
        diff-sub d 2415021 32075,
        diff-add d (2415021 + 32075) (1461 * y / 4),
        diff-add (d + 1461 * y / 4) (2415021 + 32075) (367 * m / 12),
      )
      (diff-sub (d + 1461 * y / 4 + 367 * m / 12) (2415021 + 32075) (3 * ((y + 100) / 100) / 4))

pub days_first :
    (y m d : ℕ)
    → 1 ≤ m
    → m ≤ 2
    → days (date y m d)
      ≡ diff
          (d + 1461 * (y + 4799) / 4 + 367 * (m + 10) / 12)
          (2447096 + 3 * ((y + 4799 + 100) / 100) / 4)
unfolding days days_from
days_first y m d h k =
    rw
      (
        shift_first m h k,
        months_first m h k,
        year_before y 4800 4799 y (omega arith),
        year_before y 4900 100 (y + 4799) (omega arith),
      )
      (days_sum (y + 4799) (m + 10) d)

pub days_later :
    (y m d : ℕ)
    → 3 ≤ m
    → m ≤ 12
    → days (date y m d)
      ≡ diff
          (d + 1461 * (y + 4800) / 4 + 367 * (m - 2) / 12)
          (2447096 + 3 * ((y + 4800 + 100) / 100) / 4)
unfolding days days_from
days_later y m d h k =
    rw
      (
        shift_later m h k,
        months_later m h,
        year_same y 4800 4800 y (omega arith),
        year_same y 4900 100 (y + 4800) (omega arith),
      )
      (days_sum (y + 4800) (m - 2) d)

pub civil_month-pos :
    (n y l : ℕ)
    → 49 ≤ n
    → 31 ≤ l
    → l ≤ 396
    → civil_month (pos n) (pos y) (pos l)
      ≡ date
          (100 * (n - 49) + y + 80 * l / 2447 / 11)
          (80 * l / 2447 + 2 - 12 * (80 * l / 2447 / 11))
          (l - 2447 * (80 * l / 2447) / 80)
unfolding civil_month
civil_month-pos n y l h low high =
    rw
      (
        mul-pos 80 l,
        quot-pos (80 * l) 2447 (omega arith),
        mul-pos 2447 (80 * l / 2447),
        quot-pos (2447 * (80 * l / 2447)) 80 (omega arith),
        sub-pos l (2447 * (80 * l / 2447) / 80) (omega arith),
        quot-pos (80 * l / 2447) 11 (omega arith),
        sub-pos n 49 h,
        mul-pos 100 (n - 49),
        add-pos (100 * (n - 49)) y,
        add-pos (100 * (n - 49) + y) (80 * l / 2447 / 11),
        add-pos (80 * l / 2447) 2,
        mul-pos 12 (80 * l / 2447 / 11),
        sub-pos (80 * l / 2447 + 2) (12 * (80 * l / 2447 / 11)) (omega arith),
      )
      refl

pub civil_year-pos :
    (n l : ℕ)
    → l ≤ 36524
    → civil_year (pos n) (pos l)
      ≡ civil_month
          (pos n)
          (pos (4000 * (l + 1) / 1461001))
          (pos (l - 1461 * (4000 * (l + 1) / 1461001) / 4 + 31))
unfolding civil_year
civil_year-pos n l high =
    rw
      (
        add-pos l 1,
        mul-pos 4000 (l + 1),
        quot-pos (4000 * (l + 1)) 1461001 (omega arith),
        mul-pos 1461 (4000 * (l + 1) / 1461001),
        quot-pos (1461 * (4000 * (l + 1) / 1461001)) 4 (omega arith),
        sub-pos l (1461 * (4000 * (l + 1) / 1461001) / 4) (omega arith),
        add-pos (l - 1461 * (4000 * (l + 1) / 1461001) / 4) 31,
      )
      refl

pub civil_century-pos :
    (l : ℕ)
    → 0 < l
    → civil_century (pos l)
      ≡ civil_year (pos (4 * l / 146097)) (pos (l - (146097 * (4 * l / 146097) + 3) / 4))
unfolding civil_century
civil_century-pos l h =
    rw
      (
        mul-pos 4 l,
        quot-pos (4 * l) 146097 (omega arith),
        mul-pos 146097 (4 * l / 146097),
        add-pos (146097 * (4 * l / 146097)) 3,
        quot-pos (146097 * (4 * l / 146097) + 3) 4 (omega arith),
        sub-pos l ((146097 * (4 * l / 146097) + 3) / 4) (omega arith),
      )
      refl

-- The days of a date that is in the month behind l days of a year, counted from March.
days-civil_month :
    (n y l : ℕ)
    → 49 ≤ n
    → y ≤ 99
    → 31 ≤ l
    → l ≤ 396
    → days (civil_month (pos n) (pos y) (pos l))
      ≡ diff (l + 1461 * y / 4 + (146097 * n + 3) / 4) (2483590 + 31)
days-civil_month n y l h small low high =
    let m = 80 * l / 2447 in
    let k = m / 11 in
    rw (civil_month-pos n y l h low high) (elim (dec_le m 10) [
      | yes a ↦
          days_later (100 * (n - 49) + y + k) (m + 2 - 12 * k) (l - 2447 * m / 80) (omega arith)
            (omega arith)
          ∙ diff-same _ _ _ _ (omega arith)
      | no a ↦
          days_first (100 * (n - 49) + y + k) (m + 2 - 12 * k) (l - 2447 * m / 80) (omega arith)
            (omega arith)
          ∙ diff-same _ _ _ _ (omega arith)
    ])

-- The date that decodeDateTime makes of a number of days is one of which encodeDateTime makes the same
-- number, for every day from 1 January of the year 1 on.
pub days-civil :
    (julian_day : ℤ) (l : ℕ)
    → julian_day +ℤ pos 2483590 ≡ pos l
    → 1789995 ≤ l
    → days (civil julian_day) ≡ julian_day
unfolding civil
days-civil j l e low =
    let n = 4 * l / 146097 in
    let l1 = l - (146097 * n + 3) / 4 in
    let y = 4000 * (l1 + 1) / 1461001 in
    rw
      (
        add_assoc j 68569 2415021,
        e,
        civil_century-pos l (omega arith),
        civil_year-pos n l1 (omega arith),
      )
      (days-civil_month n y (l1 - 1461 * y / 4 + 31) (omega arith) (omega arith) (omega arith)
          (omega arith)
        ∙ diff-same _ _ l 2483590 (omega arith)
        ∙ diff-sum l 2483590 j e)
