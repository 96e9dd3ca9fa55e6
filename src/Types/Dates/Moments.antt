-- ===== src/Types/Dates/Moments.antt =====
-- The times that encodeDateTime can write, and what decodeDateTime makes of their numbers.
use tds.Base.{
  ℕ, zero, suc, ◌+◌, ◌*◌, ◌/◌, ◌%◌, ◌^◌, ◌<◌, ◌≤◌, ◌≡◌, refl, sym, ap, ◌∙◌, ==-false, arith,
}
use tds.Base.Int.{ℤ, pos, negsuc, u64, i32, IsInt32}
use tds.Base.Arith.{
  diff, ◌+ℤ◌, ◌-ℤ◌, ◌*ℤ◌, quot, mul-pos, quot-pos, diff-add, diff-bounds, diff-pos, pos-sub,
  diff-same,
}
use tds.Golang.Buffer.{buffer}
use tds.Types.Julian.{civil, civil_century, civil_year, civil_month, days, date}
use tds.Types.Calendar.{IsDate, civil-days, days-IsDate}
use tds.Types.Dates.{TimeLib, Read, whole_day, at_day, add_some, moment, ticks, seconds}

-- A time on a day of the calendar of the years 1 to 9999.
pub record IsMoment {T : Type 0} (lib : TimeLib T) (t : T) : Type 0 where
  pub year : ℕ
  pub month : ℕ
  pub day : ℕ
  pub same : lib.civil_of t ≡ date year month day
  pub valid : IsDate year month day
  pub last : year ≤ 9999
  pub hour : lib.hour t < 24
  pub minute : lib.minute t < 60
  pub second : lib.second t < 60
  pub nanosecond : lib.nanosecond t < 1000000000

pub i32_small : (n : ℕ) → n < 2 ^ 31 → i32 n ≡ pos n
i32_small n h = ground arith

module _ {T : Type 0} (lib : TimeLib T) where
  -- The microseconds from 693961 days before 1900-01-01 on, n days before the time's midnight.
  abbrev pub stamp : ℕ → T → ℕ
  stamp n t = n * 86400 * 1000000 + seconds lib t * 1000000 + lib.nanosecond t / 1000

  -- What is read from it.
  abbrev pub stamp_read : ℕ → T → Read
  stamp_read n t = record (whole_day (pos (stamp n t / 1000000 / 86400) -ℤ pos 693961)) {
    ns = pos (stamp n t % 1000000 * 1000);
    s = pos (stamp n t / 1000000 % 86400);
  }

  module _ (n : ℕ) (t : T) (g : IsMoment lib t) where
    pub stamp-lt : n < 3700000 → stamp n t < 2 ^ 64
    stamp-lt h = omega (arith, g.hour, g.minute, g.second, g.nanosecond)

    stamp_day : stamp n t / 1000000 / 86400 ≡ n
    stamp_day = omega (arith, g.hour, g.minute, g.second, g.nanosecond)

    stamp_second : stamp n t / 1000000 % 86400 ≡ seconds lib t
    stamp_second = omega (arith, g.hour, g.minute, g.second, g.nanosecond)

    stamp_micro : stamp n t % 1000000 * 1000 ≡ lib.nanosecond t / 1000 * 1000
    stamp_micro = omega (arith, g.hour, g.minute, g.second, g.nanosecond)

    counted : days (lib.civil_of t) ≡ diff n 693961 → days (lib.civil_of t) +ℤ pos 693961 ≡ pos n
    counted e =
        rw (e, diff-add n 693961 693961)
          (diff-same (n + 693961) 693961 n 0 (omega arith)
            ∙ ground (arith, diff-pos n 0 (omega arith)))

    pub stamp_lem :
        n < 3700000
        → days (lib.civil_of t) ≡ diff n 693961
        → (u64 (days (lib.civil_of t) +ℤ pos 693961) * 86400 * 1000000
              + seconds lib t * 1000000
              + lib.nanosecond t / 1000)
            % 2 ^ 64
          ≡ stamp n t
    stamp_lem h e = rw (counted e) (omega (arith, g.hour, g.minute, g.second, g.nanosecond))

  add_none : (unit : ℕ) (t : T) → add_some lib (pos 0) unit t ≡ t
  unfolding add_some
  add_none unit t = refl

  epoch : civil (pos 0) ≡ date 1900 1 1
  unfolding civil civil_century civil_year civil_month ◌+ℤ◌ ◌-ℤ◌ ◌*ℤ◌ quot diff
  epoch = refl

  -- The day of a number of days is the midnight of its date, the number 0 included.
  at_day-civil : (j : ℤ) → at_day lib j ≡ lib.midnight (civil j)
  unfolding at_day
  at_day-civil (pos zero) = ap lib.midnight (sym epoch)
  at_day-civil (pos (suc n)) = rw (==-false (suc n + 0) 0 (omega arith)) refl
  at_day-civil (negsuc n) = rw (==-false (0 + suc n) 0 (omega arith)) refl

  at_day-days :
      (t : T) → IsMoment lib t → at_day lib (days (lib.civil_of t)) ≡ lib.midnight (lib.civil_of t)
  at_day-days t g =
      at_day-civil (days (lib.civil_of t))
      ∙ rw (g.same) (ap lib.midnight (civil-days g.year g.month g.day g.valid))

  pub days_lem :
      (t : T) → IsMoment lib t → (n : ℕ) × (n < 3700000) × (days (lib.civil_of t) ≡ diff n 693961)
  days_lem t g = rw (g.same) (days-IsDate g.year g.month g.day g.valid g.last)

  pub days-IsInt32 : (t : T) → IsMoment lib t → IsInt32 (days (lib.civil_of t))
  days-IsInt32 t g =
      let (n, small, e) = days_lem t g in
      let (high, low) = diff-bounds n 693961 in
      rw e (omega (arith, high, small), omega (arith, low))

  pub moment-date :
      (t : T)
      → IsMoment lib t
      → moment lib (whole_day (days (lib.civil_of t))) ≡ lib.midnight (lib.civil_of t)
  unfolding moment add_some
  moment-date t g = at_day-days t g

  pub moment-datetime :
      (t : T)
      → IsMoment lib t
      → moment lib (record (whole_day (days (lib.civil_of t))) {
        ms = quot (pos (ticks lib t) *ℤ pos 1000) 300;
      })
        ≡ add_some lib
            (pos (seconds lib t * 1000 + lib.nanosecond t / 1000000 * 10 / 3))
            1000000
            (lib.midnight (lib.civil_of t))
  unfolding moment add_some
  moment-datetime t g =
      rw
        (
          mul-pos (ticks lib t) 1000,
          quot-pos (ticks lib t * 1000) 300 (omega arith),
          at_day-days t g,
        )
        (ap (λ n. add_some lib (pos n) 1000000 (lib.midnight (lib.civil_of t))) (omega arith))

  pub moment-bigdatetime :
      (t : T) (n : ℕ)
      → IsMoment lib t
      → days (lib.civil_of t) ≡ diff n 693961
      → moment lib (stamp_read n t)
        ≡ add_some lib
            (pos (seconds lib t))
            1000000000
            (add_some lib (pos (lib.nanosecond t / 1000 * 1000)) 1 (lib.midnight (lib.civil_of t)))
  unfolding moment
  moment-bigdatetime t n g e =
      rw
        (
          stamp_day n t g,
          stamp_second n t g,
          stamp_micro n t g,
          pos-sub n 693961,
          sym e,
          add_none 60000000000 (at_day lib (days (lib.civil_of t))),
          add_none 1000000 (at_day lib (days (lib.civil_of t))),
          at_day-days t g,
        )
        refl
