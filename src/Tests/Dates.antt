-- ===== src/Tests/Dates.antt =====
-- Concrete times, written and read back.
use tds.Base.{ℕ, ◌+◌, ◌/◌, ◌%◌, ◌≡◌, refl, none, some, arith}
use tds.Base.Int.{pos, pos_part, u32}
use tds.Base.Arith.{◌+ℤ◌}
use tds.Golang.Errors.{unexpected_data_type}
use tds.Golang.Order.{little_endian, put}
use tds.Golang.Buffer.{buffer}
use tds.Encoder.Ready.{Ready}
use tds.Messages.Codec.{Carries, Recovers}
use tds.Types.DataTypes.{datetime_type, bigdatetime_type, time_n_type}
use tds.Types.Julian.{Civil, civil, days, date, days-civil}
use tds.Types.Calendar.{IsDate, civil-days}
use tds.Types.Dates.{TimeLib, add_some, ticks, decode_date_time, encode_date_time}
use tds.Types.Dates.Moments.{IsMoment}
use tds.Types.Dates.Trips.{read-write_datetime, read-write_bigdatetime, write-read_time_n}
use tds.Tests.Wires.{encoder, encoder-Ready}

-- A time in a zone with no change of its offset, whose additions stay within a day.
pub record At : Type 0 where
  pub day : Civil
  pub nanos : ℕ

abbrev pub lib : TimeLib At
lib = record {
  midnight = λ c. record { day = c; nanos = 0 };
  add = λ t z. record t { nanos = t.nanos + pos_part z };
  civil_of = λ t. t.day;
  hour = λ t. t.nanos / 3600000000000;
  minute = λ t. t.nanos / 60000000000 % 60;
  second = λ t. t.nanos / 1000000000 % 60;
  nanosecond = λ t. t.nanos % 1000000000;
}

-- 29 February 2024, half a second after 01:02:03.
abbrev leap_day : At
leap_day = record { day = date 2024 2 29; nanos = 3723500000000 }

leap_day-IsDate : IsDate 2024 2 29
leap_day-IsDate = record {
  year = omega arith;
  month = omega arith;
  last_month = omega arith;
  day = omega arith;
  last_day = omega arith;
}

leap_day-IsMoment : IsMoment lib leap_day
leap_day-IsMoment = record {
  year = 2024;
  month = 2;
  day = 29;
  same = refl;
  valid = leap_day-IsDate;
  last = omega arith;
  hour = omega arith;
  minute = omega arith;
  second = omega arith;
  nanosecond = omega arith;
}

civil-days_example : civil (days (date 2024 2 29)) ≡ date 2024 2 29
civil-days_example = civil-days 2024 2 29 leap_day-IsDate

sum : pos 45349 +ℤ pos 2483590 ≡ pos 2528939
unfolding ◌+ℤ◌
sum = refl

days-civil_example : days (civil (pos 45349)) ≡ pos 45349
days-civil_example = days-civil (pos 45349) 2528939 sum (omega arith)

read-write_datetime_example :
    Recovers little_endian none
      (encode_date_time lib datetime_type leap_day)
      (decode_date_time lib datetime_type 8)
      (some (add_some lib (pos (3723000 + 1666)) 1000000 (lib.midnight (date 2024 2 29))))
      encoder
read-write_datetime_example =
    read-write_datetime lib little_endian none encoder leap_day 8 encoder-Ready leap_day-IsMoment

read-write_bigdatetime_example :
    Recovers little_endian none
      (encode_date_time lib bigdatetime_type leap_day)
      (decode_date_time lib bigdatetime_type 8)
      (some (
        add_some lib
          (pos 3723)
          1000000000
          (add_some lib (pos 500000000) 1 (lib.midnight (date 2024 2 29)))))
      encoder
read-write_bigdatetime_example =
    read-write_bigdatetime lib little_endian none encoder leap_day 8 encoder-Ready leap_day-IsMoment

write-read_time_n_example :
    ((encode_date_time lib time_n_type leap_day encoder).0 ≡ none)
    × ((decode_date_time lib time_n_type 4 (encode_date_time lib time_n_type leap_day encoder).1).0
        ≡ (none, some (unexpected_data_type time_n_type)))
    × Ready Carries little_endian none
        (put little_endian 4 (u32 (pos (ticks lib leap_day))))
        (decode_date_time lib time_n_type 4 (encode_date_time lib time_n_type leap_day encoder).1).1
write-read_time_n_example =
    write-read_time_n lib little_endian none encoder leap_day 4 encoder-Ready leap_day-IsMoment
