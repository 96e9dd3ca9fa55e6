-- ===== src/Types/Dates/Trips.antt =====
-- Times written by encodeDateTime and read back by decodeDateTime.
use tds.Base.{ℕ, ◌+◌, ◌*◌, ◌/◌, ◌≡◌, refl, sym, Option, none, some, [], arith}
use tds.Base.Int.{pos, u32}
use tds.Golang.Errors.{unexpected_data_type}
use tds.Golang.Order.{ByteOrder, put}
use tds.Golang.Buffer.{Buffer, buffer}
use tds.Encoder.Ops.{Charset, Encoder, ◌>>=◌, pure}
use tds.Encoder.Ready.{Ready}
use tds.Encoder.Writes.{Writes, Writes-write_int32}
use tds.Messages.Codec.{
  Carries, buffer_source, buffer_sink, Writes-take_err, Writes-last, Recovers, recovers,
}
use tds.Types.DataTypes.{datetime_type, date_type, bigdatetime_type, time_n_type}
use tds.Types.Dates.{
  TimeLib, real_type, read_fields, add_some, decoded, decode_date_time, encode_date_time, ticks,
  seconds,
}
use tds.Types.Dates.Moments.{
  IsMoment, i32_small, days_lem, moment-date, moment-datetime, moment-bigdatetime,
}
use tds.Types.Dates.Wire.{
  Writes-date, Reads-date, Writes-datetime, Reads-datetime, Writes-bigdatetime, Reads-bigdatetime,
}

-- A time written as a date is read back as the midnight of its day in the local zone, with no error and nothing left
-- over, if the day is one of the calendar's from the year 1 to the year 9999.
read-write_date :
    {T : Type 0} (lib : TimeLib T) (o : ByteOrder) (cs : Option Charset) (e : Encoder Buffer)
    (t : T) (size : ℕ)
    → Ready Carries o cs [] e
    → IsMoment lib t
    → Recovers o cs
        (encode_date_time lib date_type t)
        (decode_date_time lib date_type size)
        (some (lib.midnight (lib.civil_of t)))
        e
read-write_date lib o cs e t size r g =
    rw (sym (moment-date lib t g)) (
      recovers (Writes-date lib o cs buffer_sink t g) (Reads-date lib o cs buffer_source t size g)
        r)

-- A time written as a datetime is read back as the midnight of its day and the milliseconds since: a thousand for
-- each second, and ten thirds of those of the last second. There is no error and nothing is left over, if the day is
-- one of the calendar's from the year 1 to the year 9999.
pub read-write_datetime :
    {T : Type 0} (lib : TimeLib T) (o : ByteOrder) (cs : Option Charset) (e : Encoder Buffer)
    (t : T) (size : ℕ)
    → Ready Carries o cs [] e
    → IsMoment lib t
    → Recovers o cs
        (encode_date_time lib datetime_type t)
        (decode_date_time lib datetime_type size)
        (some (
          add_some lib
            (pos (seconds lib t * 1000 + lib.nanosecond t / 1000000 * 10 / 3))
            1000000
            (lib.midnight (lib.civil_of t))))
        e
read-write_datetime lib o cs e t size r g = rw (sym (moment-datetime lib t g)) (
    recovers (Writes-datetime lib o cs buffer_sink t g)
      (Reads-datetime lib o cs buffer_source t size g) r)

-- A time written as a bigdatetime is read back as the midnight of its day, the microseconds of its last second
-- and the seconds since midnight, with no error and nothing left over, if the day is one of the calendar's from the
-- year 1 to the year 9999.
pub read-write_bigdatetime :
    {T : Type 0} (lib : TimeLib T) (o : ByteOrder) (cs : Option Charset) (e : Encoder Buffer)
    (t : T) (size : ℕ)
    → Ready Carries o cs [] e
    → IsMoment lib t
    → Recovers o cs
        (encode_date_time lib bigdatetime_type t)
        (decode_date_time lib bigdatetime_type size)
        (some (
          add_some lib (pos (seconds lib t)) 1000000000 (
            add_some lib (pos (lib.nanosecond t / 1000 * 1000)) 1 (lib.midnight (lib.civil_of t)))))
        e
read-write_bigdatetime lib o cs e t size r g =
    let (n, small, same) = days_lem lib t g in
    rw (sym (moment-bigdatetime lib t n g same)) (
      recovers (Writes-bigdatetime lib o cs buffer_sink t n g small same)
        (Reads-bigdatetime lib o cs buffer_source t n size g small) r)

module _ {T : Type 0} (lib : TimeLib T) (o : ByteOrder) (cs : Option Charset) where
  Writes-time_n :
      (t : T)
      → IsMoment lib t
      → Writes buffer_sink o cs
          (encode_date_time lib time_n_type t)
          (put o 4 (u32 (pos (ticks lib t))))
          none
  unfolding encode_date_time
  Writes-time_n t g =
      Writes-last buffer_sink o cs _
        (rw (i32_small (ticks lib t) (omega (arith, g.hour, g.minute, g.second, g.nanosecond)))
          (Writes-write_int32 buffer_sink o cs (pos (ticks lib t))))
        (Writes-take_err buffer_sink o cs)

  refused_time_n :
      (size : ℕ) (e : Encoder Buffer)
      → decode_date_time lib time_n_type size e
        ≡ ((none, some (unexpected_data_type time_n_type)), e)
  unfolding decode_date_time real_type read_fields decoded pure ◌>>=◌
  refused_time_n size e = refl

-- A time written to a nullable time column is written with no error, and reading that column is refused as an
-- unexpected type, with nothing read.
pub write-read_time_n :
    {T : Type 0} (lib : TimeLib T) (o : ByteOrder) (cs : Option Charset) (e : Encoder Buffer)
    (t : T) (size : ℕ)
    → Ready Carries o cs [] e
    → IsMoment lib t
    → ((encode_date_time lib time_n_type t e).0 ≡ none)
      × ((decode_date_time lib time_n_type size (encode_date_time lib time_n_type t e).1).0
          ≡ (none, some (unexpected_data_type time_n_type)))
      × Ready Carries o cs
          (put o 4 (u32 (pos (ticks lib t))))
          (decode_date_time lib time_n_type size (encode_date_time lib time_n_type t e).1).1
write-read_time_n lib o cs e t size r g =
    let (wrote, after) = (Writes-time_n lib o cs t g).run e [] r in
    rw (refused_time_n lib o cs size (encode_date_time lib time_n_type t e).1) (wrote, refl, after)
