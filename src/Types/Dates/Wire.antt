-- ===== src/Types/Dates/Wire.antt =====
-- The bytes of a date, a datetime and a bigdatetime.
use tds.Base.{ℕ, ◌<◌, ◌≡◌, Option, none, some, ◌++◌, Bytes, arith}
use tds.Base.Int.{pos, u32, i32, i32-u32}
use tds.Base.Arith.{diff, ◌*ℤ◌, quot}
use tds.Golang.Order.{ByteOrder, put}
use tds.Golang.Io.{ReadWriter}
use tds.Golang.Buffer.{buffer}
use tds.Encoder.Ops.{Charset, M, ◌>>=◌, write_int32}
use tds.Encoder.Ready.{Source, Sink}
use tds.Encoder.Reads.{Reads, Reads-bind, Reads-pure, Reads-int32, Reads-uint64}
use tds.Encoder.Writes.{Writes, Writes-bind, Writes-write_int32, Writes-write_uint64}
use tds.Messages.Codec.{Reads-take_err, Reads-last, Writes-take_err, Writes-last}
use tds.Types.DataTypes.{datetime_type, date_type, bigdatetime_type}
use tds.Types.Julian.{days}
use tds.Types.Dates.{
  TimeLib, Read, whole_day, real_type, read_fields, read_date, read_datetime, read_bigdatetime,
  moment, decoded, decode_date_time, encode_date_time, ticks, write_datetime, write_bigdatetime,
}
use tds.Types.Dates.Moments.{
  IsMoment, i32_small, stamp, stamp_read, stamp-lt, stamp_lem, days-IsInt32,
}

module _ {T : Type 0} (lib : TimeLib T) where
  module _ {S : Type 0} ⦃w : ReadWriter S⦄ (o : ByteOrder) (cs : Option Charset) where
    pub Writes-day :
        (snk : Sink S) (t : T)
        → IsMoment lib t
        → Writes snk o cs
            (write_int32 (i32 (u32 (days (lib.civil_of t)))))
            (put o 4 (u32 (days (lib.civil_of t))))
            tt
    Writes-day snk t g =
        rw (i32-u32 (days (lib.civil_of t)) (days-IsInt32 lib t g))
          (Writes-write_int32 snk o cs (days (lib.civil_of t)))

    pub Writes-date :
        (snk : Sink S) (t : T)
        → IsMoment lib t
        → Writes snk o cs
            (encode_date_time lib date_type t)
            (put o 4 (u32 (days (lib.civil_of t))))
            none
    unfolding encode_date_time
    Writes-date snk t g = Writes-last snk o cs _ (Writes-day snk t g) (Writes-take_err snk o cs)

    -- What the fields give at the end.
    pub Reads-decoded :
        (src : Source S) (real : ℕ) {m : M S (Option Read)} {bs : Bytes} (f : Read)
        → Reads src o cs m bs (some f)
        → Reads src o cs (m >>= decoded lib real) bs (some (moment lib f), none)
    unfolding decoded
    Reads-decoded src real f h = Reads-last src o cs (decoded lib real) h (
        Reads-last src o cs _ (Reads-take_err src o cs)
          (Reads-pure src o cs (some (moment lib f), none)))

    pub Reads-date :
        (src : Source S) (t : T) (size : ℕ)
        → IsMoment lib t
        → Reads src o cs
            (decode_date_time lib date_type size)
            (put o 4 (u32 (days (lib.civil_of t))))
            (some (moment lib (whole_day (days (lib.civil_of t)))), none)
    unfolding decode_date_time real_type read_fields read_date
    Reads-date src t size g = Reads-decoded src date_type (whole_day (days (lib.civil_of t))) (
        Reads-last src o cs _ (Reads-int32 src o cs (days (lib.civil_of t)) (days-IsInt32 lib t g))
          (Reads-pure src o cs _))

    -- The two numbers of a datetime.
    pub Writes-datetime :
        (snk : Sink S) (t : T)
        → IsMoment lib t
        → Writes snk o cs
            (encode_date_time lib datetime_type t)
            (put o 4 (u32 (days (lib.civil_of t))) ++ put o 4 (u32 (pos (ticks lib t))))
            none
    unfolding encode_date_time write_datetime
    Writes-datetime snk t g =
        Writes-last snk o cs _
          (Writes-bind snk o cs _ (Writes-day snk t g) (
            rw (i32_small (ticks lib t) (omega (arith, g.hour, g.minute, g.second, g.nanosecond)))
              (Writes-write_int32 snk o cs (pos (ticks lib t)))))
          (Writes-take_err snk o cs)

    pub Reads-datetime :
        (src : Source S) (t : T) (size : ℕ)
        → IsMoment lib t
        → Reads src o cs
            (decode_date_time lib datetime_type size)
            (put o 4 (u32 (days (lib.civil_of t))) ++ put o 4 (u32 (pos (ticks lib t))))
            (
              some (
                  moment lib (record (whole_day (days (lib.civil_of t))) {
                    ms = quot (pos (ticks lib t) *ℤ pos 1000) 300;
                  })),
              none,
            )
    unfolding decode_date_time real_type read_fields read_datetime
    Reads-datetime src t size g = Reads-decoded src datetime_type _ (
        Reads-bind src o cs _ (Reads-int32 src o cs (days (lib.civil_of t)) (days-IsInt32 lib t g))
          (Reads-last src o cs _
            (Reads-int32 src o cs (pos (ticks lib t))
              (omega (arith, g.hour, g.minute, g.second, g.nanosecond), omega arith))
            (Reads-pure src o cs _)))

    pub Writes-bigdatetime :
        (snk : Sink S) (t : T) (n : ℕ)
        → IsMoment lib t
        → n < 3700000
        → days (lib.civil_of t) ≡ diff n 693961
        → Writes snk o cs (encode_date_time lib bigdatetime_type t) (put o 8 (stamp lib n t)) none
    unfolding encode_date_time write_bigdatetime
    Writes-bigdatetime snk t n g h e = rw (stamp_lem lib n t g h e) (
        Writes-last snk o cs _ (Writes-write_uint64 snk o cs (stamp lib n t))
          (Writes-take_err snk o cs))

    pub Reads-bigdatetime :
        (src : Source S) (t : T) (n size : ℕ)
        → IsMoment lib t
        → n < 3700000
        → Reads src o cs
            (decode_date_time lib bigdatetime_type size)
            (put o 8 (stamp lib n t))
            (some (moment lib (stamp_read lib n t)), none)
    unfolding decode_date_time real_type read_fields read_bigdatetime
    Reads-bigdatetime src t n size g h = Reads-decoded src bigdatetime_type (stamp_read lib n t) (
        Reads-last src o cs _ (Reads-uint64 src o cs (stamp lib n t) (stamp-lt lib n t g h))
          (Reads-pure src o cs _))
