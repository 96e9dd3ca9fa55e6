-- ===== src/Types/Dates.antt =====
-- decodeDateTime and encodeDateTime of types.go. Package time is a parameter.
pub mod Moments
pub mod Wire
pub mod Trips
use tds.Base.{
  ℕ, ◌+◌, ◌-◌, ◌*◌, ◌/◌, ◌%◌, ◌^◌, ◌≡◌, refl, ◌⊎◌, inl, inr, Bool, Option, none, some, [], ◌++◌,
  ◌==◌, ◌||◌, Bytes, if◌then◌else◌, arith,
}
use tds.Base.Int.{ℤ, pos, negsuc, pos_part, neg_part, u16, u32, u64, i16, i32}
use tds.Base.Arith.{◌+ℤ◌, ◌-ℤ◌, ◌*ℤ◌, quot}
use tds.Golang.Errors.{Error, invalid_date_length, unexpected_data_type}
use tds.Golang.Io.{ReadWriter}
use tds.Encoder.Ops.{
  M, ◌>>=◌, ◌>>◌, pure, take_err, write_int16, write_int32, write_uint64, int16, int32, uint64,
}
use tds.Types.DataTypes.{
  datetime_n_type, smalldatetime_type, datetime_type, date_type, date_n_type, time_type,
  time_n_type, bigtime_type, bigtime_n_type, bigdatetime_type, bigdatetime_n_type,
}
use tds.Types.Julian.{Civil, civil, days}

-- What the two functions use of package time: a `time.Date` at midnight in the local zone, `Add` of
-- nanoseconds, and the methods that give the date and the time of day.
pub record TimeLib (T : Type 0) : Type 0 where
  pub midnight : Civil → T
  pub add : T → ℤ → T
  pub civil_of : T → Civil
  pub hour : T → ℕ
  pub minute : T → ℕ
  pub second : T → ℕ
  pub nanosecond : T → ℕ

-- The variables of decodeDateTime that the bytes give.
pub record Read : Type 0 where
  pub julian_day : ℤ
  pub min : ℤ
  pub ms : ℤ
  pub ns : ℤ
  pub s : ℤ

-- The type that decides what is read: a nullable datetime is told by its length.
unfoldable pub real_type : ℕ → ℕ → ℕ ⊎ Error
real_type t size =
    if t == datetime_n_type
    then if size == 4
      then inl smalldatetime_type
      else if size == 8
      then inl datetime_type
      else inr (invalid_date_length size t)
    else inl t

abbrev pub whole_day : ℤ → Read
whole_day j = record { julian_day = j; min = pos 0; ms = pos 0; ns = pos 0; s = pos 0 }

module _ {S : Type 0} ⦃w : ReadWriter S⦄ where
  unfoldable pub read_datetime : M S (Option Read)
  unfolding ◌*ℤ◌ quot
  read_datetime = do
    j ← int32
    ticks ← int32
    pure (some (record (whole_day j) { ms = quot (ticks *ℤ pos 1000) 300 }))

  unfoldable pub read_date : M S (Option Read)
  read_date = do j ← int32; pure (some (whole_day j))

  unfoldable pub read_time : M S (Option Read)
  unfolding ◌*ℤ◌ quot
  read_time = do
    ticks ← int32
    pure (some (record (whole_day (pos 0)) { ms = quot (ticks *ℤ pos 1000) 300 }))

  unfoldable pub read_smalldatetime : M S (Option Read)
  read_smalldatetime = do
    j ← int16
    m ← int16
    pure (some (record (whole_day (pos (u16 j))) { min = m }))

  unfoldable pub read_bigtime : M S (Option Read)
  read_bigtime = do
    n ← uint64
    pure (
        some (record (whole_day (pos 0)) {
          ns = pos (n % 1000000 * 1000);
          s = pos (n / 1000000 % 86400);
        }))

  unfoldable pub read_bigdatetime : M S (Option Read)
  unfolding ◌-ℤ◌
  read_bigdatetime = do
    n ← uint64
    pure (
        some (record (whole_day (pos (n / 1000000 / 86400) -ℤ pos 693961)) {
          ns = pos (n % 1000000 * 1000);
          s = pos (n / 1000000 % 86400);
        }))

  unfoldable pub read_fields : ℕ → M S (Option Read)
  unfolding read_datetime read_date read_time read_smalldatetime read_bigtime read_bigdatetime
  read_fields t =
      if t == datetime_type
      then read_datetime
      else if t == date_type || t == date_n_type
      then read_date
      else if t == time_type
      then read_time
      else if t == smalldatetime_type
      then read_smalldatetime
      else if t == bigtime_type || t == bigtime_n_type
      then read_bigtime
      else if t == bigdatetime_type || t == bigdatetime_n_type
      then read_bigdatetime
      else pure none

abbrev is_zero : ℤ → Bool
is_zero z = pos_part z + neg_part z == 0

module _ {T : Type 0} (lib : TimeLib T) where
  -- Midnight of the day, which is 1900-01-01 without a conversion if its number is 0.
  unfoldable pub at_day : ℤ → T
  at_day j =
      if is_zero j
      then lib.midnight (record { year = pos 1900; month = pos 1; day = pos 1 })
      else lib.midnight (civil j)

  -- `if x != 0 { t = t.Add(…) }`
  unfoldable pub add_some : ℤ → ℕ → T → T
  unfolding ◌*ℤ◌
  add_some x unit t = if is_zero x then t else lib.add t (x *ℤ pos unit)

  unfoldable pub moment : Read → T
  unfolding at_day add_some
  moment r =
      add_some r.s 1000000000
        (add_some r.ns 1 (add_some r.ms 1000000 (add_some r.min 60000000000 (at_day r.julian_day))))

  -- The time of day in 300ths of a second, as encodeDateTime counts them.
  abbrev pub ticks : T → ℕ
  ticks t =
      lib.hour t * 1080000 + lib.minute t * 18000 + lib.second t * 300 + lib.nanosecond t / 1000000

  abbrev pub seconds : T → ℕ
  seconds t = lib.hour t * 3600 + lib.minute t * 60 + lib.second t

  module _ {S : Type 0} ⦃w : ReadWriter S⦄ where
    -- The end of decodeDateTime, with what was read as the real type.
    unfoldable pub decoded : ℕ → Option Read → M S (Option T × Option Error)
    unfolding moment
    decoded real none = pure (none, some (unexpected_data_type real))
    decoded real (some f) = do err ← take_err; pure (some (moment f), err)

    -- `decodeDateTime` with the column's data type and the size of the value.
    unfoldable pub decode_date_time : ℕ → ℕ → M S (Option T × Option Error)
    unfolding real_type read_fields decoded
    decode_date_time t size = elim (real_type t size) [
      | inr e ↦ pure (none, some e)
      | inl real ↦ do r ← read_fields real; decoded real r
    ]

    -- The cases of encodeDateTime; `day` is the number of days of the date.
    unfoldable pub write_datetime : ℤ → ℕ → M S (Unit {0})
    write_datetime day n = do write_int32 (i32 (u32 day)); write_int32 (i32 n)

    unfoldable pub write_smalldatetime : ℤ → T → M S (Unit {0})
    write_smalldatetime day t = do
      write_int16 (i16 (u16 day))
      write_int16 (i16 (lib.hour t * 60 + lib.minute t))

    unfoldable pub write_bigtime : T → M S (Unit {0})
    write_bigtime t = write_uint64 ((seconds t * 1000000 + lib.nanosecond t / 1000) % 2 ^ 64)

    unfoldable pub write_bigdatetime : ℤ → T → M S (Unit {0})
    unfolding ◌+ℤ◌
    write_bigdatetime day t = write_uint64 (
        (u64 (day +ℤ pos 693961) * 86400 * 1000000 + seconds t * 1000000 + lib.nanosecond t / 1000)
        % 2 ^ 64)

    -- `encodeDateTime` of a time.
    unfoldable pub encode_date_time : ℕ → T → M S (Option Error)
    unfolding days write_datetime write_smalldatetime write_bigtime write_bigdatetime
    encode_date_time k t =
        let day = days (lib.civil_of t) in
        if k == datetime_type || k == datetime_n_type
        then write_datetime day (ticks t) >> take_err
        else if k == date_type || k == date_n_type
        then write_int32 (i32 (u32 day)) >> take_err
        else if k == time_type || k == time_n_type
        then write_int32 (i32 (ticks t)) >> take_err
        else if k == smalldatetime_type
        then write_smalldatetime day t >> take_err
        else if k == bigtime_type || k == bigtime_n_type
        then write_bigtime t >> take_err
        else if k == bigdatetime_type || k == bigdatetime_n_type
        then write_bigdatetime day t >> take_err
        else pure (some (unexpected_data_type k))
