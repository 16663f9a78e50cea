-- ===== src/Time.antt =====
-- infra/time.h and infra/time.cpp: struct TimeSpec and the functions of class time that count. The
-- readings of the two clocks are arguments. Integers do not overflow in the model.
pub mod Clock
use btrader.Prelude.{ℕ, suc, ◌+◌, ◌-◌, ◌*◌, ◌/◌, ◌%◌, Bool, if◌then◌else◌}
use btrader.Prelude.Int.{ℤ, pos, negsuc, ◌+ℤ◌, ◌-ℤ◌, ◌*ℤ◌, ltb_ℤ}

-- a / k and a % k, which round to 0.
unfoldable pub tdiv : ℤ → ℕ → ℤ
tdiv (pos n) k = pos (n / k)
tdiv (negsuc n) k = pos 0 -ℤ pos (suc n / k)

unfoldable pub tmod : ℤ → ℕ → ℤ
tmod (pos n) k = pos (n % k)
tmod (negsuc n) k = pos 0 -ℤ pos (suc n % k)

pub data TimeUnit : Type 0 where
  nano milli sec : TimeUnit

abbrev pub nanoseconds_per_second : ℕ
nanoseconds_per_second = 1000000000

pub record TimeSpec : Type 0 where
  pub seconds : ℤ
  pub nanos : ℤ

unfoldable pub negate : TimeSpec → TimeSpec
negate t = record { seconds = pos 0 -ℤ t.seconds; nanos = pos 0 -ℤ t.nanos }

unfoldable pub add : TimeSpec → TimeSpec → TimeSpec
add s t =
    let nanos = s.nanos +ℤ t.nanos in
    record {
      seconds = s.seconds +ℤ t.seconds +ℤ tdiv nanos nanoseconds_per_second;
      nanos = tmod nanos nanoseconds_per_second;
    }

unfoldable pub sub : TimeSpec → TimeSpec → TimeSpec
sub s t = add s (negate t)

unfoldable pub to_nano : TimeSpec → ℤ
to_nano t = t.seconds *ℤ pos nanoseconds_per_second +ℤ t.nanos

unfoldable pub to_mili : TimeSpec → ℤ
to_mili t = t.seconds *ℤ pos 1000 +ℤ tdiv t.nanos 1000000

-- The readings when the process began.
pub record TimePoint : Type 0 where
  pub system_clock_count : TimeSpec
  pub steady_clock_count : TimeSpec

-- system_clock_count + duration, at a reading of the steady clock.
unfoldable pub now : TimePoint → TimeSpec → TimeSpec
now base steady = add base.system_clock_count (sub steady base.steady_clock_count)

unfoldable pub now_in_nano : TimePoint → TimeSpec → ℤ
now_in_nano base steady = to_nano (now base steady)

unfoldable pub now_in_mili : TimePoint → TimeSpec → ℤ
now_in_mili base steady = to_mili (now base steady)

unfoldable pub now_in_sec : TimePoint → TimeSpec → ℤ
now_in_sec base steady = (now base steady).seconds

unfoldable pub now_time : TimeUnit → TimePoint → TimeSpec → ℤ
now_time TimeUnit.nano base steady = now_in_nano base steady
now_time TimeUnit.milli base steady = now_in_mili base steady
now_time TimeUnit.sec base steady = now_in_sec base steady

-- The minute that next_minute takes.
unfoldable pub minute_step : TimeUnit → ℕ
minute_step TimeUnit.nano = 60
minute_step TimeUnit.milli = 60000
minute_step TimeUnit.sec = 60000000000

unfoldable pub next_minute : TimeUnit → ℤ → ℤ
next_minute u timestamp = timestamp -ℤ tmod timestamp (minute_step u) +ℤ pos (minute_step u)

unfoldable pub day_length : TimeUnit → ℕ
day_length TimeUnit.nano = 86400000000000
day_length TimeUnit.milli = 86400000
day_length TimeUnit.sec = 86400

-- Eight hours.
unfoldable pub utc_offset : TimeUnit → ℕ
utc_offset TimeUnit.nano = 28800000000000
utc_offset TimeUnit.milli = 28800000
utc_offset TimeUnit.sec = 28800

-- Half past three in the afternoon.
unfoldable pub end_offset : TimeUnit → ℕ
end_offset TimeUnit.nano = 55800000000000
end_offset TimeUnit.milli = 55800000
end_offset TimeUnit.sec = 55800

unfoldable pub calendar_day_start : TimeUnit → ℤ → ℤ
calendar_day_start u timestamp = timestamp -ℤ tmod timestamp (day_length u) -ℤ pos (utc_offset u)

unfoldable pub next_trading_day_end : TimeUnit → TimePoint → TimeSpec → ℤ → ℤ
next_trading_day_end u base steady timestamp =
    let trading_day = calendar_day_start u timestamp +ℤ pos (end_offset u) in
    if ltb_ℤ trading_day (now_time u base steady)
    then trading_day +ℤ pos (day_length u)
    else trading_day
