-- ===== src/Tests/Clocks.antt =====
-- A clock that began at 5.9 seconds, and a time in the middle of a minute.
use btrader.Prelude.{◌+◌, ◌*◌, ◌/◌, ◌<◌, ◌≡◌}
use btrader.Prelude.Int.{pos, ◌+ℤ◌, ◌-ℤ◌}
use btrader.Time.{TimeUnit, TimeSpec, TimePoint, next_minute, to_nano, now_in_nano}
use btrader.Time.Clock.{next_minute-multiple, now_in_nano-elapsed}

-- The steady clock read 1.8 seconds when the process began, and reads 4.1 seconds.
abbrev start : TimePoint
start = record {
  system_clock_count = record { seconds = pos 5; nanos = pos 900000000 };
  steady_clock_count = record { seconds = pos 1; nanos = pos 800000000 };
}

abbrev reading : TimeSpec
reading = record { seconds = pos 4; nanos = pos 100000000 }

now_in_nano-elapsed_example :
    now_in_nano start reading
    ≡ to_nano start.system_clock_count +ℤ (to_nano reading -ℤ to_nano start.steady_clock_count)
now_in_nano-elapsed_example = now_in_nano-elapsed start reading

next_minute-multiple_example :
    ((next_minute TimeUnit.nano (pos 90000) ≡ pos ((90000 / 60 + 1) * 60))
      × (90000 < (90000 / 60 + 1) * 60))
    × ((next_minute TimeUnit.milli (pos 90000) ≡ pos ((90000 / 60000 + 1) * 60000))
        × (90000 < (90000 / 60000 + 1) * 60000))
    × ((next_minute TimeUnit.sec (pos 90000) ≡ pos ((90000 / 60000000000 + 1) * 60000000000))
        × (90000 < (90000 / 60000000000 + 1) * 60000000000))
next_minute-multiple_example = next_minute-multiple 90000
