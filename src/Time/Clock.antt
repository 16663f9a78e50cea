-- ===== src/Time/Clock.antt =====
-- The clock of infra/time.cpp: sums of times, and the next minute.
use btrader.Prelude.{ℕ, ◌+◌, ◌*◌, ◌/◌, ◌<◌, ◌≡◌, ap, ◌∙◌, arith}
use btrader.Prelude.Int.{ℤ, pos, negsuc, pos_part, neg_part, ◌+ℤ◌, ◌-ℤ◌, ◌*ℤ◌, int_laws}
use btrader.Time.{
  TimeUnit, TimeSpec, TimePoint, nanoseconds_per_second, tdiv, tmod, negate, add, sub, to_nano, now,
  now_in_nano, minute_step, next_minute,
}

-- A number of seconds in nanoseconds, by its parts.
seconds_parts :
    (a : ℤ)
    → pos_part (a *ℤ pos 1000000000) + neg_part a * 1000000000
      ≡ neg_part (a *ℤ pos 1000000000) + pos_part a * 1000000000
unfolding ◌*ℤ◌
seconds_parts a = ground arith

tdiv-tmod :
    (a : ℤ)
    → pos_part (tdiv a 1000000000) * 1000000000 + pos_part (tmod a 1000000000) + neg_part a
      ≡ neg_part (tdiv a 1000000000) * 1000000000 + neg_part (tmod a 1000000000) + pos_part a
unfolding tdiv tmod ◌-ℤ◌
tdiv-tmod (pos n) = omega arith
tdiv-tmod (negsuc n) = ground arith

to_nano-add : (s t : TimeSpec) → to_nano (add s t) ≡ to_nano s +ℤ to_nano t
unfolding to_nano add
to_nano-add s t = omega (
  int_laws,
  seconds_parts s.seconds,
  seconds_parts t.seconds,
  seconds_parts (s.seconds +ℤ t.seconds +ℤ tdiv (s.nanos +ℤ t.nanos) nanoseconds_per_second),
  tdiv-tmod (s.nanos +ℤ t.nanos),
)

to_nano-negate : (t : TimeSpec) → to_nano (negate t) ≡ pos 0 -ℤ to_nano t
unfolding to_nano negate
to_nano-negate t = omega (int_laws, seconds_parts t.seconds, seconds_parts (pos 0 -ℤ t.seconds))

add_negative : (a b : ℤ) → a +ℤ (pos 0 -ℤ b) ≡ a -ℤ b
add_negative a b = omega int_laws

-- The time in nanoseconds is that of the system clock when the process began and the nanoseconds that
-- passed since then on the steady clock, also where these borrow from a second.
pub now_in_nano-elapsed :
    (base : TimePoint) (steady : TimeSpec)
    → now_in_nano base steady
      ≡ to_nano base.system_clock_count +ℤ (to_nano steady -ℤ to_nano base.steady_clock_count)
unfolding now_in_nano now sub
now_in_nano-elapsed base steady =
    let since = base.steady_clock_count in
    to_nano-add base.system_clock_count (add steady (negate since))
    ∙ ap (λ n. to_nano base.system_clock_count +ℤ n)
        (to_nano-add steady (negate since)
          ∙ ap (λ n. to_nano steady +ℤ n) (to_nano-negate since)
          ∙ add_negative (to_nano steady) (to_nano since))

-- From a time that is not negative next_minute goes to the next multiple of its step, which lies after
-- the time: of 60 where times are nanoseconds, of 60000 where they are milliseconds, and of
-- 60000000000 where they are seconds.
pub next_minute-multiple :
    (n : ℕ)
    → ((next_minute TimeUnit.nano (pos n) ≡ pos ((n / 60 + 1) * 60)) × (n < (n / 60 + 1) * 60))
      × ((next_minute TimeUnit.milli (pos n) ≡ pos ((n / 60000 + 1) * 60000))
          × (n < (n / 60000 + 1) * 60000))
      × ((next_minute TimeUnit.sec (pos n) ≡ pos ((n / 60000000000 + 1) * 60000000000))
          × (n < (n / 60000000000 + 1) * 60000000000))
unfolding next_minute minute_step tmod
next_minute-multiple n =
    ((omega int_laws, omega arith), (omega int_laws, omega arith), (omega int_laws, omega arith))
