-- ===== src/Ticks/Duration.antt =====
-- `TicksDuration` and `TicksTime` of Ticks.h: their constructors, operators and conversions. The
-- compound assignments are in `Assign`, what reads the time in `Reading`.
use latency_under_load.Prelude.{
  zero, suc, List, Bool, not, if◌then◌else◌, Result, ok, err, faults, ◌>>=◌,
}
use latency_under_load.Prelude.Int.{
  ℤ, pos, negsuc, ◌+ℤ◌, ◌-ℤ◌, ◌*ℤ◌, ◌/ℤ◌, ◌%ℤ◌, ltb_ℤ, leb_ℤ, eqb_ℤ,
}
use latency_under_load.Clock.{Timespec, Timeval, timespec2nsec, timeval2nsec}
use latency_under_load.Ticks.{
  Calibration, Mode, nsec_in_sec, usec_in_sec, nsec2ticks, ticks2nsec, int64,
}

pub record TicksDuration : Type 0 where
  pub ticks : ℤ

pub record TicksTime : Type 0 where
  pub ticks : ℤ

module _ (c : Calibration) (mode : Mode) where
  -- The constructors of a duration.
  unfoldable pub duration_of_nsec : ℤ → TicksDuration
  duration_of_nsec nsec = record { ticks = nsec2ticks c mode nsec }

  unfoldable pub duration_of_timeval : Timeval → TicksDuration
  duration_of_timeval t = record { ticks = nsec2ticks c mode (timeval2nsec t) }

  unfoldable pub duration_of_timespec : Timespec → TicksDuration
  duration_of_timespec t = record { ticks = nsec2ticks c mode (timespec2nsec t) }

  -- The conversions of a duration.
  unfoldable pub to_nsec : TicksDuration → Result ℤ
  to_nsec d = ticks2nsec c mode d.ticks

  unfoldable pub to_usec : TicksDuration → Result ℤ
  to_usec d = do nsec ← to_nsec d; ok (int64 (nsec +ℤ pos 500) /ℤ 1000)

  unfoldable pub to_timespec : TicksDuration → Result Timespec
  to_timespec d = do
    nsec ← to_nsec d
    ok (record { tv_sec = nsec /ℤ nsec_in_sec; tv_nsec = nsec %ℤ nsec_in_sec })

  unfoldable pub to_timeval : TicksDuration → Result Timeval
  to_timeval d = do
    usec ← to_usec d
    ok (record { tv_sec = usec /ℤ usec_in_sec; tv_usec = usec %ℤ usec_in_sec })

-- The operators of a duration.
unfoldable pub less : TicksDuration → TicksDuration → Bool
less a b = ltb_ℤ a.ticks b.ticks

unfoldable pub greater : TicksDuration → TicksDuration → Bool
greater a b = ltb_ℤ b.ticks a.ticks

unfoldable pub equal : TicksDuration → TicksDuration → Bool
equal a b = eqb_ℤ a.ticks b.ticks

unfoldable pub not_equal : TicksDuration → TicksDuration → Bool
not_equal a b = not (eqb_ℤ a.ticks b.ticks)

unfoldable pub at_most : TicksDuration → TicksDuration → Bool
at_most a b = leb_ℤ a.ticks b.ticks

unfoldable pub at_least : TicksDuration → TicksDuration → Bool
at_least a b = leb_ℤ b.ticks a.ticks

unfoldable pub add : TicksDuration → TicksDuration → TicksDuration
add a b = record { ticks = a.ticks +ℤ b.ticks }

unfoldable pub sub : TicksDuration → TicksDuration → TicksDuration
sub a b = record { ticks = a.ticks -ℤ b.ticks }

unfoldable pub scale : TicksDuration → ℤ → TicksDuration
scale a n = record { ticks = a.ticks *ℤ n }

-- The quotient is rounded towards 0, and there is none by 0.
unfoldable pub divide : TicksDuration → ℤ → Result TicksDuration
divide a (pos zero) = err faults
divide a (pos (suc n)) = ok (record { ticks = a.ticks /ℤ suc n })
divide a (negsuc n) = ok (record { ticks = pos 0 -ℤ a.ticks /ℤ suc n })

-- `compare`, for `qsort`.
unfoldable pub compare_durations : TicksDuration → TicksDuration → ℤ
compare_durations a b = if greater a b then pos 1 else if less a b then negsuc 0 else pos 0

-- `sort`, over an array of the list's elements, with the library's `qsort`.
unfoldable pub sort :
    ((TicksDuration → TicksDuration → ℤ) → List TicksDuration → List TicksDuration)
    → List TicksDuration
    → List TicksDuration
sort qsort durations = qsort compare_durations durations

-- The constants.
module _ (c : Calibration) (mode : Mode) where
  unfoldable pub ticks0 : TicksDuration
  ticks0 = duration_of_nsec c mode (pos 0)

  unfoldable pub ticks1usec : TicksDuration
  ticks1usec = duration_of_nsec c mode (pos 1000)

  unfoldable pub ticks1msec : TicksDuration
  ticks1msec = duration_of_nsec c mode (pos 1_000_000)

  unfoldable pub ticks1sec : TicksDuration
  ticks1sec = duration_of_nsec c mode (pos 1_000_000_000)

  unfoldable pub ticks1min : TicksDuration
  ticks1min = scale ticks1sec (pos 60)

  unfoldable pub ticks1hour : TicksDuration
  ticks1hour = scale ticks1min (pos 60)

  unfoldable pub ticks1day : TicksDuration
  ticks1day = scale ticks1hour (pos 24)

  unfoldable pub ticks1week : TicksDuration
  ticks1week = scale ticks1day (pos 7)

-- The operators of a point in time.
unfoldable pub time_less : TicksTime → TicksTime → Bool
time_less t s = ltb_ℤ t.ticks s.ticks

unfoldable pub time_greater : TicksTime → TicksTime → Bool
time_greater t s = ltb_ℤ s.ticks t.ticks

unfoldable pub time_equal : TicksTime → TicksTime → Bool
time_equal t s = eqb_ℤ t.ticks s.ticks

unfoldable pub time_not_equal : TicksTime → TicksTime → Bool
time_not_equal t s = not (eqb_ℤ t.ticks s.ticks)

unfoldable pub time_at_most : TicksTime → TicksTime → Bool
time_at_most t s = leb_ℤ t.ticks s.ticks

unfoldable pub time_at_least : TicksTime → TicksTime → Bool
time_at_least t s = leb_ℤ s.ticks t.ticks

unfoldable pub time_add : TicksTime → TicksDuration → TicksTime
time_add t d = record { ticks = t.ticks +ℤ d.ticks }

unfoldable pub time_sub : TicksTime → TicksDuration → TicksTime
time_sub t d = record { ticks = t.ticks -ℤ d.ticks }

unfoldable pub time_difference : TicksTime → TicksTime → TicksDuration
time_difference t s = record { ticks = t.ticks -ℤ s.ticks }

unfoldable pub debug_to_nsec : Calibration → Mode → TicksTime → Result ℤ
debug_to_nsec c mode t = ticks2nsec c mode t.ticks
