-- ===== src/Ticks/Reading.antt =====
-- The time stamp counter and the clock as ticks_os.h reads them, `TicksTime::now`, and the time
-- between two readings.
use native.Mathlib.Nat.{mul-div_cancel}
use latency_under_load.Prelude.{
  ℕ, ◌+◌, ◌*◌, ◌/◌, ◌%◌, ◌^◌, ◌<◌, ◌≡◌, refl, ap, ◌∙◌, arith, ok, Result, ◌≤◌, Option, none, some,
}
use latency_under_load.Prelude.Int.{ℤ, pos, ◌-ℤ◌, int_laws, int_ring}
use latency_under_load.Clock.{Timespec, ts_to_nsec, timespec2nsec}
use latency_under_load.Ticks.{
  Calibration, Mode, rdtsc, clock, calibrate, usec_in_sec, ticks2nsec, ticks2nsec_rdtsc, int64,
  int64_max,
}
use latency_under_load.Ticks.Conversion.{int64_small, ticks2nsec_exact}
use latency_under_load.Ticks.Duration.{TicksTime, TicksDuration, to_nsec}

infixl 5 ◌>>=◌
abbrev ◌>>=◌ {ℓ κ} : {A : Type ℓ} {B : Type κ} → Option A → (A → Option B) → Option B
none >>= f = none
some a >>= f = f a

-- `os_gettimeoftsc`, of the two registers that the instruction sets: the shift leaves the lower bits
-- 0.
unfoldable pub os_gettimeoftsc : ℕ → ℕ → ℤ
os_gettimeoftsc upper_32 lower_32 = int64 (pos (upper_32 * 2 ^ 32 + lower_32))

-- `os_gettimeofclock`, of what `clock_gettime` sets if it succeeds; `none` is a throw, here and in
-- all that reads the time.
unfoldable pub os_gettimeofclock : Option Timespec → Option ℤ
os_gettimeofclock none = none
os_gettimeofclock (some ts) = some (timespec2nsec ts)

-- `TicksBase::getCurrentTicks`, of what the time stamp counter and the clock show.
unfoldable pub get_current_ticks : Calibration → Mode → ℤ → Option Timespec → Option ℤ
get_current_ticks c rdtsc tsc reply = some (tsc -ℤ c.base_ticks)
get_current_ticks c clock tsc reply = os_gettimeofclock reply

-- `now` of a point in time.
unfoldable pub now : Calibration → Mode → ℤ → Option Timespec → Option TicksTime
now c mode tsc reply = do
  ticks ← get_current_ticks c mode tsc reply
  some (record { ticks = ticks })

-- `setNow`, of the point in time that it is called on.
unfoldable pub set_now : Calibration → Mode → ℤ → Option Timespec → TicksTime → Option TicksTime
set_now c mode tsc reply t = do
  ticks ← get_current_ticks c mode tsc reply
  some (record t { ticks = ticks })

-- `durationTillNow`.
unfoldable pub duration_till_now :
    Calibration → Mode → ℤ → Option Timespec → TicksTime → Option TicksDuration
duration_till_now c mode tsc reply start = do
  ticks ← get_current_ticks c mode tsc reply
  some (record { ticks = ticks -ℤ start.ticks })

-- `setDurationSince`, of the duration that it is called on.
unfoldable pub set_duration_since :
    Calibration → Mode → ℤ → Option Timespec → TicksTime → TicksDuration → Option TicksDuration
set_duration_since c mode tsc reply start d = do
  ticks ← get_current_ticks c mode tsc reply
  let d' = record d { ticks = ticks }
  some (record d' { ticks = d'.ticks -ℤ start.ticks })

-- The duration between two readings.
abbrev pub between :
    Calibration → Mode → ℤ → Option Timespec → ℤ → Option Timespec → Option TicksDuration
between c mode tsc reply tsc' reply' = do
  start ← now c mode tsc reply
  d ← duration_till_now c mode tsc' reply' start
  some d

-- The nanoseconds between two readings; `err` is a division by 0.
abbrev pub nsec_between :
    Calibration → Mode → ℤ → Option Timespec → ℤ → Option Timespec → Option (Result ℤ)
nsec_between c mode tsc reply tsc' reply' = do
  d ← between c mode tsc reply tsc' reply'
  some (to_nsec c mode d)

abbrev counted : ℕ → ℤ
counted n = os_gettimeoftsc (n / 2 ^ 32) (n % 2 ^ 32)

counted_lem : (n : ℕ) → n ≤ int64_max → counted n ≡ pos n
unfolding os_gettimeoftsc
counted_lem n few =
    let whole : n / 2 ^ 32 * 2 ^ 32 + n % 2 ^ 32 ≡ n = omega arith in rw whole (int64_small n few)

whole_nsec :
    (r k : ℕ) (base : ℤ)
    → 0 < r
    → r * 1_000_000_000 ≤ int64_max
    → k * 1000 ≤ int64_max
    → ticks2nsec_rdtsc (calibrate (r * usec_in_sec) base) (pos (k * r)) ≡ ok (pos (k * 1000))
whole_nsec r k base some_ticks fits result =
    let per : (r * 1_000_000 + 500) / 1000 ≡ r * 1000 = omega arith in
    let product : k * r * 1_000_000 ≡ k * 1000 * (r * 1000) = grind arith in
    let quotient : k * r * 1_000_000 / ((r * 1_000_000 + 500) / 1000) ≡ k * 1000 =
      ap (λ d. k * r * 1_000_000 / d) per
      ∙ ap (λ x. x / (r * 1000)) product
      ∙ mul-div_cancel (k * 1000) (omega arith) in
    ticks2nsec_exact (r * usec_in_sec) base (omega (arith, per, fits)) (k * r) (omega (arith, per))
      (omega (arith, quotient))
    ∙ ap (λ n. ok (pos n)) quotient

difference_lem : (n d : ℕ) (base : ℤ) → (pos (n + d) -ℤ base) -ℤ (pos n -ℤ base) ≡ pos d
difference_lem n d base = grind int_laws

same_nsec : (t : Timespec) → timespec2nsec t ≡ ts_to_nsec t
unfolding timespec2nsec ts_to_nsec
same_nsec t = grind int_ring

by_clock :
    (c : Calibration) (tsc tsc' : ℤ) (reply reply' : Option Timespec)
    → nsec_between c clock tsc reply tsc' reply'
      ≡ (do t ← reply; t' ← reply'; some (ok (ts_to_nsec t' -ℤ ts_to_nsec t)))
unfolding now get_current_ticks duration_till_now to_nsec ticks2nsec os_gettimeofclock
by_clock c tsc tsc' none reply' = refl
by_clock c tsc tsc' (some t) none = refl
by_clock c tsc tsc' (some t) (some t') = rw (same_nsec t, same_nsec t') refl

-- By a counter with `r` ticks per microsecond, where `r` is not 0, that is read at `n` and again `k`
-- microseconds later, before it reaches 2 ^ 63, where `k` microseconds and `r` seconds in nanoseconds
-- fit an `int64_t`: with the constants of that rate, the duration from the first point in time to the
-- second is `k` microseconds, whatever the base is and whether or not the clock fails. By the clock,
-- it is the difference of the two times, and neither reading throws unless its call fails.
pub time_between :
    (r n k : ℕ) (base : ℤ) (reply reply' : Option Timespec)
    → 0 < r
    → n + k * r < 2 ^ 63
    → r * 1_000_000_000 ≤ int64_max
    → k * 1000 ≤ int64_max
    → let c = calibrate (r * usec_in_sec) base in
      let before = os_gettimeoftsc (n / 2 ^ 32) (n % 2 ^ 32) in
      let after = os_gettimeoftsc ((n + k * r) / 2 ^ 32) ((n + k * r) % 2 ^ 32) in
      (nsec_between c rdtsc before reply after reply' ≡ some (ok (pos (k * 1000))))
      × (nsec_between c clock before reply after reply'
          ≡ (do t ← reply; t' ← reply'; some (ok (ts_to_nsec t' -ℤ ts_to_nsec t))))
unfolding now get_current_ticks duration_till_now to_nsec ticks2nsec
time_between r n k base reply reply' some_ticks few fits result = (
  rw
      (
        counted_lem n (omega arith),
        counted_lem (n + k * r) (omega arith),
        difference_lem n (k * r) (calibrate (r * usec_in_sec) base).base_ticks,
      )
      (ap some (whole_nsec r k base some_ticks fits result)),
  by_clock (calibrate (r * usec_in_sec) base) (counted n) (counted (n + k * r)) reply reply',
)
