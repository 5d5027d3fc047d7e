-- ===== src/Ticks.antt =====
-- Ticks.h and Ticks.cpp: points in time and durations in ticks, and their conversions from and to
-- nanoseconds, by the time stamp counter or by the clock.
pub mod Conversion
pub mod Duration
pub mod Split
pub mod Sorted
pub mod Rules
pub mod Assign
pub mod Reading
pub mod Rate
pub mod Floating
pub mod Deviation
use latency_under_load.Prelude.{
  ℕ, ◌+◌, ◌/◌, ◌-◌, ◌^◌, ◌%◌, Bool, true, false, ltb, ◌==◌, if◌then◌else◌, Result, ok, err, faults,
  ◌>>=◌, ◌<◌, ◌≡◌, refl, arith, Bool-cases, inl, inr,
}
use latency_under_load.Prelude.Int.{ℤ, pos, negsuc, ◌+ℤ◌, ◌-ℤ◌, ◌*ℤ◌, ◌/ℤ◌, ◌%ℤ◌, ltb_ℤ, eqb_ℤ}
use latency_under_load.Clock.{Timespec, ts_sub, ts_to_usec}

abbrev pub nsec_in_sec : ℕ
nsec_in_sec = 1_000_000_000

abbrev pub usec_in_sec : ℕ
usec_in_sec = 1_000_000

abbrev pub nsec_in_msec : ℕ
nsec_in_msec = 1_000_000

abbrev pub int64_max : ℕ
int64_max = 2 ^ 63 - 1

-- What `get_tsc_rate_per_second` measures round its sleep.
pub record Measurement : Type 0 where
  pub ts_before : Timespec
  pub ts_after : Timespec
  pub tsc_before : ℤ
  pub tsc_after : ℤ

-- A conversion to `uint64_t`, and to `int64_t`; an `int64_t` operation that overflows wraps round.
unfoldable pub uint64 : ℤ → ℕ
uint64 (pos n) = n % 2 ^ 64
uint64 (negsuc n) = 2 ^ 64 - 1 - n % 2 ^ 64

unfoldable pub int64 : ℤ → ℤ
int64 a = let v = uint64 a in if ltb v (2 ^ 63) then pos v else negsuc (2 ^ 64 - 1 - v)

-- The rate, kept in a static variable once it is not 0; `delta_usec` is unsigned, and so is the
-- quotient, of a product that is signed. A division by 0 stops the program.
unfoldable pub get_tsc_rate_per_second : ℤ → Measurement → Result ℤ
get_tsc_rate_per_second tsc_per_second m =
    let tsc_delta = int64 (m.tsc_after -ℤ m.tsc_before) in
    let delta_usec = uint64 (ts_to_usec (ts_sub m.ts_after m.ts_before)) in
    let product = int64 (tsc_delta *ℤ pos usec_in_sec) in
    if eqb_ℤ tsc_per_second (pos 0)
    then (if delta_usec == 0 then err faults else ok (int64 (pos (uint64 product / delta_usec))))
    else ok tsc_per_second

-- The static constants of `TicksImplRdtsc`.
pub record Calibration : Type 0 where
  pub ticks_per_msec : ℕ
  pub max_msec_convert : ℕ
  pub base_ticks : ℤ

-- For a rate that is not negative.
unfoldable pub calibrate : ℕ → ℤ → Calibration
calibrate ticks_per_sec base =
    let per_msec = (ticks_per_sec + 500) / 1000 in
    record {
      ticks_per_msec = per_msec;
      max_msec_convert =
          if ltb nsec_in_msec per_msec then int64_max / per_msec else int64_max / nsec_in_msec;
      base_ticks = base;
    }

-- `TicksBase::Mode`.
pub data Mode : Type 0 where
  rdtsc clock : Mode

-- `TicksBase::init`, with the mode and the flag `isInited` before the call and after it.
unfoldable pub init : Mode → Mode → Bool → Bool × Mode × Bool
init mode ms_mode is_inited =
    if is_inited then (false, ms_mode, is_inited) else (true, mode, is_inited)

module _ (c : Calibration) where
  -- The conversions of `TicksImplRdtsc`; those of ticks divide by `TICKS_PER_MSEC`.
  unfoldable pub nsec2ticks_small_numbers : ℤ → ℤ
  nsec2ticks_small_numbers val = int64 (val *ℤ pos c.ticks_per_msec) /ℤ nsec_in_msec

  unfoldable pub ticks2nsec_small_numbers : ℤ → Result ℤ
  ticks2nsec_small_numbers val =
      if c.ticks_per_msec == 0
      then err faults
      else ok (int64 (val *ℤ pos nsec_in_msec) /ℤ c.ticks_per_msec)

  unfoldable pub nsec2ticks_rdtsc : ℤ → ℤ
  nsec2ticks_rdtsc val =
      if ltb_ℤ val (pos c.max_msec_convert)
      then nsec2ticks_small_numbers val
      else int64 (
          int64 (val /ℤ nsec_in_msec *ℤ pos c.ticks_per_msec)
          +ℤ nsec2ticks_small_numbers (val %ℤ nsec_in_msec))

  unfoldable pub ticks2nsec_rdtsc : ℤ → Result ℤ
  ticks2nsec_rdtsc val =
      if ltb_ℤ val (pos c.max_msec_convert)
      then ticks2nsec_small_numbers val
      else if c.ticks_per_msec == 0
      then err faults
      else (do
        rest ← ticks2nsec_small_numbers (val %ℤ c.ticks_per_msec)
        ok (int64 (int64 (val /ℤ c.ticks_per_msec *ℤ pos nsec_in_msec) +ℤ rest)))

  -- `TicksBase::nsec2ticks` and `TicksBase::ticks2nsec`.
  unfoldable pub nsec2ticks : Mode → ℤ → ℤ
  nsec2ticks rdtsc val = nsec2ticks_rdtsc val
  nsec2ticks clock val = val

  unfoldable pub ticks2nsec : Mode → ℤ → Result ℤ
  ticks2nsec rdtsc val = ticks2nsec_rdtsc val
  ticks2nsec clock val = ok val

-- A conversion of ticks divides by no 0.
abbrev pub IsCounting : Calibration → Mode → Type 0
IsCounting c rdtsc = 0 < c.ticks_per_msec
IsCounting c clock = Unit

pub ticks2nsec_lem :
    (c : Calibration) (mode : Mode) (val : ℤ)
    → IsCounting c mode
    → (nsec : ℤ) × (ticks2nsec c mode val ≡ ok nsec)
unfolding ticks2nsec ticks2nsec_rdtsc ticks2nsec_small_numbers
ticks2nsec_lem c rdtsc val some_ticks =
    let nonzero : (c.ticks_per_msec == 0) ≡ false = ground arith in
    elim (Bool-cases (ltb_ℤ val (pos c.max_msec_convert))) [
      | inl e ↦ rw (e, nonzero) (_, refl)
      | inr e ↦ rw (e, nonzero) (_, refl)
    ]
ticks2nsec_lem c clock val counting = (val, refl)
