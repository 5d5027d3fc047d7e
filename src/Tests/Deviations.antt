-- ===== src/Tests/Deviations.antt =====
-- The standard deviation and what is measured at concrete inputs; the numbers of `halves` are
-- counted in halves.
use native.Mathlib.Decide.{dec_lt}
use native.Mathlib.Nat.{mul-div_cancel, mul-le-mul_left, mul-le-mul_right, le_trans}
use latency_under_load.Prelude.{
  ℕ, zero, suc, ◌+◌, ◌-◌, ◌^◌, ◌*◌, ◌/◌, ◌≤◌, ◌<◌, ◌≡◌, refl, ap, ◌∙◌, [], ◌∷◌, arith, ok, leb,
  some, none, true, false, if◌then◌else◌,
}
use latency_under_load.Prelude.Int.{ℤ, pos, negsuc, ◌-ℤ◌, ◌+ℤ◌, ◌*ℤ◌}
use latency_under_load.Clock.{Timespec, ts_to_nsec}
use latency_under_load.Ticks.Reading.{os_gettimeoftsc, nsec_between, time_between}
use latency_under_load.Ticks.{
  int64_max, Calibration, Measurement, clock, rdtsc, calibrate, get_tsc_rate_per_second,
  nsec2ticks_rdtsc,
}
use latency_under_load.Ticks.Rate.{get_tsc_rate_per_second_lem}
use latency_under_load.Ticks.Floating.{Double, IsExact, std_dev}
use latency_under_load.Ticks.Deviation.{durations_of, std_dev-deviation}

abbrev early : Timespec
early = record { tv_sec = pos 3; tv_nsec = pos 900_000_000 }

abbrev ticking : Calibration
ticking = record {
  ticks_per_msec = 2_500_000;
  max_msec_convert = 3_689_348_814_741;
  base_ticks = pos 0;
}

-- The largest root of `n` that is `fuel` at most.
abbrev root : ℕ → ℕ → ℕ
root zero n = 0
root (suc fuel) n = if leb (suc fuel * suc fuel) n then suc fuel else root fuel n

root_lem : (fuel a : ℕ) → a ≤ fuel → root fuel (a * a) ≡ a
root_lem zero a few = omega arith
root_lem (suc fuel) a few = elim (dec_lt a (suc fuel)) [
  | yes small ↦
      let below : a * a ≤ fuel * fuel =
        le_trans (mul-le-mul_left a (omega (arith, small)))
          (mul-le-mul_right fuel (omega (arith, small))) in
      let too_large : leb (suc fuel * suc fuel) (a * a) ≡ false = ground (arith, below) in
      rw too_large (root_lem fuel a (omega (arith, small)))
  | no large ↦
      let same : a ≡ suc fuel = omega (arith, few, large) in
      let fits : leb (suc fuel * suc fuel) (suc fuel * suc fuel) ≡ true = ground arith in
      rw (same, fits) refl
]

half_of : (n : ℕ) → 2 * n / 2 ≡ n
half_of n = omega arith

halves_product : (a b : ℕ) → 2 * a * (2 * b) / 2 ≡ 2 * (a * b)
halves_product a b =
    let double : 2 * a * (2 * b) ≡ 2 * (a * b) * 2 = grind arith in
    ap (λ x. x / 2) double ∙ mul-div_cancel (2 * (a * b)) (omega arith)

halves_quotient : (a b : ℕ) → 0 < b → 2 * (2 * (a * b)) / (2 * b) ≡ 2 * a
halves_quotient a b some_b =
    let double : 2 * (2 * (a * b)) ≡ 2 * a * (2 * b) = grind arith in
    ap (λ x. x / (2 * b)) double ∙ mul-div_cancel (2 * a) (omega arith)

square_large : (a : ℕ) → a ≤ 2 * (a * a)
square_large a = elim (dec_lt 0 a) [
  | yes positive ↦ omega (arith, mul-le-mul_left {m = 1} {n = a} a (omega arith))
  | no empty ↦ omega (arith, empty)
]

abbrev halves_of : ℤ → ℕ
halves_of (pos n) = 2 * n
halves_of (negsuc n) = 0

abbrev halves : Double ℕ
halves = record {
  of_int = halves_of;
  to_int = λ a. pos (a / 2);
  half = 1;
  plus = λ a b. a + b;
  minus = λ a b. a - b;
  product = λ a b. a * b / 2;
  quotient = λ a b. 2 * a / b;
  sqrt = λ a. 2 * root a (a / 2);
}

halves-IsExact : IsExact halves
halves-IsExact = record {
  plus_exact = λ a b few. omega arith;
  minus_exact = λ a b few. omega arith;
  product_exact = λ a b few. halves_product a b;
  quotient_exact = λ a b some_b few. halves_quotient a b some_b;
  sqrt_exact = λ a few.
      ap (λ x. 2 * root (2 * (a * a)) x) (half_of (a * a))
      ∙ ap (λ x. 2 * x) (root_lem (2 * (a * a)) a (square_large a));
  half_dropped = λ a few. ap pos (omega arith);
}

std_dev-deviation_example :
    std_dev halves ticking clock (durations_of (1 ∷ 3 ∷ 5 ∷ [])) ≡ record { ticks = pos 2 }
unfolding ◌+ℤ◌ ◌*ℤ◌ ◌-ℤ◌
std_dev-deviation_example =
    std_dev-deviation halves halves-IsExact ticking clock (1 ∷ 3 ∷ 5 ∷ []) 3 2 (omega arith) refl
      refl (omega arith)

-- A sleep of 10 ms that a counter of 2.5 GHz counts, over the end of a second.
abbrev slept : Measurement
slept = record {
  ts_before = record { tv_sec = pos 7; tv_nsec = pos 995_000_000 };
  ts_after = record { tv_sec = pos 8; tv_nsec = pos 5_000_000 };
  tsc_before = pos 1_000_000;
  tsc_after = pos 26_000_000;
}

get_tsc_rate_per_second_lem_example :
    (get_tsc_rate_per_second (pos 0) slept ≡ ok (pos 2_500_000_000))
    × ((k : ℕ)
        → 2500 * 1_000_000_000 ≤ int64_max
        → k * 2500 ≤ int64_max
        → nsec2ticks_rdtsc (calibrate 2_500_000_000 (pos 0)) (pos (k * 1000)) ≡ pos (k * 2500))
unfolding ◌-ℤ◌ ts_to_nsec ◌+ℤ◌ ◌*ℤ◌
get_tsc_rate_per_second_lem_example =
    get_tsc_rate_per_second_lem slept 2500 10_000 (pos 0) (omega arith) (omega arith) refl refl
      (omega arith) (omega arith) (omega arith)

time_between_example :
    let c = calibrate 2_500_000_000 (pos 77) in
    let after = os_gettimeoftsc 1 (4_294_967_290 + 2_500_000 - 2 ^ 32) in
    (nsec_between c rdtsc (os_gettimeoftsc 0 4_294_967_290) (some early) after none
      ≡ some (ok (pos 1_000_000)))
    × (nsec_between c clock (os_gettimeoftsc 0 4_294_967_290) (some early) after none ≡ none)
time_between_example =
    time_between 2500 4_294_967_290 1000 (pos 77) (some early) none (omega arith) (omega arith)
      (omega arith) (omega arith)
