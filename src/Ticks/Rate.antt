-- ===== src/Ticks/Rate.antt =====
-- `get_tsc_rate_per_second` and the constants from it, for a counter of a constant rate.
use latency_under_load.Prelude.{
  ℕ, ◌+◌, ◌*◌, ◌/◌, ◌^◌, ◌<◌, ◌≡◌, ap, ◌∙◌, arith, ok, ◌≤◌, ◌==◌, false,
}
use native.Mathlib.Nat.{mul-div_cancel}
use latency_under_load.Prelude.Int.{
  ℤ, pos, negsuc, pos_part, neg_part, ◌-ℤ◌, ◌+ℤ◌, ◌*ℤ◌, ◌/ℤ◌, ◌≤ℤ◌, ◌<ℤ◌, int_ring, pos_laws,
  pos-*ℤ,
}
use latency_under_load.Clock.{Timespec, ts_sub, ts_to_usec, ts_to_nsec}
use latency_under_load.Clock.Normal.{IsNormal, ts_sub_lem}
use latency_under_load.Ticks.{
  Measurement, get_tsc_rate_per_second, calibrate, usec_in_sec, nsec2ticks_rdtsc, int64_max, uint64,
}
use latency_under_load.Ticks.Conversion.{int64_small, nsec2ticks_exact}

-- A time of whole microseconds.
ts_to_usec_lem :
    (t : Timespec) (u : ℕ) → IsNormal t → ts_to_nsec t ≡ pos (u * 1000) → ts_to_usec t ≡ pos u
unfolding ts_to_nsec ts_to_usec
ts_to_usec_lem t u normal e = go t.tv_sec t.tv_nsec normal e
  where
    go :
        (sec nsec : ℤ)
        → (pos 0 ≤ℤ nsec) × (nsec <ℤ pos 1_000_000_000)
        → sec *ℤ pos 1_000_000_000 +ℤ nsec ≡ pos (u * 1000)
        → sec *ℤ pos 1_000_000 +ℤ nsec /ℤ 1000 ≡ pos u
    go (pos s) (pos n) few e =
        (let whole : s * 1_000_000_000 + n ≡ u * 1000 = ap pos_part (simp pos_laws at e) in
          simp pos_laws (ap pos (omega (arith, whole))))
    go (negsuc s) (pos n) few e = absurd (omega (int_ring, ap pos_part e, ap neg_part e))
    go sec (negsuc n) few e = absurd (omega arith)

-- Whole microseconds, with the constants of a rate of `r` ticks per microsecond.
whole_ticks :
    (r : ℕ) (base : ℤ) (k : ℕ)
    → r * 1_000_000_000 ≤ int64_max
    → k * r ≤ int64_max
    → nsec2ticks_rdtsc (calibrate (r * usec_in_sec) base) (pos (k * 1000)) ≡ pos (k * r)
whole_ticks r base k fits result =
    let per : (r * 1_000_000 + 500) / 1000 ≡ r * 1000 = omega arith in
    let product : k * 1000 * (r * 1000) ≡ k * r * 1_000_000 = grind arith in
    let quotient : k * 1000 * ((r * 1_000_000 + 500) / 1000) / 1_000_000 ≡ k * r =
      ap (λ d. k * 1000 * d / 1_000_000) per
      ∙ ap (λ x. x / 1_000_000) product
      ∙ mul-div_cancel (k * r) (omega arith) in
    nsec2ticks_exact (r * usec_in_sec) base (omega (arith, per, fits)) (k * 1000)
      (omega (arith, quotient))
    ∙ ap pos quotient

uint64_small : (n : ℕ) → n < 2 ^ 64 → uint64 (pos n) ≡ n
unfolding uint64
uint64_small n few = omega arith

-- A time stamp counter with `r` ticks per microsecond, measured round a sleep of `u` microseconds by
-- a clock whose nanoseconds are between 0 and a second, where `u` is not 0 and the nanoseconds of
-- the sleep and the ticks, multiplied by 1000000, fit an `int64_t`: the measured rate is exact, and with the constants from it a number of
-- whole microseconds is converted to `r` times as many ticks, where these fit an `int64_t`, and so do
-- `r` seconds in nanoseconds.
pub get_tsc_rate_per_second_lem :
    (m : Measurement) (r u : ℕ) (base : ℤ)
    → IsNormal m.ts_before
    → IsNormal m.ts_after
    → ts_to_nsec m.ts_after -ℤ ts_to_nsec m.ts_before ≡ pos (u * 1000)
    → m.tsc_after -ℤ m.tsc_before ≡ pos (r * u)
    → 0 < u
    → u * 1000 ≤ int64_max
    → r * u * usec_in_sec ≤ int64_max
    → (get_tsc_rate_per_second (pos 0) m ≡ ok (pos (r * usec_in_sec)))
      × ((k : ℕ)
          → r * 1_000_000_000 ≤ int64_max
          → k * r ≤ int64_max
          → nsec2ticks_rdtsc (calibrate (r * usec_in_sec) base) (pos (k * 1000)) ≡ pos (k * r))
unfolding get_tsc_rate_per_second
get_tsc_rate_per_second_lem m r u base before after slept counted some_time short fits =
    let (elapsed, normal) = ts_sub_lem m.ts_after m.ts_before after before in
    let usec : ts_to_usec (ts_sub m.ts_after m.ts_before) ≡ pos u =
      ts_to_usec_lem (ts_sub m.ts_after m.ts_before) u normal (elapsed ∙ slept) in
    let nonzero : (u == 0) ≡ false = ground arith in
    let one_rate : r ≤ r * u = grind arith in
    let fast : r * 1_000_000 ≤ r * u * 1_000_000 = omega (arith, one_rate) in
    let few : u ≤ int64_max = omega arith in
    let swapped : r * u * 1_000_000 ≡ r * 1_000_000 * u = grind arith in
    let quotient : r * u * 1_000_000 / u ≡ r * 1_000_000 =
      ap (λ x. x / u) swapped ∙ mul-div_cancel (r * 1_000_000) some_time in
    (
      rw
          (
            usec,
            counted,
            uint64_small u (omega arith),
            int64_small (r * u) (omega arith),
            pos-*ℤ (r * u) usec_in_sec,
            int64_small (r * u * usec_in_sec) fits,
            uint64_small (r * u * usec_in_sec) (omega arith),
            nonzero,
            quotient,
          )
          (ap ok (int64_small (r * 1_000_000) (omega arith))),
      λ k. whole_ticks r base k,
    )
