-- ===== src/Ticks/Conversion.antt =====
-- The conversions between ticks and nanoseconds: the two ways of computing them agree, and what a
-- conversion there and back loses.
use native.Mathlib.Nat.{
  le_refl, mod-lt, mul-add-div, div-add-mod, div-mul-le_self, lt-div-mul-add, mul-le-mul_left,
  mul-le-mul_right, le_of_mul-le-mul_right, lt_of_mul-lt-mul_right,
}
use latency_under_load.Prelude.{
  ℕ, ◌+◌, ◌*◌, ◌/◌, ◌%◌, ◌≤◌, ◌<◌, ◌≡◌, sym, ap, ◌∙◌, inl, inr, arith, Bool-cases, ltb, ltb→lt,
  ltb→le, true, refl, false, ok, ◌^◌, ◌==◌,
}
use latency_under_load.Prelude.Int.{
  ℤ, pos, ltb_ℤ, ◌+ℤ◌, ◌*ℤ◌, ◌/ℤ◌, ◌%ℤ◌, pos-+ℤ, pos-*ℤ, pos-/ℤ, pos-%ℤ,
}
use latency_under_load.Ticks.{
  Calibration, calibrate, int64, uint64, int64_max, nsec_in_msec, nsec2ticks_small_numbers,
  ticks2nsec_small_numbers, nsec2ticks_rdtsc, ticks2nsec_rdtsc,
}

-- Multiplying whole parts and the rest apart loses nothing.
split_convert : (n k d : ℕ) → 0 < d → n / d * k + n % d * k / d ≡ n * k / d
split_convert n k d h =
    sym (mul-add-div h (n / d * k) (n % d * k))
    ∙ ap (λ t. t / d) (omega (arith, ap (λ (t : ℕ). t * k) (div-add-mod n d)))

pub int64_small : (n : ℕ) → n ≤ int64_max → int64 (pos n) ≡ pos n
unfolding int64 uint64
int64_small n few =
    let same : n % 2 ^ 64 ≡ n = omega arith in
    let small : ltb n (2 ^ 63) ≡ true = ground arith in rw (same, small) refl

-- The direct product and quotient of an integer whose product fits.
direct : (n k d : ℕ) → n * k ≤ int64_max → int64 (pos n *ℤ pos k) /ℤ d ≡ pos (n * k / d)
direct n k d fits = rw (pos-*ℤ n k, int64_small (n * k) fits) (pos-/ℤ (n * k) d)

product_fits : (n k t : ℕ) → n < int64_max / t → k ≤ t → n * k ≤ int64_max
product_fits n k t h le = omega (
  arith,
  div-mul-le_self int64_max t,
  mul-le-mul_right {m = n} {n = int64_max / t} t (omega arith),
  mul-le-mul_left n le,
)

-- The rest of a division, multiplied, fits where the product of the factors does.
rest_fits : (n k d : ℕ) → 0 < d → d * k ≤ int64_max → n % d * k ≤ int64_max
rest_fits n k d some_d fits =
    omega (arith, mul-le-mul_right {m = n % d} {n = d} k (omega (arith, mod-lt n some_d)))

-- An integer taken apart by `d`, both parts multiplied by `k`: where the result and the product of
-- `d` and `k` fit, so does all that is computed.
apart :
    (n k d : ℕ)
    → 0 < d
    → d * k ≤ int64_max
    → n * k / d ≤ int64_max
    → int64 (int64 (pos n /ℤ d *ℤ pos k) +ℤ int64 (pos n %ℤ d *ℤ pos k) /ℤ d) ≡ pos (n * k / d)
apart n k d some_d fits result =
    let whole : n / d * k + n % d * k / d ≡ n * k / d = split_convert n k d some_d in
    rw
      (
        pos-/ℤ n d,
        pos-%ℤ n d,
        direct (n % d) k d (rest_fits n k d some_d fits),
        pos-*ℤ (n / d) k,
        int64_small (n / d * k) (omega (arith, whole)),
        pos-+ℤ (n / d * k) (n % d * k / d),
        whole,
      )
      (int64_small (n * k / d) result)

module _ (ticks_per_sec : ℕ) (base : ℤ) where
  abbrev computed : Calibration
  computed = calibrate ticks_per_sec base

  abbrev per_msec : ℕ
  per_msec = (ticks_per_sec + 500) / 1000

  -- Below `MAX_MSEC_CONVERT` both direct products fit.
  below_fits :
      (n : ℕ)
      → n < computed.max_msec_convert
      → (n * per_msec ≤ int64_max) × (n * nsec_in_msec ≤ int64_max)
  unfolding calibrate
  below_fits n h = elim (Bool-cases (ltb nsec_in_msec per_msec)) [
    | inl e ↦
        let h' = rw e at h in
        (
          product_fits n per_msec per_msec h' (le_refl per_msec),
          product_fits n nsec_in_msec per_msec h' (omega (arith, ltb→lt _ _ e)),
        )
    | inr e ↦
        let h' = rw e at h in
        (
          product_fits n per_msec nsec_in_msec h' (ltb→le _ _ e),
          product_fits n nsec_in_msec nsec_in_msec h' (le_refl nsec_in_msec),
        )
  ]

  module _ (fits : per_msec * nsec_in_msec ≤ int64_max) where
    -- The conversion of nanoseconds to ticks, with the constants for a rate whose product with 1000000
    -- fits: wherever the result fits an `int64_t`, it is the exact quotient, rounded down, and no
    -- product overflows.
    pub nsec2ticks_exact :
        (n : ℕ)
        → n * per_msec / nsec_in_msec ≤ int64_max
        → nsec2ticks_rdtsc computed (pos n) ≡ pos (n * per_msec / nsec_in_msec)
    unfolding nsec2ticks_rdtsc nsec2ticks_small_numbers calibrate
    nsec2ticks_exact n result = elim (Bool-cases (ltb_ℤ (pos n) (pos computed.max_msec_convert))) [
      | inl e ↦ rw e (direct n per_msec nsec_in_msec (below_fits n (omega (arith, ltb→lt _ _ e))).0)
      | inr e ↦ rw e (apart n per_msec nsec_in_msec (omega arith) (omega (arith, fits)) result)
    ]

    -- The conversion of ticks to nanoseconds, with the constants for a rate of at least a tick per
    -- millisecond.
    pub ticks2nsec_exact :
        (n : ℕ)
        → 0 < per_msec
        → n * nsec_in_msec / per_msec ≤ int64_max
        → ticks2nsec_rdtsc computed (pos n) ≡ ok (pos (n * nsec_in_msec / per_msec))
    unfolding ticks2nsec_rdtsc ticks2nsec_small_numbers calibrate
    ticks2nsec_exact n some_ticks result =
        let nonzero : (per_msec == 0) ≡ false = ground arith in
        elim (Bool-cases (ltb_ℤ (pos n) (pos computed.max_msec_convert))) [
          | inl e ↦
              rw (e, nonzero)
                (ap ok
                  (direct n nsec_in_msec per_msec (below_fits n (omega (arith, ltb→lt _ _ e))).1))
          | inr e ↦ rw (e, nonzero) (ap ok (apart n nsec_in_msec per_msec some_ticks fits result))
        ]

    -- The nanoseconds that come back from a conversion to ticks.
    abbrev back : ℕ → ℕ
    back n = n * per_msec / nsec_in_msec * nsec_in_msec / per_msec

    -- What is lost on the way there and back, in units of a nanosecond times a tick per millisecond.
    back_bounds :
        (n : ℕ)
        → 0 < per_msec
        → (back n ≤ n) × (n * per_msec < back n * per_msec + per_msec + nsec_in_msec)
    back_bounds n h =
        let a = n * per_msec / nsec_in_msec in
        let low = div-mul-le_self (a * nsec_in_msec) per_msec in
        let high = lt-div-mul-add {a = a * nsec_in_msec} {b = per_msec} h in
        let whole : a * nsec_in_msec ≤ n * per_msec = omega arith in
        let rest : n * per_msec < a * nsec_in_msec + nsec_in_msec = omega arith in
        (le_of_mul-le-mul_right {k = per_msec} (omega arith) h, omega arith)

    -- With the constants for a rate of 1 GHz or faster, whose product with 1000 fits, a number of
    -- nanoseconds that is not negative and whose ticks fit an `int64_t` comes back from its
    -- conversion to ticks the same or smaller by one, and nothing overflows on the way.
    pub conversion_loss :
        (n : ℕ)
        → n ≤ int64_max
        → nsec_in_msec ≤ per_msec
        → n * per_msec / nsec_in_msec ≤ int64_max
        → (m : ℕ) × (ticks2nsec_rdtsc computed (nsec2ticks_rdtsc computed (pos n)) ≡ ok (pos m))
          × (m ≤ n)
          × (n ≤ m + 1)
    conversion_loss n small fast result =
        let some_ticks : 0 < per_msec = omega arith in
        let (low, high) = back_bounds n some_ticks in
        let near : n < back n + 2 = lt_of_mul-lt-mul_right per_msec (omega arith) in
        (
          back n,
          ap (ticks2nsec_rdtsc computed) (nsec2ticks_exact n result)
              ∙ ticks2nsec_exact (n * per_msec / nsec_in_msec) some_ticks (omega arith),
          low,
          omega arith,
        )
