-- ===== src/Ticks/Floating.antt =====
-- What Ticks.h and Ticks.cpp compute with a `double`: the conversions of `TicksDuration`, and
-- `stdDev`. The `double`s of the last two are a parameter.
use latency_under_load.Prelude.{
  Result, ok, refl, ◌>>=◌, ℕ, ◌-◌, ◌^◌, ◌+◌, ◌*◌, ◌≤◌, ◌<◌, ◌≡◌, List, [], ◌∷◌, length, leb,
  if◌then◌else◌,
}
use latency_under_load.Prelude.Int.{ℤ, pos}
use latency_under_load.Prelude.Doubles.{double_of_int, double_quotient}
use latency_under_load.Ticks.{Calibration, Mode, nsec_in_sec, IsCounting, ticks2nsec_lem}
use latency_under_load.Ticks.Duration.{TicksDuration, duration_of_nsec, to_nsec, ticks0}

-- `toDecimalUsec`, in units of 2 ^ -62 microseconds.
unfoldable pub to_decimal_usec : Calibration → Mode → TicksDuration → Result ℤ
to_decimal_usec c mode t = do
  nsec ← to_nsec c mode t
  ok (double_quotient (double_of_int nsec) 1000)

pub to_decimal_usec_lem :
    (c : Calibration) (mode : Mode) (t : TicksDuration)
    → IsCounting c mode
    → (usec : ℤ) × (to_decimal_usec c mode t ≡ ok usec)
unfolding to_decimal_usec to_nsec
to_decimal_usec_lem c mode t counting =
    let (nsec, e) = ticks2nsec_lem c mode t.ticks counting in
    (double_quotient (double_of_int nsec) 1000, rw e refl)

-- The operations on a `double`; `of_int` and `to_int` are the conversions, and `half` is 0.5.
pub record Double (W : Type 0) : Type 0 where
  pub of_int : ℤ → W
  pub to_int : W → ℤ
  pub half : W
  pub plus : W → W → W
  pub minus : W → W → W
  pub product : W → W → W
  pub quotient : W → W → W
  pub sqrt : W → W

-- The integers up to this are values of a `double`, each.
abbrev pub exact_limit : ℕ
exact_limit = 2 ^ 53

-- IEEE 754: a result that is a value of the type is not rounded. A half is not rounded off below
-- 2 ^ 52, and a conversion to an integer drops it.
pub record IsExact {W : Type 0} (d : Double W) : Type 0 where
  pub plus_exact :
      (a b : ℕ)
      → a + b ≤ exact_limit
      → d.plus (d.of_int (pos a)) (d.of_int (pos b)) ≡ d.of_int (pos (a + b))
  pub minus_exact :
      (a b : ℕ)
      → a + b ≤ exact_limit
      → d.minus (d.of_int (pos (a + b))) (d.of_int (pos b)) ≡ d.of_int (pos a)
  pub product_exact :
      (a b : ℕ)
      → a * b ≤ exact_limit
      → d.product (d.of_int (pos a)) (d.of_int (pos b)) ≡ d.of_int (pos (a * b))
  pub quotient_exact :
      (a b : ℕ)
      → 0 < b
      → a * b ≤ exact_limit
      → d.quotient (d.of_int (pos (a * b))) (d.of_int (pos b)) ≡ d.of_int (pos a)
  pub sqrt_exact :
      (a : ℕ) → a * a ≤ exact_limit → d.sqrt (d.of_int (pos (a * a))) ≡ d.of_int (pos a)
  pub half_dropped : (a : ℕ) → a < 2 ^ 52 → d.to_int (d.plus (d.of_int (pos a)) d.half) ≡ pos a

module _ {W : Type 0} (d : Double W) where
  open d use {of_int, to_int, half, plus, minus, product, quotient, sqrt}

  unfoldable pub set_from_seconds : Calibration → Mode → W → TicksDuration
  set_from_seconds c mode seconds =
      duration_of_nsec c mode (to_int (product seconds (of_int (pos nsec_in_sec))))

  -- The loop of `stdDev`, over the sum and the sum of squares.
  unfoldable pub add_sums : List TicksDuration → W → W → W × W
  add_sums [] sum sum_sqr = (sum, sum_sqr)
  add_sums (t ∷ ts) sum sum_sqr =
      let ticks = of_int t.ticks in
      add_sums ts (plus sum ticks) (plus sum_sqr (product ticks ticks))

  unfoldable pub std_dev : Calibration → Mode → List TicksDuration → TicksDuration
  std_dev c mode durations =
      let n = length durations in
      let size = of_int (pos n) in
      let sums = add_sums durations (of_int (pos 0)) (of_int (pos 0)) in
      let avg = quotient sums.0 size in
      let variance =
        quotient (minus sums.1 (product (product size avg) avg)) (of_int (pos (n - 1))) in
      if leb n 1 then ticks0 c mode else record { ticks = to_int (plus (sqrt variance) half) }
