-- ===== src/Ticks/Deviation.antt =====
-- `stdDev` where all that it computes is exact.
use native.Mathlib.Decide.{dec_lt}
use native.Mathlib.Nat.{mul-le-mul_left, mul-le-mul_right}
use latency_under_load.Prelude.{
  ℕ, suc, ◌+◌, ◌-◌, ◌*◌, ◌^◌, ◌≤◌, ◌<◌, ◌≡◌, refl, sym, ap, ◌∙◌, List, [], ◌∷◌, arith, length, leb,
  false,
}
use latency_under_load.Prelude.Int.{
  ℤ, pos, ◌+ℤ◌, ◌-ℤ◌, ◌*ℤ◌, negsuc, pos_part, neg_part, -ℤ_parts, pos-+ℤ, pos-*ℤ, int_laws,
}
use latency_under_load.Ticks.{Calibration, Mode}
use latency_under_load.Ticks.Duration.{TicksDuration}
use latency_under_load.Ticks.Floating.{Double, IsExact, exact_limit, add_sums, std_dev}

abbrev pub durations_of : List ℕ → List TicksDuration
durations_of [] = []
durations_of (k ∷ ks) = record { ticks = pos k } ∷ durations_of ks

abbrev pub total : List ℕ → ℕ
total [] = 0
total (k ∷ ks) = k + total ks

abbrev pub total_of_squares : List ℕ → ℕ
total_of_squares [] = 0
total_of_squares (k ∷ ks) = k * k + total_of_squares ks

-- The sum of the squares of the deviations from `a`.
abbrev pub deviations : ℕ → List ℕ → ℤ
deviations a [] = pos 0
deviations a (k ∷ ks) = (pos k -ℤ pos a) *ℤ (pos k -ℤ pos a) +ℤ deviations a ks

length-durations_of : (ks : List ℕ) → length (durations_of ks) ≡ length ks
length-durations_of [] = refl
length-durations_of (k ∷ ks) = omega (arith, length-durations_of ks)

total_few : (ks : List ℕ) → total ks ≤ total_of_squares ks
total_few [] = omega arith
total_few (k ∷ ks) = let h = total_few ks in grind arith

square_of_pos : (d : ℕ) → pos d *ℤ pos d ≡ pos (d * d)
square_of_pos d = pos-*ℤ d d

square_of_negsuc : (d : ℕ) → negsuc d *ℤ negsuc d ≡ pos (suc d * suc d)
unfolding ◌*ℤ◌
square_of_negsuc d = ground arith

square_of_difference :
    (k a : ℕ) → (pos k -ℤ pos a) *ℤ (pos k -ℤ pos a) +ℤ pos (2 * a * k) ≡ pos (k * k + a * a)
square_of_difference k a = go (pos k -ℤ pos a) (-ℤ_parts (pos k) (pos a))
  where
    go :
        (x : ℤ)
        → pos_part x + 0 + a ≡ neg_part x + k + 0
        → x *ℤ x +ℤ pos (2 * a * k) ≡ pos (k * k + a * a)
    go (pos d) e =
        let same : k ≡ a + d = omega arith in
        let all : d * d + 2 * a * (a + d) ≡ (a + d) * (a + d) + a * a = grind arith in
        rw (square_of_pos d, pos-+ℤ, same) (ap pos all)
    go (negsuc d) e =
        let same : a ≡ k + suc d = omega arith in
        let all : suc d * suc d + 2 * (k + suc d) * k ≡ k * k + (k + suc d) * (k + suc d) =
          grind arith in
        rw (square_of_negsuc d, pos-+ℤ, same) (ap pos all)

-- The squares of the deviations, by the sum and the sum of squares.
deviations_lem :
    (a : ℕ) (ks : List ℕ)
    → deviations a ks +ℤ pos (2 * a * total ks) ≡ pos (total_of_squares ks + length ks * (a * a))
deviations_lem a [] = grind int_laws
deviations_lem a (k ∷ ks) =
    let h = deviations_lem a ks in
    let q = square_of_difference k a in
    let e : 2 * a * (k + total ks) ≡ 2 * a * k + 2 * a * total ks = grind arith in
    let e' : (1 + length ks) * (a * a) ≡ a * a + length ks * (a * a) = grind arith in grind int_laws

-- The sum of squares, by the mean and the squares of the deviations.
squares_by_mean : (a q t n v : ℕ) → v + 2 * a * t ≡ q + n * (a * a) → t ≡ n * a → q ≡ v + n * a * a
squares_by_mean a q t n v e mean =
    let same : 2 * a * t ≡ n * (a * a) + n * a * a = rw mean (grind arith) in omega arith

deviation_small : (s : ℕ) → s * s ≤ exact_limit → s < 2 ^ 52
deviation_small s few = elim (dec_lt s (2 ^ 52)) [
  | yes small ↦ small
  | no large ↦
      let big : 2 ^ 52 ≤ s = omega (arith, large) in
      absurd (omega (arith, mul-le-mul_right {m = 2 ^ 52} {n = s} s big))
]

le-mul_self : (x k : ℕ) → 1 ≤ k → x ≤ x * k
le-mul_self x k h = omega (arith, mul-le-mul_left {m = 1} {n = k} x h)

module _ {W : Type 0} (d : Double W) (exact : IsExact d) where
  open d use {of_int}

  abbrev exact_pair : ℕ → ℕ → W × W
  exact_pair a b = (of_int (pos a), of_int (pos b))

  same_pair : (a b x y : ℕ) → a ≡ b → x ≡ y → exact_pair a x ≡ exact_pair b y
  same_pair a b x y e e' = rw (e, e') refl

  -- The sums are exact as long as that of the squares is.
  add_sums_lem :
      (ks : List ℕ) (p q : ℕ)
      → p + total ks ≤ exact_limit
      → q + total_of_squares ks ≤ exact_limit
      → add_sums d (durations_of ks) (of_int (pos p)) (of_int (pos q))
        ≡ exact_pair (p + total ks) (q + total_of_squares ks)
  unfolding add_sums
  add_sums_lem [] p q few few' = same_pair p (p + 0) q (q + 0) (omega arith) (omega arith)
  add_sums_lem (k ∷ ks) p q few few' =
      let e = exact.plus_exact p k (omega arith) in
      let e' =
        ap (d.plus (of_int (pos q))) (exact.product_exact k k (omega arith))
        ∙ exact.plus_exact q (k * k) (omega arith) in
      ap
        (λ x.
          add_sums d (durations_of ks) x
            (d.plus (of_int (pos q)) (d.product (of_int (pos k)) (of_int (pos k)))))
        e
      ∙ ap (add_sums d (durations_of ks) (of_int (pos (p + k)))) e'
      ∙ add_sums_lem ks (p + k) (q + k * k) (omega arith) (omega arith)
      ∙ same_pair (p + k + total ks) (p + total (k ∷ ks)) (q + k * k + total_of_squares ks)
          (q + total_of_squares (k ∷ ks)) (omega arith) (omega arith)

  -- Of two durations or more that are not negative, whose mean is the integer `a` and whose standard
  -- deviation is the integer `s`, and whose squares have a sum of 2 ^ 53 at most: `stdDev` gives
  -- `s`, on any `double` that keeps to IEEE 754.
  pub std_dev-deviation :
      (c : Calibration) (mode : Mode) (ks : List ℕ) (a s : ℕ)
      → 2 ≤ length ks
      → total ks ≡ length ks * a
      → deviations a ks ≡ pos (s * s * (length ks - 1))
      → total_of_squares ks ≤ exact_limit
      → std_dev d c mode (durations_of ks) ≡ record { ticks = pos s }
  unfolding std_dev
  std_dev-deviation c mode ks a s several mean deviation few =
      let n = length ks in
      let v = s * s * (n - 1) in
      let sum_of : pos (v + 2 * a * total ks) ≡ pos (total_of_squares ks + n * (a * a)) =
        sym (pos-+ℤ v (2 * a * total ks))
        ∙ ap (λ x. x +ℤ pos (2 * a * total ks)) (sym deviation)
        ∙ deviations_lem a ks in
      let squares : total_of_squares ks ≡ v + n * a * a =
        squares_by_mean a (total_of_squares ks) (total ks) n v (ap pos_part sum_of) mean in
      let mean' : total ks ≡ a * n = grind arith in
      let sums =
        add_sums_lem ks 0 0 (omega (arith, total_few ks)) (omega arith)
        ∙ same_pair (0 + total ks) (a * n) (0 + total_of_squares ks) (v + n * a * a) (omega arith)
            (omega arith) in
      let many : leb n 1 ≡ false = ground arith in
      let few_total : a * n ≤ exact_limit = omega (arith, total_few ks) in
      let few_mean : n * a ≤ exact_limit = omega (arith, total_few ks) in
      let few_squares : n * a * a ≤ exact_limit = omega arith in
      let few_s : s * s ≤ exact_limit = omega (arith, le-mul_self (s * s) (n - 1) (omega arith)) in
      rw
        (
          length-durations_of ks,
          many,
          sums,
          exact.quotient_exact a n (omega arith) few_total,
          exact.product_exact n a few_mean,
          exact.product_exact (n * a) a few_squares,
          exact.minus_exact v (n * a * a) (omega arith),
          exact.quotient_exact (s * s) (n - 1) (omega arith) (omega arith),
          exact.sqrt_exact s few_s,
          exact.half_dropped s (deviation_small s few_s),
        )
        refl
