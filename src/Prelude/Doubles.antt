-- ===== src/Prelude/Doubles.antt =====
-- The `double`s of IEEE 754, of 53 bits, that the program computes from integers: none is finer than
-- 2 ^ -62, so each is the number of these units in it. Results are rounded to the nearest, a tie to
-- the even one.
use native.Mathlib.Nat.{div-mul-le_self, mul-le-mul_right}
use latency_under_load.Prelude.{
  ℕ, zero, suc, ◌+◌, ◌*◌, ◌/◌, ◌%◌, ◌^◌, ◌≤◌, ◌≡◌, ◌⊎◌, inl, inr, arith, ltb, ltb→le, if◌then◌else◌,
  Bool-cases,
}
use latency_under_load.Prelude.Int.{ℤ, pos, negsuc, ◌+ℤ◌, ◌-ℤ◌}

-- 1.
abbrev pub one_double : ℕ
one_double = 2 ^ 62

-- 0.2, which is 3602879701896397 / 2 ^ 54.
abbrev pub fifth : ℕ
fifth = 3602879701896397 * 2 ^ 8

-- The distance of the `double`s at a / b, from `u` on.
unfoldable pub ulp : ℕ → ℕ → ℕ → ℕ → ℕ
ulp zero a b u = u
ulp (suc fuel) a b u = let rest = ulp fuel a b (2 * u) in if ltb a (2 ^ 53 * u * b) then u else rest

-- The integer nearest to a / d.
unfoldable pub nearest : ℕ → ℕ → ℕ
nearest a d =
    let q = a / d in
    let rest = a % d in
    if ltb (2 * rest) d then q else if ltb d (2 * rest) then q + 1 else q + q % 2

-- a / b, below 2 ^ 181, rounded.
unfoldable pub rounded_ratio : ℕ → ℕ → ℕ
rounded_ratio a b = let u = ulp 128 a b 1 in nearest a (u * b) * u

abbrev pub rounded : ℕ → ℕ
rounded a = rounded_ratio a 1

-- The same on a magnitude, with its sign.
abbrev pub signed_by : (ℕ → ℕ) → ℤ → ℤ
signed_by f (pos n) = pos (f n)
signed_by f (negsuc n) = pos 0 -ℤ pos (f (suc n))

unfoldable pub double_of_int : ℤ → ℤ
double_of_int = signed_by (λ n. rounded (n * one_double))

-- By a positive integer.
unfoldable pub double_quotient : ℤ → ℕ → ℤ
double_quotient a b = signed_by (λ n. rounded_ratio n b) a

unfoldable pub double_sum : ℤ → ℤ → ℤ
double_sum a b = signed_by rounded (a +ℤ b)

ulp_small :
    (fuel a u : ℕ)
    → (u ≤ 1) ⊎ (2 ^ 52 * u ≤ a)
    → (ulp fuel a 1 u ≤ 1) ⊎ (2 ^ 52 * ulp fuel a 1 u ≤ a)
unfolding ulp
ulp_small zero a u h = h
ulp_small (suc fuel) a u h = elim (Bool-cases (ltb a (2 ^ 53 * u * 1))) [
  | inl e ↦ rw e h
  | inr e ↦ rw e (ulp_small fuel a (2 * u) (inr (omega (arith, ltb→le _ _ e))))
]

nearest_below : (a d : ℕ) → nearest a d ≤ a / d + 1
unfolding nearest
nearest_below a d = let odd : a / d % 2 ≤ 1 = omega arith in ground (arith, odd)

step_small : (a u : ℕ) → (u ≤ 1) ⊎ (2 ^ 52 * u ≤ a) → u ≤ 1 + a / 2 ^ 52
step_small a u (inl h) = omega (arith, h)
step_small a u (inr h) = omega (arith, h)

-- What rounding adds at most.
pub rounded_below : (a : ℕ) → rounded a ≤ a + 1 + a / 2 ^ 52
unfolding rounded_ratio
rounded_below a =
    let u = ulp 128 a 1 1 in
    let near : nearest a (u * 1) * u ≤ (a / (u * 1) + 1) * u =
      mul-le-mul_right u (nearest_below a (u * 1)) in
    let whole : a / (u * 1) * (u * 1) ≤ a = div-mul-le_self a (u * 1) in
    let fine : u ≤ 1 + a / 2 ^ 52 = step_small a u (ulp_small 128 a 1 (inl (omega arith))) in
    let same : (a / (u * 1) + 1) * u ≡ a / (u * 1) * (u * 1) + u = grind arith in
    omega (arith, near, whole, fine, same)
