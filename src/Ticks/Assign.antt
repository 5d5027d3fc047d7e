-- ===== src/Ticks/Assign.antt =====
-- The compound assignments of Ticks.h, of the object that they are called on.
use native.Mathlib.Nat.{mul-div_cancel}
use latency_under_load.Prelude.{ℕ, zero, suc, ◌≡◌, refl, ap, ◌∙◌, arith, Result, ok, err, faults}
use latency_under_load.Prelude.Int.{ℤ, pos, negsuc, ◌+ℤ◌, ◌-ℤ◌, ◌*ℤ◌, ◌/ℤ◌, int_ring}
use latency_under_load.Ticks.Duration.{TicksDuration, TicksTime, scale, time_add}

unfoldable pub add_assign : TicksDuration → TicksDuration → TicksDuration
add_assign d rhs = record d { ticks = d.ticks +ℤ rhs.ticks }

unfoldable pub sub_assign : TicksDuration → TicksDuration → TicksDuration
sub_assign d rhs = record d { ticks = d.ticks -ℤ rhs.ticks }

unfoldable pub scale_assign : TicksDuration → ℤ → TicksDuration
scale_assign d rhs = record d { ticks = d.ticks *ℤ rhs }

unfoldable pub divide_assign : TicksDuration → ℤ → Result TicksDuration
divide_assign d (pos zero) = err faults
divide_assign d (pos (suc n)) = ok (record d { ticks = d.ticks /ℤ suc n })
divide_assign d (negsuc n) = ok (record d { ticks = pos 0 -ℤ d.ticks /ℤ suc n })

unfoldable pub time_add_assign : TicksTime → TicksDuration → TicksTime
time_add_assign t rhs = record t { ticks = t.ticks +ℤ rhs.ticks }

unfoldable pub time_sub_assign : TicksTime → TicksDuration → TicksTime
time_sub_assign t rhs = record t { ticks = t.ticks -ℤ rhs.ticks }

abbrev pub repeat {ℓ} : {A : Type ℓ} → ℕ → (A → A) → A → A
repeat zero f a = a
repeat (suc k) f a = repeat k f (f a)

no_times : (a b : ℤ) → a ≡ a +ℤ b *ℤ pos 0
no_times a b = grind int_ring

one_more : (k : ℕ) (a b : ℤ) → a +ℤ b +ℤ b *ℤ pos k ≡ a +ℤ b *ℤ pos (suc k)
one_more k a b = grind int_ring

-- As many additions as `k`.
added :
    (k : ℕ) (t : TicksTime) (d : TicksDuration)
    → repeat k (λ x. time_add_assign x d) t ≡ time_add t (scale d (pos k))
unfolding time_add_assign time_add scale
added zero t d = ap (λ x. record { ticks = x }) (no_times t.ticks d.ticks)
added (suc k) t d =
    added k (time_add_assign t d) d ∙ ap (λ x. record { ticks = x }) (one_more k t.ticks d.ticks)

div_back : (a : ℤ) (n : ℕ) → (a *ℤ pos (suc n)) /ℤ suc n ≡ a
unfolding ◌*ℤ◌ ◌/ℤ◌
div_back (pos a) n = ground (arith, mul-div_cancel a {n = suc n} (omega arith))
div_back (negsuc a) n = ground (arith, mul-div_cancel (suc a) {n = suc n} (omega arith))

-- A point in time that is moved by a duration `k` times.
moved_back :
    (k : ℕ) (a b c : ℤ)
    → c ≡ a +ℤ b *ℤ pos k
    → repeat k (λ x. time_sub_assign x (record { ticks = b })) (record { ticks = c })
      ≡ record { ticks = a }
unfolding time_sub_assign
moved_back zero a b c e = ap (λ x. record { ticks = x }) (grind int_ring)
moved_back (suc k) a b c e = moved_back k a b (c -ℤ b) (grind int_ring)

-- A point in time to which a duration is added `k` times is that at `k` times the duration, and `k`
-- subtractions lead back; a duration that is multiplied by a positive integer and divided by it
-- is the same.
pub assign_rules :
    (k n : ℕ) (t : TicksTime) (d : TicksDuration)
    → (repeat k (λ x. time_add_assign x d) t ≡ time_add t (scale d (pos k)))
      × (repeat k (λ x. time_sub_assign x d) (repeat k (λ x. time_add_assign x d) t) ≡ t)
      × (divide_assign (scale_assign d (pos (suc n))) (pos (suc n)) ≡ ok d)
unfolding time_add scale scale_assign divide_assign
assign_rules k n t d = (
  added k t d,
  ap (repeat k (λ x. time_sub_assign x d)) (added k t d)
      ∙ moved_back k t.ticks d.ticks (t.ticks +ℤ d.ticks *ℤ pos k) refl,
  ap (λ x. ok (record { ticks = x })) (div_back d.ticks n),
)
