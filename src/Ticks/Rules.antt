-- ===== src/Ticks/Rules.antt =====
-- The rules of arithmetic that the head of Ticks.h states, for points in time and durations.
use latency_under_load.Prelude.{◌≡◌, ap}
use latency_under_load.Prelude.Int.{int_laws}
use latency_under_load.Ticks.Duration.{
  TicksDuration, TicksTime, add, less, equal, time_add, time_sub, time_difference, time_less,
  time_equal,
}

-- A duration that is added to a point in time can be taken off again, and is the difference that it
-- makes; the difference of two points leads from one to the other; durations are added one by one or
-- their sum at once; and points at durations from the same one are ordered as the durations.
pub time_rules :
    (t s : TicksTime) (d e : TicksDuration)
    → (time_sub (time_add t d) d ≡ t)
      × (time_add s (time_difference t s) ≡ t)
      × (time_difference (time_add t d) t ≡ d)
      × (time_add (time_add t d) e ≡ time_add t (add d e))
      × (time_less (time_add t d) (time_add t e) ≡ less d e)
      × (time_equal (time_add t d) (time_add t e) ≡ equal d e)
unfolding time_sub time_add time_difference add time_less less time_equal equal
time_rules t s d e = (
  ap (λ x. record { ticks = x }) (grind int_laws),
  ap (λ x. record { ticks = x }) (grind int_laws),
  ap (λ x. record { ticks = x }) (grind int_laws),
  ap (λ x. record { ticks = x }) (grind int_laws),
  grind int_laws,
  grind int_laws,
)
