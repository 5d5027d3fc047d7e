-- ===== src/Ticks/Split.antt =====
-- The durations of Ticks.h split into seconds and the rest, and their order.
use native.Mathlib.Nat.{div-add-mod}
use latency_under_load.Prelude.{ℕ, ok, refl, ◌≡◌, ap, ◌⊎◌, inl, inr, arith, Bool-cases}
use latency_under_load.Prelude.Int.{◌/ℤ◌, ◌%ℤ◌, pos, negsuc, ◌<ℤ◌, ltb_ℤ, pos_laws}
use latency_under_load.Clock.{Timespec, ts_to_nsec}
use latency_under_load.Clock.Normal.{IsNormal}
use latency_under_load.Ticks.{Calibration, Mode, nsec_in_sec}
use latency_under_load.Ticks.Duration.{
  TicksDuration, to_nsec, to_timespec, compare_durations, less, greater,
}

-- A duration that is not negative is split into seconds and nanoseconds, between 0 and a second,
-- that make the same number of nanoseconds.
pub to_timespec_lem :
    (c : Calibration) (mode : Mode) (d : TicksDuration) (n : ℕ)
    → to_nsec c mode d ≡ ok (pos n)
    → (t : Timespec) × (to_timespec c mode d ≡ ok t) × (ts_to_nsec t ≡ pos n) × IsNormal t
unfolding to_timespec ts_to_nsec
to_timespec_lem c mode d n e =
    let whole = div-add-mod n nsec_in_sec in
    let t : Timespec = record { tv_sec = pos n /ℤ nsec_in_sec; tv_nsec = pos n %ℤ nsec_in_sec } in
    let (same, normal) : (ts_to_nsec t ≡ pos n) × IsNormal t =
      simp pos_laws (ap pos (omega (arith, whole)), omega arith) in
    (t, rw e refl, same, normal)

-- The comparison for `qsort` gives 1, -1 or 0, as the first duration is longer, shorter or the same,
-- and so gives the opposite for durations the other way round.
pub compare_durations_lem :
    (a b : TicksDuration)
    → ((b.ticks <ℤ a.ticks) × (compare_durations a b ≡ pos 1) × (compare_durations b a ≡ negsuc 0))
      ⊎ ((a.ticks <ℤ b.ticks)
          × (compare_durations a b ≡ negsuc 0)
          × (compare_durations b a ≡ pos 1))
      ⊎ ((a.ticks ≡ b.ticks) × (compare_durations a b ≡ pos 0) × (compare_durations b a ≡ pos 0))
unfolding compare_durations less greater
compare_durations_lem a b = elim (Bool-cases (ltb_ℤ b.ticks a.ticks)) [
  | inl more ↦ ground arith
  | inr le ↦ ground arith
]
