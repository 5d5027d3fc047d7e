-- ===== src/Tests/Times.antt =====
-- Times at concrete inputs.
use latency_under_load.Prelude.{ok, ℕ, ◌+◌, ◌≤◌, ◌≡◌, refl, arith}
use latency_under_load.Prelude.Int.{pos, ◌+ℤ◌, ◌-ℤ◌}
use latency_under_load.Clock.{Timespec, ts_add, ts_sub, ts_to_nsec}
use latency_under_load.Clock.Normal.{IsNormal, ts_add_lem, ts_sub_lem}
use latency_under_load.Ticks.{
  Calibration, clock, ticks2nsec, calibrate, nsec2ticks_rdtsc, ticks2nsec_rdtsc,
}
use latency_under_load.Ticks.Duration.{TicksDuration, to_nsec, to_timespec}
use latency_under_load.Ticks.Split.{to_timespec_lem}
use latency_under_load.Ticks.Conversion.{nsec2ticks_exact, ticks2nsec_exact, conversion_loss}

abbrev early : Timespec
early = record { tv_sec = pos 3; tv_nsec = pos 900_000_000 }

abbrev later : Timespec
later = record { tv_sec = pos 5; tv_nsec = pos 200_000_000 }

ts_sub-carries : ts_sub later early ≡ record { tv_sec = pos 1; tv_nsec = pos 300_000_000 }
unfolding ts_sub ◌-ℤ◌ ◌+ℤ◌
ts_sub-carries = refl

ts_add_lem_example :
    (ts_to_nsec (ts_add early later) ≡ ts_to_nsec early +ℤ ts_to_nsec later)
    × IsNormal (ts_add early later)
ts_add_lem_example = ts_add_lem early later (omega arith) (omega arith)

ts_sub_lem_example :
    (ts_to_nsec (ts_sub early later) ≡ ts_to_nsec early -ℤ ts_to_nsec later)
    × IsNormal (ts_sub early later)
ts_sub_lem_example = ts_sub_lem early later (omega arith) (omega arith)

-- A time stamp counter of 2.5 GHz.
abbrev fast : Calibration
fast = record {
  ticks_per_msec = 2_500_000;
  max_msec_convert = 3_689_348_814_741;
  base_ticks = pos 0;
}

nsec2ticks_exact_example :
    nsec2ticks_rdtsc (calibrate 2_500_000_000 (pos 0)) (pos 3_000_000_000_000_000_001)
    ≡ pos 7_500_000_000_000_000_002
nsec2ticks_exact_example =
    nsec2ticks_exact 2_500_000_000 (pos 0) (omega arith) 3_000_000_000_000_000_001 (omega arith)

ticks2nsec_exact_example :
    ticks2nsec_rdtsc (calibrate 2_500_000_000 (pos 0)) (pos 7_500_000_000_000_000_002)
    ≡ ok (pos 3_000_000_000_000_000_000)
ticks2nsec_exact_example =
    ticks2nsec_exact 2_500_000_000 (pos 0) (omega arith) 7_500_000_000_000_000_002 (omega arith)
      (omega arith)

conversion_loss_example :
    let c = calibrate 2_500_000_000 (pos 0) in
    (m : ℕ) × (ticks2nsec_rdtsc c (nsec2ticks_rdtsc c (pos 1_000_003)) ≡ ok (pos m))
    × (m ≤ 1_000_003)
    × (1_000_003 ≤ m + 1)
conversion_loss_example =
    conversion_loss 2_500_000_000 (pos 0) (omega arith) 1_000_003 (omega arith) (omega arith)
      (omega arith)

abbrev long : TicksDuration
long = record { ticks = pos 3_500_000_000 }

abbrev short : TicksDuration
short = record { ticks = pos 7 }

to_timespec_lem_example :
    (t : Timespec) × (to_timespec fast clock long ≡ ok t)
    × (ts_to_nsec t ≡ pos 3_500_000_000)
    × IsNormal t
unfolding to_nsec ticks2nsec
to_timespec_lem_example = to_timespec_lem fast clock long 3_500_000_000 refl
