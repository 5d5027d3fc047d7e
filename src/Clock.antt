-- ===== src/Clock.antt =====
-- clock.h and the clock functions of ticks_os.h and Ticks.h: values of seconds and nanoseconds.
-- Signed 64-bit values are exact integers: overflow is undefined in C++, and the headers say that
-- it is left to the user.
pub mod Normal
use latency_under_load.Prelude.{ℕ, Bool, not, ◌||◌, if◌then◌else◌}
use latency_under_load.Prelude.Int.{ℤ, pos, ◌+ℤ◌, ◌-ℤ◌, ◌*ℤ◌, ◌/ℤ◌, ltb_ℤ, leb_ℤ, eqb_ℤ}

abbrev pub msec_per_sec : ℕ
msec_per_sec = 1000

abbrev pub usec_per_msec : ℕ
usec_per_msec = 1000

abbrev pub nsec_per_usec : ℕ
nsec_per_usec = 1000

abbrev pub nsec_per_msec : ℕ
nsec_per_msec = 1_000_000

abbrev pub usec_per_sec : ℕ
usec_per_sec = 1_000_000

abbrev pub nsec_per_sec : ℕ
nsec_per_sec = 1_000_000_000

-- `struct timespec`.
pub record Timespec : Type 0 where
  pub tv_sec : ℤ
  pub tv_nsec : ℤ

-- `struct timeval`.
pub record Timeval : Type 0 where
  pub tv_sec : ℤ
  pub tv_usec : ℤ

unfoldable pub ts_to_msec : Timespec → ℤ
ts_to_msec t = t.tv_sec *ℤ pos msec_per_sec +ℤ t.tv_nsec /ℤ nsec_per_msec

unfoldable pub ts_to_usec : Timespec → ℤ
ts_to_usec t = t.tv_sec *ℤ pos usec_per_sec +ℤ t.tv_nsec /ℤ nsec_per_usec

unfoldable pub ts_to_nsec : Timespec → ℤ
ts_to_nsec t = t.tv_sec *ℤ pos nsec_per_sec +ℤ t.tv_nsec

-- `!tv_sec && !tv_nsec` is the time that `ts_clear` leaves.
unfoldable pub ts_isset : Timespec → Bool
ts_isset t = not (eqb_ℤ t.tv_sec (pos 0)) || not (eqb_ℤ t.tv_nsec (pos 0))

unfoldable pub ts_clear : Timespec → Timespec
ts_clear t = record { tv_sec = pos 0; tv_nsec = pos 0 }

-- The operators that `CMP` may stand for.
pub data Comparison : Type 0 where
  is_lt is_gt is_le is_ge is_eq is_ne : Comparison

abbrev pub compares : Comparison → ℤ → ℤ → Bool
compares is_lt a b = ltb_ℤ a b
compares is_gt a b = ltb_ℤ b a
compares is_le a b = leb_ℤ a b
compares is_ge a b = leb_ℤ b a
compares is_eq a b = eqb_ℤ a b
compares is_ne a b = not (eqb_ℤ a b)

unfoldable pub ts_cmp : Comparison → Timespec → Timespec → Bool
ts_cmp cmp a b =
    if eqb_ℤ a.tv_sec b.tv_sec
    then compares cmp a.tv_nsec b.tv_nsec
    else compares cmp a.tv_sec b.tv_sec

unfoldable pub ts_add : Timespec → Timespec → Timespec
ts_add a b =
    let sec = a.tv_sec +ℤ b.tv_sec in
    let nsec = a.tv_nsec +ℤ b.tv_nsec in
    if leb_ℤ (pos nsec_per_sec) nsec
    then record { tv_sec = sec +ℤ pos 1; tv_nsec = nsec -ℤ pos nsec_per_sec }
    else record { tv_sec = sec; tv_nsec = nsec }

unfoldable pub ts_sub : Timespec → Timespec → Timespec
ts_sub a b =
    let sec = a.tv_sec -ℤ b.tv_sec in
    let nsec = a.tv_nsec -ℤ b.tv_nsec in
    if ltb_ℤ nsec (pos 0)
    then record { tv_sec = sec -ℤ pos 1; tv_nsec = nsec +ℤ pos nsec_per_sec }
    else record { tv_sec = sec; tv_nsec = nsec }

unfoldable pub tv_to_msec : Timeval → ℤ
tv_to_msec t = t.tv_sec *ℤ pos msec_per_sec +ℤ t.tv_usec /ℤ usec_per_msec

unfoldable pub tv_to_usec : Timeval → ℤ
tv_to_usec t = t.tv_sec *ℤ pos usec_per_sec +ℤ t.tv_usec

unfoldable pub tv_to_nsec : Timeval → ℤ
tv_to_nsec t = t.tv_sec *ℤ pos nsec_per_sec +ℤ t.tv_usec *ℤ pos nsec_per_usec

-- `timespec2nsec` of ticks_os.h.
unfoldable pub timespec2nsec : Timespec → ℤ
timespec2nsec t = pos nsec_per_sec *ℤ t.tv_sec +ℤ t.tv_nsec

-- `timeval2nsec` of Ticks.h.
unfoldable pub timeval2nsec : Timeval → ℤ
timeval2nsec t = pos nsec_per_sec *ℤ t.tv_sec +ℤ pos 1000 *ℤ t.tv_usec
