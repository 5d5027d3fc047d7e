-- ===== src/Clock/Normal.antt =====
-- Sums and differences of seconds and nanoseconds, against those of the nanoseconds.
use latency_under_load.Prelude.{◌≡◌, Bool-cases, ltb→lt, ltb→le, leb→le, leb→lt, inl, inr}
use latency_under_load.Prelude.Int.{pos, ◌+ℤ◌, ◌-ℤ◌, ◌≤ℤ◌, ◌<ℤ◌, leb_ℤ, ltb_ℤ, int_ring}
use latency_under_load.Clock.{
  Comparison, is_lt, is_gt, is_le, is_ge, is_eq, is_ne, compares, ts_cmp, Timespec, nsec_per_sec,
  ts_add, ts_sub, ts_to_nsec,
}

-- The nanoseconds are between 0 and a second.
abbrev pub IsNormal : Timespec → Type 0
IsNormal t = (pos 0 ≤ℤ t.tv_nsec) × (t.tv_nsec <ℤ pos nsec_per_sec)

-- The sum of two times whose nanoseconds are between 0 and a second is the sum of their
-- nanoseconds, and has its nanoseconds between 0 and a second.
pub ts_add_lem :
    (a b : Timespec)
    → IsNormal a
    → IsNormal b
    → (ts_to_nsec (ts_add a b) ≡ ts_to_nsec a +ℤ ts_to_nsec b) × IsNormal (ts_add a b)
unfolding ts_add ts_to_nsec
ts_add_lem a b na nb = elim (Bool-cases (leb_ℤ (pos nsec_per_sec) (a.tv_nsec +ℤ b.tv_nsec))) [
  | inl e ↦ rw e (omega (int_ring, leb→le _ _ e))
  | inr e ↦ rw e (omega (int_ring, leb→lt _ _ e))
]

-- The difference of two times whose nanoseconds are between 0 and a second is the difference of
-- their nanoseconds, also where it is negative, and has its nanoseconds between 0 and a second.
pub ts_sub_lem :
    (a b : Timespec)
    → IsNormal a
    → IsNormal b
    → (ts_to_nsec (ts_sub a b) ≡ ts_to_nsec a -ℤ ts_to_nsec b) × IsNormal (ts_sub a b)
unfolding ts_sub ts_to_nsec
ts_sub_lem a b na nb = elim (Bool-cases (ltb_ℤ (a.tv_nsec -ℤ b.tv_nsec) (pos 0))) [
  | inl e ↦ rw e (omega (int_ring, ltb→lt _ _ e))
  | inr e ↦ rw e (omega (int_ring, ltb→le _ _ e))
]

-- The comparison of two times whose nanoseconds are between 0 and a second, by any of the six
-- operators, is that of their nanoseconds.
pub ts_cmp_lem :
    (cmp : Comparison) (a b : Timespec)
    → IsNormal a
    → IsNormal b
    → ts_cmp cmp a b ≡ compares cmp (ts_to_nsec a) (ts_to_nsec b)
unfolding ts_cmp ts_to_nsec
ts_cmp_lem is_lt a b na nb = grind int_ring
ts_cmp_lem is_gt a b na nb = grind int_ring
ts_cmp_lem is_le a b na nb = grind int_ring
ts_cmp_lem is_ge a b na nb = grind int_ring
ts_cmp_lem is_eq a b na nb = grind int_ring
ts_cmp_lem is_ne a b na nb = grind int_ring
