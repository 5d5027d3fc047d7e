-- ===== src/Client/Saved.antt =====
-- `print_result` of the client: what it saves of a connection's round trip times.
use mathlib.Core.List.{append-nil, append_assoc}
use latency_under_load.Prelude.{
  ℕ, zero, suc, ◌+◌, ◌-◌, ◌≤◌, ◌≡◌, refl, inl, inr, some, List, [], ◌∷◌, ◌++◌, arith, length,
  get_elem?, ok, ltb, if◌then◌else◌, Bool-cases, add32, drop, true, ltb→lt, ltb→le,
}
use latency_under_load.Prelude.Int.{ℤ}
use latency_under_load.Prelude.Doubles.{double_sum}
use latency_under_load.Queue.{Queue, size}
use latency_under_load.Queue.Refine.{Represents, pop-Represents, front-Represents}
use latency_under_load.Connection.{Connection}
use latency_under_load.Runner.{Runner, put_connection}
use latency_under_load.Runner.Inv.{deref_at}
use latency_under_load.Client.Report.{Line, Report, save_message, save_rtts, save_connection}

-- The lines of the round trip times of a connection, numbered from `n` on.
abbrev pub lines_from : ℕ → ℕ → List ℤ → List Line
lines_from connection n [] = []
lines_from connection n (x ∷ xs) =
    record { number = n; rtt = x; connection = connection } ∷ lines_from connection (suc n) xs

-- The sum of `double`s, one after the other.
abbrev pub sum_from : ℤ → List ℤ → ℤ
sum_from sum [] = sum
sum_from sum (x ∷ xs) = sum_from (double_sum sum x) xs

-- The report after the round trip times `xs` of a connection of which `k` were seen before: without
-- the first `ignored`, and with the others numbered from 1.
abbrev pub saved : ℕ → ℕ → ℕ → List ℤ → Report → Report
saved ignored connection k xs report = record report {
  lines = report.lines ++ lines_from connection (suc (k - ignored)) (drop (ignored - k) xs);
  latency_sum = sum_from report.latency_sum (drop (ignored - k) xs);
}

drop-nil : (n : ℕ) → drop {A = ℤ} n [] ≡ []
drop-nil zero = refl
drop-nil (suc n) = refl

saved-nil :
    (ignored connection k : ℕ) (report : Report) → saved ignored connection k [] report ≡ report
saved-nil ignored connection k report =
    let nothing : drop {A = ℤ} (ignored - k) [] ≡ [] = drop-nil (ignored - k) in
    rw (nothing, append-nil report.lines) refl

-- A round trip time is saved or ignored before the rest is.
saved-save_message :
    (ignored connection k : ℕ) (x : ℤ) (xs : List ℤ) (report : Report)
    → saved ignored connection (k + 1) xs (save_message ignored connection (k + 1) x report)
      ≡ saved ignored connection k (x ∷ xs) report
saved-save_message ignored connection k x xs report = elim (Bool-cases (ltb ignored (k + 1))) [
  | inl past ↦
      let a : ignored - k ≡ 0 = omega (arith, ltb→lt _ _ past) in
      let b : ignored - (k + 1) ≡ 0 = omega (arith, ltb→lt _ _ past) in
      let n : k + 1 - ignored ≡ suc (k - ignored) = omega (arith, ltb→lt _ _ past) in
      rw
        (
          past,
          a,
          b,
          n,
          append_assoc report.lines
              (record { number = suc (k - ignored); rtt = x; connection = connection } ∷ []) _,
        )
        refl
  | inr early ↦
      let j : ignored - k ≡ suc (ignored - (k + 1)) = omega (arith, ltb→le _ _ early) in
      let n : k + 1 - ignored ≡ k - ignored = omega (arith, ltb→le _ _ early) in
      rw (early, j, n) refl
]

-- With as much fuel as there are round trip times, they are all counted and taken off the queue, and
-- those past the first `ignored` are saved.
save_rtts_lem :
    (fuel ignored connection k : ℕ) (q : Queue ℤ) (xs : List ℤ) (report : Report)
    → Represents q xs
    → length xs ≤ fuel
    → (q' : Queue ℤ) × (save_rtts fuel ignored connection k q report
        ≡ ok (k + length xs, q', saved ignored connection k xs report))
      × Represents q' []
unfolding save_rtts size
save_rtts_lem zero ignored connection k q [] report r h =
    (q, rw (saved-nil ignored connection k report) (ground (arith, r.sized)), r)
save_rtts_lem zero ignored connection k q (x ∷ xs) report r h = absurd (omega arith)
save_rtts_lem (suc fuel) ignored connection k q [] report r h =
    (q, rw (saved-nil ignored connection k report) (ground (arith, r.sized)), r)
save_rtts_lem (suc fuel) ignored connection k q (x ∷ xs) report r h =
    let (q', e, r', _) = pop-Represents q x xs r in
    let (q'', e', r'') =
      save_rtts_lem fuel ignored connection (k + 1) q' xs
        (save_message ignored connection (k + 1) x report) r' (omega arith) in
    let same = saved-save_message ignored connection k x xs report in
    let more : ltb 0 q.queue_size ≡ true = ground (arith, r.sized) in
    let count : k + 1 + length xs ≡ k + suc (length xs) = omega arith in
    (q'', rw (more, front-Represents q x xs r, e, e', same, count) refl, r'')

-- What the loop over the map does with a connection, given as much fuel as it has round trip times:
-- it saves those past the first `ignored` with their numbers from 1 on, and takes all of them off
-- the queue. If it saves any it adds all of them to the count of messages, also those that it
-- ignores.
pub save_connection_lem :
    (fuel ignored i : ℕ) (c : Connection) (r : Runner) (q : Queue ℤ) (xs : List ℤ) (report : Report)
    → get_elem? r.heap i ≡ some c
    → c.msgs_rtt ≡ some q
    → Represents q xs
    → length xs ≤ fuel
    → (q' : Queue ℤ) × Represents q' []
      × (save_connection fuel ignored (some i) (r, report)
          ≡ ok (
            put_connection i (record c { msgs_rtt = some q' }) r,
            record report {
              lines = report.lines ++ lines_from c.index 1 (drop ignored xs);
              latency_sum = sum_from report.latency_sum (drop ignored xs);
              msg_count =
                  if ltb ignored (length xs)
                  then add32 report.msg_count (length xs)
                  else report.msg_count;
            },
          ))
unfolding save_connection
save_connection_lem fuel ignored i c r q xs report at has rep h =
    let (q', e, r') = save_rtts_lem fuel ignored c.index 0 q xs report rep h in
    let all : ignored - 0 ≡ ignored = omega arith in
    let one : 0 - ignored ≡ 0 = omega arith in
    let count : 0 + length xs ≡ length xs = omega arith in
    (q', r', rw (deref_at r i c at, has, e, all, one, count) refl)
