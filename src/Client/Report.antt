-- ===== src/Client/Report.antt =====
-- `client_t::print_result`: the lines of the file, and the numbers of the summary.
use latency_under_load.Prelude.{
  ℕ, zero, suc, ◌+◌, ◌-◌, ◌*◌, some, List, [], ◌∷◌, ◌++◌, ltb, if◌then◌else◌, add32, Result, ok,
  err, out_of_fuel, ◌>>=◌,
}
use latency_under_load.Prelude.Int.{ℤ, pos}
use latency_under_load.Prelude.Doubles.{double_sum}
use latency_under_load.Queue.{Queue}
use latency_under_load.Queue
use latency_under_load.Connection.{alive}
use latency_under_load.Runner.{Runner, Pointer, deref, put_connection}

-- A line of the file: the number of the message, its round trip time and its connection.
pub record Line : Type 0 where
  pub number : ℕ
  pub rtt : ℤ
  pub connection : ℕ

pub record Report : Type 0 where
  pub lines : List Line
  pub latency_sum : ℤ
  pub msg_count : ℕ

-- A message that has been counted as the `index`th of its connection.
abbrev pub save_message : ℕ → ℕ → ℕ → ℤ → Report → Report
save_message ignored connection index rtt report =
    if ltb ignored index
    then record report {
      lines =
          report.lines
          ++ record { number = index - ignored; rtt = rtt; connection = connection } ∷ [];
      latency_sum = double_sum report.latency_sum rtt;
    }
    else report

-- `while (msgs_rtt->size())`, with fuel; the result has the messages counted, the queue that is left
-- and the report.
unfoldable pub save_rtts : ℕ → ℕ → ℕ → ℕ → Queue ℤ → Report → Result (ℕ × Queue ℤ × Report)
save_rtts zero ignored connection index q report =
    if ltb 0 (Queue.size q) then err out_of_fuel else ok (index, q, report)
save_rtts (suc fuel) ignored connection index q report =
    if ltb 0 (Queue.size q)
    then (do
      rtt ← Queue.front q
      q' ← Queue.pop q
      save_rtts fuel ignored connection (index + 1) q'
          (save_message ignored connection (index + 1) rtt report))
    else ok (index, q, report)

-- The body of the loop over the map.
unfoldable pub save_connection : ℕ → ℕ → Pointer → Runner × Report → Result (Runner × Report)
save_connection fuel ignored p (r, report) = do
  (i, c) ← deref p r
  rtts ← alive c.msgs_rtt
  (index, rest, saved) ← save_rtts fuel ignored c.index 0 rtts report
  let count = if ltb ignored index then add32 saved.msg_count index else saved.msg_count
  ok (put_connection i (record c { msgs_rtt = some rest }) r, record saved { msg_count = count })

unfoldable pub save_connections :
    ℕ → ℕ → List (ℕ × Pointer) → Runner × Report → Result (Runner × Report)
save_connections fuel ignored [] t = ok t
save_connections fuel ignored ((fd, p) ∷ entries) t = do
  t' ← save_connection fuel ignored p t
  save_connections fuel ignored entries t'

-- `print_result`: the summary is `latency_sum` over `msg_count`.
unfoldable pub print_result : ℕ → Runner → Result (Runner × Report)
print_result fuel r =
    let ignored = r.config.warm * r.config.mps in
    let report : Report = record { lines = []; latency_sum = pos 0; msg_count = r.msg_count } in
    save_connections fuel ignored r.connection_list (r, report)
