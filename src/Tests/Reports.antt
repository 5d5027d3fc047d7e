-- ===== src/Tests/Reports.antt =====
-- The report of a client with two connections.
use latency_under_load.Prelude.{◌*◌, ◌≡◌, refl, some, [], ◌∷◌, List, arith, ok}
use latency_under_load.Prelude.Int.{pos}
use latency_under_load.Connection.{Connection, new_connection}
use latency_under_load.Runner.{Runner, new_runner}
use latency_under_load.Client.Report.{print_result}
use latency_under_load.Client.Reported.{Times, HaveRtts, add_all, empty_report, print_result_lem}
use latency_under_load.Tests.Sending.{full, full-Represents, client_config}

abbrev first : Connection
first = record (new_connection client_config 5 0) { msgs_rtt = some (full 1 (pos 600)) }

abbrev second : Connection
second = record (new_connection client_config 6 1) { msgs_rtt = some (full 2 (pos 700)) }

-- A client without a warm up period.
abbrev reporting : Runner
reporting = record (new_runner (record client_config { warm = 0 })) {
  connection_list = (5, some 0) ∷ (6, some 1) ∷ [];
  heap = first ∷ second ∷ [];
}

abbrev both : List Times
both =
    record { index = 0; rtts = pos 600 ∷ [] }
    ∷ record { index = 1; rtts = pos 700 ∷ pos 700 ∷ [] }
    ∷ []

reporting-HaveRtts : HaveRtts reporting.heap reporting.connection_list both
unfolding new_connection
reporting-HaveRtts = (
  (
    record {
      i = 0;
      c = first;
      q = full 1 (pos 600);
      place = refl;
      at = refl;
      index_is = refl;
      queue_is = refl;
      represents = full-Represents 1 (pos 600) (omega arith) (omega arith) refl refl;
    },
    ((λ e. cc), tt),
  ),
  (
    (
      record {
        i = 1;
        c = second;
        q = full 2 (pos 700);
        place = refl;
        at = refl;
        index_is = refl;
        queue_is = refl;
        represents = full-Represents 2 (pos 700) (omega arith) (omega arith) refl refl;
      },
      tt,
    ),
    tt,
  ),
)

print_result_lem_example :
    (r : Runner) × (print_result 2 reporting ≡ ok (r, add_all (0 * 1) both (empty_report 0)))
unfolding new_runner
print_result_lem_example =
    print_result_lem 2 reporting both reporting-HaveRtts (omega arith, (omega arith, tt))
