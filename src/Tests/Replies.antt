-- ===== src/Tests/Replies.antt =====
-- Round trip times at a small connection.
use latency_under_load.Tests.Sample.{one_entry, one_entry-IsHeld}
use latency_under_load.Prelude.{
  zero, suc, subst, ◌+◌, ◌*◌, ◌<◌, ◌≡◌, refl, inl, none, some, [], ◌∷◌, arith, ok, err, no_space,
}
use latency_under_load.Prelude.Int.{ℤ, pos, ◌-ℤ◌}
use latency_under_load.Queue.{Queue}
use latency_under_load.Queue.Refine.{Represents}
use latency_under_load.Prelude.Doubles.{rounded_ratio, nearest, ulp}
use latency_under_load.Connection.{Connection, new_connection, rtt_queue_size, record_msg_rtt}
use latency_under_load.Ticks.{clock}
use latency_under_load.Ticks.Floating.{to_decimal_usec}
use latency_under_load.Runner.{Runner, new_runner, put_connection}
use latency_under_load.Runner.Inv.{with_complete, Inv, put_connection-Inv}
use latency_under_load.Runner.Add.{grown}
use latency_under_load.Client.{Client, made_client, record_message}
use latency_under_load.Connection.Times.{HasTimes, IsTimed}
use latency_under_load.Client.Replies.{AreTimed}
use latency_under_load.Client.Times.{record_message_lem, record_msg_rtt_full}
use latency_under_load.Client.Report.{Report}
use latency_under_load.Tests.Sending.{full, full-Represents, client_config, grown_client-Inv, fast}

-- A connection with a message that waits since the time 400.
abbrev waiting_queue : Queue ℤ
waiting_queue = full 1 (pos 400)

abbrev empty_queue : Queue ℤ
empty_queue = record {
  max_queue_size = 1;
  element_list = none ∷ [];
  first_element_index = 0;
  last_element_index = 0;
  queue_size = 0;
}

empty_queue-Represents : Represents empty_queue []
empty_queue-Represents = record {
  sized = refl;
  fits = omega arith;
  small = omega arith;
  cells = refl;
  first_in = omega arith;
  last_in = omega arith;
  last_at = inl refl;
  held = tt;
}

abbrev replying : Connection
replying = record (new_connection client_config 5 0) {
  unaknowledged_msgs = some waiting_queue;
  msgs_rtt = some empty_queue;
}

abbrev replying_runner : Runner
replying_runner = put_connection 0 replying (grown 5 (new_runner client_config))

replying-Inv : Inv 8 replying_runner
unfolding new_runner new_connection
replying-Inv =
    let v = grown_client-Inv in
    put_connection-Inv 8 (grown 5 (new_runner client_config)) 0 (new_connection client_config 5 0)
      replying v refl refl (λ e. e) (λ e. v.buffers 0 (new_connection client_config 5 0) refl refl)

replying-HasTimes : HasTimes replying (pos 400 ∷ []) []
replying-HasTimes = record {
  sent = waiting_queue;
  times = empty_queue;
  sent_is = refl;
  times_is = refl;
  sent_list = full-Represents 1 (pos 400) (omega arith) (omega arith) refl refl;
  times_list = empty_queue-Represents;
}

record_message_lem_example :
    (usec : ℤ) × (to_decimal_usec fast clock (record { ticks = pos 1000 -ℤ pos 400 }) ≡ ok usec)
    × (c : Connection) × (record_message fast clock (pos 1000) 0 replying replying_runner
        ≡ ok (put_connection 0 c replying_runner))
    × Inv 8 (put_connection 0 c replying_runner)
    × HasTimes c [] (usec ∷ [])
unfolding new_runner new_connection replying-HasTimes
record_message_lem_example =
    record_message_lem 8 fast clock (pos 1000) 0 replying replying_runner replying-Inv refl refl tt
      (pos 400) [] [] replying-HasTimes (omega arith)

-- The queue of round trip times is full.
abbrev replied : Connection
replied = record replying { msgs_rtt = some (full 1 (pos 600)) }

one_rtt : Represents (full 1 (pos 600)) (pos 600 ∷ [])
one_rtt = full-Represents 1 (pos 600) (omega arith) (omega arith) refl refl

record_msg_rtt_full_example :
    (record_msg_rtt fast clock (pos 1000) replied ≡ err no_space)
    × (rtt_queue_size client_config < (1 + 2) * 1)
unfolding rounded_ratio nearest ulp
record_msg_rtt_full_example =
    record_msg_rtt_full client_config fast clock (pos 1000) (pos 400) replied [] (pos 600 ∷ []) tt
      refl (omega arith) (omega arith)
      (record {
        sent = waiting_queue;
        times = full 1 (pos 600);
        sent_is = refl;
        times_is = refl;
        sent_list = full-Represents 1 (pos 400) (omega arith) (omega arith) refl refl;
        times_list = one_rtt;
      })
      refl refl

abbrev no_report : Report
no_report = record { lines = []; latency_sum = pos 0; msg_count = 0 }

abbrev replied_runner : Runner
replied_runner = put_connection 0 replied (grown 5 (new_runner client_config))

-- A reply is complete.
abbrev with_reply : Runner
with_reply = record replying_runner { readable_connection_list = one_entry }

with_reply-Inv : Inv 8 with_reply
unfolding new_runner
with_reply-Inv = with_complete 8 replying_runner one_entry replying-Inv one_entry-IsHeld

replying-AreTimed : AreTimed (replying ∷ [])
replying-AreTimed zero c at =
    let same : replying ≡ c = cc in subst IsTimed same (pos 400 ∷ [], [], replying-HasTimes)
replying-AreTimed (suc i) c at = cc

abbrev replying_client : Client
replying_client = record (made_client client_config (pos 7)) { runner = with_reply }

-- 8.2 * 100 is rounded below 820.
queue-rounded : rtt_queue_size (record client_config { period = 8; mps = 100 }) ≡ 819
unfolding rounded_ratio nearest ulp
queue-rounded = refl
