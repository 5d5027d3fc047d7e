-- ===== src/Tests/Runs.antt =====
-- The whole runs of the server and of the client on the small system.
use latency_under_load.Prelude.{ℕ, ◌≡◌, refl, true, false, some, get_elem?, arith, Safely, ◌>>=◌}
use latency_under_load.Prelude.Doubles.{rounded_ratio, nearest, ulp}
use latency_under_load.Connection.{Connection}
use latency_under_load.Runner.Inv.{Inv}
use latency_under_load.Runner.Quiet.{IsQuiet}
use latency_under_load.Server
use latency_under_load.Server.Sensible.{IsSensible}
use latency_under_load.Server.Start.{new_server}
use latency_under_load.Server.Whole.{serve-Safely}
use latency_under_load.Client
use latency_under_load.Client.Opened.{IsSending}
use latency_under_load.Os.{polled}
use latency_under_load.Tests.Sample.{
  sample_os, sample-IsOs, sample-TracksFds, start_world, pending_few, sample_config,
}
use latency_under_load.Tests.Sending.{client_config}

pub start_world-IsQuiet : IsQuiet sample_os start_world
start_world-IsQuiet x out e = cc

sample-IsSensible : IsSensible sample_config
sample-IsSensible = record {
  some_messages = omega arith;
  queues_fit = omega arith;
  some_bytes = omega arith;
  buffers_fit = omega arith;
}

pub client-IsSending : IsSending client_config
unfolding rounded_ratio nearest ulp
client-IsSending = record {
  sensible = record {
    some_messages = omega arith;
    queues_fit = omega arith;
    some_bytes = omega arith;
    buffers_fit = omega arith;
  };
  of_client = refl;
  some_connections = omega arith;
  some_times = omega arith;
  times_fit = omega arith;
}

serve-Safely_example :
    Safely
      (new_server sample_os sample_config start_world >>= λ s.
        Server.Loop.run sample_os 3 2 s.lfd s.runner s.world)
      (λ t.
        Inv 8 t.0
        × ((i : ℕ) (c : Connection)
            → get_elem? t.0.heap i ≡ some c
            → c.valid ≡ true
            → sample_os.fd_state t.1 c.fd ≡ polled false))
serve-Safely_example =
    serve-Safely sample_os sample-TracksFds sample-IsOs 2 sample_config pending_few
      sample-IsSensible 3 start_world start_world-IsQuiet
