-- ===== src/Client/Opened.antt =====
-- The constructor of the client: its configuration, and the sockets that it opens.
use latency_under_load.Prelude.{
  ℕ, ◌+◌, ◌*◌, ◌<◌, ◌≡◌, ◌≢◌, refl, false, [], arith, ok, Safely, Safely-mono, Safely-Returns,
  Faultless, Faultless->>=, Safely-Faultless, times, times-Safely, int_limit,
}
use latency_under_load.Prelude.Int.{ℤ}
use latency_under_load.Queue.{new_queue}
use latency_under_load.Queue.Refine.{new_queue-Represents}
use latency_under_load.Config.{Config, num_extra_connection}
use latency_under_load.Connection.{rtt_queue_size}
use latency_under_load.Ticks.{Calibration, Mode}
use latency_under_load.Runner.{new_runner, init_epoll}
use latency_under_load.Runner.Kept.{frame}
use latency_under_load.Client.{
  Client, connections_to_open, made_client, new_client, open_new_socket, open_sockets,
}
use latency_under_load.Client.Sockets.{AreConnected}
use latency_under_load.Client.Plays.{IsPlayable, Plays}
use latency_under_load.Client.Change.{open_new_socket-AreConnected}
use latency_under_load.Client.Connect.{period_of_lem}
use latency_under_load.Client.Start.{start_client}
use latency_under_load.Runner.Quiet.{IsQuiet, init_epoll-IsQuiet}
use latency_under_load.Runner.Add.{check_fd-Safely}
use latency_under_load.Server.Run.{new_runner-Inv}
use latency_under_load.Server.Sensible.{IsSensible}
use latency_under_load.Os.{Os, TracksFds}

-- The configuration that the sockets are opened with.
abbrev pub opened_config : Config → Config
opened_config config = record config {
  number_connection = connections_to_open config.extra_op config.number_connection;
}

-- A configuration of the client under which nothing overflows, no period is divided by zero, and the
-- queues for times have room for an entry.
pub record IsSending (config : Config) : Type 0 where
  pub sensible : IsSensible config
  pub of_client : config.server ≡ false
  pub some_connections : 0 < config.number_connection
  pub some_times : 0 < rtt_queue_size config
  pub times_fit : rtt_queue_size config < int_limit

module _ (os : Os) (tracks : TracksFds os) (config : Config) (sends : IsSending config) where
  abbrev pub sockets_fit : ℕ
  sockets_fit = config.number_connection + num_extra_connection

  pub sending-IsPlayable : IsPlayable (opened_config config) sockets_fit
  sending-IsPlayable = record {
    of_client = sends.of_client;
    some_messages = sends.sensible.some_messages;
    sends_fit = omega (arith, sends.sensible.queues_fit);
    some_bytes = sends.sensible.some_bytes;
    buffers_fit = sends.sensible.buffers_fit;
    some_times = sends.some_times;
    times_fit = sends.times_fit;
  }

  few_sockets : sockets_fit < int_limit
  few_sockets =
      let few = sends.sensible.queues_fit in let some = sends.sensible.some_messages in grind arith

  made_client-Plays :
      (period : ℤ) (w : os.World)
      → IsQuiet os w
      → Plays os (opened_config config) sockets_fit (made_client config period) w
  unfolding made_client new_runner new_queue
  made_client-Plays period w quiet =
      let v = new_runner-Inv config sends.sensible.some_messages sends.sensible.queues_fit in
      record {
        inv = record {
          message = refl;
          buffers = λ i c e live. cc;
          listed = λ i c e live. cc;
          writable = v.writable;
          readable = v.readable;
          complete = v.complete;
        };
        timed = λ i c e. cc;
        fds = [];
        sockets = new_queue-Represents sockets_fit (omega arith) few_sockets;
        fits = refl;
        connected = record {
          linked = record {
            opens = λ i c e live. cc;
            listed = λ i c e live. cc;
            known = λ x out e. absurd (quiet x out e);
          };
          open_ones = tt;
          same_config = refl;
          mapped = tt;
        };
      }

  open_sockets-Plays :
      (s : Client) (w : os.World)
      → Plays os (opened_config config) sockets_fit s w
      → Safely (open_sockets os s w) (λ w'. Plays os (opened_config config) sockets_fit s w')
  unfolding open_sockets
  open_sockets-Plays s w h =
      let c = s.runner.config in
      Safely-mono (times c.number_connection (open_new_socket os c) w) _ _
        (times-Safely (λ _ w'. AreConnected os (opened_config config) h.fds (frame os s.runner w'))
          _
          (λ n w' k.
            open_new_socket-AreConnected os tracks (opened_config config) h.fds s.runner c w' k)
          c.number_connection w h.connected)
        (λ w' k. record {
          inv = h.inv;
          timed = h.timed;
          fds = h.fds;
          sockets = h.sockets;
          fits = h.fits;
          connected = k;
        })

  new_client-ok :
      (calibration : Calibration) (mode : Mode)
      → (period : ℤ) × (new_client calibration mode config ≡ ok (made_client config period))
  unfolding new_client
  new_client-ok calibration mode =
      let rate = config.mps * config.number_connection in
      let nonzero : rate ≢ 0 = λ e.
        (let some = sends.sensible.some_messages in
          let some' = sends.some_connections in grind arith) in
      let (period, e) = period_of_lem calibration mode rate nonzero in (period, rw e refl)

  init_epoll-Safely :
      (w : os.World) → IsQuiet os w → Safely (init_epoll os config w) (λ t. IsQuiet os t.1)
  unfolding init_epoll
  init_epoll-Safely w quiet =
      Safely-mono (init_epoll os config w) _ _
        (Safely-Returns (init_epoll os config w) (λ _. Unit {0}) _ (check_fd-Safely os _)
          (init_epoll-IsQuiet os tracks config w quiet))
        (λ t h. h.1)

  pub start_client-Plays :
      (calibration : Calibration) (mode : Mode) (w : os.World)
      → IsQuiet os w
      → Faultless
          (start_client os calibration mode config w)
          (λ t. Plays os (opened_config config) sockets_fit t.0 t.2)
  unfolding start_client
  start_client-Plays calibration mode w quiet =
      let (period, made) = new_client-ok calibration mode in
      let s = made_client config period in
      rw made (
        Faultless->>= (init_epoll os config w) _ _ _
          (Safely-Faultless (init_epoll os config w) _ (init_epoll-Safely w quiet))
          (λ t quiet₁.
            Faultless->>= (open_sockets os s t.1) _ _ _
              (Safely-Faultless (open_sockets os s t.1) _
                (open_sockets-Plays s t.1 (made_client-Plays period t.1 quiet₁)))
              (λ w₂ p. p)))
