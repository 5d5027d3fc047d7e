-- ===== src/Client/Plays.antt =====
-- What holds of the client between the steps of its loop.
use latency_under_load.Prelude.{ℕ, ◌*◌, ◌<◌, ◌≡◌, false, List, u32_mod, int_limit}
use latency_under_load.CBuffer.{max_queued_massage}
use latency_under_load.Queue.Refine.{Represents}
use latency_under_load.Config.{Config}
use latency_under_load.Connection.{rtt_queue_size}
use latency_under_load.Runner.Inv.{Inv}
use latency_under_load.Runner.Kept.{frame}
use latency_under_load.Client.{Client}
use latency_under_load.Client.Replies.{AreTimed}
use latency_under_load.Client.Sockets.{AreConnected, same-AreConnected}
use latency_under_load.Os.{Os, SameFds}

-- A configuration under which nothing of the client overflows, and no period is divided by zero.
-- `capacity` is the size of the queue of sockets.
pub record IsPlayable (config : Config) (capacity : ℕ) : Type 0 where
  pub of_client : config.server ≡ false
  pub some_messages : 0 < config.mps
  pub sends_fit : config.mps * capacity < u32_mod
  pub some_bytes : 0 < config.message_size
  pub buffers_fit : config.message_size * max_queued_massage < u32_mod
  pub some_times : 0 < rtt_queue_size config
  pub times_fit : rtt_queue_size config < int_limit

-- The sockets of the queue are different, and each has a valid connection with its buffers and its
-- queues of times, which is polled for what it receives.
pub record Plays (os : Os) (config : Config) (capacity : ℕ) (s : Client) (w : os.World)
    : Type 0 where
  pub inv : Inv config.message_size s.runner
  pub timed : AreTimed s.runner.heap
  pub fds : List ℕ
  pub sockets : Represents s.socket_list fds
  pub fits : s.socket_list.max_queue_size ≡ capacity
  pub connected : AreConnected os config fds (frame os s.runner w)

-- A call that leaves the file descriptors as they were.
pub same-Plays :
    (os : Os) (config : Config) (capacity : ℕ) (s : Client) (w w' : os.World)
    → Plays os config capacity s w
    → SameFds os w w'
    → Plays os config capacity s w'
same-Plays os config capacity s w w' h same = record {
  inv = h.inv;
  timed = h.timed;
  fds = h.fds;
  sockets = h.sockets;
  fits = h.fits;
  connected = same-AreConnected os config h.fds (frame os s.runner w) w' h.connected same;
}
