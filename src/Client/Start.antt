-- ===== src/Client/Start.antt =====
-- The constructor of `client_t` with its calls of the system, and the destructor.
use latency_under_load.Prelude.{ℕ, Result, ok, ◌>>=◌}
use latency_under_load.Config.{Config}
use latency_under_load.Ticks.{Calibration, Mode}
use latency_under_load.Runner.{check, init_epoll}
use latency_under_load.Client.{Client, new_client, open_sockets}
use latency_under_load.Os.{Os}

module _ (os : Os) where
  open os use {World, alarm, close}

  -- The client, with the file descriptor that its events are waited for at.
  unfoldable pub start_client : Calibration → Mode → Config → World → Result (Client × ℕ × World)
  start_client calibration mode config w = do
    s ← new_client calibration mode config
    (efd, w₁) ← init_epoll os config w
    w₂ ← open_sockets os s w₁
    ok (s, efd, w₂)

  -- The destructor, which sets the alarm off.
  unfoldable pub delete_client : ℕ → World → Result World
  delete_client efd w = check os (close (alarm w 0) efd)
