-- ===== src/Client/Errors.antt =====
-- An event of an error alone at a socket of the client that waits for its connection.
use latency_under_load.Prelude.{ℕ, ◌<◌, ◌≡◌, refl, none, false, [], arith, err, faults, ◌>>=◌}
use latency_under_load.Queue.Refine.{Represents, push-Represents, front-Represents, pop-Represents}
use latency_under_load.Ticks.{Calibration, Mode}
use latency_under_load.Runner.{Runner, insert, lookup, connection_at, deref}
use latency_under_load.Client.{Client, handle_socket_read}
use latency_under_load.Client.Loop.{handle_event}
use latency_under_load.Os.{Os, Event}

module _ (os : Os) (calibration : Calibration) (mode : Mode) (fuel : ℕ) where
  -- An event without `EPOLLOUT` of a socket that has no entry in the map, as one of an error is while
  -- the socket waits for its connection: where nothing else is to be read and the queue of readable
  -- sockets has room, a null pointer is queued, and the read that follows dereferences it.
  pub error_alone_faults :
      (e : Event) (s : Client) (w : os.World)
      → e.out ≡ false
      → lookup e.fd s.runner.connection_list ≡ none
      → Represents s.runner.readable_socket_list []
      → 0 < s.runner.readable_socket_list.max_queue_size
      → (handle_event os calibration mode e s w >>= λ t. handle_socket_read os fuel t.0.runner t.1)
        ≡ err faults
  unfolding handle_event connection_at handle_socket_read deref
  error_alone_faults e s w reads unknown waiting room =
      let q = s.runner.readable_socket_list in
      let (q', pushed, represents, _) = push-Represents none q [] waiting room in
      let fronts = front-Represents q' none [] represents in
      let (q'', popped, _, _) = pop-Represents q' none [] represents in
      let r : Runner = record s.runner {
        connection_list = insert e.fd none s.runner.connection_list;
      } in
      let at : connection_at e.fd s.runner ≡ (none, r) = ground (arith, unknown) in
      rw (reads, at, pushed, fronts, popped) refl
