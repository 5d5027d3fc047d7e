-- ===== src/Server/Loop.antt =====
-- `server_t::run`: the loop that calls the handlers and takes the events of the sockets.
use latency_under_load.Prelude.{
  ℕ, zero, suc, ◌*◌, Option, none, some, List, [], ◌∷◌, ltb, ◌==◌, if◌then◌else◌, Result, ok, err,
  exits, ◌>>=◌, times,
}
use latency_under_load.Queue
use latency_under_load.CBuffer.{max_queued_massage}
use latency_under_load.Runner.{Runner, connection_at, add_new_connection, set_socket_option}
use latency_under_load.Server.{handle_socket_read, handle_connection_read, handle_socket_write}
use latency_under_load.Os.{
  Os, Accepted, conn, not_accepted, Errno, eagain, econnreset, ebadf, einprogress, other, Event,
}

-- The loop over the complete messages, as long as their queue is when it begins.
unfoldable pub handle_answers : Runner → Result Runner
handle_answers r = times (Queue.size r.readable_connection_list) handle_connection_read r

module _ (os : Os) where
  open os use {World, accept, epoll_wait}

  -- `errno != EAGAIN` ends the program.
  unfoldable pub unless_again : Errno → Runner → World → Result (Runner × World)
  unless_again eagain r w = ok (r, w)
  unless_again econnreset r w = err exits
  unless_again ebadf r w = err exits
  unless_again einprogress r w = err exits
  unless_again other r w = err exits

  -- A new connection is requested.
  unfoldable pub accept_connection : Accepted → Runner → World → Result (Runner × World)
  accept_connection (conn fd before) r w =
      if ltb 0 fd
      then (do w' ← set_socket_option os r.config fd w; add_new_connection os fd r w')
      else unless_again before r w
  accept_connection (not_accepted e) r w = unless_again e r w

  unfoldable pub handle_event : ℕ → Event → Runner → World → Result (Runner × World)
  handle_event lfd e r w =
      if e.fd == lfd then accept_connection (accept w lfd).0 r (accept w lfd).1 else do
        let at = connection_at e.fd r
        queue ← Queue.push at.0 r.readable_socket_list
        ok (record (at.1) { readable_socket_list = queue }, w)

  unfoldable pub handle_events : ℕ → List Event → Runner → World → Result (Runner × World)
  handle_events lfd [] r w = ok (r, w)
  handle_events lfd (e ∷ events) r w = do
    (r', w') ← handle_event lfd e r w
    handle_events lfd events r' w'

  -- The loops over the queues of sockets, each as long as its queue is when the loop begins.
  unfoldable pub handle_reads : ℕ → Runner → World → Result (Runner × World)
  handle_reads fuel r w =
      times (Queue.size r.readable_socket_list) (λ s. handle_socket_read os fuel s.0 s.1) (r, w)

  unfoldable pub handle_writes : Runner → World → Result (Runner × World)
  handle_writes r w =
      times (Queue.size r.writable_socket_list) (λ s. handle_socket_write os s.0 s.1) (r, w)

  -- The answer of `epoll_wait`.
  unfoldable pub wait_events : ℕ → Option (List Event) → Runner → World → Result (Runner × World)
  wait_events lfd none r w = err exits
  wait_events lfd (some events) r w = handle_events lfd events r w

  -- The body of `while (!is_finished)`.
  unfoldable pub iteration : ℕ → ℕ → Runner → World → Result (Runner × World)
  iteration fuel lfd r w = do
    (r₁, w₁) ← handle_reads fuel r w
    r₂ ← handle_answers r₁
    (r₃, w₃) ← handle_writes r₂ w₁
    let answer = epoll_wait w₃ (max_queued_massage * r₃.config.number_connection)
    wait_events lfd answer.0 r₃ answer.1

  -- The loop, for the number of iterations after which the signal has set `is_finished`.
  unfoldable pub run : ℕ → ℕ → ℕ → Runner → World → Result (Runner × World)
  run zero fuel lfd r w = ok (r, w)
  run (suc n) fuel lfd r w = do (r', w') ← iteration fuel lfd r w; run n fuel lfd r' w'
