-- ===== src/Client/Turns.antt =====
-- The queue of sockets of the client: whose turn it is to send, and what becomes of the turns when
-- the queue is full.
use latency_under_load.Prelude.{
  ℕ, ◌*◌, ◌≤◌, ◌<◌, ◌≡◌, refl, ◌∙◌, ◌⊎◌, List, [], ◌∷◌, ◌++◌, arith, length, Result, ok, err,
  no_space, ◌>>=◌, ltb, Bool-cases, inl, inr, ltb→lt, ltb→le,
}
use latency_under_load.Prelude.Int.{ℤ, ◌≤ℤ◌}
use latency_under_load.Queue.{Queue}
use latency_under_load.Queue.Refine.{
  Represents, push-Represents, push-full, pop-Represents, front-Represents,
}
use latency_under_load.Config.{Config, closing}
use latency_under_load.Ticks.{Calibration, Mode}
use latency_under_load.Client.{Client, new_client, made_client, period_of}
use latency_under_load.Runner.{new_runner}
use latency_under_load.Queue.{new_queue}
use latency_under_load.Client.Loop.{Schedule, next_socket, new_message, send_iteration}
use latency_under_load.Os.{Os}

-- With sockets in its queue: `next_socket` gives the first one its turn and puts it behind the
-- others, if the queue has room for one more; if it is full, it throws although the socket that
-- it puts back is the one that it takes off.
pub next_socket_lem :
    (s : Client) (fd : ℕ) (fds : List ℕ)
    → Represents s.socket_list (fd ∷ fds)
    → ((length (fd ∷ fds) < s.socket_list.max_queue_size)
        × ((q : Queue ℕ) × (next_socket s ≡ ok (fd, record s { socket_list = q }))
            × Represents q (fds ++ fd ∷ [])
            × (q.max_queue_size ≡ s.socket_list.max_queue_size)))
      ⊎ ((length (fd ∷ fds) ≡ s.socket_list.max_queue_size) × (next_socket s ≡ err no_space))
unfolding next_socket
next_socket_lem s fd fds r =
    elim (Bool-cases (ltb (length (fd ∷ fds)) s.socket_list.max_queue_size)) [
      | inl room ↦
          let (q, e, r', m) = push-Represents fd s.socket_list (fd ∷ fds) r (ltb→lt _ _ room) in
          let (q', e', r'', m') = pop-Represents q fd (fds ++ fd ∷ []) r' in
          inl (
            ltb→lt _ _ room,
            (q', rw (front-Represents s.socket_list fd fds r, e, e') refl, r'', m' ∙ m),
          )
      | inr full ↦ inr (
        omega (arith, r.fits, ltb→le _ _ full),
        rw
            (
              front-Represents s.socket_list fd fds r,
              push-full fd s.socket_list (fd ∷ fds) r (ltb→le _ _ full),
            )
            refl,
      )
    ]

-- The queue of sockets of a new client that is to close connections has room for the connections
-- that it opens, and no more.
new_client-capacity :
    (calibration : Calibration) (mode : Mode) (config : Config) (s : Client)
    → new_client calibration mode config ≡ ok s
    → config.extra_op ≡ closing
    → s.socket_list.max_queue_size ≡ s.runner.config.number_connection
unfolding new_client made_client new_runner new_queue
new_client-capacity calibration mode config s e op =
    go (period_of calibration mode (config.mps * config.number_connection)) e
  where
    go :
        (period : Result ℤ)
        → (period >>= λ p. ok (made_client config p)) ≡ ok s
        → s.socket_list.max_queue_size ≡ s.runner.config.number_connection
    go (ok p) e' = let same : made_client config p ≡ s = cc in rw (← same, op) refl
    go (err x) e' = cc

-- A client that is to close connections, once as many sockets as it waits for are connected: at
-- every send iteration that is due it throws for want of space in its queue of sockets.
pub send_iteration_closing :
    (os : Os) (calibration : Calibration) (mode : Mode) (config : Config) (s₀ s : Client)
    (fds : List ℕ) (current : ℤ) (schedule : Schedule) (w : os.World)
    → new_client calibration mode config ≡ ok s₀
    → config.extra_op ≡ closing
    → s.socket_list.max_queue_size ≡ s₀.socket_list.max_queue_size
    → Represents s.socket_list fds
    → s₀.runner.config.number_connection ≤ length fds
    → schedule.next_send ≤ℤ current
    → send_iteration os current s schedule w ≡ err no_space
unfolding send_iteration new_message
send_iteration_closing os calibration mode config s₀ s fds current schedule w e op cap r h due =
    turn fds r h
  where
    full : s.socket_list.max_queue_size ≡ s₀.runner.config.number_connection
    full = cap ∙ new_client-capacity calibration mode config s₀ e op

    turn :
        (fds : List ℕ)
        → Represents s.socket_list fds
        → s₀.runner.config.number_connection ≤ length fds
        → send_iteration os current s schedule w ≡ err no_space
    turn [] r h = absurd (omega (arith, r.first_in, full))
    turn (fd ∷ fds) r h = elim (next_socket_lem s fd fds r) [
      | inl room ↦ absurd (omega (arith, room.0, full))
      | inr (_, thrown) ↦ ground (arith, thrown)
    ]
