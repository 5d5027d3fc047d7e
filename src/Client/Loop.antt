-- ===== src/Client/Loop.antt =====
-- `client_t::run`: the loop that sends a message per period, opens or closes extra connections,
-- calls the handlers and takes the events of the sockets.
use latency_under_load.Prelude.{
  ℕ, zero, suc, ◌+◌, ◌*◌, ◌/◌, ◌%◌, Option, none, some, Bool, true, false, List, [], ◌∷◌, ltb, leb,
  if◌then◌else◌, add32, Result, ok, err, exits, out_of_fuel, ◌>>=◌, times,
}
use latency_under_load.Prelude.Int.{ℤ, pos, ◌+ℤ◌, ◌-ℤ◌, leb_ℤ}
use latency_under_load.Prelude.Memory.{write_bytes}
use latency_under_load.Queue
use latency_under_load.CBuffer.{Buffer, max_queued_massage, reserve_memory}
use latency_under_load.Config.{Config, Extra, opening, closing, non, num_extra_connection}
use latency_under_load.Connection.{
  Connection, get_write_buffer, set_write_buffer, add_unaknowledged_msg,
}
use latency_under_load.Ticks.{Calibration, Mode, nsec_in_sec, nsec2ticks}
use latency_under_load.Runner.{
  Runner, Pointer, connection_at, deref, put_connection, remove_connection,
}
use latency_under_load.Client.{
  Client, handle_socket_read, handle_connection_read, handle_socket_write, open_new_socket,
  connect_new_socket,
}
use latency_under_load.Os.{Os, Event}

-- The local variables of `run`: two points in time and a duration, in ticks.
pub record Schedule : Type 0 where
  pub next_send : ℤ
  pub last_conn : ℤ
  pub new_connection_period : ℤ

-- The bytes of an `unsigned int`, the lowest first.
abbrev pub bytes_of_uint : ℕ → List ℕ
bytes_of_uint n = n % 256 ∷ n / 256 % 256 ∷ n / 65_536 % 256 ∷ n / 16_777_216 % 256 ∷ []

-- `socket_list.push(fd); socket_list.pop()` after `fd = socket_list.front()`: the sockets take
-- turns.
unfoldable pub next_socket : Client → Result (ℕ × Client)
next_socket s = do
  fd ← Queue.front s.socket_list
  pushed ← Queue.push fd s.socket_list
  sockets ← Queue.pop pushed
  ok (fd, record s { socket_list = sockets })

-- The new message of a connection, with the bytes of `tick_counter`, at the time `now`.
unfoldable pub queue_message : Pointer → ℕ → Connection → Buffer → ℕ → ℤ → Client → Result Client
queue_message p i c b a now s = do
  let r = s.runner
  memory ← write_bytes b.buffer a (bytes_of_uint s.tick_counter)
  c' ← add_unaknowledged_msg now (set_write_buffer (record b { buffer = memory }) c)
  queue ← Queue.push p r.writable_socket_list
  let r' = record r { writable_socket_list = queue }
  ok (record s { runner = put_connection i c' r' })

module _ (os : Os) where
  open os use {World, epoll_wait, current_ticks, alarm}

  -- The message of the next socket, if its buffer has space.
  unfoldable pub new_message : Client → World → Result (Client × World)
  new_message s w = do
    (fd, s') ← next_socket s
    let at = connection_at fd s'.runner
    (i, c) ← deref at.0 at.1
    b ← get_write_buffer c
    (address, b') ← reserve_memory b
    let now = current_ticks w
    elim address [
      | some a ↦ do
        s'' ← queue_message at.0 i c b' a now.0 (record s' { runner = at.1 })
        ok (s'', now.1)
      | none ↦ ok (record s' { runner = put_connection i (set_write_buffer b' c) at.1 }, w)
    ]

  -- A send iteration, if its time has come.
  unfoldable pub send_iteration : ℤ → Client → Schedule → World → Result (Client × Schedule × World)
  send_iteration current s schedule w =
      if leb_ℤ schedule.next_send current
      then (do
        (s', w') ← new_message s w
        ok (
          record s' { tick_counter = add32 s'.tick_counter 1 },
          record schedule { next_send = schedule.next_send +ℤ s'.send_period },
          w',
        ))
      else ok (s, schedule, w)

  -- `remove_connection(socket_list.front()); socket_list.pop()`.
  unfoldable pub close_oldest : Client × World → Result (Client × World)
  close_oldest (s, w) = do
    fd ← Queue.front s.socket_list
    (r, w') ← remove_connection os fd s.runner w
    sockets ← Queue.pop s.socket_list
    ok (record s { runner = r; socket_list = sockets }, w')

  -- The body of the loop over the extra connections.
  unfoldable pub extra_connection : Extra → Client × World → Result (Client × World)
  extra_connection opening (s, w) = do w' ← open_new_socket os s.runner.config w; ok (s, w')
  extra_connection closing s = close_oldest s
  extra_connection non s = close_oldest s

  abbrev pub wants_extra : Extra → Bool
  wants_extra non = false
  wants_extra opening = true
  wants_extra closing = true

  -- The first send is due a period after `now`; the time is read again, and the alarm is set.
  abbrev pub start_sending : Client → Schedule → ℤ → World → Client × Schedule × World
  start_sending s schedule now w =
      let config = s.runner.config in
      let now' = current_ticks w in
      (
        record s { connection_is_established = true },
        record schedule { next_send = now +ℤ s.send_period; last_conn = now'.0 },
        alarm now'.1 (config.period + config.warm),
      )

  -- The start of the sending, once all sockets are connected.
  unfoldable pub establish : Client → Schedule → World → Client × Schedule × World
  establish s schedule w =
      let config = s.runner.config in
      let enough = leb config.number_connection (Queue.size s.socket_list) in
      if (if s.connection_is_established then false else enough)
      then start_sending s schedule (current_ticks w).0 (current_ticks w).1
      else (s, schedule, w)

  -- The loops over the queues, each as long as its queue is when the loop begins.
  unfoldable pub handle_reads : ℕ → Runner → World → Result (Runner × World)
  handle_reads fuel r w =
      times (Queue.size r.readable_socket_list) (λ t. handle_socket_read os fuel t.0 t.1) (r, w)

  unfoldable pub handle_writes : Client → World → Result (Client × World)
  handle_writes s w =
      times (Queue.size s.runner.writable_socket_list) (λ t. handle_socket_write os t.0 t.1) (s, w)

  module _ (calibration : Calibration) (mode : Mode) where
    -- The extra connections, if their time has come.
    unfoldable pub change_connections :
        ℤ → Client → Schedule → World → Result (Client × Schedule × World)
    change_connections current s schedule w =
        let config = s.runner.config in
        let due = leb_ℤ schedule.new_connection_period (current -ℤ schedule.last_conn) in
        if (if wants_extra config.extra_op then due else false)
        then (do
          (s', w') ← times num_extra_connection (extra_connection config.extra_op) (s, w)
          let now = current_ticks w'
          let period = nsec2ticks calibration mode (pos (nsec_in_sec * config.period))
          ok (s', record schedule { last_conn = now.0; new_connection_period = period }, now.1))
        else ok (s, schedule, w)

    -- What is done in each iteration once the connections are established.
    unfoldable pub established : Client → Schedule → World → Result (Client × Schedule × World)
    established s schedule w =
        if s.connection_is_established
        then (do
          let current = current_ticks w
          (s', schedule', w') ← change_connections current.0 s schedule current.1
          send_iteration current.0 s' schedule' w')
        else ok (s, schedule, w)

    unfoldable pub handle_event : Event → Client → World → Result (Client × World)
    handle_event e s w = if e.out then connect_new_socket os calibration mode e.fd s w else do
      let at = connection_at e.fd s.runner
      let r = at.1
      queue ← Queue.push at.0 r.readable_socket_list
      ok (record s { runner = record r { readable_socket_list = queue } }, w)

    unfoldable pub handle_events : List Event → Client → World → Result (Client × World)
    handle_events [] s w = ok (s, w)
    handle_events (e ∷ events) s w = do (s', w') ← handle_event e s w; handle_events events s' w'

    -- The answer of `epoll_wait`.
    unfoldable pub wait_events : Option (List Event) → Client → World → Result (Client × World)
    wait_events none s w = err exits
    wait_events (some events) s w = handle_events events s w

    -- The loop over the complete messages.
    unfoldable pub handle_replies : Runner → World → Result (Runner × World)
    handle_replies r w =
        times (Queue.size r.readable_connection_list)
          (λ t. handle_connection_read os calibration mode t.0 t.1) (r, w)

    -- The body of `while (!is_finished)`.
    unfoldable pub iteration : ℕ → Client → Schedule → World → Result (Client × Schedule × World)
    iteration fuel s schedule w = do
      (r₁, w₁) ← handle_reads fuel s.runner w
      (r₂, w₂) ← handle_replies r₁ w₁
      let start = establish (record s { runner = r₂ }) schedule w₂
      (s₃, schedule', w₃) ← established start.0 start.1 start.2
      (s₄, w₄) ← handle_writes s₃ w₃
      let answer = epoll_wait w₄ (max_queued_massage * s₄.runner.config.number_connection)
      (s₅, w₅) ← wait_events answer.0 s₄ answer.1
      ok (s₅, schedule', w₅)

    -- The loop, for the number of iterations after which the alarm has set `is_finished`.
    unfoldable pub iterations :
        ℕ → ℕ → Client → Schedule → World → Result (Client × Schedule × World)
    iterations zero fuel s schedule w = ok (s, schedule, w)
    iterations (suc n) fuel s schedule w = do
      (s', schedule', w') ← iteration fuel s schedule w
      iterations n fuel s' schedule' w'

  -- `while (socket_list.size())` at the end, with fuel.
  unfoldable pub close_all : ℕ → Client → World → Result (Client × World)
  close_all zero s w = if ltb 0 (Queue.size s.socket_list) then err out_of_fuel else ok (s, w)
  close_all (suc fuel) s w =
      if ltb 0 (Queue.size s.socket_list)
      then (do (s', w') ← close_oldest (s, w); close_all fuel s' w')
      else ok (s, w)

  module _ (calibration : Calibration) (mode : Mode) where
    -- The times at the start: the first extra connections are due after half of the test's period.
    unfoldable pub first_schedule : Config → Schedule
    first_schedule config =
        let half = nsec_in_sec * config.period / 2 in
        record {
          next_send = pos 0;
          last_conn = pos 0;
          new_connection_period = nsec2ticks calibration mode (pos half);
        }

    -- `run`, for the number of its iterations.
    unfoldable pub run : ℕ → ℕ → Client → World → Result (Client × World)
    run n fuel s w = do
      (s', schedule, w') ← iterations calibration mode n fuel s (first_schedule s.runner.config) w
      close_all (Queue.size s'.socket_list) s' w'
