-- ===== src/Client.antt =====
-- `client_t` of client.cpp: its state, the handlers of the queues, and the opening of connections.
-- The children have the loop, the report and the proofs.
pub mod Loop
pub mod Start
pub mod Report
pub mod Read
pub mod Turns
pub mod Write
pub mod Times
pub mod Saved
pub mod Close
pub mod Run
pub mod Replies
pub mod Kept
pub mod Loops
pub mod Sockets
pub mod Plays
pub mod Message
pub mod Change
pub mod Connect
pub mod Events
pub mod Errors
pub mod Opened
pub mod Reported
pub mod Iteration
pub mod Whole
pub mod Reassembly
pub mod Transmit
use latency_under_load.Prelude.{
  true, ℕ, zero, suc, ◌+◌, ◌*◌, ◌/◌, Option, none, some, Bool, false, if◌then◌else◌, ◌==◌, sub32,
  add32, mul32, Result, ok, err, exits, faults, out_of_fuel, ◌>>=◌, times,
}
use latency_under_load.Prelude.Int.{ℤ, pos}
use latency_under_load.Prelude.Memory.{read_bytes}
use latency_under_load.Queue.{Queue, new_queue}
use latency_under_load.Queue
use latency_under_load.CBuffer.{
  Buffer, free_memory, get_buffer_head, get_first_msg_offset, increase_first_msg_offset,
}
use latency_under_load.Config.{Config, Extra, opening, closing, non, num_extra_connection}
use latency_under_load.Connection.{
  Connection, get_read_buffer, get_write_buffer, set_read_buffer, set_write_buffer, record_msg_rtt,
}
use latency_under_load.Ticks.{Calibration, Mode, nsec_in_sec, nsec2ticks}
use latency_under_load.Runner.{
  Runner, Pointer, Attempt, no_room, some_bytes, no_bytes, new_runner, deref, put_connection, check,
  set_socket_option, add_new_connection, receive_once,
}
use latency_under_load.Os.{
  Os, Received, got, closed, failed, Sent, took, refused, Connected, connected, not_connected,
  eagain, econnreset, ebadf, einprogress, other,
}

-- A duration is its ticks.
pub record Client : Type 0 where
  pub runner : Runner
  pub socket_list : Queue ℕ
  pub tick_counter : ℕ
  pub connection_is_established : Bool
  pub sent_message : ℕ
  pub send_period : ℤ

-- `config.number_connection` of `init_socket`, which counts the connections to close too.
abbrev pub connections_to_open : Extra → ℕ → ℕ
connections_to_open closing n = n + num_extra_connection
connections_to_open opening n = n
connections_to_open non n = n

-- `TicksDuration(NSEC_IN_SEC / n)`.
unfoldable pub period_of : Calibration → Mode → ℕ → Result ℤ
period_of calibration mode n =
    if n == 0 then err faults else ok (nsec2ticks calibration mode (pos (nsec_in_sec / n)))

-- The fields that the constructor sets, up to `init_socket`. The queue of sockets is made before
-- `init_socket` counts the connections to close.
unfoldable pub made_client : Config → ℤ → Client
made_client config send_period =
    let n = connections_to_open config.extra_op config.number_connection in
    record {
      runner = record (new_runner config) { config = record config { number_connection = n } };
      socket_list = new_queue (config.number_connection + num_extra_connection);
      tick_counter = 0;
      connection_is_established = false;
      sent_message = 0;
      send_period = send_period;
    }

-- The constructor, which divides by the number of messages of a second.
unfoldable pub new_client : Calibration → Mode → Config → Result Client
new_client calibration mode config =
    period_of calibration mode (config.mps * config.number_connection) >>= λ period.
    ok (made_client config period)

-- What `handle_connection_read` does with a message of a valid connection, at the time `now`.
unfoldable pub record_message : Calibration → Mode → ℤ → ℕ → Connection → Runner → Result Runner
record_message calibration mode now i c r = do
  c' ← record_msg_rtt calibration mode now c
  b ← get_read_buffer c'
  ok (put_connection i (set_read_buffer (free_memory b) c') r)

-- After `send` has taken `k` bytes of the `data_size` that it was given.
unfoldable pub sent_bytes : Pointer → ℕ → Connection → Buffer → ℕ → ℕ → Client → Result Client
sent_bytes p i c b data_size k s =
    let b' = increase_first_msg_offset k b in
    let r = s.runner in
    if k == data_size
    then ok (record s {
      runner = put_connection i (set_write_buffer (free_memory b') c) r;
      sent_message = add32 s.sent_message 1;
    })
    else do
      queue ← Queue.push p r.writable_socket_list
      let r' = record r { writable_socket_list = queue }
      ok (record s { runner = put_connection i (set_write_buffer b' c) r' })

module _ (os : Os) where
  open os use {World, send, socket, connect, epoll_add, epoll_del, current_ticks}

  -- The read loop stops: there is nothing to read, or the program exits.
  unfoldable pub stop_read : Received → Runner → World → Result (Runner × World)
  stop_read (got bytes) r w = ok (r, w)
  stop_read closed r w = err exits
  stop_read (failed eagain) r w = ok (r, w)
  stop_read (failed econnreset) r w = err exits
  stop_read (failed ebadf) r w = err exits
  stop_read (failed einprogress) r w = err exits
  stop_read (failed other) r w = err exits

  -- The end of a round of `while(true)` in `handle_socket_read`, with the rounds that follow.
  unfoldable pub read_next :
      (Runner → World → Result (Runner × World))
      → Pointer
      → Attempt
      → Runner
      → World
      → Result (Runner × World)
  read_next again p some_bytes r w = again r w
  read_next again p (no_bytes reply) r w = stop_read reply r w
  read_next again p no_room r w = do
    queue ← Queue.push p r.readable_socket_list
    ok (record r { readable_socket_list = queue }, w)

  -- `while(true)` of `handle_socket_read`, with fuel for its rounds.
  unfoldable pub read_loop : ℕ → Pointer → Runner → World → Result (Runner × World)
  read_loop zero p r w = err out_of_fuel
  read_loop (suc fuel) p r w = do
    (attempt, r', w') ← receive_once os p r w
    read_next (read_loop fuel p) p attempt r' w'

  unfoldable pub handle_socket_read : ℕ → Runner → World → Result (Runner × World)
  handle_socket_read fuel r w = do
    p ← Queue.front r.readable_socket_list
    queue ← Queue.pop r.readable_socket_list
    let r' = record r { readable_socket_list = queue }
    (i, c) ← deref p r'
    if c.valid then read_loop fuel p r' w else ok (r', w)

  unfoldable pub handle_connection_read :
      Calibration → Mode → Runner → World → Result (Runner × World)
  handle_connection_read calibration mode r w = do
    p ← Queue.front r.readable_connection_list
    queue ← Queue.pop r.readable_connection_list
    let r' = record r { readable_connection_list = queue }
    (i, c) ← deref p r'
    let at = current_ticks w
    if c.valid
        then (do r'' ← record_message calibration mode at.0 i c r'; ok (r'', at.1))
        else ok (r', w)

  -- What `handle_socket_write` does with the answer of `send`, which was given `data_size` bytes.
  unfoldable pub after_send :
      Pointer → ℕ → Connection → Buffer → ℕ → Client → Sent → World → Result (Client × World)
  after_send p i c b data_size s (took k) w = do s' ← sent_bytes p i c b data_size k s; ok (s', w)
  after_send p i c b data_size s (refused eagain) w = do
    let r = s.runner
    queue ← Queue.push p r.writable_socket_list
    ok (record s { runner = record r { writable_socket_list = queue } }, w)
  after_send p i c b data_size s (refused econnreset) w = err exits
  after_send p i c b data_size s (refused ebadf) w = err exits
  after_send p i c b data_size s (refused einprogress) w = err exits
  after_send p i c b data_size s (refused other) w = err exits

  -- What `handle_socket_write` does with a valid connection.
  unfoldable pub send_message : Pointer → ℕ → Connection → Client → World → Result (Client × World)
  send_message p i c s w = do
    b ← get_write_buffer c
    let data_size = sub32 s.runner.config.message_size (get_first_msg_offset b)
    bytes ← read_bytes b.buffer (get_buffer_head b) data_size
    let reply = send w c.fd bytes
    after_send p i c b data_size s reply.0 reply.1

  unfoldable pub handle_socket_write : Client → World → Result (Client × World)
  handle_socket_write s w = do
    let r = s.runner
    p ← Queue.front r.writable_socket_list
    queue ← Queue.pop r.writable_socket_list
    let r' = record r { writable_socket_list = queue }
    let s' = record s { runner = r' }
    (i, c) ← deref p r'
    if c.valid then send_message p i c s' w else ok (s', w)

  -- The answer of `connect`: a socket that is connected, or is connecting, is waited for.
  unfoldable pub after_connect : ℕ → Connected → World → Result World
  after_connect fd connected w = check os (epoll_add w fd true)
  after_connect fd (not_connected einprogress) w = check os (epoll_add w fd true)
  after_connect fd (not_connected eagain) w = err exits
  after_connect fd (not_connected econnreset) w = err exits
  after_connect fd (not_connected ebadf) w = err exits
  after_connect fd (not_connected other) w = err exits

  -- A new socket gets its options and connects.
  unfoldable pub open_socket : Config → Option ℕ → World → Result World
  open_socket config none w = err exits
  open_socket config (some fd) w = do
    w' ← set_socket_option os config fd w
    let reply = connect w' fd
    after_connect fd reply.0 reply.1

  unfoldable pub open_new_socket : Config → World → Result World
  open_new_socket config w = open_socket config (socket w).0 (socket w).1

  -- `init_socket`, once the connections are counted.
  unfoldable pub open_sockets : Client → World → Result World
  open_sockets s w = times s.runner.config.number_connection (open_new_socket s.runner.config) w

  -- A socket has been connected. The product of an `int` and an `unsigned int` wraps round.
  unfoldable pub connect_new_socket :
      Calibration → Mode → ℕ → Client → World → Result (Client × World)
  connect_new_socket calibration mode fd s w = do
    let w' = (epoll_del w fd).1
    sockets ← Queue.push fd s.socket_list
    period ← period_of calibration mode (mul32 s.runner.config.mps (Queue.size sockets))
    (r, w'') ← add_new_connection os fd s.runner w'
    ok (record s { runner = r; socket_list = sockets; send_period = period }, w'')
