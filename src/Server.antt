-- ===== src/Server.antt =====
-- `server_t` of server.cpp: the handlers of its three queues. The children have the loop that calls
-- them, and the proofs.
pub mod Read
pub mod Answer
pub mod Write
pub mod Loop
pub mod Run
pub mod Sensible
pub mod Start
pub mod Linked
pub mod Opened
pub mod Events
pub mod Whole
pub mod Reassembly
pub mod Transmit
use latency_under_load.Prelude.{
  ℕ, zero, suc, none, some, if◌then◌else◌, ◌==◌, sub32, add32, Result, ok, err, exits, out_of_fuel,
  ◌>>=◌,
}
use latency_under_load.Prelude.Memory.{write_bytes, read_bytes}
use latency_under_load.Queue
use latency_under_load.CBuffer.{
  Buffer, reserve_memory, free_memory, get_buffer_head, get_first_msg_offset,
  increase_first_msg_offset,
}
use latency_under_load.Connection.{Connection, get_read_buffer, get_write_buffer, set_write_buffer}
use latency_under_load.Runner.{
  Runner, Pointer, Attempt, no_room, some_bytes, no_bytes, deref, put_connection, remove_connection,
  receive_once,
}
use latency_under_load.Os.{
  Os, Received, got, closed, failed, Sent, took, refused, Errno, eagain, econnreset, ebadf,
  einprogress, other,
}

-- `sizeof(unsigned int)`.
abbrev pub sizeof_msg_id : ℕ
sizeof_msg_id = 4

-- What `handle_connection_read` does with a message of a valid connection: it copies the message's
-- number into memory that it reserves for the answer.
unfoldable pub answer : Pointer → ℕ → Connection → Runner → Result Runner
answer p i c r = do
  source ← get_read_buffer c
  target ← get_write_buffer c
  (address, target') ← reserve_memory target
  elim address [
    | some a ↦ do
      msg_id ← read_bytes source.buffer (get_buffer_head source) sizeof_msg_id
      memory ← write_bytes target'.buffer a msg_id
      queue ← Queue.push p r.writable_socket_list
      let target'' = free_memory (record target' { buffer = memory })
      ok (
          put_connection i (set_write_buffer target'' c)
            (record r { writable_socket_list = queue }))
    | none ↦ do
      queue ← Queue.push p r.readable_connection_list
      ok (
          put_connection i (set_write_buffer target' c)
            (record r { readable_connection_list = queue }))
  ]

unfoldable pub handle_connection_read : Runner → Result Runner
handle_connection_read r = do
  p ← Queue.front r.readable_connection_list
  queue ← Queue.pop r.readable_connection_list
  let r' = record r { readable_connection_list = queue }
  (i, c) ← deref p r'
  if c.valid then answer p i c r' else ok r'

-- After `send` has taken `k` bytes of the `data_size` that it was given.
unfoldable pub sent_bytes : Pointer → ℕ → Connection → Buffer → ℕ → ℕ → Runner → Result Runner
sent_bytes p i c b data_size k r =
    if k == data_size
    then ok (
        put_connection i (set_write_buffer (increase_first_msg_offset k (free_memory b)) c)
          (record r { msg_count = add32 r.msg_count 1 }))
    else do
      queue ← Queue.push p r.writable_socket_list
      ok (
          put_connection i (set_write_buffer (increase_first_msg_offset k b) c)
            (record r { writable_socket_list = queue }))

module _ (os : Os) where
  open os use {World, send, accept, epoll_wait}

  -- `remove_connection(current_connection->get_fd())`.
  unfoldable pub drop_connection : Pointer → Runner → World → Result (Runner × World)
  drop_connection p r w = do (i, c) ← deref p r; remove_connection os c.fd r w

  -- The read loop stops: the peer has closed or reset the connection, there is nothing to read, or
  -- the program exits.
  unfoldable pub stop_read : Pointer → Received → Runner → World → Result (Runner × World)
  stop_read p (got bytes) r w = ok (r, w)
  stop_read p closed r w = drop_connection p r w
  stop_read p (failed econnreset) r w = drop_connection p r w
  stop_read p (failed eagain) r w = ok (r, w)
  stop_read p (failed ebadf) r w = ok (r, w)
  stop_read p (failed einprogress) r w = err exits
  stop_read p (failed other) r w = err exits

  -- The end of a round of `while(true)` in `handle_socket_read`, with the rounds that follow.
  unfoldable pub read_next :
      (Runner → World → Result (Runner × World))
      → Pointer
      → Attempt
      → Runner
      → World
      → Result (Runner × World)
  read_next again p some_bytes r w = again r w
  read_next again p (no_bytes reply) r w = stop_read p reply r w
  read_next again p no_room r w = do
    queue ← Queue.push p r.readable_socket_list
    ok (record r { readable_socket_list = queue }, w)

  -- `while(true)` of `handle_socket_read`, with fuel for its rounds.
  unfoldable pub read_loop : ℕ → Pointer → Runner → World → Result (Runner × World)
  read_loop zero p r w = err out_of_fuel
  read_loop (suc fuel) p r w = do
    (attempt, r', w') ← receive_once os p r w
    read_next (read_loop fuel p) p attempt r' w'

  unfoldable pub handle_socket_read : ℕ → Runner → World → Result (Runner × World)
  handle_socket_read fuel r w = do
    p ← Queue.front r.readable_socket_list
    queue ← Queue.pop r.readable_socket_list
    let r' = record r { readable_socket_list = queue }
    (i, c) ← deref p r'
    if c.valid then read_loop fuel p r' w else ok (r', w)

  -- After `send` has returned -1.
  unfoldable pub send_refused :
      Pointer → Connection → Errno → Runner → World → Result (Runner × World)
  send_refused p c eagain r w = do
    queue ← Queue.push p r.writable_socket_list
    ok (record r { writable_socket_list = queue }, w)
  send_refused p c econnreset r w = remove_connection os c.fd r w
  send_refused p c ebadf r w = ok (r, w)
  send_refused p c einprogress r w = err exits
  send_refused p c other r w = err exits

  -- What `handle_socket_write` does with the answer of `send`, which was given `data_size` bytes.
  unfoldable pub after_send :
      Pointer → ℕ → Connection → Buffer → ℕ → Runner → Sent → World → Result (Runner × World)
  after_send p i c b data_size r (took k) w = do r' ← sent_bytes p i c b data_size k r; ok (r', w)
  after_send p i c b data_size r (refused e) w = send_refused p c e r w

  -- What `handle_socket_write` does with a valid connection.
  unfoldable pub send_message : Pointer → ℕ → Connection → Runner → World → Result (Runner × World)
  send_message p i c r w = do
    b ← get_write_buffer c
    let data_size = sub32 r.config.message_size (get_first_msg_offset b)
    bytes ← read_bytes b.buffer (get_buffer_head b) data_size
    let reply = send w c.fd bytes
    after_send p i c b data_size r reply.0 reply.1

  unfoldable pub handle_socket_write : Runner → World → Result (Runner × World)
  handle_socket_write r w = do
    p ← Queue.front r.writable_socket_list
    queue ← Queue.pop r.writable_socket_list
    let r' = record r { writable_socket_list = queue }
    (i, c) ← deref p r'
    if c.valid then send_message p i c r' w else ok (r', w)
