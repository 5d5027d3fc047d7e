-- ===== src/Runner.antt =====
-- `runner_t` of common.h and common.cpp: the state that the server and the client share, and what
-- they do to it with a socket.
pub mod Inv
pub mod Receive
pub mod Add
pub mod Send
pub mod Kept
pub mod Options
pub mod Linked
pub mod Polled
pub mod Quiet
pub mod Mapped
pub mod Stream
pub mod Wire
use Prim.Native.Nat.{bit_or}
use latency_under_load.Prelude.{
  ℕ, ◌+◌, ◌*◌, Option, none, some, Bool, true, false, List, [], ◌∷◌, ◌++◌, if◌then◌else◌, ltb, ◌==◌,
  sub32, length, get_elem?, set, Result, ok, err, faults, exits, ◌>>=◌,
}
use latency_under_load.Prelude.Memory.{write_bytes}
use latency_under_load.Queue.{Queue, new_queue}
use latency_under_load.Queue
use latency_under_load.CBuffer.{
  Buffer, max_queued_massage, reserve_memory, increase_last_msg_offset, get_last_msg_offset,
}
use latency_under_load.Config.{Config, num_extra_connection, snd_rcv_buffer_size}
use latency_under_load.Connection.{Connection, new_connection, get_read_buffer, set_read_buffer}
use latency_under_load.Connection
use latency_under_load.Os.{Os, Received, got, closed, failed}

-- A `connection_t*`: a place on the heap of the connections, or null. No connection is deleted.
abbrev pub Pointer : Type 0
Pointer = Option ℕ

pub record Runner : Type 0 where
  pub config : Config
  pub msg_count : ℕ
  pub writable_socket_list : Queue Pointer
  pub readable_socket_list : Queue Pointer
  pub readable_connection_list : Queue Pointer
  pub connection_list : List (ℕ × Pointer)
  pub heap : List Connection

-- The constructor.
unfoldable pub new_runner : Config → Runner
new_runner config =
    let max_size = config.mps * (config.number_connection + num_extra_connection) in
    record {
      config = config;
      msg_count = 0;
      writable_socket_list = new_queue max_size;
      readable_socket_list = new_queue max_size;
      readable_connection_list = new_queue max_size;
      connection_list = [];
      heap = [];
    }

-- `std::map`: its entries by ascending key.
module _ {ℓ} {V : Type ℓ} where
  unfoldable pub lookup : ℕ → List (ℕ × V) → Option V
  lookup k [] = none
  lookup k ((j, v) ∷ m) = if j == k then some v else lookup k m

  unfoldable pub insert : ℕ → V → List (ℕ × V) → List (ℕ × V)
  insert k v [] = (k, v) ∷ []
  insert k v ((j, w) ∷ m) =
      if ltb k j then (k, v) ∷ (j, w) ∷ m else if j == k then (k, v) ∷ m else (j, w) ∷ insert k v m

-- `connection_list[fd]`, which puts a null pointer at a missing key.
unfoldable pub connection_at : ℕ → Runner → Pointer × Runner
connection_at fd r = elim (lookup fd r.connection_list) [
  | some p ↦ (p, r)
  | none ↦ (none, record r { connection_list = insert fd none r.connection_list })
]

-- `*p`, with the place on the heap.
unfoldable pub deref : Pointer → Runner → Result (ℕ × Connection)
deref none r = err faults
deref (some i) r = elim (get_elem? r.heap i) [ none ↦ err faults | some c ↦ ok (i, c) ]

abbrev pub put_connection : ℕ → Connection → Runner → Runner
put_connection i c r = record r { heap = set r.heap i c }

-- How one round of a read loop ends: the buffer had no room, some bytes came, or `recv` returned 0
-- or -1.
pub data Attempt : Type 0 where
  no_room some_bytes : Attempt
  no_bytes : Received → Attempt

-- What a round of the read loop does with the answer of `recv`, which was asked for `data_size`
-- bytes at the address `a` of the buffer `b`.
unfoldable pub receive_reply :
    Pointer → ℕ → Connection → Buffer → ℕ → ℕ → Runner → Received → Result (Attempt × Runner)
receive_reply p i c b a data_size r (got bytes) = do
  memory ← write_bytes b.buffer a bytes
  let b' = increase_last_msg_offset (length bytes) (record b { buffer = memory })
  full ←
      (if length bytes == data_size
        then Queue.push p r.readable_connection_list
        else ok r.readable_connection_list)
  ok (
    some_bytes,
    put_connection i (set_read_buffer b' c) (record r { readable_connection_list = full }),
  )
receive_reply p i c b a data_size r closed =
    ok (no_bytes closed, put_connection i (set_read_buffer b c) r)
receive_reply p i c b a data_size r (failed e) =
    ok (no_bytes (failed e), put_connection i (set_read_buffer b c) r)

-- The flag of non-blocking sockets.
abbrev pub o_nonblock : ℕ
o_nonblock = 0x800

module _ (os : Os) where
  open os use {
    World, recv, epoll_create, epoll_add, epoll_del, close, fcntl_getfl, fcntl_setfl,
    setsockopt_rcvbuf, setsockopt_sndbuf, setsockopt_nodelay,
  }

  -- `CHECK_NOT_EQUAL(…, rc, -1, exit(-1))`.
  abbrev pub check : Bool × World → Result World
  check (true, w) = ok w
  check (false, w) = err exits

  -- The same for a call that returns a file descriptor.
  abbrev pub check_fd : Option ℕ × World → Result (ℕ × World)
  check_fd (some fd, w) = ok (fd, w)
  check_fd (none, w) = err exits

  -- The file descriptor that the events are waited for at.
  unfoldable pub init_epoll : Config → World → Result (ℕ × World)
  init_epoll config w = check_fd (epoll_create w (max_queued_massage * config.number_connection))

  -- `flags |= O_NONBLOCK`; a failure is the result -1.
  unfoldable pub set_nonblocking_socket : ℕ → World → Bool × World
  set_nonblocking_socket fd w =
      let (flags, w') = fcntl_getfl w fd in
      elim flags [ none ↦ (false, w') | some f ↦ fcntl_setfl w' fd (bit_or f o_nonblock) ]

  unfoldable pub set_socket_option : Config → ℕ → World → Result World
  set_socket_option config fd w = do
    w₁ ← check (setsockopt_rcvbuf w fd snd_rcv_buffer_size)
    w₂ ← check (setsockopt_sndbuf w₁ fd snd_rcv_buffer_size)
    w₃ ← (if config.tcp_nodelay then check (setsockopt_nodelay w₂ fd) else ok w₂)
    check (set_nonblocking_socket fd w₃)

  unfoldable pub add_new_connection : ℕ → Runner → World → Result (Runner × World)
  add_new_connection fd r w = do
    w' ← check (epoll_add w fd false)
    ok (
      record r {
        connection_list = insert fd (some (length r.heap)) r.connection_list;
        heap = r.heap ++ new_connection r.config fd (length r.connection_list) ∷ [];
      },
      w',
    )

  -- What `epoll_ctl` and `close` return is not looked at.
  unfoldable pub remove_connection : ℕ → Runner → World → Result (Runner × World)
  remove_connection fd r w = do
    let at = connection_at fd r
    (i, c) ← deref at.0 at.1
    c' ← Connection.remove_connection c
    ok (put_connection i c' at.1, (close (epoll_del w fd).1 fd).1)

  -- The rest of a round of the read loop, at the reserved address `a`.
  unfoldable pub receive_at :
      Pointer → ℕ → Connection → Buffer → ℕ → Runner → World → Result (Attempt × Runner × World)
  receive_at p i c b a r w = do
    let data_size = sub32 r.config.message_size (get_last_msg_offset b)
    let reply = recv w c.fd data_size
    (attempt, r') ← receive_reply p i c b a data_size r reply.0
    ok (attempt, r', reply.1)

  -- A round of the read loop, which is the same in the server and in the client up to what they do
  -- when `recv` returns 0 or -1.
  unfoldable pub receive_once : Pointer → Runner → World → Result (Attempt × Runner × World)
  receive_once p r w = do
    (i, c) ← deref p r
    b ← get_read_buffer c
    (address, b') ← reserve_memory b
    elim address [
      | some a ↦ receive_at p i c b' a r w
      | none ↦ ok (no_room, put_connection i (set_read_buffer b' c) r, w)
    ]
