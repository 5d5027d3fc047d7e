-- ===== src/Echo.antt =====
-- A message on its way from the client to the server and back: `client_t::run`, `handle_socket_read`
-- of both sides and `handle_connection_read` of the server, with a network that delivers what was
-- sent, in any pieces.
pub mod Sent
pub mod Arrived
pub mod Back
use latency_under_load.Prelude.{
  ℕ, ◌≡◌, Option, none, some, true, List, [], ◌∷◌, arith, length, get_elem?, take, ok,
}
use latency_under_load.Prelude.Memory.{read_bytes}
use latency_under_load.Queue.Refine.{Represents}
use latency_under_load.CBuffer.{Buffer, get_buffer_head}
use latency_under_load.Connection.{Connection}
use latency_under_load.Runner.{Runner, Pointer}
use latency_under_load.Runner.Inv.{Inv}
use latency_under_load.Server.{sizeof_msg_id}

-- The bytes that the connection at place `i` sends as its message.
abbrev pub outgoing : ℕ → ℕ → Runner → List ℕ
outgoing m i r = elim (get_elem? r.heap i) [
  | none ↦ []
  | some c ↦ elim c.read_buffer [ none ↦ [] | some b ↦ take m b.buffer ]
]

-- The connection `c` at place `i` is the next to be read from, into `b` at the beginning of a message,
-- and no complete message waits.
pub record Awaits (m i : ℕ) (c : Connection) (b : Buffer) (r : Runner) : Type 0 where
  pub inv : Inv m r
  pub rest : List Pointer
  pub ready : Represents r.readable_socket_list (some i ∷ rest)
  pub at : get_elem? r.heap i ≡ some c
  pub valid : c.valid ≡ true
  pub buffer_is : c.write_buffer ≡ some b
  pub begins : b.last_msg_offset ≡ 0
  pub head : b.first_msg_offset ≡ 0
  pub none_complete : Represents r.readable_connection_list []

-- The connection at place `i` has received a message with the number `id`; its other buffer is
-- `target`.
pub record Holds (i : ℕ) (id : List ℕ) (target : Option Buffer) (r : Runner) : Type 0 where
  pub c : Connection
  pub b : Buffer
  pub at : get_elem? r.heap i ≡ some c
  pub valid : c.valid ≡ true
  pub buffer_is : c.write_buffer ≡ some b
  pub target_is : c.read_buffer ≡ target
  pub number : read_bytes b.buffer (get_buffer_head b) sizeof_msg_id ≡ ok id

-- That message is the one to be handled next.
pub record HasRead (m i : ℕ) (id : List ℕ) (target : Option Buffer) (r : Runner) : Type 0 where
  pub holds : Holds i id target r
  pub complete : Represents r.readable_connection_list (some i ∷ [])

-- A read of bytes that succeeds.
pub read_bytes-take :
    (memory : List ℕ) (n : ℕ) (bytes : List ℕ)
    → read_bytes memory 0 n ≡ ok bytes
    → take n memory ≡ bytes
unfolding read_bytes
read_bytes-take memory n bytes e = ground (arith, e)

-- The bytes are a message of `m` bytes with the number `id`.
abbrev pub IsMessage : ℕ → List ℕ → List ℕ → Type 0
IsMessage m id bytes = (length bytes ≡ m) × (take sizeof_msg_id bytes ≡ id)
