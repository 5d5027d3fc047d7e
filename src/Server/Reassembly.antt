-- ===== src/Server/Reassembly.antt =====
-- What the read loop of the server makes of the bytes that a socket delivers, in whatever pieces.
use latency_under_load.Prelude.{
  ℕ, zero, suc, ◌+◌, ◌-◌, ◌≤◌, ◌<◌, ◌≡◌, refl, ap, ◌∙◌, some, Bool, true, if◌then◌else◌, get_elem?,
  List, arith, length, ok, ◌>>=◌,
}
use latency_under_load.CBuffer.{Buffer}
use latency_under_load.Connection.{Connection, set_read_buffer}
use latency_under_load.Queue.{Queue}
use latency_under_load.Queue
use latency_under_load.Runner.{Runner, Pointer}
use latency_under_load.Runner.Inv.{Inv, deref_at}
use latency_under_load.Runner.Stream.{
  Receives, Delivers, dry, piece, put_bytes, put_piece, stream_of, received, streamed, push_times,
  Inv-Receives,
}
use latency_under_load.Runner.Stream.Rounds.{piece-Receives, receive_once-dry, receive_once-then}
use latency_under_load.Server.{handle_socket_read, read_loop, read_next, stop_read}
use latency_under_load.Os.{Os, IsOs}

module _ (os : Os) (is_os : IsOs os) (m i : ℕ) where
  read_loop-eq :
      (fuel : ℕ) (c : Connection) (b : Buffer) (r : Runner) (w w' : os.World) (bytes : List ℕ)
      → Receives m i c b r
      → Delivers os m c.fd b.last_msg_offset w bytes w'
      → os.pending w c.fd < fuel
      → (let s = put_bytes m bytes (stream_of b) in
          read_loop os fuel (some i) r w ≡ (
            push_times s.complete (some i) r.readable_connection_list >>= λ q.
            ok (streamed i c b r s q, w')))
  unfolding read_loop read_next stop_read
  read_loop-eq zero c b r w w' bytes v d enough = absurd (omega arith)
  read_loop-eq (suc fuel) c b r w w' bytes v (dry e) enough =
      rw (receive_once-dry m i c b r v os w w' e) refl
  read_loop-eq (suc fuel) c b r w w' bytes v (piece {w₁ = w₁} {bytes = bytes₁} {rest = rest} e d)
        enough =
      let (has, few, fewer) = is_os.recv_bounds w c.fd (m - b.last_msg_offset) bytes₁ w₁ e in
      let inside : b.last_msg_offset + length bytes₁ ≤ m =
        omega (arith, v.size, v.slot.last_offset) in
      let s = put_piece m bytes₁ (stream_of b) in
      receive_once-then m i c b r v os w w₁ bytes₁ rest w' _ e has inside (λ q.
        read_loop-eq fuel (set_read_buffer (received b s) c) (received b s) (streamed i c b r s q)
          w₁ w' rest (piece-Receives m i c b r v bytes₁ q inside) d (omega arith))

  -- For the socket at the head of the queue of readable sockets, of a valid connection of a runner
  -- in its invariant, with more fuel than the socket has bytes pending: whatever pieces the bytes come in
  -- until `recv` has nothing more, `handle_socket_read` of the server puts them one at a time to their places in the
  -- slot of the connection's buffer, beginning a new message after each `m` bytes, and queues the
  -- connection once for each message that is completed, unless that queue is full.
  pub handle_socket_read-eq :
      (fuel : ℕ) (c : Connection) (b : Buffer) (r : Runner) (w w' : os.World) (bytes : List ℕ)
      (queue : Queue Pointer)
      → Inv m r
      → Queue.front r.readable_socket_list ≡ ok (some i)
      → Queue.pop r.readable_socket_list ≡ ok queue
      → get_elem? r.heap i ≡ some c
      → c.valid ≡ true
      → c.write_buffer ≡ some b
      → Delivers os m c.fd b.last_msg_offset w bytes w'
      → os.pending w c.fd < fuel
      → (let s = put_bytes m bytes (stream_of b) in
          handle_socket_read os fuel r w ≡ (
            push_times s.complete (some i) r.readable_connection_list >>= λ q.
            ok (streamed i c b (record r { readable_socket_list = queue }) s q, w')))
  unfolding handle_socket_read
  handle_socket_read-eq fuel c b r w w' bytes queue v front pop at valid buffer_is d enough =
      let r' : Runner = record r { readable_socket_list = queue } in
      rw (front, pop, deref_at r' i c at)
        (ap (λ (live : Bool). if live then read_loop os fuel (some i) r' w else ok (r', w)) valid
          ∙ read_loop-eq fuel c b r' w w' bytes (Inv-Receives m i c b r queue v at valid buffer_is)
              d enough)
