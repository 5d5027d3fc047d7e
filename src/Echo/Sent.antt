-- ===== src/Echo/Sent.antt =====
-- A message as it leaves a connection, and the one that the client puts into its next socket's.
use latency_under_load.Prelude.{
  ℕ, ◌≤◌, ◌≡◌, refl, ◌∙◌, some, true, List, ◌∷◌, arith, get_elem?, get_elem?-set_self,
  lt_of_get_elem?, take, Returns, Returns->>=, after, inl, inr, no_space,
}
use latency_under_load.Prelude.Int.{ℤ}
use latency_under_load.Prelude.Memory.{
  take-take, overwrite, length-overwrite, read-overwrite_self, write_bytes-ok, length-take_le,
}
use latency_under_load.Queue.{Queue}
use latency_under_load.Queue
use latency_under_load.Queue.Refine.{Represents}
use latency_under_load.CBuffer.{Buffer}
use latency_under_load.CBuffer.OneSlot.{IsOneSlot, reserved, filled-IsOneSlot, reserved-IsOneSlot}
use latency_under_load.Connection.{Connection, alive, set_write_buffer, add_unaknowledged_msg}
use latency_under_load.Runner.{Runner, lookup, put_connection}
use latency_under_load.Runner.Inv.{Inv, Inv-HasBuffers}
use latency_under_load.Server.{sizeof_msg_id}
use latency_under_load.Client.{Client}
use latency_under_load.Client.Loop.{bytes_of_uint, queue_message, new_message}
use latency_under_load.Client.Message.{new_message-eq, no_turn}
use latency_under_load.Client.Turns.{next_socket_lem}
use latency_under_load.Os.{Os}
use latency_under_load.Echo.{outgoing, IsMessage}

module _ (m : ℕ) (some_id : sizeof_msg_id ≤ m) where
  -- What a valid connection sends whose write buffer begins with the number.
  pub outgoing-IsMessage :
      (i : ℕ) (c : Connection) (b : Buffer) (r : Runner) (id : List ℕ)
      → get_elem? r.heap i ≡ some c
      → c.read_buffer ≡ some b
      → IsOneSlot b
      → b.msg_size ≡ m
      → take sizeof_msg_id b.buffer ≡ id
      → IsMessage m id (outgoing m i r)
  outgoing-IsMessage i c b r id at buffer_is slot size number =
      let same : outgoing m i r ≡ take m b.buffer = ground (arith, at, buffer_is) in
      rw same (
        length-take_le m b.buffer (omega (arith, slot.allocated, slot.sized)),
        take-take sizeof_msg_id m b.buffer some_id ∙ number,
      )

  module _ (os : Os) (s : Client) (i : ℕ) (c : Connection) (b : Buffer) (v : Inv m s.runner)
      (at : get_elem? s.runner.heap i ≡ some c) (buffer_is : c.read_buffer ≡ some b)
      (slot : IsOneSlot b) (size : b.msg_size ≡ m) (begins : b.last_msg_offset ≡ 0) where
    queue_message-IsMessage :
        (now : ℤ)
        → Returns
            (queue_message (some i) i c (reserved b) b.last_msg_offset now s)
            (λ s'. IsMessage m (bytes_of_uint s.tick_counter) (outgoing m i s'.runner))
    unfolding queue_message add_unaknowledged_msg
    queue_message-IsMessage now =
        let id = bytes_of_uint s.tick_counter in
        let memory = overwrite b.buffer b.last_msg_offset id in
        let r : Runner = s.runner in
        let b' : Buffer = record (reserved b) { buffer = memory } in
        let d : Connection = set_write_buffer b' c in
        rw
          (write_bytes-ok b.buffer b.last_msg_offset id
            (omega (arith, begins, some_id, size, slot.allocated, slot.sized)))
          (Returns->>= (add_unaknowledged_msg now d) _ (λ c'. c'.read_buffer ≡ some b') _
            (after (alive d.unaknowledged_msgs) _ _
              (λ sent. after (Queue.push now sent) _ _ (λ sent'. refl)))
            (λ c' kept. after (Queue.push (some i) r.writable_socket_list) _ _ (λ q.
              outgoing-IsMessage i c' b'
                (put_connection i c' (record r { writable_socket_list = q })) id
                (get_elem?-set_self r.heap i c' (lt_of_get_elem? r.heap i c at)) kept
                (filled-IsOneSlot (reserved b) memory (reserved-IsOneSlot b slot)
                  (length-overwrite b.buffer b.last_msg_offset id))
                size
                (rw begins (
                  read-overwrite_self b.buffer 0 id
                    (omega (arith, some_id, size, slot.allocated, slot.sized)))))))

  -- The client's part: the next socket gets a message with the number of the ticks.
  pub new_message-IsMessage :
      (os : Os) (s : Client) (w : os.World) (fd : ℕ) (fds : List ℕ) (i : ℕ) (c : Connection)
      (b : Buffer)
      → Inv m s.runner
      → Represents s.socket_list (fd ∷ fds)
      → get_elem? s.runner.heap i ≡ some c
      → c.valid ≡ true
      → c.fd ≡ fd
      → c.read_buffer ≡ some b
      → b.last_msg_offset ≡ 0
      → Returns
          (new_message os s w)
          (λ t. IsMessage m (bytes_of_uint s.tick_counter) (outgoing m i t.0.runner))
  new_message-IsMessage os s w fd fds i c b v sockets at valid same_fd buffer_is begins =
      let h = Inv-HasBuffers m s.runner i c v at valid in
      let same : h.read ≡ b = ground (arith, buffer_is, h.read_is) in
      let slot : IsOneSlot b = rw (← same) h.read_slot in
      let size : b.msg_size ≡ m = rw (← same) h.read_size in
      let found : lookup fd s.runner.connection_list ≡ some (some i) =
        rw (← same_fd) (v.listed i c at valid) in
      elim (next_socket_lem s fd fds sockets) [
        | inl (_, (q, turn, _, _)) ↦
            let s' : Client = record s { socket_list = q } in
            let now = os.current_ticks w in
            rw (new_message-eq os s s' w fd i c b turn found at buffer_is slot) (
              Returns->>= (queue_message (some i) i c (reserved b) b.last_msg_offset now.0 s') _ _ _
                (queue_message-IsMessage os s' i c b v at buffer_is slot size begins now.0)
                (λ s'' sends. sends))
        | inr (_, thrown) ↦ rw (no_turn os s w no_space thrown) tt
      ]
