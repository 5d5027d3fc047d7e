-- ===== src/Server/Answer.antt =====
-- `handle_connection_read` of the server, from a runner in its invariant.
use latency_under_load.Prelude.{
  ℕ, ◌+◌, ◌≤◌, ◌<◌, ◌≡◌, refl, ap, subst, ◌∙◌, some, true, List, arith, length, get_elem?,
  length-set, get_elem?-set_self, lt_of_get_elem?, take, drop, Result, ok, Safely, Safely->>=,
  Safely-mono, ◌>>=◌, Bool-cases, inl, inr,
}
use latency_under_load.Prelude.Memory.{
  overwrite, length-overwrite, write_bytes-ok, read_bytes, read_bytes-ok, length-take_le,
  length-drop, write_bytes-read_bytes,
}
use latency_under_load.Queue.{Queue}
use latency_under_load.Queue
use latency_under_load.CBuffer.{Buffer, get_buffer_head, free_memory}
use latency_under_load.CBuffer.OneSlot.{
  IsOneSlot, reserved, reserve_memory-IsOneSlot, reserved-IsOneSlot, filled-IsOneSlot,
  free_memory_same,
}
use latency_under_load.Connection.{Connection, set_write_buffer}
use latency_under_load.Runner.{Runner, Pointer, put_connection}
use latency_under_load.Runner.Inv.{
  IsHeld, push-IsHeld, IsHeld-Popped, Inv, Inv-HasBuffers, HasBuffers, with_complete, with_writable,
  deref_lem, put_connection-Inv,
}
use latency_under_load.Server.{answer, handle_connection_read, sizeof_msg_id}

-- The number of the message in a buffer: its first bytes.
abbrev pub msg_id : Buffer → List ℕ
msg_id b = take sizeof_msg_id (drop (get_buffer_head b) b.buffer)

-- The buffer `b` after the answer with the number `id` has been put into it.
abbrev pub answered : Buffer → List ℕ → Buffer
answered b id = record (reserved b) { buffer = overwrite b.buffer b.last_msg_offset id }

head_room : (b : Buffer) → IsOneSlot b → get_buffer_head b + sizeof_msg_id ≤ length b.buffer
unfolding get_buffer_head
head_room b v = omega (arith, v.allocated, v.sized, v.positive, v.first_offset, v.empty_first)

tail_room : (b : Buffer) → IsOneSlot b → b.last_msg_offset + sizeof_msg_id ≤ length b.buffer
tail_room b v = omega (arith, v.allocated, v.sized, v.positive, v.last_offset)

pub length-msg_id : (b : Buffer) → IsOneSlot b → length (msg_id b) ≡ sizeof_msg_id
length-msg_id b v =
    length-take_le _ _ (omega (arith, length-drop (get_buffer_head b) b.buffer, head_room b v))

pub answered-IsOneSlot : (b : Buffer) (id : List ℕ) → IsOneSlot b → IsOneSlot (answered b id)
answered-IsOneSlot b id v =
    filled-IsOneSlot (reserved b) _ (reserved-IsOneSlot b v)
      (length-overwrite b.buffer b.last_msg_offset id)

-- The number of a message is read back from its answer.
echo_back :
    (source target : Buffer)
    → IsOneSlot source
    → IsOneSlot target
    → read_bytes (answered target (msg_id source)).buffer target.last_msg_offset sizeof_msg_id
      ≡ read_bytes source.buffer (get_buffer_head source) sizeof_msg_id
echo_back source target vs vt =
    let id = msg_id source in
    let len = length-msg_id source vs in
    rw (read_bytes-ok source.buffer (get_buffer_head source) 4 (head_room source vs)) (
      subst
        (λ n.
          read_bytes (overwrite target.buffer target.last_msg_offset id) target.last_msg_offset n
          ≡ ok id)
        len
        (write_bytes-read_bytes target.buffer target.last_msg_offset id
          (omega (arith, len, tail_room target vt))))

-- The answer to a message of a valid connection is queued, unless there is no space in the queue.
answer-eq :
    (m i : ℕ) (c : Connection) (r : Runner) (p : Pointer) (h : HasBuffers m c)
    → answer p i c r ≡ (
        Queue.push p r.writable_socket_list >>= λ q. ok (
          put_connection i
            (set_write_buffer (answered h.read (msg_id h.written)) c)
            (record r { writable_socket_list = q })))
unfolding answer
answer-eq m i c r p h =
    let id = msg_id h.written in
    let same : free_memory (answered h.read id) ≡ answered h.read id =
      free_memory_same _ (answered-IsOneSlot h.read id h.read_slot) in
    ground (
      arith,
      h.write_is,
      h.read_is,
      same,
      reserve_memory-IsOneSlot h.read h.read_slot,
      read_bytes-ok h.written.buffer (get_buffer_head h.written) 4
          (head_room h.written h.written_slot),
      write_bytes-ok h.read.buffer h.read.last_msg_offset id
          (omega (arith, length-msg_id h.written h.written_slot, tail_room h.read h.read_slot)),
    )

module _ (m : ℕ) where
  -- What an answer leaves: the invariant, and one more entry in the queue of writable sockets.
  pub record Queued (r r' : Runner) : Type 0 where
    pub inv : Inv m r'
    pub connections : length r'.heap ≡ length r.heap
    pub complete : r'.readable_connection_list ≡ r.readable_connection_list
    pub one_more : r'.writable_socket_list.queue_size ≡ r.writable_socket_list.queue_size + 1

  -- The connection whose buffer holds the answer.
  pub record Echoes (r' : Runner) (i : ℕ) (id : Result (List ℕ)) (at : ℕ) : Type 0 where
    pub c : Connection
    pub b : Buffer
    pub stands : get_elem? r'.heap i ≡ some c
    pub still_valid : c.valid ≡ true
    pub buffer_is : c.read_buffer ≡ some b
    pub echo : read_bytes b.buffer at sizeof_msg_id ≡ id

  module _ (i : ℕ) (c : Connection) (r : Runner) (v : Inv m r) (at : get_elem? r.heap i ≡ some c)
      (valid : c.valid ≡ true) where
    h : HasBuffers m c
    h = Inv-HasBuffers m r i c v at valid

    answered-Queued :
        (q : Queue Pointer)
        → IsHeld (length r.heap) q
        → q.queue_size ≡ r.writable_socket_list.queue_size + 1
        → Queued r (
            put_connection i
              (set_write_buffer (answered h.read (msg_id h.written)) c)
              (record r { writable_socket_list = q }))
    answered-Queued q held more = record {
      inv =
          put_connection-Inv m (record r { writable_socket_list = q }) i c _
            (with_writable m r q v held) at refl (λ e. e)
            (λ e. (
              (v.buffers i c at valid).0,
              (answered-IsOneSlot h.read (msg_id h.written) h.read_slot, h.read_size),
            ));
      connections = length-set r.heap i _;
      complete = refl;
      one_more = more;
    }

    pub answer-Queued : Safely (answer (some i) i c r) (Queued r)
    answer-Queued = rw (answer-eq m i c r (some i) h) (
        Safely->>= (Queue.push (some i) r.writable_socket_list) _ _ _
          (push-IsHeld _ (some i) _ v.writable (lt_of_get_elem? r.heap i c at))
          (λ q pushed. answered-Queued q pushed.0 pushed.1))

    -- For a valid connection of a runner in its invariant: unless the queue of writable sockets is
    -- full, the memory for the answer holds the number that stands at the head of the message that
    -- has been read.
    pub answer-Echoes :
        (source target : Buffer)
        → c.write_buffer ≡ some source
        → c.read_buffer ≡ some target
        → Safely (answer (some i) i c r) (λ r'.
          Echoes r' i
            (read_bytes source.buffer (get_buffer_head source) sizeof_msg_id)
            target.last_msg_offset)
    answer-Echoes source target ew er =
        let id = msg_id h.written in
        let es : source ≡ h.written = ground (arith, ew, h.write_is) in
        let et : target ≡ h.read = ground (arith, er, h.read_is) in
        rw (es, et, answer-eq m i c r (some i) h)
          (Safely->>= (Queue.push (some i) r.writable_socket_list) _ _ _
            (push-IsHeld _ (some i) _ v.writable (lt_of_get_elem? r.heap i c at))
            (λ q pushed. record {
              c = set_write_buffer (answered h.read id) c;
              b = answered h.read id;
              stands = get_elem?-set_self r.heap i _ (lt_of_get_elem? r.heap i c at);
              still_valid = valid;
              buffer_is = refl;
              echo = echo_back h.written h.read h.written_slot h.read_slot;
            }))

  -- From a runner in its invariant whose queue of complete messages is not empty: unless the queue
  -- of writable sockets is full, `handle_connection_read` takes one entry from the queue of complete
  -- messages, puts at most one into that of writable sockets, and keeps the invariant. It makes no
  -- access outside an object and uses no buffer that has been deleted.
  pub handle_connection_read-Safely :
      (r : Runner)
      → Inv m r
      → 0 < r.readable_connection_list.queue_size
      → Safely (handle_connection_read r) (λ r'.
        Inv m r'
        × (length r'.heap ≡ length r.heap)
        × (r'.readable_connection_list.queue_size + 1 ≡ r.readable_connection_list.queue_size)
        × (r.writable_socket_list.queue_size ≤ r'.writable_socket_list.queue_size)
        × (r'.writable_socket_list.queue_size ≤ r.writable_socket_list.queue_size + 1))
  unfolding handle_connection_read
  handle_connection_read-Safely r v some_entry =
      let h = IsHeld-Popped (length r.heap) r.readable_connection_list v.complete some_entry in
      let r' : Runner = record r { readable_connection_list = h.rest } in
      let v' = with_complete m r h.rest v h.rest_held in
      let (i, c, ep, at, ed) = deref_lem r' h.p h.points in
      rw (h.fronts, h.pops, ed)
        (elim (Bool-cases c.valid) [
          | inl live ↦
              rw (live, ep)
                (Safely-mono (answer (some i) i c r') _ _ (answer-Queued i c r' v' at live) (λ t q.
                  (
                    q.inv,
                    q.connections,
                    ap (λ (x : Queue Pointer). x.queue_size + 1) q.complete ∙ h.fewer,
                    omega (arith, q.one_more),
                    omega (arith, q.one_more),
                  )))
          | inr dead ↦ rw dead (v', refl, h.fewer, omega arith, omega arith)
        ])
