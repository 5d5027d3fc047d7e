-- ===== src/Runner/Receive.antt =====
-- A round of the read loop, and the removal of a connection, from a runner in its invariant.
use latency_under_load.Prelude.{
  ℕ, ◌+◌, ◌-◌, ◌≤◌, ◌<◌, ◌≡◌, refl, subst, ◌≢◌, none, some, Bool, true, false, List, arith, length,
  get_elem?, length-set, get_elem?-set_self, lt_of_get_elem?, Result, ok, Safely, Safely->>=,
  Safely-mono, ◌==◌, if◌then◌else◌, sub32,
}
use latency_under_load.Prelude.Memory.{overwrite, length-overwrite, write_bytes-ok}
use latency_under_load.Queue.{Queue}
use latency_under_load.Queue
use latency_under_load.CBuffer.{Buffer, increase_last_msg_offset, get_last_msg_offset}
use latency_under_load.CBuffer.OneSlot.{
  IsOneSlot, reserved, reserve_memory-IsOneSlot, reserved-IsOneSlot, filled-IsOneSlot,
  increase_last-IsOneSlot,
}
use latency_under_load.Connection.{Connection, set_read_buffer}
use latency_under_load.Connection
use latency_under_load.Runner.{
  Runner, Pointer, Attempt, no_room, some_bytes, lookup, deref, put_connection, connection_at,
  remove_connection, receive_reply, receive_at, receive_once,
}
use latency_under_load.Runner.Inv.{
  IsHeld, push-IsHeld, Inv, Inv-HasBuffers, with_complete, deref_at, put_connection-Inv,
}
use latency_under_load.Os.{Os, IsOs, Received, got, closed, failed}

-- Place `i` of a heap has a valid connection with the file descriptor `fd`.
pub record IsValidAt (heap : List Connection) (i fd : ℕ) : Type 0 where
  pub c : Connection
  pub at : get_elem? heap i ≡ some c
  pub valid : c.valid ≡ true
  pub same_fd : c.fd ≡ fd

module _ (m : ℕ) (os : Os) where
  -- Nothing but the connection changes, and it is not valid any more.
  pub remove_connection-Inv :
      (fd i : ℕ) (r : Runner) (w : os.World)
      → Inv m r
      → IsValidAt r.heap i fd
      → (c : Connection) × (w' : os.World) × (remove_connection os fd r w
          ≡ ok (put_connection i c r, w'))
        × Inv m (put_connection i c r)
        × (c.valid ≡ false)
  unfolding remove_connection connection_at deref Connection.remove_connection
  remove_connection-Inv fd i r w v k =
      let h = Inv-HasBuffers m r i k.c v k.at k.valid in
      let gone : Connection = record (k.c) {
        write_buffer = none;
        read_buffer = none;
        valid = false;
      } in
      let found : lookup fd r.connection_list ≡ some (some i) =
        rw (← k.same_fd) (v.listed i k.c k.at k.valid) in
      (
        gone,
        (os.close (os.epoll_del w fd).1 fd).1,
        ground (arith, found, k.at, h.write_is, h.read_is),
        put_connection-Inv m r i k.c gone v k.at refl (λ e. cc) (λ e. cc),
        refl,
      )

-- What a round of the read loop leaves, at place `i` of the heap and the socket `fd`.
pub record Round (m : ℕ) (os : Os) (i fd : ℕ) (r : Runner) (w : os.World) (a : Attempt)
    (r' : Runner) (w' : os.World) : Type 0 where
  pub inv : Inv m r'
  pub alive : IsValidAt r'.heap i fd
  pub roomy : a ≢ no_room
  pub readable : r'.readable_socket_list ≡ r.readable_socket_list
  pub connections : length r'.heap ≡ length r.heap
  pub fewer : a ≡ some_bytes → os.pending w' fd < os.pending w fd

module _ (m : ℕ) (os : Os) (is_os : IsOs os) where
  -- The bytes that `recv` may return fit the message that is being received.
  fits :
      (r : Runner) (b : Buffer)
      → r.config.message_size ≡ m
      → IsOneSlot b
      → b.msg_size ≡ m
      → sub32 r.config.message_size (get_last_msg_offset b) ≡ m - b.last_msg_offset
  unfolding get_last_msg_offset
  fits r b e v k = omega (arith, v.small, v.sized, v.last_offset)

  -- A valid connection with another read buffer.
  put_read_buffer :
      (i : ℕ) (c : Connection) (b : Buffer) (r : Runner)
      → Inv m r
      → get_elem? r.heap i ≡ some c
      → c.valid ≡ true
      → IsOneSlot b
      → b.msg_size ≡ m
      → Inv m (put_connection i (set_read_buffer b c) r)
        × IsValidAt (put_connection i (set_read_buffer b c) r).heap i c.fd
  put_read_buffer i c b r v at valid s e = (
    put_connection-Inv m r i c (set_read_buffer b c) v at refl (λ h. h)
        (λ h. ((s, e), (v.buffers i c at valid).1)),
    record {
      c = set_read_buffer b c;
      at = get_elem?-set_self r.heap i (set_read_buffer b c) (lt_of_get_elem? r.heap i c at);
      valid = valid;
      same_fd = refl;
    },
  )

  -- What the answer of `recv` comes to, for a buffer whose message starts at offset 0.
  module _ (i : ℕ) (c : Connection) (b : Buffer) (r : Runner) (w : os.World) (v : Inv m r)
      (at : get_elem? r.heap i ≡ some c) (valid : c.valid ≡ true) (slot : IsOneSlot b)
      (size : b.msg_size ≡ m) (address : b.last_msg_address ≡ some 0) where
    abbrev data_size : ℕ
    data_size = sub32 r.config.message_size (get_last_msg_offset b)

    abbrev filled : List ℕ → Buffer
    filled bytes =
        increase_last_msg_offset (length bytes)
          (record b { buffer = overwrite b.buffer b.last_msg_offset bytes })

    filled-IsOneSlot' :
        (bytes : List ℕ)
        → b.last_msg_offset + length bytes ≤ m
        → IsOneSlot (filled bytes) × ((filled bytes).msg_size ≡ m)
    unfolding increase_last_msg_offset
    filled-IsOneSlot' bytes h = (
      increase_last-IsOneSlot (length bytes) _
          (filled-IsOneSlot b _ slot (length-overwrite b.buffer b.last_msg_offset bytes))
          (omega arith) address,
      size,
    )

    -- A pointer goes to the list of the connections to handle, if a message is complete.
    abbrev queued : Bool → Result (Queue Pointer)
    queued full =
        if full
        then Queue.push (some i) r.readable_connection_list
        else ok r.readable_connection_list

    queued-IsHeld : (full : Bool) → Safely (queued full) (λ q. IsHeld (length r.heap) q)
    queued-IsHeld true =
        Safely-mono (queued true) _ _
          (push-IsHeld _ (some i) _ v.complete (lt_of_get_elem? r.heap i c at)) (λ q h. h.0)
    queued-IsHeld false = v.complete

    receive_reply_lem :
        (reply : Received) (w' : os.World)
        → os.recv w c.fd data_size ≡ (reply, w')
        → Safely
            (receive_reply (some i) i c b b.last_msg_offset data_size r reply)
            (λ t. Round m os i c.fd r w t.0 t.1 w')
    unfolding receive_reply
    receive_reply_lem (got bytes) w' e =
        let (some_byte, few, pended) = is_os.recv_bounds w c.fd data_size bytes w' e in
        let whole = fits r b v.message slot size in
        let inside : b.last_msg_offset + length bytes ≤ m = omega (arith, slot.last_offset) in
        rw
          (write_bytes-ok b.buffer b.last_msg_offset bytes
            (omega (arith, slot.allocated, slot.sized)))
          (Safely->>= (queued (length bytes == data_size)) _ (λ q. IsHeld (length r.heap) q) _
            (queued-IsHeld (length bytes == data_size))
            (λ q held.
              let (s, e') = filled-IsOneSlot' bytes inside in
              let r' : Runner = record r { readable_connection_list = q } in
              let v' = with_complete m r q v held in
              let (inv, still) = put_read_buffer i c (filled bytes) r' v' at valid s e' in
              record {
                inv = inv;
                alive = still;
                roomy = λ h. cc;
                readable = refl;
                connections = length-set r.heap i _;
                fewer = λ h. omega arith;
              }))
    receive_reply_lem closed w' e = record {
      inv = (put_read_buffer i c b r v at valid slot size).0;
      alive = (put_read_buffer i c b r v at valid slot size).1;
      roomy = λ h. cc;
      readable = refl;
      connections = length-set r.heap i (set_read_buffer b c);
      fewer = λ h. cc;
    }
    receive_reply_lem (failed x) w' e = record {
      inv = (put_read_buffer i c b r v at valid slot size).0;
      alive = (put_read_buffer i c b r v at valid slot size).1;
      roomy = λ h. cc;
      readable = refl;
      connections = length-set r.heap i (set_read_buffer b c);
      fewer = λ h. cc;
    }

    receive_at_lem :
        Safely
          (receive_at os (some i) i c b b.last_msg_offset r w)
          (λ t. Round m os i c.fd r w t.0 t.1 t.2)
    unfolding receive_at
    receive_at_lem =
        Safely->>= (receive_reply (some i) i c b b.last_msg_offset data_size r _) _ _ _
          (receive_reply_lem _ _ refl) (λ t round. round)

  -- A round is the rest of it at the next free byte of the slot.
  receive_once-eq :
      (i : ℕ) (r : Runner) (w : os.World) (c : Connection) (b : Buffer)
      → get_elem? r.heap i ≡ some c
      → c.write_buffer ≡ some b
      → IsOneSlot b
      → receive_once os (some i) r w ≡ receive_at os (some i) i c (reserved b) b.last_msg_offset r w
  unfolding receive_once
  receive_once-eq i r w c b at eb slot =
      ground (arith, deref_at r i c at, reserve_memory-IsOneSlot b slot)

  -- A round of the read loop at a valid connection keeps the invariant, always finds room, and
  -- leaves fewer bytes to come if it has received some.
  pub receive_once-Round :
      (i : ℕ) (r : Runner) (w : os.World) (fd : ℕ)
      → Inv m r
      → IsValidAt r.heap i fd
      → Safely (receive_once os (some i) r w) (λ t. Round m os i fd r w t.0 t.1 t.2)
  receive_once-Round i r w fd v k =
      let h = Inv-HasBuffers m r i k.c v k.at k.valid in
      let b = h.written in
      rw (receive_once-eq i r w k.c b k.at h.write_is h.written_slot) (
        subst
          (λ fd'.
            Safely (receive_at os (some i) i k.c (reserved b) b.last_msg_offset r w)
              (λ t. Round m os i fd' r w t.0 t.1 t.2))
          k.same_fd
          (receive_at_lem i k.c (reserved b) r w v k.at k.valid
            (reserved-IsOneSlot b h.written_slot) h.written_size refl))
