-- ===== src/Server/Write.antt =====
-- `handle_socket_write` of the server, from a runner in its invariant.
use latency_under_load.Prelude.{
  ℕ, ◌+◌, ◌≤◌, ◌<◌, ◌≡◌, refl, ◌⊎◌, inl, inr, some, true, List, arith, length, get_elem?,
  length-set, lt_of_get_elem?, Safely, Safely->>=, Safely-mono, ◌==◌, Bool-cases, add32,
}
use latency_under_load.Queue.{Queue}
use latency_under_load.Queue
use latency_under_load.CBuffer.{Buffer}
use latency_under_load.CBuffer.OneSlot.{IsOneSlot, free_memory_same}
use latency_under_load.Connection.{Connection}
use latency_under_load.Runner.{Runner}
use latency_under_load.Runner.Inv.{
  IsHeld, push-IsHeld, IsHeld-Popped, Inv, Inv-HasBuffers, with_writable, deref_lem,
}
use latency_under_load.Runner.Send.{left, sent-Inv, message_bytes}
use latency_under_load.Runner.Receive.{IsValidAt, remove_connection-Inv}
use latency_under_load.Server.{
  sent_bytes, send_refused, after_send, send_message, handle_socket_write,
}
use latency_under_load.Os.{
  Os, IsOs, Sent, took, refused, Errno, eagain, econnreset, ebadf, einprogress, other,
}

-- What sending leaves: the invariant, and at most one more entry in the queue of writable sockets.
-- An answer that is counted is not queued again.
pub record Wrote (m : ℕ) (r r' : Runner) : Type 0 where
  pub inv : Inv m r'
  pub connections : length r'.heap ≡ length r.heap
  pub accounted :
      ((r'.writable_socket_list.queue_size ≡ r.writable_socket_list.queue_size + 1)
        × (r'.msg_count ≡ r.msg_count))
      ⊎ ((r'.writable_socket_list.queue_size ≡ r.writable_socket_list.queue_size)
          × ((r'.msg_count ≡ r.msg_count) ⊎ (r'.msg_count ≡ add32 r.msg_count 1)))

module _ (m i : ℕ) (c : Connection) (b : Buffer) (slot : IsOneSlot b) (size : b.msg_size ≡ m) where
  -- A counted message, by the number of messages.
  counted : (r : Runner) → Inv m r → Inv m (record r { msg_count = add32 r.msg_count 1 })
  counted r v = record {
    message = v.message;
    buffers = v.buffers;
    listed = v.listed;
    writable = v.writable;
    readable = v.readable;
    complete = v.complete;
  }

  module _ (r : Runner) (v : Inv m r) (at : get_elem? r.heap i ≡ some c)
      (valid : c.valid ≡ true) where
    requeue :
        Safely
          (Queue.push (some i) r.writable_socket_list)
          (λ q. IsHeld (length r.heap) q × (q.queue_size ≡ r.writable_socket_list.queue_size + 1))
    requeue = push-IsHeld _ (some i) _ v.writable (lt_of_get_elem? r.heap i c at)

    sent_bytes-Wrote :
        (k : ℕ) → k ≤ left r b → Safely (sent_bytes (some i) i c b (left r b) k r) (Wrote m r)
    unfolding sent_bytes
    sent_bytes-Wrote k le = elim (Bool-cases (k == left r b)) [
      | inl whole ↦
          rw (whole, free_memory_same b slot)
            (record {
              inv =
                  sent-Inv m i c b slot size k (record r { msg_count = add32 r.msg_count 1 })
                    (counted r v) at valid le;
              connections = length-set r.heap i _;
              accounted = inr (refl, inr refl);
            })
      | inr part ↦ rw part (
          Safely->>= (Queue.push (some i) r.writable_socket_list) _ _ _ requeue (λ q pushed.
            record {
              inv =
                  sent-Inv m i c b slot size k (record r { writable_socket_list = q })
                    (with_writable m r q v pushed.0) at valid le;
              connections = length-set r.heap i _;
              accounted = inl (pushed.1, refl);
            }))
    ]

    send_refused-Wrote :
        (os : Os) (e : Errno) (w : os.World)
        → Safely (send_refused os (some i) c e r w) (λ t. Wrote m r t.0)
    unfolding send_refused
    send_refused-Wrote os eagain w =
        Safely->>= (Queue.push (some i) r.writable_socket_list) _ _ _ requeue (λ q pushed. record {
          inv = with_writable m r q v pushed.0;
          connections = refl;
          accounted = inl (pushed.1, refl);
        })
    send_refused-Wrote os econnreset w =
        let k : IsValidAt r.heap i c.fd = record {
          c = c;
          at = at;
          valid = valid;
          same_fd = refl;
        } in
        let (gone, w', e, inv, _) = remove_connection-Inv m os c.fd i r w v k in
        rw e (record {
          inv = inv;
          connections = length-set r.heap i gone;
          accounted = inr (refl, inl refl);
        })
    send_refused-Wrote os ebadf w = record {
      inv = v;
      connections = refl;
      accounted = inr (refl, inl refl);
    }
    send_refused-Wrote os einprogress w = tt
    send_refused-Wrote os other w = tt

module _ (m : ℕ) (os : Os) (is_os : IsOs os) where
  after_send-Wrote :
      (i : ℕ) (c : Connection) (b : Buffer) (r : Runner) (w : os.World) (bytes : List ℕ)
      → IsOneSlot b
      → b.msg_size ≡ m
      → Inv m r
      → get_elem? r.heap i ≡ some c
      → c.valid ≡ true
      → length bytes ≡ left r b
      → (reply : Sent) (w' : os.World) → os.send w c.fd bytes ≡ (reply, w')
      → Safely (after_send os (some i) i c b (left r b) r reply w') (λ t. Wrote m r t.0)
  unfolding after_send
  after_send-Wrote i c b r w bytes slot size v at valid len (took k) w' e =
      let le = is_os.send_bounds w c.fd bytes k w' e in
      Safely->>= (sent_bytes (some i) i c b (left r b) k r) _ _ _
        (sent_bytes-Wrote m i c b slot size r v at valid k (omega arith)) (λ r' wrote. wrote)
  after_send-Wrote i c b r w bytes slot size v at valid len (refused x) w' e =
      send_refused-Wrote m i c b slot size r v at valid os x w'

  send_message-Wrote :
      (i : ℕ) (c : Connection) (r : Runner) (w : os.World)
      → Inv m r
      → get_elem? r.heap i ≡ some c
      → c.valid ≡ true
      → Safely (send_message os (some i) i c r w) (λ t. Wrote m r t.0)
  unfolding send_message
  send_message-Wrote i c r w v at valid =
      let h = Inv-HasBuffers m r i c v at valid in
      let b = h.read in
      let n = left r b in
      let (bytes, e, len) = message_bytes m i c r v h in
      let whole : send_message os (some i) i c r w
          ≡ after_send os (some i) i c b n r (os.send w c.fd bytes).0 (os.send w c.fd bytes).1 =
        ground (arith, h.read_is, e) in
      rw whole (after_send-Wrote i c b r w bytes h.read_slot h.read_size v at valid len _ _ refl)

  -- From a runner in its invariant whose queue of writable sockets is not empty: unless it stops the
  -- program by an exit or because that queue is full, `handle_socket_write` keeps the invariant. It
  -- counts at most one message as sent, and what it counts it takes off the queue; what it does not
  -- count it puts back, or drops with its connection or because the socket is bad. It makes no
  -- access outside an object, uses no buffer that has been deleted and deletes none twice.
  pub handle_socket_write-Safely :
      (r : Runner) (w : os.World)
      → Inv m r
      → 0 < r.writable_socket_list.queue_size
      → Safely (handle_socket_write os r w) (λ t.
        Inv m t.0
        × (length t.0.heap ≡ length r.heap)
        × (((t.0.writable_socket_list.queue_size ≡ r.writable_socket_list.queue_size)
              × (t.0.msg_count ≡ r.msg_count))
            ⊎ ((t.0.writable_socket_list.queue_size + 1 ≡ r.writable_socket_list.queue_size)
                × ((t.0.msg_count ≡ r.msg_count) ⊎ (t.0.msg_count ≡ add32 r.msg_count 1)))))
  unfolding handle_socket_write
  handle_socket_write-Safely r w v some_entry =
      let h = IsHeld-Popped (length r.heap) r.writable_socket_list v.writable some_entry in
      let r' : Runner = record r { writable_socket_list = h.rest } in
      let v' = with_writable m r h.rest v h.rest_held in
      let (i, c, ep, at, ed) = deref_lem r' h.p h.points in
      rw (h.fronts, h.pops, ed)
        (elim (Bool-cases c.valid) [
          | inl live ↦
              rw (live, ep)
                (Safely-mono (send_message os (some i) i c r' w) _ _
                  (send_message-Wrote i c r' w v' at live)
                  (λ t q. (q.inv, q.connections, ground (arith, q.accounted, h.fewer))))
          | inr dead ↦ rw dead (v', refl, inr (h.fewer, inl refl))
        ])
