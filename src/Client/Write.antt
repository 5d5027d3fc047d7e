-- ===== src/Client/Write.antt =====
-- `handle_socket_write` of the client, from a runner in its invariant.
use latency_under_load.Prelude.{
  ℕ, ◌+◌, ◌≤◌, ◌<◌, ◌≡◌, refl, ◌⊎◌, inl, inr, some, true, List, arith, length, get_elem?,
  length-set, lt_of_get_elem?, Safely, Safely->>=, Safely-mono, ◌==◌, Bool-cases, add32,
}
use latency_under_load.Queue
use latency_under_load.CBuffer.{Buffer, free_memory, increase_first_msg_offset}
use latency_under_load.CBuffer.OneSlot.{IsOneSlot, free_memory_same, increase_first-IsOneSlot}
use latency_under_load.Connection.{Connection}
use latency_under_load.Runner.{Runner}
use latency_under_load.Runner.Inv.{
  IsHeld, push-IsHeld, IsHeld-Popped, Inv, Inv-HasBuffers, with_writable, deref_lem,
}
use latency_under_load.Runner.Send.{left, left-eq, sent-Inv, message_bytes}
use latency_under_load.Client.{Client, sent_bytes, after_send, send_message, handle_socket_write}
use latency_under_load.Os.{
  Os, IsOs, Sent, took, refused, eagain, econnreset, ebadf, einprogress, other,
}

-- What sending leaves of a client: the invariant, and either one more entry in the queue of
-- writable sockets, or one more message counted as sent.
pub record Wrote (m : ℕ) (s s' : Client) : Type 0 where
  pub inv : Inv m s'.runner
  pub connections : length s'.runner.heap ≡ length s.runner.heap
  pub accounted :
      ((s'.runner.writable_socket_list.queue_size ≡ s.runner.writable_socket_list.queue_size + 1)
        × (s'.sent_message ≡ s.sent_message))
      ⊎ ((s'.runner.writable_socket_list.queue_size ≡ s.runner.writable_socket_list.queue_size)
          × (s'.sent_message ≡ add32 s.sent_message 1))

module _ (m i : ℕ) (c : Connection) (b : Buffer) (slot : IsOneSlot b) (size : b.msg_size ≡ m)
    (os : Os) (s : Client) (v : Inv m s.runner) (at : get_elem? s.runner.heap i ≡ some c)
    (valid : c.valid ≡ true) where
  requeue : Safely (Queue.push (some i) s.runner.writable_socket_list) (λ q.
      IsHeld (length s.runner.heap) q
      × (q.queue_size ≡ s.runner.writable_socket_list.queue_size + 1))
  requeue = push-IsHeld _ (some i) _ v.writable (lt_of_get_elem? s.runner.heap i c at)

  -- The buffer after some bytes is as before, but for the offset, and a release changes nothing.
  freed :
      (k : ℕ)
      → k ≤ left s.runner b
      → free_memory (increase_first_msg_offset k b) ≡ increase_first_msg_offset k b
  freed k le =
      let few = left-eq m i c b slot size s.runner v in
      free_memory_same _ (increase_first-IsOneSlot k b slot (omega (arith, few, slot.first_offset)))

  sent_bytes-Wrote :
      (k : ℕ)
      → k ≤ left s.runner b
      → Safely (sent_bytes (some i) i c b (left s.runner b) k s) (Wrote m s)
  unfolding sent_bytes
  sent_bytes-Wrote k le = elim (Bool-cases (k == left s.runner b)) [
    | inl whole ↦
        rw (whole, freed k le)
          (record {
            inv = sent-Inv m i c b slot size k s.runner v at valid le;
            connections = length-set s.runner.heap i _;
            accounted = inr (refl, refl);
          })
    | inr part ↦ rw part (
        Safely->>= (Queue.push (some i) s.runner.writable_socket_list) _ _ _ requeue (λ q pushed.
          let r : Runner = s.runner in
          let r' : Runner = record r { writable_socket_list = q } in
          record {
            inv = sent-Inv m i c b slot size k r' (with_writable m r q v pushed.0) at valid le;
            connections = length-set s.runner.heap i _;
            accounted = inl (pushed.1, refl);
          }))
  ]

  after_send-Wrote :
      (is_os : IsOs os) (w : os.World) (bytes : List ℕ)
      → length bytes ≡ left s.runner b
      → (reply : Sent) (w' : os.World) → os.send w c.fd bytes ≡ (reply, w')
      → Safely (after_send os (some i) i c b (left s.runner b) s reply w') (λ t. Wrote m s t.0)
  unfolding after_send
  after_send-Wrote is_os w bytes len (took k) w' e =
      let le = is_os.send_bounds w c.fd bytes k w' e in
      Safely->>= (sent_bytes (some i) i c b (left s.runner b) k s) _ _ _
        (sent_bytes-Wrote k (omega arith)) (λ s' wrote. wrote)
  after_send-Wrote is_os w bytes len (refused eagain) w' e =
      Safely->>= (Queue.push (some i) s.runner.writable_socket_list) _ _ _ requeue (λ q pushed.
        record {
          inv = with_writable m s.runner q v pushed.0;
          connections = refl;
          accounted = inl (pushed.1, refl);
        })
  after_send-Wrote is_os w bytes len (refused econnreset) w' e = tt
  after_send-Wrote is_os w bytes len (refused ebadf) w' e = tt
  after_send-Wrote is_os w bytes len (refused einprogress) w' e = tt
  after_send-Wrote is_os w bytes len (refused other) w' e = tt

module _ (m : ℕ) (os : Os) (is_os : IsOs os) where
  send_message-Wrote :
      (i : ℕ) (c : Connection) (s : Client) (w : os.World)
      → Inv m s.runner
      → get_elem? s.runner.heap i ≡ some c
      → c.valid ≡ true
      → Safely (send_message os (some i) i c s w) (λ t. Wrote m s t.0)
  unfolding send_message
  send_message-Wrote i c s w v at valid =
      let r = s.runner in
      let h = Inv-HasBuffers m r i c v at valid in
      let b = h.read in
      let n = left r b in
      let (bytes, e, len) = message_bytes m i c r v h in
      let whole : send_message os (some i) i c s w
          ≡ after_send os (some i) i c b n s (os.send w c.fd bytes).0 (os.send w c.fd bytes).1 =
        ground (arith, h.read_is, e) in
      rw whole (
        after_send-Wrote m i c b h.read_slot h.read_size os s v at valid is_os w bytes len _ _ refl)

  -- From a client whose runner is in its invariant and has a writable socket queued: unless it stops
  -- the program by an exit or because that queue is full, `handle_socket_write` of the client keeps
  -- the invariant, and the entry that it takes is put back, or a message is counted as sent, or the
  -- connection was not valid. It makes no access outside an object and uses no deleted buffer.
  pub handle_socket_write-Safely_client :
      (s : Client) (w : os.World)
      → Inv m s.runner
      → 0 < s.runner.writable_socket_list.queue_size
      → Safely (handle_socket_write os s w) (λ t.
        let before = s.runner.writable_socket_list.queue_size in
        let after = t.0.runner.writable_socket_list.queue_size in
        Inv m t.0.runner
        × (length t.0.runner.heap ≡ length s.runner.heap)
        × (((after ≡ before) × (t.0.sent_message ≡ s.sent_message))
            ⊎ ((after + 1 ≡ before)
                × ((t.0.sent_message ≡ s.sent_message)
                    ⊎ (t.0.sent_message ≡ add32 s.sent_message 1)))))
  unfolding handle_socket_write
  handle_socket_write-Safely_client s w v some_entry =
      let r : Runner = s.runner in
      let h = IsHeld-Popped (length r.heap) r.writable_socket_list v.writable some_entry in
      let r' : Runner = record r { writable_socket_list = h.rest } in
      let s' : Client = record s { runner = r' } in
      let v' = with_writable m r h.rest v h.rest_held in
      let (i, c, ep, at, ed) = deref_lem r' h.p h.points in
      rw (h.fronts, h.pops, ed)
        (elim (Bool-cases c.valid) [
          | inl live ↦
              rw (live, ep)
                (Safely-mono (send_message os (some i) i c s' w) _ _
                  (send_message-Wrote i c s' w v' at live)
                  (λ t q. (q.inv, q.connections, ground (arith, q.accounted, h.fewer))))
          | inr dead ↦ rw dead (v', refl, inr (h.fewer, inl refl))
        ])
