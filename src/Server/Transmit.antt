-- ===== src/Server/Transmit.antt =====
-- What the server hands to `send` of a message, in whatever pieces it is taken.
use latency_under_load.Prelude.{
  ℕ, ◌+◌, ◌-◌, ◌≤◌, ◌≡◌, refl, sym, ap, ◌⊎◌, inl, inr, some, false, List, ◌++◌, arith, get_elem?,
  get_elem?-set_self, lt_of_get_elem?, take, drop, Returns, Returns->>=, after, add32, ◌==◌,
  Bool-cases,
}
use latency_under_load.Prelude.Memory.{length-take_le, length-drop}
use latency_under_load.Queue
use latency_under_load.CBuffer.OneSlot.{IsOneSlot, free_memory_same}
use latency_under_load.Connection.{Connection}
use latency_under_load.Runner.{Runner}
use latency_under_load.Runner.Inv.{Inv, Inv-HasBuffers}
use latency_under_load.Runner.Receive.{remove_connection-Inv}
use latency_under_load.Runner.Wire.{
  IsWire, Transmits, part-Transmits, whole-Transmits, refused-Transmits, handed,
}
use latency_under_load.Server.{sent_bytes, after_send, send_message, send_refused}
use latency_under_load.Os.{
  Os, IsOs, Sent, took, refused, Errno, eagain, econnreset, ebadf, einprogress, other,
}

module _ (os : Os) (is_os : IsOs os) (taken : os.World → ℕ → List ℕ) (wire : IsWire os taken)
    (m i fd : ℕ) (base message : List ℕ) where
  -- After a call of `send`: the peer has been sent a part of the message, or all of it, which is
  -- counted then, or the connection has been reset.
  abbrev pub Progress : Runner → Runner × os.World → Type 0
  Progress r t =
      (Transmits os taken m i fd base message t.0 t.1 × (t.0.msg_count ≡ r.msg_count))
      ⊎ ((Transmits os taken m i fd (base ++ message) message t.0 t.1
            × (t.0.msg_count ≡ add32 r.msg_count 1))
          ⊎ ((c : Connection) × (get_elem? t.0.heap i ≡ some c) × (c.valid ≡ false)))

  sent_bytes-Progress :
      (r : Runner) (w w' : os.World) (k : ℕ)
      → Inv m r
      → (t : Transmits os taken m i fd base message r w) → IsOneSlot t.b
      → t.b.msg_size ≡ m
      → os.send w fd (take (m - t.b.first_msg_offset) (drop t.b.first_msg_offset t.b.buffer))
        ≡ (took k, w')
      → t.b.first_msg_offset + k ≤ m
      → Returns
          (sent_bytes (some i) i t.c t.b (m - t.b.first_msg_offset) k r)
          (λ r'. Progress r (r', w'))
  unfolding sent_bytes
  sent_bytes-Progress r w w' k v t slot size e few =
      elim (Bool-cases (k == m - t.b.first_msg_offset)) [
        | inl whole ↦
            rw (whole, free_memory_same t.b slot)
              (inr (
                inl (
                  whole-Transmits os taken wire m i fd base message w w' t.c t.b k t.valid t.same_fd
                      slot size t.message_is t.on_wire e few
                      (record r { msg_count = add32 r.msg_count 1 }) t.at (ground arith),
                  refl,
                )))
        | inr part ↦ rw part (
            after (Queue.push (some i) r.writable_socket_list) _ _ (λ q. inl (
              part-Transmits os taken wire m i fd base message w w' t.c t.b k t.valid t.same_fd slot
                  size t.message_is t.on_wire e few (record r { writable_socket_list = q }) t.at
                  (ground arith),
              refl,
            )))
      ]

  send_refused-Progress :
      (r : Runner) (w w' : os.World) (bytes : List ℕ) (e : Errno)
      → Inv m r
      → (t : Transmits os taken m i fd base message r w) → os.send w fd bytes ≡ (refused e, w')
      → Returns (send_refused os (some i) t.c e r w') (Progress r)
  unfolding send_refused
  send_refused-Progress r w w' bytes eagain v t h =
      after (Queue.push (some i) r.writable_socket_list) _ _ (λ q. inl (
        refused-Transmits os taken wire m i fd base message r
            (record r { writable_socket_list = q }) w w' bytes eagain t refl h,
        refl,
      ))
  send_refused-Progress r w w' bytes econnreset v t h =
      let (gone, w'', e, _, dead) =
        remove_connection-Inv m os t.c.fd i r w' v
          (record { c = t.c; at = t.at; valid = t.valid; same_fd = refl }) in
      rw e (
        inr
          (inr (gone, get_elem?-set_self r.heap i gone (lt_of_get_elem? r.heap i t.c t.at), dead)))
  send_refused-Progress r w w' bytes ebadf v t h =
      inl (refused-Transmits os taken wire m i fd base message r r w w' bytes ebadf t refl h, refl)
  send_refused-Progress r w w' bytes einprogress v t h = tt
  send_refused-Progress r w w' bytes other v t h = tt

  after_send-Progress :
      (r : Runner) (w w' : os.World) (reply : Sent)
      → Inv m r
      → (t : Transmits os taken m i fd base message r w) → IsOneSlot t.b
      → t.b.msg_size ≡ m
      → os.send w fd (take (m - t.b.first_msg_offset) (drop t.b.first_msg_offset t.b.buffer))
        ≡ (reply, w')
      → Returns
          (after_send os (some i) i t.c t.b (m - t.b.first_msg_offset) r reply w')
          (Progress r)
  unfolding after_send
  after_send-Progress r w w' (took k) v t slot size e =
      let off = t.b.first_msg_offset in
      let sent = is_os.send_bounds w fd _ k w' e in
      let len = length-take_le (m - off) (drop off t.b.buffer) (
        omega (arith, length-drop off t.b.buffer, slot.allocated, slot.sized, slot.first_offset)) in
      Returns->>= (sent_bytes (some i) i t.c t.b (m - off) k r) _ (λ r'. Progress r (r', w')) _
        (sent_bytes-Progress r w w' k v t slot size e (omega (arith, slot.first_offset)))
        (λ r' p. p)
  after_send-Progress r w w' (refused e) v t slot size h = send_refused-Progress r w w' _ e v t h

  -- For a valid connection of a runner in its invariant whose peer has been sent `base` and as much
  -- of the message in its write buffer as the buffer's offset says: after `send_message`, unless it
  -- stops the program, either this is so again and no message is counted, or the peer has been sent
  -- `base` and the whole message, nothing of the next one, and one message more is counted, or the
  -- connection has been removed.
  pub send_message-Progress :
      (r : Runner) (w : os.World)
      → Inv m r
      → (t : Transmits os taken m i fd base message r w)
      → Returns (send_message os (some i) i t.c r w) (Progress r)
  unfolding send_message
  send_message-Progress r w v t =
      let h = Inv-HasBuffers m r i t.c v t.at t.valid in
      let same : h.read ≡ t.b = ground (arith, t.buffer_is, h.read_is) in
      let slot : IsOneSlot t.b = rw (← same) h.read_slot in
      let size : t.b.msg_size ≡ m = rw (← same) h.read_size in
      let (few, reads) = handed m i t.c t.b r v t.at slot size in
      let bytes = take (m - t.b.first_msg_offset) (drop t.b.first_msg_offset t.b.buffer) in
      let reply = os.send w t.c.fd bytes in
      let whole : send_message os (some i) i t.c r w
          ≡ after_send os (some i) i t.c t.b (m - t.b.first_msg_offset) r reply.0 reply.1 =
        ground (arith, t.buffer_is, few, reads) in
      rw whole (
        after_send-Progress r w reply.1 reply.0 v t slot size
          (ap (λ x. os.send w x bytes) (sym t.same_fd)))
