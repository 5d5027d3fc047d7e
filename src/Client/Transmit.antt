-- ===== src/Client/Transmit.antt =====
-- What the client hands to `send` of a message, in whatever pieces it is taken.
use latency_under_load.Prelude.{
  ℕ, ◌+◌, ◌-◌, ◌≤◌, ◌≡◌, refl, sym, ap, ◌⊎◌, inl, inr, some, List, ◌++◌, arith, take, drop, Returns,
  Returns->>=, after, add32, ◌==◌, Bool-cases,
}
use latency_under_load.Prelude.Memory.{length-take_le, length-drop}
use latency_under_load.Queue
use latency_under_load.CBuffer.{free_memory, increase_first_msg_offset}
use latency_under_load.CBuffer.OneSlot.{IsOneSlot, free_memory_same, increase_first-IsOneSlot}
use latency_under_load.Runner.{Runner}
use latency_under_load.Runner.Inv.{Inv, Inv-HasBuffers}
use latency_under_load.Runner.Wire.{
  IsWire, Transmits, part-Transmits, whole-Transmits, refused-Transmits, handed,
}
use latency_under_load.Client.{Client, sent_bytes, after_send, send_message}
use latency_under_load.Os.{
  Os, IsOs, Sent, took, refused, eagain, econnreset, ebadf, einprogress, other,
}

module _ (os : Os) (is_os : IsOs os) (taken : os.World → ℕ → List ℕ) (wire : IsWire os taken)
    (m i fd : ℕ) (base message : List ℕ) where
  -- After a call of `send`: the peer has been sent a part of the message, or all of it, which is
  -- counted then.
  abbrev pub Progress : Client → Client × os.World → Type 0
  Progress s t =
      (Transmits os taken m i fd base message t.0.runner t.1 × (t.0.sent_message ≡ s.sent_message))
      ⊎ (Transmits os taken m i fd (base ++ message) message t.0.runner t.1
          × (t.0.sent_message ≡ add32 s.sent_message 1))

  sent_bytes-Progress :
      (s : Client) (w w' : os.World) (k : ℕ)
      → (t : Transmits os taken m i fd base message s.runner w) → IsOneSlot t.b
      → t.b.msg_size ≡ m
      → os.send w fd (take (m - t.b.first_msg_offset) (drop t.b.first_msg_offset t.b.buffer))
        ≡ (took k, w')
      → t.b.first_msg_offset + k ≤ m
      → Returns
          (sent_bytes (some i) i t.c t.b (m - t.b.first_msg_offset) k s)
          (λ s'. Progress s (s', w'))
  unfolding sent_bytes
  sent_bytes-Progress s w w' k t slot size e few =
      let r : Runner = s.runner in
      let freed : free_memory (increase_first_msg_offset k t.b) ≡ increase_first_msg_offset k t.b =
        free_memory_same _ (increase_first-IsOneSlot k t.b slot (omega (arith, size))) in
      elim (Bool-cases (k == m - t.b.first_msg_offset)) [
        | inl whole ↦
            rw (whole, freed)
              (inr (
                whole-Transmits os taken wire m i fd base message w w' t.c t.b k t.valid t.same_fd
                    slot size t.message_is t.on_wire e few r t.at (ground arith),
                refl,
              ))
        | inr part ↦ rw part (
            after (Queue.push (some i) r.writable_socket_list) _ _ (λ q. inl (
              part-Transmits os taken wire m i fd base message w w' t.c t.b k t.valid t.same_fd slot
                  size t.message_is t.on_wire e few (record r { writable_socket_list = q }) t.at
                  (ground arith),
              refl,
            )))
      ]

  after_send-Progress :
      (s : Client) (w w' : os.World) (reply : Sent)
      → (t : Transmits os taken m i fd base message s.runner w) → IsOneSlot t.b
      → t.b.msg_size ≡ m
      → os.send w fd (take (m - t.b.first_msg_offset) (drop t.b.first_msg_offset t.b.buffer))
        ≡ (reply, w')
      → Returns
          (after_send os (some i) i t.c t.b (m - t.b.first_msg_offset) s reply w')
          (Progress s)
  unfolding after_send
  after_send-Progress s w w' (took k) t slot size e =
      let off = t.b.first_msg_offset in
      let sent = is_os.send_bounds w fd _ k w' e in
      let len = length-take_le (m - off) (drop off t.b.buffer) (
        omega (arith, length-drop off t.b.buffer, slot.allocated, slot.sized, slot.first_offset)) in
      Returns->>= (sent_bytes (some i) i t.c t.b (m - off) k s) _ (λ s'. Progress s (s', w')) _
        (sent_bytes-Progress s w w' k t slot size e (omega (arith, slot.first_offset))) (λ s' p. p)
  after_send-Progress s w w' (refused eagain) t slot size h =
      let r : Runner = s.runner in
      after (Queue.push (some i) r.writable_socket_list) _ _ (λ q. inl (
        refused-Transmits os taken wire m i fd base message r
            (record r { writable_socket_list = q }) w w' _ eagain t refl h,
        refl,
      ))
  after_send-Progress s w w' (refused econnreset) t slot size h = tt
  after_send-Progress s w w' (refused ebadf) t slot size h = tt
  after_send-Progress s w w' (refused einprogress) t slot size h = tt
  after_send-Progress s w w' (refused other) t slot size h = tt

  -- For a valid connection of a client in its invariant whose peer has been sent `base` and as much
  -- of the message in its write buffer as the buffer's offset says: after `send_message`, unless it
  -- stops the program, either this is so again and no message is counted, or the peer has been sent
  -- `base` and the whole message, nothing of the next one, and one message more is counted.
  pub send_message-Progress_client :
      (s : Client) (w : os.World)
      → Inv m s.runner
      → (t : Transmits os taken m i fd base message s.runner w)
      → Returns (send_message os (some i) i t.c s w) (Progress s)
  unfolding send_message
  send_message-Progress_client s w v t =
      let h = Inv-HasBuffers m s.runner i t.c v t.at t.valid in
      let same : h.read ≡ t.b = ground (arith, t.buffer_is, h.read_is) in
      let slot : IsOneSlot t.b = rw (← same) h.read_slot in
      let size : t.b.msg_size ≡ m = rw (← same) h.read_size in
      let (few, reads) = handed m i t.c t.b s.runner v t.at slot size in
      let bytes = take (m - t.b.first_msg_offset) (drop t.b.first_msg_offset t.b.buffer) in
      let reply = os.send w t.c.fd bytes in
      let whole : send_message os (some i) i t.c s w
          ≡ after_send os (some i) i t.c t.b (m - t.b.first_msg_offset) s reply.0 reply.1 =
        ground (arith, t.buffer_is, few, reads) in
      rw whole (
        after_send-Progress s w reply.1 reply.0 t slot size
          (ap (λ x. os.send w x bytes) (sym t.same_fd)))
