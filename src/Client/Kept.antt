-- ===== src/Client/Kept.antt =====
-- What the handlers of the client do with a message leaves alone: a property of the connections and
-- of the file descriptors that depends on no buffer is kept by its reads and its writes.
use latency_under_load.Prelude.{
  ℕ, zero, suc, ◌≡◌, refl, some, get_elem?, Returns, after, Returns->>=, Returns-if, Returns-mono,
  times-Returns, ◌==◌, ◌∙◌, sub32,
}
use latency_under_load.Prelude.Memory.{read_bytes}
use latency_under_load.Queue.{Queue}
use latency_under_load.Queue
use latency_under_load.CBuffer.{
  Buffer, free_memory, get_buffer_head, get_first_msg_offset, increase_first_msg_offset,
}
use latency_under_load.Connection.{Connection, get_write_buffer}
use latency_under_load.Runner.{
  Runner, Pointer, Attempt, no_room, some_bytes, no_bytes, deref, receive_once,
}
use latency_under_load.Runner.Kept.{
  Frame, frame, IsStable, deref-Returns, receive_once-Stable, put_write-Stable,
}
use latency_under_load.Client.{
  Client, stop_read, read_next, read_loop, handle_socket_read, sent_bytes, after_send, send_message,
  handle_socket_write,
}
use latency_under_load.Client.Loop.{handle_reads, handle_writes}
use latency_under_load.Os.{
  Os, Received, got, closed, failed, Sent, took, refused, eagain, econnreset, ebadf, einprogress,
  other,
}

module _ (os : Os) (P : Frame os → Type 0) (stable : IsStable os P) where
  stop_read-Stable :
      (reply : Received) (r : Runner) (w : os.World)
      → P (frame os r w)
      → Returns (stop_read os reply r w) (λ t. P (frame os t.0 t.1))
  unfolding stop_read
  stop_read-Stable (got bytes) r w h = h
  stop_read-Stable closed r w h = tt
  stop_read-Stable (failed eagain) r w h = h
  stop_read-Stable (failed econnreset) r w h = tt
  stop_read-Stable (failed ebadf) r w h = tt
  stop_read-Stable (failed einprogress) r w h = tt
  stop_read-Stable (failed other) r w h = tt

  read_loop-Stable :
      (fuel : ℕ) (p : Pointer) (r : Runner) (w : os.World)
      → P (frame os r w)
      → Returns (read_loop os fuel p r w) (λ t. P (frame os t.0 t.1))
  unfolding read_loop read_next
  read_loop-Stable zero p r w h = tt
  read_loop-Stable (suc fuel) p r w h =
      Returns->>= (receive_once os p r w) _ _ _ (receive_once-Stable os P stable p r w h)
        (λ t kept. next (read_loop-Stable fuel p) t.0 t.1 t.2 kept)
    where
      next :
          ((r' : Runner) (w' : os.World)
            → P (frame os r' w')
            → Returns (read_loop os fuel p r' w') (λ t. P (frame os t.0 t.1)))
          → (a : Attempt) (r' : Runner) (w' : os.World) → P (frame os r' w')
          → Returns (read_next os (read_loop os fuel p) p a r' w') (λ t. P (frame os t.0 t.1))
      next again some_bytes r' w' kept = again r' w' kept
      next again (no_bytes reply) r' w' kept = stop_read-Stable reply r' w' kept
      next again no_room r' w' kept = after (Queue.push p r'.readable_socket_list) _ _ (λ q. kept)

  pub handle_socket_read-Stable :
      (fuel : ℕ) (r : Runner) (w : os.World)
      → P (frame os r w)
      → Returns (handle_socket_read os fuel r w) (λ t. P (frame os t.0 t.1))
  unfolding handle_socket_read
  handle_socket_read-Stable fuel r w h = after (Queue.front r.readable_socket_list) _ _ (λ p.
      after (Queue.pop r.readable_socket_list) _ _ (λ q.
        let r' : Runner = record r { readable_socket_list = q } in
        after (deref p r') _ _
          (λ t. Returns-if t.1.valid _ _ _ (read_loop-Stable fuel p r' w h) h)))

  -- What writing leaves of a client: the property, and the queue of sockets.
  abbrev Writes : Client → Client → os.World → Type 0
  Writes s s' w = P (frame os s'.runner w) × (s'.socket_list ≡ s.socket_list)

  module _ (p : Pointer) (i : ℕ) (c : Connection) (s : Client)
      (at : get_elem? s.runner.heap i ≡ some c) where
    sent_bytes-Stable :
        (b : Buffer) (n k : ℕ) (w : os.World)
        → P (frame os s.runner w)
        → Returns (sent_bytes p i c b n k s) (λ t. Writes s t w)
    unfolding sent_bytes
    sent_bytes-Stable b n k w h =
        let b' = increase_first_msg_offset k b in
        let r : Runner = s.runner in
        Returns-if (k == n) _ _ _ (put_write-Stable os P stable i c (free_memory b') r w h at, refl)
          (after (Queue.push p r.writable_socket_list) _ _
            (λ q. (put_write-Stable os P stable i c b' r w h at, refl)))

    after_send-Stable :
        (b : Buffer) (n : ℕ) (reply : Sent) (w : os.World)
        → P (frame os s.runner w)
        → Returns (after_send os p i c b n s reply w) (λ t. Writes s t.0 t.1)
    unfolding after_send
    after_send-Stable b n (took k) w h =
        Returns->>= (sent_bytes p i c b n k s) _ _ _ (sent_bytes-Stable b n k w h) (λ t l. l)
    after_send-Stable b n (refused eagain) w h =
        let r : Runner = s.runner in
        after (Queue.push p r.writable_socket_list) _ _ (λ q. (h, refl))
    after_send-Stable b n (refused econnreset) w h = tt
    after_send-Stable b n (refused ebadf) w h = tt
    after_send-Stable b n (refused einprogress) w h = tt
    after_send-Stable b n (refused other) w h = tt

    send_message-Stable :
        (w : os.World)
        → P (frame os s.runner w)
        → Returns (send_message os p i c s w) (λ t. Writes s t.0 t.1)
    unfolding send_message
    send_message-Stable w h = after (get_write_buffer c) _ _ (λ b.
        let n = sub32 s.runner.config.message_size (get_first_msg_offset b) in
        after (read_bytes b.buffer (get_buffer_head b) n) _ _ (λ bytes.
          after_send-Stable b n (os.send w c.fd bytes).0 (os.send w c.fd bytes).1
            (stable.sent (frame os s.runner w) c.fd bytes h)))

  pub handle_socket_write-Stable :
      (s : Client) (w : os.World)
      → P (frame os s.runner w)
      → Returns (handle_socket_write os s w) (λ t. Writes s t.0 t.1)
  unfolding handle_socket_write
  handle_socket_write-Stable s w h =
      let r : Runner = s.runner in
      after (Queue.front r.writable_socket_list) _ _ (λ p.
        after (Queue.pop r.writable_socket_list) _ _ (λ q.
          let r' : Runner = record r { writable_socket_list = q } in
          let s' : Client = record s { runner = r' } in
          Returns->>= (deref p r') _ _ _ (deref-Returns p r') (λ t at.
            Returns-if t.1.valid _ _ _ (send_message-Stable p t.0 t.1 s' at w h) (h, refl))))

  -- The loops over the queues.
  pub handle_reads-Stable :
      (fuel : ℕ) (r : Runner) (w : os.World)
      → P (frame os r w)
      → Returns (handle_reads os fuel r w) (λ t. P (frame os t.0 t.1))
  unfolding handle_reads
  handle_reads-Stable fuel r w h =
      times-Returns (λ t. P (frame os t.0 t.1)) _ (λ t k. handle_socket_read-Stable fuel t.0 t.1 k)
        (Queue.size r.readable_socket_list) (r, w) h

  pub handle_writes-Stable :
      (s : Client) (w : os.World)
      → P (frame os s.runner w)
      → Returns (handle_writes os s w) (λ t. Writes s t.0 t.1)
  unfolding handle_writes
  handle_writes-Stable s w h =
      times-Returns (λ t. Writes s t.0 t.1) _
        (λ t k.
          Returns-mono (handle_socket_write os t.0 t.1) _ _ (handle_socket_write-Stable t.0 t.1 k.0)
            (λ t' k'. (k'.0, k'.1 ∙ k.1)))
        (Queue.size s.runner.writable_socket_list) (s, w) (h, refl)
