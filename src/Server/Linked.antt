-- ===== src/Server/Linked.antt =====
-- The handlers of the server keep the connections linked with the file descriptors that are polled.
use latency_under_load.Prelude.{
  ℕ, zero, suc, ◌≡◌, some, none, Option, Bool, get_elem?, ok, ◌>>=◌, Returns, after, Returns->>=,
  Returns-if, times-Returns, ◌==◌, sub32,
}
use latency_under_load.Prelude.Memory.{read_bytes, write_bytes}
use latency_under_load.Queue
use latency_under_load.CBuffer.{
  Buffer, reserve_memory, free_memory, get_buffer_head, get_first_msg_offset,
  increase_first_msg_offset,
}
use latency_under_load.Connection.{Connection, get_read_buffer, get_write_buffer, set_write_buffer}
use latency_under_load.Runner.{
  Runner, Pointer, Attempt, no_room, some_bytes, no_bytes, deref, put_connection, receive_once,
}
use latency_under_load.Runner.Kept.{frame, deref-Returns, receive_once-Stable, put_write-Stable}
use latency_under_load.Runner.Linked.{
  Linked, Linked-IsStable, same-Linked, remove_connection-Linked,
}
use latency_under_load.Server.{
  sizeof_msg_id, answer, handle_connection_read, sent_bytes, drop_connection, stop_read, read_next,
  read_loop, handle_socket_read, send_refused, after_send, send_message, handle_socket_write,
}
use latency_under_load.Server.Loop.{handle_reads, handle_answers, handle_writes}
use latency_under_load.Os.{
  Os, Received, got, closed, failed, Sent, took, refused, eagain, econnreset, ebadf, einprogress,
  other, TracksFds,
}

module _ (os : Os) (tracks : TracksFds os) (IsExempt : Bool → ℕ → Type 0) where
  abbrev pub AreLinked : Runner → os.World → Type 0
  AreLinked r w = Linked os IsExempt (frame os r w)

  drop_connection-Linked :
      (p : Pointer) (r : Runner) (w : os.World)
      → AreLinked r w
      → Returns (drop_connection os p r w) (λ t. AreLinked t.0 t.1)
  unfolding drop_connection
  drop_connection-Linked p r w h =
      after (deref p r) _ _ (λ t. remove_connection-Linked os IsExempt tracks t.1.fd r w h)

  stop_read-Linked :
      (p : Pointer) (reply : Received) (r : Runner) (w : os.World)
      → AreLinked r w
      → Returns (stop_read os p reply r w) (λ t. AreLinked t.0 t.1)
  unfolding stop_read
  stop_read-Linked p (got bytes) r w h = h
  stop_read-Linked p closed r w h = drop_connection-Linked p r w h
  stop_read-Linked p (failed econnreset) r w h = drop_connection-Linked p r w h
  stop_read-Linked p (failed eagain) r w h = h
  stop_read-Linked p (failed ebadf) r w h = h
  stop_read-Linked p (failed einprogress) r w h = tt
  stop_read-Linked p (failed other) r w h = tt

  read_loop-Linked :
      (fuel : ℕ) (p : Pointer) (r : Runner) (w : os.World)
      → AreLinked r w
      → Returns (read_loop os fuel p r w) (λ t. AreLinked t.0 t.1)
  unfolding read_loop read_next
  read_loop-Linked zero p r w h = tt
  read_loop-Linked (suc fuel) p r w h =
      Returns->>= (receive_once os p r w) _ _ _
        (receive_once-Stable os (Linked os IsExempt) (Linked-IsStable os IsExempt tracks) p r w h)
        (λ t kept. next (read_loop-Linked fuel p) t.0 t.1 t.2 kept)
    where
      next :
          ((r' : Runner) (w' : os.World)
            → AreLinked r' w'
            → Returns (read_loop os fuel p r' w') (λ t. AreLinked t.0 t.1))
          → (a : Attempt) (r' : Runner) (w' : os.World) → AreLinked r' w'
          → Returns (read_next os (read_loop os fuel p) p a r' w') (λ t. AreLinked t.0 t.1)
      next again some_bytes r' w' kept = again r' w' kept
      next again (no_bytes reply) r' w' kept = stop_read-Linked p reply r' w' kept
      next again no_room r' w' kept = after (Queue.push p r'.readable_socket_list) _ _ (λ q. kept)

  handle_socket_read-Linked :
      (fuel : ℕ) (r : Runner) (w : os.World)
      → AreLinked r w
      → Returns (handle_socket_read os fuel r w) (λ t. AreLinked t.0 t.1)
  unfolding handle_socket_read
  handle_socket_read-Linked fuel r w h = after (Queue.front r.readable_socket_list) _ _ (λ p.
      after (Queue.pop r.readable_socket_list) _ _ (λ q.
        let r' : Runner = record r { readable_socket_list = q } in
        after (deref p r') _ _
          (λ t. Returns-if t.1.valid _ _ _ (read_loop-Linked fuel p r' w h) h)))

  answer-Linked :
      (p : Pointer) (i : ℕ) (c : Connection) (r : Runner) (w : os.World)
      → AreLinked r w
      → get_elem? r.heap i ≡ some c
      → Returns (answer p i c r) (λ r'. AreLinked r' w)
  unfolding answer
  answer-Linked p i c r w h at = after (get_read_buffer c) _ _ (λ source.
      after (get_write_buffer c) _ _
        (λ target. after (reserve_memory target) _ _ (λ s. reserved source s.0 s.1)))
    where
      put : (b : Buffer) → AreLinked (put_connection i (set_write_buffer b c) r) w
      put b =
          put_write-Stable os (Linked os IsExempt) (Linked-IsStable os IsExempt tracks) i c b r w h
            at

      reserved :
          (source : Buffer) (address : Option ℕ) (b : Buffer)
          → Returns {A = Runner}
              (elim address [
                | some a ↦ do
                  msg_id ← read_bytes source.buffer (get_buffer_head source) sizeof_msg_id
                  memory ← write_bytes b.buffer a msg_id
                  queue ← Queue.push p r.writable_socket_list
                  let b' = free_memory (record b { buffer = memory })
                  ok (
                      put_connection i
                        (set_write_buffer b' c)
                        (record r { writable_socket_list = queue }))
                | none ↦ do
                  queue ← Queue.push p r.readable_connection_list
                  ok (
                      put_connection i
                        (set_write_buffer b c)
                        (record r { readable_connection_list = queue }))
              ])
              (λ r'. AreLinked r' w)
      reserved source (some a) b =
          after (read_bytes source.buffer (get_buffer_head source) sizeof_msg_id) _ _ (λ id.
            after (write_bytes b.buffer a id) _ _ (λ memory.
              after (Queue.push p r.writable_socket_list) _ _
                (λ q. put (free_memory (record b { buffer = memory })))))
      reserved source none b = after (Queue.push p r.readable_connection_list) _ _ (λ q. put b)

  handle_connection_read-Linked :
      (r : Runner) (w : os.World)
      → AreLinked r w
      → Returns (handle_connection_read r) (λ r'. AreLinked r' w)
  unfolding handle_connection_read
  handle_connection_read-Linked r w h = after (Queue.front r.readable_connection_list) _ _ (λ p.
      after (Queue.pop r.readable_connection_list) _ _ (λ q.
        let r' : Runner = record r { readable_connection_list = q } in
        Returns->>= (deref p r') _ _ _ (deref-Returns p r')
          (λ t at. Returns-if t.1.valid _ _ _ (answer-Linked p t.0 t.1 r' w h at) h)))

  module _ (p : Pointer) (i : ℕ) (c : Connection) (r : Runner)
      (at : get_elem? r.heap i ≡ some c) where
    sent_bytes-Linked :
        (b : Buffer) (n k : ℕ) (w : os.World)
        → AreLinked r w
        → Returns (sent_bytes p i c b n k r) (λ r'. AreLinked r' w)
    unfolding sent_bytes
    sent_bytes-Linked b n k w h =
        Returns-if (k == n) _ _ _ (put (increase_first_msg_offset k (free_memory b))) (
          after (Queue.push p r.writable_socket_list) _ _
            (λ q. put (increase_first_msg_offset k b)))
      where
        put : (b' : Buffer) → AreLinked (put_connection i (set_write_buffer b' c) r) w
        put b' =
            put_write-Stable os (Linked os IsExempt) (Linked-IsStable os IsExempt tracks) i c b' r w
              h at

    after_send-Linked :
        (b : Buffer) (n : ℕ) (reply : Sent) (w : os.World)
        → AreLinked r w
        → Returns (after_send os p i c b n r reply w) (λ t. AreLinked t.0 t.1)
    unfolding after_send send_refused
    after_send-Linked b n (took k) w h =
        Returns->>= (sent_bytes p i c b n k r) _ _ _ (sent_bytes-Linked b n k w h) (λ t l. l)
    after_send-Linked b n (refused eagain) w h =
        after (Queue.push p r.writable_socket_list) _ _ (λ q. h)
    after_send-Linked b n (refused econnreset) w h =
        remove_connection-Linked os IsExempt tracks c.fd r w h
    after_send-Linked b n (refused ebadf) w h = h
    after_send-Linked b n (refused einprogress) w h = tt
    after_send-Linked b n (refused other) w h = tt

    send_message-Linked :
        (w : os.World)
        → AreLinked r w
        → Returns (send_message os p i c r w) (λ t. AreLinked t.0 t.1)
    unfolding send_message
    send_message-Linked w h = after (get_write_buffer c) _ _ (λ b.
        let n = sub32 r.config.message_size (get_first_msg_offset b) in
        after (read_bytes b.buffer (get_buffer_head b) n) _ _ (λ bytes.
          after_send-Linked b n (os.send w c.fd bytes).0 (os.send w c.fd bytes).1
            (same-Linked os IsExempt (frame os r w) _ h (tracks.send_same w c.fd bytes))))

  handle_socket_write-Linked :
      (r : Runner) (w : os.World)
      → AreLinked r w
      → Returns (handle_socket_write os r w) (λ t. AreLinked t.0 t.1)
  unfolding handle_socket_write
  handle_socket_write-Linked r w h = after (Queue.front r.writable_socket_list) _ _ (λ p.
      after (Queue.pop r.writable_socket_list) _ _ (λ q.
        let r' : Runner = record r { writable_socket_list = q } in
        Returns->>= (deref p r') _ _ _ (deref-Returns p r')
          (λ t at. Returns-if t.1.valid _ _ _ (send_message-Linked p t.0 t.1 r' at w h) h)))

  -- The three loops over the queues.
  pub handle_reads-Linked :
      (fuel : ℕ) (r : Runner) (w : os.World)
      → AreLinked r w
      → Returns (handle_reads os fuel r w) (λ t. AreLinked t.0 t.1)
  unfolding handle_reads
  handle_reads-Linked fuel r w h =
      times-Returns (λ s. AreLinked s.0 s.1) _ (λ s k. handle_socket_read-Linked fuel s.0 s.1 k)
        (Queue.size r.readable_socket_list) (r, w) h

  pub handle_answers-Linked :
      (r : Runner) (w : os.World)
      → AreLinked r w
      → Returns (handle_answers r) (λ r'. AreLinked r' w)
  unfolding handle_answers
  handle_answers-Linked r w h =
      times-Returns (λ s. AreLinked s w) _ (λ s k. handle_connection_read-Linked s w k)
        (Queue.size r.readable_connection_list) r h

  pub handle_writes-Linked :
      (r : Runner) (w : os.World)
      → AreLinked r w
      → Returns (handle_writes os r w) (λ t. AreLinked t.0 t.1)
  unfolding handle_writes
  handle_writes-Linked r w h =
      times-Returns (λ s. AreLinked s.0 s.1) _ (λ s k. handle_socket_write-Linked s.0 s.1 k)
        (Queue.size r.writable_socket_list) (r, w) h
