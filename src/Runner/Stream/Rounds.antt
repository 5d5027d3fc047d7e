-- ===== src/Runner/Stream/Rounds.antt =====
-- A round of the read loop, which puts a piece of the bytes that a socket delivers into the memory of
-- a message.
use latency_under_load.Prelude.{
  ℕ, zero, suc, ◌+◌, ◌-◌, ◌≤◌, ◌<◌, ◌≡◌, refl, sym, ap, subst, ◌∙◌, some, List, ◌++◌, arith, length,
  Result, ok, err, ◌>>=◌, set-set, get_elem?-set_self, lt_of_get_elem?, sub32,
}
use latency_under_load.Prelude.Memory.{length-overwrite, write_bytes-ok}
use latency_under_load.Queue.{Queue}
use latency_under_load.Queue
use latency_under_load.CBuffer.{Buffer, increase_last_msg_offset, get_last_msg_offset}
use latency_under_load.CBuffer.OneSlot.{reserve_memory-IsOneSlot}
use latency_under_load.Connection.{Connection, set_read_buffer}
use latency_under_load.Runner.{
  Runner, Pointer, Attempt, some_bytes, no_bytes, receive_reply, receive_at, receive_once,
}
use latency_under_load.Runner.Inv.{deref_at}
use latency_under_load.Os.{Os, got, failed, eagain}
use latency_under_load.Runner.Stream.{
  put_bytes, put_bytes-append, put_bytes-restart, put_piece, put_bytes-piece, Stream, stream_of,
  received, push_times, streamed, Receives,
}

push_times-again {ℓ} :
    {B : Type ℓ} (k a : ℕ) (p : Pointer) (q : Queue Pointer) (f : Queue Pointer → Result B)
    → (push_times k p q >>= λ q'. push_times a p q' >>= f) ≡ (push_times (a + k) p q >>= f)
push_times-again zero a p q f = ap (λ n. push_times n p q >>= f) (omega arith)
push_times-again (suc k) a p q f =
    go (Queue.push p q) (λ q'. push_times-again k a p q' f) ∙ ap (λ n. push_times n p q >>= f) more
  where
    more : suc (a + k) ≡ a + suc k
    more = omega arith

    go :
        (x : Result (Queue Pointer))
        → ((q' : Queue Pointer)
            → (push_times k p q' >>= λ q''. push_times a p q'' >>= f)
              ≡ (push_times (a + k) p q' >>= f))
        → ((x >>= push_times k p) >>= λ q'. push_times a p q' >>= f)
          ≡ ((x >>= push_times (a + k) p) >>= f)
    go (ok q') again = again q'
    go (err e) again = refl

bind_ok {ℓ κ μ} :
    {A : Type ℓ} {B : Type κ} {C : Type μ} (x : Result A) (f : A → B) (g : B → Result C)
    (h : A → Result C)
    → ((a : A) → g (f a) ≡ h a)
    → ((x >>= λ a. ok (f a)) >>= g) ≡ (x >>= h)
bind_ok (ok a) f g h same = same a
bind_ok (err e) f g h same = refl

module _ (m i : ℕ) (c : Connection) (b : Buffer) (r : Runner) (v : Receives m i c b r) where
  open v use {same, at, buffer_is, slot, size}

  pub piece-Receives :
      (bytes : List ℕ) (q : Queue Pointer)
      → b.last_msg_offset + length bytes ≤ m
      → (let s = put_piece m bytes (stream_of b) in
          Receives m i (set_read_buffer (received b s) c) (received b s) (streamed i c b r s q))
  piece-Receives bytes q few = record {
    same = same;
    at = get_elem?-set_self r.heap i _ (lt_of_get_elem? r.heap i c at);
    buffer_is = refl;
    slot =
        ground
          (arith, slot, size, slot.last_offset, length-overwrite b.buffer b.last_msg_offset bytes);
    size = size;
  }

  module _ (os : Os) (w w₁ : os.World) where
    receive_once-piece :
        (bytes : List ℕ)
        → os.recv w c.fd (m - b.last_msg_offset) ≡ (got bytes, w₁)
        → b.last_msg_offset + length bytes ≤ m
        → receive_once os (some i) r w ≡ (
            push_times
              (put_piece m bytes (stream_of b)).complete
              (some i)
              r.readable_connection_list
            >>= λ q. ok (some_bytes, streamed i c b r (put_piece m bytes (stream_of b)) q, w₁))
    unfolding receive_once receive_at receive_reply get_last_msg_offset increase_last_msg_offset
    receive_once-piece bytes e few =
        let left : sub32 r.config.message_size b.last_msg_offset ≡ m - b.last_msg_offset =
          omega (arith, slot.small, slot.sized, slot.last_offset) in
        rw (deref_at r i c at, buffer_is, reserve_memory-IsOneSlot b slot, left, e)
          (rw
            (write_bytes-ok b.buffer b.last_msg_offset bytes
              (omega (arith, slot.allocated, slot.sized)))
            (ground (arith, slot.small, slot.sized, slot.last_offset)))

    pub receive_once-dry :
        os.recv w c.fd (m - b.last_msg_offset) ≡ (failed eagain, w₁)
        → receive_once os (some i) r w
          ≡ ok (
            no_bytes (failed eagain),
            streamed i c b r (stream_of b) r.readable_connection_list,
            w₁,
          )
    unfolding receive_once receive_at receive_reply get_last_msg_offset
    receive_once-dry e =
        let left : sub32 r.config.message_size b.last_msg_offset ≡ m - b.last_msg_offset =
          omega (arith, slot.small, slot.sized, slot.last_offset) in
        rw (deref_at r i c at, buffer_is, reserve_memory-IsOneSlot b slot, left, e) refl

    -- A piece, and then the rest of what the socket delivers.
    pub receive_once-then :
        (bytes rest : List ℕ) (w' : os.World)
        (next : Attempt × Runner × os.World → Result (Runner × os.World))
        → os.recv w c.fd (m - b.last_msg_offset) ≡ (got bytes, w₁)
        → 0 < length bytes
        → b.last_msg_offset + length bytes ≤ m
        → (let s = put_piece m bytes (stream_of b) in
            let s' = put_bytes m rest (record s { complete = 0 }) in
            (q : Queue Pointer)
            → next (some_bytes, streamed i c b r s q, w₁) ≡ (
                push_times s'.complete (some i) q >>= λ q'. ok (
                  streamed i
                      (set_read_buffer (received b s) c)
                      (received b s)
                      (streamed i c b r s q)
                      s'
                      q',
                  w',
                )))
        → (let s = put_bytes m (bytes ++ rest) (stream_of b) in
            (receive_once os (some i) r w >>= next) ≡ (
              push_times s.complete (some i) r.readable_connection_list >>= λ q.
              ok (streamed i c b r s q, w')))
    receive_once-then bytes rest w' next e has few again =
        let p : Pointer = some i in
        let s = put_piece m bytes (stream_of b) in
        let s' = put_bytes m rest (record s { complete = 0 }) in
        let t = put_bytes m (bytes ++ rest) (stream_of b) in
        let split : t ≡ record s' { complete = s'.complete + s.complete } =
          put_bytes-append m bytes rest (stream_of b)
          ∙ ap (put_bytes m rest) (put_bytes-piece m bytes (stream_of b) has few)
          ∙ put_bytes-restart m rest s in
        let twice =
          set-set r.heap i (set_read_buffer (received b s) c) (set_read_buffer (received b s') c) in
        subst
          (λ (x : Stream). (receive_once os p r w >>= next) ≡ (
            push_times x.complete p r.readable_connection_list >>= λ q.
            ok (streamed i c b r x q, w')))
          (sym split)
          (ap (λ x. x >>= next) (receive_once-piece bytes e few)
            ∙ bind_ok (push_times s.complete p r.readable_connection_list) _ next _
                (λ q. rw twice at (again q))
            ∙ push_times-again s.complete s'.complete p r.readable_connection_list _)
