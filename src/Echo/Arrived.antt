-- ===== src/Echo/Arrived.antt =====
-- A whole message that the read loop has put into the memory of a connection.
use native.Mathlib.Decide.{dec_lt}
use latency_under_load.Prelude.{
  ℕ, ◌+◌, ◌≤◌, ◌≡◌, refl, sym, ap, subst, ◌∙◌, some, List, [], arith, length, get_elem?-set_self,
  lt_of_get_elem?, take, ok, ◌>>=◌, Returns,
}
use latency_under_load.Prelude.Memory.{
  take-take, overwrite, length-overwrite, read-overwrite_self, read_bytes, read_bytes-ok,
}
use latency_under_load.Queue.{Queue}
use latency_under_load.Queue.Refine.{push-Represents, push-full}
use latency_under_load.CBuffer.{Buffer, get_buffer_head}
use latency_under_load.CBuffer.OneSlot.{IsOneSlot}
use latency_under_load.Connection.{Connection, set_read_buffer}
use latency_under_load.Runner.{Runner, Pointer}
use latency_under_load.Runner.Inv.{Inv-HasBuffers}
use latency_under_load.Runner.Stream.{
  Stream, put_bytes, put_bytes-piece, stream_of, received, streamed, push_times,
}
use latency_under_load.Server.{sizeof_msg_id}
use latency_under_load.Echo.{Awaits, Holds, HasRead, IsMessage}

module _ (m : ℕ) (some_id : sizeof_msg_id ≤ m) where
  -- A whole message stands at the beginning of its slot.
  put_bytes-whole :
      (b : Buffer) (bytes : List ℕ)
      → IsOneSlot b
      → b.msg_size ≡ m
      → b.last_msg_offset ≡ 0
      → length bytes ≡ m
      → put_bytes m bytes (stream_of b)
        ≡ record { memory = overwrite b.buffer 0 bytes; offset = 0; complete = 1 }
  put_bytes-whole b bytes slot size begins len =
      put_bytes-piece m bytes (stream_of b) (omega (arith, some_id)) (omega arith)
      ∙ ground (arith, begins, len)

  whole-number :
      (b : Buffer) (bytes id : List ℕ)
      → IsOneSlot b
      → b.msg_size ≡ m
      → length bytes ≡ m
      → take sizeof_msg_id bytes ≡ id
      → read_bytes (overwrite b.buffer 0 bytes) 0 sizeof_msg_id ≡ ok id
  whole-number b bytes id slot size len number =
      let room : length bytes ≤ length b.buffer = omega (arith, slot.allocated, slot.sized) in
      let memory = overwrite b.buffer 0 bytes in
      let back : take m memory ≡ bytes =
        subst (λ n. take n memory ≡ bytes) len
          (read-overwrite_self b.buffer 0 bytes (omega arith)) in
      read_bytes-ok memory 0 sizeof_msg_id
        (omega (arith, length-overwrite b.buffer 0 bytes, some_id))
      ∙ ap ok
          (sym (take-take sizeof_msg_id m memory some_id) ∙ ap (take sizeof_msg_id) back ∙ number)

  whole-Holds :
      (i : ℕ) (c : Connection) (b : Buffer) (r : Runner) (a : Awaits m i c b r)
      (queue : Queue Pointer) (bytes id : List ℕ) (q : Queue Pointer)
      → length bytes ≡ m
      → take sizeof_msg_id bytes ≡ id
      → Holds i id c.read_buffer (
          streamed i c b
            (record r { readable_socket_list = queue })
            (put_bytes m bytes (stream_of b))
            q)
  unfolding get_buffer_head
  whole-Holds i c b r a queue bytes id q len number =
      let h = Inv-HasBuffers m r i c a.inv a.at a.valid in
      let same : h.written ≡ b = ground (arith, a.buffer_is, h.write_is) in
      let slot : IsOneSlot b = rw (← same) h.written_slot in
      let size : b.msg_size ≡ m = rw (← same) h.written_size in
      let s = put_bytes m bytes (stream_of b) in
      let all = put_bytes-whole b bytes slot size a.begins len in
      let memory = ap (λ (x : Stream). x.memory) all in
      let start : b.first_element + b.first_msg_offset ≡ 0 =
        omega (arith, slot.empty_first, a.head) in
      record {
        c = set_read_buffer (received b s) c;
        b = received b s;
        at = get_elem?-set_self r.heap i _ (lt_of_get_elem? r.heap i c a.at);
        valid = a.valid;
        buffer_is = refl;
        target_is = refl;
        number = rw (memory, start) (whole-number b bytes id slot size len number);
      }

  -- What the read loop comes to with a whole message.
  pub read-HasRead :
      {W : Type 0} (i : ℕ) (c : Connection) (b : Buffer) (r : Runner) (a : Awaits m i c b r)
      (queue : Queue Pointer) (bytes id : List ℕ) (w : W)
      → IsMessage m id bytes
      → (let s = put_bytes m bytes (stream_of b) in
          Returns {A = Runner × W}
            (push_times s.complete (some i) r.readable_connection_list >>= λ q.
              ok (streamed i c b (record r { readable_socket_list = queue }) s q, w))
            (λ t. HasRead m i id c.read_buffer t.0))
  read-HasRead i c b r a queue bytes id w (len, number) =
      let h = Inv-HasBuffers m r i c a.inv a.at a.valid in
      let same : h.written ≡ b = ground (arith, a.buffer_is, h.write_is) in
      let slot : IsOneSlot b = rw (← same) h.written_slot in
      let size : b.msg_size ≡ m = rw (← same) h.written_size in
      let once : (put_bytes m bytes (stream_of b)).complete ≡ 1 =
        ap (λ (x : Stream). x.complete) (put_bytes-whole b bytes slot size a.begins len) in
      let old = r.readable_connection_list in
      rw once (elim (dec_lt 0 old.max_queue_size) [
        | yes room ↦
            let (q, e, represents, _) = push-Represents (some i) old [] a.none_complete room in
            rw e (record {
              holds = whole-Holds i c b r a queue bytes id q len number;
              complete = represents;
            })
        | no full ↦ rw (push-full (some i) old [] a.none_complete (omega arith)) tt
      ])
