-- ===== src/Runner/Stream.antt =====
-- The bytes that a socket delivers, put into the memory of a message one at a time.
pub mod Rounds
use latency_under_load.Prelude.{
  ℕ, zero, suc, ◌+◌, ◌-◌, ◌≤◌, ◌<◌, ◌≡◌, refl, ap, ◌∙◌, some, true, false, List, [], ◌∷◌, ◌++◌,
  arith, length, get_elem?, if◌then◌else◌, ◌==◌, Result, ok, ◌>>=◌,
}
use latency_under_load.Prelude.Memory.{overwrite, overwrite-cons}
use latency_under_load.Queue.{Queue}
use latency_under_load.Queue
use latency_under_load.CBuffer.{Buffer}
use latency_under_load.CBuffer.OneSlot.{IsOneSlot}
use latency_under_load.Connection.{Connection, set_read_buffer}
use latency_under_load.Runner.{Runner, Pointer, put_connection}
use latency_under_load.Runner.Inv.{Inv, Inv-HasBuffers}
use latency_under_load.Os.{Os, got, failed, eagain}

-- The memory of a slot, the place of the next byte, and how many messages have been completed.
pub record Stream : Type 0 where
  pub memory : List ℕ
  pub offset : ℕ
  pub complete : ℕ

-- A byte goes to its place, and the last one of a message completes it.
abbrev pub put_byte : ℕ → ℕ → Stream → Stream
put_byte m x s = record {
  memory = overwrite s.memory s.offset (x ∷ []);
  offset = if s.offset + 1 == m then 0 else s.offset + 1;
  complete = if s.offset + 1 == m then s.complete + 1 else s.complete;
}

abbrev pub put_bytes : ℕ → List ℕ → Stream → Stream
put_bytes m [] s = s
put_bytes m (x ∷ xs) s = put_bytes m xs (put_byte m x s)

pub put_bytes-append :
    (m : ℕ) (xs ys : List ℕ) (s : Stream)
    → put_bytes m (xs ++ ys) s ≡ put_bytes m ys (put_bytes m xs s)
put_bytes-append m [] ys s = refl
put_bytes-append m (x ∷ xs) ys s = put_bytes-append m xs ys (put_byte m x s)

-- Messages that were completed before.
put_bytes-before :
    (m k : ℕ) (xs : List ℕ) (s : Stream)
    → put_bytes m xs (record s { complete = s.complete + k })
      ≡ record (put_bytes m xs s) { complete = (put_bytes m xs s).complete + k }
put_bytes-before m k [] s = refl
put_bytes-before m k (x ∷ xs) s =
    let step : put_byte m x (record s { complete = s.complete + k })
        ≡ record (put_byte m x s) { complete = (put_byte m x s).complete + k } =
      ground arith in
    ap (put_bytes m xs) step ∙ put_bytes-before m k xs (put_byte m x s)

pub put_bytes-restart :
    (m : ℕ) (xs : List ℕ) (s : Stream)
    → put_bytes m xs s ≡ record (put_bytes m xs (record s { complete = 0 })) {
      complete = (put_bytes m xs (record s { complete = 0 })).complete + s.complete;
    }
put_bytes-restart m xs s =
    ap (λ n. put_bytes m xs (record s { complete = n })) (omega arith)
    ∙ put_bytes-before m s.complete xs (record s { complete = 0 })

-- A piece that reaches to the end of the message at most.
abbrev pub put_piece : ℕ → List ℕ → Stream → Stream
put_piece m bytes s = record {
  memory = overwrite s.memory s.offset bytes;
  offset = if s.offset + length bytes == m then 0 else s.offset + length bytes;
  complete = if s.offset + length bytes == m then s.complete + 1 else s.complete;
}

pub put_bytes-piece :
    (m : ℕ) (bytes : List ℕ) (s : Stream)
    → 0 < length bytes
    → s.offset + length bytes ≤ m
    → put_bytes m bytes s ≡ put_piece m bytes s
put_bytes-piece m [] s has few = absurd (omega arith)
put_bytes-piece m (x ∷ []) s has few = refl
put_bytes-piece m (x ∷ y ∷ ys) s has few =
    let more : (s.offset + 1 == m) ≡ false = ground arith in
    let step : put_byte m x s ≡ record {
      memory = overwrite s.memory s.offset (x ∷ []);
      offset = suc s.offset;
      complete = s.complete;
    } =
      ground (arith, more) in
    let after =
      put_bytes-piece m (y ∷ ys)
        (record {
          memory = overwrite s.memory s.offset (x ∷ []);
          offset = suc s.offset;
          complete = s.complete;
        })
        (omega arith) (omega arith) in
    ap (put_bytes m (y ∷ ys)) step
    ∙ after
    ∙ ground (arith, overwrite-cons s.memory s.offset x (y ∷ ys))

-- What a buffer has received, and a buffer that has received this.
abbrev pub stream_of : Buffer → Stream
stream_of b = record { memory = b.buffer; offset = b.last_msg_offset; complete = 0 }

abbrev pub received : Buffer → Stream → Buffer
received b s = record b { buffer = s.memory; last_msg_offset = s.offset; last_msg_address = some 0 }

-- The pointer to a connection, once for each of its complete messages.
abbrev pub push_times : ℕ → Pointer → Queue Pointer → Result (Queue Pointer)
push_times zero p q = ok q
push_times (suc n) p q = Queue.push p q >>= push_times n p

-- The runner after the bytes of a stream, with the queue of complete messages.
abbrev pub streamed : ℕ → Connection → Buffer → Runner → Stream → Queue Pointer → Runner
streamed i c b r s q =
    put_connection i (set_read_buffer (received b s) c) (record r { readable_connection_list = q })

-- Place `i` of the heap has the connection `c`, which receives messages of `m` bytes into `b`.
pub record Receives (m i : ℕ) (c : Connection) (b : Buffer) (r : Runner) : Type 0 where
  pub same : r.config.message_size ≡ m
  pub at : get_elem? r.heap i ≡ some c
  pub buffer_is : c.write_buffer ≡ some b
  pub slot : IsOneSlot b
  pub size : b.msg_size ≡ m

-- What the socket `fd` delivers from the offset `off` of a message on, until `recv` has nothing more:
-- the pieces that it hands over, one after another.
pub data Delivers (os : Os) (m fd : ℕ) : ℕ → os.World → List ℕ → os.World → Type 0 where
  dry :
      {off : ℕ} {w w' : os.World}
      → os.recv w fd (m - off) ≡ (failed eagain, w')
      → Delivers os m fd off w [] w'
  piece :
      {off : ℕ} {w w₁ w' : os.World} {bytes rest : List ℕ}
      → os.recv w fd (m - off) ≡ (got bytes, w₁)
      → Delivers os m fd (if off + length bytes == m then 0 else off + length bytes) w₁ rest w'
      → Delivers os m fd off w (bytes ++ rest) w'

-- A valid connection of a runner in its invariant, whatever its queue of readable sockets.
pub Inv-Receives :
    (m i : ℕ) (c : Connection) (b : Buffer) (r : Runner) (q : Queue Pointer)
    → Inv m r
    → get_elem? r.heap i ≡ some c
    → c.valid ≡ true
    → c.write_buffer ≡ some b
    → Receives m i c b (record r { readable_socket_list = q })
Inv-Receives m i c b r q v at valid buffer_is =
    let h = Inv-HasBuffers m r i c v at valid in
    let same : h.written ≡ b = ground (arith, buffer_is, h.write_is) in
    record {
      same = v.message;
      at = at;
      buffer_is = buffer_is;
      slot = rw (← same) h.written_slot;
      size = rw (← same) h.written_size;
    }
