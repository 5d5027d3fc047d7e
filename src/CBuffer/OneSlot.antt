-- ===== src/CBuffer/OneSlot.antt =====
-- What `connection_buffer_t` does from its construction on: the slot of a message that is reserved
-- in an empty buffer is not counted, so the buffer stays empty and has one slot, at offset 0.
use latency_under_load.Prelude.{
  ℕ, ◌+◌, ◌-◌, ◌*◌, ◌≤◌, ◌<◌, ◌≡◌, refl, ◌⊎◌, inl, inr, ◌≢◌, Option, none, some, List, arith,
  length, length-replicate, u32_mod, mul32, ok,
}
use latency_under_load.CBuffer.{
  Buffer, max_queued_massage, new_buffer, reserve_memory, free_memory, increase_first_msg_offset,
  increase_last_msg_offset,
}

pub record IsOneSlot (b : Buffer) : Type 0 where
  pub empty_first : b.first_element ≡ 0
  pub empty_last : b.last_element ≡ 0
  pub positive : 0 < b.msg_size
  pub sized : b.buffer_size ≡ b.msg_size * max_queued_massage
  pub small : b.buffer_size < u32_mod
  pub allocated : length b.buffer ≡ b.buffer_size
  pub first_offset : b.first_msg_offset < b.msg_size
  pub last_offset : b.last_msg_offset < b.msg_size
  pub address : (b.last_msg_offset ≡ 0) ⊎ (b.last_msg_address ≡ some 0)

pub new_buffer-IsOneSlot :
    (m : ℕ) → 0 < m → m * max_queued_massage < u32_mod → IsOneSlot (new_buffer m)
unfolding new_buffer
new_buffer-IsOneSlot m h k = ground (arith, length-replicate {A = ℕ} (mul32 m max_queued_massage) 0)

-- The result of `reserve_memory` in such a buffer.
abbrev pub reserved : Buffer → Buffer
reserved b = record b { last_msg_address = some 0 }

pub reserve_memory-IsOneSlot :
    (b : Buffer) → IsOneSlot b → reserve_memory b ≡ ok (some b.last_msg_offset, reserved b)
unfolding reserve_memory
reserve_memory-IsOneSlot b v = ground arith

pub reserved-IsOneSlot : (b : Buffer) → IsOneSlot b → IsOneSlot (reserved b)
reserved-IsOneSlot b v = ground arith

pub free_memory_same : (b : Buffer) → IsOneSlot b → free_memory b ≡ b
unfolding free_memory
free_memory_same b v = ground arith

pub increase_first-IsOneSlot :
    (k : ℕ) (b : Buffer)
    → IsOneSlot b
    → b.first_msg_offset + k ≤ b.msg_size
    → IsOneSlot (increase_first_msg_offset k b)
unfolding increase_first_msg_offset
increase_first-IsOneSlot k b v h = ground arith

pub increase_last-IsOneSlot :
    (k : ℕ) (b : Buffer)
    → IsOneSlot b
    → b.last_msg_offset + k ≤ b.msg_size
    → b.last_msg_address ≡ some 0
    → IsOneSlot (increase_last_msg_offset k b)
unfolding increase_last_msg_offset
increase_last-IsOneSlot k b v h e = ground arith

-- A change of the bytes.
pub filled-IsOneSlot :
    (b : Buffer) (memory : List ℕ)
    → IsOneSlot b
    → length memory ≡ length b.buffer
    → IsOneSlot (record b { buffer = memory })
filled-IsOneSlot b memory v e = ground arith

-- The calls on a buffer. A message is received only into memory that has been reserved, and the
-- offsets are increased within a message, as `recv` and `send` return at most what they are asked.
pub data Step : Buffer → Buffer → Type 0 where
  reserves : {b b' : Buffer} (address : Option ℕ) → reserve_memory b ≡ ok (address, b') → Step b b'
  frees : (b : Buffer) → Step b (free_memory b)
  sends :
      (b : Buffer) (k : ℕ)
      → b.first_msg_offset + k ≤ b.msg_size
      → Step b (increase_first_msg_offset k b)
  receives :
      (b : Buffer) (k : ℕ)
      → b.last_msg_offset + k ≤ b.msg_size
      → b.last_msg_address ≢ none
      → Step b (increase_last_msg_offset k b)

-- The buffers that the calls lead to from the construction of one for messages of `m` bytes.
pub data Reach (m : ℕ) : Buffer → Type 0 where
  built : Reach m (new_buffer m)
  next : {b b' : Buffer} → Reach m b → Step b b' → Reach m b'

-- Reachable buffers also keep their message size, and have no other slot address than 0.
pub record IsReached (m : ℕ) (b : Buffer) : Type 0 where
  pub one_slot : IsOneSlot b
  pub msg : b.msg_size ≡ m
  pub at_zero : (b.last_msg_address ≡ none) ⊎ (b.last_msg_address ≡ some 0)

Step-IsReached : (m : ℕ) {b b' : Buffer} → Step b b' → IsReached m b → IsReached m b'
unfolding increase_first_msg_offset increase_last_msg_offset
Step-IsReached m (reserves {b} {b'} address e) r =
    let same : b' ≡ reserved b = ground (arith, reserve_memory-IsOneSlot b r.one_slot) in
    rw same (record { one_slot = reserved-IsOneSlot b r.one_slot; msg = r.msg; at_zero = inr refl })
Step-IsReached m (frees b) r = rw (free_memory_same b r.one_slot) r
Step-IsReached m (sends b k h) r = record {
  one_slot = increase_first-IsOneSlot k b r.one_slot h;
  msg = r.msg;
  at_zero = r.at_zero;
}
Step-IsReached m (receives b k h e) r = record {
  one_slot = increase_last-IsOneSlot k b r.one_slot h (ground (arith, r.at_zero));
  msg = r.msg;
  at_zero = r.at_zero;
}

Reach-IsReached :
    (m : ℕ) {b : Buffer} → 0 < m → m * max_queued_massage < u32_mod → Reach m b → IsReached m b
unfolding new_buffer
Reach-IsReached m h k built = record {
  one_slot = new_buffer-IsOneSlot m h k;
  msg = refl;
  at_zero = inl refl;
}
Reach-IsReached m h k (next r st) = Step-IsReached m st (Reach-IsReached m h k r)

-- Whatever calls are made on a buffer for messages of `m` bytes, where 0 < m and 100 * m does not
-- wrap round 32 bits: no call of `reserve_memory` reports a full buffer. Each returns the place in
-- the slot at offset 0 where the message that is being received goes on.
pub reserve_memory_never_full :
    (m : ℕ) {b : Buffer}
    → 0 < m
    → m * max_queued_massage < u32_mod
    → Reach m b
    → reserve_memory b ≡ ok (some b.last_msg_offset, reserved b)
reserve_memory_never_full m {b} h k r =
    reserve_memory-IsOneSlot b (Reach-IsReached m h k r).one_slot

-- After any calls on a buffer for messages of `m` bytes, where 0 < m and 100 * m does not wrap:
-- when a message is received in full and is not freed, the memory that is reserved for the next
-- message begins at offset 0, where the received message stands, so that the next message
-- overwrites it.
pub next_message_overwrites :
    (m : ℕ) {b : Buffer}
    → 0 < m
    → m * max_queued_massage < u32_mod
    → Reach m b
    → reserve_memory (increase_last_msg_offset (m - b.last_msg_offset) (reserved b))
      ≡ ok (some 0, record b { last_msg_offset = 0; last_msg_address = some 0 })
unfolding increase_last_msg_offset reserve_memory
next_message_overwrites m {b} h k r =
    let v = Reach-IsReached m h k r in ground (arith, v.msg, v.one_slot)
