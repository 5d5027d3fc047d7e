-- ===== src/CBuffer.antt =====
-- `connection_buffer_t` of cbuffer.h and cbuffer.cpp: a circular buffer of messages of one size.
-- `unsigned int` fields are 32-bit words; a pointer into `buffer` is its offset from `buffer`.
pub mod OneSlot
pub mod Ring
use latency_under_load.Prelude.{
  ℕ, ◌+◌, Option, none, some, List, ◌&&◌, ltb, leb, ◌==◌, if◌then◌else◌, replicate, add32, sub32,
  mul32, Result, ok, err, faults,
}

-- Maximum number of messages that can be queued in a buffer.
abbrev pub max_queued_massage : ℕ
max_queued_massage = 100

-- `last_msg_address` is `none` for a null pointer, and before it is first set.
pub record Buffer : Type 0 where
  pub buffer : List ℕ
  pub first_element : ℕ
  pub last_element : ℕ
  pub buffer_size : ℕ
  pub msg_size : ℕ
  pub last_msg_address : Option ℕ
  pub first_msg_offset : ℕ
  pub last_msg_offset : ℕ

-- The constructor: `malloc`, and the bytes set to 0.
unfoldable pub new_buffer : ℕ → Buffer
new_buffer msg_size = record {
  buffer = replicate (mul32 msg_size max_queued_massage) 0;
  first_element = 0;
  last_element = 0;
  buffer_size = mul32 msg_size max_queued_massage;
  msg_size = msg_size;
  last_msg_address = none;
  first_msg_offset = 0;
  last_msg_offset = 0;
}

-- A pointer that is moved on by some bytes; moving a null pointer is undefined.
abbrev advance : Option ℕ → ℕ → Result (Option ℕ)
advance none k = err faults
advance (some a) k = ok (some (a + k))

-- The slot that `reserve_memory` takes for a new message, with the fields `first_element` and
-- `last_element` after the call.
pub record Slot : Type 0 where
  pub head : Option ℕ
  pub first : ℕ
  pub last : ℕ

unfoldable pub new_slot : Buffer → Slot
new_slot b =
    if first_element == last_element
    then record { head = some 0; first = 0; last = 0 }
    else if ltb first_element last_element
    then if leb msg_size (sub32 buffer_size last_element)
      then record {
        head = some last_element;
        first = first_element;
        last = add32 last_element msg_size;
      }
      else if ltb msg_size first_element
      then record { head = some 0; first = first_element; last = msg_size }
      else record { head = none; first = first_element; last = last_element }
    else if ltb last_element first_element && ltb msg_size (sub32 first_element last_element)
    then record {
      head = some last_element;
      first = first_element;
      last = add32 last_element msg_size;
    }
    else record { head = none; first = first_element; last = last_element }
  where
    open b use {first_element, last_element, buffer_size, msg_size}

-- The rest of a message that has begun, or a new slot; `none` if there is no room.
unfoldable pub reserve_memory : Buffer → Result (Option ℕ × Buffer)
unfolding new_slot
reserve_memory b =
    if ltb 0 b.last_msg_offset && ltb b.last_msg_offset b.msg_size
    then elim (advance b.last_msg_address b.last_msg_offset) [
      | ok address ↦ ok (address, b)
      | err e ↦ err e
    ]
    else let s = new_slot b in
      ok (
        s.head,
        record b { first_element = s.first; last_element = s.last; last_msg_address = s.head },
      )

unfoldable pub free_memory : Buffer → Buffer
free_memory b =
    if b.first_element == b.last_element
    then record b { first_element = 0; last_element = 0 }
    else if ltb b.first_element b.last_element
    then record b { first_element = add32 b.first_element b.msg_size }
    else let first = add32 b.first_element b.msg_size in
      record b { first_element = if ltb (sub32 b.buffer_size first) b.msg_size then 0 else first }

unfoldable pub get_buffer_head : Buffer → ℕ
get_buffer_head b = b.first_element + b.first_msg_offset

-- An offset within a message, which goes back to 0 at the message's end.
abbrev pub increase_offset : ℕ → ℕ → ℕ → ℕ
increase_offset msg_size old offset = if add32 old offset == msg_size then 0 else add32 old offset

unfoldable pub increase_first_msg_offset : ℕ → Buffer → Buffer
increase_first_msg_offset offset b = record b {
  first_msg_offset = increase_offset b.msg_size b.first_msg_offset offset;
}

unfoldable pub get_first_msg_offset : Buffer → ℕ
get_first_msg_offset b = b.first_msg_offset

unfoldable pub increase_last_msg_offset : ℕ → Buffer → Buffer
increase_last_msg_offset offset b = record b {
  last_msg_offset = increase_offset b.msg_size b.last_msg_offset offset;
}

unfoldable pub get_last_msg_offset : Buffer → ℕ
get_last_msg_offset b = b.last_msg_offset
