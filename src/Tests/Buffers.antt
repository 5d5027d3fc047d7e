-- ===== src/Tests/Buffers.antt =====
-- Queues and buffers at concrete inputs.
use latency_under_load.Prelude.{
  ℕ, ◌-◌, ◌≡◌, refl, none, some, List, [], ◌∷◌, arith, ok, err, no_space,
}
use latency_under_load.Queue.{Queue, new_queue}
use latency_under_load.Queue
use latency_under_load.Queue.Fifo.{Call, pushes, pops, fronts, sizes, element, count, run, run_fifo}
use latency_under_load.Queue.Refine.{new_queue-Represents, run-eq-run_fifo}
use latency_under_load.CBuffer.{
  Buffer, new_buffer, reserve_memory, free_memory, increase_last_msg_offset,
}
use latency_under_load.CBuffer.OneSlot.{
  built, reserved, reserve_memory_never_full, next_message_overwrites,
}
use latency_under_load.CBuffer.Ring.{IsRing, with_slot, with_slot-IsRing, free_memory-IsRing}

abbrev two : Queue ℕ
two = new_queue 2

abbrev calls : List (Call ℕ)
calls = pushes 7 ∷ pushes 8 ∷ fronts ∷ pops ∷ pushes 9 ∷ pops ∷ fronts ∷ sizes ∷ []

run-calls : run calls two ≡ ok (element 7 ∷ element 9 ∷ count 1 ∷ [])
unfolding run new_queue Queue.push Queue.pop Queue.front Queue.size
run-calls = refl

run-too_many : run (pushes 7 ∷ pushes 8 ∷ pushes 9 ∷ []) two ≡ err no_space
unfolding run new_queue Queue.push
run-too_many = refl

run-eq-run_fifo_example : run calls two ≡ run_fifo 2 calls []
unfolding new_queue
run-eq-run_fifo_example =
    run-eq-run_fifo calls two [] 2 (new_queue-Represents 2 (omega arith) (omega arith)) refl

reserve_memory_never_full_example :
    reserve_memory (new_buffer 8)
    ≡ ok (some (new_buffer 8).last_msg_offset, reserved (new_buffer 8))
reserve_memory_never_full_example = reserve_memory_never_full 8 (omega arith) (omega arith) built

next_message_overwrites_example :
    reserve_memory
      (increase_last_msg_offset (8 - (new_buffer 8).last_msg_offset) (reserved (new_buffer 8)))
    ≡ ok (some 0, record (new_buffer 8) { last_msg_offset = 0; last_msg_address = some 0 })
next_message_overwrites_example = next_message_overwrites 8 (omega arith) (omega arith) built

-- Messages of 4 bytes in the slots 98 and 99.
abbrev late : Buffer
late = record {
  buffer = [];
  first_element = 392;
  last_element = 400;
  buffer_size = 400;
  msg_size = 4;
  last_msg_address = none;
  first_msg_offset = 0;
  last_msg_offset = 0;
}

late-IsRing : IsRing late
late-IsRing = record {
  f = 98;
  l = 100;
  first_at = refl;
  last_at = refl;
  first_le = omega arith;
  last_le = omega arith;
  wrapped = λ h. omega arith;
  positive = omega arith;
  sized = refl;
  small = omega arith;
}

-- The next message goes to the start of the memory.
with_slot-IsRing_example : IsRing (with_slot late)
with_slot-IsRing_example = with_slot-IsRing late late-IsRing

free_memory-IsRing_example : IsRing (free_memory late)
free_memory-IsRing_example = free_memory-IsRing late late-IsRing
