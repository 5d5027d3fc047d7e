-- ===== src/Queue.antt =====
-- `queue_t` of squeue.h: a bounded first-in first-out queue over a circular array.
pub mod Fifo
pub mod Refine
use latency_under_load.Prelude.{
  ℕ, ◌+◌, Option, none, some, List, ltb, leb, if◌then◌else◌, length, get_elem?, set, replicate,
  add32, sub32, Result, ok, err, no_space, no_elements, faults,
}

-- An element of `element_list` is `none` until it is first written, since `malloc` leaves the
-- memory as it was.
pub record Queue {ℓ} (A : Type ℓ) : Type ℓ where
  pub max_queue_size : ℕ
  pub element_list : List (Option A)
  pub first_element_index : ℕ
  pub last_element_index : ℕ
  pub queue_size : ℕ

-- The index after `i`, as `push` and `pop` advance theirs.
abbrev pub next_index : ℕ → ℕ → ℕ
next_index max i = if leb max (i + 1) then 0 else i + 1

module _ {ℓ} {A : Type ℓ} where
  -- The constructor.
  unfoldable pub new_queue : ℕ → Queue A
  new_queue max_queue_size = record {
    max_queue_size = max_queue_size;
    element_list = replicate max_queue_size none;
    first_element_index = 0;
    last_element_index = 0;
    queue_size = 0;
  }

  -- A write outside the array is a fault.
  unfoldable pub push : A → Queue A → Result (Queue A)
  push element q =
      if ltb q.queue_size q.max_queue_size
      then if ltb q.last_element_index (length q.element_list)
        then ok (record q {
          element_list = set q.element_list q.last_element_index (some element);
          last_element_index = next_index q.max_queue_size q.last_element_index;
          queue_size = add32 q.queue_size 1;
        })
        else err faults
      else err no_space

  unfoldable pub pop : Queue A → Result (Queue A)
  pop q =
      if ltb 0 q.queue_size
      then ok (record q {
        first_element_index = next_index q.max_queue_size q.first_element_index;
        queue_size = sub32 q.queue_size 1;
      })
      else err no_elements

  -- A read of what was never written, or from outside the array, is a fault.
  abbrev pub read_cell : Option (Option A) → Result A
  read_cell (some (some a)) = ok a
  read_cell (some none) = err faults
  read_cell none = err faults

  unfoldable pub front : Queue A → Result A
  front q =
      if leb q.queue_size 0
      then err no_elements
      else read_cell (get_elem? q.element_list q.first_element_index)

  unfoldable pub size : Queue A → ℕ
  size q = q.queue_size
