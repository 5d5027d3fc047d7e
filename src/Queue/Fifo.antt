-- ===== src/Queue/Fifo.antt =====
-- What `queue_t` promises its users: a list of at most `capacity` elements, oldest first, on which
-- every call either has its effect or throws.
use latency_under_load.Prelude.{
  ℕ, List, [], ◌∷◌, ◌++◌, length, ltb, if◌then◌else◌, Result, ok, err, no_space, no_elements, ◌>>=◌,
}
use latency_under_load.Queue.{Queue}
use latency_under_load.Queue

module _ {ℓ} {A : Type ℓ} where
  abbrev pub push : ℕ → A → List A → Result (List A)
  push capacity x xs = if ltb (length xs) capacity then ok (xs ++ x ∷ []) else err no_space

  abbrev pub pop : List A → Result (List A)
  pop [] = err no_elements
  pop (x ∷ xs) = ok xs

  abbrev pub front : List A → Result A
  front [] = err no_elements
  front (x ∷ xs) = ok x

-- The calls of a user of the queue.
pub data Call {ℓ} (A : Type ℓ) : Type ℓ where
  pushes : A → Call A
  pops fronts sizes : Call A

-- What a user has seen: the elements and the sizes that came back.
pub data Seen {ℓ} (A : Type ℓ) : Type ℓ where
  element : A → Seen A
  count : ℕ → Seen A

module _ {ℓ} {A : Type ℓ} where
  -- A list of calls on the queue of the program; a throw ends it.
  unfoldable pub run : List (Call A) → Queue A → Result (List (Seen A))
  run [] q = ok []
  run (pushes x ∷ calls) q = do q' ← Queue.push x q; run calls q'
  run (pops ∷ calls) q = do q' ← Queue.pop q; run calls q'
  run (fronts ∷ calls) q = do x ← Queue.front q; seen ← run calls q; ok (element x ∷ seen)
  run (sizes ∷ calls) q = do seen ← run calls q; ok (count (Queue.size q) ∷ seen)

  -- The same calls on the list.
  unfoldable pub run_fifo : ℕ → List (Call A) → List A → Result (List (Seen A))
  run_fifo cap [] xs = ok []
  run_fifo cap (pushes x ∷ calls) xs = do xs' ← push cap x xs; run_fifo cap calls xs'
  run_fifo cap (pops ∷ calls) xs = do xs' ← pop xs; run_fifo cap calls xs'
  run_fifo cap (fronts ∷ calls) xs = do
    x ← front xs
    seen ← run_fifo cap calls xs
    ok (element x ∷ seen)
  run_fifo cap (sizes ∷ calls) xs = do seen ← run_fifo cap calls xs; ok (count (length xs) ∷ seen)
