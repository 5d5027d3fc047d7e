-- ===== src/Queue/Refine.antt =====
-- The circular array of `queue_t` holds a first-in first-out list.
use latency_under_load.Prelude.{
  ℕ, suc, ◌+◌, ◌≤◌, ◌<◌, ◌≡◌, refl, ◌⊎◌, inl, inr, List, [], ◌∷◌, ◌++◌, Option, none, some, length,
  get_elem?, set, length-set, length-append, length-replicate, get_elem?-set_self, get_elem?-set_ne,
  int_limit, subst, ◌∙◌, add32, arith, ok, err, no_space, no_elements, Bool-cases, ltb, ltb→lt,
  ltb→le, sub32,
}
use latency_under_load.Queue.{Queue, next_index, new_queue, push, pop, front, size}
use latency_under_load.Queue.Fifo.{Call, pushes, pops, fronts, sizes, run, run_fifo}

-- From index `i` on, going round at `max`, the cells hold `xs`.
abbrev pub Holds {ℓ} : {A : Type ℓ} → List (Option A) → ℕ → ℕ → List A → Type ℓ
Holds cells max i [] = Unit
Holds cells max i (x ∷ xs) =
    (get_elem? cells i ≡ some (some x)) × Holds cells max (next_index max i) xs

-- `j` is the cell `n` places after `i`.
abbrev pub IsAfter : ℕ → ℕ → ℕ → ℕ → Type 0
IsAfter max i n j = (j ≡ i + n) ⊎ (j + max ≡ i + n)

-- `j` is outside the `n` cells from `i` on.
abbrev pub IsOutside : ℕ → ℕ → ℕ → ℕ → Type 0
IsOutside max i n j = (i + n ≤ j) ⊎ ((j < i) × (i + n ≤ j + max))

pub next_index-lt : (max i : ℕ) → i < max → next_index max i < max
next_index-lt max i h = ground arith

IsOutside-next :
    (max i n j : ℕ)
    → i < max
    → j < max
    → IsOutside max i (suc n) j
    → IsOutside max (next_index max i) n j
IsOutside-next max i n j hi hj out = ground arith

IsAfter-next :
    (max i n j : ℕ)
    → i < max
    → j < max
    → IsAfter max i (suc n) j
    → IsAfter max (next_index max i) n j
IsAfter-next max i n j hi hj e = ground arith

IsAfter-IsOutside : (max i n j : ℕ) → i < max → n < max → IsAfter max i n j → IsOutside max i n j
IsAfter-IsOutside max i n j hi hn (inl e) = inl (omega arith)
IsAfter-IsOutside max i n j hi hn (inr e) = inr (omega arith, omega arith)

IsAfter-suc :
    (max i n j : ℕ)
    → i < max
    → j < max
    → n < max
    → IsAfter max i n j
    → IsAfter max i (suc n) (next_index max j)
IsAfter-suc max i n j hi hj hn e = ground arith

module _ {ℓ} {A : Type ℓ} where
  length-snoc : (xs : List A) (x : A) → suc (length xs) ≡ length (xs ++ x ∷ [])
  length-snoc xs x = omega (arith, length-append xs (x ∷ []))

  -- A write to a cell outside the window leaves what the window holds.
  Holds-set :
      (cells : List (Option A)) (max i j : ℕ) (v : Option A) (xs : List A)
      → i < max
      → j < max
      → IsOutside max i (length xs) j
      → Holds cells max i xs
      → Holds (set cells j v) max i xs
  Holds-set cells max i j v [] hi hj out h = tt
  Holds-set cells max i j v (x ∷ xs) hi hj out h = (
    get_elem?-set_ne cells j i v (omega arith) ∙ h.0,
    Holds-set cells max (next_index max i) j v xs (next_index-lt max i hi) hj
        (IsOutside-next max i (length xs) j hi hj out) h.1,
  )

  -- A cell right after the window extends it.
  Holds-append :
      (cells : List (Option A)) (max i j : ℕ) (x : A) (xs : List A)
      → i < max
      → j < max
      → IsAfter max i (length xs) j
      → length xs < max
      → get_elem? cells j ≡ some (some x)
      → Holds cells max i xs
      → Holds cells max i (xs ++ x ∷ [])
  Holds-append cells max i j x [] hi hj e hn c h =
      let same : j ≡ i = ground arith in (rw same at c, tt)
  Holds-append cells max i j x (y ∷ ys) hi hj e hn c h = (
    h.0,
    Holds-append cells max (next_index max i) j x ys (next_index-lt max i hi) hj
        (IsAfter-next max i (length ys) j hi hj e) (omega arith) c h.1,
  )

-- The queue `q` stands for the list `xs`.
pub record Represents {ℓ} {A : Type ℓ} (q : Queue A) (xs : List A) : Type ℓ where
  pub sized : q.queue_size ≡ length xs
  pub fits : length xs ≤ q.max_queue_size
  pub small : q.max_queue_size < int_limit
  pub cells : length q.element_list ≡ q.max_queue_size
  pub first_in : q.first_element_index < q.max_queue_size
  pub last_in : q.last_element_index < q.max_queue_size
  pub last_at : IsAfter q.max_queue_size q.first_element_index (length xs) q.last_element_index
  pub held : Holds q.element_list q.max_queue_size q.first_element_index xs

module _ {ℓ} {A : Type ℓ} where
  pub new_queue-Represents : (n : ℕ) → 0 < n → n < int_limit → Represents (new_queue {A = A} n) []
  unfolding new_queue
  new_queue-Represents n h k = record {
    sized = refl;
    fits = omega arith;
    small = k;
    cells = length-replicate n none;
    first_in = h;
    last_in = h;
    last_at = inl (omega arith);
    held = tt;
  }

  -- A push into a queue with room appends its element.
  pub push-Represents :
      (x : A) (q : Queue A) (xs : List A)
      → Represents q xs
      → length xs < q.max_queue_size
      → (q' : Queue A) × (push x q ≡ ok q')
        × Represents q' (xs ++ x ∷ [])
        × (q'.max_queue_size ≡ q.max_queue_size)
  unfolding push
  push-Represents x q xs r room = (
    record q {
      element_list = set q.element_list q.last_element_index (some x);
      last_element_index = next_index q.max_queue_size q.last_element_index;
      queue_size = add32 q.queue_size 1;
    },
    ground (arith, r.sized, r.cells, r.last_in),
    record {
      sized = omega (arith, length-append xs (x ∷ []), r.sized, r.small, r.fits);
      fits = omega (arith, length-append xs (x ∷ []));
      small = r.small;
      cells = length-set q.element_list q.last_element_index (some x) ∙ r.cells;
      first_in = r.first_in;
      last_in = next_index-lt _ _ r.last_in;
      last_at =
          subst
            (λ n.
              IsAfter q.max_queue_size q.first_element_index n
                (next_index q.max_queue_size q.last_element_index))
            (length-snoc xs x) (IsAfter-suc _ _ _ _ r.first_in r.last_in room r.last_at);
      held =
          Holds-append _ _ _ q.last_element_index x xs r.first_in r.last_in r.last_at room
            (get_elem?-set_self q.element_list q.last_element_index (some x)
              (omega (arith, r.cells, r.last_in)))
            (Holds-set _ _ _ _ _ xs r.first_in r.last_in
              (IsAfter-IsOutside _ _ _ _ r.first_in room r.last_at) r.held);
    },
    refl,
  )

  -- A push into a full queue throws, and a push never does anything else.
  pub push-full :
      (x : A) (q : Queue A) (xs : List A)
      → Represents q xs
      → q.max_queue_size ≤ length xs
      → push x q ≡ err no_space
  unfolding push
  push-full x q xs r full = ground (arith, r.sized)

  pub pop-nil : (q : Queue A) → Represents q [] → pop q ≡ err no_elements
  unfolding pop
  pop-nil q r = ground (arith, r.sized)

  pub front-nil : (q : Queue A) → Represents q [] → front q ≡ err no_elements
  unfolding front
  front-nil q r = ground (arith, r.sized)

  -- A pop drops the oldest element.
  pub pop-Represents :
      (q : Queue A) (x : A) (xs : List A)
      → Represents q (x ∷ xs)
      → (q' : Queue A) × (pop q ≡ ok q') × Represents q' xs × (q'.max_queue_size ≡ q.max_queue_size)
  unfolding pop
  pop-Represents q x xs r = (
    record q {
      first_element_index = next_index q.max_queue_size q.first_element_index;
      queue_size = sub32 q.queue_size 1;
    },
    ground (arith, r.sized),
    record {
      sized = omega (arith, r.sized, r.small, r.fits);
      fits = omega (arith, r.fits);
      small = r.small;
      cells = r.cells;
      first_in = next_index-lt _ _ r.first_in;
      last_in = r.last_in;
      last_at = IsAfter-next _ _ (length xs) _ r.first_in r.last_in r.last_at;
      held = r.held.1;
    },
    refl,
  )

  pub front-Represents :
      (q : Queue A) (x : A) (xs : List A) → Represents q (x ∷ xs) → front q ≡ ok x
  unfolding front
  front-Represents q x xs r = ground (arith, r.sized, r.held.0)

  pub size-Represents : (q : Queue A) (xs : List A) → Represents q xs → size q ≡ length xs
  unfolding size
  size-Represents q xs r = r.sized

  -- No sequence of calls tells a queue of capacity `cap`, which is below 2 ^ 31, from the bounded
  -- list that it stands for:
  -- the same elements and sizes come back, and a call throws exactly where the list has no room or
  -- no element.
  pub run-eq-run_fifo :
      (calls : List (Call A)) (q : Queue A) (xs : List A) (cap : ℕ)
      → Represents q xs
      → q.max_queue_size ≡ cap
      → run calls q ≡ run_fifo cap calls xs
  unfolding run run_fifo
  run-eq-run_fifo [] q xs cap r c = refl
  run-eq-run_fifo (pushes x ∷ calls) q xs cap r c = elim (Bool-cases (ltb (length xs) cap)) [
    | inl room ↦
        let (q', e, r', m) = push-Represents x q xs r (ground (arith, ltb→lt _ _ room)) in
        rw (e, room) (run-eq-run_fifo calls q' (xs ++ x ∷ []) cap r' (m ∙ c))
    | inr full ↦ rw (push-full x q xs r (ground (arith, ltb→le _ _ full)), full)
  ]
  run-eq-run_fifo (pops ∷ calls) q [] cap r c = rw (pop-nil q r)
  run-eq-run_fifo (pops ∷ calls) q (x ∷ xs) cap r c =
      let (q', e, r', m) = pop-Represents q x xs r in
      rw e (run-eq-run_fifo calls q' xs cap r' (m ∙ c))
  run-eq-run_fifo (fronts ∷ calls) q [] cap r c = rw (front-nil q r)
  run-eq-run_fifo (fronts ∷ calls) q (x ∷ xs) cap r c =
      rw (front-Represents q x xs r, run-eq-run_fifo calls q (x ∷ xs) cap r c)
  run-eq-run_fifo (sizes ∷ calls) q xs cap r c =
      rw (size-Represents q xs r, run-eq-run_fifo calls q xs cap r c)
