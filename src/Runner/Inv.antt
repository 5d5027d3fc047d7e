-- ===== src/Runner/Inv.antt =====
-- What holds of a runner between the calls of its handlers, for messages of `m` bytes: the queues
-- hold pointers to connections, and each valid connection has its two buffers and stands in the map
-- under its own file descriptor.
use native.Mathlib.Decide.{dec_lt}
use latency_under_load.Prelude.{
  ℕ, ◌+◌, ◌≤◌, ◌<◌, ◌≡◌, refl, sym, ap, ◌∙◌, inl, inr, Option, none, some, true, List, [], ◌∷◌,
  ◌++◌, arith, length, get_elem?, length-set, length-append, get_elem?-set_cases, get_elem?_of_lt,
  subst, ok, Safely,
}
use latency_under_load.Queue.{Queue}
use latency_under_load.Queue
use latency_under_load.Queue.Refine.{
  Represents, push-Represents, push-full, pop-Represents, front-Represents,
}
use latency_under_load.CBuffer.{Buffer}
use latency_under_load.CBuffer.OneSlot.{IsOneSlot}
use latency_under_load.Connection.{Connection}
use latency_under_load.Runner.{Runner, Pointer, lookup, deref, put_connection}

-- A buffer that has not been deleted, for messages of `m` bytes.
abbrev pub HasSlot : ℕ → Option Buffer → Type 0
HasSlot m none = ⊥
HasSlot m (some b) = IsOneSlot b × (b.msg_size ≡ m)

abbrev pub IsIn : ℕ → Pointer → Type 0
IsIn n none = ⊥
IsIn n (some i) = i < n

abbrev pub All : (Pointer → Type 0) → List Pointer → Type 0
All P [] = Unit
All P (p ∷ ps) = P p × All P ps

All-append :
    (P : Pointer → Type 0) (ps : List Pointer) (p : Pointer) → All P ps → P p → All P (ps ++ p ∷ [])
All-append P [] p h k = (k, tt)
All-append P (q ∷ ps) p h k = (h.0, All-append P ps p h.1 k)

-- The queue holds pointers below `n`.
pub record IsHeld (n : ℕ) (q : Queue Pointer) : Type 0 where
  pub held : List Pointer
  pub represents : Represents q held
  pub inside : All (IsIn n) held

pub push-IsHeld :
    (n : ℕ) (p : Pointer) (q : Queue Pointer)
    → IsHeld n q
    → IsIn n p
    → Safely (Queue.push p q) (λ q'. IsHeld n q' × (q'.queue_size ≡ q.queue_size + 1))
push-IsHeld n p q h k = elim (dec_lt (length h.held) q.max_queue_size) [
  | yes room ↦
      let (q', e, r, m) = push-Represents p q h.held h.represents room in
      rw e (
        record {
          held = h.held ++ p ∷ [];
          represents = r;
          inside = All-append (IsIn n) h.held p h.inside k;
        },
        omega (arith, r.sized, h.represents.sized, length-append h.held (p ∷ [])),
      )
  | no full ↦ rw (push-full p q h.held h.represents (omega arith)) tt
]

-- The oldest pointer of a queue that is not empty, and the queue without it.
pub record Popped (n : ℕ) (q : Queue Pointer) : Type 0 where
  pub p : Pointer
  pub rest : Queue Pointer
  pub fronts : Queue.front q ≡ ok p
  pub pops : Queue.pop q ≡ ok rest
  pub points : IsIn n p
  pub rest_held : IsHeld n rest
  pub fewer : rest.queue_size + 1 ≡ q.queue_size

pub IsHeld-Popped : (n : ℕ) (q : Queue Pointer) → IsHeld n q → 0 < q.queue_size → Popped n q
IsHeld-Popped n q h k = go h.held h.represents h.inside
  where
    go : (ps : List Pointer) → Represents q ps → All (IsIn n) ps → Popped n q
    go [] r all = absurd (omega (arith, r.sized))
    go (p ∷ ps) r all =
        let (q', e, r', m) = pop-Represents q p ps r in
        record {
          p = p;
          rest = q';
          fronts = front-Represents q p ps r;
          pops = e;
          points = all.0;
          rest_held = record { held = ps; represents = r'; inside = all.1 };
          fewer = omega (arith, r.sized, r'.sized);
        }

pub record Inv (m : ℕ) (r : Runner) : Type 0 where
  pub message : r.config.message_size ≡ m
  pub buffers :
      (i : ℕ) (c : Connection)
      → get_elem? r.heap i ≡ some c
      → c.valid ≡ true
      → HasSlot m c.write_buffer × HasSlot m c.read_buffer
  pub listed :
      (i : ℕ) (c : Connection)
      → get_elem? r.heap i ≡ some c
      → c.valid ≡ true
      → lookup c.fd r.connection_list ≡ some (some i)
  pub writable : IsHeld (length r.heap) r.writable_socket_list
  pub readable : IsHeld (length r.heap) r.readable_socket_list
  pub complete : IsHeld (length r.heap) r.readable_connection_list

-- A pointer of a queue leads to a connection.
pub deref_lem :
    (r : Runner) (p : Pointer)
    → IsIn (length r.heap) p
    → (i : ℕ) × (c : Connection) × (p ≡ some i)
      × (get_elem? r.heap i ≡ some c)
      × (deref p r ≡ ok (i, c))
unfolding deref
deref_lem r none h = absurd h
deref_lem r (some i) h = let (c, e) = get_elem?_of_lt r.heap i h in (i, c, refl, e, rw (e, deref))

pub deref_at :
    (r : Runner) (i : ℕ) (c : Connection)
    → get_elem? r.heap i ≡ some c
    → deref (some i) r ≡ ok (i, c)
unfolding deref
deref_at r i c e = ground arith

-- A change of one connection that keeps its file descriptor, and revives none.
pub put_connection-Inv :
    (m : ℕ) (r : Runner) (i : ℕ) (c c' : Connection)
    → Inv m r
    → get_elem? r.heap i ≡ some c
    → c'.fd ≡ c.fd
    → (c'.valid ≡ true → c.valid ≡ true)
    → (c'.valid ≡ true → HasSlot m c'.write_buffer × HasSlot m c'.read_buffer)
    → Inv m (put_connection i c' r)
put_connection-Inv m r i c c' v e fd valid slots = record {
  message = v.message;
  buffers = λ j d at ok. elim (get_elem?-set_cases r.heap i j c' d at) [
    | inl (_, same) ↦ rw same (slots (ap (λ (x : Connection). x.valid) (sym same) ∙ ok))
    | inr (_, old) ↦ v.buffers j d old ok
  ];
  listed = λ j d at ok. elim (get_elem?-set_cases r.heap i j c' d at) [
    | inl (here, same) ↦
        rw (same, here, fd)
          (v.listed i c e (valid (ap (λ (x : Connection). x.valid) (sym same) ∙ ok)))
    | inr (_, old) ↦ v.listed j d old ok
  ];
  writable = subst (λ n. IsHeld n r.writable_socket_list) (sym (length-set r.heap i c')) v.writable;
  readable = subst (λ n. IsHeld n r.readable_socket_list) (sym (length-set r.heap i c')) v.readable;
  complete =
      subst (λ n. IsHeld n r.readable_connection_list) (sym (length-set r.heap i c')) v.complete;
}

-- What a handler leaves of a runner `r`: the invariant, as many connections, and a queue that it
-- takes from with at most one entry less.
pub record Handled (m : ℕ) (queue : Runner → Queue Pointer) (r r' : Runner) : Type 0 where
  pub inv : Inv m r'
  pub connections : length r'.heap ≡ length r.heap
  pub at_most_one : (queue r).queue_size ≤ (queue r').queue_size + 1

-- The invariant with another queue of pointers to connections.
module _ (m : ℕ) (r : Runner) (q : Queue Pointer) (v : Inv m r) (h : IsHeld (length r.heap) q) where
  pub with_readable : Inv m (record r { readable_socket_list = q })
  with_readable = record {
    message = v.message;
    buffers = v.buffers;
    listed = v.listed;
    writable = v.writable;
    readable = h;
    complete = v.complete;
  }

  pub with_complete : Inv m (record r { readable_connection_list = q })
  with_complete = record {
    message = v.message;
    buffers = v.buffers;
    listed = v.listed;
    writable = v.writable;
    readable = v.readable;
    complete = h;
  }

  pub with_writable : Inv m (record r { writable_socket_list = q })
  with_writable = record {
    message = v.message;
    buffers = v.buffers;
    listed = v.listed;
    writable = h;
    readable = v.readable;
    complete = v.complete;
  }

-- A connection that has its two buffers, in a form that equations can use.
pub record HasBuffers (m : ℕ) (c : Connection) : Type 0 where
  pub written : Buffer
  pub read : Buffer
  pub write_is : c.write_buffer ≡ some written
  pub read_is : c.read_buffer ≡ some read
  pub written_slot : IsOneSlot written
  pub read_slot : IsOneSlot read
  pub written_size : written.msg_size ≡ m
  pub read_size : read.msg_size ≡ m

HasSlot-some :
    (m : ℕ) (o : Option Buffer)
    → HasSlot m o
    → (b : Buffer) × (o ≡ some b) × IsOneSlot b × (b.msg_size ≡ m)
HasSlot-some m none h = absurd h
HasSlot-some m (some b) h = (b, refl, h.0, h.1)

pub Inv-HasBuffers :
    (m : ℕ) (r : Runner) (i : ℕ) (c : Connection)
    → Inv m r
    → get_elem? r.heap i ≡ some c
    → c.valid ≡ true
    → HasBuffers m c
Inv-HasBuffers m r i c v at valid =
    let (wb, rb) = v.buffers i c at valid in
    let (b, eb, sb, kb) = HasSlot-some m c.write_buffer wb in
    let (d, ed, sd, kd) = HasSlot-some m c.read_buffer rb in
    record {
      written = b;
      read = d;
      write_is = eb;
      read_is = ed;
      written_slot = sb;
      read_slot = sd;
      written_size = kb;
      read_size = kd;
    }
