-- ===== src/Runner/Wire.antt =====
-- The bytes of a connection that the system has taken for its peer, and how many of the message at
-- the head of the write buffer they contain.
use latency_under_load.Prelude.{
  ℕ, zero, suc, ◌+◌, ◌-◌, ◌≤◌, ◌<◌, ◌≡◌, refl, sym, ap, ◌∙◌, some, true, List, [], ◌∷◌, ◌++◌, arith,
  get_elem?, get_elem?-set_self, lt_of_get_elem?, take, drop, ok,
}
use mathlib.Core.List.{append_assoc, append-nil}
use latency_under_load.Prelude.Memory.{take-take, read_bytes, read_bytes-ok}
use latency_under_load.CBuffer.{Buffer, get_buffer_head, increase_first_msg_offset}
use latency_under_load.CBuffer.OneSlot.{IsOneSlot}
use latency_under_load.Connection.{Connection, set_write_buffer}
use latency_under_load.Runner.{Runner, put_connection}
use latency_under_load.Runner.Inv.{Inv}
use latency_under_load.Runner.Send.{left, left-eq}
use latency_under_load.Os.{Os, took, refused, Errno}

-- What `send` does with the bytes that it is given: it takes them from the first on, in their order,
-- or none.
pub record IsWire (os : Os) (taken : os.World → ℕ → List ℕ) : Type 0 where
  pub takes :
      (w : os.World) (fd : ℕ) (bytes : List ℕ) (k : ℕ) (w' : os.World)
      → os.send w fd bytes ≡ (took k, w')
      → taken w' fd ≡ taken w fd ++ take k bytes
  pub takes_none :
      (w : os.World) (fd : ℕ) (bytes : List ℕ) (e : Errno) (w' : os.World)
      → os.send w fd bytes ≡ (refused e, w')
      → taken w' fd ≡ taken w fd

-- The message of `m` bytes that a buffer sends.
abbrev pub message_of : ℕ → Buffer → List ℕ
message_of m b = take m b.buffer

-- Place `i` of the heap has a connection whose peer has been sent `base` and then as much of
-- `message` as its write buffer says.
pub record Transmits (os : Os) (taken : os.World → ℕ → List ℕ) (m i fd : ℕ) (base message : List ℕ)
    (r : Runner) (w : os.World) : Type 0 where
  pub c : Connection
  pub b : Buffer
  pub at : get_elem? r.heap i ≡ some c
  pub valid : c.valid ≡ true
  pub same_fd : c.fd ≡ fd
  pub buffer_is : c.read_buffer ≡ some b
  pub message_is : message_of m b ≡ message
  pub on_wire : taken w fd ≡ base ++ take b.first_msg_offset message

take-nil : (n : ℕ) → take {A = ℕ} n [] ≡ []
take-nil zero = refl
take-nil (suc n) = refl

append-take-drop : (n k : ℕ) (xs : List ℕ) → take n xs ++ take k (drop n xs) ≡ take (n + k) xs
append-take-drop zero k xs = ap (λ j. take j xs) (omega arith)
append-take-drop (suc n) k [] = take-nil k ∙ sym (take-nil (suc n + k))
append-take-drop (suc n) k (x ∷ xs) =
    ap (◌∷◌ x) (append-take-drop n k xs) ∙ ap (λ j. take j (x ∷ xs)) more
  where
    more : suc (n + k) ≡ suc n + k
    more = omega arith

module _ (os : Os) (taken : os.World → ℕ → List ℕ) (wire : IsWire os taken) (m i fd : ℕ)
    (base message : List ℕ) (w w' : os.World) (c : Connection) (b : Buffer) (k : ℕ)
    (valid : c.valid ≡ true) (same_fd : c.fd ≡ fd) (slot : IsOneSlot b) (size : b.msg_size ≡ m)
    (message_is : message_of m b ≡ message)
    (on_wire : taken w fd ≡ base ++ take b.first_msg_offset message)
    (e : os.send w fd (take (m - b.first_msg_offset) (drop b.first_msg_offset b.buffer))
      ≡ (took k, w'))
    (few : b.first_msg_offset + k ≤ m) where
  -- The bytes that are taken go on where those before have ended.
  wire_after : taken w' fd ≡ base ++ take (b.first_msg_offset + k) message
  wire_after =
      let off = b.first_msg_offset in
      let next = take-take k (m - off) (drop off b.buffer) (omega arith) in
      let before = take-take off m b.buffer (omega arith) in
      let now = take-take (off + k) m b.buffer few in
      wire.takes w fd _ k w' e
      ∙ ap (λ xs. xs ++ take k (take (m - off) (drop off b.buffer))) on_wire
      ∙ append_assoc base (take off message) _
      ∙ ap (◌++◌ base) (rw (← message_is, next, before, now) (append-take-drop off k b.buffer))

  module _ (r : Runner) (at : get_elem? r.heap i ≡ some c) where
    abbrev pub progressed : Runner
    progressed = put_connection i (set_write_buffer (increase_first_msg_offset k b) c) r

    pub part-Transmits :
        b.first_msg_offset + k < m → Transmits os taken m i fd base message progressed w'
    unfolding increase_first_msg_offset
    part-Transmits part =
        let same : (increase_first_msg_offset k b).first_msg_offset ≡ b.first_msg_offset + k =
          ground (arith, slot.small, slot.sized, slot.first_offset, size) in
        record {
          c = set_write_buffer (increase_first_msg_offset k b) c;
          b = increase_first_msg_offset k b;
          at = get_elem?-set_self r.heap i _ (lt_of_get_elem? r.heap i c at);
          valid = valid;
          same_fd = same_fd;
          buffer_is = refl;
          message_is = message_is;
          on_wire = wire_after ∙ ap (λ n. base ++ take n message) (sym same);
        }

    pub whole-Transmits :
        b.first_msg_offset + k ≡ m
        → Transmits os taken m i fd (base ++ message) message progressed w'
    unfolding increase_first_msg_offset
    whole-Transmits whole =
        let same : (increase_first_msg_offset k b).first_msg_offset ≡ 0 =
          ground (arith, slot.small, slot.sized, slot.first_offset, size) in
        let all : take (b.first_msg_offset + k) message ≡ message =
          rw (whole, ← message_is) (take-take m m b.buffer (omega arith)) in
        record {
          c = set_write_buffer (increase_first_msg_offset k b) c;
          b = increase_first_msg_offset k b;
          at = get_elem?-set_self r.heap i _ (lt_of_get_elem? r.heap i c at);
          valid = valid;
          same_fd = same_fd;
          buffer_is = refl;
          message_is = message_is;
          on_wire =
              wire_after
              ∙ ap (◌++◌ base) all
              ∙ sym (append-nil (base ++ message))
              ∙ ap (λ n. (base ++ message) ++ take n message) (sym same);
        }

-- A `send` that takes nothing, with any other change of the runner.
pub refused-Transmits :
    (os : Os) (taken : os.World → ℕ → List ℕ)
    → IsWire os taken
    → (m i fd : ℕ) (base message : List ℕ) (r r' : Runner) (w w' : os.World) (bytes : List ℕ)
      (e : Errno)
    → Transmits os taken m i fd base message r w
    → r'.heap ≡ r.heap
    → os.send w fd bytes ≡ (refused e, w')
    → Transmits os taken m i fd base message r' w'
refused-Transmits os taken wire m i fd base message r r' w w' bytes e t same h = record {
  c = t.c;
  b = t.b;
  at = rw same t.at;
  valid = t.valid;
  same_fd = t.same_fd;
  buffer_is = t.buffer_is;
  message_is = t.message_is;
  on_wire = wire.takes_none w fd bytes e w' h ∙ t.on_wire;
}

-- What is handed to `send`.
pub handed :
    (m i : ℕ) (c : Connection) (b : Buffer) (r : Runner)
    → Inv m r
    → get_elem? r.heap i ≡ some c
    → IsOneSlot b
    → b.msg_size ≡ m
    → (left r b ≡ m - b.first_msg_offset)
      × (read_bytes b.buffer (get_buffer_head b) (m - b.first_msg_offset)
          ≡ ok (take (m - b.first_msg_offset) (drop b.first_msg_offset b.buffer)))
unfolding get_buffer_head
handed m i c b r v at slot size =
    let head : b.first_element + b.first_msg_offset ≡ b.first_msg_offset =
      omega (arith, slot.empty_first) in
    (
      left-eq m i c b slot size r v,
      rw head (
          read_bytes-ok b.buffer b.first_msg_offset (m - b.first_msg_offset)
            (omega (arith, slot.allocated, slot.sized, slot.first_offset))),
    )
