-- ===== src/Runner/Send.antt =====
-- The message at the head of a write buffer, of which the server and the client send what is left.
use latency_under_load.Prelude.{
  ℕ, ◌+◌, ◌-◌, ◌≤◌, ◌≡◌, refl, some, true, List, arith, length, get_elem?, take, drop, sub32, ok,
}
use latency_under_load.Prelude.Memory.{read_bytes, read_bytes-ok, length-take_le, length-drop}
use latency_under_load.CBuffer.{
  Buffer, get_buffer_head, get_first_msg_offset, increase_first_msg_offset,
}
use latency_under_load.CBuffer.OneSlot.{IsOneSlot, increase_first-IsOneSlot}
use latency_under_load.Connection.{Connection, set_write_buffer}
use latency_under_load.Runner.{Runner, put_connection}
use latency_under_load.Runner.Inv.{Inv, HasBuffers, put_connection-Inv}

-- The bytes of a message that are left to send.
abbrev pub left : Runner → Buffer → ℕ
left r b = sub32 r.config.message_size (get_first_msg_offset b)

module _ (m i : ℕ) (c : Connection) (b : Buffer) (slot : IsOneSlot b) (size : b.msg_size ≡ m) where
  pub left-eq : (r : Runner) → Inv m r → left r b ≡ m - b.first_msg_offset
  unfolding get_first_msg_offset
  left-eq r v = omega (arith, v.message, slot.small, slot.sized, slot.first_offset)

  -- The connection with a write buffer that has sent `k` bytes more.
  pub sent-Inv :
      (k : ℕ) (r : Runner)
      → Inv m r
      → get_elem? r.heap i ≡ some c
      → c.valid ≡ true
      → k ≤ left r b
      → Inv m (put_connection i (set_write_buffer (increase_first_msg_offset k b) c) r)
  unfolding increase_first_msg_offset
  sent-Inv k r v at valid le =
      put_connection-Inv m r i c _ v at refl (λ e. e)
        (λ e. (
          (v.buffers i c at valid).0,
          (increase_first-IsOneSlot k b slot (omega (arith, left-eq r v, slot.first_offset)), size),
        ))

-- What is left of the message can be read, and is as long as it should be.
pub message_bytes :
    (m i : ℕ) (c : Connection) (r : Runner)
    → Inv m r
    → (h : HasBuffers m c)
    → (bytes : List ℕ) × (read_bytes h.read.buffer (get_buffer_head h.read) (left r h.read)
        ≡ ok bytes)
      × (length bytes ≡ left r h.read)
unfolding get_buffer_head
message_bytes m i c r v h =
    let b = h.read in
    let n = left r b in
    let few = left-eq m i c b h.read_slot h.read_size r v in
    let start = b.first_element + b.first_msg_offset in
    let room : start + n ≤ length b.buffer = omega (
      arith, few, h.read_size, h.read_slot.allocated, h.read_slot.sized, h.read_slot.empty_first,
      h.read_slot.first_offset,
    ) in
    (
      take n (drop start b.buffer),
      read_bytes-ok b.buffer start n room,
      length-take_le n _ (omega (arith, length-drop start b.buffer, room)),
    )
