-- ===== src/CBuffer/Ring.antt =====
-- The circular buffer of cbuffer.h at whole slots within its memory, as it is from its construction
-- on.
use native.Mathlib.Decide.{dec_lt}
use latency_under_load.Prelude.{
  ℕ, suc, add32, sub32, Option, ◌+◌, ◌*◌, ◌≤◌, ◌<◌, ◌≡◌, ◌⊎◌, inl, inr, arith, u32_mod,
}
use latency_under_load.CBuffer.{Buffer, max_queued_massage, new_slot, free_memory}

-- `first_element` and `last_element` are the starts of the slots `f` and `l`.
pub record IsRing (b : Buffer) : Type 0 where
  pub f : ℕ
  pub l : ℕ
  pub first_at : b.first_element ≡ f * b.msg_size
  pub last_at : b.last_element ≡ l * b.msg_size
  pub first_le : f ≤ max_queued_massage
  pub last_le : l ≤ max_queued_massage
  pub wrapped : l < f → f < max_queued_massage
  pub positive : 0 < b.msg_size
  pub sized : b.buffer_size ≡ max_queued_massage * b.msg_size
  pub small : b.buffer_size < u32_mod

-- The fields after `reserve_memory` has taken a new slot.
abbrev pub with_slot : Buffer → Buffer
with_slot b =
    let s = new_slot b in
    record b { first_element = s.first; last_element = s.last; last_msg_address = s.head }

slot_le : (i j m : ℕ) → i < j → i * m + m ≤ j * m
slot_le i j m h = grind arith

slot_mono : (i j m : ℕ) → i ≤ j → i * m ≤ j * m
slot_mono i j m h = grind arith

slot_lt : (i j m : ℕ) → i * m < j * m → i < j
slot_lt i j m h = grind arith

-- What whole slots mean for the offsets, with the products gone.
record Spacing (size m first last : ℕ) : Type 0 where
  inside : last ≤ size
  gap_up : first < last → first + m ≤ last
  gap_down : last < first → (last + m ≤ first) × (first + m ≤ size)
  end_or_room : (last ≡ size) ⊎ (last + m ≤ size)

IsRing-Spacing :
    (b : Buffer) → IsRing b → Spacing b.buffer_size b.msg_size b.first_element b.last_element
IsRing-Spacing b r = record {
  inside = omega (arith, slot_mono r.l 100 b.msg_size r.last_le);
  gap_up =
      λ h. omega (arith, slot_le r.f r.l b.msg_size (slot_lt r.f r.l b.msg_size (omega arith)));
  gap_down = λ h.
      let down = slot_lt r.l r.f b.msg_size (omega arith) in
      (
        omega (arith, slot_le r.l r.f b.msg_size down),
        omega (arith, slot_le r.f 100 b.msg_size (r.wrapped down)),
      );
  end_or_room = elim (dec_lt r.l max_queued_massage) [
    | yes h ↦ inr (omega (arith, slot_le r.l 100 b.msg_size h))
    | no h ↦ inl (let full : r.l ≡ 100 = omega arith in rw (r.last_at, r.sized, full))
  ];
}

-- What `reserve_memory` does with the fields, by its branches.
new_slot_cases :
    (b : Buffer)
    → let s = new_slot b in
      ((s.first ≡ 0) × (s.last ≡ 0))
      ⊎ ((s.first ≡ b.first_element) × (s.last ≡ b.last_element))
      ⊎ ((b.first_element < b.last_element)
          × (b.msg_size < b.first_element)
          × (s.first ≡ b.first_element)
          × (s.last ≡ b.msg_size))
      ⊎ ((s.first ≡ b.first_element)
          × (s.last ≡ add32 b.last_element b.msg_size)
          × (((b.first_element < b.last_element)
                × (b.msg_size ≤ sub32 b.buffer_size b.last_element))
              ⊎ ((b.last_element < b.first_element)
                  × (b.msg_size < sub32 b.first_element b.last_element))))
unfolding new_slot
new_slot_cases b = ground arith

free_memory_cases :
    (b : Buffer)
    → let b' = free_memory b in
      let first = add32 b.first_element b.msg_size in
      (b' ≡ record b { first_element = 0; last_element = 0 })
      ⊎ ((b.first_element < b.last_element) × (b' ≡ record b { first_element = first }))
      ⊎ ((b.last_element < b.first_element)
          × (b' ≡ record b { first_element = 0 })
          × (sub32 b.buffer_size first < b.msg_size))
      ⊎ ((b.last_element < b.first_element)
          × (b' ≡ record b { first_element = first })
          × (b.msg_size ≤ sub32 b.buffer_size first))
unfolding free_memory
free_memory_cases b = ground arith

module _ (b : Buffer) (r : IsRing b) where
  -- The invariant at other slots.
  IsRing-at :
      (address : Option ℕ) (first last f l : ℕ)
      → first ≡ f * b.msg_size
      → last ≡ l * b.msg_size
      → f ≤ max_queued_massage
      → l ≤ max_queued_massage
      → (l < f → f < max_queued_massage)
      → IsRing (record b { first_element = first; last_element = last; last_msg_address = address })
  IsRing-at address first last f l p q h k w = record {
    f = f;
    l = l;
    first_at = p;
    last_at = q;
    first_le = h;
    last_le = k;
    wrapped = w;
    positive = r.positive;
    sized = r.sized;
    small = r.small;
  }

  spacing : Spacing b.buffer_size b.msg_size b.first_element b.last_element
  spacing = IsRing-Spacing b r

  up : b.first_element < b.last_element → r.f < r.l
  up h = slot_lt r.f r.l b.msg_size (omega (arith, r.first_at, r.last_at))

  down : b.last_element < b.first_element → r.l < r.f
  down h = slot_lt r.l r.f b.msg_size (omega (arith, r.first_at, r.last_at))

  first-le : b.first_element ≤ b.buffer_size
  first-le = omega (arith, slot_mono r.f 100 b.msg_size r.first_le)

  -- There is a slot after slot `l`.
  next_slot :
      b.last_element + b.msg_size ≤ b.buffer_size
      → (r.l < max_queued_massage) × (add32 b.last_element b.msg_size ≡ suc r.l * b.msg_size)
  next_slot h = (slot_lt r.l 100 b.msg_size (omega (arith, r.positive)), omega arith)

  -- Where the offsets of a buffer are at whole slots within its memory, they are so after a new
  -- message has taken a slot.
  pub with_slot-IsRing : IsRing (with_slot b)
  with_slot-IsRing = elim (new_slot_cases b) [
    | inl e ↦
        IsRing-at _ _ _ 0 0 (omega arith) (omega arith) (omega arith) (omega arith) (omega arith)
    | inr (inl e) ↦
        IsRing-at _ _ _ r.f r.l (omega arith) (omega arith) r.first_le r.last_le r.wrapped
    | inr (inr (inl e)) ↦
        IsRing-at _ _ _ r.f 1 (omega arith) (omega arith) r.first_le (omega arith)
          (λ h. omega (arith, up e.0, r.last_le))
    | inr (inr (inr e)) ↦
        let room : b.last_element + b.msg_size ≤ b.buffer_size =
          omega (arith, spacing.inside, first-le, r.small) in
        let (within, at) = next_slot room in
        IsRing-at _ _ _ r.f (suc r.l) (omega arith) (omega arith) r.first_le (omega arith)
          (λ h. r.wrapped (omega arith))
  ]

  -- Where the offsets of a buffer are at whole slots within its memory, they are so after the
  -- release of the oldest message.
  pub free_memory-IsRing : IsRing (free_memory b)
  free_memory-IsRing = elim (free_memory_cases b) [
    | inl e ↦
        rw e (
          IsRing-at _ 0 0 0 0 (omega arith) (omega arith) (omega arith) (omega arith) (omega arith))
    | inr (inl e) ↦ rw e.1 (
        IsRing-at _ _ _ (suc r.f) r.l (omega (arith, spacing.gap_up, spacing.inside)) r.last_at
          (omega (arith, up e.0, r.last_le)) r.last_le (λ h. omega (arith, up e.0)))
    | inr (inr (inl e)) ↦
        rw e.1 (IsRing-at _ _ _ 0 r.l (omega arith) r.last_at (omega arith) r.last_le (omega arith))
    | inr (inr (inr e)) ↦ rw e.1 (
        IsRing-at _ _ _ (suc r.f) r.l (omega (arith, spacing.gap_down, r.small)) r.last_at
          (r.wrapped (down e.0)) r.last_le
          (λ h.
            slot_lt (suc r.f) 100 b.msg_size
              (omega (arith, spacing.gap_down e.0, r.positive, r.small))))
  ]
