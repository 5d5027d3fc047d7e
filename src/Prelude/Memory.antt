-- ===== src/Prelude/Memory.antt =====
-- A block of memory as a list of bytes: what `memcpy`, `recv` and `send` do to one, or read of one.
-- An access that leaves the block is a fault.
use Prim.Native.Nat.{ℕ, zero, suc, ◌+◌, ◌-◌, ◌≤◌}
use mathlib.Core.Path.{◌≡◌, refl, ap, ◌∙◌}
use mathlib.Core.List.{List, [], ◌∷◌}
use native.Mathlib.Omega.{arith}
use latency_under_load.Prelude.Tests.{leb, if◌then◌else◌}
use latency_under_load.Prelude.Lists.{length, take, drop}
use latency_under_load.Prelude.Outcome.{Result, ok, err, faults}

module _ {ℓ} {A : Type ℓ} where
  -- The cells from `at` on become `xs`.
  abbrev pub overwrite : List A → ℕ → List A → List A
  overwrite [] at xs = []
  overwrite (m ∷ memory) zero [] = m ∷ memory
  overwrite (m ∷ memory) zero (x ∷ xs) = x ∷ overwrite memory zero xs
  overwrite (m ∷ memory) (suc at) xs = m ∷ overwrite memory at xs

  pub length-overwrite :
      (memory : List A) (at : ℕ) (xs : List A) → length (overwrite memory at xs) ≡ length memory
  length-overwrite [] at xs = refl
  length-overwrite (m ∷ memory) zero [] = refl
  length-overwrite (m ∷ memory) zero (x ∷ xs) = ap suc (length-overwrite memory zero xs)
  length-overwrite (m ∷ memory) (suc at) xs = ap suc (length-overwrite memory at xs)

  overwrite-nil : (memory : List A) (at : ℕ) → overwrite memory at [] ≡ memory
  overwrite-nil [] at = refl
  overwrite-nil (m ∷ memory) zero = refl
  overwrite-nil (m ∷ memory) (suc at) = ap (◌∷◌ m) (overwrite-nil memory at)

  -- A cell after another.
  pub overwrite-cons :
      (memory : List A) (at : ℕ) (x : A) (xs : List A)
      → overwrite (overwrite memory at (x ∷ [])) (suc at) xs ≡ overwrite memory at (x ∷ xs)
  overwrite-cons [] at x xs = refl
  overwrite-cons (m ∷ memory) zero x xs =
      ap (λ k. x ∷ overwrite k zero xs) (overwrite-nil memory zero)
  overwrite-cons (m ∷ memory) (suc at) x xs = ap (◌∷◌ m) (overwrite-cons memory at x xs)

  pub take-take : (n k : ℕ) (xs : List A) → n ≤ k → take n (take k xs) ≡ take n xs
  take-take zero k xs h = refl
  take-take (suc n) zero xs h = absurd (omega arith)
  take-take (suc n) (suc k) [] h = refl
  take-take (suc n) (suc k) (x ∷ xs) h = ap (◌∷◌ x) (take-take n k xs (omega arith))

  pub length-take_le : (n : ℕ) (xs : List A) → n ≤ length xs → length (take n xs) ≡ n
  length-take_le zero xs h = refl
  length-take_le (suc n) [] h = absurd (omega arith)
  length-take_le (suc n) (x ∷ xs) h = ap suc (length-take_le n xs (omega arith))

  pub length-drop : (n : ℕ) (xs : List A) → length (drop n xs) ≡ length xs - n
  length-drop zero xs = omega arith
  length-drop (suc n) [] = omega arith
  length-drop (suc n) (x ∷ xs) = omega (arith, length-drop n xs)

  -- What was written is read back.
  pub read-overwrite_self :
      (memory : List A) (at : ℕ) (xs : List A)
      → at + length xs ≤ length memory
      → take (length xs) (drop at (overwrite memory at xs)) ≡ xs
  read-overwrite_self [] zero [] h = refl
  read-overwrite_self [] zero (x ∷ xs) h = absurd (omega arith)
  read-overwrite_self [] (suc at) xs h = absurd (omega arith)
  read-overwrite_self (m ∷ memory) zero [] h = refl
  read-overwrite_self (m ∷ memory) zero (x ∷ xs) h =
      ap (◌∷◌ x) (read-overwrite_self memory zero xs (omega arith))
  read-overwrite_self (m ∷ memory) (suc at) xs h = read-overwrite_self memory at xs (omega arith)

-- `memcpy` and `recv` into a block.
unfoldable pub write_bytes : List ℕ → ℕ → List ℕ → Result (List ℕ)
write_bytes memory at bytes =
    if leb (at + length bytes) (length memory) then ok (overwrite memory at bytes) else err faults

-- `n` bytes out of a block.
unfoldable pub read_bytes : List ℕ → ℕ → ℕ → Result (List ℕ)
read_bytes memory at n =
    if leb (at + n) (length memory) then ok (take n (drop at memory)) else err faults

pub write_bytes-ok :
    (memory : List ℕ) (at : ℕ) (bytes : List ℕ)
    → at + length bytes ≤ length memory
    → write_bytes memory at bytes ≡ ok (overwrite memory at bytes)
unfolding write_bytes
write_bytes-ok memory at bytes h = ground arith

pub read_bytes-ok :
    (memory : List ℕ) (at n : ℕ)
    → at + n ≤ length memory
    → read_bytes memory at n ≡ ok (take n (drop at memory))
unfolding read_bytes
read_bytes-ok memory at n h = ground arith

-- Reading back what a write has put there.
pub write_bytes-read_bytes :
    (memory : List ℕ) (at : ℕ) (bytes : List ℕ)
    → at + length bytes ≤ length memory
    → read_bytes (overwrite memory at bytes) at (length bytes) ≡ ok bytes
write_bytes-read_bytes memory at bytes h =
    read_bytes-ok _ at (length bytes) (omega (arith, length-overwrite memory at bytes))
    ∙ ap ok (read-overwrite_self memory at bytes h)
