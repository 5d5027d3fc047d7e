-- ===== src/Runner/Mapped.antt =====
-- The map from file descriptors to connections: no entry is a null pointer, and no two lead to the
-- same connection.
use latency_under_load.Prelude.{
  ℕ, ◌+◌, ◌≤◌, ◌<◌, ◌≡◌, ◌≢◌, refl, some, List, [], ◌∷◌, arith, ltb, ◌==◌, Bool-cases, inl, inr,
}
use latency_under_load.Runner.{Pointer, insert}

-- No entry leads to the place `i`.
abbrev pub IsNowhere : ℕ → List (ℕ × Pointer) → Type 0
IsNowhere i [] = Unit
IsNowhere i ((fd, p) ∷ entries) = (p ≢ some i) × IsNowhere i entries

-- The entries lead to different places below `n`.
abbrev pub IsMapped : ℕ → List (ℕ × Pointer) → Type 0
IsMapped n [] = Unit
IsMapped n ((fd, p) ∷ entries) =
    ((i : ℕ) × (p ≡ some i) × (i < n) × IsNowhere i entries) × IsMapped n entries

pub IsMapped-mono :
    (n n' : ℕ) (entries : List (ℕ × Pointer)) → n ≤ n' → IsMapped n entries → IsMapped n' entries
IsMapped-mono n n' [] le h = tt
IsMapped-mono n n' ((fd, p) ∷ entries) le h =
    ((h.0.0, h.0.1, omega (arith, h.0.2), h.0.3), IsMapped-mono n n' entries le h.1)

new_IsNowhere : (n : ℕ) (entries : List (ℕ × Pointer)) → IsMapped n entries → IsNowhere n entries
new_IsNowhere n [] h = tt
new_IsNowhere n ((fd, p) ∷ entries) h =
    (λ e. ground (arith, h.0.1, h.0.2, e), new_IsNowhere n entries h.1)

insert-IsNowhere :
    (i n fd : ℕ) (entries : List (ℕ × Pointer))
    → n ≢ i
    → IsNowhere i entries
    → IsNowhere i (insert fd (some n) entries)
unfolding insert
insert-IsNowhere i n fd [] ne h = (λ e. ground (arith, ne, e), tt)
insert-IsNowhere i n fd ((j, p) ∷ entries) ne h = elim (Bool-cases (ltb fd j)) [
  | inl before ↦ rw before ((λ e. ground (arith, ne, e)), h)
  | inr after ↦ elim (Bool-cases (j == fd)) [
    | inl same ↦ rw (after, same) ((λ e. ground (arith, ne, e)), h.1)
    | inr other ↦ rw (after, other) (h.0, insert-IsNowhere i n fd entries ne h.1)
  ]
]

-- A new connection that gets its entry.
pub insert-IsMapped :
    (n fd : ℕ) (entries : List (ℕ × Pointer))
    → IsMapped n entries
    → IsMapped (n + 1) (insert fd (some n) entries)
unfolding insert
insert-IsMapped n fd [] h = ((n, refl, omega arith, tt), tt)
insert-IsMapped n fd ((j, p) ∷ entries) h = elim (Bool-cases (ltb fd j)) [
  | inl before ↦ rw before (
    (n, refl, omega arith, new_IsNowhere n ((j, p) ∷ entries) h),
    IsMapped-mono n (n + 1) ((j, p) ∷ entries) (omega arith) h,
  )
  | inr after ↦ elim (Bool-cases (j == fd)) [
    | inl same ↦
        rw (after, same)
          (
            (n, refl, omega arith, new_IsNowhere n entries h.1),
            IsMapped-mono n (n + 1) entries (omega arith) h.1,
          )
    | inr other ↦
        rw (after, other)
          (
            (
              h.0.0,
              h.0.1,
              omega (arith, h.0.2),
              insert-IsNowhere h.0.0 n fd entries (omega (arith, h.0.2)) h.0.3,
            ),
            insert-IsMapped n fd entries h.1,
          )
  ]
]
