-- ===== src/Ticks/Sorted.antt =====
-- `TicksDuration::sort` of Ticks.h, over what `qsort` is documented to do.
use mathlib.Core.List.{Perm}
use latency_under_load.Prelude.{◌⊎◌, List, [], ◌∷◌, arith}
use latency_under_load.Prelude.Int.{ℤ, pos, ◌≤ℤ◌}
use latency_under_load.Ticks.Duration.{TicksDuration, compare_durations, less, greater, sort}

-- Each element is related to the next one.
abbrev pub IsAscending : (TicksDuration → TicksDuration → Type 0) → List TicksDuration → Type 0
IsAscending R [] = Unit
IsAscending R (x ∷ []) = Unit
IsAscending R (x ∷ y ∷ xs) = R x y × IsAscending R (y ∷ xs)

IsAscending-mono :
    (R S : TicksDuration → TicksDuration → Type 0) (xs : List TicksDuration)
    → ((x y : TicksDuration) → R x y → S x y)
    → IsAscending R xs
    → IsAscending S xs
IsAscending-mono R S [] f h = tt
IsAscending-mono R S (x ∷ []) f h = tt
IsAscending-mono R S (x ∷ y ∷ xs) f h = (f x y h.0, IsAscending-mono R S (y ∷ xs) f h.1)

-- A comparison that `qsort` may be used with: it orders all elements.
pub record IsOrder (compar : TicksDuration → TicksDuration → ℤ) : Type 0 where
  pub total : (x y : TicksDuration) → (compar x y ≤ℤ pos 0) ⊎ (compar y x ≤ℤ pos 0)
  pub transitive :
      (x y z : TicksDuration) → compar x y ≤ℤ pos 0 → compar y z ≤ℤ pos 0 → compar x z ≤ℤ pos 0

-- What `qsort` is documented to do: it permutes the array, and where the comparison orders all
-- elements no element is greater than the next one by it.
pub record IsQsort
    (qsort : (TicksDuration → TicksDuration → ℤ) → List TicksDuration → List TicksDuration)
    : Type 0 where
  pub permutes :
      (compar : TicksDuration → TicksDuration → ℤ) (xs : List TicksDuration)
      → Perm xs (qsort compar xs)
  pub sorts :
      (compar : TicksDuration → TicksDuration → ℤ) (xs : List TicksDuration)
      → IsOrder compar
      → IsAscending (λ x y. compar x y ≤ℤ pos 0) (qsort compar xs)

compare_durations-le : (x y : TicksDuration) → compare_durations x y ≤ℤ pos 0 → x.ticks ≤ℤ y.ticks
unfolding compare_durations less greater
compare_durations-le x y h = ground arith

compare_durations-of_le :
    (x y : TicksDuration) → x.ticks ≤ℤ y.ticks → compare_durations x y ≤ℤ pos 0
unfolding compare_durations less greater
compare_durations-of_le x y h = ground arith

compare_durations-IsOrder : IsOrder compare_durations
unfolding compare_durations less greater
compare_durations-IsOrder = record {
  total = λ x y. ground arith;
  transitive = λ x y z h k.
      compare_durations-of_le x z
        (omega (arith, compare_durations-le x y h, compare_durations-le y z k));
}

-- Where `qsort` does what it is documented to do, `sort` permutes the durations, and leaves none
-- before a shorter one.
pub sort-IsAscending :
    (qsort : (TicksDuration → TicksDuration → ℤ) → List TicksDuration → List TicksDuration)
    → IsQsort qsort
    → (xs : List TicksDuration)
    → Perm xs (sort qsort xs) × IsAscending (λ x y. x.ticks ≤ℤ y.ticks) (sort qsort xs)
unfolding sort
sort-IsAscending qsort is_qsort xs = (
  is_qsort.permutes compare_durations xs,
  IsAscending-mono _ _ (qsort compare_durations xs) compare_durations-le
      (is_qsort.sorts compare_durations xs compare_durations-IsOrder),
)
