-- ===== src/Tests/Sorting.antt =====
-- Durations sorted by insertion, as a `qsort` may do it, and the rules of arithmetic at small times.
use mathlib.Core.List.{Perm}
use mathlib.Core.List.Perm
use latency_under_load.Prelude.{
  ◌≡◌, refl, ok, false, List, [], ◌∷◌, if◌then◌else◌, Bool-cases, inl, inr, arith, leb→le,
}
use latency_under_load.Prelude.Int.{ℤ, pos, negsuc, ◌≤ℤ◌, leb_ℤ}
use latency_under_load.Clock.{Timespec, is_lt, compares, ts_cmp, ts_to_nsec}
use latency_under_load.Clock.Normal.{ts_cmp_lem}
use latency_under_load.Ticks.Duration.{
  TicksDuration, TicksTime, compare_durations, sort, greater, less, add, scale, equal, time_add,
  time_sub, time_difference, time_less, time_equal,
}
use latency_under_load.Ticks.Assign.{
  repeat, scale_assign, divide_assign, time_add_assign, time_sub_assign, assign_rules,
}
use latency_under_load.Ticks.Rules.{time_rules}
use latency_under_load.Ticks.Sorted.{IsAscending, IsOrder, IsQsort, sort-IsAscending}

module _ (compar : TicksDuration → TicksDuration → ℤ) where
  abbrev insert_sorted : TicksDuration → List TicksDuration → List TicksDuration
  insert_sorted x [] = x ∷ []
  insert_sorted x (y ∷ ys) =
      if leb_ℤ (compar x y) (pos 0) then x ∷ y ∷ ys else y ∷ insert_sorted x ys

  abbrev insertion_sort : List TicksDuration → List TicksDuration
  insertion_sort [] = []
  insertion_sort (x ∷ xs) = insert_sorted x (insertion_sort xs)

  insert_sorted-Perm :
      (x : TicksDuration) (ys : List TicksDuration) → Perm (x ∷ ys) (insert_sorted x ys)
  insert_sorted-Perm x [] = Perm.refl (x ∷ [])
  insert_sorted-Perm x (y ∷ ys) = elim (Bool-cases (leb_ℤ (compar x y) (pos 0))) [
    | inl le ↦ rw le (Perm.refl (x ∷ y ∷ ys))
    | inr gt ↦ rw gt (Perm.trans (Perm.swap y x ys) (Perm.cons y (insert_sorted-Perm x ys)))
  ]

  insertion_sort-Perm : (xs : List TicksDuration) → Perm xs (insertion_sort xs)
  insertion_sort-Perm [] = Perm.refl []
  insertion_sort-Perm (x ∷ xs) =
      Perm.trans (Perm.cons x (insertion_sort-Perm xs)) (insert_sorted-Perm x (insertion_sort xs))

  module _ (order : IsOrder compar) where
    abbrev Before : TicksDuration → TicksDuration → Type 0
    Before x y = compar x y ≤ℤ pos 0

    later_Before : (x y : TicksDuration) → leb_ℤ (compar x y) (pos 0) ≡ false → Before y x
    later_Before x y gt = elim (order.total x y) [ inl le ↦ ground arith | inr ge ↦ ge ]

    behind-IsAscending :
        (x y : TicksDuration) (ys : List TicksDuration)
        → Before y x
        → IsAscending Before (y ∷ ys)
        → IsAscending Before (y ∷ insert_sorted x ys)
    behind-IsAscending x y [] h k = (h, tt)
    behind-IsAscending x y (z ∷ zs) h k = elim (Bool-cases (leb_ℤ (compar x z) (pos 0))) [
      | inl le ↦ rw le (h, (leb→le _ _ le, k.1))
      | inr gt ↦ rw gt (k.0, behind-IsAscending x z zs (later_Before x z gt) k.1)
    ]

    insert_sorted-IsAscending :
        (x : TicksDuration) (ys : List TicksDuration)
        → IsAscending Before ys
        → IsAscending Before (insert_sorted x ys)
    insert_sorted-IsAscending x [] k = tt
    insert_sorted-IsAscending x (y ∷ ys) k = elim (Bool-cases (leb_ℤ (compar x y) (pos 0))) [
      | inl le ↦ rw le (leb→le _ _ le, k)
      | inr gt ↦ rw gt (behind-IsAscending x y ys (later_Before x y gt) k)
    ]

    insertion_sort-IsAscending : (xs : List TicksDuration) → IsAscending Before (insertion_sort xs)
    insertion_sort-IsAscending [] = tt
    insertion_sort-IsAscending (x ∷ xs) =
        insert_sorted-IsAscending x (insertion_sort xs) (insertion_sort-IsAscending xs)

insertion_sort-IsQsort : IsQsort insertion_sort
insertion_sort-IsQsort = record {
  permutes = λ compar xs. insertion_sort-Perm compar xs;
  sorts = λ compar xs order. insertion_sort-IsAscending compar order xs;
}

abbrev of_ticks : ℤ → TicksDuration
of_ticks n = record { ticks = n }

abbrev unsorted : List TicksDuration
unsorted = of_ticks (pos 5) ∷ of_ticks (negsuc 1) ∷ of_ticks (pos 3) ∷ []

sort_three :
    sort insertion_sort unsorted ≡ of_ticks (negsuc 1) ∷ of_ticks (pos 3) ∷ of_ticks (pos 5) ∷ []
unfolding sort compare_durations greater less
sort_three = refl

sort-IsAscending_example :
    Perm unsorted (sort insertion_sort unsorted)
    × IsAscending (λ x y. x.ticks ≤ℤ y.ticks) (sort insertion_sort unsorted)
sort-IsAscending_example = sort-IsAscending insertion_sort insertion_sort-IsQsort unsorted

abbrev noon : TicksTime
noon = record { ticks = pos 700 }

abbrev morning : TicksTime
morning = record { ticks = pos 400 }

time_rules_example :
    (time_sub (time_add noon (of_ticks (pos 5))) (of_ticks (pos 5)) ≡ noon)
    × (time_add morning (time_difference noon morning) ≡ noon)
    × (time_difference (time_add noon (of_ticks (pos 5))) noon ≡ of_ticks (pos 5))
    × (time_add (time_add noon (of_ticks (pos 5))) (of_ticks (negsuc 2))
        ≡ time_add noon (add (of_ticks (pos 5)) (of_ticks (negsuc 2))))
    × (time_less (time_add noon (of_ticks (pos 5))) (time_add noon (of_ticks (negsuc 2)))
        ≡ less (of_ticks (pos 5)) (of_ticks (negsuc 2)))
    × (time_equal (time_add noon (of_ticks (pos 5))) (time_add noon (of_ticks (negsuc 2)))
        ≡ equal (of_ticks (pos 5)) (of_ticks (negsuc 2)))
time_rules_example = time_rules noon morning (of_ticks (pos 5)) (of_ticks (negsuc 2))

assign_rules_example :
    (repeat 3 (λ x. time_add_assign x (of_ticks (negsuc 1))) noon
      ≡ time_add noon (scale (of_ticks (negsuc 1)) (pos 3)))
    × (repeat 3
          (λ x. time_sub_assign x (of_ticks (negsuc 1)))
          (repeat 3 (λ x. time_add_assign x (of_ticks (negsuc 1))) noon)
        ≡ noon)
    × (divide_assign (scale_assign (of_ticks (negsuc 1)) (pos 8)) (pos 8)
        ≡ ok (of_ticks (negsuc 1)))
assign_rules_example = assign_rules 3 7 noon (of_ticks (negsuc 1))

abbrev at_second : Timespec
at_second = record { tv_sec = pos 3; tv_nsec = pos 0 }

abbrev before_second : Timespec
before_second = record { tv_sec = pos 2; tv_nsec = pos 999_999_999 }

ts_cmp_lem_example :
    ts_cmp is_lt before_second at_second
    ≡ compares is_lt (ts_to_nsec before_second) (ts_to_nsec at_second)
ts_cmp_lem_example =
    ts_cmp_lem is_lt before_second at_second (omega arith, omega arith) (omega arith, omega arith)
