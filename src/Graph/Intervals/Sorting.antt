-- ===== src/Graph/Intervals/Sorting.antt =====
-- Sorting keeps the intervals and puts them in the order of their starts.
use runen_gpu.Base.{
  ◌≡◌, ◌≤◌, sym, subst, ◌⊎◌, inl, inr, ◌↔◌, true, false, List, [], ◌∷◌, arith, In, Bool-cases,
}
use runen_gpu.Graph.Intervals.{Interval, pair_le, insert_interval, sort_unstable}

-- Every interval starts no later than those after it.
abbrev pub Starts : List Interval → Type 0
Starts [] = Unit
Starts (x ∷ xs) = ((y : Interval) → In y xs → x.0 ≤ y.0) × Starts xs

pub In-insert_interval :
    (y x : Interval) (xs : List Interval) → In y (insert_interval x xs) ↔ ((y ≡ x) ⊎ In y xs)
unfolding insert_interval
In-insert_interval y x [] = (λ h. h, λ h. h)
In-insert_interval y x (z ∷ xs) = elim (Bool-cases (pair_le x z)) [
  | inl e ↦ rw e (λ h. h, λ h. h)
  | inr e ↦ rw e (
    λ h. elim h [
      | inl p ↦ inr (inl p)
      | inr q ↦ elim ((In-insert_interval y x xs).0 q) [ inl p ↦ inl p | inr r ↦ inr (inr r) ]
    ],
    λ h. elim h [
      | inl p ↦ inr ((In-insert_interval y x xs).1 (inl p))
      | inr (inl p) ↦ inl p
      | inr (inr r) ↦ inr ((In-insert_interval y x xs).1 (inr r))
    ],
  )
]

pair_le-start : (x z : Interval) → pair_le x z ≡ true → x.0 ≤ z.0
pair_le-start x z h = ground arith

pair_gt-start : (x z : Interval) → pair_le x z ≡ false → z.0 ≤ x.0
pair_gt-start x z h = ground arith

Starts-insert_interval :
    (x : Interval) (xs : List Interval) → Starts xs → Starts (insert_interval x xs)
unfolding insert_interval
Starts-insert_interval x [] h = (λ y m. absurd m, tt)
Starts-insert_interval x (z ∷ xs) h = elim (Bool-cases (pair_le x z)) [
  | inl e ↦ rw e (
    λ y m. elim m [
      | inl p ↦ subst (λ w. x.0 ≤ w.0) (sym p) (pair_le-start x z e)
      | inr q ↦ let a = pair_le-start x z e in let b = h.0 y q in omega arith
    ],
    h,
  )
  | inr e ↦ rw e (
    λ y m. elim ((In-insert_interval y x xs).0 m) [
      | inl p ↦ subst (λ w. z.0 ≤ w.0) (sym p) (pair_gt-start x z e)
      | inr q ↦ h.0 y q
    ],
    Starts-insert_interval x xs h.1,
  )
]

pub Starts-sort_unstable : (xs : List Interval) → Starts (sort_unstable xs)
unfolding sort_unstable
Starts-sort_unstable [] = tt
Starts-sort_unstable (x ∷ xs) =
    Starts-insert_interval x (sort_unstable xs) (Starts-sort_unstable xs)

pub In-sort_unstable : (y : Interval) (xs : List Interval) → In y (sort_unstable xs) ↔ In y xs
unfolding sort_unstable
In-sort_unstable y [] = (λ h. h, λ h. h)
In-sort_unstable y (x ∷ xs) =
    ground (arith, In-insert_interval y x (sort_unstable xs), In-sort_unstable y xs)
