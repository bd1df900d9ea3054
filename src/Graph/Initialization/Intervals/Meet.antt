-- ===== src/Graph/Initialization/Intervals/Meet.antt =====
-- `intersect_u32_intervals` as the intersection of sets.
use mathlib.Core.Logic.Iff
use runen_gpu.Base.{
  ℕ, inl, inr, ◌↔◌, ltb→lt, arith, List, [], ◌∷◌, All, ltb, Bool-cases, flat_map, u32_mod, max, min,
}
use runen_gpu.Graph.Intervals.{Interval, normalize_u32_intervals}
use runen_gpu.Graph.Intervals.Laws.{Covers, Covers-append, normalize_u64_intervals-Normal}
use runen_gpu.Graph.Intervals.Fits.{Fits, All-append, normalize_u32_intervals-Fits}
use runen_gpu.Graph.Initialization.{meet_interval, intersect_u32_intervals}
use runen_gpu.Graph.Initialization.Cells.{IsNormal}
use runen_gpu.Graph.Initialization.Intervals.{Inside}

pub normalize_u32_intervals-IsNormal :
    (xs : List Interval) → All (Fits u32_mod) xs → IsNormal (normalize_u32_intervals xs)
normalize_u32_intervals-IsNormal xs f =
    ((normalize_u64_intervals-Normal xs).1.1, normalize_u32_intervals-Fits u32_mod xs f)

pub normalize_u32_intervals-Covers :
    (xs : List Interval) (p : ℕ) → Covers (normalize_u32_intervals xs) p ↔ Covers xs p
normalize_u32_intervals-Covers xs p = (normalize_u64_intervals-Normal xs).1.0 p

meet_interval-Covers :
    (x y : Interval) (p : ℕ) → Covers (meet_interval x y) p ↔ (Inside x p × Inside y p)
unfolding meet_interval
meet_interval-Covers x y p = ground arith

meet_interval-Fits : (n : ℕ) (x y : Interval) → Fits n x → All (Fits n) (meet_interval x y)
unfolding meet_interval
meet_interval-Fits n x y f = elim (Bool-cases (ltb (max x.0 y.0) (min x.1 y.1))) [
  | inl e ↦ rw e ((ltb→lt (max x.0 y.0) (min x.1 y.1) e, omega (arith, f.1)), tt)
  | inr e ↦ rw e tt
]

-- What the inner loop pushes for one interval.
abbrev row : List Interval → Interval → List Interval
row right x = flat_map (λ r. meet_interval x r) right

row-Covers :
    (ys : List Interval) (x : Interval) (p : ℕ) → Covers (row ys x) p ↔ (Inside x p × Covers ys p)
row-Covers [] x p = ground arith
row-Covers (y ∷ ys) x p = ground (
  arith,
  Covers-append (meet_interval x y) (row ys x) p,
  meet_interval-Covers x y p,
  row-Covers ys x p,
)

row-Fits : (n : ℕ) (ys : List Interval) (x : Interval) → Fits n x → All (Fits n) (row ys x)
row-Fits n [] x f = tt
row-Fits n (y ∷ ys) x f =
    All-append (Fits n) (meet_interval x y) (row ys x) (meet_interval-Fits n x y f)
      (row-Fits n ys x f)

rows-Covers :
    (xs ys : List Interval) (p : ℕ) → Covers (flat_map (row ys) xs) p ↔ (Covers xs p × Covers ys p)
rows-Covers [] ys p = ground arith
rows-Covers (x ∷ xs) ys p = ground (
  arith,
  Covers-append (row ys x) (flat_map (row ys) xs) p,
  row-Covers ys x p,
  rows-Covers xs ys p,
)

rows-Fits : (n : ℕ) (xs ys : List Interval) → All (Fits n) xs → All (Fits n) (flat_map (row ys) xs)
rows-Fits n [] ys f = tt
rows-Fits n (x ∷ xs) ys f =
    All-append (Fits n) (row ys x) (flat_map (row ys) xs) (row-Fits n ys x f.0)
      (rows-Fits n xs ys f.1)

pub intersect_u32_intervals-Covers :
    (xs ys : List Interval) (p : ℕ)
    → Covers (intersect_u32_intervals xs ys) p ↔ (Covers xs p × Covers ys p)
unfolding intersect_u32_intervals
intersect_u32_intervals-Covers xs ys p =
    Iff.trans (normalize_u32_intervals-Covers (flat_map (row ys) xs) p) (rows-Covers xs ys p)

pub intersect_u32_intervals-IsNormal :
    (xs ys : List Interval) → IsNormal xs → IsNormal (intersect_u32_intervals xs ys)
unfolding intersect_u32_intervals
intersect_u32_intervals-IsNormal xs ys n =
    normalize_u32_intervals-IsNormal (flat_map (row ys) xs) (rows-Fits u32_mod xs ys n.1)
