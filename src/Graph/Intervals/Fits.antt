-- ===== src/Graph/Intervals/Fits.antt =====
-- A normal form keeps intervals nonempty and below a bound.
use runen_gpu.Base.{ℕ, ◌≤◌, ◌<◌, inl, inr, arith, List, [], ◌∷◌, ◌++◌, All, leb, Bool-cases}
use runen_gpu.Graph.Intervals.{
  Interval, pair_le, insert_interval, sort_unstable, merge_interval, merge_intervals, reversed,
  normalize_u64_intervals, normalize_u32_intervals,
}

-- Nonempty intervals below a bound.
abbrev pub Fits : ℕ → Interval → Type 0
Fits n x = (x.0 < x.1) × (x.1 ≤ n)

insert_interval-Fits :
    (n : ℕ) (x : Interval) (xs : List Interval)
    → Fits n x
    → All (Fits n) xs
    → All (Fits n) (insert_interval x xs)
unfolding insert_interval
insert_interval-Fits n x [] h k = (h, tt)
insert_interval-Fits n x (z ∷ xs) h k = elim (Bool-cases (pair_le x z)) [
  | inl e ↦ rw e (h, k)
  | inr e ↦ rw e (k.0, insert_interval-Fits n x xs h k.1)
]

sort_unstable-Fits :
    (n : ℕ) (xs : List Interval) → All (Fits n) xs → All (Fits n) (sort_unstable xs)
unfolding sort_unstable
sort_unstable-Fits n [] k = tt
sort_unstable-Fits n (x ∷ xs) k =
    insert_interval-Fits n x (sort_unstable xs) k.0 (sort_unstable-Fits n xs k.1)

merge_interval-Fits :
    (n : ℕ) (x : Interval) (xs : List Interval)
    → Fits n x
    → All (Fits n) xs
    → All (Fits n) (merge_interval x xs)
unfolding merge_interval
merge_interval-Fits n x [] h k = (h, tt)
merge_interval-Fits n x ((s, e) ∷ xs) h k = elim (Bool-cases (leb x.0 e)) [
  | inl q ↦ rw q ((omega (arith, k.0.0), omega (arith, k.0.1, h.1)), k.1)
  | inr q ↦ rw q (h, k)
]

merge_intervals-Fits :
    (n : ℕ) (xs ys : List Interval)
    → All (Fits n) xs
    → All (Fits n) ys
    → All (Fits n) (merge_intervals xs ys)
unfolding merge_intervals
merge_intervals-Fits n [] ys h k = k
merge_intervals-Fits n (x ∷ xs) ys h k =
    merge_intervals-Fits n xs (merge_interval x ys) h.1 (merge_interval-Fits n x ys h.0 k)

pub All-append {ℓ} :
    {A : Type 0} (P : A → Type ℓ) (xs ys : List A) → All P xs → All P ys → All P (xs ++ ys)
All-append P [] ys h k = k
All-append P (x ∷ xs) ys h k = (h.0, All-append P xs ys h.1 k)

reversed-Fits : (n : ℕ) (xs : List Interval) → All (Fits n) xs → All (Fits n) (reversed xs)
reversed-Fits n [] h = tt
reversed-Fits n (x ∷ xs) h =
    All-append (Fits n) (reversed xs) (x ∷ []) (reversed-Fits n xs h.1) (h.0, tt)

pub normalize_u64_intervals-Fits :
    (n : ℕ) (xs : List Interval) → All (Fits n) xs → All (Fits n) (normalize_u64_intervals xs)
unfolding normalize_u64_intervals
normalize_u64_intervals-Fits n xs h =
    reversed-Fits n (merge_intervals (sort_unstable xs) [])
      (merge_intervals-Fits n (sort_unstable xs) [] (sort_unstable-Fits n xs h) tt)

pub normalize_u32_intervals-Fits :
    (n : ℕ) (xs : List Interval) → All (Fits n) xs → All (Fits n) (normalize_u32_intervals xs)
unfolding normalize_u32_intervals
normalize_u32_intervals-Fits n xs h =
    reversed-Fits n (merge_intervals (sort_unstable xs) [])
      (merge_intervals-Fits n (sort_unstable xs) [] (sort_unstable-Fits n xs h) tt)
