-- ===== src/Graph/Intervals/Laws.antt =====
-- A normal form covers the same points by separate intervals in ascending order.
use runen_gpu.Base.{
  ℕ, ◌≤◌, ◌<◌, refl, sym, subst, ◌⊎◌, inl, inr, ◌↔◌, List, [], ◌∷◌, ◌++◌, arith, leb, In,
  Bool-cases, In-append,
}
use runen_gpu.Graph.Intervals.{
  Interval, pair_le, insert_interval, sort_unstable, merge_interval, merge_intervals, reversed,
  normalize_u64_intervals, normalize_u32_intervals,
}
use runen_gpu.Graph.Intervals.Sorting.{Starts, Starts-sort_unstable}

-- A point lies in one of the intervals.
abbrev pub Covers : List Interval → ℕ → Type 0
Covers [] p = ⊥
Covers (x ∷ xs) p = ((x.0 ≤ p) × (p < x.1)) ⊎ Covers xs p

-- Each interval ends before the later ones start.
abbrev pub Separate : List Interval → Type 0
Separate [] = Unit
Separate (x ∷ xs) = ((y : Interval) → In y xs → x.1 < y.0) × Separate xs

-- The same for the list in which the last interval comes first.
abbrev Descends : List Interval → Type 0
Descends [] = Unit
Descends (x ∷ xs) = ((y : Interval) → In y xs → y.1 < x.0) × Descends xs

-- The first interval starts no later than every interval of the other list.
abbrev Under : List Interval → List Interval → Type 0
Under [] rest = Unit
Under (x ∷ xs) rest = (y : Interval) → In y rest → x.0 ≤ y.0

Covers-insert_interval :
    (x : Interval) (xs : List Interval) (p : ℕ)
    → Covers (insert_interval x xs) p ↔ Covers (x ∷ xs) p
unfolding insert_interval
Covers-insert_interval x [] p = (λ h. h, λ h. h)
Covers-insert_interval x (z ∷ xs) p = elim (Bool-cases (pair_le x z)) [
  | inl e ↦ rw e (λ h. h, λ h. h)
  | inr e ↦ rw e (ground (arith, Covers-insert_interval x xs p))
]

Covers-sort_unstable : (xs : List Interval) (p : ℕ) → Covers (sort_unstable xs) p ↔ Covers xs p
unfolding sort_unstable
Covers-sort_unstable [] p = (λ h. h, λ h. h)
Covers-sort_unstable (x ∷ xs) p =
    ground (arith, Covers-insert_interval x (sort_unstable xs) p, Covers-sort_unstable xs p)

module _ (x : Interval) (rest : List Interval) (starts : Starts (x ∷ rest)) where
  Descends-merge_interval :
      (xs : List Interval) → Under xs (x ∷ rest) → Descends xs → Descends (merge_interval x xs)
  unfolding merge_interval
  Descends-merge_interval [] u d = (λ y m. absurd m, tt)
  Descends-merge_interval ((s, e) ∷ xs) u d = elim (Bool-cases (leb x.0 e)) [
    | inl h ↦ rw h d
    | inr h ↦ rw h (
      λ y m. elim m [
        | inl q ↦ subst (λ w. w.1 < x.0) (sym q) (ground arith)
        | inr q ↦ let a = d.0 y q in let b = u x (inl refl) in omega arith
      ],
      d,
    )
  ]

  Covers-merge_interval :
      (xs : List Interval) (p : ℕ)
      → Under xs (x ∷ rest)
      → Covers (merge_interval x xs) p ↔ Covers (x ∷ xs) p
  unfolding merge_interval
  Covers-merge_interval [] p u = (λ h. h, λ h. h)
  Covers-merge_interval ((s, e) ∷ xs) p u = elim (Bool-cases (leb x.0 e)) [
    | inl h ↦ let b : s ≤ x.0 = u x (inl refl) in rw h (ground arith)
    | inr h ↦ rw h (λ k. k, λ k. k)
  ]

  Under-merge_interval :
      (xs : List Interval) → Under xs (x ∷ rest) → Under (merge_interval x xs) rest
  unfolding merge_interval
  Under-merge_interval [] u = starts.0
  Under-merge_interval ((s, e) ∷ xs) u = elim (Bool-cases (leb x.0 e)) [
    | inl h ↦ rw h (λ y m. u y (inr m))
    | inr h ↦ rw h starts.0
  ]

Descends-merge_intervals :
    (xs normalized : List Interval)
    → Starts xs
    → Under normalized xs
    → Descends normalized
    → Descends (merge_intervals xs normalized)
unfolding merge_intervals
Descends-merge_intervals [] normalized st u d = d
Descends-merge_intervals (x ∷ xs) normalized st u d =
    Descends-merge_intervals xs (merge_interval x normalized) st.1
      (Under-merge_interval x xs st normalized u) (Descends-merge_interval x xs st normalized u d)

Covers-merge_intervals :
    (xs normalized : List Interval) (p : ℕ)
    → Starts xs
    → Under normalized xs
    → Covers (merge_intervals xs normalized) p ↔ (Covers xs p ⊎ Covers normalized p)
unfolding merge_intervals
Covers-merge_intervals [] normalized p st u = ground arith
Covers-merge_intervals (x ∷ xs) normalized p st u =
    let later =
      Covers-merge_intervals xs (merge_interval x normalized) p st.1
        (Under-merge_interval x xs st normalized u) in
    let now = Covers-merge_interval x xs st normalized p u in ground arith

pub Covers-append :
    (xs ys : List Interval) (p : ℕ) → Covers (xs ++ ys) p ↔ (Covers xs p ⊎ Covers ys p)
Covers-append [] ys p = ground arith
Covers-append (x ∷ xs) ys p = ground (arith, Covers-append xs ys p)

Covers-reversed : (xs : List Interval) (p : ℕ) → Covers (reversed xs) p ↔ Covers xs p
Covers-reversed [] p = (λ h. h, λ h. h)
Covers-reversed (x ∷ xs) p =
    ground (arith, Covers-append (reversed xs) (x ∷ []) p, Covers-reversed xs p)

In-reversed : (y : Interval) (xs : List Interval) → In y (reversed xs) → In y xs
In-reversed y [] m = m
In-reversed y (x ∷ xs) m = elim (In-append y (reversed xs) (x ∷ []) m) [
  | inl q ↦ inr (In-reversed y xs q)
  | inr (inl q) ↦ inl q
  | inr (inr q) ↦ absurd q
]

Separate-snoc :
    (a : Interval) (xs : List Interval)
    → Separate xs
    → ((y : Interval) → In y xs → y.1 < a.0)
    → Separate (xs ++ a ∷ [])
Separate-snoc a [] d f = (λ y m. absurd m, tt)
Separate-snoc a (x ∷ xs) d f = (
  λ y m. elim (In-append y xs (a ∷ []) m) [
    | inl q ↦ d.0 y q
    | inr (inl q) ↦ subst (λ w. x.1 < w.0) (sym q) (f x (inl refl))
    | inr (inr q) ↦ absurd q
  ],
  Separate-snoc a xs d.1 (λ y m. f y (inr m)),
)

Separate-reversed : (xs : List Interval) → Descends xs → Separate (reversed xs)
Separate-reversed [] d = tt
Separate-reversed (x ∷ xs) d =
    Separate-snoc x (reversed xs) (Separate-reversed xs d.1) (λ y m. d.0 y (In-reversed y xs m))

-- A list of separate intervals that covers exactly the points of another list.
abbrev pub Normal : List Interval → List Interval → Type 0
Normal intervals normalized =
    ((p : ℕ) → Covers normalized p ↔ Covers intervals p) × Separate normalized

merged-Normal :
    (intervals : List Interval)
    → Normal intervals (reversed (merge_intervals (sort_unstable intervals) []))
merged-Normal intervals =
    let sorted = sort_unstable intervals in
    let st = Starts-sort_unstable intervals in
    (
      λ p. ground (
        arith,
        Covers-reversed (merge_intervals sorted []) p,
        Covers-merge_intervals sorted [] p st tt,
        Covers-sort_unstable intervals p,
      ),
      Separate-reversed (merge_intervals sorted []) (Descends-merge_intervals sorted [] st tt tt),
    )

-- Each of the two normal forms covers exactly the points of the intervals, and each of its
-- intervals ends before the later ones start.
pub normalize_u64_intervals-Normal :
    (intervals : List Interval)
    → Normal intervals (normalize_u64_intervals intervals)
      × Normal intervals (normalize_u32_intervals intervals)
unfolding normalize_u64_intervals normalize_u32_intervals
normalize_u64_intervals-Normal intervals = (merged-Normal intervals, merged-Normal intervals)
