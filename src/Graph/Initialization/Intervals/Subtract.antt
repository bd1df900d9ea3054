-- ===== src/Graph/Initialization/Intervals/Subtract.antt =====
-- `subtract_u32_intervals` as the difference of sets.
use runen_gpu.Base.{
  ℕ, ◌≤◌, ◌<◌, refl, sym, subst, inl, inr, ◌↔◌, ◌||◌, ltb→lt, ◌++◌, arith, List, [], ◌∷◌, All, In,
  leb, ltb, Bool-cases, In-append, u32_mod,
}
use runen_gpu.Graph.Intervals.{Interval}
use runen_gpu.Graph.Intervals.Laws.{Covers, Separate, Covers-append}
use runen_gpu.Graph.Intervals.Fits.{Fits, All-append}
use runen_gpu.Graph.Initialization.{subtract_interval, subtract_u32_intervals, subtract_all}
use runen_gpu.Graph.Initialization.Cells.{IsNormal}
use runen_gpu.Graph.Initialization.Intervals.{Inside}

subtract_interval-Covers :
    (x r : Interval) (p : ℕ) → Covers (subtract_interval x r) p ↔ (Inside x p × (¬ Inside r p))
unfolding subtract_interval
subtract_interval-Covers x r p = ground arith

pub subtract_u32_intervals-Covers :
    (xs : List Interval) (r : Interval) (p : ℕ)
    → Covers (subtract_u32_intervals xs r) p ↔ (Covers xs p × (¬ Inside r p))
unfolding subtract_u32_intervals
subtract_u32_intervals-Covers [] r p = ground arith
subtract_u32_intervals-Covers (x ∷ xs) r p = ground (
  arith,
  Covers-append (subtract_interval x r) (subtract_u32_intervals xs r) p,
  subtract_interval-Covers x r p,
  subtract_u32_intervals-Covers xs r p,
)

pub subtract_all-Covers :
    (xs rs : List Interval) (p : ℕ)
    → Covers (subtract_all xs rs) p ↔ (Covers xs p × (¬ Covers rs p))
unfolding subtract_all
subtract_all-Covers xs [] p = ground arith
subtract_all-Covers xs (r ∷ rs) p = ground (
  arith,
  subtract_all-Covers (subtract_u32_intervals xs r) rs p,
  subtract_u32_intervals-Covers xs r p,
)

-- What is left of an interval is all of it, nothing, or what lies before and after.
subtract_interval_elim :
    (P : List Interval → Type 0) (x r : Interval)
    → P (x ∷ [])
    → P []
    → (x.0 < r.0 → r.0 < x.1 → P ((x.0, r.0) ∷ []))
    → (r.1 < x.1 → x.0 < r.1 → P ((r.1, x.1) ∷ []))
    → (x.0 < r.0 → r.1 < x.1 → P ((x.0, r.0) ∷ (r.1, x.1) ∷ []))
    → P (subtract_interval x r)
unfolding subtract_interval
subtract_interval_elim P x r all_left nothing before after both =
    elim (Bool-cases (leb x.1 r.0 || leb r.1 x.0)) [
      | inl q ↦ rw q all_left
      | inr q ↦ elim (Bool-cases (ltb x.0 r.0)) [
        | inl a ↦ elim (Bool-cases (ltb r.1 x.1)) [
          | inl b ↦ rw (q, a, b) (both (ltb→lt x.0 r.0 a) (ltb→lt r.1 x.1 b))
          | inr b ↦ rw (q, a, b) (before (ltb→lt x.0 r.0 a) (ground arith))
        ]
        | inr a ↦ elim (Bool-cases (ltb r.1 x.1)) [
          | inl b ↦ rw (q, a, b) (after (ltb→lt r.1 x.1 b) (ground arith))
          | inr b ↦ rw (q, a, b) nothing
        ]
      ]
    ]

module _ (r : Interval) (proper : r.0 < r.1) where
  -- What is left starts no earlier.
  In-subtract_interval : (x y : Interval) → In y (subtract_interval x r) → x.0 ≤ y.0
  In-subtract_interval x y =
      subtract_interval_elim (λ zs. In y zs → x.0 ≤ y.0) x r (λ m. ground arith) (λ m. absurd m)
        (λ a k m. ground arith) (λ b k m. ground arith) (λ a b m. ground arith)

  In-subtract_u32_intervals :
      (xs : List Interval) (b : ℕ) (y : Interval)
      → ((z : Interval) → In z xs → b < z.0)
      → In y (subtract_u32_intervals xs r)
      → b < y.0
  unfolding subtract_u32_intervals
  In-subtract_u32_intervals [] b y h m = absurd m
  In-subtract_u32_intervals (x ∷ xs) b y h m =
      elim (In-append y (subtract_interval x r) (subtract_u32_intervals xs r) m) [
        | inl q ↦ omega (arith, h x (inl refl), In-subtract_interval x y q)
        | inr q ↦ In-subtract_u32_intervals xs b y (λ z k. h z (inr k)) q
      ]

  Separate-subtract_interval :
      (x : Interval) (ys : List Interval)
      → ((y : Interval) → In y ys → x.1 < y.0)
      → Separate ys
      → Separate (subtract_interval x r ++ ys)
  Separate-subtract_interval x ys h s =
      subtract_interval_elim (λ zs. Separate (zs ++ ys)) x r (h, s) s
        (λ a k. (λ y m. omega (arith, k, h y m), s)) (λ b k. (h, s))
        (λ a b. (
          λ y m. elim m [
            | inl q ↦ subst (λ (z : Interval). r.0 < z.0) (sym q) proper
            | inr q ↦ omega (arith, proper, b, h y q)
          ],
          (h, s),
        ))

  Separate-subtract_u32_intervals :
      (xs : List Interval) → Separate xs → Separate (subtract_u32_intervals xs r)
  unfolding subtract_u32_intervals
  Separate-subtract_u32_intervals [] s = tt
  Separate-subtract_u32_intervals (x ∷ xs) s =
      Separate-subtract_interval x (subtract_u32_intervals xs r)
        (λ y m. In-subtract_u32_intervals xs x.1 y s.0 m) (Separate-subtract_u32_intervals xs s.1)

  subtract_interval-Fits : (n : ℕ) (x : Interval) → Fits n x → All (Fits n) (subtract_interval x r)
  subtract_interval-Fits n x f =
      subtract_interval_elim (λ zs. All (Fits n) zs) x r (f, tt) tt
        (λ a k. ((a, omega (arith, k, f.1)), tt)) (λ b k. (((b, f.1), tt)))
        (λ a b. ((a, omega (arith, proper, b, f.1)), ((b, f.1), tt)))

  subtract_u32_intervals-Fits :
      (n : ℕ) (xs : List Interval) → All (Fits n) xs → All (Fits n) (subtract_u32_intervals xs r)
  unfolding subtract_u32_intervals
  subtract_u32_intervals-Fits n [] f = tt
  subtract_u32_intervals-Fits n (x ∷ xs) f =
      All-append (Fits n) (subtract_interval x r) (subtract_u32_intervals xs r)
        (subtract_interval-Fits n x f.0) (subtract_u32_intervals-Fits n xs f.1)

pub subtract_all-IsNormal :
    (xs rs : List Interval) → IsNormal xs → All (Fits u32_mod) rs → IsNormal (subtract_all xs rs)
unfolding subtract_all
subtract_all-IsNormal xs [] n f = n
subtract_all-IsNormal xs (r ∷ rs) n f =
    subtract_all-IsNormal (subtract_u32_intervals xs r) rs
      (
        Separate-subtract_u32_intervals r f.0.0 xs n.0,
        subtract_u32_intervals-Fits r f.0.0 u32_mod xs n.1,
      )
      f.1
