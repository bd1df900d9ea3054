-- ===== src/Graph/Initialization/Intervals.antt =====
-- The containment of intervals of `u32`, as that of sets.
pub mod Subtract
pub mod Meet
use mathlib.Core.Logic.Iff
use runen_gpu.Base.{
  ℕ, ◌≡◌, ◌≤◌, ◌<◌, refl, sym, subst, inl, inr, ◌⊎◌, ◌↔◌, Bool, true, false, ◌&&◌, ◌||◌, ltb→lt,
  ◌++◌, arith, List, [], ◌∷◌, All, In, leb, ltb, Bool-cases, all, In-append, flat_map, u32_mod, max,
  min,
}
use runen_gpu.Graph.Intervals.{Interval, normalize_u32_intervals}
use runen_gpu.Graph.Intervals.Laws.{Covers, Separate, Covers-append, normalize_u64_intervals-Normal}
use runen_gpu.Graph.Intervals.Fits.{Fits, All-append, normalize_u32_intervals-Fits}
use runen_gpu.Graph.Initialization.{
  interval_set_contains_u32, subtract_interval, subtract_u32_intervals, meet_interval,
  intersect_u32_intervals, subtract_all,
}
use runen_gpu.Graph.Initialization.Cells.{IsNormal}

abbrev pub Inside : Interval → ℕ → Type 0
Inside x p = (x.0 ≤ p) × (p < x.1)

-- The points of later separate intervals lie past the end of the first.
pub Covers-later :
    (x : Interval) (xs : List Interval) (p : ℕ)
    → ((y : Interval) → In y xs → x.1 < y.0)
    → Covers xs p
    → x.1 < p
Covers-later x [] p h c = absurd c
Covers-later x (y ∷ ys) p h (inl c) = omega (arith, h y (inl refl), c.0)
Covers-later x (y ∷ ys) p h (inr c) = Covers-later x ys p (λ z m. h z (inr m)) c

pub interval_set_contains-Covers :
    (xs : List Interval) (r : Interval)
    → interval_set_contains_u32 xs r ≡ true
    → (p : ℕ) → Inside r p
    → Covers xs p
unfolding interval_set_contains_u32
interval_set_contains-Covers [] r e p i = cc
interval_set_contains-Covers (x ∷ xs) r e p i = elim (Bool-cases (leb x.0 r.0 && leb r.1 x.1)) [
  | inl q ↦ ground (arith, e, q, i.0, i.1)
  | inr q ↦ inr (interval_set_contains-Covers xs r (cc (e, q)) p i)
]

-- Separate intervals leave gaps, so that an interval they cover lies inside one of them.
pub Covers-interval_set_contains :
    (xs : List Interval) (r : Interval)
    → Separate xs
    → r.0 < r.1
    → ((p : ℕ) → Inside r p → Covers xs p)
    → interval_set_contains_u32 xs r ≡ true
unfolding interval_set_contains_u32
Covers-interval_set_contains [] r s n h = absurd (h r.0 (omega arith, n))
Covers-interval_set_contains (x ∷ xs) r s n h = elim (h r.0 (omega arith, n)) [
  | inl c ↦ elim (Bool-cases (leb r.1 x.1)) [
    | inl e ↦ ground arith
    | inr e ↦ elim (h x.1 (omega (arith, c), ground arith)) [
      | inl d ↦ absurd (omega (arith, d))
      | inr d ↦ absurd (omega (arith, Covers-later x xs x.1 s.0 d))
    ]
  ]
  | inr c ↦
      let past = Covers-later x xs r.0 s.0 c in
      let rest =
        Covers-interval_set_contains xs r s.1 n
          (λ p i. elim (h p i) [ inl d ↦ absurd (omega (arith, d.1, i.0, past)) | inr d ↦ d ]) in
      ground arith
]

pub and_left : (a b : Bool) → (a && b) ≡ true → a ≡ true
and_left a b e = ground arith

pub and_right : (a b : Bool) → (a && b) ≡ true → b ≡ true
and_right a b e = ground arith

-- `all` over the required intervals.
pub contain_all :
    (have required : List Interval)
    → IsNormal have
    → All (Fits u32_mod) required
    → (all (interval_set_contains_u32 have) required ≡ true)
      ↔ ((p : ℕ) → Covers required p → Covers have p)
contain_all have [] n f = (λ e p c. absurd c, λ h. refl)
contain_all have (r ∷ required) n f =
    let rest = contain_all have required n f.1 in
    (
      λ e p c. elim c [
        | inl i ↦ interval_set_contains-Covers have r (and_left _ _ e) p i
        | inr d ↦ rest.0 (and_right _ _ e) p d
      ],
      λ h. cc (
        Covers-interval_set_contains have r n.0 f.0.0 (λ p i. h p (inl i)),
        rest.1 (λ p c. h p (inr c)),
      ),
    )
