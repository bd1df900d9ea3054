-- ===== src/Graph/Initialization/Layers.antt =====
-- The layers of a texture as a set: its entries one by one.
pub mod Union
pub mod Retain
pub mod Subtract
pub mod Meet
use mathlib.Core.Logic.Iff
use runen_gpu.Base.{
  ℕ, ◌≡◌, ◌≢◌, refl, sym, ap, subst, ◌∙◌, inl, inr, ◌⊎◌, ◌↔◌, Bool, true, false, ◌&&◌, ◌++◌, Option,
  none, some, arith, List, [], ◌∷◌, All, In, Distinct, Bool-cases, Option-cases, all, is_some_and,
  u32_mod,
}
use mathlib.Core.Option
use runen_gpu.Base.Optional.{◌>>=◌}
use runen_gpu.Base.Key.{key_eq, key_eq_cases, key_eq_refl}
use runen_gpu.Base.SortedMap.{
  get, keys, modify, upsert, keys-modify, get-modify, get-upsert, Distinct-upsert, In-keys-get,
  get-In-keys,
}
use runen_gpu.Graph.Intervals.{Interval, normalize_u32_intervals}
use runen_gpu.Graph.Intervals.Laws.{Covers, Covers-append}
use runen_gpu.Graph.Intervals.Fits.{Fits, All-append}
use runen_gpu.Graph.Initialization.{
  Subresource, subresource_key, Layers, extend_layers, layers_contain, subtract_layers,
  retain_layers, intersect_layers, subtract_all, intersect_u32_intervals, interval_set_contains_u32,
}
use runen_gpu.Graph.Initialization.Cells.{
  CoversEntry, CoversLayer, IsNormal, NonEmpty, IsLayers, IsFilled,
}
use runen_gpu.Graph.Initialization.Intervals.{contain_all, and_left, and_right}
use runen_gpu.Graph.Initialization.Intervals.Subtract.{subtract_all-Covers, subtract_all-IsNormal}
use runen_gpu.Graph.Initialization.Intervals.Meet.{
  intersect_u32_intervals-Covers, intersect_u32_intervals-IsNormal, normalize_u32_intervals-Covers,
  normalize_u32_intervals-IsNormal,
}

pub CoversLayer-In :
    (layers : Layers) (k : Subresource) (p : ℕ) → CoversLayer layers k p → In k (keys layers)
CoversLayer-In layers k p c = elim (Option-cases (get k layers)) [
  | inl e ↦ absurd (subst (λ o. CoversEntry o p) e c)
  | inr (xs, e) ↦ In-keys-get k layers e
]

pub get-absent : (layers : Layers) (k : Subresource) → (¬ In k (keys layers)) → get k layers ≡ none
get-absent layers k n = elim (Option-cases (get k layers)) [
  | inl e ↦ e
  | inr (xs, e) ↦ absurd (n (In-keys-get k layers e))
]

pub NonEmpty-Covers :
    (n : ℕ) (xs : List Interval) → All (Fits n) xs → NonEmpty xs → (p : ℕ) × Covers xs p
NonEmpty-Covers n [] f e = absurd e
NonEmpty-Covers n (x ∷ xs) f e = (x.0, inl (omega arith, f.0.0))

pub Covers-NonEmpty : (xs : List Interval) (p : ℕ) → Covers xs p → NonEmpty xs
Covers-NonEmpty [] p c = c
Covers-NonEmpty (x ∷ xs) p c = tt

module _ (key : Subresource) (xs : List Interval) (rest : Layers) where
  pub head_found : get key ((key, xs) ∷ rest) ≡ some xs
  unfolding get
  head_found = rw (key_eq_refl key) refl

  get-cons :
      (k : Subresource)
      → In k (keys rest)
      → (¬ In key (keys rest))
      → get k ((key, xs) ∷ rest) ≡ get k rest
  unfolding get
  get-cons k m n = elim (key_eq_cases k key) [
    | inl (e, q) ↦ absurd (n (subst (λ j. In j (keys rest)) q m))
    | inr (e, q) ↦ rw e refl
  ]

  module _ (w : IsLayers ((key, xs) ∷ rest)) where
    pub entry_later :
        (k : Subresource) (ys : List Interval)
        → get k rest ≡ some ys
        → get k ((key, xs) ∷ rest) ≡ some ys
    entry_later k ys e = get-cons k (In-keys-get k rest e) w.distinct.0 ∙ e

    pub tail-IsLayers : IsLayers rest
    tail-IsLayers = record {
      distinct = w.distinct.1;
      normal = λ k ys e. w.normal k ys (entry_later k ys e);
    }

    pub tail-IsFilled : IsFilled ((key, xs) ∷ rest) → IsFilled rest
    tail-IsFilled f k ys e = f k ys (entry_later k ys e)

    -- The entries of a map without repeated keys, as a set of layers.
    pub CoversLayer-cons :
        (k : Subresource) (p : ℕ)
        → CoversLayer ((key, xs) ∷ rest) k p ↔ (((k ≡ key) × Covers xs p) ⊎ CoversLayer rest k p)
    unfolding get
    CoversLayer-cons k p = elim (key_eq_cases k key) [
      | inl (e, q) ↦ rw e (
        λ c. inl (q, c),
        λ c. elim c [
          | inl d ↦ d.1
          | inr d ↦
              absurd (w.distinct.0 (subst (λ j. In j (keys rest)) q (CoversLayer-In rest k p d)))
        ],
      )
      | inr (e, q) ↦ rw e (λ c. inr c, λ c. elim c [ inl d ↦ absurd (q d.0) | inr d ↦ d ])
    ]
