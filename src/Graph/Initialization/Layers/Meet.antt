-- ===== src/Graph/Initialization/Layers/Meet.antt =====
-- The layers that two textures share, and the test that one has the layers of the other.
use mathlib.Core.Logic.Iff
use runen_gpu.Base.{
  ℕ, ◌≡◌, refl, sym, subst, inl, inr, ◌↔◌, true, Option, none, some, List, [], ◌∷◌, all,
  is_some_and, u32_mod,
}
use runen_gpu.Base.Optional.{◌>>=◌}
use runen_gpu.Base.SortedMap.{get}
use runen_gpu.Graph.Intervals.{Interval}
use runen_gpu.Graph.Intervals.Laws.{Covers}
use runen_gpu.Graph.Initialization.{
  Subresource, subresource_key, Layers, layers_contain, intersect_layers, intersect_u32_intervals,
  interval_set_contains_u32,
}
use runen_gpu.Graph.Initialization.Cells.{
  CoversEntry, CoversLayer, IsNormal, NonEmpty, IsLayers, IsFilled,
}
use runen_gpu.Graph.Initialization.Intervals.{contain_all, and_left, and_right}
use runen_gpu.Graph.Initialization.Intervals.Meet.{
  intersect_u32_intervals-Covers, intersect_u32_intervals-IsNormal,
}
use runen_gpu.Graph.Initialization.Layers.{
  NonEmpty-Covers, head_found, tail-IsLayers, tail-IsFilled, CoversLayer-cons,
}
use runen_gpu.Graph.Initialization.Layers.Retain.{
  kept, get-retain_layers, retain_layers-IsLayers, CoversEntry-kept,
}

-- What the intersection keeps of an entry.
abbrev shared : Layers → Subresource → List Interval → List Interval
shared right key left_intervals = elim (get key right) [
  | none ↦ []
  | some right_intervals ↦ intersect_u32_intervals left_intervals right_intervals
]

common_intervals : Option (List Interval) → List Interval → List Interval
common_intervals o xs = elim o [ none ↦ [] | some ys ↦ intersect_u32_intervals xs ys ]

common-IsNormal :
    (o : Option (List Interval)) (xs : List Interval)
    → IsNormal xs
    → IsNormal (common_intervals o xs)
unfolding common_intervals
common-IsNormal none xs n = (tt, tt)
common-IsNormal (some ys) xs n = intersect_u32_intervals-IsNormal xs ys n

common-CoversEntry :
    (o l : Option (List Interval)) (p : ℕ)
    → CoversEntry (l >>= λ xs. kept (common_intervals o xs)) p ↔ (CoversEntry l p × CoversEntry o p)
unfolding common_intervals
common-CoversEntry o none p = (λ c. absurd c, λ c. c.0)
common-CoversEntry none (some xs) p = (λ c. absurd c, λ c. c.1)
common-CoversEntry (some ys) (some xs) p =
    Iff.trans (CoversEntry-kept (intersect_u32_intervals xs ys) p)
      (intersect_u32_intervals-Covers xs ys p)

-- The intersection covers what both sides cover, and has no empty entry.
pub intersect_layers-CoversLayer :
    (left right : Layers)
    → IsLayers left
    → (IsLayers (intersect_layers left right) × IsFilled (intersect_layers left right))
      × ((k : Subresource) (p : ℕ)
          → CoversLayer (intersect_layers left right) k p
            ↔ (CoversLayer left k p × CoversLayer right k p))
unfolding intersect_layers common_intervals
intersect_layers-CoversLayer left right v = (
  retain_layers-IsLayers (shared right) left v.distinct
      (λ k xs e. common-IsNormal (get k right) xs (v.normal k xs e)),
  λ k p.
      rw (get-retain_layers (shared right) k left v.distinct)
        (common-CoversEntry (get k right) (get k left) p),
)

-- The test asks whether one side covers what the other does.
entry_contained :
    (o : Option (List Interval)) (xs : List Interval)
    → ((hs : List Interval) → o ≡ some hs → IsNormal hs)
    → IsNormal xs
    → NonEmpty xs
    → (is_some_and o (λ hs. all (interval_set_contains_u32 hs) xs) ≡ true)
      ↔ ((p : ℕ) → Covers xs p → CoversEntry o p)
entry_contained none xs h n full =
    (λ e. cc, λ k. let (p, c) = NonEmpty-Covers u32_mod xs n.1 full in absurd (k p c))
entry_contained (some hs) xs h n full = contain_all hs xs (h hs refl) n.1

pub layers_contain_iff :
    (have required : Layers)
    → IsLayers have
    → IsLayers required
    → IsFilled required
    → (layers_contain have required ≡ true)
      ↔ ((k : Subresource) (p : ℕ) → CoversLayer required k p → CoversLayer have k p)
unfolding layers_contain get
layers_contain_iff have [] v w full = (λ e k p c. absurd c, λ h. refl)
layers_contain_iff have ((key, xs) ∷ required) v w full =
    let found = head_found key xs required in
    let first =
      entry_contained (get key have) xs (v.normal key) (w.normal key xs found)
        (full key xs found) in
    let rest =
      layers_contain_iff have required v (tail-IsLayers key xs required w)
        (tail-IsFilled key xs required w full) in
    let cons = CoversLayer-cons key xs required w in
    (
      λ e k p c. elim ((cons k p).0 c) [
        | inl d ↦ subst (λ j. CoversLayer have j p) (sym d.0) (first.0 (and_left _ _ e) p d.1)
        | inr d ↦ rest.0 (and_right _ _ e) k p d
      ],
      λ h. cc (
        first.1 (λ p c. h key p ((cons key p).1 (inl (refl, c)))),
        rest.1 (λ k p c. h k p ((cons k p).1 (inr c))),
      ),
    )
