-- ===== src/Examples/Initialization.antt =====
-- Initialized coverage of the layers of a small texture, and of queries.
use runen_gpu.Base.{
  ℕ, ◌≡◌, refl, inl, inr, ◌⊎◌, ◌↔◌, ◌≤◌, ◌<◌, sym, subst, Bool, true, some, arith, List, [], ◌∷◌,
}
use runen_gpu.Texture.Aspect.{GpuTextureAspect, aspect_code}
use runen_gpu.Base.SortedMap.{get, modify}
use runen_gpu.Base.Key.{key_eq, key_eq_cases}
use runen_gpu.Graph.Intervals.{Interval, normalize_u32_intervals}
use runen_gpu.Graph.Initialization.{
  Subresource, subresource_key, Layers, InitializedCoverage, query, union, contains, remove,
  intersect_coverage, subtract_layers, retain_layers,
}
use runen_gpu.Graph.Initialization.Cells.{
  Cell, Initializes, IsWellFormed, Comparable, Discardable, IsNormal, NonEmpty,
}
use runen_gpu.Graph.Initialization.Laws.{
  Yields, Represents, union-Initializes, intersect_coverage-Initializes, remove-Initializes,
}
use runen_gpu.Graph.Initialization.Containment.{contains_iff}

abbrev depth_layers : Layers
depth_layers = ((0, GpuTextureAspect.depth_only), (0, 4) ∷ []) ∷ []

abbrev middle_layers : Layers
middle_layers = ((0, GpuTextureAspect.depth_only), (1, 3) ∷ []) ∷ []

abbrev depth_coverage : InitializedCoverage
depth_coverage = InitializedCoverage.texture depth_layers

abbrev middle : InitializedCoverage
middle = InitializedCoverage.texture middle_layers

one_interval-IsNormal : (a b : ℕ) → a < b → b ≤ 4 → IsNormal ((a, b) ∷ [])
one_interval-IsNormal a b h k = ((λ y m. absurd m, tt), ((h, omega arith), tt))

-- Removing the middle layers leaves the first and the last.
middle_removed : remove depth_coverage middle ≡ (
  true,
  InitializedCoverage.texture (((0, GpuTextureAspect.depth_only), (0, 1) ∷ (3, 4) ∷ []) ∷ []),
)
unfolding remove subtract_layers retain_layers modify key_eq aspect_code
middle_removed = refl

-- Two parts of the queries that touch are one.
queries_joined :
    union (query ((0, 2) ∷ [])) (query ((2, 5) ∷ [])) ≡ some (true, query ((0, 5) ∷ []))
unfolding union normalize_u32_intervals
queries_joined = refl

queries_contained : contains (query ((0, 5) ∷ [])) (query ((1, 2) ∷ (2, 5) ∷ [])) ≡ some true
unfolding contains
queries_contained = refl

module _ (key : Subresource) (xs : List Interval) where
  only_entry : (k : Subresource) (ys : List Interval) → get k ((key, xs) ∷ []) ≡ some ys → ys ≡ xs
  unfolding get
  only_entry k ys e = elim (key_eq_cases k key) [ inl (h, q) ↦ cc (e, h) | inr (h, q) ↦ cc (e, h) ]

  one_entry-IsWellFormed :
      IsNormal xs → NonEmpty xs → IsWellFormed (InitializedCoverage.texture ((key, xs) ∷ []))
  one_entry-IsWellFormed n full = (
    record {
      distinct = (λ m. absurd m, tt);
      normal = λ k ys e. subst IsNormal (sym (only_entry k ys e)) n;
    },
    λ k ys e. subst NonEmpty (sym (only_entry k ys e)) full,
  )

depth_coverage-IsWellFormed : IsWellFormed depth_coverage
depth_coverage-IsWellFormed =
    one_entry-IsWellFormed (0, GpuTextureAspect.depth_only) ((0, 4) ∷ [])
      (one_interval-IsNormal 0 4 (omega arith) (omega arith)) tt

middle-IsWellFormed : IsWellFormed middle
middle-IsWellFormed =
    one_entry-IsWellFormed (0, GpuTextureAspect.depth_only) ((1, 3) ∷ [])
      (one_interval-IsNormal 1 3 (omega arith) (omega arith)) tt

both_depth : Comparable depth_coverage middle
both_depth = Comparable.textures depth_layers middle_layers

union-Initializes_example :
    Yields depth_coverage
      (union depth_coverage middle)
      (λ cell. Initializes depth_coverage cell ⊎ Initializes middle cell)
union-Initializes_example =
    union-Initializes both_depth depth_coverage-IsWellFormed middle-IsWellFormed

intersect_coverage-Initializes_example :
    Yields depth_coverage
      (intersect_coverage depth_coverage middle)
      (λ cell. Initializes depth_coverage cell × Initializes middle cell)
intersect_coverage-Initializes_example =
    intersect_coverage-Initializes both_depth depth_coverage-IsWellFormed middle-IsWellFormed

remove-Initializes_example :
    ((remove depth_coverage middle).0 ≡ true)
    × Represents depth_coverage
        (remove depth_coverage middle).1
        (λ cell. Initializes depth_coverage cell × (¬ Initializes middle cell))
remove-Initializes_example =
    remove-Initializes (Discardable.textures depth_layers middle_layers) depth_coverage-IsWellFormed
      middle-IsWellFormed

contains_iff_example :
    (answer : Bool) × (contains depth_coverage middle ≡ some answer)
    × ((answer ≡ true)
        ↔ ((cell : Cell) → Initializes middle cell → Initializes depth_coverage cell))
contains_iff_example = contains_iff both_depth depth_coverage-IsWellFormed middle-IsWellFormed
