-- ===== src/Graph/Initialization/Laws.antt =====
-- The operations on initialized coverage are those on the sets of cells it stands for.
use mathlib.Core.Logic.Iff
use runen_gpu.Base.{
  ℕ, ◌≡◌, refl, inl, ◌⊎◌, ◌↔◌, Bool, true, ◌++◌, Option, some, arith, List, [], ◌∷◌, u32_mod,
}
use runen_gpu.Base.Key.{key_eq_refl}
use runen_gpu.Resource.{resource_id_key}
use runen_gpu.Graph.Intervals.{normalize_u32_intervals}
use runen_gpu.Graph.Intervals.Laws.{Covers-append}
use runen_gpu.Graph.Intervals.Fits.{Fits, All-append}
use runen_gpu.Graph.Coverage.{GpuBufferCoverage}
use runen_gpu.Graph.Coverage.Bytes.{CoversAny, IsCoverageOf}
use runen_gpu.Graph.Coverage.Normalize.Laws.{normalize_buffer_coverage-CoversAny}
use runen_gpu.Graph.Coverage.Intersect.Laws.{intersect_buffer_coverage-CoversAny}
use runen_gpu.Graph.Initialization.{
  Subresource, InitializedCoverage, query, immutable, union, remove, intersect_coverage,
  extend_layers, intersect_layers, intersect_u32_intervals,
}
use runen_gpu.Graph.Initialization.Cells.{
  Cell, byte, layer, index, whole, Initializes, IsWellFormed, Comparable, buffers, immutables,
  Discardable,
}
use runen_gpu.Graph.Initialization.Intervals.Subtract.{subtract_all-Covers, subtract_all-IsNormal}
use runen_gpu.Graph.Initialization.Intervals.Meet.{
  intersect_u32_intervals-Covers, intersect_u32_intervals-IsNormal, normalize_u32_intervals-Covers,
  normalize_u32_intervals-IsNormal,
}
use runen_gpu.Graph.Initialization.Layers.Union.{extend_layers-CoversLayer}
use runen_gpu.Graph.Initialization.Layers.Subtract.{remove_layers-CoversLayer}
use runen_gpu.Graph.Initialization.Layers.Meet.{intersect_layers-CoversLayer}

-- A well-formed value of the kind of `like` that initializes the cells for which `P` holds.
abbrev pub Represents : InitializedCoverage → InitializedCoverage → (Cell → Type 0) → Type 0
Represents like value P =
    Comparable like value × (IsWellFormed value × ((cell : Cell) → Initializes value cell ↔ P cell))

-- The operation succeeds with a value that initializes the cells for which `P` holds.
abbrev pub Yields :
    InitializedCoverage → Option (Bool × InitializedCoverage) → (Cell → Type 0) → Type 0
Yields like result P =
    (value : InitializedCoverage) × (result ≡ some (true, value)) × Represents like value P

CoversAny-append :
    (xs ys : List GpuBufferCoverage) (p : ℕ)
    → CoversAny (xs ++ ys) p ↔ (CoversAny xs p ⊎ CoversAny ys p)
CoversAny-append [] ys p = ground arith
CoversAny-append (x ∷ xs) ys p = ground (arith, CoversAny-append xs ys p)

every_cell :
    (I P : Cell → Type 0)
    → ((p : ℕ) → I (byte p) ↔ P (byte p))
    → ((k : Subresource) (p : ℕ) → I (layer k p) ↔ P (layer k p))
    → ((p : ℕ) → I (index p) ↔ P (index p))
    → (I whole ↔ P whole)
    → (cell : Cell) → I cell ↔ P cell
every_cell I P b l i w (byte p) = b p
every_cell I P b l i w (layer k p) = l k p
every_cell I P b l i w (index p) = i p
every_cell I P b l i w whole = w

no_either : ⊥ ↔ (⊥ ⊎ ⊥)
no_either = ground arith

no_both : ⊥ ↔ (⊥ × ⊥)
no_both = ground arith

no_difference : ⊥ ↔ (⊥ × (¬ ⊥))
no_difference = ground arith

-- Well-formed coverages of one kind, and of one buffer, are united without a panic to a well-formed one
-- of that kind that initializes exactly what one of them does.
pub union-Initializes :
    {left right : InitializedCoverage}
    → Comparable left right
    → IsWellFormed left
    → IsWellFormed right
    → Yields left (union left right) (λ cell. Initializes left cell ⊎ Initializes right cell)
unfolding union
union-Initializes (buffers a xs ys) v w =
    let (after, e, valid, same) =
      normalize_buffer_coverage-CoversAny a v.0 (xs ++ ys)
        (All-append (IsCoverageOf a) xs ys v.1 w.1) in
    (
      InitializedCoverage.buffer a after,
      rw (key_eq_refl a.id, e) refl,
      (
        buffers a xs after,
        (
          (v.0, valid),
          every_cell _ _ (λ p. Iff.trans (same p) (CoversAny-append xs ys p)) (λ k p. no_either)
              (λ p. no_either) no_either,
        ),
      ),
    )
union-Initializes (Comparable.textures left right) v w =
    let (valid, same) = extend_layers-CoversLayer left right v w in
    (
      InitializedCoverage.texture (extend_layers left right),
      refl,
      (
        Comparable.textures left (extend_layers left right),
        (valid, every_cell _ _ (λ p. no_either) same (λ p. no_either) no_either),
      ),
    )
union-Initializes (Comparable.queries left right) v w = (
  query (normalize_u32_intervals (left ++ right)),
  refl,
  (
    Comparable.queries left (normalize_u32_intervals (left ++ right)),
    (
      normalize_u32_intervals-IsNormal (left ++ right)
          (All-append (Fits u32_mod) left right v.1 w.1),
      every_cell _ _ (λ p. no_either) (λ k p. no_either)
          (λ p.
            Iff.trans (normalize_u32_intervals-Covers (left ++ right) p)
              (Covers-append left right p))
          no_either,
    ),
  ),
)
union-Initializes immutables v w = (
  immutable,
  refl,
  (
    immutables,
    (
      tt,
      every_cell _ _ (λ p. no_either) (λ k p. no_either) (λ p. no_either) (λ h. inl tt, λ h. tt),
    ),
  ),
)

-- Well-formed coverages of one kind, and of one buffer, are intersected without a panic to a
-- well-formed one of that kind that initializes exactly what both of them do.
pub intersect_coverage-Initializes :
    {left right : InitializedCoverage}
    → Comparable left right
    → IsWellFormed left
    → IsWellFormed right
    → Yields left
        (intersect_coverage left right)
        (λ cell. Initializes left cell × Initializes right cell)
unfolding intersect_coverage
intersect_coverage-Initializes (buffers a xs ys) v w =
    let (after, e, valid, same) = intersect_buffer_coverage-CoversAny a v.0 xs ys v.1 w.1 in
    (
      InitializedCoverage.buffer a after,
      rw (key_eq_refl a.id, e) refl,
      (
        buffers a xs after,
        ((v.0, valid), every_cell _ _ same (λ k p. no_both) (λ p. no_both) no_both),
      ),
    )
intersect_coverage-Initializes (Comparable.textures left right) v w =
    let (valid, same) = intersect_layers-CoversLayer left right v.0 in
    (
      InitializedCoverage.texture (intersect_layers left right),
      refl,
      (
        Comparable.textures left (intersect_layers left right),
        (valid, every_cell _ _ (λ p. no_both) same (λ p. no_both) no_both),
      ),
    )
intersect_coverage-Initializes (Comparable.queries left right) v w = (
  query (intersect_u32_intervals left right),
  refl,
  (
    Comparable.queries left (intersect_u32_intervals left right),
    (
      intersect_u32_intervals-IsNormal left right v,
      every_cell _ _ (λ p. no_both) (λ k p. no_both) (intersect_u32_intervals-Covers left right)
          no_both,
    ),
  ),
)
intersect_coverage-Initializes immutables v w = (
  immutable,
  refl,
  (
    immutables,
    (tt, every_cell _ _ (λ p. no_both) (λ k p. no_both) (λ p. no_both) (λ h. (tt, tt), λ h. tt)),
  ),
)

-- A removal from the layers of a texture or from queries, both sides well-formed, succeeds: what it
-- leaves is well-formed and initializes exactly what the removed coverage does not.
pub remove-Initializes :
    {have removed : InitializedCoverage}
    → Discardable have removed
    → IsWellFormed have
    → IsWellFormed removed
    → ((remove have removed).0 ≡ true)
      × Represents have
          (remove have removed).1
          (λ cell. Initializes have cell × (¬ Initializes removed cell))
unfolding remove
remove-Initializes (Discardable.textures have removed) v w =
    let (valid, same) = remove_layers-CoversLayer have removed v.0 w.0 in
    (
      refl,
      (
        Comparable.textures have _,
        (valid, every_cell _ _ (λ p. no_difference) same (λ p. no_difference) no_difference),
      ),
    )
remove-Initializes (Discardable.queries have removed) v w = (
  refl,
  (
    Comparable.queries have _,
    (
      subtract_all-IsNormal have removed v w.1,
      every_cell _ _ (λ p. no_difference) (λ k p. no_difference) (subtract_all-Covers have removed)
          no_difference,
    ),
  ),
)
