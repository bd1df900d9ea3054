-- ===== src/Graph/Coverage/Normalize.antt =====
-- `normalize_buffer_coverage` of src/api/graph/coverage.rs. A result `none` is the panic of an
-- `expect`.
pub mod Weight
pub mod Keep
pub mod Sorted
pub mod Laws
use mathlib.Core.Option
use runen_gpu.Base.{
  ℕ, ◌-◌, Bool, true, false, ◌&&◌, ◌||◌, not, Option, none, some, List, [], ◌∷◌, ◌++◌, map,
  if◌then◌else◌, ◌==◌, ltb, any, filter, enumerate, to_option,
}
use runen_gpu.Base.Key.{codes_lt}
use runen_gpu.Base.Optional.{◌>>=◌}
use runen_gpu.Resource.{GpuBufferHandle}
use runen_gpu.Access.Range.{buffer_range, buffer_end}
use runen_gpu.Graph.Intervals.{Interval, normalize_u64_intervals}
use runen_gpu.Graph.Coverage.{
  GpuBufferCoverage, dense, strided, strided_eq, fast_contains, canonical_strided_coverage,
}

unfoldable pub canonical_value : GpuBufferCoverage → Option GpuBufferCoverage
canonical_value (dense range) = some (dense range)
canonical_value (strided coverage) = canonical_strided_coverage coverage

unfoldable pub canonical_values : List GpuBufferCoverage → Option (List GpuBufferCoverage)
unfolding canonical_value
canonical_values [] = some []
canonical_values (v ∷ vs) = do
  canonical ← canonical_value v
  rest ← canonical_values vs
  some (canonical ∷ rest)

-- The dense and the strided values of the list.
abbrev pub dense_intervals : List GpuBufferCoverage → List Interval
dense_intervals [] = []
dense_intervals (dense range ∷ vs) = (range.offset, buffer_end range) ∷ dense_intervals vs
dense_intervals (strided coverage ∷ vs) = dense_intervals vs

abbrev pub strided_values : List GpuBufferCoverage → List GpuBufferCoverage
strided_values [] = []
strided_values (dense range ∷ vs) = strided_values vs
strided_values (strided coverage ∷ vs) = strided coverage ∷ strided_values vs

unfoldable pub dense_values : GpuBufferHandle → List Interval → Option (List GpuBufferCoverage)
dense_values buffer [] = some []
dense_values buffer ((start, end) ∷ intervals) = do
  range ← to_option (buffer_range buffer start (end - start))
  rest ← dense_values buffer intervals
  some (dense range ∷ rest)

-- The derived `Ord`: the variant, and then the fields in order; a handle by its identity.
unfoldable pub coverage_code : GpuBufferCoverage → List ℕ
coverage_code (dense range) = 0 ∷ range.offset ∷ range.size ∷ []
coverage_code (strided c) =
    1 ∷ c.buffer.id.owner_scope ∷ c.buffer.id.local ∷ c.first ∷ c.segment_size ∷ c.segment_stride
    ∷ c.segment_count ∷ c.group_stride ∷ c.group_count ∷ c.end ∷ []

unfoldable pub coverage_lt : GpuBufferCoverage → GpuBufferCoverage → Bool
unfolding coverage_code codes_lt
coverage_lt a b = codes_lt (coverage_code a) (coverage_code b)

unfoldable pub coverage_eq : GpuBufferCoverage → GpuBufferCoverage → Bool
unfolding strided_eq
coverage_eq (dense a) (dense b) = a.offset == b.offset && a.size == b.size
coverage_eq (strided a) (strided b) = strided_eq a b
coverage_eq _ _ = false

-- The stable `sort`.
unfoldable pub insert_coverage : GpuBufferCoverage → List GpuBufferCoverage → List GpuBufferCoverage
unfolding coverage_lt
insert_coverage a [] = a ∷ []
insert_coverage a (x ∷ xs) = if coverage_lt x a then x ∷ insert_coverage a xs else a ∷ x ∷ xs

unfoldable pub sort_coverage : List GpuBufferCoverage → List GpuBufferCoverage
unfolding insert_coverage
sort_coverage [] = []
sort_coverage (x ∷ xs) = insert_coverage x (sort_coverage xs)

-- `dedup`, after a value that is kept.
unfoldable pub dedup_after : GpuBufferCoverage → List GpuBufferCoverage → List GpuBufferCoverage
unfolding coverage_eq
dedup_after kept [] = []
dedup_after kept (x ∷ xs) = elim (coverage_eq kept x) [
  | true ↦ dedup_after kept xs
  | false ↦ x ∷ dedup_after x xs
]

unfoldable pub dedup : List GpuBufferCoverage → List GpuBufferCoverage
unfolding dedup_after
dedup [] = []
dedup (x ∷ xs) = x ∷ dedup_after x xs

abbrev pub Indexed : Type 0
Indexed = ℕ × GpuBufferCoverage

-- The first value makes the second one redundant.
unfoldable pub supersedes : Indexed → Indexed → Bool
unfolding fast_contains
supersedes (other_index, other) (index, value) =
    not (index == other_index)
    && fast_contains other value
    && (not (fast_contains value other) || ltb other_index index)

unfoldable pub is_kept : List Indexed → Indexed → Bool
unfolding supersedes
is_kept normalized value = not (any (λ other. supersedes other value) normalized)

abbrev pub values_of : List Indexed → List GpuBufferCoverage
values_of [] = []
values_of ((index, value) ∷ rest) = value ∷ values_of rest

unfoldable pub drop_redundant : List GpuBufferCoverage → List GpuBufferCoverage
unfolding is_kept
drop_redundant normalized =
    values_of (filter (is_kept (enumerate 0 normalized)) (enumerate 0 normalized))

unfoldable pub normalize_buffer_coverage :
    GpuBufferHandle → List GpuBufferCoverage → Option (List GpuBufferCoverage)
normalize_buffer_coverage buffer values = do
  canonical ← canonical_values values
  ranges ← dense_values buffer (normalize_u64_intervals (dense_intervals canonical))
  some (drop_redundant (dedup (sort_coverage (ranges ++ strided_values canonical))))
