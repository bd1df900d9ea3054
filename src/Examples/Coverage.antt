-- ===== src/Examples/Coverage.antt =====
-- Coverage of a small buffer: a padded copy of four rows of four bytes each.
use runen_gpu.Base.{
  ℕ, ◌≡◌, refl, ◌↔◌, ◌≤◌, Bool, true, false, List, [], ◌∷◌, some, ok, arith, length, inl, All,
}
use runen_gpu.Graph.Intervals.{Interval, normalize_u64_intervals}
use runen_gpu.Graph.Intervals.Laws.{Covers, Separate}
use runen_gpu.Graph.Coverage.{
  GpuBufferStridedCoverage, GpuBufferCoverage, dense, strided, strided_coverage, fast_contains,
  canonical_strided_coverage,
}
use runen_gpu.Graph.Coverage.Bytes.{
  HasStridedByte, CoversByte, CoversAny, IsCanonical, IsStrided, IsCoverageOf, FitsBuffer,
  requested, strided_coverage_iff,
}
use runen_gpu.Graph.Coverage.Canonical.{canonical_strided_coverage-CoversByte}
use runen_gpu.Graph.Coverage.Merge.{new_intervals, intervals_next, intervals_left}
use runen_gpu.Graph.Coverage.Merge.Stream.{Drains, Proper}
use runen_gpu.Graph.Coverage.Merge.Yield.{new_intervals-Drains}
use runen_gpu.Graph.Coverage.Contains.{require_all, buffer_coverage_contains}
use runen_gpu.Graph.Coverage.Contains.Laws.{buffer_coverage_contains_iff}
use runen_gpu.Graph.Coverage.Normalize.{
  normalize_buffer_coverage, canonical_values, dense_values, drop_redundant, dedup, sort_coverage,
}
use runen_gpu.Graph.Coverage.Normalize.Laws.{normalize_buffer_coverage-CoversAny}
use runen_gpu.Graph.Coverage.Intersect.{meet_intervals, meet_all, intersect_buffer_coverage}
use runen_gpu.Graph.Coverage.Intersect.Laws.{intersect_buffer_coverage-CoversAny}
use runen_gpu.Examples.Data.{vertices}

abbrev rows : GpuBufferStridedCoverage
rows = requested vertices 0 4 16 4 0 1

abbrev front : GpuBufferCoverage
front = dense (record { offset = 0; size = 8 })

abbrev back : GpuBufferCoverage
back = dense (record { offset = 8; size = 8 })

abbrev across : GpuBufferCoverage
across = dense (record { offset = 4; size = 8 })

rows-IsStrided : IsStrided rows
rows-IsStrided = record {
  size_pos = omega arith;
  count_pos = omega arith;
  groups_pos = omega arith;
  size-le-stride = omega arith;
  groups_apart = inl (omega arith);
  end_eq = omega arith;
  inside = omega arith;
}

front-IsCoverageOf : IsCoverageOf vertices front
front-IsCoverageOf = record { nonempty = omega arith; inside = omega arith }

back-IsCoverageOf : IsCoverageOf vertices back
back-IsCoverageOf = record { nonempty = omega arith; inside = omega arith }

across-IsCoverageOf : IsCoverageOf vertices across
across-IsCoverageOf = record { nonempty = omega arith; inside = omega arith }

-- Two ranges that touch contain a range across their border, which neither contains.
touching_ranges : buffer_coverage_contains (front ∷ back ∷ []) (across ∷ []) ≡ some true
unfolding buffer_coverage_contains fast_contains new_intervals intervals_next require_all
touching_ranges = refl

-- The padding between the rows is not covered.
padding : buffer_coverage_contains (strided rows ∷ []) (front ∷ []) ≡ some false
unfolding buffer_coverage_contains fast_contains new_intervals intervals_next require_all
padding = refl

buffer_coverage_contains_iff_example :
    (answer : Bool) × (buffer_coverage_contains (front ∷ back ∷ []) (across ∷ []) ≡ some answer)
    × ((answer ≡ true)
        ↔ ((byte : ℕ) → CoversAny (across ∷ []) byte → CoversAny (front ∷ back ∷ []) byte))
buffer_coverage_contains_iff_example =
    buffer_coverage_contains_iff vertices (front ∷ back ∷ [])
      (front-IsCoverageOf, (back-IsCoverageOf, tt)) (across ∷ []) (across-IsCoverageOf, tt)

new_intervals-Drains_example :
    (xs : List Interval) × Drains (new_intervals (strided rows ∷ across ∷ [])) xs
    × (length xs ≤ intervals_left (new_intervals (strided rows ∷ across ∷ [])))
    × Separate xs
    × Proper xs
    × ((byte : ℕ) → Covers xs byte ↔ CoversAny (strided rows ∷ across ∷ []) byte)
new_intervals-Drains_example =
    new_intervals-Drains vertices (strided rows ∷ across ∷ [])
      ((refl, rows-IsStrided), (across-IsCoverageOf, tt))

canonical_strided_coverage-CoversByte_example :
    (value : GpuBufferCoverage) × (canonical_strided_coverage rows ≡ some value)
    × IsCoverageOf vertices value
    × IsCanonical value
    × ((byte : ℕ) → CoversByte value byte ↔ HasStridedByte rows byte)
canonical_strided_coverage-CoversByte_example =
    canonical_strided_coverage-CoversByte rows rows-IsStrided (omega arith)

strided_coverage_iff_example :
    (strided_coverage vertices 0 4 16 4 0 1 ≡ ok rows) ↔ FitsBuffer vertices 0 4 16 4 0 1
strided_coverage_iff_example = strided_coverage_iff vertices 0 4 16 4 0 1 (omega arith)

-- The two ranges lie between the first row and the second.
rows_across : intersect_buffer_coverage vertices (strided rows ∷ []) (across ∷ back ∷ []) ≡ some []
unfolding intersect_buffer_coverage buffer_coverage_contains fast_contains new_intervals
    intervals_next require_all meet_all meet_intervals normalize_buffer_coverage canonical_values
    dense_values normalize_u64_intervals drop_redundant dedup sort_coverage
rows_across = refl

normalize_buffer_coverage-CoversAny_example :
    (normalized : List GpuBufferCoverage) × (normalize_buffer_coverage vertices
        (front ∷ strided rows ∷ across ∷ [])
      ≡ some normalized)
    × All (IsCoverageOf vertices) normalized
    × ((byte : ℕ) → CoversAny normalized byte ↔ CoversAny (front ∷ strided rows ∷ across ∷ []) byte)
normalize_buffer_coverage-CoversAny_example =
    normalize_buffer_coverage-CoversAny vertices (omega arith) (front ∷ strided rows ∷ across ∷ [])
      (front-IsCoverageOf, ((refl, rows-IsStrided), (across-IsCoverageOf, tt)))

intersect_buffer_coverage-CoversAny_example :
    (met : List GpuBufferCoverage) × (intersect_buffer_coverage vertices
        (strided rows ∷ [])
        (across ∷ back ∷ [])
      ≡ some met)
    × All (IsCoverageOf vertices) met
    × ((byte : ℕ)
        → CoversAny met byte
          ↔ (CoversAny (strided rows ∷ []) byte × CoversAny (across ∷ back ∷ []) byte))
intersect_buffer_coverage-CoversAny_example =
    intersect_buffer_coverage-CoversAny vertices (omega arith) (strided rows ∷ [])
      (across ∷ back ∷ []) ((refl, rows-IsStrided), tt)
      (across-IsCoverageOf, (back-IsCoverageOf, tt))
