-- ===== src/Graph/Coverage/Intersect.antt =====
-- `intersect_buffer_coverage` of src/api/graph/coverage.rs. A result `none` is a panic, or fuel
-- that ran out.
pub mod Meet
pub mod Laws
use runen_gpu.Base.{
  ℕ, zero, suc, ◌-◌, Bool, Option, none, some, List, [], ◌∷◌, ◌++◌, if◌then◌else◌, ltb, leb, max,
  min, to_option,
}
use runen_gpu.Base.Optional.{◌>>=◌}
use runen_gpu.Resource.{GpuBufferHandle}
use runen_gpu.Access.Range.{buffer_range}
use runen_gpu.Graph.Intervals.{Interval}
use runen_gpu.Graph.Coverage.{GpuBufferCoverage, dense}
use runen_gpu.Graph.Coverage.Merge.{CoverageIntervals, new_intervals, intervals_next}
use runen_gpu.Graph.Coverage.Contains.{coverage_bound, buffer_coverage_contains}
use runen_gpu.Graph.Coverage.Normalize.{normalize_buffer_coverage}

-- What a round pushes for the common part of two intervals.
unfoldable pub common_range :
    GpuBufferHandle → Interval → Interval → Option (List GpuBufferCoverage)
common_range buffer left right =
    let start = max left.0 right.0 in
    let end = min left.1 right.1 in
    let pushed =
      to_option (buffer_range buffer start (end - start)) >>= λ range. some (dense range ∷ []) in
    if ltb start end then pushed else some []

-- The next interval, if the one in hand ends no later than the other.
unfoldable pub next_if :
    Bool → Interval → CoverageIntervals → Option (Option Interval × CoverageIntervals)
next_if ended interval intervals =
    if ended then intervals_next intervals else some (some interval, intervals)

unfoldable pub meet_intervals :
    ℕ
    → GpuBufferHandle
    → Option Interval
    → CoverageIntervals
    → Option Interval
    → CoverageIntervals
    → Option (List GpuBufferCoverage)
unfolding common_range next_if
meet_intervals zero buffer left left_intervals right right_intervals = none
meet_intervals (suc fuel) buffer none left_intervals right right_intervals = some []
meet_intervals (suc fuel) buffer (some left) left_intervals none right_intervals = some []
meet_intervals (suc fuel) buffer (some left) left_intervals (some right) right_intervals = do
  pushed ← common_range buffer left right
  left_step ← next_if (leb left.1 right.1) left left_intervals
  right_step ← next_if (leb right.1 left.1) right right_intervals
  rest ← meet_intervals fuel buffer left_step.0 left_step.1 right_step.0 right_step.1
  some (pushed ++ rest)

-- The two sides through their intervals.
unfoldable pub meet_all :
    GpuBufferHandle
    → List GpuBufferCoverage
    → List GpuBufferCoverage
    → Option (List GpuBufferCoverage)
meet_all buffer left right = do
  left_step ← intervals_next (new_intervals left)
  right_step ← intervals_next (new_intervals right)
  meet_intervals (coverage_bound (new_intervals left) (new_intervals right)) buffer left_step.0
      left_step.1 right_step.0 right_step.1

unfoldable pub intersect_buffer_coverage :
    GpuBufferHandle
    → List GpuBufferCoverage
    → List GpuBufferCoverage
    → Option (List GpuBufferCoverage)
intersect_buffer_coverage buffer left right =
    let met = meet_all buffer left right >>= λ ranges. normalize_buffer_coverage buffer ranges in
    let other = buffer_coverage_contains right left >>= λ left_inside.
    if left_inside then normalize_buffer_coverage buffer left else met in
    buffer_coverage_contains left right >>= λ right_inside.
    if right_inside then normalize_buffer_coverage buffer right else other
