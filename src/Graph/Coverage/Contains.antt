-- ===== src/Graph/Coverage/Contains.antt =====
-- `buffer_coverage_contains` of src/api/graph/coverage.rs. A result `none` is a panic of the
-- iterators or fuel that ran out.
pub mod Advance
pub mod Stretch
pub mod Laws
use runen_gpu.Base.{
  ℕ, zero, suc, ◌+◌, Bool, true, false, Option, none, some, List, if◌then◌else◌, ltb, leb, min, all,
  any, is_some_and,
}
use runen_gpu.Base.Optional.{◌>>=◌}
use runen_gpu.Graph.Intervals.{Interval}
use runen_gpu.Graph.Coverage.{GpuBufferCoverage, fast_contains}
use runen_gpu.Graph.Coverage.Merge.{
  CoverageIntervals, new_intervals, intervals_next, intervals_left,
}

-- The innermost loop: intervals that end before the cursor are skipped.
unfoldable pub advance :
    ℕ → ℕ → Option Interval → CoverageIntervals → Option (Option Interval × CoverageIntervals)
unfolding intervals_next
advance zero cursor available intervals = none
advance (suc fuel) cursor available intervals =
    let rest = intervals_next intervals >>= λ step. advance fuel cursor step.0 step.1 in
    if is_some_and available (λ interval. leb interval.1 cursor)
    then rest
    else some (available, intervals)

-- Whether the interval from the cursor to its end is covered, and where the iterator stands then.
abbrev pub Covered : Type 0
Covered = Bool × Option Interval × CoverageIntervals

-- The body of the middle loop after the skipping; `again` is the next round from a cursor on.
unfoldable pub cover_step :
    (ℕ → Option Interval → CoverageIntervals → Option Covered)
    → ℕ
    → ℕ
    → Option Interval
    → CoverageIntervals
    → Option Covered
cover_step again cursor end none intervals = some (false, none, intervals)
cover_step again cursor end (some interval) intervals =
    if ltb cursor interval.0
    then some (false, some interval, intervals)
    else again (min interval.1 end) (some interval) intervals

-- The middle loop; `bound` is the fuel of the innermost one.
unfoldable pub cover_interval : ℕ → ℕ → ℕ → ℕ → Option Interval → CoverageIntervals → Option Covered
unfolding advance cover_step
cover_interval zero bound cursor end available intervals = none
cover_interval (suc fuel) bound cursor end available intervals =
    let body = advance bound cursor available intervals >>= λ step.
    cover_step (λ next. cover_interval fuel bound next end) cursor end step.0 step.1 in
    if ltb cursor end then body else some (true, available, intervals)

-- The rest of the outer loop, on what the iterator over the required values yields.
unfoldable pub require_step :
    (CoverageIntervals → Option Interval → CoverageIntervals → Option Bool)
    → ℕ
    → Option Interval
    → CoverageIntervals
    → Option Interval
    → CoverageIntervals
    → Option Bool
unfolding cover_interval
require_step again bound none required available intervals = some true
require_step again bound (some interval) required available intervals = do
  covered ← cover_interval bound bound interval.0 interval.1 available intervals
  if covered.0 then again required covered.1 covered.2 else some false

unfoldable pub require_all :
    ℕ → ℕ → CoverageIntervals → Option Interval → CoverageIntervals → Option Bool
unfolding intervals_next require_step
require_all zero bound required available intervals = none
require_all (suc fuel) bound required available intervals = do
  step ← intervals_next required
  require_step (require_all fuel bound) bound step.0 step.1 available intervals

-- The fuel of the three loops: more than all the intervals of both sides.
abbrev pub coverage_bound : CoverageIntervals → CoverageIntervals → ℕ
coverage_bound available required = intervals_left available + intervals_left required + 3

unfoldable pub buffer_coverage_contains :
    List GpuBufferCoverage → List GpuBufferCoverage → Option Bool
buffer_coverage_contains have required =
    let bound = coverage_bound (new_intervals have) (new_intervals required) in
    let slow = intervals_next (new_intervals have) >>= λ step.
    require_all bound bound (new_intervals required) step.0 step.1 in
    if all (λ value. any (λ coverage. fast_contains coverage value) have) required
    then some true
    else slow
