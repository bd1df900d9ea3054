-- ===== src/Graph/Coverage/Merge.antt =====
-- The merged intervals of a list of coverage values: `CoverageIntervalCursor` and
-- `CoverageIntervals` of src/api/graph/coverage.rs. `BinaryHeap<Reverse<_>>` is a list in
-- ascending order: `peek` and `pop` see its least entry. A result `none` is a panic of an index
-- out of range, or fuel that ran out.
pub mod Numbered
pub mod Cursor
pub mod Heap
pub mod Ready
pub mod Step
pub mod Next
pub mod Stream
pub mod Start
pub mod Yield
use runen_gpu.Base.{
  ℕ, zero, suc, ◌+◌, ◌-◌, ◌*◌, ◌/◌, ◌%◌, Bool, ◌&&◌, ◌||◌, Option, none, some, List, [], ◌∷◌,
  if◌then◌else◌, ◌==◌, ltb, leb, max, length, get_elem?,
}
use runen_gpu.Base.Optional.{◌>>=◌}
use runen_gpu.Access.Range.{GpuBufferRange, buffer_end}
use runen_gpu.Graph.Intervals.{Interval}
use runen_gpu.Graph.Coverage.{GpuBufferStridedCoverage, GpuBufferCoverage, dense, strided}

pub record CoverageIntervalCursor : Type 0 where
  pub coverage : GpuBufferCoverage
  pub next_segment : ℕ

unfoldable pub new_cursor : GpuBufferCoverage → CoverageIntervalCursor
new_cursor coverage = record { coverage = coverage; next_segment = 0 }

-- The segment of a number, counted through the groups.
unfoldable pub numbered_segment : GpuBufferStridedCoverage → ℕ → Interval
numbered_segment c n =
    let group = n / c.segment_count in
    let segment = n % c.segment_count in
    let start = c.first + group * c.group_stride + segment * c.segment_stride in
    (start, start + c.segment_size)

-- `CoverageIntervalCursor::next`: the interval, and `next_segment` afterwards.
unfoldable pub segment_next : GpuBufferCoverage → ℕ → Option Interval × ℕ
unfolding numbered_segment
segment_next (dense range) n =
    if n == 0 then (some (range.offset, buffer_end range), 1) else (none, n)
segment_next (strided c) n =
    if n == c.segment_count * c.group_count then (none, n) else (some (numbered_segment c n), n + 1)

unfoldable pub cursor_next : CoverageIntervalCursor → Option Interval × CoverageIntervalCursor
unfolding segment_next
cursor_next cursor =
    let (found, n) = segment_next cursor.coverage cursor.next_segment in
    (found, record cursor { next_segment = n })

-- An entry of the heap: the start and the end of an interval, and the index of its cursor.
pub record Entry : Type 0 where
  pub start : ℕ
  pub end : ℕ
  pub index : ℕ

pub record CoverageIntervals : Type 0 where
  pub cursors : List CoverageIntervalCursor
  pub next : List Entry

unfoldable pub entry_le : Entry → Entry → Bool
entry_le a b =
    ltb a.start b.start
    || (a.start == b.start && (ltb a.end b.end || (a.end == b.end && leb a.index b.index)))

-- `BinaryHeap::push`.
unfoldable pub push : Entry → List Entry → List Entry
unfolding entry_le
push a [] = a ∷ []
push a (x ∷ xs) = if entry_le a x then a ∷ x ∷ xs else x ∷ push a xs

-- Pushes what a cursor yields, if anything.
unfoldable pub push_found : Option Interval → ℕ → List Entry → List Entry
unfolding push
push_found none index next = next
push_found (some (start, end)) index next =
    push (record { start = start; end = end; index = index }) next

unfoldable pub set_cursor :
    ℕ → CoverageIntervalCursor → List CoverageIntervalCursor → List CoverageIntervalCursor
set_cursor i c [] = []
set_cursor zero c (x ∷ xs) = c ∷ xs
set_cursor (suc i) c (x ∷ xs) = x ∷ set_cursor i c xs

-- `CoverageIntervals::push_next`.
unfoldable pub push_next : CoverageIntervals → ℕ → Option CoverageIntervals
unfolding cursor_next push_found set_cursor
push_next intervals index = do
  cursor ← get_elem? intervals.cursors index
  let step = cursor_next cursor
  some (record {
    cursors = set_cursor index step.1 intervals.cursors;
    next = push_found step.0 index intervals.next;
  })

-- The loop of `CoverageIntervals::new`, over the cursors from an index on.
unfoldable pub start_cursors : ℕ → List GpuBufferCoverage → List Entry → CoverageIntervals
unfolding new_cursor cursor_next push_found
start_cursors index [] next = record { cursors = []; next = next }
start_cursors index (value ∷ values) next =
    let step = cursor_next (new_cursor value) in
    let rest = start_cursors (suc index) values (push_found step.0 index next) in
    record { cursors = step.1 ∷ rest.cursors; next = rest.next }

unfoldable pub new_intervals : List GpuBufferCoverage → CoverageIntervals
unfolding start_cursors
new_intervals values = start_cursors 0 values []

-- The segments that a cursor has yet to yield, and all that the heap and the cursors hold: the
-- fuel of the loop below.
abbrev pub segments_left : GpuBufferCoverage → ℕ → ℕ
segments_left (dense range) n = 1 - n
segments_left (strided c) n = c.segment_count * c.group_count - n

abbrev pub cursors_left : List CoverageIntervalCursor → ℕ
cursors_left [] = 0
cursors_left (c ∷ cs) = segments_left c.coverage c.next_segment + cursors_left cs

abbrev pub intervals_left : CoverageIntervals → ℕ
intervals_left intervals = length intervals.next + cursors_left intervals.cursors

-- The loop of `CoverageIntervals::next`: it takes the entries that start no later than the end.
unfoldable pub absorb :
    ℕ → ℕ → List CoverageIntervalCursor → List Entry → Option (ℕ × CoverageIntervals)
unfolding push_next
absorb zero end cursors next = none
absorb (suc fuel) end cursors [] = some (end, record { cursors = cursors; next = [] })
absorb (suc fuel) end cursors (entry ∷ next) =
    let rest = push_next (record { cursors = cursors; next = next }) entry.index >>= λ after.
    absorb fuel (max end entry.end) after.cursors after.next in
    if leb entry.start end
    then rest
    else some (end, record { cursors = cursors; next = entry ∷ next })

-- `CoverageIntervals::next`, on the heap.
unfoldable pub heap_next :
    List CoverageIntervalCursor → List Entry → Option (Option Interval × CoverageIntervals)
unfolding push_next absorb
heap_next cursors [] = some (none, record { cursors = cursors; next = [] })
heap_next cursors (entry ∷ next) = do
  popped ← push_next (record { cursors = cursors; next = next }) entry.index
  merged ← absorb (suc (intervals_left popped)) entry.end popped.cursors popped.next
  some (some (entry.start, merged.0), merged.1)

unfoldable pub intervals_next : CoverageIntervals → Option (Option Interval × CoverageIntervals)
unfolding heap_next
intervals_next intervals = heap_next intervals.cursors intervals.next
