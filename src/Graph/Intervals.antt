-- ===== src/Graph/Intervals.antt =====
-- Normal forms of lists of intervals: `normalize_u64_intervals` and `normalize_u32_intervals` of
-- src/api/graph/coverage.rs.
pub mod Sorting
pub mod Laws
pub mod Fits
use runen_gpu.Base.{ℕ, Bool, ◌&&◌, ◌||◌, List, [], ◌∷◌, ◌++◌, if◌then◌else◌, ◌==◌, ltb, leb, max}

abbrev pub Interval : Type 0
Interval = ℕ × ℕ

-- The order of pairs, by which `sort_unstable` sorts.
abbrev pub pair_le : Interval → Interval → Bool
pair_le (start, stop) (s, e) = ltb start s || (start == s && leb stop e)

unfoldable pub insert_interval : Interval → List Interval → List Interval
insert_interval a [] = a ∷ []
insert_interval a (x ∷ xs) = if pair_le a x then a ∷ x ∷ xs else x ∷ insert_interval a xs

unfoldable pub sort_unstable : List Interval → List Interval
unfolding insert_interval
sort_unstable [] = []
sort_unstable (x ∷ xs) = insert_interval x (sort_unstable xs)

-- One round of the loop; the last interval of `normalized` is the first of the list.
unfoldable pub merge_interval : Interval → List Interval → List Interval
merge_interval (start, stop) [] = (start, stop) ∷ []
merge_interval (start, stop) ((s, e) ∷ rest) =
    if leb start e then (s, max e stop) ∷ rest else (start, stop) ∷ (s, e) ∷ rest

unfoldable pub merge_intervals : List Interval → List Interval → List Interval
unfolding merge_interval
merge_intervals [] normalized = normalized
merge_intervals (x ∷ xs) normalized = merge_intervals xs (merge_interval x normalized)

abbrev pub reversed : List Interval → List Interval
reversed [] = []
reversed (x ∷ xs) = reversed xs ++ x ∷ []

unfoldable pub normalize_u64_intervals : List Interval → List Interval
unfolding sort_unstable merge_intervals
normalize_u64_intervals intervals = reversed (merge_intervals (sort_unstable intervals) [])

unfoldable pub normalize_u32_intervals : List Interval → List Interval
unfolding sort_unstable merge_intervals
normalize_u32_intervals intervals = reversed (merge_intervals (sort_unstable intervals) [])
