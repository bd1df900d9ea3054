-- ===== src/Graph/Coverage/Merge/Ready.antt =====
-- The invariant of the heap and its cursors, and the bytes that they still stand for.
use runen_gpu.Base.{
  ℕ, suc, ◌≤◌, ◌<◌, ◌≡◌, refl, sym, ap, subst, ◌⊎◌, inl, inr, Option, some, none, List, [], ◌∷◌, In,
  get_elem?,
}
use runen_gpu.Resource.{GpuBufferHandle}
use runen_gpu.Graph.Intervals.{Interval}
use runen_gpu.Graph.Coverage.Bytes.{IsCoverageOf}
use runen_gpu.Graph.Coverage.Merge.{
  CoverageIntervalCursor, CoverageIntervals, Entry, push_next, segments_left, intervals_left,
}
use runen_gpu.Graph.Coverage.Merge.Cursor.{rest}
use runen_gpu.Graph.Coverage.Merge.Heap.{EntriesAscend}

abbrev pub cursor_rest : CoverageIntervalCursor → List Interval
cursor_rest c = rest c.coverage c.next_segment

-- What is left of the cursor of an index waits behind an entry of that index.
pub record IsWaiting (next : List Entry) (index : ℕ) (y : Interval) : Type 0 where
  pub entry : Entry
  pub entry_in : In entry next
  pub index_eq : entry.index ≡ index
  pub start_le : entry.start ≤ y.0

pub record IsReady (buffer : GpuBufferHandle) (cursors : List CoverageIntervalCursor)
    (next : List Entry) : Type 0 where
  pub valid :
      (i : ℕ) (c : CoverageIntervalCursor)
      → get_elem? cursors i ≡ some c
      → IsCoverageOf buffer c.coverage × (c.next_segment ≤ segments_left c.coverage 0)
  pub ascend : EntriesAscend next
  pub entries :
      (e : Entry)
      → In e next
      → (e.start < e.end) × ((c : CoverageIntervalCursor) × (get_elem? cursors e.index ≡ some c))
  pub waiting :
      (i : ℕ) (c : CoverageIntervalCursor) (y : Interval)
      → get_elem? cursors i ≡ some c
      → In y (cursor_rest c)
      → IsWaiting next i y

-- The byte is in the heap, or in what a cursor has yet to yield.
pub data StateByte (cursors : List CoverageIntervalCursor) (next : List Entry) (byte : ℕ)
    : Type 0 where
  in_entry : (e : Entry) → In e next → e.start ≤ byte → byte < e.end → StateByte cursors next byte
  in_cursor :
      (i : ℕ) (c : CoverageIntervalCursor) (y : Interval)
      → get_elem? cursors i ≡ some c
      → In y (cursor_rest c)
      → y.0 ≤ byte
      → byte < y.1
      → StateByte cursors next byte

-- What is left is the interval that a cursor yields, if any, and what is left afterwards.
abbrev pub prepend : Option Interval → List Interval → List Interval
prepend none xs = xs
prepend (some x) xs = x ∷ xs

abbrev pub Leads : Option Interval → List Interval → Type 0
Leads none xs = xs ≡ []
Leads (some x) xs = (y : Interval) → In y xs → x.0 ≤ y.0

pub In-prepend_right :
    (f : Option Interval) (y : Interval) (xs : List Interval) → In y xs → In y (prepend f xs)
In-prepend_right none y xs m = m
In-prepend_right (some x) y xs m = inr m

pub In-prepend_found :
    (f : Option Interval) (y : Interval) (xs : List Interval) → f ≡ some y → In y (prepend f xs)
In-prepend_found none y xs e = absurd (cc)
In-prepend_found (some x) y xs e = inl (cc)

pub In-prepend :
    (f : Option Interval) (y : Interval) (xs : List Interval)
    → In y (prepend f xs)
    → (f ≡ some y) ⊎ In y xs
In-prepend none y xs m = inr m
In-prepend (some x) y xs (inl e) = inl (ap some (sym e))
In-prepend (some x) y xs (inr m) = inr m

pub Leads-found :
    (f : Option Interval) (y : Interval) (xs : List Interval)
    → Leads f xs
    → In y xs
    → (x : Interval) × (f ≡ some x) × (x.0 ≤ y.0)
Leads-found none y xs l m = absurd (subst (In y) l m)
Leads-found (some x) y xs l m = (x, refl, l y m)

pub record IsPushed (buffer : GpuBufferHandle) (cursors : List CoverageIntervalCursor) (e : Entry)
    (next : List Entry) (after : CoverageIntervals) : Type 0 where
  pub pushed : push_next (record { cursors = cursors; next = next }) e.index ≡ some after
  pub ready : IsReady buffer after.cursors after.next
  pub left_eq :
      intervals_left (record { cursors = cursors; next = e ∷ next }) ≡ suc (intervals_left after)
  pub from_before :
      (byte : ℕ)
      → StateByte cursors (e ∷ next) byte
      → ((e.start ≤ byte) × (byte < e.end)) ⊎ StateByte after.cursors after.next byte
  pub to_before :
      (byte : ℕ) → StateByte after.cursors after.next byte → StateByte cursors (e ∷ next) byte
  pub later : (x : Entry) → In x after.next → e.start ≤ x.start
