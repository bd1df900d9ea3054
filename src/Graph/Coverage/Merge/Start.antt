-- ===== src/Graph/Coverage/Merge/Start.antt =====
-- `CoverageIntervals::new` puts the first interval of each value into the heap.
use runen_gpu.Base.{
  ℕ, zero, suc, ◌+◌, ◌≤◌, ◌≡◌, refl, sym, ap, subst, ◌∙◌, ◌⊎◌, inl, inr, Option, some, none, List,
  [], ◌∷◌, arith, In, get_elem?,
}
use runen_gpu.Graph.Intervals.{Interval}
use runen_gpu.Graph.Coverage.{GpuBufferCoverage}
use runen_gpu.Graph.Coverage.Merge.{
  CoverageIntervalCursor, Entry, new_cursor, cursor_next, push_found, start_cursors, segments_left,
}
use runen_gpu.Graph.Coverage.Merge.Cursor.{rest, spent, found, cursor-Yields}
use runen_gpu.Graph.Coverage.Merge.Heap.{EntriesAscend, In-push_found, push_found-EntriesAscend}
use runen_gpu.Graph.Coverage.Merge.Ready.{cursor_rest}

-- A cursor after its first step, and what that step found.
abbrev pub started : GpuBufferCoverage → CoverageIntervalCursor
started v = (cursor_next (new_cursor v)).1

abbrev pub head : GpuBufferCoverage → Option Interval
head v = (cursor_next (new_cursor v)).0

pub get_elem?-start_cursors :
    (index : ℕ) (values : List GpuBufferCoverage) (next : List Entry) (i : ℕ)
    {v : GpuBufferCoverage}
    → get_elem? values i ≡ some v
    → get_elem? (start_cursors index values next).cursors i ≡ some (started v)
unfolding start_cursors
get_elem?-start_cursors index [] next i h = absurd (cc h)
get_elem?-start_cursors index (w ∷ values) next zero h = cc h
get_elem?-start_cursors index (w ∷ values) next (suc i) h =
    get_elem?-start_cursors (suc index) values (push_found (head w) index next) i h

pub start_cursors-get_elem? :
    (index : ℕ) (values : List GpuBufferCoverage) (next : List Entry) (i : ℕ)
    {c : CoverageIntervalCursor}
    → get_elem? (start_cursors index values next).cursors i ≡ some c
    → (v : GpuBufferCoverage) × (get_elem? values i ≡ some v) × (c ≡ started v)
unfolding start_cursors
start_cursors-get_elem? index [] next i h = absurd (cc h)
start_cursors-get_elem? index (w ∷ values) next zero h = (w, refl, cc h)
start_cursors-get_elem? index (w ∷ values) next (suc i) h =
    start_cursors-get_elem? (suc index) values (push_found (head w) index next) i h

pub start_cursors-EntriesAscend :
    (index : ℕ) (values : List GpuBufferCoverage) (next : List Entry)
    → EntriesAscend next
    → EntriesAscend (start_cursors index values next).next
unfolding start_cursors
start_cursors-EntriesAscend index [] next d = d
start_cursors-EntriesAscend index (w ∷ values) next d =
    start_cursors-EntriesAscend (suc index) values (push_found (head w) index next)
      (push_found-EntriesAscend (head w) index next d)

-- An entry is the first interval of a value, under the index of the value.
pub record IsHead (index : ℕ) (values : List GpuBufferCoverage) (e : Entry) : Type 0 where
  pub position : ℕ
  pub value : GpuBufferCoverage
  pub get : get_elem? values position ≡ some value
  pub index_eq : e.index ≡ index + position
  pub head_eq : head value ≡ some (e.start, e.end)

pub In-start_cursors :
    (index : ℕ) (values : List GpuBufferCoverage) (next : List Entry) (e : Entry)
    → In e (start_cursors index values next).next
    → IsHead index values e ⊎ In e next
unfolding start_cursors
In-start_cursors index [] next e m = inr m
In-start_cursors index (w ∷ values) next e m =
    elim (In-start_cursors (suc index) values (push_found (head w) index next) e m) [
      | inl k ↦ inl (record {
        position = suc k.position;
        value = k.value;
        get = k.get;
        index_eq = k.index_eq ∙ omega arith;
        head_eq = k.head_eq;
      })
      | inr k ↦ elim ((In-push_found e (head w) index next).0 k) [
        | inl (p, q) ↦ inl (record {
          position = 0;
          value = w;
          get = refl;
          index_eq = q ∙ omega arith;
          head_eq = p;
        })
        | inr o ↦ inr o
      ]
    ]

start_cursors-kept :
    (index : ℕ) (values : List GpuBufferCoverage) (next : List Entry) (e : Entry)
    → In e next
    → In e (start_cursors index values next).next
unfolding start_cursors
start_cursors-kept index [] next e m = m
start_cursors-kept index (w ∷ values) next e m =
    start_cursors-kept (suc index) values (push_found (head w) index next) e
      ((In-push_found e (head w) index next).1 (inr m))

pub start_cursors-In :
    (index : ℕ) (values : List GpuBufferCoverage) (next : List Entry) (e : Entry) (i : ℕ)
    (v : GpuBufferCoverage)
    → get_elem? values i ≡ some v
    → e.index ≡ index + i
    → head v ≡ some (e.start, e.end)
    → In e (start_cursors index values next).next
unfolding start_cursors
start_cursors-In index [] next e i v g k p = absurd (cc g)
start_cursors-In index (w ∷ values) next e zero v g k p =
    let same : w ≡ v = cc in
    start_cursors-kept (suc index) values (push_found (head w) index next) e
      ((In-push_found e (head w) index next).1 (inl (ap head same ∙ p, k ∙ omega arith)))
start_cursors-In index (w ∷ values) next e (suc i) v g k p =
    start_cursors-In (suc index) values (push_found (head w) index next) e i v g (k ∙ omega arith) p

-- The first step of a cursor: either its value has no interval, or the first one is found.
pub data Start (v : GpuBufferCoverage) : Type 0 where
  empty :
      rest v 0 ≡ []
      → head v ≡ none
      → cursor_rest (started v) ≡ []
      → (started v).next_segment ≤ segments_left v 0
      → Start v
  first :
      (x : Interval)
      → rest v 0 ≡ x ∷ cursor_rest (started v)
      → head v ≡ some x
      → (started v).next_segment ≤ segments_left v 0
      → Start v

pub start_lem : (v : GpuBufferCoverage) → Start v
unfolding cursor_next new_cursor
start_lem v = elim (cursor-Yields v 0 (omega arith)) [
  | spent e step ↦
      empty e (ap (λ p. p.0) step) (ap (λ p. rest v p.1) step ∙ e)
        (subst (λ (n : ℕ). n ≤ segments_left v 0) (sym (ap (λ p. p.1) step)) (omega arith))
  | found x n' rests step count bound ↦
      first x (rests ∙ ap (λ (n : ℕ). x ∷ rest v n) (sym (ap (λ p. p.1) step))) (ap (λ p. p.0) step)
        (subst (λ (n : ℕ). n ≤ segments_left v 0) (sym (ap (λ p. p.1) step)) bound)
]
