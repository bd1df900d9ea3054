-- ===== src/Graph/Coverage/Merge/Step.antt =====
-- `push_next` after the least entry has been popped: the bytes of the entry leave the heap, and
-- everything else is kept.
use runen_gpu.Base.{
  ℕ, ◌+◌, ◌≤◌, ◌<◌, ◌≡◌, ◌≢◌, refl, sym, ap, subst, ◌∙◌, ◌⊎◌, inl, inr, Option, some, none, List,
  ◌∷◌, arith, In, get_elem?,
}
use native.Mathlib.Decide.{ℕ_discrete}
use runen_gpu.Resource.{GpuBufferHandle}
use runen_gpu.Graph.Intervals.{Interval}
use runen_gpu.Graph.Intervals.Sorting.{Starts}
use runen_gpu.Graph.Coverage.Bytes.{IsCoverageOf}
use runen_gpu.Graph.Coverage.Merge.{
  CoverageIntervalCursor, CoverageIntervals, Entry, segment_next, cursor_next, push_found,
  set_cursor, push_next, segments_left,
}
use runen_gpu.Graph.Coverage.Merge.Cursor.{
  rest, spent, found, cursor-Yields, rest-Starts, rest_nonempty,
}
use runen_gpu.Graph.Coverage.Merge.Heap.{
  In-push_found, push_found-EntriesAscend, found_count, length-push_found, get_elem?-set_cursor,
  get_elem?-set_other, cursors_left-set_cursor,
}
use runen_gpu.Graph.Coverage.Merge.Ready.{
  cursor_rest, IsWaiting, IsReady, StateByte, in_entry, in_cursor, prepend, Leads, In-prepend_right,
  In-prepend_found, In-prepend, Leads-found, IsPushed,
}

module _ (buffer : GpuBufferHandle) (cursors : List CoverageIntervalCursor) (e : Entry)
    (next : List Entry) (c : CoverageIntervalCursor) (f : Option Interval) (n' : ℕ)
    (r : IsReady buffer cursors (e ∷ next)) (get : get_elem? cursors e.index ≡ some c)
    (step : segment_next c.coverage c.next_segment ≡ (f, n'))
    (rests : cursor_rest c ≡ prepend f (rest c.coverage n')) (leads : Leads f (rest c.coverage n'))
    (bound : n' ≤ segments_left c.coverage 0)
    (count : segments_left c.coverage c.next_segment
      ≡ found_count f + segments_left c.coverage n') where
  abbrev moved_cursor : CoverageIntervalCursor
  moved_cursor = record c { next_segment = n' }

  abbrev cursors' : List CoverageIntervalCursor
  cursors' = set_cursor e.index moved_cursor cursors

  abbrev next' : List Entry
  next' = push_found f e.index next

  -- A cursor after the step is the one that moved, or was there before.
  cursor_cases :
      (i : ℕ) (d : CoverageIntervalCursor)
      → get_elem? cursors' i ≡ some d
      → ((i ≡ e.index) × (d ≡ moved_cursor)) ⊎ ((i ≢ e.index) × (get_elem? cursors i ≡ some d))
  cursor_cases i d h = elim (ℕ_discrete i e.index) [
    | yes p ↦
        inl
          (p, cc (get_elem?-set_cursor e.index moved_cursor cursors get, ap (get_elem? cursors') p))
    | no q ↦ inr (q, sym (get_elem?-set_other e.index i moved_cursor cursors q) ∙ h)
  ]

  cursor_exists :
      (i : ℕ) {d : CoverageIntervalCursor}
      → get_elem? cursors i ≡ some d
      → (d' : CoverageIntervalCursor) × (get_elem? cursors' i ≡ some d')
  cursor_exists i {d} h = elim (ℕ_discrete i e.index) [
    | yes p ↦ (
      moved_cursor,
      ap (get_elem? cursors') p ∙ get_elem?-set_cursor e.index moved_cursor cursors get,
    )
    | no q ↦ (d, get_elem?-set_other e.index i moved_cursor cursors q ∙ h)
  ]

  rest_before : (y : Interval) → In y (rest c.coverage n') → In y (cursor_rest c)
  rest_before y m = subst (In y) (sym rests) (In-prepend_right f y _ m)

  found_before : (y : Interval) → f ≡ some y → In y (cursor_rest c)
  found_before y p = subst (In y) (sym rests) (In-prepend_found f y _ p)

  -- Nothing waits in front of the least entry.
  least : (x : Entry) → In x (e ∷ next) → e.start ≤ x.start
  least x (inl p) = subst (λ w. e.start ≤ w.start) (sym p) (omega arith)
  least x (inr m) = r.ascend.0 x m

  later_found : (y : Interval) → f ≡ some y → e.start ≤ y.0
  later_found y p =
      let w = r.waiting e.index c y get (found_before y p) in
      omega (arith, least w.entry w.entry_in, w.start_le)

  step-valid :
      (i : ℕ) (d : CoverageIntervalCursor)
      → get_elem? cursors' i ≡ some d
      → IsCoverageOf buffer d.coverage × (d.next_segment ≤ segments_left d.coverage 0)
  step-valid i d h = elim (cursor_cases i d h) [
    | inl (p, q) ↦
        subst (λ w. IsCoverageOf buffer w.coverage × (w.next_segment ≤ segments_left w.coverage 0))
          (sym q) ((r.valid e.index c get).0, bound)
    | inr (p, q) ↦ r.valid i d q
  ]

  step-entries :
      (x : Entry)
      → In x next'
      → (x.start < x.end) × ((d : CoverageIntervalCursor) × (get_elem? cursors' x.index ≡ some d))
  step-entries x m = elim ((In-push_found x f e.index next).0 m) [
    | inl (p, q) ↦ (
      rest_nonempty buffer c.coverage c.next_segment (r.valid e.index c get).0 (x.start, x.end)
          (found_before (x.start, x.end) p),
      cursor_exists x.index (ap (get_elem? cursors) q ∙ get),
    )
    | inr k ↦ let old = r.entries x (inr k) in (old.0, cursor_exists x.index old.1.1)
  ]

  step-IsWaiting :
      (i : ℕ) (d : CoverageIntervalCursor) (y : Interval)
      → get_elem? cursors' i ≡ some d
      → In y (cursor_rest d)
      → IsWaiting next' i y
  step-IsWaiting i d y h m = elim (cursor_cases i d h) [
    | inl (p, q) ↦
        let (x, g, l) = Leads-found f y _ leads (subst (λ w. In y (cursor_rest w)) q m) in
        record {
          entry = record { start = x.0; end = x.1; index = e.index };
          entry_in =
              (In-push_found (record { start = x.0; end = x.1; index = e.index }) f e.index next).1
                (inl (g, refl));
          index_eq = sym p;
          start_le = l;
        }
    | inr (p, q) ↦
        let w = r.waiting i d y q m in
        record {
          entry = w.entry;
          entry_in = (In-push_found w.entry f e.index next).1 (inr (elsewhere w p));
          index_eq = w.index_eq;
          start_le = w.start_le;
        }
  ]
    where
      elsewhere : (w : IsWaiting (e ∷ next) i y) → i ≢ e.index → In w.entry next
      elsewhere w p = elim w.entry_in [
        | inl k ↦ absurd (p (sym w.index_eq ∙ ap (λ (t : Entry). t.index) k))
        | inr k ↦ k
      ]

  pub step-IsReady : IsReady buffer cursors' next'
  step-IsReady = record {
    valid = step-valid;
    ascend = push_found-EntriesAscend f e.index next r.ascend.1;
    entries = step-entries;
    waiting = step-IsWaiting;
  }

  step-from_before :
      (byte : ℕ)
      → StateByte cursors (e ∷ next) byte
      → ((e.start ≤ byte) × (byte < e.end)) ⊎ StateByte cursors' next' byte
  step-from_before byte (in_entry x (inl p) low high) =
      inl (subst (λ w. (w.start ≤ byte) × (byte < w.end)) p (low, high))
  step-from_before byte (in_entry x (inr m) low high) =
      inr (in_entry x ((In-push_found x f e.index next).1 (inr m)) low high)
  step-from_before byte (in_cursor i d y h m low high) = elim (ℕ_discrete i e.index) [
    | yes p ↦
        let same : c ≡ d = cc (get, ap (get_elem? cursors) p) in
        elim (In-prepend f y _
          (subst (In y) rests (subst (λ w. In y (cursor_rest w)) (sym same) m))) [
            | inl g ↦ inr (
                in_entry (record { start = y.0; end = y.1; index = e.index })
                  ((In-push_found (record { start = y.0; end = y.1; index = e.index }) f e.index
                      next).1
                    (inl (g, refl)))
                  low high)
            | inr k ↦ inr (
                in_cursor e.index moved_cursor y
                  (get_elem?-set_cursor e.index moved_cursor cursors get) k low high)
          ]
    | no q ↦
        inr (in_cursor i d y (get_elem?-set_other e.index i moved_cursor cursors q ∙ h) m low high)
  ]

  step-to_before : (byte : ℕ) → StateByte cursors' next' byte → StateByte cursors (e ∷ next) byte
  step-to_before byte (in_entry x m low high) = elim ((In-push_found x f e.index next).0 m) [
    | inl (p, q) ↦
        in_cursor e.index c (x.start, x.end) get (found_before (x.start, x.end) p) low high
    | inr k ↦ in_entry x (inr k) low high
  ]
  step-to_before byte (in_cursor i d y h m low high) = elim (cursor_cases i d h) [
    | inl (p, q) ↦
        in_cursor e.index c y get (rest_before y (subst (λ w. In y (cursor_rest w)) q m)) low high
    | inr (p, q) ↦ in_cursor i d y q m low high
  ]

  step-later : (x : Entry) → In x next' → e.start ≤ x.start
  step-later x m = elim ((In-push_found x f e.index next).0 m) [
    | inl (p, q) ↦ later_found (x.start, x.end) p
    | inr k ↦ least x (inr k)
  ]

  pushed_lem :
      push_next (record { cursors = cursors; next = next }) e.index
      ≡ some (record { cursors = cursors'; next = next' })
  unfolding push_next cursor_next
  pushed_lem = rw (get, step) refl

  pub step-IsPushed : IsPushed buffer cursors e next (record { cursors = cursors'; next = next' })
  step-IsPushed = record {
    pushed = pushed_lem;
    ready = step-IsReady;
    left_eq = omega (
      arith,
      length-push_found f e.index next,
      cursors_left-set_cursor e.index moved_cursor cursors get,
      count,
    );
    from_before = step-from_before;
    to_before = step-to_before;
    later = step-later;
  }

-- Popping the least entry and pushing what its cursor yields next keeps all other bytes.
pub push_next-IsPushed :
    (buffer : GpuBufferHandle) (cursors : List CoverageIntervalCursor) (e : Entry)
    (next : List Entry)
    → IsReady buffer cursors (e ∷ next)
    → (after : CoverageIntervals) × IsPushed buffer cursors e next after
push_next-IsPushed buffer cursors e next r =
    let (c, get) = (r.entries e (inl refl)).1 in
    let valid = r.valid e.index c get in
    let starts = rest-Starts buffer c.coverage c.next_segment valid.0 valid.1 in
    elim (cursor-Yields c.coverage c.next_segment valid.1) [
      | spent empty step ↦ (
        _,
        step-IsPushed buffer cursors e next c none c.next_segment r get step refl empty valid.1
            (omega arith),
      )
      | found x n' rests step count bound ↦ (
        _,
        step-IsPushed buffer cursors e next c (some x) n' r get step rests
            (subst Starts rests starts).0 bound (omega arith),
      )
    ]
