-- ===== src/Graph/Coverage/Merge/Yield.antt =====
-- The iterator over a list of values yields the bytes of the values.
use runen_gpu.Base.{
  ℕ, zero, suc, ◌≤◌, ◌<◌, ◌≡◌, refl, sym, ap, subst, ◌∙◌, inl, inr, ◌↔◌, some, List, [], ◌∷◌, arith,
  In, get_elem?, All, length, get_elem?-In, All-In,
}
use runen_gpu.Resource.{GpuBufferHandle}
use runen_gpu.Graph.Intervals.{Interval}
use runen_gpu.Graph.Intervals.Sorting.{Starts}
use runen_gpu.Graph.Intervals.Laws.{Covers, Separate}
use runen_gpu.Graph.Coverage.{GpuBufferCoverage}
use runen_gpu.Graph.Coverage.Bytes.{CoversByte, CoversAny, IsCoverageOf}
use runen_gpu.Graph.Coverage.Merge.{
  new_cursor, cursor_next, start_cursors, new_intervals, segments_left, intervals_left,
}
use runen_gpu.Graph.Coverage.Merge.Cursor.{rest, rest-Starts, rest_nonempty, rest-CoversByte}
use runen_gpu.Graph.Coverage.Merge.Ready.{
  cursor_rest, IsWaiting, IsReady, StateByte, in_entry, in_cursor,
}
use runen_gpu.Graph.Coverage.Merge.Stream.{Drains, stream, Proper, In-Covers, Covers-In}
use runen_gpu.Graph.Coverage.Merge.Start.{
  started, head, get_elem?-start_cursors, start_cursors-get_elem?, start_cursors-EntriesAscend,
  In-start_cursors, start_cursors-In, Start, start_lem, empty, first,
}

module _ (buffer : GpuBufferHandle) (values : List GpuBufferCoverage)
    (valid : All (IsCoverageOf buffer) values) where
  valid_at : (i : ℕ) (v : GpuBufferCoverage) → get_elem? values i ≡ some v → IsCoverageOf buffer v
  valid_at i v g = All-In (IsCoverageOf buffer) values valid v (get_elem?-In values i v g)

  started-IsWaiting :
      (i : ℕ) (v : GpuBufferCoverage) (y : Interval)
      → get_elem? values i ≡ some v
      → Start v
      → In y (cursor_rest (started v))
      → IsWaiting (new_intervals values).next i y
  unfolding new_intervals
  started-IsWaiting i v y g (empty e h r b) m = absurd (subst (In y) r m)
  started-IsWaiting i v y g (first x r h b) m = record {
    entry = record { start = x.0; end = x.1; index = i };
    entry_in =
        start_cursors-In 0 values [] (record { start = x.0; end = x.1; index = i }) i v g
          (omega arith) h;
    index_eq = refl;
    start_le = (subst Starts r (rest-Starts buffer v 0 (valid_at i v g) (omega arith))).0 y m;
  }

  head-In-rest :
      (v : GpuBufferCoverage) (x : Interval) → Start v → head v ≡ some x → In x (rest v 0)
  head-In-rest v x (empty e h r b) p = absurd (cc)
  head-In-rest v x (first z r h b) p = subst (In x) (sym r) (inl (cc))

  rest-In-rest :
      (v : GpuBufferCoverage) (x : Interval)
      → Start v
      → In x (cursor_rest (started v))
      → In x (rest v 0)
  rest-In-rest v x (empty e h r b) m = absurd (subst (In x) r m)
  rest-In-rest v x (first z r h b) m = subst (In x) (sym r) (inr m)

  started-IsCoverageOf :
      (v : GpuBufferCoverage)
      → Start v
      → IsCoverageOf buffer v
      → IsCoverageOf buffer (started v).coverage
        × ((started v).next_segment ≤ segments_left (started v).coverage 0)
  unfolding cursor_next new_cursor
  started-IsCoverageOf v (empty e h r b) w = (w, b)
  started-IsCoverageOf v (first x r h b) w = (w, b)

  pub new_intervals-IsReady :
      IsReady buffer (new_intervals values).cursors (new_intervals values).next
  unfolding new_intervals
  new_intervals-IsReady = record {
    valid = λ i c g.
        let (v, h, e) = start_cursors-get_elem? 0 values [] i g in
        subst (λ w. IsCoverageOf buffer w.coverage × (w.next_segment ≤ segments_left w.coverage 0))
          (sym e) (started-IsCoverageOf v (start_lem v) (valid_at i v h));
    ascend = start_cursors-EntriesAscend 0 values [] tt;
    entries = λ e m. elim (In-start_cursors 0 values [] e m) [
      | inl k ↦ (
        rest_nonempty buffer k.value 0 (valid_at k.position k.value k.get) (e.start, e.end)
            (head-In-rest k.value (e.start, e.end) (start_lem k.value) k.head_eq),
        (
          started k.value,
          ap (get_elem? (start_cursors 0 values []).cursors) (k.index_eq ∙ omega arith)
              ∙ get_elem?-start_cursors 0 values [] k.position k.get,
        ),
      )
      | inr o ↦ absurd o
    ];
    waiting = λ i c y g m.
        let (v, h, e) = start_cursors-get_elem? 0 values [] i g in
        started-IsWaiting i v y h (start_lem v) (subst (λ w. In y (cursor_rest w)) e m);
  }

  position_CoversAny :
      (vs : List GpuBufferCoverage) (i byte : ℕ) {v : GpuBufferCoverage}
      → get_elem? vs i ≡ some v
      → CoversByte v byte
      → CoversAny vs byte
  position_CoversAny [] i byte g b = absurd (cc g)
  position_CoversAny (w ∷ vs) zero byte g b = inl (subst (λ u. CoversByte u byte) (cc) b)
  position_CoversAny (w ∷ vs) (suc i) byte g b = inr (position_CoversAny vs i byte g b)

  CoversAny-position :
      (vs : List GpuBufferCoverage) (byte : ℕ)
      → CoversAny vs byte
      → (i : ℕ) × (v : GpuBufferCoverage) × (get_elem? vs i ≡ some v) × CoversByte v byte
  CoversAny-position [] byte b = absurd b
  CoversAny-position (w ∷ vs) byte (inl b) = (0, w, refl, b)
  CoversAny-position (w ∷ vs) byte (inr b) =
      let (i, v, g, k) = CoversAny-position vs byte b in (suc i, v, g, k)

  rest_byte :
      (i byte : ℕ) (v : GpuBufferCoverage) (y : Interval)
      → get_elem? values i ≡ some v
      → In y (rest v 0)
      → y.0 ≤ byte
      → byte < y.1
      → CoversAny values byte
  rest_byte i byte v y g m low high =
      position_CoversAny values i byte g (
        (rest-CoversByte buffer v byte (valid_at i v g)).0 (In-Covers y (rest v 0) byte m low high))

  from_state :
      (byte : ℕ)
      → StateByte (new_intervals values).cursors (new_intervals values).next byte
      → CoversAny values byte
  unfolding new_intervals
  from_state byte (in_entry e m low high) = elim (In-start_cursors 0 values [] e m) [
    | inl k ↦
        rest_byte k.position byte k.value (e.start, e.end) k.get
          (head-In-rest k.value (e.start, e.end) (start_lem k.value) k.head_eq) low high
    | inr o ↦ absurd o
  ]
  from_state byte (in_cursor i c y g m low high) =
      let (v, h, e) = start_cursors-get_elem? 0 values [] i g in
      rest_byte i byte v y h
        (rest-In-rest v y (start_lem v) (subst (λ w. In y (cursor_rest w)) e m)) low high

  started_byte :
      (i byte : ℕ) (v : GpuBufferCoverage) (y : Interval)
      → get_elem? values i ≡ some v
      → Start v
      → In y (rest v 0)
      → y.0 ≤ byte
      → byte < y.1
      → StateByte (new_intervals values).cursors (new_intervals values).next byte
  unfolding new_intervals
  started_byte i byte v y g (empty e h r b) m low high = absurd (subst (In y) e m)
  started_byte i byte v y g (first x r h b) m low high = elim (subst (In y) r m) [
    | inl p ↦
        in_entry (record { start = y.0; end = y.1; index = i })
          (start_cursors-In 0 values [] (record { start = y.0; end = y.1; index = i }) i v g
            (omega arith) (h ∙ ap some (sym p)))
          low high
    | inr k ↦ in_cursor i (started v) y (get_elem?-start_cursors 0 values [] i g) k low high
  ]

  to_state :
      (byte : ℕ)
      → CoversAny values byte
      → StateByte (new_intervals values).cursors (new_intervals values).next byte
  to_state byte b =
      let (i, v, g, k) = CoversAny-position values byte b in
      let (y, m, low, high) =
        Covers-In (rest v 0) byte ((rest-CoversByte buffer v byte (valid_at i v g)).1 k) in
      started_byte i byte v y g (start_lem v) m low high

  -- The iterator over the values neither panics nor runs out of fuel: it yields, in ascending
  -- order, nonempty intervals with gaps between them, which cover exactly the bytes of the values.
  pub new_intervals-Drains :
      (xs : List Interval) × Drains (new_intervals values) xs
      × (length xs ≤ intervals_left (new_intervals values))
      × Separate xs
      × Proper xs
      × ((byte : ℕ) → Covers xs byte ↔ CoversAny values byte)
  new_intervals-Drains =
      let st = new_intervals values in
      let (xs, s) =
        stream buffer (suc (intervals_left st)) st.cursors st.next (omega arith)
          new_intervals-IsReady in
      (
        xs,
        s.drains,
        s.count,
        s.separate,
        s.proper,
        λ byte.
            (λ b. from_state byte ((s.covers byte).0 b), λ b. (s.covers byte).1 (to_state byte b)),
      )
