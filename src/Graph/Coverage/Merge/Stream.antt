-- ===== src/Graph/Coverage/Merge/Stream.antt =====
-- All that the iterator yields: separate intervals that cover the bytes of the heap and cursors.
use runen_gpu.Base.{
  ℕ, zero, suc, ◌≤◌, ◌<◌, ◌≡◌, refl, sym, subst, inl, inr, ◌↔◌, some, none, List, [], ◌∷◌, arith,
  In, length,
}
use runen_gpu.Resource.{GpuBufferHandle}
use runen_gpu.Graph.Intervals.{Interval}
use runen_gpu.Graph.Intervals.Laws.{Covers, Separate}
use runen_gpu.Graph.Coverage.Merge.{
  CoverageIntervalCursor, CoverageIntervals, Entry, heap_next, intervals_next, intervals_left,
}
use runen_gpu.Graph.Coverage.Merge.Ready.{IsReady, StateByte, in_entry, in_cursor}
use runen_gpu.Graph.Coverage.Merge.Step.{push_next-IsPushed}
use runen_gpu.Graph.Coverage.Merge.Next.{absorb-IsMerged}

-- The iterator yields the intervals of the list, in order, and ends.
abbrev pub Drains : CoverageIntervals → List Interval → Type 0
Drains st [] = (st' : CoverageIntervals) × (intervals_next st ≡ some (none, st'))
Drains st (x ∷ xs) =
    (st' : CoverageIntervals) × (intervals_next st ≡ some (some x, st')) × Drains st' xs

abbrev pub Proper : List Interval → Type 0
Proper xs = (y : Interval) → In y xs → y.0 < y.1

pub record IsStream (st : CoverageIntervals) (xs : List Interval) : Type 0 where
  pub drains : Drains st xs
  pub count : length xs ≤ intervals_left st
  pub separate : Separate xs
  pub proper : Proper xs
  pub covers : (byte : ℕ) → Covers xs byte ↔ StateByte st.cursors st.next byte

pub In-Covers :
    (y : Interval) (xs : List Interval) (byte : ℕ)
    → In y xs
    → y.0 ≤ byte
    → byte < y.1
    → Covers xs byte
In-Covers y [] byte m low high = absurd m
In-Covers y (x ∷ xs) byte (inl e) low high =
    inl (subst (λ w. (w.0 ≤ byte) × (byte < w.1)) e (low, high))
In-Covers y (x ∷ xs) byte (inr m) low high = inr (In-Covers y xs byte m low high)

pub Covers-In :
    (xs : List Interval) (byte : ℕ)
    → Covers xs byte
    → (y : Interval) × In y xs × (y.0 ≤ byte) × (byte < y.1)
Covers-In [] byte b = absurd b
Covers-In (x ∷ xs) byte (inl b) = (x, inl refl, b.0, b.1)
Covers-In (x ∷ xs) byte (inr b) =
    let (y, m, low, high) = Covers-In xs byte b in (y, inr m, low, high)

module _ (buffer : GpuBufferHandle) where
  StateByte-after :
      (end : ℕ) (st : CoverageIntervals) (byte : ℕ)
      → IsReady buffer st.cursors st.next
      → ((x : Entry) → In x st.next → end < x.start)
      → StateByte st.cursors st.next byte
      → end < byte
  StateByte-after end st byte r gap (in_entry e m low high) = omega (arith, gap e m)
  StateByte-after end st byte r gap (in_cursor i c y h m low high) =
      let w = r.waiting i c y h m in omega (arith, gap w.entry w.entry_in, w.start_le)

  nothing_left :
      (cursors : List CoverageIntervalCursor) (byte : ℕ)
      → IsReady buffer cursors []
      → ¬ StateByte cursors [] byte
  nothing_left cursors byte r (in_entry e m low high) = m
  nothing_left cursors byte r (in_cursor i c y h m low high) = (r.waiting i c y h m).entry_in

  pub stream :
      (fuel : ℕ) (cursors : List CoverageIntervalCursor) (next : List Entry)
      → intervals_left (record { cursors = cursors; next = next }) < fuel
      → IsReady buffer cursors next
      → (xs : List Interval) × IsStream (record { cursors = cursors; next = next }) xs
  unfolding intervals_next heap_next
  stream zero cursors next h r = absurd (omega arith)
  stream (suc fuel) cursors [] h r = (
    [],
    record {
      drains = (record { cursors = cursors; next = [] }, refl);
      count = omega arith;
      separate = tt;
      proper = λ y m. absurd m;
      covers = λ byte. (λ b. absurd b, λ b. absurd (nothing_left cursors byte r b));
    },
  )
  stream (suc fuel) cursors (e ∷ next) h r =
      let (popped, p) = push_next-IsPushed buffer cursors e next r in
      let (end, after, run, m) =
        absorb-IsMerged buffer e.start (suc (intervals_left popped)) e.end popped.cursors
          popped.next (omega arith) p.ready p.later in
      let (xs, s) =
        stream fuel after.cursors after.next (omega (arith, p.left_eq, m.left_le)) m.ready in
      let beyond = λ (byte : ℕ) (b : Covers xs byte).
        StateByte-after end after byte m.ready m.gap ((s.covers byte).0 b) in
      (
        (e.start, end) ∷ xs,
        record {
          drains = (after, rw (p.pushed, run) refl, s.drains);
          count = omega (arith, s.count, p.left_eq, m.left_le);
          separate =
              (λ y i. beyond y.0 (In-Covers y xs y.0 i (omega arith) (s.proper y i)), s.separate);
          proper = λ y i. elim i [
            | inl q ↦
                subst (λ w. w.0 < w.1) (sym q)
                  (omega (arith, (r.entries e (inl refl)).0, m.extended))
            | inr k ↦ s.proper y k
          ];
          covers = λ byte. (
            λ b.
                elim (m.to_before byte
                  (elim b [ inl k ↦ inl k | inr k ↦ inr ((s.covers byte).0 k) ])) [
                    | inl k ↦ in_entry e (inl refl) k.0 k.1
                    | inr k ↦ p.to_before byte k
                  ],
            λ b. elim (m.from_before byte (p.from_before byte b)) [
              | inl k ↦ inl k
              | inr k ↦ inr ((s.covers byte).1 k)
            ],
          );
        },
      )
