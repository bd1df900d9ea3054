-- ===== src/Graph/Coverage/Merge/Next.antt =====
-- `CoverageIntervals::next` yields the leftmost stretch of bytes without a gap and keeps the rest,
-- so that the iterator ends after yielding separate intervals that cover the same bytes.
use runen_gpu.Base.{
  ℕ, zero, suc, ◌≤◌, ◌<◌, ◌≡◌, refl, sym, subst, ◌⊎◌, inl, inr, false, some, List, [], ◌∷◌, arith,
  In, max, leb, Bool-cases, leb→le,
}
use runen_gpu.Resource.{GpuBufferHandle}
use runen_gpu.Graph.Coverage.Merge.{
  CoverageIntervalCursor, CoverageIntervals, Entry, absorb, intervals_left,
}
use runen_gpu.Graph.Coverage.Merge.Ready.{IsReady, StateByte, in_entry, IsPushed}
use runen_gpu.Graph.Coverage.Merge.Step.{push_next-IsPushed}

abbrev pub BothByte : ℕ → ℕ → List CoverageIntervalCursor → List Entry → ℕ → Type 0
BothByte start end cursors next byte = ((start ≤ byte) × (byte < end)) ⊎ StateByte cursors next byte

-- The loop has extended the stretch from `start` to its end.
pub record IsMerged (buffer : GpuBufferHandle) (start end : ℕ)
    (cursors : List CoverageIntervalCursor) (next : List Entry) (end' : ℕ)
    (after : CoverageIntervals) : Type 0 where
  pub ready : IsReady buffer after.cursors after.next
  pub extended : end ≤ end'
  pub from_before :
      (byte : ℕ)
      → BothByte start end cursors next byte
      → BothByte start end' after.cursors after.next byte
  pub to_before :
      (byte : ℕ)
      → BothByte start end' after.cursors after.next byte
      → BothByte start end cursors next byte
  pub gap : (x : Entry) → In x after.next → end' < x.start
  pub left_le : intervals_left after ≤ intervals_left (record { cursors = cursors; next = next })

module _ (buffer : GpuBufferHandle) (start : ℕ) where
  -- One entry that touches the stretch joins it.
  merge_once :
      (end : ℕ) (cursors : List CoverageIntervalCursor) (e : Entry) (next : List Entry)
      (popped : CoverageIntervals) (end' : ℕ) (after : CoverageIntervals)
      → start ≤ e.start
      → e.start ≤ end
      → IsPushed buffer cursors e next popped
      → IsMerged buffer start (max end e.end) popped.cursors popped.next end' after
      → IsMerged buffer start end cursors (e ∷ next) end' after
  merge_once end cursors e next popped end' after low touch p m = record {
    ready = m.ready;
    extended = omega (arith, m.extended);
    from_before = λ byte b. m.from_before byte (widen byte b);
    to_before = λ byte b. narrow byte (m.to_before byte b);
    gap = m.gap;
    left_le = omega (arith, m.left_le, p.left_eq);
  }
    where
      widen :
          (byte : ℕ)
          → BothByte start end cursors (e ∷ next) byte
          → BothByte start (max end e.end) popped.cursors popped.next byte
      widen byte (inl b) = inl (b.0, omega (arith, b.1))
      widen byte (inr b) = elim (p.from_before byte b) [
        | inl k ↦ inl (omega (arith, k.0), omega (arith, k.1))
        | inr k ↦ inr k
      ]

      narrow :
          (byte : ℕ)
          → BothByte start (max end e.end) popped.cursors popped.next byte
          → BothByte start end cursors (e ∷ next) byte
      narrow byte (inl b) = elim (Bool-cases (leb end byte)) [
        | inl far ↦ inr (in_entry e (inl refl) (ground arith) (ground arith))
        | inr near ↦ inl (b.0, ground arith)
      ]
      narrow byte (inr b) = inr (p.to_before byte b)

  stopped :
      (end : ℕ) (cursors : List CoverageIntervalCursor) (next : List Entry)
      → IsReady buffer cursors next
      → ((x : Entry) → In x next → end < x.start)
      → IsMerged buffer start end cursors next end (record { cursors = cursors; next = next })
  stopped end cursors next r gap = record {
    ready = r;
    extended = omega arith;
    from_before = λ byte b. b;
    to_before = λ byte b. b;
    gap = gap;
    left_le = omega arith;
  }

  -- With fuel for what is left, the loop ends with every later byte beyond a gap.
  pub absorb-IsMerged :
      (fuel end : ℕ) (cursors : List CoverageIntervalCursor) (next : List Entry)
      → intervals_left (record { cursors = cursors; next = next }) < fuel
      → IsReady buffer cursors next
      → ((x : Entry) → In x next → start ≤ x.start)
      → (end' : ℕ) × (after : CoverageIntervals) × (absorb fuel end cursors next
          ≡ some (end', after))
        × IsMerged buffer start end cursors next end' after
  unfolding absorb
  absorb-IsMerged zero end cursors next h r low = absurd (omega arith)
  absorb-IsMerged (suc fuel) end cursors [] h r low = (
    end,
    record { cursors = cursors; next = [] },
    refl,
    stopped end cursors [] r (λ x m. absurd m),
  )
  absorb-IsMerged (suc fuel) end cursors (e ∷ next) h r low = elim (Bool-cases (leb e.start end)) [
    | inl touch ↦
        let (popped, p) = push_next-IsPushed buffer cursors e next r in
        let (end', after, run, m) =
          absorb-IsMerged fuel (max end e.end) popped.cursors popped.next (omega (arith, p.left_eq))
            p.ready (later popped p) in
        (
          end',
          after,
          rw (touch, p.pushed, run) refl,
          merge_once end cursors e next popped end' after (low e (inl refl))
              (leb→le e.start end touch) p m,
        )
    | inr apart ↦ (
      end,
      record { cursors = cursors; next = e ∷ next },
      rw apart refl,
      stopped end cursors (e ∷ next) r (beyond apart),
    )
  ]
    where
      later :
          (popped : CoverageIntervals)
          → IsPushed buffer cursors e next popped
          → (x : Entry) → In x popped.next
          → start ≤ x.start
      later popped p x m = omega (arith, p.later x m, low e (inl refl))

      far : leb e.start end ≡ false → end < e.start
      far apart = ground arith

      beyond : leb e.start end ≡ false → (x : Entry) → In x (e ∷ next) → end < x.start
      beyond apart x (inl q) = subst (λ w. end < w.start) (sym q) (far apart)
      beyond apart x (inr m) = omega (arith, far apart, r.ascend.0 x m)
