-- ===== src/Graph/Coverage/Merge/Cursor.antt =====
-- What a cursor has yet to yield: the segments of its coverage in the order of their starts.
use runen_gpu.Base.{
  ℕ, zero, suc, ◌-◌, ◌*◌, ◌≤◌, ◌<◌, ◌≡◌, refl, sym, subst, inl, inr, ◌↔◌, some, none, List, [], ◌∷◌,
  arith, if◌then◌else◌, ◌==◌, In,
}
use runen_gpu.Resource.{GpuBufferHandle}
use runen_gpu.Access.Range.{GpuBufferRange, buffer_end}
use runen_gpu.Graph.Intervals.{Interval}
use runen_gpu.Graph.Intervals.Sorting.{Starts}
use runen_gpu.Graph.Intervals.Laws.{Covers}
use runen_gpu.Graph.Coverage.{GpuBufferStridedCoverage, GpuBufferCoverage, dense, strided}
use runen_gpu.Graph.Coverage.Bytes.{CoversByte, IsCoverageOf}
use runen_gpu.Graph.Coverage.Merge.{numbered_segment, segment_next, segments_left}
use runen_gpu.Graph.Coverage.Merge.Numbered.{
  segments, Starts-segments, segments_byte, byte_segments, segments_nonempty,
}

abbrev pub rest : GpuBufferCoverage → ℕ → List Interval
rest (dense range) n = if n == 0 then (range.offset, buffer_end range) ∷ [] else []
rest (strided c) n = segments (c.segment_count * c.group_count - n) c n

-- A cursor yields the first of what is left, and has the others left afterwards.
pub data Yields (v : GpuBufferCoverage) (n : ℕ) : Type 0 where
  spent : rest v n ≡ [] → segment_next v n ≡ (none, n) → Yields v n
  found :
      (x : Interval) (n' : ℕ)
      → rest v n ≡ x ∷ rest v n'
      → segment_next v n ≡ (some x, n')
      → segments_left v n ≡ suc (segments_left v n')
      → n' ≤ segments_left v 0
      → Yields v n

segments-Yields :
    (c : GpuBufferStridedCoverage) (n k : ℕ)
    → c.segment_count * c.group_count - n ≡ k
    → n ≤ c.segment_count * c.group_count
    → Yields (strided c) n
unfolding segment_next
segments-Yields c n zero e h = spent (rw e refl) (ground arith)
segments-Yields c n (suc k) e h =
    let e' : c.segment_count * c.group_count - suc n ≡ k = omega arith in
    found (numbered_segment c n) (suc n) (rw (e, e') refl) (ground arith) (omega arith)
      (omega arith)

pub cursor-Yields : (v : GpuBufferCoverage) (n : ℕ) → n ≤ segments_left v 0 → Yields v n
unfolding segment_next
cursor-Yields (dense range) zero h =
    found (range.offset, buffer_end range) 1 refl refl refl (omega arith)
cursor-Yields (dense range) (suc n) h = spent (ground arith) (ground arith)
cursor-Yields (strided c) n h = segments-Yields c n _ refl (omega arith)

dense_spent : (range : GpuBufferRange) (n : ℕ) → rest (dense range) (suc n) ≡ []
dense_spent range n = ground arith

module _ (buffer : GpuBufferHandle) where
  pub rest-Starts :
      (v : GpuBufferCoverage) (n : ℕ)
      → IsCoverageOf buffer v
      → n ≤ segments_left v 0
      → Starts (rest v n)
  rest-Starts (dense range) zero w h = (λ y i. absurd i, tt)
  rest-Starts (dense range) (suc n) w h = subst Starts (sym (dense_spent range n)) tt
  rest-Starts (strided c) n w h = Starts-segments c w.1 _ n (omega arith)

  pub rest_nonempty :
      (v : GpuBufferCoverage) (n : ℕ)
      → IsCoverageOf buffer v
      → (y : Interval) → In y (rest v n)
      → y.0 < y.1
  rest_nonempty (dense range) zero w y (inl e) =
      subst (λ x. x.0 < x.1) (sym e) (omega (arith, w.nonempty))
  rest_nonempty (dense range) zero w y (inr i) = absurd i
  rest_nonempty (dense range) (suc n) w y i = absurd (subst (In y) (dense_spent range n) i)
  rest_nonempty (strided c) n w y i = segments_nonempty c w.1 _ n y i

  pub rest-CoversByte :
      (v : GpuBufferCoverage) (byte : ℕ)
      → IsCoverageOf buffer v
      → Covers (rest v 0) byte ↔ CoversByte v byte
  rest-CoversByte (dense range) byte w = (λ b. elim b [ inl h ↦ h | inr h ↦ absurd h ], λ b. inl b)
  rest-CoversByte (strided c) byte w = (
    λ b. segments_byte c w.1 _ 0 byte (omega arith) b,
    λ b. byte_segments c w.1 _ byte (omega arith) b,
  )
