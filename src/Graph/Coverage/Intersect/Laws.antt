-- ===== src/Graph/Coverage/Intersect/Laws.antt =====
-- `intersect_buffer_coverage` yields the bytes that both sides cover.
use mathlib.Core.Logic.Iff
use runen_gpu.Base.{
  ℕ, ◌-◌, ◌<◌, ◌≡◌, refl, inl, inr, ◌↔◌, some, arith, List, [], ◌∷◌, All, Bool-cases, u64_mod, ap,
}
use runen_gpu.Resource.{GpuBufferHandle}
use runen_gpu.Graph.Intervals.{Interval}
use runen_gpu.Graph.Intervals.Laws.{Covers}
use runen_gpu.Graph.Intervals.Fits.{Fits}
use runen_gpu.Graph.Coverage.{GpuBufferCoverage, dense, strided}
use runen_gpu.Graph.Coverage.Bytes.{CoversByte, CoversAny, IsCoverageOf}
use runen_gpu.Graph.Coverage.Runs.{HasStridedByte-bounds}
use runen_gpu.Graph.Coverage.Merge.{new_intervals}
use runen_gpu.Graph.Coverage.Merge.Stream.{Proper}
use runen_gpu.Graph.Coverage.Merge.Yield.{new_intervals-Drains}
use runen_gpu.Graph.Coverage.Contains.{coverage_bound}
use runen_gpu.Graph.Coverage.Contains.Advance.{Drains-Ahead}
use runen_gpu.Graph.Coverage.Contains.Laws.{buffer_coverage_contains_iff}
use runen_gpu.Graph.Coverage.Normalize.Laws.{normalize_buffer_coverage-CoversAny}
use runen_gpu.Graph.Coverage.Intersect.{meet_all, intersect_buffer_coverage}
use runen_gpu.Graph.Coverage.Intersect.Meet.{meet_intervals-CoversAny}

module _ (buffer : GpuBufferHandle) where
  byte_inside :
      (v : GpuBufferCoverage) (byte : ℕ)
      → IsCoverageOf buffer v
      → CoversByte v byte
      → byte < buffer.size_bytes
  byte_inside (dense range) byte w b = omega (arith, w.inside, b.1)
  byte_inside (strided c) byte w b = omega (
    arith,
    (HasStridedByte-bounds c w.1 byte b).1,
    w.1.inside,
    ap (λ (t : GpuBufferHandle). t.size_bytes) w.0,
  )

  any_inside :
      (vs : List GpuBufferCoverage) (byte : ℕ)
      → All (IsCoverageOf buffer) vs
      → CoversAny vs byte
      → byte < buffer.size_bytes
  any_inside [] byte w b = absurd b
  any_inside (v ∷ vs) byte w (inl b) = byte_inside v byte w.0 b
  any_inside (v ∷ vs) byte w (inr b) = any_inside vs byte w.1 b

  -- The last byte of an interval shows that the interval ends inside the buffer.
  stream-Fits :
      (xs : List Interval)
      → Proper xs
      → ((byte : ℕ) → Covers xs byte → byte < buffer.size_bytes)
      → All (Fits buffer.size_bytes) xs
  stream-Fits [] p h = tt
  stream-Fits (x ∷ xs) p h =
      let proper = p x (inl refl) in
      let last = h (x.1 - 1) (inl (omega (arith, proper), omega (arith, proper))) in
      (
        (proper, omega (arith, last, proper)),
        stream-Fits xs (λ y m. p y (inr m)) (λ byte b. h byte (inr b)),
      )

module _ (buffer : GpuBufferHandle) (small : buffer.size_bytes < u64_mod)
    (left right : List GpuBufferCoverage) (v : All (IsCoverageOf buffer) left)
    (w : All (IsCoverageOf buffer) right) where
  meet_all-CoversAny :
      (met : List GpuBufferCoverage) × (meet_all buffer left right ≡ some met)
      × All (IsCoverageOf buffer) met
      × ((byte : ℕ) → CoversAny met byte ↔ (CoversAny left byte × CoversAny right byte))
  unfolding meet_all
  meet_all-CoversAny =
      let (xs, xd, xn, xsep, xp, xc) = new_intervals-Drains buffer left v in
      let (ys, yd, yn, ysep, yp, yc) = new_intervals-Drains buffer right w in
      let (l, la, le, lh) = Drains-Ahead (new_intervals left) xs xd in
      let (r, ra, re, rh) = Drains-Ahead (new_intervals right) ys yd in
      let (met, e, valid, b) =
        meet_intervals-CoversAny buffer small
          (coverage_bound (new_intervals left) (new_intervals right)) l r la ra xs ys
          (omega (arith, xn, yn)) lh rh xsep ysep
          (stream-Fits buffer xs xp (λ byte k. any_inside buffer left byte v ((xc byte).0 k))) in
      (met, rw (le, re, e) refl, valid, λ byte. Iff.trans (b byte) (Iff.and (xc byte) (yc byte)))

  -- The intersection does not panic and its loops end within their fuel; what it leaves is of the same
  -- buffer and covers exactly the bytes that both sides cover.
  pub intersect_buffer_coverage-CoversAny :
      (met : List GpuBufferCoverage) × (intersect_buffer_coverage buffer left right ≡ some met)
      × All (IsCoverageOf buffer) met
      × ((byte : ℕ) → CoversAny met byte ↔ (CoversAny left byte × CoversAny right byte))
  unfolding intersect_buffer_coverage
  intersect_buffer_coverage-CoversAny =
      let (a, ae, ai) = buffer_coverage_contains_iff buffer left v right w in
      let (b, be, bi) = buffer_coverage_contains_iff buffer right w left v in
      let (met, me, mv, mb) = meet_all-CoversAny in
      let (ns, ne, nv, nb) = normalize_buffer_coverage-CoversAny buffer small met mv in
      let (ls, le, lv, lb) = normalize_buffer_coverage-CoversAny buffer small left v in
      let (rs, re, rv, rb) = normalize_buffer_coverage-CoversAny buffer small right w in
      elim (Bool-cases a) [
        | inl h ↦ (
          rs,
          rw (ae, h) re,
          rv,
          λ byte. (λ k. let c = (rb byte).0 k in (ai.0 h byte c, c), λ k. (rb byte).1 k.1),
        )
        | inr h ↦ elim (Bool-cases b) [
          | inl k ↦ (
            ls,
            rw (ae, h, be, k) le,
            lv,
            λ byte. (λ c. let d = (lb byte).0 c in (d, bi.0 k byte d), λ c. (lb byte).1 c.0),
          )
          | inr k ↦ (ns, rw (ae, h, be, k, me) ne, nv, λ byte. Iff.trans (nb byte) (mb byte))
        ]
      ]
