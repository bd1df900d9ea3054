-- ===== src/Graph/Coverage/Normalize/Laws.antt =====
-- `normalize_buffer_coverage` keeps the bytes and does not panic.
use mathlib.Core.Logic.Iff
use runen_gpu.Base.{
  ℕ, ◌-◌, ◌<◌, ◌≡◌, refl, sym, subst, ◌⊎◌, inl, inr, ◌↔◌, some, ok, arith, List, [], ◌∷◌, ◌++◌, All,
  u64_mod,
}
use runen_gpu.Resource.{GpuBufferHandle}
use runen_gpu.Access.Range.{GpuBufferRange, buffer_range}
use runen_gpu.Graph.Intervals.{Interval, normalize_u64_intervals}
use runen_gpu.Graph.Intervals.Laws.{Covers, normalize_u64_intervals-Normal}
use runen_gpu.Graph.Coverage.{GpuBufferCoverage, dense, strided}
use runen_gpu.Graph.Coverage.Bytes.{CoversByte, CoversAny, IsCoverageOf}
use runen_gpu.Graph.Intervals.Fits.{Fits, normalize_u64_intervals-Fits, All-append}
use runen_gpu.Graph.Coverage.Canonical.{canonical_strided_coverage-CoversByte}
use runen_gpu.Graph.Coverage.Normalize.{
  canonical_value, canonical_values, dense_intervals, strided_values, dense_values, sort_coverage,
  dedup, drop_redundant, normalize_buffer_coverage,
}
use runen_gpu.Graph.Coverage.Normalize.Keep.{
  IsNormalInput, drop_redundant-IsCoverageOf, drop_redundant-CoversAny,
}
use runen_gpu.Graph.Coverage.Normalize.Sorted.{
  sort_coverage-CoversAny, dedup-CoversAny, All-sort_coverage, All-dedup,
}

either : {P Q R S : Type 0} → P ↔ Q → R ↔ S → (P ⊎ R) ↔ (Q ⊎ S)
either e f = (
  λ p. elim p [ inl h ↦ inl (e.0 h) | inr h ↦ inr (f.0 h) ],
  λ q. elim q [ inl h ↦ inl (e.1 h) | inr h ↦ inr (f.1 h) ],
)

pub CoversAny-append :
    (xs ys : List GpuBufferCoverage) (byte : ℕ)
    → CoversAny (xs ++ ys) byte ↔ (CoversAny xs byte ⊎ CoversAny ys byte)
CoversAny-append [] ys byte = (λ b. inr b, λ b. elim b [ inl h ↦ absurd h | inr h ↦ h ])
CoversAny-append (x ∷ xs) ys byte =
    let ih = CoversAny-append xs ys byte in
    (
      λ b. elim b [
        | inl h ↦ inl (inl h)
        | inr h ↦ elim (ih.0 h) [ inl k ↦ inl (inr k) | inr k ↦ inr k ]
      ],
      λ b. elim b [
        | inl (inl h) ↦ inl h
        | inl (inr h) ↦ inr (ih.1 (inl h))
        | inr h ↦ inr (ih.1 (inr h))
      ],
    )

-- The dense values as intervals, and the strided ones, have the bytes of all.
split-CoversAny :
    (vs : List GpuBufferCoverage) (byte : ℕ)
    → CoversAny vs byte ↔ (Covers (dense_intervals vs) byte ⊎ CoversAny (strided_values vs) byte)
split-CoversAny [] byte = (λ b. inl b, λ b. elim b [ inl h ↦ h | inr h ↦ h ])
split-CoversAny (dense range ∷ vs) byte =
    let ih = split-CoversAny vs byte in
    (
      λ b. elim b [
        | inl h ↦ inl (inl h)
        | inr h ↦ elim (ih.0 h) [ inl k ↦ inl (inr k) | inr k ↦ inr k ]
      ],
      λ b. elim b [
        | inl (inl h) ↦ inl h
        | inl (inr h) ↦ inr (ih.1 (inl h))
        | inr h ↦ inr (ih.1 (inr h))
      ],
    )
split-CoversAny (strided c ∷ vs) byte =
    let ih = split-CoversAny vs byte in
    (
      λ b. elim b [
        | inl h ↦ inr (inl h)
        | inr h ↦ elim (ih.0 h) [ inl k ↦ inl k | inr k ↦ inr (inr k) ]
      ],
      λ b. elim b [
        | inl h ↦ inr (ih.1 (inl h))
        | inr (inl h) ↦ inl h
        | inr (inr h) ↦ inr (ih.1 (inr h))
      ],
    )

module _ (buffer : GpuBufferHandle) (small : buffer.size_bytes < u64_mod) where
  dense_intervals-Fits :
      (vs : List GpuBufferCoverage)
      → All (IsNormalInput buffer) vs
      → All (Fits buffer.size_bytes) (dense_intervals vs)
  dense_intervals-Fits [] v = tt
  dense_intervals-Fits (dense range ∷ vs) v =
      ((omega (arith, v.0.0.nonempty), v.0.0.inside), dense_intervals-Fits vs v.1)
  dense_intervals-Fits (strided c ∷ vs) v = dense_intervals-Fits vs v.1

  strided_values-IsNormalInput :
      (vs : List GpuBufferCoverage)
      → All (IsNormalInput buffer) vs
      → All (IsNormalInput buffer) (strided_values vs)
  strided_values-IsNormalInput [] v = tt
  strided_values-IsNormalInput (dense range ∷ vs) v = strided_values-IsNormalInput vs v.1
  strided_values-IsNormalInput (strided c ∷ vs) v = (v.0, strided_values-IsNormalInput vs v.1)

  Same : List GpuBufferCoverage → List GpuBufferCoverage → Type 0
  Same xs ys = (byte : ℕ) → CoversAny xs byte ↔ CoversAny ys byte

  canonical_value_lem :
      (v : GpuBufferCoverage)
      → IsCoverageOf buffer v
      → (w : GpuBufferCoverage) × (canonical_value v ≡ some w)
        × IsNormalInput buffer w
        × ((byte : ℕ) → CoversByte w byte ↔ CoversByte v byte)
  unfolding canonical_value
  canonical_value_lem (dense range) h = (dense range, refl, (h, tt), λ byte. (λ b. b, λ b. b))
  canonical_value_lem (strided c) h =
      let (w, e, v, k, b) =
        canonical_strided_coverage-CoversByte c h.1
          (subst (λ (t : GpuBufferHandle). t.size_bytes < u64_mod) (sym h.0) small) in
      (w, e, (subst (λ t. IsCoverageOf t w) h.0 v, k), b)

  canonical_values_lem :
      (vs : List GpuBufferCoverage)
      → All (IsCoverageOf buffer) vs
      → (ws : List GpuBufferCoverage) × (canonical_values vs ≡ some ws)
        × All (IsNormalInput buffer) ws
        × ((byte : ℕ) → CoversAny ws byte ↔ CoversAny vs byte)
  unfolding canonical_values
  canonical_values_lem [] h = ([], refl, tt, λ byte. (λ b. b, λ b. b))
  canonical_values_lem (v ∷ vs) h =
      let (w, e, n, b) = canonical_value_lem v h.0 in
      let (ws, es, ns, bs) = canonical_values_lem vs h.1 in
      (
        w ∷ ws,
        rw (e, es) refl,
        (n, ns),
        λ byte. (
          λ k. elim k [ inl h ↦ inl ((b byte).0 h) | inr h ↦ inr ((bs byte).0 h) ],
          λ k. elim k [ inl h ↦ inl ((b byte).1 h) | inr h ↦ inr ((bs byte).1 h) ],
        ),
      )

  buffer_range-Fits :
      (start end : ℕ)
      → Fits buffer.size_bytes (start, end)
      → buffer_range buffer start (end - start) ≡ ok (record { offset = start; size = end - start })
  unfolding buffer_range
  buffer_range-Fits start end h = ground arith

  dense_values_lem :
      (xs : List Interval)
      → All (Fits buffer.size_bytes) xs
      → (ws : List GpuBufferCoverage) × (dense_values buffer xs ≡ some ws)
        × All (IsNormalInput buffer) ws
        × ((byte : ℕ) → CoversAny ws byte ↔ Covers xs byte)
  unfolding dense_values
  dense_values_lem [] h = ([], refl, tt, λ byte. (λ b. b, λ b. b))
  dense_values_lem ((start, end) ∷ xs) h =
      let (ws, es, ns, bs) = dense_values_lem xs h.1 in
      let range : GpuBufferRange = record { offset = start; size = end - start } in
      (
        dense range ∷ ws,
        rw (buffer_range-Fits start end h.0, es) refl,
        ((record { nonempty = omega arith; inside = omega arith }, tt), ns),
        λ byte. (
          λ k. elim k [ inl b ↦ inl (b.0, omega (arith, b.1)) | inr b ↦ inr ((bs byte).0 b) ],
          λ k. elim k [ inl b ↦ inl (b.0, omega (arith, b.1)) | inr b ↦ inr ((bs byte).1 b) ],
        ),
      )

  -- Normalization does not panic; the values that it leaves are of the same buffer and cover
  -- exactly the bytes of the values that it was given.
  pub normalize_buffer_coverage-CoversAny :
      (values : List GpuBufferCoverage)
      → All (IsCoverageOf buffer) values
      → (normalized : List GpuBufferCoverage) × (normalize_buffer_coverage buffer values
          ≡ some normalized)
        × All (IsCoverageOf buffer) normalized
        × ((byte : ℕ) → CoversAny normalized byte ↔ CoversAny values byte)
  unfolding normalize_buffer_coverage
  normalize_buffer_coverage-CoversAny values h =
      let (cs, ce, cn, cb) = canonical_values_lem values h in
      let normal = normalize_u64_intervals (dense_intervals cs) in
      let (ds, de, dn, db) = dense_values_lem normal (
        normalize_u64_intervals-Fits buffer.size_bytes (dense_intervals cs)
          (dense_intervals-Fits cs cn)) in
      let joined = ds ++ strided_values cs in
      let listed = dedup (sort_coverage joined) in
      let valid = All-dedup (IsNormalInput buffer) (sort_coverage joined) (
        All-sort_coverage (IsNormalInput buffer) joined (
          All-append (IsNormalInput buffer) ds (strided_values cs) dn
            (strided_values-IsNormalInput cs cn))) in
      (
        drop_redundant listed,
        rw (ce, de) refl,
        drop_redundant-IsCoverageOf buffer listed valid,
        λ byte. Iff.trans (drop_redundant-CoversAny buffer listed valid byte) (
            Iff.trans (dedup-CoversAny (sort_coverage joined) byte) (
              Iff.trans (sort_coverage-CoversAny joined byte) (
                Iff.trans (CoversAny-append ds (strided_values cs) byte) (
                  Iff.trans
                    (either
                      (Iff.trans (db byte)
                        ((normalize_u64_intervals-Normal (dense_intervals cs)).0.0 byte))
                      Iff.rfl)
                    (Iff.trans (Iff.symm (split-CoversAny cs byte)) (cb byte)))))),
      )
