-- ===== src/Graph/Coverage/Normalize/Sorted.antt =====
-- Sorting and removing repetitions keep the bytes of the values.
use runen_gpu.Base.{ℕ, ◌≡◌, ◌⊎◌, inl, inr, ◌↔◌, true, arith, List, [], ◌∷◌, All, Bool-cases}
use runen_gpu.Graph.Coverage.{GpuBufferCoverage, dense, strided}
use runen_gpu.Graph.Coverage.Bytes.{CoversByte, CoversAny}
use runen_gpu.Graph.Coverage.Placed.{same-IsPlaced, placed-HasStridedByte}
use runen_gpu.Graph.Coverage.Normalize.{
  coverage_lt, coverage_eq, insert_coverage, sort_coverage, dedup_after, dedup,
}

-- Sorting and removing repetitions keep the bytes.
insert_coverage-CoversAny :
    (a : GpuBufferCoverage) (xs : List GpuBufferCoverage) (byte : ℕ)
    → CoversAny (insert_coverage a xs) byte ↔ (CoversByte a byte ⊎ CoversAny xs byte)
unfolding insert_coverage
insert_coverage-CoversAny a [] byte = (λ b. b, λ b. b)
insert_coverage-CoversAny a (x ∷ xs) byte =
    let ih = insert_coverage-CoversAny a xs byte in
    elim (Bool-cases (coverage_lt x a)) [
      | inr e ↦ rw e (λ b. b, λ b. b)
      | inl e ↦ rw e (
        λ b. elim b [
          | inl h ↦ inr (inl h)
          | inr h ↦ elim (ih.0 h) [ inl k ↦ inl k | inr k ↦ inr (inr k) ]
        ],
        λ b. elim b [
          | inl h ↦ inr (ih.1 (inl h))
          | inr (inl h) ↦ inl h
          | inr (inr h) ↦ inr (ih.1 (inr h))
        ],
      )
    ]

pub sort_coverage-CoversAny :
    (xs : List GpuBufferCoverage) (byte : ℕ) → CoversAny (sort_coverage xs) byte ↔ CoversAny xs byte
unfolding sort_coverage
sort_coverage-CoversAny [] byte = (λ b. b, λ b. b)
sort_coverage-CoversAny (x ∷ xs) byte =
    let ih = sort_coverage-CoversAny xs byte in
    let laws = insert_coverage-CoversAny x (sort_coverage xs) byte in
    (
      λ b. elim (laws.0 b) [ inl h ↦ inl h | inr h ↦ inr (ih.0 h) ],
      λ b. laws.1 (elim b [ inl h ↦ inl h | inr h ↦ inr (ih.1 h) ]),
    )

coverage_eq-CoversByte :
    (a b : GpuBufferCoverage) (byte : ℕ)
    → coverage_eq a b ≡ true
    → CoversByte b byte
    → CoversByte a byte
unfolding coverage_eq
coverage_eq-CoversByte (dense a) (dense b) byte h k = ground arith
coverage_eq-CoversByte (dense a) (strided b) byte h k = absurd (cc)
coverage_eq-CoversByte (strided a) (dense b) byte h k = absurd (cc)
coverage_eq-CoversByte (strided a) (strided b) byte h k =
    placed-HasStridedByte a b (same-IsPlaced a b h) byte k

dedup_after-CoversAny :
    (kept : GpuBufferCoverage) (xs : List GpuBufferCoverage) (byte : ℕ)
    → CoversAny (kept ∷ dedup_after kept xs) byte ↔ CoversAny (kept ∷ xs) byte
unfolding dedup_after
dedup_after-CoversAny kept [] byte = (λ b. b, λ b. b)
dedup_after-CoversAny kept (x ∷ xs) byte = elim (Bool-cases (coverage_eq kept x)) [
  | inl e ↦
      let ih = dedup_after-CoversAny kept xs byte in
      rw e (
        λ b. elim (ih.0 b) [ inl h ↦ inl h | inr h ↦ inr (inr h) ],
        λ b. ih.1 (elim b [
          | inl h ↦ inl h
          | inr (inl h) ↦ inl (coverage_eq-CoversByte kept x byte e h)
          | inr (inr h) ↦ inr h
        ]),
      )
  | inr e ↦
      let ih = dedup_after-CoversAny x xs byte in
      rw e (
        λ b. elim b [ inl h ↦ inl h | inr h ↦ inr (ih.0 h) ],
        λ b. elim b [ inl h ↦ inl h | inr h ↦ inr (ih.1 h) ],
      )
]

pub dedup-CoversAny :
    (xs : List GpuBufferCoverage) (byte : ℕ) → CoversAny (dedup xs) byte ↔ CoversAny xs byte
unfolding dedup
dedup-CoversAny [] byte = (λ b. b, λ b. b)
dedup-CoversAny (x ∷ xs) byte = dedup_after-CoversAny x xs byte

module _ (P : GpuBufferCoverage → Type 0) where
  All-insert_coverage :
      (a : GpuBufferCoverage) (xs : List GpuBufferCoverage)
      → P a
      → All P xs
      → All P (insert_coverage a xs)
  unfolding insert_coverage
  All-insert_coverage a [] h k = (h, tt)
  All-insert_coverage a (x ∷ xs) h k = elim (Bool-cases (coverage_lt x a)) [
    | inl e ↦ rw e (k.0, All-insert_coverage a xs h k.1)
    | inr e ↦ rw e (h, k)
  ]

  pub All-sort_coverage : (xs : List GpuBufferCoverage) → All P xs → All P (sort_coverage xs)
  unfolding sort_coverage
  All-sort_coverage [] k = tt
  All-sort_coverage (x ∷ xs) k =
      All-insert_coverage x (sort_coverage xs) k.0 (All-sort_coverage xs k.1)

  All-dedup_after :
      (kept : GpuBufferCoverage) (xs : List GpuBufferCoverage)
      → All P xs
      → All P (dedup_after kept xs)
  unfolding dedup_after
  All-dedup_after kept [] k = tt
  All-dedup_after kept (x ∷ xs) k = elim (Bool-cases (coverage_eq kept x)) [
    | inl e ↦ rw (e, All) (All-dedup_after kept xs k.1)
    | inr e ↦ rw (e, All) (k.0, All-dedup_after x xs k.1)
  ]

  pub All-dedup : (xs : List GpuBufferCoverage) → All P xs → All P (dedup xs)
  unfolding dedup
  All-dedup [] k = tt
  All-dedup (x ∷ xs) k = (k.0, All-dedup_after x xs k.1)
