-- ===== src/Graph/Coverage/Normalize/Weight.antt =====
-- A value that the quick test finds inside another one is lighter, or the two contain each other.
use native.Mathlib.Nat.{
  mul-le-mul, mul-le-mul_left, mul-le-mul_right, mul-lt-mul_of_pos_left, mul-lt-mul_of_pos_right,
  suc-mul, div-mul-le_self,
}
use native.Mathlib.Decide.{dec_lt}
use runen_gpu.Base.{
  ℕ, zero, suc, ◌+◌, ◌-◌, ◌*◌, ◌≤◌, ◌<◌, ◌≡◌, ◌≢◌, sym, ap, subst, ◌∙◌, ◌⊎◌, inl, inr, true, false,
  arith, ◌==◌, ◌/◌, if◌then◌else◌, Bool-cases,
}
use runen_gpu.Base.Key.{key_eq, key_eq_refl}
use runen_gpu.Resource.{GpuBufferHandle, resource_id_key}
use runen_gpu.Graph.Coverage.Runs.{first_found}
use runen_gpu.Access.Range.{GpuBufferRange}
use runen_gpu.Graph.Coverage.{
  GpuBufferStridedCoverage, GpuBufferCoverage, dense, strided, strided_eq, is_contiguous,
  fast_contains, strided_coverage_fast_contains, strided_coverage_fast_contains_dense,
}
use runen_gpu.Graph.Coverage.Bytes.{payload, IsStrided, IsCoverageOf, HasGap, IsCanonical}
use runen_gpu.Graph.Coverage.Placed.{IsPlaced, contains-IsPlaced}

-- The number of bytes of a value.
abbrev pub weight : GpuBufferCoverage → ℕ
weight (dense range) = range.size
weight (strided c) = c.group_count * (c.segment_count * c.segment_size)

less_one : (m stride : ℕ) → (suc (suc m) - 1) * stride ≡ suc m * stride
less_one m stride = let e : suc (suc m) - 1 ≡ suc m = omega arith in ap (λ (t : ℕ). t * stride) e

-- Copies of a size that stand a stride apart.
copies-le :
    (n size stride : ℕ) → 0 < n → (n ≤ 1) ⊎ (size ≤ stride) → n * size ≤ (n - 1) * stride + size
copies-le zero size stride p h = absurd (omega arith)
copies-le (suc zero) size stride p h = omega arith
copies-le (suc (suc m)) size stride p (inl h) = absurd (omega arith)
copies-le (suc (suc m)) size stride p (inr h) =
    omega (arith, less_one m stride, suc-mul (suc m) size, mul-le-mul_left (suc m) h)

exact_copies : (n size : ℕ) → 0 < n → (n - 1) * size + size ≡ n * size
exact_copies zero size p = absurd (omega arith)
exact_copies (suc zero) size p = omega arith
exact_copies (suc (suc m)) size p = omega (arith, less_one m size, suc-mul (suc m) size)

copies-lt : (n size stride : ℕ) → 1 < n → size < stride → n * size < (n - 1) * stride + size
copies-lt zero size stride p h = absurd (omega arith)
copies-lt (suc zero) size stride p h = absurd (omega arith)
copies-lt (suc (suc m)) size stride p h =
    let up : suc m * size < suc m * stride = mul-lt-mul_of_pos_left h (omega arith) in
    omega (arith, less_one m stride, suc-mul (suc m) size, up)

factors_eq : (a b c d : ℕ) → a ≤ b → c ≤ d → 0 < b → 0 < c → a * c ≡ b * d → (a ≡ b) × (c ≡ d)
factors_eq a b c d h k p q e = elim (dec_lt a b) [
  | yes lt ↦
      let fewer : a * c < b * c = mul-lt-mul_of_pos_right lt q in
      absurd (omega (arith, fewer, mul-le-mul_left b k))
  | no ge ↦
      let same : a ≡ b = omega (arith, ge, h) in
      elim (dec_lt c d) [
        | yes lt ↦
            let less : b * c < b * d = mul-lt-mul_of_pos_left lt p in
            absurd (omega (arith, less, ap (λ (t : ℕ). t * c) same))
        | no more ↦ (same, omega (arith, more, k))
      ]
]

module _ (c : GpuBufferStridedCoverage) (v : IsStrided c) where
  abbrev group_bytes : ℕ
  group_bytes = c.segment_count * c.segment_size

  group_bytes_le : group_bytes ≤ payload c
  group_bytes_le =
      copies-le c.segment_count c.segment_size c.segment_stride v.count_pos (inr v.size-le-stride)

  groups_le : c.group_count * payload c ≤ c.end - c.first
  groups_le = omega (
    arith,
    v.end_eq,
    copies-le c.group_count (payload c) c.group_stride v.groups_pos v.groups_apart,
  )

  pub weight_le_span : c.group_count * group_bytes ≤ c.end - c.first
  weight_le_span = omega (arith, groups_le, mul-le-mul_left c.group_count group_bytes_le)

  bytes_pos : 0 < group_bytes
  bytes_pos =
      let one : 1 * c.segment_size ≤ group_bytes = mul-le-mul_right c.segment_size v.count_pos in
      omega (arith, one, v.size_pos)

  module _ (g : HasGap c) where
    many_segments : c.segment_stride ≢ c.segment_size → 1 < c.segment_count
    many_segments n = elim (dec_lt 1 c.segment_count) [
      | yes h ↦ h
      | no h ↦ absurd (n (g.single (omega (arith, h, v.count_pos))))
    ]

    many_groups :
        (c.segment_stride == c.segment_size) ≡ true
        → (1 < c.group_count) × (c.group_stride ≢ payload c)
    unfolding is_contiguous
    many_groups e = let gap = g.gap in let pos = v.groups_pos in (ground arith, λ p. ground arith)

    -- A layout with a gap is lighter than the range from its first byte to its end.
    weight_lt_span : c.group_count * group_bytes < c.end - c.first
    weight_lt_span = elim (Bool-cases (c.segment_stride == c.segment_size)) [
      | inl e ↦
          let (many, apart) = many_groups e in
          let wide : payload c < c.group_stride = ground (arith, v.groups_apart) in
          omega (
            arith,
            v.end_eq,
            copies-lt c.group_count (payload c) c.group_stride many wide,
            mul-le-mul_left c.group_count group_bytes_le,
          )
      | inr n ↦
          let sparse : group_bytes < payload c =
            copies-lt c.segment_count c.segment_size c.segment_stride
              (many_segments (λ p. ground arith)) (ground (arith, v.size-le-stride)) in
          let up : c.group_count * group_bytes < c.group_count * payload c =
            mul-lt-mul_of_pos_left sparse v.groups_pos in
          omega (arith, groups_le, up)
    ]

    full_group : (c.segment_stride == c.segment_size) ≡ true → payload c ≡ group_bytes
    full_group e =
        let s : c.segment_stride ≡ c.segment_size = ground arith in
        omega (
          arith,
          ap (λ (t : ℕ). (c.segment_count - 1) * t) s,
          exact_copies c.segment_count c.segment_size v.count_pos,
        )

    run_size :
        (range : GpuBufferRange)
        → strided_coverage_fast_contains_dense c range ≡ true
        → (c.segment_stride == c.segment_size) ≡ true
        → range.size ≤ payload c
    unfolding strided_coverage_fast_contains_dense
    run_size range h e =
        let gap = g.gap in
        let low : c.first ≤ range.offset = ground arith in
        let start = first_found c v range low in ground arith

    segment_size_le :
        (range : GpuBufferRange)
        → strided_coverage_fast_contains_dense c range ≡ true
        → (c.segment_stride == c.segment_size) ≡ false
        → range.size ≤ c.segment_size
    unfolding strided_coverage_fast_contains_dense
    segment_size_le range h n =
        let gap = g.gap in
        let low : c.first ≤ range.offset = ground arith in
        let start = first_found c v range low in
        let inside =
          div-mul-le_self
            (range.offset
              - (c.first
                  + (if c.group_count == 1 then 0 else (range.offset - c.first) / c.group_stride)
                    * c.group_stride))
            c.segment_stride in
        ground arith

    -- A range that the quick test finds inside a layout with a gap lies in one group, or in one segment.
    dense_lighter :
        (range : GpuBufferRange)
        → strided_coverage_fast_contains_dense c range ≡ true
        → range.size < c.group_count * group_bytes
    unfolding strided_coverage_fast_contains_dense
    dense_lighter range h = elim (Bool-cases (c.segment_stride == c.segment_size)) [
      | inl e ↦
          let (many, apart) = many_groups e in
          let twice : 2 * group_bytes ≤ c.group_count * group_bytes =
            mul-le-mul_right group_bytes many in
          omega (arith, run_size range h e, full_group e, bytes_pos, twice)
      | inr n ↦
          let several = many_segments (λ p. ground arith) in
          let segments : 2 * c.segment_size ≤ group_bytes =
            mul-le-mul_right c.segment_size several in
          let groups : 1 * group_bytes ≤ c.group_count * group_bytes =
            mul-le-mul_right group_bytes v.groups_pos in
          omega (arith, segment_size_le range h n, v.size_pos, segments, groups)
    ]

-- The test looks at the layouts only.
abbrev pub Lighter : GpuBufferCoverage → GpuBufferCoverage → Type 0
Lighter value other =
    (weight value < weight other)
    ⊎ ((weight value ≡ weight other) × (fast_contains value other ≡ true))

module _ (o r : GpuBufferStridedCoverage) (v : IsStrided o) (w : IsStrided r)
    (same : r.buffer ≡ o.buffer) (p : IsPlaced o r) where
  fewer_segments : r.segment_count * r.segment_size ≤ o.segment_count * o.segment_size
  fewer_segments = mul-le-mul (omega (arith, p.segments_le)) p.size_le

  placed_weight_le : weight (strided r) ≤ weight (strided o)
  placed_weight_le = mul-le-mul (omega (arith, p.groups_le)) fewer_segments

  equal_layouts :
      r.group_count ≡ o.group_count
      → r.segment_count ≡ o.segment_count
      → r.segment_size ≡ o.segment_size
      → fast_contains (strided r) (strided o) ≡ true
  unfolding fast_contains strided_coverage_fast_contains strided_eq
  equal_layouts groups count size =
      let go : p.skipped_groups ≡ 0 = omega (arith, p.groups_le) in
      let so : p.skipped_segments ≡ 0 = omega (arith, p.segments_le) in
      let first : r.first ≡ o.first = omega (
        arith,
        p.first_eq,
        ap (λ (t : ℕ). t * o.group_stride) go,
        ap (λ (t : ℕ). t * o.segment_stride) so,
      ) in
      let identity : key_eq r.buffer.id o.buffer.id ≡ true =
        subst (λ b. key_eq r.buffer.id b.id ≡ true) same (key_eq_refl r.buffer.id) in
      let end : r.end ≡ o.end =
        cc (w.end_eq, v.end_eq, first, groups, count, size, p.stride_eq, p.group_stride_eq) in
      let stride = p.stride_eq in let group_stride = p.group_stride_eq in ground arith

  placed-Lighter : Lighter (strided r) (strided o)
  placed-Lighter = elim (dec_lt (weight (strided r)) (weight (strided o))) [
    | yes lt ↦ inl lt
    | no ge ↦
        let same_weight : weight (strided r) ≡ weight (strided o) =
          omega (arith, ge, placed_weight_le) in
        let (groups, bytes) =
          factors_eq r.group_count o.group_count (r.segment_count * r.segment_size)
            (o.segment_count * o.segment_size) (omega (arith, p.groups_le)) fewer_segments
            v.groups_pos (bytes_pos r w) same_weight in
        let (count, size) =
          factors_eq r.segment_count o.segment_count r.segment_size o.segment_size
            (omega (arith, p.segments_le)) p.size_le v.count_pos w.size_pos bytes in
        inr (same_weight, equal_layouts groups count size)
  ]

pub fast_contains-Lighter :
    (buffer : GpuBufferHandle) (other value : GpuBufferCoverage)
    → IsCoverageOf buffer other
    → IsCoverageOf buffer value
    → IsCanonical other
    → IsCanonical value
    → fast_contains other value ≡ true
    → Lighter value other
unfolding fast_contains
fast_contains-Lighter buffer (dense o) (dense r) v w g k h = elim (dec_lt r.size o.size) [
  | yes lt ↦ inl lt
  | no ge ↦ inr (ground arith, ground arith)
]
fast_contains-Lighter buffer (dense o) (strided r) v w g k h =
    inl (let lt = weight_lt_span r w.1 k in ground arith)
fast_contains-Lighter buffer (strided o) (dense r) v w g k h = inl (dense_lighter o v.1 g r h)
fast_contains-Lighter buffer (strided o) (strided r) v w g k h =
    placed-Lighter o r v.1 w.1 (w.0 ∙ sym v.0) (contains-IsPlaced o r h)
