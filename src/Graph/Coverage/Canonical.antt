-- ===== src/Graph/Coverage/Canonical.antt =====
-- `canonical_strided_coverage` keeps the bytes of a layout, and none of its `expect` panics.
use runen_gpu.Base.{
  ℕ, ◌-◌, ◌*◌, ◌<◌, ◌≡◌, refl, sym, ap, ◌∙◌, inl, inr, ◌↔◌, true, ◌&&◌, ◌||◌, some, ok, arith,
  if◌then◌else◌, ◌==◌, Bool-cases, u64_mod,
}
use runen_gpu.Access.Range.{HasByte, buffer_range}
use runen_gpu.Graph.Coverage.{
  GpuBufferStridedCoverage, GpuBufferCoverage, dense, strided, strided_coverage, is_contiguous,
  canonical_strided_coverage,
}
use runen_gpu.Graph.Coverage.Bytes.{
  strided_coverage_iff, payload, segment_start, HasStridedByte, CoversByte, IsCanonical, IsStrided,
  IsCoverageOf,
}
use runen_gpu.Graph.Coverage.Runs.{contiguous_byte, HasStridedByte-bounds}

-- The layout with the strides that a single segment and a single group leave open fixed.
abbrev squeezed : GpuBufferStridedCoverage → GpuBufferStridedCoverage
squeezed c = record c {
  segment_stride = if c.segment_count == 1 then c.segment_size else c.segment_stride;
  group_stride = if c.group_count == 1 then 0 else c.group_stride;
}

-- A stride that stands before one item only is never taken.
unused_stride :
    (count index x y : ℕ) → index < count → index * (if count == 1 then x else y) ≡ index * y
unused_stride count index x y h = elim (Bool-cases (count == 1)) [
  | inl one ↦
      let e : index ≡ 0 = ground arith in
      rw one (omega (arith, ap (λ (n : ℕ). n * x) e, ap (λ (n : ℕ). n * y) e))
  | inr many ↦ rw many refl
]

module _ (c : GpuBufferStridedCoverage) (v : IsStrided c) where
  last : (n : ℕ) → 0 < n → n - 1 < n
  last n h = omega arith

  squeezed-payload : payload (squeezed c) ≡ payload c
  squeezed-payload = omega (
    arith,
    unused_stride c.segment_count (c.segment_count - 1) c.segment_size c.segment_stride
        (last c.segment_count v.count_pos),
  )

  squeezed_span :
      (c.group_count - 1) * (squeezed c).group_stride ≡ (c.group_count - 1) * c.group_stride
  squeezed_span =
      unused_stride c.group_count (c.group_count - 1) 0 c.group_stride
        (last c.group_count v.groups_pos)

  squeezed-IsStrided : IsStrided (squeezed c)
  squeezed-IsStrided = record {
    size_pos = v.size_pos;
    count_pos = v.count_pos;
    groups_pos = v.groups_pos;
    size-le-stride = ground arith;
    groups_apart = elim v.groups_apart [
      | inl few ↦ inl few
      | inr wide ↦ elim (Bool-cases (c.group_count == 1)) [
        | inl one ↦ inl (ground arith)
        | inr many ↦ inr (rw many (omega (arith, squeezed-payload, wide)))
      ]
    ];
    end_eq = omega (arith, v.end_eq, squeezed-payload, squeezed_span);
    inside = v.inside;
  }

  squeezed-segment_start :
      (group segment : ℕ)
      → group < c.group_count
      → segment < c.segment_count
      → segment_start (squeezed c) group segment ≡ segment_start c group segment
  squeezed-segment_start group segment g s = omega (
    arith,
    unused_stride c.group_count group 0 c.group_stride g,
    unused_stride c.segment_count segment c.segment_size c.segment_stride s,
  )

  squeezed-HasStridedByte : (byte : ℕ) → HasStridedByte (squeezed c) byte ↔ HasStridedByte c byte
  squeezed-HasStridedByte byte = (
    λ b. record {
      group = b.group;
      segment = b.segment;
      group_lt = b.group_lt;
      segment_lt = b.segment_lt;
      after =
          omega (arith, b.after, squeezed-segment_start b.group b.segment b.group_lt b.segment_lt);
      before =
          omega (arith, b.before, squeezed-segment_start b.group b.segment b.group_lt b.segment_lt);
    },
    λ b. record {
      group = b.group;
      segment = b.segment;
      group_lt = b.group_lt;
      segment_lt = b.segment_lt;
      after =
          omega (arith, b.after, squeezed-segment_start b.group b.segment b.group_lt b.segment_lt);
      before =
          omega (arith, b.before, squeezed-segment_start b.group b.segment b.group_lt b.segment_lt);
    },
  )

  -- A layout without gaps is the range from its first byte to its end.
  dense-CoversByte :
      is_contiguous (squeezed c) ≡ true
      → (byte : ℕ)
      → HasByte (record { offset = c.first; size = c.end - c.first }) byte ↔ HasStridedByte c byte
  dense-CoversByte h byte = (
    λ b.
        (squeezed-HasStridedByte byte).0
          (contiguous_byte (squeezed c) squeezed-IsStrided byte h b.0 (omega arith)),
    λ b. let bounds = HasStridedByte-bounds c v byte b in (bounds.0, omega arith),
  )

  module _ (small : c.buffer.size_bytes < u64_mod) where
    dense_range :
        buffer_range c.buffer c.first (c.end - c.first)
        ≡ ok (record { offset = c.first; size = c.end - c.first })
    unfolding buffer_range
    dense_range = let e = squeezed-IsStrided.end_eq in ground arith

    strided_lem :
        strided_coverage c.buffer c.first c.segment_size
          (squeezed c).segment_stride
          c.segment_count
          (squeezed c).group_stride
          c.group_count
        ≡ ok (squeezed c)
    strided_lem =
        let w = squeezed-IsStrided in
        (strided_coverage_iff c.buffer c.first c.segment_size (squeezed c).segment_stride
            c.segment_count (squeezed c).group_stride c.group_count small).1
          (
            v.size_pos,
            v.count_pos,
            v.groups_pos,
            w.size-le-stride,
            w.groups_apart,
            omega (arith, w.end_eq, v.inside),
          )
        ∙ ap (λ (n : ℕ). ok (record (squeezed c) { end = n })) (sym w.end_eq)

    -- The test of `canonical_strided_coverage`.
    test_eq :
        ((c.segment_count == 1 && c.group_count == 1)
          || ((squeezed c).segment_stride == c.segment_size
              && (c.group_count == 1 || c.group_stride == payload (squeezed c))))
        ≡ is_contiguous (squeezed c)
    unfolding is_contiguous
    test_eq = ground arith

    -- The canonical form of a layout exists, covers exactly the bytes of the layout inside the same
    -- buffer, and is strided only if the layout has a gap.
    pub canonical_strided_coverage-CoversByte :
        (value : GpuBufferCoverage) × (canonical_strided_coverage c ≡ some value)
        × IsCoverageOf c.buffer value
        × IsCanonical value
        × ((byte : ℕ) → CoversByte value byte ↔ HasStridedByte c byte)
    unfolding canonical_strided_coverage
    canonical_strided_coverage-CoversByte = elim (Bool-cases (is_contiguous (squeezed c))) [
      | inl h ↦ (
        dense (record { offset = c.first; size = c.end - c.first }),
        rw (test_eq, h, dense_range) refl,
        record {
          nonempty = omega (arith, v.end_eq, v.size_pos);
          inside = omega (arith, v.end_eq, v.inside);
        },
        tt,
        dense-CoversByte h,
      )
      | inr h ↦ (
        strided (squeezed c),
        rw (test_eq, h, strided_lem) refl,
        (refl, squeezed-IsStrided),
        record { gap = h; single = λ e. ground arith },
        squeezed-HasStridedByte,
      )
    ]
