-- ===== src/Graph/Coverage/Placed.antt =====
-- A strided layout that the quick test finds inside another.
use runen_gpu.Base.{
  ℕ, ◌+◌, ◌-◌, ◌*◌, ◌/◌, ◌%◌, ◌≤◌, ◌≡◌, inl, inr, true, arith, ◌==◌, Bool-cases, false,
}
use native.Mathlib.Nat.{div-add-mod'}
use runen_gpu.Graph.Coverage.{GpuBufferStridedCoverage, strided_eq, strided_coverage_fast_contains}
use runen_gpu.Graph.Coverage.Bytes.{HasStridedByte}

-- Moving a byte by whole segments and groups.
moved :
    (first base gs ss go so g s : ℕ)
    → base ≡ first + (go * gs + so * ss)
    → base + g * gs + s * ss ≡ first + (go + g) * gs + (so + s) * ss
moved first base gs ss go so g s e = grind arith

-- The second layout is the first one from some group and segment on.
pub record IsPlaced (have required : GpuBufferStridedCoverage) : Type 0 where
  pub skipped_groups : ℕ
  pub skipped_segments : ℕ
  pub first_eq :
      required.first
      ≡ have.first + (skipped_groups * have.group_stride + skipped_segments * have.segment_stride)
  pub groups_le : skipped_groups + required.group_count ≤ have.group_count
  pub segments_le : skipped_segments + required.segment_count ≤ have.segment_count
  pub size_le : required.segment_size ≤ have.segment_size
  pub stride_eq : have.segment_stride ≡ required.segment_stride
  pub group_stride_eq : have.group_stride ≡ required.group_stride

module _ (have required : GpuBufferStridedCoverage) where
  pub same-IsPlaced : strided_eq have required ≡ true → IsPlaced have required
  unfolding strided_eq
  same-IsPlaced h = record {
    skipped_groups = 0;
    skipped_segments = 0;
    first_eq = ground arith;
    groups_le = ground arith;
    segments_le = ground arith;
    size_le = ground arith;
    stride_eq = ground arith;
    group_stride_eq = ground arith;
  }

  one_group-IsPlaced :
      strided_eq have required ≡ false
      → (have.group_count == 1) ≡ true
      → strided_coverage_fast_contains have required ≡ true
      → IsPlaced have required
  unfolding strided_coverage_fast_contains
  one_group-IsPlaced n o h = record {
    skipped_groups = 0;
    skipped_segments = (required.first - have.first) / have.segment_stride;
    first_eq = ground arith;
    groups_le = ground arith;
    segments_le = ground arith;
    size_le = ground arith;
    stride_eq = ground arith;
    group_stride_eq = ground arith;
  }

  groups-IsPlaced :
      strided_eq have required ≡ false
      → (have.group_count == 1) ≡ false
      → strided_coverage_fast_contains have required ≡ true
      → IsPlaced have required
  unfolding strided_coverage_fast_contains
  groups-IsPlaced n o h =
      let offset : ℕ = required.first - have.first in
      let parts = div-add-mod' offset have.group_stride in
      record {
        skipped_groups = offset / have.group_stride;
        skipped_segments = offset % have.group_stride / have.segment_stride;
        first_eq = ground arith;
        groups_le = ground arith;
        segments_le = ground arith;
        size_le = ground arith;
        stride_eq = ground arith;
        group_stride_eq = ground arith;
      }

  pub contains-IsPlaced :
      strided_coverage_fast_contains have required ≡ true → IsPlaced have required
  contains-IsPlaced h = elim (Bool-cases (strided_eq have required)) [
    | inl e ↦ same-IsPlaced e
    | inr n ↦ elim (Bool-cases (have.group_count == 1)) [
      | inl o ↦ one_group-IsPlaced n o h
      | inr o ↦ groups-IsPlaced n o h
    ]
  ]

  pub placed-HasStridedByte :
      IsPlaced have required → (byte : ℕ) → HasStridedByte required byte → HasStridedByte have byte
  placed-HasStridedByte p byte b =
      let at =
        moved have.first required.first have.group_stride have.segment_stride p.skipped_groups
          p.skipped_segments b.group b.segment p.first_eq in
      record {
        group = p.skipped_groups + b.group;
        segment = p.skipped_segments + b.segment;
        group_lt = ground arith;
        segment_lt = ground arith;
        after = ground arith;
        before = ground arith;
      }
