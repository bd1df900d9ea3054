-- ===== src/Graph/Coverage/Runs.antt =====
-- Ranges of bytes inside the runs of a strided layout.
use runen_gpu.Base.{
  ℕ, ◌+◌, ◌-◌, ◌*◌, ◌/◌, ◌≤◌, ◌<◌, ◌≡◌, refl, ap, inl, inr, true, arith, ◌==◌, Bool-cases,
  if◌then◌else◌, false,
}
use native.Mathlib.Nat.{div-lt_iff_lt-mul, div-mul-le_self, lt-div-mul-add, mul-le-mul_right}
use runen_gpu.Access.Range.{GpuBufferRange, HasByte}
use runen_gpu.Graph.Coverage.{
  GpuBufferStridedCoverage, strided_coverage_fast_contains_dense, is_contiguous,
}
use runen_gpu.Graph.Coverage.Bytes.{payload, segment_start, HasStridedByte, IsStrided}

-- A byte inside a run of `count` touching segments of `size` bytes lies in one of them.
pub touching :
    (size count offset : ℕ)
    → 0 < size
    → 0 < count
    → offset < (count - 1) * size + size
    → (offset / size < count)
      × (offset / size * size ≤ offset)
      × (offset < offset / size * size + size)
touching size count offset h k p = (
  (div-lt_iff_lt-mul h).1 (grind arith),
  div-mul-le_self offset size,
  lt-div-mul-add {a = offset} h,
)

-- Bytes of a contiguous layout, of a contiguous group, and of a single segment.
module _ (have : GpuBufferStridedCoverage) (v : IsStrided have) where
  group_byte :
      (group byte : ℕ)
      → group < have.group_count
      → have.segment_stride ≡ have.segment_size
      → have.first + group * have.group_stride ≤ byte
      → byte < have.first + group * have.group_stride + payload have
      → HasStridedByte have byte
  group_byte group byte g e low high =
      let offset : ℕ = byte - (have.first + group * have.group_stride) in
      let t =
        touching have.segment_size have.segment_count offset v.size_pos v.count_pos (grind arith) in
      record {
        group = group;
        segment = offset / have.segment_size;
        group_lt = g;
        segment_lt = t.0;
        after = rw e (omega arith);
        before = rw e (omega arith);
      }

  one_end :
      (byte : ℕ)
      → (have.group_count == 1) ≡ true
      → byte < have.end
      → byte < have.first + 0 * have.group_stride + payload have
  one_end byte one high =
      let e : have.group_count ≡ 1 = ground arith in
      omega (arith, v.end_eq, ap (λ (t : ℕ). (t - 1) * have.group_stride) e)

  pub contiguous_byte :
      (byte : ℕ)
      → is_contiguous have ≡ true
      → have.first ≤ byte
      → byte < have.end
      → HasStridedByte have byte
  unfolding is_contiguous
  contiguous_byte byte c low high = elim (Bool-cases (have.group_count == 1)) [
    | inl one ↦ group_byte 0 byte v.groups_pos (ground arith) (omega arith) (one_end byte one high)
    | inr many ↦
        let offset : ℕ = byte - have.first in
        let gap : have.group_stride ≡ payload have = ground arith in
        let t =
          touching have.group_stride have.group_count offset (ground arith) v.groups_pos
            (omega (arith, v.end_eq, gap)) in
        group_byte (offset / have.group_stride) byte t.0 (ground arith) (omega arith)
          (omega (arith, t, gap))
  ]

  segment_byte :
      (group segment byte : ℕ)
      → group < have.group_count
      → segment < have.segment_count
      → segment_start have group segment ≤ byte
      → byte < segment_start have group segment + have.segment_size
      → HasStridedByte have byte
  segment_byte group segment byte g s low high = record {
    group = group;
    segment = segment;
    group_lt = g;
    segment_lt = s;
    after = low;
    before = high;
  }

  -- The byte of a range that passes the test after its group has been found.
  found_byte :
      (required : GpuBufferRange) (group byte : ℕ)
      → HasByte required byte
      → is_contiguous have ≡ false
      → (if have.group_count == 1 then 0 else (required.offset - have.first) / have.group_stride)
        ≡ group
      → have.first + group * have.group_stride ≤ required.offset
      → strided_coverage_fast_contains_dense have required ≡ true
      → HasStridedByte have byte
  unfolding strided_coverage_fast_contains_dense
  found_byte required group byte b n e low h =
      elim (Bool-cases (have.segment_stride == have.segment_size)) [
        | inl touch ↦
            group_byte group byte (ground arith) (ground arith) (ground arith) (ground arith)
        | inr apart ↦
            segment_byte group
              ((required.offset - (have.first + group * have.group_stride)) / have.segment_stride)
              byte (ground arith) (ground arith)
              (omega (
                arith,
                div-mul-le_self (required.offset - (have.first + group * have.group_stride))
                    have.segment_stride,
              ))
              (ground arith)
      ]

  pub first_found :
      (required : GpuBufferRange)
      → have.first ≤ required.offset
      → have.first
          + (if have.group_count == 1
              then 0
              else (required.offset - have.first) / have.group_stride)
            * have.group_stride
        ≤ required.offset
  first_found required low = elim (Bool-cases (have.group_count == 1)) [
    | inl o ↦ rw o (omega arith)
    | inr o ↦ rw o (omega (arith, div-mul-le_self (required.offset - have.first) have.group_stride))
  ]

  pub dense_found :
      (required : GpuBufferRange) (byte : ℕ)
      → strided_coverage_fast_contains_dense have required ≡ true
      → HasByte required byte
      → HasStridedByte have byte
  unfolding strided_coverage_fast_contains_dense
  dense_found required byte h b =
      let low : have.first ≤ required.offset = ground arith in
      elim (Bool-cases (is_contiguous have)) [
        | inl c ↦ contiguous_byte byte c (ground arith) (ground arith)
        | inr n ↦ found_byte required _ byte b n refl (first_found required low) h
      ]

  -- Every byte of a layout lies between its first byte and its end.
  pub HasStridedByte-bounds :
      (byte : ℕ) → HasStridedByte have byte → (have.first ≤ byte) × (byte < have.end)
  HasStridedByte-bounds byte b =
      let groups = mul-le-mul_right have.group_stride (below b.group have.group_count b.group_lt) in
      let segments =
        mul-le-mul_right have.segment_stride (below b.segment have.segment_count b.segment_lt) in
      (omega (arith, b.after), omega (arith, b.before, v.end_eq, groups, segments))
    where
      below : (n m : ℕ) → n < m → n ≤ m - 1
      below n m h = omega arith
