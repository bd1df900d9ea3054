-- ===== src/Graph/Coverage.antt =====
-- Initialized bytes of a buffer: `GpuBufferCoverage` and `GpuBufferStridedCoverage` of
-- src/api/graph/coverage.rs. A value stands for the bytes that Graph/Coverage/Bytes.antt names.
pub mod Bytes
pub mod Placed
pub mod Runs
pub mod Fast
pub mod Canonical
pub mod Merge
pub mod Contains
pub mod Normalize
pub mod Intersect
use runen_gpu.Base.{
  ℕ, ◌+◌, ◌-◌, ◌*◌, ◌/◌, ◌%◌, Bool, true, false, ◌&&◌, ◌||◌, not, Option, none, some, Result, ok,
  err, ◌>>=◌, ◌>>◌, reject_if, ok_or, to_option, if◌then◌else◌, ◌==◌, ltb, leb, checked_add,
  checked_mul, u64_mod, is_some_and,
}
use runen_gpu.Base.Key.{key_eq}
use mathlib.Core.Option
use runen_gpu.Resource.{GpuBufferHandle, resource_id_key}
use runen_gpu.Access.Range.{GpuBufferRange, buffer_range, buffer_end}

pub record GpuBufferStridedCoverage : Type 0 where
  pub buffer : GpuBufferHandle
  pub first : ℕ
  pub segment_size : ℕ
  pub segment_stride : ℕ
  pub segment_count : ℕ
  pub group_stride : ℕ
  pub group_count : ℕ
  pub end : ℕ

pub data GpuBufferCoverage : Type 0 where
  dense : GpuBufferRange → GpuBufferCoverage
  strided : GpuBufferStridedCoverage → GpuBufferCoverage

-- The corrections that the errors of `GpuBufferStridedCoverage::new` propose, by which the errors
-- are told apart.
pub data StridedCorrection : Type 0 where
  provide_counts widen_segment_stride reduce_segments widen_group_stride : StridedCorrection
  reduce_groups reduce_offset stay_inside : StridedCorrection

-- `GpuBufferStridedCoverage::new`.
unfoldable pub strided_coverage :
    GpuBufferHandle → ℕ → ℕ → ℕ → ℕ → ℕ → ℕ → Result StridedCorrection GpuBufferStridedCoverage
strided_coverage buffer first size stride count group_stride groups = do
  reject_if (size == 0 || count == 0 || groups == 0) provide_counts
  reject_if (ltb stride size) widen_segment_stride
  strides ← ok_or (checked_mul u64_mod (count - 1) stride) reduce_segments
  group_payload ← ok_or (checked_add u64_mod strides size) reduce_segments
  reject_if (ltb 1 groups && ltb group_stride group_payload) widen_group_stride
  group_strides ← ok_or (checked_mul u64_mod (groups - 1) group_stride) reduce_groups
  extent ← ok_or (checked_add u64_mod group_strides group_payload) reduce_groups
  end ← ok_or (checked_add u64_mod first extent) reduce_offset
  reject_if (leb buffer.size_bytes first || ltb buffer.size_bytes end) stay_inside
  ok (record {
    buffer = buffer;
    first = first;
    segment_size = size;
    segment_stride = stride;
    segment_count = count;
    group_stride = group_stride;
    group_count = groups;
    end = end;
  })

unfoldable pub coverage_first : GpuBufferCoverage → ℕ
coverage_first (dense range) = range.offset
coverage_first (strided coverage) = coverage.first

-- The derived `==`; a handle is compared by its identity.
unfoldable pub strided_eq : GpuBufferStridedCoverage → GpuBufferStridedCoverage → Bool
strided_eq a b =
    key_eq a.buffer.id b.buffer.id
    && a.first == b.first
    && a.segment_size == b.segment_size
    && a.segment_stride == b.segment_stride
    && a.segment_count == b.segment_count
    && a.group_stride == b.group_stride
    && a.group_count == b.group_count
    && a.end == b.end

unfoldable pub strided_coverage_fast_contains :
    GpuBufferStridedCoverage → GpuBufferStridedCoverage → Bool
unfolding strided_eq
strided_coverage_fast_contains have required =
    if strided_eq have required
    then true
    else if ltb have.segment_size required.segment_size
        || not (have.segment_stride == required.segment_stride)
        || not (have.group_stride == required.group_stride)
        || ltb required.first have.first
    then false
    else (let offset = required.first - have.first in
        let group_offset = if have.group_count == 1 then 0 else offset / have.group_stride in
        let within_group = if have.group_count == 1 then offset else offset % have.group_stride in
        let segment_offset = within_group / have.segment_stride in
        within_group == segment_offset * have.segment_stride
        && is_some_and (checked_add u64_mod group_offset required.group_count)
            (λ end. leb end have.group_count)
        && is_some_and (checked_add u64_mod segment_offset required.segment_count)
            (λ end. leb end have.segment_count))

-- The segments of a group leave no gap, and neither do the groups.
unfoldable pub is_contiguous : GpuBufferStridedCoverage → Bool
is_contiguous have =
    have.segment_stride == have.segment_size
    && (have.group_count == 1
        || have.group_stride == (have.segment_count - 1) * have.segment_stride + have.segment_size)

unfoldable pub strided_coverage_fast_contains_dense :
    GpuBufferStridedCoverage → GpuBufferRange → Bool
unfolding is_contiguous
strided_coverage_fast_contains_dense have required =
    if ltb required.offset have.first || ltb have.end (buffer_end required)
    then false
    else if is_contiguous have
    then true
    else (let offset = required.offset - have.first in
        let group = if have.group_count == 1 then 0 else offset / have.group_stride in
        let group_start = have.first + group * have.group_stride in
        let within_group = required.offset - group_start in
        let segment = within_group / have.segment_stride in
        let segment_start = group_start + segment * have.segment_stride in
        if leb have.group_count group
        then false
        else if have.segment_stride == have.segment_size
        then leb (buffer_end required)
            (group_start + (have.segment_count - 1) * have.segment_stride + have.segment_size)
        else if leb have.segment_count segment
        then false
        else leb (buffer_end required) (segment_start + have.segment_size))

unfoldable pub fast_contains : GpuBufferCoverage → GpuBufferCoverage → Bool
unfolding strided_coverage_fast_contains_dense strided_coverage_fast_contains
fast_contains (dense have) (dense required) =
    leb have.offset required.offset && leb (buffer_end required) (buffer_end have)
fast_contains (dense have) (strided required) =
    leb have.offset required.first && leb required.end (buffer_end have)
fast_contains (strided have) (dense required) = strided_coverage_fast_contains_dense have required
fast_contains (strided have) (strided required) = strided_coverage_fast_contains have required

-- `none` is the panic of an `expect`.
unfoldable pub canonical_strided_coverage : GpuBufferStridedCoverage → Option GpuBufferCoverage
canonical_strided_coverage c =
    let segment_stride = if c.segment_count == 1 then c.segment_size else c.segment_stride in
    let group_stride = if c.group_count == 1 then 0 else c.group_stride in
    let group_payload = (c.segment_count - 1) * segment_stride + c.segment_size in
    if (c.segment_count == 1 && c.group_count == 1)
      || (segment_stride == c.segment_size
          && (c.group_count == 1 || c.group_stride == group_payload))
    then Option.map dense (to_option (buffer_range c.buffer c.first (c.end - c.first)))
    else Option.map strided (
        to_option (
          strided_coverage c.buffer c.first c.segment_size segment_stride c.segment_count
            group_stride c.group_count))
