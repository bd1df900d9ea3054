-- ===== src/Graph/Coverage/Bytes.antt =====
-- The bytes that a coverage stands for, and what `GpuBufferStridedCoverage::new` checks.
use runen_gpu.Base.{
  false, List, [], ◌∷◌, ℕ, ◌+◌, ◌-◌, ◌*◌, ◌≤◌, ◌<◌, ◌≡◌, ◌⊎◌, ◌↔◌, ok, arith, u64_mod,
}
use runen_gpu.Resource.{GpuBufferHandle}
use runen_gpu.Access.Range.{HasByte, IsRangeOf}
use runen_gpu.Graph.Coverage.{
  GpuBufferStridedCoverage, GpuBufferCoverage, dense, strided, strided_coverage, is_contiguous,
}

-- The length of a group, from its first byte to its last.
abbrev pub payload : GpuBufferStridedCoverage → ℕ
payload c = (c.segment_count - 1) * c.segment_stride + c.segment_size

abbrev pub segment_start : GpuBufferStridedCoverage → ℕ → ℕ → ℕ
segment_start c group segment = c.first + group * c.group_stride + segment * c.segment_stride

-- The byte lies in a segment of a group.
pub record HasStridedByte (c : GpuBufferStridedCoverage) (byte : ℕ) : Type 0 where
  pub group : ℕ
  pub segment : ℕ
  pub group_lt : group < c.group_count
  pub segment_lt : segment < c.segment_count
  pub after : segment_start c group segment ≤ byte
  pub before : byte < segment_start c group segment + c.segment_size

abbrev pub CoversByte : GpuBufferCoverage → ℕ → Type 0
CoversByte (dense range) byte = HasByte range byte
CoversByte (strided coverage) byte = HasStridedByte coverage byte

-- What a successful constructor has checked.
pub record IsStrided (c : GpuBufferStridedCoverage) : Type 0 where
  pub size_pos : 0 < c.segment_size
  pub count_pos : 0 < c.segment_count
  pub groups_pos : 0 < c.group_count
  pub size-le-stride : c.segment_size ≤ c.segment_stride
  pub groups_apart : (c.group_count ≤ 1) ⊎ (payload c ≤ c.group_stride)
  pub end_eq : c.end ≡ c.first + ((c.group_count - 1) * c.group_stride + payload c)
  pub inside : c.end ≤ c.buffer.size_bytes

abbrev pub IsCoverageOf : GpuBufferHandle → GpuBufferCoverage → Type 0
IsCoverageOf buffer (dense range) = IsRangeOf buffer range
IsCoverageOf buffer (strided coverage) = (coverage.buffer ≡ buffer) × IsStrided coverage

module _ (buffer : GpuBufferHandle) (first size stride count group_stride groups : ℕ) where
  -- What the constructor asks of its arguments.
  abbrev pub FitsBuffer : Type 0
  FitsBuffer =
      (0 < size)
      × (0 < count)
      × (0 < groups)
      × (size ≤ stride)
      × ((groups ≤ 1) ⊎ ((count - 1) * stride + size ≤ group_stride))
      × (first + ((groups - 1) * group_stride + ((count - 1) * stride + size)) ≤ buffer.size_bytes)

  abbrev pub requested : GpuBufferStridedCoverage
  requested = record {
    buffer = buffer;
    first = first;
    segment_size = size;
    segment_stride = stride;
    segment_count = count;
    group_stride = group_stride;
    group_count = groups;
    end = first + ((groups - 1) * group_stride + ((count - 1) * stride + size));
  }

  pub strided_coverage-IsStrided :
      {c : GpuBufferStridedCoverage}
      → strided_coverage buffer first size stride count group_stride groups ≡ ok c
      → IsStrided c
  unfolding strided_coverage
  strided_coverage-IsStrided h = ground arith

  -- A strided layout is accepted, as requested, exactly when it has segments and groups, neither
  -- the segments of a group nor the groups overlap, and its end lies inside the buffer. In
  -- particular no intermediate value overflows 64 bits for a layout that fits.
  pub strided_coverage_iff :
      buffer.size_bytes < u64_mod
      → (strided_coverage buffer first size stride count group_stride groups ≡ ok requested)
        ↔ FitsBuffer
  unfolding strided_coverage
  strided_coverage_iff h = (λ e. ground arith, λ f. ground arith)

-- The byte is covered by one of the values.
abbrev pub CoversAny : List GpuBufferCoverage → ℕ → Type 0
CoversAny [] byte = ⊥
CoversAny (v ∷ vs) byte = CoversByte v byte ⊎ CoversAny vs byte

-- What the canonical form of a layout that stays strided has: a gap, and a fixed stride if there is
-- a single segment.
pub record HasGap (c : GpuBufferStridedCoverage) : Type 0 where
  pub gap : is_contiguous c ≡ false
  pub single : c.segment_count ≡ 1 → c.segment_stride ≡ c.segment_size

abbrev pub IsCanonical : GpuBufferCoverage → Type 0
IsCanonical (dense range) = Unit
IsCanonical (strided c) = HasGap c
