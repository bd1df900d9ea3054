-- ===== src/Access/Range.antt =====
-- Checked byte and query ranges: `GpuBufferRange` and `GpuQueryRange` of src/api/access.rs.
use runen_gpu.Base.{
  ℕ, ◌+◌, ◌-◌, ◌≤◌, ◌<◌, ◌≡◌, ◌↔◌, Bool, true, ◌&&◌, arith, Result, ok, err, ◌>>=◌, ◌>>◌, reject_if,
  ok_or, ◌==◌, ltb, leb, checked_add, u32_mod, u64_mod, max,
}
use runen_gpu.Resource.{GpuBufferHandle, GpuQuerySetHandle}
use runen_gpu.Access.Cause.{GpuAccessCause, zero_range, arithmetic_overflow, out_of_bounds}

pub record GpuBufferRange : Type 0 where
  pub offset : ℕ
  pub size : ℕ

pub record GpuQueryRange : Type 0 where
  pub first : ℕ
  pub count : ℕ

unfoldable pub buffer_range : GpuBufferHandle → ℕ → ℕ → Result GpuAccessCause GpuBufferRange
buffer_range handle offset size = do
  reject_if (size == 0) zero_range
  end ← ok_or (checked_add u64_mod offset size) arithmetic_overflow
  reject_if (ltb handle.size_bytes end) out_of_bounds
  ok (record { offset = offset; size = size })

unfoldable pub query_range : GpuQuerySetHandle → ℕ → ℕ → Result GpuAccessCause GpuQueryRange
query_range handle first count = do
  reject_if (count == 0) zero_range
  end ← ok_or (checked_add u32_mod first count) arithmetic_overflow
  reject_if (ltb handle.count end) out_of_bounds
  ok (record { first = first; count = count })

unfoldable pub whole_buffer_range : GpuBufferHandle → Result GpuAccessCause GpuBufferRange
unfolding buffer_range
whole_buffer_range handle = buffer_range handle 0 handle.size_bytes

unfoldable pub whole_query_range : GpuQuerySetHandle → Result GpuAccessCause GpuQueryRange
unfolding query_range
whole_query_range handle = query_range handle 0 handle.count

abbrev pub buffer_end : GpuBufferRange → ℕ
buffer_end range = range.offset + range.size

abbrev pub query_end : GpuQueryRange → ℕ
query_end range = range.first + range.count

unfoldable pub buffer_overlaps : GpuBufferRange → GpuBufferRange → Bool
buffer_overlaps a b = ltb a.offset (buffer_end b) && ltb b.offset (buffer_end a)

unfoldable pub buffer_contains : GpuBufferRange → GpuBufferRange → Bool
buffer_contains a b = leb a.offset b.offset && leb (buffer_end b) (buffer_end a)

unfoldable pub query_overlaps : GpuQueryRange → GpuQueryRange → Bool
query_overlaps a b = ltb a.first (query_end b) && ltb b.first (query_end a)

unfoldable pub query_contains : GpuQueryRange → GpuQueryRange → Bool
query_contains a b = leb a.first b.first && leb (query_end b) (query_end a)

-- The bytes and the queries that a range stands for.
abbrev pub HasByte : GpuBufferRange → ℕ → Type 0
HasByte range x = (range.offset ≤ x) × (x < range.offset + range.size)

abbrev pub HasQuery : GpuQueryRange → ℕ → Type 0
HasQuery range x = (range.first ≤ x) × (x < range.first + range.count)

-- What a successful constructor has checked.
pub record IsRangeOf (handle : GpuBufferHandle) (range : GpuBufferRange) : Type 0 where
  pub nonempty : 0 < range.size
  pub inside : range.offset + range.size ≤ handle.size_bytes

pub record IsQueriesOf (handle : GpuQuerySetHandle) (range : GpuQueryRange) : Type 0 where
  pub nonempty : 0 < range.count
  pub inside : range.first + range.count ≤ handle.count

-- A byte range is refused for its size first, then for the sum of its ends, then for the buffer;
-- what is accepted is nonempty, inside the buffer, and as requested.
pub buffer_range_outcome :
    (handle : GpuBufferHandle) (offset size : ℕ)
    → handle.size_bytes < u64_mod
    → ((buffer_range handle offset size ≡ err zero_range) ↔ (size ≡ 0))
      × ((buffer_range handle offset size ≡ err arithmetic_overflow)
          ↔ ((0 < size) × (u64_mod ≤ offset + size)))
      × ((buffer_range handle offset size ≡ err out_of_bounds)
          ↔ ((0 < size) × (offset + size < u64_mod) × (handle.size_bytes < offset + size)))
      × ((buffer_range handle offset size ≡ ok (record { offset = offset; size = size }))
          ↔ ((0 < size) × (offset + size ≤ handle.size_bytes)))
unfolding buffer_range
buffer_range_outcome handle offset size h = (
  (λ e. ground arith, λ e. ground arith),
  (λ e. ground arith, λ e. ground arith),
  (λ e. ground arith, λ e. ground arith),
  (λ e. ground arith, λ e. ground arith),
)

pub buffer_range-IsRangeOf :
    (handle : GpuBufferHandle) (offset size : ℕ) {range : GpuBufferRange}
    → buffer_range handle offset size ≡ ok range
    → IsRangeOf handle range
unfolding buffer_range
buffer_range-IsRangeOf handle offset size h = ground arith

pub query_range-IsQueriesOf :
    (handle : GpuQuerySetHandle) (first count : ℕ) {range : GpuQueryRange}
    → query_range handle first count ≡ ok range
    → IsQueriesOf handle range
unfolding query_range
query_range-IsQueriesOf handle first count h = ground arith

-- Two byte ranges overlap exactly when they share a byte, both nonempty.
pub buffer_overlaps_iff :
    (a b : GpuBufferRange)
    → 0 < a.size
    → 0 < b.size
    → (buffer_overlaps a b ≡ true) ↔ ((x : ℕ) × HasByte a x × HasByte b x)
unfolding buffer_overlaps
buffer_overlaps_iff a b p q =
    (λ h. (max a.offset b.offset, ground arith, ground arith), λ h. ground arith)

-- A nonempty byte range lies in another exactly when each of its bytes does.
pub buffer_contains_iff :
    (a b : GpuBufferRange)
    → 0 < b.size
    → (buffer_contains a b ≡ true) ↔ ((x : ℕ) → HasByte b x → HasByte a x)
unfolding buffer_contains
buffer_contains_iff a b p =
    (λ h x m. ground arith, λ h. ground (arith, h b.offset, h (b.offset + b.size - 1)))
