-- ===== src/Texture/Footprint.antt =====
-- What `copy_block_size`, `logical_copy_footprint` and `tightly_packed_copy_byte_len` of
-- src/api/texture_format.rs return.
use runen_gpu.Base.{
  ℕ, ◌+◌, ◌*◌, ◌/◌, ◌≤◌, ◌<◌, ◌≡◌, ap, ◌⊎◌, inl, inr, ◌↔◌, true, Option, none, some, arith,
  Option-cases, if◌then◌else◌, u32_mod, u64_mod, ltb,
}
use native.Mathlib.Nat.{mul-le-mul}
use runen_gpu.Texture.Aspect.{GpuTextureAspect}
use runen_gpu.Texture.Format.{GpuTextureFormat, r8_unorm}
use runen_gpu.Texture.Semantics.{semantics}
use runen_gpu.Texture.Queries.{
  block_dimensions, copy_block_size, block_count, logical_copy_footprint,
  tightly_packed_copy_byte_len, raw_copy_compatible,
}
use runen_gpu.Texture.Pairing.{storage, raw_copy_compatible-storage}

-- The rows of the table: blocks of 1 to 12 texels a side, footprints of 1 to 16 bytes.
record IsRow (width height : ℕ) (color depth stencil : Option ℕ) : Type 0 where
  wide : (0 < width) × (width ≤ 12)
  high : (0 < height) × (height ≤ 12)
  color_bytes : (n : ℕ) → color ≡ some n → (0 < n) × (n ≤ 16)
  depth_bytes : (n : ℕ) → depth ≡ some n → (0 < n) × (n ≤ 16)
  stencil_bytes : (n : ℕ) → stencil ≡ some n → (0 < n) × (n ≤ 16)

semantics-IsRow :
    (f : GpuTextureFormat)
    → let s = semantics f in
      IsRow s.block_width s.block_height s.color_copy_block_size s.depth_copy_block_size
        s.stencil_copy_block_size
unfolding semantics
semantics-IsRow r8_unorm = ground arith
semantics-IsRow _ = ground arith

-- A copy footprint is a positive number of bytes, at most 16.
pub copy_block_size_bounds :
    (f : GpuTextureFormat) (aspect : GpuTextureAspect) (n : ℕ)
    → copy_block_size f aspect ≡ some n
    → (0 < n) × (n ≤ 16)
unfolding copy_block_size
copy_block_size_bounds f aspect n h = ground (
  arith,
  (semantics-IsRow f).color_bytes n,
  (semantics-IsRow f).depth_bytes n,
  (semantics-IsRow f).stencil_bytes n,
)

-- Rounding up: the blocks cover the extent, and one block less does not.
block_count_covers :
    (extent block : ℕ)
    → 0 < block
    → 0 < extent
    → (extent ≤ block_count extent block * block)
      × (block_count extent block * block < extent + block)
unfolding block_count
block_count_covers extent block h k = grind arith

-- What a footprint of `rows` rows of `row_bytes` bytes says of a copy of `width` by `height`
-- texels: whole blocks of `n` bytes, no more of them than cover the texels.
pub record IsFootprint (f : GpuTextureFormat) (aspect : GpuTextureAspect)
    (width height row_bytes rows : ℕ) : Type 0 where
  pub bytes : ℕ
  pub columns : ℕ
  pub bytes_of_aspect : copy_block_size f aspect ≡ some bytes
  pub row : row_bytes ≡ columns * bytes
  pub fits : row_bytes < u32_mod
  pub wide :
      (width ≤ columns * (block_dimensions f).0)
      × (columns * (block_dimensions f).0 < width + (block_dimensions f).0)
  pub high :
      (height ≤ rows * (block_dimensions f).1)
      × (rows * (block_dimensions f).1 < height + (block_dimensions f).1)

dimensions_pos :
    (f : GpuTextureFormat) → (0 < (block_dimensions f).0) × (0 < (block_dimensions f).1)
unfolding block_dimensions
dimensions_pos f = ((semantics-IsRow f).wide.0, (semantics-IsRow f).high.0)

-- A footprint that is returned is exact: whole blocks that cover the texels and no block more.
pub logical_copy_footprint-IsFootprint :
    (f : GpuTextureFormat) (aspect : GpuTextureAspect) (width height row_bytes rows : ℕ)
    → logical_copy_footprint f aspect width height ≡ some (row_bytes, rows)
    → IsFootprint f aspect width height row_bytes rows
unfolding logical_copy_footprint
logical_copy_footprint-IsFootprint f aspect width height row_bytes rows h =
    elim (Option-cases (copy_block_size f aspect)) [
      | inl e ↦ absurd (ground arith)
      | inr (n, e) ↦ record {
        bytes = n;
        columns = block_count width (block_dimensions f).0;
        bytes_of_aspect = e;
        row = ground arith;
        fits = ground arith;
        wide = ground (arith, dimensions_pos f, block_count_covers width (block_dimensions f).0);
        high = ground (arith, dimensions_pos f, block_count_covers height (block_dimensions f).1);
      }
    ]

-- No footprint is returned exactly for an empty extent, an aspect that has none, or a row of
-- 2^32 bytes or more.
pub logical_copy_footprint-none :
    (f : GpuTextureFormat) (aspect : GpuTextureAspect) (width height : ℕ)
    → (logical_copy_footprint f aspect width height ≡ none) ↔ (
        (width ≡ 0)
        ⊎ (height ≡ 0)
        ⊎ (copy_block_size f aspect ≡ none)
        ⊎ ((n : ℕ) × (copy_block_size f aspect ≡ some n)
            × (u32_mod ≤ block_count width (block_dimensions f).0 * n)))
unfolding logical_copy_footprint
logical_copy_footprint-none f aspect width height = (
  λ h. elim (Option-cases (copy_block_size f aspect)) [
    | inl e ↦ ground arith
    | inr (n, e) ↦ ground arith
  ],
  λ h. ground arith,
)

mul_mono : (extent block : ℕ) → 0 < block → extent / block ≤ extent / block * block
mul_mono extent block h = grind arith

rows_le : (extent block : ℕ) → 0 < block → block_count extent block ≤ extent
unfolding block_count
rows_le extent block h = grind (arith, mul_mono extent block)

product_fits : (a b : ℕ) → a < u32_mod → b < u32_mod → a * b < u64_mod
product_fits a b h k =
    let p : a * b ≤ 4294967295 * 4294967295 =
      mul-le-mul {n₁ = a} {m₁ = b} {n₂ = 4294967295} {m₂ = 4294967295} (omega arith)
        (omega arith) in
    omega arith

rows_at :
    (f : GpuTextureFormat) (aspect : GpuTextureAspect) (width height row_bytes rows : ℕ)
    → logical_copy_footprint f aspect width height ≡ some (row_bytes, rows)
    → rows ≤ height
unfolding logical_copy_footprint
rows_at f aspect width height row_bytes rows h = elim (Option-cases (copy_block_size f aspect)) [
  | inl e ↦ absurd (ground arith)
  | inr (n, e) ↦ ground (arith, dimensions_pos f, rows_le height (block_dimensions f).1)
]

-- Of the two multiplications of the packed length the first cannot overflow, so that a length is
-- returned exactly when the whole product is below 2^64, and it is that product.
pub tightly_packed_copy_byte_len_exact :
    (f : GpuTextureFormat) (aspect : GpuTextureAspect) (width height depth row_bytes rows : ℕ)
    → height < u32_mod
    → logical_copy_footprint f aspect width height ≡ some (row_bytes, rows)
    → tightly_packed_copy_byte_len f aspect width height depth
      ≡ (if ltb (row_bytes * rows * depth) u64_mod then some (row_bytes * rows * depth) else none)
unfolding tightly_packed_copy_byte_len
tightly_packed_copy_byte_len_exact f aspect width height depth row_bytes rows hh h =
    rw (h, tightly_packed_copy_byte_len)
      (ground (
        arith,
        product_fits row_bytes rows,
        logical_copy_footprint-IsFootprint f aspect width height row_bytes rows h,
        rows_at f aspect width height row_bytes rows h,
      ))

copy_block_size_at :
    (f g : GpuTextureFormat) (aspect : GpuTextureAspect)
    → storage f ≡ storage g
    → (copy_block_size f aspect ≡ copy_block_size g aspect)
      × (block_dimensions f ≡ block_dimensions g)
unfolding copy_block_size block_dimensions storage
copy_block_size_at f g aspect e =
    let class = ap (λ s. s.aspect_class) e in
    let color = ap (λ s. s.color_copy_block_size) e in
    let depth = ap (λ s. s.depth_copy_block_size) e in
    let stencil = ap (λ s. s.stencil_copy_block_size) e in
    let width = ap (λ s. s.block_width) e in
    let height = ap (λ s. s.block_height) e in (ground arith, ground arith)

-- Formats that are compatible for raw copies have the same footprint for every aspect and extent.
pub raw_copy_compatible-logical_copy_footprint :
    (f g : GpuTextureFormat) (aspect : GpuTextureAspect) (width height : ℕ)
    → raw_copy_compatible f g ≡ true
    → logical_copy_footprint f aspect width height ≡ logical_copy_footprint g aspect width height
unfolding logical_copy_footprint
raw_copy_compatible-logical_copy_footprint f g aspect width height h =
    ground (arith, copy_block_size_at f g aspect (raw_copy_compatible-storage f g h))
