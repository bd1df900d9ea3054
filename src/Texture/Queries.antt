-- ===== src/Texture/Queries.antt =====
-- The queries of src/api/texture_format.rs over the table, and the copy footprint.
use runen_gpu.Base.{
  ℕ, ◌+◌, ◌/◌, ◌%◌, Bool, not, ◌||◌, Option, none, some, if◌then◌else◌, ◌==◌, ltb, is_some_and,
  checked_mul, u32_mod, u64_mod,
}
use runen_gpu.Base.Key.{key_eq}
use runen_gpu.Texture.Aspect.{
  GpuTextureAspect, supports, canonical, has_depth, has_stencil, class_requires_full_copy_plane,
  class_copy_aspect_valid, aspect_key,
}
use runen_gpu.Texture.Format.{GpuTextureFormat, format_key}
use runen_gpu.Texture.Semantics.{semantics, GpuTextureScalarClass}

unfoldable pub is_block_compressed : GpuTextureFormat → Bool
is_block_compressed format =
    not ((semantics format).block_width == 1) || not ((semantics format).block_height == 1)

unfoldable pub is_depth : GpuTextureFormat → Bool
is_depth format = has_depth (semantics format).aspect_class

unfoldable pub is_stencil : GpuTextureFormat → Bool
is_stencil format = has_stencil (semantics format).aspect_class

unfoldable pub whole_aspect : GpuTextureFormat → GpuTextureAspect
whole_aspect format = elim (canonical (semantics format).aspect_class GpuTextureAspect.all) [
  | some aspect ↦ aspect
  | none ↦ GpuTextureAspect.all
]

unfoldable pub canonical_aspect : GpuTextureFormat → GpuTextureAspect → Option GpuTextureAspect
canonical_aspect format aspect = canonical (semantics format).aspect_class aspect

unfoldable pub is_srgb : GpuTextureFormat → Bool
is_srgb format = (semantics format).srgb

unfoldable pub block_dimensions : GpuTextureFormat → ℕ × ℕ
block_dimensions format = ((semantics format).block_width, (semantics format).block_height)

unfoldable pub supports_aspect : GpuTextureFormat → GpuTextureAspect → Bool
supports_aspect format aspect = supports (semantics format).aspect_class aspect

unfoldable pub requires_full_copy_plane : GpuTextureFormat → Bool
requires_full_copy_plane format = class_requires_full_copy_plane (semantics format).aspect_class

unfoldable pub texture_to_texture_copy_aspect_valid : GpuTextureFormat → GpuTextureAspect → Bool
texture_to_texture_copy_aspect_valid format aspect =
    class_copy_aspect_valid (semantics format).aspect_class aspect

-- The depth-stencil plane pair has no copy aspect of its own.
abbrev pub single_plane : Option GpuTextureAspect → Option GpuTextureAspect
single_plane (some GpuTextureAspect.color) = some GpuTextureAspect.color
single_plane (some GpuTextureAspect.depth_only) = some GpuTextureAspect.depth_only
single_plane (some GpuTextureAspect.stencil_only) = some GpuTextureAspect.stencil_only
single_plane _ = none

unfoldable pub canonical_copy_aspect : GpuTextureFormat → GpuTextureAspect → Option GpuTextureAspect
unfolding canonical_aspect
canonical_copy_aspect format aspect = single_plane (canonical_aspect format aspect)

abbrev pub plane_block_size : GpuTextureFormat → Option GpuTextureAspect → Option ℕ
plane_block_size format (some GpuTextureAspect.color) = (semantics format).color_copy_block_size
plane_block_size format (some GpuTextureAspect.depth_only) =
    (semantics format).depth_copy_block_size
plane_block_size format (some GpuTextureAspect.stencil_only) =
    (semantics format).stencil_copy_block_size
plane_block_size format _ = none

unfoldable pub copy_block_size : GpuTextureFormat → GpuTextureAspect → Option ℕ
unfolding canonical_copy_aspect
copy_block_size format aspect = plane_block_size format (canonical_copy_aspect format aspect)

unfoldable pub default_copy_block_size : GpuTextureFormat → Option ℕ
unfolding copy_block_size
default_copy_block_size format = copy_block_size format GpuTextureAspect.all

unfoldable pub paired_view_format : GpuTextureFormat → Option GpuTextureFormat
paired_view_format format = (semantics format).paired_view_format

unfoldable pub view_compatible : GpuTextureFormat → GpuTextureFormat → Bool
view_compatible parent view =
    key_eq parent view || is_some_and (paired_view_format parent) (λ paired. key_eq paired view)

unfoldable pub raw_copy_compatible : GpuTextureFormat → GpuTextureFormat → Bool
raw_copy_compatible source destination =
    key_eq source destination
    || is_some_and (paired_view_format source) (λ paired. key_eq paired destination)

unfoldable pub color_scalar_class : GpuTextureFormat → Option GpuTextureScalarClass
color_scalar_class format = (semantics format).color_scalar_class

unfoldable pub component_count : GpuTextureFormat → ℕ
component_count format = (semantics format).component_count

unfoldable pub has_alpha : GpuTextureFormat → Bool
has_alpha format = (semantics format).has_alpha

-- `u32::div_ceil`.
unfoldable pub block_count : ℕ → ℕ → ℕ
block_count extent block = if ltb 0 (extent % block) then extent / block + 1 else extent / block

-- Bytes of one row of blocks, and the rows of blocks, of a copy of `width` by `height` texels.
unfoldable pub logical_copy_footprint : GpuTextureFormat → GpuTextureAspect → ℕ → ℕ → Option (ℕ × ℕ)
logical_copy_footprint format aspect width height =
    if width == 0 || height == 0 then none else elim (copy_block_size format aspect) [
      | none ↦ none
      | some bytes_per_block ↦
          elim (checked_mul u32_mod (block_count width (block_dimensions format).0)
            bytes_per_block) [
              | none ↦ none
              | some row_bytes ↦ some (row_bytes, block_count height (block_dimensions format).1)
            ]
    ]

unfoldable pub tightly_packed_copy_byte_len :
    GpuTextureFormat → GpuTextureAspect → ℕ → ℕ → ℕ → Option ℕ
tightly_packed_copy_byte_len format aspect width height depth_or_layers =
    elim (logical_copy_footprint format aspect width height) [
      | none ↦ none
      | some (row_bytes, block_rows) ↦ elim (checked_mul u64_mod row_bytes block_rows) [
        | none ↦ none
        | some rows ↦ checked_mul u64_mod rows depth_or_layers
      ]
    ]
