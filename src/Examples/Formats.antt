-- ===== src/Examples/Formats.antt =====
-- Texture formats: an RGBA pair, a compressed format and a depth and stencil format.
use runen_gpu.Base.{
  ℕ, ◌≡◌, refl, ◌⊎◌, ◌↔◌, ◌≤◌, ◌*◌, true, none, some, arith, ltb, u32_mod, u64_mod, if◌then◌else◌,
}
use runen_gpu.Base.Key.{codes_eq, key_eq}
use runen_gpu.Texture.Aspect.{
  GpuTextureAspect, supports, canonical, has_depth, has_stencil, class_requires_full_copy_plane,
  class_copy_aspect_valid, aspect_code,
}
use runen_gpu.Texture.Format.{rgba8_unorm, rgba8_unorm_srgb, bc1_rgba_unorm, code}
use runen_gpu.Texture.Semantics.{semantics}
use runen_gpu.Texture.Queries.{
  paired_view_format, raw_copy_compatible, copy_block_size, block_dimensions, block_count,
  canonical_copy_aspect, canonical_aspect, requires_full_copy_plane, supports_aspect, whole_aspect,
  logical_copy_footprint, tightly_packed_copy_byte_len, is_depth, is_stencil,
}
use runen_gpu.Texture.Pairing.{ArePaired, paired_view_format-ArePaired}
use runen_gpu.Texture.Footprint.{
  IsFootprint, logical_copy_footprint-IsFootprint, logical_copy_footprint-none,
  tightly_packed_copy_byte_len_exact, raw_copy_compatible-logical_copy_footprint,
}

rgba8_pairs : paired_view_format rgba8_unorm ≡ some rgba8_unorm_srgb
unfolding paired_view_format semantics
rgba8_pairs = refl

paired_view_format-ArePaired_example : ArePaired rgba8_unorm rgba8_unorm_srgb
paired_view_format-ArePaired_example =
    paired_view_format-ArePaired rgba8_unorm rgba8_unorm_srgb rgba8_pairs

rgba8_compatible : raw_copy_compatible rgba8_unorm rgba8_unorm_srgb ≡ true
unfolding raw_copy_compatible paired_view_format semantics key_eq codes_eq code
rgba8_compatible = refl

rgba8_back : raw_copy_compatible rgba8_unorm_srgb rgba8_unorm ≡ true
unfolding raw_copy_compatible paired_view_format semantics key_eq codes_eq code
rgba8_back = refl

bc1_block : copy_block_size bc1_rgba_unorm GpuTextureAspect.all ≡ some 8
unfolding semantics key_eq codes_eq code aspect_code supports canonical has_depth has_stencil
    class_requires_full_copy_plane class_copy_aspect_valid copy_block_size block_dimensions
    block_count canonical_copy_aspect canonical_aspect requires_full_copy_plane supports_aspect
    whole_aspect logical_copy_footprint is_depth is_stencil
bc1_block = refl

-- Ten texels by six are three blocks by two.
bc1_footprint : logical_copy_footprint bc1_rgba_unorm GpuTextureAspect.all 10 6 ≡ some (24, 2)
unfolding semantics key_eq codes_eq code aspect_code supports canonical has_depth has_stencil
    class_requires_full_copy_plane class_copy_aspect_valid copy_block_size block_dimensions
    block_count canonical_copy_aspect canonical_aspect requires_full_copy_plane supports_aspect
    whole_aspect logical_copy_footprint is_depth is_stencil
bc1_footprint = refl

logical_copy_footprint-IsFootprint_example :
    IsFootprint bc1_rgba_unorm GpuTextureAspect.all 10 6 24 2
logical_copy_footprint-IsFootprint_example =
    logical_copy_footprint-IsFootprint bc1_rgba_unorm GpuTextureAspect.all 10 6 24 2 bc1_footprint

logical_copy_footprint-none_example :
    (logical_copy_footprint bc1_rgba_unorm GpuTextureAspect.all 0 6 ≡ none) ↔ (
      (◌≡◌ {A = ℕ} 0 0)
      ⊎ (◌≡◌ {A = ℕ} 6 0)
      ⊎ (copy_block_size bc1_rgba_unorm GpuTextureAspect.all ≡ none)
      ⊎ ((n : ℕ) × (copy_block_size bc1_rgba_unorm GpuTextureAspect.all ≡ some n)
          × (u32_mod ≤ block_count 0 (block_dimensions bc1_rgba_unorm).0 * n)))
logical_copy_footprint-none_example =
    logical_copy_footprint-none bc1_rgba_unorm GpuTextureAspect.all 0 6

tightly_packed_copy_byte_len_exact_example :
    tightly_packed_copy_byte_len bc1_rgba_unorm GpuTextureAspect.all 10 6 3
    ≡ (if ltb (24 * 2 * 3) u64_mod then some (24 * 2 * 3) else none)
tightly_packed_copy_byte_len_exact_example =
    tightly_packed_copy_byte_len_exact bc1_rgba_unorm GpuTextureAspect.all 10 6 3 24 2 (omega arith)
      bc1_footprint

raw_copy_compatible-logical_copy_footprint_example :
    logical_copy_footprint rgba8_unorm GpuTextureAspect.color 10 6
    ≡ logical_copy_footprint rgba8_unorm_srgb GpuTextureAspect.color 10 6
raw_copy_compatible-logical_copy_footprint_example =
    raw_copy_compatible-logical_copy_footprint rgba8_unorm rgba8_unorm_srgb GpuTextureAspect.color
      10 6 rgba8_compatible
