-- ===== src/Texture/Semantics.antt =====
-- The table `semantics` of src/api/texture_format.rs: what each texture format stores.
use runen_gpu.Base.{ℕ, Bool, true, false, Option, none, some}
use runen_gpu.Texture.Format.{
  GpuTextureFormat, r8_unorm, r8_snorm, r8_uint, r8_sint, rg8_unorm, rg8_snorm, rg8_uint, rg8_sint,
  r16_uint, r16_sint, r16_float, rg16_uint, rg16_sint, rg16_float, rgba8_unorm, rgba8_unorm_srgb,
  rgba8_snorm, rgba8_uint, rgba8_sint, bgra8_unorm, bgra8_unorm_srgb, rgb9e5_ufloat, rgb10a2_uint,
  rgb10a2_unorm, rg11b10_ufloat, r32_uint, r32_sint, r32_float, rg32_uint, rg32_sint, rg32_float,
  rgba32_uint, rgba32_sint, rgba32_float, rgba16_uint, rgba16_sint, rgba16_float, bc1_rgba_unorm,
  bc1_rgba_unorm_srgb, bc2_rgba_unorm, bc2_rgba_unorm_srgb, bc3_rgba_unorm, bc3_rgba_unorm_srgb,
  bc4_r_unorm, bc4_r_snorm, bc5_rg_unorm, bc5_rg_snorm, bc6h_rgb_ufloat, bc6h_rgb_float,
  bc7_rgba_unorm, bc7_rgba_unorm_srgb, etc2_rgb8_unorm, etc2_rgb8_unorm_srgb, etc2_rgb8_a1_unorm,
  etc2_rgb8_a1_unorm_srgb, etc2_rgba8_unorm, etc2_rgba8_unorm_srgb, eac_r11_unorm, eac_r11_snorm,
  eac_rg11_unorm, eac_rg11_snorm, astc4x4_unorm, astc4x4_unorm_srgb, astc5x4_unorm,
  astc5x4_unorm_srgb, astc5x5_unorm, astc5x5_unorm_srgb, astc6x5_unorm, astc6x5_unorm_srgb,
  astc6x6_unorm, astc6x6_unorm_srgb, astc8x5_unorm, astc8x5_unorm_srgb, astc8x6_unorm,
  astc8x6_unorm_srgb, astc8x8_unorm, astc8x8_unorm_srgb, astc10x5_unorm, astc10x5_unorm_srgb,
  astc10x6_unorm, astc10x6_unorm_srgb, astc10x8_unorm, astc10x8_unorm_srgb, astc10x10_unorm,
  astc10x10_unorm_srgb, astc12x10_unorm, astc12x10_unorm_srgb, astc12x12_unorm,
  astc12x12_unorm_srgb, stencil8, depth16_unorm, depth24_plus, depth24_plus_stencil8, depth32_float,
  depth32_float_stencil8,
}
use runen_gpu.Texture.Aspect.{GpuTextureAspectClass}

pub data GpuTextureScalarClass : Type 0 where
  float sint uint : GpuTextureScalarClass

pub record GpuTextureFormatSemantics : Type 0 where
  pub aspect_class : GpuTextureAspectClass
  pub block_width : ℕ
  pub block_height : ℕ
  pub color_copy_block_size : Option ℕ
  pub depth_copy_block_size : Option ℕ
  pub stencil_copy_block_size : Option ℕ
  pub srgb : Bool
  pub paired_view_format : Option GpuTextureFormat
  pub color_scalar_class : Option GpuTextureScalarClass
  pub component_count : ℕ
  pub has_alpha : Bool

-- A colour format of the table: it has neither a depth nor a stencil copy footprint.
abbrev color_row :
    ℕ
    → ℕ
    → ℕ
    → Bool
    → Option GpuTextureFormat
    → GpuTextureScalarClass
    → ℕ
    → Bool
    → GpuTextureFormatSemantics
color_row width height size srgb paired scalar components alpha = record {
  aspect_class = GpuTextureAspectClass.color;
  block_width = width;
  block_height = height;
  color_copy_block_size = some size;
  depth_copy_block_size = none;
  stencil_copy_block_size = none;
  srgb = srgb;
  paired_view_format = paired;
  color_scalar_class = some scalar;
  component_count = components;
  has_alpha = alpha;
}

-- A depth or stencil format of the table: one component, one texel to a block, no pairing.
abbrev depth_stencil_row : GpuTextureAspectClass → Option ℕ → Option ℕ → GpuTextureFormatSemantics
depth_stencil_row class depth stencil = record {
  aspect_class = class;
  block_width = 1;
  block_height = 1;
  color_copy_block_size = none;
  depth_copy_block_size = depth;
  stencil_copy_block_size = stencil;
  srgb = false;
  paired_view_format = none;
  color_scalar_class = none;
  component_count = 1;
  has_alpha = false;
}

unfoldable pub semantics : GpuTextureFormat → GpuTextureFormatSemantics
semantics r8_unorm = color_row 1 1 1 false none float 1 false
semantics r8_snorm = color_row 1 1 1 false none float 1 false
semantics r8_uint = color_row 1 1 1 false none uint 1 false
semantics r8_sint = color_row 1 1 1 false none sint 1 false
semantics rg8_unorm = color_row 1 1 2 false none float 2 false
semantics rg8_snorm = color_row 1 1 2 false none float 2 false
semantics rg8_uint = color_row 1 1 2 false none uint 2 false
semantics rg8_sint = color_row 1 1 2 false none sint 2 false
semantics r16_uint = color_row 1 1 2 false none uint 1 false
semantics r16_sint = color_row 1 1 2 false none sint 1 false
semantics r16_float = color_row 1 1 2 false none float 1 false
semantics rg16_uint = color_row 1 1 4 false none uint 2 false
semantics rg16_sint = color_row 1 1 4 false none sint 2 false
semantics rg16_float = color_row 1 1 4 false none float 2 false
semantics rgba8_unorm = color_row 1 1 4 false (some rgba8_unorm_srgb) float 4 true
semantics rgba8_unorm_srgb = color_row 1 1 4 true (some rgba8_unorm) float 4 true
semantics rgba8_snorm = color_row 1 1 4 false none float 4 true
semantics rgba8_uint = color_row 1 1 4 false none uint 4 true
semantics rgba8_sint = color_row 1 1 4 false none sint 4 true
semantics bgra8_unorm = color_row 1 1 4 false (some bgra8_unorm_srgb) float 4 true
semantics bgra8_unorm_srgb = color_row 1 1 4 true (some bgra8_unorm) float 4 true
semantics rgb9e5_ufloat = color_row 1 1 4 false none float 3 false
semantics rgb10a2_uint = color_row 1 1 4 false none uint 4 true
semantics rgb10a2_unorm = color_row 1 1 4 false none float 4 true
semantics rg11b10_ufloat = color_row 1 1 4 false none float 3 false
semantics r32_uint = color_row 1 1 4 false none uint 1 false
semantics r32_sint = color_row 1 1 4 false none sint 1 false
semantics r32_float = color_row 1 1 4 false none float 1 false
semantics rg32_uint = color_row 1 1 8 false none uint 2 false
semantics rg32_sint = color_row 1 1 8 false none sint 2 false
semantics rg32_float = color_row 1 1 8 false none float 2 false
semantics rgba32_uint = color_row 1 1 16 false none uint 4 true
semantics rgba32_sint = color_row 1 1 16 false none sint 4 true
semantics rgba32_float = color_row 1 1 16 false none float 4 true
semantics rgba16_uint = color_row 1 1 8 false none uint 4 true
semantics rgba16_sint = color_row 1 1 8 false none sint 4 true
semantics rgba16_float = color_row 1 1 8 false none float 4 true
semantics bc1_rgba_unorm = color_row 4 4 8 false (some bc1_rgba_unorm_srgb) float 4 true
semantics bc1_rgba_unorm_srgb = color_row 4 4 8 true (some bc1_rgba_unorm) float 4 true
semantics bc2_rgba_unorm = color_row 4 4 16 false (some bc2_rgba_unorm_srgb) float 4 true
semantics bc2_rgba_unorm_srgb = color_row 4 4 16 true (some bc2_rgba_unorm) float 4 true
semantics bc3_rgba_unorm = color_row 4 4 16 false (some bc3_rgba_unorm_srgb) float 4 true
semantics bc3_rgba_unorm_srgb = color_row 4 4 16 true (some bc3_rgba_unorm) float 4 true
semantics bc4_r_unorm = color_row 4 4 8 false none float 1 false
semantics bc4_r_snorm = color_row 4 4 8 false none float 1 false
semantics bc5_rg_unorm = color_row 4 4 16 false none float 2 false
semantics bc5_rg_snorm = color_row 4 4 16 false none float 2 false
semantics bc6h_rgb_ufloat = color_row 4 4 16 false none float 3 false
semantics bc6h_rgb_float = color_row 4 4 16 false none float 3 false
semantics bc7_rgba_unorm = color_row 4 4 16 false (some bc7_rgba_unorm_srgb) float 4 true
semantics bc7_rgba_unorm_srgb = color_row 4 4 16 true (some bc7_rgba_unorm) float 4 true
semantics etc2_rgb8_unorm = color_row 4 4 8 false (some etc2_rgb8_unorm_srgb) float 3 false
semantics etc2_rgb8_unorm_srgb = color_row 4 4 8 true (some etc2_rgb8_unorm) float 3 false
semantics etc2_rgb8_a1_unorm = color_row 4 4 8 false (some etc2_rgb8_a1_unorm_srgb) float 4 true
semantics etc2_rgb8_a1_unorm_srgb = color_row 4 4 8 true (some etc2_rgb8_a1_unorm) float 4 true
semantics etc2_rgba8_unorm = color_row 4 4 16 false (some etc2_rgba8_unorm_srgb) float 4 true
semantics etc2_rgba8_unorm_srgb = color_row 4 4 16 true (some etc2_rgba8_unorm) float 4 true
semantics eac_r11_unorm = color_row 4 4 8 false none float 1 false
semantics eac_r11_snorm = color_row 4 4 8 false none float 1 false
semantics eac_rg11_unorm = color_row 4 4 16 false none float 2 false
semantics eac_rg11_snorm = color_row 4 4 16 false none float 2 false
semantics astc4x4_unorm = color_row 4 4 16 false (some astc4x4_unorm_srgb) float 4 true
semantics astc4x4_unorm_srgb = color_row 4 4 16 true (some astc4x4_unorm) float 4 true
semantics astc5x4_unorm = color_row 5 4 16 false (some astc5x4_unorm_srgb) float 4 true
semantics astc5x4_unorm_srgb = color_row 5 4 16 true (some astc5x4_unorm) float 4 true
semantics astc5x5_unorm = color_row 5 5 16 false (some astc5x5_unorm_srgb) float 4 true
semantics astc5x5_unorm_srgb = color_row 5 5 16 true (some astc5x5_unorm) float 4 true
semantics astc6x5_unorm = color_row 6 5 16 false (some astc6x5_unorm_srgb) float 4 true
semantics astc6x5_unorm_srgb = color_row 6 5 16 true (some astc6x5_unorm) float 4 true
semantics astc6x6_unorm = color_row 6 6 16 false (some astc6x6_unorm_srgb) float 4 true
semantics astc6x6_unorm_srgb = color_row 6 6 16 true (some astc6x6_unorm) float 4 true
semantics astc8x5_unorm = color_row 8 5 16 false (some astc8x5_unorm_srgb) float 4 true
semantics astc8x5_unorm_srgb = color_row 8 5 16 true (some astc8x5_unorm) float 4 true
semantics astc8x6_unorm = color_row 8 6 16 false (some astc8x6_unorm_srgb) float 4 true
semantics astc8x6_unorm_srgb = color_row 8 6 16 true (some astc8x6_unorm) float 4 true
semantics astc8x8_unorm = color_row 8 8 16 false (some astc8x8_unorm_srgb) float 4 true
semantics astc8x8_unorm_srgb = color_row 8 8 16 true (some astc8x8_unorm) float 4 true
semantics astc10x5_unorm = color_row 10 5 16 false (some astc10x5_unorm_srgb) float 4 true
semantics astc10x5_unorm_srgb = color_row 10 5 16 true (some astc10x5_unorm) float 4 true
semantics astc10x6_unorm = color_row 10 6 16 false (some astc10x6_unorm_srgb) float 4 true
semantics astc10x6_unorm_srgb = color_row 10 6 16 true (some astc10x6_unorm) float 4 true
semantics astc10x8_unorm = color_row 10 8 16 false (some astc10x8_unorm_srgb) float 4 true
semantics astc10x8_unorm_srgb = color_row 10 8 16 true (some astc10x8_unorm) float 4 true
semantics astc10x10_unorm = color_row 10 10 16 false (some astc10x10_unorm_srgb) float 4 true
semantics astc10x10_unorm_srgb = color_row 10 10 16 true (some astc10x10_unorm) float 4 true
semantics astc12x10_unorm = color_row 12 10 16 false (some astc12x10_unorm_srgb) float 4 true
semantics astc12x10_unorm_srgb = color_row 12 10 16 true (some astc12x10_unorm) float 4 true
semantics astc12x12_unorm = color_row 12 12 16 false (some astc12x12_unorm_srgb) float 4 true
semantics astc12x12_unorm_srgb = color_row 12 12 16 true (some astc12x12_unorm) float 4 true
semantics stencil8 = depth_stencil_row GpuTextureAspectClass.stencil none (some 1)
semantics depth16_unorm = depth_stencil_row GpuTextureAspectClass.depth (some 2) none
semantics depth24_plus = depth_stencil_row GpuTextureAspectClass.depth none none
semantics depth24_plus_stencil8 =
    depth_stencil_row GpuTextureAspectClass.depth_stencil none (some 1)
semantics depth32_float = depth_stencil_row GpuTextureAspectClass.depth (some 4) none
semantics depth32_float_stencil8 =
    depth_stencil_row GpuTextureAspectClass.depth_stencil (some 4) (some 1)
