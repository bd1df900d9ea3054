-- ===== src/Texture/Compression.antt =====
-- `compression_family` of src/api/texture_format.rs: the family of each block-compressed format.
use runen_gpu.Base.{Option, none, some}
use runen_gpu.Texture.Format.{
  GpuTextureFormat, bc1_rgba_unorm, bc1_rgba_unorm_srgb, bc2_rgba_unorm, bc2_rgba_unorm_srgb,
  bc3_rgba_unorm, bc3_rgba_unorm_srgb, bc4_r_unorm, bc4_r_snorm, bc5_rg_unorm, bc5_rg_snorm,
  bc6h_rgb_ufloat, bc6h_rgb_float, bc7_rgba_unorm, bc7_rgba_unorm_srgb, etc2_rgb8_unorm,
  etc2_rgb8_unorm_srgb, etc2_rgb8_a1_unorm, etc2_rgb8_a1_unorm_srgb, etc2_rgba8_unorm,
  etc2_rgba8_unorm_srgb, eac_r11_unorm, eac_r11_snorm, eac_rg11_unorm, eac_rg11_snorm,
  astc4x4_unorm, astc4x4_unorm_srgb, astc5x4_unorm, astc5x4_unorm_srgb, astc5x5_unorm,
  astc5x5_unorm_srgb, astc6x5_unorm, astc6x5_unorm_srgb, astc6x6_unorm, astc6x6_unorm_srgb,
  astc8x5_unorm, astc8x5_unorm_srgb, astc8x6_unorm, astc8x6_unorm_srgb, astc8x8_unorm,
  astc8x8_unorm_srgb, astc10x5_unorm, astc10x5_unorm_srgb, astc10x6_unorm, astc10x6_unorm_srgb,
  astc10x8_unorm, astc10x8_unorm_srgb, astc10x10_unorm, astc10x10_unorm_srgb, astc12x10_unorm,
  astc12x10_unorm_srgb, astc12x12_unorm, astc12x12_unorm_srgb,
}

pub data GpuTextureCompressionFamily : Type 0 where
  bc etc2 astc : GpuTextureCompressionFamily

unfoldable pub compression_family : GpuTextureFormat → Option GpuTextureCompressionFamily
compression_family bc1_rgba_unorm = some bc
compression_family bc1_rgba_unorm_srgb = some bc
compression_family bc2_rgba_unorm = some bc
compression_family bc2_rgba_unorm_srgb = some bc
compression_family bc3_rgba_unorm = some bc
compression_family bc3_rgba_unorm_srgb = some bc
compression_family bc4_r_unorm = some bc
compression_family bc4_r_snorm = some bc
compression_family bc5_rg_unorm = some bc
compression_family bc5_rg_snorm = some bc
compression_family bc6h_rgb_ufloat = some bc
compression_family bc6h_rgb_float = some bc
compression_family bc7_rgba_unorm = some bc
compression_family bc7_rgba_unorm_srgb = some bc
compression_family etc2_rgb8_unorm = some etc2
compression_family etc2_rgb8_unorm_srgb = some etc2
compression_family etc2_rgb8_a1_unorm = some etc2
compression_family etc2_rgb8_a1_unorm_srgb = some etc2
compression_family etc2_rgba8_unorm = some etc2
compression_family etc2_rgba8_unorm_srgb = some etc2
compression_family eac_r11_unorm = some etc2
compression_family eac_r11_snorm = some etc2
compression_family eac_rg11_unorm = some etc2
compression_family eac_rg11_snorm = some etc2
compression_family astc4x4_unorm = some astc
compression_family astc4x4_unorm_srgb = some astc
compression_family astc5x4_unorm = some astc
compression_family astc5x4_unorm_srgb = some astc
compression_family astc5x5_unorm = some astc
compression_family astc5x5_unorm_srgb = some astc
compression_family astc6x5_unorm = some astc
compression_family astc6x5_unorm_srgb = some astc
compression_family astc6x6_unorm = some astc
compression_family astc6x6_unorm_srgb = some astc
compression_family astc8x5_unorm = some astc
compression_family astc8x5_unorm_srgb = some astc
compression_family astc8x6_unorm = some astc
compression_family astc8x6_unorm_srgb = some astc
compression_family astc8x8_unorm = some astc
compression_family astc8x8_unorm_srgb = some astc
compression_family astc10x5_unorm = some astc
compression_family astc10x5_unorm_srgb = some astc
compression_family astc10x6_unorm = some astc
compression_family astc10x6_unorm_srgb = some astc
compression_family astc10x8_unorm = some astc
compression_family astc10x8_unorm_srgb = some astc
compression_family astc10x10_unorm = some astc
compression_family astc10x10_unorm_srgb = some astc
compression_family astc12x10_unorm = some astc
compression_family astc12x10_unorm_srgb = some astc
compression_family astc12x12_unorm = some astc
compression_family astc12x12_unorm_srgb = some astc
compression_family _ = none
