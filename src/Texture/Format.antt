-- ===== src/Texture/Format.antt =====
-- The texture formats of src/api/capability.rs, in the order of the source. `code` is the
-- discriminant, by which the derived `PartialEq` and `Ord` compare.
use runen_gpu.Base.{ℕ, ◌≡◌, refl, ap, List, [], ◌∷◌, some, get_elem?}
use runen_gpu.Base.Key.{Key, nat_injective}

pub data GpuTextureFormat : Type 0 where
  r8_unorm r8_snorm r8_uint r8_sint rg8_unorm rg8_snorm rg8_uint rg8_sint : GpuTextureFormat
  r16_uint r16_sint r16_float rg16_uint rg16_sint rg16_float rgba8_unorm : GpuTextureFormat
  rgba8_unorm_srgb rgba8_snorm rgba8_uint rgba8_sint bgra8_unorm : GpuTextureFormat
  bgra8_unorm_srgb rgb9e5_ufloat rgb10a2_uint rgb10a2_unorm rg11b10_ufloat : GpuTextureFormat
  r32_uint r32_sint r32_float rg32_uint rg32_sint rg32_float rgba32_uint : GpuTextureFormat
  rgba32_sint rgba32_float rgba16_uint rgba16_sint rgba16_float : GpuTextureFormat
  bc1_rgba_unorm bc1_rgba_unorm_srgb bc2_rgba_unorm bc2_rgba_unorm_srgb : GpuTextureFormat
  bc3_rgba_unorm bc3_rgba_unorm_srgb bc4_r_unorm bc4_r_snorm bc5_rg_unorm : GpuTextureFormat
  bc5_rg_snorm bc6h_rgb_ufloat bc6h_rgb_float bc7_rgba_unorm : GpuTextureFormat
  bc7_rgba_unorm_srgb etc2_rgb8_unorm etc2_rgb8_unorm_srgb etc2_rgb8_a1_unorm : GpuTextureFormat
  etc2_rgb8_a1_unorm_srgb etc2_rgba8_unorm etc2_rgba8_unorm_srgb : GpuTextureFormat
  eac_r11_unorm eac_r11_snorm eac_rg11_unorm eac_rg11_snorm astc4x4_unorm : GpuTextureFormat
  astc4x4_unorm_srgb astc5x4_unorm astc5x4_unorm_srgb astc5x5_unorm : GpuTextureFormat
  astc5x5_unorm_srgb astc6x5_unorm astc6x5_unorm_srgb astc6x6_unorm : GpuTextureFormat
  astc6x6_unorm_srgb astc8x5_unorm astc8x5_unorm_srgb astc8x6_unorm : GpuTextureFormat
  astc8x6_unorm_srgb astc8x8_unorm astc8x8_unorm_srgb astc10x5_unorm : GpuTextureFormat
  astc10x5_unorm_srgb astc10x6_unorm astc10x6_unorm_srgb astc10x8_unorm : GpuTextureFormat
  astc10x8_unorm_srgb astc10x10_unorm astc10x10_unorm_srgb astc12x10_unorm : GpuTextureFormat
  astc12x10_unorm_srgb astc12x12_unorm astc12x12_unorm_srgb stencil8 : GpuTextureFormat
  depth16_unorm depth24_plus depth24_plus_stencil8 depth32_float : GpuTextureFormat
  depth32_float_stencil8 : GpuTextureFormat

pub all_formats : List GpuTextureFormat
all_formats =
    r8_unorm ∷ r8_snorm ∷ r8_uint ∷ r8_sint ∷ rg8_unorm ∷ rg8_snorm ∷ rg8_uint ∷ rg8_sint ∷ r16_uint
    ∷ r16_sint ∷ r16_float ∷ rg16_uint ∷ rg16_sint ∷ rg16_float ∷ rgba8_unorm ∷ rgba8_unorm_srgb
    ∷ rgba8_snorm ∷ rgba8_uint ∷ rgba8_sint ∷ bgra8_unorm ∷ bgra8_unorm_srgb ∷ rgb9e5_ufloat
    ∷ rgb10a2_uint ∷ rgb10a2_unorm ∷ rg11b10_ufloat ∷ r32_uint ∷ r32_sint ∷ r32_float ∷ rg32_uint
    ∷ rg32_sint ∷ rg32_float ∷ rgba32_uint ∷ rgba32_sint ∷ rgba32_float ∷ rgba16_uint ∷ rgba16_sint
    ∷ rgba16_float ∷ bc1_rgba_unorm ∷ bc1_rgba_unorm_srgb ∷ bc2_rgba_unorm ∷ bc2_rgba_unorm_srgb
    ∷ bc3_rgba_unorm ∷ bc3_rgba_unorm_srgb ∷ bc4_r_unorm ∷ bc4_r_snorm ∷ bc5_rg_unorm ∷ bc5_rg_snorm
    ∷ bc6h_rgb_ufloat ∷ bc6h_rgb_float ∷ bc7_rgba_unorm ∷ bc7_rgba_unorm_srgb ∷ etc2_rgb8_unorm
    ∷ etc2_rgb8_unorm_srgb ∷ etc2_rgb8_a1_unorm ∷ etc2_rgb8_a1_unorm_srgb ∷ etc2_rgba8_unorm
    ∷ etc2_rgba8_unorm_srgb ∷ eac_r11_unorm ∷ eac_r11_snorm ∷ eac_rg11_unorm ∷ eac_rg11_snorm
    ∷ astc4x4_unorm ∷ astc4x4_unorm_srgb ∷ astc5x4_unorm ∷ astc5x4_unorm_srgb ∷ astc5x5_unorm
    ∷ astc5x5_unorm_srgb ∷ astc6x5_unorm ∷ astc6x5_unorm_srgb ∷ astc6x6_unorm ∷ astc6x6_unorm_srgb
    ∷ astc8x5_unorm ∷ astc8x5_unorm_srgb ∷ astc8x6_unorm ∷ astc8x6_unorm_srgb ∷ astc8x8_unorm
    ∷ astc8x8_unorm_srgb ∷ astc10x5_unorm ∷ astc10x5_unorm_srgb ∷ astc10x6_unorm
    ∷ astc10x6_unorm_srgb ∷ astc10x8_unorm ∷ astc10x8_unorm_srgb ∷ astc10x10_unorm
    ∷ astc10x10_unorm_srgb ∷ astc12x10_unorm ∷ astc12x10_unorm_srgb ∷ astc12x12_unorm
    ∷ astc12x12_unorm_srgb ∷ stencil8 ∷ depth16_unorm ∷ depth24_plus ∷ depth24_plus_stencil8
    ∷ depth32_float ∷ depth32_float_stencil8 ∷ []

unfoldable pub code : GpuTextureFormat → ℕ
code r8_unorm = 0
code r8_snorm = 1
code r8_uint = 2
code r8_sint = 3
code rg8_unorm = 4
code rg8_snorm = 5
code rg8_uint = 6
code rg8_sint = 7
code r16_uint = 8
code r16_sint = 9
code r16_float = 10
code rg16_uint = 11
code rg16_sint = 12
code rg16_float = 13
code rgba8_unorm = 14
code rgba8_unorm_srgb = 15
code rgba8_snorm = 16
code rgba8_uint = 17
code rgba8_sint = 18
code bgra8_unorm = 19
code bgra8_unorm_srgb = 20
code rgb9e5_ufloat = 21
code rgb10a2_uint = 22
code rgb10a2_unorm = 23
code rg11b10_ufloat = 24
code r32_uint = 25
code r32_sint = 26
code r32_float = 27
code rg32_uint = 28
code rg32_sint = 29
code rg32_float = 30
code rgba32_uint = 31
code rgba32_sint = 32
code rgba32_float = 33
code rgba16_uint = 34
code rgba16_sint = 35
code rgba16_float = 36
code bc1_rgba_unorm = 37
code bc1_rgba_unorm_srgb = 38
code bc2_rgba_unorm = 39
code bc2_rgba_unorm_srgb = 40
code bc3_rgba_unorm = 41
code bc3_rgba_unorm_srgb = 42
code bc4_r_unorm = 43
code bc4_r_snorm = 44
code bc5_rg_unorm = 45
code bc5_rg_snorm = 46
code bc6h_rgb_ufloat = 47
code bc6h_rgb_float = 48
code bc7_rgba_unorm = 49
code bc7_rgba_unorm_srgb = 50
code etc2_rgb8_unorm = 51
code etc2_rgb8_unorm_srgb = 52
code etc2_rgb8_a1_unorm = 53
code etc2_rgb8_a1_unorm_srgb = 54
code etc2_rgba8_unorm = 55
code etc2_rgba8_unorm_srgb = 56
code eac_r11_unorm = 57
code eac_r11_snorm = 58
code eac_rg11_unorm = 59
code eac_rg11_snorm = 60
code astc4x4_unorm = 61
code astc4x4_unorm_srgb = 62
code astc5x4_unorm = 63
code astc5x4_unorm_srgb = 64
code astc5x5_unorm = 65
code astc5x5_unorm_srgb = 66
code astc6x5_unorm = 67
code astc6x5_unorm_srgb = 68
code astc6x6_unorm = 69
code astc6x6_unorm_srgb = 70
code astc8x5_unorm = 71
code astc8x5_unorm_srgb = 72
code astc8x6_unorm = 73
code astc8x6_unorm_srgb = 74
code astc8x8_unorm = 75
code astc8x8_unorm_srgb = 76
code astc10x5_unorm = 77
code astc10x5_unorm_srgb = 78
code astc10x6_unorm = 79
code astc10x6_unorm_srgb = 80
code astc10x8_unorm = 81
code astc10x8_unorm_srgb = 82
code astc10x10_unorm = 83
code astc10x10_unorm_srgb = 84
code astc12x10_unorm = 85
code astc12x10_unorm_srgb = 86
code astc12x12_unorm = 87
code astc12x12_unorm_srgb = 88
code stencil8 = 89
code depth16_unorm = 90
code depth24_plus = 91
code depth24_plus_stencil8 = 92
code depth32_float = 93
code depth32_float_stencil8 = 94

code_found : (f : GpuTextureFormat) → get_elem? all_formats (code f) ≡ some f
unfolding all_formats code
code_found r8_unorm = refl
code_found _ = refl

pub code_injective : (f g : GpuTextureFormat) → code f ≡ code g → f ≡ g
code_injective f g e = cc (code_found f, code_found g, ap (get_elem? all_formats) e)

pub format_injective :
    (f g : GpuTextureFormat) → ◌≡◌ {A = List ℕ} (code f ∷ []) (code g ∷ []) → f ≡ g
format_injective f g e = code_injective f g (nat_injective (code f) (code g) e)

instance abbrev pub format_key : Key GpuTextureFormat
format_key = record { encode = λ f. code f ∷ []; injective = format_injective }
