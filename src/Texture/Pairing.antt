-- ===== src/Texture/Pairing.antt =====
-- The sRGB pairing of texture formats, and copy compatibility: `paired_view_format`,
-- `raw_copy_compatible` and `compression_family` of src/api/texture_format.rs.
use runen_gpu.Base.{
  ◌≡◌, ◌≢◌, refl, sym, subst, ◌⊎◌, inl, inr, ap, ◌↔◌, ◌∙◌, Bool, true, false, not, is_some_and,
  Option, none, some, arith, is_some,
}
use runen_gpu.Base.Key.{key_eq, key_eq_refl, key_eq_sound, key_eq_cases}
use runen_gpu.Texture.Format.{GpuTextureFormat, r8_unorm, format_key}
use runen_gpu.Texture.Semantics.{semantics, GpuTextureFormatSemantics}
use runen_gpu.Texture.Compression.{compression_family}
use runen_gpu.Texture.Queries.{
  is_block_compressed, paired_view_format, raw_copy_compatible, view_compatible, is_srgb,
}

-- What a format stores, with the transfer function and the pairing left out.
unfoldable pub storage : GpuTextureFormat → GpuTextureFormatSemantics
storage f = record (semantics f) { srgb = false; paired_view_format = none }

-- A format and its pair name each other, and differ in the transfer function only.
pub record ArePaired (f g : GpuTextureFormat) : Type 0 where
  pub back : paired_view_format g ≡ some f
  pub transfer : is_srgb g ≡ not (is_srgb f)
  pub stores : storage g ≡ storage f

abbrev pub Pairs : GpuTextureFormat → Option GpuTextureFormat → Type 0
Pairs f none = Unit {0}
Pairs f (some g) = ArePaired f g

paired_at : (f : GpuTextureFormat) → Pairs f (paired_view_format f)
unfolding paired_view_format semantics is_srgb storage
paired_at r8_unorm = tt
paired_at _ = ground arith

-- A format and the pair that the table gives it name each other, differ in the sRGB transfer, and
-- store the same.
pub paired_view_format-ArePaired :
    (f g : GpuTextureFormat) → paired_view_format f ≡ some g → ArePaired f g
paired_view_format-ArePaired f g h = subst (Pairs f) h (paired_at f)

-- The compatible formats of `f`: itself and its pair.
raw_copy_compatible_iff :
    (f g : GpuTextureFormat)
    → (raw_copy_compatible f g ≡ true) ↔ ((f ≡ g) ⊎ (paired_view_format f ≡ some g))
unfolding raw_copy_compatible
raw_copy_compatible_iff f g = elim (key_eq_cases f g) [
  | inl (e, p) ↦ rw e (λ _. inl p, λ _. refl)
  | inr (e, n) ↦ rw e (paired_test (paired_view_format f), named_test n (paired_view_format f))
]
  where
    paired_test :
        (o : Option GpuTextureFormat)
        → is_some_and o (λ paired. key_eq paired g) ≡ true
        → (f ≡ g) ⊎ (o ≡ some g)
    paired_test none h = cc
    paired_test (some a) h = inr (ap some (key_eq_sound a g h))

    named_test :
        f ≢ g
        → (o : Option GpuTextureFormat) → (f ≡ g) ⊎ (o ≡ some g)
        → is_some_and o (λ paired. key_eq paired g) ≡ true
    named_test n o (inl p) = absurd (n p)
    named_test n o (inr p) = rw p (key_eq_refl g)

raw_copy_compatible_symm :
    (f g : GpuTextureFormat) → raw_copy_compatible f g ≡ true → raw_copy_compatible g f ≡ true
raw_copy_compatible_symm f g h =
    (raw_copy_compatible_iff g f).1 (elim ((raw_copy_compatible_iff f g).0 h) [
      | inl p ↦ inl (sym p)
      | inr p ↦ inr (paired_view_format-ArePaired f g p).back
    ])

Bool-eq_of_iff : (a b : Bool) → (a ≡ true → b ≡ true) → (b ≡ true → a ≡ true) → a ≡ b
Bool-eq_of_iff true b h k = sym (h refl)
Bool-eq_of_iff false true h k = k refl
Bool-eq_of_iff false false h k = refl

-- Compatibility for raw copies is reflexive and symmetric, and it agrees with the compatibility
-- of texture views.
pub raw_copy_compatible_laws :
    (f g : GpuTextureFormat)
    → (raw_copy_compatible f f ≡ true)
      × (raw_copy_compatible f g ≡ raw_copy_compatible g f)
      × (view_compatible f g ≡ raw_copy_compatible f g)
unfolding view_compatible raw_copy_compatible
raw_copy_compatible_laws f g = (
  (raw_copy_compatible_iff f f).1 (inl refl),
  Bool-eq_of_iff _ _ (raw_copy_compatible_symm f g) (raw_copy_compatible_symm g f),
  refl,
)

-- Two formats compatible with a third are compatible with each other.
pub raw_copy_compatible_trans :
    (f g h : GpuTextureFormat)
    → raw_copy_compatible f g ≡ true
    → raw_copy_compatible g h ≡ true
    → raw_copy_compatible f h ≡ true
raw_copy_compatible_trans f g h p q =
    (raw_copy_compatible_iff f h).1
      (join ((raw_copy_compatible_iff f g).0 p) ((raw_copy_compatible_iff g h).0 q))
  where
    join :
        (f ≡ g) ⊎ (paired_view_format f ≡ some g)
        → (g ≡ h) ⊎ (paired_view_format g ≡ some h)
        → (f ≡ h) ⊎ (paired_view_format f ≡ some h)
    join (inl a) b = rw a b
    join (inr a) (inl b) = inr (a ∙ ap some b)
    join (inr a) (inr b) = inl (cc ((paired_view_format-ArePaired f g a).back, b))

-- Formats compatible for raw copies agree in the whole table but for the sRGB transfer and the
-- pair.
pub raw_copy_compatible-storage :
    (f g : GpuTextureFormat) → raw_copy_compatible f g ≡ true → storage f ≡ storage g
raw_copy_compatible-storage f g h = elim ((raw_copy_compatible_iff f g).0 h) [
  | inl p ↦ ap storage p
  | inr p ↦ sym (paired_view_format-ArePaired f g p).stores
]

compressed_at : (f : GpuTextureFormat) → is_block_compressed f ≡ is_some (compression_family f)
unfolding is_block_compressed semantics compression_family
compressed_at r8_unorm = refl
compressed_at _ = refl

-- The two tables agree: the formats with blocks larger than a texel are exactly those that
-- belong to a compression family.
pub is_block_compressed-compression_family :
    (f : GpuTextureFormat) → is_block_compressed f ≡ is_some (compression_family f)
is_block_compressed-compression_family f = compressed_at f
