-- ===== src/Texture/Aspect.antt =====
-- Texture aspects (src/api/resource.rs) and the aspect classes of src/api/texture_format.rs.
use runen_gpu.Base.{
  ℕ, ◌≡◌, Bool, true, false, not, Option, none, some, List, [], ◌∷◌, arith, if◌then◌else◌,
}
use runen_gpu.Base.Key.{Key}

pub data GpuTextureAspect : Type 0 where
  all color depth_only stencil_only : GpuTextureAspect

pub data GpuTextureAspectClass : Type 0 where
  color depth stencil depth_stencil : GpuTextureAspectClass

unfoldable pub aspect_code : GpuTextureAspect → ℕ
aspect_code GpuTextureAspect.all = 0
aspect_code GpuTextureAspect.color = 1
aspect_code GpuTextureAspect.depth_only = 2
aspect_code GpuTextureAspect.stencil_only = 3

pub aspect_injective :
    (a b : GpuTextureAspect) → ◌≡◌ {A = List ℕ} (aspect_code a ∷ []) (aspect_code b ∷ []) → a ≡ b
unfolding aspect_code
aspect_injective a b e = ground arith

instance abbrev pub aspect_key : Key GpuTextureAspect
aspect_key = record { encode = λ a. aspect_code a ∷ []; injective = aspect_injective }

unfoldable pub supports : GpuTextureAspectClass → GpuTextureAspect → Bool
supports _ GpuTextureAspect.all = true
supports GpuTextureAspectClass.color GpuTextureAspect.color = true
supports GpuTextureAspectClass.depth GpuTextureAspect.depth_only = true
supports GpuTextureAspectClass.stencil GpuTextureAspect.stencil_only = true
supports GpuTextureAspectClass.depth_stencil GpuTextureAspect.depth_only = true
supports GpuTextureAspectClass.depth_stencil GpuTextureAspect.stencil_only = true
supports _ _ = false

-- The `match` of `canonical`, behind its guard.
abbrev canonical_match : GpuTextureAspectClass → GpuTextureAspect → Option GpuTextureAspect
canonical_match GpuTextureAspectClass.color GpuTextureAspect.all = some GpuTextureAspect.color
canonical_match GpuTextureAspectClass.depth GpuTextureAspect.all = some GpuTextureAspect.depth_only
canonical_match GpuTextureAspectClass.stencil GpuTextureAspect.all =
    some GpuTextureAspect.stencil_only
canonical_match GpuTextureAspectClass.depth_stencil GpuTextureAspect.all = some GpuTextureAspect.all
canonical_match _ explicit = some explicit

unfoldable pub canonical : GpuTextureAspectClass → GpuTextureAspect → Option GpuTextureAspect
unfolding supports
canonical class aspect = if not (supports class aspect) then none else canonical_match class aspect

unfoldable pub has_depth : GpuTextureAspectClass → Bool
has_depth GpuTextureAspectClass.depth = true
has_depth GpuTextureAspectClass.depth_stencil = true
has_depth _ = false

unfoldable pub has_stencil : GpuTextureAspectClass → Bool
has_stencil GpuTextureAspectClass.stencil = true
has_stencil GpuTextureAspectClass.depth_stencil = true
has_stencil _ = false

unfoldable pub class_requires_full_copy_plane : GpuTextureAspectClass → Bool
class_requires_full_copy_plane GpuTextureAspectClass.color = false
class_requires_full_copy_plane _ = true

-- The `matches!` of `texture_to_texture_copy_aspect_valid`, on the canonical aspect.
abbrev copy_aspect_matches : GpuTextureAspectClass → Option GpuTextureAspect → Bool
copy_aspect_matches GpuTextureAspectClass.color (some GpuTextureAspect.color) = true
copy_aspect_matches GpuTextureAspectClass.depth (some GpuTextureAspect.depth_only) = true
copy_aspect_matches GpuTextureAspectClass.stencil (some GpuTextureAspect.stencil_only) = true
copy_aspect_matches GpuTextureAspectClass.depth_stencil (some GpuTextureAspect.all) = true
copy_aspect_matches _ _ = false

unfoldable pub class_copy_aspect_valid : GpuTextureAspectClass → GpuTextureAspect → Bool
unfolding canonical
class_copy_aspect_valid class aspect = copy_aspect_matches class (canonical class aspect)
