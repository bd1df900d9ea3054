-- ===== src/Access/Aspect.antt =====
-- How texture aspects overlap, contain and intersect each other inside a parent texture:
-- `aspects_overlap`, `aspect_contains` and `intersect_aspects` of src/api/access.rs.
use runen_gpu.Base.{
  ◌≡◌, ◌↔◌, Bool, true, false, not, ◌&&◌, ◌||◌, Option, none, some, arith, if◌then◌else◌, is_some,
}
use runen_gpu.Base.Key.{key_eq}
use runen_gpu.Texture.Aspect.{GpuTextureAspect, aspect_key, aspect_code}

unfoldable pub aspect_in : GpuTextureAspect → GpuTextureAspect → GpuTextureAspect
unfolding key_eq aspect_code
aspect_in value parent = if key_eq value GpuTextureAspect.all then parent else value

unfoldable pub aspects_overlap : GpuTextureAspect → GpuTextureAspect → GpuTextureAspect → Bool
unfolding aspect_in
aspects_overlap left right parent =
    let l = aspect_in left parent in
    let r = aspect_in right parent in
    key_eq l r
    || (key_eq parent GpuTextureAspect.all
        && (key_eq l GpuTextureAspect.all || key_eq r GpuTextureAspect.all))

unfoldable pub aspect_contains : GpuTextureAspect → GpuTextureAspect → GpuTextureAspect → Bool
unfolding aspect_in
aspect_contains outer inner parent =
    let o = aspect_in outer parent in
    let i = aspect_in inner parent in
    key_eq o i || (key_eq parent GpuTextureAspect.all && key_eq o GpuTextureAspect.all)

unfoldable pub intersect_aspects :
    GpuTextureAspect → GpuTextureAspect → GpuTextureAspect → Option GpuTextureAspect
unfolding aspects_overlap
intersect_aspects left right parent =
    if not (aspects_overlap left right parent)
    then none
    else let l = aspect_in left parent in
      let r = aspect_in right parent in
      if key_eq l GpuTextureAspect.all
      then some r
      else if key_eq r GpuTextureAspect.all || key_eq l r
      then some l
      else none

-- The planes of a texture, and those that an aspect selects in a texture of a whole aspect.
pub data Plane : Type 0 where
  color depth stencil : Plane

abbrev pub selects : GpuTextureAspect → Plane → Bool
selects GpuTextureAspect.all p = true
selects GpuTextureAspect.color Plane.color = true
selects GpuTextureAspect.depth_only Plane.depth = true
selects GpuTextureAspect.stencil_only Plane.stencil = true
selects _ _ = false

abbrev pub has_plane : GpuTextureAspect → GpuTextureAspect → Plane → Bool
has_plane parent GpuTextureAspect.all p = selects parent p
has_plane parent GpuTextureAspect.color p = selects GpuTextureAspect.color p
has_plane parent GpuTextureAspect.depth_only p = selects GpuTextureAspect.depth_only p
has_plane parent GpuTextureAspect.stencil_only p = selects GpuTextureAspect.stencil_only p

abbrev pub option_has_plane : GpuTextureAspect → Option GpuTextureAspect → Plane → Bool
option_has_plane parent none p = false
option_has_plane parent (some a) p = has_plane parent a p

-- The intersection of two aspects selects exactly the planes that both select.
pub intersect_aspects_planes :
    (left right parent : GpuTextureAspect) (p : Plane)
    → option_has_plane parent (intersect_aspects left right parent) p
      ≡ (has_plane parent left p && has_plane parent right p)
unfolding intersect_aspects
intersect_aspects_planes left right parent p = ground arith

abbrev pub share_plane : GpuTextureAspect → GpuTextureAspect → GpuTextureAspect → Bool
share_plane parent left right =
    (has_plane parent left Plane.color && has_plane parent right Plane.color)
    || (has_plane parent left Plane.depth && has_plane parent right Plane.depth)
    || (has_plane parent left Plane.stencil && has_plane parent right Plane.stencil)

-- Two aspects overlap exactly when they share a plane, and then their intersection exists.
pub aspects_overlap_planes :
    (left right parent : GpuTextureAspect)
    → (aspects_overlap left right parent ≡ share_plane parent left right)
      × (is_some (intersect_aspects left right parent) ≡ share_plane parent left right)
unfolding intersect_aspects
aspects_overlap_planes left right parent = (ground arith, ground arith)

-- An aspect contains another exactly when it selects every plane that the other selects.
pub aspect_contains_iff :
    (outer inner parent : GpuTextureAspect)
    → (aspect_contains outer inner parent ≡ true)
      ↔ ((p : Plane) → has_plane parent inner p ≡ true → has_plane parent outer p ≡ true)
unfolding aspect_contains
aspect_contains_iff outer inner parent =
    (λ h p e. ground arith, λ h. ground (arith, h Plane.color, h Plane.depth, h Plane.stencil))
