-- ===== src/Access/Laws.antt =====
-- What the checked texture ranges and accesses of src/api/access.rs cover: mip levels, array
-- layers and planes.
use runen_gpu.Base.{
  ℕ, ◌+◌, ◌≤◌, ◌<◌, ◌≡◌, ◌↔◌, inl, inr, true, false, ◌&&◌, none, some, arith, ok, Option-cases,
  u32_mod,
}
use runen_gpu.Texture.Aspect.{
  GpuTextureAspect, GpuTextureAspectClass, supports, canonical, has_depth, has_stencil,
}
use runen_gpu.Texture.Format.{GpuTextureFormat}
use runen_gpu.Texture.Semantics.{semantics}
use runen_gpu.Texture.Queries.{whole_aspect, supports_aspect, is_depth, is_stencil}
use runen_gpu.Resource.{
  GpuTextureHandle, GpuTextureSubresourceRange, subresource_range, texture_usage_key,
  resource_id_key,
}
use runen_gpu.Access.Aspect.{Plane, selects, has_plane, intersect_aspects, intersect_aspects_planes}
use runen_gpu.Access.Kind.{GpuTextureAccessKind}
use runen_gpu.Access.Construct.{
  GpuTextureAccess, GpuTextureAccessResource, mip_end, layer_end, texture_layers,
  validate_texture_range, intersect_texture_ranges, normalize_subresources, texture_access,
  parent_texture, validate_texture_usage,
}

-- A range of a texture whose whole aspect is `parent` holds plane `p` of layer `layer` of mip
-- level `mip`.
pub record HasTexel (parent : GpuTextureAspect) (range : GpuTextureSubresourceRange) (mip layer : ℕ)
    (p : Plane) : Type 0 where
  pub in_mips : (range.base_mip_level ≤ mip) × (mip < range.base_mip_level + range.mip_level_count)
  pub in_layers :
      (range.base_array_layer ≤ layer) × (layer < range.base_array_layer + range.array_layer_count)
  pub in_planes : has_plane parent range.aspect p ≡ true

-- What `subresource_range` checks.
pub record IsSubresourceRange (range : GpuTextureSubresourceRange) : Type 0 where
  pub mips : (0 < range.mip_level_count) × (mip_end range < u32_mod)
  pub layers : (0 < range.array_layer_count) × (layer_end range < u32_mod)

pub subresource_range-IsSubresourceRange :
    (base_mip mips base_layer layers : ℕ) (aspect : GpuTextureAspect)
    {range : GpuTextureSubresourceRange}
    → subresource_range base_mip mips base_layer layers aspect ≡ some range
    → IsSubresourceRange range
unfolding subresource_range
subresource_range-IsSubresourceRange base_mip mips base_layer layers aspect h = ground arith

pub planes_of :
    (parent a b c : GpuTextureAspect) (p : Plane)
    → intersect_aspects a b parent ≡ some c
    → has_plane parent c p ≡ (has_plane parent a p && has_plane parent b p)
planes_of parent a b c p h = ground (arith, intersect_aspects_planes a b parent p)

-- The intersection of two texture ranges holds exactly the texels that both hold.
pub intersect_texture_ranges-HasTexel :
    (left right range : GpuTextureSubresourceRange) (texture : GpuTextureHandle) (mip layer : ℕ)
    (p : Plane)
    → intersect_texture_ranges left right texture ≡ ok range
    → let parent = whole_aspect texture.format in
      HasTexel parent range mip layer p
      ↔ (HasTexel parent left mip layer p × HasTexel parent right mip layer p)
unfolding intersect_texture_ranges subresource_range
intersect_texture_ranges-HasTexel left right range texture mip layer p h =
    elim (Option-cases (intersect_aspects left.aspect right.aspect (whole_aspect texture.format))) [
      | inl e ↦ absurd (ground arith)
      | inr (a, e) ↦
          let same = planes_of (whole_aspect texture.format) left.aspect right.aspect a p e in
          (λ t. ground arith, λ t. ground arith)
    ]

-- The texels that a resource exposes: all of a texture, and those of the view's range.
abbrev pub InView : GpuTextureAccessResource → GpuTextureAspect → ℕ → ℕ → Plane → Type 0
InView (GpuTextureAccessResource.texture t) parent mip layer p = Unit {0}
InView (GpuTextureAccessResource.texture_view view) parent mip layer p =
    HasTexel parent view.subresources mip layer p

validated_inside :
    (texture : GpuTextureHandle) (range : GpuTextureSubresourceRange)
    → validate_texture_range texture range ≡ ok tt
    → (mip_end range ≤ texture.mip_level_count)
      × (layer_end range ≤ texture_layers texture)
      × (supports_aspect texture.format range.aspect ≡ true)
unfolding validate_texture_range
validated_inside texture range h = ground arith

pub record Constructed (resource : GpuTextureAccessResource)
    (requested : GpuTextureSubresourceRange) (kind : GpuTextureAccessKind)
    (access : GpuTextureAccess) : Type 0 where
  pub range_checked : validate_texture_range (parent_texture resource) requested ≡ ok tt
  pub normalized :
      normalize_subresources resource requested (parent_texture resource)
      ≡ ok access.normalized_subresources
  pub usage_checked : validate_texture_usage (parent_texture resource) kind ≡ ok tt
  pub of_parent : access.normalized_texture ≡ parent_texture resource
  pub of_kind : access.kind ≡ kind

pub texture_access-Constructed :
    (resource : GpuTextureAccessResource) (requested : GpuTextureSubresourceRange)
    (kind : GpuTextureAccessKind) (access : GpuTextureAccess)
    → texture_access resource requested kind ≡ ok access
    → Constructed resource requested kind access
unfolding texture_access
texture_access-Constructed resource requested kind access h = ground arith

normalized-HasTexel :
    (resource : GpuTextureAccessResource) (requested range : GpuTextureSubresourceRange)
    (mip layer : ℕ) (p : Plane)
    → normalize_subresources resource requested (parent_texture resource) ≡ ok range
    → let parent = whole_aspect (parent_texture resource).format in
      HasTexel parent range mip layer p
      ↔ (HasTexel parent requested mip layer p × InView resource parent mip layer p)
unfolding normalize_subresources parent_texture
normalized-HasTexel (GpuTextureAccessResource.texture t) requested range mip layer p h =
    let e : requested ≡ range = cc in (λ x. rw e (x, tt), λ x. rw (← e) x.0)
normalized-HasTexel (GpuTextureAccessResource.texture_view view) requested range mip layer p h =
    let both =
      intersect_texture_ranges-HasTexel view.subresources requested range view.texture mip layer p
        (ground arith) in
    (λ x. ((both.0 x).1, (both.0 x).0), λ x. both.1 (x.1, x.0))

-- An access that is constructed reaches what was requested, cut to the view when it goes through
-- one, of the texture that the resource stands for.
pub texture_access-HasTexel :
    (resource : GpuTextureAccessResource) (requested : GpuTextureSubresourceRange)
    (kind : GpuTextureAccessKind) (access : GpuTextureAccess) (mip layer : ℕ) (p : Plane)
    → texture_access resource requested kind ≡ ok access
    → let parent = whole_aspect (parent_texture resource).format in
      (HasTexel parent access.normalized_subresources mip layer p
        ↔ (HasTexel parent requested mip layer p × InView resource parent mip layer p))
      × (access.normalized_texture ≡ parent_texture resource)
texture_access-HasTexel resource requested kind access mip layer p h =
    let made = texture_access-Constructed resource requested kind access h in
    (
      normalized-HasTexel resource requested access.normalized_subresources mip layer p
          made.normalized,
      made.of_parent,
    )

-- The aspects that a format has, told by whether it stores depth or stencil.
abbrev pub HasAspect : GpuTextureFormat → GpuTextureAspect → Type 0
HasAspect format GpuTextureAspect.all = Unit
HasAspect format GpuTextureAspect.color = (is_depth format ≡ false) × (is_stencil format ≡ false)
HasAspect format GpuTextureAspect.depth_only = is_depth format ≡ true
HasAspect format GpuTextureAspect.stencil_only = is_stencil format ≡ true

supports-colors :
    (class : GpuTextureAspectClass)
    → supports class GpuTextureAspect.color ≡ true
    → (has_depth class ≡ false) × (has_stencil class ≡ false)
unfolding supports has_depth has_stencil
supports-colors GpuTextureAspectClass.color h = ground arith
supports-colors GpuTextureAspectClass.depth h = ground arith
supports-colors GpuTextureAspectClass.stencil h = ground arith
supports-colors GpuTextureAspectClass.depth_stencil h = ground arith

supports-depth :
    (class : GpuTextureAspectClass)
    → supports class GpuTextureAspect.depth_only ≡ true
    → has_depth class ≡ true
unfolding supports has_depth
supports-depth GpuTextureAspectClass.color h = ground arith
supports-depth GpuTextureAspectClass.depth h = ground arith
supports-depth GpuTextureAspectClass.stencil h = ground arith
supports-depth GpuTextureAspectClass.depth_stencil h = ground arith

supports-stencil :
    (class : GpuTextureAspectClass)
    → supports class GpuTextureAspect.stencil_only ≡ true
    → has_stencil class ≡ true
unfolding supports has_stencil
supports-stencil GpuTextureAspectClass.color h = ground arith
supports-stencil GpuTextureAspectClass.depth h = ground arith
supports-stencil GpuTextureAspectClass.stencil h = ground arith
supports-stencil GpuTextureAspectClass.depth_stencil h = ground arith

supports_aspect-HasAspect :
    (format : GpuTextureFormat) (aspect : GpuTextureAspect)
    → supports_aspect format aspect ≡ true
    → HasAspect format aspect
unfolding supports_aspect is_depth is_stencil
supports_aspect-HasAspect format GpuTextureAspect.all h = tt
supports_aspect-HasAspect format GpuTextureAspect.color h =
    supports-colors (semantics format).aspect_class h
supports_aspect-HasAspect format GpuTextureAspect.depth_only h =
    supports-depth (semantics format).aspect_class h
supports_aspect-HasAspect format GpuTextureAspect.stencil_only h =
    supports-stencil (semantics format).aspect_class h

abbrev class_whole : GpuTextureAspectClass → GpuTextureAspect
class_whole class = elim (canonical class GpuTextureAspect.all) [
  | some aspect ↦ aspect
  | none ↦ GpuTextureAspect.all
]

supports-selects :
    (class : GpuTextureAspectClass) (aspect : GpuTextureAspect) (p : Plane)
    → supports class aspect ≡ true
    → has_plane (class_whole class) aspect p ≡ true
    → selects (class_whole class) p ≡ true
unfolding supports canonical
supports-selects GpuTextureAspectClass.color aspect p h k = ground arith
supports-selects GpuTextureAspectClass.depth aspect p h k = ground arith
supports-selects GpuTextureAspectClass.stencil aspect p h k = ground arith
supports-selects GpuTextureAspectClass.depth_stencil aspect p h k = ground arith

supported_plane :
    (format : GpuTextureFormat) (aspect : GpuTextureAspect) (p : Plane)
    → supports_aspect format aspect ≡ true
    → has_plane (whole_aspect format) aspect p ≡ true
    → selects (whole_aspect format) p ≡ true
unfolding whole_aspect supports_aspect
supported_plane format aspect p h k = supports-selects (semantics format).aspect_class aspect p h k

-- Each texel of an access that is constructed lies inside the texture: on a mip level and an array
-- layer that the texture has, and on a plane that the whole aspect of its format selects. The
-- requested aspect is one that the format has.
pub texture_access_inside :
    (resource : GpuTextureAccessResource) (requested : GpuTextureSubresourceRange)
    (kind : GpuTextureAccessKind) (access : GpuTextureAccess) (mip layer : ℕ) (p : Plane)
    → texture_access resource requested kind ≡ ok access
    → HasTexel
        (whole_aspect (parent_texture resource).format)
        access.normalized_subresources
        mip
        layer
        p
    → (mip < (parent_texture resource).mip_level_count)
      × (layer < texture_layers (parent_texture resource))
      × (selects (whole_aspect (parent_texture resource).format) p ≡ true)
      × HasAspect (parent_texture resource).format requested.aspect
texture_access_inside resource requested kind access mip layer p h x =
    let made = texture_access-Constructed resource requested kind access h in
    let covers =
      normalized-HasTexel resource requested access.normalized_subresources mip layer p
        made.normalized in
    let inside = validated_inside (parent_texture resource) requested made.range_checked in
    let format = (parent_texture resource).format in
    let t = (covers.0 x).0 in
    (
      omega arith,
      omega arith,
      supported_plane format requested.aspect p inside.2 t.in_planes,
      supports_aspect-HasAspect format requested.aspect inside.2,
    )
