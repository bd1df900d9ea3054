-- ===== src/Examples/Accesses.antt =====
-- Accesses to a buffer and, through a view, to the depth plane of a texture.
use runen_gpu.Base.{ℕ, ◌≡◌, refl, ◌↔◌, ◌≤◌, ◌<◌, ◌+◌, true, [], ◌∷◌, ok, err, arith, u64_mod}
use runen_gpu.Base.Key.{codes_eq, key_eq}
use runen_gpu.Base.SortedSet.{contains}
use runen_gpu.Texture.Aspect.{
  GpuTextureAspect, supports, canonical, has_depth, has_stencil, aspect_code,
}
use runen_gpu.Texture.Format.{depth24_plus_stencil8}
use runen_gpu.Texture.Semantics.{semantics}
use runen_gpu.Texture.Queries.{
  whole_aspect, canonical_aspect, supports_aspect, is_depth, is_stencil,
}
use runen_gpu.Resource.{
  GpuTextureHandle, GpuTextureUsage, GpuTextureDimension, GpuTextureSubresourceRange,
  GpuTextureViewHandle, subresource_range, texture_usage_code, texture_usage_key,
}
use runen_gpu.Access.Cause.{zero_range, arithmetic_overflow, out_of_bounds}
use runen_gpu.Access.Range.{GpuBufferRange, buffer_range, buffer_range_outcome}
use runen_gpu.Access.Aspect.{Plane, selects, aspect_in, intersect_aspects}
use runen_gpu.Access.Kind.{
  GpuTextureAccessKind, valid_transient_access, required_texture_usage, is_depth_stencil_attachment,
  is_attachment_role,
}
use runen_gpu.Access.Construct.{
  GpuTextureAccess, GpuTextureAccessResource, parent_texture, texture_layers,
  validate_texture_range, intersect_texture_ranges, normalize_subresources, usage_valid,
  validate_texture_usage, texture_access,
}
use runen_gpu.Access.Laws.{
  HasTexel, InView, intersect_texture_ranges-HasTexel, texture_access-HasTexel, HasAspect,
  texture_access_inside,
}
use runen_gpu.Access.Usage.{UsageFits, texture_access_usage}
use runen_gpu.Examples.Data.{vertices}

abbrev head : GpuBufferRange
head = record { offset = 0; size = 16 }

abbrev middle : GpuBufferRange
middle = record { offset = 8; size = 4 }

buffer_range_outcome_example :
    ((buffer_range vertices 60 8 ≡ err zero_range) ↔ (◌≡◌ {A = ℕ} 8 0))
    × ((buffer_range vertices 60 8 ≡ err arithmetic_overflow) ↔ ((0 < 8) × (u64_mod ≤ 60 + 8)))
    × ((buffer_range vertices 60 8 ≡ err out_of_bounds)
        ↔ ((0 < 8) × (60 + 8 < u64_mod) × (64 < 60 + 8)))
    × ((buffer_range vertices 60 8 ≡ ok (record { offset = 60; size = 8 }))
        ↔ ((0 < 8) × (60 + 8 ≤ 64)))
buffer_range_outcome_example = buffer_range_outcome vertices 60 8 (omega arith)

abbrev shadow : GpuTextureHandle
shadow = record {
  id = record { owner_scope = 1; local = 9 };
  dimension = GpuTextureDimension.d2;
  depth_or_layers = 6;
  mip_level_count = 4;
  format = depth24_plus_stencil8;
  usages = GpuTextureUsage.sampled ∷ [];
}

abbrev texels : ℕ → ℕ → ℕ → ℕ → GpuTextureAspect → GpuTextureSubresourceRange
texels mip mips layer layers aspect = record {
  base_mip_level = mip;
  mip_level_count = mips;
  base_array_layer = layer;
  array_layer_count = layers;
  aspect = aspect;
}

abbrev depth_view : GpuTextureViewHandle
depth_view = record {
  id = record { owner_scope = 1; local = 10 };
  texture = shadow;
  subresources = texels 1 2 2 3 GpuTextureAspect.depth_only;
}

abbrev through_view : GpuTextureAccessResource
through_view = GpuTextureAccessResource.texture_view depth_view

abbrev asked : GpuTextureSubresourceRange
asked = texels 0 3 3 3 GpuTextureAspect.all

abbrev seen : GpuTextureSubresourceRange
seen = texels 1 2 3 2 GpuTextureAspect.depth_only

abbrev sampled : GpuTextureAccess
sampled = record {
  resource = through_view;
  requested_subresources = asked;
  normalized_texture = shadow;
  normalized_subresources = seen;
  kind = GpuTextureAccessKind.sampled_read;
}

view_meets : intersect_texture_ranges depth_view.subresources asked shadow ≡ ok seen
unfolding semantics key_eq codes_eq contains aspect_code supports canonical has_depth has_stencil
    canonical_aspect supports_aspect whole_aspect is_depth is_stencil subresource_range
    texture_usage_code aspect_in intersect_aspects valid_transient_access required_texture_usage
    is_depth_stencil_attachment is_attachment_role parent_texture validate_texture_range
    intersect_texture_ranges normalize_subresources usage_valid validate_texture_usage
    texture_access
view_meets = refl

sampled_made : texture_access through_view asked GpuTextureAccessKind.sampled_read ≡ ok sampled
unfolding semantics key_eq codes_eq contains aspect_code supports canonical has_depth has_stencil
    canonical_aspect supports_aspect whole_aspect is_depth is_stencil subresource_range
    texture_usage_code aspect_in intersect_aspects valid_transient_access required_texture_usage
    is_depth_stencil_attachment is_attachment_role parent_texture validate_texture_range
    intersect_texture_ranges normalize_subresources usage_valid validate_texture_usage
    texture_access
sampled_made = refl

intersect_texture_ranges-HasTexel_example :
    HasTexel (whole_aspect depth24_plus_stencil8) seen 2 4 Plane.depth ↔ (
      HasTexel (whole_aspect depth24_plus_stencil8) depth_view.subresources 2 4 Plane.depth
      × HasTexel (whole_aspect depth24_plus_stencil8) asked 2 4 Plane.depth)
intersect_texture_ranges-HasTexel_example =
    intersect_texture_ranges-HasTexel depth_view.subresources asked seen shadow 2 4 Plane.depth
      view_meets

texture_access-HasTexel_example :
    (HasTexel (whole_aspect (parent_texture through_view).format) seen 2 4 Plane.depth ↔ (
      HasTexel (whole_aspect (parent_texture through_view).format) asked 2 4 Plane.depth
      × InView through_view (whole_aspect (parent_texture through_view).format) 2 4 Plane.depth))
    × (shadow ≡ parent_texture through_view)
texture_access-HasTexel_example =
    texture_access-HasTexel through_view asked GpuTextureAccessKind.sampled_read sampled 2 4
      Plane.depth sampled_made

seen_texel : HasTexel (whole_aspect (parent_texture through_view).format) seen 2 4 Plane.depth
unfolding whole_aspect parent_texture semantics canonical canonical_aspect
seen_texel = record { in_mips = ground arith; in_layers = ground arith; in_planes = refl }

texture_access_inside_example :
    (2 < (parent_texture through_view).mip_level_count)
    × (4 < texture_layers (parent_texture through_view))
    × (selects (whole_aspect (parent_texture through_view).format) Plane.depth ≡ true)
    × HasAspect (parent_texture through_view).format asked.aspect
texture_access_inside_example =
    texture_access_inside through_view asked GpuTextureAccessKind.sampled_read sampled 2 4
      Plane.depth sampled_made seen_texel

asked_fits : validate_texture_range (parent_texture through_view) asked ≡ ok tt
unfolding semantics key_eq codes_eq contains aspect_code supports canonical has_depth has_stencil
    canonical_aspect supports_aspect whole_aspect is_depth is_stencil subresource_range
    texture_usage_code aspect_in intersect_aspects valid_transient_access required_texture_usage
    is_depth_stencil_attachment is_attachment_role parent_texture validate_texture_range
    intersect_texture_ranges normalize_subresources usage_valid validate_texture_usage
    texture_access
asked_fits = refl

asked_normalized : normalize_subresources through_view asked (parent_texture through_view) ≡ ok seen
unfolding semantics key_eq codes_eq contains aspect_code supports canonical has_depth has_stencil
    canonical_aspect supports_aspect whole_aspect is_depth is_stencil subresource_range
    texture_usage_code aspect_in intersect_aspects valid_transient_access required_texture_usage
    is_depth_stencil_attachment is_attachment_role parent_texture validate_texture_range
    intersect_texture_ranges normalize_subresources usage_valid validate_texture_usage
    texture_access
asked_normalized = refl

texture_access_usage_example :
    ((access : GpuTextureAccess) × (texture_access through_view asked
          GpuTextureAccessKind.sampled_read
        ≡ ok access)
      × (access.kind ≡ GpuTextureAccessKind.sampled_read))
    ↔ UsageFits (parent_texture through_view) GpuTextureAccessKind.sampled_read
texture_access_usage_example =
    texture_access_usage through_view asked seen GpuTextureAccessKind.sampled_read asked_fits
      asked_normalized
