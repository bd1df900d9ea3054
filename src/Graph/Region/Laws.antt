-- ===== src/Graph/Region/Laws.antt =====
-- The region of an intersection is exactly what the two accesses share: laws of
-- `access_intersection` of src/api/graph/dependency.rs.
use runen_gpu.Base.{ℕ, ◌<◌, ◌≡◌, ◌↔◌, inl, inr, some, arith, Option-cases, u64_mod, u32_mod}
use runen_gpu.Base.Key.{key_eq_cases}
use runen_gpu.Texture.Aspect.{GpuTextureAspect}
use runen_gpu.Texture.Queries.{whole_aspect}
use runen_gpu.Resource.{
  GpuWorkResourceId, resource_id_key, GpuTextureSubresourceRange, subresource_range,
}
use runen_gpu.Access.Range.{buffer_range, query_range, HasByte, HasQuery, IsRangeOf, IsQueriesOf}
use runen_gpu.Access.Aspect.{intersect_aspects, Plane}
use runen_gpu.Access.Construct.{
  GpuBufferAccess, GpuTextureAccess, GpuQueryAccess, GpuResourceAccess, resource_identity,
}
use runen_gpu.Access.Laws.{HasTexel, IsSubresourceRange, planes_of}
use runen_gpu.Graph.Region.{
  GpuDependencyRegion, buffer_region, texture_region, query_region, shared_region,
  access_intersection,
}

-- One addressable piece of a resource: a byte, a plane of a layer of a mip level, or a query.
pub data Piece : Type 0 where
  byte : ℕ → Piece
  texel : ℕ → ℕ → Plane → Piece
  slot : ℕ → Piece

-- The pieces that an access touches, and those of a region of a texture of whole aspect `parent`.
abbrev pub Touches : GpuResourceAccess → Piece → Type 0
Touches (GpuResourceAccess.buffer a) (byte x) = HasByte a.range x
Touches (GpuResourceAccess.texture a) (texel mip layer p) =
    HasTexel (whole_aspect a.normalized_texture.format) a.normalized_subresources mip layer p
Touches (GpuResourceAccess.query a) (slot x) = HasQuery a.range x
Touches _ _ = ⊥

abbrev pub parent_aspect : GpuResourceAccess → GpuTextureAspect
parent_aspect (GpuResourceAccess.texture a) = whole_aspect a.normalized_texture.format
parent_aspect _ = GpuTextureAspect.all

abbrev pub InRegion : GpuTextureAspect → GpuDependencyRegion → Piece → Type 0
InRegion parent (GpuDependencyRegion.buffer range) (byte x) = HasByte range x
InRegion parent (GpuDependencyRegion.texture range) (texel mip layer p) =
    HasTexel parent range mip layer p
InRegion parent (GpuDependencyRegion.query range) (slot x) = HasQuery range x
InRegion parent _ _ = ⊥

-- What the constructors of an access have checked of it.
abbrev pub IsChecked : GpuResourceAccess → Type 0
IsChecked (GpuResourceAccess.buffer a) =
    IsRangeOf a.buffer a.range × (a.buffer.size_bytes < u64_mod)
IsChecked (GpuResourceAccess.texture a) = IsSubresourceRange a.normalized_subresources
IsChecked (GpuResourceAccess.query a) =
    IsQueriesOf a.query_set a.range × (a.query_set.count < u32_mod)
IsChecked (GpuResourceAccess.sampler handle) = Unit {0}

-- Accesses to one texture see the same texture.
abbrev pub SameTexture : GpuResourceAccess → GpuResourceAccess → Type 0
SameTexture left right = parent_aspect left ≡ parent_aspect right

-- A region and the pieces that it should hold.
abbrev Exact :
    GpuTextureAspect → GpuResourceAccess → GpuResourceAccess → GpuDependencyRegion → Type 0
Exact parent left right region =
    (piece : Piece) → InRegion parent region piece ↔ (Touches left piece × Touches right piece)

buffer_region-Exact :
    (left right : GpuBufferAccess) (region : GpuDependencyRegion)
    → buffer_region left right ≡ some region
    → Exact GpuTextureAspect.all
        (GpuResourceAccess.buffer left)
        (GpuResourceAccess.buffer right)
        region
unfolding buffer_region buffer_range
buffer_region-Exact left right (GpuDependencyRegion.buffer range) h (byte x) =
    (λ t. ground arith, λ t. ground arith)
buffer_region-Exact left right (GpuDependencyRegion.buffer range) h (texel m l p) =
    (λ t. absurd t, λ t. absurd t.0)
buffer_region-Exact left right (GpuDependencyRegion.buffer range) h (slot x) =
    (λ t. absurd t, λ t. absurd t.0)
buffer_region-Exact left right (GpuDependencyRegion.texture range) h piece = absurd (ground arith)
buffer_region-Exact left right (GpuDependencyRegion.query range) h piece = absurd (ground arith)

query_region-Exact :
    (left right : GpuQueryAccess) (region : GpuDependencyRegion)
    → query_region left right ≡ some region
    → Exact GpuTextureAspect.all
        (GpuResourceAccess.query left)
        (GpuResourceAccess.query right)
        region
unfolding query_region query_range
query_region-Exact left right (GpuDependencyRegion.query range) h (slot x) =
    (λ t. ground arith, λ t. ground arith)
query_region-Exact left right (GpuDependencyRegion.query range) h (texel m l p) =
    (λ t. absurd t, λ t. absurd t.0)
query_region-Exact left right (GpuDependencyRegion.query range) h (byte x) =
    (λ t. absurd t, λ t. absurd t.0)
query_region-Exact left right (GpuDependencyRegion.texture range) h piece = absurd (ground arith)
query_region-Exact left right (GpuDependencyRegion.buffer range) h piece = absurd (ground arith)

texture_region_texels :
    (left right : GpuTextureAccess) (range : GpuTextureSubresourceRange) (mip layer : ℕ) (p : Plane)
    → texture_region left right ≡ some (GpuDependencyRegion.texture range)
    → let parent = whole_aspect left.normalized_texture.format in
      HasTexel parent range mip layer p ↔ (
        HasTexel parent left.normalized_subresources mip layer p
        × HasTexel parent right.normalized_subresources mip layer p)
unfolding texture_region subresource_range
texture_region_texels left right range mip layer p h =
    let l = left.normalized_subresources in
    let r = right.normalized_subresources in
    elim (Option-cases
      (intersect_aspects l.aspect r.aspect (whole_aspect left.normalized_texture.format))) [
        | inl e ↦ absurd (ground arith)
        | inr (a, e) ↦
            let same =
              planes_of (whole_aspect left.normalized_texture.format) l.aspect r.aspect a p e in
            (λ t. ground arith, λ t. ground arith)
      ]

texture_region-Exact :
    (left right : GpuTextureAccess) (region : GpuDependencyRegion)
    → whole_aspect left.normalized_texture.format ≡ whole_aspect right.normalized_texture.format
    → texture_region left right ≡ some region
    → Exact
        (whole_aspect left.normalized_texture.format)
        (GpuResourceAccess.texture left)
        (GpuResourceAccess.texture right)
        region
unfolding texture_region
texture_region-Exact left right (GpuDependencyRegion.texture range) same h (texel mip layer p) =
    rw (← same) (texture_region_texels left right range mip layer p h)
texture_region-Exact left right (GpuDependencyRegion.texture range) same h (slot x) =
    (λ t. absurd t, λ t. absurd t.0)
texture_region-Exact left right (GpuDependencyRegion.texture range) same h (byte x) =
    (λ t. absurd t, λ t. absurd t.0)
texture_region-Exact left right (GpuDependencyRegion.query range) same h piece =
    absurd (ground arith)
texture_region-Exact left right (GpuDependencyRegion.buffer range) same h piece =
    absurd (ground arith)

shared_region-Exact :
    (left right : GpuResourceAccess) (region : GpuDependencyRegion)
    → SameTexture left right
    → shared_region left right ≡ some region
    → Exact (parent_aspect left) left right region
unfolding shared_region
shared_region-Exact (GpuResourceAccess.buffer left) (GpuResourceAccess.buffer right) region same h =
    buffer_region-Exact left right region h
shared_region-Exact (GpuResourceAccess.texture left) (GpuResourceAccess.texture right) region same
      h =
    texture_region-Exact left right region same h
shared_region-Exact (GpuResourceAccess.query left) (GpuResourceAccess.query right) region same h =
    query_region-Exact left right region h
shared_region-Exact _ _ region same h = cc

-- The region of two accesses that meet holds exactly the pieces that both touch, and it is of
-- their common resource.
pub access_intersection_exact :
    (left right : GpuResourceAccess) (identity : GpuWorkResourceId) (region : GpuDependencyRegion)
    (piece : Piece)
    → SameTexture left right
    → access_intersection left right ≡ some (identity, region)
    → (identity ≡ resource_identity left)
      × (identity ≡ resource_identity right)
      × (InRegion (parent_aspect left) region piece ↔ (Touches left piece × Touches right piece))
unfolding access_intersection
access_intersection_exact left right identity region piece same h =
    elim (key_eq_cases (resource_identity left) (resource_identity right)) [
      | inl (e, p) ↦ elim (Option-cases (shared_region left right)) [
        | inl none_shared ↦ absurd (ground arith)
        | inr (found, f) ↦
            let r : found ≡ region = ground arith in
            (ground arith, ground arith, shared_region-Exact left right region same (cc) piece)
      ]
      | inr (e, n) ↦ absurd (ground arith)
    ]
