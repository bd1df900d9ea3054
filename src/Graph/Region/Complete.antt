-- ===== src/Graph/Region/Complete.antt =====
-- Accesses of one resource that `access_intersection` of src/api/graph/dependency.rs tells apart
-- share nothing.
use runen_gpu.Base.{ℕ, ◌<◌, ◌≡◌, inl, inr, false, ◌&&◌, none, arith, u64_mod, u32_mod, Option-cases}
use runen_gpu.Base.Key.{key_eq_refl}
use runen_gpu.Texture.Aspect.{GpuTextureAspect}
use runen_gpu.Texture.Queries.{whole_aspect}
use runen_gpu.Resource.{resource_id_key, subresource_range}
use runen_gpu.Access.Range.{IsRangeOf, IsQueriesOf, HasByte, HasQuery, buffer_range, query_range}
use runen_gpu.Access.Aspect.{intersect_aspects, intersect_aspects_planes, Plane, has_plane}
use runen_gpu.Access.Construct.{
  GpuBufferAccess, GpuTextureAccess, GpuQueryAccess, GpuResourceAccess, resource_identity,
}
use runen_gpu.Access.Laws.{HasTexel, IsSubresourceRange}
use runen_gpu.Graph.Region.{
  buffer_region, texture_region, query_region, shared_region, access_intersection,
}
use runen_gpu.Graph.Region.Laws.{Piece, byte, texel, slot, Touches, IsChecked, SameTexture}

buffer_apart :
    (left right : GpuBufferAccess) (x : ℕ)
    → IsRangeOf left.buffer left.range
    → left.buffer.size_bytes < u64_mod
    → buffer_region left right ≡ none
    → HasByte left.range x
    → HasByte right.range x
    → ⊥
unfolding buffer_region buffer_range
buffer_apart left right x c b h l r = ground arith

query_apart :
    (left right : GpuQueryAccess) (x : ℕ)
    → IsQueriesOf left.query_set left.range
    → left.query_set.count < u32_mod
    → query_region left right ≡ none
    → HasQuery left.range x
    → HasQuery right.range x
    → ⊥
unfolding query_region query_range
query_apart left right x c b h l r = ground arith

no_plane :
    (parent a b : GpuTextureAspect) (p : Plane)
    → intersect_aspects a b parent ≡ none
    → (has_plane parent a p && has_plane parent b p) ≡ false
no_plane parent a b p h = ground (arith, intersect_aspects_planes a b parent p)

texture_apart :
    (left right : GpuTextureAccess) (mip layer : ℕ) (p : Plane)
    → IsSubresourceRange left.normalized_subresources
    → texture_region left right ≡ none
    → HasTexel
        (whole_aspect left.normalized_texture.format)
        left.normalized_subresources
        mip
        layer
        p
    → HasTexel
        (whole_aspect left.normalized_texture.format)
        right.normalized_subresources
        mip
        layer
        p
    → ⊥
unfolding texture_region subresource_range
texture_apart left right mip layer p c h l r =
    let lr = left.normalized_subresources in
    let rr = right.normalized_subresources in
    elim (Option-cases
      (intersect_aspects lr.aspect rr.aspect (whole_aspect left.normalized_texture.format))) [
        | inl e ↦
            ground (
              arith,
              no_plane (whole_aspect left.normalized_texture.format) lr.aspect rr.aspect p e,
            )
        | inr (a, e) ↦ ground arith
      ]

shared_apart :
    (left right : GpuResourceAccess) (piece : Piece)
    → IsChecked left
    → SameTexture left right
    → shared_region left right ≡ none
    → Touches left piece
    → Touches right piece
    → ⊥
unfolding shared_region
shared_apart (GpuResourceAccess.buffer left) (GpuResourceAccess.buffer right) (byte x) c same h l
      r =
    buffer_apart left right x c.0 c.1 h l r
shared_apart (GpuResourceAccess.texture left) (GpuResourceAccess.texture right) (texel mip layer p)
      c same h l r =
    texture_apart left right mip layer p c h l (rw same r)
shared_apart (GpuResourceAccess.query left) (GpuResourceAccess.query right) (slot x) c same h l r =
    query_apart left right x c.0 c.1 h l r
shared_apart _ _ (byte x) c same h l r = ground arith
shared_apart _ _ (texel mip layer p) c same h l r = ground arith
shared_apart _ _ (slot x) c same h l r = ground arith

-- Two accesses of one resource for which there is no intersection share no piece of it.
pub access_intersection-none :
    (left right : GpuResourceAccess) (piece : Piece)
    → IsChecked left
    → SameTexture left right
    → resource_identity left ≡ resource_identity right
    → access_intersection left right ≡ none
    → ¬ (Touches left piece × Touches right piece)
unfolding access_intersection
access_intersection-none left right piece c same e h t =
    elim (Option-cases (shared_region left right)) [
      | inl apart ↦ shared_apart left right piece c same apart t.0 t.1
      | inr (region, s) ↦ ground (arith, key_eq_refl (resource_identity right))
    ]
