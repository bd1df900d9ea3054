-- ===== src/Graph/Region.antt =====
-- The regions that two accesses share: `GpuDependencyRegion` and `access_intersection` of
-- src/api/graph/dependency.rs.
pub mod Laws
pub mod Complete
use runen_gpu.Base.{
  ℕ, ◌+◌, ◌-◌, ◌≤◌, ◌<◌, ◌≡◌, ◌↔◌, Bool, true, false, not, ◌&&◌, ◌||◌, Option, none, some, arith,
  Result, ok, err, to_option, if◌then◌else◌, leb, ltb, min, max,
}
use runen_gpu.Base.Optional.{◌>>=◌}
use runen_gpu.Base.Key.{key_eq}
use runen_gpu.Texture.Aspect.{GpuTextureAspect}
use runen_gpu.Texture.Queries.{whole_aspect}
use runen_gpu.Resource.{
  GpuWorkResourceId, resource_id_key, GpuTextureSubresourceRange, subresource_range,
}
use runen_gpu.Access.Range.{
  GpuBufferRange, GpuQueryRange, buffer_range, query_range, buffer_end, query_end,
}
use runen_gpu.Access.Aspect.{intersect_aspects}
use runen_gpu.Access.Construct.{
  GpuBufferAccess, GpuTextureAccess, GpuQueryAccess, GpuResourceAccess, resource_identity, mip_end,
  layer_end,
}

pub data GpuDependencyRegion : Type 0 where
  buffer : GpuBufferRange → GpuDependencyRegion
  texture : GpuTextureSubresourceRange → GpuDependencyRegion
  query : GpuQueryRange → GpuDependencyRegion

unfoldable pub buffer_region : GpuBufferAccess → GpuBufferAccess → Option GpuDependencyRegion
buffer_region left right =
    let start = max left.range.offset right.range.offset in
    let stop = min (buffer_end left.range) (buffer_end right.range) in
    if leb stop start then none else do
      range ← to_option (buffer_range left.buffer start (stop - start))
      some (GpuDependencyRegion.buffer range)

unfoldable pub texture_region : GpuTextureAccess → GpuTextureAccess → Option GpuDependencyRegion
texture_region left right = do
  let l = left.normalized_subresources
  let r = right.normalized_subresources
  aspect ← intersect_aspects l.aspect r.aspect (whole_aspect left.normalized_texture.format)
  let mip_start = max l.base_mip_level r.base_mip_level
  let mip_stop = min (mip_end l) (mip_end r)
  let layer_start = max l.base_array_layer r.base_array_layer
  let layer_stop = min (layer_end l) (layer_end r)
  if leb mip_stop mip_start || leb layer_stop layer_start then none else do
    range ←
        subresource_range mip_start (mip_stop - mip_start) layer_start (layer_stop - layer_start)
          aspect
    some (GpuDependencyRegion.texture range)

unfoldable pub query_region : GpuQueryAccess → GpuQueryAccess → Option GpuDependencyRegion
query_region left right =
    let start = max left.range.first right.range.first in
    let stop = min (query_end left.range) (query_end right.range) in
    if leb stop start then none else do
      range ← to_option (query_range left.query_set start (stop - start))
      some (GpuDependencyRegion.query range)

unfoldable pub shared_region : GpuResourceAccess → GpuResourceAccess → Option GpuDependencyRegion
unfolding buffer_region texture_region query_region
shared_region (GpuResourceAccess.buffer left) (GpuResourceAccess.buffer right) =
    buffer_region left right
shared_region (GpuResourceAccess.texture left) (GpuResourceAccess.texture right) =
    texture_region left right
shared_region (GpuResourceAccess.query left) (GpuResourceAccess.query right) =
    query_region left right
shared_region _ _ = none

unfoldable pub access_intersection :
    GpuResourceAccess → GpuResourceAccess → Option (GpuWorkResourceId × GpuDependencyRegion)
unfolding shared_region resource_identity
access_intersection left right =
    if not (key_eq (resource_identity left) (resource_identity right))
    then none
    else do region ← shared_region left right; some (resource_identity left, region)
