-- ===== src/Access/Construct.antt =====
-- The access constructors with their checks: `GpuBufferAccess::new`, `GpuTextureAccess::new`,
-- `GpuQueryAccess::new` and what they call in src/api/access.rs.
use runen_gpu.Base.{
  ℕ, ◌+◌, ◌-◌, Bool, true, false, not, ◌&&◌, ◌||◌, none, some, Result, ok, err, ◌>>=◌, ◌>>◌,
  reject_if, ok_or, is_none_or, differs, ◌==◌, ltb, leb, min, max,
}
use runen_gpu.Base.Key.{key_eq}
use runen_gpu.Base.SortedSet.{contains}
use runen_gpu.Texture.Aspect.{GpuTextureAspect}
use runen_gpu.Texture.Queries.{whole_aspect, supports_aspect, is_depth, is_stencil}
use runen_gpu.Resource.{
  GpuWorkResourceId, resource_id_key, GpuBufferHandle, GpuTextureHandle, GpuTextureViewHandle,
  GpuQuerySetHandle, GpuSamplerHandle, GpuTextureSubresourceRange, GpuTextureDimension,
  GpuTextureUsage, buffer_usage_key, texture_usage_key, subresource_range,
}
use runen_gpu.Access.Cause.{
  GpuAccessCause, out_of_bounds, invalid_descriptor_usage, invalid_texture_aspect,
  invalid_view_intersection, invalid_d3_interpretation, parent_lease_mismatch,
}
use runen_gpu.Access.Range.{GpuBufferRange, GpuQueryRange, buffer_range, query_range}
use runen_gpu.Access.Aspect.{aspects_overlap, aspect_contains, intersect_aspects}
use runen_gpu.Access.Kind.{
  GpuBufferAccessKind, GpuTextureAccessKind, GpuQueryAccessKind, required_buffer_usage,
  required_texture_usage, valid_transient_access, is_depth_stencil_attachment, is_attachment_role,
  buffer_kind_reads, buffer_kind_writes, texture_kind_reads, texture_kind_writes, query_kind_reads,
  query_kind_writes,
}

abbrev pub mip_end : GpuTextureSubresourceRange → ℕ
mip_end range = range.base_mip_level + range.mip_level_count

abbrev pub layer_end : GpuTextureSubresourceRange → ℕ
layer_end range = range.base_array_layer + range.array_layer_count

unfoldable pub texture_overlaps :
    GpuTextureSubresourceRange → GpuTextureSubresourceRange → GpuTextureAspect → Bool
texture_overlaps a b parent =
    ltb a.base_mip_level (mip_end b)
    && ltb b.base_mip_level (mip_end a)
    && ltb a.base_array_layer (layer_end b)
    && ltb b.base_array_layer (layer_end a)
    && aspects_overlap a.aspect b.aspect parent

unfoldable pub texture_contains :
    GpuTextureSubresourceRange → GpuTextureSubresourceRange → GpuTextureAspect → Bool
texture_contains a b parent =
    leb a.base_mip_level b.base_mip_level
    && leb (mip_end b) (mip_end a)
    && leb a.base_array_layer b.base_array_layer
    && leb (layer_end b) (layer_end a)
    && aspect_contains a.aspect b.aspect parent

abbrev pub is_d3 : GpuTextureDimension → Bool
is_d3 GpuTextureDimension.d3 = true
is_d3 _ = false

abbrev pub texture_layers : GpuTextureHandle → ℕ
texture_layers texture = elim texture.dimension [
  | GpuTextureDimension.d2 ↦ texture.depth_or_layers
  | _ ↦ 1
]

unfoldable pub whole_subresources :
    GpuTextureHandle → Result GpuAccessCause GpuTextureSubresourceRange
whole_subresources texture =
    ok_or
      (subresource_range 0 texture.mip_level_count 0 (texture_layers texture)
        (whole_aspect texture.format))
      out_of_bounds

unfoldable pub validate_texture_range :
    GpuTextureHandle → GpuTextureSubresourceRange → Result GpuAccessCause (Unit {0})
validate_texture_range texture range = do
  reject_if
      (is_d3 texture.dimension
        && (not (range.base_array_layer == 0) || not (range.array_layer_count == 1)))
      invalid_d3_interpretation
  reject_if
      (ltb texture.mip_level_count (mip_end range)
        || ltb (texture_layers texture) (layer_end range))
      out_of_bounds
  reject_if (not (supports_aspect texture.format range.aspect)) invalid_texture_aspect
  ok tt

-- The ranges are read after the test, as `expect` has it: an absent aspect was rejected.
unfoldable pub intersect_texture_ranges :
    GpuTextureSubresourceRange
    → GpuTextureSubresourceRange
    → GpuTextureHandle
    → Result GpuAccessCause GpuTextureSubresourceRange
intersect_texture_ranges left right texture =
    let mip_start = max left.base_mip_level right.base_mip_level in
    let mips_end = min (mip_end left) (mip_end right) in
    let layer_start = max left.base_array_layer right.base_array_layer in
    let layers_end = min (layer_end left) (layer_end right) in
    elim (intersect_aspects left.aspect right.aspect (whole_aspect texture.format)) [
      | none ↦ err invalid_view_intersection
      | some aspect ↦ do
        reject_if (leb mips_end mip_start || leb layers_end layer_start) invalid_view_intersection
        ok_or
            (subresource_range mip_start (mips_end - mip_start) layer_start
              (layers_end - layer_start) aspect)
            invalid_view_intersection
    ]

-- The `valid` of `validate_texture_usage`.
unfoldable pub usage_valid : GpuTextureHandle → GpuTextureAccessKind → Bool
usage_valid texture kind = elim kind [
  | GpuTextureAccessKind.storage_read_write ↦
      contains GpuTextureUsage.storage_read texture.usages
      && contains GpuTextureUsage.storage_write texture.usages
  | other ↦ is_none_or (required_texture_usage other) (λ usage. contains usage texture.usages)
]

unfoldable pub validate_texture_usage :
    GpuTextureHandle → GpuTextureAccessKind → Result GpuAccessCause (Unit {0})
validate_texture_usage texture kind = do
  reject_if
      (contains GpuTextureUsage.transient_attachment texture.usages
        && not (valid_transient_access kind))
      invalid_descriptor_usage
  reject_if (not (usage_valid texture kind)) invalid_descriptor_usage
  reject_if
      (differs (is_depth_stencil_attachment kind)
          (is_depth texture.format || is_stencil texture.format)
        && is_attachment_role kind)
      invalid_texture_aspect
  ok tt

pub record GpuBufferAccess : Type 0 where
  pub buffer : GpuBufferHandle
  pub range : GpuBufferRange
  pub kind : GpuBufferAccessKind

unfoldable pub buffer_access :
    GpuBufferHandle → GpuBufferRange → GpuBufferAccessKind → Result GpuAccessCause GpuBufferAccess
buffer_access buffer range kind = do
  checked ← buffer_range buffer range.offset range.size
  reject_if (not (contains (required_buffer_usage kind) buffer.usages)) invalid_descriptor_usage
  ok (record { buffer = buffer; range = range; kind = kind })

pub data GpuTextureAccessResource : Type 0 where
  texture : GpuTextureHandle → GpuTextureAccessResource
  texture_view : GpuTextureViewHandle → GpuTextureAccessResource

unfoldable pub parent_texture : GpuTextureAccessResource → GpuTextureHandle
parent_texture (GpuTextureAccessResource.texture t) = t
parent_texture (GpuTextureAccessResource.texture_view view) = view.texture

pub record GpuTextureAccess : Type 0 where
  pub resource : GpuTextureAccessResource
  pub requested_subresources : GpuTextureSubresourceRange
  pub normalized_texture : GpuTextureHandle
  pub normalized_subresources : GpuTextureSubresourceRange
  pub kind : GpuTextureAccessKind

-- The requested range, cut to the view when the resource is one.
unfoldable pub normalize_subresources :
    GpuTextureAccessResource
    → GpuTextureSubresourceRange
    → GpuTextureHandle
    → Result GpuAccessCause GpuTextureSubresourceRange
normalize_subresources (GpuTextureAccessResource.texture t) requested parent = ok requested
normalize_subresources (GpuTextureAccessResource.texture_view view) requested parent = do
  reject_if (not (key_eq view.texture.id parent.id)) parent_lease_mismatch
  intersect_texture_ranges view.subresources requested parent

unfoldable pub texture_access :
    GpuTextureAccessResource
    → GpuTextureSubresourceRange
    → GpuTextureAccessKind
    → Result GpuAccessCause GpuTextureAccess
texture_access resource requested kind = do
  let parent = parent_texture resource
  validate_texture_range parent requested
  normalized ← normalize_subresources resource requested parent
  validate_texture_usage parent kind
  ok (record {
    resource = resource;
    requested_subresources = requested;
    normalized_texture = parent;
    normalized_subresources = normalized;
    kind = kind;
  })

pub record GpuQueryAccess : Type 0 where
  pub query_set : GpuQuerySetHandle
  pub range : GpuQueryRange
  pub kind : GpuQueryAccessKind

unfoldable pub query_access :
    GpuQuerySetHandle → GpuQueryRange → GpuQueryAccessKind → Result GpuAccessCause GpuQueryAccess
query_access query_set range kind = do
  checked ← query_range query_set range.first range.count
  ok (record { query_set = query_set; range = range; kind = kind })

pub data GpuResourceAccess : Type 0 where
  buffer : GpuBufferAccess → GpuResourceAccess
  texture : GpuTextureAccess → GpuResourceAccess
  query : GpuQueryAccess → GpuResourceAccess
  sampler : GpuSamplerHandle → GpuResourceAccess

unfoldable pub resource_identity : GpuResourceAccess → GpuWorkResourceId
resource_identity (GpuResourceAccess.buffer access) = access.buffer.id
resource_identity (GpuResourceAccess.texture access) = access.normalized_texture.id
resource_identity (GpuResourceAccess.query access) = access.query_set.id
resource_identity (GpuResourceAccess.sampler handle) = handle.id

unfoldable pub reads : GpuResourceAccess → Bool
reads (GpuResourceAccess.buffer access) = buffer_kind_reads access.kind
reads (GpuResourceAccess.texture access) = texture_kind_reads access.kind
reads (GpuResourceAccess.query access) = query_kind_reads access.kind
reads (GpuResourceAccess.sampler handle) = true

unfoldable pub writes : GpuResourceAccess → Bool
writes (GpuResourceAccess.buffer access) = buffer_kind_writes access.kind
writes (GpuResourceAccess.texture access) = texture_kind_writes access.kind
writes (GpuResourceAccess.query access) = query_kind_writes access.kind
writes (GpuResourceAccess.sampler handle) = false
