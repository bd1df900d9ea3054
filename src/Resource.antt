-- ===== src/Resource.antt =====
-- Logical resources: the identities, descriptors and handles of src/api/work_resource_id.rs,
-- src/api/resource.rs and src/api/handles.rs, as far as accesses and the work graph read them.
-- The labels, provenance and lifetimes that a descriptor carries besides are left out.
use runen_gpu.Base.{
  ℕ, ◌+◌, ◌≡◌, Bool, true, false, not, ◌||◌, List, [], ◌∷◌, Option, none, some, arith,
  if◌then◌else◌, ◌==◌, is_some, checked_add, u32_mod,
}
use runen_gpu.Base.Key.{Key}
use runen_gpu.Base.SortedSet.{contains}
use runen_gpu.Texture.Aspect.{GpuTextureAspect}
use runen_gpu.Texture.Format.{GpuTextureFormat}
pub mod Allocator

pub record GpuWorkResourceId : Type 0 where
  pub owner_scope : ℕ
  pub local : ℕ

pub resource_id_injective :
    (a b : GpuWorkResourceId)
    → ◌≡◌ {A = List ℕ} (a.owner_scope ∷ a.local ∷ []) (b.owner_scope ∷ b.local ∷ [])
    → a ≡ b
resource_id_injective a b e = ground arith

instance abbrev pub resource_id_key : Key GpuWorkResourceId
resource_id_key = record {
  encode = λ a. a.owner_scope ∷ a.local ∷ [];
  injective = resource_id_injective;
}

pub data GpuBufferUsage : Type 0 where
  uniform storage vertex index indirect copy_source copy_destination query_resolve : GpuBufferUsage

unfoldable pub buffer_usage_code : GpuBufferUsage → ℕ
buffer_usage_code GpuBufferUsage.uniform = 0
buffer_usage_code GpuBufferUsage.storage = 1
buffer_usage_code GpuBufferUsage.vertex = 2
buffer_usage_code GpuBufferUsage.index = 3
buffer_usage_code GpuBufferUsage.indirect = 4
buffer_usage_code GpuBufferUsage.copy_source = 5
buffer_usage_code GpuBufferUsage.copy_destination = 6
buffer_usage_code GpuBufferUsage.query_resolve = 7

pub buffer_usage_injective :
    (a b : GpuBufferUsage)
    → ◌≡◌ {A = List ℕ} (buffer_usage_code a ∷ []) (buffer_usage_code b ∷ [])
    → a ≡ b
unfolding buffer_usage_code
buffer_usage_injective a b e = ground arith

instance abbrev pub buffer_usage_key : Key GpuBufferUsage
buffer_usage_key = record {
  encode = λ a. buffer_usage_code a ∷ [];
  injective = buffer_usage_injective;
}

pub data GpuTextureUsage : Type 0 where
  sampled storage_read storage_write color_attachment depth_stencil_attachment : GpuTextureUsage
  transient_attachment copy_source copy_destination : GpuTextureUsage

unfoldable pub texture_usage_code : GpuTextureUsage → ℕ
texture_usage_code GpuTextureUsage.sampled = 0
texture_usage_code GpuTextureUsage.storage_read = 1
texture_usage_code GpuTextureUsage.storage_write = 2
texture_usage_code GpuTextureUsage.color_attachment = 3
texture_usage_code GpuTextureUsage.depth_stencil_attachment = 4
texture_usage_code GpuTextureUsage.transient_attachment = 5
texture_usage_code GpuTextureUsage.copy_source = 6
texture_usage_code GpuTextureUsage.copy_destination = 7

pub texture_usage_injective :
    (a b : GpuTextureUsage)
    → ◌≡◌ {A = List ℕ} (texture_usage_code a ∷ []) (texture_usage_code b ∷ [])
    → a ≡ b
unfolding texture_usage_code
texture_usage_injective a b e = ground arith

instance abbrev pub texture_usage_key : Key GpuTextureUsage
texture_usage_key = record {
  encode = λ a. texture_usage_code a ∷ [];
  injective = texture_usage_injective;
}

pub data GpuTextureDimension : Type 0 where
  d1 d2 d3 : GpuTextureDimension

-- A handle is equal to another when their identities are: `handle.id` stands for the lease.
pub record GpuBufferHandle : Type 0 where
  pub id : GpuWorkResourceId
  pub size_bytes : ℕ
  pub usages : List GpuBufferUsage

pub record GpuQuerySetHandle : Type 0 where
  pub id : GpuWorkResourceId
  pub count : ℕ

pub record GpuTextureHandle : Type 0 where
  pub id : GpuWorkResourceId
  pub dimension : GpuTextureDimension
  pub depth_or_layers : ℕ
  pub mip_level_count : ℕ
  pub format : GpuTextureFormat
  pub usages : List GpuTextureUsage

pub record GpuSamplerHandle : Type 0 where
  pub id : GpuWorkResourceId

pub record GpuTextureSubresourceRange : Type 0 where
  pub base_mip_level : ℕ
  pub mip_level_count : ℕ
  pub base_array_layer : ℕ
  pub array_layer_count : ℕ
  pub aspect : GpuTextureAspect

pub record GpuTextureViewHandle : Type 0 where
  pub id : GpuWorkResourceId
  pub texture : GpuTextureHandle
  pub subresources : GpuTextureSubresourceRange

-- `GpuTextureSubresourceRange::new`; `none` is its one error, `SubresourceOutOfBounds`.
unfoldable pub subresource_range :
    ℕ → ℕ → ℕ → ℕ → GpuTextureAspect → Option GpuTextureSubresourceRange
subresource_range base_mip mip_count base_layer layer_count aspect =
    if mip_count == 0
      || layer_count == 0
      || not (is_some (checked_add u32_mod base_mip mip_count))
      || not (is_some (checked_add u32_mod base_layer layer_count))
    then none
    else some (record {
      base_mip_level = base_mip;
      mip_level_count = mip_count;
      base_array_layer = base_layer;
      array_layer_count = layer_count;
      aspect = aspect;
    })
