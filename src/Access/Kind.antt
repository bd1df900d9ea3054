-- ===== src/Access/Kind.antt =====
-- What an access of each kind reads and writes, and the usage of the resource that it needs:
-- the access kinds of src/api/access.rs.
use runen_gpu.Base.{Bool, true, false, not, ◌&&◌, Option, none, some}
use runen_gpu.Resource.{GpuBufferUsage, GpuTextureUsage}

pub data GpuBufferAccessKind : Type 0 where
  uniform_read storage_read storage_write storage_read_write vertex_read : GpuBufferAccessKind
  index_read indirect_read copy_source copy_destination : GpuBufferAccessKind
  query_resolve_destination : GpuBufferAccessKind

pub data GpuAttachmentLoadKind : Type 0 where
  load clear : GpuAttachmentLoadKind

pub data GpuAttachmentStore : Type 0 where
  store discard : GpuAttachmentStore

pub data GpuDepthStencilAccess : Type 0 where
  read_only read_write : GpuDepthStencilAccess

pub data GpuTextureAccessKind : Type 0 where
  sampled_read storage_read storage_write storage_read_write : GpuTextureAccessKind
  copy_source copy_destination : GpuTextureAccessKind
  color_attachment : GpuAttachmentLoadKind → GpuAttachmentStore → GpuTextureAccessKind
  multisample_resolve_destination : GpuTextureAccessKind
  depth_stencil_attachment :
      GpuDepthStencilAccess → GpuAttachmentLoadKind → GpuAttachmentStore → GpuTextureAccessKind
  present : GpuTextureAccessKind

pub data GpuQueryAccessKind : Type 0 where
  write_timestamp resolve_source : GpuQueryAccessKind

unfoldable pub buffer_kind_reads : GpuBufferAccessKind → Bool
buffer_kind_reads GpuBufferAccessKind.uniform_read = true
buffer_kind_reads GpuBufferAccessKind.storage_read = true
buffer_kind_reads GpuBufferAccessKind.storage_read_write = true
buffer_kind_reads GpuBufferAccessKind.vertex_read = true
buffer_kind_reads GpuBufferAccessKind.index_read = true
buffer_kind_reads GpuBufferAccessKind.indirect_read = true
buffer_kind_reads GpuBufferAccessKind.copy_source = true
buffer_kind_reads _ = false

unfoldable pub buffer_kind_writes : GpuBufferAccessKind → Bool
buffer_kind_writes GpuBufferAccessKind.storage_write = true
buffer_kind_writes GpuBufferAccessKind.storage_read_write = true
buffer_kind_writes GpuBufferAccessKind.copy_destination = true
buffer_kind_writes GpuBufferAccessKind.query_resolve_destination = true
buffer_kind_writes _ = false

abbrev pub loads : GpuAttachmentLoadKind → Bool
loads GpuAttachmentLoadKind.load = true
loads GpuAttachmentLoadKind.clear = false

abbrev pub discards : GpuAttachmentStore → Bool
discards GpuAttachmentStore.store = false
discards GpuAttachmentStore.discard = true

abbrev pub is_read_write : GpuDepthStencilAccess → Bool
is_read_write GpuDepthStencilAccess.read_only = false
is_read_write GpuDepthStencilAccess.read_write = true

unfoldable pub texture_kind_reads : GpuTextureAccessKind → Bool
texture_kind_reads GpuTextureAccessKind.sampled_read = true
texture_kind_reads GpuTextureAccessKind.storage_read = true
texture_kind_reads GpuTextureAccessKind.storage_read_write = true
texture_kind_reads GpuTextureAccessKind.copy_source = true
texture_kind_reads (GpuTextureAccessKind.color_attachment load_kind kept) = loads load_kind
texture_kind_reads (GpuTextureAccessKind.depth_stencil_attachment access load_kind kept) =
    loads load_kind
texture_kind_reads GpuTextureAccessKind.present = true
texture_kind_reads GpuTextureAccessKind.storage_write = false
texture_kind_reads GpuTextureAccessKind.copy_destination = false
texture_kind_reads GpuTextureAccessKind.multisample_resolve_destination = false

unfoldable pub texture_kind_writes : GpuTextureAccessKind → Bool
texture_kind_writes GpuTextureAccessKind.storage_write = true
texture_kind_writes GpuTextureAccessKind.storage_read_write = true
texture_kind_writes GpuTextureAccessKind.copy_destination = true
texture_kind_writes GpuTextureAccessKind.multisample_resolve_destination = true
texture_kind_writes (GpuTextureAccessKind.color_attachment load_kind kept) = true
texture_kind_writes (GpuTextureAccessKind.depth_stencil_attachment access load_kind kept) =
    is_read_write access
texture_kind_writes GpuTextureAccessKind.sampled_read = false
texture_kind_writes GpuTextureAccessKind.storage_read = false
texture_kind_writes GpuTextureAccessKind.copy_source = false
texture_kind_writes GpuTextureAccessKind.present = false

unfoldable pub query_kind_reads : GpuQueryAccessKind → Bool
query_kind_reads GpuQueryAccessKind.resolve_source = true
query_kind_reads GpuQueryAccessKind.write_timestamp = false

unfoldable pub query_kind_writes : GpuQueryAccessKind → Bool
query_kind_writes GpuQueryAccessKind.write_timestamp = true
query_kind_writes GpuQueryAccessKind.resolve_source = false

-- The `usage` of `GpuBufferAccess::new`.
unfoldable pub required_buffer_usage : GpuBufferAccessKind → GpuBufferUsage
required_buffer_usage GpuBufferAccessKind.uniform_read = GpuBufferUsage.uniform
required_buffer_usage GpuBufferAccessKind.storage_read = GpuBufferUsage.storage
required_buffer_usage GpuBufferAccessKind.storage_write = GpuBufferUsage.storage
required_buffer_usage GpuBufferAccessKind.storage_read_write = GpuBufferUsage.storage
required_buffer_usage GpuBufferAccessKind.vertex_read = GpuBufferUsage.vertex
required_buffer_usage GpuBufferAccessKind.index_read = GpuBufferUsage.index
required_buffer_usage GpuBufferAccessKind.indirect_read = GpuBufferUsage.indirect
required_buffer_usage GpuBufferAccessKind.copy_source = GpuBufferUsage.copy_source
required_buffer_usage GpuBufferAccessKind.copy_destination = GpuBufferUsage.copy_destination
required_buffer_usage GpuBufferAccessKind.query_resolve_destination = GpuBufferUsage.query_resolve

-- The `required` of `validate_texture_usage`.
unfoldable pub required_texture_usage : GpuTextureAccessKind → Option GpuTextureUsage
required_texture_usage GpuTextureAccessKind.sampled_read = some GpuTextureUsage.sampled
required_texture_usage GpuTextureAccessKind.storage_read = some GpuTextureUsage.storage_read
required_texture_usage GpuTextureAccessKind.storage_write = some GpuTextureUsage.storage_write
required_texture_usage GpuTextureAccessKind.storage_read_write = some GpuTextureUsage.storage_write
required_texture_usage GpuTextureAccessKind.copy_source = some GpuTextureUsage.copy_source
required_texture_usage GpuTextureAccessKind.copy_destination = some GpuTextureUsage.copy_destination
required_texture_usage (GpuTextureAccessKind.color_attachment load_kind kept) =
    some GpuTextureUsage.color_attachment
required_texture_usage GpuTextureAccessKind.multisample_resolve_destination =
    some GpuTextureUsage.color_attachment
required_texture_usage (GpuTextureAccessKind.depth_stencil_attachment access load_kind kept) =
    some GpuTextureUsage.depth_stencil_attachment
required_texture_usage GpuTextureAccessKind.present = none

-- The `valid_transient_access` of `validate_texture_usage`.
unfoldable pub valid_transient_access : GpuTextureAccessKind → Bool
valid_transient_access (GpuTextureAccessKind.color_attachment load_kind kept) =
    not (loads load_kind) && discards kept
valid_transient_access (GpuTextureAccessKind.depth_stencil_attachment access load_kind kept) =
    is_read_write access && (not (loads load_kind) && discards kept)
valid_transient_access _ = false

-- The two `matches!` of the last check of `validate_texture_usage`.
unfoldable pub is_depth_stencil_attachment : GpuTextureAccessKind → Bool
is_depth_stencil_attachment (GpuTextureAccessKind.depth_stencil_attachment a l d) = true
is_depth_stencil_attachment _ = false

unfoldable pub is_attachment_role : GpuTextureAccessKind → Bool
is_attachment_role (GpuTextureAccessKind.color_attachment l d) = true
is_attachment_role GpuTextureAccessKind.multisample_resolve_destination = true
is_attachment_role (GpuTextureAccessKind.depth_stencil_attachment a l d) = true
is_attachment_role _ = false
