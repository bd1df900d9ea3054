-- ===== src/Access/Usage.antt =====
-- The usage that an access needs of its texture: `validate_texture_usage` of src/api/access.rs.
use runen_gpu.Base.{
  ◌≡◌, refl, ◌⊎◌, inl, inr, ◌↔◌, Bool, true, false, not, ◌&&◌, ◌||◌, ok, arith, differs, In,
}
use runen_gpu.Base.SortedSet.{contains, contains-In, In-contains, contains_cases}
use runen_gpu.Texture.Format.{GpuTextureFormat}
use runen_gpu.Texture.Queries.{is_depth, is_stencil}
use runen_gpu.Resource.{
  GpuTextureHandle, GpuTextureSubresourceRange, GpuTextureUsage, texture_usage_key,
}
use runen_gpu.Access.Kind.{
  GpuTextureAccessKind, GpuAttachmentLoadKind, GpuAttachmentStore, GpuDepthStencilAccess,
  valid_transient_access, required_texture_usage, is_depth_stencil_attachment, is_attachment_role,
}
use runen_gpu.Access.Construct.{
  GpuTextureAccess, GpuTextureAccessResource, validate_texture_range, normalize_subresources,
  texture_access, parent_texture, validate_texture_usage, usage_valid,
}
use runen_gpu.Access.Laws.{texture_access-Constructed}

-- The usages that an access of the kind makes of its texture.
pub data Needs : GpuTextureAccessKind → GpuTextureUsage → Type 0 where
  samples : Needs GpuTextureAccessKind.sampled_read GpuTextureUsage.sampled
  reads : Needs GpuTextureAccessKind.storage_read GpuTextureUsage.storage_read
  writes : Needs GpuTextureAccessKind.storage_write GpuTextureUsage.storage_write
  updates_read : Needs GpuTextureAccessKind.storage_read_write GpuTextureUsage.storage_read
  updates_write : Needs GpuTextureAccessKind.storage_read_write GpuTextureUsage.storage_write
  copies_from : Needs GpuTextureAccessKind.copy_source GpuTextureUsage.copy_source
  copies_to : Needs GpuTextureAccessKind.copy_destination GpuTextureUsage.copy_destination
  renders :
      (l : GpuAttachmentLoadKind) (s : GpuAttachmentStore)
      → Needs (GpuTextureAccessKind.color_attachment l s) GpuTextureUsage.color_attachment
  resolves :
      Needs GpuTextureAccessKind.multisample_resolve_destination GpuTextureUsage.color_attachment
  tests :
      (a : GpuDepthStencilAccess) (l : GpuAttachmentLoadKind) (s : GpuAttachmentStore)
      → Needs
          (GpuTextureAccessKind.depth_stencil_attachment a l s)
          GpuTextureUsage.depth_stencil_attachment

-- The accesses that neither find nor leave contents: cleared, written and discarded.
pub data Ephemeral : GpuTextureAccessKind → Type 0 where
  cleared_color :
      Ephemeral (
        GpuTextureAccessKind.color_attachment GpuAttachmentLoadKind.clear
          GpuAttachmentStore.discard)
  cleared_depth : Ephemeral (
      GpuTextureAccessKind.depth_stencil_attachment GpuDepthStencilAccess.read_write
        GpuAttachmentLoadKind.clear GpuAttachmentStore.discard)

-- Colour roles are for formats without depth and stencil, and the depth-stencil role for the others.
abbrev pub FitsFormat : GpuTextureFormat → GpuTextureAccessKind → Type 0
FitsFormat format (GpuTextureAccessKind.color_attachment l s) =
    (is_depth format ≡ false) × (is_stencil format ≡ false)
FitsFormat format GpuTextureAccessKind.multisample_resolve_destination =
    (is_depth format ≡ false) × (is_stencil format ≡ false)
FitsFormat format (GpuTextureAccessKind.depth_stencil_attachment a l s) =
    (is_depth format ≡ true) ⊎ (is_stencil format ≡ true)
FitsFormat format _ = Unit

pub record UsageFits (texture : GpuTextureHandle) (kind : GpuTextureAccessKind) : Type 0 where
  pub usages : (usage : GpuTextureUsage) → Needs kind usage → In usage texture.usages
  pub transient : In GpuTextureUsage.transient_attachment texture.usages → Ephemeral kind
  pub format : FitsFormat texture.format kind

-- The three tests of the source, each as one of the three conditions.
module _ (texture : GpuTextureHandle) where
  abbrev has : GpuTextureUsage → Bool
  has usage = contains usage texture.usages

  usage_valid-Needs :
      (kind : GpuTextureAccessKind) (usage : GpuTextureUsage)
      → usage_valid texture kind ≡ true
      → Needs kind usage
      → has usage ≡ true
  unfolding usage_valid required_texture_usage
  usage_valid-Needs _ _ h samples = h
  usage_valid-Needs _ _ h reads = h
  usage_valid-Needs _ _ h writes = h
  usage_valid-Needs _ _ h updates_read = ground arith
  usage_valid-Needs _ _ h updates_write = ground arith
  usage_valid-Needs _ _ h copies_from = h
  usage_valid-Needs _ _ h copies_to = h
  usage_valid-Needs _ _ h (renders l s) = h
  usage_valid-Needs _ _ h resolves = h
  usage_valid-Needs _ _ h (tests a l s) = h

  Needs-usage_valid :
      (kind : GpuTextureAccessKind)
      → ((usage : GpuTextureUsage) → Needs kind usage → has usage ≡ true)
      → usage_valid texture kind ≡ true
  unfolding usage_valid required_texture_usage
  Needs-usage_valid GpuTextureAccessKind.sampled_read h = h _ samples
  Needs-usage_valid GpuTextureAccessKind.storage_read h = h _ reads
  Needs-usage_valid GpuTextureAccessKind.storage_write h = h _ writes
  Needs-usage_valid GpuTextureAccessKind.storage_read_write h =
      ground (arith, h _ updates_read, h _ updates_write)
  Needs-usage_valid GpuTextureAccessKind.copy_source h = h _ copies_from
  Needs-usage_valid GpuTextureAccessKind.copy_destination h = h _ copies_to
  Needs-usage_valid (GpuTextureAccessKind.color_attachment l s) h = h _ (renders l s)
  Needs-usage_valid GpuTextureAccessKind.multisample_resolve_destination h = h _ resolves
  Needs-usage_valid (GpuTextureAccessKind.depth_stencil_attachment a l s) h = h _ (tests a l s)
  Needs-usage_valid GpuTextureAccessKind.present h = refl

valid-Ephemeral :
    (kind : GpuTextureAccessKind) → valid_transient_access kind ≡ true → Ephemeral kind
unfolding valid_transient_access
valid-Ephemeral GpuTextureAccessKind.sampled_read h = cc
valid-Ephemeral GpuTextureAccessKind.storage_read h = cc
valid-Ephemeral GpuTextureAccessKind.storage_write h = cc
valid-Ephemeral GpuTextureAccessKind.storage_read_write h = cc
valid-Ephemeral GpuTextureAccessKind.copy_source h = cc
valid-Ephemeral GpuTextureAccessKind.copy_destination h = cc
valid-Ephemeral GpuTextureAccessKind.multisample_resolve_destination h = cc
valid-Ephemeral GpuTextureAccessKind.present h = cc
valid-Ephemeral (GpuTextureAccessKind.color_attachment GpuAttachmentLoadKind.load s) h = cc
valid-Ephemeral
      (GpuTextureAccessKind.color_attachment GpuAttachmentLoadKind.clear GpuAttachmentStore.store)
      h =
    cc
valid-Ephemeral
      (GpuTextureAccessKind.color_attachment GpuAttachmentLoadKind.clear GpuAttachmentStore.discard)
      h =
    cleared_color
valid-Ephemeral (GpuTextureAccessKind.depth_stencil_attachment GpuDepthStencilAccess.read_only l s)
      h =
    cc
valid-Ephemeral
      (GpuTextureAccessKind.depth_stencil_attachment GpuDepthStencilAccess.read_write
        GpuAttachmentLoadKind.load s)
      h =
    cc
valid-Ephemeral
      (GpuTextureAccessKind.depth_stencil_attachment GpuDepthStencilAccess.read_write
        GpuAttachmentLoadKind.clear GpuAttachmentStore.store)
      h =
    cc
valid-Ephemeral
      (GpuTextureAccessKind.depth_stencil_attachment GpuDepthStencilAccess.read_write
        GpuAttachmentLoadKind.clear GpuAttachmentStore.discard)
      h =
    cleared_depth

Ephemeral-valid :
    (kind : GpuTextureAccessKind) → Ephemeral kind → valid_transient_access kind ≡ true
unfolding valid_transient_access
Ephemeral-valid _ cleared_color = refl
Ephemeral-valid _ cleared_depth = refl

-- The last test.
abbrev misplaced : GpuTextureFormat → GpuTextureAccessKind → Bool
misplaced format kind =
    differs (is_depth_stencil_attachment kind) (is_depth format || is_stencil format)
    && is_attachment_role kind

misplaced-FitsFormat :
    (format : GpuTextureFormat) (kind : GpuTextureAccessKind)
    → (misplaced format kind ≡ false) ↔ FitsFormat format kind
unfolding is_depth_stencil_attachment is_attachment_role
misplaced-FitsFormat format GpuTextureAccessKind.sampled_read = ground arith
misplaced-FitsFormat format GpuTextureAccessKind.storage_read = ground arith
misplaced-FitsFormat format GpuTextureAccessKind.storage_write = ground arith
misplaced-FitsFormat format GpuTextureAccessKind.storage_read_write = ground arith
misplaced-FitsFormat format GpuTextureAccessKind.copy_source = ground arith
misplaced-FitsFormat format GpuTextureAccessKind.copy_destination = ground arith
misplaced-FitsFormat format GpuTextureAccessKind.present = ground arith
misplaced-FitsFormat format GpuTextureAccessKind.multisample_resolve_destination = ground arith
misplaced-FitsFormat format (GpuTextureAccessKind.color_attachment l s) = ground arith
misplaced-FitsFormat format (GpuTextureAccessKind.depth_stencil_attachment a l s) = ground arith

module _ (texture : GpuTextureHandle) (kind : GpuTextureAccessKind) where
  abbrev transient : Bool
  transient = has texture GpuTextureUsage.transient_attachment

  accepted_iff : (validate_texture_usage texture kind ≡ ok tt) ↔ (
      ((transient && not (valid_transient_access kind)) ≡ false)
      × ((usage_valid texture kind ≡ true) × (misplaced texture.format kind ≡ false)))
  unfolding validate_texture_usage
  accepted_iff = ground arith

  -- The usage of a texture is accepted for a kind exactly if it fits.
  validate_texture_usage_iff :
      (validate_texture_usage texture kind ≡ ok tt) ↔ UsageFits texture kind
  validate_texture_usage_iff = (
    λ h.
        let (lasting, (valid, placed)) = accepted_iff.0 h in
        record {
          usages = λ usage needs.
              contains-In usage texture.usages (usage_valid-Needs texture kind usage valid needs);
          transient = λ m.
              let kept = In-contains GpuTextureUsage.transient_attachment texture.usages m in
              valid-Ephemeral kind (ground arith);
          format = (misplaced-FitsFormat texture.format kind).0 placed;
        },
    λ fits. accepted_iff.1 (
      elim (contains_cases GpuTextureUsage.transient_attachment texture.usages) [
        | inl (c, m) ↦ ground (arith, Ephemeral-valid kind (fits.transient m))
        | inr (c, m) ↦ ground arith
      ],
      (
        Needs-usage_valid texture kind
            (λ usage needs. In-contains usage texture.usages (fits.usages usage needs)),
        (misplaced-FitsFormat texture.format kind).1 fits.format,
      ),
    ),
  )

abbrev made :
    GpuTextureAccessResource
    → GpuTextureSubresourceRange
    → GpuTextureSubresourceRange
    → GpuTextureAccessKind
    → GpuTextureAccess
made resource requested range kind = record {
  resource = resource;
  requested_subresources = requested;
  normalized_texture = parent_texture resource;
  normalized_subresources = range;
  kind = kind;
}

-- When the requested range is accepted and the view shares texels with it, an access of the kind is
-- constructed exactly if the texture has every usage that the kind makes of it, the access is cleared,
-- written and discarded where the texture is a transient attachment, and an attachment's role is that
-- of its format.
pub texture_access_usage :
    (resource : GpuTextureAccessResource) (requested range : GpuTextureSubresourceRange)
    (kind : GpuTextureAccessKind)
    → validate_texture_range (parent_texture resource) requested ≡ ok tt
    → normalize_subresources resource requested (parent_texture resource) ≡ ok range
    → ((access : GpuTextureAccess) × (texture_access resource requested kind ≡ ok access)
        × (access.kind ≡ kind))
      ↔ UsageFits (parent_texture resource) kind
unfolding texture_access
texture_access_usage resource requested range kind h k =
    let parent = parent_texture resource in
    (
      λ (access, e, same).
          (validate_texture_usage_iff parent kind).0
            (texture_access-Constructed resource requested kind access e).usage_checked,
      λ fits.
          let accepted = (validate_texture_usage_iff parent kind).1 fits in
          (made resource requested range kind, rw (h, k, accepted) refl, refl),
    )
