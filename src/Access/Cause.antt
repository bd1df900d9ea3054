-- ===== src/Access/Cause.antt =====
-- `GpuAccessCause` of src/api/errors.rs; an error of src/api/access.rs is told by its cause.
pub data GpuAccessCause : Type 0 where
  zero_range arithmetic_overflow out_of_bounds invalid_descriptor_usage : GpuAccessCause
  invalid_texture_aspect invalid_view_intersection invalid_d3_interpretation : GpuAccessCause
  parent_lease_mismatch wrong_resource_kind : GpuAccessCause
