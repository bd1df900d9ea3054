-- ===== src/Graph/Fragment.antt =====
-- Work nodes and fragments as graph preparation reads them: src/api/graph/authoring.rs, and the
-- causes of src/api/errors.rs. Operations, labels and capability requirements are left out.
use runen_gpu.Base.{ℕ, List, Result, ok, err, if◌then◌else◌, ltb, u32_mod}
use runen_gpu.Access.Construct.{GpuResourceAccess}
use runen_gpu.Graph.Identity.{GpuWorkNodeId, GpuPreparedWorkNodeId}

pub record GpuWorkNode : Type 0 where
  pub id : GpuWorkNodeId
  pub accesses : List GpuResourceAccess

pub record GpuExplicitOrder : Type 0 where
  pub before : GpuWorkNodeId
  pub after : GpuWorkNodeId
  pub reason : List ℕ

pub record GpuWorkFragment : Type 0 where
  pub identity : ℕ
  pub nodes : List GpuWorkNode
  pub explicit_orders : List GpuExplicitOrder

pub data GpuWorkGraphCause : Type 0 where
  read_before_initialization incompatible_same_node_access : GpuWorkGraphCause
  operation_access_contradiction mechanical_capability_contradiction : GpuWorkGraphCause
  missing_cross_fragment_causality ambiguous_writer duplicate_export_key : GpuWorkGraphCause
  import_export_mismatch unknown_identity foreign_identity : GpuWorkGraphCause
  redundant_explicit_data_order explicit_order_conflict cycle : GpuWorkGraphCause

-- Fragments are counted by `u32`.
unfoldable pub prepared_node_id : ℕ → GpuWorkNode → Result GpuWorkGraphCause GpuPreparedWorkNodeId
prepared_node_id fragment_index node =
    if ltb fragment_index u32_mod
    then ok (record { fragment_ordinal = fragment_index; local_node = node.id.local })
    else err unknown_identity
