-- ===== src/Graph/Preparation.antt =====
-- How graph preparation chains its stages: `prepare_core` of src/api/graph/preparation.rs, from
-- the inference of hazards to the order of the nodes.
pub mod Safety
use runen_gpu.Base.{List, [], Option, none, some, Result, ok, err, ◌>>=◌}
use runen_gpu.Base.SortedMap.{keys}
use runen_gpu.Graph.Identity.{GpuPreparedWorkNodeId, edge_key}
use runen_gpu.Graph.Reason.{DependencyEdges}
use runen_gpu.Graph.Fragment.{GpuWorkFragment, GpuWorkGraphCause}
use runen_gpu.Graph.Hazards.{infer_fragment_hazards}
use runen_gpu.Graph.CrossHazards.{FragmentRelations, infer_cross_fragment_hazards}
use runen_gpu.Graph.Explicit.{GpuGraphExplicitOrder, add_explicit_orders, add_graph_explicit_orders}
use runen_gpu.Graph.Topology.{topological_node_order}

-- The edges that the four stages gather.
unfoldable pub infer_edges :
    List GpuWorkFragment
    → FragmentRelations
    → List GpuGraphExplicitOrder
    → Result GpuWorkGraphCause DependencyEdges
infer_edges fragments relations graph_orders = do
  within ← infer_fragment_hazards fragments []
  across ← infer_cross_fragment_hazards fragments relations within
  authored ← add_explicit_orders fragments across
  add_graph_explicit_orders fragments graph_orders authored

-- `nodes` are the keys of `node_locations`; `none` is an underflow, or fuel of the
-- ordering loop that runs out.
unfoldable pub order_prepared :
    List GpuPreparedWorkNodeId
    → List GpuWorkFragment
    → FragmentRelations
    → List GpuGraphExplicitOrder
    → Option (Result GpuWorkGraphCause (List GpuPreparedWorkNodeId))
unfolding infer_edges
order_prepared nodes fragments relations graph_orders =
    elim (infer_edges fragments relations graph_orders) [
      | err cause ↦ some (err cause)
      | ok edges ↦ topological_node_order nodes (keys edges)
    ]
