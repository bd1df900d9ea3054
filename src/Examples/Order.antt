-- ===== src/Examples/Order.antt =====
-- The order of the nodes of a frame.
use runen_gpu.Base.{
  ◌≡◌, refl, ◌⊎◌, inl, true, List, [], ◌∷◌, some, Result, ok, err, arith, Distinct,
}
use runen_gpu.Base.Key.{codes_eq, codes_lt, key_eq, key_lt}
use runen_gpu.Base.SortedSet.{contains, insert, insert_sorted}
use runen_gpu.Base.SortedMap.{get, modify, add_sorted, upsert}
use runen_gpu.Access.Kind.{buffer_kind_reads, buffer_kind_writes}
use runen_gpu.Access.Range.{buffer_range}
use runen_gpu.Access.Construct.{resource_identity, reads, writes}
use runen_gpu.Graph.Region.{access_intersection, shared_region, buffer_region}
use runen_gpu.Graph.Identity.{belongs_to, node_eq}
use runen_gpu.Graph.Reason.{reason_code, extend}
use runen_gpu.Graph.Fragment.{prepared_node_id}
use runen_gpu.Graph.Hazards.{
  access_pair_hazard_reasons, add_hazard, visit_earlier, visit_accesses, infer_fragments_from,
  infer_fragment_hazards,
}
use runen_gpu.Graph.CrossHazards.{
  inner_pairs, cross_pairs, add_ordered, add_cross_hazard, visit_pairs,
  infer_cross_fragment_hazards,
}
use runen_gpu.Graph.DataPath.{expand, search_path, dependency_data_path_exists}
use runen_gpu.Graph.Explicit.{
  add_order, add_fragment_order, add_fragment_orders, add_orders_from, add_explicit_orders,
  resolve_graph_order_endpoint, add_graph_order, add_graph_explicit_orders,
}
use runen_gpu.Graph.Topology.{count_edges, ready_nodes, release, drain, topological_node_order}
use runen_gpu.Graph.Preparation.{infer_edges, order_prepared}
use runen_gpu.Graph.Region.Laws.{byte}
use runen_gpu.Graph.Preparation.Safety.{
  order_prepared_within, order_prepared_across, order_prepared_answers,
}
use runen_gpu.Graph.Topology.Before.{Before}
use runen_gpu.Graph.Topology.Order.{
  TopologyOutcome, IsOrder, topological_node_order_outcome, topological_node_order-cycle,
}
use runen_gpu.Graph.Identity.{GpuPreparedWorkNodeId}
use runen_gpu.Graph.CrossHazards.{related, at}
use runen_gpu.Graph.Fragment.{GpuWorkGraphCause, cycle}
use runen_gpu.Examples.Facts.{
  is_hazard-written, writes-written, IsChecked-written, same_buffer, drawn_buffer,
}
use runen_gpu.Examples.Data.{
  frame, bound, draw_last, frame_nodes, frame_order, prepared, upload, draw, write_node, fetch_node,
  draw_node, written, fetched, drawn, ring,
}

frame_nodes-Distinct : Distinct frame_nodes
frame_nodes-Distinct = ground arith

frame_runs : order_prepared frame_nodes frame bound (draw_last ∷ []) ≡ some (ok frame_order)
unfolding codes_eq codes_lt key_eq key_lt contains insert insert_sorted get modify add_sorted upsert
    buffer_kind_reads buffer_kind_writes buffer_range resource_identity reads writes
    access_intersection shared_region buffer_region belongs_to node_eq reason_code extend
    prepared_node_id access_pair_hazard_reasons add_hazard visit_earlier visit_accesses
    infer_fragments_from infer_fragment_hazards inner_pairs cross_pairs add_ordered add_cross_hazard
    visit_pairs infer_cross_fragment_hazards expand search_path dependency_data_path_exists
    add_order add_fragment_order add_fragment_orders add_orders_from add_explicit_orders
    resolve_graph_order_endpoint add_graph_order add_graph_explicit_orders count_edges ready_nodes
    release drain topological_node_order infer_edges order_prepared
frame_runs = refl

ring-Distinct : Distinct ring
ring-Distinct = ground arith

ring_blocks : topological_node_order frame_nodes ring ≡ some (err cycle)
unfolding codes_eq codes_lt key_eq key_lt contains insert insert_sorted get modify add_sorted upsert
    count_edges ready_nodes release drain topological_node_order
ring_blocks = refl

-- The upload writes bytes 0 to 16, fetches 8 to 24, and the draw reads 0 to 12.
order_prepared_within_example : Before (prepared 0 1) (prepared 0 2) frame_order
order_prepared_within_example =
    order_prepared_within frame_nodes frame bound (draw_last ∷ []) frame_order upload 0 0 1
      write_node fetch_node written fetched (byte 9) frame_nodes-Distinct frame_runs refl refl refl
      (omega arith) (inl refl) (inl refl) is_hazard-written IsChecked-written refl same_buffer
      (ground arith) (ground arith)

order_prepared_across_example :
    ((related bound (at 0 write_node written) (at 1 draw_node drawn) (resource_identity written)
        ≡ true)
      × Before (prepared 0 1) (prepared 1 1) frame_order)
    ⊎ ((related bound (at 1 draw_node drawn) (at 0 write_node written) (resource_identity written)
          ≡ true)
        × Before (prepared 1 1) (prepared 0 1) frame_order)
order_prepared_across_example =
    order_prepared_across frame_nodes frame bound (draw_last ∷ []) frame_order upload draw 0 1
      write_node draw_node written drawn (byte 9) frame_nodes-Distinct frame_runs refl refl
      (omega arith) (inl refl) (inl refl) (inl refl) (inl refl) writes-written IsChecked-written
      refl drawn_buffer (ground arith) (ground arith)

order_prepared_answers_example :
    (result : Result GpuWorkGraphCause (List GpuPreparedWorkNodeId)) × (order_prepared frame_nodes
        frame bound
        (draw_last ∷ [])
      ≡ some result)
order_prepared_answers_example =
    order_prepared_answers frame_nodes frame bound (draw_last ∷ []) frame_nodes-Distinct

topological_node_order_outcome_example : TopologyOutcome frame_nodes ring
topological_node_order_outcome_example =
    topological_node_order_outcome frame_nodes ring frame_nodes-Distinct ring-Distinct

topological_node_order-cycle_example : ¬ IsOrder frame_nodes ring frame_order
topological_node_order-cycle_example =
    topological_node_order-cycle frame_nodes ring frame_order frame_nodes-Distinct ring-Distinct
      ring_blocks
