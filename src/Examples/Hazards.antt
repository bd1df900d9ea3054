-- ===== src/Examples/Hazards.antt =====
-- The stages of graph preparation on a frame.
use runen_gpu.Base.{◌≡◌, refl, ◌⊎◌, ◌↔◌, inl, true, [], ◌∷◌, none, some, ok, err, arith, In}
use runen_gpu.Base.Key.{codes_eq, codes_lt, key_eq, key_lt}
use runen_gpu.Base.SortedSet.{contains, insert, insert_sorted}
use runen_gpu.Base.SortedMap.{get, modify, add_sorted, upsert}
use runen_gpu.Access.Kind.{GpuBufferAccessKind, buffer_kind_reads, buffer_kind_writes}
use runen_gpu.Access.Range.{buffer_range}
use runen_gpu.Access.Construct.{GpuResourceAccess, resource_identity, reads, writes}
use runen_gpu.Graph.Region.{access_intersection, shared_region, buffer_region}
use runen_gpu.Graph.Identity.{belongs_to, node_eq}
use runen_gpu.Graph.Reason.{reason_code, extend}
use runen_gpu.Graph.Fragment.{prepared_node_id}
use runen_gpu.Graph.Hazards.{
  access_pair_hazard_reasons, add_hazard, visit_earlier, visit_accesses, infer_fragments_from,
  infer_fragment_hazards,
}
use runen_gpu.Graph.CrossHazards.{
  inner_pairs, cross_pairs, add_ordered, add_cross_hazard, visit_pairs,
  infer_cross_fragment_hazards,
}
use runen_gpu.Graph.DataPath.{expand, search_path, dependency_data_path_exists}
use runen_gpu.Graph.Explicit.{
  add_order, add_fragment_order, add_fragment_orders, add_orders_from, add_explicit_orders,
  resolve_graph_order_endpoint, add_graph_order, add_graph_explicit_orders,
}
use runen_gpu.Graph.Region.Laws.{byte, access_intersection_exact, parent_aspect, InRegion, Touches}
use runen_gpu.Graph.Region.Complete.{access_intersection-none}
use runen_gpu.Graph.Region.{GpuDependencyRegion}
use runen_gpu.Graph.Fragment.{missing_cross_fragment_causality, unknown_identity}
use runen_gpu.Graph.Hazards.Pair.{has_edge}
use runen_gpu.Graph.Hazards.Fragments.{infer_fragment_hazards-has_edge}
use runen_gpu.Graph.CrossHazards.{at, CrossAccess, CrossPair}
use runen_gpu.Graph.CrossHazards.Laws.{Oriented, infer_cross_fragment_hazards-Oriented}
use runen_gpu.Graph.CrossHazards.Errors.{TooMany, Unordered, infer_cross_fragment_hazards-err}
use runen_gpu.Graph.DataPath.Laws.{PathOutcome, dependency_data_path_exists_outcome}
use runen_gpu.Graph.Explicit.{ResolvedEndpoint}
use runen_gpu.Graph.Explicit.Laws.{
  AddOutcome, add_order_outcome, Ordered, add_explicit_orders-Ordered,
}
use runen_gpu.Graph.Explicit.GraphOrders.{GraphOrdered, add_graph_explicit_orders-GraphOrdered}
use runen_gpu.Examples.Facts.{
  is_hazard-written, writes-written, IsChecked-written, same_buffer, drawn_buffer,
}
use runen_gpu.Examples.Data.{
  vertices, bytes_of, written, fetched, drawn, write_node, fetch_node, draw_node, reset_first,
  upload, draw, frame, bound, draw_last, prepared, within_edges, across_edges, authored_edges,
  frame_edges,
}

within_runs : infer_fragment_hazards frame [] ≡ ok within_edges
unfolding codes_eq codes_lt key_eq key_lt contains insert insert_sorted get modify add_sorted upsert
    buffer_kind_reads buffer_kind_writes buffer_range resource_identity reads writes
    access_intersection shared_region buffer_region belongs_to node_eq reason_code extend
    prepared_node_id access_pair_hazard_reasons add_hazard visit_earlier visit_accesses
    infer_fragments_from infer_fragment_hazards inner_pairs cross_pairs add_ordered add_cross_hazard
    visit_pairs infer_cross_fragment_hazards expand search_path dependency_data_path_exists
    add_order add_fragment_order add_fragment_orders add_orders_from add_explicit_orders
    resolve_graph_order_endpoint add_graph_order add_graph_explicit_orders
within_runs = refl

across_runs : infer_cross_fragment_hazards frame bound within_edges ≡ ok across_edges
unfolding codes_eq codes_lt key_eq key_lt contains insert insert_sorted get modify add_sorted upsert
    buffer_kind_reads buffer_kind_writes buffer_range resource_identity reads writes
    access_intersection shared_region buffer_region belongs_to node_eq reason_code extend
    prepared_node_id access_pair_hazard_reasons add_hazard visit_earlier visit_accesses
    infer_fragments_from infer_fragment_hazards inner_pairs cross_pairs add_ordered add_cross_hazard
    visit_pairs infer_cross_fragment_hazards expand search_path dependency_data_path_exists
    add_order add_fragment_order add_fragment_orders add_orders_from add_explicit_orders
    resolve_graph_order_endpoint add_graph_order add_graph_explicit_orders
across_runs = refl

-- Without a relation the draw is not ordered.
unbound_runs :
    infer_cross_fragment_hazards frame [] within_edges ≡ err missing_cross_fragment_causality
unfolding codes_eq codes_lt key_eq key_lt contains insert insert_sorted get modify add_sorted upsert
    buffer_kind_reads buffer_kind_writes buffer_range resource_identity reads writes
    access_intersection shared_region buffer_region belongs_to node_eq reason_code extend
    prepared_node_id access_pair_hazard_reasons add_hazard visit_earlier visit_accesses
    infer_fragments_from infer_fragment_hazards inner_pairs cross_pairs add_ordered add_cross_hazard
    visit_pairs infer_cross_fragment_hazards expand search_path dependency_data_path_exists
    add_order add_fragment_order add_fragment_orders add_orders_from add_explicit_orders
    resolve_graph_order_endpoint add_graph_order add_graph_explicit_orders
unbound_runs = refl

authored_runs : add_explicit_orders frame across_edges ≡ ok authored_edges
unfolding codes_eq codes_lt key_eq key_lt contains insert insert_sorted get modify add_sorted upsert
    buffer_kind_reads buffer_kind_writes buffer_range resource_identity reads writes
    access_intersection shared_region buffer_region belongs_to node_eq reason_code extend
    prepared_node_id access_pair_hazard_reasons add_hazard visit_earlier visit_accesses
    infer_fragments_from infer_fragment_hazards inner_pairs cross_pairs add_ordered add_cross_hazard
    visit_pairs infer_cross_fragment_hazards expand search_path dependency_data_path_exists
    add_order add_fragment_order add_fragment_orders add_orders_from add_explicit_orders
    resolve_graph_order_endpoint add_graph_order add_graph_explicit_orders
authored_runs = refl

frame_runs_through :
    add_graph_explicit_orders frame (draw_last ∷ []) authored_edges ≡ ok frame_edges
unfolding codes_eq codes_lt key_eq key_lt contains insert insert_sorted get modify add_sorted upsert
    buffer_kind_reads buffer_kind_writes buffer_range resource_identity reads writes
    access_intersection shared_region buffer_region belongs_to node_eq reason_code extend
    prepared_node_id access_pair_hazard_reasons add_hazard visit_earlier visit_accesses
    infer_fragments_from infer_fragment_hazards inner_pairs cross_pairs add_ordered add_cross_hazard
    visit_pairs infer_cross_fragment_hazards expand search_path dependency_data_path_exists
    add_order add_fragment_order add_fragment_orders add_orders_from add_explicit_orders
    resolve_graph_order_endpoint add_graph_order add_graph_explicit_orders
frame_runs_through = refl

infer_fragment_hazards-has_edge_example : has_edge (prepared 0 1, prepared 0 2) within_edges ≡ true
infer_fragment_hazards-has_edge_example =
    infer_fragment_hazards-has_edge frame [] within_edges upload 0 0 1 write_node fetch_node written
      fetched (byte 9) within_runs refl refl refl (omega arith) (inl refl) (inl refl)
      is_hazard-written IsChecked-written refl same_buffer (ground arith) (ground arith)

infer_cross_fragment_hazards-Oriented_example :
    Oriented bound across_edges
      (resource_identity written)
      (at 0 write_node written)
      (at 1 draw_node drawn)
infer_cross_fragment_hazards-Oriented_example =
    infer_cross_fragment_hazards-Oriented frame bound within_edges across_edges upload draw 0 1
      write_node draw_node written drawn (byte 9) across_runs refl refl (omega arith) (inl refl)
      (inl refl) (inl refl) (inl refl) writes-written IsChecked-written refl drawn_buffer
      (ground arith) (ground arith)

infer_cross_fragment_hazards-err_example :
    (left : CrossAccess) × (right : CrossAccess) × In {A = CrossPair}
      (left, right)
      (cross_pairs 0 frame)
    × (((missing_cross_fragment_causality ≡ unknown_identity) × TooMany left right)
        ⊎ Unordered [] missing_cross_fragment_causality left right)
infer_cross_fragment_hazards-err_example =
    infer_cross_fragment_hazards-err frame [] within_edges missing_cross_fragment_causality
      unbound_runs

dependency_data_path_exists_outcome_example : PathOutcome frame_edges (prepared 0 3) (prepared 1 1)
dependency_data_path_exists_outcome_example =
    dependency_data_path_exists_outcome frame_edges (prepared 0 3) (prepared 1 1)

-- An order that the data imply.
add_order_outcome_example : AddOutcome (prepared 0 3) (prepared 1 1) (5 ∷ []) frame_edges
add_order_outcome_example = add_order_outcome (prepared 0 3) (prepared 1 1) (5 ∷ []) frame_edges

add_explicit_orders-Ordered_example : Ordered 0 upload reset_first authored_edges
add_explicit_orders-Ordered_example =
    add_explicit_orders-Ordered frame 0 upload reset_first across_edges authored_edges authored_runs
      refl (inl refl)

add_graph_explicit_orders-GraphOrdered_example : GraphOrdered frame draw_last frame_edges
add_graph_explicit_orders-GraphOrdered_example =
    add_graph_explicit_orders-GraphOrdered frame (draw_last ∷ []) draw_last authored_edges
      frame_edges frame_runs_through (inl refl)

abbrev draw_endpoint : ResolvedEndpoint
draw_endpoint = record {
  fragment_index = 1;
  fragment = draw;
  node = draw_node;
  prepared = prepared 1 1;
}

draw_resolves : resolve_graph_order_endpoint frame draw_node.id ≡ ok draw_endpoint
unfolding codes_eq codes_lt key_eq key_lt contains insert insert_sorted get modify add_sorted upsert
    buffer_kind_reads buffer_kind_writes buffer_range resource_identity reads writes
    access_intersection shared_region buffer_region belongs_to node_eq reason_code extend
    prepared_node_id access_pair_hazard_reasons add_hazard visit_earlier visit_accesses
    infer_fragments_from infer_fragment_hazards inner_pairs cross_pairs add_ordered add_cross_hazard
    visit_pairs infer_cross_fragment_hazards expand search_path dependency_data_path_exists
    add_order add_fragment_order add_fragment_orders add_orders_from add_explicit_orders
    resolve_graph_order_endpoint add_graph_order add_graph_explicit_orders
draw_resolves = refl

abbrev shared : GpuDependencyRegion
shared = GpuDependencyRegion.buffer (record { offset = 8; size = 8 })

shared_meets : access_intersection written fetched ≡ some (vertices.id, shared)
unfolding codes_eq codes_lt key_eq key_lt contains insert insert_sorted get modify add_sorted upsert
    buffer_kind_reads buffer_kind_writes buffer_range resource_identity reads writes
    access_intersection shared_region buffer_region belongs_to node_eq reason_code extend
    prepared_node_id access_pair_hazard_reasons add_hazard visit_earlier visit_accesses
    infer_fragments_from infer_fragment_hazards inner_pairs cross_pairs add_ordered add_cross_hazard
    visit_pairs infer_cross_fragment_hazards expand search_path dependency_data_path_exists
    add_order add_fragment_order add_fragment_orders add_orders_from add_explicit_orders
    resolve_graph_order_endpoint add_graph_order add_graph_explicit_orders
shared_meets = refl

access_intersection_exact_example :
    (vertices.id ≡ resource_identity written)
    × (vertices.id ≡ resource_identity fetched)
    × (InRegion (parent_aspect written) shared (byte 9)
        ↔ (Touches written (byte 9) × Touches fetched (byte 9)))
access_intersection_exact_example =
    access_intersection_exact written fetched vertices.id shared (byte 9) refl shared_meets

abbrev tail : GpuResourceAccess
tail = bytes_of 32 16 GpuBufferAccessKind.storage_read

tail_apart : access_intersection written tail ≡ none
unfolding codes_eq codes_lt key_eq key_lt contains insert insert_sorted get modify add_sorted upsert
    buffer_kind_reads buffer_kind_writes buffer_range resource_identity reads writes
    access_intersection shared_region buffer_region belongs_to node_eq reason_code extend
    prepared_node_id access_pair_hazard_reasons add_hazard visit_earlier visit_accesses
    infer_fragments_from infer_fragment_hazards inner_pairs cross_pairs add_ordered add_cross_hazard
    visit_pairs infer_cross_fragment_hazards expand search_path dependency_data_path_exists
    add_order add_fragment_order add_fragment_orders add_orders_from add_explicit_orders
    resolve_graph_order_endpoint add_graph_order add_graph_explicit_orders
tail_apart = refl

tail_buffer : resource_identity written ≡ resource_identity tail
unfolding resource_identity
tail_buffer = refl

access_intersection-none_example : ¬ (Touches written (byte 9) × Touches tail (byte 9))
access_intersection-none_example =
    access_intersection-none written tail (byte 9) IsChecked-written refl tail_buffer tail_apart
