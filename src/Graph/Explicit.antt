-- ===== src/Graph/Explicit.antt =====
-- Explicit orders: `add_explicit_orders`, `add_graph_explicit_orders` and
-- `resolve_graph_order_endpoint` of src/api/graph/hazards.rs.
pub mod Endpoints
pub mod Laws
pub mod GraphOrders
use runen_gpu.Base.{
  ℕ, ◌+◌, Bool, true, false, not, ◌||◌, List, [], ◌∷◌, Option, none, some, Result, ok, err, ◌>>=◌,
  ◌>>◌, reject_if, ok_or, if◌then◌else◌, is_some_and, find, filter, enumerate,
}
use runen_gpu.Base.SortedSet.{insert}
use runen_gpu.Base.SortedMap.{upsert}
use runen_gpu.Graph.Identity.{
  GpuWorkNodeId, GpuPreparedWorkNodeId, prepared_id_key, edge_key, belongs_to, node_eq,
}
use runen_gpu.Graph.Reason.{DependencyEdges, reason_key, explicit_non_data}
use runen_gpu.Graph.Fragment.{
  GpuWorkNode, GpuWorkFragment, GpuExplicitOrder, GpuWorkGraphCause, unknown_identity,
  foreign_identity, redundant_explicit_data_order, explicit_order_conflict, prepared_node_id,
}
use runen_gpu.Graph.Hazards.{is_empty}
use runen_gpu.Graph.DataPath.{dependency_data_path_exists}

-- The search always answers, as DataPath/Fuel.antt shows.
abbrev pub path_exists : DependencyEdges → GpuPreparedWorkNodeId → GpuPreparedWorkNodeId → Bool
path_exists edges start target =
    is_some_and (dependency_data_path_exists edges start target) (λ found. found)

-- The end of both loops: an order that the data imply or contradict is refused.
unfoldable pub add_order :
    GpuPreparedWorkNodeId
    → GpuPreparedWorkNodeId
    → List ℕ
    → DependencyEdges
    → Result GpuWorkGraphCause DependencyEdges
add_order before after reason edges =
    reject_if (path_exists edges before after) redundant_explicit_data_order
    >> reject_if (path_exists edges after before) explicit_order_conflict
    >> ok (upsert (before, after) [] (insert (explicit_non_data reason)) edges)

abbrev pub find_node : GpuWorkNodeId → List GpuWorkNode → Option GpuWorkNode
find_node id nodes = find (λ node. node_eq node.id id) nodes

unfoldable pub add_fragment_order :
    ℕ
    → GpuWorkFragment
    → GpuExplicitOrder
    → DependencyEdges
    → Result GpuWorkGraphCause DependencyEdges
unfolding add_order
add_fragment_order fragment_index fragment order edges =
    reject_if
      (not (belongs_to order.before fragment.identity)
        || not (belongs_to order.after fragment.identity))
      foreign_identity
    >> do
      before_node ← ok_or (find_node order.before fragment.nodes) unknown_identity
      after_node ← ok_or (find_node order.after fragment.nodes) unknown_identity
      before ← prepared_node_id fragment_index before_node
      after ← prepared_node_id fragment_index after_node
      add_order before after order.reason edges

unfoldable pub add_fragment_orders :
    ℕ
    → GpuWorkFragment
    → List GpuExplicitOrder
    → DependencyEdges
    → Result GpuWorkGraphCause DependencyEdges
unfolding add_fragment_order
add_fragment_orders fragment_index fragment [] edges = ok edges
add_fragment_orders fragment_index fragment (order ∷ rest) edges = do
  added ← add_fragment_order fragment_index fragment order edges
  add_fragment_orders fragment_index fragment rest added

unfoldable pub add_orders_from :
    ℕ → List GpuWorkFragment → DependencyEdges → Result GpuWorkGraphCause DependencyEdges
unfolding add_fragment_orders
add_orders_from fragment_index [] edges = ok edges
add_orders_from fragment_index (fragment ∷ rest) edges = do
  added ← add_fragment_orders fragment_index fragment fragment.explicit_orders edges
  add_orders_from (fragment_index + 1) rest added

unfoldable pub add_explicit_orders :
    List GpuWorkFragment → DependencyEdges → Result GpuWorkGraphCause DependencyEdges
unfolding add_orders_from
add_explicit_orders fragments edges = add_orders_from 0 fragments edges

-- An order between nodes of any fragments of the graph.
pub record GpuGraphExplicitOrder : Type 0 where
  pub before : GpuWorkNodeId
  pub after : GpuWorkNodeId
  pub reason : List ℕ

pub record ResolvedEndpoint : Type 0 where
  pub fragment_index : ℕ
  pub fragment : GpuWorkFragment
  pub node : GpuWorkNode
  pub prepared : GpuPreparedWorkNodeId

abbrev pub matching_fragments : GpuWorkNodeId → List GpuWorkFragment → List (ℕ × GpuWorkFragment)
matching_fragments endpoint fragments =
    filter (λ indexed. belongs_to endpoint indexed.1.identity) (enumerate 0 fragments)

unfoldable pub resolve_graph_order_endpoint :
    List GpuWorkFragment → GpuWorkNodeId → Result GpuWorkGraphCause ResolvedEndpoint
resolve_graph_order_endpoint fragments endpoint = elim (matching_fragments endpoint fragments) [
  | [] ↦ err foreign_identity
  | (fragment_index, fragment) ∷ more ↦ reject_if (not (is_empty more)) unknown_identity >> do
    node ← ok_or (find_node endpoint fragment.nodes) unknown_identity
    prepared ← prepared_node_id fragment_index node
    ok (record {
      fragment_index = fragment_index;
      fragment = fragment;
      node = node;
      prepared = prepared;
    })
]

unfoldable pub add_graph_order :
    List GpuWorkFragment
    → GpuGraphExplicitOrder
    → DependencyEdges
    → Result GpuWorkGraphCause DependencyEdges
unfolding resolve_graph_order_endpoint add_order
add_graph_order fragments order edges = do
  before ← resolve_graph_order_endpoint fragments order.before
  after ← resolve_graph_order_endpoint fragments order.after
  add_order before.prepared after.prepared order.reason edges

unfoldable pub add_graph_explicit_orders :
    List GpuWorkFragment
    → List GpuGraphExplicitOrder
    → DependencyEdges
    → Result GpuWorkGraphCause DependencyEdges
unfolding add_graph_order
add_graph_explicit_orders fragments [] edges = ok edges
add_graph_explicit_orders fragments (order ∷ rest) edges = do
  added ← add_graph_order fragments order edges
  add_graph_explicit_orders fragments rest added
