-- ===== src/Graph/Preparation/Safety.antt =====
-- The order that graph preparation accepts is safe for every resource.
use runen_gpu.Base.{
  ℕ, ◌≡◌, ◌<◌, ◌||◌, refl, subst, ◌⊎◌, inl, inr, true, List, [], some, Result, ok, err, arith,
  Option-cases, Result-cases, In, Distinct, get_elem?,
}
use runen_gpu.Base.SortedMap.{keys, get, In-keys-get}
use runen_gpu.Access.Construct.{GpuResourceAccess, resource_identity, writes}
use runen_gpu.Graph.Region.Laws.{Piece, Touches, IsChecked, SameTexture}
use runen_gpu.Graph.Identity.{GpuPreparedWorkNodeId, Edge, edge_key}
use runen_gpu.Graph.Reason.{DependencyEdges}
use runen_gpu.Graph.Fragment.{
  GpuWorkNode, GpuWorkFragment, GpuWorkGraphCause, unknown_identity, cycle,
}
use runen_gpu.Graph.Hazards.{infer_fragment_hazards}
use runen_gpu.Graph.Hazards.Pair.{has_edge, node_id, is_hazard}
use runen_gpu.Graph.Hazards.Fragments.{infer_fragment_hazards-has_edge}
use runen_gpu.Graph.CrossHazards.{FragmentRelations, at, related, infer_cross_fragment_hazards}
use runen_gpu.Graph.CrossHazards.Laws.{infer_cross_fragment_hazards-Oriented}
use runen_gpu.Graph.Explicit.{GpuGraphExplicitOrder, add_explicit_orders, add_graph_explicit_orders}
use runen_gpu.Graph.Growth.{Grows, Grows-trans}
use runen_gpu.Graph.Growth.Stages.{
  infer_fragment_hazards-Grows, infer_cross_fragment_hazards-Grows, add_explicit_orders-Grows,
  add_graph_explicit_orders-Grows,
}
use runen_gpu.Graph.Topology.{topological_node_order}
use runen_gpu.Graph.Topology.Before.{Before}
use runen_gpu.Graph.Topology.Order.{IsOrder, topological_node_order_outcome}
use runen_gpu.Graph.Preparation.{infer_edges, order_prepared}

-- The edges after each stage.
record Stages (fragments : List GpuWorkFragment) (relations : FragmentRelations)
    (orders : List GpuGraphExplicitOrder) (edges : DependencyEdges) : Type 0 where
  within : DependencyEdges
  across : DependencyEdges
  authored : DependencyEdges
  within_run : infer_fragment_hazards fragments [] ≡ ok within
  across_run : infer_cross_fragment_hazards fragments relations within ≡ ok across
  authored_run : add_explicit_orders fragments across ≡ ok authored
  last_run : add_graph_explicit_orders fragments orders authored ≡ ok edges

stages :
    (fragments : List GpuWorkFragment) (relations : FragmentRelations)
    (orders : List GpuGraphExplicitOrder) (edges : DependencyEdges)
    → infer_edges fragments relations orders ≡ ok edges
    → Stages fragments relations orders edges
unfolding infer_edges
stages fragments relations orders edges h =
    elim (Result-cases (infer_fragment_hazards fragments [])) [
      | inr (c, e) ↦ absurd (ground arith)
      | inl (w, e) ↦ elim (Result-cases (infer_cross_fragment_hazards fragments relations w)) [
        | inr (c, f) ↦ absurd (ground arith)
        | inl (x, f) ↦ elim (Result-cases (add_explicit_orders fragments x)) [
          | inr (c, g) ↦ absurd (ground arith)
          | inl (y, g) ↦ record {
            within = w;
            across = x;
            authored = y;
            within_run = e;
            across_run = f;
            authored_run = g;
            last_run = ground arith;
          }
        ]
      ]
    ]

In-keys-has_edge :
    (e : Edge) (edges : DependencyEdges) → has_edge e edges ≡ true → In e (keys edges)
In-keys-has_edge e edges h = elim (Option-cases (get e edges)) [
  | inl n ↦ absurd (ground arith)
  | inr (v, s) ↦ In-keys-get e edges s
]

module _ (nodes : List GpuPreparedWorkNodeId) (fragments : List GpuWorkFragment)
    (relations : FragmentRelations) (orders : List GpuGraphExplicitOrder) where
  across-Grows :
      (edges : DependencyEdges) (s : Stages fragments relations orders edges) → Grows s.across edges
  across-Grows edges s =
      Grows-trans s.across s.authored edges
        (add_explicit_orders-Grows fragments s.across s.authored s.authored_run)
        (add_graph_explicit_orders-Grows fragments orders s.authored edges s.last_run)

  within-Grows :
      (edges : DependencyEdges) (s : Stages fragments relations orders edges) → Grows s.within edges
  within-Grows edges s =
      Grows-trans s.within s.across edges
        (infer_cross_fragment_hazards-Grows fragments relations s.within s.across s.across_run)
        (across-Grows edges s)

  edges_Distinct :
      (edges : DependencyEdges) → Stages fragments relations orders edges → Distinct (keys edges)
  edges_Distinct edges s =
      (Grows-trans [] s.within edges
          (infer_fragment_hazards-Grows fragments [] s.within s.within_run)
          (within-Grows edges s)).distinct
        tt

  ordered_edges :
      (edges : DependencyEdges) (order : List GpuPreparedWorkNodeId)
      → Distinct nodes
      → Distinct (keys edges)
      → topological_node_order nodes (keys edges) ≡ some (ok order)
      → IsOrder nodes (keys edges) order
  ordered_edges edges order d e h = elim (topological_node_order_outcome nodes (keys edges) d e) [
    | inl (found, run, is_order) ↦ subst (IsOrder nodes (keys edges)) (ground arith) is_order
    | inr (inl (run, blocked, stuck)) ↦ absurd (cc (run, h))
    | inr (inr (run, x, y, m, k)) ↦ absurd (cc (run, h))
  ]

  -- The edges and the order of a preparation that succeeds.
  order_prepared-IsOrder :
      (order : List GpuPreparedWorkNodeId)
      → Distinct nodes
      → order_prepared nodes fragments relations orders ≡ some (ok order)
      → (edges : DependencyEdges) × Stages fragments relations orders edges
        × IsOrder nodes (keys edges) order
  unfolding order_prepared
  order_prepared-IsOrder order d h = elim (Result-cases (infer_edges fragments relations orders)) [
    | inr (c, e) ↦ absurd (ground arith)
    | inl (edges, e) ↦
        let s = stages fragments relations orders edges e in
        (edges, s, ordered_edges edges order d (edges_Distinct edges s) (ground arith))
  ]

  -- Preparation answers.
  order_prepared_total :
      Distinct nodes
      → (result : Result GpuWorkGraphCause (List GpuPreparedWorkNodeId)) × (order_prepared nodes
            fragments relations orders
          ≡ some result)
  unfolding order_prepared
  order_prepared_total d = elim (Result-cases (infer_edges fragments relations orders)) [
    | inr (c, e) ↦ (err c, rw (order_prepared, e) refl)
    | inl (edges, e) ↦
        let s = stages fragments relations orders edges e in
        elim (topological_node_order_outcome nodes (keys edges) d (edges_Distinct edges s)) [
          | inl (found, run, is_order) ↦ (ok found, rw (order_prepared, e) run)
          | inr (inl (run, blocked, stuck)) ↦ (err cycle, rw (order_prepared, e) run)
          | inr (inr (run, x, y, m, k)) ↦ (err unknown_identity, rw (order_prepared, e) run)
        ]
  ]

-- In the order of a prepared graph, a node runs before every later node of its fragment with which
-- it shares a piece of a resource that one of the two writes and the other reads or writes. (A
-- texture is seen with the same planes by both accesses.)
pub order_prepared_within :
    (nodes : List GpuPreparedWorkNodeId) (fragments : List GpuWorkFragment)
    (relations : FragmentRelations) (orders : List GpuGraphExplicitOrder)
    (order : List GpuPreparedWorkNodeId) (fragment : GpuWorkFragment) (k i j : ℕ)
    (n m : GpuWorkNode) (a b : GpuResourceAccess) (piece : Piece)
    → Distinct nodes
    → order_prepared nodes fragments relations orders ≡ some (ok order)
    → get_elem? fragments k ≡ some fragment
    → get_elem? fragment.nodes i ≡ some n
    → get_elem? fragment.nodes j ≡ some m
    → i < j
    → In a n.accesses
    → In b m.accesses
    → is_hazard a b ≡ true
    → IsChecked a
    → SameTexture a b
    → resource_identity a ≡ resource_identity b
    → Touches a piece
    → Touches b piece
    → Before (node_id k n) (node_id k m) order
order_prepared_within nodes fragments relations orders order fragment k i j n m a b piece d h g gi
      gj lt ma mb hazard checked same id ta tb =
    let (edges, s, is_order) = order_prepared-IsOrder nodes fragments relations orders order d h in
    let edge =
      infer_fragment_hazards-has_edge fragments [] s.within fragment k i j n m a b piece
        s.within_run g gi gj lt ma mb hazard checked same id ta tb in
    is_order.before (node_id k n) (node_id k m) (
      In-keys-has_edge (node_id k n, node_id k m) edges
        ((within-Grows nodes fragments relations orders edges s).keeps (node_id k n, node_id k m)
          edge))

-- In the order of a prepared graph, two nodes of different fragments that share a piece of a
-- resource which one of them writes run in the direction in which the relations bind that
-- resource between the two fragments. (A texture is seen with the same planes by both accesses.)
pub order_prepared_across :
    (nodes : List GpuPreparedWorkNodeId) (fragments : List GpuWorkFragment)
    (relations : FragmentRelations) (orders : List GpuGraphExplicitOrder)
    (order : List GpuPreparedWorkNodeId) (left right : GpuWorkFragment) (i j : ℕ)
    (n m : GpuWorkNode) (a b : GpuResourceAccess) (piece : Piece)
    → Distinct nodes
    → order_prepared nodes fragments relations orders ≡ some (ok order)
    → get_elem? fragments i ≡ some left
    → get_elem? fragments j ≡ some right
    → i < j
    → In n left.nodes
    → In m right.nodes
    → In a n.accesses
    → In b m.accesses
    → (writes a || writes b) ≡ true
    → IsChecked a
    → SameTexture a b
    → resource_identity a ≡ resource_identity b
    → Touches a piece
    → Touches b piece
    → ((related relations (at i n a) (at j m b) (resource_identity a) ≡ true)
        × Before (node_id i n) (node_id j m) order)
      ⊎ ((related relations (at j m b) (at i n a) (resource_identity a) ≡ true)
          × Before (node_id j m) (node_id i n) order)
order_prepared_across nodes fragments relations orders order left right i j n m a b piece d h gi gj
      lt nl mr ma mb w checked same id ta tb =
    let (edges, s, is_order) = order_prepared-IsOrder nodes fragments relations orders order d h in
    let grows = across-Grows nodes fragments relations orders edges s in
    elim (infer_cross_fragment_hazards-Oriented fragments relations s.within s.across left right i j
      n m a b piece s.across_run gi gj lt nl mr ma mb w checked same id ta tb) [
        | inl (r, q, edge) ↦ inl (
          r,
          is_order.before (node_id i n) (node_id j m) (
              In-keys-has_edge (node_id i n, node_id j m) edges
                (grows.keeps (node_id i n, node_id j m) edge)),
        )
        | inr (q, r, edge) ↦ inr (
          r,
          is_order.before (node_id j m) (node_id i n) (
              In-keys-has_edge (node_id j m, node_id i n) edges
                (grows.keeps (node_id j m, node_id i n) edge)),
        )
      ]

-- For distinct nodes, preparation answers with an order of the nodes or an error: the ordering loop
-- ends within its fuel, the number of nodes, and no count of predecessors underflows.
pub order_prepared_answers :
    (nodes : List GpuPreparedWorkNodeId) (fragments : List GpuWorkFragment)
    (relations : FragmentRelations) (orders : List GpuGraphExplicitOrder)
    → Distinct nodes
    → (result : Result GpuWorkGraphCause (List GpuPreparedWorkNodeId)) × (order_prepared nodes
          fragments relations orders
        ≡ some result)
order_prepared_answers nodes fragments relations orders d =
    order_prepared_total nodes fragments relations orders d
