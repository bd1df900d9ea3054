-- ===== src/Graph/Explicit/GraphOrders.antt =====
-- The orders between fragments become edges.
use runen_gpu.Base.{◌≡◌, sym, subst, inl, inr, true, List, [], ◌∷◌, ok, arith, Result-cases, In}
use runen_gpu.Graph.Identity.{edge_key}
use runen_gpu.Graph.Reason.{reason_key, DependencyEdges}
use runen_gpu.Graph.Fragment.{GpuWorkFragment}
use runen_gpu.Graph.Hazards.Pair.{has_edge}
use runen_gpu.Graph.Explicit.{
  GpuGraphExplicitOrder, ResolvedEndpoint, resolve_graph_order_endpoint, add_graph_order,
  add_graph_explicit_orders,
}
use runen_gpu.Graph.Explicit.Endpoints.{IsResolved, resolve_graph_order_endpoint-IsResolved}
use runen_gpu.Graph.Growth.{Grows}
use runen_gpu.Graph.Growth.Stages.{add_graph_explicit_orders-Grows}
use runen_gpu.Graph.Explicit.Laws.{add_order-has_edge}

-- The edge of an order between fragments, whose ends are resolved.
pub record GraphOrdered (fragments : List GpuWorkFragment) (order : GpuGraphExplicitOrder)
    (edges : DependencyEdges) : Type 0 where
  pub first : ResolvedEndpoint
  pub second : ResolvedEndpoint
  pub first_resolved : IsResolved fragments order.before first
  pub second_resolved : IsResolved fragments order.after second
  pub edge : has_edge (first.prepared, second.prepared) edges ≡ true

GraphOrdered-Grows :
    (fragments : List GpuWorkFragment) (order : GpuGraphExplicitOrder)
    (edges added : DependencyEdges)
    → Grows edges added
    → GraphOrdered fragments order edges
    → GraphOrdered fragments order added
GraphOrdered-Grows fragments order edges added g o = record {
  first = o.first;
  second = o.second;
  first_resolved = o.first_resolved;
  second_resolved = o.second_resolved;
  edge = g.keeps (o.first.prepared, o.second.prepared) o.edge;
}

add_graph_order-GraphOrdered :
    (fragments : List GpuWorkFragment) (order : GpuGraphExplicitOrder)
    (edges added : DependencyEdges)
    → add_graph_order fragments order edges ≡ ok added
    → GraphOrdered fragments order added
unfolding add_graph_order
add_graph_order-GraphOrdered fragments order edges added h =
    elim (Result-cases (resolve_graph_order_endpoint fragments order.before)) [
      | inr (c, e) ↦ absurd (ground arith)
      | inl (b, e) ↦ elim (Result-cases (resolve_graph_order_endpoint fragments order.after)) [
        | inr (c, f) ↦ absurd (ground arith)
        | inl (a, f) ↦ record {
          first = b;
          second = a;
          first_resolved = resolve_graph_order_endpoint-IsResolved fragments order.before b e;
          second_resolved = resolve_graph_order_endpoint-IsResolved fragments order.after a f;
          edge = add_order-has_edge b.prepared a.prepared order.reason edges added (ground arith);
        }
      ]
    ]

-- When the orders of the graph are accepted, each of them is an edge between the nodes it names,
-- and either name belongs to one fragment of the graph only.
pub add_graph_explicit_orders-GraphOrdered :
    (fragments : List GpuWorkFragment) (orders : List GpuGraphExplicitOrder)
    (order : GpuGraphExplicitOrder) (edges added : DependencyEdges)
    → add_graph_explicit_orders fragments orders edges ≡ ok added
    → In order orders
    → GraphOrdered fragments order added
unfolding add_graph_explicit_orders
add_graph_explicit_orders-GraphOrdered fragments [] order edges added h i = absurd i
add_graph_explicit_orders-GraphOrdered fragments (x ∷ xs) order edges added h i =
    elim (Result-cases (add_graph_order fragments x edges)) [
      | inr (c, q) ↦ absurd (ground arith)
      | inl (next, q) ↦ elim i [
        | inr j ↦
            add_graph_explicit_orders-GraphOrdered fragments xs order next added (ground arith) j
        | inl e ↦
            GraphOrdered-Grows fragments order next added
              (add_graph_explicit_orders-Grows fragments xs next added (ground arith))
              (subst (λ o. GraphOrdered fragments o next) (sym e)
                (add_graph_order-GraphOrdered fragments x edges next q))
      ]
    ]
