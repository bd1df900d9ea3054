-- ===== src/Graph/Growth/Stages.antt =====
-- Each stage grows the edges.
use runen_gpu.Base.{
  ℕ, ◌+◌, ◌≡◌, refl, ◌>>=◌, subst, ◌⊎◌, inl, inr, List, [], ◌∷◌, some, Result, ok, err, arith,
  Bool-cases, Option-cases, Result-cases,
}
use runen_gpu.Graph.Identity.{GpuPreparedWorkNodeId, Edge, edge_key}
use runen_gpu.Graph.Reason.{
  GpuDependencyReason, explicit_non_data, reason_key, DependencyEdges, extend,
}
use runen_gpu.Graph.Fragment.{
  GpuWorkFragment, GpuWorkGraphCause, prepared_node_id, GpuExplicitOrder,
}
use runen_gpu.Graph.Hazards.{
  Participant, access_pair_hazard_reasons, add_hazard, visit_earlier, visit_accesses,
  infer_fragments_from, infer_fragment_hazards, AccessesByResource, earlier_accesses, record_access,
  is_sampler, participants,
}
use runen_gpu.Graph.CrossHazards.{
  CrossAccess, CrossPair, FragmentRelations, add_cross_hazard, add_ordered, visit_pairs,
  cross_pairs, infer_cross_fragment_hazards,
}
use runen_gpu.Graph.Explicit.{
  find_node, resolve_graph_order_endpoint, add_order, add_fragment_order, add_fragment_orders,
  add_orders_from, add_explicit_orders, GpuGraphExplicitOrder, add_graph_order,
  add_graph_explicit_orders,
}
use runen_gpu.Graph.Hazards.Pair.{edge_of, node_id}
use runen_gpu.Base.SortedMap.{upsert}
use runen_gpu.Base.SortedSet.{insert}
use runen_gpu.Resource.{GpuWorkResourceId}
use runen_gpu.Graph.Region.{GpuDependencyRegion, access_intersection}
use runen_gpu.Graph.Growth.{Grows, Grows-refl, Grows-trans, Grows-upsert}

-- A loop body grows the edges, and so does the rest of the loop.
chain :
    (r : Result GpuWorkGraphCause DependencyEdges)
    (f : DependencyEdges → Result GpuWorkGraphCause DependencyEdges) (edges added : DependencyEdges)
    → (r >>= f) ≡ ok added
    → ((next : DependencyEdges) → r ≡ ok next → Grows edges next)
    → ((next : DependencyEdges) → f next ≡ ok added → Grows next added)
    → Grows edges added
chain (ok next) f edges added h g k = Grows-trans edges next added (g next refl) (k next h)
chain (err cause) f edges added h g k = absurd (cc h)

same :
    (edges added : DependencyEdges)
    → ◌≡◌ {A = Result GpuWorkGraphCause DependencyEdges} (ok edges) (ok added)
    → Grows edges added
same edges added h = subst (Grows edges) (ground arith) (Grows-refl edges)

one_step :
    (edge : Edge) (f : List GpuDependencyReason → List GpuDependencyReason)
    (edges added : DependencyEdges)
    → (edges ≡ added) ⊎ (upsert edge [] f edges ≡ added)
    → Grows edges added
one_step edge f edges added (inl e) = subst (Grows edges) e (Grows-refl edges)
one_step edge f edges added (inr e) = subst (Grows edges) e (Grows-upsert edge f edges)

add_hazard-Grows :
    (i : ℕ) (later earlier : Participant) (edges added : DependencyEdges)
    → add_hazard i later earlier edges ≡ ok added
    → Grows edges added
unfolding add_hazard prepared_node_id
add_hazard-Grows i later earlier edges added h =
    elim (Option-cases (access_intersection earlier.access later.access)) [
      | inl e ↦ same edges added (ground arith)
      | inr ((resource, region), e) ↦
          one_step (edge_of i earlier later)
            (λ set.
              extend set (access_pair_hazard_reasons earlier.access later.access resource region))
            edges added (ground arith)
    ]

visit_earlier-Grows :
    (i : ℕ) (later : Participant) (rest : List Participant) (edges added : DependencyEdges)
    → visit_earlier i later rest edges ≡ ok added
    → Grows edges added
unfolding visit_earlier
visit_earlier-Grows i later [] edges added h = same edges added h
visit_earlier-Grows i later (earlier ∷ rest) edges added h =
    chain (add_hazard i later earlier edges) (visit_earlier i later rest) edges added h
      (add_hazard-Grows i later earlier edges) (λ next. visit_earlier-Grows i later rest next added)

visit_accesses-Grows :
    (i : ℕ) (rest : List Participant) (recorded : AccessesByResource)
    (edges added : DependencyEdges)
    → visit_accesses i rest recorded edges ≡ ok added
    → Grows edges added
unfolding visit_accesses
visit_accesses-Grows i [] recorded edges added h = same edges added h
visit_accesses-Grows i (later ∷ rest) recorded edges added h =
    elim (Bool-cases (is_sampler later.access)) [
      | inl e ↦ visit_accesses-Grows i rest recorded edges added (ground arith)
      | inr e ↦
          chain (visit_earlier i later (earlier_accesses later recorded) edges)
            (visit_accesses i rest (record_access later recorded)) edges added (ground arith)
            (visit_earlier-Grows i later (earlier_accesses later recorded) edges)
            (λ next. visit_accesses-Grows i rest (record_access later recorded) next added)
    ]

infer_fragments_from-Grows :
    (i : ℕ) (rest : List GpuWorkFragment) (edges added : DependencyEdges)
    → infer_fragments_from i rest edges ≡ ok added
    → Grows edges added
unfolding infer_fragments_from
infer_fragments_from-Grows i [] edges added h = same edges added h
infer_fragments_from-Grows i (fragment ∷ rest) edges added h =
    chain (visit_accesses i (participants 0 fragment.nodes) [] edges)
      (infer_fragments_from (i + 1) rest) edges added h
      (visit_accesses-Grows i (participants 0 fragment.nodes) [] edges)
      (λ next. infer_fragments_from-Grows (i + 1) rest next added)

pub infer_fragment_hazards-Grows :
    (fragments : List GpuWorkFragment) (edges added : DependencyEdges)
    → infer_fragment_hazards fragments edges ≡ ok added
    → Grows edges added
unfolding infer_fragment_hazards
infer_fragment_hazards-Grows fragments edges added h =
    infer_fragments_from-Grows 0 fragments edges added h

add_ordered-Grows :
    (resource : GpuWorkResourceId) (region : GpuDependencyRegion) (earlier later : CrossAccess)
    (edges added : DependencyEdges)
    → add_ordered resource region earlier later edges ≡ ok added
    → Grows edges added
unfolding add_ordered prepared_node_id
add_ordered-Grows resource region earlier later edges added h =
    one_step (node_id earlier.fragment_index earlier.node, node_id later.fragment_index later.node)
      (λ set. extend set (access_pair_hazard_reasons earlier.access later.access resource region))
      edges added (ground arith)

-- A pair with a shared region changes nothing or adds one edge, in one of two directions.
one_of :
    (relations : FragmentRelations) (left right : CrossAccess) (edges added : DependencyEdges)
    (resource : GpuWorkResourceId) (region : GpuDependencyRegion)
    → access_intersection left.access right.access ≡ some (resource, region)
    → add_cross_hazard relations left right edges ≡ ok added
    → (◌≡◌ {A = Result GpuWorkGraphCause DependencyEdges} (ok edges) (ok added))
      ⊎ ((add_ordered resource region left right edges ≡ ok added)
          ⊎ (add_ordered resource region right left edges ≡ ok added))
unfolding add_cross_hazard
one_of relations left right edges added resource region e h = ground arith

add_cross_hazard-Grows :
    (relations : FragmentRelations) (left right : CrossAccess) (edges added : DependencyEdges)
    → add_cross_hazard relations left right edges ≡ ok added
    → Grows edges added
unfolding add_cross_hazard
add_cross_hazard-Grows relations left right edges added h =
    elim (Option-cases (access_intersection left.access right.access)) [
      | inl e ↦ same edges added (ground arith)
      | inr ((resource, region), e) ↦
          elim (one_of relations left right edges added resource region e h) [
            | inl k ↦ same edges added k
            | inr (inl k) ↦ add_ordered-Grows resource region left right edges added k
            | inr (inr k) ↦ add_ordered-Grows resource region right left edges added k
          ]
    ]

visit_pairs-Grows :
    (relations : FragmentRelations) (pairs : List CrossPair) (edges added : DependencyEdges)
    → visit_pairs relations pairs edges ≡ ok added
    → Grows edges added
unfolding visit_pairs
visit_pairs-Grows relations [] edges added h = same edges added h
visit_pairs-Grows relations ((left, right) ∷ rest) edges added h =
    chain (add_cross_hazard relations left right edges) (visit_pairs relations rest) edges added h
      (add_cross_hazard-Grows relations left right edges)
      (λ next. visit_pairs-Grows relations rest next added)

pub infer_cross_fragment_hazards-Grows :
    (fragments : List GpuWorkFragment) (relations : FragmentRelations)
    (edges added : DependencyEdges)
    → infer_cross_fragment_hazards fragments relations edges ≡ ok added
    → Grows edges added
unfolding infer_cross_fragment_hazards
infer_cross_fragment_hazards-Grows fragments relations edges added h =
    visit_pairs-Grows relations (cross_pairs 0 fragments) edges added h

pub add_order-Grows :
    (before after : GpuPreparedWorkNodeId) (reason : List ℕ) (edges added : DependencyEdges)
    → add_order before after reason edges ≡ ok added
    → Grows edges added
unfolding add_order
add_order-Grows before after reason edges added h =
    one_step (before, after) (insert (explicit_non_data reason)) edges added (ground arith)

pub add_fragment_order-Grows :
    (i : ℕ) (fragment : GpuWorkFragment) (order : GpuExplicitOrder) (edges added : DependencyEdges)
    → add_fragment_order i fragment order edges ≡ ok added
    → Grows edges added
unfolding add_fragment_order prepared_node_id
add_fragment_order-Grows i fragment order edges added h =
    elim (Option-cases (find_node order.before fragment.nodes)) [
      | inl e ↦ absurd (ground arith)
      | inr (n, e) ↦ elim (Option-cases (find_node order.after fragment.nodes)) [
        | inl f ↦ absurd (ground arith)
        | inr (m, f) ↦
            add_order-Grows (node_id i n) (node_id i m) order.reason edges added (ground arith)
      ]
    ]

pub add_fragment_orders-Grows :
    (i : ℕ) (fragment : GpuWorkFragment) (rest : List GpuExplicitOrder)
    (edges added : DependencyEdges)
    → add_fragment_orders i fragment rest edges ≡ ok added
    → Grows edges added
unfolding add_fragment_orders
add_fragment_orders-Grows i fragment [] edges added h = same edges added h
add_fragment_orders-Grows i fragment (order ∷ rest) edges added h =
    chain (add_fragment_order i fragment order edges) (add_fragment_orders i fragment rest) edges
      added h (add_fragment_order-Grows i fragment order edges)
      (λ next. add_fragment_orders-Grows i fragment rest next added)

pub add_orders_from-Grows :
    (i : ℕ) (rest : List GpuWorkFragment) (edges added : DependencyEdges)
    → add_orders_from i rest edges ≡ ok added
    → Grows edges added
unfolding add_orders_from
add_orders_from-Grows i [] edges added h = same edges added h
add_orders_from-Grows i (fragment ∷ rest) edges added h =
    chain (add_fragment_orders i fragment fragment.explicit_orders edges)
      (add_orders_from (i + 1) rest) edges added h
      (add_fragment_orders-Grows i fragment fragment.explicit_orders edges)
      (λ next. add_orders_from-Grows (i + 1) rest next added)

pub add_explicit_orders-Grows :
    (fragments : List GpuWorkFragment) (edges added : DependencyEdges)
    → add_explicit_orders fragments edges ≡ ok added
    → Grows edges added
unfolding add_explicit_orders
add_explicit_orders-Grows fragments edges added h = add_orders_from-Grows 0 fragments edges added h

pub add_graph_order-Grows :
    (fragments : List GpuWorkFragment) (order : GpuGraphExplicitOrder)
    (edges added : DependencyEdges)
    → add_graph_order fragments order edges ≡ ok added
    → Grows edges added
unfolding add_graph_order
add_graph_order-Grows fragments order edges added h =
    elim (Result-cases (resolve_graph_order_endpoint fragments order.before)) [
      | inr (c, e) ↦ absurd (ground arith)
      | inl (b, e) ↦ elim (Result-cases (resolve_graph_order_endpoint fragments order.after)) [
        | inr (c, f) ↦ absurd (ground arith)
        | inl (a, f) ↦ add_order-Grows b.prepared a.prepared order.reason edges added (ground arith)
      ]
    ]

pub add_graph_explicit_orders-Grows :
    (fragments : List GpuWorkFragment) (rest : List GpuGraphExplicitOrder)
    (edges added : DependencyEdges)
    → add_graph_explicit_orders fragments rest edges ≡ ok added
    → Grows edges added
unfolding add_graph_explicit_orders
add_graph_explicit_orders-Grows fragments [] edges added h = same edges added h
add_graph_explicit_orders-Grows fragments (order ∷ rest) edges added h =
    chain (add_graph_order fragments order edges) (add_graph_explicit_orders fragments rest) edges
      added h (add_graph_order-Grows fragments order edges)
      (λ next. add_graph_explicit_orders-Grows fragments rest next added)
