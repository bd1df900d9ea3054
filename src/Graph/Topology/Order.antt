-- ===== src/Graph/Topology/Order.antt =====
-- What `topological_node_order` returns: an order of all nodes that respects the edges, or the
-- error it has for edges that no order respects.
use runen_gpu.Base.{
  ◌≡◌, ◌≢◌, ◌<◌, refl, sym, ap, subst, ◌⊎◌, inl, inr, ◌↔◌, Bool, true, not, List, [], ◌∷◌, some, ok,
  err, arith, ◌==◌, length, In, Distinct, Bool-cases, filter,
}
use runen_gpu.Base.Pigeonhole.{length-lt_of_missing, length-le_of_subset}
use runen_gpu.Base.SortedSet.{contains, contains_cases}
use runen_gpu.Base.SortedMap.{get}
use runen_gpu.Graph.Identity.{GpuPreparedWorkNodeId, prepared_id_key, Edge, edge_key}
use runen_gpu.Graph.Fragment.{unknown_identity, cycle}
use runen_gpu.Graph.Topology.{
  Indegree, Outgoing, ready_nodes, no_predecessors, topological_node_order,
}
use runen_gpu.Graph.Topology.Waits.{waits, waits_pos}
use runen_gpu.Graph.Topology.Before.{Before, Before-In_end}
use runen_gpu.Graph.Topology.Count.{count_edges_outcome}
use runen_gpu.Graph.Topology.Loop.{Described, Ordering, drain-Ordering}
use runen_gpu.Graph.Topology.Start.{described, start, keys-no_predecessors}

-- Every node once, and the start of every edge before its end.
pub record IsOrder (nodes : List GpuPreparedWorkNodeId) (edges : List Edge)
    (order : List GpuPreparedWorkNodeId) : Type 0 where
  pub once : Distinct order
  pub node_iff : (a : GpuPreparedWorkNodeId) → In a order ↔ In a nodes
  pub before : (b a : GpuPreparedWorkNodeId) → In {A = Edge} (b, a) edges → Before b a order

-- A nonempty list of nodes in which each has an edge from another of the list.
pub record IsBlocked (nodes : List GpuPreparedWorkNodeId) (edges : List Edge)
    (blocked : List GpuPreparedWorkNodeId) : Type 0 where
  pub first : GpuPreparedWorkNodeId
  pub first_In : In first blocked
  pub blocked_nodes : (a : GpuPreparedWorkNodeId) → In a blocked → In a nodes
  pub waits_inside :
      (a : GpuPreparedWorkNodeId)
      → In a blocked
      → (b : GpuPreparedWorkNodeId) × In b blocked × In {A = Edge} (b, a) edges

In-filter :
    (p : GpuPreparedWorkNodeId → Bool) (a : GpuPreparedWorkNodeId) (xs : List GpuPreparedWorkNodeId)
    → In a (filter p xs) ↔ (In a xs × (p a ≡ true))
In-filter p a [] = ground arith
In-filter p a (x ∷ xs) = elim (Bool-cases (p x)) [
  | inl e ↦ rw e (
    λ h. elim h [
      | inl q ↦ (inl q, subst (λ y. p y ≡ true) (sym q) e)
      | inr m ↦ let (k, t) = (In-filter p a xs).0 m in (inr k, t)
    ],
    λ h. elim h.0 [ inl q ↦ inl q | inr m ↦ inr ((In-filter p a xs).1 (m, h.1)) ],
  )
  | inr e ↦ rw e (
    λ h. let (k, t) = (In-filter p a xs).0 h in (inr k, t),
    λ h. elim h.0 [ inl q ↦ absurd (cc (h.1, ap p q, e)) | inr m ↦ (In-filter p a xs).1 (m, h.1) ],
  )
]

outside_or_all :
    (xs ordered : List GpuPreparedWorkNodeId)
    → ((a : GpuPreparedWorkNodeId) × In a xs × (¬ In a ordered))
      ⊎ ((a : GpuPreparedWorkNodeId) → In a xs → In a ordered)
outside_or_all [] ordered = inr (λ a m. absurd m)
outside_or_all (x ∷ xs) ordered = elim (contains_cases x ordered) [
  | inr (c, k) ↦ inl (x, inl refl, k)
  | inl (c, i) ↦ elim (outside_or_all xs ordered) [
    | inl (a, m, k) ↦ inl (a, inr m, k)
    | inr f ↦ inr (λ a m. elim m [ inl e ↦ subst (λ b. In b ordered) (sym e) i | inr q ↦ f a q ])
  ]
]

module _ (nodes : List GpuPreparedWorkNodeId) (edges : List Edge) (targets : Outgoing)
    (d : Distinct nodes) where
  abbrev left_over : List GpuPreparedWorkNodeId → List GpuPreparedWorkNodeId
  left_over ordered = filter (λ a. not (contains a ordered)) nodes

  finished :
      (ordered : List GpuPreparedWorkNodeId) (degrees : Indegree)
      → Described nodes edges targets
      → Ordering nodes edges targets ordered degrees []
      → length ordered ≡ length nodes
      → IsOrder nodes edges ordered
  finished ordered degrees described last full =
      let all_ordered : (a : GpuPreparedWorkNodeId) → In a nodes → In a ordered = λ a m.
        elim (contains_cases a ordered) [
          | inl (c, i) ↦ i
          | inr (c, k) ↦ absurd (
              omega (
                arith,
                length-lt_of_missing ordered nodes a last.ordered_distinct last.ordered_nodes m k,
              ))
        ] in
      record {
        once = last.ordered_distinct;
        node_iff = λ a. (last.ordered_nodes a, all_ordered a);
        before = λ b a m. last.before b a m (all_ordered a (described.known b a m).1);
      }

  left_over_iff :
      (ordered : List GpuPreparedWorkNodeId) (a : GpuPreparedWorkNodeId)
      → (In a nodes × (¬ In a ordered)) ↔ In a (left_over ordered)
  left_over_iff ordered a =
      ground (arith, In-filter (λ b. not (contains b ordered)) a nodes, contains_cases a ordered)

  waiting :
      (ordered : List GpuPreparedWorkNodeId) (degrees : Indegree)
      → Ordering nodes edges targets ordered degrees []
      → (a : GpuPreparedWorkNodeId) → In a nodes
      → (¬ In a ordered)
      → 0 < waits a ordered edges
  waiting ordered degrees last a m k = ground (arith, last.ready_iff a)

  missing :
      (ordered : List GpuPreparedWorkNodeId) (degrees : Indegree)
      → Ordering nodes edges targets ordered degrees []
      → length ordered ≢ length nodes
      → (a : GpuPreparedWorkNodeId) × In a nodes × (¬ In a ordered)
  missing ordered degrees last short = elim (outside_or_all nodes ordered) [
    | inl m ↦ m
    | inr f ↦ absurd (
        short (
          omega (
            arith,
            length-le_of_subset nodes ordered d f,
            length-le_of_subset ordered nodes last.ordered_distinct last.ordered_nodes,
          )))
  ]

  stuck :
      (ordered : List GpuPreparedWorkNodeId) (degrees : Indegree)
      → Described nodes edges targets
      → Ordering nodes edges targets ordered degrees []
      → length ordered ≢ length nodes
      → IsBlocked nodes edges (left_over ordered)
  stuck ordered degrees described last short =
      let (a, m, k) = missing ordered degrees last short in
      record {
        first = a;
        first_In = (left_over_iff ordered a).0 (m, k);
        blocked_nodes = λ b i. ((left_over_iff ordered b).1 i).0;
        waits_inside = λ b i.
            let (j, l) = (left_over_iff ordered b).1 i in
            let (c, edge, n) = waits_pos b ordered edges (waiting ordered degrees last b j l) in
            (c, (left_over_iff ordered c).0 ((described.known c b edge).0, n), edge);
      }

-- What the ordering may return: an order; the error `cycle`, with nodes that block each other; or
-- the error `unknown_identity`, with an edge that has an end outside the nodes.
abbrev pub TopologyOutcome : List GpuPreparedWorkNodeId → List Edge → Type 0
TopologyOutcome nodes edges =
    ((order : List GpuPreparedWorkNodeId) × (topological_node_order nodes edges ≡ some (ok order))
      × IsOrder nodes edges order)
    ⊎ (((topological_node_order nodes edges ≡ some (err cycle))
          × (blocked : List GpuPreparedWorkNodeId) × IsBlocked nodes edges blocked)
        ⊎ ((topological_node_order nodes edges ≡ some (err unknown_identity))
            × (b : GpuPreparedWorkNodeId) × (a : GpuPreparedWorkNodeId) × In {A = Edge} (b, a) edges
            × (¬ (In b nodes × In a nodes))))

-- For distinct nodes and distinct edges, the ordering returns an order with every node once and
-- the start of every edge before its end; or it returns `cycle`, and some of the nodes each have
-- an edge from another of them; or it returns `unknown_identity`, and an edge has an end outside
-- the nodes. No degree underflows.
pub topological_node_order_outcome :
    (nodes : List GpuPreparedWorkNodeId) (edges : List Edge)
    → Distinct nodes
    → Distinct edges
    → TopologyOutcome nodes edges
unfolding topological_node_order get
topological_node_order_outcome nodes edges d e =
    elim (count_edges_outcome edges [] (no_predecessors nodes) e (λ b a m k. k)) [
      | inr (run, b, a, m, n) ↦ inr (
          inr (
            rw (run, topological_node_order) refl,
            b,
            a,
            m,
            subst (λ ks. ¬ (In b ks × In a ks)) (keys-no_predecessors nodes) n,
          ))
      | inl (targets, degrees, run, counted) ↦
          let known = described nodes edges d e targets degrees counted in
          let (last, drained, done) =
            drain-Ordering nodes edges targets (length nodes) (ready_nodes degrees) [] degrees known
              (start nodes edges d e targets degrees counted) (omega arith) in
          elim (Bool-cases (length last.ordered == length nodes)) [
            | inl full ↦ inl (
              last.ordered,
              rw (run, topological_node_order) (rw drained (rw full refl)),
              finished nodes edges targets d last.ordered last.indegree known done (ground arith),
            )
            | inr short ↦ inr (
                inl (
                  rw (run, topological_node_order) (rw drained (rw short refl)),
                  left_over nodes edges targets d last.ordered,
                  stuck nodes edges targets d last.ordered last.indegree known done (ground arith),
                ))
          ]
    ]

-- Edges that block a list of nodes leave no order.
no_blocked :
    (xs blocked : List GpuPreparedWorkNodeId)
    → Distinct xs
    → ((a : GpuPreparedWorkNodeId)
        → In a blocked
        → In a xs
        → (b : GpuPreparedWorkNodeId) × In b blocked × Before b a xs)
    → (a : GpuPreparedWorkNodeId) → In a blocked
    → ¬ In a xs
no_blocked [] blocked d f a i m = m
no_blocked (x ∷ xs) blocked d f a i m =
    let head_free : ¬ In x blocked = λ k.
      let (b, j, before) = f x k (inl refl) in
      elim before [ inl p ↦ d.0 p.1 | inr q ↦ d.0 (Before-In_end b x xs q) ] in
    elim m [
      | inl e ↦ head_free (subst (λ y. In y blocked) e i)
      | inr q ↦
          no_blocked xs blocked d.1
            (λ y k l.
              let (b, j, before) = f y k (inr l) in
              elim before [
                | inl p ↦ absurd (head_free (subst (λ z. In z blocked) p.0 j))
                | inr r ↦ (b, j, r)
              ])
            a i q
    ]

pub IsBlocked-not_IsOrder :
    (nodes order blocked : List GpuPreparedWorkNodeId) (edges : List Edge)
    → IsBlocked nodes edges blocked
    → ¬ IsOrder nodes edges order
IsBlocked-not_IsOrder nodes order blocked edges h o =
    no_blocked order blocked o.once
      (λ a i m. let (b, j, edge) = h.waits_inside a i in (b, j, o.before b a edge)) h.first
      h.first_In ((o.node_iff h.first).1 (h.blocked_nodes h.first h.first_In))

-- The error `cycle` comes only for edges that no order of the nodes respects.
pub topological_node_order-cycle :
    (nodes : List GpuPreparedWorkNodeId) (edges : List Edge) (order : List GpuPreparedWorkNodeId)
    → Distinct nodes
    → Distinct edges
    → topological_node_order nodes edges ≡ some (err cycle)
    → ¬ IsOrder nodes edges order
topological_node_order-cycle nodes edges order d e h =
    elim (topological_node_order_outcome nodes edges d e) [
      | inl (found, run, is_order) ↦ absurd (cc (run, h))
      | inr (inl (run, blocked, stuck)) ↦ IsBlocked-not_IsOrder nodes order blocked edges stuck
      | inr (inr (run, b, a, m, k)) ↦ absurd (cc (run, h))
    ]
