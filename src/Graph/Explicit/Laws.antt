-- ===== src/Graph/Explicit/Laws.antt =====
-- When explicit orders are refused, and that the accepted ones are edges.
use runen_gpu.Base.{
  ℕ, zero, suc, ◌+◌, ◌≡◌, refl, sym, subst, ◌⊎◌, inl, inr, true, false, List, [], ◌∷◌, some, ok,
  err, arith, Option-cases, Result-cases, In, get_elem?,
}
use mathlib.Core.Option.{get_or}
use runen_gpu.Base.Key.{key_eq_refl}
use runen_gpu.Base.SortedMap.{get, upsert, get-upsert}
use runen_gpu.Base.SortedSet.{insert, In-insert}
use runen_gpu.Graph.Identity.{GpuPreparedWorkNodeId, Edge, edge_key}
use runen_gpu.Graph.Reason.{explicit_non_data, reason_key, DependencyEdges}
use runen_gpu.Graph.Fragment.{
  GpuWorkNode, GpuWorkFragment, GpuExplicitOrder, prepared_node_id, redundant_explicit_data_order,
  explicit_order_conflict,
}
use runen_gpu.Graph.Hazards.Pair.{has_edge, node_id}
use runen_gpu.Graph.DataPath.{DataPath}
use runen_gpu.Graph.DataPath.Laws.{dependency_data_path_exists_outcome}
use runen_gpu.Graph.Explicit.{
  path_exists, find_node, add_order, add_fragment_order, add_fragment_orders, add_orders_from,
  add_explicit_orders,
}
use runen_gpu.Graph.Explicit.Endpoints.{find_node_sound}
use runen_gpu.Graph.Growth.{Grows}
use runen_gpu.Graph.Growth.Stages.{
  add_order-Grows, add_fragment_orders-Grows, add_orders_from-Grows,
}

path_exists_cases :
    (edges : DependencyEdges) (a b : GpuPreparedWorkNodeId)
    → ((path_exists edges a b ≡ true) × DataPath edges a b true)
      ⊎ ((path_exists edges a b ≡ false) × (¬ DataPath edges a b true))
path_exists_cases edges a b = elim (dependency_data_path_exists_outcome edges a b) [
  | inl (e, path) ↦ inl (rw e refl, path)
  | inr (e, no_path) ↦ inr (rw e refl, no_path)
]

explained :
    (before after : GpuPreparedWorkNodeId) (reason : List ℕ) (edges : DependencyEdges)
    → (has_edge
          (before, after)
          (upsert {A = Edge} (before, after) [] (insert (explicit_non_data reason)) edges)
        ≡ true)
      × In (explicit_non_data reason) (
          get_or
            (get {A = Edge}
              (before, after)
              (upsert {A = Edge} (before, after) [] (insert (explicit_non_data reason)) edges))
            [])
explained before after reason edges =
    rw
      (
        get-upsert {A = Edge} (before, after) (before, after) [] (insert (explicit_non_data reason))
            edges,
        key_eq_refl {A = Edge} (before, after),
      )
      (
        refl,
        (In-insert (explicit_non_data reason) (explicit_non_data reason)
              (get_or (get {A = Edge} (before, after) edges) [])).1
            (inl refl),
      )

-- What adding an order may return.
abbrev pub AddOutcome :
    GpuPreparedWorkNodeId → GpuPreparedWorkNodeId → List ℕ → DependencyEdges → Type 0
AddOutcome before after reason edges =
    ((add_order before after reason edges ≡ err redundant_explicit_data_order)
      × DataPath edges before after true)
    ⊎ (((add_order before after reason edges ≡ err explicit_order_conflict)
          × (¬ DataPath edges before after true)
          × DataPath edges after before true)
        ⊎ ((added : DependencyEdges) × (add_order before after reason edges ≡ ok added)
            × (¬ DataPath edges before after true)
            × (¬ DataPath edges after before true)
            × (has_edge (before, after) added ≡ true)
            × In (explicit_non_data reason) (get_or (get {A = Edge} (before, after) added) [])
            × Grows edges added))

-- An explicit order is refused as redundant when a path with a data dependency leads from its
-- first node to its second; otherwise it is refused as a conflict when such a path leads back;
-- otherwise it becomes a reason of the edge between the two nodes, and no edge is lost.
pub add_order_outcome :
    (before after : GpuPreparedWorkNodeId) (reason : List ℕ) (edges : DependencyEdges)
    → AddOutcome before after reason edges
unfolding add_order
add_order_outcome before after reason edges = elim (path_exists_cases edges before after) [
  | inl (e, path) ↦ inl (rw (add_order, e) refl, path)
  | inr (e, no_path) ↦ elim (path_exists_cases edges after before) [
    | inl (f, back) ↦ inr (inl (rw (add_order, e) (rw f refl), no_path, back))
    | inr (f, no_back) ↦
        let added : DependencyEdges =
          upsert {A = Edge} (before, after) [] (insert (explicit_non_data reason)) edges in
        let run : add_order before after reason edges ≡ ok added = rw (add_order, e) (rw f refl) in
        let (there, explicit) = explained before after reason edges in
        inr (
          inr (
            added,
            run,
            no_path,
            no_back,
            there,
            explicit,
            add_order-Grows before after reason edges added run,
          ))
  ]
]

pub add_order-has_edge :
    (before after : GpuPreparedWorkNodeId) (reason : List ℕ) (edges added : DependencyEdges)
    → add_order before after reason edges ≡ ok added
    → has_edge (before, after) added ≡ true
add_order-has_edge before after reason edges added h =
    elim (add_order_outcome before after reason edges) [
      | inl (e, path) ↦ absurd (cc (e, h))
      | inr (inl (e, no_path, back)) ↦ absurd (cc (e, h))
      | inr (inr (made, e, no_path, no_back, there, explicit, grows)) ↦
          subst (λ m. has_edge (before, after) m ≡ true) (ground arith) there
    ]

-- The edge of an order of fragment number `k`.
pub record Ordered (k : ℕ) (fragment : GpuWorkFragment) (order : GpuExplicitOrder)
    (edges : DependencyEdges) : Type 0 where
  pub first : GpuWorkNode
  pub second : GpuWorkNode
  pub first_In : In first fragment.nodes
  pub second_In : In second fragment.nodes
  pub first_is : first.id ≡ order.before
  pub second_is : second.id ≡ order.after
  pub edge : has_edge (node_id k first, node_id k second) edges ≡ true

Ordered-Grows :
    (k : ℕ) (fragment : GpuWorkFragment) (order : GpuExplicitOrder) (edges added : DependencyEdges)
    → Grows edges added
    → Ordered k fragment order edges
    → Ordered k fragment order added
Ordered-Grows k fragment order edges added g o = record {
  first = o.first;
  second = o.second;
  first_In = o.first_In;
  second_In = o.second_In;
  first_is = o.first_is;
  second_is = o.second_is;
  edge = g.keeps (node_id k o.first, node_id k o.second) o.edge;
}

add_fragment_order-Ordered :
    (k : ℕ) (fragment : GpuWorkFragment) (order : GpuExplicitOrder) (edges added : DependencyEdges)
    → add_fragment_order k fragment order edges ≡ ok added
    → Ordered k fragment order added
unfolding add_fragment_order prepared_node_id
add_fragment_order-Ordered k fragment order edges added h =
    elim (Option-cases (find_node order.before fragment.nodes)) [
      | inl e ↦ absurd (ground arith)
      | inr (n, e) ↦ elim (Option-cases (find_node order.after fragment.nodes)) [
        | inl f ↦ absurd (ground arith)
        | inr (m, f) ↦
            let (ni, nb) = find_node_sound order.before fragment.nodes n e in
            let (mi, ma) = find_node_sound order.after fragment.nodes m f in
            record {
              first = n;
              second = m;
              first_In = ni;
              second_In = mi;
              first_is = nb;
              second_is = ma;
              edge =
                  add_order-has_edge (node_id k n) (node_id k m) order.reason edges added
                    (ground arith);
            }
      ]
    ]

add_fragment_orders-Ordered :
    (k : ℕ) (fragment : GpuWorkFragment) (rest : List GpuExplicitOrder) (order : GpuExplicitOrder)
    (edges added : DependencyEdges)
    → add_fragment_orders k fragment rest edges ≡ ok added
    → In order rest
    → Ordered k fragment order added
unfolding add_fragment_orders
add_fragment_orders-Ordered k fragment [] order edges added h i = absurd i
add_fragment_orders-Ordered k fragment (x ∷ xs) order edges added h i =
    elim (Result-cases (add_fragment_order k fragment x edges)) [
      | inr (c, q) ↦ absurd (ground arith)
      | inl (next, q) ↦ elim i [
        | inl e ↦
            Ordered-Grows k fragment order next added
              (add_fragment_orders-Grows k fragment xs next added (ground arith))
              (subst (λ o. Ordered k fragment o next) (sym e)
                (add_fragment_order-Ordered k fragment x edges next q))
        | inr j ↦ add_fragment_orders-Ordered k fragment xs order next added (ground arith) j
      ]
    ]

add_orders_from-Ordered :
    (base k l : ℕ) (fragments : List GpuWorkFragment) (fragment : GpuWorkFragment)
    (order : GpuExplicitOrder) (edges added : DependencyEdges)
    → add_orders_from base fragments edges ≡ ok added
    → l ≡ base + k
    → get_elem? fragments k ≡ some fragment
    → In order fragment.explicit_orders
    → Ordered l fragment order added
unfolding add_orders_from
add_orders_from-Ordered base k l [] fragment order edges added h e g i = absurd (cc g)
add_orders_from-Ordered base zero l (x ∷ xs) fragment order edges added h e g i =
    elim (Result-cases (add_fragment_orders base x x.explicit_orders edges)) [
      | inr (c, q) ↦ absurd (ground arith)
      | inl (next, q) ↦
          let here : base ≡ l = omega arith in
          let same : x ≡ fragment = ground arith in
          Ordered-Grows l fragment order next added
            (add_orders_from-Grows (base + 1) xs next added (ground arith))
            (subst (λ j. Ordered j fragment order next) here
              (add_fragment_orders-Ordered base fragment fragment.explicit_orders order edges next
                (subst (λ y. add_fragment_orders base y y.explicit_orders edges ≡ ok next) same q)
                i))
    ]
add_orders_from-Ordered base (suc k) l (x ∷ xs) fragment order edges added h e g i =
    elim (Result-cases (add_fragment_orders base x x.explicit_orders edges)) [
      | inr (c, q) ↦ absurd (ground arith)
      | inl (next, q) ↦
          add_orders_from-Ordered (base + 1) k l xs fragment order next added (ground arith)
            (omega arith) g i
    ]

-- When the explicit orders of the fragments are accepted, each of them is an edge of the graph,
-- between the nodes of its fragment that it names.
pub add_explicit_orders-Ordered :
    (fragments : List GpuWorkFragment) (k : ℕ) (fragment : GpuWorkFragment)
    (order : GpuExplicitOrder) (edges added : DependencyEdges)
    → add_explicit_orders fragments edges ≡ ok added
    → get_elem? fragments k ≡ some fragment
    → In order fragment.explicit_orders
    → Ordered k fragment order added
unfolding add_explicit_orders
add_explicit_orders-Ordered fragments k fragment order edges added h g i =
    add_orders_from-Ordered 0 k k fragments fragment order edges added h (omega arith) g i
