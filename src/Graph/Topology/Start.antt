-- ===== src/Graph/Topology/Start.antt =====
-- The maps and the ready nodes with which the loop of `topological_node_order` starts.
use runen_gpu.Base.{
  ℕ, ◌∙◌, ◌≡◌, ◌≢◌, refl, sym, ap, subst, inl, inr, ◌↔◌, List, [], ◌∷◌, some, arith, ◌==◌, In,
  Distinct, Bool-cases,
}
use runen_gpu.Base.Key.{key_eq_cases}
use runen_gpu.Base.SortedSet.{In-insert, Distinct-insert}
use runen_gpu.Base.SortedMap.{get, keys, In-keys-get}
use runen_gpu.Graph.Identity.{GpuPreparedWorkNodeId, prepared_id_key, Edge, edge_key}
use runen_gpu.Graph.Topology.{Indegree, Outgoing, ready_nodes, no_predecessors}
use runen_gpu.Graph.Topology.Waits.{waits}
use runen_gpu.Graph.Topology.Count.{Counted}
use runen_gpu.Graph.Topology.Loop.{Described, Ordering}

pub keys-no_predecessors :
    (nodes : List GpuPreparedWorkNodeId) → keys (no_predecessors nodes) ≡ nodes
keys-no_predecessors [] = refl
keys-no_predecessors (n ∷ nodes) = ap (λ ns. n ∷ ns) (keys-no_predecessors nodes)

get-no_predecessors :
    (a : GpuPreparedWorkNodeId) (nodes : List GpuPreparedWorkNodeId)
    → In a nodes
    → get a (no_predecessors nodes) ≡ some 0
unfolding get
get-no_predecessors a [] m = absurd m
get-no_predecessors a (n ∷ nodes) m = ground (arith, key_eq_cases a n, get-no_predecessors a nodes)

get_outside :
    (a : GpuPreparedWorkNodeId) (degrees : Indegree) (m : ℕ)
    → (¬ In a (keys degrees))
    → get a degrees ≢ some m
get_outside a degrees m n e = n (In-keys-get a degrees e)

In-ready_nodes :
    (a : GpuPreparedWorkNodeId) (degrees : Indegree)
    → Distinct (keys degrees)
    → In a (ready_nodes degrees) ↔ (get a degrees ≡ some 0)
unfolding get ready_nodes
In-ready_nodes a [] d = ground arith
In-ready_nodes a ((n, m) ∷ degrees) d = elim (key_eq_cases a n) [
  | inl (e, p) ↦
      let outside : get a degrees ≢ some 0 =
        get_outside a degrees 0 (subst (λ b. ¬ In b (keys degrees)) (sym p) d.0) in
      ground (arith, In-insert a n (ready_nodes degrees), In-ready_nodes a degrees d.1)
  | inr (e, k) ↦ ground (arith, In-insert a n (ready_nodes degrees), In-ready_nodes a degrees d.1)
]

Distinct-ready_nodes : (degrees : Indegree) → Distinct (ready_nodes degrees)
unfolding ready_nodes
Distinct-ready_nodes [] = tt
Distinct-ready_nodes ((n, m) ∷ degrees) = elim (Bool-cases (m == 0)) [
  | inl e ↦ rw e (Distinct-insert n (ready_nodes degrees) (Distinct-ready_nodes degrees))
  | inr e ↦ rw e (Distinct-ready_nodes degrees)
]

listed :
    (a : GpuPreparedWorkNodeId) (degrees : Indegree) (nodes : List GpuPreparedWorkNodeId)
    → keys degrees ≡ nodes
    → get a degrees ≡ some 0
    → In a nodes
listed a degrees nodes ks g = subst (In a) ks (In-keys-get a degrees g)

module _ (nodes : List GpuPreparedWorkNodeId) (edges : List Edge) (d : Distinct nodes)
    (e : Distinct edges) where
  pub described :
      (targets : Outgoing) (degrees : Indegree)
      → Counted edges [] (no_predecessors nodes) targets degrees
      → Described nodes edges targets
  unfolding get
  described targets degrees counted = record {
    edges_distinct = e;
    targets_iff = λ b a. ground (arith, counted.targets_iff b a);
    targets_distinct = λ b. counted.distinct b tt;
    known =
        λ b a m. subst (λ ks. In b ks × In a ks) (keys-no_predecessors nodes) (counted.known b a m);
  }

  pub start :
      (targets : Outgoing) (degrees : Indegree)
      → Counted edges [] (no_predecessors nodes) targets degrees
      → Ordering nodes edges targets [] degrees (ready_nodes degrees)
  start targets degrees counted =
      let ks : keys degrees ≡ nodes = counted.same_keys ∙ keys-no_predecessors nodes in
      let degree : (a : GpuPreparedWorkNodeId)
          → In a nodes
          → get a degrees ≡ some (waits a [] edges) =
        λ a m. rw (counted.raised a, get-no_predecessors a nodes m) (ap some (omega arith)) in
      record {
        degree = degree;
        ready_iff = λ a. ground (
          arith,
          In-ready_nodes a degrees (subst Distinct (sym ks) d),
          degree a,
          listed a degrees nodes ks,
        );
        ready_distinct = Distinct-ready_nodes degrees;
        ordered_distinct = tt;
        ordered_nodes = λ a m. absurd m;
        before = λ b a m k. absurd k;
      }
