-- ===== src/Graph/Topology/Loop.antt =====
-- The ordering loop of `topological_node_order`: its invariant, and fuel for every node.
use runen_gpu.Base.{
  ℕ, zero, suc, ◌+◌, ◌∙◌, ◌≡◌, ◌≢◌, ◌≤◌, refl, sym, ap, subst, ◌⊎◌, inl, inr, ◌↔◌, true, false,
  List, [], ◌∷◌, ◌++◌, some, arith, length, In, Distinct,
}
use runen_gpu.Base.Pigeonhole.{length-lt_of_missing}
use runen_gpu.Base.SortedSet.{contains, contains_cases, In-contains}
use runen_gpu.Base.SortedMap.{get}
use runen_gpu.Graph.Identity.{GpuPreparedWorkNodeId, prepared_id_key, Edge, edge_key}
use runen_gpu.Graph.Topology.{Indegree, Outgoing, dependents, Drained, drain}
use runen_gpu.Graph.Topology.Waits.{waits, waits-snoc, waits-zero, In-false}
use runen_gpu.Graph.Topology.Before.{
  Before, Before-In, Before-snoc_old, Before-snoc_new, In-snoc, Distinct-snoc, length-snoc,
}
use runen_gpu.Graph.Topology.Release.{Positive, Released, release-Released}

module _ (nodes : List GpuPreparedWorkNodeId) (edges : List Edge) (targets : Outgoing) where
  -- The maps of the first loop stand for the edges, which are distinct and lead between nodes.
  pub record Described : Type 0 where
    pub edges_distinct : Distinct edges
    pub targets_iff :
        (b a : GpuPreparedWorkNodeId) → In a (dependents b targets) ↔ In {A = Edge} (b, a) edges
    pub targets_distinct : (b : GpuPreparedWorkNodeId) → Distinct (dependents b targets)
    pub known : (b a : GpuPreparedWorkNodeId) → In {A = Edge} (b, a) edges → In b nodes × In a nodes

  pub record Ordering (ordered : List GpuPreparedWorkNodeId) (degrees : Indegree)
      (ready : List GpuPreparedWorkNodeId) : Type 0 where
    pub degree :
        (a : GpuPreparedWorkNodeId) → In a nodes → get a degrees ≡ some (waits a ordered edges)
    pub ready_iff :
        (a : GpuPreparedWorkNodeId)
        → In a ready ↔ (In a nodes × (¬ In a ordered) × (waits a ordered edges ≡ 0))
    pub ready_distinct : Distinct ready
    pub ordered_distinct : Distinct ordered
    pub ordered_nodes : (a : GpuPreparedWorkNodeId) → In a ordered → In a nodes
    pub before :
        (b a : GpuPreparedWorkNodeId)
        → In {A = Edge} (b, a) edges
        → In a ordered
        → Before b a ordered

  module _ (n : GpuPreparedWorkNodeId) (ready ordered : List GpuPreparedWorkNodeId)
      (degrees : Indegree) (described : Described)
      (now : Ordering ordered degrees (n ∷ ready)) where
    abbrev later : List GpuPreparedWorkNodeId
    later = ordered ++ n ∷ []

    next_node : In n nodes × (¬ In n ordered) × (waits n ordered edges ≡ 0)
    next_node = (now.ready_iff n).0 (inl refl)

    -- What a dependent of the node waits for, and what any other node waits for.
    waits-later :
        (a : GpuPreparedWorkNodeId)
        → ((contains a (dependents n targets) ≡ true)
            × In a (dependents n targets)
            × In {A = Edge} (n, a) edges
            × (waits a ordered edges ≡ suc (waits a later edges)))
          ⊎ ((contains a (dependents n targets) ≡ false)
              × (¬ In a (dependents n targets))
              × (waits a ordered edges ≡ waits a later edges))
    waits-later a =
        let taken = waits-snoc a n ordered edges next_node.1 described.edges_distinct in
        elim (contains_cases a (dependents n targets)) [
          | inl (c, i) ↦
              let edge = (described.targets_iff n a).0 i in
              inl (c, i, edge, ground (arith, In-contains {A = Edge} (n, a) edges edge))
          | inr (c, k) ↦ inr (
            c,
            k,
            ground (
              arith,
              In-false {A = Edge} (n, a) edges (λ m. k ((described.targets_iff n a).1 m)),
            ),
          )
        ]

    positive : Positive (dependents n targets) degrees
    positive a i = elim (waits-later a) [
      | inl (c, j, edge, w) ↦
          (waits a later edges, now.degree a (described.known n a edge).1 ∙ ap some w)
      | inr (c, k, w) ↦ absurd (k i)
    ]

    -- A dependent of the node is neither the node nor ordered already.
    dependent_waits : (a : GpuPreparedWorkNodeId) → In {A = Edge} (n, a) edges → ¬ In a later
    dependent_waits a edge m = elim ((In-snoc a n ordered).0 m) [
      | inl l ↦ next_node.1 (Before-In n a ordered (now.before n a edge l))
      | inr e ↦ next_node.1 (
          waits-zero n n ordered edges next_node.2 (subst (λ x. In {A = Edge} (n, x) edges) e edge))
    ]

    not_ready_again : (a : GpuPreparedWorkNodeId) → In a ready → a ≢ n
    not_ready_again a i e = now.ready_distinct.0 (subst (λ x. In x ready) e i)

    module _ (next : Indegree) (woken : List GpuPreparedWorkNodeId)
        (after : Released (dependents n targets) degrees ready next woken) where
      next_degree :
          (a : GpuPreparedWorkNodeId) → In a nodes → get a next ≡ some (waits a later edges)
      next_degree a i = elim (waits-later a) [
        | inl (c, j, edge, w) ↦ ground (arith, after.lowered a, now.degree a i)
        | inr (c, k, w) ↦ ground (arith, after.lowered a, now.degree a i)
      ]

      next_ready :
          (a : GpuPreparedWorkNodeId)
          → In a woken ↔ (In a nodes × (¬ In a later) × (waits a later edges ≡ 0))
      next_ready a = elim (waits-later a) [
        | inl (c, j, edge, w) ↦
            let node = (described.known n a edge).1 in
            ground
              (arith, after.woken_iff a, now.ready_iff a, now.degree a node, dependent_waits a edge)
        | inr (c, k, w) ↦
            ground
              (arith, after.woken_iff a, now.ready_iff a, In-snoc a n ordered, not_ready_again a)
      ]

      next-Before :
          (b a : GpuPreparedWorkNodeId) → In {A = Edge} (b, a) edges → In a later → Before b a later
      next-Before b a edge m = elim ((In-snoc a n ordered).0 m) [
        | inl l ↦ Before-snoc_old b a n ordered (now.before b a edge l)
        | inr e ↦
            let start =
              waits-zero n b ordered edges next_node.2
                (subst (λ x. In {A = Edge} (b, x) edges) e edge) in
            subst (λ x. Before b x later) (sym e) (Before-snoc_new b n ordered start)
      ]

      next_Ordering : Ordering later next woken
      next_Ordering = record {
        degree = next_degree;
        ready_iff = next_ready;
        ready_distinct = after.distinct now.ready_distinct.1;
        ordered_distinct = Distinct-snoc n ordered now.ordered_distinct next_node.1;
        ordered_nodes = λ a m. elim ((In-snoc a n ordered).0 m) [
          | inl l ↦ now.ordered_nodes a l
          | inr e ↦ subst (λ x. In x nodes) (sym e) next_node.0
        ];
        before = next-Before;
      }

  -- With fuel for the nodes that are not ordered, the loop ends with no node ready.
  pub drain-Ordering :
      (fuel : ℕ) (ready ordered : List GpuPreparedWorkNodeId) (degrees : Indegree)
      → Described
      → Ordering ordered degrees ready
      → length nodes ≤ fuel + length ordered
      → (last : Drained) × (drain fuel targets degrees ready ordered ≡ some last)
        × Ordering last.ordered last.indegree []
  unfolding drain
  drain-Ordering fuel [] ordered degrees described now enough =
      (record { ordered = ordered; indegree = degrees; ready = [] }, refl, now)
  drain-Ordering zero (n ∷ ready) ordered degrees described now enough =
      let (i, k, w) = next_node n ready ordered degrees described now in
      absurd (
        omega
          (arith, length-lt_of_missing ordered nodes n now.ordered_distinct now.ordered_nodes i k))
  drain-Ordering (suc fuel) (n ∷ ready) ordered degrees described now enough =
      let (next, woken, run, after) =
        release-Released (dependents n targets) degrees ready (described.targets_distinct n)
          (positive n ready ordered degrees described now) in
      let (last, rest, done) =
        drain-Ordering fuel woken (ordered ++ n ∷ []) next described
          (next_Ordering n ready ordered degrees described now next woken after)
          (omega (arith, length-snoc n ordered)) in
      (last, rw (run, drain) rest, done)
