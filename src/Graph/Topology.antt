-- ===== src/Graph/Topology.antt =====
-- The order in which nodes run: `topological_node_order` of src/api/graph/hazards.rs. The nodes
-- are the keys of `node_locations`, in order, and the edges the keys of `DependencyEdges`.
pub mod Waits
pub mod Release
pub mod Count
pub mod Before
pub mod Loop
pub mod Start
pub mod Order
use runen_gpu.Base.{
  ℕ, zero, suc, ◌-◌, Bool, true, false, not, ◌||◌, List, [], ◌∷◌, ◌++◌, Option, none, some, Result,
  ok, err, if◌then◌else◌, ◌==◌, is_some, length, map,
}
use mathlib.Core.Option.{get_or}
use runen_gpu.Base.SortedSet.{contains, insert}
use runen_gpu.Base.SortedMap.{get, modify, upsert, keys}
use runen_gpu.Graph.Identity.{GpuPreparedWorkNodeId, prepared_id_key, Edge}
use runen_gpu.Graph.Fragment.{GpuWorkGraphCause, unknown_identity, cycle}

abbrev pub Outgoing : Type 0
Outgoing = List (GpuPreparedWorkNodeId × List GpuPreparedWorkNodeId)

abbrev pub Indegree : Type 0
Indegree = List (GpuPreparedWorkNodeId × ℕ)

abbrev pub dependents : GpuPreparedWorkNodeId → Outgoing → List GpuPreparedWorkNodeId
dependents node outgoing = get_or (get node outgoing) []

-- Every node starts with no predecessors.
abbrev pub no_predecessors : List GpuPreparedWorkNodeId → Indegree
no_predecessors [] = []
no_predecessors (node ∷ rest) = (node, 0) ∷ no_predecessors rest

-- The loop over the edges; an edge is counted once, when its end is new in the set of its start.
unfoldable pub count_edges :
    List Edge → Outgoing → Indegree → Result GpuWorkGraphCause (Outgoing × Indegree)
count_edges [] outgoing indegree = ok (outgoing, indegree)
count_edges ((before, after) ∷ rest) outgoing indegree =
    let counted =
      if contains after (dependents before outgoing) then indegree else modify after suc indegree in
    let next = count_edges rest (upsert before [] (insert after) outgoing) counted in
    if not (is_some (get before indegree)) || not (is_some (get after indegree))
    then err unknown_identity
    else next

-- The nodes of degree zero.
unfoldable pub ready_nodes : Indegree → List GpuPreparedWorkNodeId
ready_nodes [] = []
ready_nodes ((node, degree) ∷ rest) =
    if degree == 0 then insert node (ready_nodes rest) else ready_nodes rest

-- `*degree -= 1` for each dependent; `none` is the fault of an underflow.
unfoldable pub release :
    List GpuPreparedWorkNodeId
    → Indegree
    → List GpuPreparedWorkNodeId
    → Option (Indegree × List GpuPreparedWorkNodeId)
release [] indegree ready = some (indegree, ready)
release (dependent ∷ rest) indegree ready = elim (get dependent indegree) [
  | none ↦ release rest indegree ready
  | some zero ↦ none
  | some (suc degree) ↦
      release rest (modify dependent (λ d. d - 1) indegree)
        (if degree == 0 then insert dependent ready else ready)
]

pub record Drained : Type 0 where
  pub ordered : List GpuPreparedWorkNodeId
  pub indegree : Indegree
  pub ready : List GpuPreparedWorkNodeId

-- `while let Some(node) = ready.pop_first()`, with fuel; `none` is fuel that runs out while a node is
-- ready, or an underflow.
unfoldable pub drain :
    ℕ
    → Outgoing
    → Indegree
    → List GpuPreparedWorkNodeId
    → List GpuPreparedWorkNodeId
    → Option Drained
unfolding release
drain fuel outgoing indegree [] ordered =
    some (record { ordered = ordered; indegree = indegree; ready = [] })
drain zero outgoing indegree (node ∷ ready) ordered = none
drain (suc fuel) outgoing indegree (node ∷ ready) ordered =
    elim (release (dependents node outgoing) indegree ready) [
      | none ↦ none
      | some (next, woken) ↦ drain fuel outgoing next woken (ordered ++ node ∷ [])
    ]

-- One round of the loop orders one node, so the number of nodes is fuel enough.
unfoldable pub topological_node_order :
    List GpuPreparedWorkNodeId
    → List Edge
    → Option (Result GpuWorkGraphCause (List GpuPreparedWorkNodeId))
unfolding count_edges ready_nodes drain
topological_node_order nodes edges = elim (count_edges edges [] (no_predecessors nodes)) [
  | err cause ↦ some (err cause)
  | ok (outgoing, indegree) ↦
      elim (drain (length nodes) outgoing indegree (ready_nodes indegree) []) [
        | none ↦ none
        | some drained ↦
            some (if length drained.ordered == length nodes then ok drained.ordered else err cycle)
      ]
]
