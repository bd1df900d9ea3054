-- ===== src/Graph/Hazards.antt =====
-- The edges that resource hazards put into the graph: `infer_fragment_hazards`,
-- `infer_cross_fragment_hazards` and `access_pair_hazard_reasons` of src/api/graph/hazards.rs.
pub mod Pair
pub mod Inside
pub mod Fragments
use runen_gpu.Base.{
  ℕ, zero, suc, ◌+◌, Bool, true, false, not, ◌&&◌, ◌||◌, List, [], ◌∷◌, ◌++◌, map, Option, none,
  some, Result, ok, err, ◌>>=◌, if◌then◌else◌, ◌==◌, arith,
}
use mathlib.Core.Option.{get_or}
use runen_gpu.Base.SortedSet.{insert}
use runen_gpu.Base.SortedMap.{get, upsert}
use runen_gpu.Resource.{GpuWorkResourceId, resource_id_key}
use runen_gpu.Access.Construct.{GpuResourceAccess, resource_identity, reads, writes}
use runen_gpu.Graph.Region.{GpuDependencyRegion, access_intersection}
use runen_gpu.Graph.Identity.{GpuPreparedWorkNodeId, Edge, edge_key}
use runen_gpu.Graph.Reason.{
  GpuDependencyReason, read_after_write, write_after_read, write_after_write, reason_key,
  DependencyEdges, extend,
}
use runen_gpu.Graph.Fragment.{GpuWorkNode, GpuWorkFragment, GpuWorkGraphCause, prepared_node_id}

abbrev pub insert_if :
    Bool → GpuDependencyReason → List GpuDependencyReason → List GpuDependencyReason
insert_if test reason set = if test then insert reason set else set

unfoldable pub access_pair_hazard_reasons :
    GpuResourceAccess
    → GpuResourceAccess
    → GpuWorkResourceId
    → GpuDependencyRegion
    → List GpuDependencyReason
access_pair_hazard_reasons earlier later resource region =
    insert_if (writes earlier && writes later) (write_after_write resource region) (
      insert_if (reads earlier && writes later) (write_after_read resource region)
        (insert_if (writes earlier && reads later) (read_after_write resource region) []))

abbrev pub is_sampler : GpuResourceAccess → Bool
is_sampler (GpuResourceAccess.sampler handle) = true
is_sampler _ = false

-- One access of one node of a fragment: an element of the two inner loops, flattened.
pub record Participant : Type 0 where
  pub index : ℕ
  pub node : GpuWorkNode
  pub access : GpuResourceAccess

abbrev pub of_node : ℕ → GpuWorkNode → List GpuResourceAccess → List Participant
of_node index node [] = []
of_node index node (access ∷ rest) =
    record { index = index; node = node; access = access } ∷ of_node index node rest

abbrev pub participants : ℕ → List GpuWorkNode → List Participant
participants index [] = []
participants index (node ∷ rest) = of_node index node node.accesses ++ participants (index + 1) rest

abbrev pub is_empty {ℓ} : {A : Type ℓ} → List A → Bool
is_empty [] = true
is_empty (x ∷ xs) = false

-- The body of the innermost loop, `continue` being the return of the edges as they are.
unfoldable pub add_hazard :
    ℕ → Participant → Participant → DependencyEdges → Result GpuWorkGraphCause DependencyEdges
add_hazard fragment_index later earlier edges =
    if earlier.index == later.index || (not (writes earlier.access) && not (writes later.access))
    then ok edges
    else elim (access_intersection earlier.access later.access) [
      | none ↦ ok edges
      | some (resource, region) ↦
          let reasons = access_pair_hazard_reasons earlier.access later.access resource region in
          if is_empty reasons then ok edges else do
            before ← prepared_node_id fragment_index earlier.node
            after ← prepared_node_id fragment_index later.node
            ok (upsert (before, after) [] (λ set. extend set reasons) edges)
    ]

unfoldable pub visit_earlier :
    ℕ → Participant → List Participant → DependencyEdges → Result GpuWorkGraphCause DependencyEdges
visit_earlier fragment_index later [] edges = ok edges
visit_earlier fragment_index later (earlier ∷ rest) edges = do
  added ← add_hazard fragment_index later earlier edges
  visit_earlier fragment_index later rest added

abbrev pub AccessesByResource : Type 0
AccessesByResource = List (GpuWorkResourceId × List Participant)

abbrev pub earlier_accesses : Participant → AccessesByResource → List Participant
earlier_accesses later recorded = get_or (get (resource_identity later.access) recorded) []

abbrev pub record_access : Participant → AccessesByResource → AccessesByResource
record_access later recorded =
    upsert (resource_identity later.access) [] (λ list. list ++ later ∷ []) recorded

unfoldable pub visit_accesses :
    ℕ
    → List Participant
    → AccessesByResource
    → DependencyEdges
    → Result GpuWorkGraphCause DependencyEdges
unfolding visit_earlier
visit_accesses fragment_index [] recorded edges = ok edges
visit_accesses fragment_index (later ∷ rest) recorded edges = elim (is_sampler later.access) [
  | true ↦ visit_accesses fragment_index rest recorded edges
  | false ↦ do
    added ← visit_earlier fragment_index later (earlier_accesses later recorded) edges
    visit_accesses fragment_index rest (record_access later recorded) added
]

unfoldable pub infer_fragments_from :
    ℕ → List GpuWorkFragment → DependencyEdges → Result GpuWorkGraphCause DependencyEdges
unfolding visit_accesses
infer_fragments_from fragment_index [] edges = ok edges
infer_fragments_from fragment_index (fragment ∷ rest) edges = do
  added ← visit_accesses fragment_index (participants 0 fragment.nodes) [] edges
  infer_fragments_from (fragment_index + 1) rest added

unfoldable pub infer_fragment_hazards :
    List GpuWorkFragment → DependencyEdges → Result GpuWorkGraphCause DependencyEdges
unfolding infer_fragments_from
infer_fragment_hazards fragments edges = infer_fragments_from 0 fragments edges
