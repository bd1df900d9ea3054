-- ===== src/Graph/Hazards/Pair.antt =====
-- One pair of accesses: when `add_hazard` puts an edge between their nodes.
use runen_gpu.Base.{
  ℕ, ◌≡◌, ◌≢◌, refl, inl, inr, Bool, true, false, not, ◌&&◌, ◌||◌, List, [], ◌∷◌, some, ok, arith,
  is_some, Option-cases,
}
use runen_gpu.Base.Key.{key_eq, key_eq_refl}
use runen_gpu.Base.SortedSet.{insert}
use runen_gpu.Base.SortedMap.{get, upsert, get-upsert}
use runen_gpu.Access.Construct.{GpuResourceAccess, reads, writes}
use runen_gpu.Graph.Region.{GpuDependencyRegion, access_intersection}
use runen_gpu.Resource.{GpuWorkResourceId}
use runen_gpu.Graph.Identity.{GpuPreparedWorkNodeId, Edge, edge_key}
use runen_gpu.Graph.Reason.{
  GpuDependencyReason, DependencyEdges, extend, reason_key, read_after_write, write_after_read,
  write_after_write,
}
use runen_gpu.Graph.Fragment.{GpuWorkNode, prepared_node_id}
use runen_gpu.Graph.Hazards.{
  access_pair_hazard_reasons, Participant, add_hazard, is_empty, insert_if,
}

abbrev pub has_edge : Edge → DependencyEdges → Bool
has_edge e edges = is_some (get e edges)

pub has_edge-upsert :
    (e a : Edge) (d : List GpuDependencyReason)
    (f : List GpuDependencyReason → List GpuDependencyReason) (edges : DependencyEdges)
    → has_edge e (upsert a d f edges) ≡ (key_eq e a || has_edge e edges)
has_edge-upsert e a d f edges = ground (arith, get-upsert e a d f edges)

-- The edge between the nodes of two participants.
abbrev pub node_id : ℕ → GpuWorkNode → GpuPreparedWorkNodeId
node_id i node = record { fragment_ordinal = i; local_node = node.id.local }

abbrev pub edge_of : ℕ → Participant → Participant → Edge
edge_of i earlier later = (node_id i earlier.node, node_id i later.node)

-- One of the two writes, and the other reads or writes: read after write, write after read, or
-- write after write.
abbrev pub is_hazard : GpuResourceAccess → GpuResourceAccess → Bool
is_hazard earlier later =
    (writes earlier && reads later)
    || (reads earlier && writes later)
    || (writes earlier && writes later)

pub record Conflicts (earlier later : Participant) : Type 0 where
  pub apart : earlier.index ≢ later.index
  pub hazard : is_hazard earlier.access later.access ≡ true
  pub meet : is_some (access_intersection earlier.access later.access) ≡ true

insert_nonempty :
    (r : GpuDependencyReason) (set : List GpuDependencyReason) → is_empty (insert r set) ≡ false
unfolding insert
insert_nonempty r [] = refl
insert_nonempty r (x ∷ xs) = ground arith

is_empty-insert_if :
    (test : Bool) (r : GpuDependencyReason) (set : List GpuDependencyReason)
    → is_empty (insert_if test r set) ≡ (not test && is_empty set)
is_empty-insert_if true r set = insert_nonempty r set
is_empty-insert_if false r set = refl

-- The reasons are empty exactly when the pair is no hazard.
pub reasons_of_hazard :
    (earlier later : GpuResourceAccess) (resource : GpuWorkResourceId)
    (region : GpuDependencyRegion)
    → is_empty (access_pair_hazard_reasons earlier later resource region)
      ≡ not (is_hazard earlier later)
unfolding access_pair_hazard_reasons
reasons_of_hazard earlier later resource region = ground (
  arith,
  is_empty-insert_if (writes earlier && writes later) (write_after_write resource region) (
      insert_if (reads earlier && writes later) (write_after_read resource region)
        (insert_if (writes earlier && reads later) (read_after_write resource region) [])),
  is_empty-insert_if (reads earlier && writes later) (write_after_read resource region)
      (insert_if (writes earlier && reads later) (read_after_write resource region) []),
  is_empty-insert_if (writes earlier && reads later) (read_after_write resource region) [],
)

added_edge :
    (i : ℕ) (earlier later : Participant) (edges added : DependencyEdges)
    (resource : GpuWorkResourceId) (region : GpuDependencyRegion)
    → access_intersection earlier.access later.access ≡ some (resource, region)
    → add_hazard i later earlier edges ≡ ok added
    → Conflicts earlier later
    → has_edge (edge_of i earlier later) added ≡ true
unfolding add_hazard prepared_node_id
added_edge i earlier later edges added resource region e h c = ground (
  arith,
  reasons_of_hazard earlier.access later.access resource region,
  key_eq_refl (edge_of i earlier later),
  has_edge-upsert (edge_of i earlier later) (edge_of i earlier later) []
      (λ set. extend set (access_pair_hazard_reasons earlier.access later.access resource region))
      edges,
)

-- A conflicting pair adds its edge.
pub add_hazard-has_edge :
    (i : ℕ) (earlier later : Participant) (edges added : DependencyEdges)
    → add_hazard i later earlier edges ≡ ok added
    → Conflicts earlier later
    → has_edge (edge_of i earlier later) added ≡ true
add_hazard-has_edge i earlier later edges added h c =
    elim (Option-cases (access_intersection earlier.access later.access)) [
      | inl e ↦ absurd (ground arith)
      | inr ((resource, region), e) ↦ added_edge i earlier later edges added resource region e h c
    ]

-- No pair loses an edge.
pub add_hazard_keeps :
    (i : ℕ) (earlier later : Participant) (edges added : DependencyEdges) (e : Edge)
    → add_hazard i later earlier edges ≡ ok added
    → has_edge e edges ≡ true
    → has_edge e added ≡ true
unfolding add_hazard prepared_node_id
add_hazard_keeps i earlier later edges added e h k =
    elim (Option-cases (access_intersection earlier.access later.access)) [
      | inl none_shared ↦ ground arith
      | inr ((resource, region), shared) ↦ ground (
        arith,
        has_edge-upsert e (edge_of i earlier later) []
            (λ set.
              extend set (access_pair_hazard_reasons earlier.access later.access resource region))
            edges,
      )
    ]
