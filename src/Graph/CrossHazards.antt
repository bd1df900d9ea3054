-- ===== src/Graph/CrossHazards.antt =====
-- Hazards between fragments: `infer_cross_fragment_hazards` of src/api/graph/hazards.rs.
pub mod Pairs
pub mod Laws
pub mod Errors
use runen_gpu.Base.{
  ℕ, suc, ◌+◌, ◌≡◌, Bool, true, false, not, ◌&&◌, ◌||◌, List, [], ◌∷◌, ◌++◌, map, none, some,
  Result, ok, err, ◌>>=◌, if◌then◌else◌, differs, arith, flat_map, enumerate,
}
use runen_gpu.Base.Key.{Key}
use runen_gpu.Base.SortedSet.{contains}
use runen_gpu.Base.SortedMap.{upsert}
use runen_gpu.Resource.{GpuWorkResourceId}
use runen_gpu.Access.Construct.{GpuResourceAccess, writes}
use runen_gpu.Graph.Region.{GpuDependencyRegion, access_intersection}
use runen_gpu.Graph.Identity.{edge_key}
use runen_gpu.Graph.Reason.{DependencyEdges, extend}
use runen_gpu.Graph.Fragment.{
  GpuWorkNode, GpuWorkFragment, GpuWorkGraphCause, ambiguous_writer,
  missing_cross_fragment_causality, prepared_node_id,
}
use runen_gpu.Graph.Hazards.{access_pair_hazard_reasons}

-- The producer fragment, the consumer fragment and the storage resource of one binding.
abbrev pub Relation : Type 0
Relation = ℕ × ℕ × GpuWorkResourceId

abbrev pub relation_code : Relation → List ℕ
relation_code (producer, consumer, resource) =
    producer ∷ consumer ∷ resource.owner_scope ∷ resource.local ∷ []

pub relation_injective : (a b : Relation) → relation_code a ≡ relation_code b → a ≡ b
relation_injective a b h = ground arith

instance abbrev pub relation_key : Key Relation
relation_key = record { encode = relation_code; injective = relation_injective }

abbrev pub FragmentRelations : Type 0
FragmentRelations = List Relation

-- One access of one node of one fragment, and a pair of them from two fragments.
pub record CrossAccess : Type 0 where
  pub fragment_index : ℕ
  pub node : GpuWorkNode
  pub access : GpuResourceAccess

abbrev pub CrossPair : Type 0
CrossPair = CrossAccess × CrossAccess

abbrev pub at : ℕ → GpuWorkNode → GpuResourceAccess → CrossAccess
at i n a = record { fragment_index = i; node = n; access = a }

-- The four inner loops: left nodes, right nodes, left accesses, right accesses.
unfoldable pub inner_pairs : ℕ → GpuWorkFragment → ℕ → GpuWorkFragment → List CrossPair
inner_pairs i left j right =
    flat_map
      (λ n.
        flat_map (λ m. flat_map (λ a. map (λ b. (at i n a, at j m b)) m.accesses) n.accesses)
          right.nodes)
      left.nodes

-- All six loops.
unfoldable pub cross_pairs : ℕ → List GpuWorkFragment → List CrossPair
unfolding inner_pairs
cross_pairs i [] = []
cross_pairs i (left ∷ rest) =
    flat_map (λ right. inner_pairs i left right.0 right.1) (enumerate (suc i) rest)
    ++ cross_pairs (suc i) rest

-- The edge of a pair of accesses whose order is known.
unfoldable pub add_ordered :
    GpuWorkResourceId
    → GpuDependencyRegion
    → CrossAccess
    → CrossAccess
    → DependencyEdges
    → Result GpuWorkGraphCause DependencyEdges
add_ordered resource region earlier later edges = do
  before ← prepared_node_id earlier.fragment_index earlier.node
  after ← prepared_node_id later.fragment_index later.node
  ok (
      upsert (before, after) []
        (λ set. extend set (access_pair_hazard_reasons earlier.access later.access resource region))
        edges)

abbrev pub related : FragmentRelations → CrossAccess → CrossAccess → GpuWorkResourceId → Bool
related relations producer consumer resource =
    contains {A = Relation} (producer.fragment_index, consumer.fragment_index, resource) relations

abbrev pub unordered_cause : CrossAccess → CrossAccess → GpuWorkGraphCause
unordered_cause left right =
    if writes left.access && writes right.access
    then ambiguous_writer
    else missing_cross_fragment_causality

-- The body of the innermost loop.
unfoldable pub add_cross_hazard :
    FragmentRelations
    → CrossAccess
    → CrossAccess
    → DependencyEdges
    → Result GpuWorkGraphCause DependencyEdges
unfolding add_ordered
add_cross_hazard relations left right edges = elim (access_intersection left.access right.access) [
  | none ↦ ok edges
  | some (resource, region) ↦
      let left_to_right = related relations left right resource in
      let right_to_left = related relations right left resource in
      if not (writes left.access) && not (writes right.access)
      then ok edges
      else if not (differs left_to_right right_to_left)
      then err (unordered_cause left right)
      else if left_to_right
      then add_ordered resource region left right edges
      else add_ordered resource region right left edges
]

unfoldable pub visit_pairs :
    FragmentRelations → List CrossPair → DependencyEdges → Result GpuWorkGraphCause DependencyEdges
unfolding add_cross_hazard
visit_pairs relations [] edges = ok edges
visit_pairs relations ((left, right) ∷ rest) edges = do
  added ← add_cross_hazard relations left right edges
  visit_pairs relations rest added

unfoldable pub infer_cross_fragment_hazards :
    List GpuWorkFragment
    → FragmentRelations
    → DependencyEdges
    → Result GpuWorkGraphCause DependencyEdges
unfolding visit_pairs cross_pairs
infer_cross_fragment_hazards fragments relations edges =
    visit_pairs relations (cross_pairs 0 fragments) edges
