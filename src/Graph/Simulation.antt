-- ===== src/Graph/Simulation.antt =====
-- How the nodes of a fragment read and change the initialized parts of resources:
-- `apply_node_initialization` of src/api/graph/initialization.rs and the loop over the nodes that calls
-- it. The regions that a node requires, initializes and discards are an argument, where the source
-- derives them from the node's accesses and operation; explanations, the texts of errors and the
-- coverage that an error publishes are left out. A result `none` is a panic in the coverage of
-- buffers, or fuel that ran out there.
pub mod Step
pub mod Change
pub mod Laws
pub mod Nodes
use runen_gpu.Base.{
  ℕ, Bool, true, false, Option, none, some, List, [], ◌∷◌, Result, ok, err, ltb, u32_mod,
}
use runen_gpu.Base.Optional.{◌>>=◌}
use runen_gpu.Base.SortedMap.{get, put}
use runen_gpu.Resource.{GpuWorkResourceId, resource_id_key}
use runen_gpu.Graph.Fragment.{
  GpuWorkGraphCause, read_before_initialization, operation_access_contradiction, unknown_identity,
}
use runen_gpu.Graph.Initialization.{
  InitializedCoverage, union, contains, remove, intersect_coverage,
}

pub record InitializationRegion : Type 0 where
  pub resource : GpuWorkResourceId
  pub coverage : InitializedCoverage

-- `compatible` are the coverages of the node's accesses of the resource in the role of the effect.
pub record InitializationEffect : Type 0 where
  pub region : InitializationRegion
  pub compatible : List InitializedCoverage

pub record NodeInitialization : Type 0 where
  pub requirements : List InitializationRegion
  pub effects : List InitializationEffect
  pub discarded_regions : List InitializationRegion

abbrev pub State : Type 0
State = List (GpuWorkResourceId × InitializedCoverage)

abbrev pub Outcome : Type 0
Outcome = Option (Result GpuWorkGraphCause State)

-- Whether the state has the region.
unfoldable pub is_initialized : State → InitializationRegion → Option Bool
is_initialized state required = elim (get required.resource state) [
  | none ↦ some false
  | some coverage ↦ contains coverage required.coverage
]

unfoldable pub check_requirement : State → InitializationRegion → Outcome
unfolding is_initialized
check_requirement state required = do
  there ← is_initialized state required
  elim there [ true ↦ some (ok state) | false ↦ some (err read_before_initialization) ]

-- Whether one of the accesses contains the effect.
unfoldable pub is_contained : List InitializedCoverage → InitializedCoverage → Option Bool
is_contained [] effect = some false
is_contained (access ∷ rest) effect = do
  there ← contains access effect
  elim there [ true ↦ some true | false ↦ is_contained rest effect ]

-- The state with the coverage of a resource that is there, after a call that was accepted or not.
abbrev pub update : State → GpuWorkResourceId → Bool × InitializedCoverage → Outcome
update state resource (true, coverage) = some (ok (put resource coverage state))
update state resource (false, coverage) = some (err operation_access_contradiction)

unfoldable pub add_effect : State → InitializationRegion → Outcome
add_effect state effect = elim (get effect.resource state) [
  | none ↦ some (err unknown_identity)
  | some coverage ↦ union coverage effect.coverage >>= λ united. update state effect.resource united
]

unfoldable pub apply_effect : State → InitializationEffect → Outcome
unfolding is_contained add_effect
apply_effect state effect = do
  contained ← is_contained effect.compatible effect.region.coverage
  elim contained [
    | true ↦ add_effect state effect.region
    | false ↦ some (err operation_access_contradiction)
  ]

-- A discard in the coverage of its resource: the part that it removes is derived first.
unfoldable pub discard :
    State → GpuWorkResourceId → InitializedCoverage → InitializedCoverage → Outcome
discard state resource coverage affected = do
  removed ← intersect_coverage coverage affected
  elim removed.0 [
    | true ↦ update state resource (remove coverage affected)
    | false ↦ some (err operation_access_contradiction)
  ]

unfoldable pub apply_discard : State → InitializationRegion → Outcome
unfolding discard
apply_discard state discarded = elim (get discarded.resource state) [
  | none ↦ some (err unknown_identity)
  | some coverage ↦ discard state discarded.resource coverage discarded.coverage
]

-- What follows a step that succeeded.
abbrev pub and_then : Outcome → (State → Outcome) → Outcome
and_then none next = none
and_then (some (err cause)) next = some (err cause)
and_then (some (ok state)) next = next state

-- A loop over a list, which an error ends.
unfoldable pub for_each : {A : Type 0} → (State → A → Outcome) → State → List A → Outcome
for_each step state [] = some (ok state)
for_each step state (x ∷ xs) = and_then (step state x) (λ after. for_each step after xs)

unfoldable pub apply_node_initialization : State → NodeInitialization → Outcome
unfolding check_requirement apply_effect apply_discard for_each
apply_node_initialization state node =
    and_then (for_each check_requirement state node.requirements) (λ checked.
      and_then (for_each apply_effect checked node.effects)
        (λ gained. for_each apply_discard gained node.discarded_regions))

-- The nodes of the fragment with the index, which has to be a `u32`.
unfoldable pub apply_node : ℕ → State → NodeInitialization → Outcome
unfolding apply_node_initialization
apply_node fragment_index state node = elim (ltb fragment_index u32_mod) [
  | true ↦ apply_node_initialization state node
  | false ↦ some (err unknown_identity)
]

unfoldable pub apply_nodes : ℕ → State → List NodeInitialization → Outcome
unfolding apply_node
apply_nodes fragment_index state nodes = for_each (apply_node fragment_index) state nodes
