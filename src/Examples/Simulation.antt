-- ===== src/Examples/Simulation.antt =====
-- Nodes that write and read queries of one set.
use runen_gpu.Base.{◌≡◌, ◌↔◌, ◌⊎◌, refl, inl, inr, subst, some, ok, err, arith, List, [], ◌∷◌, All}
use runen_gpu.Base.Key.{key_eq, key_eq_cases}
use runen_gpu.Base.SortedMap.{get, put}
use runen_gpu.Resource.{GpuWorkResourceId, resource_id_key, GpuQuerySetHandle}
use runen_gpu.Graph.Fragment.{GpuWorkGraphCause, read_before_initialization}
use runen_gpu.Graph.Intervals.{Interval, normalize_u32_intervals}
use runen_gpu.Graph.Initialization.{query, GpuResourceRef, empty_for, union, contains}
use runen_gpu.Graph.Initialization.Cells.{Comparable, IsNormal}
use runen_gpu.Graph.Simulation.{
  InitializationRegion, NodeInitialization, State, apply_node_initialization, apply_nodes,
}
use runen_gpu.Graph.Simulation.Step.{Holds, RegionCovered, IsOf, IsState, Becomes}
use runen_gpu.Graph.Simulation.Laws.{after_nodes, IsNode, apply_node_initialization-err}
use runen_gpu.Graph.Simulation.Nodes.{Supplied, apply_nodes-Supplied}

abbrev timestamps : GpuQuerySetHandle
timestamps = record { id = record { owner_scope = 1; local = 7 }; count = 4 }

abbrev every_timestamps : GpuWorkResourceId → GpuResourceRef
every_timestamps id = GpuResourceRef.query_set timestamps

abbrev two_queries : InitializationRegion
two_queries = record { resource = timestamps.id; coverage = query ((0, 2) ∷ []) }

abbrev writer : NodeInitialization
writer = record {
  requirements = [];
  effects = record { region = two_queries; compatible = query ((0, 2) ∷ []) ∷ [] } ∷ [];
  discarded_regions = [];
}

abbrev reader : NodeInitialization
reader = record { requirements = two_queries ∷ []; effects = []; discarded_regions = [] }

abbrev fresh : State
fresh = (timestamps.id, query []) ∷ []

-- A reader after a writer is accepted, and refused before it.
write_read :
    apply_nodes 0 fresh (writer ∷ reader ∷ [])
    ≡ some (ok ((timestamps.id, query ((0, 2) ∷ [])) ∷ []))
unfolding apply_nodes contains get key_eq union put normalize_u32_intervals
write_read = refl

read_write : apply_nodes 0 fresh (reader ∷ writer ∷ []) ≡ some (err read_before_initialization)
unfolding apply_nodes get key_eq contains
read_write = refl

queries-IsOf :
    (id : GpuWorkResourceId) (xs : List Interval)
    → IsNormal xs
    → IsOf every_timestamps id (query xs)
unfolding empty_for
queries-IsOf id xs n = (Comparable.queries [] xs, n)

first_two : IsNormal ((0, 2) ∷ [])
first_two = ((λ y m. absurd m, tt), ((omega arith, omega arith), tt))

fresh-IsState : IsState every_timestamps fresh
unfolding get
fresh-IsState id c e = elim (key_eq_cases id timestamps.id) [
  | inl (h, q) ↦
      let same : query [] ≡ c = cc (e, h) in
      subst (λ x. IsOf every_timestamps id x) same (queries-IsOf id [] (tt, tt))
  | inr (h, q) ↦ absurd (cc (e, h))
]

writer-IsNode : IsNode every_timestamps writer
writer-IsNode =
    let two = queries-IsOf timestamps.id ((0, 2) ∷ []) first_two in
    (tt, (((two, (two, tt)), tt), tt))

reader-IsNode : IsNode every_timestamps reader
reader-IsNode = ((queries-IsOf timestamps.id ((0, 2) ∷ []) first_two, tt), (tt, tt))

apply_nodes-Supplied_example :
    (Supplied (Holds fresh) (writer ∷ reader ∷ [])
      × Becomes every_timestamps
          (apply_nodes 0 fresh (writer ∷ reader ∷ []))
          (after_nodes (Holds fresh) (writer ∷ reader ∷ [])))
    ⊎ ((cause : GpuWorkGraphCause) × (apply_nodes 0 fresh (writer ∷ reader ∷ [])
          ≡ some (err cause)))
apply_nodes-Supplied_example =
    apply_nodes-Supplied every_timestamps 0 fresh (writer ∷ reader ∷ []) fresh-IsState
      (writer-IsNode, (reader-IsNode, tt))

apply_node_initialization-err_example :
    (apply_node_initialization fresh reader ≡ some (err read_before_initialization))
    ↔ (¬ All (RegionCovered fresh) reader.requirements)
apply_node_initialization-err_example =
    apply_node_initialization-err every_timestamps fresh reader fresh-IsState reader-IsNode
