-- ===== src/Graph/Simulation/Nodes.antt =====
-- A sequence of nodes that is accepted reads no cell before it is initialized.
use mathlib.Core.Logic.Iff
use runen_gpu.Base.{
  ℕ, ◌≡◌, refl, inl, inr, ◌⊎◌, ◌↔◌, Option, none, some, List, [], ◌∷◌, err, arith, Bool-cases, All,
  ltb, u32_mod,
}
use runen_gpu.Base.SortedMap.{get}
use runen_gpu.Resource.{GpuWorkResourceId, resource_id_key}
use runen_gpu.Graph.Fragment.{GpuWorkGraphCause, read_before_initialization, unknown_identity}
use runen_gpu.Graph.Initialization.{InitializedCoverage, GpuResourceRef}
use runen_gpu.Graph.Initialization.Cells.{Cell, Initializes}
use runen_gpu.Graph.Simulation.{
  InitializationRegion, NodeInitialization, State, for_each, apply_node, apply_nodes,
}
use runen_gpu.Graph.Simulation.Step.{
  Cells, EntryHolds, Holds, EntryCovers, RegionCovered, IsState, Becomes,
}
use runen_gpu.Graph.Simulation.Laws.{after_node, after_nodes, IsNode, node_outcome}

-- What the node requires is among the cells.
abbrev pub Meets : Cells → NodeInitialization → Type 0
Meets P node =
    All
      (λ (r : InitializationRegion).
        (cell : Cell) → Initializes r.coverage cell → P r.resource cell)
      node.requirements

-- Every node finds what it requires among the cells that the nodes before it have left.
abbrev pub Supplied : Cells → List NodeInitialization → Type 0
Supplied P [] = Unit
Supplied P (node ∷ nodes) = Meets P node × Supplied (after_node P node) nodes

RegionCovered-cell :
    (o : Option InitializedCoverage) (c : InitializedCoverage)
    → EntryCovers o c
    → (cell : Cell) → Initializes c cell
    → EntryHolds o cell
RegionCovered-cell none c k cell h = absurd k
RegionCovered-cell (some d) c k cell h = k cell h

RegionCovered-Meets :
    (state : State) (rs : List InitializationRegion)
    → All (RegionCovered state) rs
    → All
        (λ (r : InitializationRegion).
          (cell : Cell) → Initializes r.coverage cell → Holds state r.resource cell)
        rs
RegionCovered-Meets state [] k = tt
RegionCovered-Meets state (r ∷ rs) k =
    (RegionCovered-cell (get r.resource state) r.coverage k.0, RegionCovered-Meets state rs k.1)

abbrev SameCells : Cells → Cells → Type 0
SameCells P Q = (id : GpuWorkResourceId) (cell : Cell) → P id cell ↔ Q id cell

after_node-SameCells :
    (P Q : Cells) (node : NodeInitialization)
    → SameCells P Q
    → SameCells (after_node P node) (after_node Q node)
after_node-SameCells P Q node same id cell = ground (arith, same id cell)

after_nodes-SameCells :
    (P Q : Cells) (nodes : List NodeInitialization)
    → SameCells P Q
    → SameCells (after_nodes P nodes) (after_nodes Q nodes)
after_nodes-SameCells P Q [] same = same
after_nodes-SameCells P Q (node ∷ nodes) same =
    after_nodes-SameCells (after_node P node) (after_node Q node) nodes
      (after_node-SameCells P Q node same)

Meets-SameCells :
    (P Q : Cells) (rs : List InitializationRegion)
    → SameCells P Q
    → All
        (λ (r : InitializationRegion).
          (cell : Cell) → Initializes r.coverage cell → P r.resource cell)
        rs
    → All
        (λ (r : InitializationRegion).
          (cell : Cell) → Initializes r.coverage cell → Q r.resource cell)
        rs
Meets-SameCells P Q [] same k = tt
Meets-SameCells P Q (r ∷ rs) same k =
    (λ cell h. (same r.resource cell).0 (k.0 cell h), Meets-SameCells P Q rs same k.1)

Supplied-SameCells :
    (P Q : Cells) (nodes : List NodeInitialization)
    → SameCells P Q
    → Supplied P nodes
    → Supplied Q nodes
Supplied-SameCells P Q [] same k = tt
Supplied-SameCells P Q (node ∷ nodes) same k = (
  Meets-SameCells P Q node.requirements same k.0,
  Supplied-SameCells (after_node P node) (after_node Q node) nodes
      (after_node-SameCells P Q node same) k.1,
)

module _ (refs : GpuWorkResourceId → GpuResourceRef) (fragment_index : ℕ) where
  one_node :
      (state : State) (node : NodeInitialization)
      → IsState refs state
      → IsNode refs node
      → (Meets (Holds state) node
          × Becomes refs (apply_node fragment_index state node) (after_node (Holds state) node))
        ⊎ ((cause : GpuWorkGraphCause) × (apply_node fragment_index state node ≡ some (err cause)))
  unfolding apply_node
  one_node state node w v = elim (Bool-cases (ltb fragment_index u32_mod)) [
    | inr e ↦ inr (unknown_identity, rw (e, apply_node) refl)
    | inl e ↦ elim (node_outcome refs state node w v) [
      | inl (c, inl (after, r, rest)) ↦
          inl (RegionCovered-Meets state node.requirements c, (after, rw (e, apply_node) r, rest))
      | inl (c, inr (cause, r, n)) ↦ inr (cause, rw (e, apply_node) r)
      | inr (r, n) ↦ inr (read_before_initialization, rw (e, apply_node) r)
    ]
  ]

  -- When every coverage of the state and of the nodes' regions is well-formed and of the kind of its
  -- resource, and discards are of textures, the loop over the nodes answers: with an error, or with a
  -- state. In that case every node finds what it requires among the cells that were initialized before
  -- or that the nodes before it have initialized and not discarded, and the state has exactly the cells
  -- that all nodes have left.
  pub apply_nodes-Supplied :
      (state : State) (nodes : List NodeInitialization)
      → IsState refs state
      → All (IsNode refs) nodes
      → (Supplied (Holds state) nodes
          × Becomes refs (apply_nodes fragment_index state nodes) (after_nodes (Holds state) nodes))
        ⊎ ((cause : GpuWorkGraphCause) × (apply_nodes fragment_index state nodes
              ≡ some (err cause)))
  unfolding apply_nodes for_each
  apply_nodes-Supplied state [] w v = inl (tt, (state, refl, (w, λ id cell. (λ h. h, λ h. h))))
  apply_nodes-Supplied state (node ∷ nodes) w v = elim (one_node state node w v.0) [
    | inr (cause, e) ↦ inr (cause, rw e refl)
    | inl (met, (after, e, (wa, cells))) ↦ elim (apply_nodes-Supplied after nodes wa v.1) [
      | inr (cause, f) ↦ inr (cause, rw e f)
      | inl (later, (final, f, (wf, left))) ↦ inl (
        (met, Supplied-SameCells (Holds after) (after_node (Holds state) node) nodes cells later),
        (
          final,
          rw e f,
          (
            wf,
            λ id cell. Iff.trans (left id cell) (
                after_nodes-SameCells (Holds after) (after_node (Holds state) node) nodes cells id
                  cell),
          ),
        ),
      )
    ]
  ]
