-- ===== src/Graph/Simulation/Laws.antt =====
-- The nodes of a fragment, as changes of the set of initialized cells, and what an accepted sequence of
-- nodes guarantees.
use runen_gpu.Base.{◌≡◌, refl, inl, inr, ◌⊎◌, ◌↔◌, some, List, [], ◌∷◌, ok, err, arith, All}
use runen_gpu.Resource.{GpuWorkResourceId, resource_id_key}
use runen_gpu.Graph.Fragment.{read_before_initialization}
use runen_gpu.Graph.Initialization.{GpuResourceRef}
use runen_gpu.Graph.Simulation.{
  InitializationRegion, InitializationEffect, NodeInitialization, State, check_requirement,
  apply_effect, apply_discard, for_each, apply_node_initialization,
}
use runen_gpu.Graph.Simulation.Step.{
  Cells, Holds, InRegion, RegionCovered, IsRegion, IsEffect, IsDiscard, IsState, Becomes, Refused,
  check_requirement-RegionCovered,
}
use runen_gpu.Graph.Simulation.Change.{apply_effect-Becomes, apply_discard-Becomes}

abbrev pub InAny : List InitializationRegion → Cells
InAny [] id cell = ⊥
InAny (r ∷ rs) id cell = InRegion r id cell ⊎ InAny rs id cell

abbrev pub InEffects : List InitializationEffect → Cells
InEffects [] id cell = ⊥
InEffects (e ∷ es) id cell = InRegion e.region id cell ⊎ InEffects es id cell

-- The cells after a node: what it initializes is added, and then what it discards is taken away.
abbrev pub after_node : Cells → NodeInitialization → Cells
after_node P node id cell =
    (P id cell ⊎ InEffects node.effects id cell) × (¬ InAny node.discarded_regions id cell)

abbrev pub after_nodes : Cells → List NodeInitialization → Cells
after_nodes P [] = P
after_nodes P (node ∷ nodes) = after_nodes (after_node P node) nodes

module _ (refs : GpuWorkResourceId → GpuResourceRef) where
  abbrev pub IsNode : NodeInitialization → Type 0
  IsNode node =
      All (IsRegion refs) node.requirements
      × (All (IsEffect refs) node.effects × All (IsDiscard refs) node.discarded_regions)

  requirements-RegionCovered :
      (state : State) (rs : List InitializationRegion)
      → IsState refs state
      → All (IsRegion refs) rs
      → ((for_each check_requirement state rs ≡ some (ok state)) × All (RegionCovered state) rs)
        ⊎ ((for_each check_requirement state rs ≡ some (err read_before_initialization))
            × (¬ All (RegionCovered state) rs))
  unfolding for_each
  requirements-RegionCovered state [] w v = inl (refl, tt)
  requirements-RegionCovered state (r ∷ rs) w v =
      elim (check_requirement-RegionCovered refs state w r v.0) [
        | inl (e, c) ↦ elim (requirements-RegionCovered state rs w v.1) [
          | inl (f, d) ↦ inl (rw e f, (c, d))
          | inr (f, n) ↦ inr (rw e f, λ k. n k.1)
        ]
        | inr (e, n) ↦ inr (rw e refl, λ k. n k.0)
      ]

  effects-Becomes :
      (state : State) (es : List InitializationEffect)
      → IsState refs state
      → All (IsEffect refs) es
      → Becomes refs
          (for_each apply_effect state es)
          (λ id cell. Holds state id cell ⊎ InEffects es id cell)
        ⊎ Refused refs (for_each apply_effect state es)
  unfolding for_each
  effects-Becomes state [] w v =
      inl (state, refl, (w, λ id cell. (λ h. inl h, λ h. elim h [ inl a ↦ a | inr b ↦ absurd b ])))
  effects-Becomes state (e ∷ es) w v = elim (apply_effect-Becomes refs state w e v.0) [
    | inl (after, r, (wa, cells)) ↦ elim (effects-Becomes after es wa v.1) [
      | inl (final, f, (wf, later)) ↦
          inl (final, rw r f, (wf, λ id cell. ground (arith, later id cell, cells id cell)))
      | inr (cause, f, n) ↦ inr (cause, rw r f, n)
    ]
    | inr (cause, r, n) ↦ inr (cause, rw r refl, n)
  ]

  discarded_regions-Becomes :
      (state : State) (ds : List InitializationRegion)
      → IsState refs state
      → All (IsDiscard refs) ds
      → Becomes refs
          (for_each apply_discard state ds)
          (λ id cell. Holds state id cell × (¬ InAny ds id cell))
        ⊎ Refused refs (for_each apply_discard state ds)
  unfolding for_each
  discarded_regions-Becomes state [] w v =
      inl (state, refl, (w, λ id cell. (λ h. (h, λ b. b), λ h. h.0)))
  discarded_regions-Becomes state (d ∷ ds) w v = elim (apply_discard-Becomes refs state w d v.0) [
    | inl (after, r, (wa, cells)) ↦ elim (discarded_regions-Becomes after ds wa v.1) [
      | inl (final, f, (wf, later)) ↦
          inl (final, rw r f, (wf, λ id cell. ground (arith, later id cell, cells id cell)))
      | inr (cause, f, n) ↦ inr (cause, rw r f, n)
    ]
    | inr (cause, r, n) ↦ inr (cause, rw r refl, n)
  ]

  -- A node is accepted with its requirements covered, or refused: for a requirement that is not covered,
  -- or for another reason.
  pub node_outcome :
      (state : State) (node : NodeInitialization)
      → IsState refs state
      → IsNode node
      → (All (RegionCovered state) node.requirements
          × (Becomes refs (apply_node_initialization state node) (after_node (Holds state) node)
              ⊎ Refused refs (apply_node_initialization state node)))
        ⊎ ((apply_node_initialization state node ≡ some (err read_before_initialization))
            × (¬ All (RegionCovered state) node.requirements))
  unfolding apply_node_initialization
  node_outcome state node w v = elim (requirements-RegionCovered state node.requirements w v.0) [
    | inr (e, n) ↦ inr (rw e refl, n)
    | inl (e, c) ↦ inl (
      c,
      elim (effects-Becomes state node.effects w v.1.0) [
        | inr (cause, f, n) ↦ inr (cause, rw (e, f) refl, n)
        | inl (gained, f, (wg, cells)) ↦
            elim (discarded_regions-Becomes gained node.discarded_regions wg v.1.1) [
              | inr (cause, g, n) ↦ inr (cause, rw (e, f) g, n)
              | inl (final, g, (wf, later)) ↦ inl (
                final,
                rw (e, f) g,
                (wf, λ id cell. ground (arith, later id cell, cells id cell)),
              )
            ]
      ],
    )
  ]

  -- When every coverage of the state and of the node's regions is well-formed and of the kind of its
  -- resource, and discards are of textures, the node is refused as reading before initialization
  -- exactly if one of the regions that it requires is not initialized when its turn comes.
  pub apply_node_initialization-err :
      (state : State) (node : NodeInitialization)
      → IsState refs state
      → IsNode node
      → (apply_node_initialization state node ≡ some (err read_before_initialization))
        ↔ (¬ All (RegionCovered state) node.requirements)
  apply_node_initialization-err state node w v = elim (node_outcome state node w v) [
    | inl (c, inl (after, e, rest)) ↦ (λ h. cc (h, e), λ n. absurd (n c))
    | inl (c, inr (cause, e, n)) ↦ (λ h. absurd (n (cc (h, e))), λ n. absurd (n c))
    | inr (e, n) ↦ (λ h. n, λ k. e)
  ]
