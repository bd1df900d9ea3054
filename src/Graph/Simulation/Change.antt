-- ===== src/Graph/Simulation/Change.antt =====
-- An effect or a discard of a node, as a change of the set of initialized cells.
use runen_gpu.Base.{
  ◌≡◌, ◌≢◌, refl, inl, inr, ◌⊎◌, ◌↔◌, Bool, true, false, some, List, [], ◌∷◌, ok, Bool-cases,
  Option-cases, All,
}
use runen_gpu.Base.SortedMap.{get, put}
use runen_gpu.Resource.{GpuWorkResourceId, resource_id_key}
use runen_gpu.Graph.Fragment.{operation_access_contradiction, unknown_identity}
use runen_gpu.Graph.Initialization.{InitializedCoverage, GpuResourceRef, remove}
use runen_gpu.Graph.Initialization.Cells.{Initializes, Comparable, alike, Discardable}
use runen_gpu.Graph.Initialization.Laws.{
  union-Initializes, intersect_coverage-Initializes, remove-Initializes,
}
use runen_gpu.Graph.Initialization.Containment.{contains_iff}
use runen_gpu.Graph.Simulation.{
  InitializationRegion, InitializationEffect, State, is_contained, update, add_effect, apply_effect,
  discard, apply_discard,
}
use runen_gpu.Graph.Simulation.Step.{
  Holds, InRegion, IsTexture, IsOf, IsRegion, IsEffect, IsDiscard, IsState, Becomes, Refused,
  put-Becomes,
}

texture-Discardable :
    {have removed : InitializedCoverage}
    → Comparable have removed
    → IsTexture removed
    → Discardable have removed
texture-Discardable (Comparable.textures a b) t = Discardable.textures a b
texture-Discardable (Comparable.queries a b) t = absurd t
texture-Discardable (Comparable.buffers b xs ys) t = absurd t
texture-Discardable Comparable.immutables t = absurd t

module _ {A B : Type 0} {id : GpuWorkResourceId} where
  here_either : (A ⊎ B) ↔ (A ⊎ ((id ≡ id) × B))
  here_either = (
    λ h. elim h [ inl a ↦ inl a | inr b ↦ inr (refl, b) ],
    λ h. elim h [ inl a ↦ inl a | inr b ↦ inr b.1 ],
  )

  here_without : (A × (¬ B)) ↔ (A × (¬ ((id ≡ id) × B)))
  here_without = (λ h. (h.0, λ b. h.1 b.1), λ h. (h.0, λ b. h.1 (refl, b)))

  elsewhere_either : {other : GpuWorkResourceId} → other ≢ id → A ↔ (A ⊎ ((other ≡ id) × B))
  elsewhere_either n = (λ a. inl a, λ h. elim h [ inl a ↦ a | inr b ↦ absurd (n b.0) ])

  elsewhere_without : {other : GpuWorkResourceId} → other ≢ id → A ↔ (A × (¬ ((other ≡ id) × B)))
  elsewhere_without n = (λ a. (a, λ b. n b.0), λ h. h.0)

update_accepted :
    (state : State) (id : GpuWorkResourceId) (p : Bool × InitializedCoverage)
    → p.0 ≡ true
    → update state id p ≡ some (ok (put id p.1 state))
update_accepted state id (true, c) e = refl
update_accepted state id (false, c) e = cc

module _ (refs : GpuWorkResourceId → GpuResourceRef) (state : State) (w : IsState refs state) where
  -- The effect adds its cells.
  add_effect-Becomes :
      (region : InitializationRegion)
      → IsRegion refs region
      → Becomes refs
          (add_effect state region)
          (λ id cell. Holds state id cell ⊎ InRegion region id cell)
        ⊎ Refused refs (add_effect state region)
  unfolding add_effect
  add_effect-Becomes region v = elim (Option-cases (get region.resource state)) [
    | inl e ↦ inr (unknown_identity, rw (e, add_effect) refl, λ q. cc)
    | inr (c, e) ↦
        let known = w region.resource c e in
        let (value, u, r) = union-Initializes (alike known.0 v.0) known.1 v.1 in
        inl (
          rw (e, add_effect, u)
            (put-Becomes refs state w region.resource c value
              (λ cell. Initializes c cell ⊎ Initializes region.coverage cell)
              (λ id cell. Holds state id cell ⊎ InRegion region id cell) e r
              (λ cell. rw e here_either) (λ other n cell. elsewhere_either n)))
  ]

  is_contained-answers :
      (id : GpuWorkResourceId) (compatible : List InitializedCoverage)
      (effect : InitializedCoverage)
      → All (IsOf refs id) compatible
      → IsOf refs id effect
      → (answer : Bool) × (is_contained compatible effect ≡ some answer)
  unfolding is_contained
  is_contained-answers id [] effect v w = (false, refl)
  is_contained-answers id (access ∷ rest) effect v k =
      let (answer, a, iff) = contains_iff (alike v.0.0 k.0) v.0.1 k.1 in
      let (later, b) = is_contained-answers id rest effect v.1 k in
      elim (Bool-cases answer) [ inl h ↦ (true, rw (a, h) refl) | inr h ↦ (later, rw (a, h) b) ]

  pub apply_effect-Becomes :
      (effect : InitializationEffect)
      → IsEffect refs effect
      → Becomes refs
          (apply_effect state effect)
          (λ id cell. Holds state id cell ⊎ InRegion effect.region id cell)
        ⊎ Refused refs (apply_effect state effect)
  unfolding apply_effect
  apply_effect-Becomes effect v =
      let (contained, e) =
        is_contained-answers effect.region.resource effect.compatible effect.region.coverage v.1
          v.0 in
      elim (Bool-cases contained) [
        | inl h ↦ rw (e, h) (add_effect-Becomes effect.region v.0)
        | inr h ↦ inr (operation_access_contradiction, rw (e, h) refl, λ q. cc)
      ]

  -- The discard takes its cells away.
  pub apply_discard-Becomes :
      (region : InitializationRegion)
      → IsDiscard refs region
      → Becomes refs
          (apply_discard state region)
          (λ id cell. Holds state id cell × (¬ InRegion region id cell))
        ⊎ Refused refs (apply_discard state region)
  unfolding apply_discard discard
  apply_discard-Becomes region v = elim (Option-cases (get region.resource state)) [
    | inl e ↦ inr (unknown_identity, rw (e, apply_discard) refl, λ q. cc)
    | inr (c, e) ↦
        let known = w region.resource c e in
        let like = alike known.0 v.0.0 in
        let (met, m, r) = intersect_coverage-Initializes like known.1 v.0.1 in
        let (accepted, left) = remove-Initializes (texture-Discardable like v.1) known.1 v.0.1 in
        let updated = update_accepted state region.resource (remove c region.coverage) accepted in
        inl (
          rw (e, apply_discard, m, updated)
            (put-Becomes refs state w region.resource c (remove c region.coverage).1
              (λ cell. Initializes c cell × (¬ Initializes region.coverage cell))
              (λ id cell. Holds state id cell × (¬ InRegion region id cell)) e left
              (λ cell. rw e here_without) (λ other n cell. elsewhere_without n)))
  ]
