-- ===== src/Graph/Simulation/Step.antt =====
-- The cells that a state counts as initialized, what a step makes of them, and the check of a
-- requirement.
use mathlib.Core.Logic.Iff
use runen_gpu.Base.{
  ◌≡◌, ◌≢◌, refl, sym, subst, inl, inr, ◌⊎◌, ◌↔◌, Option, none, some, ok, err, Bool-cases,
  Option-cases, All,
}
use runen_gpu.Base.Key.{key_eq_cases}
use runen_gpu.Base.SortedMap.{get, put, get-upsert}
use runen_gpu.Resource.{GpuWorkResourceId, resource_id_key}
use runen_gpu.Graph.Fragment.{GpuWorkGraphCause, read_before_initialization}
use runen_gpu.Graph.Initialization.{InitializedCoverage, GpuResourceRef, empty_for}
use runen_gpu.Graph.Initialization.Cells.{
  Cell, Initializes, IsWellFormed, Comparable, swapped, alike,
}
use runen_gpu.Graph.Initialization.Laws.{Represents}
use runen_gpu.Graph.Initialization.Containment.{contains_iff}
use runen_gpu.Graph.Simulation.{
  InitializationRegion, InitializationEffect, State, Outcome, is_initialized, check_requirement,
}

-- A set of cells of the resources.
abbrev pub Cells : Type 1
Cells = GpuWorkResourceId → Cell → Type 0

abbrev pub EntryHolds : Option InitializedCoverage → Cell → Type 0
EntryHolds none cell = ⊥
EntryHolds (some coverage) cell = Initializes coverage cell

-- The cells that the state counts as initialized.
abbrev pub Holds : State → Cells
Holds state id cell = EntryHolds (get id state) cell

-- The cells of a region.
abbrev pub InRegion : InitializationRegion → Cells
InRegion region id cell = (id ≡ region.resource) × Initializes region.coverage cell

abbrev pub EntryCovers : Option InitializedCoverage → InitializedCoverage → Type 0
EntryCovers none required = ⊥
EntryCovers (some coverage) required =
    (cell : Cell) → Initializes required cell → Initializes coverage cell

-- The state knows the resource of the region and has initialized the region.
abbrev pub RegionCovered : State → InitializationRegion → Type 0
RegionCovered state region = EntryCovers (get region.resource state) region.coverage

abbrev pub IsTexture : InitializedCoverage → Type 0
IsTexture (InitializedCoverage.texture layers) = Unit
IsTexture _ = ⊥

module _ (refs : GpuWorkResourceId → GpuResourceRef) where
  -- A well-formed coverage of the resource with the identity.
  abbrev pub IsOf : GpuWorkResourceId → InitializedCoverage → Type 0
  IsOf id coverage = Comparable (empty_for (refs id)) coverage × IsWellFormed coverage

  abbrev pub IsRegion : InitializationRegion → Type 0
  IsRegion region = IsOf region.resource region.coverage

  abbrev pub IsEffect : InitializationEffect → Type 0
  IsEffect effect = IsRegion effect.region × All (IsOf effect.region.resource) effect.compatible

  abbrev pub IsDiscard : InitializationRegion → Type 0
  IsDiscard region = IsRegion region × IsTexture region.coverage

  abbrev pub IsState : State → Type 0
  IsState state =
      (id : GpuWorkResourceId) (c : InitializedCoverage) → get id state ≡ some c → IsOf id c

  -- The run succeeds with a state that has the cells.
  abbrev pub Becomes : Outcome → Cells → Type 0
  Becomes run P =
      (after : State) × (run ≡ some (ok after))
      × (IsState after × ((id : GpuWorkResourceId) (cell : Cell) → Holds after id cell ↔ P id cell))

  -- The run ends with the error, which is not about a requirement.
  abbrev pub Refused : Outcome → Type 0
  Refused run =
      (cause : GpuWorkGraphCause) × (run ≡ some (err cause)) × (cause ≢ read_before_initialization)

  module _ (state : State) (w : IsState state) where
    pub check_requirement-RegionCovered :
        (region : InitializationRegion)
        → IsRegion region
        → ((check_requirement state region ≡ some (ok state)) × RegionCovered state region)
          ⊎ ((check_requirement state region ≡ some (err read_before_initialization))
              × (¬ RegionCovered state region))
    unfolding check_requirement is_initialized
    check_requirement-RegionCovered region v = elim (Option-cases (get region.resource state)) [
      | inl e ↦ inr (rw (e, check_requirement, is_initialized) refl, rw e (λ k. k))
      | inr (c, e) ↦
          let known = w region.resource c e in
          let (answer, a, iff) = contains_iff (alike known.0 v.0) known.1 v.1 in
          elim (Bool-cases answer) [
            | inl h ↦ inl (rw (e, check_requirement, is_initialized, a, h) refl, rw e (iff.0 h))
            | inr h ↦ inr (
              rw (e, check_requirement, is_initialized, a, h) refl,
              rw e (λ k. absurd (cc (h, iff.1 k))),
            )
          ]
    ]

    -- A new value for a resource that is there.
    pub put-Becomes :
        (id : GpuWorkResourceId) (c value : InitializedCoverage) (P : Cell → Type 0) (Q : Cells)
        → get id state ≡ some c
        → Represents c value P
        → ((cell : Cell) → P cell ↔ Q id cell)
        → ((other : GpuWorkResourceId)
            → other ≢ id
            → (cell : Cell) → Holds state other cell ↔ Q other cell)
        → Becomes (some (ok (put id value state))) Q
    unfolding put
    put-Becomes id c value P Q e r same others =
        let known = w id c e in
        let kind = alike (swapped known.0) r.0 in
        (
          put id value state,
          refl,
          (
            λ other d h.
                let found = get-upsert other id value (λ _. value) state in
                elim (key_eq_cases other id) [
                  | inl (q, p) ↦
                      let is_value : value ≡ d = cc (h, found, q) in
                      subst (λ x. IsOf other x) is_value
                        (subst (λ x. IsOf x value) (sym p) (kind, r.1.0))
                  | inr (q, p) ↦ w other d (cc (h, found, q))
                ],
            λ other cell.
                let found = get-upsert other id value (λ _. value) state in
                elim (key_eq_cases other id) [
                  | inl (q, p) ↦
                      let there : get other (put id value state) ≡ some value = cc (found, q) in
                      rw there (
                        subst (λ x. Initializes value cell ↔ Q x cell) (sym p)
                          (Iff.trans (r.1.1 cell) (same cell)))
                  | inr (q, p) ↦
                      let there : get other (put id value state) ≡ get other state =
                        cc (found, q) in
                      rw there (others other p cell)
                ],
          ),
        )
