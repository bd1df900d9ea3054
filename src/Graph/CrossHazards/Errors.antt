-- ===== src/Graph/CrossHazards/Errors.antt =====
-- The errors of `infer_cross_fragment_hazards`.
use runen_gpu.Base.{
  ◌≡◌, refl, sym, subst, ◌∙◌, if◌then◌else◌, ◌⊎◌, inl, inr, Bool, true, false, not, ◌&&◌, ◌||◌,
  List, [], ◌∷◌, some, err, Result-cases, arith, In, Option-cases, Bool-cases, differs, ◌≤◌,
  u32_mod,
}
use runen_gpu.Resource.{GpuWorkResourceId}
use runen_gpu.Access.Construct.{writes}
use runen_gpu.Graph.Region.{GpuDependencyRegion, access_intersection}
use runen_gpu.Graph.Identity.{edge_key}
use runen_gpu.Graph.Reason.{DependencyEdges}
use runen_gpu.Graph.Fragment.{
  ambiguous_writer, missing_cross_fragment_causality, GpuWorkFragment, GpuWorkGraphCause,
  unknown_identity, prepared_node_id,
}
use runen_gpu.Graph.CrossHazards.{
  CrossAccess, CrossPair, FragmentRelations, related, add_ordered, add_cross_hazard, visit_pairs,
  cross_pairs, infer_cross_fragment_hazards,
}

one_writes : (a b : Bool) → (a || b) ≡ true → (not a && not b) ≡ false
one_writes a b w = ground arith

-- The relations leave a pair with a shared region without an order.
pub record Unordered (relations : FragmentRelations) (cause : GpuWorkGraphCause)
    (left right : CrossAccess) : Type 0 where
  pub resource : GpuWorkResourceId
  pub region : GpuDependencyRegion
  pub meet : access_intersection left.access right.access ≡ some (resource, region)
  pub write : (writes left.access || writes right.access) ≡ true
  pub undecided : related relations left right resource ≡ related relations right left resource
  pub names :
      ((cause ≡ ambiguous_writer) × (writes left.access ≡ true) × (writes right.access ≡ true))
      ⊎ ((cause ≡ missing_cross_fragment_causality)
          × ((writes left.access && writes right.access) ≡ false))

-- One of the two fragments has an index that `u32` does not hold.
abbrev pub TooMany : CrossAccess → CrossAccess → Type 0
TooMany left right = (u32_mod ≤ left.fragment_index) ⊎ (u32_mod ≤ right.fragment_index)

module _ (relations : FragmentRelations) where
  add_ordered-err :
      (resource : GpuWorkResourceId) (region : GpuDependencyRegion) (earlier later : CrossAccess)
      (edges : DependencyEdges) (cause : GpuWorkGraphCause)
      → add_ordered resource region earlier later edges ≡ err cause
      → (cause ≡ unknown_identity) × TooMany earlier later
  unfolding add_ordered prepared_node_id
  add_ordered-err resource region earlier later edges cause h = (ground arith, ground arith)

  ordered_step :
      (left right : CrossAccess) (edges : DependencyEdges) (resource : GpuWorkResourceId)
      (region : GpuDependencyRegion)
      → access_intersection left.access right.access ≡ some (resource, region)
      → (not (writes left.access) && not (writes right.access)) ≡ false
      → differs (related relations left right resource) (related relations right left resource)
        ≡ true
      → add_cross_hazard relations left right edges ≡ (
          if related relations left right resource
          then add_ordered resource region left right edges
          else add_ordered resource region right left edges)
  unfolding add_cross_hazard
  ordered_step left right edges resource region e w d = rw (e, add_cross_hazard) (rw (w, d) refl)

  ordered-err :
      (left right : CrossAccess) (edges : DependencyEdges) (cause : GpuWorkGraphCause)
      (resource : GpuWorkResourceId) (region : GpuDependencyRegion)
      → add_cross_hazard relations left right edges ≡ err cause
      → access_intersection left.access right.access ≡ some (resource, region)
      → (writes left.access || writes right.access) ≡ true
      → differs (related relations left right resource) (related relations right left resource)
        ≡ true
      → (cause ≡ unknown_identity) × TooMany left right
  ordered-err left right edges cause resource region h e w d =
      let step =
        ordered_step left right edges resource region e
          (one_writes (writes left.access) (writes right.access) w) d in
      elim (Bool-cases (related relations left right resource)) [
        | inl l ↦ add_ordered-err resource region left right edges cause (
            subst
              (λ t.
                (if t
                  then add_ordered resource region left right edges
                  else add_ordered resource region right left edges)
                ≡ err cause)
              l (sym step ∙ h))
        | inr l ↦
            let (named, far) = add_ordered-err resource region right left edges cause (
              subst
                (λ t.
                  (if t
                    then add_ordered resource region left right edges
                    else add_ordered resource region right left edges)
                  ≡ err cause)
                l (sym step ∙ h)) in
            (named, elim far [ inl r ↦ inr r | inr r ↦ inl r ])
      ]

  add_cross_hazard-err :
      (left right : CrossAccess) (edges : DependencyEdges) (cause : GpuWorkGraphCause)
      → add_cross_hazard relations left right edges ≡ err cause
      → ((cause ≡ unknown_identity) × TooMany left right) ⊎ Unordered relations cause left right
  unfolding add_cross_hazard
  add_cross_hazard-err left right edges cause h =
      elim (Option-cases (access_intersection left.access right.access)) [
        | inl e ↦ absurd (ground arith)
        | inr ((resource, region), e) ↦
            elim (Bool-cases (writes left.access || writes right.access)) [
              | inr w ↦ absurd (ground arith)
              | inl w ↦
                  elim (Bool-cases (
                    differs (related relations left right resource)
                      (related relations right left resource))) [
                        | inl d ↦ inl (ordered-err left right edges cause resource region h e w d)
                        | inr d ↦ inr (record {
                          resource = resource;
                          region = region;
                          meet = e;
                          write = w;
                          undecided = ground arith;
                          names = ground arith;
                        })
                      ]
            ]
      ]

  -- What an error of the loops is about: a visited pair of which one index does not fit `u32`, or one
  -- with a shared region and a write, whose fragments are related in both directions or in none.
  visit_pairs-err :
      (pairs : List CrossPair) (edges : DependencyEdges) (cause : GpuWorkGraphCause)
      → visit_pairs relations pairs edges ≡ err cause
      → (left : CrossAccess) × (right : CrossAccess) × In {A = CrossPair} (left, right) pairs
        × (((cause ≡ unknown_identity) × TooMany left right) ⊎ Unordered relations cause left right)
  unfolding visit_pairs
  visit_pairs-err [] edges cause h = absurd (cc h)
  visit_pairs-err ((left, right) ∷ rest) edges cause h =
      elim (Result-cases (add_cross_hazard relations left right edges)) [
        | inl (next, q) ↦
            let (l, r, m, u) = visit_pairs-err rest next cause (ground arith) in (l, r, inr m, u)
        | inr (c, q) ↦
            let same : c ≡ cause = ground arith in
            (
              left,
              right,
              inl refl,
              subst
                  (λ x.
                    ((x ≡ unknown_identity) × TooMany left right)
                    ⊎ Unordered relations x left right)
                  same (add_cross_hazard-err left right edges c q),
            )
      ]

-- An error is about two visited accesses: it is `unknown_identity`, and the index of one of their
-- fragments is 2^32 or more; or they have a shared region, one of them writes and their fragments are
-- related in both directions or in neither, and it is an ambiguous writer when both write, and
-- missing causality otherwise.
pub infer_cross_fragment_hazards-err :
    (fragments : List GpuWorkFragment) (relations : FragmentRelations) (edges : DependencyEdges)
    (cause : GpuWorkGraphCause)
    → infer_cross_fragment_hazards fragments relations edges ≡ err cause
    → (left : CrossAccess) × (right : CrossAccess) × In {A = CrossPair}
        (left, right)
        (cross_pairs 0 fragments)
      × (((cause ≡ unknown_identity) × TooMany left right) ⊎ Unordered relations cause left right)
unfolding infer_cross_fragment_hazards
infer_cross_fragment_hazards-err fragments relations edges cause h =
    visit_pairs-err relations (cross_pairs 0 fragments) edges cause h
