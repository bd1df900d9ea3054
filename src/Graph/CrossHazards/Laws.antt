-- ===== src/Graph/CrossHazards/Laws.antt =====
-- Conflicts between fragments: those that pass `infer_cross_fragment_hazards`.
use runen_gpu.Base.{
  ℕ, ◌<◌, ◌≡◌, sym, subst, ◌⊎◌, inl, inr, true, false, ◌||◌, List, [], ◌∷◌, some, ok, Result-cases,
  arith, In, get_elem?, Option-cases,
}
use runen_gpu.Base.Key.{key_eq_refl}
use runen_gpu.Resource.{GpuWorkResourceId}
use runen_gpu.Access.Construct.{GpuResourceAccess, resource_identity, writes}
use runen_gpu.Graph.Region.{GpuDependencyRegion, access_intersection}
use runen_gpu.Graph.Region.Laws.{Piece, Touches, IsChecked, SameTexture}
use runen_gpu.Graph.Region.Complete.{access_intersection-none}
use runen_gpu.Graph.Identity.{Edge, edge_key}
use runen_gpu.Graph.Reason.{DependencyEdges, extend}
use runen_gpu.Graph.Fragment.{GpuWorkNode, GpuWorkFragment, prepared_node_id}
use runen_gpu.Graph.Hazards.{access_pair_hazard_reasons}
use runen_gpu.Graph.Hazards.Pair.{has_edge, has_edge-upsert, node_id}
use runen_gpu.Graph.CrossHazards.{
  CrossAccess, CrossPair, FragmentRelations, at, related, add_ordered, add_cross_hazard,
  visit_pairs, cross_pairs, infer_cross_fragment_hazards,
}
use runen_gpu.Graph.CrossHazards.Pairs.{In-cross_pairs}

abbrev cross_edge : CrossAccess → CrossAccess → Edge
cross_edge earlier later =
    (node_id earlier.fragment_index earlier.node, node_id later.fragment_index later.node)

-- The relations order the two fragments of a pair one way and not the other, and the edges order
-- the two nodes the same way.
abbrev pub Oriented :
    FragmentRelations → DependencyEdges → GpuWorkResourceId → CrossAccess → CrossAccess → Type 0
Oriented relations edges resource left right =
    ((related relations left right resource ≡ true)
      × (related relations right left resource ≡ false)
      × (has_edge (cross_edge left right) edges ≡ true))
    ⊎ ((related relations left right resource ≡ false)
        × (related relations right left resource ≡ true)
        × (has_edge (cross_edge right left) edges ≡ true))

module _ (relations : FragmentRelations) where
  add_ordered-has_edge :
      (resource : GpuWorkResourceId) (region : GpuDependencyRegion) (earlier later : CrossAccess)
      (edges added : DependencyEdges) (e : Edge)
      → add_ordered resource region earlier later edges ≡ ok added
      → (has_edge (cross_edge earlier later) added ≡ true)
        × (has_edge e added ≡ (has_edge e edges || has_edge e added))
  unfolding add_ordered prepared_node_id
  add_ordered-has_edge resource region earlier later edges added e h = ground (
    arith,
    key_eq_refl (cross_edge earlier later),
    has_edge-upsert (cross_edge earlier later) (cross_edge earlier later) []
        (λ set. extend set (access_pair_hazard_reasons earlier.access later.access resource region))
        edges,
    has_edge-upsert e (cross_edge earlier later) []
        (λ set. extend set (access_pair_hazard_reasons earlier.access later.access resource region))
        edges,
  )

  add_cross_hazard-Oriented :
      (left right : CrossAccess) (edges added : DependencyEdges) (resource : GpuWorkResourceId)
      (region : GpuDependencyRegion)
      → add_cross_hazard relations left right edges ≡ ok added
      → access_intersection left.access right.access ≡ some (resource, region)
      → (writes left.access || writes right.access) ≡ true
      → Oriented relations added resource left right
  unfolding add_cross_hazard
  add_cross_hazard-Oriented left right edges added resource region h e w = ground (
    arith,
    add_ordered-has_edge resource region left right edges added (cross_edge left right),
    add_ordered-has_edge resource region right left edges added (cross_edge left right),
  )

  add_cross_hazard_keeps :
      (left right : CrossAccess) (edges added : DependencyEdges) (e : Edge)
      → add_cross_hazard relations left right edges ≡ ok added
      → has_edge e edges ≡ true
      → has_edge e added ≡ true
  unfolding add_cross_hazard
  add_cross_hazard_keeps left right edges added e h k =
      elim (Option-cases (access_intersection left.access right.access)) [
        | inl none_shared ↦ ground arith
        | inr ((resource, region), shared) ↦ ground (
          arith,
          add_ordered-has_edge resource region left right edges added e,
          add_ordered-has_edge resource region right left edges added e,
        )
      ]

  visit_pairs_keeps :
      (pairs : List CrossPair) (edges added : DependencyEdges) (e : Edge)
      → visit_pairs relations pairs edges ≡ ok added
      → has_edge e edges ≡ true
      → has_edge e added ≡ true
  unfolding visit_pairs
  visit_pairs_keeps [] edges added e h k = ground arith
  visit_pairs_keeps ((left, right) ∷ rest) edges added e h k =
      elim (Result-cases (add_cross_hazard relations left right edges)) [
        | inl (next, q) ↦
            visit_pairs_keeps rest next added e (ground arith)
              (add_cross_hazard_keeps left right edges next e q k)
        | inr (c, q) ↦ absurd (ground arith)
      ]

  Oriented-keeps :
      (left right : CrossAccess) (edges added : DependencyEdges) (resource : GpuWorkResourceId)
      → ((e : Edge) → has_edge e edges ≡ true → has_edge e added ≡ true)
      → Oriented relations edges resource left right
      → Oriented relations added resource left right
  Oriented-keeps left right edges added resource keeps (inl (l, r, h)) =
      inl (l, r, keeps (cross_edge left right) h)
  Oriented-keeps left right edges added resource keeps (inr (l, r, h)) =
      inr (l, r, keeps (cross_edge right left) h)

  visit_pairs-Oriented :
      (pairs : List CrossPair) (left right : CrossAccess) (edges added : DependencyEdges)
      (resource : GpuWorkResourceId) (region : GpuDependencyRegion)
      → visit_pairs relations pairs edges ≡ ok added
      → In {A = CrossPair} (left, right) pairs
      → access_intersection left.access right.access ≡ some (resource, region)
      → (writes left.access || writes right.access) ≡ true
      → Oriented relations added resource left right
  unfolding visit_pairs
  visit_pairs-Oriented [] left right edges added resource region h m e w = absurd m
  visit_pairs-Oriented ((l, r) ∷ rest) left right edges added resource region h m e w =
      elim (Result-cases (add_cross_hazard relations l r edges)) [
        | inl (next, q) ↦ elim m [
          | inl p ↦
              let first : add_cross_hazard relations left right edges ≡ ok next =
                subst (λ x. add_cross_hazard relations x.0 x.1 edges ≡ ok next) (sym p) q in
              Oriented-keeps left right next added resource
                (λ a k. visit_pairs_keeps rest next added a (ground arith) k)
                (add_cross_hazard-Oriented left right edges next resource region first e w)
          | inr k ↦
              visit_pairs-Oriented rest left right next added resource region (ground arith) k e w
        ]
        | inr (c, q) ↦ absurd (ground arith)
      ]

shared_resource :
    (left right : GpuResourceAccess) (resource : GpuWorkResourceId) (region : GpuDependencyRegion)
    → access_intersection left right ≡ some (resource, region)
    → resource ≡ resource_identity left
unfolding access_intersection
shared_resource left right resource region h = ground arith

-- When the loops return edges, two nodes of two fragments that access a common piece of one
-- resource, one of them writing it, are ordered: the relations hold for one direction of the
-- two fragments and that resource and not for the other, and there is an edge between the nodes
-- in that direction. (A texture is seen with the same planes by both accesses.)
pub infer_cross_fragment_hazards-Oriented :
    (fragments : List GpuWorkFragment) (relations : FragmentRelations)
    (edges added : DependencyEdges) (left right : GpuWorkFragment) (i j : ℕ) (n m : GpuWorkNode)
    (a b : GpuResourceAccess) (piece : Piece)
    → infer_cross_fragment_hazards fragments relations edges ≡ ok added
    → get_elem? fragments i ≡ some left
    → get_elem? fragments j ≡ some right
    → i < j
    → In n left.nodes
    → In m right.nodes
    → In a n.accesses
    → In b m.accesses
    → (writes a || writes b) ≡ true
    → IsChecked a
    → SameTexture a b
    → resource_identity a ≡ resource_identity b
    → Touches a piece
    → Touches b piece
    → Oriented relations added (resource_identity a) (at i n a) (at j m b)
unfolding infer_cross_fragment_hazards
infer_cross_fragment_hazards-Oriented fragments relations edges added left right i j n m a b piece h
      gi gj lt nl mr an bm w checked same id ta tb =
    elim (Option-cases (access_intersection a b)) [
      | inl e ↦ absurd (access_intersection-none a b piece checked same id e (ta, tb))
      | inr ((resource, region), e) ↦
          subst (λ r. Oriented relations added r (at i n a) (at j m b))
            (shared_resource a b resource region e)
            (visit_pairs-Oriented relations (cross_pairs 0 fragments) (at i n a) (at j m b) edges
              added resource region h
              (In-cross_pairs left right n m a b nl mr an bm 0 i j i j fragments (omega arith)
                (omega arith) gi gj lt)
              e w)
    ]
