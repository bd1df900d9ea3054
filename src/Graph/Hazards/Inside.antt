-- ===== src/Graph/Hazards/Inside.antt =====
-- All hazards inside one fragment get their edge: the loops of `infer_fragment_hazards` of
-- src/api/graph/hazards.rs.
use runen_gpu.Base.{
  ℕ, ◌≡◌, refl, sym, ap, subst, ◌⊎◌, inl, inr, true, false, List, [], ◌∷◌, ◌++◌, ok, arith, is_some,
  Bool-cases, Result-cases, In, In-append_left, In-append_right,
}
use mathlib.Core.Option.{get_or}
use runen_gpu.Base.Key.{key_eq_refl, key_eq_cases}
use runen_gpu.Base.SortedMap.{get, get-upsert}
use runen_gpu.Resource.{resource_id_key}
use runen_gpu.Access.Construct.{GpuResourceAccess, resource_identity}
use runen_gpu.Graph.Region.{access_intersection}
use runen_gpu.Graph.Identity.{Edge, edge_key}
use runen_gpu.Graph.Reason.{DependencyEdges}
use runen_gpu.Graph.Hazards.{
  Participant, is_sampler, add_hazard, visit_earlier, visit_accesses, AccessesByResource,
  earlier_accesses, record_access,
}
use runen_gpu.Graph.Hazards.Pair.{
  has_edge, edge_of, Conflicts, add_hazard-has_edge, add_hazard_keeps,
}

-- Two accesses that meet are of one resource, and neither is a sampler.
meet-resource_identity :
    (a b : GpuResourceAccess)
    → is_some (access_intersection a b) ≡ true
    → resource_identity a ≡ resource_identity b
unfolding access_intersection
meet-resource_identity a b h = elim (key_eq_cases (resource_identity a) (resource_identity b)) [
  | inl (e, p) ↦ p
  | inr (e, n) ↦ absurd (ground arith)
]

meet-is_sampler :
    (a b : GpuResourceAccess)
    → is_some (access_intersection a b) ≡ true
    → (is_sampler a ≡ false) × (is_sampler b ≡ false)
unfolding access_intersection
meet-is_sampler (GpuResourceAccess.sampler a) b h = absurd (ground arith)
meet-is_sampler a (GpuResourceAccess.sampler b) h = absurd (ground arith)
meet-is_sampler _ _ h = ground arith

visit_earlier_keeps :
    (i : ℕ) (later : Participant) (list : List Participant) (edges added : DependencyEdges)
    (e : Edge)
    → visit_earlier i later list edges ≡ ok added
    → has_edge e edges ≡ true
    → has_edge e added ≡ true
unfolding visit_earlier
visit_earlier_keeps i later [] edges added e h k = ground arith
visit_earlier_keeps i later (x ∷ rest) edges added e h k =
    elim (Result-cases (add_hazard i later x edges)) [
      | inl (next, p) ↦
          visit_earlier_keeps i later rest next added e (ground arith)
            (add_hazard_keeps i x later edges next e p k)
      | inr (c, p) ↦ absurd (ground arith)
    ]

visit_earlier-has_edge :
    (i : ℕ) (later earlier : Participant) (list : List Participant) (edges added : DependencyEdges)
    → visit_earlier i later list edges ≡ ok added
    → In earlier list
    → Conflicts earlier later
    → has_edge (edge_of i earlier later) added ≡ true
unfolding visit_earlier
visit_earlier-has_edge i later earlier [] edges added h m c = absurd m
visit_earlier-has_edge i later earlier (x ∷ rest) edges added h m c =
    elim (Result-cases (add_hazard i later x edges)) [
      | inr (f, p) ↦ absurd (ground arith)
      | inl (next, p) ↦ elim m [
        | inl same ↦
            let p' : add_hazard i later earlier edges ≡ ok next = rw same p in
            visit_earlier_keeps i later rest next added (edge_of i earlier later) (ground arith)
              (add_hazard-has_edge i earlier later edges next p' c)
        | inr there ↦ visit_earlier-has_edge i later earlier rest next added (ground arith) there c
      ]
    ]

-- `earlier` stands in the list of its resource.
abbrev Recorded : Participant → AccessesByResource → Type 0
Recorded earlier recorded = In earlier (earlier_accesses earlier recorded)

record_access_self :
    (p : Participant) (recorded : AccessesByResource) → Recorded p (record_access p recorded)
record_access_self p recorded =
    rw
      (
        get-upsert (resource_identity p.access) (resource_identity p.access) []
            (λ list. list ++ p ∷ []) recorded,
        key_eq_refl (resource_identity p.access),
      )
      (In-append_right p (earlier_accesses p recorded) (p ∷ []) (inl refl))

record_access_keeps :
    (p q : Participant) (recorded : AccessesByResource)
    → Recorded p recorded
    → Recorded p (record_access q recorded)
record_access_keeps p q recorded m =
    rw
      (get-upsert (resource_identity p.access) (resource_identity q.access) []
        (λ list. list ++ q ∷ []) recorded)
      (elim (key_eq_cases (resource_identity p.access) (resource_identity q.access)) [
        | inl (e, same) ↦ rw e (
            In-append_left p (earlier_accesses q recorded) (q ∷ [])
              (subst (λ r. In p (get_or (get r recorded) [])) same m))
        | inr (e, n) ↦ rw e m
      ])

-- `earlier` comes before `later` in the order of the loops.
abbrev pub Precedes : Participant → Participant → List Participant → Type 0
Precedes earlier later [] = ⊥
Precedes earlier later (p ∷ rest) = ((earlier ≡ p) × In later rest) ⊎ Precedes earlier later rest

pub visit_accesses_keeps :
    (i : ℕ) (list : List Participant) (recorded : AccessesByResource)
    (edges added : DependencyEdges) (e : Edge)
    → visit_accesses i list recorded edges ≡ ok added
    → has_edge e edges ≡ true
    → has_edge e added ≡ true
unfolding visit_accesses
visit_accesses_keeps i [] recorded edges added e h k = ground arith
visit_accesses_keeps i (p ∷ rest) recorded edges added e h k =
    elim (Bool-cases (is_sampler p.access)) [
      | inl s ↦ visit_accesses_keeps i rest recorded edges added e (ground arith) k
      | inr s ↦ elim (Result-cases (visit_earlier i p (earlier_accesses p recorded) edges)) [
        | inr (c, q) ↦ absurd (ground arith)
        | inl (next, q) ↦
            visit_accesses_keeps i rest (record_access p recorded) next added e (ground arith)
              (visit_earlier_keeps i p (earlier_accesses p recorded) edges next e q k)
      ]
    ]

-- A recorded access and a later one of the list that conflict get their edge.
visit_accesses-Recorded :
    (i : ℕ) (earlier later : Participant) (list : List Participant) (recorded : AccessesByResource)
    (edges added : DependencyEdges)
    → visit_accesses i list recorded edges ≡ ok added
    → Conflicts earlier later
    → Recorded earlier recorded
    → In later list
    → has_edge (edge_of i earlier later) added ≡ true
unfolding visit_accesses
visit_accesses-Recorded i earlier later [] recorded edges added h c r m = absurd m
visit_accesses-Recorded i earlier later (p ∷ rest) recorded edges added h c r m =
    elim (Bool-cases (is_sampler p.access)) [
      | inl s ↦ elim m [
        | inl same ↦ absurd (
            cc (
              s,
              ap (λ (x : Participant). is_sampler x.access) same,
              (meet-is_sampler earlier.access later.access c.meet).1,
            ))
        | inr there ↦
            visit_accesses-Recorded i earlier later rest recorded edges added (ground arith) c r
              there
      ]
      | inr s ↦ elim (Result-cases (visit_earlier i p (earlier_accesses p recorded) edges)) [
        | inr (f, q) ↦ absurd (ground arith)
        | inl (next, q) ↦ elim m [
          | inl same ↦
              visit_accesses_keeps i rest (record_access p recorded) next added
                (edge_of i earlier later) (ground arith)
                (met next (
                  subst (λ x. visit_earlier i x (earlier_accesses x recorded) edges ≡ ok next)
                    (sym same) q))
          | inr there ↦
              visit_accesses-Recorded i earlier later rest (record_access p recorded) next added
                (ground arith) c (record_access_keeps earlier p recorded r) there
        ]
      ]
    ]
  where
    met :
        (next : DependencyEdges)
        → visit_earlier i later (earlier_accesses later recorded) edges ≡ ok next
        → has_edge (edge_of i earlier later) next ≡ true
    met next q =
        visit_earlier-has_edge i later earlier (earlier_accesses later recorded) edges next q
          (subst (λ r'. In earlier (get_or (get r' recorded) []))
            (meet-resource_identity earlier.access later.access c.meet) r)
          c

pub visit_accesses-has_edge :
    (i : ℕ) (earlier later : Participant) (list : List Participant) (recorded : AccessesByResource)
    (edges added : DependencyEdges)
    → visit_accesses i list recorded edges ≡ ok added
    → Conflicts earlier later
    → Precedes earlier later list
    → has_edge (edge_of i earlier later) added ≡ true
unfolding visit_accesses
visit_accesses-has_edge i earlier later [] recorded edges added h c p = absurd p
visit_accesses-has_edge i earlier later (x ∷ rest) recorded edges added h c p =
    elim (Bool-cases (is_sampler x.access)) [
      | inl s ↦ elim p [
        | inl (same, m) ↦ absurd (
            cc (
              s,
              ap (λ (x : Participant). is_sampler x.access) same,
              (meet-is_sampler earlier.access later.access c.meet).0,
            ))
        | inr there ↦
            visit_accesses-has_edge i earlier later rest recorded edges added (ground arith) c there
      ]
      | inr s ↦ elim (Result-cases (visit_earlier i x (earlier_accesses x recorded) edges)) [
        | inr (f, q) ↦ absurd (ground arith)
        | inl (next, q) ↦ elim p [
          | inl (same, m) ↦
              visit_accesses-Recorded i earlier later rest (record_access x recorded) next added
                (ground arith) c
                (subst (λ y. Recorded earlier (record_access y recorded)) same
                  (record_access_self earlier recorded))
                m
          | inr there ↦
              visit_accesses-has_edge i earlier later rest (record_access x recorded) next added
                (ground arith) c there
        ]
      ]
    ]
