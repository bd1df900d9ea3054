-- ===== src/Graph/Explicit/Endpoints.antt =====
-- `resolve_graph_order_endpoint` finds the one fragment that allocated a node.
use runen_gpu.Base.{
  ℕ, suc, ◌+◌, ◌∙◌, ◌≡◌, refl, sym, ap, subst, inl, inr, ◌↔◌, Bool, true, List, [], ◌∷◌, some, ok,
  arith, Bool-cases, Option-cases, In, filter, enumerate, get_elem?, In-enumerate, ltb, u32_mod,
}
use runen_gpu.Graph.Identity.{GpuWorkNodeId, belongs_to, node_eq}
use runen_gpu.Graph.Fragment.{GpuWorkNode, GpuWorkFragment, prepared_node_id}
use runen_gpu.Graph.Hazards.Pair.{node_id}
use runen_gpu.Graph.Explicit.{
  find_node, ResolvedEndpoint, matching_fragments, resolve_graph_order_endpoint,
}

node_eq_sound : (a b : GpuWorkNodeId) → node_eq a b ≡ true → a ≡ b
unfolding node_eq
node_eq_sound a b h = ground arith

pub find_node_sound :
    (id : GpuWorkNodeId) (nodes : List GpuWorkNode) (n : GpuWorkNode)
    → find_node id nodes ≡ some n
    → In n nodes × (n.id ≡ id)
find_node_sound id [] n h = absurd (cc h)
find_node_sound id (x ∷ xs) n h = elim (Bool-cases (node_eq x.id id)) [
  | inl e ↦
      let same : x ≡ n = ground arith in
      (inl (sym same), sym (ap (λ y. y.id) same) ∙ node_eq_sound x.id id e)
  | inr e ↦ let (i, k) = find_node_sound id xs n (ground arith) in (inr i, k)
]

module _ (p : ℕ × GpuWorkFragment → Bool) where
  filter-In :
      (a : ℕ × GpuWorkFragment) (xs : List (ℕ × GpuWorkFragment))
      → In a (filter p xs) ↔ (In a xs × (p a ≡ true))
  filter-In a [] = ground arith
  filter-In a (x ∷ xs) = elim (Bool-cases (p x)) [
    | inl e ↦ rw e (
      λ h. elim h [
        | inl q ↦ (inl q, subst (λ y. p y ≡ true) (sym q) e)
        | inr m ↦ let (k, t) = (filter-In a xs).0 m in (inr k, t)
      ],
      λ h. elim h.0 [ inl q ↦ inl q | inr m ↦ inr ((filter-In a xs).1 (m, h.1)) ],
    )
    | inr e ↦ rw e (
      λ h. let (k, t) = (filter-In a xs).0 h in (inr k, t),
      λ h. elim h.0 [ inl q ↦ absurd (cc (h.1, ap p q, e)) | inr m ↦ (filter-In a xs).1 (m, h.1) ],
    )
  ]

enumerate-get_elem? :
    (base : ℕ) (a : ℕ × GpuWorkFragment) (xs : List GpuWorkFragment)
    → In a (enumerate base xs)
    → (k : ℕ) × (a.0 ≡ base + k) × (get_elem? xs k ≡ some a.1)
enumerate-get_elem? base a [] i = absurd i
enumerate-get_elem? base a (x ∷ xs) (inl e) = (0, ground arith, ground arith)
enumerate-get_elem? base a (x ∷ xs) (inr i) =
    let (k, e, g) = enumerate-get_elem? (suc base) a xs i in (suc k, omega arith, g)

zero_plus : (k : ℕ) → 0 + k ≡ k
zero_plus k = omega arith

matching_iff :
    (endpoint : GpuWorkNodeId) (fragments : List GpuWorkFragment) (i : ℕ) (f : GpuWorkFragment)
    → In {A = ℕ × GpuWorkFragment} (i, f) (matching_fragments endpoint fragments)
      ↔ ((get_elem? fragments i ≡ some f) × (belongs_to endpoint f.identity ≡ true))
matching_iff endpoint fragments i f = (
  λ h.
      let (m, t) =
        (filter-In (λ x. belongs_to endpoint x.1.identity) (i, f) (enumerate 0 fragments)).0 h in
      let (k, e, g) = enumerate-get_elem? 0 (i, f) fragments m in
      (subst (λ j. get_elem? fragments j ≡ some f) (sym (e ∙ zero_plus k)) g, t),
  λ h. (filter-In (λ x. belongs_to endpoint x.1.identity) (i, f) (enumerate 0 fragments)).1 (
    subst (λ j. In {A = ℕ × GpuWorkFragment} (j, f) (enumerate 0 fragments)) (zero_plus i)
        (In-enumerate 0 i f fragments h.0),
    h.1,
  ),
)

-- What a resolved endpoint is: the node of the one fragment to which the endpoint belongs.
pub record IsResolved (fragments : List GpuWorkFragment) (endpoint : GpuWorkNodeId)
    (r : ResolvedEndpoint) : Type 0 where
  pub fragment_there : get_elem? fragments r.fragment_index ≡ some r.fragment
  pub node_In : In r.node r.fragment.nodes
  pub node_is : r.node.id ≡ endpoint
  pub prepared_is : r.prepared ≡ node_id r.fragment_index r.node
  pub only :
      (j : ℕ) (g : GpuWorkFragment)
      → get_elem? fragments j ≡ some g
      → belongs_to endpoint g.identity ≡ true
      → j ≡ r.fragment_index

resolved_in :
    (fragments : List GpuWorkFragment) (endpoint : GpuWorkNodeId) (r : ResolvedEndpoint)
    (found : List (ℕ × GpuWorkFragment))
    → matching_fragments endpoint fragments ≡ found
    → resolve_graph_order_endpoint fragments endpoint ≡ ok r
    → (found ≡ (r.fragment_index, r.fragment) ∷ [])
      × (find_node endpoint r.fragment.nodes ≡ some r.node)
      × (r.prepared ≡ node_id r.fragment_index r.node)
unfolding resolve_graph_order_endpoint prepared_node_id
resolved_in fragments endpoint r [] e h = absurd (ground arith)
resolved_in fragments endpoint r ((i, f) ∷ x ∷ xs) e h = absurd (ground arith)
resolved_in fragments endpoint r ((i, f) ∷ []) e h =
    elim (Option-cases (find_node endpoint f.nodes)) [
      | inl n ↦ absurd (ground arith)
      | inr (n, k) ↦ elim (Bool-cases (ltb i u32_mod)) [
        | inl b ↦
            let same : record { fragment_index = i; fragment = f; node = n; prepared = node_id i n }
                ≡ r =
              ground arith in
            subst
              (λ q.
                (◌≡◌ {A = List (ℕ × GpuWorkFragment)} ((i, f) ∷ [])
                  ((q.fragment_index, q.fragment) ∷ []))
                × (find_node endpoint q.fragment.nodes ≡ some q.node)
                × (q.prepared ≡ node_id q.fragment_index q.node))
              same (refl, k, refl)
        | inr b ↦ absurd (ground arith)
      ]
    ]

-- A node that resolves is the node of that name in the one fragment to which the name belongs, and
-- its prepared identity has the number of that fragment.
pub resolve_graph_order_endpoint-IsResolved :
    (fragments : List GpuWorkFragment) (endpoint : GpuWorkNodeId) (r : ResolvedEndpoint)
    → resolve_graph_order_endpoint fragments endpoint ≡ ok r
    → IsResolved fragments endpoint r
resolve_graph_order_endpoint-IsResolved fragments endpoint r h =
    let (m, f, p) =
      resolved_in fragments endpoint r (matching_fragments endpoint fragments) refl h in
    let (i, e) = find_node_sound endpoint r.fragment.nodes r.node f in
    record {
      fragment_there =
          ((matching_iff endpoint fragments r.fragment_index r.fragment).0 (
            subst (In {A = ℕ × GpuWorkFragment} (r.fragment_index, r.fragment)) (sym m)
              (inl refl))).0;
      node_In = i;
      node_is = e;
      prepared_is = p;
      only = λ j g k b.
          elim (subst (In {A = ℕ × GpuWorkFragment} (j, g)) m
            ((matching_iff endpoint fragments j g).1 (k, b))) [
              | inl q ↦ ap (λ x. x.0) q
              | inr q ↦ absurd q
            ];
    }
