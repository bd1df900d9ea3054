-- ===== src/Graph/Hazards/Fragments.antt =====
-- The hazards of every fragment, stated over nodes and the pieces that their accesses touch:
-- `infer_fragment_hazards` of src/api/graph/hazards.rs.
use runen_gpu.Base.{
  ℕ, suc, zero, ◌+◌, ◌<◌, ◌≡◌, refl, ap, inl, inr, true, List, [], ◌∷◌, ◌++◌, Option, none, some,
  ok, arith, is_some, Result-cases, In, In-append_left, In-append_right, get_elem?,
}
use runen_gpu.Access.Construct.{GpuResourceAccess, resource_identity}
use runen_gpu.Graph.Region.{access_intersection}
use runen_gpu.Graph.Region.Laws.{Piece, Touches, IsChecked, SameTexture}
use runen_gpu.Graph.Region.Complete.{access_intersection-none}
use runen_gpu.Graph.Identity.{Edge, edge_key}
use runen_gpu.Graph.Reason.{DependencyEdges}
use runen_gpu.Graph.Fragment.{GpuWorkNode, GpuWorkFragment}
use runen_gpu.Graph.Hazards.{
  Participant, participants, of_node, visit_accesses, infer_fragments_from, infer_fragment_hazards,
}
use runen_gpu.Graph.Hazards.Pair.{has_edge, edge_of, node_id, is_hazard, Conflicts}
use runen_gpu.Graph.Hazards.Inside.{Precedes, visit_accesses_keeps, visit_accesses-has_edge}

abbrev participant : ℕ → GpuWorkNode → GpuResourceAccess → Participant
participant i n a = record { index = i; node = n; access = a }

In-of_node :
    (i : ℕ) (n : GpuWorkNode) (a : GpuResourceAccess) (list : List GpuResourceAccess)
    → In a list
    → In (participant i n a) (of_node i n list)
In-of_node i n a [] m = absurd m
In-of_node i n a (x ∷ xs) (inl e) = inl (ap (participant i n) e)
In-of_node i n a (x ∷ xs) (inr m) = inr (In-of_node i n a xs m)

-- The accesses of the first node, under the number that the loop has reached.
first_node :
    (base at : ℕ) (n x : GpuWorkNode) (a : GpuResourceAccess)
    → at ≡ base + 0
    → x ≡ n
    → In a n.accesses
    → In (participant at n a) (of_node base x x.accesses)
first_node base at n x a e same m =
    let here : at ≡ base = omega arith in rw (here, same) (In-of_node base n a n.accesses m)

In-participants :
    (base at i : ℕ) (n : GpuWorkNode) (a : GpuResourceAccess) (nodes : List GpuWorkNode)
    → at ≡ base + i
    → get_elem? nodes i ≡ some n
    → In a n.accesses
    → In (participant at n a) (participants base nodes)
In-participants base at i n a [] e g m = absurd (ground arith)
In-participants base at zero n a (x ∷ xs) e g m =
    In-append_left (participant at n a) (of_node base x x.accesses) (participants (base + 1) xs)
      (first_node base at n x a e (cc) m)
In-participants base at (suc i) n a (x ∷ xs) e g m =
    In-append_right (participant at n a) (of_node base x x.accesses) (participants (base + 1) xs)
      (In-participants (base + 1) at i n a xs (omega arith) g m)

Precedes-append :
    (p q : Participant) (xs ys : List Participant) → Precedes p q ys → Precedes p q (xs ++ ys)
Precedes-append p q [] ys h = h
Precedes-append p q (x ∷ xs) ys h = inr (Precedes-append p q xs ys h)

Precedes-across :
    (p q : Participant) (xs ys : List Participant) → In p xs → In q ys → Precedes p q (xs ++ ys)
Precedes-across p q [] ys m n = absurd m
Precedes-across p q (x ∷ xs) ys (inl e) n = inl (e, In-append_right q xs ys n)
Precedes-across p q (x ∷ xs) ys (inr m) n = inr (Precedes-across p q xs ys m n)

Precedes-participants :
    (base p q i j : ℕ) (n m : GpuWorkNode) (a b : GpuResourceAccess) (nodes : List GpuWorkNode)
    → p ≡ base + i
    → q ≡ base + j
    → i < j
    → get_elem? nodes i ≡ some n
    → get_elem? nodes j ≡ some m
    → In a n.accesses
    → In b m.accesses
    → Precedes (participant p n a) (participant q m b) (participants base nodes)
Precedes-participants base p q i j n m a b [] e f lt g h k l = absurd (ground arith)
Precedes-participants base p q i zero n m a b (x ∷ xs) e f lt g h k l = elim lt [ ]
Precedes-participants base p q zero (suc j) n m a b (x ∷ xs) e f lt g h k l =
    Precedes-across (participant p n a) (participant q m b) (of_node base x x.accesses)
      (participants (base + 1) xs) (first_node base p n x a e (cc) k)
      (In-participants (base + 1) q j m b xs (omega arith) h l)
Precedes-participants base p q (suc i) (suc j) n m a b (x ∷ xs) e f lt g h k l =
    Precedes-append (participant p n a) (participant q m b) (of_node base x x.accesses)
      (participants (base + 1) xs)
      (Precedes-participants (base + 1) p q i j n m a b xs (omega arith) (omega arith) (omega arith)
        g h k l)

infer_keeps :
    (i : ℕ) (fragments : List GpuWorkFragment) (edges added : DependencyEdges) (e : Edge)
    → infer_fragments_from i fragments edges ≡ ok added
    → has_edge e edges ≡ true
    → has_edge e added ≡ true
unfolding infer_fragments_from
infer_keeps i [] edges added e h k = ground arith
infer_keeps i (fragment ∷ rest) edges added e h k =
    elim (Result-cases (visit_accesses i (participants 0 fragment.nodes) [] edges)) [
      | inr (c, q) ↦ absurd (ground arith)
      | inl (next, q) ↦
          infer_keeps (i + 1) rest next added e (ground arith)
            (visit_accesses_keeps i (participants 0 fragment.nodes) [] edges next e q k)
    ]

infer-has_edge :
    (base at k : ℕ) (fragments : List GpuWorkFragment) (edges added : DependencyEdges)
    (fragment : GpuWorkFragment) (earlier later : Participant)
    → at ≡ base + k
    → infer_fragments_from base fragments edges ≡ ok added
    → get_elem? fragments k ≡ some fragment
    → Conflicts earlier later
    → Precedes earlier later (participants 0 fragment.nodes)
    → has_edge (edge_of at earlier later) added ≡ true
unfolding infer_fragments_from
infer-has_edge base at k [] edges added fragment earlier later e h g c p = absurd (ground arith)
infer-has_edge base at zero (x ∷ rest) edges added fragment earlier later e h g c p =
    elim (Result-cases (visit_accesses base (participants 0 x.nodes) [] edges)) [
      | inr (f, q) ↦ absurd (ground arith)
      | inl (next, q) ↦
          let here : base ≡ at = omega arith in
          let same : x ≡ fragment = cc in
          infer_keeps (base + 1) rest next added (edge_of at earlier later) (ground arith) (
            rw (← here) (
              visit_accesses-has_edge base earlier later (participants 0 x.nodes) [] edges next q c
                (rw same p)))
    ]
infer-has_edge base at (suc k) (x ∷ rest) edges added fragment earlier later e h g c p =
    elim (Result-cases (visit_accesses base (participants 0 x.nodes) [] edges)) [
      | inr (f, q) ↦ absurd (ground arith)
      | inl (next, q) ↦
          infer-has_edge (base + 1) at k rest next added fragment earlier later (omega arith)
            (ground arith) g c p
    ]

-- Whenever two nodes of one fragment access a common piece of one resource, one of them writing
-- it and the other reading or writing it, the graph gets an edge from the node authored first to
-- the other. (A texture is seen with the same planes by both accesses.)
pub infer_fragment_hazards-has_edge :
    (fragments : List GpuWorkFragment) (edges added : DependencyEdges) (fragment : GpuWorkFragment)
    (k i j : ℕ) (n m : GpuWorkNode) (a b : GpuResourceAccess) (piece : Piece)
    → infer_fragment_hazards fragments edges ≡ ok added
    → get_elem? fragments k ≡ some fragment
    → get_elem? fragment.nodes i ≡ some n
    → get_elem? fragment.nodes j ≡ some m
    → i < j
    → In a n.accesses
    → In b m.accesses
    → is_hazard a b ≡ true
    → IsChecked a
    → SameTexture a b
    → resource_identity a ≡ resource_identity b
    → Touches a piece
    → Touches b piece
    → has_edge (node_id k n, node_id k m) added ≡ true
unfolding infer_fragment_hazards
infer_fragment_hazards-has_edge fragments edges added fragment k i j n m a b piece h g gi gj lt ma
      mb hazard checked same id ta tb =
    infer-has_edge 0 k k fragments edges added fragment (participant i n a) (participant j m b)
      (omega arith) h g
      (record { apart = omega arith; hazard = hazard; meet = meets (access_intersection a b) refl })
      (Precedes-participants 0 i j i j n m a b fragment.nodes (omega arith) (omega arith) lt gi gj
        ma mb)
  where
    meets : (o : Option _) → access_intersection a b ≡ o → is_some (access_intersection a b) ≡ true
    meets none e = absurd (access_intersection-none a b piece checked same id e (ta, tb))
    meets (some r) e = rw e
