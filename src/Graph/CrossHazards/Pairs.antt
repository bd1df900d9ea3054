-- ===== src/Graph/CrossHazards/Pairs.antt =====
-- Which pairs the six loops of `infer_cross_fragment_hazards` visit.
use runen_gpu.Base.{
  ℕ, zero, suc, ◌+◌, ◌<◌, ◌≡◌, List, [], ◌∷◌, map, some, arith, flat_map, enumerate, In,
  In-append_left, In-append_right, In-map, In-flat_map, In-enumerate, get_elem?,
}
use runen_gpu.Access.Construct.{GpuResourceAccess}
use runen_gpu.Graph.Fragment.{GpuWorkNode, GpuWorkFragment}
use runen_gpu.Graph.CrossHazards.{CrossPair, at, inner_pairs, cross_pairs}

In-inner_pairs :
    (i j : ℕ) (left right : GpuWorkFragment) (n m : GpuWorkNode) (a b : GpuResourceAccess)
    → In n left.nodes
    → In m right.nodes
    → In a n.accesses
    → In b m.accesses
    → In {A = CrossPair} (at i n a, at j m b) (inner_pairs i left j right)
unfolding inner_pairs
In-inner_pairs i j left right n m a b nl mr an bm =
    In-flat_map
      (λ n.
        flat_map (λ m. flat_map (λ a. map (λ b. (at i n a, at j m b)) m.accesses) n.accesses)
          right.nodes)
      n (at i n a, at j m b) left.nodes nl
      (In-flat_map (λ m. flat_map (λ a. map (λ b. (at i n a, at j m b)) m.accesses) n.accesses) m
        (at i n a, at j m b) right.nodes mr
        (In-flat_map (λ a. map (λ b. (at i n a, at j m b)) m.accesses) a (at i n a, at j m b)
          n.accesses an (In-map (λ b. (at i n a, at j m b)) b m.accesses bm)))

module _ (left right : GpuWorkFragment) (n m : GpuWorkNode) (a b : GpuResourceAccess)
    (nl : In n left.nodes) (mr : In m right.nodes) (an : In a n.accesses)
    (bm : In b m.accesses) where
  In-first :
      (base j : ℕ) (rest : List GpuWorkFragment)
      → get_elem? rest j ≡ some right
      → In {A = CrossPair} (at base n a, at (suc base + j) m b) (cross_pairs base (left ∷ rest))
  unfolding cross_pairs
  In-first base j rest g =
      In-append_left (at base n a, at (suc base + j) m b)
        (flat_map (λ r. inner_pairs base left r.0 r.1) (enumerate (suc base) rest))
        (cross_pairs (suc base) rest)
        (In-flat_map {A = ℕ × GpuWorkFragment} (λ r. inner_pairs base left r.0 r.1)
          (suc base + j, right) (at base n a, at (suc base + j) m b) (enumerate (suc base) rest)
          (In-enumerate (suc base) j right rest g)
          (In-inner_pairs base (suc base + j) left right n m a b nl mr an bm))

  -- Two accesses of nodes of two fragments are visited, that of the earlier fragment on the left.
  pub In-cross_pairs :
      (base i j k l : ℕ) (fragments : List GpuWorkFragment)
      → k ≡ base + i
      → l ≡ base + j
      → get_elem? fragments i ≡ some left
      → get_elem? fragments j ≡ some right
      → i < j
      → In {A = CrossPair} (at k n a, at l m b) (cross_pairs base fragments)
  unfolding cross_pairs
  In-cross_pairs base i j k l [] p q gi gj lt = absurd (cc gi)
  In-cross_pairs base i zero k l (x ∷ xs) p q gi gj lt = absurd (omega arith)
  In-cross_pairs base zero (suc j) k l (x ∷ xs) p q gi gj lt =
      let first : k ≡ base = omega arith in
      let second : l ≡ suc base + j = omega arith in
      let same : x ≡ left = cc gi in rw (first, second, same) (In-first base j xs gj)
  In-cross_pairs base (suc i) (suc j) k l (x ∷ xs) p q gi gj lt =
      In-append_right (at k n a, at l m b)
        (flat_map (λ r. inner_pairs base x r.0 r.1) (enumerate (suc base) xs))
        (cross_pairs (suc base) xs)
        (In-cross_pairs (suc base) i j k l xs (omega arith) (omega arith) gi gj (omega arith))
