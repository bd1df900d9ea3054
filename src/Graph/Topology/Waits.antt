-- ===== src/Graph/Topology/Waits.antt =====
-- How many predecessors of a node are not ordered yet: what the degrees of
-- `topological_node_order` count.
use runen_gpu.Base.{
  ℕ, suc, ◌+◌, ◌<◌, ◌≡◌, refl, sym, ap, subst, inl, inr, Bool, true, false, not, ◌&&◌, ◌||◌, List,
  [], ◌∷◌, ◌++◌, arith, if◌then◌else◌, In, Distinct, Bool-cases,
}
use runen_gpu.Base.Key.{Key, key_eq, key_eq_refl, key_eq_cases, key_eq_sound}
use runen_gpu.Base.SortedSet.{contains, contains_cases, contains-In, In-contains}
use runen_gpu.Graph.Identity.{GpuPreparedWorkNodeId, prepared_id_key, Edge, edge_key}

pub waits : GpuPreparedWorkNodeId → List GpuPreparedWorkNodeId → List Edge → ℕ
waits a ordered [] = 0
waits a ordered ((b, c) ∷ es) =
    let rest = waits a ordered es in
    if key_eq c a && not (contains b ordered) then suc rest else rest

pub waits-nil :
    (a : GpuPreparedWorkNodeId) (ordered : List GpuPreparedWorkNodeId) → waits a ordered [] ≡ 0
unfolding waits
waits-nil a ordered = refl

pub waits-first :
    (a b c : GpuPreparedWorkNodeId) (es : List Edge)
    → waits a [] ((b, c) ∷ es) ≡ (if key_eq c a then suc (waits a [] es) else waits a [] es)
unfolding waits contains
waits-first a b c es = ground arith

abbrev pub one_if : Bool → ℕ
one_if true = 1
one_if false = 0

contains-snoc :
    (b n : GpuPreparedWorkNodeId) (xs : List GpuPreparedWorkNodeId)
    → contains b (xs ++ n ∷ []) ≡ (contains b xs || key_eq b n)
unfolding contains
contains-snoc b n [] = ground arith
contains-snoc b n (x ∷ xs) = ground (arith, contains-snoc b n xs)

edge_eq :
    (n a b c : GpuPreparedWorkNodeId) → key_eq {A = Edge} (n, a) (b, c) ≡ (key_eq n b && key_eq a c)
edge_eq n a b c = elim (key_eq_cases {A = Edge} (n, a) (b, c)) [
  | inl (e, p) ↦ ground (arith, key_eq_refl b, key_eq_refl c)
  | inr (e, q) ↦ ground (arith, key_eq_sound n b, key_eq_sound a c)
]

pub In-false : {A : Type 0} ⦃k : Key A⦄ (a : A) (xs : List A) → (¬ In a xs) → contains a xs ≡ false
In-false a xs n = elim (contains_cases a xs) [ inl (e, m) ↦ absurd (n m) | inr (e, q) ↦ e ]

-- Ordering `n` takes one from each node that waits for it.
pub waits-snoc :
    (a n : GpuPreparedWorkNodeId) (ordered : List GpuPreparedWorkNodeId) (es : List Edge)
    → (¬ In n ordered)
    → Distinct es
    → waits a (ordered ++ n ∷ []) es + one_if (contains {A = Edge} (n, a) es) ≡ waits a ordered es
unfolding waits contains
waits-snoc a n ordered [] fresh d = omega arith
waits-snoc a n ordered ((b, c) ∷ es) fresh d = elim (key_eq_cases {A = Edge} (n, a) (b, c)) [
  | inl (e, p) ↦
      let absent : contains {A = Edge} (n, a) es ≡ false =
        In-false {A = Edge} (n, a) es (subst (λ x. ¬ In {A = Edge} x es) (sym p) d.0) in
      let apart : contains b ordered ≡ false =
        subst (λ x. contains x ordered ≡ false) (ap (λ x. x.0) p) (In-false n ordered fresh) in
      ground (
        arith,
        e,
        absent,
        apart,
        contains-snoc b n ordered,
        edge_eq n a b c,
        key_eq_cases b n,
        key_eq_cases n b,
        key_eq_cases c a,
        key_eq_cases a c,
        waits-snoc a n ordered es fresh d.1,
      )
  | inr (e, q) ↦ ground (
    arith,
    contains-snoc b n ordered,
    edge_eq n a b c,
    key_eq_cases b n,
    key_eq_cases n b,
    key_eq_cases c a,
    key_eq_cases a c,
    waits-snoc a n ordered es fresh d.1,
  )
]

-- A node that waits for nobody has all its predecessors ordered.
pub waits-zero :
    (a b : GpuPreparedWorkNodeId) (ordered : List GpuPreparedWorkNodeId) (es : List Edge)
    → waits a ordered es ≡ 0
    → In {A = Edge} (b, a) es
    → In b ordered
unfolding waits
waits-zero a b ordered [] w m = absurd m
waits-zero a b ordered ((x, c) ∷ es) w (inl e) =
    contains-In b ordered (ground (arith, key_eq_refl a))
waits-zero a b ordered ((x, c) ∷ es) w (inr m) = waits-zero a b ordered es (ground arith) m

-- A node that waits has a predecessor that is not ordered.
pub waits_pos :
    (a : GpuPreparedWorkNodeId) (ordered : List GpuPreparedWorkNodeId) (es : List Edge)
    → 0 < waits a ordered es
    → (b : GpuPreparedWorkNodeId) × In {A = Edge} (b, a) es × (¬ In b ordered)
unfolding waits
waits_pos a ordered [] w = absurd (omega arith)
waits_pos a ordered ((x, c) ∷ es) w = elim (Bool-cases (key_eq c a && not (contains x ordered))) [
  | inl e ↦
      (x, inl (ground (arith, key_eq_sound c a)), λ m. cc (In-contains x ordered m, outside e))
  | inr e ↦ let (b, m, n) = waits_pos a ordered es (ground arith) in (b, inr m, n)
]
  where
    outside : (key_eq c a && not (contains x ordered)) ≡ true → contains x ordered ≡ false
    outside e = ground arith
