-- ===== src/Graph/Topology/Before.antt =====
-- One node before another in an order, and lists that grow at their end.
use runen_gpu.Base.{
  suc, ◌≡◌, refl, sym, ◌⊎◌, inl, inr, ◌↔◌, List, [], ◌∷◌, ◌++◌, arith, length, In, In-append,
  In-append_left, In-append_right, Distinct,
}
use runen_gpu.Graph.Identity.{GpuPreparedWorkNodeId}

-- `b` stands before `a` in a list.
abbrev pub Before :
    GpuPreparedWorkNodeId → GpuPreparedWorkNodeId → List GpuPreparedWorkNodeId → Type 0
Before b a [] = ⊥
Before b a (x ∷ xs) = ((b ≡ x) × In a xs) ⊎ Before b a xs

pub Before-In :
    (b a : GpuPreparedWorkNodeId) (xs : List GpuPreparedWorkNodeId) → Before b a xs → In b xs
Before-In b a [] h = absurd h
Before-In b a (x ∷ xs) (inl h) = inl h.0
Before-In b a (x ∷ xs) (inr h) = inr (Before-In b a xs h)

pub Before-snoc_old :
    (b a n : GpuPreparedWorkNodeId) (xs : List GpuPreparedWorkNodeId)
    → Before b a xs
    → Before b a (xs ++ n ∷ [])
Before-snoc_old b a n [] h = absurd h
Before-snoc_old b a n (x ∷ xs) (inl h) = inl (h.0, In-append_left a xs (n ∷ []) h.1)
Before-snoc_old b a n (x ∷ xs) (inr h) = inr (Before-snoc_old b a n xs h)

pub Before-snoc_new :
    (b n : GpuPreparedWorkNodeId) (xs : List GpuPreparedWorkNodeId)
    → In b xs
    → Before b n (xs ++ n ∷ [])
Before-snoc_new b n [] h = absurd h
Before-snoc_new b n (x ∷ xs) (inl h) = inl (h, In-append_right n xs (n ∷ []) (inl refl))
Before-snoc_new b n (x ∷ xs) (inr h) = inr (Before-snoc_new b n xs h)

pub In-snoc :
    (a n : GpuPreparedWorkNodeId) (xs : List GpuPreparedWorkNodeId)
    → In a (xs ++ n ∷ []) ↔ (In a xs ⊎ (a ≡ n))
In-snoc a n xs = (
  λ h. elim (In-append a xs (n ∷ []) h) [
    | inl l ↦ inl l
    | inr (inl e) ↦ inr e
    | inr (inr k) ↦ absurd k
  ],
  λ h. elim h [
    | inl l ↦ In-append_left a xs (n ∷ []) l
    | inr e ↦ In-append_right a xs (n ∷ []) (inl e)
  ],
)

pub Distinct-snoc :
    (n : GpuPreparedWorkNodeId) (xs : List GpuPreparedWorkNodeId)
    → Distinct xs
    → (¬ In n xs)
    → Distinct (xs ++ n ∷ [])
Distinct-snoc n [] d k = ((λ h. h), tt)
Distinct-snoc n (x ∷ xs) d k = (
  λ h. elim ((In-snoc x n xs).0 h) [ inl l ↦ d.0 l | inr e ↦ k (inl (sym e)) ],
  Distinct-snoc n xs d.1 (λ m. k (inr m)),
)

pub length-snoc :
    (n : GpuPreparedWorkNodeId) (xs : List GpuPreparedWorkNodeId)
    → length (xs ++ n ∷ []) ≡ suc (length xs)
length-snoc n [] = refl
length-snoc n (x ∷ xs) = omega (arith, length-snoc n xs)

pub Before-In_end :
    (b a : GpuPreparedWorkNodeId) (xs : List GpuPreparedWorkNodeId) → Before b a xs → In a xs
Before-In_end b a [] h = absurd h
Before-In_end b a (x ∷ xs) (inl h) = inr h.1
Before-In_end b a (x ∷ xs) (inr h) = inr (Before-In_end b a xs h)
