-- ===== src/Graph/Topology/Release.antt =====
-- One round of the ordering loop of `topological_node_order`: what `release` does to the degrees
-- and to the set of ready nodes.
use runen_gpu.Base.{
  ℕ, suc, ◌-◌, ◌∙◌, ◌≡◌, ◌≢◌, refl, sym, subst, ◌⊎◌, inl, inr, ◌↔◌, true, false, List, [], ◌∷◌,
  some, arith, if◌then◌else◌, ◌==◌, In, Distinct, Bool-cases,
}
use mathlib.Core.Option
use runen_gpu.Base.Key.{key_eq, key_eq_cases}
use runen_gpu.Base.SortedSet.{contains, contains_cases, insert, In-insert, Distinct-insert}
use runen_gpu.Base.SortedMap.{get, modify, keys, keys-modify, get-modify}
use runen_gpu.Graph.Identity.{GpuPreparedWorkNodeId, prepared_id_key}
use runen_gpu.Graph.Topology.{Indegree, release}

abbrev pub Positive : List GpuPreparedWorkNodeId → Indegree → Type 0
Positive ds degrees =
    (a : GpuPreparedWorkNodeId) → In a ds → (m : ℕ) × (get a degrees ≡ some (suc m))

pub record Released (ds : List GpuPreparedWorkNodeId) (degrees : Indegree)
    (ready : List GpuPreparedWorkNodeId) (next : Indegree) (woken : List GpuPreparedWorkNodeId)
    : Type 0 where
  pub lowered :
      (a : GpuPreparedWorkNodeId)
      → get a next
        ≡ (if contains a ds then Option.map (λ d. d - 1) (get a degrees) else get a degrees)
  pub woken_iff :
      (a : GpuPreparedWorkNodeId) → In a woken ↔ (In a ready ⊎ (In a ds × (get a degrees ≡ some 1)))
  pub same_keys : keys next ≡ keys degrees
  pub distinct : Distinct ready → Distinct woken

abbrev wake : GpuPreparedWorkNodeId → ℕ → List GpuPreparedWorkNodeId → List GpuPreparedWorkNodeId
wake d m ready = if m == 0 then insert d ready else ready

Distinct-wake :
    (d : GpuPreparedWorkNodeId) (m : ℕ) (ready : List GpuPreparedWorkNodeId)
    → Distinct ready
    → Distinct (wake d m ready)
Distinct-wake d m ready h = elim (Bool-cases (m == 0)) [
  | inl e ↦ rw e (Distinct-insert d ready h)
  | inr e ↦ rw e h
]

In-wake :
    (a d : GpuPreparedWorkNodeId) (m : ℕ) (ready : List GpuPreparedWorkNodeId)
    → In a (wake d m ready) ↔ (In a ready ⊎ ((a ≡ d) × (m ≡ 0)))
In-wake a d m ready = ground (arith, In-insert a d ready)

module _ (x : GpuPreparedWorkNodeId) (ds : List GpuPreparedWorkNodeId) (degrees : Indegree) where
  abbrev lower : Indegree
  lower = modify x (λ d. d - 1) degrees

  get-lower :
      (a : GpuPreparedWorkNodeId)
      → ((a ≡ x) × (key_eq a x ≡ true) × (get a lower ≡ Option.map (λ d. d - 1) (get a degrees)))
        ⊎ ((a ≢ x) × (key_eq a x ≡ false) × (get a lower ≡ get a degrees))
  get-lower a = elim (key_eq_cases a x) [
    | inl (e, p) ↦ inl (p, e, rw (get-modify a x (λ d. d - 1) degrees, e) refl)
    | inr (e, n) ↦ inr (n, e, rw (get-modify a x (λ d. d - 1) degrees, e) refl)
  ]

  first_lowered :
      (a : GpuPreparedWorkNodeId)
      → (¬ In x ds)
      → (if contains a ds then Option.map (λ d. d - 1) (get a lower) else get a lower)
        ≡ (if contains a (x ∷ ds) then Option.map (λ d. d - 1) (get a degrees) else get a degrees)
  unfolding contains
  first_lowered a n = elim (get-lower a) [
    | inl (p, e, l) ↦ elim (contains_cases a ds) [
      | inl (c, i) ↦ absurd (n (subst (λ b. In b ds) p i))
      | inr (c, i) ↦ rw (c, e) l
    ]
    | inr (p, e, l) ↦ rw (e, l) refl
  ]

  first_woken :
      (a : GpuPreparedWorkNodeId) (m : ℕ) (ready : List GpuPreparedWorkNodeId)
      → (¬ In x ds)
      → get x degrees ≡ some (suc m)
      → (In a (wake x m ready) ⊎ (In a ds × (get a lower ≡ some 1)))
        ↔ (In a ready ⊎ (In a (x ∷ ds) × (get a degrees ≡ some 1)))
  first_woken a m ready n e = elim (get-lower a) [
    | inl (p, k, l) ↦
        let outside : ¬ In a ds = subst (λ b. ¬ In b ds) (sym p) n in
        let degree : get a degrees ≡ some (suc m) =
          subst (λ b. get b degrees ≡ some (suc m)) (sym p) e in
        ground (arith, In-wake a x m ready)
    | inr (p, k, l) ↦ ground (arith, In-wake a x m ready)
  ]

  still-Positive : (¬ In x ds) → Positive (x ∷ ds) degrees → Positive ds lower
  still-Positive n p a i = elim (get-lower a) [
    | inl (q, k, l) ↦ absurd (n (subst (λ b. In b ds) q i))
    | inr (q, k, l) ↦ let (m, e) = p a (inr i) in (m, l ∙ e)
  ]

  first_Released :
      (m : ℕ) (ready : List GpuPreparedWorkNodeId) (next : Indegree)
      (woken : List GpuPreparedWorkNodeId)
      → (¬ In x ds)
      → get x degrees ≡ some (suc m)
      → Released ds lower (wake x m ready) next woken
      → Released (x ∷ ds) degrees ready next woken
  first_Released m ready next woken n e after = record {
    lowered = λ a. after.lowered a ∙ first_lowered a n;
    woken_iff = λ a. ground (arith, after.woken_iff a, first_woken a m ready n e);
    same_keys = after.same_keys ∙ keys-modify x (λ d. d - 1) degrees;
    distinct = λ h. after.distinct (Distinct-wake x m ready h);
  }

  release_first :
      (m : ℕ) (ready : List GpuPreparedWorkNodeId)
      → get x degrees ≡ some (suc m)
      → release (x ∷ ds) degrees ready ≡ release ds lower (wake x m ready)
  unfolding release
  release_first m ready e = rw (e, release) refl

pub release-Released :
    (ds : List GpuPreparedWorkNodeId) (degrees : Indegree) (ready : List GpuPreparedWorkNodeId)
    → Distinct ds
    → Positive ds degrees
    → (next : Indegree) × (woken : List GpuPreparedWorkNodeId) × (release ds degrees ready
        ≡ some (next, woken))
      × Released ds degrees ready next woken
unfolding release contains
release-Released [] degrees ready d p = (
  degrees,
  ready,
  refl,
  record {
    lowered = λ a. refl;
    woken_iff = λ a. ground arith;
    same_keys = refl;
    distinct = λ h. h;
  },
)
release-Released (x ∷ ds) degrees ready d p =
    let (m, e) = p x (inl refl) in
    let (next, woken, run, after) =
      release-Released ds (lower x ds degrees) (wake x m ready) d.1
        (still-Positive x ds degrees d.0 p) in
    (
      next,
      woken,
      release_first x ds degrees m ready e ∙ run,
      first_Released x ds degrees m ready next woken d.0 e after,
    )
