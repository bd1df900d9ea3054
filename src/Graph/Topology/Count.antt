-- ===== src/Graph/Topology/Count.antt =====
-- The first loop of `topological_node_order`: the sets of dependents and the degrees that
-- `count_edges` builds.
use runen_gpu.Base.{
  suc, ◌+◌, ◌∙◌, ◌≡◌, refl, sym, ap, subst, ◌⊎◌, inl, inr, ◌↔◌, false, List, [], ◌∷◌, none, ok, err,
  arith, if◌then◌else◌, In, Distinct, Option-cases,
}
use mathlib.Core.Option
use runen_gpu.Base.Key.{key_eq, key_eq_cases}
use runen_gpu.Base.SortedSet.{contains, insert, In-insert, Distinct-insert}
use runen_gpu.Base.SortedMap.{
  get, modify, keys, upsert, keys-modify, get-modify, get-upsert, In-keys-get, get-In-keys,
}
use runen_gpu.Graph.Identity.{GpuPreparedWorkNodeId, prepared_id_key, Edge, edge_key}
use runen_gpu.Graph.Fragment.{unknown_identity}
use runen_gpu.Graph.Topology.{Indegree, Outgoing, dependents, count_edges}
use runen_gpu.Graph.Topology.Waits.{waits, waits-nil, waits-first, In-false}

pub record Counted (es : List Edge) (outgoing : Outgoing) (degrees : Indegree) (targets : Outgoing)
    (counted : Indegree) : Type 0 where
  pub targets_iff :
      (b a : GpuPreparedWorkNodeId)
      → In a (dependents b targets) ↔ (In a (dependents b outgoing) ⊎ In {A = Edge} (b, a) es)
  pub distinct :
      (b : GpuPreparedWorkNodeId)
      → Distinct (dependents b outgoing)
      → Distinct (dependents b targets)
  pub same_keys : keys counted ≡ keys degrees
  pub raised :
      (a : GpuPreparedWorkNodeId)
      → get a counted ≡ Option.map (λ d. waits a [] es + d) (get a degrees)
  pub known :
      (b a : GpuPreparedWorkNodeId)
      → In {A = Edge} (b, a) es
      → In b (keys degrees) × In a (keys degrees)

abbrev pub Fresh : List Edge → Outgoing → Type 0
Fresh es outgoing =
    (b a : GpuPreparedWorkNodeId) → In {A = Edge} (b, a) es → ¬ In a (dependents b outgoing)

abbrev pub CountOutcome : List Edge → Outgoing → Indegree → Type 0
CountOutcome es outgoing degrees =
    ((targets : Outgoing) × (counted : Indegree) × (count_edges es outgoing degrees
        ≡ ok (targets, counted))
      × Counted es outgoing degrees targets counted)
    ⊎ ((count_edges es outgoing degrees ≡ err unknown_identity)
        × (b : GpuPreparedWorkNodeId) × (a : GpuPreparedWorkNodeId) × In {A = Edge} (b, a) es
        × (¬ (In b (keys degrees) × In a (keys degrees))))

module _ (x y : GpuPreparedWorkNodeId) (es : List Edge) (outgoing : Outgoing)
    (degrees : Indegree) where
  pair_eq : (b a : GpuPreparedWorkNodeId) → ◌≡◌ {A = Edge} (b, a) (x, y) → (b ≡ x) × (a ≡ y)
  pair_eq b a e = (ap (λ p. p.0) e, ap (λ p. p.1) e)

  pair_eq_back : (b a : GpuPreparedWorkNodeId) → (b ≡ x) × (a ≡ y) → ◌≡◌ {A = Edge} (b, a) (x, y)
  pair_eq_back b a (p, q) = cc

  abbrev extended : Outgoing
  extended = upsert x [] (insert y) outgoing

  abbrev raise : Indegree
  raise = modify y suc degrees

  dependents-extended :
      (b : GpuPreparedWorkNodeId)
      → dependents b extended
        ≡ (if key_eq b x then insert y (dependents b outgoing) else dependents b outgoing)
  dependents-extended b = elim (key_eq_cases b x) [
    | inl (e, p) ↦ rw (get-upsert b x [] (insert y) outgoing, e) (rw p refl)
    | inr (e, n) ↦ rw (get-upsert b x [] (insert y) outgoing, e) refl
  ]

  In-extended :
      (b a : GpuPreparedWorkNodeId)
      → In a (dependents b extended) ↔ (In a (dependents b outgoing) ⊎ ((b ≡ x) × (a ≡ y)))
  In-extended b a = elim (key_eq_cases b x) [
    | inl (e, p) ↦
        rw (dependents-extended b, e) (ground (arith, In-insert a y (dependents b outgoing)))
    | inr (e, n) ↦ rw (dependents-extended b, e) (ground arith)
  ]

  Distinct-extended :
      (b : GpuPreparedWorkNodeId)
      → Distinct (dependents b outgoing)
      → Distinct (dependents b extended)
  Distinct-extended b d = elim (key_eq_cases b x) [
    | inl (e, p) ↦ rw (dependents-extended b, e) (Distinct-insert y (dependents b outgoing) d)
    | inr (e, n) ↦ rw (dependents-extended b, e) d
  ]

  get-raise :
      (a : GpuPreparedWorkNodeId)
      → Option.map (λ d. waits a [] es + d) (get a raise)
        ≡ Option.map (λ d. waits a [] ((x, y) ∷ es) + d) (get a degrees)
  get-raise a = elim (Option-cases (get a degrees)) [
    | inl e ↦ ground (arith, get-modify a y suc degrees)
    | inr (d, e) ↦ ground (
      arith,
      get-modify a y suc degrees,
      waits-first a x y es,
      key_eq_cases a y,
      key_eq_cases y a,
    )
  ]

  first_Counted :
      (targets : Outgoing) (counted : Indegree)
      → In x (keys degrees)
      → In y (keys degrees)
      → Counted es extended raise targets counted
      → Counted ((x, y) ∷ es) outgoing degrees targets counted
  first_Counted targets counted kx ky after = record {
    targets_iff = λ b a.
        ground (arith, after.targets_iff b a, In-extended b a, pair_eq b a, pair_eq_back b a);
    distinct = λ b d. after.distinct b (Distinct-extended b d);
    same_keys = after.same_keys ∙ keys-modify y suc degrees;
    raised = λ a. after.raised a ∙ get-raise a;
    known = λ b a m. elim m [
      | inl p ↦ (
        subst (λ e. In e.0 (keys degrees)) (sym p) kx,
        subst (λ e. In e.1 (keys degrees)) (sym p) ky,
      )
      | inr q ↦ subst (λ ks. In b ks × In a ks) (keys-modify y suc degrees) (after.known b a q)
    ];
  }

  still_Fresh : Distinct {A = Edge} ((x, y) ∷ es) → Fresh ((x, y) ∷ es) outgoing → Fresh es extended
  still_Fresh d f b a m i = elim ((In-extended b a).0 i) [
    | inl q ↦ f b a (inr m) q
    | inr (p, q) ↦ d.0 (subst (λ e. In e es) (pair_eq_back b a (p, q)) m)
  ]

  first_known :
      (¬ In y (dependents x outgoing))
      → In x (keys degrees)
      → In y (keys degrees)
      → count_edges ((x, y) ∷ es) outgoing degrees ≡ count_edges es extended raise
  unfolding count_edges
  first_known n kx ky =
      let (v, gx) = get-In-keys x degrees kx in
      let (w, gy) = get-In-keys y degrees ky in
      let absent : contains y (dependents x outgoing) ≡ false =
        In-false y (dependents x outgoing) n in
      rw (gx, gy, absent, count_edges) refl

  first_unknown :
      ((get x degrees ≡ none) ⊎ (get y degrees ≡ none))
      → count_edges ((x, y) ∷ es) outgoing degrees ≡ err unknown_identity
  unfolding count_edges
  first_unknown (inl gx) = rw (gx, count_edges) refl
  first_unknown (inr gy) = ground (arith, Option-cases (get x degrees))

  get-none : (a : GpuPreparedWorkNodeId) → get a degrees ≡ none → ¬ In a (keys degrees)
  get-none a e m = let (v, g) = get-In-keys a degrees m in cc

  -- Every edge known leads to the counted maps, and an unknown end to the error.
  first_outcome :
      Distinct {A = Edge} ((x, y) ∷ es)
      → Fresh ((x, y) ∷ es) outgoing
      → CountOutcome es extended raise
      → CountOutcome ((x, y) ∷ es) outgoing degrees
  first_outcome d f next = elim (Option-cases (get x degrees)) [
    | inl gx ↦ inr (first_unknown (inl gx), x, y, inl refl, λ k. get-none x gx k.0)
    | inr (v, gx) ↦ elim (Option-cases (get y degrees)) [
      | inl gy ↦ inr (first_unknown (inr gy), x, y, inl refl, λ k. get-none y gy k.1)
      | inr (w, gy) ↦
          let kx = In-keys-get x degrees gx in
          let ky = In-keys-get y degrees gy in
          let same = first_known (f x y (inl refl)) kx ky in
          elim next [
            | inl (targets, counted, run, after) ↦
                inl (targets, counted, same ∙ run, first_Counted targets counted kx ky after)
            | inr (run, b, a, m, n) ↦ inr (
              same ∙ run,
              b,
              a,
              inr m,
              subst (λ ks. ¬ (In b ks × In a ks)) (keys-modify y suc degrees) n,
            )
          ]
    ]
  ]

pub count_edges_outcome :
    (es : List Edge) (outgoing : Outgoing) (degrees : Indegree)
    → Distinct es
    → Fresh es outgoing
    → CountOutcome es outgoing degrees
unfolding count_edges
count_edges_outcome [] outgoing degrees d f = inl (
  outgoing,
  degrees,
  refl,
  record {
    targets_iff = λ b a. ground arith;
    distinct = λ b d. d;
    same_keys = refl;
    raised = λ a. ground (arith, waits-nil a [], Option-cases (get a degrees));
    known = λ b a m. absurd m;
  },
)
count_edges_outcome ((x, y) ∷ es) outgoing degrees d f = first_outcome x y es outgoing degrees d f (
    count_edges_outcome es (extended x y es outgoing degrees) (raise x y es outgoing degrees) d.1
      (still_Fresh x y es outgoing degrees d f))
