-- ===== src/Graph/DataPath/Expand.antt =====
-- What the loop over the edges in `dependency_data_path_exists` pushes.
use runen_gpu.Base.{
  ◌≡◌, sym, ap, subst, ◌⊎◌, inl, inr, Bool, true, false, ◌&&◌, ◌||◌, List, [], ◌∷◌, none, some,
  arith, Bool-cases, In,
}
use runen_gpu.Base.Key.{key_eq, key_eq_cases, key_eq_refl, key_eq_sound}
use runen_gpu.Graph.Identity.{GpuPreparedWorkNodeId, prepared_id_key, Edge}
use runen_gpu.Graph.Reason.{GpuDependencyReason, DependencyEdges}
use runen_gpu.Graph.DataPath.{Visit, visit_key, expand, edge_has_data}

abbrev pub Dependency : Type 0
Dependency = Edge × List GpuDependencyReason

module _ (node target : GpuPreparedWorkNodeId) (p : Bool) where
  -- An edge from the node that ends the search.
  abbrev pub Hits : DependencyEdges → Type 0
  Hits rest =
      (reasons : List GpuDependencyReason) × In {A = Dependency} ((node, target), reasons) rest
      × ((p || edge_has_data reasons) ≡ true)

  Hits-later : (d : Dependency) (rest : DependencyEdges) → Hits rest → Hits (d ∷ rest)
  Hits-later d rest (reasons, m, e) = (reasons, inr m, e)

  pub expand-none :
      (rest : DependencyEdges) (ready : List Visit)
      → expand node p target rest ready ≡ none
      → Hits rest
  unfolding expand
  expand-none [] ready h = absurd (cc h)
  expand-none (((n, m), reasons) ∷ rest) ready h = elim (key_eq_cases n node) [
    | inr (e, other) ↦ Hits-later ((n, m), reasons) rest (expand-none rest ready (ground arith))
    | inl (e, same) ↦ elim (Bool-cases (key_eq m target && (p || edge_has_data reasons))) [
      | inl t ↦
          let ends : m ≡ target = key_eq_sound m target (ground arith) in
          (reasons, inl (cc (same, ends)), ground arith)
      | inr t ↦
          Hits-later ((n, m), reasons) rest
            (expand-none rest ((m, p || edge_has_data reasons) ∷ ready) (ground arith))
    ]
  ]

  pub expand_keeps :
      (rest : DependencyEdges) (ready pushed : List Visit) (v : Visit)
      → expand node p target rest ready ≡ some pushed
      → In v ready
      → In v pushed
  unfolding expand
  expand_keeps [] ready pushed v h i = ground arith
  expand_keeps (((n, m), reasons) ∷ rest) ready pushed v h i = ground (
    arith,
    expand_keeps rest ready pushed v,
    expand_keeps rest ((m, p || edge_has_data reasons) ∷ ready) pushed v,
  )

  expand_pushes_first :
      (rest : DependencyEdges) (ready pushed : List Visit) (n m : GpuPreparedWorkNodeId)
      (reasons : List GpuDependencyReason)
      → expand node p target (((n, m), reasons) ∷ rest) ready ≡ some pushed
      → key_eq n node ≡ true
      → In {A = Visit} (m, p || edge_has_data reasons) pushed
        × ((key_eq m target && (p || edge_has_data reasons)) ≡ false)
  unfolding expand
  expand_pushes_first rest ready pushed n m reasons h e = ground (
    arith,
    expand_keeps rest ((m, p || edge_has_data reasons) ∷ ready) pushed
        (m, p || edge_has_data reasons),
  )

  pub expand_pushes :
      (rest : DependencyEdges) (ready pushed : List Visit) (m : GpuPreparedWorkNodeId)
      (reasons : List GpuDependencyReason)
      → expand node p target rest ready ≡ some pushed
      → In {A = Dependency} ((node, m), reasons) rest
      → In {A = Visit} (m, p || edge_has_data reasons) pushed
        × ((key_eq m target && (p || edge_has_data reasons)) ≡ false)
  unfolding expand
  expand_pushes [] ready pushed m reasons h i = absurd i
  expand_pushes (((n, k), others) ∷ rest) ready pushed m reasons h (inl e) =
      subst
        (λ d.
          In {A = Visit} (d.0.1, p || edge_has_data d.1) pushed
          × ((key_eq d.0.1 target && (p || edge_has_data d.1)) ≡ false))
        (sym e)
        (expand_pushes_first rest ready pushed n k others h
          (rw (← ap (λ d. d.0.0) e) (key_eq_refl node)))
  expand_pushes (((n, k), others) ∷ rest) ready pushed m reasons h (inr i) = ground (
    arith,
    expand_pushes rest ready pushed m reasons,
    expand_pushes rest ((k, p || edge_has_data others) ∷ ready) pushed m reasons,
  )

  -- Where a visit on the stack comes from.
  abbrev pub Origin : DependencyEdges → List Visit → Visit → Type 0
  Origin rest ready v =
      In v ready
      ⊎ ((m : GpuPreparedWorkNodeId) × (reasons : List GpuDependencyReason) × In {A = Dependency}
            ((node, m), reasons) rest
          × (v ≡ (m, p || edge_has_data reasons)))

  later-Origin :
      (d : Dependency) (rest : DependencyEdges) (ready : List Visit) (v : Visit)
      → Origin rest ready v
      → Origin (d ∷ rest) ready v
  later-Origin d rest ready v (inl i) = inl i
  later-Origin d rest ready v (inr (m, reasons, i, e)) = inr (m, reasons, inr i, e)

  pub expand-Origin :
      (rest : DependencyEdges) (ready pushed : List Visit) (v : Visit)
      → expand node p target rest ready ≡ some pushed
      → In v pushed
      → Origin rest ready v
  unfolding expand
  expand-Origin [] ready pushed v h i = inl (ground arith)
  expand-Origin (((n, k), others) ∷ rest) ready pushed v h i = elim (key_eq_cases n node) [
    | inr (e, other) ↦
        later-Origin ((n, k), others) rest ready v
          (expand-Origin rest ready pushed v (ground arith) i)
    | inl (e, same) ↦ elim (Bool-cases (key_eq k target && (p || edge_has_data others))) [
      | inl t ↦ absurd (ground arith)
      | inr t ↦
          elim (expand-Origin rest ((k, p || edge_has_data others) ∷ ready) pushed v (ground arith)
            i) [
              | inl (inl q) ↦ inr (k, others, inl (cc same), q)
              | inl (inr q) ↦ inl q
              | inr q ↦ later-Origin ((n, k), others) rest ready v (inr q)
            ]
    ]
  ]
