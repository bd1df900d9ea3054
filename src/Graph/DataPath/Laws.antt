-- ===== src/Graph/DataPath/Laws.antt =====
-- `dependency_data_path_exists` finds exactly the paths with a data dependency.
use runen_gpu.Base.{
  ℕ, zero, suc, ◌∙◌, ◌≡◌, refl, sym, ap, subst, ◌⊎◌, inl, inr, Bool, true, false, ◌&&◌, ◌||◌, List,
  [], ◌∷◌, some, arith, Bool-cases, Option-cases, In,
}
use runen_gpu.Base.Key.{key_eq, key_eq_refl}
use runen_gpu.Base.SortedSet.{contains, insert, In-insert, contains-In}
use runen_gpu.Graph.Identity.{GpuPreparedWorkNodeId, prepared_id_key}
use runen_gpu.Graph.Reason.{GpuDependencyReason, DependencyEdges}
use runen_gpu.Graph.DataPath.{
  Visit, visit_key, expand, search_path, path_fuel, edge_has_data, dependency_data_path_exists,
  DataPath, here, step,
}
use runen_gpu.Graph.DataPath.Fuel.{dependency_data_path_exists_enough}
use runen_gpu.Graph.DataPath.Expand.{
  Dependency, expand-none, expand_keeps, expand_pushes, expand-Origin,
}

module _ (edges : DependencyEdges) (start target : GpuPreparedWorkNodeId) where
  search_path_sound :
      (fuel : ℕ) (ready visited : List Visit)
      → ((n : GpuPreparedWorkNodeId) (p : Bool)
          → In {A = Visit} (n, p) ready
          → DataPath edges start n p)
      → search_path fuel edges target ready visited ≡ some true
      → DataPath edges start target true
  unfolding search_path
  search_path_sound fuel [] visited reached h = absurd (cc h)
  search_path_sound zero (v ∷ ready) visited reached h = absurd (cc h)
  search_path_sound (suc fuel) ((n, p) ∷ ready) visited reached h =
      elim (Bool-cases (contains {A = Visit} (n, p) visited)) [
        | inl c ↦ search_path_sound fuel ready visited (λ m q i. reached m q (inr i)) (ground arith)
        | inr c ↦ elim (Option-cases (expand n p target edges ready)) [
          | inl x ↦
              let (reasons, i, t) = expand-none n target p edges ready x in
              subst (λ q. DataPath edges start target q) t
                (step n target p reasons (reached n p (inl refl)) i)
          | inr (pushed, x) ↦
              search_path_sound fuel pushed (insert {A = Visit} (n, p) visited)
                (λ m q i. elim (expand-Origin n target p edges ready pushed (m, q) x i) [
                  | inl k ↦ reached m q (inr k)
                  | inr (k, reasons, j, e) ↦
                      subst (λ v. DataPath edges start v.0 v.1) (sym e)
                        (step n k p reasons (reached n p (inl refl)) j)
                ])
                (ground arith)
        ]
      ]

  -- Every edge from a visited state leads to a state that is visited or on the stack, and none
  -- ends the search.
  abbrev Closed : List Visit → List Visit → Type 0
  Closed visited ready =
      (n m : GpuPreparedWorkNodeId) (p : Bool) (reasons : List GpuDependencyReason)
      → In {A = Visit} (n, p) visited
      → In {A = Dependency} ((n, m), reasons) edges
      → (In {A = Visit} (m, p || edge_has_data reasons) visited
          ⊎ In {A = Visit} (m, p || edge_has_data reasons) ready)
        × ((key_eq m target && (p || edge_has_data reasons)) ≡ false)

  module _ (n : GpuPreparedWorkNodeId) (p : Bool) (ready visited : List Visit)
      (closed : Closed visited ((n, p) ∷ ready)) where
    Closed-seen : In {A = Visit} (n, p) visited → Closed visited ready
    Closed-seen seen k m q reasons i e =
        let (there, misses) = closed k m q reasons i e in
        (
          elim there [
            | inl v ↦ inl v
            | inr (inl s) ↦ inl (subst (λ v. In v visited) (sym s) seen)
            | inr (inr t) ↦ inr t
          ],
          misses,
        )

    Closed-new :
        (pushed : List Visit)
        → expand n p target edges ready ≡ some pushed
        → Closed (insert {A = Visit} (n, p) visited) pushed
    Closed-new pushed x k m q reasons i e =
        elim ((In-insert {A = Visit} (k, q) (n, p) visited).0 i) [
          | inl s ↦
              subst
                (λ v.
                  In {A = Dependency} ((v.0, m), reasons) edges
                  → (In {A = Visit} (m, v.1 || edge_has_data reasons)
                        (insert {A = Visit} (n, p) visited)
                      ⊎ In {A = Visit} (m, v.1 || edge_has_data reasons) pushed)
                    × ((key_eq m target && (v.1 || edge_has_data reasons)) ≡ false))
                (sym s)
                (λ d.
                  let (there, misses) = expand_pushes n target p edges ready pushed m reasons x d in
                  (inr there, misses))
                e
          | inr old ↦
              let (there, misses) = closed k m q reasons old e in
              let v : Visit = (m, q || edge_has_data reasons) in
              (
                elim there [
                  | inl w ↦ inl ((In-insert v (n, p) visited).1 (inr w))
                  | inr (inl s) ↦ inl ((In-insert v (n, p) visited).1 (inl s))
                  | inr (inr t) ↦ inr (expand_keeps n target p edges ready pushed v x t)
                ],
                misses,
              )
        ]

  search_path_complete :
      (fuel : ℕ) (ready visited : List Visit)
      → Closed visited ready
      → search_path fuel edges target ready visited ≡ some false
      → (final : List Visit) × Closed final []
        × ((v : Visit) → (In v visited ⊎ In v ready) → In v final)
  unfolding search_path
  search_path_complete fuel [] visited closed h =
      (visited, closed, λ v i. elim i [ inl k ↦ k | inr k ↦ absurd k ])
  search_path_complete zero (v ∷ ready) visited closed h = absurd (cc h)
  search_path_complete (suc fuel) ((n, p) ∷ ready) visited closed h =
      elim (Bool-cases (contains {A = Visit} (n, p) visited)) [
        | inl c ↦
            let seen = contains-In {A = Visit} (n, p) visited c in
            let (final, done, kept) =
              search_path_complete fuel ready visited (Closed-seen n p ready visited closed seen)
                (ground arith) in
            (
              final,
              done,
              λ v i. elim i [
                | inl k ↦ kept v (inl k)
                | inr (inl e) ↦ kept v (inl (subst (λ w. In w visited) (sym e) seen))
                | inr (inr k) ↦ kept v (inr k)
              ],
            )
        | inr c ↦ elim (Option-cases (expand n p target edges ready)) [
          | inl x ↦ absurd (ground arith)
          | inr (pushed, x) ↦
              let (final, done, kept) =
                search_path_complete fuel pushed (insert {A = Visit} (n, p) visited)
                  (Closed-new n p ready visited closed pushed x) (ground arith) in
              (
                final,
                done,
                λ v i. elim i [
                  | inl k ↦ kept v (inl ((In-insert v (n, p) visited).1 (inr k)))
                  | inr (inl e) ↦ kept v (inl ((In-insert v (n, p) visited).1 (inl e)))
                  | inr (inr k) ↦ kept v (inr (expand_keeps n target p edges ready pushed v x k))
                ],
              )
        ]
      ]

  path_visited :
      (final : List Visit) (m : GpuPreparedWorkNodeId) (q : Bool)
      → Closed final []
      → In {A = Visit} (start, false) final
      → DataPath edges start m q
      → In {A = Visit} (m, q) final
  path_visited final _ _ closed first here = first
  path_visited final _ _ closed first (step n m p reasons path i) =
      elim (closed n m p reasons (path_visited final n p closed first path) i).0 [
        | inl k ↦ k
        | inr k ↦ absurd k
      ]

  path_misses :
      (final : List Visit) (m : GpuPreparedWorkNodeId) (q : Bool)
      → Closed final []
      → In {A = Visit} (start, false) final
      → DataPath edges start m q
      → (key_eq m target && q) ≡ false
  path_misses final _ _ closed first here = ground arith
  path_misses final _ _ closed first (step n m p reasons path i) =
      (closed n m p reasons (path_visited final n p closed first path) i).1

-- What the search may return.
abbrev pub PathOutcome : DependencyEdges → GpuPreparedWorkNodeId → GpuPreparedWorkNodeId → Type 0
PathOutcome edges start target =
    ((dependency_data_path_exists edges start target ≡ some true)
      × DataPath edges start target true)
    ⊎ ((dependency_data_path_exists edges start target ≡ some false)
        × (¬ DataPath edges start target true))

-- The search answers within its fuel: it says yes and a path of edges leads from the start to the
-- target of which one edge has a reason other than an explicit order, or it says no and no such
-- path exists.
pub dependency_data_path_exists_outcome :
    (edges : DependencyEdges) (start target : GpuPreparedWorkNodeId)
    → PathOutcome edges start target
unfolding dependency_data_path_exists
dependency_data_path_exists_outcome edges start target =
    let (found, run) = dependency_data_path_exists_enough edges start target in
    elim (Bool-cases found) [
      | inl e ↦ inl (
        run ∙ ap some e,
        search_path_sound edges start target (path_fuel edges) ((start, false) ∷ []) [] only
            (run ∙ ap some e),
      )
      | inr e ↦
          let (final, closed, kept) =
            search_path_complete edges start target (path_fuel edges) ((start, false) ∷ []) []
              (λ n m p reasons i d. absurd i) (run ∙ ap some e) in
          inr (
            run ∙ ap some e,
            λ path. cc (
              path_misses edges start target final target true closed
                  (kept (start, false) (inr (inl refl))) path,
              key_eq_refl target,
            ),
          )
    ]
  where
    only :
        (n : GpuPreparedWorkNodeId) (p : Bool)
        → In {A = Visit} (n, p) ((start, false) ∷ [])
        → DataPath edges start n p
    only n p (inl e) = subst (λ v. DataPath edges start v.0 v.1) (sym e) here
    only n p (inr k) = absurd k
