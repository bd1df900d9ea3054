-- ===== src/Graph/DataPath/Fuel.antt =====
-- The fuel of `dependency_data_path_exists` is enough.
use runen_gpu.Base.{
  ℕ, zero, suc, ◌+◌, ◌*◌, ◌≤◌, ◌≡◌, refl, sym, subst, inl, inr, Bool, true, false, ◌&&◌, ◌||◌, List,
  [], ◌∷◌, some, if◌then◌else◌, ◌==◌, arith, length, Bool-cases, Option-cases,
}
use runen_gpu.Base.Key.{key_eq, key_eq_cases, key_eq_refl, key_eq_sound}
use runen_gpu.Base.SortedSet.{contains, insert, contains_cases, In-insert}
use runen_gpu.Graph.Identity.{GpuPreparedWorkNodeId, prepared_id_key}
use runen_gpu.Graph.Reason.{DependencyEdges}
use runen_gpu.Graph.DataPath.{
  Visit, visit_key, bool_code, bool_injective, expand, search_path, path_fuel, edge_has_data,
  dependency_data_path_exists,
}

-- How often an edge may still be pushed.
abbrev open_for : GpuPreparedWorkNodeId → Bool → List Visit → ℕ
open_for n p visited = if contains {A = Visit} (n, p) visited then 0 else 1

pub pending : List Visit → DependencyEdges → ℕ
pending visited [] = 0
pending visited (((n, m), reasons) ∷ rest) =
    open_for n false visited + open_for n true visited + pending visited rest

contains-insert :
    (v w : Visit) (visited : List Visit)
    → contains v (insert w visited) ≡ (key_eq v w || contains v visited)
contains-insert v w visited = ground (
  arith,
  contains_cases v visited,
  contains_cases v (insert w visited),
  In-insert v w visited,
  key_eq_cases v w,
)

visit_eq :
    (n m : GpuPreparedWorkNodeId) (p q : Bool)
    → key_eq {A = Visit} (n, p) (m, q) ≡ (key_eq n m && (bool_code p == bool_code q))
visit_eq n m p q = elim (key_eq_cases {A = Visit} (n, p) (m, q)) [
  | inl (e, r) ↦ ground (arith, key_eq_refl m)
  | inr (e, r) ↦ ground (arith, key_eq_sound n m, bool_injective p q)
]

-- Visiting a node closes one visit of the edges that start there.
open_insert :
    (n node : GpuPreparedWorkNodeId) (p : Bool) (visited : List Visit)
    → contains {A = Visit} (node, p) visited ≡ false
    → open_for n false (insert {A = Visit} (node, p) visited)
        + open_for n true (insert {A = Visit} (node, p) visited)
        + (if key_eq n node then 1 else 0)
      ≡ open_for n false visited + open_for n true visited
open_insert n node true visited c = elim (key_eq_cases n node) [
  | inl (e, same) ↦
      let unseen : contains {A = Visit} (n, true) visited ≡ false =
        subst (λ x. contains {A = Visit} (x, true) visited ≡ false) (sym same) c in
      ground (
        arith,
        contains-insert (n, false) (node, true) visited,
        contains-insert (n, true) (node, true) visited,
        visit_eq n node false true,
        visit_eq n node true true,
      )
  | inr (e, other) ↦ ground (
    arith,
    contains-insert (n, false) (node, true) visited,
    contains-insert (n, true) (node, true) visited,
    visit_eq n node false true,
    visit_eq n node true true,
  )
]
open_insert n node false visited c = elim (key_eq_cases n node) [
  | inl (e, same) ↦
      let unseen : contains {A = Visit} (n, false) visited ≡ false =
        subst (λ x. contains {A = Visit} (x, false) visited ≡ false) (sym same) c in
      ground (
        arith,
        contains-insert (n, false) (node, false) visited,
        contains-insert (n, true) (node, false) visited,
        visit_eq n node false false,
        visit_eq n node true false,
      )
  | inr (e, other) ↦ ground (
    arith,
    contains-insert (n, false) (node, false) visited,
    contains-insert (n, true) (node, false) visited,
    visit_eq n node false false,
    visit_eq n node true false,
  )
]

expand-pending :
    (node target : GpuPreparedWorkNodeId) (p : Bool) (visited : List Visit) (rest : DependencyEdges)
    (ready pushed : List Visit)
    → contains {A = Visit} (node, p) visited ≡ false
    → expand node p target rest ready ≡ some pushed
    → length pushed + pending (insert {A = Visit} (node, p) visited) rest
      ≡ length ready + pending visited rest
unfolding expand pending
expand-pending node target p visited [] ready pushed c h = ground arith
expand-pending node target p visited (((n, m), reasons) ∷ rest) ready pushed c h = ground (
  arith,
  open_insert n node p visited c,
  expand-pending node target p visited rest ready pushed c,
  expand-pending node target p visited rest ((m, p || edge_has_data reasons) ∷ ready) pushed c,
)

pub search_path_enough :
    (fuel : ℕ) (edges : DependencyEdges) (target : GpuPreparedWorkNodeId)
    (ready visited : List Visit)
    → length ready + pending visited edges ≤ fuel
    → (found : Bool) × (search_path fuel edges target ready visited ≡ some found)
unfolding search_path
search_path_enough fuel edges target [] visited e = (false, refl)
search_path_enough zero edges target (v ∷ ready) visited e = absurd (omega arith)
search_path_enough (suc fuel) edges target ((n, p) ∷ ready) visited e =
    elim (Bool-cases (contains {A = Visit} (n, p) visited)) [
      | inl c ↦
          let (found, run) = search_path_enough fuel edges target ready visited (omega arith) in
          (found, rw (c, search_path) run)
      | inr c ↦ elim (Option-cases (expand n p target edges ready)) [
        | inl x ↦ (true, rw (c, search_path) (rw x refl))
        | inr (pushed, x) ↦
            let (found, run) =
              search_path_enough fuel edges target pushed (insert {A = Visit} (n, p) visited)
                (omega (arith, expand-pending n target p visited edges ready pushed c x)) in
            (found, rw (c, search_path) (rw x run))
      ]
    ]

pending_start : (edges : DependencyEdges) → pending [] edges ≡ 2 * length edges
unfolding pending contains
pending_start [] = omega arith
pending_start (((n, m), reasons) ∷ rest) = omega (arith, pending_start rest)

pub dependency_data_path_exists_enough :
    (edges : DependencyEdges) (start target : GpuPreparedWorkNodeId)
    → (found : Bool) × (dependency_data_path_exists edges start target ≡ some found)
unfolding dependency_data_path_exists
dependency_data_path_exists_enough edges start target =
    search_path_enough (path_fuel edges) edges target ((start, false) ∷ []) []
      (omega (arith, pending_start edges))
