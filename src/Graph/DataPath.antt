-- ===== src/Graph/DataPath.antt =====
-- The search for a path with a data dependency: `dependency_data_path_exists` of
-- src/api/graph/hazards.rs.
pub mod Fuel
pub mod Expand
pub mod Laws
use runen_gpu.Base.{
  ℕ, zero, suc, ◌+◌, ◌*◌, ◌≡◌, ap, Bool, true, false, not, ◌&&◌, ◌||◌, List, [], ◌∷◌, Option, none,
  some, if◌then◌else◌, arith, any, length, In,
}
use runen_gpu.Base.Key.{Key, key_eq}
use runen_gpu.Base.SortedSet.{contains, insert}
use runen_gpu.Graph.Identity.{GpuPreparedWorkNodeId, prepared_id_key, Edge}
use runen_gpu.Graph.Reason.{GpuDependencyReason, DependencyEdges, is_data}

-- A node, and whether the path to it has a data dependency.
abbrev pub Visit : Type 0
Visit = GpuPreparedWorkNodeId × Bool

abbrev pub bool_code : Bool → ℕ
bool_code false = 0
bool_code true = 1

abbrev pub visit_code : Visit → List ℕ
visit_code (node, has_data) = node.fragment_ordinal ∷ node.local_node ∷ bool_code has_data ∷ []

pub bool_injective : (a b : Bool) → bool_code a ≡ bool_code b → a ≡ b
bool_injective a b h = ground arith

pub visit_injective : (a b : Visit) → visit_code a ≡ visit_code b → a ≡ b
visit_injective a b h = ground (arith, bool_injective a.1 b.1)

instance abbrev pub visit_key : Key Visit
visit_key = record { encode = visit_code; injective = visit_injective }

abbrev pub edge_has_data : List GpuDependencyReason → Bool
edge_has_data reasons = any is_data reasons

-- The loop over the edges: `none` is `return true`. The last element pushed is the first of the
-- list.
unfoldable pub expand :
    GpuPreparedWorkNodeId
    → Bool
    → GpuPreparedWorkNodeId
    → DependencyEdges
    → List Visit
    → Option (List Visit)
expand node has_data target [] ready = some ready
expand node has_data target (((before, after), reasons) ∷ rest) ready =
    let next = has_data || edge_has_data reasons in
    let skipped = expand node has_data target rest ready in
    let pushed = expand node has_data target rest ((after, next) ∷ ready) in
    if not (key_eq before node)
    then skipped
    else if key_eq after target && next
    then none
    else pushed

-- The loop on the stack, with fuel; `none` is fuel that runs out.
unfoldable pub search_path :
    ℕ → DependencyEdges → GpuPreparedWorkNodeId → List Visit → List Visit → Option Bool
unfolding expand
search_path fuel edges target [] visited = some false
search_path zero edges target (visit ∷ ready) visited = none
search_path (suc fuel) edges target ((node, has_data) ∷ ready) visited =
    let again = search_path fuel edges target ready visited in
    if contains {A = Visit} (node, has_data) visited
    then again
    else elim (expand node has_data target edges ready) [
      | none ↦ some true
      | some pushed ↦
          search_path fuel edges target pushed (insert {A = Visit} (node, has_data) visited)
    ]

-- Every edge is pushed at most twice, once for each Boolean.
abbrev pub path_fuel : DependencyEdges → ℕ
path_fuel edges = 1 + 2 * length edges

unfoldable pub dependency_data_path_exists :
    DependencyEdges → GpuPreparedWorkNodeId → GpuPreparedWorkNodeId → Option Bool
unfolding search_path
dependency_data_path_exists edges start target =
    search_path (path_fuel edges) edges target ((start, false) ∷ []) []

-- The paths from a node, and whether they have a data dependency.
pub data DataPath (edges : DependencyEdges) (start : GpuPreparedWorkNodeId)
    : GpuPreparedWorkNodeId → Bool → Type 0 where
  here : DataPath edges start start false
  step :
      (n m : GpuPreparedWorkNodeId) (p : Bool) (reasons : List GpuDependencyReason)
      → DataPath edges start n p
      → In {A = Edge × List GpuDependencyReason} ((n, m), reasons) edges
      → DataPath edges start m (p || edge_has_data reasons)
