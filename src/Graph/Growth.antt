-- ===== src/Graph/Growth.antt =====
-- Stages of graph preparation only add to the edges: src/api/graph/hazards.rs.
pub mod Stages
use runen_gpu.Base.{◌≡◌, Bool, true, ◌||◌, List, [], arith, Distinct}
use runen_gpu.Base.SortedMap.{keys, upsert, Distinct-upsert}
use runen_gpu.Graph.Identity.{Edge, edge_key}
use runen_gpu.Graph.Reason.{GpuDependencyReason, DependencyEdges}
use runen_gpu.Graph.Hazards.Pair.{has_edge, has_edge-upsert}

-- No edge is lost, and no edge has two entries when none had.
pub record Grows (edges added : DependencyEdges) : Type 0 where
  pub keeps : (e : Edge) → has_edge e edges ≡ true → has_edge e added ≡ true
  pub distinct : Distinct (keys edges) → Distinct (keys added)

pub Grows-refl : (edges : DependencyEdges) → Grows edges edges
Grows-refl edges = record { keeps = λ e h. h; distinct = λ h. h }

pub Grows-trans :
    (edges middle added : DependencyEdges)
    → Grows edges middle
    → Grows middle added
    → Grows edges added
Grows-trans edges middle added g h = record {
  keeps = λ e k. h.keeps e (g.keeps e k);
  distinct = λ k. h.distinct (g.distinct k);
}

pub Grows-upsert :
    (edge : Edge) (f : List GpuDependencyReason → List GpuDependencyReason)
    (edges : DependencyEdges)
    → Grows edges (upsert edge [] f edges)
Grows-upsert edge f edges = record {
  keeps = λ e k. ground (arith, has_edge-upsert e edge [] f edges);
  distinct = Distinct-upsert edge [] f edges;
}
