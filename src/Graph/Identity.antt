-- ===== src/Graph/Identity.antt =====
-- Node identities of src/api/graph/identity.rs, and the causes of a graph error.
use runen_gpu.Base.{ℕ, ◌≡◌, Bool, ◌&&◌, List, [], ◌∷◌, arith, ◌==◌}
use runen_gpu.Base.Key.{Key}

-- `fragment_identity` stands for the address that `Arc::ptr_eq` compares.
pub record GpuWorkNodeId : Type 0 where
  pub fragment_identity : ℕ
  pub local : ℕ

unfoldable pub belongs_to : GpuWorkNodeId → ℕ → Bool
belongs_to node fragment_identity = node.fragment_identity == fragment_identity

unfoldable pub node_eq : GpuWorkNodeId → GpuWorkNodeId → Bool
node_eq a b = a.local == b.local && a.fragment_identity == b.fragment_identity

pub record GpuPreparedWorkNodeId : Type 0 where
  pub fragment_ordinal : ℕ
  pub local_node : ℕ

pub prepared_id_injective :
    (a b : GpuPreparedWorkNodeId)
    → ◌≡◌ {A = List ℕ}
        (a.fragment_ordinal ∷ a.local_node ∷ [])
        (b.fragment_ordinal ∷ b.local_node ∷ [])
    → a ≡ b
prepared_id_injective a b e = ground arith

instance abbrev pub prepared_id_key : Key GpuPreparedWorkNodeId
prepared_id_key = record {
  encode = λ a. a.fragment_ordinal ∷ a.local_node ∷ [];
  injective = prepared_id_injective;
}

-- The key of a dependency: the node before and the node after.
abbrev pub Edge : Type 0
Edge = GpuPreparedWorkNodeId × GpuPreparedWorkNodeId

abbrev pub edge_code : Edge → List ℕ
edge_code (a, b) = a.fragment_ordinal ∷ a.local_node ∷ b.fragment_ordinal ∷ b.local_node ∷ []

pub edge_injective : (e f : Edge) → edge_code e ≡ edge_code f → e ≡ f
edge_injective e f h = ground arith

instance abbrev pub edge_key : Key Edge
edge_key = record { encode = edge_code; injective = edge_injective }
