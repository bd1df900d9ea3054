-- ===== src/Graph/Reason.antt =====
-- Why one node waits for another: `GpuDependencyReason` of src/api/graph/dependency.rs, with its
-- derived order, and the edges of the graph.
use runen_gpu.Base.{ℕ, ◌≡◌, Bool, true, false, List, [], ◌∷◌, arith}
use runen_gpu.Base.Key.{Key}
use runen_gpu.Base.SortedSet.{insert}
use runen_gpu.Texture.Aspect.{aspect_code, GpuTextureAspect}
use runen_gpu.Resource.{GpuWorkResourceId}
use runen_gpu.Graph.Region.{GpuDependencyRegion}
use runen_gpu.Graph.Identity.{Edge}

-- The text of an explicit order is its bytes.
pub data GpuDependencyReason : Type 0 where
  read_after_write : GpuWorkResourceId → GpuDependencyRegion → GpuDependencyReason
  write_after_read : GpuWorkResourceId → GpuDependencyRegion → GpuDependencyReason
  write_after_write : GpuWorkResourceId → GpuDependencyRegion → GpuDependencyReason
  explicit_non_data : List ℕ → GpuDependencyReason

pub region_code : GpuDependencyRegion → List ℕ
region_code (GpuDependencyRegion.buffer r) = 0 ∷ r.offset ∷ r.size ∷ []
region_code (GpuDependencyRegion.texture r) =
    1
    ∷ r.base_mip_level
    ∷ r.mip_level_count
    ∷ r.base_array_layer
    ∷ r.array_layer_count
    ∷ aspect_code r.aspect
    ∷ []
region_code (GpuDependencyRegion.query r) = 2 ∷ r.first ∷ r.count ∷ []

pub aspect_code_injective : (a b : GpuTextureAspect) → aspect_code a ≡ aspect_code b → a ≡ b
unfolding aspect_code
aspect_code_injective a b h = ground arith

pub region_injective : (a b : GpuDependencyRegion) → region_code a ≡ region_code b → a ≡ b
unfolding region_code
region_injective (GpuDependencyRegion.texture r) (GpuDependencyRegion.texture s) h =
    ground (arith, aspect_code_injective r.aspect s.aspect)
region_injective _ _ h = ground arith

unfoldable pub reason_code : GpuDependencyReason → List ℕ
unfolding region_code
reason_code (read_after_write id region) = 0 ∷ id.owner_scope ∷ id.local ∷ region_code region
reason_code (write_after_read id region) = 1 ∷ id.owner_scope ∷ id.local ∷ region_code region
reason_code (write_after_write id region) = 2 ∷ id.owner_scope ∷ id.local ∷ region_code region
reason_code (explicit_non_data reason) = 3 ∷ reason

codes_tail : (a b : GpuDependencyReason) → reason_code a ≡ reason_code b → a ≡ b
unfolding reason_code
codes_tail (read_after_write i r) (read_after_write j s) h = ground (arith, region_injective r s)
codes_tail (write_after_read i r) (write_after_read j s) h = ground (arith, region_injective r s)
codes_tail (write_after_write i r) (write_after_write j s) h = ground (arith, region_injective r s)
codes_tail _ _ h = ground arith

pub reason_injective : (a b : GpuDependencyReason) → reason_code a ≡ reason_code b → a ≡ b
reason_injective a b h = codes_tail a b h

instance abbrev pub reason_key : Key GpuDependencyReason
reason_key = record { encode = reason_code; injective = reason_injective }

abbrev pub is_data : GpuDependencyReason → Bool
is_data (explicit_non_data reason) = false
is_data _ = true

-- `DependencyEdges`: the map from the two ends to the set of reasons.
abbrev pub DependencyEdges : Type 0
DependencyEdges = List (Edge × List GpuDependencyReason)

-- `BTreeSet::extend` with another set.
unfoldable pub extend :
    List GpuDependencyReason → List GpuDependencyReason → List GpuDependencyReason
extend set [] = set
extend set (r ∷ rs) = extend (insert r set) rs
