-- ===== src/Graph/Initialization/Cells.antt =====
-- What an initialized coverage stands for: a set of bytes, of array layers of a subresource, or of
-- queries.
use runen_gpu.Base.{ℕ, ◌≡◌, ◌<◌, Option, none, some, List, [], ◌∷◌, All, Distinct, u32_mod, u64_mod}
use runen_gpu.Base.SortedMap.{get, keys}
use runen_gpu.Resource.{GpuBufferHandle}
use runen_gpu.Graph.Intervals.{Interval}
use runen_gpu.Graph.Intervals.Laws.{Covers, Separate}
use runen_gpu.Graph.Intervals.Fits.{Fits}
use runen_gpu.Graph.Coverage.{GpuBufferCoverage}
use runen_gpu.Graph.Coverage.Bytes.{CoversAny, IsCoverageOf}
use runen_gpu.Graph.Initialization.{
  Subresource, subresource_key, Layers, InitializedCoverage, query, immutable,
}

-- The smallest parts that are initialized on their own; `whole` is the part of a sampler.
pub data Cell : Type 0 where
  byte : ℕ → Cell
  layer : Subresource → ℕ → Cell
  index : ℕ → Cell
  whole : Cell

abbrev pub CoversEntry : Option (List Interval) → ℕ → Type 0
CoversEntry none p = ⊥
CoversEntry (some intervals) p = Covers intervals p

abbrev pub CoversLayer : Layers → Subresource → ℕ → Type 0
CoversLayer layers key p = CoversEntry (get key layers) p

abbrev pub Initializes : InitializedCoverage → Cell → Type 0
Initializes (InitializedCoverage.buffer b values) (byte p) = CoversAny values p
Initializes (InitializedCoverage.texture layers) (layer key p) = CoversLayer layers key p
Initializes (query intervals) (index p) = Covers intervals p
Initializes immutable whole = Unit
Initializes _ _ = ⊥

-- Separate intervals, none of them empty.
abbrev pub IsNormal : List Interval → Type 0
IsNormal intervals = Separate intervals × All (Fits u32_mod) intervals

abbrev pub NonEmpty : List Interval → Type 0
NonEmpty [] = ⊥
NonEmpty (x ∷ xs) = Unit

pub record IsLayers (layers : Layers) : Type 0 where
  pub distinct : Distinct (keys layers)
  pub normal : (key : Subresource) (xs : List Interval) → get key layers ≡ some xs → IsNormal xs

-- No entry is empty.
abbrev pub IsFilled : Layers → Type 0
IsFilled layers = (key : Subresource) (xs : List Interval) → get key layers ≡ some xs → NonEmpty xs

abbrev pub IsWellFormed : InitializedCoverage → Type 0
IsWellFormed (InitializedCoverage.buffer b values) =
    (b.size_bytes < u64_mod) × All (IsCoverageOf b) values
IsWellFormed (InitializedCoverage.texture layers) = IsLayers layers × IsFilled layers
IsWellFormed (query intervals) = IsNormal intervals
IsWellFormed immutable = Unit

-- Coverages of the same kind, and of the same buffer.
pub data Comparable : InitializedCoverage → InitializedCoverage → Type 0 where
  buffers :
      (b : GpuBufferHandle) (xs ys : List GpuBufferCoverage)
      → Comparable (InitializedCoverage.buffer b xs) (InitializedCoverage.buffer b ys)
  textures :
      (left right : Layers)
      → Comparable (InitializedCoverage.texture left) (InitializedCoverage.texture right)
  queries : (left right : List Interval) → Comparable (query left) (query right)
  immutables : Comparable immutable immutable

-- Coverages whose parts can be discarded.
pub data Discardable : InitializedCoverage → InitializedCoverage → Type 0 where
  textures :
      (left right : Layers)
      → Discardable (InitializedCoverage.texture left) (InitializedCoverage.texture right)
  queries : (left right : List Interval) → Discardable (query left) (query right)

pub swapped : {left right : InitializedCoverage} → Comparable left right → Comparable right left
swapped (buffers b xs ys) = buffers b ys xs
swapped (Comparable.textures left right) = Comparable.textures right left
swapped (Comparable.queries left right) = Comparable.queries right left
swapped immutables = immutables

-- Values of the kind of a third one are of one kind.
pub alike :
    {like left right : InitializedCoverage}
    → Comparable like left
    → Comparable like right
    → Comparable left right
alike (buffers b xs ys) (buffers _ _ zs) = buffers b ys zs
alike (Comparable.textures a b) (Comparable.textures _ c) = Comparable.textures b c
alike (Comparable.queries a b) (Comparable.queries _ c) = Comparable.queries b c
alike immutables immutables = immutables
