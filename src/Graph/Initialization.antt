-- ===== src/Graph/Initialization.antt =====
-- The initialized part of a resource, `InitializedCoverage` of src/api/graph/initialization.rs, and
-- its operations. An operation that changes `self` returns its Boolean answer and the new value; a
-- result `none` is a panic in the coverage of buffers, or fuel that ran out there.
pub mod Cells
pub mod Intervals
pub mod Layers
pub mod Laws
pub mod Containment
use runen_gpu.Base.{
  ℕ, ◌≡◌, Bool, true, false, ◌&&◌, ◌||◌, not, Option, none, some, List, [], ◌∷◌, ◌++◌, arith,
  if◌then◌else◌, ltb, leb, max, min, any, all, flat_map, is_some_and,
}
use runen_gpu.Base.Key.{Key, key_eq}
use runen_gpu.Base.SortedMap.{get, modify, upsert}
use runen_gpu.Base.Optional.{◌>>=◌}
use runen_gpu.Texture.Aspect.{GpuTextureAspect, aspect_code, aspect_injective}
use runen_gpu.Resource.{
  GpuWorkResourceId, resource_id_key, GpuBufferHandle, GpuTextureHandle, GpuTextureViewHandle,
  GpuSamplerHandle, GpuQuerySetHandle,
}
use runen_gpu.Graph.Intervals.{Interval, normalize_u32_intervals}
use runen_gpu.Graph.Coverage.{GpuBufferCoverage}
use runen_gpu.Graph.Coverage.Contains.{buffer_coverage_contains}
use runen_gpu.Graph.Coverage.Normalize.{normalize_buffer_coverage}
use runen_gpu.Graph.Coverage.Intersect.{intersect_buffer_coverage}

-- A mip level and an aspect.
abbrev pub Subresource : Type 0
Subresource = ℕ × GpuTextureAspect

abbrev pub subresource_code : Subresource → List ℕ
subresource_code (mip, aspect) = mip ∷ aspect_code aspect ∷ []

pub subresource_injective : (a b : Subresource) → subresource_code a ≡ subresource_code b → a ≡ b
unfolding aspect_code
subresource_injective a b e = ground arith

instance abbrev pub subresource_key : Key Subresource
subresource_key = record { encode = subresource_code; injective = subresource_injective }

-- The ranges of array layers of each subresource.
abbrev pub Layers : Type 0
Layers = List (Subresource × List Interval)

pub data InitializedCoverage : Type 0 where
  buffer : GpuBufferHandle → List GpuBufferCoverage → InitializedCoverage
  texture : Layers → InitializedCoverage
  query : List Interval → InitializedCoverage
  immutable : InitializedCoverage

pub data GpuResourceRef : Type 0 where
  buffer : GpuBufferHandle → GpuResourceRef
  texture : GpuTextureHandle → GpuResourceRef
  texture_view : GpuTextureViewHandle → GpuResourceRef
  sampler : GpuSamplerHandle → GpuResourceRef
  query_set : GpuQuerySetHandle → GpuResourceRef

unfoldable pub empty_for : GpuResourceRef → InitializedCoverage
empty_for (GpuResourceRef.buffer b) = InitializedCoverage.buffer b []
empty_for (GpuResourceRef.texture t) = InitializedCoverage.texture []
empty_for (GpuResourceRef.texture_view v) = InitializedCoverage.texture []
empty_for (GpuResourceRef.query_set q) = query []
empty_for (GpuResourceRef.sampler s) = immutable

-- Equality of handles, which is that of their identities.
abbrev pub same_buffer : GpuBufferHandle → GpuBufferHandle → Bool
same_buffer a b = key_eq a.id b.id

unfoldable pub interval_set_contains_u32 : List Interval → Interval → Bool
interval_set_contains_u32 intervals required =
    any (λ have. leb have.0 required.0 && leb required.1 have.1) intervals

-- What is left of one interval.
unfoldable pub subtract_interval : Interval → Interval → List Interval
subtract_interval (start, end) removed =
    let before = if ltb start removed.0 then (start, removed.0) ∷ [] else [] in
    let after = if ltb removed.1 end then (removed.1, end) ∷ [] else [] in
    if leb end removed.0 || leb removed.1 start then (start, end) ∷ [] else before ++ after

unfoldable pub subtract_u32_intervals : List Interval → Interval → List Interval
unfolding subtract_interval
subtract_u32_intervals intervals removed =
    flat_map (λ interval. subtract_interval interval removed) intervals

-- What the inner round pushes for two intervals.
unfoldable pub meet_interval : Interval → Interval → List Interval
meet_interval left right =
    let start = max left.0 right.0 in
    let end = min left.1 right.1 in if ltb start end then (start, end) ∷ [] else []

unfoldable pub intersect_u32_intervals : List Interval → List Interval → List Interval
unfolding meet_interval
intersect_u32_intervals left right =
    normalize_u32_intervals (flat_map (λ l. flat_map (λ r. meet_interval l r) right) left)

-- `subtract_u32_intervals` for each of the removed intervals.
unfoldable pub subtract_all : List Interval → List Interval → List Interval
unfolding subtract_u32_intervals
subtract_all intervals [] = intervals
subtract_all intervals (r ∷ removed) = subtract_all (subtract_u32_intervals intervals r) removed

unfoldable pub extend_layers : Layers → Layers → Layers
extend_layers left [] = left
extend_layers left ((key, intervals) ∷ right) =
    extend_layers (upsert key [] (λ entry. normalize_u32_intervals (entry ++ intervals)) left) right

unfoldable pub layers_contain : Layers → Layers → Bool
unfolding interval_set_contains_u32
layers_contain have [] = true
layers_contain have ((key, intervals) ∷ required) =
    is_some_and (get key have)
      (λ have_intervals. all (interval_set_contains_u32 have_intervals) intervals)
    && layers_contain have required

unfoldable pub subtract_layers : Layers → Layers → Layers
unfolding subtract_all
subtract_layers have [] = have
subtract_layers have ((key, intervals) ∷ removed) =
    subtract_layers (modify key (λ have_intervals. subtract_all have_intervals intervals) have)
      removed

-- What `retain` keeps of an entry: nothing if its ranges are empty.
unfoldable pub keep_entry : Subresource → List Interval → Layers → Layers
keep_entry key [] rest = rest
keep_entry key (x ∷ xs) rest = (key, x ∷ xs) ∷ rest

-- `retain` with the new ranges of each entry.
unfoldable pub retain_layers : (Subresource → List Interval → List Interval) → Layers → Layers
unfolding keep_entry
retain_layers f [] = []
retain_layers f ((key, intervals) ∷ rest) = keep_entry key (f key intervals) (retain_layers f rest)

unfoldable pub intersect_layers : Layers → Layers → Layers
unfolding retain_layers intersect_u32_intervals
intersect_layers left right =
    retain_layers
      (λ key left_intervals. elim (get key right) [
        | none ↦ []
        | some right_intervals ↦ intersect_u32_intervals left_intervals right_intervals
      ])
      left

-- The value of a buffer after an operation on its coverage, which is done if the buffers agree.
abbrev pub buffer_result :
    Bool
    → GpuBufferHandle
    → List GpuBufferCoverage
    → Option (List GpuBufferCoverage)
    → Option (Bool × InitializedCoverage)
buffer_result same handle values changed =
    let done = changed >>= λ after. some (true, InitializedCoverage.buffer handle after) in
    if same then done else some (false, InitializedCoverage.buffer handle values)

unfoldable pub union :
    InitializedCoverage → InitializedCoverage → Option (Bool × InitializedCoverage)
unfolding extend_layers
union (InitializedCoverage.buffer left_buffer left)
      (InitializedCoverage.buffer right_buffer right) =
    buffer_result (same_buffer left_buffer right_buffer) left_buffer left
      (normalize_buffer_coverage left_buffer (left ++ right))
union (InitializedCoverage.texture left) (InitializedCoverage.texture right) =
    some (true, InitializedCoverage.texture (extend_layers left right))
union (query left) (query right) = some (true, query (normalize_u32_intervals (left ++ right)))
union immutable immutable = some (true, immutable)
union self other = some (false, self)

unfoldable pub contains : InitializedCoverage → InitializedCoverage → Option Bool
unfolding layers_contain interval_set_contains_u32
contains (InitializedCoverage.buffer have_buffer have)
      (InitializedCoverage.buffer required_buffer required) =
    buffer_coverage_contains have required
contains (InitializedCoverage.texture have) (InitializedCoverage.texture required) =
    some (layers_contain have required)
contains (query have) (query required) = some (all (interval_set_contains_u32 have) required)
contains immutable immutable = some true
contains self required = some false

unfoldable pub remove : InitializedCoverage → InitializedCoverage → Bool × InitializedCoverage
unfolding subtract_layers retain_layers subtract_all
remove (InitializedCoverage.buffer b values) removed = (false, InitializedCoverage.buffer b values)
remove (InitializedCoverage.texture have) (InitializedCoverage.texture removed) = (
  true,
  InitializedCoverage.texture
      (retain_layers (λ _ intervals. intervals) (subtract_layers have removed)),
)
remove (query have) (query removed) = (true, query (subtract_all have removed))
remove immutable immutable = (true, immutable)
remove self removed = (false, self)

unfoldable pub is_empty : InitializedCoverage → Bool
is_empty (InitializedCoverage.buffer b []) = true
is_empty (InitializedCoverage.buffer b (x ∷ xs)) = false
is_empty (InitializedCoverage.texture []) = true
is_empty (InitializedCoverage.texture (x ∷ xs)) = false
is_empty (query []) = true
is_empty (query (x ∷ xs)) = false
is_empty immutable = false

unfoldable pub intersect_coverage :
    InitializedCoverage → InitializedCoverage → Option (Bool × InitializedCoverage)
unfolding intersect_layers intersect_u32_intervals
intersect_coverage (InitializedCoverage.buffer left_buffer left)
      (InitializedCoverage.buffer right_buffer right) =
    buffer_result (same_buffer left_buffer right_buffer) left_buffer left
      (intersect_buffer_coverage left_buffer left right)
intersect_coverage (InitializedCoverage.texture left) (InitializedCoverage.texture right) =
    some (true, InitializedCoverage.texture (intersect_layers left right))
intersect_coverage (query left) (query right) =
    some (true, query (intersect_u32_intervals left right))
intersect_coverage immutable immutable = some (true, immutable)
intersect_coverage self other = some (false, self)

unfoldable pub semantically_equals : InitializedCoverage → InitializedCoverage → Option Bool
unfolding contains
semantically_equals self other =
    contains self other >>= λ there. if there then contains other self else some false
