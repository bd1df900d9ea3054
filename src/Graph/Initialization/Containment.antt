-- ===== src/Graph/Initialization/Containment.antt =====
-- The tests on initialized coverage, as questions about the sets of cells it stands for.
use runen_gpu.Base.{
  ℕ, ◌≡◌, refl, inl, inr, ◌↔◌, Bool, true, false, some, arith, [], ◌∷◌, u32_mod, Bool-cases, all,
}
use runen_gpu.Base.SortedMap.{get}
use runen_gpu.Resource.{resource_id_key, GpuBufferHandle}
use runen_gpu.Graph.Coverage.{GpuBufferCoverage, dense, strided}
use runen_gpu.Graph.Coverage.Bytes.{CoversByte, IsCoverageOf}
use runen_gpu.Graph.Coverage.Contains.Laws.{buffer_coverage_contains_iff}
use runen_gpu.Graph.Initialization.{
  Subresource, InitializedCoverage, query, immutable, contains, is_empty, semantically_equals,
  layers_contain, interval_set_contains_u32,
}
use runen_gpu.Graph.Initialization.Cells.{
  Cell, byte, layer, index, whole, Initializes, IsWellFormed, Comparable, swapped, buffers,
  immutables,
}
use runen_gpu.Graph.Initialization.Intervals.{contain_all}
use runen_gpu.Graph.Initialization.Layers.{head_found, NonEmpty-Covers, CoversLayer-cons}
use runen_gpu.Graph.Initialization.Layers.Meet.{layers_contain_iff}

every_implied :
    (I P : Cell → Type 0)
    → ((p : ℕ) → I (byte p) → P (byte p))
    → ((k : Subresource) (p : ℕ) → I (layer k p) → P (layer k p))
    → ((p : ℕ) → I (index p) → P (index p))
    → (I whole → P whole)
    → (cell : Cell) → I cell
    → P cell
every_implied I P b l i w (byte p) c = b p c
every_implied I P b l i w (layer k p) c = l k p c
every_implied I P b l i w (index p) c = i p c
every_implied I P b l i w whole c = w c

-- On well-formed coverages of one kind, and of one buffer, the containment test answers, and says yes
-- exactly if every cell that the second initializes is initialized by the first.
pub contains_iff :
    {have required : InitializedCoverage}
    → Comparable have required
    → IsWellFormed have
    → IsWellFormed required
    → (answer : Bool) × (contains have required ≡ some answer)
      × ((answer ≡ true) ↔ ((cell : Cell) → Initializes required cell → Initializes have cell))
unfolding contains
contains_iff (buffers b xs ys) v w =
    let (answer, e, (to, from)) = buffer_coverage_contains_iff b xs v.1 ys w.1 in
    (
      answer,
      e,
      (
        λ h.
            every_implied (Initializes (InitializedCoverage.buffer b ys))
              (Initializes (InitializedCoverage.buffer b xs)) (to h) (λ k p c. c) (λ p c. c)
              (λ c. c),
        λ h. from (λ p c. h (byte p) c),
      ),
    )
contains_iff (Comparable.textures have required) v w =
    let (to, from) = layers_contain_iff have required v.0 w.0 w.1 in
    (
      layers_contain have required,
      refl,
      (
        λ h.
            every_implied (Initializes (InitializedCoverage.texture required))
              (Initializes (InitializedCoverage.texture have)) (λ p c. c) (to h) (λ p c. c)
              (λ c. c),
        λ h. from (λ k p c. h (layer k p) c),
      ),
    )
contains_iff (Comparable.queries have required) v w =
    let (to, from) = contain_all have required v w.1 in
    (
      all (interval_set_contains_u32 have) required,
      refl,
      (
        λ h.
            every_implied (Initializes (query required)) (Initializes (query have)) (λ p c. c)
              (λ k p c. c) (to h) (λ c. c),
        λ h. from (λ p c. h (index p) c),
      ),
    )
contains_iff immutables v w = (true, refl, (λ e cell c. c, λ h. refl))

-- The test of equality answers, and says whether both initialize the same.
pub semantically_equals_iff :
    {left right : InitializedCoverage}
    → Comparable left right
    → IsWellFormed left
    → IsWellFormed right
    → (answer : Bool) × (semantically_equals left right ≡ some answer)
      × ((answer ≡ true) ↔ ((cell : Cell) → Initializes left cell ↔ Initializes right cell))
unfolding semantically_equals
semantically_equals_iff q v w =
    let (there, te, tb) = contains_iff q v w in
    let (back, be, bb) = contains_iff (swapped q) w v in
    elim (Bool-cases there) [
      | inl h ↦ (
        back,
        rw (te, h) be,
        (λ k cell. (bb.0 k cell, tb.0 h cell), λ k. bb.1 (λ cell. (k cell).0)),
      )
      | inr h ↦ (false, rw (te, h) refl, (λ k. cc, λ k. absurd (cc (h, tb.1 (λ cell. (k cell).1)))))
    ]

covered_byte :
    (b : GpuBufferHandle) (v : GpuBufferCoverage) → IsCoverageOf b v → (p : ℕ) × CoversByte v p
covered_byte b (dense range) w = (range.offset, (omega arith, omega (arith, w.nonempty)))
covered_byte b (strided c) w = (
  c.first,
  record {
    group = 0;
    segment = 0;
    group_lt = w.1.groups_pos;
    segment_lt = w.1.count_pos;
    after = omega arith;
    before = omega (arith, w.1.size_pos);
  },
)

-- A coverage is empty exactly if it initializes nothing.
pub is_empty_iff :
    (value : InitializedCoverage)
    → IsWellFormed value
    → (is_empty value ≡ true) ↔ ((cell : Cell) → ¬ Initializes value cell)
unfolding is_empty get
is_empty_iff (InitializedCoverage.buffer b []) v = (
  λ h.
      every_implied (Initializes (InitializedCoverage.buffer b [])) (λ cell. ⊥) (λ p c. c)
        (λ k p c. c) (λ p c. c) (λ c. c),
  λ h. refl,
)
is_empty_iff (InitializedCoverage.buffer b (x ∷ xs)) v =
    let (p, c) = covered_byte b x v.1.0 in (λ h. cc, λ h. absurd (h (byte p) (inl c)))
is_empty_iff (InitializedCoverage.texture []) v = (
  λ h.
      every_implied (Initializes (InitializedCoverage.texture [])) (λ cell. ⊥) (λ p c. c)
        (λ k p c. c) (λ p c. c) (λ c. c),
  λ h. refl,
)
is_empty_iff (InitializedCoverage.texture ((key, xs) ∷ rest)) v =
    let found = head_found key xs rest in
    let (p, c) = NonEmpty-Covers u32_mod xs (v.0.normal key xs found).1 (v.1 key xs found) in
    (
      λ h. cc,
      λ h. absurd (h (layer key p) ((CoversLayer-cons key xs rest v.0 key p).1 (inl (refl, c)))),
    )
is_empty_iff (query []) v = (
  λ h.
      every_implied (Initializes (query [])) (λ cell. ⊥) (λ p c. c) (λ k p c. c) (λ p c. c)
        (λ c. c),
  λ h. refl,
)
is_empty_iff (query (x ∷ xs)) v =
    (λ h. cc, λ h. absurd (h (index x.0) (inl (omega arith, v.1.0.0))))
is_empty_iff immutable v = (λ h. cc, λ h. absurd (h whole tt))
