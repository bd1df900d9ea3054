-- ===== src/Graph/Coverage/Merge/Numbered.antt =====
-- The numbered segments of a strided layout: their order and their bytes.
use native.Mathlib.Nat.{
  div-add-mod', mod-lt, mod-eq_of_lt, div-lt_iff_lt-mul, div-eq_of_lt, mul-add-div_right,
  mul-le-mul_right, mul-add-mod_self_right, suc-mul, mul_comm,
}
use native.Mathlib.Decide.{dec_lt}
use runen_gpu.Base.{
  ℕ, zero, suc, ◌+◌, ◌-◌, ◌*◌, ◌/◌, ◌%◌, ◌≤◌, ◌<◌, ◌≡◌, refl, sym, ap, ◌∙◌, subst, ◌⊎◌, inl, inr,
  List, [], ◌∷◌, arith, In,
}
use runen_gpu.Graph.Intervals.{Interval}
use runen_gpu.Graph.Intervals.Sorting.{Starts}
use runen_gpu.Graph.Intervals.Laws.{Covers}
use runen_gpu.Graph.Coverage.{GpuBufferStridedCoverage}
use runen_gpu.Graph.Coverage.Bytes.{segment_start, HasStridedByte, IsStrided}
use runen_gpu.Graph.Coverage.Merge.{numbered_segment}

abbrev pub segments : ℕ → GpuBufferStridedCoverage → ℕ → List Interval
segments zero c n = []
segments (suc k) c n = numbered_segment c n ∷ segments k c (suc n)

module _ (c : GpuBufferStridedCoverage) (v : IsStrided c) where
  abbrev group_of : ℕ → ℕ
  group_of n = n / c.segment_count

  group_of_lt : (n : ℕ) → n < c.segment_count * c.group_count → group_of n < c.group_count
  group_of_lt n h = (div-lt_iff_lt-mul v.count_pos).1 (grind arith)

  numbered_in_order :
      (n m : ℕ)
      → n ≤ m
      → m < c.segment_count * c.group_count
      → (group_of n < group_of m)
        ⊎ ((group_of n ≡ group_of m) × (n % c.segment_count ≤ m % c.segment_count))
  numbered_in_order n m h k = elim (dec_lt (group_of n) (group_of m)) [
    | yes lt ↦ inl lt
    | no ge ↦ elim (dec_lt (group_of m) (group_of n)) [
      | yes gt ↦
          let up : suc (group_of m) * c.segment_count ≤ group_of n * c.segment_count =
            mul-le-mul_right c.segment_count gt in
          absurd (
            omega (
              arith,
              up,
              suc-mul (group_of m) c.segment_count,
              div-add-mod' n c.segment_count,
              div-add-mod' m c.segment_count,
              mod-lt m v.count_pos,
            ))
      | no le ↦
          let e : group_of n ≡ group_of m = omega (arith, ge, le) in
          inr (
            e,
            omega (
              arith,
              ap (λ (t : ℕ). t * c.segment_count) e,
              div-add-mod' n c.segment_count,
              div-add-mod' m c.segment_count,
            ),
          )
    ]
  ]

  -- A segment of an earlier group starts before the later groups do.
  earlier_group :
      (g s h : ℕ)
      → g < h
      → h < c.group_count
      → s < c.segment_count
      → g * c.group_stride + s * c.segment_stride ≤ h * c.group_stride
  earlier_group g s h lt k l = elim v.groups_apart [
    | inl few ↦ absurd (omega arith)
    | inr wide ↦
        let up : suc g * c.group_stride ≤ h * c.group_stride = mul-le-mul_right c.group_stride lt in
        let below : s ≤ c.segment_count - 1 = omega arith in
        omega (arith, up, suc-mul g c.group_stride, mul-le-mul_right c.segment_stride below, wide)
  ]

  numbered_segment_mono :
      (n m : ℕ)
      → n ≤ m
      → m < c.segment_count * c.group_count
      → (numbered_segment c n).0 ≤ (numbered_segment c m).0
  unfolding numbered_segment
  numbered_segment_mono n m h k = elim (numbered_in_order n m h k) [
    | inl lt ↦ omega (
      arith,
      earlier_group (group_of n) (n % c.segment_count) (group_of m) lt (group_of_lt m k)
          (mod-lt n v.count_pos),
    )
    | inr (e, le) ↦
        omega (arith, ap (λ (t : ℕ). t * c.group_stride) e, mul-le-mul_right c.segment_stride le)
  ]

  In-segments :
      (k n : ℕ) (y : Interval)
      → In y (segments k c n)
      → (m : ℕ) × (n ≤ m) × (m < n + k) × (y ≡ numbered_segment c m)
  In-segments zero n y m = absurd m
  In-segments (suc k) n y (inl e) = (n, omega arith, omega arith, e)
  In-segments (suc k) n y (inr i) =
      let (m, a, b, e) = In-segments k (suc n) y i in (m, omega arith, omega arith, e)

  pub Starts-segments :
      (k n : ℕ) → n + k ≤ c.segment_count * c.group_count → Starts (segments k c n)
  Starts-segments zero n h = tt
  Starts-segments (suc k) n h = (
    λ y i.
        let (m, a, b, e) = In-segments k (suc n) y i in
        subst (λ w. (numbered_segment c n).0 ≤ w.0) (sym e)
          (numbered_segment_mono n m (omega arith) (omega arith)),
    Starts-segments k (suc n) (omega arith),
  )

  numbered_byte :
      (n byte : ℕ)
      → n < c.segment_count * c.group_count
      → (numbered_segment c n).0 ≤ byte
      → byte < (numbered_segment c n).1
      → HasStridedByte c byte
  unfolding numbered_segment
  numbered_byte n byte h low high = record {
    group = group_of n;
    segment = n % c.segment_count;
    group_lt = group_of_lt n h;
    segment_lt = mod-lt n v.count_pos;
    after = low;
    before = high;
  }

  numbered_segment_lem :
      (g s : ℕ)
      → s < c.segment_count
      → numbered_segment c (g * c.segment_count + s)
        ≡ (segment_start c g s, segment_start c g s + c.segment_size)
  unfolding numbered_segment
  numbered_segment_lem g s h =
      let q : (g * c.segment_count + s) / c.segment_count ≡ g =
        mul-add-div_right v.count_pos g s ∙ omega (arith, div-eq_of_lt h) in
      let r : (g * c.segment_count + s) % c.segment_count ≡ s =
        mul-add-mod_self_right g c.segment_count s ∙ mod-eq_of_lt h in
      rw (q, r) refl

  pub segments_byte :
      (k n byte : ℕ)
      → n + k ≤ c.segment_count * c.group_count
      → Covers (segments k c n) byte
      → HasStridedByte c byte
  segments_byte zero n byte h b = absurd b
  segments_byte (suc k) n byte h (inl b) = numbered_byte n byte (omega arith) b.0 b.1
  segments_byte (suc k) n byte h (inr b) = segments_byte k (suc n) byte (omega arith) b

  Covers-segments :
      (k n m byte : ℕ)
      → n ≤ m
      → m < n + k
      → (numbered_segment c m).0 ≤ byte
      → byte < (numbered_segment c m).1
      → Covers (segments k c n) byte
  Covers-segments zero n m byte h l low high = absurd (omega arith)
  Covers-segments (suc k) n m byte h l low high = elim (dec_lt n m) [
    | yes lt ↦ inr (Covers-segments k (suc n) m byte lt (omega arith) low high)
    | no ge ↦
        let e : m ≡ n = omega (arith, ge) in
        inl (
          subst (λ t. ((numbered_segment c t).0 ≤ byte) × (byte < (numbered_segment c t).1)) e
            (low, high))
  ]

  pub byte_segments :
      (k byte : ℕ)
      → k ≡ c.segment_count * c.group_count
      → HasStridedByte c byte
      → Covers (segments k c 0) byte
  byte_segments k byte h b =
      let e = numbered_segment_lem b.group b.segment b.segment_lt in
      Covers-segments k 0 (b.group * c.segment_count + b.segment) byte (omega arith) (index_lt b)
        (rw e b.after) (rw e b.before)
    where
      index_lt : (b : HasStridedByte c byte) → b.group * c.segment_count + b.segment < 0 + k
      index_lt b =
          let up : suc b.group * c.segment_count ≤ c.group_count * c.segment_count =
            mul-le-mul_right c.segment_count b.group_lt in
          omega (
            arith,
            up,
            suc-mul b.group c.segment_count,
            b.segment_lt,
            mul_comm c.group_count c.segment_count,
          )

  pub segments_nonempty : (k n : ℕ) (y : Interval) → In y (segments k c n) → y.0 < y.1
  unfolding numbered_segment
  segments_nonempty k n y i =
      let (m, a, b, e) = In-segments k n y i in
      subst (λ w. w.0 < w.1) (sym e) (omega (arith, v.size_pos))
