-- ===== src/Graph/Coverage/Intersect/Meet.antt =====
-- The two-sided loop covers exactly the bytes that both sides cover.
use runen_gpu.Base.{
  ℕ, zero, suc, ◌+◌, ◌-◌, ◌≤◌, ◌<◌, ◌≡◌, refl, subst, ◌⊎◌, inl, inr, ◌↔◌, Bool, true, false, Option,
  some, none, arith, List, [], ◌∷◌, ◌++◌, All, length, max, min, ltb, leb, Bool-cases, u64_mod,
  leb→le,
}
use runen_gpu.Resource.{GpuBufferHandle}
use runen_gpu.Access.Range.{buffer_range}
use runen_gpu.Graph.Intervals.{Interval}
use runen_gpu.Graph.Intervals.Laws.{Covers, Separate}
use runen_gpu.Graph.Intervals.Fits.{Fits, All-append}
use runen_gpu.Graph.Coverage.{GpuBufferCoverage, dense}
use runen_gpu.Graph.Coverage.Bytes.{CoversAny, IsCoverageOf}
use runen_gpu.Graph.Coverage.Merge.{CoverageIntervals}
use runen_gpu.Graph.Coverage.Merge.Stream.{Drains, Covers-In}
use runen_gpu.Graph.Coverage.Contains.Advance.{Ahead, Drains-Ahead}
use runen_gpu.Graph.Coverage.Normalize.Laws.{CoversAny-append}
use runen_gpu.Graph.Coverage.Intersect.{common_range, next_if, meet_intervals}

-- What is left of a side after a round.
abbrev left_after : Bool → Interval → List Interval → List Interval
left_after true x xs = xs
left_after false x xs = x ∷ xs

next_if-Ahead :
    (ended : Bool) (x : Interval) (intervals : CoverageIntervals) (xs : List Interval)
    → Drains intervals xs
    → (found : Option Interval) × (after : CoverageIntervals) × (next_if ended x intervals
        ≡ some (found, after))
      × Ahead found after (left_after ended x xs)
unfolding next_if
next_if-Ahead true x intervals xs d = Drains-Ahead intervals xs d
next_if-Ahead false x intervals xs d = (some x, intervals, refl, (refl, d))

abbrev Both : List Interval → List Interval → ℕ → Type 0
Both xs ys byte = Covers xs byte × Covers ys byte

-- An interval that ends no later than another has no byte in what comes after the other.
after_both :
    (x y : Interval) (ys : List Interval) (byte : ℕ)
    → x.1 ≤ y.1
    → Separate (y ∷ ys)
    → byte < x.1
    → ¬ Covers ys byte
after_both x y ys byte le s h b =
    let (z, m, low, high) = Covers-In ys byte b in omega (arith, s.0 z m, low)

Covers-left_after :
    (ended : Bool) (x : Interval) (xs : List Interval) (byte : ℕ)
    → Covers (left_after ended x xs) byte
    → Covers (x ∷ xs) byte
Covers-left_after true x xs byte b = inr b
Covers-left_after false x xs byte b = b

module _ (x y : Interval) (xs ys : List Interval) (s : Separate (x ∷ xs)) (t : Separate (y ∷ ys))
    (byte : ℕ) where
  abbrev Common : Type 0
  Common = (max x.0 y.0 ≤ byte) × (byte < min x.1 y.1)

  round-to :
      Common ⊎ Both (left_after (leb x.1 y.1) x xs) (left_after (leb y.1 x.1) y ys) byte
      → Both (x ∷ xs) (y ∷ ys) byte
  round-to (inl c) =
      (inl (omega (arith, c.0), omega (arith, c.1)), inl (omega (arith, c.0), omega (arith, c.1)))
  round-to (inr b) =
      (Covers-left_after (leb x.1 y.1) x xs byte b.0, Covers-left_after (leb y.1 x.1) y ys byte b.1)

  kept :
      (ended : Bool) (z : Interval) (zs : List Interval)
      → (ended ≡ false)
      → Covers (z ∷ zs) byte
      → Covers (left_after ended z zs) byte
  kept true z zs e b = absurd (cc)
  kept false z zs e b = b

  later :
      (ended : Bool) (z : Interval) (zs : List Interval)
      → Covers zs byte
      → Covers (left_after ended z zs) byte
  later true z zs b = b
  later false z zs b = inr b

  round-from :
      Both (x ∷ xs) (y ∷ ys) byte
      → Common ⊎ Both (left_after (leb x.1 y.1) x xs) (left_after (leb y.1 x.1) y ys) byte
  round-from (inl a, inl b) = inl (omega (arith, a, b), omega (arith, a, b))
  round-from (inl a, inr b) = elim (Bool-cases (leb x.1 y.1)) [
    | inl le ↦ absurd (after_both x y ys byte (leb→le x.1 y.1 le) t a.1 b)
    | inr gt ↦ inr (kept (leb x.1 y.1) x xs gt (inl a), later (leb y.1 x.1) y ys b)
  ]
  round-from (inr a, inl b) = elim (Bool-cases (leb y.1 x.1)) [
    | inl le ↦ absurd (after_both y x xs byte (leb→le y.1 x.1 le) s b.1 a)
    | inr gt ↦ inr (later (leb x.1 y.1) x xs a, kept (leb y.1 x.1) y ys gt (inl b))
  ]
  round-from (inr a, inr b) = inr (later (leb x.1 y.1) x xs a, later (leb y.1 x.1) y ys b)

-- A round uses up an interval of one of the sides.
length-left_after :
    (x y : Interval) (xs ys : List Interval)
    → length (left_after (leb x.1 y.1) x xs) + length (left_after (leb y.1 x.1) y ys)
      < length (x ∷ xs) + length (y ∷ ys)
length-left_after x y xs ys = ground arith

All-left_after :
    (P : Interval → Type 0) (ended : Bool) (x : Interval) (xs : List Interval)
    → All P (x ∷ xs)
    → All P (left_after ended x xs)
All-left_after P true x xs h = h.1
All-left_after P false x xs h = h

Separate-left_after :
    (ended : Bool) (x : Interval) (xs : List Interval)
    → Separate (x ∷ xs)
    → Separate (left_after ended x xs)
Separate-left_after true x xs h = h.1
Separate-left_after false x xs h = h

module _ (buffer : GpuBufferHandle) (small : buffer.size_bytes < u64_mod) where
  common_range-CoversAny :
      (x y : Interval)
      → Fits buffer.size_bytes x
      → (pushed : List GpuBufferCoverage) × (common_range buffer x y ≡ some pushed)
        × All (IsCoverageOf buffer) pushed
        × ((byte : ℕ) → CoversAny pushed byte ↔ ((max x.0 y.0 ≤ byte) × (byte < min x.1 y.1)))
  unfolding common_range buffer_range
  common_range-CoversAny x y h = elim (Bool-cases (ltb (max x.0 y.0) (min x.1 y.1))) [
    | inl e ↦ (
      dense (record { offset = max x.0 y.0; size = min x.1 y.1 - max x.0 y.0 }) ∷ [],
      ground arith,
      (record { nonempty = ground arith; inside = ground arith }, tt),
      λ byte. (
        λ b. elim b [ inl k ↦ (k.0, ground arith) | inr k ↦ absurd k ],
        λ b. inl (b.0, ground arith),
      ),
    )
    | inr e ↦ ([], rw e refl, tt, λ byte. (λ b. absurd b, λ b. ground arith))
  ]

  pub meet_intervals-CoversAny :
      (fuel : ℕ) (left right : Option Interval) (ls rs : CoverageIntervals) (xs ys : List Interval)
      → length xs + length ys < fuel
      → Ahead left ls xs
      → Ahead right rs ys
      → Separate xs
      → Separate ys
      → All (Fits buffer.size_bytes) xs
      → (met : List GpuBufferCoverage) × (meet_intervals fuel buffer left ls right rs ≡ some met)
        × All (IsCoverageOf buffer) met
        × ((byte : ℕ) → CoversAny met byte ↔ Both xs ys byte)
  unfolding meet_intervals
  meet_intervals-CoversAny zero left right ls rs xs ys h a b s t f = absurd (omega arith)
  meet_intervals-CoversAny (suc fuel) none right ls rs xs ys h a b s t f =
      ([], refl, tt, λ byte. (λ k. absurd k, λ k. subst (λ l. Covers l byte) a k.0))
  meet_intervals-CoversAny (suc fuel) (some x) none ls rs xs ys h a b s t f =
      ([], refl, tt, λ byte. (λ k. absurd k, λ k. subst (λ l. Covers l byte) b k.1))
  meet_intervals-CoversAny (suc fuel) (some x) (some y) ls rs [] ys h a b s t f = absurd a
  meet_intervals-CoversAny (suc fuel) (some x) (some y) ls rs (x' ∷ xs) [] h a b s t f = absurd b
  meet_intervals-CoversAny (suc fuel) (some x) (some y) ls rs (x' ∷ xs) (y' ∷ ys) h a b s t f =
      let (pushed, pe, pv, pb) = common_range-CoversAny x' y' f.0 in
      let (l, la, le, lh) = next_if-Ahead (leb x'.1 y'.1) x' ls xs a.1 in
      let (r, ra, re, rh) = next_if-Ahead (leb y'.1 x'.1) y' rs ys b.1 in
      let (rest, me, mv, mb) =
        meet_intervals-CoversAny fuel l r la ra (left_after (leb x'.1 y'.1) x' xs)
          (left_after (leb y'.1 x'.1) y' ys) (omega (arith, length-left_after x' y' xs ys)) lh rh
          (Separate-left_after _ x' xs s) (Separate-left_after _ y' ys t)
          (All-left_after (Fits buffer.size_bytes) _ x' xs f) in
      (
        pushed ++ rest,
        rw (a.0, b.0, pe, le, re, me) refl,
        All-append (IsCoverageOf buffer) pushed rest pv mv,
        λ byte. (
          λ k. round-to x' y' xs ys s t byte (elim ((CoversAny-append pushed rest byte).0 k) [
            | inl c ↦ inl ((pb byte).0 c)
            | inr c ↦ inr ((mb byte).0 c)
          ]),
          λ k. (CoversAny-append pushed rest byte).1 (elim (round-from x' y' xs ys s t byte k) [
            | inl c ↦ inl ((pb byte).1 c)
            | inr c ↦ inr ((mb byte).1 c)
          ]),
        ),
      )
