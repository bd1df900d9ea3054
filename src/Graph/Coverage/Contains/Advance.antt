-- ===== src/Graph/Coverage/Contains/Advance.antt =====
-- The innermost loop drops the intervals that end before the cursor.
use runen_gpu.Base.{
  ℕ, zero, suc, ◌≤◌, ◌<◌, ◌≡◌, refl, sym, ap, subst, ◌∙◌, inl, inr, ◌↔◌, true, false, Option, some,
  none, List, [], ◌∷◌, arith, In, length, leb, Bool-cases, if◌then◌else◌,
}
use runen_gpu.Graph.Intervals.{Interval}
use runen_gpu.Graph.Intervals.Laws.{Covers, Separate}
use runen_gpu.Graph.Coverage.Merge.{CoverageIntervals, intervals_next}
use runen_gpu.Graph.Coverage.Merge.Stream.{Drains}
use runen_gpu.Graph.Coverage.Contains.{advance}

-- The interval in hand and what the iterator yields after it.
abbrev pub Ahead : Option Interval → CoverageIntervals → List Interval → Type 0
Ahead none intervals xs = xs ≡ []
Ahead (some x) intervals [] = ⊥
Ahead (some x) intervals (y ∷ ys) = (x ≡ y) × Drains intervals ys

pub Drains-Ahead :
    (intervals : CoverageIntervals) (xs : List Interval)
    → Drains intervals xs
    → (found : Option Interval) × (after : CoverageIntervals) × (intervals_next intervals
        ≡ some (found, after))
      × Ahead found after xs
Drains-Ahead intervals [] d = (none, d.0, d.1, refl)
Drains-Ahead intervals (x ∷ xs) d = (some x, d.0, d.1, (refl, d.2))

abbrev pub drop_before : ℕ → List Interval → List Interval
drop_before cursor [] = []
drop_before cursor (x ∷ xs) = if leb x.1 cursor then drop_before cursor xs else x ∷ xs

drop_skip :
    (cursor : ℕ) (x : Interval) (xs : List Interval)
    → leb x.1 cursor ≡ true
    → drop_before cursor (x ∷ xs) ≡ drop_before cursor xs
drop_skip cursor x xs h = rw h refl

drop_keep :
    (cursor : ℕ) (x : Interval) (xs : List Interval)
    → leb x.1 cursor ≡ false
    → drop_before cursor (x ∷ xs) ≡ x ∷ xs
drop_keep cursor x xs h = rw h refl

pub advance-Ahead :
    (fuel cursor : ℕ) (available : Option Interval) (intervals : CoverageIntervals)
    (xs : List Interval)
    → length xs < fuel
    → Ahead available intervals xs
    → (found : Option Interval) × (after : CoverageIntervals) × (advance fuel cursor available
          intervals
        ≡ some (found, after))
      × Ahead found after (drop_before cursor xs)
unfolding advance
advance-Ahead zero cursor available intervals xs h a = absurd (omega arith)
advance-Ahead (suc fuel) cursor none intervals xs h a =
    (none, intervals, refl, ap (drop_before cursor) a)
advance-Ahead (suc fuel) cursor (some x) intervals [] h a = absurd a
advance-Ahead (suc fuel) cursor (some x) intervals (y ∷ ys) h (e, d) =
    elim (Bool-cases (leb y.1 cursor)) [
      | inl skip ↦
          let (found, after, run, ahead) = Drains-Ahead intervals ys d in
          let (found', after', run', ahead') =
            advance-Ahead fuel cursor found after ys (omega arith) ahead in
          (found', after', rw (e, skip, run, run') refl, rw skip ahead')
      | inr keep ↦ (some x, intervals, rw (e, keep) refl, rw keep (e, d))
    ]

module _ (cursor : ℕ) where
  pub length-drop_before : (xs : List Interval) → length (drop_before cursor xs) ≤ length xs
  length-drop_before [] = omega arith
  length-drop_before (x ∷ xs) = ground (arith, length-drop_before xs)

  pub In-drop_before : (y : Interval) (xs : List Interval) → In y (drop_before cursor xs) → In y xs
  In-drop_before y [] m = m
  In-drop_before y (x ∷ xs) m = elim (Bool-cases (leb x.1 cursor)) [
    | inl skip ↦ inr (In-drop_before y xs (subst (In y) (drop_skip cursor x xs skip) m))
    | inr keep ↦ subst (In y) (drop_keep cursor x xs keep) m
  ]

  pub Separate-drop_before : (xs : List Interval) → Separate xs → Separate (drop_before cursor xs)
  Separate-drop_before [] s = tt
  Separate-drop_before (x ∷ xs) s = elim (Bool-cases (leb x.1 cursor)) [
    | inl skip ↦ rw skip (Separate-drop_before xs s.1)
    | inr keep ↦ rw keep s
  ]

  -- No byte from the cursor on is lost.
  pub Covers-drop_before :
      (xs : List Interval) (byte : ℕ)
      → cursor ≤ byte
      → Covers (drop_before cursor xs) byte ↔ Covers xs byte
  Covers-drop_before [] byte h = (λ b. b, λ b. b)
  Covers-drop_before (x ∷ xs) byte h = ground (arith, Covers-drop_before xs byte)

  pub head-drop_before :
      (xs ys : List Interval) (y : Interval) → drop_before cursor xs ≡ y ∷ ys → cursor < y.1
  head-drop_before [] ys y e = absurd (cc)
  head-drop_before (x ∷ xs) ys y e = elim (Bool-cases (leb x.1 cursor)) [
    | inl skip ↦ head-drop_before xs ys y (sym (drop_skip cursor x xs skip) ∙ e)
    | inr keep ↦
        let same : x ≡ y = cc (drop_keep cursor x xs keep, e) in
        subst (λ w. cursor < w.1) same (ground arith)
  ]

-- What is dropped for a cursor is dropped for a later one.
pub drop_before_again :
    (cursor later : ℕ) (xs : List Interval)
    → cursor ≤ later
    → drop_before later (drop_before cursor xs) ≡ drop_before later xs
drop_before_again cursor later [] h = refl
drop_before_again cursor later (x ∷ xs) h = elim (Bool-cases (leb x.1 cursor)) [
  | inl skip ↦
      let far : leb x.1 later ≡ true = ground arith in
      rw (skip, far) (drop_before_again cursor later xs h)
  | inr keep ↦ rw keep refl
]
