-- ===== src/Graph/Coverage/Contains/Stretch.antt =====
-- The middle loop decides whether one interval is covered.
use runen_gpu.Base.{
  ℕ, zero, suc, ◌+◌, ◌≤◌, ◌<◌, ◌≡◌, refl, sym, ap, subst, inl, inr, ◌↔◌, true, false, Option, some,
  none, List, [], ◌∷◌, arith, length, min, ltb, Bool-cases, ltb→lt,
}
use runen_gpu.Graph.Intervals.{Interval}
use runen_gpu.Graph.Intervals.Laws.{Covers, Separate}
use runen_gpu.Graph.Coverage.Merge.{CoverageIntervals}
use runen_gpu.Graph.Coverage.Merge.Stream.{Proper, Covers-In}
use runen_gpu.Graph.Coverage.Contains.{Covered, cover_step, cover_interval}
use runen_gpu.Graph.Coverage.Contains.Advance.{
  Ahead, drop_before, advance-Ahead, length-drop_before, In-drop_before, Separate-drop_before,
  Covers-drop_before, head-drop_before,
}

-- The count of intervals falls when the cursor has moved to the end of the first.
drop_first :
    (end : ℕ) (y : Interval) (ys : List Interval)
    → min y.1 end < end
    → length (drop_before (min y.1 end) (y ∷ ys)) ≤ length ys
drop_first end y ys h = ground (arith, length-drop_before (min y.1 end) ys)

fuel_left :
    (end fuel : ℕ) (y : Interval) (ys xs : List Interval)
    → xs ≡ y ∷ ys
    → length xs + 1 < suc fuel
    → min y.1 end < end
    → length (drop_before (min y.1 end) xs) + 1 < fuel
fuel_left end fuel y ys xs e h k = omega (
  arith,
  drop_first end y ys k,
  ap (λ l. length l) e,
  ap (λ l. length (drop_before (min y.1 end) l)) e,
)

-- `Have` is what the available values cover; the loop sees it from the cursor on.
module _ (Have : ℕ → Type 0) where
  pub record IsAvailable (from : ℕ) (available : Option Interval) (intervals : CoverageIntervals)
      (xs : List Interval) : Type 0 where
    pub ahead : Ahead available intervals xs
    pub separate : Separate xs
    pub proper : Proper xs
    pub covers : (byte : ℕ) → from ≤ byte → Covers xs byte ↔ Have byte

  pub data Decides (start end : ℕ) (run : Option Covered) (count : ℕ) : Type 0 where
    yes_covered :
        (available : Option Interval) (intervals : CoverageIntervals) (xs : List Interval)
        → run ≡ some (true, available, intervals)
        → IsAvailable end available intervals xs
        → length xs ≤ count
        → ((byte : ℕ) → start ≤ byte → byte < end → Have byte)
        → Decides start end run count
    not_covered :
        (available : Option Interval) (intervals : CoverageIntervals) (byte : ℕ)
        → run ≡ some (false, available, intervals)
        → start ≤ byte
        → byte < end
        → (¬ Have byte)
        → Decides start end run count

  dropped :
      (cursor : ℕ) (available : Option Interval) (intervals : CoverageIntervals)
      (xs : List Interval) (found : Option Interval) (after : CoverageIntervals)
      → IsAvailable cursor available intervals xs
      → Ahead found after (drop_before cursor xs)
      → IsAvailable cursor found after (drop_before cursor xs)
  dropped cursor available intervals xs found after v a = record {
    ahead = a;
    separate = Separate-drop_before cursor xs v.separate;
    proper = λ y m. v.proper y (In-drop_before cursor y xs m);
    covers = λ byte h. (
      λ b. (v.covers byte h).0 ((Covers-drop_before cursor xs byte h).0 b),
      λ b. (Covers-drop_before cursor xs byte h).1 ((v.covers byte h).1 b),
    );
  }

  -- A byte before all intervals is not covered.
  before_all :
      (cursor : ℕ) (x : Interval) (xs : List Interval)
      → cursor < x.0
      → Separate (x ∷ xs)
      → Proper (x ∷ xs)
      → ¬ Covers (x ∷ xs) cursor
  before_all cursor x xs lt s p (inl b) = omega (arith, b.0, lt)
  before_all cursor x xs lt s p (inr b) =
      let (y, m, low, high) = Covers-In xs cursor b in
      omega (arith, s.0 y m, p x (inl refl), low, lt)

  pub later-IsAvailable :
      (from later : ℕ) (available : Option Interval) (intervals : CoverageIntervals)
      (xs : List Interval)
      → from ≤ later
      → IsAvailable from available intervals xs
      → IsAvailable later available intervals xs
  later-IsAvailable from later available intervals xs h v = record {
    ahead = v.ahead;
    separate = v.separate;
    proper = v.proper;
    covers = λ byte k. v.covers byte (omega arith);
  }

  more_count :
      (start end n m : ℕ) (run : Option Covered)
      → n ≤ m
      → Decides start end run n
      → Decides start end run m
  more_count start end n m run h (yes_covered a i xs r v k b) =
      yes_covered a i xs r v (omega arith) b
  more_count start end n m run h (not_covered a i byte r low high miss) =
      not_covered a i byte r low high miss

  module _ (cursor end : ℕ) (lt : cursor < end)
      (again : ℕ → Option Interval → CoverageIntervals → Option Covered) where
    -- The interval in hand starts no later than the cursor, so the bytes up to its end are covered.
    reached :
        (x : Interval) (intervals : CoverageIntervals) (count : ℕ) (run : Option Covered)
        → ((byte : ℕ) → cursor ≤ byte → byte < x.1 → Have byte)
        → cursor < x.1
        → Decides (min x.1 end) end run count
        → Decides cursor end run count
    reached x intervals count run here far (yes_covered a i xs r v k b) =
        yes_covered a i xs r v k (λ byte low high. elim (Bool-cases (ltb byte x.1)) [
          | inl inside ↦ here byte low (ltb→lt byte x.1 inside)
          | inr after ↦ b byte (ground arith) high
        ])
    reached x intervals count run here far (not_covered a i byte r low high miss) =
        not_covered a i byte r (omega arith) high miss

    step-Decides :
        (found : Option Interval) (after : CoverageIntervals) (xs : List Interval)
        → IsAvailable cursor found after xs
        → ((y : Interval) (ys : List Interval) → xs ≡ y ∷ ys → cursor < y.1)
        → ((y : Interval) (ys : List Interval)
            → xs ≡ y ∷ ys
            → cursor < y.1
            → Decides (min y.1 end) end (again (min y.1 end) found after) (length xs))
        → Decides cursor end (cover_step again cursor end found after) (length xs)
    unfolding cover_step
    step-Decides none after xs v beyond next =
        not_covered none after cursor refl (omega arith) lt
          (λ b. subst (λ l. Covers l cursor) v.ahead ((v.covers cursor (omega arith)).1 b))
    step-Decides (some x) after [] v beyond next = absurd (v.ahead)
    step-Decides (some x) after (y ∷ ys) v beyond next = elim (Bool-cases (ltb cursor x.0)) [
      | inl early ↦ not_covered (some x) after cursor (rw early refl) (omega arith) lt (λ b.
          before_all cursor y ys (subst (λ w. cursor < w.0) v.ahead.0 (ltb→lt cursor x.0 early))
            v.separate v.proper ((v.covers cursor (omega arith)).1 b))
      | inr touch ↦
          let far : cursor < y.1 = beyond y ys refl in
          let here = λ (byte : ℕ) (low : cursor ≤ byte) (high : byte < y.1).
            (v.covers byte low).0 (inl (starts x y v.ahead.0 touch byte low, high)) in
          rw touch (
            subst (λ w. Decides cursor end (again (min w.1 end) (some x) after) (length (y ∷ ys)))
              (sym v.ahead.0) (reached y after (length (y ∷ ys)) _ here far (next y ys refl far)))
    ]
      where
        starts :
            (x y : Interval)
            → x ≡ y
            → ltb cursor x.0 ≡ false
            → (byte : ℕ) → cursor ≤ byte
            → y.0 ≤ byte
        starts x y e touch byte low = subst (λ w. w.0 ≤ byte) e (ground arith)

  module _ (bound end : ℕ) where
    -- With fuel for the intervals that are left, the loop answers, and rightly.
    pub cover_interval-Decides :
        (fuel cursor : ℕ) (available : Option Interval) (intervals : CoverageIntervals)
        (xs : List Interval)
        → length xs < bound
        → 0 < fuel
        → (cursor < end → length (drop_before cursor xs) + 1 < fuel)
        → IsAvailable cursor available intervals xs
        → cursor ≤ end
        → Decides cursor end (cover_interval fuel bound cursor end available intervals) (length xs)
    unfolding cover_interval
    cover_interval-Decides zero cursor available intervals xs h p k v le = absurd (omega arith)
    cover_interval-Decides (suc fuel) cursor available intervals xs h p k v le =
        elim (Bool-cases (ltb cursor end)) [
          | inr stop ↦
              yes_covered available intervals xs (rw stop refl)
                (later-IsAvailable cursor end available intervals xs le v) (omega arith)
                (λ byte low high. absurd (ground arith))
          | inl more ↦
              let lt = ltb→lt cursor end more in
              let (found, after, run, a) =
                advance-Ahead bound cursor available intervals xs h v.ahead in
              rw (more, run)
                (more_count cursor end (length (drop_before cursor xs)) (length xs) _
                  (length-drop_before cursor xs)
                  (step-Decides cursor end lt (λ next. cover_interval fuel bound next end) found
                    after (drop_before cursor xs)
                    (dropped cursor available intervals xs found after v a)
                    (λ y ys e. head-drop_before cursor xs ys y e)
                    (λ y ys e far.
                      cover_interval-Decides fuel (min y.1 end) found after (drop_before cursor xs)
                        (omega (arith, length-drop_before cursor xs)) (omega (arith, k lt))
                        (λ again. fuel_left end fuel y ys (drop_before cursor xs) e (k lt) again)
                        (later-IsAvailable cursor (min y.1 end) found after (drop_before cursor xs)
                          (omega arith) (dropped cursor available intervals xs found after v a))
                        (omega arith))))
        ]
