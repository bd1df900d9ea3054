-- ===== src/Graph/Coverage/Contains/Laws.antt =====
-- `buffer_coverage_contains` answers whether every required byte is available.
use runen_gpu.Base.{
  ℕ, zero, suc, ◌+◌, ◌≤◌, ◌<◌, ◌≡◌, refl, inl, inr, ◌↔◌, Bool, true, false, Option, some, List, [],
  ◌∷◌, arith, In, All, length, all, any, Bool-cases,
}
use runen_gpu.Base.Optional.{◌>>=◌}
use runen_gpu.Resource.{GpuBufferHandle}
use runen_gpu.Graph.Intervals.{Interval}
use runen_gpu.Graph.Intervals.Laws.{Covers, Separate}
use runen_gpu.Graph.Coverage.{GpuBufferCoverage, fast_contains}
use runen_gpu.Graph.Coverage.Bytes.{CoversByte, CoversAny, IsCoverageOf}
use runen_gpu.Graph.Coverage.Fast.{fast_contains-CoversByte}
use runen_gpu.Graph.Coverage.Merge.{CoverageIntervals, new_intervals, intervals_next}
use runen_gpu.Graph.Coverage.Merge.Stream.{Drains, Proper}
use runen_gpu.Graph.Coverage.Merge.Yield.{new_intervals-Drains}
use runen_gpu.Graph.Coverage.Contains.{
  cover_interval, require_step, require_all, coverage_bound, buffer_coverage_contains,
}
use runen_gpu.Graph.Coverage.Contains.Advance.{Drains-Ahead, length-drop_before}
use runen_gpu.Graph.Coverage.Contains.Stretch.{
  IsAvailable, Decides, yes_covered, not_covered, later-IsAvailable, cover_interval-Decides,
}

-- The answer is right: every required byte is there, or one is shown that is not.
data Verdict (Need Have : ℕ → Type 0) (run : Option Bool) : Type 0 where
  all_there : run ≡ some true → ((byte : ℕ) → Need byte → Have byte) → Verdict Need Have run
  one_missing : (byte : ℕ) → run ≡ some false → Need byte → (¬ Have byte) → Verdict Need Have run

module _ (Have : ℕ → Type 0) where
  first_covered :
      (x : Interval) (xs : List Interval) (run : Option Bool)
      → ((byte : ℕ) → x.0 ≤ byte → byte < x.1 → Have byte)
      → Verdict (Covers xs) Have run
      → Verdict (Covers (x ∷ xs)) Have run
  first_covered x xs run here (all_there r b) =
      all_there r (λ byte k. elim k [ inl h ↦ here byte h.0 h.1 | inr h ↦ b byte h ])
  first_covered x xs run here (one_missing byte r need miss) = one_missing byte r (inr need) miss

  decided :
      (again : CoverageIntervals → Option Interval → CoverageIntervals → Option Bool) (bound : ℕ)
      (required : CoverageIntervals) (x : Interval) (needs xs : List Interval)
      (available : Option Interval) (intervals : CoverageIntervals)
      → x.0 < x.1
      → ((found : Option Interval) (after : CoverageIntervals) (ys : List Interval)
          → IsAvailable Have x.1 found after ys
          → length ys ≤ length xs
          → Verdict (Covers needs) Have (again required found after))
      → Decides Have x.0 x.1 (cover_interval bound bound x.0 x.1 available intervals) (length xs)
      → Verdict
          (Covers (x ∷ needs))
          Have
          (require_step again bound (some x) required available intervals)
  unfolding require_step
  decided again bound required x needs xs available intervals p next (yes_covered a i ys r v k b) =
      rw r (first_covered x needs _ b (next a i ys v k))
  decided again bound required x needs xs available intervals p next
        (not_covered a i byte r low high miss) =
      one_missing byte (rw r refl) (inl (low, high)) miss

  require_all-Verdict :
      (fuel bound low : ℕ) (required : CoverageIntervals) (needs : List Interval)
      (available : Option Interval) (intervals : CoverageIntervals) (xs : List Interval)
      → length needs < fuel
      → length xs + 1 < bound
      → Drains required needs
      → Separate needs
      → Proper needs
      → ((y : Interval) → In y needs → low ≤ y.0)
      → IsAvailable Have low available intervals xs
      → Verdict (Covers needs) Have (require_all fuel bound required available intervals)
  unfolding require_all
  require_all-Verdict zero bound low required needs available intervals xs h k d s p l v =
      absurd (omega arith)
  require_all-Verdict (suc fuel) bound low required [] available intervals xs h k d s p l v =
      all_there (rw d.1 refl) (λ byte b. absurd b)
  require_all-Verdict (suc fuel) bound low required (x ∷ needs) available intervals xs h k d s p l
        v =
      rw d.1 (
        decided (require_all fuel bound) bound d.0 x needs xs available intervals (p x (inl refl))
          (λ found after ys w n.
            require_all-Verdict fuel bound x.1 d.0 needs found after ys (omega arith) (omega arith)
              d.2 s.1 (λ y m. p y (inr m)) (λ y m. below y m) w)
          (cover_interval-Decides Have bound x.1 bound x.0 available intervals xs (omega arith)
            (omega arith) (λ lt. omega (arith, length-drop_before x.0 xs))
            (later-IsAvailable Have low x.0 available intervals xs (l x (inl refl)) v)
            (proper_le (p x (inl refl)))))
    where
      below : (y : Interval) → In y needs → x.1 ≤ y.0
      below y m = omega (arith, s.0 y m)

      proper_le : x.0 < x.1 → x.0 ≤ x.1
      proper_le q = omega arith

-- The quick test of all the required values answers yes only when all their bytes are there.
module _ (buffer : GpuBufferHandle) (have : List GpuBufferCoverage)
    (have_valid : All (IsCoverageOf buffer) have) where
  same_need :
      (run : Option Bool) (needs : List Interval) (required : List GpuBufferCoverage)
      → ((byte : ℕ) → Covers needs byte ↔ CoversAny required byte)
      → Verdict (Covers needs) (CoversAny have) run
      → Verdict (CoversAny required) (CoversAny have) run
  same_need run needs required e (all_there r b) = all_there r (λ byte k. b byte ((e byte).1 k))
  same_need run needs required e (one_missing byte r need miss) =
      one_missing byte r ((e byte).0 need) miss

  any_contains :
      (values : List GpuBufferCoverage) (value : GpuBufferCoverage)
      → All (IsCoverageOf buffer) values
      → IsCoverageOf buffer value
      → any (λ coverage. fast_contains coverage value) values ≡ true
      → (byte : ℕ) → CoversByte value byte
      → CoversAny values byte
  any_contains [] value w v h byte b = absurd (cc)
  any_contains (c ∷ cs) value w v h byte b = elim (Bool-cases (fast_contains c value)) [
    | inl e ↦ inl (fast_contains-CoversByte buffer c value w.0 v e byte b)
    | inr e ↦ inr (any_contains cs value w.1 v (ground arith) byte b)
  ]

  all_contains :
      (required : List GpuBufferCoverage)
      → All (IsCoverageOf buffer) required
      → all (λ value. any (λ coverage. fast_contains coverage value) have) required ≡ true
      → (byte : ℕ) → CoversAny required byte
      → CoversAny have byte
  all_contains [] w h byte b = absurd b
  all_contains (v ∷ vs) w h byte (inl b) = any_contains have v have_valid w.0 (ground arith) byte b
  all_contains (v ∷ vs) w h byte (inr b) = all_contains vs w.1 (ground arith) byte b

  slow :
      (required : List GpuBufferCoverage)
      → All (IsCoverageOf buffer) required
      → Verdict (CoversAny required) (CoversAny have) (
          intervals_next (new_intervals have) >>= λ step.
          require_all
            (coverage_bound (new_intervals have) (new_intervals required))
            (coverage_bound (new_intervals have) (new_intervals required))
            (new_intervals required)
            step.0
            step.1)
  slow required w =
      let (hs, hd, hn, hsep, hp, hc) = new_intervals-Drains buffer have have_valid in
      let (rs, rd, rn, rsep, rp, rc) = new_intervals-Drains buffer required w in
      let (found, after, run, a) = Drains-Ahead (new_intervals have) hs hd in
      let bound : ℕ = coverage_bound (new_intervals have) (new_intervals required) in
      rw run (
        same_need _ rs required rc (
          require_all-Verdict (CoversAny have) bound bound 0 (new_intervals required) rs found after
            hs (omega arith) (omega arith) rd rsep rp (λ y m. omega arith)
            (record { ahead = a; separate = hsep; proper = hp; covers = λ byte _. hc byte })))

  contains-Verdict :
      (required : List GpuBufferCoverage)
      → All (IsCoverageOf buffer) required
      → Verdict (CoversAny required) (CoversAny have) (buffer_coverage_contains have required)
  unfolding buffer_coverage_contains
  contains-Verdict required w =
      let quick = all (λ value. any (λ coverage. fast_contains coverage value) have) required in
      elim (Bool-cases quick) [
        | inl e ↦ all_there (rw e refl) (all_contains required w e)
        | inr e ↦ rw e (slow required w)
      ]

  -- For coverage values of one buffer the test answers: it neither panics nor runs out of fuel, and
  -- the answer is yes exactly when every byte of the required values is a byte of the available ones.
  pub buffer_coverage_contains_iff :
      (required : List GpuBufferCoverage)
      → All (IsCoverageOf buffer) required
      → (answer : Bool) × (buffer_coverage_contains have required ≡ some answer)
        × ((answer ≡ true) ↔ ((byte : ℕ) → CoversAny required byte → CoversAny have byte))
  buffer_coverage_contains_iff required w = elim (contains-Verdict required w) [
    | all_there r b ↦ (true, r, (λ _. b, λ _. refl))
    | one_missing byte r need miss ↦
        (false, r, (λ e. absurd (cc), λ f. absurd (miss (f byte need))))
  ]
