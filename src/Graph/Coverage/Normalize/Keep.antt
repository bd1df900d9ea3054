-- ===== src/Graph/Coverage/Normalize/Keep.antt =====
-- Dropping the values that others make redundant loses no byte.
use runen_gpu.Base.{
  ℕ, zero, suc, ◌+◌, ◌-◌, ◌*◌, ◌≤◌, ◌<◌, ◌≡◌, refl, sym, ap, subst, ◌∙◌, ◌⊎◌, inl, inr, ◌↔◌, Bool,
  true, false, arith, List, [], ◌∷◌, In, All, All-In, any, filter, enumerate, length, Bool-cases,
  if◌then◌else◌,
}
use native.Mathlib.Nat.{mul-le-mul_right, suc-mul}
use runen_gpu.Resource.{GpuBufferHandle}
use runen_gpu.Graph.Coverage.{GpuBufferCoverage, dense, strided, fast_contains}
use runen_gpu.Graph.Coverage.Bytes.{CoversByte, CoversAny, IsCoverageOf, IsCanonical}
use runen_gpu.Graph.Coverage.Fast.{fast_contains-CoversByte}
use runen_gpu.Graph.Coverage.Normalize.{Indexed, supersedes, is_kept, values_of, drop_redundant}
use runen_gpu.Graph.Coverage.Normalize.Weight.{weight, weight_le_span, fast_contains-Lighter}

any-In :
    {A : Type 0} (p : A → Bool) (xs : List A) → any p xs ≡ true → (a : A) × In a xs × (p a ≡ true)
any-In p [] h = absurd (cc h)
any-In p (x ∷ xs) h = elim (Bool-cases (p x)) [
  | inl e ↦ (x, inl refl, e)
  | inr e ↦ let (a, m, q) = any-In p xs (ground arith) in (a, inr m, q)
]

In-filter :
    {A : Type 0} (p : A → Bool) (xs : List A) (a : A) → In a xs → p a ≡ true → In a (filter p xs)
In-filter p [] a m h = m
In-filter p (x ∷ xs) a (inl e) h = rw (ap p (sym e) ∙ h) (inl e)
In-filter p (x ∷ xs) a (inr m) h = elim (Bool-cases (p x)) [
  | inl e ↦ rw e (inr (In-filter p xs a m h))
  | inr e ↦ rw e (In-filter p xs a m h)
]

In-if :
    {A : Type 0} (b : Bool) (x a : A) (ys : List A)
    → In a (if b then x ∷ ys else ys)
    → (a ≡ x) ⊎ In a ys
In-if true x a ys m = m
In-if false x a ys m = inr m

filter-In : {A : Type 0} (p : A → Bool) (xs : List A) (a : A) → In a (filter p xs) → In a xs
filter-In p [] a m = m
filter-In p (x ∷ xs) a m = elim (In-if (p x) x a (filter p xs) m) [
  | inl e ↦ inl e
  | inr k ↦ inr (filter-In p xs a k)
]

-- An indexed value of a list that is all of one buffer and in canonical form.
abbrev IsSound : GpuBufferHandle → ℕ → Indexed → Type 0
IsSound buffer count value = (value.0 < count) × IsCoverageOf buffer value.1 × IsCanonical value.1

supersedes-fast_contains :
    (other value : Indexed) → supersedes other value ≡ true → fast_contains other.1 value.1 ≡ true
unfolding supersedes
supersedes-fast_contains other value h = ground arith

module _ (buffer : GpuBufferHandle) (count : ℕ) where
  rank : Indexed → ℕ
  rank value = weight value.1 * suc count + (count - value.0)

  weight_le_buffer :
      (value : GpuBufferCoverage) → IsCoverageOf buffer value → weight value ≤ buffer.size_bytes
  weight_le_buffer (dense range) v = omega (arith, v.inside)
  weight_le_buffer (strided c) v =
      omega
        (arith, weight_le_span c v.1, v.1.inside, ap (λ (b : GpuBufferHandle). b.size_bytes) v.0)

  abbrev top : ℕ
  top = buffer.size_bytes * suc count + count

  rank_le : (value : Indexed) → IsSound buffer count value → rank value ≤ top
  unfolding rank
  rank_le value s = omega (arith, mul-le-mul_right (suc count) (weight_le_buffer value.1 s.1))

  -- What supersedes a value is heavier, or as heavy and before it.
  supersedes-rank :
      (other value : Indexed)
      → IsSound buffer count other
      → IsSound buffer count value
      → supersedes other value ≡ true
      → rank value < rank other
  unfolding supersedes rank
  supersedes-rank other value s t h =
      elim (fast_contains-Lighter buffer other.1 value.1 s.1 t.1 s.2 t.2 (ground arith)) [
        | inl lt ↦
            let up : suc (weight value.1) * suc count ≤ weight other.1 * suc count =
              mul-le-mul_right (suc count) lt in
            omega (arith, up, suc-mul (weight value.1) (suc count))
        | inr (e, back) ↦
            let first : other.0 < value.0 = ground arith in
            omega (arith, t.0, ap (λ (n : ℕ). n * suc count) e)
      ]

  module _ (ns : List Indexed) (sound : All (IsSound buffer count) ns) where
    IsSound-at : (value : Indexed) → In value ns → IsSound buffer count value
    IsSound-at value m = All-In (IsSound buffer count) ns sound value m

    -- A byte of a value is a byte of a value that is kept.
    kept_above :
        (fuel byte : ℕ) (value : Indexed)
        → top - rank value < fuel
        → In value ns
        → CoversByte value.1 byte
        → (w : Indexed) × In w ns × (is_kept ns w ≡ true) × CoversByte w.1 byte
    unfolding is_kept
    kept_above zero byte value h m b = absurd (omega arith)
    kept_above (suc fuel) byte value h m b =
        elim (Bool-cases (any (λ other. supersedes other value) ns)) [
          | inr e ↦ (value, m, rw e refl, b)
          | inl e ↦
              let (other, k, p) = any-In (λ other. supersedes other value) ns e in
              let s = IsSound-at other k in
              let t = IsSound-at value m in
              kept_above fuel byte other
                (omega (arith, supersedes-rank other value s t p, rank_le other s)) k
                (fast_contains-CoversByte buffer other.1 value.1 s.1 t.1
                  (supersedes-fast_contains other value p) byte b)
        ]

In-CoversAny :
    (ns : List Indexed) (w : Indexed) (byte : ℕ)
    → In w ns
    → CoversByte w.1 byte
    → CoversAny (values_of ns) byte
In-CoversAny [] w byte m b = absurd m
In-CoversAny (n ∷ ns) w byte (inl e) b = inl (subst (λ v. CoversByte v.1 byte) e b)
In-CoversAny (n ∷ ns) w byte (inr m) b = inr (In-CoversAny ns w byte m b)

CoversAny-In :
    (ns : List Indexed) (byte : ℕ)
    → CoversAny (values_of ns) byte
    → (w : Indexed) × In w ns × CoversByte w.1 byte
CoversAny-In [] byte b = absurd b
CoversAny-In (n ∷ ns) byte (inl b) = (n, inl refl, b)
CoversAny-In (n ∷ ns) byte (inr b) = let (w, m, k) = CoversAny-In ns byte b in (w, inr m, k)

values_of-enumerate : (i : ℕ) (vs : List GpuBufferCoverage) → values_of (enumerate i vs) ≡ vs
values_of-enumerate i [] = refl
values_of-enumerate i (v ∷ vs) = ap (λ l. v ∷ l) (values_of-enumerate (suc i) vs)

abbrev pub IsNormalInput : GpuBufferHandle → GpuBufferCoverage → Type 0
IsNormalInput buffer value = IsCoverageOf buffer value × IsCanonical value

enumerate-IsSound :
    (buffer : GpuBufferHandle) (count i : ℕ) (vs : List GpuBufferCoverage)
    → i + length vs ≤ count
    → All (IsNormalInput buffer) vs
    → All (IsSound buffer count) (enumerate i vs)
enumerate-IsSound buffer count i [] h v = tt
enumerate-IsSound buffer count i (w ∷ vs) h v =
    ((omega arith, v.0.0, v.0.1), enumerate-IsSound buffer count (suc i) vs (omega arith) v.1)

All-values_of :
    (buffer : GpuBufferHandle) (count : ℕ) (ns : List Indexed)
    → ((w : Indexed) → In w ns → IsSound buffer count w)
    → All (IsCoverageOf buffer) (values_of ns)
All-values_of buffer count [] h = tt
All-values_of buffer count (n ∷ ns) h =
    ((h n (inl refl)).1, All-values_of buffer count ns (λ w m. h w (inr m)))

module _ (buffer : GpuBufferHandle) (vs : List GpuBufferCoverage)
    (valid : All (IsNormalInput buffer) vs) where
  abbrev numbered : List Indexed
  numbered = enumerate 0 vs

  numbered-IsSound : All (IsSound buffer (length vs)) numbered
  numbered-IsSound = enumerate-IsSound buffer (length vs) 0 vs (omega arith) valid

  pub drop_redundant-IsCoverageOf : All (IsCoverageOf buffer) (drop_redundant vs)
  unfolding drop_redundant
  drop_redundant-IsCoverageOf =
      All-values_of buffer (length vs) (filter (is_kept numbered) numbered) (λ w m.
        All-In (IsSound buffer (length vs)) numbered numbered-IsSound w
          (filter-In (is_kept numbered) numbered w m))

  pub drop_redundant-CoversAny : (byte : ℕ) → CoversAny (drop_redundant vs) byte ↔ CoversAny vs byte
  unfolding drop_redundant
  drop_redundant-CoversAny byte = (
    λ b.
        let (w, m, k) = CoversAny-In (filter (is_kept numbered) numbered) byte b in
        subst (λ l. CoversAny l byte) (values_of-enumerate 0 vs)
          (In-CoversAny numbered w byte (filter-In (is_kept numbered) numbered w m) k),
    λ b.
        let (v, m, k) =
          CoversAny-In numbered byte
            (subst (λ l. CoversAny l byte) (sym (values_of-enumerate 0 vs)) b) in
        let (w, n, kept, c) =
          kept_above buffer (length vs) numbered numbered-IsSound
            (suc (top buffer (length vs) - rank buffer (length vs) v)) byte v (omega arith) m k in
        In-CoversAny (filter (is_kept numbered) numbered) w byte
          (In-filter (is_kept numbered) numbered w n kept) c,
  )
