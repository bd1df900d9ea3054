-- ===== src/Base/Pigeonhole.antt =====
-- A list without repetitions inside another is no longer than it, and fills it when as long.
use Prim.Native.Nat.{suc, ◌≤◌, ◌<◌}
use mathlib.Core.Path.{◌≡◌, refl, sym, subst, ◌∙◌}
use mathlib.Core.Logic.{inl, inr, ◌≢◌}
use mathlib.Core.List.{List, [], ◌∷◌}
use native.Mathlib.Omega.{arith}
use runen_gpu.Base.Lists.{length}
use runen_gpu.Base.Members.{In, Distinct}

module _ {A : Type 0} where
  abbrev without : (a : A) (ys : List A) → In a ys → List A
  without a [] m = []
  without a (y ∷ ys) (inl e) = ys
  without a (y ∷ ys) (inr m) = y ∷ without a ys m

  length-without : (a : A) (ys : List A) (m : In a ys) → length ys ≡ suc (length (without a ys m))
  length-without a [] m = absurd m
  length-without a (y ∷ ys) (inl e) = refl
  length-without a (y ∷ ys) (inr m) = omega (arith, length-without a ys m)

  In-without : (a b : A) (ys : List A) (m : In a ys) → In b ys → b ≢ a → In b (without a ys m)
  In-without a b [] m k n = absurd k
  In-without a b (y ∷ ys) (inl e) (inl f) n = absurd (n (f ∙ sym e))
  In-without a b (y ∷ ys) (inl e) (inr k) n = k
  In-without a b (y ∷ ys) (inr m) (inl f) n = inl f
  In-without a b (y ∷ ys) (inr m) (inr k) n = inr (In-without a b ys m k n)

  pub length-le_of_subset :
      (xs ys : List A) → Distinct xs → ((a : A) → In a xs → In a ys) → length xs ≤ length ys
  length-le_of_subset [] ys d sub = omega arith
  length-le_of_subset (x ∷ xs) ys d sub =
      let m = sub x (inl refl) in
      let shorter =
        length-le_of_subset xs (without x ys m) d.1
          (λ a k. In-without x a ys m (sub a (inr k)) (λ e. d.0 (subst (λ b. In b xs) e k))) in
      omega (arith, length-without x ys m)

  -- An element outside makes room for one more.
  pub length-lt_of_missing :
      (xs ys : List A) (a : A)
      → Distinct xs
      → ((b : A) → In b xs → In b ys)
      → In a ys
      → (¬ In a xs)
      → length xs < length ys
  length-lt_of_missing xs ys a d sub m n = length-le_of_subset (a ∷ xs) ys (n, d) inside
    where
      inside : (b : A) → In b (a ∷ xs) → In b ys
      inside b (inl e) = subst (λ c. In c ys) (sym e) m
      inside b (inr k) = sub b k
