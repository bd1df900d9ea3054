-- ===== src/Base/Members.antt =====
-- Membership and "for all elements" by recursion, so that they compute to sums and products.
use Prim.Native.Nat.{ℕ, zero, suc, ◌+◌}
use mathlib.Core.Path.{◌≡◌, subst, sym, ap}
use mathlib.Core.Option.{some}
use native.Mathlib.Omega.{arith}
use runen_gpu.Base.Lists.{flat_map, enumerate, get_elem?}
use mathlib.Core.Logic.{◌⊎◌, inl, inr}
use mathlib.Core.List.{List, [], ◌∷◌, ◌++◌, map}

-- The data of the program live in `Type 0`, and so does membership, whose empty case is `⊥`.
module _ {A : Type 0} where
  abbrev pub In : A → List A → Type 0
  In a [] = ⊥
  In a (x ∷ xs) = (a ≡ x) ⊎ In a xs

  -- No element stands twice.
  abbrev pub Distinct : List A → Type 0
  Distinct [] = Unit
  Distinct (x ∷ xs) = (¬ In x xs) × Distinct xs

  pub In-append : (a : A) (xs ys : List A) → In a (xs ++ ys) → In a xs ⊎ In a ys
  In-append a [] ys h = inr h
  In-append a (x ∷ xs) ys (inl e) = inl (inl e)
  In-append a (x ∷ xs) ys (inr m) = elim (In-append a xs ys m) [
    | inl l ↦ inl (inr l)
    | inr r ↦ inr r
  ]

  pub In-append_left : (a : A) (xs ys : List A) → In a xs → In a (xs ++ ys)
  In-append_left a [] ys h = absurd h
  In-append_left a (x ∷ xs) ys (inl e) = inl e
  In-append_left a (x ∷ xs) ys (inr m) = inr (In-append_left a xs ys m)

  pub In-append_right : (a : A) (xs ys : List A) → In a ys → In a (xs ++ ys)
  In-append_right a [] ys h = h
  In-append_right a (x ∷ xs) ys h = inr (In-append_right a xs ys h)

module _ {ℓ κ} {A : Type ℓ} where
  abbrev pub All : (A → Type κ) → List A → Type κ
  All P [] = Unit
  All P (x ∷ xs) = P x × All P xs

pub All-In {κ} : {A : Type 0} (P : A → Type κ) (xs : List A) → All P xs → (a : A) → In a xs → P a
All-In P [] h a m = absurd m
All-In P (x ∷ xs) h a (inl e) = subst P (sym e) h.0
All-In P (x ∷ xs) h a (inr m) = All-In P xs h.1 a m

module _ {A : Type 0} {B : Type 0} where
  pub In-map : (f : A → B) (a : A) (xs : List A) → In a xs → In (f a) (map f xs)
  In-map f a [] m = absurd m
  In-map f a (x ∷ xs) (inl e) = inl (ap f e)
  In-map f a (x ∷ xs) (inr m) = inr (In-map f a xs m)

  pub In-flat_map :
      (f : A → List B) (a : A) (b : B) (xs : List A) → In a xs → In b (f a) → In b (flat_map f xs)
  In-flat_map f a b [] m k = absurd m
  In-flat_map f a b (x ∷ xs) (inl e) k =
      In-append_left b (f x) (flat_map f xs) (subst (λ y. In b (f y)) e k)
  In-flat_map f a b (x ∷ xs) (inr m) k =
      In-append_right b (f x) (flat_map f xs) (In-flat_map f a b xs m k)

i+0 : (i : ℕ) → i ≡ i + 0
i+0 i = omega arith

pub In-enumerate :
    {A : Type 0} (i k : ℕ) (a : A) (xs : List A)
    → get_elem? xs k ≡ some a
    → In {A = ℕ × A} (i + k, a) (enumerate i xs)
In-enumerate i k a [] g = absurd (cc g)
In-enumerate i zero a (x ∷ xs) g = inl (cc (g, i+0 i))
In-enumerate i (suc k) a (x ∷ xs) g =
    subst (λ j. In {A = ℕ × _} (j, a) (enumerate i (x ∷ xs))) (step i k)
      (inr (In-enumerate (suc i) k a xs g))
  where
    step : (i k : ℕ) → suc i + k ≡ i + suc k
    step i k = omega arith

pub get_elem?-In : {A : Type 0} (xs : List A) (k : ℕ) (a : A) → get_elem? xs k ≡ some a → In a xs
get_elem?-In [] k a g = absurd (cc g)
get_elem?-In (x ∷ xs) zero a g = inl (cc g)
get_elem?-In (x ∷ xs) (suc k) a g = inr (get_elem?-In xs k a g)
