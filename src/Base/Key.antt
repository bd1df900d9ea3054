-- ===== src/Base/Key.antt =====
-- Keys of `BTreeMap` and `BTreeSet`. A derived `Ord` compares the variant and then the fields in
-- order, which is the lexicographic order of the encoding below.
use Prim.Native.Nat.{ℕ}
use mathlib.Core.Path.{◌≡◌, refl, ap}
use mathlib.Core.Logic.{◌⊎◌, inl, inr, ◌≢◌}
use mathlib.Core.Bool.{Bool, true, false, ◌&&◌, ◌||◌}
use mathlib.Core.List.{List, [], ◌∷◌}
use native.Mathlib.Omega.{arith}
use runen_gpu.Base.Tests.{◌==◌, ltb, Bool-cases}

unfoldable pub codes_eq : List ℕ → List ℕ → Bool
codes_eq [] [] = true
codes_eq [] (y ∷ ys) = false
codes_eq (x ∷ xs) [] = false
codes_eq (x ∷ xs) (y ∷ ys) = x == y && codes_eq xs ys

unfoldable pub codes_lt : List ℕ → List ℕ → Bool
codes_lt [] [] = false
codes_lt [] (y ∷ ys) = true
codes_lt (x ∷ xs) [] = false
codes_lt (x ∷ xs) (y ∷ ys) = ltb x y || (x == y && codes_lt xs ys)

pub codes_eq_sound : (xs ys : List ℕ) → codes_eq xs ys ≡ true → xs ≡ ys
unfolding codes_eq
codes_eq_sound [] [] h = refl
codes_eq_sound [] (y ∷ ys) h = cc
codes_eq_sound (x ∷ xs) [] h = cc
codes_eq_sound (x ∷ xs) (y ∷ ys) h = ground (arith, codes_eq_sound xs ys)

pub codes_eq_refl : (xs : List ℕ) → codes_eq xs xs ≡ true
unfolding codes_eq
codes_eq_refl [] = refl
codes_eq_refl (x ∷ xs) = ground (arith, codes_eq_refl xs)

pub record Key {ℓ} (A : Type ℓ) : Type ℓ where
  pub encode : A → List ℕ
  pub injective : (a b : A) → encode a ≡ encode b → a ≡ b

module _ {ℓ} {A : Type ℓ} ⦃k : Key A⦄ where
  unfoldable pub key_eq : A → A → Bool
  unfolding codes_eq
  key_eq a b = codes_eq (k.encode a) (k.encode b)

  unfoldable pub key_lt : A → A → Bool
  unfolding codes_lt
  key_lt a b = codes_lt (k.encode a) (k.encode b)

  pub key_eq_sound : (a b : A) → key_eq a b ≡ true → a ≡ b
  unfolding key_eq
  key_eq_sound a b h = k.injective a b (codes_eq_sound (k.encode a) (k.encode b) h)

  pub key_eq_refl : (a : A) → key_eq a a ≡ true
  unfolding key_eq
  key_eq_refl a = codes_eq_refl (k.encode a)

  pub key_eq_cases : (a b : A) → ((key_eq a b ≡ true) × (a ≡ b)) ⊎ ((key_eq a b ≡ false) × (a ≢ b))
  key_eq_cases a b = elim (Bool-cases (key_eq a b)) [
    | inl e ↦ inl (e, key_eq_sound a b e)
    | inr e ↦ inr (e, λ p. cc (key_eq_refl a, ap (key_eq a) p))
  ]

pub nat_injective : (a b : ℕ) → ◌≡◌ {A = List ℕ} (a ∷ []) (b ∷ []) → a ≡ b
nat_injective a b e = cc

instance abbrev pub nat_key : Key ℕ
nat_key = record { encode = λ n. n ∷ []; injective = nat_injective }
