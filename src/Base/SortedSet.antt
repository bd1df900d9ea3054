-- ===== src/Base/SortedSet.antt =====
-- `BTreeSet` as a list in ascending order: iteration is the list, `pop_first` its head.
use mathlib.Core.Path.{◌≡◌, sym, subst}
use mathlib.Core.Logic.{◌⊎◌, inl, inr, ◌↔◌}
use mathlib.Core.Bool.{Bool, true, false, ◌||◌}
use mathlib.Core.List.{List, [], ◌∷◌}
use native.Mathlib.Omega.{arith}
use runen_gpu.Base.Tests.{if◌then◌else◌, Bool-cases}
use runen_gpu.Base.Members.{In, Distinct}
use runen_gpu.Base.Key.{Key, key_eq, key_lt, key_eq_sound, key_eq_cases}

module _ {A : Type 0} ⦃k : Key A⦄ where
  unfoldable pub contains : A → List A → Bool
  contains a [] = false
  contains a (x ∷ xs) = key_eq a x || contains a xs

  unfoldable pub insert_sorted : A → List A → List A
  insert_sorted a [] = a ∷ []
  insert_sorted a (x ∷ xs) = if key_lt a x then a ∷ x ∷ xs else x ∷ insert_sorted a xs

  -- `BTreeSet::insert`: an element that is there stays.
  unfoldable pub insert : A → List A → List A
  unfolding contains insert_sorted
  insert a xs = if contains a xs then xs else insert_sorted a xs

  pub contains-In : (a : A) (xs : List A) → contains a xs ≡ true → In a xs
  unfolding contains
  contains-In a [] h = cc
  contains-In a (x ∷ xs) h = ground (arith, key_eq_sound a x, contains-In a xs)

  pub In-contains : (a : A) (xs : List A) → In a xs → contains a xs ≡ true
  unfolding contains
  In-contains a [] h = absurd h
  In-contains a (x ∷ xs) h = elim (key_eq_cases a x) [
    | inl e ↦ ground arith
    | inr e ↦ ground (arith, In-contains a xs)
  ]

  pub contains_cases :
      (a : A) (xs : List A)
      → ((contains a xs ≡ true) × In a xs) ⊎ ((contains a xs ≡ false) × (¬ In a xs))
  contains_cases a xs = elim (Bool-cases (contains a xs)) [
    | inl e ↦ inl (e, contains-In a xs e)
    | inr e ↦ inr (e, λ m. cc (In-contains a xs m))
  ]

  pub In-insert_sorted : (b a : A) (xs : List A) → In b (insert_sorted a xs) ↔ ((b ≡ a) ⊎ In b xs)
  unfolding insert_sorted
  In-insert_sorted b a [] = (λ h. h, λ h. h)
  In-insert_sorted b a (x ∷ xs) = ground (arith, In-insert_sorted b a xs)

  pub Distinct-insert_sorted :
      (a : A) (xs : List A) → Distinct xs → (¬ In a xs) → Distinct (insert_sorted a xs)
  unfolding insert_sorted
  Distinct-insert_sorted a [] d n = (n, tt)
  Distinct-insert_sorted a (x ∷ xs) d n = elim (Bool-cases (key_lt a x)) [
    | inl e ↦ rw e (n, d)
    | inr e ↦ rw e (
      λ m. elim ((In-insert_sorted x a xs).0 m) [ inl p ↦ n (inl (sym p)) | inr q ↦ d.0 q ],
      Distinct-insert_sorted a xs d.1 (λ m. n (inr m)),
    )
  ]

  pub In-insert : (b a : A) (xs : List A) → In b (insert a xs) ↔ ((b ≡ a) ⊎ In b xs)
  unfolding insert
  In-insert b a xs = elim (contains_cases a xs) [
    | inl (e, m) ↦
        rw e (λ h. inr h, λ h. elim h [ inl p ↦ subst (λ c. In c xs) (sym p) m | inr q ↦ q ])
    | inr (e, n) ↦ rw e (In-insert_sorted b a xs)
  ]

  pub Distinct-insert : (a : A) (xs : List A) → Distinct xs → Distinct (insert a xs)
  unfolding insert
  Distinct-insert a xs d = elim (contains_cases a xs) [
    | inl (e, m) ↦ rw e d
    | inr (e, n) ↦ rw e (Distinct-insert_sorted a xs d n)
  ]
