-- ===== src/Base/SortedMap.antt =====
-- `BTreeMap` as an association list in ascending order of its keys.
use mathlib.Core.Path.{◌≡◌, refl, sym}
use mathlib.Core.Logic.{◌⊎◌, inl, inr, ◌≢◌, ◌↔◌}
use mathlib.Core.Bool.{true, false}
use mathlib.Core.List.{List, [], ◌∷◌}
use mathlib.Core.Option
use mathlib.Core.Option.{Option, none, some}
use native.Mathlib.Omega.{arith}
use runen_gpu.Base.Tests.{if◌then◌else◌, Option-cases, Bool-cases}
use runen_gpu.Base.Members.{In, Distinct}
use runen_gpu.Base.Key.{Key, key_eq, key_lt, key_eq_cases}

module _ {ℓ} {A : Type 0} {V : Type ℓ} ⦃k : Key A⦄ where
  unfoldable pub get : A → List (A × V) → Option V
  get a [] = none
  get a ((b, v) ∷ m) = if key_eq a b then some v else get a m

  abbrev pub keys : List (A × V) → List A
  keys [] = []
  keys ((b, v) ∷ m) = b ∷ keys m

  abbrev pub values : List (A × V) → List V
  values [] = []
  values ((b, v) ∷ m) = v ∷ values m

  -- `get_mut` followed by an update: an absent key changes nothing.
  unfoldable pub modify : A → (V → V) → List (A × V) → List (A × V)
  modify a f [] = []
  modify a f ((b, v) ∷ m) = if key_eq a b then (b, f v) ∷ m else (b, v) ∷ modify a f m

  unfoldable pub add_sorted : A → V → List (A × V) → List (A × V)
  add_sorted a v [] = (a, v) ∷ []
  add_sorted a v ((b, w) ∷ m) =
      if key_lt a b then (a, v) ∷ (b, w) ∷ m else (b, w) ∷ add_sorted a v m

  -- `entry(a).or_default()` followed by an update; `d` is the default.
  unfoldable pub upsert : A → V → (V → V) → List (A × V) → List (A × V)
  unfolding get modify add_sorted
  upsert a d f m = elim (get a m) [ none ↦ add_sorted a (f d) m | some v ↦ modify a f m ]

  -- `insert`, which replaces the value of a key that is there.
  unfoldable pub put : A → V → List (A × V) → List (A × V)
  unfolding upsert
  put a v m = upsert a v (λ _. v) m

  pub keys-modify : (a : A) (f : V → V) (m : List (A × V)) → keys (modify a f m) ≡ keys m
  unfolding modify
  keys-modify a f [] = refl
  keys-modify a f ((b, v) ∷ m) = ground (arith, keys-modify a f m)

  pub get-modify :
      (c a : A) (f : V → V) (m : List (A × V))
      → get c (modify a f m) ≡ (if key_eq c a then Option.map f (get c m) else get c m)
  unfolding get modify
  get-modify c a f [] = ground arith
  get-modify c a f ((b, v) ∷ m) =
      ground (arith, key_eq_cases a b, key_eq_cases c a, key_eq_cases c b, get-modify c a f m)

  pub get-add_sorted :
      (c a : A) (v : V) (m : List (A × V))
      → get a m ≡ none
      → get c (add_sorted a v m) ≡ (if key_eq c a then some v else get c m)
  unfolding get add_sorted
  get-add_sorted c a v [] h = refl
  get-add_sorted c a v ((b, w) ∷ m) h =
      ground (arith, key_eq_cases a b, key_eq_cases c a, key_eq_cases c b, get-add_sorted c a v m)

  modified :
      {c a : A} (f : V → V) (m : List (A × V)) {v : V}
      → ((key_eq c a ≡ true) × (c ≡ a)) ⊎ ((key_eq c a ≡ false) × (c ≢ a))
      → get a m ≡ some v
      → (if key_eq c a then Option.map f (get c m) else get c m)
        ≡ (if key_eq c a then some (f v) else get c m)
  modified f m (inl (e, p)) h = rw (e, p, h)
  modified f m (inr (e, n)) h = rw e

  -- An update is seen at its key and nowhere else.
  pub get-upsert :
      (c a : A) (d : V) (f : V → V) (m : List (A × V))
      → get c (upsert a d f m)
        ≡ (if key_eq c a then some (f (Option.get_or (get a m) d)) else get c m)
  unfolding upsert
  get-upsert c a d f m = elim (Option-cases (get a m)) [
    | inl e ↦ rw (e, upsert) (get-add_sorted c a (f d) m e)
    | inr (v, e) ↦ rw (e, upsert) (rw (get-modify c a f m) (modified f m (key_eq_cases c a) e))
  ]

  pub In-keys-get : (a : A) (m : List (A × V)) {v : V} → get a m ≡ some v → In a (keys m)
  unfolding get
  In-keys-get a [] h = cc
  In-keys-get a ((b, w) ∷ m) {v} h = ground (arith, key_eq_cases a b, In-keys-get a m {v = v})

  pub get-In-keys : (a : A) (m : List (A × V)) → In a (keys m) → (v : V) × (get a m ≡ some v)
  unfolding get
  get-In-keys a [] h = absurd h
  get-In-keys a ((b, w) ∷ m) h = elim (key_eq_cases a b) [
    | inl (e, p) ↦ (w, rw e)
    | inr (e, n) ↦ elim h [ inl p ↦ absurd (n p) | inr q ↦ rw e (get-In-keys a m q) ]
  ]

  In-keys-add_sorted :
      (b a : A) (v : V) (m : List (A × V))
      → In b (keys (add_sorted a v m)) ↔ ((b ≡ a) ⊎ In b (keys m))
  unfolding add_sorted
  In-keys-add_sorted b a v [] = (λ h. h, λ h. h)
  In-keys-add_sorted b a v ((c, w) ∷ m) = ground (arith, In-keys-add_sorted b a v m)

  Distinct-add_sorted :
      (a : A) (v : V) (m : List (A × V))
      → Distinct (keys m)
      → (¬ In a (keys m))
      → Distinct (keys (add_sorted a v m))
  unfolding add_sorted
  Distinct-add_sorted a v [] d n = (n, tt)
  Distinct-add_sorted a v ((c, w) ∷ m) d n = elim (Bool-cases (key_lt a c)) [
    | inl e ↦ rw e (n, d)
    | inr e ↦ rw e (
      λ i. elim ((In-keys-add_sorted c a v m).0 i) [ inl p ↦ n (inl (sym p)) | inr q ↦ d.0 q ],
      Distinct-add_sorted a v m d.1 (λ i. n (inr i)),
    )
  ]

  absent_key : (a : A) (m : List (A × V)) → get a m ≡ none → ¬ In a (keys m)
  absent_key a m h i = let (v, e) = get-In-keys a m i in absurd (cc (h, e))

  pub Distinct-upsert :
      (a : A) (d : V) (f : V → V) (m : List (A × V))
      → Distinct (keys m)
      → Distinct (keys (upsert a d f m))
  unfolding upsert
  Distinct-upsert a d f m h = elim (Option-cases (get a m)) [
    | inl e ↦ rw (e, upsert) (Distinct-add_sorted a (f d) m h (absent_key a m e))
    | inr (v, e) ↦ rw (e, upsert) (rw (keys-modify a f m) h)
  ]
