-- ===== src/Graph/Initialization/Layers/Retain.antt =====
-- `retain` on the layers of a texture.
use runen_gpu.Base.{
  ℕ, ◌≡◌, refl, sym, subst, ◌∙◌, inl, inr, ◌⊎◌, ◌↔◌, Option, none, some, List, [], ◌∷◌, In,
  Distinct, if◌then◌else◌,
}
use runen_gpu.Base.Optional.{◌>>=◌}
use runen_gpu.Base.Key.{key_eq, key_eq_cases}
use runen_gpu.Base.SortedMap.{get, keys}
use runen_gpu.Graph.Intervals.{Interval}
use runen_gpu.Graph.Intervals.Laws.{Covers}
use runen_gpu.Graph.Initialization.{Subresource, subresource_key, Layers, retain_layers, keep_entry}
use runen_gpu.Graph.Initialization.Cells.{CoversEntry, IsNormal, NonEmpty, IsLayers, IsFilled}
use runen_gpu.Graph.Initialization.Layers.{get-absent}

-- An entry that is not empty.
abbrev pub kept : List Interval → Option (List Interval)
kept [] = none
kept (x ∷ xs) = some (x ∷ xs)

In-keep_entry :
    (k key : Subresource) (xs : List Interval) (rest : Layers)
    → In k (keys (keep_entry key xs rest))
    → (k ≡ key) ⊎ In k (keys rest)
unfolding keep_entry
In-keep_entry k key [] rest i = inr i
In-keep_entry k key (x ∷ xs) rest i = i

Distinct-keep_entry :
    (key : Subresource) (xs : List Interval) (rest : Layers)
    → (¬ In key (keys rest))
    → Distinct (keys rest)
    → Distinct (keys (keep_entry key xs rest))
unfolding keep_entry
Distinct-keep_entry key [] rest n d = d
Distinct-keep_entry key (x ∷ xs) rest n d = (n, d)

get-keep_entry :
    (k key : Subresource) (xs : List Interval) (rest : Layers)
    → get key rest ≡ none
    → get k (keep_entry key xs rest) ≡ (if key_eq k key then kept xs else get k rest)
unfolding keep_entry get
get-keep_entry k key [] rest e = elim (key_eq_cases k key) [
  | inl (h, q) ↦ rw (h, q, e) refl
  | inr (h, q) ↦ rw h refl
]
get-keep_entry k key (x ∷ xs) rest e = refl

module _ (f : Subresource → List Interval → List Interval) where
  In-retain_layers :
      (k : Subresource) (m : Layers) → In k (keys (retain_layers f m)) → In k (keys m)
  unfolding retain_layers
  In-retain_layers k [] i = i
  In-retain_layers k ((key, xs) ∷ rest) i =
      elim (In-keep_entry k key (f key xs) (retain_layers f rest) i) [
        | inl q ↦ inl q
        | inr m ↦ inr (In-retain_layers k rest m)
      ]

  Distinct-retain_layers : (m : Layers) → Distinct (keys m) → Distinct (keys (retain_layers f m))
  unfolding retain_layers
  Distinct-retain_layers [] d = d
  Distinct-retain_layers ((key, xs) ∷ rest) d =
      Distinct-keep_entry key (f key xs) (retain_layers f rest)
        (λ i. d.0 (In-retain_layers key rest i)) (Distinct-retain_layers rest d.1)

  pub get-retain_layers :
      (k : Subresource) (m : Layers)
      → Distinct (keys m)
      → get k (retain_layers f m) ≡ (get k m >>= λ xs. kept (f k xs))
  unfolding retain_layers get
  get-retain_layers k [] d = refl
  get-retain_layers k ((key, xs) ∷ rest) d =
      let gone = get-absent (retain_layers f rest) key (λ i. d.0 (In-retain_layers key rest i)) in
      let found = get-keep_entry k key (f key xs) (retain_layers f rest) gone in
      elim (key_eq_cases k key) [
        | inl (e, q) ↦ rw (found, e, q) refl
        | inr (e, q) ↦ rw (found, e) (get-retain_layers k rest d.1)
      ]

  -- The entries that stay have the new ranges.
  retained_entry :
      (k : Subresource) (o : Option (List Interval)) (ys : List Interval)
      → (o >>= λ xs. kept (f k xs)) ≡ some ys
      → NonEmpty ys × ((xs : List Interval) × (o ≡ some xs) × (ys ≡ f k xs))
  retained_entry k none ys h = cc
  retained_entry k (some xs) ys h = let (e, full) = kept_same (f k xs) ys h in (full, (xs, refl, e))
    where
      kept_same : (xs ys : List Interval) → kept xs ≡ some ys → (ys ≡ xs) × NonEmpty ys
      kept_same [] ys h = cc
      kept_same (x ∷ xs) ys h = let q : ys ≡ x ∷ xs = cc h in (q, subst NonEmpty (sym q) tt)

  pub retain_layers-IsLayers :
      (m : Layers)
      → Distinct (keys m)
      → ((k : Subresource) (xs : List Interval) → get k m ≡ some xs → IsNormal (f k xs))
      → IsLayers (retain_layers f m) × IsFilled (retain_layers f m)
  retain_layers-IsLayers m d n = (
    record {
      distinct = Distinct-retain_layers m d;
      normal = λ k ys h.
          let (full, (xs, e, q)) =
            retained_entry k (get k m) ys (sym (get-retain_layers k m d) ∙ h) in
          subst IsNormal (sym q) (n k xs e);
    },
    λ k ys h. (retained_entry k (get k m) ys (sym (get-retain_layers k m d) ∙ h)).0,
  )

pub CoversEntry-kept : (xs : List Interval) (p : ℕ) → CoversEntry (kept xs) p ↔ Covers xs p
CoversEntry-kept [] p = (λ c. c, λ c. c)
CoversEntry-kept (x ∷ xs) p = (λ c. c, λ c. c)
