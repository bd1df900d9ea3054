-- ===== src/Graph/Initialization/Layers/Union.antt =====
-- The union of the layers of two textures.
use runen_gpu.Base.{
  ℕ, ◌≡◌, refl, sym, subst, inl, inr, ◌⊎◌, ◌↔◌, ◌++◌, Option, none, some, arith, List, [], ◌∷◌, All,
  u32_mod,
}
use mathlib.Core.Option
use runen_gpu.Base.Key.{key_eq_cases}
use runen_gpu.Base.SortedMap.{get, upsert, get-upsert, Distinct-upsert}
use runen_gpu.Graph.Intervals.{Interval, normalize_u32_intervals}
use runen_gpu.Graph.Intervals.Laws.{Covers, Covers-append}
use runen_gpu.Graph.Intervals.Fits.{Fits, All-append}
use runen_gpu.Graph.Initialization.{Subresource, subresource_key, Layers, extend_layers}
use runen_gpu.Graph.Initialization.Cells.{
  CoversEntry, CoversLayer, IsNormal, NonEmpty, IsLayers, IsFilled,
}
use runen_gpu.Graph.Initialization.Intervals.Meet.{
  normalize_u32_intervals-Covers, normalize_u32_intervals-IsNormal,
}
use runen_gpu.Graph.Initialization.Layers.{
  NonEmpty-Covers, Covers-NonEmpty, head_found, tail-IsLayers, tail-IsFilled, CoversLayer-cons,
}

module _ (key : Subresource) (xs : List Interval) (left : Layers) where
  -- One round of the union.
  abbrev extended : Layers
  extended = upsert key [] (λ entry. normalize_u32_intervals (entry ++ xs)) left

  CoversEntry-get_or :
      (o : Option (List Interval)) (p : ℕ) → Covers (Option.get_or o []) p ↔ CoversEntry o p
  CoversEntry-get_or none p = (λ c. c, λ c. c)
  CoversEntry-get_or (some ys) p = (λ c. c, λ c. c)

  union_at :
      (p : ℕ)
      → Covers (normalize_u32_intervals (Option.get_or (get key left) [] ++ xs)) p
        ↔ (CoversLayer left key p ⊎ ((key ≡ key) × Covers xs p))
  union_at p =
      let entry = Option.get_or (get key left) [] in
      let (to, from) = normalize_u32_intervals-Covers (entry ++ xs) p in
      let (split, join) = Covers-append entry xs p in
      let (out, back) = CoversEntry-get_or (get key left) p in
      (
        λ c. elim (split (to c)) [ inl d ↦ inl (out d) | inr d ↦ inr (refl, d) ],
        λ c. from (join (elim c [ inl d ↦ inl (back d) | inr d ↦ inr d.1 ])),
      )

  extended-CoversLayer :
      (k : Subresource) (p : ℕ)
      → CoversLayer extended k p ↔ (CoversLayer left k p ⊎ ((k ≡ key) × Covers xs p))
  extended-CoversLayer k p = elim (key_eq_cases k key) [
    | inl (e, q) ↦
        rw (get-upsert k key [] (λ entry. normalize_u32_intervals (entry ++ xs)) left, e, q)
          (union_at p)
    | inr (e, q) ↦
        rw (get-upsert k key [] (λ entry. normalize_u32_intervals (entry ++ xs)) left, e)
          (λ c. inl c, λ c. elim c [ inl d ↦ d | inr d ↦ absurd (q d.0) ])
  ]

  module _ (w : IsLayers left) (n : IsNormal xs) (full : NonEmpty xs) where
    entry-Fits :
        (o : Option (List Interval)) → get key left ≡ o → All (Fits u32_mod) (Option.get_or o [])
    entry-Fits none e = tt
    entry-Fits (some ys) e = (w.normal key ys e).1

    extended_entry : List Interval
    extended_entry = normalize_u32_intervals (Option.get_or (get key left) [] ++ xs)

    extended_entry-IsNormal : IsNormal extended_entry
    unfolding extended_entry
    extended_entry-IsNormal =
        let entry = Option.get_or (get key left) [] in
        normalize_u32_intervals-IsNormal (entry ++ xs)
          (All-append (Fits u32_mod) entry xs (entry-Fits (get key left) refl) n.1)

    extended_entry-NonEmpty : NonEmpty extended_entry
    unfolding extended_entry
    extended_entry-NonEmpty =
        let (p, c) = NonEmpty-Covers u32_mod xs n.1 full in
        Covers-NonEmpty (normalize_u32_intervals (Option.get_or (get key left) [] ++ xs)) p
          ((union_at p).1 (inr (refl, c)))

    -- An entry after the round is the new one or an old one.
    extended_entries :
        (k : Subresource) (ys : List Interval)
        → get k extended ≡ some ys
        → (ys ≡ extended_entry) ⊎ (get k left ≡ some ys)
    unfolding extended_entry
    extended_entries k ys h =
        let found = get-upsert k key [] (λ entry. normalize_u32_intervals (entry ++ xs)) left in
        elim (key_eq_cases k key) [
          | inl (e, q) ↦ inl (cc (h, found, e))
          | inr (e, q) ↦ inr (cc (h, found, e))
        ]

    extended-IsLayers : IsLayers extended
    extended-IsLayers = record {
      distinct =
          Distinct-upsert key [] (λ entry. normalize_u32_intervals (entry ++ xs)) left w.distinct;
      normal = λ k ys h. elim (extended_entries k ys h) [
        | inl q ↦ subst IsNormal (sym q) extended_entry-IsNormal
        | inr q ↦ w.normal k ys q
      ];
    }

    extended-IsFilled : IsFilled left → IsFilled extended
    extended-IsFilled f k ys h = elim (extended_entries k ys h) [
      | inl q ↦ subst NonEmpty (sym q) extended_entry-NonEmpty
      | inr q ↦ f k ys q
    ]

-- The union covers what one of the sides covers.
pub extend_layers-CoversLayer :
    (left right : Layers)
    → IsLayers left × IsFilled left
    → IsLayers right × IsFilled right
    → (IsLayers (extend_layers left right) × IsFilled (extend_layers left right))
      × ((k : Subresource) (p : ℕ)
          → CoversLayer (extend_layers left right) k p
            ↔ (CoversLayer left k p ⊎ CoversLayer right k p))
unfolding extend_layers get
extend_layers-CoversLayer left [] v w =
    (v, λ k p. (λ c. inl c, λ c. elim c [ inl d ↦ d | inr d ↦ absurd d ]))
extend_layers-CoversLayer left ((key, xs) ∷ right) v w =
    let found = head_found key xs right in
    let n = w.0.normal key xs found in
    let full = w.1 key xs found in
    let (valid, same) =
      extend_layers-CoversLayer (extended key xs left) right
        (extended-IsLayers key xs left v.0 n full, extended-IsFilled key xs left v.0 n full v.1)
        (tail-IsLayers key xs right w.0, tail-IsFilled key xs right w.0 w.1) in
    (
      valid,
      λ k p. ground (
        arith,
        same k p,
        extended-CoversLayer key xs left k p,
        CoversLayer-cons key xs right w.0 k p,
      ),
    )
