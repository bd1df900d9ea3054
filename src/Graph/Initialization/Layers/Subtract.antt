-- ===== src/Graph/Initialization/Layers/Subtract.antt =====
-- The layers that remain of a texture when others are removed.
use mathlib.Core.Logic.Iff
use runen_gpu.Base.{
  ℕ, ◌≡◌, refl, sym, subst, inl, inr, ◌↔◌, Option, none, some, arith, List, [], ◌∷◌, All, Distinct,
  u32_mod,
}
use mathlib.Core.Option
use runen_gpu.Base.Optional.{◌>>=◌}
use runen_gpu.Base.Key.{key_eq_cases}
use runen_gpu.Base.SortedMap.{get, modify, keys-modify, get-modify}
use runen_gpu.Graph.Intervals.{Interval}
use runen_gpu.Graph.Intervals.Laws.{Covers}
use runen_gpu.Graph.Intervals.Fits.{Fits}
use runen_gpu.Graph.Initialization.{
  Subresource, subresource_key, Layers, subtract_layers, retain_layers, subtract_all,
}
use runen_gpu.Graph.Initialization.Cells.{CoversEntry, CoversLayer, IsNormal, IsLayers, IsFilled}
use runen_gpu.Graph.Initialization.Intervals.Subtract.{subtract_all-Covers, subtract_all-IsNormal}
use runen_gpu.Graph.Initialization.Layers.{head_found, tail-IsLayers, CoversLayer-cons}
use runen_gpu.Graph.Initialization.Layers.Retain.{
  kept, get-retain_layers, retain_layers-IsLayers, CoversEntry-kept,
}

mapped_entry :
    {A : Type 0} (f : A → A) (o : Option A) (y : A)
    → Option.map f o ≡ some y
    → (x : A) × (o ≡ some x) × (y ≡ f x)
mapped_entry f none y h = cc
mapped_entry f (some x) y h = (x, refl, cc h)

module _ (key : Subresource) (rs : List Interval) (layers : Layers) where
  -- One round of the removal.
  abbrev cut : Layers
  cut = modify key (λ have_intervals. subtract_all have_intervals rs) layers

  cut_entry :
      (o : Option (List Interval)) (k : Subresource) (p : ℕ)
      → k ≡ key
      → CoversEntry (Option.map (λ have_intervals. subtract_all have_intervals rs) o) p
        ↔ (CoversEntry o p × (¬ ((k ≡ key) × Covers rs p)))
  cut_entry none k p q = ground arith
  cut_entry (some xs) k p q = ground (arith, subtract_all-Covers xs rs p, q)

  cut-CoversLayer :
      (k : Subresource) (p : ℕ)
      → CoversLayer cut k p ↔ (CoversLayer layers k p × (¬ ((k ≡ key) × Covers rs p)))
  cut-CoversLayer k p =
      let found = get-modify k key (λ have_intervals. subtract_all have_intervals rs) layers in
      elim (key_eq_cases k key) [
        | inl (e, q) ↦ rw (found, e) (cut_entry (get k layers) k p q)
        | inr (e, q) ↦ rw (found, e) (λ c. (c, λ d. q d.0), λ c. c.0)
      ]

  cut-IsLayers : IsLayers layers → All (Fits u32_mod) rs → IsLayers cut
  cut-IsLayers w f = record {
    distinct =
        subst (λ ks. Distinct ks)
          (sym (keys-modify key (λ have_intervals. subtract_all have_intervals rs) layers))
          w.distinct;
    normal = λ k ys h.
        let found = get-modify k key (λ have_intervals. subtract_all have_intervals rs) layers in
        elim (key_eq_cases k key) [
          | inl (e, q) ↦
              let (xs, g, same) =
                mapped_entry (λ have_intervals. subtract_all have_intervals rs) (get k layers) ys
                  (cc (h, found, e)) in
              subst IsNormal (sym same) (subtract_all-IsNormal xs rs (w.normal k xs g) f)
          | inr (e, q) ↦ w.normal k ys (cc (h, found, e))
        ];
  }

subtract_layers-CoversLayer :
    (have removed : Layers)
    → IsLayers have
    → IsLayers removed
    → IsLayers (subtract_layers have removed)
      × ((k : Subresource) (p : ℕ)
          → CoversLayer (subtract_layers have removed) k p
            ↔ (CoversLayer have k p × (¬ CoversLayer removed k p)))
unfolding subtract_layers get
subtract_layers-CoversLayer have [] v w = (v, λ k p. (λ c. (c, λ d. d), λ c. c.0))
subtract_layers-CoversLayer have ((key, rs) ∷ removed) v w =
    let n = w.normal key rs (head_found key rs removed) in
    let (valid, same) =
      subtract_layers-CoversLayer (cut key rs have) removed (cut-IsLayers key rs have v n.1)
        (tail-IsLayers key rs removed w) in
    (
      valid,
      λ k p.
          ground (
            arith,
            same k p,
            cut-CoversLayer key rs have k p,
            CoversLayer-cons key rs removed w k p,
          ),
    )

-- The removal leaves what the other side does not cover, and no empty entry.
pub remove_layers-CoversLayer :
    (have removed : Layers)
    → IsLayers have
    → IsLayers removed
    → (IsLayers (retain_layers (λ _ intervals. intervals) (subtract_layers have removed))
        × IsFilled (retain_layers (λ _ intervals. intervals) (subtract_layers have removed)))
      × ((k : Subresource) (p : ℕ)
          → CoversLayer
              (retain_layers (λ _ intervals. intervals) (subtract_layers have removed))
              k
              p
            ↔ (CoversLayer have k p × (¬ CoversLayer removed k p)))
remove_layers-CoversLayer have removed v w =
    let left = subtract_layers have removed in
    let (valid, same) = subtract_layers-CoversLayer have removed v w in
    (
      retain_layers-IsLayers (λ _ intervals. intervals) left valid.distinct valid.normal,
      λ k p.
          rw (get-retain_layers (λ _ intervals. intervals) k left valid.distinct)
            (Iff.trans (entry_kept (get k left) p) (same k p)),
    )
  where
    entry_kept :
        (o : Option (List Interval)) (p : ℕ) → CoversEntry (o >>= λ xs. kept xs) p ↔ CoversEntry o p
    entry_kept none p = (λ c. c, λ c. c)
    entry_kept (some xs) p = CoversEntry-kept xs p
