-- ===== src/Graph/Coverage/Merge/Heap.antt =====
-- The heap and the array of cursors: pushing an entry, and writing a cursor.
use runen_gpu.Base.{
  ℕ, zero, suc, ◌+◌, ◌≤◌, ◌≡◌, ◌≢◌, refl, sym, ap, subst, ◌⊎◌, inl, inr, ◌↔◌, true, false, Option,
  some, none, List, [], ◌∷◌, arith, In, Bool-cases, length, get_elem?,
}
use runen_gpu.Graph.Intervals.{Interval}
use runen_gpu.Graph.Coverage.Merge.{
  CoverageIntervalCursor, Entry, entry_le, push, push_found, set_cursor, segments_left,
  cursors_left,
}

-- Every entry starts no later than those after it.
abbrev pub EntriesAscend : List Entry → Type 0
EntriesAscend [] = Unit
EntriesAscend (x ∷ xs) = ((y : Entry) → In y xs → x.start ≤ y.start) × EntriesAscend xs

pub In-push : (y a : Entry) (xs : List Entry) → In y (push a xs) ↔ ((y ≡ a) ⊎ In y xs)
unfolding push
In-push y a [] = (λ h. h, λ h. h)
In-push y a (x ∷ xs) = elim (Bool-cases (entry_le a x)) [
  | inl e ↦ rw e (λ h. h, λ h. h)
  | inr e ↦ rw e (
    λ h. elim h [
      | inl p ↦ inr (inl p)
      | inr q ↦ elim ((In-push y a xs).0 q) [ inl p ↦ inl p | inr r ↦ inr (inr r) ]
    ],
    λ h. elim h [
      | inl p ↦ inr ((In-push y a xs).1 (inl p))
      | inr (inl p) ↦ inl p
      | inr (inr r) ↦ inr ((In-push y a xs).1 (inr r))
    ],
  )
]

entry_le-start : (a b : Entry) → entry_le a b ≡ true → a.start ≤ b.start
unfolding entry_le
entry_le-start a b h = ground arith

entry_gt-start : (a b : Entry) → entry_le a b ≡ false → b.start ≤ a.start
unfolding entry_le
entry_gt-start a b h = ground arith

push-EntriesAscend : (a : Entry) (xs : List Entry) → EntriesAscend xs → EntriesAscend (push a xs)
unfolding push
push-EntriesAscend a [] d = (λ y m. absurd m, tt)
push-EntriesAscend a (x ∷ xs) d = elim (Bool-cases (entry_le a x)) [
  | inl e ↦
      let le = entry_le-start a x e in
      rw e (
        λ y m. elim m [
          | inl p ↦ subst (λ w. a.start ≤ w.start) (sym p) le
          | inr q ↦ let k = d.0 y q in omega arith
        ],
        d,
      )
  | inr e ↦
      let le = entry_gt-start a x e in
      rw e (
        λ y m. elim ((In-push y a xs).0 m) [
          | inl p ↦ subst (λ w. x.start ≤ w.start) (sym p) le
          | inr q ↦ d.0 y q
        ],
        push-EntriesAscend a xs d.1,
      )
]

length-push : (a : Entry) (xs : List Entry) → length (push a xs) ≡ suc (length xs)
unfolding push
length-push a [] = refl
length-push a (x ∷ xs) = ground (arith, length-push a xs)

abbrev pub found_count : Option Interval → ℕ
found_count none = 0
found_count (some x) = 1

pub length-push_found :
    (found : Option Interval) (i : ℕ) (next : List Entry)
    → length (push_found found i next) ≡ found_count found + length next
unfolding push_found
length-push_found none i next = omega arith
length-push_found (some x) i next =
    omega (arith, length-push (record { start = x.0; end = x.1; index = i }) next)

pub push_found-EntriesAscend :
    (found : Option Interval) (i : ℕ) (next : List Entry)
    → EntriesAscend next
    → EntriesAscend (push_found found i next)
unfolding push_found
push_found-EntriesAscend none i next d = d
push_found-EntriesAscend (some x) i next d =
    push-EntriesAscend (record { start = x.0; end = x.1; index = i }) next d

-- An entry of the heap after a push is the one that was pushed, or was there before.
pub In-push_found :
    (y : Entry) (found : Option Interval) (i : ℕ) (next : List Entry)
    → In y (push_found found i next) ↔ ((found ≡ some (y.start, y.end)) × (y.index ≡ i)) ⊎ In y next
unfolding push_found
In-push_found y none i next = (λ h. inr h, λ h. elim h [ inl p ↦ absurd (cc (p.0)) | inr q ↦ q ])
In-push_found y (some x) i next =
    let laws = In-push y (record { start = x.0; end = x.1; index = i }) next in
    (
      λ h. elim (laws.0 h) [ inl p ↦ inl (ground arith, ground arith) | inr q ↦ inr q ],
      λ h. elim h [ inl p ↦ laws.1 (inl (ground arith)) | inr q ↦ laws.1 (inr q) ],
    )

pub get_elem?-set_cursor :
    (i : ℕ) (c : CoverageIntervalCursor) (cs : List CoverageIntervalCursor)
    {d : CoverageIntervalCursor}
    → get_elem? cs i ≡ some d
    → get_elem? (set_cursor i c cs) i ≡ some c
unfolding set_cursor
get_elem?-set_cursor i c [] h = cc
get_elem?-set_cursor zero c (x ∷ xs) h = refl
get_elem?-set_cursor (suc i) c (x ∷ xs) h = get_elem?-set_cursor i c xs h

pub get_elem?-set_other :
    (i j : ℕ) (c : CoverageIntervalCursor) (cs : List CoverageIntervalCursor)
    → j ≢ i
    → get_elem? (set_cursor i c cs) j ≡ get_elem? cs j
unfolding set_cursor
get_elem?-set_other i j c [] n = refl
get_elem?-set_other zero zero c (x ∷ xs) n = absurd (n refl)
get_elem?-set_other zero (suc j) c (x ∷ xs) n = refl
get_elem?-set_other (suc i) zero c (x ∷ xs) n = refl
get_elem?-set_other (suc i) (suc j) c (x ∷ xs) n = get_elem?-set_other i j c xs (λ e. n (ap suc e))

pub cursors_left-set_cursor :
    (i : ℕ) (c : CoverageIntervalCursor) (cs : List CoverageIntervalCursor)
    {d : CoverageIntervalCursor}
    → get_elem? cs i ≡ some d
    → cursors_left (set_cursor i c cs) + segments_left d.coverage d.next_segment
      ≡ cursors_left cs + segments_left c.coverage c.next_segment
unfolding set_cursor
cursors_left-set_cursor i c [] h = absurd (cc)
cursors_left-set_cursor zero c (x ∷ xs) {d} h = let e : x ≡ d = cc in rw (sym e) (omega arith)
cursors_left-set_cursor (suc i) c (x ∷ xs) {d} h =
    omega (arith, cursors_left-set_cursor i c xs {d = d} h)
