-- ===== src/Resource/Allocator/Freshness.antt =====
-- No resource identity is issued twice.
use runen_gpu.Base.{
  ℕ, u64_mod, ◌-◌, ◌+◌, ◌<◌, ◌≤◌, ◌≡◌, ◌≢◌, refl, sym, ap, ◌∙◌, subst, ◌⊎◌, inl, inr, ◌∷◌, Option,
  none, some, ok, arith, ◌==◌, In, Distinct, Option-cases, Bool-cases,
}
use runen_gpu.Resource.{GpuWorkResourceId}
use runen_gpu.Resource.Allocator.{
  allocate_scope, GpuWorkResourceIdAllocator, scope_of, following, Allocated, allocate, Process,
  fresh_process, issue, Reachable, start, allocated,
}

-- A scope that was handed out, when `next` is the next one.
abbrev pub Taken : ℕ → ℕ → Type 0
Taken next scope = (0 < scope) × ((next ≡ 0) ⊎ (scope < next))

-- A local number that was handed out, when `next` is the next one.
abbrev pub Past : Option ℕ → ℕ → Type 0
Past none local = Unit {0}
Past (some next) local = local < next

pub record Sound (p : Process) : Type 0 where
  pub scope_taken : (i s : ℕ) → (p.allocator i).owner_scope ≡ some s → Taken p.next_scope s
  pub apart :
      (i j s : ℕ)
      → (p.allocator i).owner_scope ≡ some s
      → (p.allocator j).owner_scope ≡ some s
      → i ≡ j
  pub id_taken : (x : GpuWorkResourceId) → In x p.issued → Taken p.next_scope x.owner_scope
  pub id_past :
      (x : GpuWorkResourceId) (i : ℕ)
      → In x p.issued
      → (p.allocator i).owner_scope ≡ some x.owner_scope
      → Past (p.allocator i).next_local x.local
  pub distinct : Distinct p.issued

start-Sound : Sound fresh_process
start-Sound = record {
  scope_taken = λ i s e. absurd (cc e);
  apart = λ i j s e f. absurd (cc e);
  id_taken = λ x m. absurd m;
  id_past = λ x i m e. absurd m;
  distinct = tt;
}

-- What an allocation does.
pub allocate-made :
    (next : ℕ) (a : GpuWorkResourceIdAllocator) (made : Allocated)
    → allocate next a ≡ ok made
    → (a.next_local ≡ some made.id.local)
      × (made.allocator
          ≡ record { owner_scope = some made.id.owner_scope; next_local = following made.id.local })
      × (((a.owner_scope ≡ some made.id.owner_scope) × (made.next_scope ≡ next))
          ⊎ ((a.owner_scope ≡ none)
              × (made.id.owner_scope ≡ next)
              × (0 < next)
              × (((made.next_scope ≡ 0) × (next ≡ u64_mod - 1))
                  ⊎ ((made.next_scope ≡ next + 1) × (next ≢ u64_mod - 1)))))
unfolding allocate scope_of allocate_scope
allocate-made next a made h = elim (Option-cases a.next_local) [
  | inl e ↦ absurd (ground arith)
  | inr (l, e) ↦ elim (Option-cases a.owner_scope) [
    | inl f ↦ ground arith
    | inr (s, f) ↦ ground arith
  ]
]

pub following_cases :
    (local : ℕ)
    → ((following local ≡ none) × (u64_mod ≤ local + 1))
      ⊎ ((following local ≡ some (local + 1)) × (local + 1 < u64_mod))
unfolding following
following_cases local = ground arith

following-Past : (local x : ℕ) → (x ≡ local) ⊎ (x < local) → Past (following local) x
following-Past local x h = elim (following_cases local) [
  | inl e ↦ subst (λ o. Past o x) (sym e.0) tt
  | inr e ↦ subst (λ o. Past o x) (sym e.0) (ground arith)
]

module _ (p : Process) (i : ℕ) (made : Allocated) (sound : Sound p)
    (run : allocate p.next_scope (p.allocator i) ≡ ok made) where
  pub local_is : (p.allocator i).next_local ≡ some made.id.local
  local_is = (allocate-made p.next_scope (p.allocator i) made run).0

  pub allocator_is :
      made.allocator
      ≡ record { owner_scope = some made.id.owner_scope; next_local = following made.id.local }
  allocator_is = (allocate-made p.next_scope (p.allocator i) made run).1

  pub scope_is :
      (((p.allocator i).owner_scope ≡ some made.id.owner_scope) × (made.next_scope ≡ p.next_scope))
      ⊎ (((p.allocator i).owner_scope ≡ none)
          × (made.id.owner_scope ≡ p.next_scope)
          × (0 < p.next_scope)
          × (((made.next_scope ≡ 0) × (p.next_scope ≡ u64_mod - 1))
              ⊎ ((made.next_scope ≡ p.next_scope + 1) × (p.next_scope ≢ u64_mod - 1))))
  scope_is = (allocate-made p.next_scope (p.allocator i) made run).2

  -- Scopes handed out before are handed out after, and so is that of the allocation.
  still-Taken : (s : ℕ) → Taken p.next_scope s → Taken made.next_scope s
  still-Taken s t = elim scope_is [ inl h ↦ ground arith | inr h ↦ ground arith ]

  now-Taken : Taken made.next_scope made.id.owner_scope
  now-Taken = elim scope_is [
    | inl (e, same) ↦ still-Taken made.id.owner_scope (sound.scope_taken i made.id.owner_scope e)
    | inr (e, s, pos, next) ↦ ground arith
  ]

  pub allocator_at :
      (j : ℕ)
      → ((j ≡ i) × ((issue i made p).allocator j ≡ made.allocator))
        ⊎ ((j ≢ i) × ((issue i made p).allocator j ≡ p.allocator j))
  allocator_at j = elim (Bool-cases (j == i)) [
    | inl e ↦ inl (ground arith, rw e refl)
    | inr e ↦ inr (ground arith, rw e refl)
  ]

  -- The scope of the allocation belongs to no other allocator.
  no_other : (j : ℕ) → j ≢ i → (p.allocator j).owner_scope ≢ some made.id.owner_scope
  no_other j n e = elim scope_is [
    | inl (f, same) ↦ n (sound.apart j i made.id.owner_scope e f)
    | inr (f, s, pos, next) ↦ ground (arith, sound.scope_taken j made.id.owner_scope e)
  ]

  fresh_id : ¬ In made.id p.issued
  fresh_id m = elim scope_is [
    | inl (f, same) ↦
        let before : made.id.local < made.id.local =
          subst (λ o. Past o made.id.local) local_is (sound.id_past made.id i m f) in
        ground arith
    | inr (f, s, pos, next) ↦ ground (arith, sound.id_taken made.id m)
  ]

  owner_at :
      (j s : ℕ)
      → ((issue i made p).allocator j).owner_scope ≡ some s
      → ((j ≡ i) × (made.id.owner_scope ≡ s)) ⊎ ((j ≢ i) × ((p.allocator j).owner_scope ≡ some s))
  owner_at j s e = elim (allocator_at j) [
    | inl (same, a) ↦
        let own : ◌≡◌ {A = Option ℕ} (some made.id.owner_scope) (some s) =
          sym (ap (λ x. x.owner_scope) allocator_is) ∙ (sym (ap (λ x. x.owner_scope) a) ∙ e) in
        inl (same, ground arith)
    | inr (n, a) ↦ inr (n, subst (λ x. x.owner_scope ≡ some s) a e)
  ]

  still-apart :
      (j k s : ℕ)
      → ((issue i made p).allocator j).owner_scope ≡ some s
      → ((issue i made p).allocator k).owner_scope ≡ some s
      → j ≡ k
  still-apart j k s e f = elim (owner_at j s e) [
    | inl (a, o) ↦ elim (owner_at k s f) [
      | inl (b, q) ↦ a ∙ sym b
      | inr (n, q) ↦ absurd (no_other k n (q ∙ ap some (sym o)))
    ]
    | inr (n, o) ↦ elim (owner_at k s f) [
      | inl (b, q) ↦ absurd (no_other j n (o ∙ ap some (sym q)))
      | inr (l, q) ↦ sound.apart j k s o q
    ]
  ]

  -- An identity issued before from the same scope has a smaller local number.
  older :
      (x : GpuWorkResourceId)
      → In x p.issued
      → made.id.owner_scope ≡ x.owner_scope
      → x.local < made.id.local
  older x m same = elim scope_is [
    | inl (f, kept) ↦ subst (λ o. Past o x.local) local_is (sound.id_past x i m (f ∙ ap some same))
    | inr (f, s, pos, next) ↦ absurd (ground (arith, sound.id_taken x m))
  ]

  still-Past :
      (x : GpuWorkResourceId) (j : ℕ)
      → In x (made.id ∷ p.issued)
      → ((issue i made p).allocator j).owner_scope ≡ some x.owner_scope
      → Past ((issue i made p).allocator j).next_local x.local
  still-Past x j m e = elim (allocator_at j) [
    | inl (same, a) ↦
        subst (λ y. Past y.next_local x.local) (sym (a ∙ allocator_is))
          (following-Past made.id.local x.local (elim m [
            | inl q ↦ inl (ap (λ y. y.local) q)
            | inr q ↦ elim (owner_at j x.owner_scope e) [
              | inl (b, o) ↦ inr (older x q o)
              | inr (n, o) ↦ absurd (n same)
            ]
          ]))
    | inr (n, a) ↦
        subst (λ y. Past y.next_local x.local) (sym a)
          (elim m [
            | inl q ↦ absurd (
                no_other j n (
                  subst (λ y. y.owner_scope ≡ some x.owner_scope) a e
                  ∙ ap (λ y. some y.owner_scope) q))
            | inr q ↦ sound.id_past x j q (subst (λ y. y.owner_scope ≡ some x.owner_scope) a e)
          ])
  ]

  issue-Sound : Sound (issue i made p)
  issue-Sound = record {
    scope_taken = λ j s e. elim (owner_at j s e) [
      | inl (same, o) ↦ subst (Taken made.next_scope) o now-Taken
      | inr (n, o) ↦ still-Taken s (sound.scope_taken j s o)
    ];
    apart = still-apart;
    id_taken = λ x m. elim m [
      | inl q ↦ subst (λ y. Taken made.next_scope y.owner_scope) (sym q) now-Taken
      | inr q ↦ still-Taken x.owner_scope (sound.id_taken x q)
    ];
    id_past = still-Past;
    distinct = (fresh_id, sound.distinct);
  }

pub Reachable-Sound : (p : Process) → Reachable p → Sound p
Reachable-Sound _ start = start-Sound
Reachable-Sound _ (allocated p i made r run) = issue-Sound p i made (Reachable-Sound p r) run

-- Whatever allocators a process makes and in whatever order they allocate, no identity is issued
-- twice, and the scope of each is positive.
pub Reachable-Distinct :
    (p : Process)
    → Reachable p
    → Distinct p.issued × ((x : GpuWorkResourceId) → In x p.issued → 0 < x.owner_scope)
Reachable-Distinct p r =
    let sound = Reachable-Sound p r in (sound.distinct, λ x m. (sound.id_taken x m).0)
