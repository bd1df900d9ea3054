-- ===== src/Resource/Allocator/Exhaustion.antt =====
-- An allocation fails only after the last number has been issued.
use runen_gpu.Base.{
  ℕ, ◌-◌, ◌<◌, ◌≡◌, refl, sym, ◌∙◌, subst, ◌⊎◌, inl, inr, ◌↔◌, none, some, ok, err, arith, In,
  Option-cases, u64_mod,
}
use runen_gpu.Resource.{GpuWorkResourceId}
use runen_gpu.Resource.Allocator.{
  exhausted, allocate_scope, GpuWorkResourceIdAllocator, scope_of, following, Allocated, allocate,
  Process, fresh_process, issue, Reachable, start, allocated,
}
use runen_gpu.Resource.Allocator.Freshness.{
  Past, Sound, Reachable-Sound, following_cases, local_is, scope_is, allocator_is, allocator_at,
}

-- The scope of the allocator has issued its last local number.
abbrev pub LastLocal : Process → ℕ → Type 0
LastLocal p i =
    (x : GpuWorkResourceId) × In x p.issued
    × ((p.allocator i).owner_scope ≡ some x.owner_scope)
    × (x.local ≡ u64_mod - 1)

-- The process has issued an identity of its last scope.
abbrev pub LastScope : Process → Type 0
LastScope p = (x : GpuWorkResourceId) × In x p.issued × (x.owner_scope ≡ u64_mod - 1)

record Counted (p : Process) : Type 0 where
  scope_bound : p.next_scope < u64_mod
  local_bound : (i n : ℕ) → (p.allocator i).next_local ≡ some n → n < u64_mod
  locals_used : (i : ℕ) → (p.allocator i).next_local ≡ none → LastLocal p i
  scopes_used : p.next_scope ≡ 0 → LastScope p

start-Counted : Counted fresh_process
start-Counted = record {
  scope_bound = omega arith;
  local_bound = λ i n e. ground arith;
  locals_used = λ i e. cc;
  scopes_used = λ e. absurd (omega (arith, e));
}

module _ (p : Process) (i : ℕ) (made : Allocated) (sound : Sound p) (now : Counted p)
    (run : allocate p.next_scope (p.allocator i) ≡ ok made) where
  -- What an earlier identity shows remains.
  later_LastScope : LastScope p → LastScope (issue i made p)
  later_LastScope (x, m, e) = (x, inr m, e)

  issue-local_bound : (j n : ℕ) → ((issue i made p).allocator j).next_local ≡ some n → n < u64_mod
  issue-local_bound j n e = elim (allocator_at p i made sound run j) [
    | inl (q, a) ↦
        let now_next : following made.id.local ≡ some n =
          subst (λ t. t.next_local ≡ some n) (a ∙ allocator_is p i made sound run) e in
        elim (following_cases made.id.local) [
          | inl (f, full) ↦ absurd (cc (f, now_next))
          | inr (f, lt) ↦ ground (arith, f, now_next, lt)
        ]
    | inr (q, a) ↦ now.local_bound j n (subst (λ t. t.next_local ≡ some n) a e)
  ]

  issue-LastLocal :
      (j : ℕ) → ((issue i made p).allocator j).next_local ≡ none → LastLocal (issue i made p) j
  issue-LastLocal j e = elim (allocator_at p i made sound run j) [
    | inl (q, a) ↦
        let is = a ∙ allocator_is p i made sound run in
        let gone : following made.id.local ≡ none = subst (λ t. t.next_local ≡ none) is e in
        elim (following_cases made.id.local) [
          | inl (f, full) ↦ (
            made.id,
            inl refl,
            subst (λ t. t.owner_scope ≡ some made.id.owner_scope) (sym is) refl,
            omega (arith, full, now.local_bound i made.id.local (local_is p i made sound run)),
          )
          | inr (f, lt) ↦ absurd (cc (f, gone))
        ]
    | inr (q, a) ↦
        let (x, m, o, l) = now.locals_used j (subst (λ t. t.next_local ≡ none) a e) in
        (x, inr m, subst (λ t. t.owner_scope ≡ some x.owner_scope) (sym a) o, l)
  ]

  issue-Counted : Counted (issue i made p)
  issue-Counted = record {
    scope_bound = elim (scope_is p i made sound run) [
      | inl h ↦ omega (arith, h.1, now.scope_bound)
      | inr (f, s, pos, next) ↦ ground (arith, next, now.scope_bound)
    ];
    local_bound = issue-local_bound;
    locals_used = issue-LastLocal;
    scopes_used = λ e. elim (scope_is p i made sound run) [
      | inl h ↦ later_LastScope (now.scopes_used (sym h.1 ∙ e))
      | inr (f, s, pos, next) ↦ (made.id, inl refl, ground (arith, next, s, e))
    ];
  }

Reachable-Counted : (p : Process) → Reachable p → Counted p
Reachable-Counted _ start = start-Counted
Reachable-Counted _ (allocated p i made r run) =
    issue-Counted p i made (Reachable-Sound p r) (Reachable-Counted p r) run

-- The guards of `allocate`.
allocate_fails :
    (next_scope : ℕ) (a : GpuWorkResourceIdAllocator)
    → (allocate next_scope a ≡ err exhausted)
      ↔ ((a.next_local ≡ none) ⊎ ((a.owner_scope ≡ none) × (next_scope ≡ 0)))
unfolding allocate scope_of allocate_scope
allocate_fails next_scope a = elim (Option-cases a.next_local) [
  | inl e ↦ ground arith
  | inr (l, e) ↦ elim (Option-cases a.owner_scope) [
    | inl f ↦ ground arith
    | inr (s, f) ↦ ground arith
  ]
]

-- Whatever allocations a process has made, the next one of an allocator fails exactly if an identity
-- of its scope with the local number 2^64 - 1 has been issued, or if it has no scope yet and an
-- identity of the scope 2^64 - 1 has been issued.
pub allocate-err :
    (p : Process) (i : ℕ)
    → Reachable p
    → (allocate p.next_scope (p.allocator i) ≡ err exhausted)
      ↔ (LastLocal p i ⊎ (((p.allocator i).owner_scope ≡ none) × LastScope p))
allocate-err p i r =
    let sound = Reachable-Sound p r in
    let counted = Reachable-Counted p r in
    let (to, from) = allocate_fails p.next_scope (p.allocator i) in
    (
      λ h. elim (to h) [
        | inl e ↦ inl (counted.locals_used i e)
        | inr (f, z) ↦ inr (f, counted.scopes_used z)
      ],
      λ h. elim h [
        | inl (x, m, o, l) ↦ elim (Option-cases (p.allocator i).next_local) [
          | inl e ↦ from (inl e)
          | inr (n, e) ↦
              let past : x.local < n = subst (λ t. Past t x.local) e (sound.id_past x i m o) in
              absurd (omega (arith, past, l, counted.local_bound i n e))
        ]
        | inr (f, (x, m, s)) ↦ elim (sound.id_taken x m).1 [
          | inl z ↦ from (inr (f, z))
          | inr lt ↦ absurd (omega (arith, lt, s, counted.scope_bound))
        ]
      ],
    )
