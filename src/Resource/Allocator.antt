-- ===== src/Resource/Allocator.antt =====
-- How resource identities are allocated: `GpuWorkResourceOwnerScopeAllocator` and
-- `GpuWorkResourceIdAllocator` of src/api/work_resource_id.rs.
pub mod Freshness
pub mod Exhaustion
use runen_gpu.Base.{
  ℕ, ◌+◌, ◌-◌, ◌≡◌, List, [], ◌∷◌, Option, none, some, Result, ok, err, ◌>>=◌, ok_or, if◌then◌else◌,
  ◌==◌, u64_mod, checked_add,
}
use runen_gpu.Base.Optional
use runen_gpu.Resource.{GpuWorkResourceId}

pub data GpuWorkResourceIdAllocationError : Type 0 where
  exhausted : GpuWorkResourceIdAllocationError

-- The update of `next` by `fetch_update`: the scope and the next one, zero after the last.
unfoldable pub allocate_scope : ℕ → Result GpuWorkResourceIdAllocationError (ℕ × ℕ)
allocate_scope next =
    if next == 0 then err exhausted else ok (next, if next == u64_mod - 1 then 0 else next + 1)

pub record GpuWorkResourceIdAllocator : Type 0 where
  pub owner_scope : Option ℕ
  pub next_local : Option ℕ

abbrev pub new_allocator : GpuWorkResourceIdAllocator
new_allocator = record { owner_scope = none; next_local = some 1 }

-- The scope of the allocator, taken from the process when it has none.
unfoldable pub scope_of : ℕ → Option ℕ → Result GpuWorkResourceIdAllocationError (ℕ × ℕ)
unfolding allocate_scope
scope_of next_scope none = allocate_scope next_scope
scope_of next_scope (some scope) = ok (scope, next_scope)

-- `checked_add(1).and_then(NonZeroU64::new)`.
unfoldable pub following : ℕ → Option ℕ
following local = elim (checked_add u64_mod local 1) [
  | none ↦ none
  | some sum ↦ if sum == 0 then none else some sum
]

pub record Allocated : Type 0 where
  pub id : GpuWorkResourceId
  pub allocator : GpuWorkResourceIdAllocator
  pub next_scope : ℕ

-- `allocate`, which leaves the allocator and the process as they are when it fails.
unfoldable pub allocate :
    ℕ → GpuWorkResourceIdAllocator → Result GpuWorkResourceIdAllocationError Allocated
unfolding scope_of following
allocate next_scope allocator = do
  local ← ok_or allocator.next_local exhausted
  (scope, next) ← scope_of next_scope allocator.owner_scope
  ok (record {
    id = record { owner_scope = scope; local = local };
    allocator = record { owner_scope = some scope; next_local = following local };
    next_scope = next;
  })

-- The process: the allocators that it makes, by number, and what they have issued.
pub record Process : Type 0 where
  pub next_scope : ℕ
  pub allocator : ℕ → GpuWorkResourceIdAllocator
  pub issued : List GpuWorkResourceId

abbrev pub fresh_process : Process
fresh_process = record { next_scope = 1; allocator = λ i. new_allocator; issued = [] }

abbrev pub issue : ℕ → Allocated → Process → Process
issue i made process = record {
  next_scope = made.next_scope;
  allocator = λ j. if j == i then made.allocator else process.allocator j;
  issued = made.id ∷ process.issued;
}

-- The states that allocations from any allocators reach, in any order.
pub data Reachable : Process → Type 0 where
  start : Reachable fresh_process
  allocated :
      (process : Process) (i : ℕ) (made : Allocated)
      → Reachable process
      → allocate process.next_scope (process.allocator i) ≡ ok made
      → Reachable (issue i made process)
