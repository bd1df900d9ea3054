-- ===== src/Examples/States.antt =====
-- Allocators, surface leases and interval lists.
use runen_gpu.Base.{
  ℕ, ◌≡◌, refl, ◌⊎◌, ◌↔◌, ◌<◌, ◌+◌, List, [], ◌∷◌, none, some, ok, err, In, Distinct,
}
use runen_gpu.Resource.{GpuWorkResourceId}
use runen_gpu.Resource.Allocator.{
  exhausted, allocate_scope, scope_of, following, Allocated, allocate, Process, fresh_process,
  issue, Reachable, start, allocated,
}
use runen_gpu.Resource.Allocator.Freshness.{Reachable-Distinct}
use runen_gpu.Resource.Allocator.Exhaustion.{LastLocal, LastScope, allocate-err}
use runen_gpu.Surface.{
  as_u8, active, presented, run_calls, mark_abandoned, mark_presented, LeaseCall,
}
use runen_gpu.Surface.FirstWins.{refusals, first_answer, run_calls-active}
use runen_gpu.Graph.Intervals.{Interval, normalize_u64_intervals, normalize_u32_intervals}
use runen_gpu.Graph.Intervals.Laws.{Normal, normalize_u64_intervals-Normal}

abbrev made : ℕ → ℕ → ℕ → Allocated
made scope local next_scope = record {
  id = record { owner_scope = scope; local = local };
  allocator = record { owner_scope = some scope; next_local = some (local + 1) };
  next_scope = next_scope;
}

-- Allocator 4 issues two identities, and allocator 9 one between them.
abbrev after_one : Process
after_one = issue 4 (made 1 1 2) fresh_process

abbrev after_two : Process
after_two = issue 9 (made 2 1 3) after_one

abbrev after_three : Process
after_three = issue 4 (made 1 2 3) after_two

first_run : allocate fresh_process.next_scope (fresh_process.allocator 4) ≡ ok (made 1 1 2)
unfolding allocate allocate_scope scope_of following
first_run = refl

second_run : allocate after_one.next_scope (after_one.allocator 9) ≡ ok (made 2 1 3)
unfolding allocate allocate_scope scope_of following
second_run = refl

third_run : allocate after_two.next_scope (after_two.allocator 4) ≡ ok (made 1 2 3)
unfolding allocate allocate_scope scope_of following
third_run = refl

three_reached : Reachable after_three
three_reached =
    allocated after_two 4 (made 1 2 3)
      (allocated after_one 9 (made 2 1 3) (allocated fresh_process 4 (made 1 1 2) start first_run)
        second_run)
      third_run

Reachable-Distinct_example :
    Distinct after_three.issued
    × ((x : GpuWorkResourceId) → In x after_three.issued → 0 < x.owner_scope)
Reachable-Distinct_example = Reachable-Distinct after_three three_reached

allocate-err_example :
    (allocate after_three.next_scope (after_three.allocator 4) ≡ err exhausted) ↔ (
      LastLocal after_three 4
      ⊎ (((after_three.allocator 4).owner_scope ≡ none) × LastScope after_three))
allocate-err_example = allocate-err after_three 4 three_reached

-- Two clones present and one abandons.
abbrev late_calls : List LeaseCall
late_calls = mark_abandoned ∷ mark_presented ∷ []

run_calls-active_example :
    run_calls (mark_presented ∷ late_calls) (as_u8 active)
    ≡ (first_answer mark_presented (refusals presented late_calls), as_u8 presented)
run_calls-active_example = run_calls-active mark_presented late_calls

abbrev rows : List Interval
rows = (8, 12) ∷ (0, 4) ∷ (3, 6) ∷ (12, 16) ∷ []

rows_merge : normalize_u64_intervals rows ≡ (0, 6) ∷ (8, 16) ∷ []
unfolding normalize_u64_intervals
rows_merge = refl

normalize_u64_intervals-Normal_example :
    Normal rows (normalize_u64_intervals rows) × Normal rows (normalize_u32_intervals rows)
normalize_u64_intervals-Normal_example = normalize_u64_intervals-Normal rows
