-- ===== src/Surface.antt =====
-- The lease of an acquired surface image: `GpuSurfaceLeaseDisposition` and
-- `GpuSurfaceLeaseState` of src/api/surface_acquisition.rs. Clones of a lease share one cell.
pub mod FirstWins
use runen_gpu.Base.{
  ℕ, ◌≡◌, List, [], ◌∷◌, ◌++◌, Option, none, some, Result, ok, err, if◌then◌else◌, ◌==◌,
}

pub data GpuSurfaceLeaseDisposition : Type 0 where
  active abandoned presented : GpuSurfaceLeaseDisposition

unfoldable pub as_u8 : GpuSurfaceLeaseDisposition → ℕ
as_u8 active = 0
as_u8 abandoned = 1
as_u8 presented = 2

-- `none` is the fault of `unreachable!`.
unfoldable pub from_u8 : ℕ → Option GpuSurfaceLeaseDisposition
from_u8 value =
    if value == 0
    then some active
    else if value == 1
    then some abandoned
    else if value == 2
    then some presented
    else none

-- `compare_exchange`: what it returns, and the cell after it.
unfoldable pub compare_exchange : ℕ → ℕ → ℕ → Result ℕ ℕ × ℕ
compare_exchange cell current new = if cell == current then (ok cell, new) else (err cell, cell)

unfoldable pub abandon : ℕ → ℕ
unfolding compare_exchange as_u8
abandon cell = (compare_exchange cell (as_u8 active) (as_u8 abandoned)).1

-- `none` is the fault of `from_u8`.
unfoldable pub present : ℕ → Option (Result GpuSurfaceLeaseDisposition (Unit {0})) × ℕ
unfolding compare_exchange as_u8 from_u8
present cell =
    let (outcome, after) = compare_exchange cell (as_u8 active) (as_u8 presented) in
    (
      elim outcome [
        | ok old ↦ some (ok tt)
        | err old ↦ elim (from_u8 old) [ none ↦ none | some found ↦ some (err found) ]
      ],
      after,
    )

-- What the clones of one lease do, in the order in which the cell sees it.
pub data LeaseCall : Type 0 where
  mark_abandoned mark_presented : LeaseCall

abbrev pub Answers : Type 0
Answers = List (Option (Result GpuSurfaceLeaseDisposition (Unit {0})))

-- The answers to the presents, and the cell at the end.
unfoldable pub run_calls : List LeaseCall → ℕ → Answers × ℕ
unfolding abandon present
run_calls [] cell = ([], cell)
run_calls (mark_abandoned ∷ rest) cell = run_calls rest (abandon cell)
run_calls (mark_presented ∷ rest) cell =
    let (answer, after) = present cell in
    let (answers, last) = run_calls rest after in (answer ∷ answers, last)
