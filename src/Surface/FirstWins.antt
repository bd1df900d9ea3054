-- ===== src/Surface/FirstWins.antt =====
-- The first call on a lease decides what becomes of it.
use runen_gpu.Base.{◌≡◌, refl, List, [], ◌∷◌, some, ok, err}
use runen_gpu.Surface.{
  GpuSurfaceLeaseDisposition, active, abandoned, presented, as_u8, from_u8, LeaseCall,
  mark_abandoned, mark_presented, Answers, run_calls,
}

-- The answer of every present in a list of calls.
abbrev pub refusals : GpuSurfaceLeaseDisposition → List LeaseCall → Answers
refusals final [] = []
refusals final (mark_abandoned ∷ rest) = refusals final rest
refusals final (mark_presented ∷ rest) = some (err final) ∷ refusals final rest

abbrev pub decided : LeaseCall → GpuSurfaceLeaseDisposition
decided mark_abandoned = abandoned
decided mark_presented = presented

abbrev pub first_answer : LeaseCall → Answers → Answers
first_answer mark_abandoned answers = answers
first_answer mark_presented answers = some (ok tt) ∷ answers

pub from_u8-as_u8 : (d : GpuSurfaceLeaseDisposition) → from_u8 (as_u8 d) ≡ some d
unfolding from_u8 as_u8
from_u8-as_u8 active = refl
from_u8-as_u8 abandoned = refl
from_u8-as_u8 presented = refl

-- A lease that is decided stays so.
run_calls-abandoned :
    (calls : List LeaseCall)
    → run_calls calls (as_u8 abandoned) ≡ (refusals abandoned calls, as_u8 abandoned)
unfolding run_calls
run_calls-abandoned [] = refl
run_calls-abandoned (mark_abandoned ∷ rest) = run_calls-abandoned rest
run_calls-abandoned (mark_presented ∷ rest) = rw (run_calls-abandoned rest) refl

run_calls-presented :
    (calls : List LeaseCall)
    → run_calls calls (as_u8 presented) ≡ (refusals presented calls, as_u8 presented)
unfolding run_calls
run_calls-presented [] = refl
run_calls-presented (mark_abandoned ∷ rest) = run_calls-presented rest
run_calls-presented (mark_presented ∷ rest) = rw (run_calls-presented rest) refl

-- In whatever order the clones of an active lease abandon and present it, the first call decides:
-- the lease ends as that call says, a present succeeds only as that call, every later present
-- is refused with what the lease has become, and no call meets an unknown disposition.
pub run_calls-active :
    (first : LeaseCall) (rest : List LeaseCall)
    → run_calls (first ∷ rest) (as_u8 active)
      ≡ (first_answer first (refusals (decided first) rest), as_u8 (decided first))
unfolding run_calls
run_calls-active mark_abandoned rest = run_calls-abandoned rest
run_calls-active mark_presented rest = rw (run_calls-presented rest) refl
