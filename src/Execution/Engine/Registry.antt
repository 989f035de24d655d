-- ===== src/Execution/Engine/Registry.antt =====
-- What is left of the engine's registry after `clear_jobs`.
use yasin_core.Prelude.{
  ℕ, ◌≤◌, String, ◌≡◌, refl, Option, none, some, [], ◌∷◌, arith, if◌then◌else◌,
}
use yasin_core.Prelude.Counting.{count}
use yasin_core.Dict
use yasin_core.Dict.{Dict}
use yasin_core.Execution.{Heap}
use yasin_core.Execution.System.{System}
use yasin_core.Execution.Engine.{is_current, current_jobs, clear_jobs, get_job}

-- A reference is kept if its job is pending, queued or running.
abbrev pub if_current : Heap → Option ℕ → Option ℕ
if_current heap none = none
if_current heap (some ref) = if is_current (heap ref).status then some ref else none

get-absent :
    (heap : Heap) (jobs : Dict ℕ) (job_id : String)
    → count job_id (Dict.keys jobs) ≡ 0
    → Dict.get (current_jobs heap jobs) job_id ≡ none
unfolding current_jobs Dict.get Dict.keys count
get-absent heap [] job_id h = refl
get-absent heap ((j, ref) ∷ rest) job_id h = ground (arith, get-absent heap rest job_id)

get-current_jobs :
    (heap : Heap) (jobs : Dict ℕ) (job_id : String)
    → count job_id (Dict.keys jobs) ≤ 1
    → Dict.get (current_jobs heap jobs) job_id ≡ if_current heap (Dict.get jobs job_id)
unfolding current_jobs Dict.get Dict.keys count
get-current_jobs heap [] job_id h = refl
get-current_jobs heap ((j, ref) ∷ rest) job_id h =
    ground (arith, get-current_jobs heap rest job_id, get-absent heap rest job_id)

-- After `clear_jobs` of a registry without repeated keys a job is found exactly if it was found
-- before and is pending, queued or running, and it is the same job object.
pub clear_jobs-get :
    (job_id : String) (s : System)
    → ((k : String) → count k (Dict.keys s.jobs) ≤ 1)
    → get_job job_id (clear_jobs s) ≡ if_current s.heap (get_job job_id s)
unfolding get_job clear_jobs
clear_jobs-get job_id s h = get-current_jobs s.heap s.jobs job_id (h job_id)
