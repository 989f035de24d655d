-- ===== src/Execution.antt =====
-- yasin_core/execution/models.py: jobs, and the state that the task execution engine and the
-- distributed worker manager share. A job object is shared between the engine's registry, the
-- queues and the workers, so it lives in a heap, and all of these hold its reference. Times are
-- numbers of clock ticks; one call reads the clock once. The client has all of its services (event
-- bus, memory, worker manager); a published event is logged and its subscribers do not change jobs.
pub mod Queue
pub mod System
pub mod Workers
pub mod Placement
pub mod Engine
mod Tests
use yasin_core.Prelude.{
  ℕ, suc, ◌+◌, String, Bool, true, false, ◌||◌, Option, none, some, List, [], ◌∷◌, ◌++◌,
  if◌then◌else◌, eqb, ◌==◌, not,
}
use yasin_core.Prelude.Int.{ℤ, pos}
use yasin_core.Dict
use yasin_core.Dict.{Dict}

pub data JobStatus : Type 0 where
  pending queued running completed failed cancelled : JobStatus

-- JobPriority
abbrev pub low : ℤ
low = pos 10

abbrev pub normal : ℤ
normal = pos 20

abbrev pub high : ℤ
high = pos 30

abbrev pub critical : ℤ
critical = pos 40

-- The Python values that jobs carry. An `object` is known by its identity alone, and so is a `blank`,
-- an object other than a text whose truth value is False, such as 0, False or an empty list.
pub data Value : Type 0 where
  nothing : Value
  text : String → Value
  object : ℕ → Value
  blank : ℕ → Value

-- bool(v)
abbrev pub truthy : Value → Bool
truthy nothing = false
truthy (text s) = not (s == "")
truthy (object n) = true
truthy (blank n) = false

pub data Target : Type 0 where
  callable : ℕ → Target
  named : String → Target

pub record Job : Type 0 where
  pub id : String
  pub name : String
  pub target : Target
  pub args : List Value
  pub kwargs : Dict Value
  pub priority : ℤ
  pub retries : ℕ
  pub retry_count : ℕ
  pub timeout : Option ℕ
  pub status : JobStatus
  pub result : Value
  pub error : Option String
  pub created_at : ℕ
  pub started_at : Option ℕ
  pub completed_at : Option ℕ
  pub context_id : Option String
  pub cancelled : Bool
  pub worker_id : Value

-- kwargs.get(key)
abbrev pub kwarg : Dict Value → String → Value
kwarg kwargs key = Dict.get_or kwargs key nothing

-- `Job(...)` with its identifier given.
unfoldable pub make_job :
    String → String → Target → List Value → Dict Value → ℤ → ℕ → Option ℕ → Option String → ℕ → Job
unfolding Dict.get_or
make_job id name target args kwargs priority retries timeout context_id now = record {
  id = id;
  name = name;
  target = target;
  args = args;
  kwargs = kwargs;
  priority = priority;
  retries = retries;
  retry_count = 0;
  timeout = timeout;
  status = pending;
  result = nothing;
  error = none;
  created_at = now;
  started_at = none;
  completed_at = none;
  context_id = context_id;
  cancelled = false;
  worker_id = kwarg kwargs "worker_id";
}

-- status in (COMPLETED, FAILED, CANCELLED)
abbrev pub is_final : JobStatus → Bool
is_final completed = true
is_final failed = true
is_final cancelled = true
is_final _ = false

-- Job.cancel
unfoldable pub cancel : ℕ → Job → Job × Bool
cancel now job =
    if is_final job.status
    then (job, false)
    else (record job { cancelled = true; status = cancelled; completed_at = some now }, true)

pub data Event : Type 0 where
  job_event : String → String → JobStatus → Event
  worker_event : String → String → Event

-- The heap of job objects.
abbrev pub Heap : Type 0
Heap = ℕ → Job

abbrev pub write : Heap → ℕ → Job → Heap
write heap ref job r = if eqb r ref then job else heap r
