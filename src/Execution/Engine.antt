-- ===== src/Execution/Engine.antt =====
-- `TaskExecutionEngine` of yasin_core/execution/engine.py, and the processing of one job by a local
-- worker thread (yasin_core/execution/worker.py). The threads and the context that a worker
-- activates are not modelled; what the target does, a timeout included, is the `Outcome`.
pub mod Submission
pub mod Cancellation
pub mod Retries
pub mod Draining
pub mod Registry
use yasin_core.Prelude.{
  ℕ, zero, suc, ◌+◌, String, Bool, true, false, ◌&&◌, ◌||◌, not, Option, none, some, List, [], ◌∷◌,
  ◌++◌, if◌then◌else◌, ltb, ◌==◌,
}
use yasin_core.Prelude.Int.{ℤ}
use yasin_core.Dict
use yasin_core.Dict.{Dict}
use yasin_core.Execution.{
  make_job, JobStatus, pending, queued, running, completed, failed, cancelled, is_final, Job, Value,
  nothing, text, truthy, Target, named, callable, cancel, Heap,
}
use yasin_core.Execution.Queue.{put, get_nowait, clear}
use yasin_core.Execution.System.{WorkerNode, System, publish_job, save_to_memory, modify}
use yasin_core.Execution.Workers.{
  assign_job, assign_job_by_capability, requested_capability, target_capability, discover_workers,
}
use yasin_core.Execution.Workers.Reports.{Outcome, returns, raises}

-- `not job.context_id`
abbrev pub is_blank : Option String → Bool
is_blank none = true
is_blank (some s) = s == ""

-- The active context is taken over if the job has none.
abbrev pub with_context : Option String → Job → Job
with_context current job =
    if is_blank job.context_id
    then (elim current [ none ↦ job | some id ↦ record job { context_id = some id } ])
    else job

-- The local fallback.
unfoldable pub enqueue : ℕ → System → System
unfolding put
enqueue ref s = publish_job "job_queued" ref (record s { queue = put s.queue ref (s.heap ref) })

-- A worker that the job names, if it names one.
unfoldable pub assign_named : Value → String → System → System × Bool
unfolding assign_job
assign_named (text worker_id) job_id s =
    if worker_id == "" then (s, false) else assign_job job_id worker_id s
assign_named _ job_id s = (s, false)

-- Each of the three routes to a distributed worker: the state, and whether the job was assigned.
unfoldable pub route_explicit : ℕ → System → System × Bool
unfolding assign_named
route_explicit ref s = assign_named (s.heap ref).worker_id (s.heap ref).id s

abbrev pub was_assigned : System × Option WorkerNode → System × Bool
was_assigned (s, none) = (s, false)
was_assigned (s, some w) = (s, true)

unfoldable pub route_capability : ℕ → System → System × Bool
unfolding assign_job_by_capability
route_capability ref s =
    if truthy (requested_capability (s.heap ref))
    then was_assigned (assign_job_by_capability ref s)
    else (s, false)

-- Only a target that is a text names a capability.
unfoldable pub assign_target : Target → ℕ → System → System × Bool
unfolding discover_workers assign_job_by_capability
assign_target (callable f) ref s = (s, false)
assign_target (named target) ref s = elim (discover_workers (text (target_capability target)) s) [
  | [] ↦ (s, false)
  | _ ∷ _ ↦ was_assigned (assign_job_by_capability ref s)
]

unfoldable pub route_target : ℕ → System → System × Bool
unfolding assign_target
route_target ref s = assign_target (s.heap ref).target ref s

-- A route is tried if the one before it did not assign the job.
abbrev pub or_route : System × Bool → (System → System × Bool) → System × Bool
or_route (s, true) next = (s, true)
or_route (s, false) next = next s

-- The routes, given the manager's registry: none is tried where that is empty.
unfoldable pub route_among : Dict WorkerNode → ℕ → System → System × Bool
unfolding route_explicit route_capability route_target
route_among [] ref s = (s, false)
route_among (_ ∷ _) ref s =
    or_route (or_route (route_explicit ref s) (route_capability ref)) (route_target ref)

abbrev pub route : ℕ → System → System × Bool
route ref s = route_among s.workers ref s

-- The registration at the head of `submit_job`.
abbrev pub admit : ℕ → Option String → System → System
admit ref current s =
    let s1 = modify ref (with_context current) s in
    modify ref (λ job. record job { status = queued })
      (record s1 { jobs = Dict.put s1.jobs (s1.heap ref).id ref })

-- `submit_job` of the job object at `ref`, in the active context `current`.
unfoldable pub submit_job : ℕ → Option String → System → System
unfolding Dict.put route_among enqueue
submit_job ref current s =
    let (s', assigned) = route ref (admit ref current s) in if assigned then s' else enqueue ref s'

-- `create_job` of a new object at `ref`, with its identifier and its name.
unfoldable pub create_job :
    ℕ
    → String
    → String
    → Target
    → List Value
    → Dict Value
    → ℤ
    → ℕ
    → Option ℕ
    → ℕ
    → Option String
    → System
    → System
unfolding make_job submit_job
create_job ref id name target args kwargs priority retries timeout now current s =
    submit_job ref current
      (modify ref (λ _. make_job id name target args kwargs priority retries timeout none now) s)

unfoldable pub list_jobs : System → List ℕ
unfolding Dict.values
list_jobs s = Dict.values s.jobs

unfoldable pub get_job : String → System → Option ℕ
unfolding Dict.get
get_job job_id s = Dict.get s.jobs job_id

unfoldable pub cancel_job : String → ℕ → System → System × Bool
unfolding Dict.get cancel
cancel_job job_id now s = elim (Dict.get s.jobs job_id) [
  | none ↦ (s, false)
  | some ref ↦
      let (job, success) = cancel now (s.heap ref) in
      let s' = modify ref (λ _. job) s in
      (if success then publish_job "job_cancelled" ref s' else s', success)
]

-- status in (PENDING, QUEUED, RUNNING)
abbrev pub is_current : JobStatus → Bool
is_current pending = true
is_current queued = true
is_current running = true
is_current _ = false

-- {jid: j for jid, j in jobs.items() if j.status in active_statuses}
unfoldable pub current_jobs : Heap → Dict ℕ → Dict ℕ
current_jobs heap [] = []
current_jobs heap ((job_id, ref) ∷ rest) =
    if is_current (heap ref).status
    then (job_id, ref) ∷ current_jobs heap rest
    else current_jobs heap rest

unfoldable pub clear_jobs : System → System
unfolding current_jobs
clear_jobs s = record s { jobs = current_jobs s.heap s.jobs }

-- `_process_job` up to the call of the target; `false` where the job was cancelled before.
unfoldable pub begin_job : ℕ → ℕ → System → System × Bool
begin_job ref now s =
    let job = s.heap ref in
    if job.cancelled || (elim job.status [ cancelled ↦ true | _ ↦ false ])
    then (
      publish_job "job_cancelled" ref
          (modify ref (λ job. record job { status = cancelled; completed_at = some now }) s),
      false,
    )
    else (
      publish_job "job_started" ref
          (modify ref (λ job. record job { status = running; started_at = some now }) s),
      true,
    )

-- The `except` branch: one more try, or the end.
unfoldable pub fail_job : ℕ → String → ℕ → System → System
unfolding put
fail_job ref message now s =
    let job = s.heap ref in
    if ltb job.retry_count job.retries
    then (let s1 =
          modify ref (λ job. record job { retry_count = job.retry_count + 1; status = queued }) s in
        let s2 = publish_job "job_retrying" ref s1 in
        record s2 { queue = put s2.queue ref (s2.heap ref) })
    else save_to_memory ref (
        publish_job "job_failed" ref (
          modify ref
            (λ job. record job { error = some message; status = failed; completed_at = some now })
            s))

-- `_process_job` from the end of the target on.
unfoldable pub finish_job : ℕ → Outcome → ℕ → System → System
unfolding fail_job
finish_job ref (returns v) now s = save_to_memory ref (
    publish_job "job_completed" ref (
      modify ref (λ job. record job { result = v; status = completed; completed_at = some now }) s))
finish_job ref (raises message) now s = fail_job ref message now s

-- `_process_job` where nothing else happens meanwhile.
unfoldable pub process_job : ℕ → Outcome → ℕ → System → System
unfolding begin_job finish_job
process_job ref outcome now s =
    let (s', started) = begin_job ref now s in if started then finish_job ref outcome now s' else s'

-- One turn of a worker's loop (`JobWorker.run`): the next job of the queue, if there is one, whose
-- target ends with `outcome`.
unfoldable pub work_next : Outcome → ℕ → System → System
unfolding get_nowait process_job
work_next outcome now s = elim (get_nowait s.queue) [
  | none ↦ s
  | some (ref, queue) ↦ process_job ref outcome now (record s { queue = queue })
]

-- That many turns: `plan` has the outcome and the time of each, the last one at 0.
unfoldable pub work : ℕ → (ℕ → Outcome × ℕ) → System → System
unfolding work_next
work zero plan s = s
work (suc n) plan s = let (outcome, now) = plan n in work n plan (work_next outcome now s)
