-- ===== src/Execution/Workers/Reports.antt =====
-- `report_job_status` of yasin_core/execution/distributed.py, and the execution of one job by a
-- distributed worker (`_fetch_job`, `_execute_job`). The outcome of the job's target is an argument.
-- The counter in the metrics is not modelled.
use yasin_core.Prelude.{
  ℕ, ◌+◌, String, Bool, true, false, Option, none, some, [], ◌∷◌, ◌++◌, if◌then◌else◌, ltb,
}
use yasin_core.Dict
use yasin_core.Execution.{
  JobStatus, queued, running, completed, failed, cancelled, is_final, Job, Value, nothing,
}
use yasin_core.Execution.System.{WorkerNode, System, publish_job, save_to_memory, modify}

-- The writes to the job object under its lock.
unfoldable pub record_status : JobStatus → Value → Option String → ℕ → Job → Job
record_status running result error now job = record job { status = running; started_at = some now }
record_status completed result error now job = record job {
  status = completed;
  completed_at = some now;
  result = result;
  error = error;
}
record_status failed result error now job = record job {
  status = failed;
  completed_at = some now;
  result = result;
  error = error;
}
record_status cancelled result error now job = record job {
  status = cancelled;
  completed_at = some now;
  result = result;
  error = error;
}
record_status status result error now job = record job { status = status }

-- node.assigned_jobs.pop(job_id, None), for a final status.
abbrev pub release : JobStatus → String → WorkerNode → WorkerNode
release status job_id node =
    if is_final status
    then record node { assigned_jobs = Dict.remove node.assigned_jobs job_id }
    else node

-- A failed job with retries left goes back to the same worker.
unfoldable pub retry_or_fail : String → String → ℕ → WorkerNode → System → System
unfolding Dict.put
retry_or_fail worker_id job_id ref node s =
    let job = s.heap ref in
    if ltb job.retry_count job.retries
    then (let s1 =
          modify ref (λ job. record job { retry_count = job.retry_count + 1; status = queued }) s in
        let s2 = publish_job "job_retrying" ref s1 in
        record s2 {
          workers = Dict.put s2.workers worker_id (record node {
            assigned_jobs = Dict.put node.assigned_jobs job_id ref;
            queue = node.queue ++ ref ∷ [];
          });
        })
    else save_to_memory ref (publish_job "job_failed" ref s)

-- What follows the writes, for each status.
abbrev pub follow_up : JobStatus → String → String → ℕ → WorkerNode → System → System
follow_up running worker_id job_id ref node s = publish_job "job_started" ref s
follow_up completed worker_id job_id ref node s =
    save_to_memory ref (publish_job "job_completed" ref s)
follow_up failed worker_id job_id ref node s = retry_or_fail worker_id job_id ref node s
follow_up cancelled worker_id job_id ref node s = publish_job "job_cancelled" ref s
follow_up _ worker_id job_id ref node s = s

unfoldable pub apply_report :
    String → String → JobStatus → Value → Option String → ℕ → ℕ → WorkerNode → System → System
unfolding record_status retry_or_fail Dict.put Dict.remove
apply_report worker_id job_id status result error now ref node s =
    let released = release status job_id node in
    let s1 = modify ref (record_status status result error now) s in
    let s2 = record s1 { workers = Dict.put s1.workers worker_id released } in
    follow_up status worker_id job_id ref released s2

unfoldable pub report_job_status :
    String → String → JobStatus → Value → Option String → ℕ → System → System × Bool
unfolding Dict.get apply_report
report_job_status worker_id job_id status result error now s = elim (Dict.get s.workers worker_id) [
  | none ↦ (s, false)
  | some node ↦ elim (Dict.get s.jobs job_id) [
    | none ↦ (s, false)
    | some ref ↦ (apply_report worker_id job_id status result error now ref node s, true)
  ]
]

-- `_fetch_job`: the next job of the worker's own queue.
unfoldable pub fetch_job : String → System → System × Option ℕ
unfolding Dict.get Dict.put
fetch_job worker_id s = elim (Dict.get s.workers worker_id) [
  | none ↦ (s, none)
  | some node ↦ elim node.queue [
    | [] ↦ (s, none)
    | ref ∷ rest ↦ (
      record s { workers = Dict.put s.workers worker_id (record node { queue = rest }) },
      some ref,
    )
  ]
]

-- A target returns a value, or raises an exception with a message.
pub data Outcome : Type 0 where
  returns : Value → Outcome
  raises : String → Outcome

abbrev pub report_outcome : String → String → Outcome → ℕ → System → System
report_outcome worker_id job_id (returns v) now s =
    (report_job_status worker_id job_id completed v none now s).0
report_outcome worker_id job_id (raises message) now s =
    (report_job_status worker_id job_id failed nothing (some message) now s).0

-- `_execute_job` of a job whose target ends with `outcome`.
unfoldable pub execute_job : String → ℕ → Outcome → ℕ → System → System
unfolding report_job_status
execute_job worker_id ref outcome now s =
    let job_id = (s.heap ref).id in
    let s1 = (report_job_status worker_id job_id running nothing none now s).0 in
    if (s1.heap ref).cancelled
    then (report_job_status worker_id job_id cancelled nothing none now s1).0
    else report_outcome worker_id job_id outcome now s1
