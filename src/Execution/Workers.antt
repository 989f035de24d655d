-- ===== src/Execution/Workers.antt =====
-- `DistributedWorkerManager` of yasin_core/execution/distributed.py: registration, discovery,
-- assignment, status reports and the sweep over stale workers.
pub mod Reports
pub mod Monitor
pub mod Discovery
pub mod Recovery
pub mod Sweep
use yasin_core.Prelude.{
  ℕ, suc, ◌+◌, ◌*◌, String, Bool, true, false, ◌&&◌, ◌||◌, Option, none, some, List, [], ◌∷◌, ◌++◌,
  if◌then◌else◌, ltb, leb, eqb, length, select, not,
}
use yasin_core.Prelude.Counting.{elem}
use yasin_core.Dict
use yasin_core.Dict.{Dict}
use yasin_core.Execution.{
  JobStatus, queued, running, completed, cancelled, Job, Value, nothing, text, truthy, Target,
  callable, named, kwarg,
}
use yasin_core.Execution.Queue.{put}
use yasin_core.Execution.System.{
  WorkerState, registered, active, offline, suspended, worker_state_eq, WorkerNode, make_node,
  update_heartbeat, has_capability, System, publish_job, publish_worker, save_to_memory, modify,
  set_node,
}

unfoldable pub register_worker : String → String → List String → Dict Value → ℕ → System → System
unfolding make_node Dict.put
register_worker worker_id name capabilities health now s =
    publish_worker "worker_registered" worker_id (record s {
      workers = Dict.put s.workers worker_id (make_node worker_id name capabilities health now);
    })

unfoldable pub unregister_worker : String → System → System × Option WorkerNode
unfolding Dict.get Dict.remove
unregister_worker worker_id s = elim (Dict.get s.workers worker_id) [
  | none ↦ (s, none)
  | some node ↦ (
    publish_worker "worker_unregistered" worker_id
        (record s { workers = Dict.remove s.workers worker_id }),
    some (record node { status = offline }),
  )
]

unfoldable pub get_worker : String → System → Option WorkerNode
unfolding Dict.get
get_worker worker_id s = Dict.get s.workers worker_id

-- `start` and `stop` of `BaseDistributedWorker`, as the manager sees them.
unfoldable pub start_worker : String → String → List String → Dict Value → ℕ → System → System
unfolding register_worker
start_worker worker_id name capabilities health now s =
    publish_worker "worker_started" worker_id
      (register_worker worker_id name capabilities health now s)

unfoldable pub stop_worker : String → System → System
unfolding unregister_worker
stop_worker worker_id s =
    publish_worker "worker_stopped" worker_id (unregister_worker worker_id s).0

-- list_workers(status)
unfoldable pub list_workers : WorkerState → System → List WorkerNode
unfolding Dict.values
list_workers status s = select (λ w. worker_state_eq w.status status) (Dict.values s.workers)

unfoldable pub discover_workers : Value → System → List WorkerNode
unfolding list_workers elem
discover_workers capability s = select (λ w. has_capability w capability) (list_workers active s)

unfoldable pub send_heartbeat : String → Dict Value → ℕ → System → System × Bool
unfolding Dict.get update_heartbeat Dict.put
send_heartbeat worker_id health now s = elim (Dict.get s.workers worker_id) [
  | none ↦ (s, false)
  | some node ↦ (
    publish_worker "worker_heartbeat" worker_id
        (record s { workers = Dict.put s.workers worker_id (update_heartbeat node health now) }),
    true,
  )
]

-- `pause` and `resume` of `BaseDistributedWorker`, as the manager's node sees them.
unfoldable pub set_worker_status : String → WorkerState → String → System → System
unfolding Dict.get Dict.put
set_worker_status worker_id status event s = elim (Dict.get s.workers worker_id) [
  | none ↦ publish_worker event worker_id s
  | some node ↦
      publish_worker event worker_id
        (record s { workers = Dict.put s.workers worker_id (record node { status = status }) })
]

abbrev pub pause : String → System → System
pause worker_id s = set_worker_status worker_id suspended "worker_suspended" s

abbrev pub resume : String → System → System
resume worker_id s = set_worker_status worker_id active "worker_resumed" s

-- The four writes under the node's lock, and the event.
unfoldable pub assign_to : String → ℕ → String → WorkerNode → System → System
unfolding Dict.put
assign_to job_id ref worker_id node s = publish_worker "job_assigned" worker_id (record s {
  heap = (modify ref (λ job. record job { worker_id = text worker_id; status = queued }) s).heap;
  workers = Dict.put s.workers worker_id (record node {
    assigned_jobs = Dict.put node.assigned_jobs job_id ref;
    queue = node.queue ++ ref ∷ [];
  });
  total_assignments = s.total_assignments + 1;
})

unfoldable pub assign_job : String → String → System → System × Bool
unfolding Dict.get assign_to
assign_job job_id worker_id s = elim (Dict.get s.workers worker_id) [
  | none ↦ (s, false)
  | some node ↦
      if worker_state_eq node.status active
      then (elim (Dict.get s.jobs job_id) [
        | none ↦ (s, false)
        | some ref ↦ (assign_to job_id ref worker_id node s, true)
      ])
      else (s, false)
]

-- kwargs.get("required_capability") or kwargs.get("capability")
abbrev pub requested_capability : Job → Value
requested_capability job =
    let first = kwarg job.kwargs "required_capability" in
    if truthy first then first else kwarg job.kwargs "capability"

-- f"target:{target}"
abbrev pub target_capability : String → String
target_capability target = String.◌∷◌ "t" (
    String.◌∷◌ "a"
      (String.◌∷◌ "r" (String.◌∷◌ "g" (String.◌∷◌ "e" (String.◌∷◌ "t" (String.◌∷◌ ":" target))))))

abbrev pub default_capability : Target → Value
default_capability (named target) = text (target_capability target)
default_capability (callable f) = text "default"

abbrev pub required_capability : Job → Value
required_capability job =
    let requested = requested_capability job in
    if truthy requested then requested else default_capability job.target

-- The candidates of the first of the three searches that finds some.
abbrev pub or_else : List WorkerNode → List WorkerNode → List WorkerNode
or_else [] others = others
or_else (w ∷ ws) others = w ∷ ws

unfoldable pub candidates : Job → System → List WorkerNode
unfolding discover_workers list_workers
candidates job s =
    or_else (discover_workers (required_capability job) s)
      (or_else (discover_workers (text "default") s) (list_workers active s))

abbrev pub load : WorkerNode → ℕ
load w = length w.assigned_jobs

-- min(workers, key=lambda w: len(w.assigned_jobs)), of `w` and the rest: the first of the least.
unfoldable pub least_loaded : WorkerNode → List WorkerNode → WorkerNode
least_loaded w [] = w
least_loaded w (x ∷ xs) = least_loaded (if ltb (load x) (load w) then x else w) xs

-- The worker that is returned is the node as it was before the assignment.
unfoldable pub assign_job_by_capability : ℕ → System → System × Option WorkerNode
unfolding candidates least_loaded assign_job
assign_job_by_capability ref s = elim (candidates (s.heap ref) s) [
  | [] ↦ (s, none)
  | w ∷ ws ↦
      let selected = least_loaded w ws in
      let (s', success) = assign_job (s.heap ref).id selected.id s in
      (s', if success then some selected else none)
]

unfoldable pub get_assigned_jobs : String → System → List ℕ
unfolding Dict.get Dict.values
get_assigned_jobs worker_id s = elim (Dict.get s.workers worker_id) [
  | none ↦ []
  | some node ↦ Dict.values node.assigned_jobs
]
