-- ===== src/Execution/Workers/Monitor.antt =====
-- `monitor_workers` and `_recover_worker_jobs` of yasin_core/execution/distributed.py.
use yasin_core.Prelude.{ℕ, ◌+◌, ◌*◌, String, none, some, List, [], ◌∷◌, if◌then◌else◌, leb}
use yasin_core.Dict
use yasin_core.Execution.{queued, nothing}
use yasin_core.Execution.Queue.{put}
use yasin_core.Execution.System.{
  active, offline, suspended, WorkerNode, System, publish_job, publish_worker, modify,
}

-- One unfinished job goes back to the central queue.
unfoldable pub requeue : ℕ → System → System
unfolding put
requeue ref s =
    let s1 = modify ref (λ job. record job { status = queued; worker_id = nothing }) s in
    publish_job "job_queued" ref (record s1 { queue = put s1.queue ref (s1.heap ref) })

unfoldable pub requeue_all : List ℕ → System → System
unfolding requeue
requeue_all [] s = s
requeue_all (ref ∷ refs) s = requeue_all refs (requeue ref s)

unfoldable pub recover_worker_jobs : String → WorkerNode → System → System
unfolding Dict.put Dict.values requeue_all
recover_worker_jobs worker_id node s = requeue_all (Dict.values node.assigned_jobs) (record s {
  workers = Dict.put s.workers worker_id (record node { assigned_jobs = []; queue = [] });
})

abbrev pub with_status : String → WorkerNode → System → System
with_status worker_id node s = record s { workers = Dict.put s.workers worker_id node }

-- The body of the loop, for one node.
unfoldable pub check_worker : ℕ → String → WorkerNode → System → System
unfolding Dict.put recover_worker_jobs
check_worker now worker_id node s = elim node.status [
  | active ↦
      if leb (node.last_heartbeat + s.heartbeat_timeout) now
      then publish_worker "worker_suspended" worker_id
          (with_status worker_id (record node { status = suspended }) s)
      else s
  | suspended ↦
      if leb (node.last_heartbeat + s.heartbeat_timeout * 2) now
      then recover_worker_jobs worker_id (record node { status = offline })
          (publish_worker "worker_offline" worker_id
            (with_status worker_id (record node { status = offline }) s))
      else s
  | _ ↦ s
]

-- The loop runs over the workers that were there at its start; none is added or removed meanwhile.
unfoldable pub check_workers : ℕ → List String → System → System
unfolding Dict.get check_worker
check_workers now [] s = s
check_workers now (worker_id ∷ rest) s =
    check_workers now rest (elim (Dict.get s.workers worker_id) [
      | none ↦ s
      | some node ↦ check_worker now worker_id node s
    ])

unfoldable pub monitor_workers : ℕ → System → System
unfolding Dict.keys check_workers
monitor_workers now s = check_workers now (Dict.keys s.workers) s
