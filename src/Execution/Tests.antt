-- ===== src/Execution/Tests.antt =====
-- The engine and the workers at three jobs, `a` (with two retries), `b` (urgent) and `c` (for the worker
-- `w`).
use mathlib.Core.Option
use yasin_core.Prelude.{
  ℕ, zero, suc, ◌+◌, ◌≤◌, ◌<◌, String, ◌≡◌, refl, sym, Bool-cases, inl, inr, true, none, some, List,
  [], ◌∷◌, arith, ◌==◌, eq_iff, if◌then◌else◌, eqb,
}
use yasin_core.Prelude.Counting.{count, elem}
use yasin_core.Dict
use yasin_core.Dict.{Dict}
use yasin_core.Execution.{
  Job, cancel, make_job, nothing, text, callable, queued, completed, cancelled, normal, critical,
  Heap,
}
use yasin_core.Execution.Queue.{put, empty_queue}
use yasin_core.Execution.Queue.Occurrences.{occurrences}
use yasin_core.Execution.Queue.Serving.{QueueCall, puts, takes, replies, expected, replies-expected}
use yasin_core.Execution.System.{
  System, WorkerNode, active, has_capability, make_node, update_heartbeat,
}
use yasin_core.Execution.Placement.{waiting, count_ref}
use yasin_core.Execution.Workers.{
  register_worker, send_heartbeat, assign_job, assign_to, assign_job_by_capability, candidates,
  discover_workers, list_workers, required_capability, load,
}
use yasin_core.Execution.Workers.Reports.{returns, raises}
use yasin_core.Execution.Workers.Monitor.{recover_worker_jobs, monitor_workers}
use yasin_core.Execution.Workers.Discovery.{Every, assign_job_by_capability-least}
use yasin_core.Execution.Workers.Recovery.{recover_worker_jobs-requeued}
use yasin_core.Execution.Workers.Sweep.{
  swept, IsTracked, monitor_workers-get, monitor_workers-keeps_waiting,
}
use yasin_core.Execution.Engine.{
  admit, submit_job, cancel_job, begin_job, finish_job, process_job, work, enqueue, route_among,
  route_explicit, assign_named,
}
use yasin_core.Execution.Engine.Submission.{IsAdmitted, submit_job-placed}
use yasin_core.Execution.Engine.Cancellation.{process_job-cancelled, cancel_job-overridden}
use yasin_core.Execution.Engine.Draining.{tries_of, work-drains}

abbrev job_a : Job
job_a = make_job "a" "first" (callable 0) [] [] normal 2 none none 1

abbrev job_b : Job
job_b = make_job "b" "second" (callable 1) [] [] critical 0 none none 2

abbrev job_c : Job
job_c = make_job "c" "third" (callable 2) [] (("worker_id", text "w") ∷ []) normal 0 none none 3

abbrev heap : Heap
heap zero = job_a
heap (suc zero) = job_b
heap (suc (suc r)) = job_c

abbrev idle : System
idle = record {
  heap = heap;
  queue = empty_queue;
  jobs = [];
  workers = [];
  heartbeat_timeout = 30;
  total_assignments = 0;
  published = [];
  saved = [];
}

abbrev both_queued : System
both_queued = submit_job 1 none (submit_job 0 none idle)

abbrev with_worker : System
with_worker = (send_heartbeat "w" [] 5 (register_worker "w" "one" ("default" ∷ []) [] 0 idle)).0

abbrev assigned : System
assigned = submit_job 2 none with_worker

-- The urgent job is put second, and taken first.
abbrev urgent_second : List QueueCall
urgent_second = puts 0 job_a ∷ puts 1 job_b ∷ takes ∷ takes ∷ takes ∷ []

replies-expected_example : replies urgent_second empty_queue ≡ expected urgent_second []
replies-expected_example = replies-expected urgent_second

submit_job-placed_example :
    IsAdmitted 2 assigned
    × ((r : ℕ) → waiting r assigned ≡ (if eqb 2 r then 1 else 0) + waiting r with_worker)
submit_job-placed_example = submit_job-placed 2 none with_worker

known_a : Dict.get both_queued.jobs "a" ≡ some 0
unfolding submit_job Dict.get Dict.put enqueue make_job
known_a = refl

cancel_a : (cancel_job "a" 7 both_queued).1 ≡ true
unfolding cancel_job cancel submit_job Dict.get Dict.put enqueue make_job
cancel_a = refl

process_job-cancelled_example :
    let s' = process_job 0 (returns (text "done")) 9 (cancel_job "a" 7 both_queued).0 in
    ((s'.heap 0).status ≡ cancelled)
    × ((s'.heap 0).result ≡ (both_queued.heap 0).result)
    × ((s'.heap 0).error ≡ (both_queued.heap 0).error)
    × ((s'.heap 0).retry_count ≡ (both_queued.heap 0).retry_count)
    × (s'.queue ≡ both_queued.queue)
    × (s'.saved ≡ both_queued.saved)
process_job-cancelled_example =
    process_job-cancelled "a" 7 9 0 (returns (text "done")) both_queued known_a cancel_a

begin_a : (begin_job 0 8 both_queued).1 ≡ true
unfolding begin_job submit_job Dict.get Dict.put enqueue make_job
begin_a = refl

cancel_job-overridden_example :
    let (s1, success) = cancel_job "a" 9 (begin_job 0 8 both_queued).0 in
    let s2 = finish_job 0 (returns (text "done")) 10 s1 in
    (success ≡ true)
    × ((s1.heap 0).status ≡ cancelled)
    × ((s2.heap 0).status ≡ completed)
    × ((s2.heap 0).result ≡ text "done")
cancel_job-overridden_example =
    cancel_job-overridden "a" 8 9 10 0 (text "done") both_queued known_a begin_a

abbrev one_queued : System
one_queued = submit_job 0 none idle

four_tries : tries_of both_queued.heap both_queued.queue.items ≤ 4
unfolding submit_job Dict.get Dict.put enqueue make_job tries_of put empty_queue
four_tries = omega arith

work-drains_example : (work 4 (λ n. (raises "boom", n)) both_queued).queue.items ≡ []
work-drains_example = work-drains 4 (λ n. (raises "boom", n)) both_queued four_tries

keys_once : (k : String) → count k (Dict.keys both_queued.jobs) ≤ 1
unfolding submit_job Dict.get Dict.put enqueue make_job Dict.keys count
keys_once k = ground (arith, eq_iff "a" k, eq_iff "b" k, eq_iff "a" "b")

abbrev node_w : WorkerNode
node_w = update_heartbeat (make_node "w" "one" ("default" ∷ []) [] 0) [] 5

abbrev busy_w : WorkerNode
busy_w = record node_w { assigned_jobs = ("c", 2) ∷ []; queue = 2 ∷ [] }

assigned_workers : assigned.workers ≡ ("w", busy_w) ∷ []
unfolding submit_job Dict.get Dict.put enqueue make_job route_among route_explicit assign_named
    assign_job assign_to register_worker send_heartbeat make_node update_heartbeat
assigned_workers = refl

find_w : Dict.get assigned.workers "w" ≡ some busy_w
unfolding Dict.get
find_w = rw assigned_workers refl

worker_once : (k : String) → count k (Dict.keys assigned.workers) ≤ 1
unfolding Dict.keys count
worker_once k = rw assigned_workers (ground arith)

assigned-IsTracked : IsTracked assigned
unfolding Dict.get Dict.values count_ref
assigned-IsTracked id node r h l = elim (Bool-cases ("w" == id)) [
  | inl e ↦
      let same : busy_w ≡ node = ground (arith, h, assigned_workers, e) in
      rw (sym same) (rw (sym same) at l)
  | inr e ↦ absurd (ground (arith, h, assigned_workers, e))
]

monitor_workers-get_example :
    Dict.get (monitor_workers 40 assigned).workers "w"
    ≡ Option.map (swept assigned.heartbeat_timeout 40) (Dict.get assigned.workers "w")
monitor_workers-get_example = monitor_workers-get 40 "w" assigned worker_once

monitor_workers-keeps_waiting_example :
    IsTracked (monitor_workers 40 assigned)
    × ((r : ℕ) → 0 < waiting r assigned → 0 < waiting r (monitor_workers 40 assigned))
monitor_workers-keeps_waiting_example = monitor_workers-keeps_waiting 40 assigned assigned-IsTracked

recover_worker_jobs-requeued_example :
    let s' = recover_worker_jobs "w" busy_w assigned in
    ((r : ℕ)
      → 0 < count_ref r (Dict.values busy_w.assigned_jobs)
      → ((s'.heap r).status ≡ queued) × ((s'.heap r).worker_id ≡ nothing))
    × ((r : ℕ)
        → occurrences r s'.queue.items
          ≡ count_ref r (Dict.values busy_w.assigned_jobs) + occurrences r assigned.queue.items)
    × (Dict.get s'.workers "w" ≡ some (record busy_w { assigned_jobs = []; queue = [] }))
recover_worker_jobs-requeued_example = recover_worker_jobs-requeued "w" busy_w assigned

-- The engine with job `a` in its registry, and the active worker.
abbrev before_pick : System
before_pick = admit 0 none with_worker

picked_w : (assign_job_by_capability 0 before_pick).1 ≡ some node_w
unfolding Dict.get Dict.put make_job assign_job assign_to register_worker send_heartbeat make_node
    update_heartbeat assign_job_by_capability candidates discover_workers list_workers Dict.values
    elem Dict.get_or
picked_w = refl

assign_job_by_capability-least_example :
    (node_w.status ≡ active)
    × Every (λ x. load node_w ≤ load x) (candidates (before_pick.heap 0) before_pick)
    × ((x : WorkerNode) (xs : List WorkerNode)
        → discover_workers (required_capability (before_pick.heap 0)) before_pick ≡ x ∷ xs
        → has_capability node_w (required_capability (before_pick.heap 0)) ≡ true)
assign_job_by_capability-least_example =
    assign_job_by_capability-least 0 before_pick node_w picked_w
