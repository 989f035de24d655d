-- ===== src/Execution/Workers/Recovery.antt =====
-- The jobs of workers that go away: what the sweep hands back, and what an unregistration drops.
use yasin_core.Prelude.{
  ℕ, ◌+◌, ◌≤◌, String, ◌≡◌, refl, none, some, List, [], ◌∷◌, arith, if◌then◌else◌, eqb, ◌<◌, ◌==◌,
  eq_refl, Bool-cases, inl, inr,
}
use yasin_core.Prelude.Counting.{count}
use yasin_core.Dict
use yasin_core.Dict.{Dict, get-put, get-remove}
use yasin_core.Execution.{queued, nothing}
use yasin_core.Execution.Queue.Occurrences.{occurrences, occurrences-put}
use yasin_core.Execution.System.{WorkerNode, System, modify}
use yasin_core.Execution.Placement.{count_ref, waiting, at_workers-put, at_workers-remove}
use yasin_core.Execution.Workers.{unregister_worker}
use yasin_core.Execution.Workers.Monitor.{requeue, requeue_all, recover_worker_jobs}

pub requeue_all-workers : (refs : List ℕ) (s : System) → (requeue_all refs s).workers ≡ s.workers
unfolding requeue_all requeue
requeue_all-workers [] s = refl
requeue_all-workers (ref ∷ refs) s = requeue_all-workers refs (requeue ref s)

pub requeue_all-timeout :
    (refs : List ℕ) (s : System) → (requeue_all refs s).heartbeat_timeout ≡ s.heartbeat_timeout
unfolding requeue_all requeue
requeue_all-timeout [] s = refl
requeue_all-timeout (ref ∷ refs) s = requeue_all-timeout refs (requeue ref s)

pub requeue_all-occurrences :
    (refs : List ℕ) (r : ℕ) (s : System)
    → occurrences r (requeue_all refs s).queue.items
      ≡ count_ref r refs + occurrences r s.queue.items
unfolding requeue_all requeue count_ref
requeue_all-occurrences [] r s = omega arith
requeue_all-occurrences (ref ∷ refs) r s = omega (
  arith,
  requeue_all-occurrences refs r (requeue ref s),
  occurrences-put r s.queue ref
      ((modify ref (λ job. record job { status = queued; worker_id = nothing }) s).heap ref),
)

requeue_all-free :
    (refs : List ℕ) (r : ℕ) (s : System)
    → ((s.heap r).status ≡ queued) × ((s.heap r).worker_id ≡ nothing)
    → (((requeue_all refs s).heap r).status ≡ queued)
      × (((requeue_all refs s).heap r).worker_id ≡ nothing)
unfolding requeue_all requeue
requeue_all-free [] r s h = h
requeue_all-free (ref ∷ refs) r s h =
    requeue_all-free refs r (requeue ref s) (ground arith, ground arith)

requeue_all-freed :
    (refs : List ℕ) (r : ℕ) (s : System)
    → 0 < count_ref r refs
    → (((requeue_all refs s).heap r).status ≡ queued)
      × (((requeue_all refs s).heap r).worker_id ≡ nothing)
unfolding requeue_all requeue count_ref
requeue_all-freed [] r s h = absurd (omega (arith, h))
requeue_all-freed (ref ∷ refs) r s h = elim (Bool-cases (eqb ref r)) [
  | inl e ↦ requeue_all-free refs r (requeue ref s) (ground (arith, e), ground (arith, e))
  | inr e ↦ requeue_all-freed refs r (requeue ref s) (omega (arith, rw e at h))
]

-- After the recovery of a worker's jobs each job assigned to the node is queued and belongs to no
-- worker, each job has as many more entries in the central queue as it had among the node's
-- assigned jobs, and the node has neither assigned nor queued jobs.
pub recover_worker_jobs-requeued :
    (worker_id : String) (node : WorkerNode) (s : System)
    → let s' = recover_worker_jobs worker_id node s in
      ((r : ℕ)
        → 0 < count_ref r (Dict.values node.assigned_jobs)
        → ((s'.heap r).status ≡ queued) × ((s'.heap r).worker_id ≡ nothing))
      × ((r : ℕ)
          → occurrences r s'.queue.items
            ≡ count_ref r (Dict.values node.assigned_jobs) + occurrences r s.queue.items)
      × (Dict.get s'.workers worker_id ≡ some (record node { assigned_jobs = []; queue = [] }))
unfolding recover_worker_jobs
recover_worker_jobs-requeued worker_id node s =
    let emptied : WorkerNode = record node { assigned_jobs = []; queue = [] } in
    let s1 : System = record s { workers = Dict.put s.workers worker_id emptied } in
    let refs = Dict.values node.assigned_jobs in
    (
      λ r h. requeue_all-freed refs r s1 h,
      λ r. requeue_all-occurrences refs r s1,
      rw (requeue_all-workers refs s1)
          (ground (arith, get-put s.workers worker_id worker_id emptied, eq_refl worker_id)),
    )

pub recover-get :
    (id j : String) (node : WorkerNode) (s : System)
    → Dict.get (recover_worker_jobs id node s).workers j ≡ (
        if id == j
        then some (record node { assigned_jobs = []; queue = [] })
        else Dict.get s.workers j)
unfolding recover_worker_jobs
recover-get id j node s =
    let emptied : WorkerNode = record node { assigned_jobs = []; queue = [] } in
    rw
      (requeue_all-workers (Dict.values node.assigned_jobs)
        (record s { workers = Dict.put s.workers id emptied }))
      (get-put s.workers id j emptied)

pub recover-timeout :
    (id : String) (node : WorkerNode) (s : System)
    → (recover_worker_jobs id node s).heartbeat_timeout ≡ s.heartbeat_timeout
unfolding recover_worker_jobs
recover-timeout id node s =
    requeue_all-timeout (Dict.values node.assigned_jobs) (record s {
      workers = Dict.put s.workers id (record node { assigned_jobs = []; queue = [] });
    })

-- The entries of the node's own queue are gone, those of its assigned jobs are new.
pub recover-waiting :
    (id : String) (node : WorkerNode) (r : ℕ) (s : System)
    → Dict.get s.workers id ≡ some node
    → waiting r (recover_worker_jobs id node s) + count_ref r node.queue
      ≡ count_ref r (Dict.values node.assigned_jobs) + waiting r s
unfolding recover_worker_jobs count_ref
recover-waiting id node r s h =
    let emptied : WorkerNode = record node { assigned_jobs = []; queue = [] } in
    let s1 : System = record s { workers = Dict.put s.workers id emptied } in
    rw (requeue_all-workers (Dict.values node.assigned_jobs) s1) (
      omega (
        arith,
        requeue_all-occurrences (Dict.values node.assigned_jobs) r s1,
        at_workers-put r s.workers id node emptied h,
      ))

-- In a registry without repeated identifiers, the unregistration of a worker hands nothing back:
-- the entries of the node's queue are gone from the queues, the central queue and the job objects
-- are as before, and the worker is not found.
pub unregister_worker-drops :
    (id : String) (node : WorkerNode) (s : System)
    → ((name : String) → count name (Dict.keys s.workers) ≤ 1)
    → Dict.get s.workers id ≡ some node
    → let s' = (unregister_worker id s).0 in
      ((r : ℕ) → waiting r s' + count_ref r node.queue ≡ waiting r s)
      × (s'.queue ≡ s.queue)
      × ((r : ℕ) → s'.heap r ≡ s.heap r)
      × (Dict.get s'.workers id ≡ none)
unfolding unregister_worker
unregister_worker-drops id node s c h =
    rw (h, unregister_worker)
      (
        λ r. omega (arith, at_workers-remove r s.workers id node (c id) h),
        refl,
        λ r. refl,
        ground (arith, get-remove s.workers id id, eq_refl id),
      )
