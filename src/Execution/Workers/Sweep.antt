-- ===== src/Execution/Workers/Sweep.antt =====
-- What one sweep over the workers does to each of them, and that it loses no waiting job.
use mathlib.Core.Option
use yasin_core.Prelude.{
  ℕ, ◌+◌, ◌*◌, ◌≤◌, ◌<◌, String, ◌≡◌, refl, sym, Bool, true, some, List, [], ◌∷◌, arith,
  if◌then◌else◌, leb, ◌==◌, eq_refl, eq_iff, Bool-cases, Option-cases, inl, inr, ◌⊎◌,
}
use yasin_core.Prelude.Counting.{count, elem, elem→count}
use yasin_core.Dict
use yasin_core.Dict.{Dict, get-put, get-has}
use yasin_core.Execution.System.{
  WorkerState, active, suspended, offline, registered, failed, WorkerNode, System, publish_worker,
}
use yasin_core.Execution.Placement.{count_ref, waiting, at_workers-put, at_workers-get}
use yasin_core.Execution.Workers.Monitor.{
  recover_worker_jobs, with_status, check_worker, check_workers, monitor_workers,
}
use yasin_core.Execution.Workers.Recovery.{recover-get, recover-timeout, recover-waiting}

-- That many timeouts have passed since the last heartbeat.
abbrev pub is_silent : ℕ → ℕ → WorkerNode → Bool
is_silent limit now node = leb (node.last_heartbeat + limit) now

-- The transition of one node.
abbrev pub swept : ℕ → ℕ → WorkerNode → WorkerNode
swept timeout now node = elim node.status [
  | active ↦ if is_silent timeout now node then record node { status = suspended } else node
  | suspended ↦
      if is_silent (timeout * 2) now node
      then record node { status = offline; assigned_jobs = []; queue = [] }
      else node
  | _ ↦ node
]

-- The three things that the sweep does with a node.
abbrev Checked : ℕ → String → WorkerNode → System → Type 0
Checked now id node s =
    ((check_worker now id node s ≡ s) × (swept s.heartbeat_timeout now node ≡ node))
    ⊎ ((check_worker now id node s
          ≡ publish_worker "worker_suspended" id
              (with_status id (record node { status = suspended }) s))
        × (swept s.heartbeat_timeout now node ≡ record node { status = suspended }))
    ⊎ ((check_worker now id node s
          ≡ recover_worker_jobs id (record node { status = offline })
              (publish_worker "worker_offline" id
                (with_status id (record node { status = offline }) s)))
        × (swept s.heartbeat_timeout now node
            ≡ record node { status = offline; assigned_jobs = []; queue = [] }))

check_status :
    (now : ℕ) (id : String) (node : WorkerNode) (s : System) (status : WorkerState)
    → node.status ≡ status
    → Checked now id node s
unfolding check_worker
check_status now id node s registered e = inl (rw (e, check_worker) refl, rw e refl)
check_status now id node s offline e = inl (rw (e, check_worker) refl, rw e refl)
check_status now id node s failed e = inl (rw (e, check_worker) refl, rw e refl)
check_status now id node s active e = elim (Bool-cases (is_silent s.heartbeat_timeout now node)) [
  | inl l ↦ inr (inl (rw (e, check_worker) (rw l refl), rw (e, l) refl))
  | inr l ↦ inl (rw (e, check_worker) (rw l refl), rw (e, l) refl)
]
check_status now id node s suspended e =
    elim (Bool-cases (is_silent (s.heartbeat_timeout * 2) now node)) [
      | inl l ↦ inr (inr (rw (e, check_worker) (rw l refl), rw (e, l) refl))
      | inr l ↦ inl (rw (e, check_worker) (rw l refl), rw (e, l) refl)
    ]

check_worker_cases :
    (now : ℕ) (id : String) (node : WorkerNode) (s : System) → Checked now id node s
check_worker_cases now id node s = check_status now id node s node.status refl

check_worker-get :
    (now : ℕ) (id j : String) (node : WorkerNode) (s : System)
    → Dict.get s.workers id ≡ some node
    → (Dict.get (check_worker now id node s).workers j
        ≡ (if id == j then some (swept s.heartbeat_timeout now node) else Dict.get s.workers j))
      × ((check_worker now id node s).heartbeat_timeout ≡ s.heartbeat_timeout)
check_worker-get now id j node s h = elim (check_worker_cases now id node s) [
  | inl (e, f) ↦ rw (e, f) (ground (arith, h, eq_iff id j), refl)
  | inr (inl (e, f)) ↦ rw (e, f) (get-put s.workers id j (record node { status = suspended }), refl)
  | inr (inr (e, f)) ↦
      let off : WorkerNode = record node { status = offline } in
      let s1 : System = publish_worker "worker_offline" id (with_status id off s) in
      rw (e, f)
        (
          ground (arith, recover-get id j off s1, get-put s.workers id j off),
          recover-timeout id off s1,
        )
]

-- Each name of the loop is visited once.
check_workers-get :
    (now : ℕ) (names : List String) (j : String) (s : System)
    → ((name : String) → count name names ≤ 1)
    → Dict.get (check_workers now names s).workers j ≡ (
        if elem j names
        then Option.map (swept s.heartbeat_timeout now) (Dict.get s.workers j)
        else Dict.get s.workers j)
unfolding check_workers elem count
check_workers-get now [] j s h = refl
check_workers-get now (id ∷ rest) j s h =
    let once : (name : String) → count name rest ≤ 1 = λ name. omega (arith, h name) in
    elim (Option-cases (Dict.get s.workers id)) [
      | inl e ↦
          rw (e, check_workers)
            (ground (arith, check_workers-get now rest j s once, e, eq_iff id j))
      | inr (node, e) ↦
          let (g, t) = check_worker-get now id j node s e in
          rw (e, check_workers)
            (ground (
              arith,
              check_workers-get now rest j (check_worker now id node s) once,
              g,
              t,
              e,
              eq_iff id j,
              h j,
              elem→count j rest,
            ))
    ]

-- One sweep over a registry without repeated identifiers makes the transition of each node exactly
-- once, and no other: an active node that was silent for the timeout is suspended, a suspended one
-- that was silent for twice the timeout is offline and keeps no job, and every other is as before.
pub monitor_workers-get :
    (now : ℕ) (id : String) (s : System)
    → ((name : String) → count name (Dict.keys s.workers) ≤ 1)
    → Dict.get (monitor_workers now s).workers id
      ≡ Option.map (swept s.heartbeat_timeout now) (Dict.get s.workers id)
unfolding monitor_workers
monitor_workers-get now id s h = elim (Option-cases (Dict.get s.workers id)) [
  | inl e ↦ ground (arith, check_workers-get now (Dict.keys s.workers) id s h, e)
  | inr (node, e) ↦
      let here : elem id (Dict.keys s.workers) ≡ true =
        unfold Dict.has in get-has s.workers id node e in
      ground (arith, check_workers-get now (Dict.keys s.workers) id s h, here)
]

-- Every job in a worker's own queue is one of the jobs assigned to it.
abbrev pub IsTracked : System → Type 0
IsTracked s =
    (id : String) (node : WorkerNode) (r : ℕ)
    → Dict.get s.workers id ≡ some node
    → 0 < count_ref r node.queue
    → 0 < count_ref r (Dict.values node.assigned_jobs)

swept-tracked :
    (timeout now : ℕ) (node : WorkerNode) (r : ℕ)
    → (0 < count_ref r node.queue → 0 < count_ref r (Dict.values node.assigned_jobs))
    → 0 < count_ref r (swept timeout now node).queue
    → 0 < count_ref r (Dict.values (swept timeout now node).assigned_jobs)
unfolding count_ref
swept-tracked timeout now node r h l = ground arith

check_worker-waiting :
    (now : ℕ) (id : String) (node : WorkerNode) (s : System) (r : ℕ)
    → IsTracked s
    → Dict.get s.workers id ≡ some node
    → 0 < waiting r s
    → 0 < waiting r (check_worker now id node s)
check_worker-waiting now id node s r t h l = elim (check_worker_cases now id node s) [
  | inl (e, f) ↦ rw e l
  | inr (inl (e, f)) ↦
      rw e (
        omega (arith, l, at_workers-put r s.workers id node (record node { status = suspended }) h))
  | inr (inr (e, f)) ↦
      let off : WorkerNode = record node { status = offline } in
      let s1 : System = publish_worker "worker_offline" id (with_status id off s) in
      let here : Dict.get s1.workers id ≡ some off =
        ground (arith, get-put s.workers id id off, eq_refl id) in
      rw e (
        grind (
          arith,
          recover-waiting id off r s1 here,
          at_workers-put r s.workers id node off h,
          at_workers-get r s.workers id node h,
          t id node r h,
        ))
]

check_worker-IsTracked :
    (now : ℕ) (id : String) (node : WorkerNode) (s : System)
    → IsTracked s
    → Dict.get s.workers id ≡ some node
    → IsTracked (check_worker now id node s)
check_worker-IsTracked now id node s t h j other r g l =
    let (e, _) = check_worker-get now id j node s h in
    elim (Bool-cases (id == j)) [
      | inl here ↦
          let same : swept s.heartbeat_timeout now node ≡ other = ground (arith, e, g, here) in
          rw (sym same)
            (swept-tracked s.heartbeat_timeout now node r (t id node r h) (rw (sym same) at l))
      | inr there ↦ t j other r (ground (arith, e, g, there)) l
    ]

check_workers-keeps :
    (now : ℕ) (names : List String) (s : System)
    → IsTracked s
    → IsTracked (check_workers now names s)
      × ((r : ℕ) → 0 < waiting r s → 0 < waiting r (check_workers now names s))
unfolding check_workers
check_workers-keeps now [] s t = (t, λ r l. l)
check_workers-keeps now (id ∷ rest) s t = elim (Option-cases (Dict.get s.workers id)) [
  | inl e ↦ rw (e, check_workers) (check_workers-keeps now rest s t)
  | inr (node, e) ↦
      let s' = check_worker now id node s in
      let (a, b) = check_workers-keeps now rest s' (check_worker-IsTracked now id node s t e) in
      rw (e, check_workers) (a, λ r l. b r (check_worker-waiting now id node s r t e l))
]

-- If every job in a worker's queue is assigned to that worker, then this still holds after a sweep,
-- and no waiting job is lost: a job that stood in the central queue or in some worker's queue before
-- the sweep stands in one of them after it.
pub monitor_workers-keeps_waiting :
    (now : ℕ) (s : System)
    → IsTracked s
    → IsTracked (monitor_workers now s)
      × ((r : ℕ) → 0 < waiting r s → 0 < waiting r (monitor_workers now s))
unfolding monitor_workers
monitor_workers-keeps_waiting now s t = check_workers-keeps now (Dict.keys s.workers) s t
