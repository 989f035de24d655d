-- ===== src/Execution/Engine/Submission.antt =====
-- A submitted job is registered, is queued, and waits in exactly one place more than before.
use yasin_core.Prelude.{
  ℕ, ◌+◌, String, ◌≡◌, Bool, true, false, Option, none, some, [], ◌∷◌, ◌++◌, arith, ◌==◌, eq_refl,
  if◌then◌else◌, eqb, inl, inr, Bool-cases, List-cases,
}
use yasin_core.Dict
use yasin_core.Dict.{Dict, get-put}
use yasin_core.Execution.{queued, Job, Value, text, truthy, Target, named, callable}
use yasin_core.Execution.Queue.Occurrences.{occurrences-put}
use yasin_core.Execution.System.{WorkerNode, System}
use yasin_core.Execution.Placement.{count_ref, count_ref-append, waiting, at_workers-put}
use yasin_core.Execution.Workers.{
  assign_to, assign_job, least_loaded, assign_job_by_capability, requested_capability,
  target_capability, discover_workers,
}
use yasin_core.Execution.Workers.Discovery.{assign_job_cases, assign_by_cases}
use yasin_core.Execution.Engine.{
  with_context, admit, enqueue, route, route_among, route_explicit, route_capability, assign_named,
  assign_target, route_target, or_route, was_assigned, submit_job,
}

-- A state in which the job at `ref` is registered under its identifier and is queued.
pub record IsAdmitted (ref : ℕ) (s : System) : Type 0 where
  pub known : Dict.get s.jobs (s.heap ref).id ≡ some ref
  pub queued_status : (s.heap ref).status ≡ queued

-- What a route does: nothing at all, or one more place for the job, and none for any other.
abbrev pub Routed : ℕ → System → System × Bool → Type 0
Routed ref s (s', assigned) =
    IsAdmitted ref s'
    × ((r : ℕ)
        → waiting r s' ≡ (if assigned then (if eqb ref r then 1 else 0) else 0) + waiting r s)

with_context-id : (current : Option String) (job : Job) → (with_context current job).id ≡ job.id
with_context-id current job = ground arith

admit-IsAdmitted :
    (ref : ℕ) (current : Option String) (s : System) → IsAdmitted ref (admit ref current s)
admit-IsAdmitted ref current s =
    let i = with_context-id current (s.heap ref) in
    record {
      known =
          ground
            (arith, i, get-put s.jobs (s.heap ref).id (s.heap ref).id ref, eq_refl (s.heap ref).id);
      queued_status = ground arith;
    }

count_ref_one : (r ref : ℕ) → count_ref r (ref ∷ []) ≡ (if eqb ref r then 1 else 0)
unfolding count_ref
count_ref_one r ref = omega arith

assign_to-Routed :
    (ref : ℕ) (worker_id : String) (node : WorkerNode) (s : System)
    → Dict.get s.workers worker_id ≡ some node
    → IsAdmitted ref s
    → Routed ref s (assign_to (s.heap ref).id ref worker_id node s, true)
unfolding assign_to
assign_to-Routed ref worker_id node s h a = (
  record { known = ground (arith, a.known); queued_status = ground arith },
  λ r.
      let node' : WorkerNode = record node {
        assigned_jobs = Dict.put node.assigned_jobs (s.heap ref).id ref;
        queue = node.queue ++ ref ∷ [];
      } in
      omega (
        arith,
        at_workers-put r s.workers worker_id node node' h,
        count_ref-append r node.queue (ref ∷ []),
        count_ref_one r ref,
      ),
)

assign_job-Routed :
    (ref : ℕ) (worker_id : String) (s : System)
    → IsAdmitted ref s
    → Routed ref s (assign_job (s.heap ref).id worker_id s)
assign_job-Routed ref worker_id s a = elim (assign_job_cases (s.heap ref).id worker_id s) [
  | inl e ↦ rw e (a, λ r. omega arith)
  | inr (node, ref', here, _, known, e) ↦
      let same : ref' ≡ ref = ground (arith, known, a.known) in
      rw (e, same) (assign_to-Routed ref worker_id node s here a)
]

picked-Routed :
    (ref : ℕ) (s : System) (w : WorkerNode) (r : System × Bool)
    → Routed ref s r
    → let (s', b) = r in Routed ref s (was_assigned (s', if b then some w else none))
picked-Routed ref s w (s', true) h = h
picked-Routed ref s w (s', false) h = h

assign_by-Routed :
    (ref : ℕ) (s : System)
    → IsAdmitted ref s
    → Routed ref s (was_assigned (assign_job_by_capability ref s))
assign_by-Routed ref s a = elim (assign_by_cases ref s) [
  | inl e ↦ rw e (a, λ r. omega arith)
  | inr (w, ws, _, e) ↦ rw e (
      picked-Routed ref s (least_loaded w ws) (assign_job (s.heap ref).id (least_loaded w ws).id s)
        (assign_job-Routed ref (least_loaded w ws).id s a))
]

unassigned-Routed : (ref : ℕ) (s : System) → IsAdmitted ref s → Routed ref s (s, false)
unassigned-Routed ref s a = (a, λ r. omega arith)

assign_named-Routed :
    (v : Value) (ref : ℕ) (s : System)
    → IsAdmitted ref s
    → Routed ref s (assign_named v (s.heap ref).id s)
unfolding assign_named
assign_named-Routed (text worker_id) ref s a = elim (Bool-cases (worker_id == "")) [
  | inl e ↦ rw e (unassigned-Routed ref s a)
  | inr e ↦ rw e (assign_job-Routed ref worker_id s a)
]
assign_named-Routed _ ref s a = unassigned-Routed ref s a

route_capability-Routed :
    (ref : ℕ) (s : System) → IsAdmitted ref s → Routed ref s (route_capability ref s)
unfolding route_capability
route_capability-Routed ref s a = elim (Bool-cases (truthy (requested_capability (s.heap ref)))) [
  | inl e ↦ rw e (assign_by-Routed ref s a)
  | inr e ↦ rw e (unassigned-Routed ref s a)
]

assign_target-Routed :
    (target : Target) (ref : ℕ) (s : System)
    → IsAdmitted ref s
    → Routed ref s (assign_target target ref s)
unfolding assign_target
assign_target-Routed (callable f) ref s a = unassigned-Routed ref s a
assign_target-Routed (named target) ref s a =
    elim (List-cases (discover_workers (text (target_capability target)) s)) [
      | inl e ↦ rw (e, assign_target) (unassigned-Routed ref s a)
      | inr (w, ws, e) ↦ rw (e, assign_target) (assign_by-Routed ref s a)
    ]

or_route-Routed :
    (ref : ℕ) (s : System) (r : System × Bool) (next : System → System × Bool)
    → Routed ref s r
    → ((s' : System) → IsAdmitted ref s' → Routed ref s' (next s'))
    → Routed ref s (or_route r next)
or_route-Routed ref s (s', true) next h n = h
or_route-Routed ref s (s', false) next h n =
    let (s'', b) = next s' in let (a, w) = n s' h.0 in (a, λ r. omega (arith, w r, h.1 r))

route_among-Routed :
    (ws : Dict WorkerNode) (ref : ℕ) (s : System)
    → IsAdmitted ref s
    → Routed ref s (route_among ws ref s)
unfolding route_among
route_among-Routed [] ref s a = unassigned-Routed ref s a
route_among-Routed (_ ∷ _) ref s a =
    or_route-Routed ref s (or_route (route_explicit ref s) (route_capability ref))
      (route_target ref)
      (or_route-Routed ref s (route_explicit ref s) (route_capability ref)
        (unfold route_explicit in assign_named-Routed (s.heap ref).worker_id ref s a)
        (route_capability-Routed ref))
      (λ s' a'. unfold route_target in assign_target-Routed (s'.heap ref).target ref s' a')

enqueue-Routed : (ref : ℕ) (s : System) → IsAdmitted ref s → Routed ref s (enqueue ref s, true)
unfolding enqueue
enqueue-Routed ref s a = (
  record { known = a.known; queued_status = a.queued_status },
  λ r. omega (arith, occurrences-put r s.queue ref (s.heap ref)),
)

place_or_enqueue :
    (ref : ℕ) (s : System) (r : System × Bool)
    → Routed ref s r
    → let (s', assigned) = r in Routed ref s ((if assigned then s' else enqueue ref s'), true)
place_or_enqueue ref s (s', true) h = h
place_or_enqueue ref s (s', false) h =
    let (a, w) = enqueue-Routed ref s' h.0 in (a, λ r. omega (arith, w r, h.1 r))

-- Whatever the workers are, a submitted job is registered under its identifier and queued, and its
-- number of entries in all queues, the central one and the workers', is one more than before. No
-- other job's number of entries changes.
pub submit_job-placed :
    (ref : ℕ) (current : Option String) (s : System)
    → IsAdmitted ref (submit_job ref current s)
      × ((r : ℕ)
          → waiting r (submit_job ref current s) ≡ (if eqb ref r then 1 else 0) + waiting r s)
unfolding submit_job
submit_job-placed ref current s =
    place_or_enqueue ref (admit ref current s) (route ref (admit ref current s)) (
      route_among-Routed (admit ref current s).workers ref (admit ref current s)
        (admit-IsAdmitted ref current s))
