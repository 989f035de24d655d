-- ===== src/Execution/Workers/Discovery.antt =====
-- Which worker a job goes to.
use yasin_core.Prelude.{
  ℕ, ◌≤◌, String, ◌≡◌, sym, subst, Bool, true, false, none, some, List, [], ◌∷◌, arith,
  if◌then◌else◌, ltb, select, ◌⊎◌, inl, inr, Bool-cases, Option-cases, List-cases,
}
use yasin_core.Dict
use yasin_core.Dict.{Dict}
use yasin_core.Execution.{Job, Value, text}
use yasin_core.Execution.System.{active, worker_state_eq, WorkerNode, System, has_capability}
use yasin_core.Execution.Workers.{
  assign_to, assign_job, candidates, least_loaded, assign_job_by_capability, load, discover_workers,
  list_workers, required_capability, or_else,
}

-- The four outcomes of `assign_job`, as two.
pub assign_job_cases :
    (job_id worker_id : String) (s : System)
    → (assign_job job_id worker_id s ≡ (s, false))
      ⊎ ((node : WorkerNode) × (ref : ℕ) × (Dict.get s.workers worker_id ≡ some node)
          × (node.status ≡ active)
          × (Dict.get s.jobs job_id ≡ some ref)
          × (assign_job job_id worker_id s ≡ (assign_to job_id ref worker_id node s, true)))
unfolding assign_job
assign_job_cases job_id worker_id s = elim (Option-cases (Dict.get s.workers worker_id)) [
  | inl e ↦ inl (rw (e, assign_job))
  | inr (node, e) ↦ elim (Bool-cases (worker_state_eq node.status active)) [
    | inl on ↦ elim (Option-cases (Dict.get s.jobs job_id)) [
      | inl f ↦ inl (rw (e, assign_job) (rw (on, f, assign_job)))
      | inr (ref, f) ↦
          inr (node, ref, e, ground (arith, on), f, rw (e, assign_job) (rw (on, f, assign_job)))
    ]
    | inr off ↦ inl (rw (e, assign_job) (rw off))
  ]
]

-- No candidate, or the one that is picked gets the job if `assign_job` accepts it.
pub assign_by_cases :
    (ref : ℕ) (s : System)
    → (assign_job_by_capability ref s ≡ (s, none))
      ⊎ ((w : WorkerNode) × (ws : List WorkerNode) × (candidates (s.heap ref) s ≡ w ∷ ws)
          × (assign_job_by_capability ref s ≡ (
              let (s', success) = assign_job (s.heap ref).id (least_loaded w ws).id s in
              (s', if success then some (least_loaded w ws) else none))))
unfolding assign_job_by_capability
assign_by_cases ref s = elim (List-cases (candidates (s.heap ref) s)) [
  | inl e ↦ inl (rw (e, assign_job_by_capability))
  | inr (w, ws, e) ↦ inr (w, ws, e, rw (e, assign_job_by_capability))
]

abbrev pub Every : (WorkerNode → Type 0) → List WorkerNode → Type 0
Every P [] = Unit
Every P (w ∷ ws) = P w × Every P ws

Every-select :
    (P : WorkerNode → Type 0) (test : WorkerNode → Bool) (ws : List WorkerNode)
    → ((w : WorkerNode) → test w ≡ true → P w)
    → Every P (select test ws)
Every-select P test [] h = tt
Every-select P test (w ∷ ws) h = elim (Bool-cases (test w)) [
  | inl e ↦ rw e (h w e, Every-select P test ws h)
  | inr e ↦ rw e (Every-select P test ws h)
]

Every-select_of :
    (P : WorkerNode → Type 0) (test : WorkerNode → Bool) (ws : List WorkerNode)
    → Every P ws
    → Every P (select test ws)
Every-select_of P test [] h = tt
Every-select_of P test (w ∷ ws) h = elim (Bool-cases (test w)) [
  | inl e ↦ rw e (h.0, Every-select_of P test ws h.1)
  | inr e ↦ rw e (Every-select_of P test ws h.1)
]

-- What holds of every one holds of the one that is picked.
least_loaded-Every :
    (P : WorkerNode → Type 0) (w : WorkerNode) (ws : List WorkerNode)
    → Every P (w ∷ ws)
    → P (least_loaded w ws)
unfolding least_loaded
least_loaded-Every P w [] h = h.0
least_loaded-Every P w (x ∷ xs) h = elim (Bool-cases (ltb (load x) (load w))) [
  | inl e ↦ rw e (least_loaded-Every P x xs h.1)
  | inr e ↦ rw e (least_loaded-Every P w xs (h.0, h.1.1))
]

Every-lighter :
    (m n : ℕ) (ws : List WorkerNode)
    → m ≤ n
    → Every (λ x. n ≤ load x) ws
    → Every (λ x. m ≤ load x) ws
Every-lighter m n [] l h = tt
Every-lighter m n (w ∷ ws) l h = (omega (arith, l, h.0), Every-lighter m n ws l h.1)

least_loaded-least :
    (w : WorkerNode) (ws : List WorkerNode)
    → Every (λ x. load (least_loaded w ws) ≤ load x) (w ∷ ws)
unfolding least_loaded
least_loaded-least w [] = (omega arith, tt)
least_loaded-least w (x ∷ xs) =
    let (a, b) = least_loaded-least (if ltb (load x) (load w) then x else w) xs in
    (ground (arith, a), (ground (arith, a), b))

active-Every : (s : System) → Every (λ w. w.status ≡ active) (list_workers active s)
unfolding list_workers
active-Every s = Every-select _ _ (Dict.values s.workers) (λ w e. ground (arith, e))

or_else-Every :
    (P : WorkerNode → Type 0) (ws vs : List WorkerNode)
    → Every P ws
    → Every P vs
    → Every P (or_else ws vs)
or_else-Every P [] vs h g = g
or_else-Every P (w ∷ ws) vs h g = h

discovered-active : (c : Value) (s : System) → Every (λ w. w.status ≡ active) (discover_workers c s)
unfolding discover_workers
discovered-active c s = Every-select_of _ _ (list_workers active s) (active-Every s)

candidates-active : (job : Job) (s : System) → Every (λ w. w.status ≡ active) (candidates job s)
unfolding candidates
candidates-active job s =
    or_else-Every _ (discover_workers (required_capability job) s) _
      (discovered-active (required_capability job) s)
      (or_else-Every _ (discover_workers (text "default") s) _
        (discovered-active (text "default") s) (active-Every s))

capable :
    (job : Job) (s : System) (x : WorkerNode) (xs : List WorkerNode)
    → discover_workers (required_capability job) s ≡ x ∷ xs
    → Every (λ w. has_capability w (required_capability job) ≡ true) (candidates job s)
unfolding candidates
capable job s x xs h =
    let found : Every (λ w. has_capability w (required_capability job) ≡ true)
        (discover_workers (required_capability job) s) =
      unfold discover_workers in Every-select _ _ (list_workers active s) (λ w e. e) in
    rw (h, candidates) (rw h at found)

-- The worker that `assign_job_by_capability` returns is active and has the fewest assigned jobs of
-- all candidates, and it has the capability that the job requires if any active worker has.
pub assign_job_by_capability-least :
    (ref : ℕ) (s : System) (w : WorkerNode)
    → (assign_job_by_capability ref s).1 ≡ some w
    → (w.status ≡ active)
      × Every (λ x. load w ≤ load x) (candidates (s.heap ref) s)
      × ((x : WorkerNode) (xs : List WorkerNode)
          → discover_workers (required_capability (s.heap ref)) s ≡ x ∷ xs
          → has_capability w (required_capability (s.heap ref)) ≡ true)
assign_job_by_capability-least ref s w h = elim (assign_by_cases ref s) [
  | inl e ↦ absurd (ground (arith, h, e))
  | inr (v, vs, c, e) ↦
      let job = s.heap ref in
      let same : least_loaded v vs ≡ w = ground (arith, h, e) in
      let act : Every (λ y. y.status ≡ active) (v ∷ vs) =
        subst (Every (λ y. y.status ≡ active)) c (candidates-active job s) in
      rw (sym same) (
        least_loaded-Every _ v vs act,
        subst (Every (λ x. load (least_loaded v vs) ≤ load x)) (sym c) (least_loaded-least v vs),
        λ x xs d. least_loaded-Every _ v vs (
            subst (Every (λ y. has_capability y (required_capability job) ≡ true)) c
              (capable job s x xs d)),
      )
]
