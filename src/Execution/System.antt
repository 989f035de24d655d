-- ===== src/Execution/System.antt =====
-- The state that yasin_core/execution/engine.py and yasin_core/execution/distributed.py share, and
-- `WorkerNode` of the latter. The node objects are held by the manager's registry alone.
use yasin_core.Prelude.{ℕ, ◌+◌, String, Bool, true, false, List, [], ◌∷◌, ◌++◌, if◌then◌else◌, ltb}
use yasin_core.Prelude.Counting.{elem, without}
use yasin_core.Dict
use yasin_core.Dict.{Dict}
use yasin_core.Execution.{JobStatus, Job, Value, text, Event, job_event, worker_event, Heap, write}
use yasin_core.Execution.Queue.{JobQueue}

pub data WorkerState : Type 0 where
  registered active offline suspended failed : WorkerState

abbrev pub worker_state_eq : WorkerState → WorkerState → Bool
worker_state_eq registered registered = true
worker_state_eq active active = true
worker_state_eq offline offline = true
worker_state_eq suspended suspended = true
worker_state_eq failed failed = true
worker_state_eq _ _ = false

pub record WorkerNode : Type 0 where
  pub id : String
  pub name : String
  pub status : WorkerState
  pub capabilities : List String
  pub health : Dict Value
  pub last_heartbeat : ℕ
  pub queue : List ℕ
  pub assigned_jobs : Dict ℕ

-- set(capabilities): the set as a list with no name twice
unfoldable pub as_set : List String → List String
unfolding elem
as_set [] = []
as_set (c ∷ cs) = let rest = as_set cs in if elem c rest then rest else c ∷ rest

unfoldable pub make_node : String → String → List String → Dict Value → ℕ → WorkerNode
unfolding as_set
make_node worker_id name capabilities health now = record {
  id = worker_id;
  name = name;
  status = registered;
  capabilities = as_set capabilities;
  health = health;
  last_heartbeat = now;
  queue = [];
  assigned_jobs = [];
}

-- health.update(metrics)
unfoldable pub update : Dict Value → Dict Value → Dict Value
unfolding Dict.put
update health [] = health
update health ((key, value) ∷ rest) = update (Dict.put health key value) rest

-- A registered or offline node becomes active.
abbrev pub awaken : WorkerState → WorkerState
awaken registered = active
awaken offline = active
awaken state = state

unfoldable pub update_heartbeat : WorkerNode → Dict Value → ℕ → WorkerNode
unfolding update
update_heartbeat node metrics now = record node {
  last_heartbeat = now;
  health = update node.health metrics;
  status = awaken node.status;
}

abbrev pub is_down : WorkerState → Bool
is_down offline = true
is_down failed = true
is_down _ = false

unfoldable pub is_alive : WorkerNode → ℕ → ℕ → Bool
is_alive node timeout now =
    if is_down node.status then false else ltb now (node.last_heartbeat + timeout)

unfoldable pub report_capability : WorkerNode → String → WorkerNode
unfolding elem
report_capability node capability = record node {
  capabilities =
      if elem capability node.capabilities
      then node.capabilities
      else capability ∷ node.capabilities;
}

unfoldable pub remove_capability : WorkerNode → String → WorkerNode
unfolding without
remove_capability node capability = record node {
  capabilities = without capability node.capabilities;
}

-- `capability in w.capabilities`: what is no text is in no set of texts.
abbrev pub has_capability : WorkerNode → Value → Bool
has_capability node (text c) = elem c node.capabilities
has_capability node _ = false

pub record System : Type 0 where
  pub heap : Heap
  pub queue : JobQueue
  pub jobs : Dict ℕ
  pub workers : Dict WorkerNode
  pub heartbeat_timeout : ℕ
  pub total_assignments : ℕ
  pub published : List Event
  pub saved : List (String × JobStatus)

-- engine._publish_event(name, job)
abbrev pub publish_job : String → ℕ → System → System
publish_job name ref s =
    let job = s.heap ref in
    record s { published = s.published ++ job_event name job.id job.status ∷ [] }

-- manager._publish_event(name, worker)
abbrev pub publish_worker : String → String → System → System
publish_worker name worker_id s = record s {
  published = s.published ++ worker_event name worker_id ∷ [];
}

-- engine._save_to_memory(job)
abbrev pub save_to_memory : ℕ → System → System
save_to_memory ref s =
    let job = s.heap ref in record s { saved = s.saved ++ (job.id, job.status) ∷ [] }

-- A change of the job object at `ref`.
abbrev pub modify : ℕ → (Job → Job) → System → System
modify ref f s = record s { heap = write s.heap ref (f (s.heap ref)) }

abbrev pub set_node : WorkerNode → System → System
set_node node s = record s { workers = Dict.put s.workers node.id node }
