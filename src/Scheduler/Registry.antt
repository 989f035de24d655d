-- ===== src/Scheduler/Registry.antt =====
-- The registry of `Scheduler` in yasin_core/execution/scheduler.py: scheduling, the lists, and the
-- schedule that is kept in the client's storage. Job objects live in a heap. The client has all its
-- services, and the storage takes and gives back what is written; `fresh` counts the objects made.
use yasin_core.Prelude.{
  ℕ, ◌+◌, String, Bool, true, false, not, ◌&&◌, ◌||◌, Option, none, some, List, [], ◌∷◌, ◌++◌,
  if◌then◌else◌, eqb,
}
use yasin_core.Dict
use yasin_core.Dict.{Dict}
use yasin_core.Execution.System.{System}
use yasin_core.Scheduler.{Environment, ScheduledJob, Request, make_scheduled_job, cancel_schedule}
use yasin_core.Scheduler.Saving.{SavedJob, to_dict, from_dict}

pub record Scheduler : Type 0 where
  pub heap : ℕ → ScheduledJob
  pub jobs : Dict ℕ
  pub total_triggers : ℕ
  pub stored : Option (Dict SavedJob)
  pub published : List (String × SavedJob)
  pub execution : System
  pub fresh : ℕ

abbrev pub assign : (ℕ → ScheduledJob) → ℕ → ScheduledJob → ℕ → ScheduledJob
assign heap ref job r = if eqb r ref then job else heap r

abbrev pub has_next : ScheduledJob → Bool
has_next job = elim job.next_run_time [ none ↦ false | some t ↦ true ]

-- not job.cancelled and job.next_run_time is not None
abbrev pub awaits_run : ScheduledJob → Bool
awaits_run job = not job.cancelled && has_next job

unfoldable pub serialize_active : Environment → (ℕ → ScheduledJob) → Dict ℕ → Dict SavedJob
unfolding to_dict
serialize_active env heap [] = []
serialize_active env heap ((jid, ref) ∷ jobs) =
    let rest = serialize_active env heap jobs in
    if awaits_run (heap ref) then (jid, to_dict env (heap ref)) ∷ rest else rest

-- _save_schedule
unfoldable pub save_schedule : Environment → Scheduler → Scheduler
unfolding serialize_active
save_schedule env s = record s { stored = some (serialize_active env s.heap s.jobs) }

-- _publish_event
abbrev pub publish_schedule : Environment → String → ℕ → Scheduler → Scheduler
publish_schedule env name ref s = record s {
  published = s.published ++ (name, to_dict env (s.heap ref)) ∷ [];
}

-- A new job object, under its identifier.
abbrev pub add_job : ScheduledJob → Scheduler → Scheduler
add_job job s = record s {
  heap = assign s.heap s.fresh job;
  jobs = Dict.put s.jobs job.id s.fresh;
  fresh = s.fresh + 1;
}

abbrev pub fresh_request : Request → Request
fresh_request r = record r {
  next_run_time = none;
  run_count = 0;
  last_run_time = none;
  created_at = none;
}

abbrev pub register_job : Environment → Option ScheduledJob → Scheduler → Scheduler × Option ℕ
register_job env none s = (s, none)
register_job env (some job) s =
    (publish_schedule env "job_scheduled" s.fresh (save_schedule env (add_job job s)), some s.fresh)

-- The new object, or `none` where the constructor raises.
unfoldable pub schedule_job : Environment → ℕ → Request → Scheduler → Scheduler × Option ℕ
unfolding make_scheduled_job save_schedule to_dict Dict.put
schedule_job env now r s =
    register_job env (make_scheduled_job env now (env.uuid s.fresh) (fresh_request r)) s

abbrev pub unschedule_found : Environment → String → Option ℕ → Scheduler → Scheduler × Bool
unschedule_found env job_id none s = (s, false)
unschedule_found env job_id (some ref) s =
    let s' : Scheduler = record s {
      heap = assign s.heap ref (cancel_schedule (s.heap ref));
      jobs = Dict.remove s.jobs job_id;
    } in
    (publish_schedule env "job_unscheduled" ref (save_schedule env s'), true)

unfoldable pub unschedule_job : Environment → String → Scheduler → Scheduler × Bool
unfolding Dict.get Dict.remove cancel_schedule save_schedule to_dict
unschedule_job env job_id s = unschedule_found env job_id (Dict.get s.jobs job_id) s

unfoldable pub get_scheduled_job : String → Scheduler → Option ℕ
unfolding Dict.get
get_scheduled_job job_id s = Dict.get s.jobs job_id

unfoldable pub list_scheduled_jobs : Scheduler → List ℕ
unfolding Dict.values
list_scheduled_jobs s = Dict.values s.jobs

-- The entries that stay: neither cancelled nor without a next run.
unfoldable pub live_entries : (ℕ → ScheduledJob) → Dict ℕ → Dict ℕ
live_entries heap [] = []
live_entries heap ((jid, ref) ∷ jobs) =
    let rest = live_entries heap jobs in
    if (heap ref).cancelled || not (has_next (heap ref)) then rest else (jid, ref) ∷ rest

-- Scheduler.clear_jobs
unfoldable pub clear_finished_jobs : Environment → Scheduler → Scheduler
unfolding live_entries save_schedule
clear_finished_jobs env s = save_schedule env (record s { jobs = live_entries s.heap s.jobs })

unfoldable pub active_schedules : (ℕ → ScheduledJob) → Dict ℕ → ℕ
active_schedules heap [] = 0
active_schedules heap ((jid, ref) ∷ jobs) =
    (if has_next (heap ref) then 1 else 0) + active_schedules heap jobs

abbrev pub add_loaded : Option ScheduledJob → Scheduler → Scheduler
add_loaded none s = s
add_loaded (some job) s = add_job job s

-- A job whose constructor raises is logged and left out.
unfoldable pub load_jobs : Environment → ℕ → Dict SavedJob → Scheduler → Scheduler
unfolding make_scheduled_job from_dict Dict.put
load_jobs env now [] s = s
load_jobs env now ((jid, d) ∷ saved) s =
    load_jobs env now saved
      (add_loaded (make_scheduled_job env now (env.uuid s.fresh) (from_dict env d)) s)

abbrev pub load_saved : Environment → ℕ → Option (Dict SavedJob) → Scheduler → Scheduler
load_saved env now none s = s
load_saved env now (some saved) s = load_jobs env now saved s

-- _load_schedule
unfoldable pub load_schedule : Environment → ℕ → Scheduler → Scheduler
unfolding load_jobs
load_schedule env now s = load_saved env now s.stored s
