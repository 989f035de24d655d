-- ===== src/Scheduler/Ticks.antt =====
-- `_tick` and `_trigger_job` of yasin_core/execution/scheduler.py.
use yasin_core.Prelude.{
  ℕ, ◌+◌, Bool, true, false, not, ◌&&◌, Option, none, some, List, [], ◌∷◌, if◌then◌else◌, leb,
}
use yasin_core.Dict.{Dict}
use yasin_core.Execution.{make_job}
use yasin_core.Execution.System.{System, modify}
use yasin_core.Execution.Engine.{submit_job}
use yasin_core.Scheduler.{Environment, ScheduledJob, calculate_next_run}
use yasin_core.Scheduler.Saving.{to_dict}
use yasin_core.Scheduler.Registry.{Scheduler, assign, publish_schedule, save_schedule}

abbrev pub has_passed : Option ℕ → ℕ → Bool
has_passed none now = false
has_passed (some t) now = leb t now

abbrev pub is_triggered : ScheduledJob → ℕ → Bool
is_triggered job now = has_passed job.next_run_time now && not job.cancelled

unfoldable pub triggered_jobs : (ℕ → ScheduledJob) → Dict ℕ → ℕ → List ℕ
triggered_jobs heap [] now = []
triggered_jobs heap ((jid, ref) ∷ jobs) now =
    let rest = triggered_jobs heap jobs now in
    if is_triggered (heap ref) now then ref ∷ rest else rest

-- The execution job of a scheduled one, submitted. A thread of its own has no active context.
unfoldable pub submit_scheduled : Environment → ℕ → ScheduledJob → ℕ → System → System
unfolding make_job submit_job
submit_scheduled env now job fresh sys = submit_job fresh none (
    modify fresh
      (λ _.
        make_job (env.uuid fresh) job.name job.target job.args job.kwargs job.priority job.retries
          job.timeout none now)
      sys)

-- job.run_count += 1; job.last_run_time = time.time()
abbrev pub count_run : ℕ → ScheduledJob → ScheduledJob
count_run now job = record job { run_count = job.run_count + 1; last_run_time = some now }

abbrev pub set_job : ℕ → ScheduledJob → Scheduler → Scheduler
set_job ref job s = record s { heap = assign s.heap ref job }

-- What follows the submission, by the result of `calculate_next_run`; true for a normal return.
abbrev pub settle_trigger :
    Environment → ℕ → ScheduledJob → Option ScheduledJob → Scheduler → Scheduler × Bool
settle_trigger env ref counted none s = (set_job ref counted s, false)
settle_trigger env ref counted (some job) s =
    let s1 = set_job ref job s in
    let s2 : Scheduler = record s1 { total_triggers = s1.total_triggers + 1 } in
    (save_schedule env (publish_schedule env "job_triggered" ref s2), true)

-- The submission to the engine.
abbrev pub submitted : Environment → ℕ → ℕ → Scheduler → Scheduler
submitted env now ref s = record s {
  execution = submit_scheduled env now (s.heap ref) s.fresh s.execution;
  fresh = s.fresh + 1;
}

-- _trigger_job
unfoldable pub trigger_job : Environment → ℕ → ℕ → Scheduler → Scheduler × Bool
unfolding submit_scheduled calculate_next_run to_dict save_schedule
trigger_job env now ref s =
    let counted = count_run now (s.heap ref) in
    settle_trigger env ref counted (calculate_next_run env now counted) (submitted env now ref s)

-- An exception of one job ends the loop.
unfoldable pub trigger_all : Environment → ℕ → List ℕ → Scheduler → Scheduler × Bool
unfolding trigger_job
trigger_all env now [] s = (s, true)
trigger_all env now (ref ∷ refs) s =
    let (s', returned) = trigger_job env now ref s in
    let rest = trigger_all env now refs s' in if returned then rest else (s', false)

-- _tick
unfoldable pub tick : Environment → ℕ → Scheduler → Scheduler × Bool
unfolding triggered_jobs trigger_all
tick env now s = trigger_all env now (triggered_jobs s.heap s.jobs now) s
