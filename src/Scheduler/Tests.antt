-- ===== src/Scheduler/Tests.antt =====
-- A scheduler with a job every ten ticks, at most twice, and one whose cron expression has no due minute.
use yasin_core.Prelude.{
  ℕ, zero, suc, ◌+◌, ◌≡◌, ◌≢◌, refl, ap, ◌==◌, String, true, false, ◌&&◌, none, some, List, [], ◌∷◌,
  if◌then◌else◌, length, arith,
}
use yasin_core.Prelude.Int.{pos}
use yasin_core.Cron.{codes}
use yasin_core.Cron.Calendar.{DateTime}
use yasin_core.Cron
use yasin_core.Dict
use yasin_core.Dict.{Dict}
use yasin_core.Execution.{named, make_job}
use yasin_core.Execution.Queue.{empty_queue}
use yasin_core.Execution.System.{System}
use yasin_core.Scheduler.{
  Environment, ScheduledJob, Request, is_exhausted, calculate_next_run, cron_time, next_time,
  make_scheduled_job,
}
use yasin_core.Scheduler.Saving.{serialize_target, deserialize_target}
use yasin_core.Scheduler.Registry.{
  Scheduler, schedule_job, load_schedule, save_schedule, get_scheduled_job, has_next,
}
use yasin_core.Scheduler.Ticks.{
  is_triggered, triggered_jobs, count_run, tick, trigger_all, trigger_job,
}
use yasin_core.Scheduler.Restore.{scheduled, if_active, IsRestorable, load_schedule-save_schedule}
use yasin_core.Scheduler.Limits.{is_within, uses}
use yasin_core.Scheduler.Runs.{Operation, schedule, run_tick, perform_all, perform_all-Limited}
use yasin_core.Scheduler.Due.{create_each, tick-exact, tick-raises}

abbrev midnight : DateTime
midnight = record { year = 2024; month = 2; day = 28; hour = 0; minute = 0; weekday = 2 }

abbrev place : Environment
place = record {
  fromtimestamp = λ n. midnight;
  timestamp = λ t. t.minute;
  uuid = λ n. "id";
  describe = λ f. ("module", "function");
  lookup = λ m n. none;
  rounds = 0;
}

abbrev engine : System
engine = record {
  heap = λ r. make_job "" "" (named "") [] [] (pos 20) 0 none none 0;
  queue = empty_queue;
  jobs = [];
  workers = [];
  heartbeat_timeout = 30;
  total_assignments = 0;
  published = [];
  saved = [];
}

abbrev periodic : ScheduledJob
periodic = record {
  id = "beat";
  name = "heartbeat";
  target = named "ping";
  args = [];
  kwargs = [];
  priority = pos 20;
  retries = 0;
  timeout = none;
  interval = some 10;
  delay = none;
  cron = none;
  max_runs = some 2;
  run_count = 0;
  created_at = 1;
  last_run_time = none;
  next_run_time = some 11;
  cancelled = false;
}

abbrev never : ScheduledJob
never = record periodic { id = "never"; interval = none; cron = some (codes "0 0 30 2 *") }

abbrev jobs_of : ℕ → ScheduledJob
jobs_of zero = periodic
jobs_of (suc n) = never

abbrev filled : Scheduler
filled = record {
  heap = jobs_of;
  jobs = ("beat", 0) ∷ [];
  total_triggers = 0;
  stored = none;
  published = [];
  execution = engine;
  fresh = 2;
}

abbrev restarted : Scheduler
restarted = record filled { jobs = []; stored = (save_schedule place filled).stored }

periodic-IsRestorable : IsRestorable place periodic
unfolding serialize_target deserialize_target
periodic-IsRestorable = record {
  id_given = λ e. absurd (cc (ap (λ (t : String). t == "") e));
  name_given = λ e. absurd (cc (ap (λ (t : String). t == "") e));
  created = omega arith;
  target_found = refl;
}

load_schedule-save_schedule_example :
    scheduled "beat" (load_schedule place 5 restarted) ≡ if_active (scheduled "beat" filled)
unfolding Dict.has
load_schedule-save_schedule_example =
    load_schedule-save_schedule place 5 filled restarted "beat"
      (refl, refl, periodic-IsRestorable, tt) refl refl

abbrev beat : Request
beat = record {
  target = named "ping";
  args = [];
  kwargs = [];
  id = "beat";
  name = "heartbeat";
  priority = pos 20;
  retries = 0;
  timeout = none;
  interval = some 10;
  delay = none;
  cron = none;
  max_runs = some 1;
  next_run_time = none;
  run_count = 0;
  last_run_time = none;
  created_at = none;
}

abbrev empty_scheduler : Scheduler
empty_scheduler = record filled { jobs = []; fresh = 0 }

abbrev two_ticks : List Operation
two_ticks = schedule 0 beat ∷ run_tick 10 ∷ run_tick 20 ∷ []

-- The second tick finds nothing to run.
beat_is_kept : get_scheduled_job "beat" (perform_all place two_ticks empty_scheduler) ≡ some 0
unfolding get_scheduled_job schedule_job make_scheduled_job calculate_next_run next_time tick
    triggered_jobs trigger_all trigger_job save_schedule Dict.put Dict.get
beat_is_kept = refl

perform_all-Limited_example :
    let job = (perform_all place two_ticks empty_scheduler).heap 0 in
    (is_within job.max_runs job.run_count ≡ true)
    × (has_next job ≡ true → is_exhausted job.max_runs job.run_count ≡ false)
perform_all-Limited_example =
    perform_all-Limited place two_ticks empty_scheduler "beat" 0 refl refl beat_is_kept

abbrev again : ℕ → ScheduledJob
again n = record periodic { run_count = 1; last_run_time = some 12; next_run_time = some 22 }

again_computed :
    (r : ℕ)
    → (uses filled.jobs r && is_triggered (filled.heap r) 12) ≡ true
    → calculate_next_run place 12 (count_run 12 (filled.heap r)) ≡ some (again r)
unfolding calculate_next_run next_time
again_computed zero h = refl
again_computed (suc r) h = absurd (ground (arith, h))

tick-exact_example :
    ((tick place 12 filled).1 ≡ true)
    × ((tick place 12 filled).0.total_triggers
        ≡ filled.total_triggers + length (triggered_jobs filled.heap filled.jobs 12))
    × ((r : ℕ)
        → (tick place 12 filled).0.heap r ≡ (
            if uses filled.jobs r && is_triggered (filled.heap r) 12
            then again r
            else filled.heap r))
    × ((tick place 12 filled).0.execution
        ≡ create_each place 12 filled.heap
            (triggered_jobs filled.heap filled.jobs 12)
            filled.fresh
            filled.execution)
tick-exact_example = tick-exact place 12 again filled (refl, tt) again_computed

abbrev stuck : Scheduler
stuck = record filled { jobs = ("never", 1) ∷ ("beat", 0) ∷ [] }

never_first : triggered_jobs stuck.heap stuck.jobs 12 ≡ 1 ∷ 0 ∷ []
unfolding triggered_jobs
never_first = refl

never_computed : calculate_next_run place 12 (count_run 12 (stuck.heap 1)) ≡ none
unfolding calculate_next_run next_time cron_time Cron.get_next_cron_time Cron.find_next
    Cron.parse_fields Cron.parse_cron_field Cron.split_at_spaces Cron.contains
never_computed = refl

tick-raises_example :
    let s' = (tick place 12 stuck).0 in
    ((tick place 12 stuck).1 ≡ false)
    × ((s'.heap 1).run_count ≡ (stuck.heap 1).run_count + 1)
    × (is_triggered (s'.heap 1) 20 ≡ true)
    × (s'.total_triggers ≡ stuck.total_triggers)
    × ((r : ℕ) → r ≢ 1 → s'.heap r ≡ stuck.heap r)
    × (s'.execution ≡ create_each place 12 stuck.heap (1 ∷ []) stuck.fresh stuck.execution)
tick-raises_example =
    tick-raises place 12 20 1 (0 ∷ []) stuck never_first never_computed (omega arith)
