-- ===== src/Scheduler.antt =====
-- `ScheduledJob` of yasin_core/execution/scheduler.py. Times are
-- numbers of clock ticks; a call reads the clock once. `datetime.fromtimestamp`, `timestamp`, the
-- identifiers of `uuid4`, and the lookup of a function by its module and name are parameters.
pub mod Saving
pub mod Registry
pub mod Ticks
pub mod Restore
pub mod Due
pub mod Limits
pub mod Changes
pub mod Runs
mod Tests
use Prim.Native.String as String
use yasin_core.Prelude.{
  ℕ, zero, suc, ◌+◌, String, Bool, true, false, not, ◌&&◌, Option, none, some, List, [], ◌∷◌, ◌++◌,
  if◌then◌else◌, ltb, leb, eqb, ◌==◌,
}
use yasin_core.Prelude.Int.{ℤ}
use yasin_core.Dict.{Dict}
use yasin_core.Cron.{Text, get_next_cron_time}
use yasin_core.Cron.Calendar.{DateTime}
use yasin_core.Execution.{Target, callable, named, Value}

pub record Environment : Type 0 where
  -- datetime.fromtimestamp, and its inverse
  pub fromtimestamp : ℕ → DateTime
  pub timestamp : DateTime → ℕ
  -- str(uuid.uuid4()), of the n-th call
  pub uuid : ℕ → String
  -- the module and the name of a callable, and getattr(import_module(module), name)
  pub describe : ℕ → String × String
  pub lookup : String → String → Option ℕ
  -- the minutes that `get_next_cron_time` looks at
  pub rounds : ℕ

pub record ScheduledJob : Type 0 where
  pub id : String
  pub name : String
  pub target : Target
  pub args : List Value
  pub kwargs : Dict Value
  pub priority : ℤ
  pub retries : ℕ
  pub timeout : Option ℕ
  pub interval : Option ℕ
  pub delay : Option ℕ
  pub cron : Option Text
  pub max_runs : Option ℕ
  pub run_count : ℕ
  pub created_at : ℕ
  pub last_run_time : Option ℕ
  pub next_run_time : Option ℕ
  pub cancelled : Bool

-- max_runs is not None and run_count >= max_runs
abbrev pub is_exhausted : Option ℕ → ℕ → Bool
is_exhausted none n = false
is_exhausted (some m) n = leb m n

-- get_next_cron_time(cron, datetime.fromtimestamp(now)).timestamp()
unfoldable pub cron_time : Environment → Text → ℕ → Option ℕ
unfolding get_next_cron_time
cron_time env cron now = elim (get_next_cron_time env.rounds cron (env.fromtimestamp now)) [
  | none ↦ none
  | some t ↦ some (env.timestamp t)
]

abbrev pub by_interval : Option ℕ → ℕ → Option ℕ → Option (Option ℕ)
by_interval (some i) now otherwise = some (some (now + i))
by_interval none now otherwise = some otherwise

abbrev pub by_cron : Option (Option ℕ) → Option (Option ℕ) → Option (Option ℕ)
by_cron none otherwise = otherwise
by_cron (some none) otherwise = none
by_cron (some (some t)) otherwise = some (some t)

abbrev pub cron_time_of : Environment → Option Text → ℕ → Option (Option ℕ)
cron_time_of env none now = none
cron_time_of env (some cron) now = some (cron_time env cron now)

abbrev pub by_delay : Option ℕ → ℕ → Option (Option ℕ) → Option (Option ℕ)
by_delay (some d) now otherwise = some (some (now + d))
by_delay none now otherwise = otherwise

-- The time of the next run of a job that is neither cancelled nor exhausted.
unfoldable pub next_time : Environment → ℕ → ScheduledJob → Option (Option ℕ)
unfolding cron_time
next_time env now job =
    let cron = cron_time_of env job.cron now in
    if eqb job.run_count 0
    then by_delay job.delay now (by_cron cron (by_interval job.interval now (some now)))
    else by_cron cron (by_interval job.interval now none)

abbrev pub with_time : ScheduledJob → Option (Option ℕ) → Option ScheduledJob
with_time job none = none
with_time job (some t) = some (record job { next_run_time = t })

-- `none` is an exception, which leaves the job as it is.
unfoldable pub calculate_next_run : Environment → ℕ → ScheduledJob → Option ScheduledJob
unfolding next_time
calculate_next_run env now job =
    if job.cancelled
    then some (record job { next_run_time = none })
    else if is_exhausted job.max_runs job.run_count
    then some (record job { next_run_time = none })
    else with_time job (next_time env now job)

-- ScheduledJob.cancel
unfoldable pub cancel_schedule : ScheduledJob → ScheduledJob
cancel_schedule job = record job { cancelled = true; next_run_time = none }

-- s or t
abbrev pub or_text : String → String → String
or_text s t = if s == "" then t else s

abbrev pub or_number : Option ℕ → ℕ → ℕ
or_number none n = n
or_number (some m) n = if eqb m 0 then n else m

unfoldable pub first_chars : ℕ → String → String
first_chars zero s = ""
first_chars (suc n) String.[] = ""
first_chars (suc n) (String.◌∷◌ c s) = String.◌∷◌ c (first_chars n s)

-- f"sched-job-{id[:8]}"
unfoldable pub default_name : String → String
unfolding first_chars
default_name id = String.◌++◌ "sched-job-" (first_chars 8 id)

-- The arguments of `ScheduledJob(...)`.
pub record Request : Type 0 where
  pub target : Target
  pub args : List Value
  pub kwargs : Dict Value
  pub id : String
  pub name : String
  pub priority : ℤ
  pub retries : ℕ
  pub timeout : Option ℕ
  pub interval : Option ℕ
  pub delay : Option ℕ
  pub cron : Option Text
  pub max_runs : Option ℕ
  pub next_run_time : Option ℕ
  pub run_count : ℕ
  pub last_run_time : Option ℕ
  pub created_at : Option ℕ

-- The attributes that the constructor sets before the time of the next run; `id` is not empty.
abbrev pub attributes : ℕ → String → Request → ScheduledJob
attributes now id r = record {
  id = id;
  name = or_text r.name (default_name id);
  target = r.target;
  args = r.args;
  kwargs = r.kwargs;
  priority = r.priority;
  retries = r.retries;
  timeout = r.timeout;
  interval = r.interval;
  delay = r.delay;
  cron = r.cron;
  max_runs = r.max_runs;
  run_count = r.run_count;
  created_at = or_number r.created_at now;
  last_run_time = r.last_run_time;
  next_run_time = none;
  cancelled = false;
}

abbrev pub with_next_run : Environment → ℕ → Option ℕ → ScheduledJob → Option ScheduledJob
with_next_run env now (some t) job = some (record job { next_run_time = some t })
with_next_run env now none job = calculate_next_run env now job

-- ScheduledJob.__init__, with the next identifier of `uuid4`
unfoldable pub make_scheduled_job : Environment → ℕ → String → Request → Option ScheduledJob
unfolding default_name calculate_next_run
make_scheduled_job env now fresh_id r =
    with_next_run env now r.next_run_time (attributes now (or_text r.id fresh_id) r)
