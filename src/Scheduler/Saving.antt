-- ===== src/Scheduler/Saving.antt =====
-- The (de)serialization of targets and scheduled jobs in yasin_core/execution/scheduler.py.
use yasin_core.Prelude.{ℕ, String, Bool, not, ◌&&◌, Option, none, some, List, if◌then◌else◌, ◌==◌}
use yasin_core.Prelude.Int.{ℤ}
use yasin_core.Dict.{Dict}
use yasin_core.Cron.{Text}
use yasin_core.Execution.{Target, callable, named, Value}
use yasin_core.Scheduler.{Environment, ScheduledJob, Request}

pub data SavedTarget : Type 0 where
  saved_text : String → SavedTarget
  saved_callable : String → String → SavedTarget

unfoldable pub serialize_target : Environment → Target → SavedTarget
serialize_target env (named s) = saved_text s
serialize_target env (callable f) = let (m, n) = env.describe f in saved_callable m n

abbrev pub found_or_name : Option ℕ → String → Target
found_or_name (some f) name = callable f
found_or_name none name = named name

unfoldable pub deserialize_target : Environment → SavedTarget → Target
deserialize_target env (saved_text s) = named s
deserialize_target env (saved_callable m n) =
    if not (m == "") && not (n == "") then found_or_name (env.lookup m n) n else named n

-- What `to_dict` returns.
pub record SavedJob : Type 0 where
  pub id : String
  pub name : String
  pub target : SavedTarget
  pub args : List Value
  pub kwargs : Dict Value
  pub priority : ℤ
  pub retries : ℕ
  pub timeout : Option ℕ
  pub interval : Option ℕ
  pub delay : Option ℕ
  pub cron : Option Text
  pub max_runs : Option ℕ
  pub run_count : ℕ
  pub created_at : ℕ
  pub last_run_time : Option ℕ
  pub next_run_time : Option ℕ
  pub cancelled : Bool

unfoldable pub to_dict : Environment → ScheduledJob → SavedJob
unfolding serialize_target
to_dict env job = record {
  id = job.id;
  name = job.name;
  target = serialize_target env job.target;
  args = job.args;
  kwargs = job.kwargs;
  priority = job.priority;
  retries = job.retries;
  timeout = job.timeout;
  interval = job.interval;
  delay = job.delay;
  cron = job.cron;
  max_runs = job.max_runs;
  run_count = job.run_count;
  created_at = job.created_at;
  last_run_time = job.last_run_time;
  next_run_time = job.next_run_time;
  cancelled = job.cancelled;
}

-- The arguments that `_load_schedule` takes from a saved job.
unfoldable pub from_dict : Environment → SavedJob → Request
unfolding deserialize_target
from_dict env d = record {
  target = deserialize_target env d.target;
  args = d.args;
  kwargs = d.kwargs;
  id = d.id;
  name = d.name;
  priority = d.priority;
  retries = d.retries;
  timeout = d.timeout;
  interval = d.interval;
  delay = d.delay;
  cron = d.cron;
  max_runs = d.max_runs;
  next_run_time = d.next_run_time;
  run_count = d.run_count;
  last_run_time = d.last_run_time;
  created_at = some d.created_at;
}
