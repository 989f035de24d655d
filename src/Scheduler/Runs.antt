-- ===== src/Scheduler/Runs.antt =====
-- The count of a job's runs and its `max_runs`, over sequences of calls.
use yasin_core.Prelude.{
  ℕ, ◌+◌, ◌≡◌, refl, sym, subst, String, true, false, Option, none, some, List, [], ◌∷◌, eqb,
  Bool-cases, inl, inr, arith,
}
use yasin_core.Cron.{contains}
use yasin_core.Dict.{Dict}
use yasin_core.Scheduler.{Environment, ScheduledJob, Request, is_exhausted, calculate_next_run}
use yasin_core.Scheduler.Registry.{
  Scheduler, assign, save_schedule, schedule_job, unschedule_job, clear_finished_jobs,
  load_schedule, get_scheduled_job, has_next, publish_schedule,
}
use yasin_core.Scheduler.Ticks.{
  is_triggered, triggered_jobs, count_run, settle_trigger, trigger_job, trigger_all, tick, set_job,
  submitted,
}
use yasin_core.Scheduler.Changes.{
  schedule_job-IsSound, unschedule_job-IsSound, clear_finished_jobs-IsSound, load_schedule-IsSound,
  AreSound-get,
}
use yasin_core.Scheduler.Limits.{
  is_within, IsLimited, Gives, StoredLimited, AreSound, IsSound, uses, calculate_next_run-Gives,
  is_set, AreSound-assign, AreSound-fresh, save_schedule-IsSound,
}

-- The jobs of a tick: each waits for its run, none stands twice.
abbrev AreDue : (ℕ → ScheduledJob) → ℕ → Dict ℕ → List ℕ → Type 0
AreDue heap now jobs [] = Unit
AreDue heap now jobs (r ∷ rs) =
    (is_triggered (heap r) now ≡ true)
    × (uses jobs r ≡ true)
    × (contains r rs ≡ false)
    × AreDue heap now jobs rs

triggered_jobs-unused :
    (heap : ℕ → ScheduledJob) (jobs : Dict ℕ) (now r : ℕ)
    → uses jobs r ≡ false
    → contains r (triggered_jobs heap jobs now) ≡ false
unfolding triggered_jobs contains
triggered_jobs-unused heap [] now r h = refl
triggered_jobs-unused heap ((j, ref) ∷ d) now r h =
    ground (arith, triggered_jobs-unused heap d now r, h)

AreDue-more :
    (heap : ℕ → ScheduledJob) (now : ℕ) (j : String) (ref : ℕ) (jobs : Dict ℕ) (rs : List ℕ)
    → AreDue heap now jobs rs
    → AreDue heap now ((j, ref) ∷ jobs) rs
AreDue-more heap now j ref jobs [] h = tt
AreDue-more heap now j ref jobs (r ∷ rs) h =
    (h.0, ground (arith, h.1), h.2, AreDue-more heap now j ref jobs rs h.3)

triggered_jobs-AreDue :
    (heap : ℕ → ScheduledJob) (n : ℕ) (jobs : Dict ℕ) (now : ℕ)
    → AreSound heap n jobs
    → AreDue heap now jobs (triggered_jobs heap jobs now)
unfolding triggered_jobs
triggered_jobs-AreDue heap n [] now h = tt
triggered_jobs-AreDue heap n ((j, ref) ∷ d) now h =
    let more =
      AreDue-more heap now j ref d (triggered_jobs heap d now)
        (triggered_jobs-AreDue heap n d now h.3) in
    elim (Bool-cases (is_triggered (heap ref) now)) [
      | inl e ↦ rw e (e, ground arith, triggered_jobs-unused heap d now ref h.1, more)
      | inr e ↦ rw e more
    ]

AreDue-assign :
    (heap : ℕ → ScheduledJob) (now ref : ℕ) (job : ScheduledJob) (jobs : Dict ℕ) (rs : List ℕ)
    → contains ref rs ≡ false
    → AreDue heap now jobs rs
    → AreDue (assign heap ref job) now jobs rs
unfolding contains
AreDue-assign heap now ref job jobs [] l h = tt
AreDue-assign heap now ref job jobs (r ∷ rs) l h = (
  rw (other r rs l) h.0,
  h.1,
  h.2,
  AreDue-assign heap now ref job jobs rs (ground (arith, l)) h.3,
)
  where
    other : (r : ℕ) (rs : List ℕ) → contains ref (r ∷ rs) ≡ false → eqb r ref ≡ false
    other r rs l = ground (arith, l)

AreSound-uses :
    (heap : ℕ → ScheduledJob) (n : ℕ) (d : Dict ℕ) (r : ℕ)
    → AreSound heap n d
    → uses d r ≡ true
    → IsLimited (heap r)
AreSound-uses heap n [] r h e = absurd (cc)
AreSound-uses heap n ((j, ref) ∷ d) r h e = elim (Bool-cases (eqb ref r)) [
  | inl f ↦ subst (λ (x : ℕ). IsLimited (heap x)) (ground (arith, f)) h.2
  | inr f ↦ AreSound-uses heap n d r h.3 (ground (arith, e, f))
]

-- A job that waits for its run has one left, so one more run is within its limit.
count_run-within :
    (job : ScheduledJob) (now : ℕ)
    → IsLimited job
    → is_triggered job now ≡ true
    → is_within job.max_runs (job.run_count + 1) ≡ true
count_run-within job now l h = ground (arith, l.0, l.1, h)

-- A job that raised waits for its run as before.
raised-IsLimited :
    (env : Environment) (now : ℕ) (job : ScheduledJob)
    → is_within job.max_runs job.run_count ≡ true
    → calculate_next_run env now job ≡ none
    → IsLimited job
unfolding calculate_next_run
raised-IsLimited env now job h e = (h, λ _. ground (arith, e))

settle_trigger-IsSound :
    (env : Environment) (ref : ℕ) (counted : ScheduledJob) (m : Option ScheduledJob) (s : Scheduler)
    → (m ≡ none → IsLimited counted)
    → Gives m
    → IsSound s
    → IsSound (settle_trigger env ref counted m s).0
settle_trigger-IsSound env ref counted none s l g i = record {
  jobs_sound = AreSound-assign s.heap s.fresh ref counted s.jobs (l refl) i.jobs_sound;
  stored_limited = i.stored_limited;
}
settle_trigger-IsSound env ref counted (some job) s l g i =
    let s1 = set_job ref job s in
    let s2 : Scheduler = record s1 { total_triggers = s1.total_triggers + 1 } in
    save_schedule-IsSound env (publish_schedule env "job_triggered" ref s2)
      (AreSound-assign s.heap s.fresh ref job s.jobs g i.jobs_sound)

trigger_job-IsSound :
    (env : Environment) (now ref : ℕ) (s : Scheduler)
    → IsSound s
    → is_triggered (s.heap ref) now ≡ true
    → uses s.jobs ref ≡ true
    → IsSound (trigger_job env now ref s).0
unfolding trigger_job
trigger_job-IsSound env now ref s i t u =
    let counted = count_run now (s.heap ref) in
    let within =
      count_run-within (s.heap ref) now (AreSound-uses s.heap s.fresh s.jobs ref i.jobs_sound u)
        t in
    settle_trigger-IsSound env ref counted (calculate_next_run env now counted)
      (submitted env now ref s) (raised-IsLimited env now counted within)
      (calculate_next_run-Gives env now counted within)
      (record {
        jobs_sound = AreSound-fresh s.heap s.fresh s.jobs i.jobs_sound;
        stored_limited = i.stored_limited;
      })

trigger_job-AreDue :
    (env : Environment) (now ref : ℕ) (s : Scheduler) (rs : List ℕ)
    → contains ref rs ≡ false
    → AreDue s.heap now s.jobs rs
    → AreDue (trigger_job env now ref s).0.heap now (trigger_job env now ref s).0.jobs rs
unfolding trigger_job save_schedule
trigger_job-AreDue env now ref s rs l h =
    settled (calculate_next_run env now (count_run now (s.heap ref)))
  where
    settled :
        (m : Option ScheduledJob)
        → let s' =
            (settle_trigger env ref (count_run now (s.heap ref)) m (submitted env now ref s)).0 in
          AreDue s'.heap now s'.jobs rs
    settled none = AreDue-assign s.heap now ref (count_run now (s.heap ref)) s.jobs rs l h
    settled (some job) = AreDue-assign s.heap now ref job s.jobs rs l h

trigger_all-IsSound :
    (env : Environment) (now : ℕ) (rs : List ℕ) (s : Scheduler)
    → AreDue s.heap now s.jobs rs
    → IsSound s
    → IsSound (trigger_all env now rs s).0
unfolding trigger_all
trigger_all-IsSound env now [] s h i = i
trigger_all-IsSound env now (r ∷ rs) s h i =
    let s' = (trigger_job env now r s).0 in
    let sound = trigger_job-IsSound env now r s i h.0 h.1 in
    elim (Bool-cases (trigger_job env now r s).1) [
      | inl e ↦
          rw e (trigger_all-IsSound env now rs s' (trigger_job-AreDue env now r s rs h.2 h.3) sound)
      | inr e ↦ rw e sound
    ]

tick-IsSound :
    (env : Environment) (now : ℕ) (s : Scheduler) → IsSound s → IsSound (tick env now s).0
unfolding tick
tick-IsSound env now s i =
    trigger_all-IsSound env now (triggered_jobs s.heap s.jobs now) s
      (triggered_jobs-AreDue s.heap s.fresh s.jobs now i.jobs_sound) i

pub data Operation : Type 0 where
  schedule : ℕ → Request → Operation
  unschedule : String → Operation
  clear_finished : Operation
  run_tick : ℕ → Operation
  reload : ℕ → Operation

abbrev pub perform : Environment → Operation → Scheduler → Scheduler
perform env (schedule now r) s = (schedule_job env now r s).0
perform env (unschedule job_id) s = (unschedule_job env job_id s).0
perform env clear_finished s = clear_finished_jobs env s
perform env (run_tick now) s = (tick env now s).0
perform env (reload now) s = load_schedule env now s

abbrev pub perform_all : Environment → List Operation → Scheduler → Scheduler
perform_all env [] s = s
perform_all env (o ∷ os) s = perform_all env os (perform env o s)

perform-IsSound :
    (env : Environment) (o : Operation) (s : Scheduler) → IsSound s → IsSound (perform env o s)
perform-IsSound env (schedule now r) s i = schedule_job-IsSound env now r s i
perform-IsSound env (unschedule job_id) s i = unschedule_job-IsSound env job_id s i
perform-IsSound env clear_finished s i = clear_finished_jobs-IsSound env s i
perform-IsSound env (run_tick now) s i = tick-IsSound env now s i
perform-IsSound env (reload now) s i = load_schedule-IsSound env now s i

perform_all-IsSound :
    (env : Environment) (os : List Operation) (s : Scheduler)
    → IsSound s
    → IsSound (perform_all env os s)
perform_all-IsSound env [] s i = i
perform_all-IsSound env (o ∷ os) s i =
    perform_all-IsSound env os (perform env o s) (perform-IsSound env o s i)

-- The run count of a registered job never exceeds its `max_runs`: after any sequence of scheduling, unscheduling,
-- clearing, ticks (with those that end in an exception) and reloads, on a new scheduler whose storage
-- holds no schedule, the `run_count` of each registered job is at most its limit, and a registered job that
-- waits for a run has not reached its limit.
pub perform_all-Limited :
    (env : Environment) (os : List Operation) (s : Scheduler) (job_id : String) (ref : ℕ)
    → s.jobs ≡ []
    → s.stored ≡ none
    → get_scheduled_job job_id (perform_all env os s) ≡ some ref
    → let job = (perform_all env os s).heap ref in
      (is_within job.max_runs job.run_count ≡ true)
      × (has_next job ≡ true → is_exhausted job.max_runs job.run_count ≡ false)
unfolding get_scheduled_job
perform_all-Limited env os s job_id ref e f g =
    let begun : IsSound s = record {
      jobs_sound = subst (λ (d : Dict ℕ). AreSound s.heap s.fresh d) (sym e) tt;
      stored_limited = subst StoredLimited (sym f) tt;
    } in
    let end = perform_all env os s in
    let limited =
      AreSound-get end.heap end.fresh end.jobs job_id ref
        (perform_all-IsSound env os s begun).jobs_sound g in
    (limited.0, λ h. limited.1 (waits (end.heap ref).next_run_time h))
  where
    waits : (m : Option ℕ) → elim m [ none ↦ false | some t ↦ true ] ≡ true → is_set m ≡ true
    waits none h = h
    waits (some t) h = h
