-- ===== src/Scheduler/Due.antt =====
-- Which jobs a tick runs.
use yasin_core.Prelude.{
  ℕ, ◌+◌, ◌≤◌, ◌≡◌, refl, ap, ◌∙◌, sym, subst, Bool, true, false, ◌&&◌, none, some, List, [], ◌∷◌,
  if◌then◌else◌, eqb, length, ◌≢◌, Bool-cases, inl, inr, arith,
}
use yasin_core.Cron.{contains}
use yasin_core.Dict.{Dict}
use yasin_core.Execution.System.{System}
use yasin_core.Execution.Engine.{create_job}
use yasin_core.Scheduler.{Environment, ScheduledJob, calculate_next_run}
use yasin_core.Scheduler.Registry.{Scheduler, save_schedule}
use yasin_core.Scheduler.Ticks.{
  is_triggered, triggered_jobs, submit_scheduled, count_run, trigger_job, trigger_all, tick,
}
use yasin_core.Scheduler.Limits.{uses}

-- No job object stands under two identifiers.
abbrev pub AreDistinct : Dict ℕ → Type 0
AreDistinct [] = Unit
AreDistinct ((jid, ref) ∷ jobs) = (uses jobs ref ≡ false) × AreDistinct jobs

abbrev DifferList : List ℕ → Type 0
DifferList [] = Unit
DifferList (r ∷ rs) = (contains r rs ≡ false) × DifferList rs

contains-triggered_jobs :
    (heap : ℕ → ScheduledJob) (jobs : Dict ℕ) (now r : ℕ)
    → contains r (triggered_jobs heap jobs now) ≡ (uses jobs r && is_triggered (heap r) now)
unfolding contains triggered_jobs
contains-triggered_jobs heap [] now r = refl
contains-triggered_jobs heap ((j, ref) ∷ d) now r = elim (Bool-cases (eqb ref r)) [
  | inl e ↦
      subst
        (λ (x : ℕ).
          contains x (triggered_jobs heap ((j, ref) ∷ d) now)
          ≡ (uses ((j, ref) ∷ d) x && is_triggered (heap x) now))
        (ground (arith, e)) (own (contains-triggered_jobs heap d now ref))
  | inr e ↦ elim (Bool-cases (is_triggered (heap ref) now)) [
    | inl f ↦ rw (f, e, contains-triggered_jobs heap d now r) (ground arith)
    | inr f ↦ rw (f, e, contains-triggered_jobs heap d now r) refl
  ]
]
  where
    own :
        contains ref (triggered_jobs heap d now) ≡ (uses d ref && is_triggered (heap ref) now)
        → contains ref (triggered_jobs heap ((j, ref) ∷ d) now)
          ≡ (uses ((j, ref) ∷ d) ref && is_triggered (heap ref) now)
    own ih = elim (Bool-cases (is_triggered (heap ref) now)) [
      | inl f ↦ rw f (ground arith)
      | inr f ↦ rw (f, ih, f) (ground arith)
    ]

triggered_jobs-DifferList :
    (heap : ℕ → ScheduledJob) (jobs : Dict ℕ) (now : ℕ)
    → AreDistinct jobs
    → DifferList (triggered_jobs heap jobs now)
unfolding triggered_jobs
triggered_jobs-DifferList heap [] now h = tt
triggered_jobs-DifferList heap ((j, ref) ∷ d) now h =
    elim (Bool-cases (is_triggered (heap ref) now)) [
      | inl e ↦ rw e (
        contains-triggered_jobs heap d now ref ∙ rw h.0 refl,
        triggered_jobs-DifferList heap d now h.1,
      )
      | inr e ↦ rw e (triggered_jobs-DifferList heap d now h.1)
    ]

-- The engine after these jobs were created there, one after the other, with new identifiers; `fresh`
-- is the number of the first one.
abbrev pub create_each : Environment → ℕ → (ℕ → ScheduledJob) → List ℕ → ℕ → System → System
create_each env now jobs [] fresh engine = engine
create_each env now jobs (ref ∷ refs) fresh engine =
    let job = jobs ref in
    create_each env now jobs refs (fresh + 1) (
      create_job fresh (env.uuid fresh) job.name job.target job.args job.kwargs job.priority
        job.retries job.timeout now none engine)

create_each-agree :
    (env : Environment) (now : ℕ) (jobs jobs' : ℕ → ScheduledJob) (rs : List ℕ) (fresh : ℕ)
    (engine : System)
    → ((r : ℕ) → contains r rs ≡ true → jobs r ≡ jobs' r)
    → create_each env now jobs rs fresh engine ≡ create_each env now jobs' rs fresh engine
unfolding contains
create_each-agree env now jobs jobs' [] fresh engine h = refl
create_each-agree env now jobs jobs' (ref ∷ rs) fresh engine h =
    rw (h ref (ground arith))
      (create_each-agree env now jobs jobs' rs (fresh + 1) _ (λ r e. h r (ground (arith, e))))

-- The effect of one run that does not raise.
trigger_job-returns :
    (env : Environment) (now ref : ℕ) (s : Scheduler) (next : ScheduledJob)
    → calculate_next_run env now (count_run now (s.heap ref)) ≡ some next
    → ((trigger_job env now ref s).1 ≡ true)
      × ((trigger_job env now ref s).0.total_triggers ≡ s.total_triggers + 1)
      × ((r : ℕ) → (trigger_job env now ref s).0.heap r ≡ (if eqb r ref then next else s.heap r))
      × ((trigger_job env now ref s).0.fresh ≡ s.fresh + 1)
      × ((trigger_job env now ref s).0.execution
          ≡ create_each env now s.heap (ref ∷ []) s.fresh s.execution)
unfolding trigger_job save_schedule submit_scheduled create_job
trigger_job-returns env now ref s next h = rw (h, trigger_job) (refl, refl, λ r. refl, refl, refl)

trigger_all-exact :
    (env : Environment) (now : ℕ) (next : ℕ → ScheduledJob) (rs : List ℕ) (s : Scheduler)
    → DifferList rs
    → ((r : ℕ)
        → contains r rs ≡ true
        → calculate_next_run env now (count_run now (s.heap r)) ≡ some (next r))
    → ((trigger_all env now rs s).1 ≡ true)
      × ((trigger_all env now rs s).0.total_triggers ≡ s.total_triggers + length rs)
      × ((r : ℕ)
          → (trigger_all env now rs s).0.heap r ≡ (if contains r rs then next r else s.heap r))
      × ((trigger_all env now rs s).0.execution ≡ create_each env now s.heap rs s.fresh s.execution)
unfolding trigger_all contains
trigger_all-exact env now next [] s d h = (refl, omega arith, λ r. refl, refl)
trigger_all-exact env now next (ref ∷ rs) s d h =
    let s' = (trigger_job env now ref s).0 in
    let (returned, count, effect, fresh, engine) =
      trigger_job-returns env now ref s (next ref) (h ref (ground arith)) in
    let rest = trigger_all-exact env now next rs s' d.1 (λ r e.
      rw (effect r) (elim (Bool-cases (eqb r ref)) [
        | inl f ↦ absurd (ground (arith, e, f, d.0))
        | inr f ↦ rw f (h r (ground (arith, e)))
      ])) in
    let others = create_each-agree env now s'.heap s.heap rs s'.fresh s'.execution (λ r e.
      effect r ∙ elim (Bool-cases (eqb r ref)) [
        | inl f ↦ absurd (ground (arith, e, f, d.0))
        | inr f ↦ rw f refl
      ]) in
    rw returned (
      rest.0,
      omega (arith, rest.1, count),
      λ r. ground (arith, rest.2 r, effect r, d.0),
      rest.3 ∙ others ∙ rw (fresh, engine) refl,
    )

-- Where no job stands under two identifiers and the next time can be computed of each job that is due,
-- because it waits for a time that has passed, a tick runs exactly these jobs: it returns, the engine
-- is as after the creation of an execution job from each of them in the order of the dict, with the
-- attributes that they had before the tick, the triggers are counted, each due job is counted as run at
-- this time and waits for the next one, and every other scheduled job is as it was.
pub tick-exact :
    (env : Environment) (now : ℕ) (next : ℕ → ScheduledJob) (s : Scheduler)
    → AreDistinct s.jobs
    → ((r : ℕ)
        → (uses s.jobs r && is_triggered (s.heap r) now) ≡ true
        → calculate_next_run env now (count_run now (s.heap r)) ≡ some (next r))
    → ((tick env now s).1 ≡ true)
      × ((tick env now s).0.total_triggers
          ≡ s.total_triggers + length (triggered_jobs s.heap s.jobs now))
      × ((r : ℕ)
          → (tick env now s).0.heap r
            ≡ (if uses s.jobs r && is_triggered (s.heap r) now then next r else s.heap r))
      × ((tick env now s).0.execution
          ≡ create_each env now s.heap (triggered_jobs s.heap s.jobs now) s.fresh s.execution)
unfolding tick
tick-exact env now next s d h =
    let due = contains-triggered_jobs s.heap s.jobs now in
    let all =
      trigger_all-exact env now next (triggered_jobs s.heap s.jobs now) s
        (triggered_jobs-DifferList s.heap s.jobs now d) (λ r e. h r (sym (due r) ∙ e)) in
    (all.0, all.1, λ r. all.2 r ∙ ap (λ (b : Bool). if b then next r else s.heap r) (due r), all.3)

head_is_triggered :
    (heap : ℕ → ScheduledJob) (jobs : Dict ℕ) (now ref : ℕ) (rest : List ℕ)
    → triggered_jobs heap jobs now ≡ ref ∷ rest
    → is_triggered (heap ref) now ≡ true
unfolding contains
head_is_triggered heap jobs now ref rest e =
    ground (arith, contains-triggered_jobs heap jobs now ref, ap (contains ref) e)

-- A job whose next time cannot be computed ends a tick, and stays due: if it stands first among the
-- due jobs, the tick raises, the engine is as after the creation of an execution job from this job
-- alone, the job is counted as run but is due again at every later time, no trigger is counted, and no
-- other scheduled job, due or not, is changed.
pub tick-raises :
    (env : Environment) (now later ref : ℕ) (rest : List ℕ) (s : Scheduler)
    → triggered_jobs s.heap s.jobs now ≡ ref ∷ rest
    → calculate_next_run env now (count_run now (s.heap ref)) ≡ none
    → now ≤ later
    → let s' = (tick env now s).0 in
      ((tick env now s).1 ≡ false)
      × ((s'.heap ref).run_count ≡ (s.heap ref).run_count + 1)
      × (is_triggered (s'.heap ref) later ≡ true)
      × (s'.total_triggers ≡ s.total_triggers)
      × ((r : ℕ) → r ≢ ref → s'.heap r ≡ s.heap r)
      × (s'.execution ≡ create_each env now s.heap (ref ∷ []) s.fresh s.execution)
unfolding tick trigger_all trigger_job submit_scheduled create_job
tick-raises env now later ref rest s e h l =
    let due = head_is_triggered s.heap s.jobs now ref rest e in
    rw (e, trigger_all, trigger_job, h)
      (refl, ground arith, ground (arith, due, l), refl, λ r n. ground (arith, n), refl)
