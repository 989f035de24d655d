-- ===== src/Scheduler/Changes.antt =====
-- The registry's operations keep the run count of each job within its `max_runs`.
use yasin_core.Prelude.{
  ℕ, ◌≡◌, refl, subst, String, true, Option, none, some, [], ◌∷◌, ◌==◌, Bool-cases, inl, inr, arith,
}
use yasin_core.Dict
use yasin_core.Dict.{Dict}
use yasin_core.Scheduler.{Environment, ScheduledJob, Request, make_scheduled_job, cancel_schedule}
use yasin_core.Scheduler.Saving.{SavedJob, from_dict}
use yasin_core.Scheduler.Registry.{
  Scheduler, assign, add_job, add_loaded, save_schedule, schedule_job, unschedule_job,
  clear_finished_jobs, load_jobs, load_schedule, register_job, unschedule_found, load_saved,
  fresh_request, live_entries,
}
use yasin_core.Scheduler.Limits.{
  is_within, IsLimited, Gives, AreSaved, StoredLimited, AreSound, IsSound, make_scheduled_job-Gives,
  AreSound-assign, AreSound-remove, AreSound-live_entries, add_job-IsSound, save_schedule-IsSound,
  publish_schedule-IsSound,
}

register_job-IsSound :
    (env : Environment) (m : Option ScheduledJob) (s : Scheduler)
    → Gives m
    → IsSound s
    → IsSound (register_job env m s).0
register_job-IsSound env none s l i = i
register_job-IsSound env (some job) s l i =
    publish_schedule-IsSound env "job_scheduled" s.fresh (save_schedule env (add_job job s))
      (save_schedule-IsSound env (add_job job s) (add_job-IsSound job s l i).jobs_sound)

unrun : (m : Option ℕ) → is_within m 0 ≡ true
unrun none = refl
unrun (some n) = ground arith

pub schedule_job-IsSound :
    (env : Environment) (now : ℕ) (r : Request) (s : Scheduler)
    → IsSound s
    → IsSound (schedule_job env now r s).0
unfolding schedule_job
schedule_job-IsSound env now r s i =
    register_job-IsSound env (make_scheduled_job env now (env.uuid s.fresh) (fresh_request r)) s
      (make_scheduled_job-Gives env now (env.uuid s.fresh) (fresh_request r)
        (unrun r.max_runs, λ e. absurd (cc)))
      i

pub AreSound-get :
    (heap : ℕ → ScheduledJob) (n : ℕ) (d : Dict ℕ) (k : String) (r : ℕ)
    → AreSound heap n d
    → Dict.get d k ≡ some r
    → IsLimited (heap r)
unfolding Dict.get
AreSound-get heap n [] k r h e = absurd (cc)
AreSound-get heap n ((j, ref) ∷ d) k r h e = elim (Bool-cases (j == k)) [
  | inl f ↦ subst (λ (x : ℕ). IsLimited (heap x)) (ground (arith, e, f)) h.2
  | inr f ↦ AreSound-get heap n d k r h.3 (ground (arith, e, f))
]

cancel_schedule-IsLimited : (job : ScheduledJob) → IsLimited job → IsLimited (cancel_schedule job)
unfolding cancel_schedule
cancel_schedule-IsLimited job h = (h.0, λ e. absurd (cc))

unschedule_found-IsSound :
    (env : Environment) (job_id : String) (m : Option ℕ) (s : Scheduler)
    → ((r : ℕ) → m ≡ some r → IsLimited (s.heap r))
    → IsSound s
    → IsSound (unschedule_found env job_id m s).0
unschedule_found-IsSound env job_id none s l i = i
unschedule_found-IsSound env job_id (some ref) s l i =
    let heap' = assign s.heap ref (cancel_schedule (s.heap ref)) in
    let s' : Scheduler = record s { heap = heap'; jobs = Dict.remove s.jobs job_id } in
    publish_schedule-IsSound env "job_unscheduled" ref (save_schedule env s') (
      save_schedule-IsSound env s' (
        AreSound-remove heap' s.fresh s.jobs job_id (
          AreSound-assign s.heap s.fresh ref (cancel_schedule (s.heap ref)) s.jobs
            (cancel_schedule-IsLimited (s.heap ref) (l ref refl)) i.jobs_sound)))

pub unschedule_job-IsSound :
    (env : Environment) (job_id : String) (s : Scheduler)
    → IsSound s
    → IsSound (unschedule_job env job_id s).0
unfolding unschedule_job
unschedule_job-IsSound env job_id s i =
    unschedule_found-IsSound env job_id (Dict.get s.jobs job_id) s
      (λ r e. AreSound-get s.heap s.fresh s.jobs job_id r i.jobs_sound e) i

pub clear_finished_jobs-IsSound :
    (env : Environment) (s : Scheduler) → IsSound s → IsSound (clear_finished_jobs env s)
unfolding clear_finished_jobs
clear_finished_jobs-IsSound env s i =
    save_schedule-IsSound env (record s { jobs = live_entries s.heap s.jobs })
      (AreSound-live_entries s.heap s.fresh s.jobs i.jobs_sound)

add_loaded-IsSound :
    (m : Option ScheduledJob) (s : Scheduler) → Gives m → IsSound s → IsSound (add_loaded m s)
add_loaded-IsSound none s l i = i
add_loaded-IsSound (some job) s l i = add_job-IsSound job s l i

load_jobs-IsSound :
    (env : Environment) (now : ℕ) (saved : Dict SavedJob) (s : Scheduler)
    → AreSaved saved
    → IsSound s
    → IsSound (load_jobs env now saved s)
unfolding load_jobs from_dict
load_jobs-IsSound env now [] s l i = i
load_jobs-IsSound env now ((jid, d) ∷ saved) s l i =
    let made = make_scheduled_job env now (env.uuid s.fresh) (from_dict env d) in
    load_jobs-IsSound env now saved (add_loaded made s) l.1 (
      add_loaded-IsSound made s
        (make_scheduled_job-Gives env now (env.uuid s.fresh) (from_dict env d) l.0) i)

load_saved-IsSound :
    (env : Environment) (now : ℕ) (m : Option (Dict SavedJob)) (s : Scheduler)
    → StoredLimited m
    → IsSound s
    → IsSound (load_saved env now m s)
load_saved-IsSound env now none s l i = i
load_saved-IsSound env now (some saved) s l i = load_jobs-IsSound env now saved s l i

pub load_schedule-IsSound :
    (env : Environment) (now : ℕ) (s : Scheduler) → IsSound s → IsSound (load_schedule env now s)
unfolding load_schedule
load_schedule-IsSound env now s i = load_saved-IsSound env now s.stored s i.stored_limited i
