-- ===== src/Scheduler/Limits.antt =====
-- `max_runs` and the count of a job's runs.
use yasin_core.Prelude.{
  ℕ, ◌+◌, ◌<◌, ◌≡◌, refl, subst, String, Bool, true, false, not, ◌||◌, Option, none, some, [], ◌∷◌,
  if◌then◌else◌, leb, eqb, ◌==◌, Bool-cases, inl, inr, arith,
}
use yasin_core.Dict
use yasin_core.Dict.{Dict}
use yasin_core.Scheduler.{
  Environment, ScheduledJob, Request, is_exhausted, make_scheduled_job, calculate_next_run,
  with_next_run, attributes, with_time, next_time, or_text,
}
use yasin_core.Scheduler.Saving.{SavedJob, to_dict}
use yasin_core.Scheduler.Registry.{
  Scheduler, assign, add_job, awaits_run, has_next, serialize_active, save_schedule, live_entries,
  publish_schedule,
}

-- run_count <= max_runs
abbrev pub is_within : Option ℕ → ℕ → Bool
is_within none n = true
is_within (some m) n = leb n m

abbrev pub is_set : Option ℕ → Bool
is_set none = false
is_set (some t) = true

-- A job that waits for a run has one left.
abbrev pub Limited : Option ℕ → ℕ → Option ℕ → Type 0
Limited max_runs run_count next_run_time =
    (is_within max_runs run_count ≡ true)
    × (is_set next_run_time ≡ true → is_exhausted max_runs run_count ≡ false)

abbrev pub IsLimited : ScheduledJob → Type 0
IsLimited job = Limited job.max_runs job.run_count job.next_run_time

abbrev pub AreSaved : Dict SavedJob → Type 0
AreSaved [] = Unit
AreSaved ((jid, d) ∷ saved) = Limited d.max_runs d.run_count d.next_run_time × AreSaved saved

abbrev pub StoredLimited : Option (Dict SavedJob) → Type 0
StoredLimited none = Unit
StoredLimited (some saved) = AreSaved saved

abbrev pub uses : Dict ℕ → ℕ → Bool
uses [] r = false
uses ((jid, ref) ∷ jobs) r = eqb ref r || uses jobs r

-- The entries' references are below `n`, differ from each other, and their jobs are within their limits.
abbrev pub AreSound : (ℕ → ScheduledJob) → ℕ → Dict ℕ → Type 0
AreSound heap n [] = Unit
AreSound heap n ((jid, ref) ∷ jobs) =
    (ref < n) × (uses jobs ref ≡ false) × IsLimited (heap ref) × AreSound heap n jobs

pub record IsSound (s : Scheduler) : Type 0 where
  pub jobs_sound : AreSound s.heap s.fresh s.jobs
  pub stored_limited : StoredLimited s.stored

-- The result, where there is one.
abbrev pub Gives : Option ScheduledJob → Type 0
Gives none = Unit
Gives (some job) = IsLimited job

with_time-Gives :
    (job : ScheduledJob) (t : Option (Option ℕ))
    → is_within job.max_runs job.run_count ≡ true
    → is_exhausted job.max_runs job.run_count ≡ false
    → Gives (with_time job t)
with_time-Gives job none h l = tt
with_time-Gives job (some t) h l = (h, λ _. l)

stopped-Gives :
    (job : ScheduledJob)
    → is_within job.max_runs job.run_count ≡ true
    → IsLimited (record job { next_run_time = none })
stopped-Gives job h = (h, λ e. absurd (cc))

pub calculate_next_run-Gives :
    (env : Environment) (now : ℕ) (job : ScheduledJob)
    → is_within job.max_runs job.run_count ≡ true
    → Gives (calculate_next_run env now job)
unfolding calculate_next_run
calculate_next_run-Gives env now job h = choose (next_time env now job) job.cancelled
  where
    choose :
        (t : Option (Option ℕ)) (c : Bool)
        → Gives (
            if c
            then some (record job { next_run_time = none })
            else if is_exhausted job.max_runs job.run_count
            then some (record job { next_run_time = none })
            else with_time job t)
    choose t true = stopped-Gives job h
    choose t false = elim (Bool-cases (is_exhausted job.max_runs job.run_count)) [
      | inl e ↦ rw e (stopped-Gives job h)
      | inr e ↦ rw e (with_time-Gives job t h e)
    ]

pub calculate_next_run-IsLimited :
    (env : Environment) (now : ℕ) (job job' : ScheduledJob)
    → is_within job.max_runs job.run_count ≡ true
    → calculate_next_run env now job ≡ some job'
    → IsLimited job'
unfolding calculate_next_run
calculate_next_run-IsLimited env now job job' h e =
    subst Gives e (calculate_next_run-Gives env now job h)

with_next_run-Gives :
    (env : Environment) (now : ℕ) (next : Option ℕ) (job : ScheduledJob)
    → Limited job.max_runs job.run_count next
    → Gives (with_next_run env now next job)
with_next_run-Gives env now (some t) job h = h
with_next_run-Gives env now none job h = calculate_next_run-Gives env now job h.0

pub make_scheduled_job-Gives :
    (env : Environment) (now : ℕ) (fresh_id : String) (r : Request)
    → Limited r.max_runs r.run_count r.next_run_time
    → Gives (make_scheduled_job env now fresh_id r)
unfolding make_scheduled_job
make_scheduled_job-Gives env now fresh_id r h =
    with_next_run-Gives env now r.next_run_time (attributes now (or_text r.id fresh_id) r) h

serialize_active-AreSaved :
    (env : Environment) (heap : ℕ → ScheduledJob) (n : ℕ) (jobs : Dict ℕ)
    → AreSound heap n jobs
    → AreSaved (serialize_active env heap jobs)
unfolding serialize_active to_dict
serialize_active-AreSaved env heap n [] h = tt
serialize_active-AreSaved env heap n ((jid, ref) ∷ jobs) h =
    elim (Bool-cases (awaits_run (heap ref))) [
      | inl a ↦ rw a (h.2, serialize_active-AreSaved env heap n jobs h.3)
      | inr a ↦ rw a (serialize_active-AreSaved env heap n jobs h.3)
    ]

uses-put :
    (d : Dict ℕ) (k : String) (n r : ℕ)
    → uses d r ≡ false
    → eqb n r ≡ false
    → uses (Dict.put d k n) r ≡ false
unfolding Dict.put
uses-put [] k n r h l = ground (arith, l)
uses-put ((j, ref) ∷ d) k n r h l = ground (arith, uses-put d k n r, h, l)

uses-remove :
    (d : Dict ℕ) (k : String) (r : ℕ) → uses d r ≡ false → uses (Dict.remove d k) r ≡ false
unfolding Dict.remove
uses-remove [] k r h = refl
uses-remove ((j, ref) ∷ d) k r h = ground (arith, uses-remove d k r, h)

uses-live_entries :
    (heap : ℕ → ScheduledJob) (d : Dict ℕ) (r : ℕ)
    → uses d r ≡ false
    → uses (live_entries heap d) r ≡ false
unfolding live_entries
uses-live_entries heap [] r h = refl
uses-live_entries heap ((j, ref) ∷ d) r h = ground (arith, uses-live_entries heap d r, h)

-- What each change of the registry keeps.
pub AreSound-assign :
    (heap : ℕ → ScheduledJob) (n ref : ℕ) (job : ScheduledJob) (d : Dict ℕ)
    → IsLimited job
    → AreSound heap n d
    → AreSound (assign heap ref job) n d
AreSound-assign heap n ref job [] l h = tt
AreSound-assign heap n ref job ((jid, r) ∷ d) l h =
    (h.0, h.1, assigned, AreSound-assign heap n ref job d l h.3)
  where
    assigned : IsLimited (assign heap ref job r)
    assigned = elim (Bool-cases (eqb r ref)) [ inl e ↦ rw e l | inr e ↦ rw e h.2 ]

pub AreSound-fresh :
    (heap : ℕ → ScheduledJob) (n : ℕ) (d : Dict ℕ) → AreSound heap n d → AreSound heap (n + 1) d
AreSound-fresh heap n [] h = tt
AreSound-fresh heap n ((jid, r) ∷ d) h = (omega (arith, h.0), h.1, h.2, AreSound-fresh heap n d h.3)

below_unused : (heap : ℕ → ScheduledJob) (n : ℕ) (d : Dict ℕ) → AreSound heap n d → uses d n ≡ false
below_unused heap n [] h = refl
below_unused heap n ((jid, r) ∷ d) h = ground (arith, h.0, below_unused heap n d h.3)

AreSound-put :
    (heap : ℕ → ScheduledJob) (n : ℕ) (d : Dict ℕ) (k : String)
    → IsLimited (heap n)
    → AreSound heap n d
    → AreSound heap (n + 1) (Dict.put d k n)
unfolding Dict.put
AreSound-put heap n [] k l h = (omega arith, refl, l, tt)
AreSound-put heap n ((j, r) ∷ d) k l h = elim (Bool-cases (j == k)) [
  | inl e ↦ rw e (omega arith, below_unused heap n d h.3, l, AreSound-fresh heap n d h.3)
  | inr e ↦ rw e (
    omega (arith, h.0),
    uses-put d k n r h.1 (ground (arith, h.0)),
    h.2,
    AreSound-put heap n d k l h.3,
  )
]

pub AreSound-remove :
    (heap : ℕ → ScheduledJob) (n : ℕ) (d : Dict ℕ) (k : String)
    → AreSound heap n d
    → AreSound heap n (Dict.remove d k)
unfolding Dict.remove
AreSound-remove heap n [] k h = tt
AreSound-remove heap n ((j, r) ∷ d) k h = elim (Bool-cases (j == k)) [
  | inl e ↦ rw e (AreSound-remove heap n d k h.3)
  | inr e ↦ rw e (h.0, uses-remove d k r h.1, h.2, AreSound-remove heap n d k h.3)
]

pub AreSound-live_entries :
    (heap : ℕ → ScheduledJob) (n : ℕ) (d : Dict ℕ)
    → AreSound heap n d
    → AreSound heap n (live_entries heap d)
unfolding live_entries
AreSound-live_entries heap n [] h = tt
AreSound-live_entries heap n ((j, r) ∷ d) h =
    elim (Bool-cases ((heap r).cancelled || not (has_next (heap r)))) [
      | inl e ↦ rw e (AreSound-live_entries heap n d h.3)
      | inr e ↦ rw e (h.0, uses-live_entries heap d r h.1, h.2, AreSound-live_entries heap n d h.3)
    ]

pub add_job-IsSound :
    (job : ScheduledJob) (s : Scheduler) → IsLimited job → IsSound s → IsSound (add_job job s)
add_job-IsSound job s l i = record {
  jobs_sound =
      AreSound-put (assign s.heap s.fresh job) s.fresh s.jobs job.id own
        (AreSound-assign s.heap s.fresh s.fresh job s.jobs l i.jobs_sound);
  stored_limited = i.stored_limited;
}
  where
    own : IsLimited (assign s.heap s.fresh job s.fresh)
    own = ground (arith, l)

pub save_schedule-IsSound :
    (env : Environment) (s : Scheduler)
    → AreSound s.heap s.fresh s.jobs
    → IsSound (save_schedule env s)
unfolding save_schedule
save_schedule-IsSound env s h = record {
  jobs_sound = h;
  stored_limited = serialize_active-AreSaved env s.heap s.fresh s.jobs h;
}

pub publish_schedule-IsSound :
    (env : Environment) (name : String) (ref : ℕ) (s : Scheduler)
    → IsSound s
    → IsSound (publish_schedule env name ref s)
publish_schedule-IsSound env name ref s i = record {
  jobs_sound = i.jobs_sound;
  stored_limited = i.stored_limited;
}
