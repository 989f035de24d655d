-- ===== src/Scheduler/Restore.antt =====
-- The schedule that is saved, and loaded again.
use yasin_core.Prelude.{
  ℕ, ◌<◌, ◌≡◌, ◌≢◌, refl, ap, ◌∙◌, sym, String, Bool, true, false, Option, none, some, [], ◌∷◌,
  if◌then◌else◌, ◌==◌, eq_iff, Bool-cases, inl, inr, arith,
}
use yasin_core.Dict
use yasin_core.Dict.{Dict, get-put, get-absent}
use yasin_core.Scheduler.{Environment, ScheduledJob, make_scheduled_job}
use yasin_core.Scheduler.Saving.{to_dict, from_dict, serialize_target, deserialize_target}
use yasin_core.Scheduler.Registry.{
  Scheduler, assign, add_job, awaits_run, serialize_active, save_schedule, load_jobs, load_saved,
  load_schedule, get_scheduled_job,
}

-- What a job must have so that the constructor takes its attributes as they are.
pub record IsRestorable (env : Environment) (job : ScheduledJob) : Type 0 where
  pub id_given : job.id ≢ ""
  pub name_given : job.name ≢ ""
  pub created : 0 < job.created_at
  pub target_found : deserialize_target env (serialize_target env job.target) ≡ job.target

make_scheduled_job-to_dict :
    (env : Environment) (now : ℕ) (fresh_id : String) (job : ScheduledJob)
    → IsRestorable env job
    → awaits_run job ≡ true
    → make_scheduled_job env now fresh_id (from_dict env (to_dict env job)) ≡ some job
unfolding make_scheduled_job from_dict to_dict
make_scheduled_job-to_dict env now fresh_id job r h = ground (
  arith,
  eq_iff job.id "",
  eq_iff job.name "",
  r.id_given,
  r.name_given,
  r.created,
  r.target_found,
  h,
)

-- The job object of an identifier.
abbrev pub job_at : Option ℕ → (ℕ → ScheduledJob) → Option ScheduledJob
job_at none heap = none
job_at (some ref) heap = some (heap ref)

abbrev pub scheduled : String → Scheduler → Option ScheduledJob
scheduled job_id s = job_at (get_scheduled_job job_id s) s.heap

abbrev pub if_active : Option ScheduledJob → Option ScheduledJob
if_active none = none
if_active (some job) = if awaits_run job then some job else none

-- Every entry stands under its job's identifier, no identifier twice, and can be restored.
abbrev pub AreRestorable : Environment → (ℕ → ScheduledJob) → Dict ℕ → Type 0
AreRestorable env heap [] = Unit
AreRestorable env heap ((jid, ref) ∷ jobs) =
    (jid ≡ (heap ref).id)
    × (Dict.has jobs jid ≡ false)
    × IsRestorable env (heap ref)
    × AreRestorable env heap jobs

abbrev or_kept : Option ScheduledJob → Option ScheduledJob → Option ScheduledJob
or_kept none otherwise = otherwise
or_kept (some job) otherwise = some job

-- The references of the entries are in use.
abbrev AreUsed : Scheduler → Type 0
AreUsed s = (job_id : String) (ref : ℕ) → Dict.get s.jobs job_id ≡ some ref → ref < s.fresh

job_at-assign :
    (m : Option ℕ) (heap : ℕ → ScheduledJob) (n : ℕ) (job : ScheduledJob)
    → ((r : ℕ) → m ≡ some r → r < n)
    → job_at m (assign heap n job) ≡ job_at m heap
job_at-assign none heap n job h = refl
job_at-assign (some r) heap n job h = ground (arith, h r refl)

scheduled-add_job :
    (job : ScheduledJob) (s : Scheduler) (job_id : String)
    → AreUsed s
    → scheduled job_id (add_job job s) ≡ (if job.id == job_id then some job else scheduled job_id s)
unfolding get_scheduled_job
scheduled-add_job job s job_id used = elim (Bool-cases (job.id == job_id)) [
  | inl e ↦ rw (get-put s.jobs job.id job_id s.fresh, e) (ground arith)
  | inr e ↦
      rw (get-put s.jobs job.id job_id s.fresh, e)
        (job_at-assign (Dict.get s.jobs job_id) s.heap s.fresh job (used job_id))
]

add_job-AreUsed : (job : ScheduledJob) (s : Scheduler) → AreUsed s → AreUsed (add_job job s)
add_job-AreUsed job s used job_id ref h =
    ground (arith, get-put s.jobs job.id job_id s.fresh, used job_id ref, h)

abbrev active_at : (ℕ → ScheduledJob) → Dict ℕ → String → Option ScheduledJob
active_at heap jobs job_id = if_active (job_at (Dict.get jobs job_id) heap)

absent_at :
    (heap : ℕ → ScheduledJob) (jobs : Dict ℕ) (jid job_id : String)
    → Dict.has jobs jid ≡ false
    → (jid == job_id) ≡ true
    → active_at heap jobs job_id ≡ none
absent_at heap jobs jid job_id new e =
    rw (get-absent jobs job_id (ground (arith, eq_iff jid job_id, new, e))) refl

-- The jobs that are loaded come before those that were there.
load_jobs-serialize_active :
    (env : Environment) (now : ℕ) (heap : ℕ → ScheduledJob) (jobs : Dict ℕ) (s : Scheduler)
    (job_id : String)
    → AreRestorable env heap jobs
    → AreUsed s
    → scheduled job_id (load_jobs env now (serialize_active env heap jobs) s)
      ≡ or_kept (active_at heap jobs job_id) (scheduled job_id s)
unfolding load_jobs serialize_active Dict.get
load_jobs-serialize_active env now heap [] s job_id h used = refl
load_jobs-serialize_active env now heap ((jid, ref) ∷ jobs) s job_id (e, new, r, rest) used =
    let same_id : (b : Bool) → (jid == job_id) ≡ b → ((heap ref).id == job_id) ≡ b =
      λ b f. ap (λ (x : String). x == job_id) (sym e) ∙ f in
    elim (Bool-cases (awaits_run (heap ref))) [
      | inl a ↦
          rw
            (
              a,
              load_jobs,
              make_scheduled_job-to_dict env now (env.uuid s.fresh) (heap ref) r a,
              load_jobs-serialize_active env now heap jobs (add_job (heap ref) s) job_id rest
                  (add_job-AreUsed (heap ref) s used),
              scheduled-add_job (heap ref) s job_id used,
            )
            (elim (Bool-cases (jid == job_id)) [
              | inl f ↦ rw (f, same_id true f, absent_at heap jobs jid job_id new f, a) refl
              | inr f ↦ rw (f, same_id false f) refl
            ])
      | inr a ↦
          rw (a, load_jobs-serialize_active env now heap jobs s job_id rest used)
            (elim (Bool-cases (jid == job_id)) [
              | inl f ↦ rw (f, absent_at heap jobs jid job_id new f, a) refl
              | inr f ↦ rw f refl
            ])
    ]

or_kept-none : (m : Option ScheduledJob) → or_kept m none ≡ m
or_kept-none none = refl
or_kept-none (some job) = refl

unused : (s : Scheduler) → s.jobs ≡ [] → AreUsed s
unfolding Dict.get
unused s e job_id ref h = absurd (cc (ap (λ (d : Dict ℕ). Dict.get d job_id) e, h))

-- What `_save_schedule` writes, `_load_schedule` restores: a scheduler without jobs that reads the
-- schedule of another one has, under each identifier, the other's job with every attribute if that
-- job is neither cancelled nor finished, and no job otherwise. The condition: the other one's jobs stand
-- under their own identifiers, have a name and a creation time, and their callables can be imported.
pub load_schedule-save_schedule :
    (env : Environment) (now : ℕ) (s s' : Scheduler) (job_id : String)
    → AreRestorable env s.heap s.jobs
    → s'.jobs ≡ []
    → s'.stored ≡ (save_schedule env s).stored
    → scheduled job_id (load_schedule env now s') ≡ if_active (scheduled job_id s)
unfolding load_schedule save_schedule get_scheduled_job
load_schedule-save_schedule env now s s' job_id h none_yet read =
    ap (λ t. scheduled job_id (load_saved env now t s')) read
    ∙ load_jobs-serialize_active env now s.heap s.jobs s' job_id h (unused s' none_yet)
    ∙ ap
        (λ (d : Dict ℕ).
          or_kept (active_at s.heap s.jobs job_id) (job_at (Dict.get d job_id) s'.heap))
        none_yet
    ∙ or_kept-none (active_at s.heap s.jobs job_id)
