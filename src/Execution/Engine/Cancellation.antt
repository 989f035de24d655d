-- ===== src/Execution/Engine/Cancellation.antt =====
-- What the cancellation of a job does, and what becomes of a cancelled job.
use yasin_core.Prelude.{
  ℕ, String, ◌≡◌, refl, ◌∙◌, true, false, not, some, [], ◌∷◌, ◌++◌, arith, if◌then◌else◌, eqb,
  Bool-cases, inl, inr,
}
use yasin_core.Dict
use yasin_core.Execution.{completed, cancelled, is_final, cancel, Value, job_event}
use yasin_core.Execution.System.{System, publish_job, modify}
use yasin_core.Execution.Workers.Reports.{Outcome, returns}
use yasin_core.Execution.Engine.{cancel_job, begin_job, finish_job, process_job}

cancel_job-refused :
    (job_id : String) (now ref : ℕ) (s : System)
    → Dict.get s.jobs job_id ≡ some ref
    → is_final (s.heap ref).status ≡ true
    → cancel_job job_id now s ≡ (modify ref (λ job. job) s, false)
unfolding cancel_job cancel
cancel_job-refused job_id now ref s h e = rw (h, cancel_job) (rw (e, cancel))

cancel_job-granted :
    (job_id : String) (now ref : ℕ) (s : System)
    → Dict.get s.jobs job_id ≡ some ref
    → is_final (s.heap ref).status ≡ false
    → cancel_job job_id now s ≡ (
      publish_job "job_cancelled" ref (
          modify ref
            (λ job. record job { cancelled = true; status = cancelled; completed_at = some now })
            s),
      true,
    )
unfolding cancel_job cancel
cancel_job-granted job_id now ref s h e = rw (h, cancel_job) (rw (e, cancel))

-- `cancel_job` of a known job succeeds exactly if the job has not ended. It is then cancelled,
-- with the flag that the workers read, and the event is published; otherwise nothing is published
-- and the job is as it was. No other job, the queue and the registry change.
pub cancel_job-effect :
    (job_id : String) (now ref : ℕ) (s : System)
    → Dict.get s.jobs job_id ≡ some ref
    → let (s', success) = cancel_job job_id now s in
      (success ≡ not (is_final (s.heap ref).status))
      × (s'.heap ref ≡ (
          if success
          then record (s.heap ref) { cancelled = true; status = cancelled; completed_at = some now }
          else s.heap ref))
      × (s'.published ≡ (
          if success
          then s.published ++ job_event "job_cancelled" (s.heap ref).id cancelled ∷ []
          else s.published))
      × ((r : ℕ) → eqb r ref ≡ false → s'.heap r ≡ s.heap r)
      × (s'.queue ≡ s.queue)
      × (s'.jobs ≡ s.jobs)
unfolding cancel_job cancel
cancel_job-effect job_id now ref s h = elim (Bool-cases (is_final (s.heap ref).status)) [
  | inl e ↦
      rw (cancel_job-refused job_id now ref s h e, e)
        (refl, ground arith, refl, λ r. ground arith, refl, refl)
  | inr e ↦
      rw (cancel_job-granted job_id now ref s h e, e)
        (refl, ground arith, ground arith, λ r. ground arith, refl, refl)
]

process_job-skipped :
    (ref : ℕ) (outcome : Outcome) (now : ℕ) (s : System)
    → (s.heap ref).cancelled ≡ true
    → process_job ref outcome now s
      ≡ publish_job "job_cancelled" ref
          (modify ref (λ job. record job { status = cancelled; completed_at = some now }) s)
unfolding process_job begin_job
process_job-skipped ref outcome now s e = rw (e, process_job, begin_job) refl

skipped :
    (ref : ℕ) (outcome : Outcome) (now : ℕ) (s : System)
    → (s.heap ref).cancelled ≡ true
    → let s' = process_job ref outcome now s in
      ((s'.heap ref).status ≡ cancelled)
      × ((s'.heap ref).result ≡ (s.heap ref).result)
      × ((s'.heap ref).error ≡ (s.heap ref).error)
      × ((s'.heap ref).retry_count ≡ (s.heap ref).retry_count)
      × (s'.queue ≡ s.queue)
      × (s'.saved ≡ s.saved)
skipped ref outcome now s e =
    rw (process_job-skipped ref outcome now s e)
      (ground arith, ground arith, ground arith, ground arith, refl, refl)

-- A known job that `cancel_job` cancelled before a worker takes it stays cancelled, whatever its
-- target would have done: the worker does not queue it again or save it, and its result, its error
-- and its number of retries are as before.
pub process_job-cancelled :
    (job_id : String) (t now ref : ℕ) (outcome : Outcome) (s : System)
    → Dict.get s.jobs job_id ≡ some ref
    → (cancel_job job_id t s).1 ≡ true
    → let s' = process_job ref outcome now (cancel_job job_id t s).0 in
      ((s'.heap ref).status ≡ cancelled)
      × ((s'.heap ref).result ≡ (s.heap ref).result)
      × ((s'.heap ref).error ≡ (s.heap ref).error)
      × ((s'.heap ref).retry_count ≡ (s.heap ref).retry_count)
      × (s'.queue ≡ s.queue)
      × (s'.saved ≡ s.saved)
process_job-cancelled job_id t now ref outcome s h ok =
    elim (Bool-cases (is_final (s.heap ref).status)) [
      | inl e ↦ absurd (ground (arith, cancel_job-refused job_id t ref s h e, ok))
      | inr e ↦
          let g = cancel_job-granted job_id t ref s h e in
          let (status, result, error, retry_count, queue, saved) =
            skipped ref outcome now (cancel_job job_id t s).0 (rw g (ground arith)) in
          (
            status,
            result ∙ rw g (ground arith),
            error ∙ rw g (ground arith),
            retry_count ∙ rw g (ground arith),
            queue ∙ rw g refl,
            saved ∙ rw g refl,
          )
    ]

-- A known job that a worker has started, cancelled while its target runs: `cancel_job` succeeds
-- and the job is cancelled, but when the target returns the worker sets the job to completed, with
-- the target's value.
pub cancel_job-overridden :
    (job_id : String) (t0 t1 t2 ref : ℕ) (v : Value) (s : System)
    → Dict.get s.jobs job_id ≡ some ref
    → (begin_job ref t0 s).1 ≡ true
    → let (s1, success) = cancel_job job_id t1 (begin_job ref t0 s).0 in
      let s2 = finish_job ref (returns v) t2 s1 in
      (success ≡ true)
      × ((s1.heap ref).status ≡ cancelled)
      × ((s2.heap ref).status ≡ completed)
      × ((s2.heap ref).result ≡ v)
unfolding cancel_job cancel begin_job finish_job
cancel_job-overridden job_id t0 t1 t2 ref v s h started =
    let e : is_final ((begin_job ref t0 s).0.heap ref).status ≡ false = ground (arith, started) in
    let known : Dict.get (begin_job ref t0 s).0.jobs job_id ≡ some ref =
      ground (arith, started, h) in
    rw (cancel_job-granted job_id t1 ref (begin_job ref t0 s).0 known e)
      (refl, ground arith, ground arith, ground arith)
