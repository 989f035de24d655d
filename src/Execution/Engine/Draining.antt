-- ===== src/Execution/Engine/Draining.antt =====
-- The workers come to an end: the attempts that the queued jobs have left bound the turns.
use yasin_core.Prelude.{
  ℕ, zero, suc, ◌+◌, ◌-◌, ◌≤◌, ◌<◌, String, ◌≡◌, refl, List, [], ◌∷◌, arith, ltb, Bool-cases,
  List-cases, inl, inr,
}
use yasin_core.Execution.{Job, Heap, write}
use yasin_core.Execution.Queue.{Item, insert, put, get_nowait, item_lt}
use yasin_core.Execution.System.{System}
use yasin_core.Execution.Workers.Reports.{Outcome, returns, raises}
use yasin_core.Execution.Engine.{begin_job, finish_job, fail_job, process_job, work_next, work}

-- The attempts that a job has left, and those of all jobs of a queue.
unfoldable pub tries_left : Job → ℕ
tries_left job = suc (job.retries - job.retry_count)

unfoldable pub tries_of : Heap → List Item → ℕ
unfolding tries_left
tries_of heap [] = 0
tries_of heap (item ∷ rest) = tries_left (heap item.job) + tries_of heap rest

tries_of-insert :
    (heap : Heap) (x : Item) (ys : List Item)
    → tries_of heap (insert x ys) ≡ tries_left (heap x.job) + tries_of heap ys
unfolding tries_of insert
tries_of-insert heap x [] = refl
tries_of-insert heap x (y ∷ ys) = elim (Bool-cases (item_lt x y)) [
  | inl e ↦ rw e refl
  | inr e ↦ rw e (omega (arith, tries_of-insert heap x ys))
]

tries_of_le :
    (h g : Heap) (ys : List Item)
    → ((r : ℕ) → tries_left (h r) ≤ tries_left (g r))
    → tries_of h ys ≤ tries_of g ys
unfolding tries_of
tries_of_le h g [] l = omega arith
tries_of_le h g (y ∷ ys) l = omega (arith, l y.job, tries_of_le h g ys l)

-- What one processing does to the heap and the queue, as far as the attempts are concerned.
abbrev Spends : ℕ → System → System → Type 0
Spends ref s s' =
    ((r : ℕ) → tries_left (s'.heap r) ≤ tries_left (s.heap r))
    × (tries_of s'.heap s'.queue.items < tries_left (s.heap ref) + tries_of s.heap s.queue.items)

begin_job-tries :
    (ref now r : ℕ) (s : System)
    → (tries_left ((begin_job ref now s).0.heap r) ≡ tries_left (s.heap r))
      × ((begin_job ref now s).0.queue ≡ s.queue)
unfolding begin_job tries_left
begin_job-tries ref now r s = (ground arith, ground arith)

-- A heap with one attempt less for the job at `ref`.
retried_tries :
    (heap : Heap) (ref : ℕ) (job : Job)
    → job.retries ≡ (heap ref).retries
    → job.retry_count ≡ (heap ref).retry_count + 1
    → (r : ℕ) → tries_left (write heap ref job r) ≤ tries_left (heap r)
unfolding tries_left
retried_tries heap ref job e f r = ground arith

kept_tries :
    (heap : Heap) (ref : ℕ) (job : Job)
    → job.retries ≡ (heap ref).retries
    → job.retry_count ≡ (heap ref).retry_count
    → (r : ℕ) → tries_left (write heap ref job r) ≤ tries_left (heap r)
unfolding tries_left
kept_tries heap ref job e f r = ground arith

ended :
    (heap : Heap) (ref : ℕ) (job : Job) (ys : List Item)
    → job.retries ≡ (heap ref).retries
    → job.retry_count ≡ (heap ref).retry_count
    → tries_of (write heap ref job) ys < tries_left (heap ref) + tries_of heap ys
unfolding tries_left
ended heap ref job ys e f =
    omega (arith, tries_of_le (write heap ref job) heap ys (kept_tries heap ref job e f))

retried :
    (heap : Heap) (ref : ℕ) (job : Job) (x : Item) (ys : List Item)
    → x.job ≡ ref
    → job.retries ≡ (heap ref).retries
    → job.retry_count ≡ (heap ref).retry_count + 1
    → (heap ref).retry_count < (heap ref).retries
    → tries_of (write heap ref job) (insert x ys) < tries_left (heap ref) + tries_of heap ys
unfolding tries_left
retried heap ref job x ys here e f l =
    let own : tries_left (write heap ref job x.job) < tries_left (heap ref) = ground arith in
    omega (
      arith,
      own,
      tries_of-insert (write heap ref job) x ys,
      tries_of_le (write heap ref job) heap ys (retried_tries heap ref job e f),
    )

fail_job-Spends :
    (ref : ℕ) (message : String) (now : ℕ) (s : System) → Spends ref s (fail_job ref message now s)
unfolding fail_job put
fail_job-Spends ref message now s =
    elim (Bool-cases (ltb (s.heap ref).retry_count (s.heap ref).retries)) [
      | inl e ↦ rw e (
        retried_tries s.heap ref _ refl refl,
        retried s.heap ref _ _ s.queue.items refl refl refl (ground (arith, e)),
      )
      | inr e ↦ rw e (kept_tries s.heap ref _ refl refl, ended s.heap ref _ s.queue.items refl refl)
    ]

finish_job-Spends :
    (ref : ℕ) (outcome : Outcome) (now : ℕ) (s : System)
    → Spends ref s (finish_job ref outcome now s)
unfolding finish_job
finish_job-Spends ref (returns v) now s =
    (kept_tries s.heap ref _ refl refl, ended s.heap ref _ s.queue.items refl refl)
finish_job-Spends ref (raises message) now s = fail_job-Spends ref message now s

process_job-Spends :
    (ref : ℕ) (outcome : Outcome) (now : ℕ) (s : System)
    → Spends ref s (process_job ref outcome now s)
unfolding process_job
process_job-Spends ref outcome now s =
    let (s1, started) = begin_job ref now s in
    let same : (r : ℕ) → tries_left (s1.heap r) ≡ tries_left (s.heap r) =
      λ r. (begin_job-tries ref now r s).0 in
    let queue : s1.queue ≡ s.queue = (begin_job-tries ref now ref s).1 in
    let le : tries_of s1.heap s.queue.items ≤ tries_of s.heap s.queue.items =
      tries_of_le s1.heap s.heap s.queue.items (λ r. omega (arith, same r)) in
    let (a, b) = finish_job-Spends ref outcome now s1 in
    elim (Bool-cases started) [
      | inl e ↦ rw e ((λ r. omega (arith, a r, same r)), omega (arith, rw queue at b, le, same ref))
      | inr e ↦
          rw e ((λ r. omega (arith, same r)), rw queue (unfold tries_left in omega (arith, le)))
    ]

work_next-tries :
    (outcome : Outcome) (now n : ℕ) (s : System)
    → tries_of s.heap s.queue.items ≤ suc n
    → let s' = work_next outcome now s in tries_of s'.heap s'.queue.items ≤ n
unfolding work_next get_nowait tries_of
work_next-tries outcome now n s l = elim (List-cases s.queue.items) [
  | inl e ↦ rw (e, work_next, get_nowait) (rw (e, tries_of) (omega arith))
  | inr (x, xs, e) ↦
      let s1 : System = record s { queue = record s.queue { items = xs } } in
      let (a, b) = process_job-Spends x.job outcome now s1 in
      rw (e, work_next, get_nowait) (omega (arith, b, rw e at l))
]

-- The workers come to an end: whatever the targets do, the queue is empty after any number of
-- turns that is at least the number of attempts that the queued jobs have left: for each entry of
-- the queue one, and one for each retry not yet used.
pub work-drains :
    (n : ℕ) (plan : ℕ → Outcome × ℕ) (s : System)
    → tries_of s.heap s.queue.items ≤ n
    → (work n plan s).queue.items ≡ []
unfolding work tries_of
work-drains zero plan s l = elim (List-cases s.queue.items) [
  | inl e ↦ e
  | inr (x, xs, e) ↦ absurd (unfold tries_left in omega (arith, rw e at l))
]
work-drains (suc n) plan s l =
    let (outcome, now) = plan n in
    work-drains n plan (work_next outcome now s) (work_next-tries outcome now n s l)
