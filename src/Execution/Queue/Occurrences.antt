-- ===== src/Execution/Queue/Occurrences.antt =====
-- How many entries of the queue are for a job.
use yasin_core.Prelude.{ℕ, ◌+◌, ◌≡◌, refl, List, [], ◌∷◌, if◌then◌else◌, eqb, arith}
use yasin_core.Execution.{Job}
use yasin_core.Execution.Queue.{Item, JobQueue, insert, put}

-- How many of the items are for the job at `ref`.
unfoldable pub occurrences : ℕ → List Item → ℕ
occurrences ref [] = 0
occurrences ref (x ∷ xs) = (if eqb x.job ref then 1 else 0) + occurrences ref xs

occurrences-insert :
    (r : ℕ) (x : Item) (ys : List Item)
    → occurrences r (insert x ys) ≡ (if eqb x.job r then 1 else 0) + occurrences r ys
unfolding insert occurrences
occurrences-insert r x [] = refl
occurrences-insert r x (y ∷ ys) = ground (arith, occurrences-insert r x ys)

-- `put` adds exactly one entry for the job, and leaves every other job's number of entries.
pub occurrences-put :
    (r : ℕ) (q : JobQueue) (ref : ℕ) (job : Job)
    → occurrences r (put q ref job).items ≡ (if eqb ref r then 1 else 0) + occurrences r q.items
unfolding put
occurrences-put r q ref job = occurrences-insert r _ q.items
