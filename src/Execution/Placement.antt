-- ===== src/Execution/Placement.antt =====
-- Where a job waits: how often it stands in the central queue and in the queues of the workers.
use yasin_core.Prelude.{
  ℕ, ◌+◌, ◌≤◌, String, ◌≡◌, refl, some, List, [], ◌∷◌, ◌++◌, arith, ◌==◌, if◌then◌else◌, eqb, inl,
  inr, Bool-cases,
}
use yasin_core.Prelude.Counting.{count}
use yasin_core.Dict
use yasin_core.Dict.{Dict}
use yasin_core.Execution.Queue.Occurrences.{occurrences}
use yasin_core.Execution.System.{WorkerNode, System}

unfoldable pub count_ref : ℕ → List ℕ → ℕ
count_ref r [] = 0
count_ref r (x ∷ xs) = (if eqb x r then 1 else 0) + count_ref r xs

pub count_ref-append :
    (r : ℕ) (xs ys : List ℕ) → count_ref r (xs ++ ys) ≡ count_ref r xs + count_ref r ys
unfolding count_ref
count_ref-append r [] ys = omega arith
count_ref-append r (x ∷ xs) ys = omega (arith, count_ref-append r xs ys)

-- In the queues of all workers.
unfoldable pub at_workers : ℕ → Dict WorkerNode → ℕ
at_workers r [] = 0
at_workers r ((id, node) ∷ rest) = count_ref r node.queue + at_workers r rest

-- In all queues.
abbrev pub waiting : ℕ → System → ℕ
waiting r s = occurrences r s.queue.items + at_workers r s.workers

-- A node that is written in the place of another.
pub at_workers-put :
    (r : ℕ) (ws : Dict WorkerNode) (id : String) (old node : WorkerNode)
    → Dict.get ws id ≡ some old
    → at_workers r (Dict.put ws id node) + count_ref r old.queue
      ≡ at_workers r ws + count_ref r node.queue
unfolding at_workers Dict.get Dict.put
at_workers-put r [] id old node h = absurd (cc)
at_workers-put r ((j, w) ∷ ws) id old node h = elim (Bool-cases (j == id)) [
  | inl here ↦ let same : w ≡ old = ground (arith, h, here) in rw (here, same) (omega arith)
  | inr there ↦ rw there (omega (arith, at_workers-put r ws id old node (rw there at h)))
]

pub at_workers-get :
    (r : ℕ) (ws : Dict WorkerNode) (id : String) (node : WorkerNode)
    → Dict.get ws id ≡ some node
    → count_ref r node.queue ≤ at_workers r ws
unfolding at_workers Dict.get
at_workers-get r [] id node h = absurd (cc)
at_workers-get r ((j, w) ∷ ws) id node h = elim (Bool-cases (j == id)) [
  | inl here ↦ let same : w ≡ node = ground (arith, h, here) in rw same (omega arith)
  | inr there ↦ omega (arith, at_workers-get r ws id node (rw there at h))
]

at_workers-absent :
    (r : ℕ) (ws : Dict WorkerNode) (id : String)
    → count id (Dict.keys ws) ≡ 0
    → at_workers r (Dict.remove ws id) ≡ at_workers r ws
unfolding at_workers Dict.remove Dict.keys count
at_workers-absent r [] id h = refl
at_workers-absent r ((j, w) ∷ ws) id h = ground (arith, at_workers-absent r ws id)

-- A node that is removed takes its queue along.
pub at_workers-remove :
    (r : ℕ) (ws : Dict WorkerNode) (id : String) (node : WorkerNode)
    → count id (Dict.keys ws) ≤ 1
    → Dict.get ws id ≡ some node
    → at_workers r (Dict.remove ws id) + count_ref r node.queue ≡ at_workers r ws
unfolding at_workers Dict.get Dict.remove Dict.keys count
at_workers-remove r [] id node c h = absurd (cc)
at_workers-remove r ((j, w) ∷ ws) id node c h = elim (Bool-cases (j == id)) [
  | inl here ↦
      let same : w ≡ node = ground (arith, h, here) in
      rw (here, same) (omega (arith, at_workers-absent r ws id (omega (arith, rw here at c))))
  | inr there ↦
      rw there (
        omega
          (arith, at_workers-remove r ws id node (omega (arith, rw there at c)) (rw there at h)))
]
