-- ===== src/Execution/Queue.antt =====
-- yasin_core/execution/queue.py. `queue.PriorityQueue` is the standard library's: `put` adds an item,
-- `get` takes a least one. Its content is kept here in increasing order of the items' keys.
pub mod Occurrences
pub mod Serving
use yasin_core.Prelude.{
  ℕ, suc, ◌+◌, Bool, true, false, Option, none, some, List, [], ◌∷◌, if◌then◌else◌, ltb, length,
}
use yasin_core.Prelude.Int.{ℤ, neg, ltb_ℤ}
use yasin_core.Execution.{Job}

-- (-job.priority, job.created_at, self._counter, job)
pub record Item : Type 0 where
  pub rank : ℤ
  pub created_at : ℕ
  pub counter : ℕ
  pub job : ℕ

-- The order of the tuples; the counters differ, so the jobs are never compared.
unfoldable pub item_lt : Item → Item → Bool
item_lt a b =
    if ltb_ℤ a.rank b.rank
    then true
    else if ltb_ℤ b.rank a.rank
    then false
    else if ltb a.created_at b.created_at
    then true
    else if ltb b.created_at a.created_at
    then false
    else ltb a.counter b.counter

pub record JobQueue : Type 0 where
  pub items : List Item
  pub counter : ℕ

unfoldable pub empty_queue : JobQueue
empty_queue = record { items = []; counter = 0 }

unfoldable pub insert : Item → List Item → List Item
unfolding item_lt
insert x [] = x ∷ []
insert x (y ∷ ys) = if item_lt x y then x ∷ y ∷ ys else y ∷ insert x ys

-- `put` of the job object at `ref`: its priority and its creation time are read now.
unfoldable pub put : JobQueue → ℕ → Job → JobQueue
unfolding insert
put q ref job =
    let counter = q.counter + 1 in
    record {
      items =
          insert
            (record {
              rank = neg job.priority;
              created_at = job.created_at;
              counter = counter;
              job = ref;
            })
            q.items;
      counter = counter;
    }

-- `none` is the exception `queue.Empty`.
unfoldable pub get_nowait : JobQueue → Option (ℕ × JobQueue)
get_nowait q = elim q.items [ [] ↦ none | item ∷ rest ↦ some (item.job, record q { items = rest }) ]

unfoldable pub is_empty : JobQueue → Bool
is_empty q = elim q.items [ [] ↦ true | _ ∷ _ ↦ false ]

unfoldable pub size : JobQueue → ℕ
size q = length q.items

unfoldable pub clear : JobQueue → JobQueue
clear q = record q { items = [] }
