-- ===== src/Execution/Queue/Serving.antt =====
-- What the queue promises its users: which job each `get_nowait` returns, whatever was put, taken and
-- cleared before.
use yasin_core.Prelude.{
  ℕ, zero, suc, ◌+◌, ◌≤◌, ◌<◌, ◌≡◌, refl, ap, sym, ◌∙◌, Bool, true, false, Option, none, some, List,
  [], ◌∷◌, if◌then◌else◌, ltb, arith, inl, inr, ◌⊎◌, Bool-cases,
}
use yasin_core.Prelude.Int.{ℤ, neg, ltb_ℤ, pos, negsuc}
use yasin_core.Execution.{Job}
use yasin_core.Execution.Queue.{
  Item, JobQueue, item_lt, insert, put, get_nowait, clear, empty_queue,
}

pub data QueueCall : Type 0 where
  puts : ℕ → Job → QueueCall
  takes : QueueCall
  clears : QueueCall

-- A reply, with those that follow from the state behind it.
abbrev pub reply {ℓ} :
    {State : Type ℓ} → (State → List (Option ℕ)) → State → Option (ℕ × State) → List (Option ℕ)
reply go s none = none ∷ go s
reply go s (some (ref, s')) = some ref ∷ go s'

-- What the calls of `get_nowait` return, one after the other.
unfoldable pub replies : List QueueCall → JobQueue → List (Option ℕ)
unfolding put get_nowait clear
replies [] q = []
replies (puts ref job ∷ calls) q = replies calls (put q ref job)
replies (clears ∷ calls) q = replies calls (clear q)
replies (takes ∷ calls) q = reply (replies calls) q (get_nowait q)

-- An entry of the abstract queue, which keeps its entries in the order in which they came, the newest
-- one first.
pub record Entry : Type 0 where
  pub ref : ℕ
  pub priority : ℤ
  pub created_at : ℕ

-- A newer entry goes first if its priority is higher, or the same and its job was created earlier.
abbrev pub overtakes : Entry → Entry → Bool
overtakes new old =
    if ltb_ℤ old.priority new.priority
    then true
    else if ltb_ℤ new.priority old.priority
    then false
    else ltb new.created_at old.created_at

-- The entry that goes first, and the others.
unfoldable pub choose : List Entry → Option (Entry × List Entry)
choose [] = none
choose (e ∷ es) = elim (choose es) [
  | none ↦ some (e, es)
  | some (b, rest) ↦ if overtakes e b then some (e, es) else some (b, e ∷ rest)
]

abbrev pub next_job : Option (Entry × List Entry) → Option (ℕ × List Entry)
next_job none = none
next_job (some (e, rest)) = some (e.ref, rest)

unfoldable pub expected : List QueueCall → List Entry → List (Option ℕ)
unfolding choose
expected [] es = []
expected (puts ref job ∷ calls) es =
    expected calls (record { ref = ref; priority = job.priority; created_at = job.created_at } ∷ es)
expected (clears ∷ calls) es = expected calls []
expected (takes ∷ calls) es = reply (expected calls) es (next_job (choose es))

abbrev sort : List Item → List Item
sort [] = []
sort (x ∷ xs) = insert x (sort xs)

-- The item of an entry.
record Stands (x : Item) (e : Entry) : Type 0 where
  same_ref : x.job ≡ e.ref
  same_rank : x.rank ≡ neg e.priority
  same_time : x.created_at ≡ e.created_at

-- Items that stand for the entries, with falling counters below `n`.
abbrev Tagged : ℕ → List Item → List Entry → Type 0
Tagged n [] [] = Unit
Tagged n (x ∷ xs) (e ∷ es) = Stands x e × (x.counter < n) × Tagged x.counter xs es
Tagged n _ _ = Path Bool true false

Tagged-weaken :
    (m n : ℕ) (xs : List Item) (es : List Entry) → m ≤ n → Tagged m xs es → Tagged n xs es
Tagged-weaken m n [] [] l t = tt
Tagged-weaken m n (x ∷ xs) (e ∷ es) l (s, c, t) = (s, omega (arith, c, l), t)
Tagged-weaken m n [] (e ∷ es) l t = t
Tagged-weaken m n (x ∷ xs) [] l t = t

ltb_ℤ-neg : (a b : ℤ) → ltb_ℤ (neg a) (neg b) ≡ ltb_ℤ b a
ltb_ℤ-neg (pos zero) (pos zero) = refl
ltb_ℤ-neg (pos zero) (pos (suc b)) = ground arith
ltb_ℤ-neg (pos (suc a)) (pos zero) = ground arith
ltb_ℤ-neg (pos (suc a)) (pos (suc b)) = ground arith
ltb_ℤ-neg (pos zero) (negsuc b) = ground arith
ltb_ℤ-neg (pos (suc a)) (negsuc b) = ground arith
ltb_ℤ-neg (negsuc a) (pos zero) = ground arith
ltb_ℤ-neg (negsuc a) (pos (suc b)) = ground arith
ltb_ℤ-neg (negsuc a) (negsuc b) = ground arith

-- A later item comes first where its entry overtakes.
item_lt-overtakes :
    (x y : Item) (e b : Entry)
    → Stands x e
    → Stands y b
    → y.counter < x.counter
    → item_lt x y ≡ overtakes e b
unfolding item_lt
item_lt-overtakes x y e b p q l =
    rw
      (
        p.same_rank,
        q.same_rank,
        p.same_time,
        q.same_time,
        ltb_ℤ-neg e.priority b.priority,
        ltb_ℤ-neg b.priority e.priority,
      )
      (ground (arith, l))

-- What is known of a sorted list and its entries: both are empty, or the first item stands for the
-- chosen entry.
abbrev Chosen : ℕ → List Item → Option (Entry × List Entry) → Type 0
Chosen n sorted none = sorted ≡ []
Chosen n sorted (some (e, rest)) =
    (x : Item) × (ys : List Item) × (sorted ≡ x ∷ sort ys)
    × Stands x e
    × (x.counter < n)
    × Tagged n ys rest

insert-Chosen :
    (n : ℕ) (x : Item) (xs : List Item) (e : Entry) (es : List Entry)
    → Stands x e
    → x.counter < n
    → Tagged x.counter xs es
    → Chosen x.counter (sort xs) (choose es)
    → Chosen n (insert x (sort xs)) (choose (e ∷ es))
unfolding insert choose
insert-Chosen n x xs e es s l t c = go (choose es) c
  where
    go :
        (o : Option (Entry × List Entry))
        → Chosen x.counter (sort xs) o
        → Chosen n (insert x (sort xs)) (elim o [
          | none ↦ some (e, es)
          | some (b, rest) ↦ if overtakes e b then some (e, es) else some (b, e ∷ rest)
        ])
    go none c = (x, xs, rw c refl, s, l, Tagged-weaken x.counter n xs es (omega (arith, l)) t)
    go (some (b, rest)) (y, ys, sorted, q, m, u) =
        let same = item_lt-overtakes x y e b s q m in
        elim (Bool-cases (overtakes e b)) [
          | inl f ↦ rw f (
            x,
            xs,
            rw (sorted, same, f) refl,
            s,
            l,
            Tagged-weaken x.counter n xs es (omega (arith, l)) t,
          )
          | inr f ↦ rw f (y, x ∷ ys, rw (sorted, same, f) refl, q, omega (arith, l, m), (s, l, u))
        ]

sort-Chosen :
    (n : ℕ) (xs : List Item) (es : List Entry) → Tagged n xs es → Chosen n (sort xs) (choose es)
unfolding choose
sort-Chosen n [] [] t = refl
sort-Chosen n (x ∷ xs) (e ∷ es) (s, l, t) =
    insert-Chosen n x xs e es s l t (sort-Chosen x.counter xs es t)
sort-Chosen n [] (e ∷ es) t = absurd (cc)
sort-Chosen n (x ∷ xs) [] t = absurd (cc)

-- The queue holds the entries.
record Represents (q : JobQueue) (es : List Entry) : Type 0 where
  tagged : List Item
  kept : q.items ≡ sort tagged
  stand : Tagged (q.counter + 1) tagged es

put-Represents :
    (q : JobQueue) (ref : ℕ) (job : Job) (es : List Entry)
    → Represents q es
    → Represents
        (put q ref job)
        (record { ref = ref; priority = job.priority; created_at = job.created_at } ∷ es)
unfolding put
put-Represents q ref job es r = record {
  tagged = _ ∷ r.tagged;
  kept = ap (insert _) r.kept;
  stand = (record { same_ref = refl; same_rank = refl; same_time = refl }, omega arith, r.stand);
}

clear-Represents : (q : JobQueue) → Represents (clear q) []
unfolding clear
clear-Represents q = record { tagged = []; kept = refl; stand = tt }

get_nowait-Represents :
    (q : JobQueue) (es : List Entry)
    → Represents q es
    → ((choose es ≡ none) × (get_nowait q ≡ none))
      ⊎ ((e : Entry) × (rest : List Entry) × (q' : JobQueue) × (choose es ≡ some (e, rest))
          × (get_nowait q ≡ some (e.ref, q'))
          × Represents q' rest)
unfolding get_nowait
get_nowait-Represents q es r = go (choose es) refl (sort-Chosen (q.counter + 1) r.tagged es r.stand)
  where
    go :
        (o : Option (Entry × List Entry))
        → choose es ≡ o
        → Chosen (q.counter + 1) (sort r.tagged) o
        → ((choose es ≡ none) × (get_nowait q ≡ none))
          ⊎ ((e : Entry) × (rest : List Entry) × (q' : JobQueue) × (choose es ≡ some (e, rest))
              × (get_nowait q ≡ some (e.ref, q'))
              × Represents q' rest)
    go none h c = inl (h, rw (r.kept, c) refl)
    go (some (e, rest)) h (x, ys, sorted, s, l, t) = inr (
      e,
      rest,
      record { items = sort ys; counter = q.counter },
      h,
      rw (r.kept, sorted, s.same_ref) refl,
      record { tagged = ys; kept = refl; stand = t },
    )

replies-Represents :
    (calls : List QueueCall) (q : JobQueue) (es : List Entry)
    → Represents q es
    → replies calls q ≡ expected calls es
unfolding replies expected
replies-Represents [] q es r = refl
replies-Represents (puts ref job ∷ calls) q es r =
    replies-Represents calls (put q ref job) _ (put-Represents q ref job es r)
replies-Represents (clears ∷ calls) q es r =
    replies-Represents calls (clear q) [] (clear-Represents q)
replies-Represents (takes ∷ calls) q es r = elim (get_nowait-Represents q es r) [
  | inl (h, g) ↦
      ap (reply (replies calls) q) g
      ∙ ap (λ l. none ∷ l) (replies-Represents calls q es r)
      ∙ sym (ap (λ o. reply (expected calls) es (next_job o)) h)
  | inr (e, rest, q', h, g, r') ↦
      ap (reply (replies calls) q) g
      ∙ ap (λ l. some e.ref ∷ l) (replies-Represents calls q' rest r')
      ∙ sym (ap (λ o. reply (expected calls) es (next_job o)) h)
]

-- On a new queue, whatever was put, taken and cleared before, each `get_nowait` returns the job that
-- the abstract queue chooses: of the entries that are there, one with the highest priority that was
-- known when it was put; of these, one whose job was created first; of these, the one put first. It
-- finds the queue empty exactly where no entry is left.
pub replies-expected : (calls : List QueueCall) → replies calls empty_queue ≡ expected calls []
unfolding empty_queue
replies-expected calls =
    replies-Represents calls empty_queue [] (record { tagged = []; kept = refl; stand = tt })
