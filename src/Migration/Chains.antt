-- ===== src/Migration/Chains.antt =====
-- What the search for a chain of migrations answers.
use yasin_core.Prelude.{
  ℕ, zero, suc, ◌+◌, ◌≤◌, ◌<◌, ◌≡◌, ◌⊎◌, refl, subst, String, Bool, true, false, List, [], ◌∷◌,
  if◌then◌else◌, ◌==◌, eq_iff, eq_refl, length, Bool-cases, inl, inr, arith,
}
use yasin_core.Prelude.Counting.{elem}
use yasin_core.Migration.{
  Migration, no_path, Outcome, found, error, neighbors, VersionPath, extend, jumps, search_paths,
  find_migration_path,
}
use yasin_core.Migration.Rounds.{
  AreLinked, AllLinked, in_queue, unvisited, IsRound, AreNeighbors, extend-IsRound,
}

-- The jumps lead from one version to another, each by a registered migration.
abbrev pub IsChain : List Migration → String → String → List (String × String) → Type 0
IsChain ms start end [] = start ≡ end
IsChain ms start end ((from, to) ∷ rest) =
    (from ≡ start) × (elem to (neighbors ms from) ≡ true) × IsChain ms to end rest

-- A chain, or the error for a target that no chain reaches.
abbrev pub Answers : List Migration → String → String → Outcome (List (String × String)) → Type 0
Answers ms start end (found path) = IsChain ms start end path
Answers ms start end (error e) =
    (e ≡ no_path start end) × ((path : List (String × String)) → ¬ IsChain ms start end path)

jumps-IsChain :
    (ms : List Migration) (start end last : String) (before : List String)
    (rest : List (String × String))
    → AreLinked ms start last before
    → IsChain ms last end rest
    → IsChain ms start end (jumps last before rest)
jumps-IsChain ms start end last [] rest h c = subst (λ (v : String). IsChain ms v end rest) h c
jumps-IsChain ms start end last (previous ∷ before) rest h c =
    jumps-IsChain ms start end previous before ((previous, last) ∷ rest) h.1 (refl, h.0, c)

-- A visited version waits in the queue, or is not the target and all its neighbors are visited.
abbrev Explored : List Migration → String → List VersionPath → List String → Type 0
Explored ms end queue visited =
    (v : String)
    → elem v visited ≡ true
    → (in_queue v queue ≡ true)
      ⊎ (((v == end) ≡ false)
          × ((n : String) → elem n (neighbors ms v) ≡ true → elem n visited ≡ true))

-- Once the queue is empty, no chain leaves the visited versions.
closed-IsChain :
    (ms : List Migration) (end : String) (visited : List String) (v : String)
    (path : List (String × String))
    → Explored ms end [] visited
    → elem v visited ≡ true
    → ¬ IsChain ms v end path
closed-IsChain ms end visited v [] h e c = elim (h v e) [
  | inl f ↦ absurd (cc)
  | inr (f, g) ↦ absurd (ground (arith, f, c, eq_refl end))
]
closed-IsChain ms end visited v ((from, to) ∷ path) h e (same, step, c) = elim (h v e) [
  | inl f ↦ absurd (cc)
  | inr (f, g) ↦
      closed-IsChain ms end visited to path h
        (g to (subst (λ (x : String). elem to (neighbors ms x) ≡ true) same step)) c
]

all_neighbors :
    (ms : List Migration) (v : String) (ns : List String)
    → ((n : String) → elem n ns ≡ true → elem n (neighbors ms v) ≡ true)
    → AreNeighbors ms v ns
unfolding elem
all_neighbors ms v [] h = tt
all_neighbors ms v (n ∷ ns) h =
    (h n (ground (arith, eq_refl n)), all_neighbors ms v ns (λ x e. h x (ground (arith, e))))

same_version : (v w : String) → (w == v) ≡ true → v ≡ w
same_version v w h = ground (arith, h, eq_iff w v)

-- A round keeps the versions explored.
Explored-round :
    (ms : List Migration) (start end : String) (path : VersionPath) (queue : List VersionPath)
    (visited : List String) (queue' : List VersionPath) (visited' : List String)
    → (path.last == end) ≡ false
    → Explored ms end (path ∷ queue) visited
    → IsRound ms start (neighbors ms path.last) queue visited queue' visited'
    → Explored ms end queue' visited'
Explored-round ms start end path queue visited queue' visited' away h r v e = elim (r.queued v e) [
  | inr f ↦ inl f
  | inl f ↦ elim (h v f) [
    | inr (g, closed) ↦ inr (g, λ n l. ground (arith, r.added n, closed n l))
    | inl g ↦ elim (Bool-cases (path.last == v)) [
      | inl same ↦ inr (
        ground (arith, same, away, eq_iff path.last v),
        λ n l. ground (
          arith,
          r.added n,
          subst (λ (x : String). elem n (neighbors ms x) ≡ true) (same_version v path.last same) l,
        ),
      )
      | inr other ↦ inl (r.kept v (ground (arith, g, other)))
    ]
  ]
]

search_paths-Answers :
    (fuel : ℕ) (ms : List Migration) (start end : String) (queue : List VersionPath)
    (visited : List String)
    → AllLinked ms start queue
    → Explored ms end queue visited
    → elem start visited ≡ true
    → length queue + unvisited ms visited < fuel
    → Answers ms start end (search_paths fuel ms start end queue visited)
unfolding search_paths
search_paths-Answers zero ms start end queue visited l x s f = absurd (omega (arith, f))
search_paths-Answers (suc fuel) ms start end [] visited l x s f =
    (refl, λ path. closed-IsChain ms end visited start path x s)
search_paths-Answers (suc fuel) ms start end (path ∷ queue) visited l x s f =
    elim (Bool-cases (path.last == end)) [
      | inl e ↦
          rw (search_paths, e)
            (jumps-IsChain ms start end path.last path.before [] l.0
              (ground (arith, e, eq_iff path.last end)))
      | inr e ↦
          let round =
            extend-IsRound ms start path (neighbors ms path.last) queue visited l.0
              (all_neighbors ms path.last (neighbors ms path.last) (λ n h. h)) in
          let next = extend path (neighbors ms path.last) queue visited in
          rw (search_paths, e)
            (search_paths-Answers fuel ms start end next.0 next.1 (round.linked l.1)
              (Explored-round ms start end path queue visited next.0 next.1 e x round)
              (ground (arith, round.added start, s)) (omega (arith, f, round.measure)))
    ]

unvisited-le_length :
    (ms : List Migration) (visited : List String) → unvisited ms visited ≤ length ms
unvisited-le_length [] visited = omega arith
unvisited-le_length (m ∷ ms) visited = ground (arith, unvisited-le_length ms visited)

-- `_find_migration_path` is right and complete: it either returns jumps by registered migrations that lead from the
-- first version to the second, or raises the error that there is no path, and then there is none. In
-- particular its loop ends, also where the migrations form cycles.
pub find_migration_path-Answers :
    (ms : List Migration) (start end : String)
    → Answers ms start end (find_migration_path ms start end)
unfolding find_migration_path elem
find_migration_path-Answers ms start end = answer (start == end) refl
  where
    fuel : ℕ
    fuel = suc (suc (length ms))

    searched : Outcome (List (String × String))
    searched =
        search_paths fuel ms start end (record { last = start; before = [] } ∷ []) (start ∷ [])

    answer :
        (b : Bool) → (start == end) ≡ b → Answers ms start end (if b then found [] else searched)
    answer true e = ground (arith, e, eq_iff start end)
    answer false e =
        search_paths-Answers fuel ms start end (record { last = start; before = [] } ∷ [])
          (start ∷ []) (refl, tt) (λ v f. inl (ground (arith, f))) (ground (arith, eq_refl start))
          (omega (arith, unvisited-le_length ms (start ∷ [])))
