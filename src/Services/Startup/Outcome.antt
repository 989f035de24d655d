-- ===== src/Services/Startup/Outcome.antt =====
-- The outcome of `_get_startup_order` for a manager: an order, a missing dependency, or a cycle.
use yasin_core.Prelude.{
  ℕ, String, ◌≡◌, refl, true, false, none, some, List, [], ◌∷◌, arith, eq_iff, if◌then◌else◌, inl,
  inr, Bool-cases, length, ltb,
}
use yasin_core.Prelude.Counting.{count, elem, elem→count, count→elem}
use yasin_core.Dict
use yasin_core.Dict.{Dict, has-get, get_or-get}
use yasin_core.Services.{ServiceMetadata, Manager}
use yasin_core.Services.Wellformed.{IsWellformed}
use yasin_core.Services.Startup.{from_keys, link_all, Graph, build_graph, roots, sorted, run_visit}
use yasin_core.Services.Startup.Sorting.{count-sorted}
use yasin_core.Services.Startup.Links.{
  dependencies, get-from_keys, weight-dependencies, link_all-indegree, link_all-indegree_absent,
  link_all-successors,
}
use yasin_core.Services.Startup.Loop.{pending, pending-nil, Respects, IsGraph, Inv}
use yasin_core.Services.Startup.Drain.{visit-Inv, visit-drains}

pub dependencies-outside :
    (md : Dict ServiceMetadata) (n : String)
    → elem n (Dict.keys md) ≡ false
    → dependencies md n ≡ []
unfolding elem Dict.keys Dict.get
dependencies-outside [] n h = refl
dependencies-outside ((name, meta) ∷ rest) n h = ground (arith, dependencies-outside rest n)

count-roots :
    (d : Dict ℕ) (f : String → ℕ) (n : String) (xs : List String)
    → ((x : String) → elem x xs ≡ true → Dict.get d x ≡ some (f x))
    → count n (roots d xs) ≡ (if ltb 0 (f n) then 0 else count n xs)
unfolding count roots elem
count-roots d f n [] h = ground arith
count-roots d f n (x ∷ xs) h =
    ground
      (arith, h x, eq_iff x x, eq_iff x n, count-roots d f n xs (λ y m. h y (ground (arith, m))))

module _ {Service : Type 0} (m : Manager Service) (wf : IsWellformed m) where
  abbrev names : List String
  names = Dict.keys m.services

  abbrev deps : String → List String
  deps n = dependencies m.metadata n

  abbrev graph : Graph
  graph = build_graph m

  graph-indegree :
      (n : String) → elem n names ≡ true → Dict.get graph.indegree n ≡ some (length (deps n))
  unfolding build_graph
  graph-indegree n h =
      let start : Graph = record {
        successors = from_keys [] names;
        indegree = from_keys 0 names;
      } in
      ground (
        arith,
        get-from_keys {V = ℕ} 0 names n,
        link_all-indegree n m.metadata start 0,
        weight-dependencies n length m.metadata refl,
        wf.metadata_keys,
        wf.distinct n,
      )

  graph-successors :
      (n node : String)
      → elem node names ≡ true
      → count n (Dict.get_or graph.successors node []) ≡ count node (deps n)
  unfolding build_graph
  graph-successors n node h =
      let start : Graph = record {
        successors = from_keys [] names;
        indegree = from_keys 0 names;
      } in
      let (r, e, c) =
        link_all-successors n node m.metadata start []
          (ground (arith, get-from_keys {V = List String} [] names node)) in
      rw (get_or-get (link_all m.metadata start).successors node [] r e) (
        unfold count in
        ground (
          arith,
          c,
          weight-dependencies n (count node) m.metadata refl,
          wf.metadata_keys,
          wf.distinct n,
        ))

  built-IsGraph : IsGraph names deps graph.successors
  built-IsGraph = record {
    edges = graph-successors;
    outside = λ n h. dependencies-outside m.metadata n (rw wf.metadata_keys h);
    distinct = wf.distinct;
  }

  start-left :
      (n : String)
      → Dict.get graph.indegree n ≡ (if elem n names then some (pending [] (deps n)) else none)
  start-left n = elim (Bool-cases (elem n names)) [
    | inl named ↦ rw (named, pending-nil) (graph-indegree n named)
    | inr other ↦ rw other (
        unfold build_graph in link_all-indegree_absent n m.metadata _ (rw get-from_keys (rw other)))
  ]

  start-Inv : Inv names deps graph.indegree (sorted (roots graph.indegree names)) []
  unfolding count
  start-Inv = record {
    left = start-left;
    placed = λ n. ground (
      arith,
      count-sorted n (roots graph.indegree names),
      count-roots graph.indegree (λ x. length (deps x)) n names graph-indegree,
      pending-nil (deps n),
      wf.distinct n,
      elem→count n names,
      count→elem n names,
    );
  }

  -- The search ends with an empty queue, for any declared dependencies.
  pub run_visit-Inv :
      (d : Dict ℕ) × Inv names deps d [] (run_visit m).1
      × Respects deps [] (run_visit m).1
      × ((run_visit m).0 ≡ [])
  unfolding run_visit
  run_visit-Inv =
      let queue = sorted (roots graph.indegree names) in
      let (d, inv, r) =
        visit-Inv built-IsGraph (length names) graph.indegree queue [] start-Inv tt in
      let drained =
        visit-drains built-IsGraph (length names) graph.indegree queue [] start-Inv (omega arith) in
      (d, rw drained at inv, r, drained)
