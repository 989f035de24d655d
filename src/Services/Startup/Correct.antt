-- ===== src/Services/Startup/Correct.antt =====
-- `_get_startup_order` is right: what it returns is a complete order that respects every declared
-- dependency, and it raises its two errors exactly where there is none.
use yasin_core.Prelude.{
  ℕ, ◌≤◌, ◌<◌, String, ◌≡◌, true, false, ◌⊎◌, ◌↔◌, none, some, List, [], ◌∷◌, arith, ◌==◌, eq_iff,
  inl, inr, Bool-cases, Option-cases, length, ltb, suc,
}
use yasin_core.Prelude.Counting.{
  count, elem, elem→count, count→elem, length-le_of_count, count-eq_of_length,
}
use yasin_core.Dict
use yasin_core.Dict.{Dict, length-keys}
use yasin_core.Services.{ServiceMetadata, Manager, ok, err, missing_dependency, circular_dependency}
use yasin_core.Services.Wellformed.{IsWellformed}
use yasin_core.Services.Startup.{first_missing, check_dependencies, run_visit, startup_order}
use yasin_core.Services.Startup.Links.{dependencies}
use yasin_core.Services.Startup.Loop.{Respects}
use yasin_core.Services.Startup.Outcome.{run_visit-Inv, dependencies-outside}
use yasin_core.Services.Startup.Acyclic.{
  IsRanked, IsClosed, all_placed, position, Respects-IsRanked,
}

-- A name with a dependency is a key.
in_keys :
    (md : Dict ServiceMetadata) (n dep : String)
    → elem dep (dependencies md n) ≡ true
    → 0 < count n (Dict.keys md)
unfolding elem
in_keys md n dep h = elim (Bool-cases (elem n (Dict.keys md))) [
  | inl named ↦ elem→count n (Dict.keys md) named
  | inr other ↦ absurd (ground (arith, dependencies-outside md n other))
]

-- A dependency that the check reports is declared and is not registered.
module _ {Service : Type 0} (services : Dict Service) where
  first_missing-some :
      (deps : List String) (dep : String)
      → first_missing services deps ≡ some dep
      → (elem dep deps ≡ true) × (Dict.has services dep ≡ false)
  unfolding first_missing elem
  first_missing-some [] dep h = absurd (cc)
  first_missing-some (x ∷ xs) dep h = ground (arith, first_missing-some xs dep, eq_iff x dep)

  first_missing-none :
      (deps : List String) (dep : String)
      → first_missing services deps ≡ none
      → elem dep deps ≡ true
      → Dict.has services dep ≡ true
  unfolding first_missing elem
  first_missing-none [] dep h e = cc
  first_missing-none (x ∷ xs) dep h e = ground (arith, first_missing-none xs dep, eq_iff x dep)

  check_dependencies-some :
      (md : Dict ServiceMetadata) (name dep : String)
      → ((n : String) → count n (Dict.keys md) ≤ 1)
      → check_dependencies services md ≡ some (name, dep)
      → (elem dep (dependencies md name) ≡ true) × (Dict.has services dep ≡ false)
  unfolding check_dependencies Dict.get Dict.keys count
  check_dependencies-some [] name dep once h = absurd (cc)
  check_dependencies-some ((x, meta) ∷ rest) name dep once h =
      elim (Option-cases (first_missing services meta.dependencies)) [
        | inl fine ↦
            let later : check_dependencies services rest ≡ some (name, dep) =
              ground (arith, h, fine) in
            let (declared, absent) =
              check_dependencies-some rest name dep (λ n. omega (arith, once n)) later in
            elim (Bool-cases (x == name)) [
              | inl twice ↦
                  absurd (ground (arith, once name, twice, in_keys rest name dep declared))
              | inr other ↦ (ground (arith, other, declared), absent)
            ]
        | inr (missing, found) ↦
            ground
              (arith, h, found, first_missing-some meta.dependencies missing found, eq_iff x name)
      ]

  check_dependencies-none :
      (md : Dict ServiceMetadata) (n dep : String)
      → check_dependencies services md ≡ none
      → elem dep (dependencies md n) ≡ true
      → Dict.has services dep ≡ true
  unfolding check_dependencies elem Dict.get
  check_dependencies-none [] n dep h e = cc
  check_dependencies-none ((name, meta) ∷ rest) n dep h e =
      ground (arith, first_missing-none meta.dependencies dep, check_dependencies-none rest n dep)

module _ {Service : Type 0} (m : Manager Service) (wf : IsWellformed m) where
  run_visit-count-le : (n : String) → count n (run_visit m).1 ≤ count n (Dict.keys m.services)
  unfolding count
  run_visit-count-le n =
      let (d, inv, r, e) = run_visit-Inv m wf in
      ground (arith, inv.placed n, elem→count n (Dict.keys m.services))

  -- In a well-formed manager, a returned order holds each registered service exactly once and no
  -- other name, and each service stands behind all of its declared dependencies.
  pub startup_order-Respects :
      (order : List String)
      → startup_order m ≡ ok order
      → ((n : String) → count n order ≡ count n (Dict.keys m.services))
        × Respects (dependencies m.metadata) [] order
  unfolding startup_order
  startup_order-Respects order h =
      let (d, inv, r, e) = run_visit-Inv m wf in
      let same : order ≡ (run_visit m).1 = ground arith in
      (
        rw same (
            count-eq_of_length (run_visit m).1 (Dict.keys m.services) run_visit-count-le
              (ground (arith, length-keys m.services))),
        rw same r,
      )

  metadata-once : (n : String) → count n (Dict.keys m.metadata) ≤ 1
  metadata-once n = rw wf.metadata_keys (wf.distinct n)

  closed-check :
      IsClosed (Dict.keys m.services) (dependencies m.metadata)
      → check_dependencies m.services m.metadata ≡ none
  unfolding Dict.has
  closed-check closed = elim (Option-cases (check_dependencies m.services m.metadata)) [
    | inl fine ↦ fine
    | inr ((name, dep), found) ↦
        let (declared, absent) =
          check_dependencies-some m.services m.metadata name dep metadata-once found in
        absurd (cc (closed name dep declared))
  ]

  startup_order-closed :
      IsClosed (Dict.keys m.services) (dependencies m.metadata)
      → (startup_order m ≡ err circular_dependency)
        ⊎ ((order : List String) × (startup_order m ≡ ok order))
  unfolding startup_order
  startup_order-closed closed =
      elim (Bool-cases (ltb (length (run_visit m).1) (length m.services))) [
        | inl short ↦ inl (rw (closed-check closed, startup_order) (rw short))
        | inr full ↦ inr ((run_visit m).1, rw (closed-check closed, startup_order) (rw full))
      ]

  -- In a well-formed manager: if every declared dependency is registered and the dependencies have
  -- no cycle (some rank falls along each of them), an order is returned.
  pub startup_order-total :
      (rank : String → ℕ)
      → IsClosed (Dict.keys m.services) (dependencies m.metadata)
      → IsRanked rank (dependencies m.metadata)
      → (order : List String) × (startup_order m ≡ ok order)
  unfolding startup_order
  startup_order-total rank closed ranked =
      let (d, inv, r, e) = run_visit-Inv m wf in
      let all : length (Dict.keys m.services) ≤ length (run_visit m).1 =
        length-le_of_count (Dict.keys m.services) (run_visit m).1 (λ n. ground (
          arith,
          wf.distinct n,
          all_placed rank closed ranked d (run_visit m).1 inv (suc (rank n)) n,
          count→elem n (Dict.keys m.services),
          elem→count n (run_visit m).1,
        )) in
      (
        (run_visit m).1,
        rw (closed-check closed, startup_order) (ground (arith, all, length-keys m.services)),
      )

  -- In a well-formed manager with every declared dependency registered, the cycle error is raised
  -- exactly if the dependencies have a cycle: if no rank falls along each of them.
  pub startup_order-circular :
      IsClosed (Dict.keys m.services) (dependencies m.metadata)
      → (startup_order m ≡ err circular_dependency)
        ↔ ((rank : String → ℕ) → ¬ IsRanked rank (dependencies m.metadata))
  startup_order-circular closed = (
    λ h rank ranked. let (order, e) = startup_order-total rank closed ranked in cc,
    λ unranked. elim (startup_order-closed closed) [
      | inl e ↦ e
      | inr (order, e) ↦
          let (same, r) = startup_order-Respects order e in
          absurd (
            unranked (λ n. position n order)
              (Respects-IsRanked (dependencies m.metadata) (Dict.keys m.services) order r
                (λ n h.
                  count→elem n order (omega (arith, same n, elem→count n (Dict.keys m.services) h)))
                (λ n h. dependencies-outside m.metadata n (rw wf.metadata_keys h))))
    ],
  )

  -- In a well-formed manager, a missing dependency that is reported is declared by the service
  -- that is named, and is not registered.
  pub startup_order-missing :
      (name dep : String)
      → startup_order m ≡ err (missing_dependency name dep)
      → (elem dep (dependencies m.metadata name) ≡ true) × (Dict.has m.services dep ≡ false)
  unfolding startup_order
  startup_order-missing name dep h =
      check_dependencies-some m.services m.metadata name dep metadata-once (ground (arith, h))

  -- In a well-formed manager: if some declared dependency is not registered, a missing dependency
  -- is reported.
  pub startup_order-missing_reported :
      (name dep : String)
      → elem dep (dependencies m.metadata name) ≡ true
      → Dict.has m.services dep ≡ false
      → (name' : String) × (dep' : String) × (startup_order m ≡ err (missing_dependency name' dep'))
  unfolding startup_order
  startup_order-missing_reported name dep declared absent =
      elim (Option-cases (check_dependencies m.services m.metadata)) [
        | inl fine ↦ absurd (
            ground
              (arith, absent, check_dependencies-none m.services m.metadata name dep fine declared))
        | inr ((name', dep'), found) ↦ (name', dep', rw (found, startup_order))
      ]
