-- ===== src/Services/Lifecycle/Started.antt =====
-- What `initialize` of the whole manager guarantees.
use mathlib.Core.List.{append-nil, append_assoc}
use yasin_core.Prelude.{
  String, ◌≡◌, refl, ap, ◌∙◌, true, false, ◌⊎◌, List, [], ◌∷◌, ◌++◌, inl, inr, some,
}
use yasin_core.Prelude.Counting.{count, elem}
use yasin_core.Dict
use yasin_core.Dict.{Dict}
use yasin_core.Services.{active, ServiceError, Manager, Result, ok, err, Hosting}
use yasin_core.Services.Wellformed.{IsWellformed}
use yasin_core.Services.Startup.{startup_order}
use yasin_core.Services.Startup.Links.{dependencies}
use yasin_core.Services.Startup.Loop.{pending, Respects}
use yasin_core.Services.Startup.Acyclic.{elem-pending}
use yasin_core.Services.Startup.Correct.{startup_order-Respects}
use yasin_core.Services.Lifecycle.{
  Host, initialize_one, initialize_all, mark_initialized, initialize_services,
}
use yasin_core.Services.Lifecycle.Initialize.{
  StoppedAt, Pass, initialize_all-Pass, initialize_all-ok, initialize_all-err,
}

pub Result-cases :
    {A : Type 0} (r : Result A) → ((a : A) × (r ≡ ok a)) ⊎ ((e : ServiceError) × (r ≡ err e))
Result-cases (ok a) = inl (a, refl)
Result-cases (err e) = inr (e, refl)

Respects-middle :
    (deps : String → List String) (seen before : List String) (name : String) (after : List String)
    → Respects deps seen (before ++ name ∷ after)
    → pending (seen ++ before) (deps name) ≡ 0
Respects-middle deps seen [] name after r = rw append-nil r.0
Respects-middle deps seen (x ∷ xs) name after r =
    rw append_assoc at (Respects-middle deps (seen ++ x ∷ []) xs name after r.1)

module _ (hosting : Hosting) where
  initialize_all-append :
      (before after : List String) (host host' : Host hosting)
      → initialize_all hosting before host ≡ (ok tt, host')
      → initialize_all hosting (before ++ after) host ≡ initialize_all hosting after host'
  unfolding initialize_all
  initialize_all-append [] after host host' h = ap (initialize_all hosting after) (ap (λ r. r.1) h)
  initialize_all-append (x ∷ xs) after host host' h =
      elim (Result-cases (initialize_one hosting x host).0) [
        | inl (_, e) ↦ rw (initialize_all-ok hosting x (xs ++ after) host e) (
            initialize_all-append xs after _ host'
              (rw (initialize_all-ok hosting x xs host e) at h))
        | inr (e, raised) ↦ absurd (cc (initialize_all-err hosting x xs host e raised))
      ]

  -- The manager is marked and every service of the order is active; or the pass stopped at a
  -- service that raised, and the manager is not marked.
  abbrev pub Started : List String → Host hosting → Result (Unit {0}) → Host hosting → Type 0
  Started order host result host' =
      ((result ≡ ok tt)
        × (host'.0.is_initialized ≡ true)
        × ((n : String) → elem n order ≡ true → Dict.get host'.0.states n ≡ some active))
      ⊎ (StoppedAt hosting order host result host' × (host'.0.is_initialized ≡ false))

  mark-Started :
      (order : List String) (host host' : Host hosting) (result : Result (Unit {0}))
      → host.0.is_initialized ≡ false
      → Pass hosting order host result host'
      → let (r, h) = mark_initialized hosting (result, host') in Started order host r h
  mark-Started order host host' (ok u) fresh p = elim p.outcome [
    | inl (_, all) ↦ inl (cc, refl, all)
    | inr (_, _, _, _, _, raised, _, _, _) ↦ absurd (cc)
  ]
  mark-Started order host host' (err e) fresh p = elim p.outcome [
    | inl (fine, _) ↦ absurd (cc)
    | inr stopped ↦ inr (stopped, p.flag_kept ∙ fresh)
  ]

  -- `initialize` of a manager that is marked changes nothing.
  pub initialize_services-done :
      (m : Manager hosting.Service) (w : hosting.World)
      → m.is_initialized ≡ true
      → initialize_services hosting (m, w) ≡ (ok tt, (m, w))
  unfolding initialize_services
  initialize_services-done m w h = simp h

  module _ (m : Manager hosting.Service) (w : hosting.World)
      (fresh : m.is_initialized ≡ false) where
    pub initialize_services-order :
        (order : List String)
        → startup_order m ≡ ok order
        → initialize_services hosting (m, w)
          ≡ mark_initialized hosting (initialize_all hosting order (m, w))
    unfolding initialize_services
    initialize_services-order order h = simp (fresh, h)

    pub initialize_services-err :
        (e : ServiceError)
        → startup_order m ≡ err e
        → initialize_services hosting (m, w) ≡ (err e, (m, w))
    unfolding initialize_services
    initialize_services-err e h = simp (fresh, h)

    -- `initialize` of a well-formed manager that is not marked as initialized: without a startup
    -- order its error is raised and nothing changes; with one, which holds each registered service
    -- once, either it returns, the manager is marked and every service of the order is active, or
    -- a service raised, the ones before it in the order are active, it is failed, the ones behind
    -- it keep their states, and the manager is not marked.
    pub initialize_services_outcome :
        IsWellformed m
        → let (result, host') = initialize_services hosting (m, w) in
          ((e : ServiceError) × (startup_order m ≡ err e) × (result ≡ err e) × (host' ≡ (m, w)))
          ⊎ ((order : List String) × (startup_order m ≡ ok order)
              × ((n : String) → count n order ≡ count n (Dict.keys m.services))
              × Started order (m, w) result host')
    initialize_services_outcome wf = elim (Result-cases (startup_order m)) [
      | inl (order, e) ↦
          let (result, host') = initialize_all hosting order (m, w) in
          rw (initialize_services-order order e) (
            inr (
              order,
              e,
              (startup_order-Respects m wf order e).0,
              mark-Started order (m, w) host' result fresh
                  (initialize_all-Pass hosting order (m, w)),
            ))
      | inr (e, raised) ↦ rw (initialize_services-err e raised) (inl (e, raised, refl, refl))
    ]

    -- In a well-formed manager that is not marked as initialized: where the pass reaches a
    -- service, the ones before it in the order having been initialized, each of its declared
    -- dependencies is active.
    pub initialize_services_dependencies_active :
        (before : List String) (name : String) (after : List String) (host' : Host hosting)
        → IsWellformed m
        → startup_order m ≡ ok (before ++ name ∷ after)
        → initialize_all hosting before (m, w) ≡ (ok tt, host')
        → (initialize_services hosting (m, w)
            ≡ mark_initialized hosting (initialize_all hosting (name ∷ after) host'))
          × ((dep : String)
              → elem dep (dependencies m.metadata name) ≡ true
              → Dict.get host'.0.states dep ≡ some active)
    initialize_services_dependencies_active before name after host' wf e h =
        let p = initialize_all-Pass hosting before (m, w) in
        let placed =
          Respects-middle (dependencies m.metadata) [] before name after
            (startup_order-Respects m wf _ e).1 in
        (
          initialize_services-order _ e
              ∙ ap (mark_initialized hosting)
                  (initialize_all-append before (name ∷ after) (m, w) host' h),
          λ dep declared. elim (rw h at p.outcome) [
            | inl (_, all) ↦
                all dep (elem-pending before (dependencies m.metadata name) dep placed declared)
            | inr (_, _, _, _, _, raised, _, _, _) ↦ absurd (cc)
          ],
        )
