-- ===== src/Orchestrator/Lifecycle.antt =====
-- What a successful start and a successful stop mean for the services.
use yasin_core.Prelude.{
  ℕ, String, ◌≡◌, ◌≢◌, refl, true, false, Option, none, some, [], ◌∷◌, arith, ◌==◌, eq_iff,
  Bool-cases, inl, inr, ◌⊎◌,
}
use yasin_core.Prelude.Counting.{elem, count→elem, elem→count}
use yasin_core.Dict
use yasin_core.Dict.{Dict, get_or-get}
use yasin_core.Services.{
  ServiceState, active, ServiceError, initialization_failed, Result, ok, err, Hosting, Manager,
}
use yasin_core.Services.Wellformed.{IsWellformed}
use yasin_core.Services.Lifecycle.{Host, initialize_services, shutdown_services}
use yasin_core.Services.Lifecycle.Started.{initialize_services_outcome}
use yasin_core.Orchestrator.{
  OrchestratorError, startup_failed, RuntimeState, running, initializing, failed, stopped,
  uninitialized, shutting_down, Orchestrator, transition_to, begin_start, settle_start, start_in,
  start, still_active, settle_stop, stop_services, stop_in, stop,
}

-- The check finds a service if there is an active one of another name than "services".
still_active-none :
    {Service : Type 0}
    → (services : Dict Service) (states : Dict ServiceState) (n : String) → n ≢ "services"
    → still_active services states ≡ none
    → Dict.has services n ≡ true
    → Dict.get states n ≢ some active
unfolding still_active Dict.has Dict.keys elem
still_active-none [] states n other h there on = cc
still_active-none ((name, service) ∷ rest) states n other h there on =
    elim (Bool-cases (name == n)) [
      | inl e ↦
          let here = get_or-get states n ServiceState.uninitialized active on in
          ground (arith, h, here, e, other, eq_iff name n, eq_iff name "services")
      | inr e ↦
          still_active-none rest states n other (ground (arith, h)) (ground (arith, there, e)) on
    ]

module _ (hosting : Hosting) where
  settle_stop-none :
      (now : ℕ) (o : Orchestrator) (left : Option String) (host : Host hosting)
      → (settle_stop hosting now o left host).0 ≡ none
      → (left ≡ none)
        × ((settle_stop hosting now o left host).1.state ≡ stopped)
        × ((settle_stop hosting now o left host).2 ≡ host)
  unfolding settle_stop transition_to
  settle_stop-none now o none host h = (refl, refl, refl)
  settle_stop-none now o (some name) host h = absurd (cc)

  stop_services-returns :
      (now : ℕ) (o : Orchestrator) (host : Host hosting) (n : String)
      → n ≢ "services"
      → let (answer, o', (m', w')) = stop_services hosting now (o, host) in
        answer ≡ none
        → Dict.has m'.services n ≡ true
        → (o'.state ≡ stopped) × (Dict.get m'.states n ≢ some active)
  unfolding stop_services
  stop_services-returns now o host n other h there =
      let host' = shutdown_services hosting host in
      let o1 = transition_to shutting_down o in
      let (none_left, state, same) =
        settle_stop-none now o1 (still_active host'.0.services host'.0.states) host' h in
      (
        state,
        rw same (
            still_active-none host'.0.services host'.0.states n other none_left (rw same at there)),
      )

  stop_in-returns :
      (state : RuntimeState) (now : ℕ) (o : Orchestrator) (host : Host hosting) (n : String)
      → state ≡ running
      → n ≢ "services"
      → (stop_in hosting state now o host).0 ≡ none
      → let (answer, o', (m', w')) = stop_in hosting state now o host in
        Dict.has m'.services n ≡ true → (o'.state ≡ stopped) × (Dict.get m'.states n ≢ some active)
  unfolding stop_in
  stop_in-returns running now o host n run other h there =
      stop_services-returns now o host n other h there
  stop_in-returns uninitialized now o host n run other h there = absurd (cc)
  stop_in-returns initializing now o host n run other h there = absurd (cc)
  stop_in-returns shutting_down now o host n run other h there = absurd (cc)
  stop_in-returns stopped now o host n run other h there = absurd (cc)
  stop_in-returns failed now o host n run other h there = absurd (cc)

  -- If `stop` of a running runtime returns, the runtime is stopped and no registered service is
  -- active, unless it is registered under the name "services".
  pub stop-returns :
      (now : ℕ) (o : Orchestrator) (host : Host hosting) (n : String)
      → o.state ≡ running
      → n ≢ "services"
      → (stop hosting now (o, host)).0 ≡ none
      → let (answer, o', (m', w')) = stop hosting now (o, host) in
        Dict.has m'.services n ≡ true → (o'.state ≡ stopped) × (Dict.get m'.states n ≢ some active)
  unfolding stop
  stop-returns now o host n run other h there =
      stop_in-returns o.state now o host n run other h there

  -- A runtime that `start` does not refuse or take for started.
  abbrev pub IsDown : RuntimeState → Type 0
  IsDown state = (state ≡ uninitialized) ⊎ (state ≡ stopped) ⊎ (state ≡ failed)

  -- By the outcome of the services' initialization: a runtime that runs, or one that failed with
  -- the error of that initialization.
  abbrev pub Launched :
      Manager hosting.Service
      → Result (Unit {0}) × Host hosting
      → Option OrchestratorError × Orchestrator × Host hosting
      → Type 0
  Launched m (result, host) (answer, o', (m', w')) =
      ((result ≡ ok tt)
        × (answer ≡ none)
        × (o'.state ≡ running)
        × ((m', w') ≡ host)
        × ((n : String) → Dict.has m.services n ≡ true → Dict.get m'.states n ≡ some active))
      ⊎ ((e : ServiceError) × (result ≡ err e)
          × (answer ≡ some (startup_failed e))
          × (o'.state ≡ failed)
          × ((m', w') ≡ host)
          × (m'.is_initialized ≡ false))

  start_in-down :
      (state : RuntimeState) (now : ℕ) (o : Orchestrator) (host : Host hosting)
      → IsDown state
      → start_in hosting state now o host
        ≡ settle_start hosting (begin_start hosting now o) (initialize_services hosting host)
  unfolding start_in
  start_in-down state now o host (inl e) = rw (e, start_in) refl
  start_in-down state now o host (inr (inl e)) = rw (e, start_in) refl
  start_in-down state now o host (inr (inr e)) = rw (e, start_in) refl

  settle_start-Launched :
      (m : Manager hosting.Service) (o : Orchestrator) (result : Result (Unit {0}))
      (host : Host hosting)
      → ((e : ServiceError) × (result ≡ err e) × (host.0.is_initialized ≡ false))
        ⊎ ((result ≡ ok tt)
            × ((n : String)
                → Dict.has m.services n ≡ true
                → Dict.get host.0.states n ≡ some active))
      → Launched m (result, host) (settle_start hosting o (result, host))
  unfolding settle_start transition_to
  settle_start-Launched m o (ok u) host (inl (e, r, f)) = absurd (cc)
  settle_start-Launched m o (ok u) host (inr (r, all)) = inl (refl, refl, refl, refl, all)
  settle_start-Launched m o (err x) host (inl (e, r, f)) = inr (x, refl, refl, refl, refl, f)
  settle_start-Launched m o (err x) host (inr (r, all)) = absurd (cc)

  -- `start` of a runtime that is not initialized, stopped or failed, with a well-formed manager that is
  -- not marked as initialized: either the services' initialization returns, `start` returns, the
  -- runtime is running and every registered service is active, or that initialization raises an error,
  -- `start` raises with this error as its cause, the runtime has failed, and the manager is not marked;
  -- in both cases the manager and the world are as the initialization left them.
  pub start-Launched :
      (now : ℕ) (o : Orchestrator) (m : Manager hosting.Service) (w : hosting.World)
      → IsDown o.state
      → IsWellformed m
      → m.is_initialized ≡ false
      → Launched m (initialize_services hosting (m, w)) (start hosting now (o, (m, w)))
  unfolding start Dict.has
  start-Launched now o m w down wf fresh =
      let (result, host') = initialize_services hosting (m, w) in
      rw (start_in-down o.state now o (m, w) down) (
        settle_start-Launched m (begin_start hosting now o) result host'
          (elim (initialize_services_outcome hosting m w fresh wf) [
            | inl (e, _, r, h) ↦ inl (e, r, rw h fresh)
            | inr (order, _, same, inl (r, marked, all)) ↦ inr (
              r,
              λ n there. all n (
                  count→elem n order
                    (omega (arith, same n, elem→count n (Dict.keys m.services) there))),
            )
            | inr (order, _, same, inr ((before, name, after, message, _, r, _, _, _), marked)) ↦
                inl (initialization_failed name message, r, marked)
          ]))
