-- ===== src/Services/Lifecycle/Keys.antt =====
-- The lifecycle operations keep the registrations: services, metadata and the keys of the states.
use yasin_core.Prelude.{
  String, ◌≡◌, refl, ◌∙◌, true, List, [], ◌∷◌, arith, eq_refl, reverse, inl, inr, Option, none,
  some, Bool-cases,
}
use yasin_core.Prelude.Counting.{elem, elem→count, count→elem}
use yasin_core.Dict
use yasin_core.Dict.{Dict, keys-put, get-has, has_of_keys}
use yasin_core.Services.{
  ServiceState, initializing, active, failed, stopped, Manager, Result, ok, err, Hosting,
  initialize, shutdown,
}
use yasin_core.Services.Wellformed.{IsWellformed}
use yasin_core.Services.Lifecycle.{
  set_state, Host, call_on, settle, initialize_one, initialize_all, mark_initialized,
  initialize_services, shutdown_one, stop_settle, shutdown_all, shutdown_services, order_or_keys,
}
use yasin_core.Services.Lifecycle.Initialize.{initialize_all-ok, initialize_all-err}
use yasin_core.Services.Lifecycle.Started.{
  Result-cases, initialize_services-done, initialize_services-order, initialize_services-err,
}
use yasin_core.Services.Lifecycle.Shutdown.{shutdown_one_cases}
use yasin_core.Services.Startup.{startup_order}
use yasin_core.Services.Startup.Correct.{startup_order-Respects}

-- The registrations of two managers agree.
pub record SameKeys {Service : Type 0} (m m' : Manager Service) : Type 0 where
  pub services : m'.services ≡ m.services
  pub metadata : m'.metadata ≡ m.metadata
  pub states : Dict.keys m'.states ≡ Dict.keys m.states

module _ {Service : Type 0} where
  pub SameKeys-refl : (m : Manager Service) → SameKeys m m
  SameKeys-refl m = record { services = refl; metadata = refl; states = refl }

  pub SameKeys-trans : (a b c : Manager Service) → SameKeys a b → SameKeys b c → SameKeys a c
  SameKeys-trans a b c p q = record {
    services = q.services ∙ p.services;
    metadata = q.metadata ∙ p.metadata;
    states = q.states ∙ p.states;
  }

  pub SameKeys-IsWellformed :
      (m m' : Manager Service) → SameKeys m m' → IsWellformed m → IsWellformed m'
  SameKeys-IsWellformed m m' p wf = record {
    metadata_keys = rw (p.metadata, p.services) wf.metadata_keys;
    states_keys = rw (p.states, p.services) wf.states_keys;
    distinct = λ n. rw p.services (wf.distinct n);
  }

  set_state-SameKeys :
      (m : Manager Service) (name : String) (state : ServiceState)
      → Dict.has m.states name ≡ true
      → SameKeys m (set_state m name state)
  set_state-SameKeys m name state h = record {
    services = refl;
    metadata = refl;
    states = keys-put m.states name state h;
  }

module _ (hosting : Hosting) where
  settle-SameKeys :
      (name : String) (m : Manager hosting.Service) (outcome : Option String) (w : hosting.World)
      → Dict.has m.states name ≡ true
      → SameKeys m (settle hosting name m (outcome, w)).1.0
  unfolding settle
  settle-SameKeys name m none w h = set_state-SameKeys m name active h
  settle-SameKeys name m (some message) w h = set_state-SameKeys m name failed h

  initialize_one-SameKeys :
      (name : String) (host : Host hosting)
      → Dict.has host.0.states name ≡ true
      → SameKeys host.0 (initialize_one hosting name host).1.0
  unfolding initialize_one
  initialize_one-SameKeys name (m, w) h =
      let m1 = set_state m name initializing in
      let (outcome, w') = call_on hosting initialize name (m1, w) in
      let first = set_state-SameKeys m name initializing h in
      SameKeys-trans m m1 _ first
        (settle-SameKeys name m1 outcome w' (has_of_keys m1.states m.states name first.states ∙ h))

  initialize_all-SameKeys :
      (names : List String) (host : Host hosting)
      → ((n : String) → elem n names ≡ true → Dict.has host.0.states n ≡ true)
      → SameKeys host.0 (initialize_all hosting names host).1.0
  unfolding initialize_all elem
  initialize_all-SameKeys [] host h = SameKeys-refl host.0
  initialize_all-SameKeys (x ∷ names) host h =
      let host1 = (initialize_one hosting x host).1 in
      let first = initialize_one-SameKeys x host (h x (ground (arith, eq_refl x))) in
      elim (Result-cases (initialize_one hosting x host).0) [
        | inl (_, e) ↦ rw (initialize_all-ok hosting x names host e) (
            SameKeys-trans host.0 host1.0 _ first (
              initialize_all-SameKeys names host1 (λ n m.
                has_of_keys host1.0.states host.0.states n first.states ∙ h n (ground (arith, m)))))
        | inr (e, raised) ↦ rw (initialize_all-err hosting x names host e raised) first
      ]

  mark_initialized-SameKeys :
      (m : Manager hosting.Service) (result : Result (Unit {0})) (host : Host hosting)
      → SameKeys m host.0
      → SameKeys m (mark_initialized hosting (result, host)).1.0
  mark_initialized-SameKeys m (ok _) host p = record {
    services = p.services;
    metadata = p.metadata;
    states = p.states;
  }
  mark_initialized-SameKeys m (err e) host p = p

  pub initialize_services-SameKeys :
      (host : Host hosting)
      → IsWellformed host.0
      → SameKeys host.0 (initialize_services hosting host).1.0
  unfolding Dict.has
  initialize_services-SameKeys (m, w) wf = elim (Bool-cases m.is_initialized) [
    | inl done ↦ rw (initialize_services-done hosting m w done) (SameKeys-refl m)
    | inr fresh ↦ elim (Result-cases (startup_order m)) [
      | inl (order, e) ↦
          let (result, host') = initialize_all hosting order (m, w) in
          rw (initialize_services-order hosting m w fresh order e) (
            mark_initialized-SameKeys m result host' (
              initialize_all-SameKeys order (m, w)
                λ n h. rw wf.states_keys (
                  count→elem n _ (
                    omega
                      (arith, (startup_order-Respects m wf order e).0 n, elem→count n order h)))))
      | inr (e, raised) ↦ rw (initialize_services-err hosting m w fresh e raised) (SameKeys-refl m)
    ]
  ]

  stop_settle-SameKeys :
      (name : String) (m : Manager hosting.Service) (outcome : Option String) (w : hosting.World)
      → Dict.has m.states name ≡ true
      → SameKeys m (stop_settle hosting name m (outcome, w)).0
  stop_settle-SameKeys name m none w h = set_state-SameKeys m name stopped h
  stop_settle-SameKeys name m (some message) w h = SameKeys-refl m

  shutdown_one-SameKeys :
      (name : String) (host : Host hosting) → SameKeys host.0 (shutdown_one hosting name host).0
  shutdown_one-SameKeys name (m, w) = elim (shutdown_one_cases hosting name m w) [
    | inl (was, e) ↦
        let (outcome, w') = call_on hosting shutdown name (m, w) in
        rw e (stop_settle-SameKeys name m outcome w' (get-has m.states name active was))
    | inr (_, e) ↦ rw e (SameKeys-refl m)
  ]

  shutdown_all-SameKeys :
      (names : List String) (host : Host hosting)
      → SameKeys host.0 (shutdown_all hosting names host).0
  unfolding shutdown_all
  shutdown_all-SameKeys [] host = SameKeys-refl host.0
  shutdown_all-SameKeys (x ∷ names) host =
      SameKeys-trans host.0 (shutdown_one hosting x host).0 _ (shutdown_one-SameKeys x host)
        (shutdown_all-SameKeys names (shutdown_one hosting x host))

  pub shutdown_services-SameKeys :
      (host : Host hosting) → SameKeys host.0 (shutdown_services hosting host).0
  unfolding shutdown_services
  shutdown_services-SameKeys (m, w) =
      let p = shutdown_all-SameKeys (reverse (order_or_keys hosting m)) (m, w) in
      record { services = p.services; metadata = p.metadata; states = p.states }
