-- ===== src/Services/Lifecycle/Shutdown.antt =====
-- `shutdown`: which states it changes, and that no service stays active whose shutdown returns.
use yasin_core.Prelude.{
  String, ◌≡◌, refl, true, false, ◌⊎◌, List, [], ◌∷◌, reverse, arith, ◌==◌, eq_iff, eq_refl, inl,
  inr, Option, none, some, Bool-cases, Option-cases, ◌≢◌,
}
use yasin_core.Prelude.Counting.{elem, elem→count, count→elem, count-reverse}
use yasin_core.Dict
use yasin_core.Dict.{Dict, get-put}
use yasin_core.Services.{
  ServiceState, active, stopped, uninitialized, initializing, failed, Manager, Hosting, shutdown,
  call_hook,
}
use yasin_core.Services.Wellformed.{IsWellformed}
use yasin_core.Services.Startup.{startup_order}
use yasin_core.Services.Startup.Correct.{startup_order-Respects}
use yasin_core.Services.Lifecycle.Started.{Result-cases}
use yasin_core.Services.Lifecycle.{
  Host, call_on, shutdown_one, stop_settle, shutdown_all, shutdown_services, order_or_keys,
}

is_active_cases : (o : Option ServiceState) → (o ≡ some active) ⊎ (o ≢ some active)
is_active_cases none = inr (λ e. cc)
is_active_cases (some active) = inl refl
is_active_cases (some uninitialized) = inr (λ e. cc)
is_active_cases (some initializing) = inr (λ e. cc)
is_active_cases (some failed) = inr (λ e. cc)
is_active_cases (some stopped) = inr (λ e. cc)

module _ (hosting : Hosting) where
  open hosting use {Service, World}

  -- An active service is asked to stop; any other is left alone.
  pub shutdown_one_cases :
      (name : String) (m : Manager Service) (w : World)
      → ((Dict.get m.states name ≡ some active)
          × (shutdown_one hosting name (m, w)
              ≡ stop_settle hosting name m (call_on hosting shutdown name (m, w))))
        ⊎ ((Dict.get m.states name ≢ some active) × (shutdown_one hosting name (m, w) ≡ (m, w)))
  unfolding shutdown_one
  shutdown_one_cases name m w = elim (is_active_cases (Dict.get m.states name)) [
    | inl e ↦ inl (e, rw (e, shutdown_one))
    | inr ne ↦ inr (ne, ground arith)
  ]

  -- A state is kept, or an active service is now stopped.
  abbrev pub Kept : Option ServiceState → Option ServiceState → Type 0
  Kept before after = (after ≡ before) ⊎ ((before ≡ some active) × (after ≡ some stopped))

  Kept-trans : (a b c : Option ServiceState) → Kept a b → Kept b c → Kept a c
  Kept-trans a b c p q = ground arith

  stop_settle-Kept :
      (name : String) (m : Manager Service) (outcome : Option String) (w : World) (n : String)
      → Dict.get m.states name ≡ some active
      → Kept (Dict.get m.states n) (Dict.get (stop_settle hosting name m (outcome, w)).0.states n)
  stop_settle-Kept name m none w n was =
      ground (arith, was, get-put m.states name n stopped, eq_iff name n)
  stop_settle-Kept name m (some message) w n was = inl refl

  shutdown_one-Kept :
      (name : String) (host : Host hosting) (n : String)
      → Kept (Dict.get host.0.states n) (Dict.get (shutdown_one hosting name host).0.states n)
  shutdown_one-Kept name (m, w) n = elim (shutdown_one_cases name m w) [
    | inl (was, e) ↦
        let (outcome, w') = call_on hosting shutdown name (m, w) in
        rw e (stop_settle-Kept name m outcome w' n was)
    | inr (_, e) ↦ rw e (inl refl)
  ]

  shutdown_all-Kept :
      (names : List String) (host : Host hosting) (n : String)
      → Kept (Dict.get host.0.states n) (Dict.get (shutdown_all hosting names host).0.states n)
  unfolding shutdown_all
  shutdown_all-Kept [] host n = inl refl
  shutdown_all-Kept (x ∷ names) host n =
      Kept-trans _ (Dict.get (shutdown_one hosting x host).0.states n) _
        (shutdown_one-Kept x host n) (shutdown_all-Kept names (shutdown_one hosting x host) n)

  -- A shutdown leaves each service's state as it was, or moves it from active to stopped, and
  -- takes the mark off the manager, whether services raise or not.
  pub shutdown_services-Kept :
      (m : Manager Service) (w : World)
      → let (m', w') = shutdown_services hosting (m, w) in
        (m'.is_initialized ≡ false)
        × ((n : String) → Kept (Dict.get m.states n) (Dict.get m'.states n))
  unfolding shutdown_services
  shutdown_services-Kept m w = (refl, shutdown_all-Kept (reverse (order_or_keys hosting m)) (m, w))

  -- No service raises on shutdown.
  abbrev pub IsCalm : Type 0
  IsCalm = (service : Service) (w : World) → (call_hook hosting shutdown service w).0 ≡ none

  module _ (calm : IsCalm) where
    call_on-calm :
        (name : String) (host : Host hosting) → (call_on hosting shutdown name host).0 ≡ none
    unfolding call_on
    call_on-calm name (m, w) = elim (Option-cases (Dict.get m.services name)) [
      | inl e ↦ rw (e, call_on)
      | inr (service, e) ↦ rw (e, call_on) (calm service w)
    ]

    stop_settle-calm :
        (name : String) (m : Manager Service) (outcome : Option String) (w : World)
        → outcome ≡ none
        → Dict.get (stop_settle hosting name m (outcome, w)).0.states name ≢ some active
    stop_settle-calm name m none w h e = cc (get-put m.states name name stopped, eq_refl name, e)
    stop_settle-calm name m (some message) w h e = cc

    shutdown_one-calm :
        (name : String) (host : Host hosting)
        → Dict.get (shutdown_one hosting name host).0.states name ≢ some active
    shutdown_one-calm name (m, w) = elim (shutdown_one_cases name m w) [
      | inl (_, e) ↦
          let (outcome, w') = call_on hosting shutdown name (m, w) in
          rw e (stop_settle-calm name m outcome w' (call_on-calm name (m, w)))
      | inr (ne, e) ↦ rw e ne
    ]

    shutdown_all-calm :
        (names : List String) (host : Host hosting) (n : String)
        → elem n names ≡ true
        → Dict.get (shutdown_all hosting names host).0.states n ≢ some active
    unfolding shutdown_all elem
    shutdown_all-calm [] host n h = cc
    shutdown_all-calm (x ∷ names) host n h =
        let host1 = shutdown_one hosting x host in
        elim (Bool-cases (x == n)) [
          | inl here ↦
              ground
                (arith, here, eq_iff x n, shutdown_one-calm x host, shutdown_all-Kept names host1 n)
          | inr there ↦ shutdown_all-calm names host1 n (ground (arith, h, there))
        ]

    elem-order_or_keys :
        (m : Manager Service) (n : String)
        → IsWellformed m
        → Dict.has m.services n ≡ true
        → elem n (reverse (order_or_keys hosting m)) ≡ true
    unfolding order_or_keys Dict.has
    elem-order_or_keys m n wf h = count→elem n (reverse (order_or_keys hosting m)) (
        rw count-reverse (elim (Result-cases (startup_order m)) [
          | inl (order, e) ↦
              rw (e, order_or_keys)
                (omega (
                  arith,
                  (startup_order-Respects m wf order e).0 n,
                  elem→count n (Dict.keys m.services) h,
                ))
          | inr (x, e) ↦ rw (e, order_or_keys) (elem→count n (Dict.keys m.services) h)
        ]))

    -- In a well-formed manager where no service raises on shutdown, no registered service is
    -- active after the shutdown, also when dependencies are missing or circular.
    pub shutdown_services-none_active :
        (m : Manager Service) (w : World) (n : String)
        → IsWellformed m
        → Dict.has m.services n ≡ true
        → Dict.get (shutdown_services hosting (m, w)).0.states n ≢ some active
    unfolding shutdown_services
    shutdown_services-none_active m w n wf h =
        shutdown_all-calm (reverse (order_or_keys hosting m)) (m, w) n (elem-order_or_keys m n wf h)
