-- ===== src/Services/Lifecycle/Reports.antt =====
-- `health`: when the whole is reported healthy.
use yasin_core.Prelude.{String, ◌≡◌, true, [], ◌∷◌, arith, ◌==◌, ◌≢◌, eq_iff, inl, inr, Bool-cases}
use yasin_core.Prelude.Counting.{elem}
use yasin_core.Dict
use yasin_core.Dict.{Dict}
use yasin_core.Services.{
  ServiceState, failed, active, uninitialized, initializing, stopped, Manager, Hosting,
}
use yasin_core.Services.Lifecycle.{health_one, health_all, all_healthy, health_report}

module _ (hosting : Hosting) where
  open hosting use {Service, World}

  health_one-failed :
      (service : Service) (state : ServiceState) (w : World)
      → (health_one hosting service state w).0.0 ≡ true
      → state ≢ failed
  unfolding health_one
  health_one-failed service failed w h e = cc
  health_one-failed service active w h e = cc
  health_one-failed service uninitialized w h e = cc
  health_one-failed service initializing w h e = cc
  health_one-failed service stopped w h e = cc

  all_healthy-none_failed :
      (states : Dict ServiceState) (services : Dict Service) (w : World) (n : String)
      → all_healthy hosting (health_all hosting states services w).0 ≡ true
      → Dict.has services n ≡ true
      → Dict.get_or states n uninitialized ≢ failed
  unfolding health_all all_healthy Dict.has elem Dict.keys
  all_healthy-none_failed states [] w n h there = cc
  all_healthy-none_failed states ((name, service) ∷ rest) w n h there =
      let (one, w') = health_one hosting service (Dict.get_or states name uninitialized) w in
      elim (Bool-cases (name == n)) [
        | inl here ↦ rw (← (eq_iff name n).0 here) (
            health_one-failed service (Dict.get_or states name uninitialized) w (ground (arith, h)))
        | inr other ↦
            all_healthy-none_failed states rest w' n (ground (arith, h))
              (ground (arith, there, other))
      ]

  -- If the report says that the runtime is healthy, no registered service is in the failed state.
  pub health_report-none_failed :
      (m : Manager Service) (w : World) (n : String)
      → (health_report hosting (m, w)).0.0 ≡ true
      → Dict.has m.services n ≡ true
      → Dict.get_or m.states n uninitialized ≢ failed
  unfolding health_report
  health_report-none_failed m w n h there = all_healthy-none_failed m.states m.services w n h there
